-- ===== src/ImportQueue/Tests.antt =====
-- Runs of the import worker, and its theorems at concrete inputs.
use public_lighting_fault_re.Base.{
  ℕ, ◌≤◌, ◌≡◌, refl, inr, true, false, Option, none, some, [], ◌∷◌, arith, ◌==◌, if◌then◌else◌,
}
use public_lighting_fault_re.Base.Tables.{find_row, count_rows}
use public_lighting_fault_re.ImportQueue.{
  Point, Payload, created, updated, Outcome, pending, ImportRow, Batch, BatchStatus, queued,
  processing, Db,
}
use public_lighting_fault_re.ImportQueue.Rows.{plan, open_payload, settle_rows}
use public_lighting_fault_re.ImportQueue.Worker.{
  SqlFault, data_violation, outcomes, raised, plan_fault, kinds, process_held, process_import_rows,
}
use public_lighting_fault_re.ImportQueue.Batches.{process_batch, claim_batch}
use public_lighting_fault_re.ImportQueue.Counters.{IsConsistent}
use public_lighting_fault_re.ImportQueue.Whole.{process_batch-IsConsistent}
use public_lighting_fault_re.ImportQueue.Progress.{IsMild}
use public_lighting_fault_re.ImportQueue.Finish.{IsFinished, process_batch-IsFinished}
use public_lighting_fault_re.ImportQueue.Claim.{processing_count, claim_batch_single}

abbrev lamp : ℕ → ℕ → Payload
lamp number latitude = record {
  inventory_number = number;
  longitude = 19;
  latitude = latitude;
  external_id = none;
  address = some none;
  district = none;
  lamp_type = none;
  status = none;
}

abbrev row_of : ℕ → Payload → ImportRow
row_of n p = record {
  batch_id = 4;
  source_row_number = n;
  outcome = pending p;
  entity_id = none;
  reason_code = none;
}

abbrev batch : BatchStatus → Option ℕ → Batch
batch st token = record {
  id = 4;
  confirmation_key = some 77;
  uploaded_by_admin_id = 1;
  status = st;
  update_existing = true;
  preview_expires_at = none;
  queued_at = 100;
  started_at = none;
  completed_at = none;
  lease_until = none;
  worker_token = token;
  attempt_count = 0;
  created_rows = 0;
  updated_rows = 0;
  unchanged_rows = 0;
  skipped_rows = 0;
  failed_rows = 0;
  applied_rows = 0;
  successful_rows = 0;
}

abbrev old_point : Point
old_point = record {
  id = 1;
  inventory_number = 10;
  external_id = none;
  longitude = 18;
  latitude = 48;
  address = none;
  district = some 3;
  lamp_type = none;
  status = 0;
}

abbrev before : BatchStatus → Option ℕ → Db
before st token = record {
  points = old_point ∷ [];
  next_point = 2;
  rows = row_of 1 (lamp 10 49) ∷ row_of 2 (lamp 11 48) ∷ row_of 3 (lamp 12 99) ∷ [];
  batches = batch st token ∷ [];
  audits = [];
}

-- A latitude of 99 breaks a constraint of the table.
abbrev check : Payload → Option SqlFault
check p = if p.latitude == 99 then some data_violation else none

abbrev kind_of : ImportRow → Outcome
kind_of r = r.outcome

first_two :
    process_import_rows check 200 2 4 9 (before processing (some 9))
    ≡ outcomes
        (elim (process_import_rows check 200 2 4 9 (before processing (some 9))) [
          | outcomes db ks ↦ db
          | raised e ↦ before queued none
        ])
        (updated ∷ created ∷ [])
unfolding process_import_rows process_held find_row settle_rows plan open_payload plan_fault kinds
first_two = refl

abbrev counted_batch : Batch
counted_batch = batch processing (some 9)

process_batch-IsConsistent_example :
    IsConsistent (process_batch check 200 4 4 9 (before processing (some 9))).0
unfolding count_rows
process_batch-IsConsistent_example =
    process_batch-IsConsistent check 200 4 9 4 (before processing (some 9)) (
      inr (record {
        created_count = refl;
        updated_count = refl;
        unchanged_count = refl;
        skipped_count = refl;
        failed_count = refl;
        applied_count = refl;
        successful_count = refl;
      }),
      tt,
    )

mild : (p : Payload) → IsMild (check p)
mild p = elim (p.latitude == 99) as (λ b. IsMild (if b then some data_violation else none)) [
  | true ↦ tt
  | false ↦ tt
]

process_batch-IsFinished_example :
    IsFinished check mild 200 4 9 (process_batch check 200 4 4 9 (before processing (some 9)))
unfolding find_row count_rows
process_batch-IsFinished_example =
    process_batch-IsFinished check mild 200 4 9 4 (before processing (some 9)) (omega arith)
      (batch processing (some 9), refl)

claim_batch_single_example : processing_count (claim_batch 200 9 (before queued none)).0.batches ≤ 1
unfolding count_rows
claim_batch_single_example = claim_batch_single 200 9 (before queued none) (tt, tt) (omega arith)
