-- ===== src/ImportQueue/Worker.antt =====
-- The worker's statements on the tables, its loop over a batch, and `confirmImport`.
use public_lighting_fault_re.Base.{
  ℕ, zero, suc, ◌+◌, Bool, true, false, ◌&&◌, Option, none, some, List, [], ◌∷◌, ◌++◌, ltb, ◌==◌,
  if◌then◌else◌, any,
}
use public_lighting_fault_re.Base.Tables.{find_row, update_rows, count_rows}
use public_lighting_fault_re.ImportQueue.{
  Point, Payload, Kind, created, updated, unchanged, skipped, failed, settled, ImportRow, Batch,
  completed, completed_with_errors, Audit, audited, Db, lease_seconds, same_kind, is_claimed,
  is_open_row,
}
use public_lighting_fault_re.ImportQueue.Rows.{Plan, new_point, overwritten, settle_rows}

-- What PostgreSQL raises, by the codes that `safeFailure` tells apart.
pub data SqlFault : Type 0 where
  unique_violation data_violation other_fault : SqlFault

-- `safeFailure`: the reason code, or `none` where the error is thrown on.
abbrev pub safe_failure : SqlFault → Option ℕ
safe_failure unique_violation = some 2
safe_failure data_violation = some 3
safe_failure other_fault = none

pub data Answer : Type 0 where
  outcomes : Db → List Kind → Answer
  raised : SqlFault → Answer

abbrev is_plan_of : Kind → Plan → Bool
is_plan_of k p = same_kind k p.kind

abbrev pub count_plans : Kind → List Plan → ℕ
count_plans k ps = count_rows (is_plan_of k) ps

abbrev apply_plan : Plan → List Point → List Point
apply_plan p points = elim p.kind [
  | created ↦ points ++ (new_point p.entity p.payload ∷ [])
  | updated ↦ update_rows (λ q. q.id == p.entity) (overwritten p.payload) points
  | unchanged ↦ points
  | skipped ↦ points
  | failed ↦ points
]

unfoldable pub apply_plans : List Plan → List Point → List Point
unfolding update_rows
apply_plans [] points = points
apply_plans (p ∷ ps) points = apply_plans ps (apply_plan p points)

unfoldable pub audits_of : ℕ → Kind → List Plan → List Audit
audits_of b k [] = []
audits_of b k (p ∷ ps) =
    let rest = audits_of b k ps in
    if same_kind k p.kind then audited p.entity p.payload.inventory_number b k ∷ rest else rest

abbrev pub first_fault : Option SqlFault → (twin : Bool) → Option SqlFault → Option SqlFault
first_fault (some e) twin rest = some e
first_fault none true rest = some unique_violation
first_fault none false rest = rest

abbrev pub is_written : Kind → Bool
is_written created = true
is_written updated = true
is_written _ = false

-- Another new point of the statement has the plan's inventory number.
abbrev pub is_twin : Plan → Plan → Bool
is_twin p q =
    same_kind created p.kind
    && same_kind created q.kind
    && q.payload.inventory_number == p.payload.inventory_number

-- The table's constraints on each row that is written, which are no part of the program, and the
-- unique index on the inventory number of the new points.
unfoldable pub plan_fault : (Payload → Option SqlFault) → List Plan → Option SqlFault
plan_fault check [] = none
plan_fault check (p ∷ ps) =
    let rest = plan_fault check ps in
    if is_written p.kind then first_fault (check p.payload) (any (is_twin p) ps) rest else rest

unfoldable pub kinds : List Plan → List Kind
kinds [] = []
kinds (p ∷ ps) = p.kind ∷ kinds ps

abbrev is_nil : {A : Type 0} → List A → Bool
is_nil [] = true
is_nil (x ∷ xs) = false

-- The counters after the statement, and the lease, which is renewed where a row was marked.
abbrev pub counted : (now : ℕ) → List Plan → Batch → Batch
counted now ps b =
    let c = count_plans created ps in
    let u = count_plans updated ps in
    let n = count_plans unchanged ps in
    record b {
      created_rows = b.created_rows + c;
      updated_rows = b.updated_rows + u;
      unchanged_rows = b.unchanged_rows + n;
      skipped_rows = b.skipped_rows + count_plans skipped ps;
      applied_rows = b.applied_rows + c + u;
      successful_rows = b.successful_rows + c + u + n;
      lease_until = if is_nil ps then b.lease_until else some (now + lease_seconds);
    }

-- The tables after a statement that planned `ps` and left the batch's rows as `rows`.
abbrev pub processed : (now id : ℕ) → List Plan → List ImportRow → Db → Db
processed now id ps rows db = record {
  points = apply_plans ps db.points;
  next_point = db.next_point + count_plans created ps;
  rows = rows;
  batches = update_rows (λ x. x.id == id) (counted now ps) db.batches;
  audits = db.audits ++ audits_of id created ps ++ audits_of id updated ps;
}

module _ (check : Payload → Option SqlFault) where
  -- The statement, where the batch is still held.
  unfoldable pub process_held : (now limit id : ℕ) → Batch → Db → Answer
  unfolding settle_rows apply_plans audits_of plan_fault kinds
  process_held now limit id b db =
      let (rows, ps) = settle_rows db.points b.update_existing id limit db.next_point db.rows in
      elim (plan_fault check ps) [
        | some e ↦ raised e
        | none ↦ outcomes (processed now id ps rows db) (kinds ps)
      ]

  -- `processImportRows`
  unfoldable pub process_import_rows : (now limit id token : ℕ) → Db → Answer
  unfolding process_held find_row
  process_import_rows now limit id token db = elim (find_row (is_claimed id token) db.batches) [
    | none ↦ outcomes db []
    | some b ↦ process_held now limit id b db
  ]

-- The first pending row of the batch is marked; whether there was one.
unfoldable pub fail_first : (id reason : ℕ) → List ImportRow → List ImportRow × ℕ
fail_first id reason [] = ([], 0)
fail_first id reason (r ∷ rs) =
    let (rs', n) = fail_first id reason rs in
    if is_open_row id r
    then (record r { outcome = settled failed; reason_code = some reason } ∷ rs, 1)
    else (r ∷ rs', n)

abbrev pub count_failed : (now n : ℕ) → Batch → Batch
count_failed now n b = record b {
  failed_rows = b.failed_rows + n;
  lease_until = some (now + lease_seconds);
}

-- `failNextPendingRow`: the batch is left alone where no row was marked.
unfoldable pub fail_next_pending_row : (now id token reason : ℕ) → Db → Db
unfolding fail_first find_row update_rows
fail_next_pending_row now id token reason db = elim (find_row (is_claimed id token) db.batches) [
  | none ↦ db
  | some b ↦
      let (rows, n) = fail_first id reason db.rows in
      record db {
        rows = rows;
        batches =
            if n == 0
            then db.batches
            else update_rows (λ x. x.id == id) (count_failed now n) db.batches;
      }
]

abbrev pub finished : ℕ → Batch → Batch
finished now b = record b {
  status = if ltb 0 b.failed_rows then completed_with_errors else completed;
  completed_at = some now;
  lease_until = none;
  worker_token = none;
}

-- `completeBatch`
unfoldable pub complete_batch : (now id token : ℕ) → Db → Db
unfolding update_rows
complete_batch now id token db =
    if any (is_open_row id) db.rows
    then db
    else record db { batches = update_rows (is_claimed id token) (finished now) db.batches }

-- The inner loop that replays up to `n` rows one at a time; `true` where an error is thrown on.
unfoldable pub replay : (Payload → Option SqlFault) → (now n id token : ℕ) → Db → Db × Bool
unfolding process_import_rows fail_next_pending_row
replay check now zero id token db = (db, false)
replay check now (suc n) id token db = elim (process_import_rows check now 1 id token db) [
  | outcomes db' [] ↦ (db', false)
  | outcomes db' (k ∷ ks) ↦ replay check now n id token db'
  | raised e ↦ elim (safe_failure e) [
    | none ↦ (db, true)
    | some reason ↦ replay check now n id token (fail_next_pending_row now id token reason db)
  ]
]
