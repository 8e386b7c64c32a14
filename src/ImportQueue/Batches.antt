-- ===== src/ImportQueue/Batches.antt =====
-- `processBatch`, `claimBatch` and `confirmImport`.
use public_lighting_fault_re.Base.{
  ℕ, zero, suc, ◌+◌, Bool, true, false, not, ◌&&◌, ◌||◌, Option, none, some, List, [], ◌∷◌, ltb,
  leb, ◌==◌, if◌then◌else◌, any,
}
use public_lighting_fault_re.Base.Tables.{find_row, update_rows, delete_rows, count_rows}
use public_lighting_fault_re.ImportQueue.{
  Payload, skipped, failed, ImportRow, Batch, BatchStatus, queued, processing, Db, lease_seconds,
  rows_per_query, is_option, is_row_of, is_processing, is_queued, is_preview,
}
use public_lighting_fault_re.ImportQueue.Worker.{
  SqlFault, outcomes, raised, safe_failure, process_import_rows, complete_batch, replay,
}

-- `processBatch` for at most `fuel` turns; a worker that is stopped takes no further turn. `true`
-- where an error is thrown on.
unfoldable pub process_batch :
    (Payload → Option SqlFault) → (now fuel id token : ℕ) → Db → Db × Bool
unfolding process_import_rows complete_batch replay
process_batch check now zero id token db = (db, false)
process_batch check now (suc fuel) id token db =
    elim (process_import_rows check now rows_per_query id token db) [
      | outcomes db' [] ↦ (complete_batch now id token db', false)
      | outcomes db' (k ∷ ks) ↦ process_batch check now fuel id token db'
      | raised e ↦ elim (safe_failure e) [
        | none ↦ (db, true)
        | some reason ↦
            (let (db', thrown) = replay check now rows_per_query id token db in
              if thrown then (db', true) else process_batch check now fuel id token db')
      ]
    ]

abbrev is_past : (now : ℕ) → Option ℕ → Bool
is_past now none = false
is_past now (some t) = ltb t now

abbrev is_over : (now : ℕ) → Option ℕ → Bool
is_over now none = false
is_over now (some t) = leb t now

abbrev pub is_expired_preview : ℕ → Batch → Bool
is_expired_preview now b = is_preview b.status && is_over now b.preview_expires_at

abbrev is_orphan : List Batch → ImportRow → Bool
is_orphan batches r = not (any (λ b. b.id == r.batch_id) batches)

-- `cleanupExpiredPreviews`: the rows of a deleted batch go with it.
unfoldable pub cleanup_expired_previews : ℕ → Db → Db
unfolding delete_rows
cleanup_expired_previews now db =
    let batches = delete_rows (is_expired_preview now) db.batches in
    record db { batches = batches; rows = delete_rows (is_orphan batches) db.rows }

abbrev pub is_abandoned : ℕ → Batch → Bool
is_abandoned now b = is_processing b.status && is_past now b.lease_until

abbrev pub requeued : Batch → Batch
requeued b = record b { status = queued; worker_token = none; lease_until = none }

-- `queued_at, id` of the one batch against the other's.
abbrev is_before : Batch → Batch → Bool
is_before a b = ltb a.queued_at b.queued_at || a.queued_at == b.queued_at && ltb a.id b.id

unfoldable pub oldest_queued : List Batch → Option Batch
oldest_queued [] = none
oldest_queued (b ∷ bs) =
    let rest = oldest_queued bs in
    if is_queued b.status
    then elim rest [ none ↦ some b | some c ↦ if is_before c b then some c else some b ]
    else rest

abbrev pub started : (now token : ℕ) → Batch → Batch
started now token b = record b {
  status = processing;
  worker_token = some token;
  lease_until = some (now + lease_seconds);
  started_at = elim b.started_at [ none ↦ some now | some t ↦ some t ];
  attempt_count = suc b.attempt_count;
}

-- The batch that is next, where none is being processed.
unfoldable pub candidate : List Batch → Option Batch
unfolding oldest_queued
candidate batches =
    if any (λ b. is_processing b.status) batches then none else oldest_queued batches

-- `claimBatch` with a fresh token: the batch claimed, if any.
unfoldable pub claim_batch : (now token : ℕ) → Db → Db × Option ℕ
unfolding cleanup_expired_previews update_rows candidate
claim_batch now token db =
    let db' = cleanup_expired_previews now db in
    let batches = update_rows (is_abandoned now) requeued db'.batches in
    elim (candidate batches) [
      | none ↦ (record db' { batches = batches }, none)
      | some b ↦ (
        record db' { batches = update_rows (λ x. x.id == b.id) (started now token) batches },
        some b.id,
      )
    ]

abbrev is_key : (preview_id admin : ℕ) → Batch → Bool
is_key k admin b = is_option b.confirmation_key (some k) && b.uploaded_by_admin_id == admin

abbrev pub confirmed : (now : ℕ) → Bool → List ImportRow → Batch → Batch
unfolding count_rows
confirmed now allow rows b = record b {
  status = queued;
  update_existing = allow;
  queued_at = now;
  preview_expires_at = none;
  successful_rows = 0;
  applied_rows = 0;
  created_rows = 0;
  updated_rows = 0;
  unchanged_rows = 0;
  skipped_rows = count_rows (is_row_of b.id skipped) rows;
  failed_rows = count_rows (is_row_of b.id failed) rows;
}

abbrev is_expired : ℕ → Option ℕ → Bool
is_expired now none = true
is_expired now (some t) = leb t now

-- `confirmImport`: the batch and its status, or `none` for the thrown error.
unfoldable pub confirm_import :
    (now admin preview_id : ℕ) → Bool → Db → Db × Option (ℕ × BatchStatus)
unfolding cleanup_expired_previews find_row update_rows confirmed
confirm_import now admin preview_id allow db =
    let db' = cleanup_expired_previews now db in
    elim (find_row (is_key preview_id admin) db'.batches) [
      | none ↦ (db', none)
      | some b ↦
          if is_preview b.status
          then (if is_expired now b.preview_expires_at then (db', none) else (
            record db' {
              batches = update_rows (λ x. x.id == b.id) (confirmed now allow db'.rows) db'.batches;
            },
            some (b.id, queued),
          ))
          else (db', some (b.id, b.status))
    ]
