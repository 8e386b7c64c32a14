-- ===== src/ImportQueue/Whole.antt =====
-- The counters of the batches through a whole run of `processBatch`.
use public_lighting_fault_re.Base.{
  ℕ, zero, suc, ◌≡◌, ◌≢◌, refl, any, inl, inr, true, Option, List, [], ◌∷◌, arith, Bool-cases,
  Option-cases,
}
use public_lighting_fault_re.Base.Tables.Laws.{All-update_rows}
use public_lighting_fault_re.ImportQueue.{
  Payload, ImportRow, Batch, preview, BatchStatus, is_processing, Db, is_open_row, is_claimed,
  rows_per_query,
}
use public_lighting_fault_re.ImportQueue.Worker.{
  SqlFault, Answer, outcomes, raised, process_import_rows, fail_next_pending_row, finished,
  complete_batch, replay, safe_failure,
}
use public_lighting_fault_re.ImportQueue.Batches.{process_batch}
use public_lighting_fault_re.ImportQueue.Counters.{
  IsSettled, IsConsistent, OnOutcomes, process-OnOutcomes,
}
use public_lighting_fault_re.ImportQueue.Faults.{fail_next_pending_row-IsConsistent}

processing_not_preview : (s : BatchStatus) → is_processing s ≡ true → s ≢ preview
processing_not_preview s e f = cc (rw f at e)

finished-IsSettled :
    (now id token : ℕ) (rows : List ImportRow) (x : Batch)
    → IsSettled rows x
    → is_claimed id token x ≡ true
    → IsSettled rows (finished now x)
finished-IsSettled now id token rows x (inl e) f =
    let busy : is_processing x.status ≡ true = ground arith in
    absurd (processing_not_preview x.status busy e)
finished-IsSettled now id token rows x (inr h) f = inr (record {
  created_count = h.created_count;
  updated_count = h.updated_count;
  unchanged_count = h.unchanged_count;
  skipped_count = h.skipped_count;
  failed_count = h.failed_count;
  applied_count = h.applied_count;
  successful_count = h.successful_count;
})

complete_batch-IsConsistent :
    (now id token : ℕ) (db : Db) → IsConsistent db → IsConsistent (complete_batch now id token db)
unfolding complete_batch
complete_batch-IsConsistent now id token db h = elim (Bool-cases (any (is_open_row id) db.rows)) [
  | inl e ↦ rw e h
  | inr e ↦ rw e (
      All-update_rows (IsSettled db.rows) (is_claimed id token) (finished now) db.batches
        (finished-IsSettled now id token db.rows) h)
]

module _ (check : Payload → Option SqlFault) (now id token : ℕ) where
  replay_after :
      (n : ℕ)
      (again : (db : Db) → IsConsistent db → IsConsistent (replay check now n id token db).0)
      (db : Db)
      → IsConsistent db
      → (a : Answer) → process_import_rows check now 1 id token db ≡ a
      → OnOutcomes IsConsistent a
      → IsConsistent (replay check now (suc n) id token db).0
  unfolding replay
  replay_after n again db h (outcomes db' []) e k = rw (e, replay) k
  replay_after n again db h (outcomes db' (x ∷ xs)) e k = rw (e, replay) (again db' k)
  replay_after n again db h (raised f) e k = elim (Option-cases (safe_failure f)) [
    | inl g ↦ rw (e, replay, g) h
    | inr (reason, g) ↦
        rw (e, replay, g)
          (again (fail_next_pending_row now id token reason db)
            (fail_next_pending_row-IsConsistent now id token reason db h))
  ]

  replay-IsConsistent :
      (n : ℕ) (db : Db) → IsConsistent db → IsConsistent (replay check now n id token db).0
  unfolding replay
  replay-IsConsistent zero db h = h
  replay-IsConsistent (suc n) db h =
      replay_after n (replay-IsConsistent n) db h (process_import_rows check now 1 id token db) refl
        (process-OnOutcomes check now 1 id token db h)

  batch_after :
      (fuel : ℕ)
      (again : (db : Db)
        → IsConsistent db
        → IsConsistent (process_batch check now fuel id token db).0)
      (db : Db)
      → IsConsistent db
      → (a : Answer) → process_import_rows check now rows_per_query id token db ≡ a
      → OnOutcomes IsConsistent a
      → IsConsistent (process_batch check now (suc fuel) id token db).0
  unfolding process_batch
  batch_after fuel again db h (outcomes db' []) e k =
      rw (e, process_batch) (complete_batch-IsConsistent now id token db' k)
  batch_after fuel again db h (outcomes db' (x ∷ xs)) e k = rw (e, process_batch) (again db' k)
  batch_after fuel again db h (raised f) e k = elim (Option-cases (safe_failure f)) [
    | inl g ↦ rw (e, process_batch, g) h
    | inr (reason, g) ↦
        let r = replay check now rows_per_query id token db in
        let replayed = replay-IsConsistent rows_per_query db h in
        elim (Bool-cases r.1) [
          | inl u ↦ rw (e, process_batch, g, u) replayed
          | inr u ↦ rw (e, process_batch, g, u) (again r.0 replayed)
        ]
  ]

  -- A whole run of `processBatch`, whatever faults the statements raise, with its replays, the rows
  -- it sets aside and the completion of the batch, keeps the counters of every confirmed batch equal
  -- to the numbers of its rows by outcome, with the applied and the successful rows as their sums.
  pub process_batch-IsConsistent :
      (fuel : ℕ) (db : Db)
      → IsConsistent db
      → IsConsistent (process_batch check now fuel id token db).0
  unfolding process_batch
  process_batch-IsConsistent zero db h = h
  process_batch-IsConsistent (suc fuel) db h =
      batch_after fuel (process_batch-IsConsistent fuel) db h
        (process_import_rows check now rows_per_query id token db) refl
        (process-OnOutcomes check now rows_per_query id token db h)
