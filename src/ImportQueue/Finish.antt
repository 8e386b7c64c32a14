-- ===== src/ImportQueue/Finish.antt =====
-- The worker's loop ends, with the batch complete.
use public_lighting_fault_re.Base.{
  ℕ, zero, suc, ◌<◌, ◌≤◌, ◌≡◌, refl, inl, inr, ◌⊎◌, Bool, true, false, ◌&&◌, Option, some, List, [],
  ◌∷◌, arith, ltb, ◌==◌, any, Bool-cases,
}
use public_lighting_fault_re.Base.Tables.{find_row, update_rows, count_rows}
use public_lighting_fault_re.ImportQueue.{
  Payload, ImportRow, Batch, BatchStatus, completed, completed_with_errors, Db, is_open_row,
  is_claimed, rows_per_query,
}
use public_lighting_fault_re.ImportQueue.Worker.{
  SqlFault, unique_violation, data_violation, other_fault, Answer, outcomes, raised,
  process_import_rows, fail_next_pending_row, complete_batch, finished, replay,
}
use public_lighting_fault_re.ImportQueue.Batches.{process_batch}
use public_lighting_fault_re.ImportQueue.Progress.{
  pending_count, IsHeld, IsMild, IsProgress, process_import_rows-IsProgress,
  fail_next_pending_row-IsProgress,
}

module _ (check : Payload → Option SqlFault) (mild : (p : Payload) → IsMild (check p))
    (now id token : ℕ) where
  -- A replay throws nothing, keeps the claim, and leaves at most `m` rows pending.
  abbrev IsReplayed : ℕ → Db × Bool → Type 0
  IsReplayed m (db, thrown) = (thrown ≡ false) × (pending_count id db ≤ m) × IsHeld id token db

  IsReplayed-le : (m k : ℕ) (r : Db × Bool) → m ≤ k → IsReplayed m r → IsReplayed k r
  IsReplayed-le m k (db, thrown) h (calm, few, held) = (calm, omega arith, held)

  replay_after :
      (n : ℕ)
      (again : (db : Db)
        → IsHeld id token db
        → IsReplayed (pending_count id db) (replay check now n id token db))
      (db : Db)
      → IsHeld id token db
      → (a : Answer) → process_import_rows check now 1 id token db ≡ a
      → IsProgress id token db a
      → (pending_count id (replay check now (suc n) id token db).0 < pending_count id db
          ⊎ pending_count id db ≡ 0)
        × IsReplayed (pending_count id db) (replay check now (suc n) id token db)
  unfolding replay
  replay_after n again db held (outcomes db' []) e (none_left, none_after, held') =
      rw (e, replay) (inr none_left, (refl, omega arith, held'))
  replay_after n again db held (outcomes db' (k ∷ ks)) e (fewer, held') =
      let (calm, few, held'') = again db' held' in
      rw (e, replay) (inl (omega arith), (calm, omega arith, held''))
  replay_after n again db held (raised unique_violation) e (waits, m) =
      let (fewer, held') = fail_next_pending_row-IsProgress now id token 2 db waits held in
      let (calm, few, held'') = again (fail_next_pending_row now id token 2 db) held' in
      rw (e, replay) (inl (omega arith), (calm, omega arith, held''))
  replay_after n again db held (raised data_violation) e (waits, m) =
      let (fewer, held') = fail_next_pending_row-IsProgress now id token 3 db waits held in
      let (calm, few, held'') = again (fail_next_pending_row now id token 3 db) held' in
      rw (e, replay) (inl (omega arith), (calm, omega arith, held''))
  replay_after n again db held (raised other_fault) e (waits, m) = absurd m

  replay-IsReplayed :
      (n : ℕ) (db : Db)
      → IsHeld id token db
      → IsReplayed (pending_count id db) (replay check now n id token db)
  unfolding replay
  replay-IsReplayed zero db held = (refl, omega arith, held)
  replay-IsReplayed (suc n) db held =
      (replay_after n (replay-IsReplayed n) db held (process_import_rows check now 1 id token db)
        refl (process_import_rows-IsProgress check mild now 0 id token db held)).1

  replay_fewer :
      (n : ℕ) (db : Db)
      → IsHeld id token db
      → (pending_count id (replay check now (suc n) id token db).0 < pending_count id db)
        ⊎ (pending_count id db ≡ 0)
  replay_fewer n db held =
      (replay_after n (replay-IsReplayed n) db held (process_import_rows check now 1 id token db)
        refl (process_import_rows-IsProgress check mild now 0 id token db held)).0

abbrev pub is_done : BatchStatus → Bool
is_done completed = true
is_done completed_with_errors = true
is_done _ = false

abbrev pub is_done_batch : ℕ → Batch → Bool
is_done_batch id b = b.id == id && is_done b.status

none_open :
    (id : ℕ) (rows : List ImportRow)
    → count_rows (is_open_row id) rows ≡ 0
    → any (is_open_row id) rows ≡ false
unfolding count_rows
none_open id [] h = refl
none_open id (r ∷ rs) h = elim (Bool-cases (is_open_row id r)) [
  | inl e ↦ absurd (cc (rw e at h))
  | inr e ↦ rw e (none_open id rs (rw e at h))
]

finished_done :
    (now id token : ℕ) (b : Batch)
    → is_claimed id token b ≡ true
    → is_done_batch id (finished now b) ≡ true
finished_done now id token b h =
    let mine : (b.id == id) ≡ true = ground arith in
    rw mine (elim (Bool-cases (ltb 0 b.failed_rows)) [ inl e ↦ rw e refl | inr e ↦ rw e refl ])

one_is_complete :
    (now id token : ℕ) (bs : List Batch) {b : Batch}
    → find_row (is_claimed id token) bs ≡ some b
    → any (is_done_batch id) (update_rows (is_claimed id token) (finished now) bs) ≡ true
unfolding find_row update_rows
one_is_complete now id token [] e = cc
one_is_complete now id token (x ∷ xs) e = elim (Bool-cases (is_claimed id token x)) [
  | inl t ↦ rw t (rw (finished_done now id token x t) refl)
  | inr t ↦ rw t (rw (one_is_complete now id token xs (rw t at e)) (ground arith))
]

module _ (check : Payload → Option SqlFault) (mild : (p : Payload) → IsMild (check p))
    (now id token : ℕ) where
  -- The batch is complete: nothing was thrown, no row of it is pending, and its status says so.
  abbrev pub IsFinished : Db × Bool → Type 0
  IsFinished r =
      (r.1 ≡ false) × (pending_count id r.0 ≡ 0) × (any (is_done_batch id) r.0.batches ≡ true)

  complete-IsFinished :
      (db : Db)
      → pending_count id db ≡ 0
      → IsHeld id token db
      → IsFinished (complete_batch now id token db, false)
  unfolding complete_batch
  complete-IsFinished db h (b, held) =
      rw (none_open id db.rows h) (refl, h, one_is_complete now id token db.batches held)

  replay_on :
      (db : Db)
      → 0 < pending_count id db
      → IsHeld id token db
      → ((replay check now rows_per_query id token db).1 ≡ false)
        × (pending_count id (replay check now rows_per_query id token db).0 < pending_count id db)
        × IsHeld id token (replay check now rows_per_query id token db).0
  replay_on db waits held =
      let (calm, less, held') = replay-IsReplayed check mild now id token rows_per_query db held in
      (calm, strict (replay_fewer check mild now id token 99 db held), held')
    where
      strict :
          (pending_count id (replay check now 100 id token db).0 < pending_count id db)
            ⊎ (pending_count id db ≡ 0)
          → pending_count id (replay check now 100 id token db).0 < pending_count id db
      strict (inl l) = l
      strict (inr z) = absurd (omega arith)

  batch_after :
      (fuel : ℕ)
      (again : (db : Db)
        → pending_count id db < fuel
        → IsHeld id token db
        → IsFinished (process_batch check now fuel id token db))
      (db : Db)
      → pending_count id db < suc fuel
      → IsHeld id token db
      → (a : Answer) → process_import_rows check now rows_per_query id token db ≡ a
      → IsProgress id token db a
      → IsFinished (process_batch check now (suc fuel) id token db)
  unfolding process_batch
  batch_after fuel again db few held (outcomes db' []) e (none_left, none_after, held') =
      rw (e, process_batch) (complete-IsFinished db' none_after held')
  batch_after fuel again db few held (outcomes db' (k ∷ ks)) e (fewer, held') =
      rw (e, process_batch) (again db' (omega arith) held')
  batch_after fuel again db few held (raised unique_violation) e (waits, m) =
      let (calm, fewer, held') = replay_on db waits held in
      rw (e, process_batch)
        (rw calm (again (replay check now rows_per_query id token db).0 (omega arith) held'))
  batch_after fuel again db few held (raised data_violation) e (waits, m) =
      let (calm, fewer, held') = replay_on db waits held in
      rw (e, process_batch)
        (rw calm (again (replay check now rows_per_query id token db).0 (omega arith) held'))
  batch_after fuel again db few held (raised other_fault) e (waits, m) = absurd m

  -- `processBatch` ends with the batch complete, where the worker holds the batch, no turn fails
  -- for another reason than a row's data, and there are more turns than pending rows: each turn
  -- settles at least one row, and rows at fault are set aside one at a time.
  pub process_batch-IsFinished :
      (fuel : ℕ) (db : Db)
      → pending_count id db < fuel
      → IsHeld id token db
      → IsFinished (process_batch check now fuel id token db)
  process_batch-IsFinished zero db few held = absurd (omega arith)
  process_batch-IsFinished (suc fuel) db few held =
      batch_after fuel (process_batch-IsFinished fuel) db few held
        (process_import_rows check now rows_per_query id token db) refl
        (process_import_rows-IsProgress check mild now 99 id token db held)
