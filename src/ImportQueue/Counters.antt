-- ===== src/ImportQueue/Counters.antt =====
-- The counters of a batch are the counts of its rows.
use public_lighting_fault_re.Base.{
  ℕ, ◌+◌, ◌≡◌, inl, inr, ◌⊎◌, Bool, true, false, Option, List, [], ◌∷◌, arith, ◌==◌, if◌then◌else◌,
  Bool-cases, Option-cases, All,
}
use mathlib.Core.Path.{subst}
use public_lighting_fault_re.Base.Tables.{find_row, update_rows, count_rows}
use public_lighting_fault_re.ImportQueue.{
  Point, Payload, Kind, created, updated, unchanged, skipped, failed, ImportRow, Batch, preview, Db,
  is_row_of, is_claimed,
}
use public_lighting_fault_re.ImportQueue.Rows.{settle_rows}
use public_lighting_fault_re.ImportQueue.Worker.{
  SqlFault, Answer, outcomes, raised, plan_fault, count_plans, counted, process_held,
  process_import_rows,
}
use public_lighting_fault_re.ImportQueue.Counts.{
  own_same, own_other, settle_rows_not_failed, settle_rows-count_rows,
}

-- The counters of a batch against the rows.
pub record IsCounted (rows : List ImportRow) (b : Batch) : Type 0 where
  pub created_count : b.created_rows ≡ count_rows (is_row_of b.id created) rows
  pub updated_count : b.updated_rows ≡ count_rows (is_row_of b.id updated) rows
  pub unchanged_count : b.unchanged_rows ≡ count_rows (is_row_of b.id unchanged) rows
  pub skipped_count : b.skipped_rows ≡ count_rows (is_row_of b.id skipped) rows
  pub failed_count : b.failed_rows ≡ count_rows (is_row_of b.id failed) rows
  pub applied_count : b.applied_rows ≡ b.created_rows + b.updated_rows
  pub successful_count : b.successful_rows ≡ b.created_rows + b.updated_rows + b.unchanged_rows

-- A batch that was confirmed has counters that agree with the rows.
abbrev pub IsSettled : List ImportRow → Batch → Type 0
IsSettled rows b = (b.status ≡ preview) ⊎ IsCounted rows b

module _ (points : List Point) (allow : Bool) (id limit next now : ℕ) (rows : List ImportRow) where
  count_same :
      (x : Batch) (k : Kind)
      → (x.id == id) ≡ true
      → count_rows (is_row_of x.id k) (settle_rows points allow id limit next rows).0
        ≡ count_rows (is_row_of x.id k) rows
          + count_plans k (settle_rows points allow id limit next rows).1
  count_same x k e =
      let ps = (settle_rows points allow id limit next rows).1 in
      omega (
        arith,
        settle_rows-count_rows points allow id x.id k limit next rows,
        own_same id x.id (count_plans k ps) e,
      )

  count_other :
      (x : Batch) (k : Kind)
      → (x.id == id) ≡ false
      → count_rows (is_row_of x.id k) (settle_rows points allow id limit next rows).0
        ≡ count_rows (is_row_of x.id k) rows
  count_other x k e =
      let ps = (settle_rows points allow id limit next rows).1 in
      omega (
        arith,
        settle_rows-count_rows points allow id x.id k limit next rows,
        own_other id x.id (count_plans k ps) e,
      )

  counted-IsSettled :
      (x : Batch)
      → IsSettled rows x
      → IsSettled
          (settle_rows points allow id limit next rows).0
          (if x.id == id then counted now (settle_rows points allow id limit next rows).1 x else x)
  counted-IsSettled x (inl e) = elim (Bool-cases (x.id == id)) [
    | inl same ↦ rw same (inl e)
    | inr other ↦ rw other (inl e)
  ]
  counted-IsSettled x (inr h) =
      let ps = (settle_rows points allow id limit next rows).1 in
      elim (Bool-cases (x.id == id)) [
        | inl same ↦ rw same (
            inr (record {
              created_count = omega (arith, h.created_count, count_same x created same);
              updated_count = omega (arith, h.updated_count, count_same x updated same);
              unchanged_count = omega (arith, h.unchanged_count, count_same x unchanged same);
              skipped_count = omega (arith, h.skipped_count, count_same x skipped same);
              failed_count = omega (
                arith,
                h.failed_count,
                count_same x failed same,
                settle_rows_not_failed points allow id limit next rows,
              );
              applied_count = omega (arith, h.applied_count);
              successful_count = omega (arith, h.successful_count);
            }))
        | inr other ↦ rw other (
            inr (record {
              created_count = omega (arith, h.created_count, count_other x created other);
              updated_count = omega (arith, h.updated_count, count_other x updated other);
              unchanged_count = omega (arith, h.unchanged_count, count_other x unchanged other);
              skipped_count = omega (arith, h.skipped_count, count_other x skipped other);
              failed_count = omega (arith, h.failed_count, count_other x failed other);
              applied_count = h.applied_count;
              successful_count = h.successful_count;
            }))
      ]

  counted-IsSettled_all :
      (bs : List Batch)
      → All (IsSettled rows) bs
      → All (IsSettled (settle_rows points allow id limit next rows).0) (
          update_rows
            (λ x. x.id == id)
            (counted now (settle_rows points allow id limit next rows).1)
            bs)
  unfolding update_rows
  counted-IsSettled_all [] h = tt
  counted-IsSettled_all (x ∷ xs) h = (counted-IsSettled x h.0, counted-IsSettled_all xs h.1)

-- Every confirmed batch is counted.
abbrev pub IsConsistent : Db → Type 0
IsConsistent db = All (IsSettled db.rows) db.batches

abbrev pub OnOutcomes : (Db → Type 0) → Answer → Type 0
OnOutcomes P (outcomes db ks) = P db
OnOutcomes P (raised e) = Unit

module _ (check : Payload → Option SqlFault) (now limit id token : ℕ) where
  process_held-OnOutcomes :
      (b : Batch) (db : Db)
      → IsConsistent db
      → OnOutcomes IsConsistent (process_held check now limit id b db)
  unfolding process_held
  process_held-OnOutcomes b db h =
      elim (Option-cases (
        plan_fault check
          (settle_rows db.points b.update_existing id limit db.next_point db.rows).1)) [
            | inl f ↦
                rw (f, process_held)
                  (counted-IsSettled_all db.points b.update_existing id limit db.next_point now
                    db.rows db.batches h)
            | inr (fault, f) ↦ rw (f, process_held) tt
          ]

  pub process-OnOutcomes :
      (db : Db)
      → IsConsistent db
      → OnOutcomes IsConsistent (process_import_rows check now limit id token db)
  unfolding process_import_rows
  process-OnOutcomes db h = elim (Option-cases (find_row (is_claimed id token) db.batches)) [
    | inl f ↦ rw (f, process_import_rows) h
    | inr (b, f) ↦ rw (f, process_import_rows) (process_held-OnOutcomes b db h)
  ]

  -- A statement of the worker that succeeds keeps the counters of every confirmed batch equal to
  -- the numbers of its rows by outcome, with the applied and the successful rows as their sums.
  process_import_rows-IsConsistent :
      (db db' : Db) (ks : List Kind)
      → process_import_rows check now limit id token db ≡ outcomes db' ks
      → IsConsistent db
      → IsConsistent db'
  process_import_rows-IsConsistent db db' ks e h =
      subst (OnOutcomes IsConsistent) e (process-OnOutcomes db h)
