-- ===== src/ImportQueue/Faults.antt =====
-- The counters of the batches where the worker sets a row aside.
use public_lighting_fault_re.Base.{
  ℕ, ◌+◌, ◌≡◌, refl, sym, ap, inl, inr, true, false, some, List, [], ◌∷◌, arith, ◌==◌,
  if◌then◌else◌, Bool-cases, Option-cases, All,
}
use mathlib.Core.Path.{subst}
use public_lighting_fault_re.Base.Tables.{find_row, count_rows}
use public_lighting_fault_re.Base.Tables.Laws.{All-update_rows_from}
use public_lighting_fault_re.ImportQueue.{
  Kind, created, updated, unchanged, skipped, failed, pending, settled, ImportRow, Batch, Db,
  Outcome, is_pending, is_kind, same_kind, is_row_of, is_open_row, is_claimed,
}
use public_lighting_fault_re.ImportQueue.Worker.{fail_first, count_failed, fail_next_pending_row}
use public_lighting_fault_re.ImportQueue.Counts.{
  own, one, own_zero, own_same, own_other, count_rows-cons,
}
use public_lighting_fault_re.ImportQueue.Counters.{IsSettled, IsConsistent}

-- What a row that is set aside adds to the count of an outcome.
abbrev set_aside : Kind → ℕ → ℕ
set_aside k n = if same_kind k failed then n else 0

set_aside_zero : (k : Kind) → set_aside k 0 ≡ 0
set_aside_zero k = elim (Bool-cases (same_kind k failed)) [ inl e ↦ rw e refl | inr e ↦ rw e refl ]

marked_one :
    (b b' reason : ℕ) (k : Kind) (r : ImportRow)
    → is_open_row b r ≡ true
    → one (is_row_of b' k (record r { outcome = settled failed; reason_code = some reason }))
      ≡ own b b' (set_aside k 1)
unfolding own one
marked_one b b' reason k r e =
    let mine : r.batch_id ≡ b = ground arith in
    elim (Bool-cases (b == b')) [
      | inl f ↦ elim (Bool-cases (same_kind k failed)) [
        | inl g ↦ rw (mine, f, g) refl
        | inr g ↦ rw (mine, f, g) refl
      ]
      | inr f ↦ rw (mine, f) refl
    ]

pending_not_kind : (k : Kind) (o : Outcome) → is_pending o ≡ true → is_kind k o ≡ false
pending_not_kind k (pending p) e = refl
pending_not_kind k (settled l) e = absurd (cc)

open_one :
    (b b' : ℕ) (k : Kind) (r : ImportRow) → is_open_row b r ≡ true → one (is_row_of b' k r) ≡ 0
unfolding one
open_one b b' k r e =
    let waits : is_pending r.outcome ≡ true = ground arith in
    let other = pending_not_kind k r.outcome waits in
    let none_of : is_row_of b' k r ≡ false = ground arith in rw none_of refl

fail_first-count_rows :
    (b b' reason : ℕ) (k : Kind) (rows : List ImportRow)
    → count_rows (is_row_of b' k) (fail_first b reason rows).0
      ≡ count_rows (is_row_of b' k) rows + own b b' (set_aside k (fail_first b reason rows).1)
unfolding fail_first count_rows
fail_first-count_rows b b' reason k [] = rw (set_aside_zero k, own_zero b b') (omega arith)
fail_first-count_rows b b' reason k (r ∷ rs) = elim (Bool-cases (is_open_row b r)) [
  | inl e ↦
      let r' = record r { outcome = settled failed; reason_code = some reason } in
      rw e (
        omega (
          arith,
          count_rows-cons (is_row_of b' k) r rs,
          count_rows-cons (is_row_of b' k) r' rs,
          marked_one b b' reason k r e,
          open_one b b' k r e,
        ))
  | inr e ↦ rw e (
      omega (
        arith,
        fail_first-count_rows b b' reason k rs,
        count_rows-cons (is_row_of b' k) r rs,
        count_rows-cons (is_row_of b' k) r (fail_first b reason rs).0,
      ))
]

fail_first_none :
    (b reason : ℕ) (rows : List ImportRow)
    → (fail_first b reason rows).1 ≡ 0
    → (fail_first b reason rows).0 ≡ rows
unfolding fail_first
fail_first_none b reason [] h = refl
fail_first_none b reason (r ∷ rs) h = elim (Bool-cases (is_open_row b r)) [
  | inl e ↦ absurd (omega (arith, rw e at h))
  | inr e ↦ rw e (ap (λ q. r ∷ q) (fail_first_none b reason rs (rw e at h)))
]

module _ (now id reason : ℕ) (rows : List ImportRow) where
  abbrev after : List ImportRow
  after = (fail_first id reason rows).0

  abbrev marked : ℕ
  marked = (fail_first id reason rows).1

  same_count :
      (x : Batch) (k : Kind)
      → (x.id == id) ≡ true
      → count_rows (is_row_of x.id k) after
        ≡ count_rows (is_row_of x.id k) rows + set_aside k marked
  same_count x k e =
      omega (
        arith,
        fail_first-count_rows id x.id reason k rows,
        own_same id x.id (set_aside k marked) e,
      )

  other_count :
      (x : Batch) (k : Kind)
      → (x.id == id) ≡ false
      → count_rows (is_row_of x.id k) after ≡ count_rows (is_row_of x.id k) rows
  other_count x k e =
      omega (
        arith,
        fail_first-count_rows id x.id reason k rows,
        own_other id x.id (set_aside k marked) e,
      )

  count_failed-IsSettled :
      (x : Batch)
      → IsSettled rows x
      → IsSettled after (if x.id == id then count_failed now marked x else x)
  count_failed-IsSettled x (inl e) = elim (Bool-cases (x.id == id)) [
    | inl same ↦ rw same (inl e)
    | inr other ↦ rw other (inl e)
  ]
  count_failed-IsSettled x (inr h) = elim (Bool-cases (x.id == id)) [
    | inl same ↦ rw same (
        inr (record {
          created_count = omega (arith, h.created_count, same_count x created same);
          updated_count = omega (arith, h.updated_count, same_count x updated same);
          unchanged_count = omega (arith, h.unchanged_count, same_count x unchanged same);
          skipped_count = omega (arith, h.skipped_count, same_count x skipped same);
          failed_count = omega (arith, h.failed_count, same_count x failed same);
          applied_count = h.applied_count;
          successful_count = h.successful_count;
        }))
    | inr other ↦ rw other (
        inr (record {
          created_count = omega (arith, h.created_count, other_count x created other);
          updated_count = omega (arith, h.updated_count, other_count x updated other);
          unchanged_count = omega (arith, h.unchanged_count, other_count x unchanged other);
          skipped_count = omega (arith, h.skipped_count, other_count x skipped other);
          failed_count = omega (arith, h.failed_count, other_count x failed other);
          applied_count = h.applied_count;
          successful_count = h.successful_count;
        }))
  ]

pub fail_next_pending_row-IsConsistent :
    (now id token reason : ℕ) (db : Db)
    → IsConsistent db
    → IsConsistent (fail_next_pending_row now id token reason db)
unfolding fail_next_pending_row
fail_next_pending_row-IsConsistent now id token reason db h =
    elim (Option-cases (find_row (is_claimed id token) db.batches)) [
      | inl e ↦ rw (e, fail_next_pending_row) h
      | inr (b, e) ↦ elim (Bool-cases ((fail_first id reason db.rows).1 == 0)) [
        | inl f ↦
            let same = fail_first_none id reason db.rows (ground arith) in
            rw (e, fail_next_pending_row, f)
              (subst (λ q. All (IsSettled q) db.batches) (sym same) h)
        | inr f ↦
            rw (e, fail_next_pending_row, f)
              (All-update_rows_from (IsSettled (fail_first id reason db.rows).0) (IsSettled db.rows)
                (λ x. x.id == id) (count_failed now (fail_first id reason db.rows).1) db.batches
                (count_failed-IsSettled now id reason db.rows) h)
      ]
    ]
