-- ===== src/ImportQueue/Counts.antt =====
-- How many rows of each outcome a batch has after a statement.
use public_lighting_fault_re.Base.{
  ℕ, zero, suc, ◌+◌, ◌≡◌, refl, ap, inl, inr, Bool, true, false, some, List, [], ◌∷◌, arith, ◌==◌,
  if◌then◌else◌, Bool-cases, Option-cases,
}
use public_lighting_fault_re.Base.Tables.{find_row, count_rows}
use public_lighting_fault_re.ImportQueue.{
  Point, Payload, Kind, failed, pending, ImportRow, same_kind, is_row_of,
}
use public_lighting_fault_re.ImportQueue.Rows.{
  Plan, plan, settle, settle_rows, after_plan, open_payload,
}
use public_lighting_fault_re.ImportQueue.Worker.{count_plans}

unfoldable pub own : (b b' n : ℕ) → ℕ
own b b' n = if b == b' then n else 0

unfoldable pub one : Bool → ℕ
one true = 1
one false = 0

pub count_rows-cons :
    {A : Type 0} (p : A → Bool) (x : A) (xs : List A)
    → count_rows p (x ∷ xs) ≡ one (p x) + count_rows p xs
unfolding count_rows one
count_rows-cons p x xs = elim (Bool-cases (p x)) [
  | inl e ↦ rw e (omega arith)
  | inr e ↦ rw e (omega arith)
]

pub open_payload-IsOpen :
    (b : ℕ) (r : ImportRow) (p : Payload)
    → open_payload b r ≡ some p
    → (r.batch_id ≡ b) × (r.outcome ≡ pending p)
unfolding open_payload
open_payload-IsOpen b r p e = ground arith

own_add : (b b' m n : ℕ) → own b b' (m + n) ≡ own b b' m + own b b' n
unfolding own
own_add b b' m n = elim (Bool-cases (b == b')) [ inl e ↦ rw e refl | inr e ↦ rw e refl ]

pub own_zero : (b b' : ℕ) → own b b' 0 ≡ 0
unfolding own
own_zero b b' = elim (Bool-cases (b == b')) [ inl e ↦ rw e refl | inr e ↦ rw e refl ]

settled_one :
    (b b' : ℕ) (k : Kind) (p : Plan) (r : ImportRow)
    → r.batch_id ≡ b
    → one (is_row_of b' k (settle p r)) ≡ own b b' (one (same_kind k p.kind))
unfolding own one
settled_one b b' k p r e = elim (Bool-cases (b == b')) [
  | inl f ↦ rw (e, f) refl
  | inr f ↦ rw (e, f) refl
]

pub pending_one :
    (b' : ℕ) (k : Kind) (p : Payload) (r : ImportRow)
    → r.outcome ≡ pending p
    → one (is_row_of b' k r) ≡ 0
unfolding one
pending_one b' k p r e = rw e (ground arith)

module _ (points : List Point) (allow : Bool) (b b' : ℕ) (k : Kind) where
  pub settle_rows-count_rows :
      (limit next : ℕ) (rows : List ImportRow)
      → count_rows (is_row_of b' k) (settle_rows points allow b limit next rows).0
        ≡ count_rows (is_row_of b' k) rows
          + own b b' (count_plans k (settle_rows points allow b limit next rows).1)
  unfolding settle_rows count_rows
  settle_rows-count_rows limit next [] = rw (own_zero b b') (omega arith)
  settle_rows-count_rows zero next (r ∷ rs) = rw (own_zero b b') (omega arith)
  settle_rows-count_rows (suc limit) next (r ∷ rs) = elim (Option-cases (open_payload b r)) [
    | inl e ↦
        rw (e, settle_rows)
          (omega (
            arith,
            settle_rows-count_rows (suc limit) next rs,
            count_rows-cons (is_row_of b' k) r rs,
            count_rows-cons (is_row_of b' k) r (settle_rows points allow b (suc limit) next rs).0,
          ))
    | inr (payload, e) ↦
        let p = plan points allow next payload in
        let rest = settle_rows points allow b limit (after_plan next p) rs in
        let (mine, waits) = open_payload-IsOpen b r payload e in
        rw (e, settle_rows)
          (omega (
            arith,
            settle_rows-count_rows limit (after_plan next p) rs,
            count_rows-cons (is_row_of b' k) r rs,
            count_rows-cons (is_row_of b' k) (settle p r) rest.0,
            settled_one b b' k p r mine,
            pending_one b' k payload r waits,
            own_add b b' (one (same_kind k p.kind)) (count_plans k rest.1),
            ap (own b b') (count_rows-cons (λ q. same_kind k q.kind) p rest.1),
          ))
  ]

plan_not_failed :
    (points : List Point) (allow : Bool) (next : ℕ) (p : Payload)
    → same_kind failed (plan points allow next p).kind ≡ false
unfolding plan
plan_not_failed points allow next p =
    elim (Option-cases (find_row (λ q. q.inventory_number == p.inventory_number) points)) [
      | inl e ↦ rw (e, plan) refl
      | inr (old, e) ↦ rw (e, plan) (ground arith)
    ]

pub settle_rows_not_failed :
    (points : List Point) (allow : Bool) (b limit next : ℕ) (rows : List ImportRow)
    → count_plans failed (settle_rows points allow b limit next rows).1 ≡ 0
unfolding settle_rows count_rows
settle_rows_not_failed points allow b limit next [] = refl
settle_rows_not_failed points allow b zero next (r ∷ rs) = refl
settle_rows_not_failed points allow b (suc limit) next (r ∷ rs) =
    elim (Option-cases (open_payload b r)) [
      | inl e ↦ rw (e, settle_rows) (settle_rows_not_failed points allow b (suc limit) next rs)
      | inr (payload, e) ↦
          let p = plan points allow next payload in
          rw (e, settle_rows)
            (rw (plan_not_failed points allow next payload)
              (settle_rows_not_failed points allow b limit (after_plan next p) rs))
    ]

pub own_same : (b b' n : ℕ) → (b' == b) ≡ true → own b b' n ≡ n
unfolding own
own_same b b' n e = let f : (b == b') ≡ true = ground arith in rw f refl

pub own_other : (b b' n : ℕ) → (b' == b) ≡ false → own b b' n ≡ 0
unfolding own
own_other b b' n e = let f : (b == b') ≡ false = ground arith in rw f refl
