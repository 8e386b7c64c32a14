-- ===== src/Base/Tables/Find.antt =====
-- How a SELECT or a row count reads after an UPDATE or an INSERT, and at a condition that refines another.
use Prim.Native.Nat.{ℕ}
use mathlib.Core.Path.{◌≡◌, refl, ◌∙◌, sym}
use mathlib.Core.Bool.{Bool, true, false}
use mathlib.Core.Option
use mathlib.Core.Option.{Option, none, some}
use mathlib.Core.Logic.{inl, inr, ◌≢◌}
use mathlib.Core.List.{List, [], ◌∷◌, ◌++◌}
use native.Mathlib.Omega.{arith}
use public_lighting_fault_re.Base.Tests.{if◌then◌else◌, Bool-cases, is_some}
use public_lighting_fault_re.Base.Lists.{All, All-map}
use public_lighting_fault_re.Base.Tables.{find_row, update_rows, count_rows}
use public_lighting_fault_re.Base.Tables.Laws.{Distinct, All-find_row, find_row-holds}

module _ {ℓ} {A : Type ℓ} where
  pub find_row-update_rows :
      (q p : A → Bool) (f : A → A) (xs : List A)
      → ((x : A) → q (f x) ≡ q x)
      → find_row q (update_rows p f xs) ≡ Option.map (λ x. if p x then f x else x) (find_row q xs)
  unfolding find_row update_rows
  find_row-update_rows q p f [] same = refl
  find_row-update_rows q p f (x ∷ xs) same = elim (Bool-cases (p x)) [
    | inl e ↦ elim (Bool-cases (q x)) [
      | inl t ↦ rw (e, same x, t, e)
      | inr t ↦ rw (e, same x, t) (find_row-update_rows q p f xs same)
    ]
    | inr e ↦ elim (Bool-cases (q x)) [
      | inl t ↦ rw (e, t, e)
      | inr t ↦ rw (e, t) (find_row-update_rows q p f xs same)
    ]
  ]

  -- A stronger condition that the found row meets finds the same row.
  pub find_row-refine :
      (q m : A → Bool) (xs : List A) {x : A}
      → ((y : A) → q y ≡ true → m y ≡ true)
      → find_row m xs ≡ some x
      → q x ≡ true
      → find_row q xs ≡ some x
  unfolding find_row
  find_row-refine q m [] imp e h = cc
  find_row-refine q m (y ∷ ys) {x} imp e h = elim (Bool-cases (m y)) [
    | inl t ↦ let same : y ≡ x = ground arith in rw (same, h)
    | inr t ↦ ground (arith, imp y, find_row-refine q m ys imp (rw t at e) h)
  ]

  pub find_row-none_of :
      (q m : A → Bool) (xs : List A) {x : A}
      → ((y : A) → q y ≡ true → m y ≡ true)
      → All (λ y. m y ≡ true → y ≡ x) xs
      → q x ≡ false
      → find_row q xs ≡ none
  unfolding find_row
  find_row-none_of q m [] imp h n = refl
  find_row-none_of q m (y ∷ ys) {x} imp h n = elim (Bool-cases (q y)) [
    | inl t ↦ let same : y ≡ x = h.0 (imp y t) in absurd (cc (rw same at t))
    | inr t ↦ rw t (find_row-none_of q m ys imp h.1 n)
  ]

  pub count_rows-none : (q : A → Bool) (xs : List A) → find_row q xs ≡ none → count_rows q xs ≡ 0
  unfolding find_row count_rows
  count_rows-none q [] e = refl
  count_rows-none q (x ∷ xs) e = elim (Bool-cases (q x)) [
    | inl t ↦ ground arith
    | inr t ↦ rw t (count_rows-none q xs (rw t at e))
  ]

module _ {ℓ} {A : Type ℓ} (id : A → ℕ) (q : A → Bool) (k : ℕ)
    (keyed : (y : A) → q y ≡ true → id y ≡ k) where
  count_rows-ne : (xs : List A) → All (λ y. id y ≢ k) xs → count_rows q xs ≡ 0
  unfolding count_rows
  count_rows-ne [] h = refl
  count_rows-ne (x ∷ xs) h = elim (Bool-cases (q x)) [
    | inl t ↦ absurd (h.0 (keyed x t))
    | inr t ↦ rw t (count_rows-ne xs h.1)
  ]

  -- With distinct keys, a statement about one key touches one row if any.
  pub count_rows-one :
      (xs : List A) {x : A} → Distinct id xs → find_row q xs ≡ some x → count_rows q xs ≡ 1
  unfolding find_row count_rows
  count_rows-one [] d e = cc
  count_rows-one (y ∷ ys) d e = elim (Bool-cases (q y)) [
    | inl t ↦ rw t (
        ground (
          arith,
          count_rows-ne ys (
              All-map (λ z. id z ≢ id y) (λ z. id z ≢ k) ys (λ z n i. n (i ∙ sym (keyed y t))) d.0),
        ))
    | inr t ↦ rw t (count_rows-one ys d.1 (rw t at e))
  ]

  -- and a weaker condition on the same key finds the same row.
  pub find_row-widen :
      (r : A → Bool) (xs : List A) {x : A}
      → ((y : A) → r y ≡ true → q y ≡ true)
      → Distinct id xs
      → find_row r xs ≡ some x
      → find_row q xs ≡ some x
  unfolding find_row
  find_row-widen r [] imp d e = cc
  find_row-widen r (y ∷ ys) {x} imp d e = elim (Bool-cases (r y)) [
    | inl t ↦ rw (imp y t) (rw t at e)
    | inr t ↦ elim (Bool-cases (q y)) [
      | inl u ↦
          let rest = rw t at e in
          let other = All-find_row (λ z. id z ≢ id y) r ys d.0 rest in
          absurd (other (keyed x (imp x (find_row-holds r ys rest)) ∙ sym (keyed y u)))
      | inr u ↦ rw u (find_row-widen r ys imp d.1 (rw t at e))
    ]
  ]

pub find_row-append_some {ℓ} :
    {A : Type ℓ} (q : A → Bool) (xs ys : List A)
    → is_some (find_row q xs) ≡ true
    → is_some (find_row q (xs ++ ys)) ≡ true
unfolding find_row
find_row-append_some q [] ys h = absurd (cc)
find_row-append_some q (x ∷ xs) ys h = elim (Bool-cases (q x)) [
  | inl e ↦ rw e refl
  | inr e ↦ rw e (find_row-append_some q xs ys (rw e at h))
]

pub find_row-append_last {ℓ} :
    {A : Type ℓ} (q : A → Bool) (xs : List A) (x : A)
    → q x ≡ true
    → is_some (find_row q (xs ++ (x ∷ []))) ≡ true
unfolding find_row
find_row-append_last q [] x h = rw h refl
find_row-append_last q (y ∷ xs) x h = elim (Bool-cases (q y)) [
  | inl e ↦ rw e refl
  | inr e ↦ rw e (find_row-append_last q xs x h)
]
