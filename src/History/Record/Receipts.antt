-- ===== src/History/Record/Receipts.antt =====
-- The table of receipts as a map from attempts.
use public_lighting_fault_re.Base.{
  ℕ, ◌≤◌, ◌≡◌, ◌≢◌, refl, ◌∙◌, inl, inr, Bool, true, false, Option, none, some, List, [], ◌∷◌,
  arith, ltb, ◌==◌, if◌then◌else◌, Bool-cases,
}
use public_lighting_fault_re.Base.Tables.{find_row, delete_rows}
use public_lighting_fault_re.History.{Attempt}
use public_lighting_fault_re.History.Record.{is_attempt, is_live_attempt, is_dead_attempt}

abbrev pub alive : ℕ → Option Attempt → Option Attempt
alive now none = none
alive now (some a) = if ltb now a.expires_at then some a else none

-- A primary key.
abbrev pub IsUnique : List Attempt → Type 0
IsUnique [] = Unit
IsUnique (a ∷ xs) = (find_row (is_attempt a.attempt_id) xs ≡ none) × IsUnique xs

pub find_row-is_live_attempt :
    (now k : ℕ) (xs : List Attempt)
    → IsUnique xs
    → find_row (is_live_attempt now k) xs ≡ alive now (find_row (is_attempt k) xs)
unfolding find_row
find_row-is_live_attempt now k [] h = refl
find_row-is_live_attempt now k (a ∷ xs) h =
    let later = find_row-is_live_attempt now k xs h.1 in
    elim (Bool-cases (a.attempt_id == k)) [
      | inl e ↦
          let same : a.attempt_id ≡ k = ground arith in
          elim (Bool-cases (ltb now a.expires_at)) [
            | inl t ↦ rw (e, t) refl
            | inr t ↦ rw (e, t) (later ∙ rw (rw same at h.0) refl)
          ]
      | inr e ↦ rw e later
    ]

pub find_row-delete_other :
    (now k j : ℕ) (xs : List Attempt)
    → j ≢ k
    → find_row (is_attempt j) (delete_rows (is_dead_attempt now k) xs) ≡ find_row (is_attempt j) xs
unfolding find_row delete_rows
find_row-delete_other now k j [] h = refl
find_row-delete_other now k j (a ∷ xs) h =
    let later = find_row-delete_other now k j xs h in
    elim (Bool-cases (a.attempt_id == j)) [
      | inl e ↦ let here : is_dead_attempt now k a ≡ false = ground arith in rw (here, e) refl
      | inr e ↦ elim (Bool-cases (is_dead_attempt now k a)) [
        | inl t ↦ rw (t, e) later
        | inr t ↦ rw (t, e) later
      ]
    ]

-- Where no receipt of `k` is alive, none is left once the dead ones are deleted, at any later time.
pub find_row-delete_dead :
    (now now' k : ℕ) (xs : List Attempt)
    → now ≤ now'
    → find_row (is_live_attempt now k) xs ≡ none
    → find_row (is_attempt k) (delete_rows (is_dead_attempt now' k) xs) ≡ none
unfolding find_row delete_rows
find_row-delete_dead now now' k [] l h = refl
find_row-delete_dead now now' k (a ∷ xs) l h = elim (Bool-cases (is_live_attempt now k a)) [
  | inl e ↦ absurd (cc (rw e at h))
  | inr e ↦
      let later = find_row-delete_dead now now' k xs l (rw e at h) in
      elim (Bool-cases (a.attempt_id == k)) [
        | inl t ↦ let dead : is_dead_attempt now' k a ≡ true = ground (arith, l) in rw dead later
        | inr t ↦ let kept : is_dead_attempt now' k a ≡ false = ground arith in rw (kept, t) later
      ]
]

pub find_row-delete_none :
    (p q : Attempt → Bool) (xs : List Attempt)
    → find_row p xs ≡ none
    → find_row p (delete_rows q xs) ≡ none
unfolding find_row delete_rows
find_row-delete_none p q [] h = refl
find_row-delete_none p q (a ∷ xs) h = elim (Bool-cases (p a)) [
  | inl e ↦ absurd (cc (rw e at h))
  | inr e ↦ elim (Bool-cases (q a)) [
    | inl t ↦ rw t (find_row-delete_none p q xs (rw e at h))
    | inr t ↦ rw (t, e) (find_row-delete_none p q xs (rw e at h))
  ]
]

pub delete_rows-IsUnique :
    (q : Attempt → Bool) (xs : List Attempt) → IsUnique xs → IsUnique (delete_rows q xs)
unfolding delete_rows
delete_rows-IsUnique q [] h = tt
delete_rows-IsUnique q (a ∷ xs) h = elim (Bool-cases (q a)) [
  | inl e ↦ rw e (delete_rows-IsUnique q xs h.1)
  | inr e ↦
      rw e (find_row-delete_none (is_attempt a.attempt_id) q xs h.0, delete_rows-IsUnique q xs h.1)
]
