-- ===== src/Base/Tables/Laws.antt =====
-- What the table statements keep, and how a SELECT reads after them.
use Prim.Native.Nat.{ℕ, zero, suc, ◌≤◌}
use mathlib.Core.Path.{ap, ◌≡◌, refl, ◌∙◌, sym}
use mathlib.Core.Bool.{Bool, true, false, ◌&&◌}
use mathlib.Core.Option.{some}
use mathlib.Core.Logic.{inl, inr, ◌≢◌}
use mathlib.Core.List.{List, [], ◌∷◌}
use native.Mathlib.Omega.{arith}
use public_lighting_fault_re.Base.Tests.{◌==◌, if◌then◌else◌, Bool-cases, Option-cases}
use public_lighting_fault_re.Base.Lists.{length, All, All-map}
use public_lighting_fault_re.Base.Tables.{
  find_row, update_rows, delete_rows, least_key, remove_first, delete_oldest,
}

module _ {ℓ κ} {A : Type ℓ} (P : A → Type κ) where
  pub All-update_rows :
      (p : A → Bool) (f : A → A) (xs : List A)
      → ((x : A) → P x → p x ≡ true → P (f x))
      → All P xs
      → All P (update_rows p f xs)
  unfolding update_rows
  All-update_rows p f [] step h = tt
  All-update_rows p f (x ∷ xs) step h = elim (Bool-cases (p x)) [
    | inl e ↦ rw e (step x h.0 e, All-update_rows p f xs step h.1)
    | inr e ↦ rw e (h.0, All-update_rows p f xs step h.1)
  ]

  pub All-update_rows_from {μ} :
      (R : A → Type μ) (p : A → Bool) (f : A → A) (xs : List A)
      → ((x : A) → R x → P (if p x then f x else x))
      → All R xs
      → All P (update_rows p f xs)
  unfolding update_rows
  All-update_rows_from R p f [] step h = tt
  All-update_rows_from R p f (x ∷ xs) step h = (step x h.0, All-update_rows_from R p f xs step h.1)

  pub All-delete_rows : (p : A → Bool) (xs : List A) → All P xs → All P (delete_rows p xs)
  unfolding delete_rows
  All-delete_rows p [] h = tt
  All-delete_rows p (x ∷ xs) h = elim (Bool-cases (p x)) [
    | inl e ↦ rw e (All-delete_rows p xs h.1)
    | inr e ↦ rw e (h.0, All-delete_rows p xs h.1)
  ]

  All-remove_first : (p : A → Bool) (xs : List A) → All P xs → All P (remove_first p xs)
  unfolding remove_first
  All-remove_first p [] h = tt
  All-remove_first p (x ∷ xs) h = elim (Bool-cases (p x)) [
    | inl e ↦ rw e h.1
    | inr e ↦ rw e (h.0, All-remove_first p xs h.1)
  ]

  pub All-find_row : (p : A → Bool) (xs : List A) {x : A} → All P xs → find_row p xs ≡ some x → P x
  unfolding find_row
  All-find_row p [] h e = cc
  All-find_row p (y ∷ ys) {x} h e = elim (Bool-cases (p y)) [
    | inl t ↦ let same : y ≡ x = ground arith in rw (← same) h.0
    | inr t ↦ All-find_row p ys h.1 (rw t at e)
  ]

module _ {ℓ} {A : Type ℓ} where
  pub find_row-holds : (p : A → Bool) (xs : List A) {x : A} → find_row p xs ≡ some x → p x ≡ true
  unfolding find_row
  find_row-holds p [] e = cc
  find_row-holds p (y ∷ ys) e = elim (Bool-cases (p y)) [
    | inl t ↦ ground arith
    | inr t ↦ find_row-holds p ys (rw t at e)
  ]

module _ {ℓ} {A : Type ℓ} where
  pub length-update_rows :
      (p : A → Bool) (f : A → A) (xs : List A) → length (update_rows p f xs) ≡ length xs
  unfolding update_rows
  length-update_rows p f [] = refl
  length-update_rows p f (x ∷ xs) = ap suc (length-update_rows p f xs)

  pub length-delete_rows : (p : A → Bool) (xs : List A) → length (delete_rows p xs) ≤ length xs
  unfolding delete_rows
  length-delete_rows p [] = omega arith
  length-delete_rows p (x ∷ xs) = ground (arith, length-delete_rows p xs)

  pub delete_rows-none_left :
      (p : A → Bool) (xs : List A) → All (λ x. p x ≡ false) (delete_rows p xs)
  unfolding delete_rows
  delete_rows-none_left p [] = tt
  delete_rows-none_left p (x ∷ xs) = elim (Bool-cases (p x)) [
    | inl e ↦ rw e (delete_rows-none_left p xs)
    | inr e ↦ rw e (e, delete_rows-none_left p xs)
  ]

module _ {ℓ} {A : Type ℓ} (id : A → ℕ) where
  -- No two rows have the same key.
  abbrev pub Distinct : List A → Type ℓ
  Distinct [] = Unit
  Distinct (x ∷ xs) = All (λ y. id y ≢ id x) xs × Distinct xs

  pub Distinct-update_rows :
      (p : A → Bool) (f : A → A) (xs : List A)
      → ((x : A) → id (f x) ≡ id x)
      → Distinct xs
      → Distinct (update_rows p f xs)
  unfolding update_rows
  Distinct-update_rows p f [] same h = tt
  Distinct-update_rows p f (x ∷ xs) same h = (
    All-update_rows (λ y. id y ≢ id (if p x then f x else x)) p f xs (λ y n e. rw (same y) n)
        (rw (same_head) h.0),
    Distinct-update_rows p f xs same h.1,
  )
    where
      same_head : id (if p x then f x else x) ≡ id x
      same_head = elim (Bool-cases (p x)) [ inl e ↦ rw e (same x) | inr e ↦ rw e ]

  pub Distinct-delete_rows :
      (p : A → Bool) (xs : List A) → Distinct xs → Distinct (delete_rows p xs)
  unfolding delete_rows
  Distinct-delete_rows p [] h = tt
  Distinct-delete_rows p (x ∷ xs) h = elim (Bool-cases (p x)) [
    | inl e ↦ rw e (Distinct-delete_rows p xs h.1)
    | inr e ↦ rw e (All-delete_rows _ p xs h.0, Distinct-delete_rows p xs h.1)
  ]

  Distinct-remove_first : (p : A → Bool) (xs : List A) → Distinct xs → Distinct (remove_first p xs)
  unfolding remove_first
  Distinct-remove_first p [] h = tt
  Distinct-remove_first p (x ∷ xs) h = elim (Bool-cases (p x)) [
    | inl e ↦ rw e h.1
    | inr e ↦ rw e (All-remove_first _ p xs h.0, Distinct-remove_first p xs h.1)
  ]

  -- With distinct keys, the row that a key's SELECT finds is the only one with that key.
  pub All-same_of_find_row :
      (q : A → Bool) (k : ℕ) (xs : List A) {x : A}
      → ((y : A) → q y ≡ true → id y ≡ k)
      → Distinct xs
      → find_row q xs ≡ some x
      → All (λ y. id y ≡ k → y ≡ x) xs
  unfolding find_row
  All-same_of_find_row q k [] keyed d e = tt
  All-same_of_find_row q k (y ∷ ys) {x} keyed d e = elim (Bool-cases (q y)) [
    | inl t ↦
        let same : y ≡ x = ground arith in
        ((λ _. same), All-map _ _ ys (λ z n i. absurd (n (i ∙ sym (keyed y t)))) d.0)
    | inr t ↦
        let rest = rw t at e in
        let found = All-find_row (λ z. id z ≢ id y) q ys d.0 rest in
        (
          (λ i. absurd (found (keyed x (find_row-holds q ys rest) ∙ sym i))),
          All-same_of_find_row q k ys keyed d.1 rest,
        )
  ]

and_false : (a b : Bool) → a ≡ false → (a && b) ≡ false
and_false a b e = ground arith

module _ {ℓ} {A : Type ℓ} where
  -- A row that the condition never selects stays where a SELECT finds it.
  find_row-remove_first :
      (q p : A → Bool) (xs : List A)
      → All (λ x. q x ≡ true → p x ≡ false) xs
      → find_row q (remove_first p xs) ≡ find_row q xs
  unfolding find_row remove_first
  find_row-remove_first q p [] h = refl
  find_row-remove_first q p (x ∷ xs) h = elim (Bool-cases (q x)) [
    | inl t ↦ rw (h.0 t, t)
    | inr t ↦ ground (arith, find_row-remove_first q p xs h.1)
  ]

  pub find_row-delete_rows :
      (q p : A → Bool) (xs : List A)
      → All (λ x. q x ≡ true → p x ≡ false) xs
      → find_row q (delete_rows p xs) ≡ find_row q xs
  unfolding find_row delete_rows
  find_row-delete_rows q p [] h = refl
  find_row-delete_rows q p (x ∷ xs) h = ground (arith, find_row-delete_rows q p xs h.1, h.0)

-- What removing one selected row keeps, deleting the oldest selected rows keeps.
module _ {ℓ κ} {A : Type ℓ} (Q : List A → Type κ) (key : A → ℕ) (p : A → Bool) where
  pub delete_oldest-keeps :
      ((m : ℕ) (xs : List A) → Q xs → Q (remove_first (λ x. p x && key x == m) xs))
      → (n : ℕ) (xs : List A) → Q xs
      → Q (delete_oldest n key p xs).0
  unfolding delete_oldest
  delete_oldest-keeps step zero xs h = h
  delete_oldest-keeps step (suc n) xs h = elim (Option-cases (least_key key p xs)) [
    | inl e ↦ rw (e, delete_oldest) h
    | inr (m, e) ↦ rw (e, delete_oldest) (delete_oldest-keeps step n _ (step m xs h))
  ]

module _ {ℓ} {A : Type ℓ} where
  pub All-delete_oldest {κ} :
      (P : A → Type κ) (n : ℕ) (key : A → ℕ) (p : A → Bool) (xs : List A)
      → All P xs
      → All P (delete_oldest n key p xs).0
  All-delete_oldest P n key p xs h =
      delete_oldest-keeps (All P) key p (λ m ys. All-remove_first P _ ys) n xs h

  pub Distinct-delete_oldest :
      (id : A → ℕ) (n : ℕ) (key : A → ℕ) (p : A → Bool) (xs : List A)
      → Distinct id xs
      → Distinct id (delete_oldest n key p xs).0
  Distinct-delete_oldest id n key p xs h =
      delete_oldest-keeps (Distinct id) key p (λ m ys. Distinct-remove_first id _ ys) n xs h

  pub find_row-delete_oldest :
      (q : A → Bool) (n : ℕ) (key : A → ℕ) (p : A → Bool) (xs : List A)
      → All (λ x. q x ≡ true → p x ≡ false) xs
      → find_row q (delete_oldest n key p xs).0 ≡ find_row q xs
  find_row-delete_oldest q n key p xs h =
      (delete_oldest-keeps
        (λ ys. All (λ x. q x ≡ true → p x ≡ false) ys × (find_row q ys ≡ find_row q xs)) key p
        (λ m ys k. (
          All-remove_first (λ x. q x ≡ true → p x ≡ false) _ ys k.0,
          find_row-remove_first q _ ys
                (All-map _ _ ys (λ x f t. and_false (p x) (key x == m) (f t)) k.0)
              ∙ k.1,
        ))
        n xs (h, refl)).1
