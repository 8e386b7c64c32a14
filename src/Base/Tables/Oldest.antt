-- ===== src/Base/Tables/Oldest.antt =====
-- How many rows a bounded DELETE of the oldest rows removes, and which it keeps.
use Prim.Native.Nat.{ℕ, zero, suc, ◌+◌, min}
use mathlib.Core.Path.{◌≡◌, refl, ap}
use mathlib.Core.Bool.{Bool, true, false, ◌&&◌}
use mathlib.Core.Option.{none, some}
use mathlib.Core.Logic.{◌⊎◌, inl, inr}
use mathlib.Core.List.{List, [], ◌∷◌}
use native.Mathlib.Omega.{arith}
use public_lighting_fault_re.Base.Tests.{◌==◌, Bool-cases, Option-cases}
use public_lighting_fault_re.Base.Lists.{any}
use public_lighting_fault_re.Base.Tables.{count_rows, least_key, remove_first, delete_oldest}

module _ {ℓ} {A : Type ℓ} (key : A → ℕ) (p : A → Bool) where
  abbrev at_key : ℕ → A → Bool
  at_key m x = p x && key x == m

  least_key-any : (m : ℕ) (xs : List A) → least_key key p xs ≡ some m → any (at_key m) xs ≡ true
  unfolding least_key
  least_key-any m [] e = cc
  least_key-any m (x ∷ xs) e = elim (Bool-cases (p x)) [
    | inr f ↦ rw f (least_key-any m xs (rw f at e))
    | inl f ↦ elim (Option-cases (least_key key p xs)) [
      | inl g ↦ let own : key x ≡ m = ground (arith, rw (f, g) at e) in rw (f, own) (ground arith)
      | inr (k, g) ↦
          let low : min (key x) k ≡ m = ground (arith, rw (f, g) at e) in
          elim (Bool-cases (key x == m)) [
            | inl o ↦ rw (f, o) refl
            | inr o ↦
                let later : k ≡ m = ground arith in rw (f, o) (least_key-any m xs (rw later at g))
          ]
    ]
  ]

  least_key-none : (xs : List A) → least_key key p xs ≡ none → count_rows p xs ≡ 0
  unfolding least_key count_rows
  least_key-none [] e = refl
  least_key-none (x ∷ xs) e = elim (Bool-cases (p x)) [
    | inl f ↦ absurd (cc (rw f at e))
    | inr f ↦ rw f (least_key-none xs (rw f at e))
  ]

  count_rows-remove_first :
      (m : ℕ) (xs : List A)
      → any (at_key m) xs ≡ true
      → suc (count_rows p (remove_first (at_key m) xs)) ≡ count_rows p xs
  unfolding remove_first count_rows
  count_rows-remove_first m [] e = cc
  count_rows-remove_first m (x ∷ xs) e = elim (Bool-cases (at_key m x)) [
    | inl f ↦ let held : p x ≡ true = ground arith in rw f (rw held refl)
    | inr f ↦
        let later = count_rows-remove_first m xs (rw f at e) in
        rw f (elim (Bool-cases (p x)) [ inl h ↦ rw h (ap suc later) | inr h ↦ rw h later ])
  ]

  -- Rows outside the condition are not counted out.
  remove_first_others :
      (q : A → Bool)
      → ((x : A) → p x ≡ true → q x ≡ false)
      → (m : ℕ) (xs : List A) → count_rows q (remove_first (at_key m) xs) ≡ count_rows q xs
  unfolding remove_first count_rows
  remove_first_others q apart m [] = refl
  remove_first_others q apart m (x ∷ xs) = elim (Bool-cases (at_key m x)) [
    | inl f ↦ let other : q x ≡ false = apart x (ground arith) in rw f (rw other refl)
    | inr f ↦
        let later = remove_first_others q apart m xs in
        rw f (elim (Bool-cases (q x)) [ inl h ↦ rw h (ap suc later) | inr h ↦ rw h later ])
  ]

  -- What is removed is what is missing, and a short removal leaves nothing to remove.
  pub delete_oldest-count_rows :
      (n : ℕ) (xs : List A)
      → (count_rows p (delete_oldest n key p xs).0 + (delete_oldest n key p xs).1 ≡ count_rows p xs)
        × (((delete_oldest n key p xs).1 ≡ n) ⊎ (count_rows p (delete_oldest n key p xs).0 ≡ 0))
  unfolding delete_oldest
  delete_oldest-count_rows zero xs = (omega arith, inl refl)
  delete_oldest-count_rows (suc n) xs = elim (Option-cases (least_key key p xs)) [
    | inl e ↦ rw (e, delete_oldest) (omega arith, inr (least_key-none xs e))
    | inr (m, e) ↦
        let rest = remove_first (at_key m) xs in
        let one = count_rows-remove_first m xs (least_key-any m xs e) in
        let (sum, short) = delete_oldest-count_rows n rest in
        rw (e, delete_oldest)
          (omega (arith, one, sum), elim short [ inl f ↦ inl (ap suc f) | inr f ↦ inr f ])
  ]

  -- The rows outside the condition stay.
  pub delete_oldest_others :
      (q : A → Bool)
      → ((x : A) → p x ≡ true → q x ≡ false)
      → (n : ℕ) (xs : List A) → count_rows q (delete_oldest n key p xs).0 ≡ count_rows q xs
  unfolding delete_oldest
  delete_oldest_others q apart zero xs = refl
  delete_oldest_others q apart (suc n) xs = elim (Option-cases (least_key key p xs)) [
    | inl e ↦ rw (e, delete_oldest) refl
    | inr (m, e) ↦
        rw (e, delete_oldest)
          (rw (delete_oldest_others q apart n (remove_first (at_key m) xs))
            (remove_first_others q apart m xs))
  ]
