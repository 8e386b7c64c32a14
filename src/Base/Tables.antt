-- ===== src/Base/Tables.antt =====
-- Database tables as lists of rows: the SELECT, UPDATE and DELETE statements that the services send.
pub mod Laws
pub mod Find
pub mod Oldest
use Prim.Native.Nat.{ℕ, zero, suc, min}
use mathlib.Core.Bool.{Bool, true, false, ◌&&◌}
use mathlib.Core.Option.{Option, none, some}
use mathlib.Core.List.{List, [], ◌∷◌}
use public_lighting_fault_re.Base.Tests.{◌==◌, if◌then◌else◌}

abbrev least_of : ℕ → Option ℕ → ℕ
least_of k none = k
least_of k (some m) = min k m

module _ {ℓ} {A : Type ℓ} where
  -- `rows[0]` of a SELECT with the condition `p`.
  unfoldable pub find_row : (A → Bool) → List A → Option A
  find_row p [] = none
  find_row p (x ∷ xs) = if p x then some x else find_row p xs

  -- UPDATE ... SET `f` WHERE `p`.
  unfoldable pub update_rows : (A → Bool) → (A → A) → List A → List A
  update_rows p f [] = []
  update_rows p f (x ∷ xs) = (if p x then f x else x) ∷ update_rows p f xs

  -- DELETE ... WHERE `p`.
  unfoldable pub delete_rows : (A → Bool) → List A → List A
  delete_rows p [] = []
  delete_rows p (x ∷ xs) = let rest = delete_rows p xs in if p x then rest else x ∷ rest

  -- SELECT COUNT(*) ... WHERE `p`, also the rowCount of an UPDATE or DELETE.
  unfoldable pub count_rows : (A → Bool) → List A → ℕ
  count_rows p [] = 0
  count_rows p (x ∷ xs) = let rest = count_rows p xs in if p x then suc rest else rest

  -- The least key among the rows that `p` selects.
  least_key : (A → ℕ) → (A → Bool) → List A → Option ℕ
  least_key key p [] = none
  least_key key p (x ∷ xs) =
      let rest = least_key key p xs in if p x then some (least_of (key x) rest) else rest

  pub remove_first : (A → Bool) → List A → List A
  remove_first p [] = []
  remove_first p (x ∷ xs) = if p x then xs else x ∷ remove_first p xs

  -- DELETE of the rows that `SELECT ... WHERE p ORDER BY key LIMIT n` names, with the row count.
  unfoldable pub delete_oldest : ℕ → (A → ℕ) → (A → Bool) → List A → List A × ℕ
  unfolding least_key remove_first
  delete_oldest zero key p xs = (xs, 0)
  delete_oldest (suc n) key p xs = elim (least_key key p xs) [
    | none ↦ (xs, 0)
    | some m ↦
        let (ys, k) = delete_oldest n key p (remove_first (λ x. p x && key x == m) xs) in
        (ys, suc k)
  ]
