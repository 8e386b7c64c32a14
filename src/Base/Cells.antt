-- ===== src/Base/Cells.antt =====
-- Objects in a store: a list of cells that are reached by their position and never removed.
use Prim.Native.Nat.{ℕ, zero, suc, ◌<◌}
use mathlib.Core.Path.{◌≡◌, refl, ap}
use mathlib.Core.Logic.{◌≢◌}
use mathlib.Core.Option.{Option, none, some}
use mathlib.Core.List.{List, [], ◌∷◌, ◌++◌}
use native.Mathlib.Omega.{arith}
use public_lighting_fault_re.Base.Lists.{length}

module _ {ℓ} {A : Type ℓ} where
  unfoldable pub get_elem? : List A → ℕ → Option A
  get_elem? [] i = none
  get_elem? (x ∷ xs) zero = some x
  get_elem? (x ∷ xs) (suc i) = get_elem? xs i

  unfoldable pub modify : (A → A) → ℕ → List A → List A
  modify f i [] = []
  modify f zero (x ∷ xs) = f x ∷ xs
  modify f (suc i) (x ∷ xs) = x ∷ modify f i xs

  pub length-modify : (f : A → A) (i : ℕ) (xs : List A) → length (modify f i xs) ≡ length xs
  unfolding modify
  length-modify f i [] = refl
  length-modify f zero (x ∷ xs) = refl
  length-modify f (suc i) (x ∷ xs) = ap suc (length-modify f i xs)

  pub get_elem?-modify_other :
      (f : A → A) (i j : ℕ) (xs : List A) → i ≢ j → get_elem? (modify f i xs) j ≡ get_elem? xs j
  unfolding get_elem? modify
  get_elem?-modify_other f i j [] h = refl
  get_elem?-modify_other f zero zero (x ∷ xs) h = absurd (h refl)
  get_elem?-modify_other f zero (suc j) (x ∷ xs) h = refl
  get_elem?-modify_other f (suc i) zero (x ∷ xs) h = refl
  get_elem?-modify_other f (suc i) (suc j) (x ∷ xs) h =
      get_elem?-modify_other f i j xs (λ e. h (ap suc e))

  pub get_elem?-modify_same :
      (f : A → A) (i : ℕ) (xs : List A) {a : A}
      → get_elem? xs i ≡ some a
      → get_elem? (modify f i xs) i ≡ some (f a)
  unfolding get_elem? modify
  get_elem?-modify_same f i [] h = absurd (cc)
  get_elem?-modify_same f zero (x ∷ xs) {a} h = let same : x ≡ a = ground arith in rw same refl
  get_elem?-modify_same f (suc i) (x ∷ xs) h = get_elem?-modify_same f i xs h

  pub get_elem?-append :
      (i : ℕ) (xs ys : List A) → i < length xs → get_elem? (xs ++ ys) i ≡ get_elem? xs i
  unfolding get_elem?
  get_elem?-append i [] ys h = absurd (omega arith)
  get_elem?-append zero (x ∷ xs) ys h = refl
  get_elem?-append (suc i) (x ∷ xs) ys h = get_elem?-append i xs ys (omega arith)

  pub get_elem?-last : (xs : List A) (x : A) → get_elem? (xs ++ (x ∷ [])) (length xs) ≡ some x
  unfolding get_elem?
  get_elem?-last [] x = refl
  get_elem?-last (y ∷ xs) x = get_elem?-last xs x

  pub get_elem?-lt : (i : ℕ) (xs : List A) {a : A} → get_elem? xs i ≡ some a → i < length xs
  unfolding get_elem?
  get_elem?-lt i [] h = absurd (cc)
  get_elem?-lt zero (x ∷ xs) h = omega arith
  get_elem?-lt (suc i) (x ∷ xs) h = omega (arith, get_elem?-lt i xs h)

  pub get_elem?-modify_absent :
      (f : A → A) (i : ℕ) (xs : List A) → get_elem? xs i ≡ none → get_elem? (modify f i xs) i ≡ none
  unfolding get_elem? modify
  get_elem?-modify_absent f i [] h = refl
  get_elem?-modify_absent f zero (x ∷ xs) h = absurd (cc)
  get_elem?-modify_absent f (suc i) (x ∷ xs) h = get_elem?-modify_absent f i xs h
