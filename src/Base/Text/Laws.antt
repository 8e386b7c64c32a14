-- ===== src/Base/Text/Laws.antt =====
-- Equal texts.
use Prim.Native.Nat.{ℕ}
use mathlib.Core.Path.{◌≡◌, refl}
use mathlib.Core.Logic.{inl, inr}
use mathlib.Core.Bool.{true}
use mathlib.Core.List.{List, [], ◌∷◌}
use native.Mathlib.Omega.{arith}
use public_lighting_fault_re.Base.Tests.{◌==◌, ==_iff, Bool-cases}
use public_lighting_fault_re.Base.Text.{same_text}

pub same_text_eq : (s t : List ℕ) → same_text s t ≡ true → s ≡ t
same_text_eq [] [] h = refl
same_text_eq [] (b ∷ t) h = absurd (cc)
same_text_eq (a ∷ s) [] h = absurd (cc)
same_text_eq (a ∷ s) (b ∷ t) h = elim (Bool-cases (a == b)) [
  | inl e ↦
      let same : a ≡ b = ground arith in
      let rest : s ≡ t = same_text_eq s t (rw e at h) in rw (same, rest) refl
  | inr e ↦ absurd (cc (rw e at h))
]

pub same_text_self : (s : List ℕ) → same_text s s ≡ true
same_text_self [] = refl
same_text_self (a ∷ s) = rw ((==_iff a a).1 refl) (same_text_self s)
