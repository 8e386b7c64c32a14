-- ===== src/Suggest/Held.antt =====
-- The requests that wait: the subscribers of the entries, and what each change of the desk does to
-- the number of the requests that wait or are answered.
use public_lighting_fault_re.Base.{
  ℕ, zero, suc, ◌+◌, ◌≡◌, ◌≢◌, refl, sym, ap, ◌∙◌, inl, inr, false, some, List, [], ◌∷◌, ◌++◌, All,
  arith, length, Bool-cases, ◌==◌, ◌&&◌,
}
use public_lighting_fault_re.Base.Tables.{delete_rows}
use public_lighting_fault_re.Base.Cells.{
  get_elem?, modify, get_elem?-modify_same, get_elem?-modify_other,
}
use public_lighting_fault_re.Suggest.{settled, is_settled, Entry, Ref, Desk}
use public_lighting_fault_re.Suggest.Admission.{release}

unfoldable pub waiting : List Entry → ℕ
waiting [] = 0
waiting (e ∷ es) = length e.subscribers + waiting es

-- The requests that wait, and the answers.
abbrev pub tally : Desk → ℕ
tally d = length d.answers + waiting d.entries

-- An entry of `inFlight` is not settled, and stands under its key.
abbrev pub IsHeld : List Entry → Ref → Type 0
IsHeld es r =
    (e : Entry) × (get_elem? es r.entry ≡ some e) × (e.key ≡ r.key) × (is_settled e.phase ≡ false)

-- Nobody waits on a settled entry.
abbrev pub IsClean : Entry → Type 0
IsClean e = e.phase ≡ settled → e.subscribers ≡ []

pub waiting-modify :
    (f : Entry → Entry) (i : ℕ) (xs : List Entry) {e : Entry}
    → get_elem? xs i ≡ some e
    → waiting (modify f i xs) + length e.subscribers ≡ waiting xs + length (f e).subscribers
unfolding get_elem? modify waiting
waiting-modify f i [] h = absurd (cc)
waiting-modify f zero (x ∷ xs) {e} h = let same : x ≡ e = ground arith in rw same (omega arith)
waiting-modify f (suc i) (x ∷ xs) h = omega (arith, waiting-modify f i xs h)

pub waiting-modify_same :
    (f : Entry → Entry) (i : ℕ) (xs : List Entry)
    → ((e : Entry) → (f e).subscribers ≡ e.subscribers)
    → waiting (modify f i xs) ≡ waiting xs
unfolding modify waiting
waiting-modify_same f i [] k = refl
waiting-modify_same f zero (x ∷ xs) k = rw (k x) refl
waiting-modify_same f (suc i) (x ∷ xs) k =
    ap (λ n. length x.subscribers + n) (waiting-modify_same f i xs k)

pub waiting-append :
    (xs : List Entry) (e : Entry) → waiting (xs ++ (e ∷ [])) ≡ waiting xs + length e.subscribers
unfolding waiting
waiting-append [] e = omega arith
waiting-append (x ∷ xs) e = omega (arith, waiting-append xs e)

pub All-modify {ℓ} :
    {A : Type ℓ} (P : A → Type ℓ) (f : A → A) (i : ℕ) (xs : List A)
    → ((x : A) → get_elem? xs i ≡ some x → P x → P (f x))
    → All P xs
    → All P (modify f i xs)
unfolding get_elem? modify
All-modify P f i [] k h = tt
All-modify P f zero (x ∷ xs) k h = (k x refl h.0, h.1)
All-modify P f (suc i) (x ∷ xs) k h = (h.0, All-modify P f i xs k h.1)

-- A change that keeps the key, and after which the entry is not settled.
pub modify-IsHeld :
    (f : Entry → Entry) (j : ℕ) (es : List Entry) (r : Ref)
    → ((e : Entry) → (f e).key ≡ e.key)
    → ((e : Entry) → is_settled e.phase ≡ false → is_settled (f e).phase ≡ false)
    → IsHeld es r
    → IsHeld (modify f j es) r
modify-IsHeld f j es r k l (e, g, a, b) = elim (Bool-cases (r.entry == j)) [
  | inl t ↦
      let same : r.entry ≡ j = ground arith in
      (f e, rw same (get_elem?-modify_same f j es (rw same at g)), k e ∙ a, l e b)
  | inr t ↦
      let other : j ≢ r.entry = ground arith in
      (e, get_elem?-modify_other f j r.entry es other ∙ g, a, b)
]

-- What `inFlight.delete` leaves is held, when only the entry `j` with the key `k` has changed.
pub release-IsHeld :
    (f : Entry → Entry) (j : ℕ) (es : List Entry) (refs : List Ref) {x : Entry}
    → get_elem? es j ≡ some x
    → All (IsHeld es) refs
    → All (IsHeld (modify f j es)) (release x.key j refs)
unfolding release delete_rows
release-IsHeld f j es [] g h = tt
release-IsHeld f j es (r ∷ refs) {x} g h = elim (Bool-cases (r.key == x.key && r.entry == j)) [
  | inl t ↦ rw t (release-IsHeld f j es refs g h.1)
  | inr t ↦ elim (Bool-cases (r.entry == j)) [
    | inl u ↦
        let (e, get, key, phase) = h.0 in
        let at_j : r.entry ≡ j = ground arith in
        let same : e ≡ x = ground (arith, rw at_j at get) in
        let keys : r.key ≡ x.key = sym key ∙ ap Entry.key same in absurd (ground arith)
    | inr u ↦
        let (e, get, key, phase) = h.0 in
        let other : j ≢ r.entry = ground arith in
        rw t (
          (e, get_elem?-modify_other f j r.entry es other ∙ get, key, phase),
          release-IsHeld f j es refs g h.1,
        )
  ]
]
