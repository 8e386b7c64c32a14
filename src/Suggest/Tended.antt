-- ===== src/Suggest/Tended.antt =====
-- Every entry that is not settled is tended: it stands in the queue, or its work is under way.
pub mod Events
use mathlib.Core.Path.{subst}
use public_lighting_fault_re.Base.{
  ℕ, zero, suc, ◌+◌, ◌≡◌, ◌≢◌, refl, sym, ap, ◌∙◌, inl, inr, Bool, true, false, none, some, List,
  [], ◌∷◌, ◌++◌, arith, leb, ltb, length, Bool-cases, Option-cases, ◌==◌, any, not, ◌&&◌, ◌||◌,
}
use public_lighting_fault_re.Base.Tables.{find_row, update_rows}
use public_lighting_fault_re.Base.Cells.{
  get_elem?, modify, get_elem?-modify_same, get_elem?-modify_absent, get_elem?-last,
}
use public_lighting_fault_re.Suggest.{
  Settings, Outside, Phase, queued, starting, running, settled, is_settled, is_queued, Entry, Desk,
  State, Work, Outcome,
}
use public_lighting_fault_re.Suggest.Admission.{
  in_phase, emptied, settle, settle_entry, phase_of, unqueue,
}
use public_lighting_fault_re.Suggest.Events.{is_work, without_work, expire_work}
use public_lighting_fault_re.Suggest.Queue.{AgreesOff}
use public_lighting_fault_re.Suggest.Order.{Agrees}

abbrev pub is_in : ℕ → List ℕ → Bool
is_in i q = any (λ j. j == i) q

-- A call for the entry `i` whose time is not up.
abbrev pub is_live_work : ℕ → Work → Bool
is_live_work i x = x.entry == i && not x.timed_out

-- What an entry in a phase is waiting for.
abbrev pub IsTended : ℕ → List ℕ → List Work → Phase → Type 0
IsTended i q xs queued = is_in i q ≡ true
IsTended i q xs starting = any (is_live_work i) xs ≡ true
IsTended i q xs running = any (is_live_work i) xs ≡ true
IsTended i q xs settled = Unit

abbrev pub AllTended : State → Type 0
AllTended s = (i : ℕ) → IsTended i s.queue s.executing (phase_of i s.desk)

-- All but one.
abbrev pub AllTendedOff : ℕ → State → Type 0
AllTendedOff j s = (i : ℕ) → i ≢ j → IsTended i s.queue s.executing (phase_of i s.desk)

pub IsTended-map :
    (i : ℕ) (q q' : List ℕ) (xs xs' : List Work) (p : Phase)
    → (is_in i q ≡ true → is_in i q' ≡ true)
    → (any (is_live_work i) xs ≡ true → any (is_live_work i) xs' ≡ true)
    → IsTended i q xs p
    → IsTended i q' xs' p
IsTended-map i q q' xs xs' queued f g h = f h
IsTended-map i q q' xs xs' starting f g h = g h
IsTended-map i q q' xs xs' running f g h = g h
IsTended-map i q q' xs xs' settled f g h = tt

pub off_change :
    (j : ℕ) (s s' : State)
    → AgreesOff j s.desk s'.desk
    → ((i : ℕ) → i ≢ j → is_in i s.queue ≡ true → is_in i s'.queue ≡ true)
    → ((i : ℕ)
        → i ≢ j
        → any (is_live_work i) s.executing ≡ true
        → any (is_live_work i) s'.executing ≡ true)
    → AllTendedOff j s
    → AllTendedOff j s'
off_change j s s' agree f g h i n = subst (IsTended i s'.queue s'.executing) (sym (agree i n)) (
    IsTended-map i s.queue s'.queue s.executing s'.executing (phase_of i s.desk) (f i n) (g i n)
      (h i n))

pub same_phases :
    (s : State) (d : Desk) → Agrees s.desk d → AllTended s → AllTended (record s { desk = d })
same_phases s d agree h i = subst (IsTended i s.queue s.executing) (sym (agree i)) (h i)

-- The one that was left out is tended too.
pub whole :
    (j : ℕ) (s : State)
    → AllTendedOff j s
    → IsTended j s.queue s.executing (phase_of j s.desk)
    → AllTended s
whole j s off here i = elim (Bool-cases (i == j)) [
  | inl e ↦
      let same : i ≡ j = ground arith in
      subst (λ k. IsTended k s.queue s.executing (phase_of k s.desk)) (sym same) here
  | inr e ↦ off i (ground arith)
]

pub whole_settled :
    (j : ℕ) (s : State) → AllTendedOff j s → phase_of j s.desk ≡ settled → AllTended s
whole_settled j s off e = whole j s off (subst (IsTended j s.queue s.executing) (sym e) tt)

pub phase_of-settle_same : (i : ℕ) (o : Outcome) (d : Desk) → phase_of i (settle i o d) ≡ settled
unfolding settle settle_entry phase_of
phase_of-settle_same i o d = elim (Option-cases (get_elem? d.entries i)) [
  | inl e ↦ rw (e, settle) (rw (e, phase_of) refl)
  | inr (x, e) ↦ elim (Bool-cases (is_settled x.phase)) [
    | inl t ↦ rw (e, settle, t) (rw (e, phase_of) (is_settled-settled x.phase t))
    | inr t ↦ rw (e, settle, t) (rw (get_elem?-modify_same emptied i d.entries e, phase_of) refl)
  ]
]
  where
    is_settled-settled : (p : Phase) → is_settled p ≡ true → p ≡ settled
    is_settled-settled queued h = absurd (cc)
    is_settled-settled starting h = absurd (cc)
    is_settled-settled running h = absurd (cc)
    is_settled-settled settled h = refl

pub phase_of-set_same :
    (i : ℕ) (d : Desk)
    → phase_of i (record d { entries = modify (in_phase settled) i d.entries }) ≡ settled
unfolding phase_of
phase_of-set_same i d = elim (Option-cases (get_elem? d.entries i)) [
  | inl e ↦ rw (get_elem?-modify_absent (in_phase settled) i d.entries e, phase_of) refl
  | inr (x, e) ↦ rw (get_elem?-modify_same (in_phase settled) i d.entries e, phase_of) refl
]

pub is_in-unqueue : (i j : ℕ) (q : List ℕ) → i ≢ j → is_in i q ≡ true → is_in i (unqueue j q) ≡ true
unfolding unqueue
is_in-unqueue i j [] n h = h
is_in-unqueue i j (k ∷ q) n h = elim (Bool-cases (k == j)) [
  | inl e ↦ let other : (k == i) ≡ false = ground (arith, n) in rw e (rw other at h)
  | inr e ↦ elim (Bool-cases (k == i)) [
    | inl f ↦ rw (e, f) refl
    | inr f ↦ rw (e, f) (is_in-unqueue i j q n (rw f at h))
  ]
]

pub is_in-append : (i j : ℕ) (q : List ℕ) → is_in i q ≡ true → is_in i (q ++ (j ∷ [])) ≡ true
is_in-append i j [] h = absurd (cc)
is_in-append i j (k ∷ q) h = elim (Bool-cases (k == i)) [
  | inl f ↦ rw f refl
  | inr f ↦ rw f (is_in-append i j q (rw f at h))
]

pub is_in-last : (i : ℕ) (q : List ℕ) → is_in i (q ++ (i ∷ [])) ≡ true
is_in-last i [] = ground arith
is_in-last i (k ∷ q) = elim (Bool-cases (k == i)) [
  | inl f ↦ rw f refl
  | inr f ↦ rw f (is_in-last i q)
]

-- The end of another entry's work.
pub live-without_other :
    (i j : ℕ) (xs : List Work)
    → i ≢ j
    → any (is_live_work i) xs ≡ true
    → any (is_live_work i) (without_work j xs) ≡ true
unfolding without_work
live-without_other i j [] n h = h
live-without_other i j (x ∷ xs) n h = elim (Bool-cases (x.entry == j)) [
  | inl e ↦ let other : is_live_work i x ≡ false = ground (arith, n) in rw e (rw other at h)
  | inr e ↦ elim (Bool-cases (is_live_work i x)) [
    | inl f ↦ rw (e, f) refl
    | inr f ↦ rw (e, f) (live-without_other i j xs n (rw f at h))
  ]
]

-- The end of a work whose time is up.
pub live-without_late :
    (i j : ℕ) (xs : List Work) {x : Work}
    → find_row (is_work j) xs ≡ some x
    → x.timed_out ≡ true
    → any (is_live_work i) xs ≡ true
    → any (is_live_work i) (without_work j xs) ≡ true
unfolding without_work find_row
live-without_late i j [] g l h = h
live-without_late i j (y ∷ xs) {x} g l h = elim (Bool-cases (y.entry == j)) [
  | inl e ↦
      let same : y ≡ x = ground (arith, rw e at g) in
      let late : y.timed_out ≡ true = rw same l in
      let over : is_live_work i y ≡ false = ground (arith, late) in rw e (rw over at h)
  | inr e ↦ elim (Bool-cases (is_live_work i y)) [
    | inl f ↦ rw (e, f) refl
    | inr f ↦ rw (e, f) (live-without_late i j xs (rw e at g) l (rw f at h))
  ]
]

pub live-expire_work :
    (i j : ℕ) (xs : List Work)
    → i ≢ j
    → any (is_live_work i) xs ≡ true
    → any (is_live_work i) (update_rows (is_work j) (expire_work j) xs) ≡ true
unfolding update_rows
live-expire_work i j [] n h = h
live-expire_work i j (x ∷ xs) n h = elim (Bool-cases (x.entry == j)) [
  | inl e ↦
      let other : is_live_work i x ≡ false = ground (arith, n) in
      let other' : is_live_work i (expire_work j x) ≡ false = ground (arith, n) in
      rw (e, other') (live-expire_work i j xs n (rw other at h))
  | inr e ↦ elim (Bool-cases (is_live_work i x)) [
    | inl f ↦ rw (e, f) refl
    | inr f ↦ rw (e, f) (live-expire_work i j xs n (rw f at h))
  ]
]

get_elem?-append_other :
    {A : Type 0} (i : ℕ) (xs : List A) (e : A)
    → i ≢ length xs
    → get_elem? (xs ++ (e ∷ [])) i ≡ get_elem? xs i
unfolding get_elem?
get_elem?-append_other zero [] e n = absurd (n refl)
get_elem?-append_other (suc i) [] e n = refl
get_elem?-append_other zero (x ∷ xs) e n = refl
get_elem?-append_other (suc i) (x ∷ xs) e n = get_elem?-append_other i xs e (λ m. n (ap suc m))

pub phase_of-append :
    (d : Desk) (e : Entry)
    → AgreesOff (length d.entries) d (record d { entries = d.entries ++ (e ∷ []) })
unfolding phase_of
phase_of-append d e i n = rw (get_elem?-append_other i d.entries e n, phase_of) refl

pub phase_of-last :
    (d : Desk) (e : Entry)
    → phase_of (length d.entries) (record d { entries = d.entries ++ (e ∷ []) }) ≡ e.phase
unfolding phase_of
phase_of-last d e = rw (get_elem?-last d.entries e, phase_of) refl
