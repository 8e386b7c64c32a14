-- ===== src/Suggest/Answers.antt =====
-- What each change of the desk does to the requests that wait and those that are answered.
use public_lighting_fault_re.Base.{
  ℕ, suc, ◌+◌, ◌≡◌, refl, sym, ap, ◌∙◌, inl, inr, true, false, some, List, [], ◌∷◌, ◌++◌, All,
  All-map, All-append, arith, length, length-append, Bool-cases, Option-cases, any, ◌==◌,
}
use public_lighting_fault_re.Base.Cells.{
  get_elem?, modify, get_elem?-append, get_elem?-last, get_elem?-lt,
}
use public_lighting_fault_re.Suggest.{
  Phase, queued, settled, is_settled, Failure, rejected, Outcome, Entry, Ref, Desk,
}
use public_lighting_fault_re.Suggest.Admission.{
  in_phase, emptied, release, answers_to, settle_entry, settle, set_phase,
}
use public_lighting_fault_re.Suggest.Events.{
  is_same, without, left, joined, answered, subscribe, open_entry,
}
use public_lighting_fault_re.Suggest.Held.{
  tally, IsHeld, IsClean, waiting-modify, waiting-modify_same, waiting-append, All-modify,
  modify-IsHeld, release-IsHeld,
}

-- The desk is kept, and the tally is `n`.
abbrev pub IsTally : ℕ → Desk → Type 0
IsTally n d = (tally d ≡ n) × All (IsHeld d.entries) d.in_flight × All IsClean d.entries

length-answers_to : (o : Outcome) (xs : List ℕ) → length (answers_to o xs) ≡ length xs
length-answers_to o [] = refl
length-answers_to o (x ∷ xs) = ap suc (length-answers_to o xs)

pub settle-IsTally : (i n : ℕ) (o : Outcome) (d : Desk) → IsTally n d → IsTally n (settle i o d)
unfolding settle settle_entry
settle-IsTally i n o d h = elim (Option-cases (get_elem? d.entries i)) [
  | inl e ↦ rw (e, settle) h
  | inr (x, e) ↦ elim (Bool-cases (is_settled x.phase)) [
    | inl t ↦ rw (e, settle, t) h
    | inr t ↦
        rw (e, settle, t)
          (
            omega (
              arith,
              h.0,
              length-append d.answers (answers_to o x.subscribers),
              length-answers_to o x.subscribers,
              waiting-modify emptied i d.entries e,
            ),
            release-IsHeld emptied i d.entries d.in_flight e h.1,
            All-modify IsClean emptied i d.entries (λ y g k l. refl) h.2,
          )
  ]
]

pub set_phase-IsTally :
    (p : Phase) (i n : ℕ) (d : Desk)
    → is_settled p ≡ false
    → IsTally n d
    → IsTally n (set_phase p i d)
set_phase-IsTally p i n d k h = (
  rw (waiting-modify_same (in_phase p) i d.entries (λ e. refl)) h.0,
  All-map (IsHeld d.entries) (IsHeld (modify (in_phase p) i d.entries)) d.in_flight
      (λ r. modify-IsHeld (in_phase p) i d.entries r (λ e. refl) (λ e l. k)) h.1,
  All-modify IsClean (in_phase p) i d.entries (λ y g l q. absurd (cc (rw q at k))) h.2,
)

pub answered-IsTally :
    (x n : ℕ) (f : Failure) (d : Desk) → IsTally n d → IsTally (n + 1) (answered x f d)
answered-IsTally x n f d h = (
  omega (
    arith,
    h.0,
    length-append d.answers ((record { subscriber = x; outcome = rejected f }) ∷ []),
  ),
  h.1,
  h.2,
)

pub subscribe-IsTally :
    (x n : ℕ) (r : Ref) (d : Desk)
    → IsHeld d.entries r
    → IsTally n d
    → IsTally (n + 1) (subscribe r.entry x d)
unfolding subscribe
subscribe-IsTally x n r d (e, get, key, phase) h = (
  omega (
    arith,
    h.0,
    waiting-modify (joined x) r.entry d.entries get,
    length-append e.subscribers (x ∷ []),
  ),
  All-map (IsHeld d.entries) (IsHeld (modify (joined x) r.entry d.entries)) d.in_flight
      (λ q. modify-IsHeld (joined x) r.entry d.entries q (λ y. refl) (λ y l. l)) h.1,
  All-modify IsClean (joined x) r.entry d.entries
      (λ y g l q.
        let same : y ≡ e = ground arith in absurd (cc (rw (sym (ap Entry.phase same), q) at phase)))
      h.2,
)

pub open_entry-IsTally :
    (k t x n : ℕ) (d : Desk) → IsTally n d → IsTally (n + 1) (open_entry k t x d)
unfolding open_entry
open_entry-IsTally k t x n d h =
    let i = length d.entries in
    let e : Entry = record { key = k; subscribers = []; expires_at = t; phase = queued } in
    let r : Ref = record { key = k; entry = i } in
    let es = d.entries ++ (e ∷ []) in
    let d' = record d { entries = es; in_flight = r ∷ d.in_flight } in
    let here : IsHeld es r = (e, get_elem?-last d.entries e, refl, refl) in
    let older : (q : Ref) → IsHeld d.entries q → IsHeld es q = λ q (y, get, key, phase). (
      y,
      get_elem?-append q.entry d.entries (e ∷ []) (get_elem?-lt q.entry d.entries get) ∙ get,
      key,
      phase,
    ) in
    subscribe-IsTally x n r d' here (
      omega (arith, h.0, waiting-append d.entries e),
      (here, All-map (IsHeld d.entries) (IsHeld es) d.in_flight older h.1),
      All-append IsClean d.entries (e ∷ []) h.2 (λ q. refl, tt),
    )

length-without :
    (x : ℕ) (ys : List ℕ) → any (is_same x) ys ≡ true → suc (length (without x ys)) ≡ length ys
unfolding without
length-without x [] h = absurd (cc)
length-without x (y ∷ ys) h = elim (Bool-cases (y == x)) [
  | inl e ↦ rw e refl
  | inr e ↦ rw e (ap suc (length-without x ys (rw e at h)))
]

without-nil : (x : ℕ) → without x [] ≡ []
unfolding without
without-nil x = refl

-- An abort answers one of those that wait.
pub left-IsTally :
    (x i n : ℕ) (f : Failure) (d : Desk) {e : Entry}
    → get_elem? d.entries i ≡ some e
    → any (is_same x) e.subscribers ≡ true
    → IsTally n d
    → IsTally n (answered x f (record d { entries = modify (left x) i d.entries }))
left-IsTally x i n f d {e} get here h = (
  omega (
    arith,
    h.0,
    length-append d.answers ((record { subscriber = x; outcome = rejected f }) ∷ []),
    waiting-modify (left x) i d.entries get,
    length-without x e.subscribers here,
  ),
  All-map (IsHeld d.entries) (IsHeld (modify (left x) i d.entries)) d.in_flight
      (λ q. modify-IsHeld (left x) i d.entries q (λ y. refl) (λ y l. l)) h.1,
  All-modify IsClean (left x) i d.entries (λ y g l q. rw (l q) (without-nil x)) h.2,
)

-- An entry that nobody waits on is dropped.
pub dropped-IsTally :
    (i n : ℕ) (d : Desk) {e : Entry}
    → get_elem? d.entries i ≡ some e
    → e.subscribers ≡ []
    → IsTally n d
    → IsTally n (record d {
      entries = modify (in_phase settled) i d.entries;
      in_flight = release e.key i d.in_flight;
    })
dropped-IsTally i n d {e} get none_left h = (
  rw (waiting-modify_same (in_phase settled) i d.entries (λ y. refl)) h.0,
  release-IsHeld (in_phase settled) i d.entries d.in_flight get h.1,
  All-modify IsClean (in_phase settled) i d.entries
      (λ y g l q. let same : y ≡ e = ground arith in rw same none_left) h.2,
)
