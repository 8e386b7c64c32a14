-- ===== src/Suggest/Queue.antt =====
-- The queue holds the references of queued entries, in the order of their entry, each once.
use public_lighting_fault_re.Base.{
  ℕ, zero, suc, ◌≤◌, ◌<◌, ◌≡◌, ◌≢◌, refl, sym, ap, ◌∙◌, inl, inr, Bool, true, List, [], ◌∷◌, arith,
  ◌==◌, ltb, leb, length, Bool-cases, Option-cases,
}
use public_lighting_fault_re.Base.Cells.{get_elem?, modify, get_elem?-modify_other}
use public_lighting_fault_re.Suggest.{
  Settings, Outside, queued, running, starting, is_settled, is_queued, Outcome, Entry, Desk, State,
}
use public_lighting_fault_re.Suggest.Admission.{
  in_phase, emptied, settle_entry, settle, phase_of, unqueue, expire_queued, reading, expiry_of,
  reserve, launch, spend, try_launch, dequeue, pump_head, pump_turn, pump_loop,
}

-- Only the phase of the entry `j` may differ.
abbrev pub AgreesOff : ℕ → Desk → Desk → Type 0
AgreesOff j d d' = (i : ℕ) → i ≢ j → phase_of i d' ≡ phase_of i d

abbrev pub IsQueue : Desk → ℕ → List ℕ → Type 0
IsQueue d lo [] = Unit
IsQueue d lo (i ∷ q) = (lo ≤ i) × (phase_of i d ≡ queued) × IsQueue d (suc i) q

abbrev pub IsSound : State → Type 0
IsSound s = IsQueue s.desk 0 s.queue

pub phase_of-modify :
    (f : Entry → Entry) (j : ℕ) (d : Desk)
    → AgreesOff j d (record d { entries = modify f j d.entries })
unfolding phase_of
phase_of-modify f j d i h =
    rw (get_elem?-modify_other f j i d.entries (λ e. h (sym e)), phase_of) refl

pub phase_of-settle : (j : ℕ) (o : Outcome) (d : Desk) → AgreesOff j d (settle j o d)
unfolding settle settle_entry phase_of
phase_of-settle j o d i h = elim (Option-cases (get_elem? d.entries j)) [
  | inl e ↦ rw (e, settle) refl
  | inr (x, e) ↦ elim (Bool-cases (is_settled x.phase)) [
    | inl t ↦ rw (e, settle, t) refl
    | inr t ↦ rw (e, settle, t) (phase_of-modify emptied j d i h)
  ]
]

AgreesOff-trans : (j : ℕ) (a b c : Desk) → AgreesOff j a b → AgreesOff j b c → AgreesOff j a c
AgreesOff-trans j a b c h g i n = g i n ∙ h i n

pub IsQueue-above :
    (j lo : ℕ) (d d' : Desk) (q : List ℕ)
    → AgreesOff j d d'
    → j < lo
    → IsQueue d lo q
    → IsQueue d' lo q
IsQueue-above j lo d d' [] h l k = tt
IsQueue-above j lo d d' (i ∷ q) h l k =
    (k.0, h i (omega (arith, k.0)) ∙ k.1, IsQueue-above j (suc i) d d' q h (omega (arith, k.0)) k.2)

pub IsQueue-lower :
    (lo lo' : ℕ) (d : Desk) (q : List ℕ) → lo' ≤ lo → IsQueue d lo q → IsQueue d lo' q
IsQueue-lower lo lo' d [] l k = tt
IsQueue-lower lo lo' d (i ∷ q) l k = (omega (arith, k.0), k.1, k.2)

pub IsQueue-unqueue :
    (j lo : ℕ) (d d' : Desk) (q : List ℕ)
    → AgreesOff j d d'
    → IsQueue d lo q
    → IsQueue d' lo (unqueue j q)
unfolding unqueue
IsQueue-unqueue j lo d d' [] h k = tt
IsQueue-unqueue j lo d d' (i ∷ q) h k = elim (Bool-cases (i == j)) [
  | inl e ↦
      let same : i ≡ j = ground arith in
      rw e (
        IsQueue-lower (suc i) lo d' q (omega (arith, k.0))
          (IsQueue-above j (suc i) d d' q h (omega arith) k.2))
  | inr e ↦
      let other : i ≢ j = ground arith in
      rw e (k.0, h i other ∙ k.1, IsQueue-unqueue j (suc i) d d' q h k.2)
]

-- An entry that is not queued is in no queue.
pub IsQueue-agree :
    (j lo : ℕ) (d d' : Desk) (q : List ℕ)
    → AgreesOff j d d'
    → phase_of j d ≢ queued
    → IsQueue d lo q
    → IsQueue d' lo q
IsQueue-agree j lo d d' [] h n k = tt
IsQueue-agree j lo d d' (i ∷ q) h n k = elim (Bool-cases (i == j)) [
  | inl e ↦ let same : i ≡ j = ground arith in absurd (n (rw same at k.1))
  | inr e ↦
      let other : i ≢ j = ground arith in
      (k.0, h i other ∙ k.1, IsQueue-agree j (suc i) d d' q h n k.2)
]

module _ (w : Outside) (c : Settings) where
  pub reserve_frame :
      (s : State) → ((reserve w c s).0.desk ≡ s.desk) × ((reserve w c s).0.queue ≡ s.queue)
  unfolding reserve
  reserve_frame s = ground arith

  pub try_launch_frame :
      (i : ℕ) (s : State)
      → AgreesOff i s.desk (try_launch w c i s).desk × ((try_launch w c i s).queue ≡ s.queue)
  unfolding try_launch launch
  try_launch_frame i s = elim (Bool-cases (leb (expiry_of i s.desk) (reading w 0 s))) [
    | inl e ↦ rw e (phase_of-settle i _ s.desk, refl)
    | inr e ↦
        let s1 = spend 1 s in
        let (same, q) = reserve_frame s1 in
        elim (Bool-cases (reserve w c s1).1) [
          | inl f ↦
              rw (e, f)
                (
                  λ j n.
                      phase_of-modify (in_phase running) i (reserve w c s1).0.desk j n
                      ∙ ap (phase_of j) same,
                  q,
                )
          | inr f ↦
              rw (e, f)
                (λ j n. phase_of-settle i _ (reserve w c s1).0.desk j n ∙ ap (phase_of j) same, q)
        ]
  ]

  dequeue_off : (i : ℕ) (rest : List ℕ) (s : State) → AgreesOff i s.desk (dequeue i rest s).desk
  dequeue_off i rest s = phase_of-modify (in_phase starting) i s.desk

  launched-IsSound :
      (i : ℕ) (rest : List ℕ) (s : State)
      → IsQueue s.desk (suc i) rest
      → IsSound (try_launch w c i (dequeue i rest s))
  launched-IsSound i rest s h =
      let (off, q) = try_launch_frame i (dequeue i rest s) in
      rw q (
        IsQueue-lower (suc i) 0 _ rest (omega arith) (
          IsQueue-above i (suc i) s.desk (try_launch w c i (dequeue i rest s)).desk rest
            (λ j n. off j n ∙ dequeue_off i rest s j n) (omega arith) h))

  pub expire_queued-IsSound : (i : ℕ) (s : State) → IsSound s → IsSound (expire_queued i s)
  unfolding expire_queued
  expire_queued-IsSound i s h = elim (Bool-cases (is_queued (phase_of i s.desk))) [
    | inl e ↦ rw e (IsQueue-unqueue i 0 s.desk _ s.queue (phase_of-settle i _ s.desk) h)
    | inr e ↦ rw e h
  ]

  unqueue_head : (i : ℕ) (rest : List ℕ) → unqueue i (i ∷ rest) ≡ rest
  unfolding unqueue
  unqueue_head i rest = ground arith

  expired_head :
      (i : ℕ) (rest : List ℕ) (s : State)
      → s.queue ≡ i ∷ rest
      → phase_of i s.desk ≡ queued
      → (expire_queued i s).queue ≡ rest
  unfolding expire_queued
  expired_head i rest s e h = rw (h, e) (unqueue_head i rest)

  -- A turn keeps the queue sound, and one that goes on takes an entry off it.
  abbrev pub IsTurn : State → State × Bool → Type 0
  IsTurn s r = IsSound r.0 × (r.1 ≡ true → length r.0.queue < length s.queue)

  pump_head-IsTurn :
      (i : ℕ) (rest : List ℕ) (s : State)
      → s.queue ≡ i ∷ rest
      → IsSound s
      → IsTurn s (pump_head w c i rest s)
  unfolding pump_head
  pump_head-IsTurn i rest s e h =
      let k : IsQueue s.desk 0 (i ∷ rest) = rw e at h in
      elim (Bool-cases (leb (expiry_of i s.desk) (reading w 0 s))) [
        | inl t ↦ rw t (
          expire_queued-IsSound i (spend 1 s) h,
          λ _. rw (expired_head i rest (spend 1 s) e k.1, e) (omega arith),
        )
        | inr t ↦ elim (Bool-cases (ltb (reading w 1 s) s.next_start_at)) [
          | inl u ↦ rw (t, u) (h, λ f. absurd (cc))
          | inr u ↦
              rw (t, u)
                (
                  launched-IsSound i rest (spend 2 s) k.2,
                  λ _. rw ((try_launch_frame i (dequeue i rest (spend 2 s))).1, e) (omega arith),
                )
        ]
      ]

  pub pump_turn-IsTurn :
      (q : List ℕ) (s : State) → s.queue ≡ q → IsSound s → IsTurn s (pump_turn w c q s)
  unfolding pump_turn
  pump_turn-IsTurn [] s e h = (h, λ f. absurd (cc))
  pump_turn-IsTurn (i ∷ rest) s e h = elim (Bool-cases (ltb s.active c.max_active)) [
    | inl t ↦ rw t (pump_head-IsTurn i rest s e h)
    | inr t ↦ rw t (h, λ f. absurd (cc))
  ]

  pub pump_loop-ends :
      (fuel : ℕ) (s : State)
      → length s.queue < fuel
      → IsSound s
      → ((pump_loop w c fuel s).1 ≡ true) × IsSound (pump_loop w c fuel s).0
  unfolding pump_loop
  pump_loop-ends zero s l h = absurd (omega arith)
  pump_loop-ends (suc fuel) s l h =
      let (sound, less) = pump_turn-IsTurn s.queue s refl h in
      elim (Bool-cases (pump_turn w c s.queue s).1) [
        | inl e ↦
            rw e (pump_loop-ends fuel (pump_turn w c s.queue s).0 (omega (arith, less e)) sound)
        | inr e ↦ rw e (refl, sound)
      ]
