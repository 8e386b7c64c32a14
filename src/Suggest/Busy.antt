-- ===== src/Suggest/Busy.antt =====
-- An entry whose work is under way has left the queue for good.
use public_lighting_fault_re.Base.{
  ℕ, ◌≡◌, ◌≢◌, refl, ◌∙◌, inl, inr, false, some, List, [], ◌∷◌, All, All-map, arith, ltb, leb,
  Bool-cases, Option-cases, ◌==◌,
}
use public_lighting_fault_re.Base.Cells.{
  get_elem?, modify, get_elem?-modify_same, get_elem?-modify_other,
}
use public_lighting_fault_re.Suggest.{
  Settings, Outside, Phase, queued, running, starting, is_settled, is_queued, queue_expired,
  daily_budget_exceeded, rejected, Outcome, Entry, Desk, State, Work,
}
use public_lighting_fault_re.Suggest.Admission.{
  in_phase, emptied, settle_entry, settle, phase_of, set_phase, expire_queued, reading, spend,
  expiry_of, reserve, launch, try_launch, dequeue, pump_head, pump_turn,
}
use public_lighting_fault_re.Suggest.Queue.{IsSound, reserve_frame}

abbrev pub IsBusy : Desk → ℕ → Type 0
IsBusy d i = (e : Entry) × (get_elem? d.entries i ≡ some e) × (is_queued e.phase ≡ false)

abbrev pub IsAfter : Desk → Desk → Type 0
IsAfter d d' = (i : ℕ) → IsBusy d i → IsBusy d' i

-- An entry that leaves the queue, or stays out of it.
abbrev pub IsLeaving : (Entry → Entry) → Type 0
IsLeaving f = (e : Entry) → is_queued e.phase ≡ false → is_queued (f e).phase ≡ false

abbrev pub AllBusy : State → Type 0
AllBusy s = All (λ x. IsBusy s.desk x.entry) s.executing

pub phase_of-busy : (i : ℕ) (d : Desk) → IsBusy d i → phase_of i d ≢ queued
unfolding phase_of
phase_of-busy i d (e, g, h) q =
    let same : e.phase ≡ queued = rw (g, phase_of) at q in absurd (cc (rw same at h))

pub modify-IsAfter :
    (f : Entry → Entry) (j : ℕ) (d : Desk)
    → IsLeaving f
    → IsAfter d (record d { entries = modify f j d.entries })
modify-IsAfter f j d k i (e, g, h) = elim (Bool-cases (i == j)) [
  | inl t ↦
      let same : i ≡ j = ground arith in
      (f e, rw same (get_elem?-modify_same f j d.entries (rw same at g)), k e h)
  | inr t ↦
      let other : j ≢ i = ground arith in (e, get_elem?-modify_other f j i d.entries other ∙ g, h)
]

pub settle-IsAfter : (j : ℕ) (o : Outcome) (d : Desk) → IsAfter d (settle j o d)
unfolding settle settle_entry
settle-IsAfter j o d i b = elim (Option-cases (get_elem? d.entries j)) [
  | inl e ↦ rw (e, settle) b
  | inr (x, e) ↦ elim (Bool-cases (is_settled x.phase)) [
    | inl t ↦ rw (e, settle, t) b
    | inr t ↦ rw (e, settle, t) (modify-IsAfter emptied j d (λ y k. refl) i b)
  ]
]

-- A queued entry that is launched is busy.
pub launched-IsBusy :
    (p : Phase) (i : ℕ) (d : Desk)
    → is_queued p ≡ false
    → phase_of i d ≡ queued
    → IsBusy (set_phase p i d) i
unfolding phase_of
launched-IsBusy p i d k h = elim (Option-cases (get_elem? d.entries i)) [
  | inl e ↦ absurd (cc (rw (e, phase_of) at h))
  | inr (x, e) ↦ (in_phase p x, get_elem?-modify_same (in_phase p) i d.entries e, k)
]

pub All-after :
    (d d' : Desk) (xs : List Work)
    → IsAfter d d'
    → All (λ x. IsBusy d x.entry) xs
    → All (λ x. IsBusy d' x.entry) xs
All-after d d' xs f h =
    All-map (λ x. IsBusy d x.entry) (λ x. IsBusy d' x.entry) xs (λ x. f x.entry) h

module _ (w : Outside) (c : Settings) where
  pub reserve_executing : (s : State) → (reserve w c s).0.executing ≡ s.executing
  unfolding reserve
  reserve_executing s = ground arith

  pub launch-AllBusy : (i : ℕ) (s : State) → IsBusy s.desk i → AllBusy s → AllBusy (launch w c i s)
  unfolding launch
  launch-AllBusy i s b h =
      let after = modify-IsAfter (in_phase running) i s.desk (λ e k. refl) in
      (after i b, All-after s.desk (set_phase running i s.desk) s.executing after h)

  pub try_launch-AllBusy :
      (i : ℕ) (s : State) → IsBusy s.desk i → AllBusy s → AllBusy (try_launch w c i s)
  unfolding try_launch
  try_launch-AllBusy i s b h = elim (Bool-cases (leb (expiry_of i s.desk) (reading w 0 s))) [
    | inl e ↦ rw e (
        All-after s.desk (settle i (rejected queue_expired) s.desk) s.executing
          (settle-IsAfter i (rejected queue_expired) s.desk) h)
    | inr e ↦
        let r = reserve w c (spend 1 s) in
        let (desk, _) = reserve_frame w c (spend 1 s) in
        let busy : AllBusy r.0 = rw (desk, reserve_executing (spend 1 s)) h in
        elim (Bool-cases r.1) [
          | inl f ↦ rw (e, f) (launch-AllBusy i r.0 (rw desk b) busy)
          | inr f ↦
              rw (e, f)
                (All-after r.0.desk (settle i (rejected daily_budget_exceeded) r.0.desk)
                  r.0.executing (settle-IsAfter i _ r.0.desk) busy)
        ]
  ]

  pub expire_queued-AllBusy : (i : ℕ) (s : State) → AllBusy s → AllBusy (expire_queued i s)
  unfolding expire_queued
  expire_queued-AllBusy i s h = elim (Bool-cases (is_queued (phase_of i s.desk))) [
    | inl e ↦ rw e (
        All-after s.desk (settle i (rejected queue_expired) s.desk) s.executing
          (settle-IsAfter i (rejected queue_expired) s.desk) h)
    | inr e ↦ rw e h
  ]

  pub pump_turn-AllBusy :
      (q : List ℕ) (s : State) → s.queue ≡ q → IsSound s → AllBusy s → AllBusy (pump_turn w c q s).0
  unfolding pump_turn pump_head
  pump_turn-AllBusy [] s g k h = h
  pump_turn-AllBusy (i ∷ rest) s g k h = elim (Bool-cases (ltb s.active c.max_active)) [
    | inl t ↦ elim (Bool-cases (leb (expiry_of i s.desk) (reading w 0 s))) [
      | inl u ↦ rw (t, u) (expire_queued-AllBusy i (spend 1 s) h)
      | inr u ↦ elim (Bool-cases (ltb (reading w 1 s) s.next_start_at)) [
        | inl v ↦ rw (t, u, v) h
        | inr v ↦
            let here : phase_of i s.desk ≡ queued = (rw g at k).1 in
            let s' = dequeue i rest (spend 2 s) in
            rw (t, u, v)
              (try_launch-AllBusy i s' (launched-IsBusy starting i s.desk refl here) (
                All-after s.desk s'.desk s.executing
                  (modify-IsAfter (in_phase starting) i s.desk (λ e l. refl)) h))
      ]
    ]
    | inr t ↦ rw t h
  ]
