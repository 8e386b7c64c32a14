-- ===== src/Suggest/Starts.antt =====
-- The times of the provider's calls.
use public_lighting_fault_re.Base.{
  ℕ, ◌+◌, ◌≤◌, ◌≡◌, inl, inr, List, [], ◌∷◌, arith, ltb, leb, Bool-cases, Option-cases,
}
use public_lighting_fault_re.Base.Tables.{find_row}
use public_lighting_fault_re.Suggest.{Settings, Outside, State, Start, idle}
use public_lighting_fault_re.Suggest.Admission.{
  reading, spend, expiry_of, expire_queued, reserve, launch, try_launch, dequeue, pump_head,
  pump_turn,
}
use public_lighting_fault_re.Suggest.Events.{Event, is_work, finish_work, time_out, handle_all}
use public_lighting_fault_re.Suggest.Rules.{Rules, handle_all_keeps}

-- The clock does not run backwards.
abbrev pub IsForward : Outside → Type 0
IsForward w = (m n : ℕ) → m ≤ n → w.clock m ≤ w.clock n

-- Each start, the newest first, is at least `gap` before the next one, which is at `bound` or later.
abbrev pub IsSpaced : ℕ → ℕ → List Start → Type 0
IsSpaced gap bound [] = Unit
IsSpaced gap bound (x ∷ xs) = (x.at_time + gap ≤ bound) × IsSpaced gap x.at_time xs

IsSpaced-later :
    (gap bound bound' : ℕ) (xs : List Start)
    → bound ≤ bound'
    → IsSpaced gap bound xs
    → IsSpaced gap bound' xs
IsSpaced-later gap bound bound' [] l h = tt
IsSpaced-later gap bound bound' (x ∷ xs) l h = (omega (arith, h.0), h.1)

abbrev pub IsPaced : Settings → State → Type 0
IsPaced c s = IsSpaced c.min_start_interval_ms s.next_start_at s.started

module _ (w : Outside) (c : Settings) (forward : IsForward w) where
  reserve_pace :
      (s : State)
      → ((reserve w c s).0.started ≡ s.started)
        × ((reserve w c s).0.next_start_at ≡ s.next_start_at)
        × (s.calls ≤ (reserve w c s).0.calls)
  unfolding reserve
  reserve_pace s = ground arith

  try_launch-IsPaced :
      (i : ℕ) (s : State)
      → s.next_start_at ≤ reading w 0 s
      → IsPaced c s
      → IsPaced c (try_launch w c i s)
  unfolding try_launch launch
  try_launch-IsPaced i s due h =
      let (same, next, more) = reserve_pace (spend 1 s) in
      elim (Bool-cases (leb (expiry_of i s.desk) (reading w 0 s))) [
        | inl e ↦ rw e h
        | inr e ↦ elim (Bool-cases (reserve w c (spend 1 s)).1) [
          | inl f ↦
              let s' = (reserve w c (spend 1 s)).0 in
              let later : reading w 0 s ≤ reading w 0 s' =
                forward (s.calls + 0) (s'.calls + 0) (omega (arith, more)) in
              rw (e, f, same)
                (
                  omega arith,
                  IsSpaced-later c.min_start_interval_ms s.next_start_at (reading w 0 s') s.started
                      (omega (arith, due, later)) h,
                )
          | inr f ↦ rw (e, f, same, next) h
        ]
      ]

  expire_queued_pace :
      (i : ℕ) (s : State)
      → ((expire_queued i s).started ≡ s.started)
        × ((expire_queued i s).next_start_at ≡ s.next_start_at)
  unfolding expire_queued
  expire_queued_pace i s = ground arith

  pump_turn-IsPaced : (q : List ℕ) (s : State) → IsPaced c s → IsPaced c (pump_turn w c q s).0
  unfolding pump_turn pump_head
  pump_turn-IsPaced [] s h = h
  pump_turn-IsPaced (i ∷ rest) s h = elim (Bool-cases (ltb s.active c.max_active)) [
    | inl t ↦ elim (Bool-cases (leb (expiry_of i s.desk) (reading w 0 s))) [
      | inl u ↦ let (same, next) = expire_queued_pace i (spend 1 s) in rw (t, u, same, next) h
      | inr u ↦ elim (Bool-cases (ltb (reading w 1 s) s.next_start_at)) [
        | inl v ↦ rw (t, u, v) h
        | inr v ↦
            let due : s.next_start_at ≤ reading w 1 s = ground arith in
            let later = forward (s.calls + 1) (s.calls + 2 + 0) (omega arith) in
            rw (t, u, v)
              (try_launch-IsPaced i (dequeue i rest (spend 2 s)) (omega (arith, due, later)) h)
      ]
    ]
    | inr t ↦ rw t h
  ]

  time_out-IsPaced : (i : ℕ) (s : State) → IsPaced c s → IsPaced c (time_out i s)
  unfolding time_out
  time_out-IsPaced i s h = elim (Option-cases (find_row (is_work i) s.executing)) [
    | inl e ↦ rw (e, time_out) h
    | inr (x, e) ↦ elim (Bool-cases x.timed_out) [
      | inl f ↦ rw (e, time_out, f) h
      | inr f ↦ rw (e, time_out, f) h
    ]
  ]

  finish_work-IsPaced : (i : ℕ) (s : State) → IsPaced c s → IsPaced c (finish_work i s)
  unfolding finish_work
  finish_work-IsPaced i s h = h

  pace : Rules w c (IsPaced c)
  pace = record {
    on_turn = λ s. pump_turn-IsPaced s.queue s;
    on_frame = λ s d cs q armed m l h. h;
    on_finish = λ i s here. finish_work-IsPaced i s;
    on_time_out = time_out-IsPaced;
  }

  -- Where the clock does not run backwards, any two calls of the provider that follow each other
  -- are at least `minStartIntervalMs` apart, whatever the events.
  pub handle_all-IsPaced : (es : List Event) → IsPaced c (handle_all w c es idle)
  handle_all-IsPaced es = handle_all_keeps w c (IsPaced c) pace es idle tt
