-- ===== src/Suggest/Budget.antt =====
-- The daily budget of the settings: how many calls of the provider it lets through on a day.
use public_lighting_fault_re.Base.{
  ℕ, ◌+◌, ◌≤◌, ◌<◌, ◌≡◌, refl, ◌⊎◌, inl, inr, Bool, true, false, Option, none, some, List, [], ◌∷◌,
  arith, ltb, leb, ◌==◌, Bool-cases, Option-cases, if◌then◌else◌,
}
use public_lighting_fault_re.Base.Tables.{find_row, count_rows}
use public_lighting_fault_re.Suggest.{Settings, Outside, State, Start, is_queued, idle}
use public_lighting_fault_re.Suggest.Admission.{
  reading, spend, phase_of, expiry_of, expire_queued, day_of, same_day, reserve, launch, try_launch,
  dequeue, pump_head, pump_turn,
}
use public_lighting_fault_re.Suggest.Events.{Event, is_work, finish_work, time_out, handle_all}
use public_lighting_fault_re.Suggest.Rules.{Rules, handle_all_keeps}
use public_lighting_fault_re.Suggest.Starts.{IsForward}

abbrev pub is_on : ℕ → Start → Bool
is_on d x = same_day x.on_day d

-- The calls that were reserved on the day `d`.
abbrev pub calls_on : ℕ → List Start → ℕ
calls_on d xs = count_rows (is_on d) xs

-- The books at the day `now`: the budget, what is reserved and not yet called, the day of the books,
-- what was used of it, and the calls.
abbrev IsBalanced : (budget more now : ℕ) → Option ℕ → ℕ → List Start → Type 0
IsBalanced b more now none used xs = (xs ≡ []) × (more ≡ 0)
IsBalanced b more now (some e) used xs =
    (used ≤ b)
    × (calls_on e xs + more ≤ used)
    × ((d : ℕ) → e < d → calls_on d xs ≡ 0)
    × (e ≤ now)
    × ((d : ℕ) → calls_on d xs ≤ b)

IsBalanced-later :
    (b more now now' : ℕ) (date : Option ℕ) (used : ℕ) (xs : List Start)
    → now ≤ now'
    → IsBalanced b more now date used xs
    → IsBalanced b more now' date used xs
IsBalanced-later b more now now' none used xs l h = h
IsBalanced-later b more now now' (some e) used xs l h = (h.0, h.1, h.2, omega (arith, h.3), h.4)

-- What is left of the day's budget is what `reserve` finds.
IsBalanced-today :
    (b now : ℕ) (date : Option ℕ) (used : ℕ) (xs : List Start)
    → IsBalanced b 0 now date used xs
    → IsBalanced b 0 now (some now) (if same_day date now then used else 0) xs
unfolding count_rows
IsBalanced-today b now none used xs h =
    rw (h.0) (omega arith, omega arith, λ d l. refl, omega arith, λ d. omega arith)
IsBalanced-today b now (some e) used xs h = elim (Bool-cases (e == now)) [
  | inl t ↦
      let same : e ≡ now = ground arith in
      rw t (h.0, rw same at h.1, λ d l. h.2 d (rw same l), omega arith, h.4)
  | inr t ↦
      let past : e < now = ground (arith, h.3) in
      rw t (omega arith, omega (arith, h.2 now past), λ d l. h.2 d (omega arith), omega arith, h.4)
]

IsBalanced-more :
    (b now used : ℕ) (xs : List Start)
    → used < b
    → IsBalanced b 0 now (some now) used xs
    → IsBalanced b 1 now (some now) (used + 1) xs
IsBalanced-more b now used xs l h = (omega arith, omega (arith, h.1), h.2, h.3, h.4)

IsBalanced-less :
    (b now : ℕ) (date : Option ℕ) (used : ℕ) (xs : List Start)
    → IsBalanced b 1 now date used xs
    → IsBalanced b 0 now date used xs
IsBalanced-less b now none used xs h = absurd (omega (arith, h.1))
IsBalanced-less b now (some e) used xs h = (h.0, omega (arith, h.1), h.2, h.3, h.4)

IsBalanced-call :
    (b now at : ℕ) (date : Option ℕ) (used : ℕ) (xs : List Start)
    → IsBalanced b 1 now date used xs
    → IsBalanced b 0 now date used ((record { at_time = at; on_day = date }) ∷ xs)
unfolding count_rows
IsBalanced-call b now at none used xs h = absurd (omega (arith, h.1))
IsBalanced-call b now at (some e) used xs h = (
  h.0,
  ground (arith, h.1),
  λ d l. ground (arith, h.2 d l),
  h.3,
  λ d. elim (Bool-cases (e == d)) [
    | inl t ↦
        let same : e ≡ d = ground arith in
        let k : calls_on e xs + 1 ≤ b = omega (arith, h.0, h.1) in
        rw t (omega (arith, rw same at k))
    | inr t ↦ rw t (h.4 d)
  ],
)

module _ (w : Outside) (c : Settings) (b : ℕ) (forward : IsForward w)
    (own : w.try_consume_budget ≡ none) (limited : c.daily_budget ≡ some b) where
  abbrev IsBudgeted : ℕ → State → Type 0
  IsBudgeted more s =
      IsBalanced b more (day_of (reading w 0 s)) s.budget_date s.budget_used s.started

  day_later : (m n : ℕ) → m ≤ n → day_of (w.clock m) ≤ day_of (w.clock n)
  day_later m n l = omega (arith, forward m n l)

  reserve_some :
      (s : State)
      → IsBudgeted 0 s
      → (((reserve w c s).1 ≡ true) × IsBudgeted 1 (reserve w c s).0)
        ⊎ (((reserve w c s).1 ≡ false) × IsBudgeted 0 (reserve w c s).0)
  unfolding reserve
  reserve_some s h =
      let today = day_of (reading w 0 s) in
      let used = if same_day s.budget_date today then s.budget_used else 0 in
      let books = IsBalanced-today b today s.budget_date s.budget_used s.started h in
      let l = day_later (s.calls + 0) (s.calls + 1 + 0) (omega arith) in
      elim (Bool-cases (ltb used b)) [
        | inl t ↦
            rw (own, limited, t)
              (inl (
                refl,
                IsBalanced-later b 1 today (day_of (reading w 0 (spend 1 s))) (some today)
                    (used + 1) s.started l
                    (IsBalanced-more b today used s.started (ground arith) books),
              ))
        | inr t ↦
            rw (own, limited, t)
              (inr (
                refl,
                IsBalanced-later b 0 today (day_of (reading w 0 (spend 1 s))) (some today) used
                    s.started l books,
              ))
      ]

  IsBudgeted-spend : (more n : ℕ) (s : State) → IsBudgeted more s → IsBudgeted more (spend n s)
  IsBudgeted-spend more n s h =
      IsBalanced-later b more (day_of (reading w 0 s)) (day_of (reading w 0 (spend n s)))
        s.budget_date s.budget_used s.started
        (day_later (s.calls + 0) (s.calls + n + 0) (omega arith)) h

  launch-IsBudgeted : (i : ℕ) (s : State) → IsBudgeted 1 s → IsBudgeted 0 (launch w c i s)
  unfolding launch
  launch-IsBudgeted i s h =
      IsBalanced-later b 0 (day_of (reading w 0 s)) (day_of (reading w 0 (spend 1 s))) s.budget_date
        s.budget_used _ (day_later (s.calls + 0) (s.calls + 1 + 0) (omega arith))
        (IsBalanced-call b (day_of (reading w 0 s)) (reading w 0 s) s.budget_date s.budget_used
          s.started h)

  try_launch-IsBudgeted : (i : ℕ) (s : State) → IsBudgeted 0 s → IsBudgeted 0 (try_launch w c i s)
  unfolding try_launch
  try_launch-IsBudgeted i s h = elim (Bool-cases (leb (expiry_of i s.desk) (reading w 0 s))) [
    | inl e ↦ rw e (IsBudgeted-spend 0 1 s h)
    | inr e ↦ elim (reserve_some (spend 1 s) (IsBudgeted-spend 0 1 s h)) [
      | inl (f, k) ↦ rw (e, f) (launch-IsBudgeted i (reserve w c (spend 1 s)).0 k)
      | inr (f, k) ↦ rw (e, f) k
    ]
  ]

  expire_queued-IsBudgeted : (i : ℕ) (s : State) → IsBudgeted 0 s → IsBudgeted 0 (expire_queued i s)
  unfolding expire_queued
  expire_queued-IsBudgeted i s h = elim (Bool-cases (is_queued (phase_of i s.desk))) [
    | inl e ↦ rw e h
    | inr e ↦ rw e h
  ]

  pump_turn-IsBudgeted :
      (q : List ℕ) (s : State) → IsBudgeted 0 s → IsBudgeted 0 (pump_turn w c q s).0
  unfolding pump_turn pump_head
  pump_turn-IsBudgeted [] s h = h
  pump_turn-IsBudgeted (i ∷ rest) s h = elim (Bool-cases (ltb s.active c.max_active)) [
    | inl t ↦ elim (Bool-cases (leb (expiry_of i s.desk) (reading w 0 s))) [
      | inl u ↦ rw (t, u) (expire_queued-IsBudgeted i (spend 1 s) (IsBudgeted-spend 0 1 s h))
      | inr u ↦ elim (Bool-cases (ltb (reading w 1 s) s.next_start_at)) [
        | inl v ↦ rw (t, u, v) (IsBudgeted-spend 0 2 s h)
        | inr v ↦
            rw (t, u, v)
              (try_launch-IsBudgeted i (dequeue i rest (spend 2 s)) (IsBudgeted-spend 0 2 s h))
      ]
    ]
    | inr t ↦ rw t h
  ]

  time_out-IsBudgeted : (i : ℕ) (s : State) → IsBudgeted 0 s → IsBudgeted 0 (time_out i s)
  unfolding time_out
  time_out-IsBudgeted i s h = elim (Option-cases (find_row (is_work i) s.executing)) [
    | inl e ↦ rw (e, time_out) h
    | inr (x, e) ↦ elim (Bool-cases x.timed_out) [
      | inl f ↦ rw (e, time_out, f) h
      | inr f ↦ rw (e, time_out, f) h
    ]
  ]

  finish_work-IsBudgeted : (i : ℕ) (s : State) → IsBudgeted 0 s → IsBudgeted 0 (finish_work i s)
  unfolding finish_work
  finish_work-IsBudgeted i s h = h

  budgeted : Rules w c (IsBudgeted 0)
  budgeted = record {
    on_turn = λ s. pump_turn-IsBudgeted s.queue s;
    on_frame = λ s d cs q armed m l h.
        IsBalanced-later b 0 (day_of (reading w 0 s)) (day_of (w.clock (m + 0))) s.budget_date
          s.budget_used s.started (day_later (s.calls + 0) (m + 0) (omega arith)) h;
    on_finish = λ i s here. finish_work-IsBudgeted i s;
    on_time_out = time_out-IsBudgeted;
  }

  calls_on-le :
      (d : ℕ) (now : ℕ) (date : Option ℕ) (used : ℕ) (xs : List Start)
      → IsBalanced b 0 now date used xs
      → calls_on d xs ≤ b
  unfolding count_rows
  calls_on-le d now none used xs h = rw (h.0) (omega arith)
  calls_on-le d now (some e) used xs h = h.4 d

  -- On the settings' own budget, with a clock that does not run backwards, the provider is called at
  -- most `dailyBudget` times on the reservations of any one day, whatever the events.
  pub handle_all-budget :
      (es : List Event) (d : ℕ) → calls_on d (handle_all w c es idle).started ≤ b
  handle_all-budget es d =
      let s = handle_all w c es idle in
      calls_on-le d (day_of (reading w 0 s)) s.budget_date s.budget_used s.started
        (handle_all_keeps w c (IsBudgeted 0) budgeted es idle (refl, refl))
