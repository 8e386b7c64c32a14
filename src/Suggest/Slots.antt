-- ===== src/Suggest/Slots.antt =====
-- The slots: how much of the provider's work is under way at once.
use public_lighting_fault_re.Base.{
  ℕ, suc, ◌+◌, ◌≤◌, ◌≡◌, ◌≢◌, refl, inl, inr, none, List, [], ◌∷◌, arith, ltb, leb, ◌==◌, length,
  Bool-cases, Option-cases,
}
use public_lighting_fault_re.Base.Tables.{find_row}
use public_lighting_fault_re.Base.Tables.Laws.{length-update_rows}
use public_lighting_fault_re.Suggest.{Settings, Outside, State, Work, idle}
use public_lighting_fault_re.Suggest.Admission.{
  reading, spend, expiry_of, expire_queued, reserve, launch, try_launch, dequeue, pump_head,
  pump_turn,
}
use public_lighting_fault_re.Suggest.Events.{
  Event, is_work, expire_work, without_work, finish_work, time_out, handle_all,
}
use public_lighting_fault_re.Suggest.Rules.{Rules, handle_all_keeps}

length-without_work :
    (i : ℕ) (xs : List Work)
    → find_row (is_work i) xs ≢ none
    → suc (length (without_work i xs)) ≡ length xs
unfolding without_work find_row
length-without_work i [] h = absurd (h refl)
length-without_work i (x ∷ xs) h = elim (Bool-cases (x.entry == i)) [
  | inl e ↦ rw e refl
  | inr e ↦ rw e (omega (arith, length-without_work i xs (rw e at h)))
]

module _ (w : Outside) (c : Settings) where
  -- `active` counts the work under way, and leaves room for `more`.
  abbrev pub IsWithin : ℕ → State → Type 0
  IsWithin more s = (length s.executing + more ≡ s.active) × (s.active ≤ c.max_active)

  reserve_slots :
      (s : State)
      → ((reserve w c s).0.executing ≡ s.executing) × ((reserve w c s).0.active ≡ s.active)
  unfolding reserve
  reserve_slots s = ground arith

  try_launch-IsWithin : (i : ℕ) (s : State) → IsWithin 1 s → IsWithin 0 (try_launch w c i s)
  unfolding try_launch launch
  try_launch-IsWithin i s h =
      let (same, act) = reserve_slots (spend 1 s) in
      elim (Bool-cases (leb (expiry_of i s.desk) (reading w 0 s))) [
        | inl e ↦ rw e (omega (arith, h.0), omega (arith, h.1))
        | inr e ↦ elim (Bool-cases (reserve w c (spend 1 s)).1) [
          | inl f ↦ rw (e, f, same, act) (omega (arith, h.0), h.1)
          | inr f ↦ rw (e, f, same, act) (omega (arith, h.0), omega (arith, h.1))
        ]
      ]

  expire_queued_slots :
      (i : ℕ) (s : State)
      → ((expire_queued i s).executing ≡ s.executing) × ((expire_queued i s).active ≡ s.active)
  unfolding expire_queued
  expire_queued_slots i s = ground arith

  pump_turn-IsWithin : (q : List ℕ) (s : State) → IsWithin 0 s → IsWithin 0 (pump_turn w c q s).0
  unfolding pump_turn pump_head
  pump_turn-IsWithin [] s h = h
  pump_turn-IsWithin (i ∷ rest) s h = elim (Bool-cases (ltb s.active c.max_active)) [
    | inl t ↦ elim (Bool-cases (leb (expiry_of i s.desk) (reading w 0 s))) [
      | inl u ↦ let (same, act) = expire_queued_slots i (spend 1 s) in rw (t, u, same, act) h
      | inr u ↦ elim (Bool-cases (ltb (reading w 1 s) s.next_start_at)) [
        | inl v ↦ rw (t, u, v) h
        | inr v ↦
            rw (t, u, v)
              (try_launch-IsWithin i (dequeue i rest (spend 2 s))
                (omega (arith, h.0), ground arith))
      ]
    ]
    | inr t ↦ rw t h
  ]

  time_out-IsWithin : (i : ℕ) (s : State) → IsWithin 0 s → IsWithin 0 (time_out i s)
  unfolding time_out
  time_out-IsWithin i s h = elim (Option-cases (find_row (is_work i) s.executing)) [
    | inl e ↦ rw (e, time_out) h
    | inr (x, e) ↦ elim (Bool-cases x.timed_out) [
      | inl f ↦ rw (e, time_out, f) h
      | inr f ↦ rw (e, time_out, f, length-update_rows (is_work i) (expire_work i) s.executing) h
    ]
  ]

  finish_work-IsWithin :
      (i : ℕ) (s : State)
      → find_row (is_work i) s.executing ≢ none
      → IsWithin 0 s
      → IsWithin 0 (finish_work i s)
  unfolding finish_work
  finish_work-IsWithin i s here h =
      (omega (arith, h.0, length-without_work i s.executing here), omega (arith, h.1))

  slots : Rules w c (IsWithin 0)
  slots = record {
    on_turn = λ s. pump_turn-IsWithin s.queue s;
    on_frame = λ s d cs q armed m l h. h;
    on_finish = finish_work-IsWithin;
    on_time_out = time_out-IsWithin;
  }

  -- Whatever is requested, aborted, timed out and answered, `active` is the number of the
  -- provider's calls that have not ended, those that were given up on included, and it never
  -- exceeds `maxActive`.
  pub handle_all-IsWithin : (es : List Event) → IsWithin 0 (handle_all w c es idle)
  handle_all-IsWithin es =
      handle_all_keeps w c (IsWithin 0) slots es idle (omega arith, omega arith)
