-- ===== src/Suggest/Pending/Shorter.antt =====
-- What a pump does to the length of the queue.
use mathlib.Core.Path.{subst}
use public_lighting_fault_re.Base.{
  ℕ, suc, ◌≤◌, ◌<◌, ◌≡◌, refl, sym, ap, ◌∙◌, inl, inr, Bool, true, false, List, [], ◌∷◌, arith, leb,
  ltb, length, Bool-cases, ◌==◌,
}
use public_lighting_fault_re.Suggest.{Settings, Outside, State, is_queued}
use public_lighting_fault_re.Suggest.Admission.{
  phase_of, expiry_of, reading, spend, unqueue, expire_queued, dequeue, pump_head, pump_turn,
  pump_loop, pump,
}
use public_lighting_fault_re.Suggest.Queue.{try_launch_frame, pump_turn-IsTurn}
use public_lighting_fault_re.Suggest.Rules.{pump_loop_keeps}
use public_lighting_fault_re.Suggest.Order.{IsOrderly}

-- The queue is no longer than it was.
abbrev pub IsShorter : State → State → Type 0
IsShorter s t = length t.queue ≤ length s.queue

pub length-unqueue : (i : ℕ) (q : List ℕ) → length (unqueue i q) ≤ length q
unfolding unqueue
length-unqueue i [] = omega arith
length-unqueue i (j ∷ q) = elim (Bool-cases (j == i)) [
  | inl e ↦ rw e (omega arith)
  | inr e ↦ rw e (omega (arith, length-unqueue i q))
]

module _ (w : Outside) (c : Settings) where
  expire_queued-IsShorter : (i : ℕ) (s : State) → IsShorter s (expire_queued i s)
  unfolding expire_queued
  expire_queued-IsShorter i s = elim (Bool-cases (is_queued (phase_of i s.desk))) [
    | inl e ↦ rw e (length-unqueue i s.queue)
    | inr e ↦ rw e (omega arith)
  ]

  pump_turn-IsShorter : (q : List ℕ) (s : State) → s.queue ≡ q → IsShorter s (pump_turn w c q s).0
  unfolding pump_turn pump_head
  pump_turn-IsShorter [] s g = omega arith
  pump_turn-IsShorter (i ∷ rest) s g = elim (Bool-cases (ltb s.active c.max_active)) [
    | inl t ↦ elim (Bool-cases (leb (expiry_of i s.desk) (reading w 0 s))) [
      | inl u ↦ rw (t, u) (expire_queued-IsShorter i (spend 1 s))
      | inr u ↦ elim (Bool-cases (ltb (reading w 1 s) s.next_start_at)) [
        | inl v ↦ rw (t, u, v) (omega arith)
        | inr v ↦
            rw (t, u, v, (try_launch_frame w c i (dequeue i rest (spend 2 s))).1, g) (omega arith)
      ]
    ]
    | inr t ↦ rw t (omega arith)
  ]

  pump_loop-IsShorter :
      (n fuel : ℕ) (s : State) → length s.queue ≤ n → length (pump_loop w c fuel s).0.queue ≤ n
  pump_loop-IsShorter n fuel s h =
      pump_loop_keeps w c (λ t. length t.queue ≤ n)
        (λ t k. omega (arith, k, pump_turn-IsShorter t.queue t refl)) fuel s h

  pub pump-IsShorter : (s : State) → IsShorter s (pump w c s)
  unfolding pump
  pump-IsShorter s = pump_loop-IsShorter (length s.queue) (suc (length s.queue)) s (omega arith)

  goes_on :
      (i : ℕ) (q : List ℕ) (s : State)
      → s.active < c.max_active
      → s.next_start_at ≤ reading w 1 s
      → (pump_turn w c (i ∷ q) s).1 ≡ true
  unfolding pump_turn pump_head
  goes_on i q s room due =
      let t : ltb s.active c.max_active ≡ true = ground arith in
      let v : ltb (reading w 1 s) s.next_start_at ≡ false = ground arith in
      elim (Bool-cases (leb (expiry_of i s.desk) (reading w 0 s))) [
        | inl u ↦ rw (t, u) refl
        | inr u ↦ rw (t, u, v) refl
      ]

  pump_loop_more :
      (fuel : ℕ) (s : State)
      → (pump_turn w c s.queue s).1 ≡ true
      → pump_loop w c (suc fuel) s ≡ pump_loop w c fuel (pump_turn w c s.queue s).0
  unfolding pump_loop
  pump_loop_more fuel s more = rw more refl

  -- An entry that is alone in the queue, with a slot free and the next start due, leaves it at once.
  pub pump_alone :
      (s : State) (i : ℕ)
      → s.queue ≡ i ∷ []
      → IsOrderly s
      → s.active < c.max_active
      → s.next_start_at ≤ reading w 1 s
      → length (pump w c s).queue ≡ 0
  unfolding pump
  pump_alone s i g h room due =
      let more : (pump_turn w c s.queue s).1 ≡ true =
        subst (λ q. (pump_turn w c q s).1 ≡ true) (sym g) (goes_on i [] s room due) in
      let less = (pump_turn-IsTurn w c s.queue s refl h.0).1 more in
      let one : length s.queue ≡ 1 = rw g refl in
      let rest =
        pump_loop-IsShorter 0 (length s.queue) (pump_turn w c s.queue s).0
          (omega (arith, less, one)) in
      ap (λ (r : State × Bool). length r.0.queue) (pump_loop_more (length s.queue) s more)
      ∙ omega (arith, rest)
