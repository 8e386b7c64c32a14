-- ===== src/Suggest/Tally.antt =====
-- What each handler does to the tally of the requests.
use public_lighting_fault_re.Base.{
  ℕ, suc, ◌+◌, ◌≡◌, refl, sym, inl, inr, Bool, true, false, some, List, [], ◌∷◌, All, arith, leb,
  ltb, length, nil_of_length, Bool-cases, Option-cases, any, not, ◌&&◌, ◌||◌, ◌==◌,
}
use public_lighting_fault_re.Base.Tables.{find_row}
use public_lighting_fault_re.Base.Cells.{get_elem?, get_elem?-modify_same}
use public_lighting_fault_re.Suggest.{
  Settings, Outside, Entry, Ref, State, running, starting, is_queued, is_settled, rejected,
  cancelled, queue_expired, queue_full, admission_rejected, daily_budget_exceeded,
  address_provider_timeout,
}
use public_lighting_fault_re.Suggest.Admission.{
  phase_of, expiry_of, reading, spend, give_up, unqueue, expire_queued, reserve, launch, try_launch,
  dequeue, pump_head, pump_turn, pump,
}
use public_lighting_fault_re.Suggest.Events.{
  Ending, has_key, is_work, is_same, left, finish_work, report_end, outcome_of, time_out,
  is_admitted, can_start, enqueue, run_new, run, leave, drop_entry, cancel_when_unobserved,
  abort_subscriber, end_work, expire,
}
use public_lighting_fault_re.Suggest.Queue.{reserve_frame}
use public_lighting_fault_re.Suggest.Rules.{pump_loop_keeps}
use public_lighting_fault_re.Suggest.Held.{IsHeld}
use public_lighting_fault_re.Suggest.Answers.{
  IsTally, settle-IsTally, set_phase-IsTally, answered-IsTally, subscribe-IsTally,
  open_entry-IsTally, left-IsTally, dropped-IsTally,
}

module _ (w : Outside) (c : Settings) where
  try_launch-IsTally :
      (i n : ℕ) (s : State) → IsTally n s.desk → IsTally n (try_launch w c i s).desk
  unfolding try_launch launch
  try_launch-IsTally i n s h = elim (Bool-cases (leb (expiry_of i s.desk) (reading w 0 s))) [
    | inl e ↦ rw e (settle-IsTally i n (rejected queue_expired) s.desk h)
    | inr e ↦
        let r = reserve w c (spend 1 s) in
        let h' : IsTally n r.0.desk = rw ((reserve_frame w c (spend 1 s)).0) h in
        elim (Bool-cases r.1) [
          | inl f ↦ rw (e, f) (set_phase-IsTally running i n r.0.desk refl h')
          | inr f ↦ rw (e, f) (settle-IsTally i n (rejected daily_budget_exceeded) r.0.desk h')
        ]
  ]

  expire_queued-IsTally :
      (i n : ℕ) (s : State) → IsTally n s.desk → IsTally n (expire_queued i s).desk
  unfolding expire_queued
  expire_queued-IsTally i n s h = elim (Bool-cases (is_queued (phase_of i s.desk))) [
    | inl e ↦ rw e (settle-IsTally i n (rejected queue_expired) s.desk h)
    | inr e ↦ rw e h
  ]

  pump_turn-IsTally :
      (q : List ℕ) (n : ℕ) (s : State) → IsTally n s.desk → IsTally n (pump_turn w c q s).0.desk
  unfolding pump_turn pump_head
  pump_turn-IsTally [] n s h = h
  pump_turn-IsTally (i ∷ rest) n s h = elim (Bool-cases (ltb s.active c.max_active)) [
    | inl t ↦ elim (Bool-cases (leb (expiry_of i s.desk) (reading w 0 s))) [
      | inl u ↦ rw (t, u) (expire_queued-IsTally i n (spend 1 s) h)
      | inr u ↦ elim (Bool-cases (ltb (reading w 1 s) s.next_start_at)) [
        | inl v ↦ rw (t, u, v) h
        | inr v ↦
            rw (t, u, v)
              (try_launch-IsTally i n (dequeue i rest (spend 2 s))
                (set_phase-IsTally starting i n s.desk refl h))
      ]
    ]
    | inr t ↦ rw t h
  ]

  pub pump-IsTally : (n : ℕ) (s : State) → IsTally n s.desk → IsTally n (pump w c s).desk
  unfolding pump
  pump-IsTally n s h =
      pump_loop_keeps w c (λ t. IsTally n t.desk) (λ t. pump_turn-IsTally t.queue n t)
        (suc (length s.queue)) s h

  run_new-IsTally :
      (k x n : ℕ) (s : State) → IsTally n s.desk → IsTally (n + 1) (run_new w c k x s).desk
  unfolding run_new enqueue
  run_new-IsTally k x n s h = elim (Bool-cases (is_admitted w c s)) [
    | inl e ↦ elim (Bool-cases (not (can_start w c s) && leb c.max_pending (length s.queue))) [
      | inl f ↦ rw (e, f) (answered-IsTally x n queue_full s.desk h)
      | inr f ↦
          rw (e, f)
            (pump-IsTally (n + 1) (enqueue w c k x s)
              (open_entry-IsTally k (reading w 2 s + c.queue_expiry_ms) x n s.desk h))
    ]
    | inr e ↦ rw e (answered-IsTally x n admission_rejected s.desk h)
  ]

  found-IsHeld :
      (k : ℕ) (es : List Entry) (refs : List Ref) {r : Ref}
      → find_row (has_key k) refs ≡ some r
      → All (IsHeld es) refs
      → IsHeld es r
  unfolding find_row
  found-IsHeld k es [] e h = absurd (cc)
  found-IsHeld k es (y ∷ refs) {r} e h = elim (Bool-cases (has_key k y)) [
    | inl t ↦ let same : y ≡ r = ground (arith, rw t at e) in rw (sym same) h.0
    | inr t ↦ found-IsHeld k es refs (rw t at e) h.1
  ]

  pub run-IsTally :
      (k x : ℕ) (b : Bool) (n : ℕ) (s : State)
      → IsTally n s.desk
      → IsTally (n + 1) (run w c k x b s).desk
  unfolding run
  run-IsTally k x true n s h = answered-IsTally x n cancelled s.desk h
  run-IsTally k x false n s h = elim (Option-cases (find_row (has_key k) s.desk.in_flight)) [
    | inl e ↦ rw (e, run) (run_new-IsTally k x n s h)
    | inr (r, e) ↦
        rw (e, run)
          (subscribe-IsTally x n r s.desk (found-IsHeld k s.desk.entries s.desk.in_flight e h.1) h)
  ]

  cancel-IsTally :
      (i n : ℕ) (e : Entry) (s : State)
      → get_elem? s.desk.entries i ≡ some e
      → IsTally n s.desk
      → IsTally n (cancel_when_unobserved w c i e s).desk
  unfolding cancel_when_unobserved drop_entry
  cancel-IsTally i n e s get h =
      elim (Bool-cases (not (length e.subscribers == 0) || is_settled e.phase)) [
        | inl g ↦ rw g h
        | inr g ↦
            let zero_left : length e.subscribers ≡ 0 = ground arith in
            rw g (
              pump-IsTally n (drop_entry w c i e s)
                (dropped-IsTally i n s.desk get (nil_of_length e.subscribers zero_left) h))
      ]

  pub abort-IsTally :
      (i x n : ℕ) (s : State) → IsTally n s.desk → IsTally n (abort_subscriber w c i x s).desk
  unfolding abort_subscriber
  abort-IsTally i x n s h = elim (Option-cases (get_elem? s.desk.entries i)) [
    | inl e ↦ rw (e, abort_subscriber) h
    | inr (y, e) ↦ elim (Bool-cases (any (is_same x) y.subscribers)) [
      | inl f ↦
          rw (e, abort_subscriber, f)
            (cancel-IsTally i n (left x y) (leave w c i x s)
              (get_elem?-modify_same (left x) i s.desk.entries e)
              (left-IsTally x i n cancelled s.desk e f h))
      | inr f ↦ rw (e, abort_subscriber, f) h
    ]
  ]

  pub expire-IsTally : (i n : ℕ) (s : State) → IsTally n s.desk → IsTally n (expire w c i s).desk
  unfolding expire
  expire-IsTally i n s h = elim (Bool-cases (is_queued (phase_of i s.desk))) [
    | inl e ↦ rw e (
        pump-IsTally n (give_up i queue_expired (record s { queue = unqueue i s.queue }))
          (settle-IsTally i n (rejected queue_expired) s.desk h))
    | inr e ↦ rw e h
  ]

  pub time_out-IsTally : (i n : ℕ) (s : State) → IsTally n s.desk → IsTally n (time_out i s).desk
  unfolding time_out
  time_out-IsTally i n s h = elim (Option-cases (find_row (is_work i) s.executing)) [
    | inl e ↦ rw (e, time_out) h
    | inr (x, e) ↦ elim (Bool-cases x.timed_out) [
      | inl f ↦ rw (e, time_out, f) h
      | inr f ↦
          rw (e, time_out, f) (settle-IsTally i n (rejected address_provider_timeout) s.desk h)
    ]
  ]

  pub end_work-IsTally :
      (i n : ℕ) (a : Ending) (s : State) → IsTally n s.desk → IsTally n (end_work w c i a s).desk
  unfolding end_work finish_work report_end
  end_work-IsTally i n a s h = elim (Option-cases (find_row (is_work i) s.executing)) [
    | inl e ↦ rw (e, end_work) h
    | inr (x, e) ↦ elim (Bool-cases x.timed_out) [
      | inl f ↦ rw (e, end_work, f) (pump-IsTally n (finish_work i s) h)
      | inr f ↦
          rw (e, end_work, f)
            (pump-IsTally n (finish_work i (report_end i a s))
              (settle-IsTally i n (outcome_of a) s.desk h))
    ]
  ]
