-- ===== src/Suggest/Pending.antt =====
-- How many entries the queue holds.
use mathlib.Core.Path.{subst}
use public_lighting_fault_re.Base.{
  ℕ, suc, ◌+◌, ◌≤◌, ◌<◌, ◌≡◌, refl, sym, ap, ◌∙◌, inl, inr, Bool, true, false, List, [], ◌∷◌, ◌++◌,
  arith, leb, ltb, length, length-append, nil_of_length, Bool-cases, Option-cases, any, not, ◌&&◌,
  ◌||◌, ◌==◌,
}
use public_lighting_fault_re.Base.Tables.{find_row}
use public_lighting_fault_re.Base.Cells.{get_elem?}
use public_lighting_fault_re.Suggest.{
  Settings, Outside, Entry, State, idle, is_queued, is_settled, queue_expired,
}
use public_lighting_fault_re.Suggest.Admission.{
  phase_of, expiry_of, reading, spend, give_up, unqueue, expire_queued, dequeue, pump_head,
  pump_turn, pump_loop, pump,
}
use public_lighting_fault_re.Suggest.Events.{
  Event, request, abort, expiry_timer, spacing_timer, timeout_timer, work_ends, Ending, has_key,
  is_work, is_same, left, finish_work, report_end, time_out, is_admitted, can_start, enqueue,
  run_new, run, leave, drop_entry, cancel_when_unobserved, abort_subscriber, end_work, expire,
  handle, handle_all,
}
use public_lighting_fault_re.Suggest.Queue.{try_launch_frame, pump_turn-IsTurn}
use public_lighting_fault_re.Suggest.Rules.{pump_loop_keeps}
use public_lighting_fault_re.Suggest.Order.{IsOrderly}
use public_lighting_fault_re.Suggest.Sound.{enqueue-IsOrderly, handle-IsOrderly}
use public_lighting_fault_re.Suggest.Starts.{IsForward}
use public_lighting_fault_re.Suggest.Pending.Shorter.{
  IsShorter, length-unqueue, pump-IsShorter, pump_alone,
}
mod Shorter

module _ (w : Outside) (c : Settings) (forward : IsForward w) where
  abbrev IsFitting : State → Type 0
  IsFitting s = length s.queue ≤ c.max_pending

  enqueue_queue :
      (k x : ℕ) (s : State)
      → ((enqueue w c k x s).queue ≡ s.queue ++ (length s.desk.entries ∷ []))
        × ((enqueue w c k x s).active ≡ s.active)
        × ((enqueue w c k x s).next_start_at ≡ s.next_start_at)
        × ((enqueue w c k x s).calls ≡ s.calls + 3)
  unfolding enqueue
  enqueue_queue k x s = (refl, refl, refl, refl)

  started_at_once :
      (k x : ℕ) (s : State)
      → IsOrderly s
      → can_start w c s ≡ true
      → length (pump w c (enqueue w c k x s)).queue ≡ 0
  started_at_once k x s h can =
      let (queue, active, next, calls) = enqueue_queue k x s in
      let empty : length s.queue ≡ 0 = ground arith in
      let later = forward (s.calls + 1) (s.calls + 3 + 1) (omega arith) in
      pump_alone w c (enqueue w c k x s) (length s.desk.entries)
        (queue ∙ ap (λ q. q ++ (length s.desk.entries ∷ [])) (nil_of_length s.queue empty))
        (enqueue-IsOrderly w c k x s h) (rw active (ground arith))
        (rw (next, calls) (ground (arith, later)))

  run_new-IsFitting :
      (k x : ℕ) (s : State) → IsOrderly s → IsFitting s → IsFitting (run_new w c k x s)
  unfolding run_new
  run_new-IsFitting k x s o h = elim (Bool-cases (is_admitted w c s)) [
    | inl e ↦ elim (Bool-cases (not (can_start w c s) && leb c.max_pending (length s.queue))) [
      | inl f ↦ rw (e, f) h
      | inr f ↦ elim (Bool-cases (can_start w c s)) [
        | inl g ↦ rw (e, f) (omega (arith, started_at_once k x s o g))
        | inr g ↦
            let room : length s.queue < c.max_pending = ground (arith, rw g at f) in
            let queue = (enqueue_queue k x s).0 in
            rw (e, f)
              (omega (
                arith,
                room,
                pump-IsShorter w c (enqueue w c k x s),
                ap length queue,
                length-append s.queue (length s.desk.entries ∷ []),
              ))
      ]
    ]
    | inr e ↦ rw e h
  ]

  run-IsFitting :
      (k x : ℕ) (b : Bool) (s : State) → IsOrderly s → IsFitting s → IsFitting (run w c k x b s)
  unfolding run
  run-IsFitting k x true s o h = h
  run-IsFitting k x false s o h = elim (Option-cases (find_row (has_key k) s.desk.in_flight)) [
    | inl e ↦ rw (e, run) (run_new-IsFitting k x s o h)
    | inr (r, e) ↦ rw (e, run) h
  ]

  drop_entry-IsShorter : (i : ℕ) (e : Entry) (s : State) → IsShorter s (drop_entry w c i e s)
  unfolding drop_entry
  drop_entry-IsShorter i e s = elim (Bool-cases (is_queued e.phase)) [
    | inl t ↦ rw t (length-unqueue i s.queue)
    | inr t ↦ rw t (omega arith)
  ]

  cancel-IsShorter :
      (i : ℕ) (e : Entry) (s : State) → IsShorter s (cancel_when_unobserved w c i e s)
  unfolding cancel_when_unobserved
  cancel-IsShorter i e s =
      elim (Bool-cases (not (length e.subscribers == 0) || is_settled e.phase)) [
        | inl g ↦ rw g (omega arith)
        | inr g ↦
            rw g
              (omega (arith, pump-IsShorter w c (drop_entry w c i e s), drop_entry-IsShorter i e s))
      ]

  abort-IsShorter : (i x : ℕ) (s : State) → IsShorter s (abort_subscriber w c i x s)
  unfolding abort_subscriber
  abort-IsShorter i x s = elim (Option-cases (get_elem? s.desk.entries i)) [
    | inl e ↦ rw (e, abort_subscriber) (omega arith)
    | inr (y, e) ↦ elim (Bool-cases (any (is_same x) y.subscribers)) [
      | inl f ↦ rw (e, abort_subscriber, f) (cancel-IsShorter i (left x y) (leave w c i x s))
      | inr f ↦ rw (e, abort_subscriber, f) (omega arith)
    ]
  ]

  expire-IsShorter : (i : ℕ) (s : State) → IsShorter s (expire w c i s)
  unfolding expire
  expire-IsShorter i s = elim (Bool-cases (is_queued (phase_of i s.desk))) [
    | inl e ↦
        let s' = give_up i queue_expired (record s { queue = unqueue i s.queue }) in
        rw e (omega (arith, pump-IsShorter w c s', length-unqueue i s.queue))
    | inr e ↦ rw e (omega arith)
  ]

  time_out-IsShorter : (i : ℕ) (s : State) → IsShorter s (time_out i s)
  unfolding time_out
  time_out-IsShorter i s = elim (Option-cases (find_row (is_work i) s.executing)) [
    | inl e ↦ rw (e, time_out) (omega arith)
    | inr (x, e) ↦ elim (Bool-cases x.timed_out) [
      | inl f ↦ rw (e, time_out, f) (omega arith)
      | inr f ↦ rw (e, time_out, f) (omega arith)
    ]
  ]

  end_work-IsShorter : (i : ℕ) (a : Ending) (s : State) → IsShorter s (end_work w c i a s)
  unfolding end_work finish_work report_end
  end_work-IsShorter i a s = elim (Option-cases (find_row (is_work i) s.executing)) [
    | inl e ↦ rw (e, end_work) (omega arith)
    | inr (x, e) ↦ elim (Bool-cases x.timed_out) [
      | inl f ↦ rw (e, end_work, f) (pump-IsShorter w c (finish_work i s))
      | inr f ↦ rw (e, end_work, f) (pump-IsShorter w c (finish_work i (report_end i a s)))
    ]
  ]

  handle-IsFitting :
      (e : Event) (s : State) → IsOrderly s → IsFitting s → IsFitting (handle w c e s)
  unfolding handle
  handle-IsFitting (request k x b) s o h = run-IsFitting k x b s o h
  handle-IsFitting (abort i x) s o h = omega (arith, h, abort-IsShorter i x s)
  handle-IsFitting (expiry_timer i) s o h = omega (arith, h, expire-IsShorter i s)
  handle-IsFitting spacing_timer s o h = elim (Bool-cases s.spacing_armed) [
    | inl e ↦ simp e (omega (arith, h, pump-IsShorter w c (record s { spacing_armed = false })))
    | inr e ↦ simp e h
  ]
  handle-IsFitting (timeout_timer i) s o h = omega (arith, h, time_out-IsShorter i s)
  handle-IsFitting (work_ends i a) s o h = omega (arith, h, end_work-IsShorter i a s)

  handle_all-IsFitting :
      (es : List Event) (s : State) → IsOrderly s → IsFitting s → IsFitting (handle_all w c es s)
  unfolding handle_all
  handle_all-IsFitting [] s o h = h
  handle_all-IsFitting (e ∷ es) s o h =
      handle_all-IsFitting es (handle w c e s) (handle-IsOrderly w c e s o)
        (handle-IsFitting e s o h)

  -- Where the clock does not run backwards, the queue never holds more than `maxPending` entries
  -- between two events: a request that finds it full is refused, or starts at once.
  pub handle_all-queue_capacity :
      (es : List Event) → length (handle_all w c es idle).queue ≤ c.max_pending
  handle_all-queue_capacity es = handle_all-IsFitting es idle (tt, tt) (omega arith)
