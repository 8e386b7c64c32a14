-- ===== src/Suggest/Rules.antt =====
-- What every event keeps, once the turns of `pump` and the ends of the provider's work keep it: for
-- statements that read neither the entries nor the queue.
use public_lighting_fault_re.Base.{
  ℕ, zero, suc, ◌+◌, ◌≤◌, ◌≢◌, inl, inr, Bool, true, false, none, List, [], ◌∷◌, arith, length, leb,
  ◌&&◌, ◌||◌, not, ◌==◌, any, Bool-cases, Option-cases,
}
use public_lighting_fault_re.Base.Tables.{find_row}
use public_lighting_fault_re.Base.Cells.{get_elem?}
use public_lighting_fault_re.Suggest.{
  Settings, Outside, Counters, Desk, Entry, State, is_queued, is_settled, queue_expired,
}
use public_lighting_fault_re.Suggest.Admission.{
  phase_of, give_up, unqueue, pump_turn, pump_loop, pump,
}
use public_lighting_fault_re.Suggest.Events.{
  Event, request, abort, expiry_timer, spacing_timer, timeout_timer, work_ends, Ending, has_key,
  is_work, is_same, left, finish_work, report_end, time_out, is_admitted, can_start, enqueue,
  run_new, run, leave, drop_entry, cancel_when_unobserved, abort_subscriber, end_work, expire,
  handle, handle_all,
}

module _ (w : Outside) (c : Settings) where
  pub pump_loop_keeps :
      (P : State → Type 0)
      → ((s : State) → P s → P (pump_turn w c s.queue s).0)
      → (fuel : ℕ) (s : State) → P s
      → P (pump_loop w c fuel s).0
  unfolding pump_loop
  pump_loop_keeps P f zero s h = h
  pump_loop_keeps P f (suc fuel) s h = elim (Bool-cases (pump_turn w c s.queue s).1) [
    | inl e ↦ rw e (pump_loop_keeps P f fuel (pump_turn w c s.queue s).0 (f s h))
    | inr e ↦ rw e (f s h)
  ]

  pub record Rules (P : State → Type 0) : Type 0 where
    pub on_turn : (s : State) → P s → P (pump_turn w c s.queue s).0
    pub on_frame :
        (s : State) (d : Desk) (cs : Counters) (q : List ℕ) (armed : Bool) (m : ℕ)
        → s.calls ≤ m
        → P s
        → P (record s { desk = d; counters = cs; queue = q; spacing_armed = armed; calls = m })
    pub on_finish :
        (i : ℕ) (s : State) → find_row (is_work i) s.executing ≢ none → P s → P (finish_work i s)
    pub on_time_out : (i : ℕ) (s : State) → P s → P (time_out i s)

  module _ (P : State → Type 0) (r : Rules P) where
    pump_keeps : (s : State) → P s → P (pump w c s)
    unfolding pump
    pump_keeps s h = pump_loop_keeps P r.on_turn (suc (length s.queue)) s h

    run_new_keeps : (k x : ℕ) (s : State) → P s → P (run_new w c k x s)
    unfolding run_new enqueue
    run_new_keeps k x s h = elim (Bool-cases (is_admitted w c s)) [
      | inl e ↦ elim (Bool-cases (not (can_start w c s) && leb c.max_pending (length s.queue))) [
        | inl f ↦ rw (e, f) (r.on_frame s _ _ _ _ (s.calls + 2) (omega arith) h)
        | inr f ↦
            rw (e, f)
              (pump_keeps (enqueue w c k x s) (r.on_frame s _ _ _ _ (s.calls + 3) (omega arith) h))
      ]
      | inr e ↦ rw e (r.on_frame s _ _ _ _ (s.calls + 1) (omega arith) h)
    ]

    run_keeps : (k x : ℕ) (b : Bool) (s : State) → P s → P (run w c k x b s)
    unfolding run
    run_keeps k x true s h = r.on_frame s _ _ _ _ s.calls (omega arith) h
    run_keeps k x false s h = elim (Option-cases (find_row (has_key k) s.desk.in_flight)) [
      | inl e ↦ rw (e, run) (run_new_keeps k x s h)
      | inr (f, e) ↦ rw (e, run) (r.on_frame s _ _ _ _ s.calls (omega arith) h)
    ]

    cancel_keeps : (i : ℕ) (e : Entry) (s : State) → P s → P (cancel_when_unobserved w c i e s)
    unfolding cancel_when_unobserved drop_entry
    cancel_keeps i e s h =
        elim (Bool-cases (not (length e.subscribers == 0) || is_settled e.phase)) [
          | inl g ↦ rw g h
          | inr g ↦
              rw g
                (pump_keeps (drop_entry w c i e s) (r.on_frame s _ _ _ _ s.calls (omega arith) h))
        ]

    abort_keeps : (i x : ℕ) (s : State) → P s → P (abort_subscriber w c i x s)
    unfolding abort_subscriber
    abort_keeps i x s h = elim (Option-cases (get_elem? s.desk.entries i)) [
      | inl e ↦ rw (e, abort_subscriber) h
      | inr (y, e) ↦ elim (Bool-cases (any (is_same x) y.subscribers)) [
        | inl f ↦
            rw (e, abort_subscriber, f)
              (cancel_keeps i (left x y) (leave w c i x s)
                (r.on_frame s _ _ _ _ s.calls (omega arith) h))
        | inr f ↦ rw (e, abort_subscriber, f) h
      ]
    ]

    expire_keeps : (i : ℕ) (s : State) → P s → P (expire w c i s)
    unfolding expire
    expire_keeps i s h = elim (Bool-cases (is_queued (phase_of i s.desk))) [
      | inl e ↦ rw e (
          pump_keeps (give_up i queue_expired (record s { queue = unqueue i s.queue }))
            (r.on_frame s _ _ _ _ s.calls (omega arith) h))
      | inr e ↦ rw e h
    ]

    end_work_keeps : (i : ℕ) (a : Ending) (s : State) → P s → P (end_work w c i a s)
    unfolding end_work report_end
    end_work_keeps i a s h = elim (Option-cases (find_row (is_work i) s.executing)) [
      | inl e ↦ rw (e, end_work) h
      | inr (x, e) ↦
          let here : find_row (is_work i) s.executing ≢ none = λ f. absurd (cc) in
          elim (Bool-cases x.timed_out) [
            | inl f ↦ rw (e, end_work, f) (pump_keeps (finish_work i s) (r.on_finish i s here h))
            | inr f ↦
                rw (e, end_work, f)
                  (pump_keeps (finish_work i (report_end i a s)) (
                    r.on_finish i (report_end i a s) here
                      (r.on_frame s _ _ _ _ s.calls (omega arith) h)))
          ]
    ]

    handle_keeps : (e : Event) (s : State) → P s → P (handle w c e s)
    unfolding handle
    handle_keeps (request k x b) s h = run_keeps k x b s h
    handle_keeps (abort i x) s h = abort_keeps i x s h
    handle_keeps (expiry_timer i) s h = expire_keeps i s h
    handle_keeps spacing_timer s h = elim (Bool-cases s.spacing_armed) [
      | inl e ↦ simp e (
          pump_keeps (record s { spacing_armed = false })
            (r.on_frame s s.desk s.counters s.queue false s.calls (omega arith) h))
      | inr e ↦ simp e h
    ]
    handle_keeps (timeout_timer i) s h = r.on_time_out i s h
    handle_keeps (work_ends i a) s h = end_work_keeps i a s h

    pub handle_all_keeps : (es : List Event) (s : State) → P s → P (handle_all w c es s)
    unfolding handle_all
    handle_all_keeps [] s h = h
    handle_all_keeps (e ∷ es) s h = handle_all_keeps es (handle w c e s) (handle_keeps e s h)
