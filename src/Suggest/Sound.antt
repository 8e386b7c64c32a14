-- ===== src/Suggest/Sound.antt =====
-- Every event keeps the queue sound, so that `pump` comes to its end whenever it is called.
use public_lighting_fault_re.Base.{
  ℕ, suc, ◌+◌, ◌<◌, ◌≡◌, refl, sym, ◌∙◌, inl, inr, Bool, true, false, List, [], ◌∷◌, ◌++◌, arith,
  leb, length, Bool-cases, Option-cases, ◌==◌, any, not, ◌&&◌, ◌||◌,
}
use public_lighting_fault_re.Base.Tables.{find_row}
use public_lighting_fault_re.Base.Cells.{get_elem?, modify, get_elem?-modify_same}
use public_lighting_fault_re.Suggest.{
  Settings, Outside, queued, settled, is_settled, is_queued, Entry, State, idle, queue_expired,
  queue_full, admission_rejected, cancelled, rejected, address_provider_timeout,
}
use public_lighting_fault_re.Suggest.Admission.{
  in_phase, settle, phase_of, give_up, reading, unqueue, pump_loop, pump,
}
use public_lighting_fault_re.Suggest.Events.{
  Event, request, abort, expiry_timer, spacing_timer, timeout_timer, work_ends, Ending, has_key,
  is_work, is_same, left, open_entry, finish_work, report_end, outcome_of, time_out, is_admitted,
  can_start, enqueue, run_new, run, leave, drop_entry, cancel_when_unobserved, abort_subscriber,
  end_work, expire, handle, handle_all,
}
use public_lighting_fault_re.Suggest.Queue.{
  AgreesOff, phase_of-modify, phase_of-settle, pump_turn-IsTurn, pump_loop-ends,
}
use public_lighting_fault_re.Suggest.Rules.{pump_loop_keeps}
use public_lighting_fault_re.Suggest.Busy.{
  IsBusy, IsAfter, modify-IsAfter, settle-IsAfter, All-after, pump_turn-AllBusy,
}
use public_lighting_fault_re.Suggest.Order.{
  IsOrderly, IsQueue-same, modify-Agrees, IsQueue-append, append-IsAfter, All-without_work,
  same_order, unqueue_order, settled_order, answered-IsOrderly, join-IsOrderly, settle-IsOrderly,
  found-IsBusy, All-expire_work,
}

module _ (w : Outside) (c : Settings) where
  pump-IsOrderly : (s : State) → IsOrderly s → IsOrderly (pump w c s)
  unfolding pump
  pump-IsOrderly s h =
      pump_loop_keeps w c IsOrderly
        (λ t k. (
          (pump_turn-IsTurn w c t.queue t refl k.0).0,
          pump_turn-AllBusy w c t.queue t refl k.0 k.1,
        ))
        (suc (length s.queue)) s h

  leave-IsOrderly : (i x : ℕ) (s : State) → IsOrderly s → IsOrderly (leave w c i x s)
  leave-IsOrderly i x s h =
      let d = record s.desk { entries = modify (left x) i s.desk.entries } in
      answered-IsOrderly x cancelled (record s { desk = d })
        (same_order s d (modify-Agrees (left x) i s.desk (λ e. refl))
          (modify-IsAfter (left x) i s.desk (λ e k. k)) h)

  pub enqueue-IsOrderly : (k x : ℕ) (s : State) → IsOrderly s → IsOrderly (enqueue w c k x s)
  unfolding enqueue open_entry phase_of
  enqueue-IsOrderly k x s h =
      let i = length s.desk.entries in
      let e : Entry = record {
        key = k;
        subscribers = [];
        expires_at = reading w 2 s + c.queue_expiry_ms;
        phase = queued;
      } in
      let d = record s.desk { entries = s.desk.entries ++ (e ∷ []) } in
      let d' = record d { in_flight = (record { key = k; entry = i }) ∷ s.desk.in_flight } in
      let queue = IsQueue-append 0 s.desk s.queue e refl (omega arith) h.0 in
      let s' = record s { desk = d'; queue = s.queue ++ (i ∷ []) } in
      join-IsOrderly i x s' (
        IsQueue-same 0 d d' s'.queue (λ j. refl) queue,
        All-after s.desk d' s.executing (append-IsAfter s.desk e) h.1,
      )

  drop_entry-IsOrderly :
      (i : ℕ) (e : Entry) (s : State)
      → phase_of i s.desk ≡ e.phase
      → IsOrderly s
      → IsOrderly (drop_entry w c i e s)
  unfolding drop_entry phase_of
  drop_entry-IsOrderly i e s p h =
      let d = (drop_entry w c i e s).desk in
      let off : AgreesOff i s.desk d = phase_of-modify (in_phase settled) i s.desk in
      let after : IsAfter s.desk d = modify-IsAfter (in_phase settled) i s.desk (λ y k. refl) in
      elim (Bool-cases (is_queued e.phase)) [
        | inl t ↦ rw t (unqueue_order i s d off after h)
        | inr t ↦ rw t (settled_order i s d off after (λ q. absurd (cc (rw (sym p ∙ q) at t))) h)
      ]

  finish_work-IsOrderly : (i : ℕ) (s : State) → IsOrderly s → IsOrderly (finish_work i s)
  unfolding finish_work
  finish_work-IsOrderly i s h =
      (h.0, All-without_work i (λ x. IsBusy s.desk x.entry) s.executing h.1)

  expire-IsOrderly : (i : ℕ) (s : State) → IsOrderly s → IsOrderly (expire w c i s)
  unfolding expire
  expire-IsOrderly i s h = elim (Bool-cases (is_queued (phase_of i s.desk))) [
    | inl e ↦
        let d = settle i (rejected queue_expired) s.desk in
        rw e (
          pump-IsOrderly (give_up i queue_expired (record s { queue = unqueue i s.queue })) (
            unqueue_order i s d (phase_of-settle i (rejected queue_expired) s.desk)
              (settle-IsAfter i (rejected queue_expired) s.desk) h))
    | inr e ↦ rw e h
  ]

  time_out-IsOrderly : (i : ℕ) (s : State) → IsOrderly s → IsOrderly (time_out i s)
  unfolding time_out
  time_out-IsOrderly i s h = elim (Option-cases (find_row (is_work i) s.executing)) [
    | inl e ↦ rw (e, time_out) h
    | inr (x, e) ↦ elim (Bool-cases x.timed_out) [
      | inl f ↦ rw (e, time_out, f) h
      | inr f ↦
          let o = rejected address_provider_timeout in
          let (queue, busy) = settle-IsOrderly i o s (found-IsBusy i s.desk s.executing e h.1) h in
          rw (e, time_out, f)
            (queue, All-expire_work i (IsBusy (settle i o s.desk)) s.executing busy)
    ]
  ]

  end_work-IsOrderly :
      (i : ℕ) (a : Ending) (s : State) → IsOrderly s → IsOrderly (end_work w c i a s)
  unfolding end_work report_end
  end_work-IsOrderly i a s h = elim (Option-cases (find_row (is_work i) s.executing)) [
    | inl e ↦ rw (e, end_work) h
    | inr (x, e) ↦ elim (Bool-cases x.timed_out) [
      | inl f ↦ rw (e, end_work, f) (pump-IsOrderly (finish_work i s) (finish_work-IsOrderly i s h))
      | inr f ↦
          rw (e, end_work, f)
            (pump-IsOrderly (finish_work i (report_end i a s)) (
              finish_work-IsOrderly i (report_end i a s)
                (settle-IsOrderly i (outcome_of a) s (found-IsBusy i s.desk s.executing e h.1) h)))
    ]
  ]

  cancel-IsOrderly :
      (i : ℕ) (e : Entry) (s : State)
      → phase_of i s.desk ≡ e.phase
      → IsOrderly s
      → IsOrderly (cancel_when_unobserved w c i e s)
  unfolding cancel_when_unobserved
  cancel-IsOrderly i e s p h =
      elim (Bool-cases (not (length e.subscribers == 0) || is_settled e.phase)) [
        | inl g ↦ rw g h
        | inr g ↦ rw g (pump-IsOrderly (drop_entry w c i e s) (drop_entry-IsOrderly i e s p h))
      ]

  abort-IsOrderly : (i x : ℕ) (s : State) → IsOrderly s → IsOrderly (abort_subscriber w c i x s)
  unfolding abort_subscriber phase_of
  abort-IsOrderly i x s h = elim (Option-cases (get_elem? s.desk.entries i)) [
    | inl e ↦ rw (e, abort_subscriber) h
    | inr (y, e) ↦ elim (Bool-cases (any (is_same x) y.subscribers)) [
      | inl f ↦
          let phase : phase_of i (leave w c i x s).desk ≡ y.phase =
            rw (phase_of, get_elem?-modify_same (left x) i s.desk.entries e) refl in
          rw (e, abort_subscriber, f)
            (cancel-IsOrderly i (left x y) (leave w c i x s) phase (leave-IsOrderly i x s h))
      | inr f ↦ rw (e, abort_subscriber, f) h
    ]
  ]

  run_new-IsOrderly : (k x : ℕ) (s : State) → IsOrderly s → IsOrderly (run_new w c k x s)
  unfolding run_new
  run_new-IsOrderly k x s h = elim (Bool-cases (is_admitted w c s)) [
    | inl e ↦ elim (Bool-cases (not (can_start w c s) && leb c.max_pending (length s.queue))) [
      | inl f ↦ rw (e, f) (answered-IsOrderly x queue_full s h)
      | inr f ↦ rw (e, f) (pump-IsOrderly (enqueue w c k x s) (enqueue-IsOrderly k x s h))
    ]
    | inr e ↦ rw e (answered-IsOrderly x admission_rejected s h)
  ]

  run-IsOrderly : (k x : ℕ) (b : Bool) (s : State) → IsOrderly s → IsOrderly (run w c k x b s)
  unfolding run
  run-IsOrderly k x true s h = answered-IsOrderly x cancelled s h
  run-IsOrderly k x false s h = elim (Option-cases (find_row (has_key k) s.desk.in_flight)) [
    | inl e ↦ rw (e, run) (run_new-IsOrderly k x s h)
    | inr (r, e) ↦ rw (e, run) (join-IsOrderly r.entry x s h)
  ]

  pub handle-IsOrderly : (e : Event) (s : State) → IsOrderly s → IsOrderly (handle w c e s)
  unfolding handle
  handle-IsOrderly (request k x b) s h = run-IsOrderly k x b s h
  handle-IsOrderly (abort i x) s h = abort-IsOrderly i x s h
  handle-IsOrderly (expiry_timer i) s h = expire-IsOrderly i s h
  handle-IsOrderly spacing_timer s h = elim (Bool-cases s.spacing_armed) [
    | inl e ↦ simp e (pump-IsOrderly (record s { spacing_armed = false }) h)
    | inr e ↦ simp e h
  ]
  handle-IsOrderly (timeout_timer i) s h = time_out-IsOrderly i s h
  handle-IsOrderly (work_ends i a) s h = end_work-IsOrderly i a s h

  -- After any events the queue holds the references of queued entries only, each once and in the
  -- order in which they came, and no entry whose work is under way is queued.
  pub handle_all-IsOrderly :
      (es : List Event) (s : State) → IsOrderly s → IsOrderly (handle_all w c es s)
  unfolding handle_all
  handle_all-IsOrderly [] s h = h
  handle_all-IsOrderly (e ∷ es) s h =
      handle_all-IsOrderly es (handle w c e s) (handle-IsOrderly e s h)

  -- After any events, the loop of `pump` comes to its end after at most one turn more than the queue
  -- has entries.
  pub pump_ends_after :
      (es : List Event) (fuel : ℕ)
      → length (handle_all w c es idle).queue < fuel
      → (pump_loop w c fuel (handle_all w c es idle)).1 ≡ true
  pump_ends_after es fuel l =
      let sound = (handle_all-IsOrderly es idle (tt, tt)).0 in
      (pump_loop-ends w c fuel (handle_all w c es idle) l sound).0
