-- ===== src/Suggest/Tended/Events.antt =====
-- Every event leaves each entry tended.
use public_lighting_fault_re.Base.{
  ℕ, suc, ltb, ◌+◌, ◌-◌, ◌⊎◌, ◌≢◌, if◌then◌else◌, ◌≡◌, refl, sym, inl, inr, Bool, true, false, List,
  [], ◌∷◌, ◌++◌, arith, leb, length, Bool-cases, Option-cases, ◌==◌, any, not, ◌&&◌, ◌||◌,
}
use public_lighting_fault_re.Base.Tables.{find_row, update_rows}
use public_lighting_fault_re.Base.Cells.{get_elem?, get_elem?-modify_same, get_elem?-modify_absent}
use public_lighting_fault_re.Suggest.{
  Settings, Outside, Phase, Desk, Outcome, queued, settled, is_settled, is_queued, Entry, State,
  idle, queue_expired, queue_full, admission_rejected, cancelled, rejected,
  address_provider_timeout,
}
use public_lighting_fault_re.Suggest.Admission.{
  in_phase, settle, phase_of, give_up, reading, unqueue, pump,
}
use public_lighting_fault_re.Suggest.Events.{
  Event, request, abort, expiry_timer, spacing_timer, timeout_timer, work_ends, Ending, has_key,
  is_work, is_same, expire_work, left, open_entry, finish_work, report_end, outcome_of, time_out,
  is_admitted, can_start, enqueue, run_new, run, leave, drop_entry, cancel_when_unobserved,
  abort_subscriber, end_work, expire, handle, handle_all,
}
use public_lighting_fault_re.Suggest.Queue.{phase_of-modify, phase_of-settle}
use public_lighting_fault_re.Suggest.Rules.{pump_loop_keeps}
use public_lighting_fault_re.Suggest.Order.{modify-Agrees}
use mathlib.Core.Path.{subst}
use public_lighting_fault_re.Suggest.{starting, running, daily_budget_exceeded}
use public_lighting_fault_re.Suggest.Admission.{
  set_phase, expiry_of, spend, expire_queued, reserve, launch, try_launch, dequeue, pump_head,
  pump_turn,
}
use public_lighting_fault_re.Suggest.Events.{joined, answered, subscribe, without_work}
use public_lighting_fault_re.Suggest.Queue.{reserve_frame}
use public_lighting_fault_re.Suggest.Busy.{reserve_executing}
use public_lighting_fault_re.Suggest.Tended.{
  is_in, IsTended, IsTended-map, AllTended, AllTendedOff, off_change, same_phases, whole,
  whole_settled, phase_of-settle_same, phase_of-set_same, is_in-unqueue, is_in-append, is_in-last,
  live-without_other, live-without_late, live-expire_work, phase_of-append, phase_of-last,
}

settled_off :
    (i : ℕ) (o : Outcome) (s : State)
    → AllTendedOff i s
    → AllTended (record s { desk = settle i o s.desk })
settled_off i o s h =
    let s' = record s { desk = settle i o s.desk } in
    whole_settled i s' (off_change i s s' (phase_of-settle i o s.desk) (λ k n b. b) (λ k n b. b) h)
      (phase_of-settle_same i o s.desk)

phase_of-running :
    (j : ℕ) (d : Desk)
    → (phase_of j (set_phase running j d) ≡ running)
      ⊎ (phase_of j (set_phase running j d) ≡ settled)
unfolding phase_of
phase_of-running j d = elim (Option-cases (get_elem? d.entries j)) [
  | inl e ↦ inr (rw (get_elem?-modify_absent (in_phase running) j d.entries e, phase_of) refl)
  | inr (x, e) ↦ inl (rw (get_elem?-modify_same (in_phase running) j d.entries e, phase_of) refl)
]

module _ (w : Outside) (c : Settings) where
  launch-AllTended : (i : ℕ) (s : State) → AllTendedOff i s → AllTended (launch w c i s)
  unfolding launch
  launch-AllTended i s h =
      let s' = launch w c i s in
      whole i s'
        (off_change i s s' (phase_of-modify (in_phase running) i s.desk) (λ k n b. b)
          (λ k n b. ground (arith, b)) h)
        (launched (phase_of i s'.desk) (phase_of-running i s.desk))
    where
      launched :
          (p : Phase)
          → (p ≡ running) ⊎ (p ≡ settled)
          → IsTended i s.queue ((record { entry = i; timed_out = false }) ∷ s.executing) p
      launched p (inl e) =
          subst (IsTended i s.queue ((record { entry = i; timed_out = false }) ∷ s.executing))
            (sym e) (ground arith)
      launched p (inr e) =
          subst (IsTended i s.queue ((record { entry = i; timed_out = false }) ∷ s.executing))
            (sym e) tt

  try_launch-AllTended : (i : ℕ) (s : State) → AllTendedOff i s → AllTended (try_launch w c i s)
  unfolding try_launch
  try_launch-AllTended i s h = elim (Bool-cases (leb (expiry_of i s.desk) (reading w 0 s))) [
    | inl e ↦ rw e (settled_off i (rejected queue_expired) s h)
    | inr e ↦
        let r = reserve w c (spend 1 s) in
        let (desk, queue) = reserve_frame w c (spend 1 s) in
        let off : AllTendedOff i r.0 = rw (desk, queue, reserve_executing w c (spend 1 s)) h in
        elim (Bool-cases r.1) [
          | inl f ↦ rw (e, f) (launch-AllTended i r.0 off)
          | inr f ↦ rw (e, f) (settled_off i (rejected daily_budget_exceeded) r.0 off)
        ]
  ]

  unqueue_off :
      (i : ℕ) (s : State) → AllTended s → AllTendedOff i (record s { queue = unqueue i s.queue })
  unqueue_off i s h =
      off_change i s (record s { queue = unqueue i s.queue }) (λ k n. refl)
        (λ k n. is_in-unqueue k i s.queue n) (λ k n b. b) (λ k n. h k)

  expire_queued-AllTended : (i : ℕ) (s : State) → AllTended s → AllTended (expire_queued i s)
  unfolding expire_queued
  expire_queued-AllTended i s h = elim (Bool-cases (is_queued (phase_of i s.desk))) [
    | inl e ↦ rw e (
        settled_off i (rejected queue_expired) (record s { queue = unqueue i s.queue })
          (unqueue_off i s h))
    | inr e ↦ rw e h
  ]

  dequeue-off :
      (i : ℕ) (rest : List ℕ) (s : State)
      → s.queue ≡ i ∷ rest
      → AllTended s
      → AllTendedOff i (dequeue i rest s)
  dequeue-off i rest s g h =
      off_change i s (dequeue i rest s) (phase_of-modify (in_phase starting) i s.desk)
        (λ k n b. drop_head k n (rw g at b)) (λ k n b. b) (λ k n. h k)
    where
      drop_head : (k : ℕ) → k ≢ i → is_in k (i ∷ rest) ≡ true → is_in k rest ≡ true
      drop_head k n b = let other : (i == k) ≡ false = ground (arith, n) in rw other at b

  pump_turn-AllTended :
      (q : List ℕ) (s : State) → s.queue ≡ q → AllTended s → AllTended (pump_turn w c q s).0
  unfolding pump_turn pump_head
  pump_turn-AllTended [] s g h = h
  pump_turn-AllTended (i ∷ rest) s g h = elim (Bool-cases (ltb s.active c.max_active)) [
    | inl t ↦ elim (Bool-cases (leb (expiry_of i s.desk) (reading w 0 s))) [
      | inl u ↦ rw (t, u) (expire_queued-AllTended i (spend 1 s) h)
      | inr u ↦ elim (Bool-cases (ltb (reading w 1 s) s.next_start_at)) [
        | inl v ↦ rw (t, u, v) h
        | inr v ↦
            rw (t, u, v)
              (try_launch-AllTended i (dequeue i rest (spend 2 s))
                (dequeue-off i rest (spend 2 s) g h))
      ]
    ]
    | inr t ↦ rw t h
  ]

  pump-AllTended : (s : State) → AllTended s → AllTended (pump w c s)
  unfolding pump
  pump-AllTended s h =
      pump_loop_keeps w c AllTended (λ t. pump_turn-AllTended t.queue t refl) (suc (length s.queue))
        s h

  join-AllTended :
      (i x : ℕ) (s : State) → AllTended s → AllTended (record s { desk = subscribe i x s.desk })
  unfolding subscribe
  join-AllTended i x s h =
      same_phases s (subscribe i x s.desk) (modify-Agrees (joined x) i s.desk (λ e. refl)) h

  enqueue-AllTended : (k x : ℕ) (s : State) → AllTended s → AllTended (enqueue w c k x s)
  unfolding enqueue open_entry phase_of
  enqueue-AllTended k x s h =
      let i = length s.desk.entries in
      let e : Entry = record {
        key = k;
        subscribers = [];
        expires_at = reading w 2 s + c.queue_expiry_ms;
        phase = queued;
      } in
      let d = record s.desk { entries = s.desk.entries ++ (e ∷ []) } in
      let d' = record d { in_flight = (record { key = k; entry = i }) ∷ s.desk.in_flight } in
      let s' = record s { desk = d'; queue = s.queue ++ (i ∷ []) } in
      let off : AllTendedOff i s' =
        off_change i s s' (phase_of-append s.desk e) (λ j n. is_in-append j i s.queue) (λ j n b. b)
          (λ j n. h j) in
      join-AllTended i x s' (
        whole i s' off (
          subst (IsTended i s'.queue s'.executing) (sym (phase_of-last s.desk e))
            (is_in-last i s.queue)))

  drop_entry-AllTended :
      (i : ℕ) (e : Entry) (s : State) → AllTended s → AllTended (drop_entry w c i e s)
  unfolding drop_entry phase_of
  drop_entry-AllTended i e s h =
      let s' = drop_entry w c i e s in
      whole_settled i s'
        (off_change i s s' (phase_of-modify (in_phase settled) i s.desk)
          (λ k n b. kept k n (is_queued e.phase) b) (λ k n b. b) (λ k n. h k))
        (phase_of-set_same i s.desk)
    where
      kept :
          (k : ℕ)
          → k ≢ i
          → (b : Bool) → is_in k s.queue ≡ true
          → is_in k (if b then unqueue i s.queue else s.queue) ≡ true
      kept k n true h = is_in-unqueue k i s.queue n h
      kept k n false h = h

  cancel-AllTended :
      (i : ℕ) (e : Entry) (s : State) → AllTended s → AllTended (cancel_when_unobserved w c i e s)
  unfolding cancel_when_unobserved
  cancel-AllTended i e s h =
      elim (Bool-cases (not (length e.subscribers == 0) || is_settled e.phase)) [
        | inl g ↦ rw g h
        | inr g ↦ rw g (pump-AllTended (drop_entry w c i e s) (drop_entry-AllTended i e s h))
      ]

  abort-AllTended : (i x : ℕ) (s : State) → AllTended s → AllTended (abort_subscriber w c i x s)
  unfolding abort_subscriber phase_of
  abort-AllTended i x s h = elim (Option-cases (get_elem? s.desk.entries i)) [
    | inl e ↦ rw (e, abort_subscriber) h
    | inr (y, e) ↦ elim (Bool-cases (any (is_same x) y.subscribers)) [
      | inl f ↦
          rw (e, abort_subscriber, f)
            (cancel-AllTended i (left x y) (leave w c i x s) (
              same_phases s (leave w c i x s).desk (modify-Agrees (left x) i s.desk (λ z. refl)) h))
      | inr f ↦ rw (e, abort_subscriber, f) h
    ]
  ]

  run_new-AllTended : (k x : ℕ) (s : State) → AllTended s → AllTended (run_new w c k x s)
  unfolding run_new phase_of
  run_new-AllTended k x s h = elim (Bool-cases (is_admitted w c s)) [
    | inl e ↦ elim (Bool-cases (not (can_start w c s) && leb c.max_pending (length s.queue))) [
      | inl f ↦ rw (e, f) (same_phases s (answered x queue_full s.desk) (λ i. refl) h)
      | inr f ↦ rw (e, f) (pump-AllTended (enqueue w c k x s) (enqueue-AllTended k x s h))
    ]
    | inr e ↦ rw e (same_phases s (answered x admission_rejected s.desk) (λ i. refl) h)
  ]

  run-AllTended : (k x : ℕ) (b : Bool) (s : State) → AllTended s → AllTended (run w c k x b s)
  unfolding run phase_of
  run-AllTended k x true s h = same_phases s (answered x cancelled s.desk) (λ i. refl) h
  run-AllTended k x false s h = elim (Option-cases (find_row (has_key k) s.desk.in_flight)) [
    | inl e ↦ rw (e, run) (run_new-AllTended k x s h)
    | inr (r, e) ↦ rw (e, run) (join-AllTended r.entry x s h)
  ]

  time_out-AllTended : (i : ℕ) (s : State) → AllTended s → AllTended (time_out i s)
  unfolding time_out
  time_out-AllTended i s h = elim (Option-cases (find_row (is_work i) s.executing)) [
    | inl e ↦ rw (e, time_out) h
    | inr (x, e) ↦ elim (Bool-cases x.timed_out) [
      | inl f ↦ rw (e, time_out, f) h
      | inr f ↦
          let late = record s { executing = update_rows (is_work i) (expire_work i) s.executing } in
          rw (e, time_out, f)
            (settled_off i (rejected address_provider_timeout) late (
              off_change i s late (λ k n. refl) (λ k n b. b)
                (λ k n. live-expire_work k i s.executing n) (λ k n. h k)))
    ]
  ]

  end_work-AllTended :
      (i : ℕ) (a : Ending) (s : State) → AllTended s → AllTended (end_work w c i a s)
  unfolding end_work report_end finish_work
  end_work-AllTended i a s h = elim (Option-cases (find_row (is_work i) s.executing)) [
    | inl e ↦ rw (e, end_work) h
    | inr (x, e) ↦ elim (Bool-cases x.timed_out) [
      | inl f ↦
          rw (e, end_work, f)
            (pump-AllTended (finish_work i s) (λ k.
              IsTended-map k s.queue s.queue s.executing (without_work i s.executing)
                (phase_of k s.desk) (λ b. b) (live-without_late k i s.executing e f) (h k)))
      | inr f ↦
          let free = record s { executing = without_work i s.executing; active = s.active - 1 } in
          rw (e, end_work, f)
            (pump-AllTended (finish_work i (report_end i a s)) (
              settled_off i (outcome_of a) free (
                off_change i s free (λ k n. refl) (λ k n b. b)
                  (λ k n. live-without_other k i s.executing n) (λ k n. h k))))
    ]
  ]

  expire-AllTended : (i : ℕ) (s : State) → AllTended s → AllTended (expire w c i s)
  unfolding expire
  expire-AllTended i s h = elim (Bool-cases (is_queued (phase_of i s.desk))) [
    | inl e ↦ rw e (
        pump-AllTended (give_up i queue_expired (record s { queue = unqueue i s.queue })) (
          settled_off i (rejected queue_expired) (record s { queue = unqueue i s.queue })
            (unqueue_off i s h)))
    | inr e ↦ rw e h
  ]

  handle-AllTended : (e : Event) (s : State) → AllTended s → AllTended (handle w c e s)
  unfolding handle
  handle-AllTended (request k x b) s h = run-AllTended k x b s h
  handle-AllTended (abort i x) s h = abort-AllTended i x s h
  handle-AllTended (expiry_timer i) s h = expire-AllTended i s h
  handle-AllTended spacing_timer s h = elim (Bool-cases s.spacing_armed) [
    | inl e ↦ simp e (pump-AllTended (record s { spacing_armed = false }) h)
    | inr e ↦ simp e h
  ]
  handle-AllTended (timeout_timer i) s h = time_out-AllTended i s h
  handle-AllTended (work_ends i a) s h = end_work-AllTended i a s h

  pub handle_all-AllTended :
      (es : List Event) (s : State) → AllTended s → AllTended (handle_all w c es s)
  unfolding handle_all
  handle_all-AllTended [] s h = h
  handle_all-AllTended (e ∷ es) s h =
      handle_all-AllTended es (handle w c e s) (handle-AllTended e s h)

  pub idle-AllTended : AllTended idle
  unfolding phase_of get_elem?
  idle-AllTended i = tt
