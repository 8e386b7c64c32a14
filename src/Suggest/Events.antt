-- ===== src/Suggest/Events.antt =====
-- What the controller is called with: a request, an abort, the timers and the end of the provider's
-- work. Each handler runs to its end before the next event.
use public_lighting_fault_re.Base.{
  ℕ, ◌+◌, ◌-◌, Bool, true, false, none, some, List, [], ◌∷◌, ◌++◌, leb, ltb, ◌==◌, if◌then◌else◌,
  length, ◌&&◌, ◌||◌, not, any,
}
use public_lighting_fault_re.Base.Tables.{find_row, update_rows}
use public_lighting_fault_re.Base.Cells.{get_elem?, modify}
use public_lighting_fault_re.Suggest.{
  Settings, Outside, queued, is_settled, is_queued, settled, Failure, cancelled, admission_rejected,
  queue_full, address_provider_timeout, provider_unavailable, Outcome, resolved, rejected, Entry,
  Ref, Counters, Desk, State, Work,
}
use public_lighting_fault_re.Suggest.Admission.{
  in_phase, release, settle, phase_of, one_rejected, unqueue, expire_queued, reading, spend, pump,
}

-- How the provider's work ends: with a value, with none, or with the error that
-- `publicProviderError` makes of what was thrown.
pub data Ending : Type 0 where
  value : ℕ → Ending
  nothing : Ending
  thrown : Failure → Ending

-- A request is named by its subscriber; `abort` and the timers hold a reference to the entry.
pub data Event : Type 0 where
  request : (key subscriber : ℕ) → (aborted : Bool) → Event
  abort : (entry subscriber : ℕ) → Event
  expiry_timer : ℕ → Event
  spacing_timer : Event
  timeout_timer : ℕ → Event
  work_ends : ℕ → Ending → Event

abbrev pub has_key : ℕ → Ref → Bool
has_key k r = r.key == k

abbrev pub is_work : ℕ → Work → Bool
is_work i x = x.entry == i

abbrev pub answered : ℕ → Failure → Desk → Desk
answered x f d = record d {
  answers = d.answers ++ ((record { subscriber = x; outcome = rejected f }) ∷ []);
}

abbrev pub joined : ℕ → Entry → Entry
joined x e = record e { subscribers = e.subscribers ++ (x ∷ []) }

-- `subscribe`, where the signal is not aborted.
unfoldable pub subscribe : ℕ → ℕ → Desk → Desk
unfolding modify
subscribe i x d = record d { entries = modify (joined x) i d.entries }

-- The new entry of `run`, entered in the map, with its first subscriber.
unfoldable pub open_entry : (key expires_at subscriber : ℕ) → Desk → Desk
unfolding subscribe
open_entry k t x d =
    let i = length d.entries in
    subscribe i x (record d {
      entries =
          d.entries
          ++ ((record { key = k; subscribers = []; expires_at = t; phase = queued }) ∷ []);
      in_flight = (record { key = k; entry = i }) ∷ d.in_flight;
    })

-- `entry.subscribers.delete(subscriber)`
unfoldable pub without : ℕ → List ℕ → List ℕ
without x [] = []
without x (y ∷ ys) = let rest = without x ys in if y == x then ys else y ∷ rest

abbrev pub is_same : ℕ → ℕ → Bool
is_same x y = y == x

abbrev pub left : ℕ → Entry → Entry
left x e = record e { subscribers = without x e.subscribers }

-- The list without one call of `executeEntry` for the entry `i`.
unfoldable pub without_work : ℕ → List Work → List Work
without_work i [] = []
without_work i (x ∷ xs) = let rest = without_work i xs in if x.entry == i then xs else x ∷ rest

-- That call comes to its `finally`.
unfoldable pub finish_work : ℕ → State → State
unfolding without_work
finish_work i s = record s { executing = without_work i s.executing; active = s.active - 1 }

abbrev pub outcome_of : Ending → Outcome
outcome_of (value v) = resolved v
outcome_of nothing = rejected provider_unavailable
outcome_of (thrown f) = rejected f

abbrev pub count_failure : Counters → Counters
count_failure c = record c { provider_failure = c.provider_failure + 1 }

abbrev pub count_timeout : Counters → Counters
count_timeout c = record c { timeout = c.timeout + 1 }

abbrev pub is_thrown : Ending → Bool
is_thrown (thrown f) = true
is_thrown _ = false

-- What `executeEntry` does when the provider's work ends in time.
unfoldable pub report_end : ℕ → Ending → State → State
report_end i a s = record s {
  desk = settle i (outcome_of a) s.desk;
  counters =
      if is_thrown a && not (is_settled (phase_of i s.desk))
      then count_failure s.counters
      else s.counters;
}

abbrev pub expire_work : ℕ → Work → Work
expire_work i x = record x { timed_out = true }

-- The timer of `executeEntry`: the subscribers are answered, and the slot stays held.
unfoldable pub time_out : ℕ → State → State
time_out i s = elim (find_row (is_work i) s.executing) [
  | none ↦ s
  | some x ↦ if x.timed_out then s else record s {
    desk = settle i (rejected address_provider_timeout) s.desk;
    counters = count_timeout s.counters;
    executing = update_rows (is_work i) (expire_work i) s.executing;
  }
]

module _ (w : Outside) (c : Settings) where
  -- Whether `admit` lets the request in, and the readings that follow.
  abbrev pub is_admitted : State → Bool
  is_admitted s = elim w.admit [ none ↦ true | some f ↦ f s.calls ]

  abbrev pub can_start : State → Bool
  can_start s =
      ltb s.active c.max_active && length s.queue == 0 && leb s.next_start_at (reading w 1 s)

  abbrev pub refuse : ℕ → Failure → State → State
  refuse x f s = record s { desk = answered x f s.desk; counters = one_rejected s.counters }

  -- A new entry at the end of the queue, before `pump` is called.
  unfoldable pub enqueue : ℕ → ℕ → State → State
  unfolding open_entry
  enqueue k x s = record (spend 3 s) {
    desk = open_entry k (reading w 2 s + c.queue_expiry_ms) x s.desk;
    queue = s.queue ++ (length s.desk.entries ∷ []);
    counters = record s.counters { accepted = s.counters.accepted + 1 };
  }

  -- `run` for a key that is not in flight.
  unfoldable pub run_new : ℕ → ℕ → State → State
  unfolding enqueue pump
  run_new k x s =
      if is_admitted s
      then if not (can_start s) && leb c.max_pending (length s.queue)
        then refuse x queue_full (spend 2 s)
        else pump w c (enqueue k x s)
      else refuse x admission_rejected (spend 1 s)

  abbrev pub join : ℕ → ℕ → State → State
  join i x s = record s {
    desk = subscribe i x s.desk;
    counters = record s.counters { coalesced = s.counters.coalesced + 1 };
  }

  -- `run`
  unfoldable pub run : ℕ → ℕ → Bool → State → State
  unfolding run_new
  run k x true s = record s { desk = answered x cancelled s.desk }
  run k x false s = elim (find_row (has_key k) s.desk.in_flight) [
    | some r ↦ join r.entry x s
    | none ↦ run_new k x s
  ]

  -- The part of `cancelWhenUnobserved` that drops the entry `i`.
  unfoldable pub drop_entry : ℕ → Entry → State → State
  unfolding release unqueue
  drop_entry i e s = record s {
    desk = record s.desk {
      entries = modify (in_phase settled) i s.desk.entries;
      in_flight = release e.key i s.desk.in_flight;
    };
    queue = if is_queued e.phase then unqueue i s.queue else s.queue;
  }

  -- `cancelWhenUnobserved` on the entry `i`, which is `e` with the subscribers that are left.
  unfoldable pub cancel_when_unobserved : ℕ → Entry → State → State
  unfolding drop_entry pump
  cancel_when_unobserved i e s =
      if not (length e.subscribers == 0) || is_settled e.phase
      then s
      else pump w c (drop_entry i e s)

  abbrev pub leave : ℕ → ℕ → State → State
  leave i x s = record s {
    desk = answered x cancelled (record s.desk { entries = modify (left x) i s.desk.entries });
  }

  -- The `abortHandler` of the subscriber `x` of the entry `i`.
  unfoldable pub abort_subscriber : ℕ → ℕ → State → State
  unfolding cancel_when_unobserved get_elem?
  abort_subscriber i x s = elim (get_elem? s.desk.entries i) [
    | none ↦ s
    | some e ↦
        if any (is_same x) e.subscribers
        then cancel_when_unobserved i (left x e) (leave i x s)
        else s
  ]

  -- The end of the work of the entry `i`: what was not answered in time is answered, and the slot
  -- is free.
  unfoldable pub end_work : ℕ → Ending → State → State
  unfolding finish_work report_end pump
  end_work i a s = elim (find_row (is_work i) s.executing) [
    | none ↦ s
    | some x ↦
        if x.timed_out
        then pump w c (finish_work i s)
        else pump w c (finish_work i (report_end i a s))
  ]

  -- The timer of a queued entry.
  unfoldable pub expire : ℕ → State → State
  unfolding expire_queued pump
  expire i s = if is_queued (phase_of i s.desk) then pump w c (expire_queued i s) else s

  unfoldable pub handle : Event → State → State
  unfolding run abort_subscriber expire pump time_out end_work
  handle (request k x aborted) s = run k x aborted s
  handle (abort i x) s = abort_subscriber i x s
  handle (expiry_timer i) s = expire i s
  handle spacing_timer s =
      if s.spacing_armed then pump w c (record s { spacing_armed = false }) else s
  handle (timeout_timer i) s = time_out i s
  handle (work_ends i a) s = end_work i a s

  unfoldable pub handle_all : List Event → State → State
  unfolding handle
  handle_all [] s = s
  handle_all (e ∷ es) s = handle_all es (handle e s)
