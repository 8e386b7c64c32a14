-- ===== src/Suggest/Admission.antt =====
-- The controller's operations: `settle`, `pump`, `subscribe` and the rest.
use public_lighting_fault_re.Base.{
  ℕ, zero, suc, ◌+◌, ◌-◌, ◌/◌, Bool, true, false, Option, none, some, List, [], ◌∷◌, ◌++◌, ltb, leb,
  ◌==◌, if◌then◌else◌, length, ◌&&◌,
}
use public_lighting_fault_re.Base.Tables.{delete_rows}
use public_lighting_fault_re.Base.Cells.{get_elem?, modify}
use public_lighting_fault_re.Suggest.{
  Settings, Outside, Phase, starting, running, settled, is_settled, is_queued, Failure,
  queue_expired, daily_budget_exceeded, Outcome, rejected, Answer, Entry, Ref, Counters, Desk,
  State,
}

abbrev pub in_phase : Phase → Entry → Entry
in_phase p e = record e { phase = p }

abbrev pub emptied : Entry → Entry
emptied e = record e { subscribers = []; phase = settled }

-- `this.inFlight.get(entry.key) === entry`, and the entry is deleted.
abbrev is_ref : ℕ → ℕ → Ref → Bool
is_ref k i r = r.key == k && r.entry == i

unfoldable pub release : ℕ → ℕ → List Ref → List Ref
release k i refs = delete_rows (is_ref k i) refs

abbrev pub answers_to : Outcome → List ℕ → List Answer
answers_to o [] = []
answers_to o (x ∷ xs) = (record { subscriber = x; outcome = o }) ∷ answers_to o xs

unfoldable pub settle_entry : ℕ → Outcome → Entry → Desk → Desk
unfolding modify
settle_entry i o e d = record {
  entries = modify emptied i d.entries;
  in_flight = release e.key i d.in_flight;
  answers = d.answers ++ answers_to o e.subscribers;
}

-- `settle` on the entry `i`.
unfoldable pub settle : ℕ → Outcome → Desk → Desk
unfolding get_elem? settle_entry
settle i o d = elim (get_elem? d.entries i) [
  | none ↦ d
  | some e ↦ if is_settled e.phase then d else settle_entry i o e d
]

unfoldable pub phase_of : ℕ → Desk → Phase
unfolding get_elem?
phase_of i d = elim (get_elem? d.entries i) [ none ↦ settled | some e ↦ e.phase ]

unfoldable pub expiry_of : ℕ → Desk → ℕ
unfolding get_elem?
expiry_of i d = elim (get_elem? d.entries i) [ none ↦ 0 | some e ↦ e.expires_at ]

abbrev pub set_phase : Phase → ℕ → Desk → Desk
set_phase p i d = record d { entries = modify (in_phase p) i d.entries }

abbrev pub one_rejected : Counters → Counters
one_rejected c = record c { rejected_count = c.rejected_count + 1 }

-- `queue.indexOf(entry)` and `splice`.
unfoldable pub unqueue : ℕ → List ℕ → List ℕ
unqueue i [] = []
unqueue i (j ∷ q) = let rest = unqueue i q in if j == i then q else j ∷ rest

-- `settle` with an error, and the count of what was rejected.
abbrev pub give_up : ℕ → Failure → State → State
give_up i f s = record s { desk = settle i (rejected f) s.desk; counters = one_rejected s.counters }

-- `expireQueued`, without the call of `pump` at its end.
unfoldable pub expire_queued : ℕ → State → State
unfolding unqueue
expire_queued i s =
    if is_queued (phase_of i s.desk)
    then give_up i queue_expired (record s { queue = unqueue i s.queue })
    else s

abbrev ms_per_day : ℕ
ms_per_day = 86_400_000

-- The first ten characters of the time's ISO text, as a number of days.
abbrev pub day_of : ℕ → ℕ
day_of t = t / ms_per_day

abbrev pub same_day : Option ℕ → ℕ → Bool
same_day none d = false
same_day (some c) d = c == d

-- Each operation takes its readings of the clock in the order of the program's calls, and leaves
-- `calls` after the last that it may make.
abbrev pub reading : Outside → ℕ → State → ℕ
reading w n s = w.clock (s.calls + n)

abbrev pub spend : ℕ → State → State
spend n s = record s { calls = s.calls + n }

-- The entry `i`, the head of the queue, gets a slot.
abbrev pub dequeue : ℕ → List ℕ → State → State
dequeue i rest s = record s {
  desk = set_phase starting i s.desk;
  queue = rest;
  active = s.active + 1;
}

module _ (w : Outside) (c : Settings) where
  -- The settings' own budget for the day.
  abbrev pub reserve_daily : Option ℕ → State → State × Bool
  reserve_daily none s = (s, true)
  reserve_daily (some budget) s =
      let today = day_of (reading w 0 s) in
      let used = if same_day s.budget_date today then s.budget_used else 0 in
      if ltb used budget
      then (record (spend 1 s) { budget_date = some today; budget_used = used + 1 }, true)
      else (record (spend 1 s) { budget_date = some today; budget_used = used }, false)

  abbrev pub allowed : Option Bool → Bool
  allowed none = false
  allowed (some b) = b

  -- The reservation immediately before the provider is called; where the policy throws, it fails.
  unfoldable pub reserve : State → State × Bool
  reserve s = elim w.try_consume_budget [
    | some f ↦ (spend 1 s, allowed (f s.calls))
    | none ↦ reserve_daily c.daily_budget s
  ]

  -- The provider is called for the entry `i`.
  unfoldable pub launch : ℕ → State → State
  launch i s = record (spend 1 s) {
    desk = set_phase running i s.desk;
    next_start_at = reading w 0 s + c.min_start_interval_ms;
    executing = (record { entry = i; timed_out = false }) ∷ s.executing;
    started = (record { at_time = reading w 0 s; on_day = s.budget_date }) ∷ s.started;
  }

  -- The entry `i` has left the queue and holds a slot: what `pump` does with it.
  unfoldable pub try_launch : ℕ → State → State
  unfolding reserve launch
  try_launch i s =
      if leb (expiry_of i s.desk) (reading w 0 s)
      then give_up i queue_expired (record (spend 1 s) { active = s.active - 1 })
      else (let (s', ok) = reserve (spend 1 s) in
          if ok
          then launch i s'
          else give_up i daily_budget_exceeded (record s' { active = s'.active - 1 }))

  -- One turn of the loop of `pump` on the head of the queue, and whether the loop goes on.
  unfoldable pub pump_head : ℕ → List ℕ → State → State × Bool
  unfolding try_launch
  pump_head i rest s =
      if leb (expiry_of i s.desk) (reading w 0 s)
      then (expire_queued i (spend 1 s), true)
      else if ltb (reading w 1 s) s.next_start_at
      then (record (spend 2 s) { spacing_armed = true }, false)
      else (try_launch i (dequeue i rest (spend 2 s)), true)

  unfoldable pub pump_turn : List ℕ → State → State × Bool
  unfolding pump_head
  pump_turn [] s = (s, false)
  pump_turn (i ∷ rest) s = if ltb s.active c.max_active then pump_head i rest s else (s, false)

  -- The loop of `pump`, with whether it came to its end.
  unfoldable pub pump_loop : ℕ → State → State × Bool
  unfolding pump_turn
  pump_loop zero s = (s, false)
  pump_loop (suc fuel) s =
      let (s', more) = pump_turn s.queue s in
      let rest = pump_loop fuel s' in if more then rest else (s', true)

  -- `pump`, where no other is running; each turn that goes on takes an entry off the queue.
  unfoldable pub pump : State → State
  unfolding pump_loop
  pump s = (pump_loop (suc (length s.queue)) s).0
