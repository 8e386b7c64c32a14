-- ===== src/Suggest/Tests.antt =====
-- Runs of the address suggestions' queue, and its theorems at concrete inputs.
use public_lighting_fault_re.Base.{
  ◌+◌, ◌≤◌, ◌≡◌, refl, true, false, none, some, List, [], ◌∷◌, All, arith, length,
}
use public_lighting_fault_re.Base.Tables.{find_row, delete_rows, count_rows, update_rows}
use public_lighting_fault_re.Base.Cells.{get_elem?, modify}
use public_lighting_fault_re.Suggest.{Settings, Outside, State, idle, are_valid_settings}
use public_lighting_fault_re.Suggest.Admission.{phase_of, expiry_of, settle, pump_loop}
use public_lighting_fault_re.Suggest.Events.{
  Event, request, abort, timeout_timer, work_ends, value, open_entry, without, handle_all,
}
use public_lighting_fault_re.Suggest.Slots.{IsWithin, handle_all-IsWithin}
use public_lighting_fault_re.Suggest.Starts.{IsPaced, handle_all-IsPaced}
use public_lighting_fault_re.Suggest.Budget.{calls_on, handle_all-budget}
use public_lighting_fault_re.Suggest.Pending.{handle_all-queue_capacity}
use public_lighting_fault_re.Suggest.Sound.{pump_ends_after}
use public_lighting_fault_re.Suggest.Held.{tally, IsHeld, IsClean}
use public_lighting_fault_re.Suggest.Tended.{AllTended}
use public_lighting_fault_re.Suggest.Requests.{requests, handle_all-tally}

abbrev settings : Settings
settings = record {
  max_pending = 1;
  max_active = 1;
  queue_expiry_ms = 5000;
  timeout_ms = 500;
  min_start_interval_ms = 0;
  daily_budget = some 1;
}

abbrev outside : Outside
outside = record { clock = λ n. 1000 + n; admit = none; try_consume_budget = none }

-- Two requests for one key, one for another that waits, and one that finds the queue full; the
-- first is given up on, its provider answers late, and the second is out of the day's budget.
abbrev events : List Event
events =
    request 7 1 false
    ∷ request 7 2 false
    ∷ request 8 3 false
    ∷ request 9 4 false
    ∷ request 9 5 true
    ∷ abort 0 2
    ∷ timeout_timer 0
    ∷ work_ends 0 (value 5)
    ∷ []

abbrev first_events : List Event
first_events = request 7 1 false ∷ request 8 3 false ∷ []

abbrev end_state : State
end_state = handle_all outside settings events idle

are_valid : are_valid_settings settings 0 0 false ≡ true
unfolding are_valid_settings
are_valid = refl

counted :
    (end_state.counters.accepted ≡ 2)
    × (end_state.counters.coalesced ≡ 1)
    × (end_state.counters.rejected_count ≡ 2)
    × (end_state.counters.timeout ≡ 1)
    × (end_state.active ≡ 0)
    × (length end_state.desk.answers ≡ 5)
unfolding handle_all find_row delete_rows update_rows count_rows get_elem? modify expiry_of without
    settle
counted = (refl, refl, refl, refl, refl, refl)

handle_all-IsWithin_example : IsWithin outside settings 0 (handle_all outside settings events idle)
handle_all-IsWithin_example = handle_all-IsWithin outside settings events

handle_all-queue_capacity_example : length (handle_all outside settings events idle).queue ≤ 1
handle_all-queue_capacity_example =
    handle_all-queue_capacity outside settings (λ m n l. omega arith) events

handle_all-IsPaced_example : IsPaced settings (handle_all outside settings events idle)
handle_all-IsPaced_example = handle_all-IsPaced outside settings (λ m n l. omega arith) events

handle_all-budget_example : calls_on 0 (handle_all outside settings events idle).started ≤ 1
handle_all-budget_example =
    handle_all-budget outside settings 1 (λ m n l. omega arith) refl refl events 0

handle_all-tally_example :
    (tally (handle_all outside settings events idle).desk ≡ requests events)
    × All
        (IsHeld (handle_all outside settings events idle).desk.entries)
        (handle_all outside settings events idle).desk.in_flight
    × All IsClean (handle_all outside settings events idle).desk.entries
    × AllTended (handle_all outside settings events idle)
handle_all-tally_example = handle_all-tally outside settings events

pump_ends_after_example :
    (pump_loop outside settings 3 (handle_all outside settings first_events idle)).1 ≡ true
unfolding handle_all find_row delete_rows update_rows count_rows get_elem? modify expiry_of without
    settle open_entry phase_of
pump_ends_after_example = pump_ends_after outside settings first_events 3 (omega arith)
