-- ===== src/Suggest.antt =====
-- `BoundedAdmissionController` (backend/src/services/reportAddressSuggestion.service.ts): the state
-- of the address suggestions' queue. An entry, which the program reaches by reference, is a cell of
-- `entries`, and its reference is the position of the cell. The map `inFlight` is a list of keys and
-- references. `executing` holds the calls of `executeEntry` that have not come to their `finally`;
-- `started` and `answers` record what went out: the times of the provider's calls with their day,
-- and the answers to the requests.
pub mod Admission
pub mod Events
pub mod Queue
pub mod Rules
pub mod Slots
pub mod Busy
pub mod Order
pub mod Sound
pub mod Held
pub mod Answers
pub mod Tally
pub mod Requests
pub mod Tended
pub mod Pending
mod Tests
pub mod Budget
pub mod Starts
use public_lighting_fault_re.Base.{
  ℕ, ◌+◌, ◌-◌, ◌^◌, Bool, true, false, Option, none, some, List, [], leb, ◌==◌, ◌&&◌, ◌||◌, not,
}

-- The numbers are the safe integers that `validateSettings` lets through.
pub record Settings : Type 0 where
  pub max_pending : ℕ
  pub max_active : ℕ
  pub queue_expiry_ms : ℕ
  pub timeout_ms : ℕ
  pub min_start_interval_ms : ℕ
  pub daily_budget : Option ℕ

-- What the controller asks of the outside: the n-th call of the clock, of `admit` and of
-- `tryConsumeBudget`, which answers `none` when it throws.
pub record Outside : Type 0 where
  pub clock : ℕ → ℕ
  pub admit : Option (ℕ → Bool)
  pub try_consume_budget : Option (ℕ → Option Bool)

pub data Phase : Type 0 where
  queued starting running settled : Phase

abbrev pub is_settled : Phase → Bool
is_settled settled = true
is_settled _ = false

abbrev pub is_queued : Phase → Bool
is_queued queued = true
is_queued _ = false

-- The errors by their codes.
pub data Failure : Type 0 where
  cancelled admission_rejected queue_full queue_expired daily_budget_exceeded : Failure
  address_provider_timeout provider_unavailable : Failure
  provider_error : ℕ → Failure

pub data Outcome : Type 0 where
  resolved : ℕ → Outcome
  rejected : Failure → Outcome

-- The answer to a subscriber.
pub record Answer : Type 0 where
  pub subscriber : ℕ
  pub outcome : Outcome

pub record Entry : Type 0 where
  pub key : ℕ
  pub subscribers : List ℕ
  pub expires_at : ℕ
  pub phase : Phase

pub record Ref : Type 0 where
  pub key : ℕ
  pub entry : ℕ

-- A call of `executeEntry`, with its local `timedOut`.
pub record Work : Type 0 where
  pub entry : ℕ
  pub timed_out : Bool

pub record Counters : Type 0 where
  pub accepted : ℕ
  pub rejected_count : ℕ
  pub coalesced : ℕ
  pub timeout : ℕ
  pub provider_failure : ℕ

-- The entries and what `settle` changes.
pub record Desk : Type 0 where
  pub entries : List Entry
  pub in_flight : List Ref
  pub answers : List Answer

pub record Start : Type 0 where
  pub at_time : ℕ
  pub on_day : Option ℕ

pub record State : Type 0 where
  pub desk : Desk
  pub queue : List ℕ
  pub executing : List Work
  pub active : ℕ
  pub next_start_at : ℕ
  pub spacing_armed : Bool
  pub budget_date : Option ℕ
  pub budget_used : ℕ
  pub counters : Counters
  pub calls : ℕ
  pub started : List Start

abbrev pub no_counters : Counters
no_counters = record {
  accepted = 0;
  rejected_count = 0;
  coalesced = 0;
  timeout = 0;
  provider_failure = 0;
}

abbrev pub idle : State
idle = record {
  desk = record { entries = []; in_flight = []; answers = [] };
  queue = [];
  executing = [];
  active = 0;
  next_start_at = 0;
  spacing_armed = false;
  budget_date = none;
  budget_used = 0;
  counters = no_counters;
  calls = 0;
  started = [];
}

-- `isSafeIntegerAtLeast` on a whole number.
abbrev is_safe_at_least : ℕ → ℕ → Bool
is_safe_at_least n least = leb n (2 ^ 53 - 1) && leb least n

-- `validateSettings`, over whole numbers, with whether the provider's identifier is blank.
unfoldable pub are_valid_settings : Settings → (max_entries ttl_ms : ℕ) → (blank_id : Bool) → Bool
are_valid_settings c max_entries ttl_ms blank_id =
    not (
      blank_id
      || not (is_safe_at_least c.max_pending 0)
      || not (is_safe_at_least c.max_active 1)
      || not (is_safe_at_least c.queue_expiry_ms 1)
      || not (is_safe_at_least c.timeout_ms 1)
      || not (is_safe_at_least c.min_start_interval_ms 0))
    && not (
        not (is_safe_at_least max_entries 0)
        || not (is_safe_at_least ttl_ms 0)
        || not (max_entries == 0)
        || not (ttl_ms == 0))
