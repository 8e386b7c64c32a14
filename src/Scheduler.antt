-- ===== src/Scheduler.antt =====
-- The backup scheduler: backend/src/operations/scheduler.ts. Times are milliseconds since 1970;
-- a slot is named by the time at which it falls due. Run ids are numbers.
pub mod Slots
pub mod Journal
pub mod Attempts
mod Tests
use Prim.Native.String.{String}
use public_lighting_fault_re.Base.{
  ℕ, zero, suc, ◌+◌, ◌-◌, ◌*◌, ◌/◌, ◌%◌, Bool, true, false, not, ◌&&◌, ◌||◌, Option, none, some,
  List, [], ◌∷◌, ◌++◌, ltb, leb, ◌==◌, if◌then◌else◌, any, length,
}

abbrev pub hour_ms : ℕ
hour_ms = 3_600_000

abbrev pub day_ms : ℕ
day_ms = 86_400_000

abbrev pub retry_delay_ms : ℕ
retry_delay_ms = 15 * 60 * 1000

abbrev pub max_attempts : ℕ
max_attempts = 2

-- BACKUP_SCHEDULE_UTC_HOURS, reversed as `latestDueBackupSlot` reads it.
abbrev pub hours_reversed : List ℕ
hours_reversed = 18 ∷ 12 ∷ 6 ∷ 0 ∷ []

abbrev pub find_hour : ℕ → List ℕ → Option ℕ
find_hour h [] = none
find_hour h (c ∷ cs) = if leb c h then some c else find_hour h cs

-- `latestDueBackupSlot`; `none` is the thrown `scheduler_slot_not_found`.
unfoldable pub latest_due_backup_slot : ℕ → Option ℕ
latest_due_backup_slot now = elim (find_hour (now / hour_ms % 24) hours_reversed) [
  | none ↦ none
  | some h ↦ some (now / day_ms * day_ms + h * hour_ms)
]

pub data BackupState : Type 0 where
  complete incomplete skipped_overlapping blocked_by_migration preflight_rejected : BackupState

pub record BackupResult : Type 0 where
  pub run_id : ℕ
  pub state : BackupState
  pub exit_code : ℕ
  pub reason_code : String

pub record Started : Type 0 where
  pub slot_id : ℕ
  pub attempt : ℕ
  pub run_id : ℕ
  pub started_at : ℕ

pub record Finished : Type 0 where
  pub slot_id : ℕ
  pub attempt : ℕ
  pub run_id : ℕ
  pub finished_at : ℕ
  pub state : BackupState
  pub exit_code : ℕ
  pub reason_code : String
  pub retry_at : Option ℕ
  pub backup_result : Option BackupResult

pub data Event : Type 0 where
  attempt_started : Started → Event
  attempt_finished : Finished → Event

pub data Invocation : Type 0 where
  attempted :
      (slot attempt : ℕ)
      → BackupState
      → (exit_code : ℕ) → Option ℕ
      → Option BackupResult
      → Invocation
  already_final : (slot : ℕ) → BackupState → (exit_code : ℕ) → Invocation
  skipped : (slot : ℕ) → Invocation
  retry_not_due : (slot : ℕ) → BackupState → (retry_at : ℕ) → Invocation
  no_due_slot : Invocation

abbrev pub is_retryable : BackupState → Bool
is_retryable incomplete = true
is_retryable blocked_by_migration = true
is_retryable _ = false

abbrev pub is_complete : BackupState → Bool
is_complete complete = true
is_complete _ = false

-- `finishedForSlot`
unfoldable pub finished_for_slot : ℕ → List Event → List Finished
finished_for_slot slot [] = []
finished_for_slot slot (attempt_started s ∷ es) = finished_for_slot slot es
finished_for_slot slot (attempt_finished f ∷ es) =
    let rest = finished_for_slot slot es in if f.slot_id == slot then f ∷ rest else rest

abbrev pub is_finish_of : ℕ → Event → Bool
is_finish_of run (attempt_started s) = false
is_finish_of run (attempt_finished f) = f.run_id == run

unfoldable pub starts_open : List Event → List Event → List Started
starts_open all_events [] = []
starts_open all_events (attempt_finished f ∷ es) = starts_open all_events es
starts_open all_events (attempt_started s ∷ es) =
    let rest = starts_open all_events es in
    if any (is_finish_of s.run_id) all_events then rest else s ∷ rest

-- `startedWithoutFinish`
unfoldable pub started_without_finish : List Event → List Started
unfolding starts_open
started_without_finish events = starts_open events events

abbrev pub last_of : List Finished → Option Finished
last_of [] = none
last_of (f ∷ []) = some f
last_of (f ∷ g ∷ fs) = last_of (g ∷ fs)

-- The event that reconciles an abandoned attempt.
abbrev pub reconciled : ℕ → Started → Event
reconciled now s = attempt_finished (record {
  slot_id = s.slot_id;
  attempt = s.attempt;
  run_id = s.run_id;
  finished_at = now;
  state = incomplete;
  exit_code = 1;
  reason_code = "scheduler_crash_reconciled";
  retry_at = if ltb s.attempt max_attempts then some (s.started_at + retry_delay_ms) else none;
  backup_result = none;
})

-- The loop that appends them; `clock n` is the n-th reading of `now()`.
unfoldable pub reconcile : (ℕ → ℕ) → ℕ → List Started → List Event
reconcile clock n [] = []
reconcile clock n (s ∷ ss) = reconciled (clock n) s ∷ reconcile clock (n + 1) ss

-- What `executeBackup` is taken for: `none` where it threw, or answered for another run.
abbrev pub checked_result : ℕ → Option BackupResult → Option BackupResult
checked_result run none = none
checked_result run (some r) = if r.run_id == run then some r else none

abbrev pub finish_of : (slot attempt run now : ℕ) → Option BackupResult → Finished
finish_of slot attempt run now none = record {
  slot_id = slot;
  attempt = attempt;
  run_id = run;
  finished_at = now;
  state = incomplete;
  exit_code = 1;
  reason_code = "scheduler_executor_failed";
  retry_at = if ltb attempt max_attempts then some (now + retry_delay_ms) else none;
  backup_result = none;
}
finish_of slot attempt run now (some r) = record {
  slot_id = slot;
  attempt = attempt;
  run_id = run;
  finished_at = now;
  state = r.state;
  exit_code = r.exit_code;
  reason_code = r.reason_code;
  retry_at =
      if ltb attempt max_attempts && is_retryable r.state
      then some (now + retry_delay_ms)
      else none;
  backup_result = some r;
}

-- The two appends around `executeBackup`, and the invocation's result. `run` is the new run id
-- with the verdict of its pattern; a bad one throws (`none`) before anything is appended.
unfoldable pub make_attempt :
    (slot attempt : ℕ) (run : ℕ × Bool)
    → Option BackupResult
    → (started finished : ℕ) → List Event
    → List Event × Option Invocation
make_attempt slot attempt (run, false) outcome started finished journal = (journal, none)
make_attempt slot attempt (run, true) outcome started finished journal =
    let f = finish_of slot attempt run finished (checked_result run outcome) in
    (
      journal
          ++ (attempt_started
                (record { slot_id = slot; attempt = attempt; run_id = run; started_at = started })
              ∷ attempt_finished f
              ∷ []),
      some (attempted slot attempt f.state f.exit_code f.retry_at f.backup_result),
    )

abbrev pub retry_time : Finished → ℕ
retry_time f = elim f.retry_at [ none ↦ f.finished_at + retry_delay_ms | some t ↦ t ]

abbrev pub is_final : Finished → Bool
is_final f = is_complete f.state || leb max_attempts f.attempt || not (is_retryable f.state)

-- From the finishes of the slot on: the decision, and the attempt if one is due.
unfoldable pub decide :
    (ℕ → ℕ)
    → ℕ
    → (slot : ℕ) → Option Finished
    → ℕ × Bool
    → Option BackupResult
    → List Event
    → List Event × Option Invocation
unfolding make_attempt
decide clock n slot none run outcome journal =
    make_attempt slot 1 run outcome (clock (n + 1)) (clock (n + 2)) journal
decide clock n slot (some f) run outcome journal =
    if is_final f
    then (journal, some (already_final slot f.state f.exit_code))
    else if ltb (clock n) (retry_time f)
    then (journal, some (retry_not_due slot f.state (retry_time f)))
    else make_attempt slot (f.attempt + 1) run outcome (clock (n + 1)) (clock (n + 2)) journal

-- `runScheduledBackupUnderLock`
unfoldable pub run_under_lock :
    (ℕ → ℕ) → ℕ × Bool → Option BackupResult → List Event → List Event × Option Invocation
unfolding decide reconcile started_without_finish finished_for_slot latest_due_backup_slot
run_under_lock clock run outcome journal =
    let open_starts = started_without_finish journal in
    let journal' = journal ++ reconcile clock 1 open_starts in
    let n = length open_starts + 1 in
    elim (latest_due_backup_slot (clock n)) [
      | none ↦ (journal', none)
      | some slot ↦
          decide clock n slot (last_of (finished_for_slot slot journal')) run outcome journal'
    ]

-- `runScheduledBackup`: `locked` says whether the advisory lock was free; the first reading of the
-- clock names the slot of a skipped run.
unfoldable pub run_scheduled_backup :
    (ℕ → ℕ)
    → (locked : Bool) → ℕ × Bool
    → Option BackupResult
    → List Event
    → List Event × Option Invocation
unfolding run_under_lock
run_scheduled_backup clock locked run outcome journal = elim (latest_due_backup_slot (clock 0)) [
  | none ↦ (journal, none)
  | some slot ↦
      if locked then run_under_lock clock run outcome journal else (journal, some (skipped slot))
]

abbrev pub OperationsState : Type 0
OperationsState = BackupState

-- `schedulerStateForOperations`
abbrev pub scheduler_state_for_operations : Invocation → OperationsState
scheduler_state_for_operations no_due_slot = complete
scheduler_state_for_operations (already_final slot st code) = st
scheduler_state_for_operations (skipped slot) = skipped_overlapping
scheduler_state_for_operations (retry_not_due slot st at) = st
scheduler_state_for_operations (attempted slot attempt st code retry_at r) = st
