-- ===== src/Monitoring.antt =====
-- The monitoring checks: backend/src/operations/monitoring.ts. Times are milliseconds since 1970, so
-- their pattern test and that of the build identity are not in the model; an age is compared in
-- milliseconds. The texts of thresholds and next steps are left out.
pub mod Quiet
mod Tests
use public_lighting_fault_re.Base.{
  ℕ, ◌-◌, ◌*◌, Bool, true, false, not, ◌&&◌, ◌||◌, Option, none, some, List, [], ◌∷◌, ◌++◌, ltb,
  leb, if◌then◌else◌, any, is_none,
}

-- `MonitoringSeverity`
pub data Severity : Type 0 where
  info warning critical unknown : Severity

pub data EvidenceClass : Type 0 where
  target_class synthetic_ci : EvidenceClass

pub data Check : Type 0 where
  recovery_verified_backup_age backup_final_failure restore_drill_evidence_missing restore_drill_age
        retention_run retention_backlog retention_last_success database_availability
        migration_failure cpu_observation memory_observation free_disk_observation :
      Check

-- `measured_value`
pub data Measured : Type 0 where
  no_value : Measured
  age : ℕ → Measured
  at_time : ℕ → Measured
  flag : Bool → Measured
  class_of : Option EvidenceClass → Measured
  amount : ℕ → Measured

-- `MonitoringEvent`
pub record Event : Type 0 where
  pub check_id : Check
  pub severity : Severity
  pub measured_value : Measured

pub record Observation : Type 0 where
  pub cpu_percent : Option ℕ
  pub rss_bytes : Option ℕ
  pub free_disk_bytes : Option ℕ
  pub observed_at : ℕ

-- `MonitoringSnapshot`
pub record Snapshot : Type 0 where
  pub now : ℕ
  pub latest_recovery_verified_snapshot_at : Option ℕ
  pub latest_final_scheduled_backup_failure_at : Option ℕ
  pub latest_integrity_failure_at : Option ℕ
  pub latest_retention_success_at : Option ℕ
  pub retention_failure_at : Option ℕ
  pub eligible_retention_backlog_since : Option ℕ
  pub latest_restore_drill_at : Option ℕ
  pub latest_restore_drill_evidence_class : Option EvidenceClass
  pub database_available : Bool
  pub migration_failed : Bool
  pub resource_observation : Option Observation

abbrev pub hour : ℕ
hour = 3_600_000

abbrev pub day : ℕ
day = 86_400_000

abbrev is_future : ℕ → Option ℕ → Bool
is_future now none = false
is_future now (some t) = ltb now t

abbrev is_bad_observation : ℕ → Option Observation → Bool
is_bad_observation now none = false
is_bad_observation now (some o) = ltb now o.observed_at

abbrev same_presence : Option ℕ → Option EvidenceClass → Bool
same_presence none none = true
same_presence (some t) (some c) = true
same_presence _ _ = false

-- The checks of the snapshot, before any event is made.
unfoldable pub is_rejected : Snapshot → Bool
is_rejected s =
    is_future s.now s.latest_recovery_verified_snapshot_at
    || is_future s.now s.latest_final_scheduled_backup_failure_at
    || is_future s.now s.latest_integrity_failure_at
    || is_future s.now s.latest_retention_success_at
    || is_future s.now s.retention_failure_at
    || is_future s.now s.eligible_retention_backlog_since
    || is_future s.now s.latest_restore_drill_at
    || not (same_presence s.latest_restore_drill_at s.latest_restore_drill_evidence_class)
    || is_bad_observation s.now s.resource_observation

abbrev pub event : Check → Severity → Measured → List Event
event c sev v = record { check_id = c; severity = sev; measured_value = v } ∷ []

-- The age of the newest verified backup; `now - t` stops at 0 as `Math.max(0, …)` does.
unfoldable pub backup_events : (now : ℕ) → Option ℕ → List Event
backup_events now none = event recovery_verified_backup_age critical no_value
backup_events now (some t) =
    if leb (24 * hour) (now - t)
    then event recovery_verified_backup_age critical (age (now - t))
    else if ltb (18 * hour) (now - t)
    then event recovery_verified_backup_age warning (age (now - t))
    else []

unfoldable pub failure_events : (scheduled integrity : Option ℕ) → List Event
failure_events none none = []
failure_events (some t) none = event backup_final_failure critical (at_time t)
failure_events scheduled (some t) = event backup_final_failure critical (at_time t)

unfoldable pub drill_events : (now : ℕ) → Option ℕ → Option EvidenceClass → List Event
drill_events now (some t) (some target_class) =
    if ltb (120 * day) (now - t)
    then event restore_drill_age critical (age (now - t))
    else if ltb (90 * day) (now - t)
    then event restore_drill_age warning (age (now - t))
    else []
drill_events now t c = event restore_drill_evidence_missing unknown (class_of c)

unfoldable pub retention_events : Option ℕ → List Event
retention_events none = []
retention_events (some t) = event retention_run critical (at_time t)

unfoldable pub backlog_events : (now : ℕ) → Option ℕ → List Event
backlog_events now none = []
backlog_events now (some t) =
    if ltb (168 * hour) (now - t)
    then event retention_backlog critical (age (now - t))
    else if ltb (24 * hour) (now - t)
    then event retention_backlog warning (age (now - t))
    else []

unfoldable pub success_events : (now : ℕ) → Option ℕ → List Event
success_events now none = []
success_events now (some t) =
    if ltb (26 * hour) (now - t) then event retention_last_success warning (age (now - t)) else []

unfoldable pub database_events : Bool → List Event
database_events true = []
database_events false = event database_availability critical (flag false)

unfoldable pub migration_events : Bool → List Event
migration_events false = []
migration_events true = event migration_failure critical (flag true)

abbrev observed : Check → Option ℕ → List Event
observed c none = []
observed c (some n) = event c info (amount n)

unfoldable pub resource_events : Option Observation → List Event
resource_events none = []
resource_events (some o) =
    observed cpu_observation o.cpu_percent
    ++ observed memory_observation o.rss_bytes
    ++ observed free_disk_observation o.free_disk_bytes

unfoldable pub all_events : Snapshot → List Event
unfolding backup_events failure_events drill_events retention_events backlog_events success_events
    database_events migration_events resource_events
all_events s =
    backup_events s.now s.latest_recovery_verified_snapshot_at
    ++ (failure_events s.latest_final_scheduled_backup_failure_at s.latest_integrity_failure_at
        ++ (drill_events s.now s.latest_restore_drill_at s.latest_restore_drill_evidence_class
            ++ (retention_events s.retention_failure_at
                ++ (backlog_events s.now s.eligible_retention_backlog_since
                    ++ (success_events s.now s.latest_retention_success_at
                        ++ (database_events s.database_available
                            ++ (migration_events s.migration_failed
                                ++ resource_events s.resource_observation)))))))

-- `evaluateMonitoring`; `none` is a thrown error.
unfoldable pub evaluate_monitoring : Snapshot → Option (List Event)
unfolding is_rejected all_events
evaluate_monitoring s = if is_rejected s then none else some (all_events s)

abbrev pub is_critical : Event → Bool
is_critical e = elim e.severity [ critical ↦ true | _ ↦ false ]
