-- ===== src/Monitoring/Tests.antt =====
-- Snapshots judged, and the theorem at a concrete one.
use public_lighting_fault_re.Base.{◌*◌, ◌≡◌, refl, true, false, none, some}
use public_lighting_fault_re.Monitoring.{
  Snapshot, warning, target_class, recovery_verified_backup_age, age, hour, day, event, is_rejected,
  all_events, backup_events, failure_events, drill_events, retention_events, backlog_events,
  success_events, database_events, migration_events, resource_events, evaluate_monitoring,
}
use public_lighting_fault_re.Monitoring.Quiet.{IsQuiet, evaluate_monitoring-IsQuiet}

abbrev healthy : Snapshot
healthy = record {
  now = 1000 * hour;
  latest_recovery_verified_snapshot_at = some (980 * hour);
  latest_final_scheduled_backup_failure_at = none;
  latest_integrity_failure_at = none;
  latest_retention_success_at = some (990 * hour);
  retention_failure_at = none;
  eligible_retention_backlog_since = none;
  latest_restore_drill_at = some (10 * day);
  latest_restore_drill_evidence_class = some target_class;
  database_available = true;
  migration_failed = false;
  resource_observation = none;
}

one_warning :
    evaluate_monitoring healthy
    ≡ some (event recovery_verified_backup_age warning (age (20 * hour)))
unfolding evaluate_monitoring is_rejected all_events backup_events failure_events drill_events
    retention_events backlog_events success_events database_events migration_events resource_events
one_warning = refl

evaluate_monitoring-IsQuiet_example : IsQuiet healthy
evaluate_monitoring-IsQuiet_example =
    evaluate_monitoring-IsQuiet healthy
      (event recovery_verified_backup_age warning (age (20 * hour))) one_warning refl
