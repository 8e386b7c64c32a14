-- ===== src/Monitoring/Quiet.antt =====
-- What follows from the absence of critical events.
use public_lighting_fault_re.Base.{
  ℕ, ◌+◌, ◌-◌, ◌*◌, ◌<◌, ◌≡◌, refl, inl, inr, Bool, true, false, ◌||◌, Option, none, some, List,
  ◌++◌, arith, leb, any, any-append, Bool-cases,
}
use public_lighting_fault_re.Monitoring.{
  Event, Snapshot, hour, backup_events, failure_events, drill_events, retention_events,
  backlog_events, success_events, database_events, migration_events, resource_events, all_events,
  evaluate_monitoring, is_rejected, is_critical,
}

abbrev NoCritical : List Event → Type 0
NoCritical es = any is_critical es ≡ false

calm_parts : (xs ys : List Event) → NoCritical (xs ++ ys) → NoCritical xs × NoCritical ys
calm_parts xs ys h =
    let both : (any is_critical xs || any is_critical ys) ≡ false =
      rw (any-append is_critical xs ys) at h in
    (ground (arith, both), ground (arith, both))

-- The time is given, and less than `bound` ago.
abbrev pub IsYounger : (now bound : ℕ) → Option ℕ → Type 0
IsYounger now bound none = ⊥
IsYounger now bound (some t) = now < t + bound

backup_calm :
    (now : ℕ) (t : Option ℕ) → NoCritical (backup_events now t) → IsYounger now (24 * hour) t
unfolding backup_events
backup_calm now none h = cc
backup_calm now (some t) h = elim (Bool-cases (leb (24 * hour) (now - t))) [
  | inl e ↦ absurd (cc (rw e at h))
  | inr e ↦ ground arith
]

failure_calm : (a b : Option ℕ) → NoCritical (failure_events a b) → (a ≡ none) × (b ≡ none)
unfolding failure_events
failure_calm none none h = (refl, refl)
failure_calm none (some t) h = cc
failure_calm (some s) none h = cc
failure_calm (some s) (some t) h = cc

retention_calm : (a : Option ℕ) → NoCritical (retention_events a) → a ≡ none
unfolding retention_events
retention_calm none h = refl
retention_calm (some t) h = cc

database_calm : (a : Bool) → NoCritical (database_events a) → a ≡ true
unfolding database_events
database_calm true h = refl
database_calm false h = cc

migration_calm : (a : Bool) → NoCritical (migration_events a) → a ≡ false
unfolding migration_events
migration_calm false h = refl
migration_calm true h = cc

-- What a snapshot without critical events guarantees.
pub record IsQuiet (s : Snapshot) : Type 0 where
  pub backup_fresh : IsYounger s.now (24 * hour) s.latest_recovery_verified_snapshot_at
  pub schedule_sound : s.latest_final_scheduled_backup_failure_at ≡ none
  pub integrity_sound : s.latest_integrity_failure_at ≡ none
  pub retention_sound : s.retention_failure_at ≡ none
  pub database_up : s.database_available ≡ true
  pub migrations_sound : s.migration_failed ≡ false

all_events-IsQuiet : (s : Snapshot) → NoCritical (all_events s) → IsQuiet s
unfolding all_events
all_events-IsQuiet s h =
    let migrations =
      migration_events s.migration_failed ++ resource_events s.resource_observation in
    let database = database_events s.database_available ++ migrations in
    let success = success_events s.now s.latest_retention_success_at ++ database in
    let backlog = backlog_events s.now s.eligible_retention_backlog_since ++ success in
    let retention = retention_events s.retention_failure_at ++ backlog in
    let drill =
      drill_events s.now s.latest_restore_drill_at s.latest_restore_drill_evidence_class
      ++ retention in
    let failures =
      failure_events s.latest_final_scheduled_backup_failure_at s.latest_integrity_failure_at
      ++ drill in
    let (c₁, h₁) =
      calm_parts (backup_events s.now s.latest_recovery_verified_snapshot_at) failures h in
    let (c₂, h₂) =
      calm_parts
        (failure_events s.latest_final_scheduled_backup_failure_at s.latest_integrity_failure_at)
        drill h₁ in
    let (c₃, h₃) =
      calm_parts
        (drill_events s.now s.latest_restore_drill_at s.latest_restore_drill_evidence_class)
        retention h₂ in
    let (c₄, h₄) = calm_parts (retention_events s.retention_failure_at) backlog h₃ in
    let (c₅, h₅) =
      calm_parts (backlog_events s.now s.eligible_retention_backlog_since) success h₄ in
    let (c₆, h₆) = calm_parts (success_events s.now s.latest_retention_success_at) database h₅ in
    let (c₇, h₇) = calm_parts (database_events s.database_available) migrations h₆ in
    let (c₈, h₈) =
      calm_parts (migration_events s.migration_failed) (resource_events s.resource_observation)
        h₇ in
    let (scheduled, integrity) =
      failure_calm s.latest_final_scheduled_backup_failure_at s.latest_integrity_failure_at c₂ in
    record {
      backup_fresh = backup_calm s.now s.latest_recovery_verified_snapshot_at c₁;
      schedule_sound = scheduled;
      integrity_sound = integrity;
      retention_sound = retention_calm s.retention_failure_at c₄;
      database_up = database_calm s.database_available c₇;
      migrations_sound = migration_calm s.migration_failed c₈;
    }

-- Where the snapshot is accepted and no event of it is critical, the newest verified backup is
-- less than 24 hours old, no failure of a schedule, of an integrity check or of retention is
-- recorded, the database answers and no migration failed.
pub evaluate_monitoring-IsQuiet :
    (s : Snapshot) (es : List Event)
    → evaluate_monitoring s ≡ some es
    → any is_critical es ≡ false
    → IsQuiet s
unfolding evaluate_monitoring
evaluate_monitoring-IsQuiet s es e h = elim (Bool-cases (is_rejected s)) [
  | inl x ↦ absurd (cc (rw x at e))
  | inr x ↦
      let same : all_events s ≡ es = ground (arith, rw x at e) in
      all_events-IsQuiet s (rw (← same) at h)
]
