-- ===== src/Scheduler/Tests.antt =====
-- Runs of the scheduler, and its theorems at concrete inputs.
use public_lighting_fault_re.Base.{ℕ, ◌+◌, ◌≡◌, refl, true, false, none, some, List, [], ◌∷◌, ◌++◌}
use public_lighting_fault_re.Scheduler.{
  complete, BackupResult, Event, attempt_started, attempt_finished, Invocation, attempted,
  latest_due_backup_slot, finished_for_slot, started_without_finish, run_under_lock,
  run_scheduled_backup, starts_open, reconcile, decide, make_attempt,
}
use public_lighting_fault_re.Scheduler.Attempts.{
  due_reading, last_finish, IsDue, run_under_lock-IsDue,
}
use public_lighting_fault_re.Scheduler.Journal.{run_under_lock_settled}

-- 1 January 1970: the first attempt of the six o'clock slot died at its start.
abbrev died : List Event
died =
    attempt_started
      (record { slot_id = 21_600_000; attempt = 1; run_id = 7; started_at = 21_600_100 })
    ∷ []

abbrev half_hour_later : ℕ → ℕ
half_hour_later n = 23_400_000 + n

abbrev good : BackupResult
good = record { run_id = 8; state = complete; exit_code = 0; reason_code = "backup_complete" }

second_attempt :
    (run_under_lock half_hour_later (8, true) (some good) died).1
    ≡ some (attempted 21_600_000 2 complete 0 none (some good))
unfolding run_under_lock started_without_finish starts_open reconcile decide make_attempt
    finished_for_slot latest_due_backup_slot
second_attempt = refl

abbrev done : List Event
done =
    died
    ++ (attempt_finished (record {
      slot_id = 21_600_000;
      attempt = 1;
      run_id = 7;
      finished_at = 21_700_000;
      state = complete;
      exit_code = 0;
      reason_code = "backup_complete";
      retry_at = none;
      backup_result = none;
    })
        ∷ [])

skipped_run :
    (run_scheduled_backup half_hour_later false (8, true) none done).1
    ≡ some (Invocation.skipped 21_600_000)
unfolding run_scheduled_backup latest_due_backup_slot
skipped_run = refl

run_under_lock-IsDue_example :
    (latest_due_backup_slot (half_hour_later (due_reading died)) ≡ some 21_600_000)
    × IsDue (half_hour_later (due_reading died)) 2 (last_finish half_hour_later 21_600_000 died)
run_under_lock-IsDue_example =
    run_under_lock-IsDue half_hour_later (8, true) (some good) died 21_600_000 2 complete 0 none
      (some good) second_attempt

run_under_lock_settled_example :
    started_without_finish (run_under_lock half_hour_later (8, true) none died).0 ≡ []
run_under_lock_settled_example = run_under_lock_settled half_hour_later (8, true) none died
