-- ===== src/Retention/Tests.antt =====
-- Retention runs, and the theorems at concrete tables.
use public_lighting_fault_re.Base.{ℕ, ◌≡◌, refl, true, false, none, some, [], ◌∷◌, arith}
use public_lighting_fault_re.Base.Tables.{delete_oldest, count_rows}
use public_lighting_fault_re.Retention.{
  is_before, Row, Tables, Faults, complete, process_table, inspect_backlog, judged, purge, purge_at,
  run_retention_once,
}
use public_lighting_fault_re.Retention.Laws.{
  IsRetained, IsCleared, run_retention_once-IsRetained, run_retention_once-IsCleared,
  process_table_clears,
}

abbrev row : ℕ → Row
row t = record { at = t; import_batch_id = none }

abbrev tables : Tables
tables = record {
  admin_activity_logs = row 10 ∷ row 99 ∷ row 50 ∷ row 200 ∷ [];
  inventory_audit_events = row 150 ∷ [];
  admin_refresh_sessions = row 300 ∷ row 900 ∷ [];
  import_batches = [];
}

abbrev sound : Faults
sound = record {
  activity_fails = λ c. false;
  audit_fails = λ c. false;
  session_fails = λ c. false;
  inspection_fails = false;
  unlock_fails = false;
}

all_done : (run_retention_once sound true (some (400, 100)) 3 tables).1.state ≡ complete
unfolding run_retention_once purge_at purge process_table inspect_backlog judged count_rows
    delete_oldest
all_done = refl

what_is_left :
    (run_retention_once sound true (some (400, 100)) 3 tables).0.admin_activity_logs ≡ row 200 ∷ []
unfolding run_retention_once purge_at purge process_table delete_oldest
what_is_left = refl

run_retention_once-IsRetained_example :
    IsRetained 400 100 tables (run_retention_once sound true (some (400, 100)) 3 tables).0
run_retention_once-IsRetained_example = run_retention_once-IsRetained sound true 400 100 3 tables

run_retention_once-IsCleared_example :
    IsCleared 400 100 (run_retention_once sound true (some (400, 100)) 3 tables).0
run_retention_once-IsCleared_example =
    run_retention_once-IsCleared sound true 400 100 3 tables all_done

process_table_clears_example :
    (count_rows
        (is_before 100)
        (process_table sound.activity_fails 100 2 0 tables.admin_activity_logs).rows
      ≡ 0)
    × ((process_table sound.activity_fails 100 2 0 tables.admin_activity_logs).failed ≡ false)
unfolding count_rows
process_table_clears_example =
    process_table_clears sound.activity_fails 100 (λ c. refl) 2 0 tables.admin_activity_logs
      (omega arith)
