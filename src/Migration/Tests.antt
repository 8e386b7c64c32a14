-- ===== src/Migration/Tests.antt =====
-- Runs of the migration runner, and its theorems at a concrete chain.
use public_lighting_fault_re.Base.{
  ℕ, ◌+◌, ◌≡◌, refl, Bool, true, false, Option, none, some, List, [], ◌∷◌, ◌==◌, if◌then◌else◌,
}
use public_lighting_fault_re.Base.Tables.{find_row}
use public_lighting_fault_re.Migration.{
  Migration, Database, entry_of, load_migrations, is_known, migrate_one, apply_each,
  apply_remaining, run_migrations, assert_migrations_current,
}
use public_lighting_fault_re.Migration.Ledger.{
  IsExecuted, run_migrations-IsExecuted, assert_migrations_current-run_migrations,
}

abbrev numbered : ℕ → Migration
numbered v = record { version = v; name = 10 + v; checksum = 100 + v; sql = v }

abbrev files : List Migration
files = numbered 1 ∷ numbered 2 ∷ numbered 3 ∷ []

-- The schema counts the statements; the third one fails where `bad` says so.
abbrev execute : (bad : Bool) → ℕ → ℕ → Option ℕ
execute bad sql s = if bad then (if sql == 3 then none else some (s + 1)) else some (s + 1)

abbrev ready : ℕ → Bool
ready s = true

abbrev at_first : Database ℕ
at_first = record { ledger = some (entry_of (numbered 1) ∷ []); schema = 1 }

finishes : (run_migrations ready (execute false) true ready files at_first).1 ≡ true
unfolding run_migrations load_migrations apply_remaining apply_each migrate_one is_known find_row
finishes = refl

stops :
    (run_migrations ready (execute true) true ready files at_first).0.ledger
    ≡ some (entry_of (numbered 1) ∷ entry_of (numbered 2) ∷ [])
unfolding run_migrations load_migrations apply_remaining apply_each migrate_one is_known find_row
stops = refl

loads : load_migrations files ≡ some files
unfolding load_migrations
loads = refl

run_migrations-IsExecuted_example :
    IsExecuted ready
      (execute true)
      files
      at_first
      (run_migrations ready (execute true) true ready files at_first).0
run_migrations-IsExecuted_example =
    run_migrations-IsExecuted ready (execute true) true ready files files at_first loads
      (numbered 1 ∷ [], numbered 2 ∷ numbered 3 ∷ [], refl, refl)

assert_migrations_current-run_migrations_example :
    assert_migrations_current files
      (run_migrations ready (execute false) true ready files at_first).0
    ≡ true
assert_migrations_current-run_migrations_example =
    assert_migrations_current-run_migrations ready (execute false) true ready files files at_first
      loads (numbered 1 ∷ [], numbered 2 ∷ numbered 3 ∷ [], refl, refl) finishes
