-- ===== src/Migration.antt =====
-- The migration runner: backend/src/db/migrate.ts. Versions are their numbers; names, checksums and
-- statements are numbers. The schema and what a statement makes of it are parameters, so are the
-- SHA-256 digest behind the checksums and the preflight of backend/src/db/migrationPreflight.ts.
pub mod Chain
pub mod Ledger
mod Tests
use public_lighting_fault_re.Base.{
  ℕ, zero, suc, ◌+◌, Bool, true, false, not, ◌&&◌, ◌||◌, Option, none, some, List, [], ◌∷◌, ◌++◌,
  ltb, ◌==◌, if◌then◌else◌, any, all, length, is_some,
}
use public_lighting_fault_re.Base.Tables.{find_row}

pub record Migration : Type 0 where
  pub version : ℕ
  pub name : ℕ
  pub checksum : ℕ
  pub sql : ℕ

pub record AppliedMigration : Type 0 where
  pub version : ℕ
  pub name : ℕ
  pub checksum : ℕ

-- The database under the schema type `S`: its ledger, absent before it is created, in the order of
-- the versions, and the rest of the schema.
pub record Database (S : Type 0) : Type 0 where
  pub ledger : Option (List AppliedMigration)
  pub schema : S

-- The sequence test of `loadMigrations`, from one migration on.
abbrev pub is_chain_from : ℕ → List Migration → Bool
is_chain_from v [] = true
is_chain_from v (m ∷ ms) = m.version == v + 1 && is_chain_from m.version ms

-- `loadMigrations` of the sorted files: `none` is the thrown error.
unfoldable pub load_migrations : List Migration → Option (List Migration)
load_migrations [] = none
load_migrations (m ∷ ms) =
    if m.version == 1 && is_chain_from m.version ms then some (m ∷ ms) else none

abbrev pub same_entry : Migration → AppliedMigration → Bool
same_entry m r = m.version == r.version && m.name == r.name && m.checksum == r.checksum

abbrev pub has_version : ℕ → Migration → Bool
has_version v m = m.version == v

-- A row of the ledger against the packaged migrations.
unfoldable pub is_known : List Migration → AppliedMigration → Bool
unfolding find_row
is_known ms r = elim (find_row (has_version r.version) ms) [
  | none ↦ false
  | some m ↦ m.name == r.name && m.checksum == r.checksum
]

abbrev pub is_applied : List AppliedMigration → Migration → Bool
is_applied applied m = any (λ r. r.version == m.version) applied

abbrev pub entry_of : Migration → AppliedMigration
entry_of m = record { version = m.version; name = m.name; checksum = m.checksum }

-- The ledger is read in the order of the versions.
abbrev pub insert_entry : AppliedMigration → List AppliedMigration → List AppliedMigration
insert_entry r [] = r ∷ []
insert_entry r (x ∷ xs) = if ltb r.version x.version then r ∷ x ∷ xs else x ∷ insert_entry r xs

-- `createLedger`
abbrev pub create_ledger : Option (List AppliedMigration) → List AppliedMigration
create_ledger none = []
create_ledger (some rows) = rows

module _ {S : Type 0} (preflight : S → Bool) (execute : ℕ → S → Option S) where
  -- The transaction of one migration; `none` is a rollback. The second migration runs its
  -- preflight first.
  unfoldable pub migrate_one :
      Migration → List AppliedMigration → S → Option (List AppliedMigration × S)
  migrate_one m rows s =
      if m.version == 2 && not (preflight s) then none else elim (execute m.sql s) [
        | none ↦ none
        | some s' ↦ some (insert_entry (entry_of m) rows, s')
      ]

  -- The loop of `applyRemaining` over the migrations; `applied` is the ledger as it was read
  -- before the loop. The flag says whether all of it ran.
  unfoldable pub apply_each :
      List AppliedMigration
      → List Migration
      → List AppliedMigration
      → S
      → (List AppliedMigration × S) × Bool
  unfolding migrate_one
  apply_each applied [] rows s = ((rows, s), true)
  apply_each applied (m ∷ ms) rows s =
      if is_applied applied m then apply_each applied ms rows s else elim (migrate_one m rows s) [
        | none ↦ ((rows, s), false)
        | some after ↦ apply_each applied ms after.0 after.1
      ]

  -- `applyRemaining`: the checks of the ledger, then the loop.
  unfoldable pub apply_remaining : List Migration → Database S → Database S × Bool
  unfolding apply_each is_known
  apply_remaining ms db =
      let rows = create_ledger db.ledger in
      let after = apply_each rows ms rows db.schema in
      if not (all (is_known ms) rows)
        || (ltb 0 (length rows) && not (any (λ r. r.version == 1) rows))
      then (record { ledger = some rows; schema = db.schema }, false)
      else (record { ledger = some after.0.0; schema = after.0.1 }, after.1)

  -- `runMigrations` of the sorted files, under the advisory lock: `encoded` says whether the
  -- database has the encoding that the preflight asks for, `is_empty` whether it has tables of
  -- the application.
  unfoldable pub run_migrations :
      (encoded : Bool) (is_empty : S → Bool) → List Migration → Database S → Database S × Bool
  unfolding load_migrations apply_remaining
  run_migrations encoded is_empty files db = elim (load_migrations files) [
    | none ↦ (db, false)
    | some ms ↦
        if not encoded
        then (db, false)
        else if not (is_some db.ledger) && not (is_empty db.schema)
        then (db, false)
        else apply_remaining ms db
  ]

  -- `adoptRecognizedPreP3Database`: the baseline is recorded for a schema that `recognized` names.
  unfoldable pub adopt_database :
      (encoded : Bool) (recognized : S → Bool) → List Migration → Database S → Database S × Bool
  unfolding load_migrations apply_remaining
  adopt_database encoded recognized files db = elim (load_migrations files) [
    | none ↦ (db, false)
    | some [] ↦ (db, false)
    | some (baseline ∷ ms) ↦
        if not encoded || is_some db.ledger || not (recognized db.schema)
        then (db, false)
        else apply_remaining (baseline ∷ ms)
            (record { ledger = some (entry_of baseline ∷ []); schema = db.schema })
  ]

abbrev pub same_chain : List Migration → List AppliedMigration → Bool
same_chain [] [] = true
same_chain (m ∷ ms) (r ∷ rs) = same_entry m r && same_chain ms rs
same_chain _ _ = false

-- `assertMigrationsCurrent`; `true` where it does not throw.
unfoldable pub assert_migrations_current : {S : Type 0} → List Migration → Database S → Bool
unfolding load_migrations
assert_migrations_current files db = elim (load_migrations files) [
  | none ↦ false
  | some ms ↦ elim db.ledger [ none ↦ false | some rows ↦ same_chain ms rows ]
]
