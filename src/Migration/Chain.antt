-- ===== src/Migration/Chain.antt =====
-- A chain of migrations, and the ledger that has part of it.
use mathlib.Core.List.{append_assoc, append-nil}
use public_lighting_fault_re.Base.{
  ℕ, ◌+◌, ◌<◌, ◌≤◌, ◌≡◌, refl, sym, ap, ◌∙◌, ◌⊎◌, inl, inr, Bool, true, false, not, ◌&&◌, Option,
  none, some, List, [], ◌∷◌, ◌++◌, map, arith, ltb, ◌==◌, Bool-cases, Option-cases, All, All-map,
  All-append,
}
use public_lighting_fault_re.Migration.{
  Migration, AppliedMigration, is_chain_from, is_applied, entry_of, insert_entry, migrate_one,
  apply_each, same_chain, same_entry,
}

abbrev pub IsBelow : ℕ → AppliedMigration → Type 0
IsBelow v r = r.version < v

insert_entry_last :
    (e : AppliedMigration) (rows : List AppliedMigration)
    → All (IsBelow e.version) rows
    → insert_entry e rows ≡ rows ++ (e ∷ [])
insert_entry_last e [] h = refl
insert_entry_last e (r ∷ rs) h =
    let later : ltb e.version r.version ≡ false = ground (arith, h.0) in
    rw later (ap (λ x. r ∷ x) (insert_entry_last e rs h.1))

not_applied :
    (rows : List AppliedMigration) (m : Migration)
    → All (IsBelow m.version) rows
    → is_applied rows m ≡ false
not_applied [] m h = refl
not_applied (r ∷ rs) m h =
    let other : (r.version == m.version) ≡ false = ground (arith, h.0) in
    rw other (not_applied rs m h.1)

pub same_chain-map : (ms : List Migration) → same_chain ms (map entry_of ms) ≡ true
same_chain-map [] = refl
same_chain-map (m ∷ ms) =
    let own : same_entry m (entry_of m) ≡ true = ground arith in rw own (same_chain-map ms)

raise :
    (v w : ℕ) → v ≤ w → (rows : List AppliedMigration) → All (IsBelow v) rows → All (IsBelow w) rows
raise v w h rows = All-map (IsBelow v) (IsBelow w) rows (λ x k. omega arith)

module _ {S : Type 0} (preflight : S → Bool) (execute : ℕ → S → Option S) where
  -- The statements of some migrations, one after the other; `none` where one of them fails.
  unfoldable pub execute_all : List Migration → S → Option S
  execute_all [] s = some s
  execute_all (m ∷ ms) s = elim (execute m.sql s) [ none ↦ none | some s' ↦ execute_all ms s' ]

  -- What a loop over migrations that are not yet applied did to a schema: the first of them were
  -- executed and are in the ledger, all if it did not stop.
  pub record IsAdvance (rows : List AppliedMigration) (ms : List Migration) (s : S)
      (r : (List AppliedMigration × S) × Bool) : Type 0 where
    pub done : List Migration
    pub left : List Migration
    pub split : ms ≡ done ++ left
    pub ledger : r.0.0 ≡ rows ++ map entry_of done
    pub executed : execute_all done s ≡ some r.0.1
    pub finished : (r.1 ≡ false) ⊎ (left ≡ [])

  migrate_one-done :
      (m : Migration) (rows : List AppliedMigration) (s : S) {after : List AppliedMigration × S}
      → migrate_one preflight execute m rows s ≡ some after
      → (after.0 ≡ insert_entry (entry_of m) rows) × (execute m.sql s ≡ some after.1)
  unfolding migrate_one
  migrate_one-done m rows s e = elim (Bool-cases (m.version == 2 && not (preflight s))) [
    | inl x ↦ absurd (cc (rw x at e))
    | inr x ↦ elim (Option-cases (execute m.sql s)) [
      | inl y ↦ absurd (cc (rw (y, migrate_one) at (rw x at e)))
      | inr (s', y) ↦
          let made = rw (y, migrate_one) at (rw x at e) in
          (ground (arith, made), ground (arith, made, y))
    ]
  ]

  pub apply_each-IsAdvance :
      (applied : List AppliedMigration) (v : ℕ) (ms : List Migration) (rows : List AppliedMigration)
      (s : S)
      → is_chain_from v ms ≡ true
      → All (IsBelow (v + 1)) applied
      → All (IsBelow (v + 1)) rows
      → IsAdvance rows ms s (apply_each preflight execute applied ms rows s)
  unfolding apply_each execute_all
  apply_each-IsAdvance applied v [] rows s chain h k = record {
    done = [];
    left = [];
    split = refl;
    ledger = sym (append-nil rows);
    executed = refl;
    finished = inr refl;
  }
  apply_each-IsAdvance applied v (m ∷ ms) rows s chain h k =
      let next : m.version ≡ v + 1 = ground arith in
      let later : is_chain_from m.version ms ≡ true = ground arith in
      let fresh = not_applied applied m (rw next h) in
      elim (Option-cases (migrate_one preflight execute m rows s)) [
        | inl e ↦ rw fresh (
            rw (e, apply_each)
              (record {
                done = [];
                left = m ∷ ms;
                split = refl;
                ledger = sym (append-nil rows);
                executed = refl;
                finished = inl refl;
              }))
        | inr (after, e) ↦
            let (entered, made) = migrate_one-done m rows s e in
            let grown : after.0 ≡ rows ++ (entry_of m ∷ []) =
              entered ∙ insert_entry_last (entry_of m) rows (rw next k) in
            let below : All (IsBelow (m.version + 1)) after.0 = rw grown (
              All-append (IsBelow (m.version + 1)) rows (entry_of m ∷ [])
                (raise (v + 1) (m.version + 1) (omega arith) rows k) (omega arith, tt)) in
            let rest =
              apply_each-IsAdvance applied m.version ms after.0 after.1 later
                (raise (v + 1) (m.version + 1) (omega arith) applied h) below in
            rw fresh (
              rw (e, apply_each)
                (record {
                  done = m ∷ rest.done;
                  left = rest.left;
                  split = ap (λ x. m ∷ x) rest.split;
                  ledger =
                      rest.ledger
                      ∙ ap (λ x. x ++ map entry_of rest.done) grown
                      ∙ append_assoc rows (entry_of m ∷ []) (map entry_of rest.done);
                  executed = rw (made, execute_all) rest.executed;
                  finished = rest.finished;
                }))
      ]
