-- ===== src/Migration/Ledger.antt =====
-- The runner keeps the ledger a prefix of the chain, and a run that ends well completes it.
use mathlib.Core.List.{append-nil, map-append}
use public_lighting_fault_re.Base.{
  ℕ, ◌+◌, ◌≤◌, ◌≡◌, refl, sym, ap, ◌∙◌, ◌⊎◌, inl, inr, Bool, true, false, not, ◌&&◌, ◌||◌, Option,
  some, List, [], ◌∷◌, ◌++◌, map, arith, ltb, ◌==◌, any, all, Bool-cases, All, All-map, is_some,
  length,
}
use public_lighting_fault_re.Migration.{
  Migration, AppliedMigration, Database, is_chain_from, is_applied, entry_of, apply_each,
  load_migrations, create_ledger, apply_remaining, run_migrations, assert_migrations_current,
  is_known,
}
use public_lighting_fault_re.Migration.Chain.{
  same_chain-map, IsBelow, IsAdvance, execute_all, apply_each-IsAdvance,
}

own_applied : (ms : List Migration) → All (λ m. is_applied (map entry_of ms) m ≡ true) ms
own_applied [] = tt
own_applied (m ∷ ms) = (
  ground arith,
  All-map (λ x. is_applied (map entry_of ms) x ≡ true)
      (λ x. is_applied (map entry_of (m ∷ ms)) x ≡ true) ms (λ x h. rw h (ground arith))
      (own_applied ms),
)

chain_split :
    (v : ℕ) (pre post : List Migration)
    → is_chain_from v (pre ++ post) ≡ true
    → (w : ℕ) × (is_chain_from w post ≡ true) × (v ≤ w) × All (IsBelow (w + 1)) (map entry_of pre)
chain_split v [] post h = (v, h, omega arith, tt)
chain_split v (m ∷ pre) post h =
    let later : is_chain_from m.version (pre ++ post) ≡ true = ground arith in
    let next : m.version ≡ v + 1 = ground arith in
    let (w, chain, low, below) = chain_split m.version pre post later in
    (w, chain, omega arith, (omega arith, below))

load_migrations-chain :
    (files : List Migration) {ms : List Migration}
    → load_migrations files ≡ some ms
    → is_chain_from 0 ms ≡ true
unfolding load_migrations
load_migrations-chain [] e = cc
load_migrations-chain (m ∷ files) {ms} e =
    elim (Bool-cases (m.version == 1 && is_chain_from m.version files)) [
      | inl x ↦ let same : m ∷ files ≡ ms = ground (arith, rw x at e) in rw (← same) (ground arith)
      | inr x ↦ absurd (cc (rw x at e))
    ]

-- The ledger holds the first migrations of the chain.
abbrev pub IsPrefix : {S : Type 0} → List Migration → Database S → Type 0
IsPrefix ms db =
    (pre : List Migration) × (post : List Migration) × (ms ≡ pre ++ post)
    × (create_ledger db.ledger ≡ map entry_of pre)

module _ {S : Type 0} (preflight : S → Bool) (execute : ℕ → S → Option S) where
  skip_applied :
      (applied : List AppliedMigration) (pre post : List Migration) (rows : List AppliedMigration)
      (s : S)
      → All (λ m. is_applied applied m ≡ true) pre
      → apply_each preflight execute applied (pre ++ post) rows s
        ≡ apply_each preflight execute applied post rows s
  unfolding apply_each
  skip_applied applied [] post rows s h = refl
  skip_applied applied (m ∷ pre) post rows s h = rw (h.0) (skip_applied applied pre post rows s h.1)

  -- The loop from a ledger that is a prefix.
  loop-IsAdvance :
      (pre post : List Migration) (s : S)
      → is_chain_from 0 (pre ++ post) ≡ true
      → IsAdvance preflight execute
          (map entry_of pre)
          post
          s
          (apply_each preflight execute (map entry_of pre) (pre ++ post) (map entry_of pre) s)
  loop-IsAdvance pre post s chain =
      let (w, later, low, below) = chain_split 0 pre post chain in
      rw (skip_applied (map entry_of pre) pre post (map entry_of pre) s (own_applied pre)) (
        apply_each-IsAdvance preflight execute (map entry_of pre) w post (map entry_of pre) s later
          below below)

  -- Some migrations that follow those of the ledger were executed one after the other, and
  -- recorded; the schema is what they made of it.
  abbrev pub IsExecuted : List Migration → Database S → Database S → Type 0
  IsExecuted ms db db' =
      (pre : List Migration) × (done : List Migration) × (left : List Migration) × (ms
        ≡ pre ++ (done ++ left))
      × (create_ledger db.ledger ≡ map entry_of pre)
      × (create_ledger db'.ledger ≡ map entry_of (pre ++ done))
      × (execute_all preflight execute done db.schema ≡ some db'.schema)

  -- What an advance makes of the database.
  advanced :
      (pre post : List Migration) (ms : List Migration) (db : Database S)
      (r : (List AppliedMigration × S) × Bool)
      → ms ≡ pre ++ post
      → create_ledger db.ledger ≡ map entry_of pre
      → IsAdvance preflight execute (map entry_of pre) post db.schema r
      → IsExecuted ms db (record { ledger = some r.0.0; schema = r.0.1 })
        × ((r.1 ≡ false) ⊎ (r.0.0 ≡ map entry_of ms))
  advanced pre post ms db r e l a = (
    (
      pre,
      a.done,
      a.left,
      e ∙ ap (λ x. pre ++ x) a.split,
      l,
      a.ledger ∙ sym (map-append entry_of pre a.done),
      a.executed,
    ),
    ended a.finished,
  )
    where
      ended : (r.1 ≡ false) ⊎ (a.left ≡ []) → (r.1 ≡ false) ⊎ (r.0.0 ≡ map entry_of ms)
      ended (inl f) = inl f
      ended (inr f) = inr (
          a.ledger
          ∙ sym (map-append entry_of pre a.done)
          ∙ ap (map entry_of) (
              sym (e ∙ ap (λ x. pre ++ x) (a.split ∙ ap (λ x. a.done ++ x) f ∙ append-nil a.done))))

  unexecuted : (ms : List Migration) (db : Database S) → IsPrefix ms db → IsExecuted ms db db
  unfolding execute_all
  unexecuted ms db (pre, post, e, l) =
      (pre, [], post, e, l, l ∙ ap (map entry_of) (sym (append-nil pre)), refl)

  -- A run is either unfinished or has brought the ledger up to the chain.
  abbrev IsBrought : List Migration → Database S → Database S × Bool → Type 0
  IsBrought ms db r = IsExecuted ms db r.0 × ((r.1 ≡ false) ⊎ (r.0.ledger ≡ some (map entry_of ms)))

  apply_remaining-IsBrought :
      (ms : List Migration) (db : Database S)
      → is_chain_from 0 ms ≡ true
      → IsPrefix ms db
      → IsBrought ms db (apply_remaining preflight execute ms db)
  unfolding apply_remaining execute_all
  apply_remaining-IsBrought ms db chain (pre, post, e, l) =
      let rows = create_ledger db.ledger in
      elim (Bool-cases (
        not (all (is_known ms) rows)
        || (ltb 0 (length rows) && not (any (λ r. r.version == 1) rows)))) [
          | inl x ↦
              let same = l ∙ ap (map entry_of) (sym (append-nil pre)) in
              rw x ((pre, [], post, e, l, same, refl), inl refl)
          | inr x ↦
              let step : IsAdvance preflight execute (map entry_of pre) post db.schema
                  (apply_each preflight execute rows ms rows db.schema) =
                rw (l, e) (loop-IsAdvance pre post db.schema (rw e at chain)) in
              rw x (
                let (kept, end) =
                  advanced pre post ms db (apply_each preflight execute rows ms rows db.schema) e l
                    step in
                (kept, elim end [ inl f ↦ inl f | inr f ↦ inr (ap some f) ]))
        ]

  run_migrations-IsBrought :
      (encoded : Bool) (is_empty : S → Bool) (files ms : List Migration) (db : Database S)
      → load_migrations files ≡ some ms
      → IsPrefix ms db
      → IsBrought ms db (run_migrations preflight execute encoded is_empty files db)
  unfolding run_migrations
  run_migrations-IsBrought encoded is_empty files ms db e h =
      rw (e, run_migrations)
        (elim (Bool-cases encoded) [
          | inr x ↦ rw x (unexecuted ms db h, inl refl)
          | inl x ↦ elim (Bool-cases (not (is_some db.ledger) && not (is_empty db.schema))) [
            | inl y ↦ rw (x, y) (unexecuted ms db h, inl refl)
            | inr y ↦ rw (x, y) (apply_remaining-IsBrought ms db (load_migrations-chain files e) h)
          ]
        ])

  -- A run from a ledger that is a prefix of the packaged chain, whether it stops at a migration or
  -- not, records exactly the migrations that it executed: after those of the ledger come, in the
  -- order of the chain, the ones whose statements succeeded one after the other on the schema, and
  -- the schema that is left is what they made of it. So a migration that failed is not recorded,
  -- nor is any after it.
  pub run_migrations-IsExecuted :
      (encoded : Bool) (is_empty : S → Bool) (files ms : List Migration) (db : Database S)
      → load_migrations files ≡ some ms
      → IsPrefix ms db
      → IsExecuted ms db (run_migrations preflight execute encoded is_empty files db).0
  run_migrations-IsExecuted encoded is_empty files ms db e h =
      (run_migrations-IsBrought encoded is_empty files ms db e h).0

  -- After a run that ends without an error, from a ledger that is absent or a prefix of the
  -- packaged chain, the check at the start of the server accepts the database.
  pub assert_migrations_current-run_migrations :
      (encoded : Bool) (is_empty : S → Bool) (files ms : List Migration) (db : Database S)
      → load_migrations files ≡ some ms
      → IsPrefix ms db
      → (run_migrations preflight execute encoded is_empty files db).1 ≡ true
      → assert_migrations_current files
          (run_migrations preflight execute encoded is_empty files db).0
        ≡ true
  unfolding assert_migrations_current
  assert_migrations_current-run_migrations encoded is_empty files ms db e h done =
      elim ((run_migrations-IsBrought encoded is_empty files ms db e h).1) [
        | inl f ↦ absurd (cc (f, done))
        | inr f ↦
            rw (e, assert_migrations_current)
              (rw (f, assert_migrations_current) (same_chain-map ms))
      ]
