-- ===== src/ImportQueue/Progress.antt =====
-- The worker finishes the batch that it holds.
use mathlib.Core.Option
use public_lighting_fault_re.Base.{
  ℕ, zero, suc, ◌+◌, ◌<◌, ◌≡◌, refl, ap, ◌∙◌, inl, inr, ◌⊎◌, Bool, true, false, Option, none, some,
  List, [], ◌∷◌, arith, ◌==◌, any, Bool-cases, Option-cases, length, if◌then◌else◌,
}
use public_lighting_fault_re.Base.Tables.{find_row, update_rows, count_rows}
use public_lighting_fault_re.Base.Tables.Find.{find_row-update_rows}
use public_lighting_fault_re.ImportQueue.{
  Point, Payload, failed, settled, ImportRow, Batch, Db, is_open_row, is_claimed,
}
use public_lighting_fault_re.ImportQueue.Rows.{
  Plan, plan, settle, settle_rows, after_plan, open_payload,
}
use public_lighting_fault_re.ImportQueue.Worker.{
  SqlFault, unique_violation, data_violation, other_fault, Answer, outcomes, raised, processed,
  plan_fault, first_fault, is_written, is_twin, kinds, counted, process_held, process_import_rows,
  fail_first, fail_next_pending_row, count_failed,
}
use public_lighting_fault_re.ImportQueue.Counts.{open_payload-IsOpen}

abbrev pub pending_count : ℕ → Db → ℕ
pending_count id db = count_rows (is_open_row id) db.rows

-- The worker's claim on the batch.
abbrev pub IsHeld : (id token : ℕ) → Db → Type 0
IsHeld id token db = (b : Batch) × (find_row (is_claimed id token) db.batches ≡ some b)

closed_payload : (id : ℕ) (r : ImportRow) → open_payload id r ≡ none → is_open_row id r ≡ false
unfolding open_payload
closed_payload id r e = ground arith

module _ (points : List Point) (allow : Bool) (id : ℕ) where
  settle_rows-pending :
      (limit next : ℕ) (rows : List ImportRow)
      → count_rows (is_open_row id) (settle_rows points allow id limit next rows).0
          + length (settle_rows points allow id limit next rows).1
        ≡ count_rows (is_open_row id) rows
  unfolding settle_rows count_rows
  settle_rows-pending limit next [] = refl
  settle_rows-pending zero next (r ∷ rs) = omega arith
  settle_rows-pending (suc limit) next (r ∷ rs) = elim (Option-cases (open_payload id r)) [
    | inl e ↦
        rw (e, settle_rows) (rw (closed_payload id r e) (settle_rows-pending (suc limit) next rs))
    | inr (payload, e) ↦
        let p = plan points allow next payload in
        let (mine, waits) = open_payload-IsOpen id r payload e in
        let opened : is_open_row id r ≡ true = ground (arith, mine, waits) in
        let closed : is_open_row id (settle p r) ≡ false = ground arith in
        rw (e, settle_rows)
          (rw (opened, closed) (omega (arith, settle_rows-pending limit (after_plan next p) rs)))
  ]

  settle_rows-some :
      (limit next : ℕ) (rows : List ImportRow)
      → (count_rows (is_open_row id) rows ≡ 0)
        ⊎ (0 < length (settle_rows points allow id (suc limit) next rows).1)
  unfolding settle_rows count_rows
  settle_rows-some limit next [] = inl refl
  settle_rows-some limit next (r ∷ rs) = elim (Option-cases (open_payload id r)) [
    | inl e ↦ rw (e, settle_rows) (rw (closed_payload id r e) (settle_rows-some limit next rs))
    | inr (payload, e) ↦ rw (e, settle_rows) (inr (omega arith))
  ]

-- The table's own constraints fail with the codes that the worker handles.
abbrev pub IsMild : Option SqlFault → Type 0
IsMild none = Unit
IsMild (some unique_violation) = Unit
IsMild (some data_violation) = Unit
IsMild (some other_fault) = ⊥

first_fault-IsMild :
    (o : Option SqlFault) (twin : Bool) (rest : Option SqlFault)
    → IsMild o
    → IsMild rest
    → IsMild (first_fault o twin rest)
first_fault-IsMild (some e) twin rest h k = h
first_fault-IsMild none true rest h k = tt
first_fault-IsMild none false rest h k = k

plan_fault-IsMild :
    (check : Payload → Option SqlFault)
    → ((p : Payload) → IsMild (check p))
    → (ps : List Plan) → IsMild (plan_fault check ps)
unfolding plan_fault
plan_fault-IsMild check mild [] = tt
plan_fault-IsMild check mild (p ∷ ps) = elim (Bool-cases (is_written p.kind)) [
  | inl e ↦ rw e (
      first_fault-IsMild (check p.payload) (any (is_twin p) ps) (plan_fault check ps)
        (mild p.payload) (plan_fault-IsMild check mild ps))
  | inr e ↦ rw e (plan_fault-IsMild check mild ps)
]

-- The claim survives an update that leaves the claim's columns alone.
IsHeld-update_rows :
    (id token : ℕ) (p : Batch → Bool) (f : Batch → Batch) (db db' : Db)
    → ((x : Batch) → is_claimed id token (f x) ≡ is_claimed id token x)
    → db'.batches ≡ update_rows p f db.batches
    → IsHeld id token db
    → IsHeld id token db'
unfolding find_row
IsHeld-update_rows id token p f db db' same e (b, held) = (
  if p b then f b else b,
  ap (find_row (is_claimed id token)) e
      ∙ find_row-update_rows (is_claimed id token) p f db.batches same
      ∙ ap (Option.map (λ x. if p x then f x else x)) held,
)

-- What the worker may rely on: rows still pending before an answer and after it.
module _ (id token : ℕ) (db : Db) where
  abbrev pub IsProgress : Answer → Type 0
  IsProgress (outcomes db' []) =
      (pending_count id db ≡ 0) × (pending_count id db' ≡ 0) × IsHeld id token db'
  IsProgress (outcomes db' (k ∷ ks)) =
      (pending_count id db' < pending_count id db) × IsHeld id token db'
  IsProgress (raised e) = (0 < pending_count id db) × IsMild (some e)

  outcomes-IsProgress :
      (db' : Db) (ps : List Plan)
      → pending_count id db' + length ps ≡ pending_count id db
      → (pending_count id db ≡ 0) ⊎ (0 < length ps)
      → IsHeld id token db'
      → IsProgress (outcomes db' (kinds ps))
  unfolding kinds
  outcomes-IsProgress db' [] e (inl z) held = (z, omega arith, held)
  outcomes-IsProgress db' [] e (inr l) held = absurd (omega arith)
  outcomes-IsProgress db' (p ∷ ps) e some_left held = (omega arith, held)

plan_fault-waits :
    (check : Payload → Option SqlFault) (ps : List Plan) (e : SqlFault)
    → plan_fault check ps ≡ some e
    → 0 < length ps
unfolding plan_fault
plan_fault-waits check [] e h = cc
plan_fault-waits check (p ∷ ps) e h = omega arith

module _ (check : Payload → Option SqlFault) (mild : (p : Payload) → IsMild (check p))
    (now limit id token : ℕ) where
  process_held-IsProgress :
      (b : Batch) (db : Db)
      → IsHeld id token db
      → IsProgress id token db (process_held check now (suc limit) id b db)
  unfolding process_held
  process_held-IsProgress b db held =
      let done = settle_rows db.points b.update_existing id (suc limit) db.next_point db.rows in
      let fewer =
        settle_rows-pending db.points b.update_existing id (suc limit) db.next_point db.rows in
      elim (Option-cases (plan_fault check done.1)) [
        | inl f ↦
            rw (f, process_held)
              (outcomes-IsProgress id token db (processed now id done.1 done.0 db) done.1 fewer
                (settle_rows-some db.points b.update_existing id limit db.next_point db.rows)
                (IsHeld-update_rows id token (λ x. x.id == id) (counted now done.1) db
                  (processed now id done.1 done.0 db) (λ x. refl) refl held))
        | inr (e, f) ↦
            let waits = plan_fault-waits check done.1 e f in
            rw (f, process_held)
              (omega (arith, waits, fewer), rw f at (plan_fault-IsMild check mild done.1))
      ]

  -- A statement of the worker for a batch that it holds.
  pub process_import_rows-IsProgress :
      (db : Db)
      → IsHeld id token db
      → IsProgress id token db (process_import_rows check now (suc limit) id token db)
  unfolding process_import_rows
  process_import_rows-IsProgress db (b, held) =
      rw (held, process_import_rows) (process_held-IsProgress b db (b, held))

fail_first-pending :
    (id reason : ℕ) (rows : List ImportRow)
    → (count_rows (is_open_row id) (fail_first id reason rows).0 + (fail_first id reason rows).1
        ≡ count_rows (is_open_row id) rows)
      × ((count_rows (is_open_row id) rows ≡ 0) ⊎ ((fail_first id reason rows).1 ≡ 1))
unfolding fail_first count_rows
fail_first-pending id reason [] = (refl, inl refl)
fail_first-pending id reason (r ∷ rs) = elim (Bool-cases (is_open_row id r)) [
  | inl e ↦
      let closed : is_open_row id (record r { outcome = settled failed; reason_code = some reason })
          ≡ false =
        ground arith in
      rw (e, closed) (omega arith, inr refl)
  | inr e ↦ rw e (rw e (fail_first-pending id reason rs))
]

one_failed :
    (id reason : ℕ) (db : Db) → 0 < pending_count id db → (fail_first id reason db.rows).1 ≡ 1
one_failed id reason db waits = elim ((fail_first-pending id reason db.rows).1) [
  | inl e ↦ absurd (omega (arith, e, waits))
  | inr e ↦ e
]

-- Failing the next row uses up one pending row.
pub fail_next_pending_row-IsProgress :
    (now id token reason : ℕ) (db : Db)
    → 0 < pending_count id db
    → IsHeld id token db
    → (pending_count id (fail_next_pending_row now id token reason db) < pending_count id db)
      × IsHeld id token (fail_next_pending_row now id token reason db)
unfolding fail_next_pending_row
fail_next_pending_row-IsProgress now id token reason db waits (b, held) =
    let rows = (fail_first id reason db.rows).0 in
    let fewer = (fail_first-pending id reason db.rows).0 in
    let one = one_failed id reason db waits in
    rw (held, fail_next_pending_row)
      (rw one (
        omega (arith, fewer, one),
        IsHeld-update_rows id token (λ x. x.id == id) (count_failed now 1) db
            (record db {
              rows = rows;
              batches = update_rows (λ x. x.id == id) (count_failed now 1) db.batches;
            })
            (λ x. refl) refl (b, held),
      ))
