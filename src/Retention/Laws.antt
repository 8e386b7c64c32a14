-- ===== src/Retention/Laws.antt =====
-- What a retention run deletes, and what its verdict says.
use public_lighting_fault_re.Base.{
  ℕ, zero, suc, ◌+◌, ◌*◌, ◌≤◌, ◌≡◌, refl, ◌∙◌, inl, inr, Bool, true, false, not, ◌||◌, some, List,
  arith, ltb, ◌==◌, Bool-cases,
}
use public_lighting_fault_re.Base.Tables.{count_rows}
use public_lighting_fault_re.Base.Tables.Oldest.{delete_oldest-count_rows, delete_oldest_others}
use public_lighting_fault_re.Retention.{
  chunk_size, empty_counts, Row, Tables, Counts, is_before, delete_chunk, Pass, process_table,
  Faults, inspect_backlog, complete, judged, purge, purge_at, run_retention_once,
  max_chunks_per_table, approved_backlog,
}

abbrev pub is_recent : ℕ → Row → Bool
is_recent cutoff r = not (is_before cutoff r)

recent_apart : (cutoff : ℕ) (x : Row) → is_before cutoff x ≡ true → is_recent cutoff x ≡ false
recent_apart cutoff x e = ground arith

zero_of : (n : ℕ) → (n == 0) ≡ true → n ≡ 0
zero_of n z = ground arith

module _ (fails : ℕ → Bool) (cutoff : ℕ) where
  -- A table loses only rows before the cutoff, and as many as it counts, on every path.
  abbrev pub IsPassed : (chunks : ℕ) → List Row → Pass → Type 0
  IsPassed left rows r =
      (count_rows (is_recent cutoff) r.rows ≡ count_rows (is_recent cutoff) rows)
      × (count_rows (is_before cutoff) r.rows + r.removed ≡ count_rows (is_before cutoff) rows)
      × (r.chunks ≤ left)

  process_table-IsPassed :
      (left c : ℕ) (rows : List Row) → IsPassed left rows (process_table fails cutoff left c rows)
  unfolding process_table
  process_table-IsPassed zero c rows = (refl, omega arith, omega arith)
  process_table-IsPassed (suc left) c rows =
      let (rows', n) = delete_chunk cutoff rows in
      let (kept, sum, few) = process_table-IsPassed left (suc c) rows' in
      let same =
        delete_oldest_others (λ r. r.at) (is_before cutoff) (is_recent cutoff) (recent_apart cutoff)
          chunk_size rows in
      let gone = (delete_oldest-count_rows (λ r. r.at) (is_before cutoff) chunk_size rows).0 in
      elim (Bool-cases (fails c)) [
        | inl e ↦ rw e (refl, omega arith, omega arith)
        | inr e ↦ elim (Bool-cases (n == 0)) [
          | inl z ↦
              let nothing : n ≡ 0 = zero_of n z in
              rw (e, z) (same, omega (arith, gone, nothing), omega arith)
          | inr z ↦ rw (e, z) (kept ∙ same, omega (arith, gone, sum), omega (arith, few))
        ]
      ]

  -- A table whose old rows fit the allowed chunks of 500 has none left after a pass in which no
  -- statement fails.
  pub process_table_clears :
      ((c : ℕ) → fails c ≡ false)
      → (left c : ℕ) (rows : List Row) → count_rows (is_before cutoff) rows ≤ chunk_size * left
      → (count_rows (is_before cutoff) (process_table fails cutoff left c rows).rows ≡ 0)
        × ((process_table fails cutoff left c rows).failed ≡ false)
  unfolding process_table
  process_table_clears sound zero c rows h = (omega arith, refl)
  process_table_clears sound (suc left) c rows h =
      let (rows', n) = delete_chunk cutoff rows in
      let (gone, short) = delete_oldest-count_rows (λ r. r.at) (is_before cutoff) chunk_size rows in
      elim (Bool-cases (n == 0)) [
        | inl z ↦
            let nothing : n ≡ 0 = zero_of n z in
            rw (sound c, z)
              (elim short [ inl full ↦ absurd (omega (arith, full, nothing)) | inr e ↦ e ], refl)
        | inr z ↦
            let fits : count_rows (is_before cutoff) rows' ≤ chunk_size * left = elim short [
              | inl full ↦ omega (arith, gone, full, h)
              | inr e ↦ omega (arith, e)
            ] in
            rw (sound c, z) (process_table_clears sound left (suc c) rows' fits)
      ]

-- What a run does to one table with the cutoff `c`.
abbrev pub IsPurged : (cutoff : ℕ) → List Row → List Row → Type 0
IsPurged c before after = count_rows (is_recent c) after ≡ count_rows (is_recent c) before

-- The rows that a run must keep: the logs from the cutoff on, the sessions that had not expired at
-- its start, and the import batches.
abbrev pub IsRetained : (started_at cutoff : ℕ) → Tables → Tables → Type 0
IsRetained started_at cutoff t t' =
    IsPurged cutoff t.admin_activity_logs t'.admin_activity_logs
    × IsPurged cutoff t.inventory_audit_events t'.inventory_audit_events
    × IsPurged started_at t.admin_refresh_sessions t'.admin_refresh_sessions
    × (t'.import_batches ≡ t.import_batches)

module _ (f : Faults) (cutoff started_at m : ℕ) (t : Tables) where
  purge-IsRetained : IsRetained started_at cutoff t (purge f cutoff started_at m t).0
  unfolding purge
  purge-IsRetained =
      let a = (process_table-IsPassed f.activity_fails cutoff m 0 t.admin_activity_logs).0 in
      let e = (process_table-IsPassed f.audit_fails cutoff m 0 t.inventory_audit_events).0 in
      let s = (process_table-IsPassed f.session_fails started_at m 0 t.admin_refresh_sessions).0 in
      elim (Bool-cases (process_table f.activity_fails cutoff m 0 t.admin_activity_logs).failed) [
        | inl x ↦ rw x (a, refl, refl, refl)
        | inr x ↦
            elim (Bool-cases
              (process_table f.audit_fails cutoff m 0 t.inventory_audit_events).failed) [
                | inl y ↦ rw (x, y) (a, e, refl, refl)
                | inr y ↦
                    elim (Bool-cases (
                      (process_table f.session_fails started_at m 0 t.admin_refresh_sessions).failed
                      || f.inspection_fails)) [
                        | inl z ↦ rw (x, y, z) (a, e, s, refl)
                        | inr z ↦ rw (x, y, z) (a, e, s, refl)
                      ]
              ]
      ]

-- Whatever fails, a retention run keeps as many log entries from the cutoff on and as many
-- sessions that had not expired at its start as there were, and all import batches.
pub run_retention_once-IsRetained :
    (f : Faults) (locked : Bool) (started_at cutoff m : ℕ) (t : Tables)
    → IsRetained started_at cutoff t (run_retention_once f locked (some (started_at, cutoff)) m t).0
unfolding run_retention_once purge_at
run_retention_once-IsRetained f locked started_at cutoff m t =
    let kept = purge-IsRetained f cutoff started_at m t in
    elim (Bool-cases (ltb m 1 || ltb max_chunks_per_table m)) [
      | inl x ↦ rw x (refl, refl, refl, refl)
      | inr x ↦ elim (Bool-cases locked) [
        | inr y ↦ rw (x, y) (refl, refl, refl, refl)
        | inl y ↦ elim (Bool-cases f.unlock_fails) [
          | inl z ↦ rw (x, y, z) kept
          | inr z ↦ rw (x, y, z) kept
        ]
      ]
    ]

-- No old row is left in a table that a run covers.
abbrev pub IsCleared : (started_at cutoff : ℕ) → Tables → Type 0
IsCleared started_at cutoff t =
    (count_rows (is_before cutoff) t.admin_activity_logs ≡ 0)
    × (count_rows (is_before cutoff) t.inventory_audit_events ≡ 0)
    × (count_rows (is_before started_at) t.admin_refresh_sessions ≡ 0)

judged_complete : (c : Counts) → (judged c).state ≡ complete → approved_backlog c ≡ 0
unfolding judged
judged_complete c e = elim (Bool-cases (ltb 0 (approved_backlog c))) [
  | inl x ↦ absurd (cc (rw x at e))
  | inr x ↦ ground arith
]

module _ (f : Faults) (cutoff started_at m : ℕ) (t : Tables) where
  -- The tables and the counts that the inspection sees.
  abbrev all_passed : Tables
  all_passed = record {
    admin_activity_logs = (process_table f.activity_fails cutoff m 0 t.admin_activity_logs).rows;
    inventory_audit_events = (process_table f.audit_fails cutoff m 0 t.inventory_audit_events).rows;
    admin_refresh_sessions =
        (process_table f.session_fails started_at m 0 t.admin_refresh_sessions).rows;
    import_batches = t.import_batches;
  }

  abbrev all_counted : Counts
  all_counted =
      let a = process_table f.activity_fails cutoff m 0 t.admin_activity_logs in
      let e = process_table f.audit_fails cutoff m 0 t.inventory_audit_events in
      let s = process_table f.session_fails started_at m 0 t.admin_refresh_sessions in
      record empty_counts {
        admin_activity_logs = a.removed;
        inventory_audit_events = e.removed;
        admin_refresh_sessions = s.removed;
        chunks = a.chunks + e.chunks + s.chunks;
      }

  purge-IsCleared :
      (purge f cutoff started_at m t).1.state ≡ complete
      → IsCleared started_at cutoff (purge f cutoff started_at m t).0
  unfolding purge inspect_backlog
  purge-IsCleared h =
      elim (Bool-cases (process_table f.activity_fails cutoff m 0 t.admin_activity_logs).failed) [
        | inl x ↦ absurd (cc (rw x at h))
        | inr x ↦
            elim (Bool-cases
              (process_table f.audit_fails cutoff m 0 t.inventory_audit_events).failed) [
                | inl y ↦ absurd (cc (rw (x, y) at h))
                | inr y ↦
                    elim (Bool-cases (
                      (process_table f.session_fails started_at m 0 t.admin_refresh_sessions).failed
                      || f.inspection_fails)) [
                        | inl z ↦ absurd (cc (rw (x, y, z) at h))
                        | inr z ↦
                            let none_left =
                              judged_complete
                                (inspect_backlog cutoff started_at all_passed all_counted)
                                (rw (x, y, z) at h) in
                            rw (x, y, z)
                              (
                                omega (arith, none_left),
                                omega (arith, none_left),
                                omega (arith, none_left),
                              )
                      ]
              ]
      ]

-- A run that reports `complete` has left no log entry before the cutoff and no session that had
-- expired at its start.
pub run_retention_once-IsCleared :
    (f : Faults) (locked : Bool) (started_at cutoff m : ℕ) (t : Tables)
    → (run_retention_once f locked (some (started_at, cutoff)) m t).1.state ≡ complete
    → IsCleared started_at cutoff (run_retention_once f locked (some (started_at, cutoff)) m t).0
unfolding run_retention_once purge_at
run_retention_once-IsCleared f locked started_at cutoff m t h =
    elim (Bool-cases (ltb m 1 || ltb max_chunks_per_table m)) [
      | inl x ↦ absurd (cc (rw x at h))
      | inr x ↦ elim (Bool-cases locked) [
        | inr y ↦ absurd (cc (rw (x, y) at h))
        | inl y ↦ elim (Bool-cases f.unlock_fails) [
          | inl z ↦ absurd (cc (rw (x, y, z) at h))
          | inr z ↦ rw (x, y, z) (purge-IsCleared f cutoff started_at m t (rw (x, y, z) at h))
        ]
      ]
    ]
