-- ===== src/Retention.antt =====
-- The retention run: backend/src/operations/retention.ts. Times are milliseconds since 1970; each
-- table is the list of its rows in the order of their ids. A statement, the reading of the clock
-- or the release of the lock may fail: `Faults` says which.
pub mod Laws
mod Tests
use Prim.Native.String.{String}
use public_lighting_fault_re.Base.{
  ℕ, zero, suc, ◌+◌, ◌-◌, Bool, true, false, not, ◌&&◌, ◌||◌, Option, none, some, List, [], ◌∷◌,
  ltb, leb, ◌==◌, if◌then◌else◌, any,
}
use public_lighting_fault_re.Base.Tables.{delete_oldest, count_rows}

abbrev pub chunk_size : ℕ
chunk_size = 500

abbrev pub max_chunks_per_table : ℕ
max_chunks_per_table = 100

-- A row by its timestamp, with the import batch that an audit event names.
pub record Row : Type 0 where
  pub at : ℕ
  pub import_batch_id : Option ℕ

-- A row of `import_batches`: whether its status is final, and whether it has pending rows.
pub record BatchRow : Type 0 where
  pub id : ℕ
  pub is_final : Bool
  pub completed_at : Option ℕ
  pub has_pending : Bool

pub record Tables : Type 0 where
  pub admin_activity_logs : List Row
  pub inventory_audit_events : List Row
  pub admin_refresh_sessions : List Row
  pub import_batches : List BatchRow

-- `RetentionCounts`
pub record Counts : Type 0 where
  pub admin_activity_logs : ℕ
  pub inventory_audit_events : ℕ
  pub admin_refresh_sessions : ℕ
  pub admin_activity_logs_eligible : ℕ
  pub inventory_audit_events_eligible : ℕ
  pub admin_refresh_sessions_eligible : ℕ
  pub deferred_import_batches : ℕ
  pub import_batches_missing_completion : ℕ
  pub import_batches_with_pending_rows : ℕ
  pub import_batches_referenced_by_retained_audit : ℕ
  pub chunks : ℕ

-- `emptyCounts`
abbrev pub empty_counts : Counts
empty_counts = record {
  admin_activity_logs = 0;
  inventory_audit_events = 0;
  admin_refresh_sessions = 0;
  admin_activity_logs_eligible = 0;
  inventory_audit_events_eligible = 0;
  admin_refresh_sessions_eligible = 0;
  deferred_import_batches = 0;
  import_batches_missing_completion = 0;
  import_batches_with_pending_rows = 0;
  import_batches_referenced_by_retained_audit = 0;
  chunks = 0;
}

abbrev pub is_before : ℕ → Row → Bool
is_before cutoff r = ltb r.at cutoff

-- `deleteChunk` that does not fail.
abbrev pub delete_chunk : (cutoff : ℕ) → List Row → List Row × ℕ
delete_chunk cutoff rows = delete_oldest chunk_size (λ r. r.at) (is_before cutoff) rows

-- What `processTable` leaves: the rows, those removed, the chunks, and whether it threw.
pub record Pass : Type 0 where
  pub rows : List Row
  pub removed : ℕ
  pub chunks : ℕ
  pub failed : Bool

-- `processTable`: the loop from the chunk `c` on, with `left` chunks allowed; `fails c` says that
-- the statement of the chunk `c` raises an error and is rolled back.
unfoldable pub process_table : (fails : ℕ → Bool) → (cutoff left c : ℕ) → List Row → Pass
unfolding delete_oldest
process_table fails cutoff zero c rows = record {
  rows = rows;
  removed = 0;
  chunks = 0;
  failed = false;
}
process_table fails cutoff (suc left) c rows =
    let (rows', n) = delete_chunk cutoff rows in
    let rest = process_table fails cutoff left (suc c) rows' in
    if fails c
    then record { rows = rows; removed = 0; chunks = 0; failed = true }
    else if n == 0
    then record { rows = rows'; removed = 0; chunks = 0; failed = false }
    else record rest { removed = n + rest.removed; chunks = suc rest.chunks }

pub record Faults : Type 0 where
  pub activity_fails : ℕ → Bool
  pub audit_fails : ℕ → Bool
  pub session_fails : ℕ → Bool
  pub inspection_fails : Bool
  pub unlock_fails : Bool

abbrev pub is_over : ℕ → Option ℕ → Bool
is_over cutoff none = false
is_over cutoff (some t) = ltb t cutoff

abbrev is_absent : Option ℕ → Bool
is_absent none = true
is_absent (some t) = false

abbrev names_batch : ℕ → Option ℕ → Bool
names_batch b none = false
names_batch b (some c) = c == b

abbrev pub has_audit : List Row → BatchRow → Bool
has_audit audits b = any (λ r. names_batch b.id r.import_batch_id) audits

-- `inspectBacklog`
unfoldable pub inspect_backlog : (cutoff started_at : ℕ) → Tables → Counts → Counts
unfolding count_rows
inspect_backlog cutoff started_at t c = record c {
  admin_activity_logs_eligible = count_rows (is_before cutoff) t.admin_activity_logs;
  inventory_audit_events_eligible = count_rows (is_before cutoff) t.inventory_audit_events;
  admin_refresh_sessions_eligible = count_rows (is_before started_at) t.admin_refresh_sessions;
  deferred_import_batches =
      count_rows
        (λ b.
          b.is_final
          && is_over cutoff b.completed_at
          && not b.has_pending
          && not (has_audit t.inventory_audit_events b))
        t.import_batches;
  import_batches_missing_completion =
      count_rows (λ b. b.is_final && is_absent b.completed_at) t.import_batches;
  import_batches_with_pending_rows =
      count_rows (λ b. b.is_final && is_over cutoff b.completed_at && b.has_pending)
        t.import_batches;
  import_batches_referenced_by_retained_audit =
      count_rows
        (λ b. b.is_final && is_over cutoff b.completed_at && has_audit t.inventory_audit_events b)
        t.import_batches;
}

pub data RunState : Type 0 where
  complete success_with_backlog skipped_overlapping incomplete : RunState

pub record RunResult : Type 0 where
  pub state : RunState
  pub exit_code : ℕ
  pub reason_code : String
  pub counts : Counts

abbrev pub import_backlog : Counts → ℕ
import_backlog c =
    c.deferred_import_batches + c.import_batches_missing_completion
    + c.import_batches_with_pending_rows + c.import_batches_referenced_by_retained_audit

abbrev pub approved_backlog : Counts → ℕ
approved_backlog c =
    c.admin_activity_logs_eligible + c.inventory_audit_events_eligible
    + c.admin_refresh_sessions_eligible

-- The verdict on the backlog.
unfoldable pub judged : Counts → RunResult
judged c =
    if ltb 0 (approved_backlog c)
    then record {
      state = success_with_backlog;
      exit_code = 0;
      reason_code = "retention_chunk_ceiling_reached";
      counts = c;
    }
    else if ltb 0 (import_backlog c)
    then record {
      state = success_with_backlog;
      exit_code = 0;
      reason_code = "retention_safe_backlog_present";
      counts = c;
    }
    else record { state = complete; exit_code = 0; reason_code = "retention_completed"; counts = c }

abbrev failed_run : Counts → RunResult
failed_run c = record {
  state = incomplete;
  exit_code = 1;
  reason_code = "retention_chunk_or_preflight_failed";
  counts = c;
}

-- The three tables one after the other, up to the first that throws.
unfoldable pub purge : Faults → (cutoff started_at max_chunks : ℕ) → Tables → Tables × RunResult
unfolding process_table inspect_backlog judged
purge f cutoff started_at m t =
    let a = process_table f.activity_fails cutoff m 0 t.admin_activity_logs in
    let t₁ = record t { admin_activity_logs = a.rows } in
    let c₁ = record empty_counts { admin_activity_logs = a.removed; chunks = a.chunks } in
    let e = process_table f.audit_fails cutoff m 0 t.inventory_audit_events in
    let t₂ = record t₁ { inventory_audit_events = e.rows } in
    let c₂ = record c₁ { inventory_audit_events = e.removed; chunks = a.chunks + e.chunks } in
    let s = process_table f.session_fails started_at m 0 t.admin_refresh_sessions in
    let t₃ = record t₂ { admin_refresh_sessions = s.rows } in
    let c₃ = record c₂ {
      admin_refresh_sessions = s.removed;
      chunks = a.chunks + e.chunks + s.chunks;
    } in
    if a.failed
    then (t₁, failed_run c₁)
    else if e.failed
    then (t₂, failed_run c₂)
    else if s.failed || f.inspection_fails
    then (t₃, failed_run c₃)
    else (t₃, judged (inspect_backlog cutoff started_at t₃ c₃))

abbrev invalid_bound : RunResult
invalid_bound = record {
  state = incomplete;
  exit_code = 1;
  reason_code = "retention_chunk_bound_invalid";
  counts = empty_counts;
}

abbrev overlapping : RunResult
overlapping = record {
  state = skipped_overlapping;
  exit_code = 10;
  reason_code = "retention_already_running";
  counts = empty_counts;
}

-- With the clock read, if the database answered.
unfoldable pub purge_at : Faults → Option (ℕ × ℕ) → (max_chunks : ℕ) → Tables → Tables × RunResult
unfolding purge
purge_at f none m t = (t, failed_run empty_counts)
purge_at f (some (started_at, cutoff)) m t = purge f cutoff started_at m t

abbrev unlock_failed : RunResult → RunResult
unlock_failed r = record {
  state = incomplete;
  exit_code = 1;
  reason_code = "retention_lock_release_failed";
  counts = r.counts;
}

-- `runRetentionOnce` from the check of the bound on: `locked` says whether the advisory lock was
-- free; `clock` is the start and the cutoff.
unfoldable pub run_retention_once :
    Faults → (locked : Bool) → Option (ℕ × ℕ) → (max_chunks : ℕ) → Tables → Tables × RunResult
unfolding purge_at
run_retention_once f locked clock m t =
    let (t', r) = purge_at f clock m t in
    if ltb m 1 || ltb max_chunks_per_table m
    then (t, invalid_bound)
    else if not locked
    then (t, overlapping)
    else if f.unlock_fails
    then (t', unlock_failed r)
    else (t', r)
