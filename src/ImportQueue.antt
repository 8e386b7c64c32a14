-- ===== src/ImportQueue.antt =====
-- The queue of inventory imports: backend/src/services/importQueueWorker.service.ts, and
-- `confirmImport` of streetLightsImport.service.ts. The tables are lists of rows, the rows of a
-- batch in the order of their source rows. Texts and coordinates, which are only copied and
-- compared, are numbers. Each statement or transaction runs alone, with its reading of the clock.
pub mod Rows
pub mod Worker
pub mod Batches
mod Counts
pub mod Counters
mod Faults
pub mod Whole
pub mod Progress
pub mod Finish
pub mod Claim
mod Tests
use public_lighting_fault_re.Base.{
  ℕ, zero, suc, ◌+◌, Bool, true, false, not, ◌&&◌, ◌||◌, Option, none, some, List, [], ◌∷◌, ltb,
  leb, ◌==◌, if◌then◌else◌,
}

-- A row of `light_points`.
pub record Point : Type 0 where
  pub id : ℕ
  pub inventory_number : ℕ
  pub external_id : Option ℕ
  pub longitude : ℕ
  pub latitude : ℕ
  pub address : Option ℕ
  pub district : Option ℕ
  pub lamp_type : Option ℕ
  pub status : ℕ

-- `ImportPayload`; an optional field is `some` where `present` names it.
pub record Payload : Type 0 where
  pub inventory_number : ℕ
  pub longitude : ℕ
  pub latitude : ℕ
  pub external_id : Option (Option ℕ)
  pub address : Option (Option ℕ)
  pub district : Option (Option ℕ)
  pub lamp_type : Option (Option ℕ)
  pub status : Option ℕ

-- `RowOutcome`
pub data Kind : Type 0 where
  created updated unchanged skipped failed : Kind

-- The column `outcome`, with the payload that the table's check asks of a pending row alone.
pub data Outcome : Type 0 where
  pending : Payload → Outcome
  settled : Kind → Outcome

-- A row of `import_batch_rows`.
pub record ImportRow : Type 0 where
  pub batch_id : ℕ
  pub source_row_number : ℕ
  pub outcome : Outcome
  pub entity_id : Option ℕ
  pub reason_code : Option ℕ

pub data BatchStatus : Type 0 where
  preview queued processing completed completed_with_errors batch_failed system_failed : BatchStatus

-- A row of `import_batches`.
pub record Batch : Type 0 where
  pub id : ℕ
  pub confirmation_key : Option ℕ
  pub uploaded_by_admin_id : ℕ
  pub status : BatchStatus
  pub update_existing : Bool
  pub preview_expires_at : Option ℕ
  pub queued_at : ℕ
  pub started_at : Option ℕ
  pub completed_at : Option ℕ
  pub lease_until : Option ℕ
  pub worker_token : Option ℕ
  pub attempt_count : ℕ
  pub created_rows : ℕ
  pub updated_rows : ℕ
  pub unchanged_rows : ℕ
  pub skipped_rows : ℕ
  pub failed_rows : ℕ
  pub applied_rows : ℕ
  pub successful_rows : ℕ

-- A row of `inventory_audit_events`, less the changed fields.
pub data Audit : Type 0 where
  audited : (entity inventory_number batch : ℕ) → Kind → Audit

pub record Db : Type 0 where
  pub points : List Point
  pub next_point : ℕ
  pub rows : List ImportRow
  pub batches : List Batch
  pub audits : List Audit

abbrev pub lease_seconds : ℕ
lease_seconds = 30

abbrev pub rows_per_query : ℕ
rows_per_query = 100

abbrev pub same_kind : Kind → Kind → Bool
same_kind created created = true
same_kind updated updated = true
same_kind unchanged unchanged = true
same_kind skipped skipped = true
same_kind failed failed = true
same_kind _ _ = false

abbrev pub is_kind : Kind → Outcome → Bool
is_kind k (pending p) = false
is_kind k (settled l) = same_kind k l

abbrev pub is_pending : Outcome → Bool
is_pending (pending p) = true
is_pending (settled k) = false

abbrev pub is_processing : BatchStatus → Bool
is_processing processing = true
is_processing _ = false

abbrev pub is_queued : BatchStatus → Bool
is_queued queued = true
is_queued _ = false

abbrev pub is_preview : BatchStatus → Bool
is_preview preview = true
is_preview _ = false

abbrev pub is_option : Option ℕ → Option ℕ → Bool
is_option none none = true
is_option (some a) (some b) = a == b
is_option _ _ = false

-- `b.id = $1 AND b.status = 'processing' AND b.worker_token = $2`
abbrev pub is_claimed : (id token : ℕ) → Batch → Bool
is_claimed id token b =
    b.id == id && is_processing b.status && is_option b.worker_token (some token)

-- The rows of a batch with a given outcome.
abbrev pub is_row_of : ℕ → Kind → ImportRow → Bool
is_row_of b k r = r.batch_id == b && is_kind k r.outcome

abbrev pub is_open_row : ℕ → ImportRow → Bool
is_open_row b r = r.batch_id == b && is_pending r.outcome
