-- ===== src/History.antt =====
-- The history of fault reports and its receipts
-- (backend/src/services/faultReportHistory.service.ts), with the targets of reports
-- (backend/src/domain/reportTarget.ts). Doubles and texts beyond code units are those of
-- `Import.Platform`.
pub mod Targets
pub mod Notes
pub mod Record
mod Tests
use public_lighting_fault_re.Base.{ℕ, Bool, Option, List}
use public_lighting_fault_re.Import.{Text, Value}

-- `HistoryTarget`, what the client asks for.
pub data Wish : Type 0 where
  light_point : ℕ → Wish
  custom device : (latitude longitude : ℕ) → Wish
  manual : Wish

-- `ResolvedReportTarget`, or a manual one.
pub data Target : Type 0 where
  at_light_point : (id latitude longitude : ℕ) → Target
  at_custom at_device : (latitude longitude : ℕ) → Target
  by_hand : Target

pub data Area : Type 0 where
  inside outside invalid_coordinate unavailable : Area

pub data Refusal : Type 0 where
  invalid_submission_attempt_id invalid_locality invalid_fault_code : Refusal
  invalid_automatic_address invalid_automatic_address_proof invalid_report_target : Refusal
  invalid_coordinates light_point_not_found service_area_unavailable outside_service_area : Refusal

-- What the service takes from its configuration and from outside: the codes of the form, the area,
-- and the check of an address's proof under the server's secret.
pub record Rules : Type 0 where
  pub known_locality : Text → Bool
  pub known_fault_type : Text → Bool
  pub known_location_block : Text → Bool
  pub is_safe_id : ℕ → Bool
  pub id_of : ℕ → ℕ
  pub classify : (latitude longitude : ℕ) → Area
  pub verify_proof : Text → Target → Text → Bool

-- `FaultHistorySubmissionInput`, without the description.
pub record Submission : Type 0 where
  pub attempt_id : Option Text
  pub locality : Text
  pub automatic_address : Option Text
  pub automatic_address_proof : Option Text
  pub location_block : Option Text
  pub fault_type : Option Text
  pub report_target : Value

-- The note that `buildAutomaticFaultNotes` writes, by its numbers.
pub data Note : Type 0 where
  recurring : (id count : ℕ) → Option ℕ → Note
  recent : (id count : ℕ) → Note
  previous : (id at_time : ℕ) → Note

-- A row of `fault_report_history`.
pub record Report : Type 0 where
  pub id : ℕ
  pub submitted_at : ℕ
  pub locality : Text
  pub location_block : Option Text
  pub fault_type : Option Text
  pub target : Target
  pub notes : List Note

-- A row of `report_submission_attempts`, under the number of its UUID.
pub record Attempt : Type 0 where
  pub attempt_id : ℕ
  pub history_id : ℕ
  pub expires_at : ℕ

-- A row of `light_points`.
pub record Point : Type 0 where
  pub id : ℕ
  pub latitude : ℕ
  pub longitude : ℕ

-- The tables, with the state `auth` of those who authorise a submission.
pub record Tables (A : Type 0) : Type 0 where
  pub history : List Report
  pub attempts : List Attempt
  pub next_id : ℕ
  pub points : List Point
  pub auth : A

-- The readings of the database's clock: by the lookup, by the deletion, for the report, and by the
-- statement that inserts the receipt.
pub record Times : Type 0 where
  pub lookup : ℕ
  pub deletion : ℕ
  pub submission : ℕ
  pub receipt : ℕ

pub data Answer : Type 0 where
  recorded duplicate : (id submitted_at : ℕ) → Answer
  unauthorized : Answer
  refused : Refusal → Answer
  conflict : Answer
