-- ===== src/Import.antt =====
-- The import of inventory files: parsed JSON, rows and payloads
-- (backend/src/services/streetLightsImport.service.ts). A double is a number that stands for it:
-- what the service does with doubles, and with texts beyond code units, are the functions of
-- `Platform`.
pub mod Records
pub mod Source
pub mod Preview
mod Tests
use public_lighting_fault_re.Base.{ℕ, Bool, Option, List}

abbrev pub Text : Type 0
Text = List ℕ

mutual
  -- What `JSON.parse` returns; an object holds its own properties.
  pub data Value : Type 0 where
    null : Value
    boolean : Bool → Value
    number : ℕ → Value
    text : Text → Value
    array : Items → Value
    object : Fields → Value

  pub data Items : Type 0 where
    nil : Items
    cons : Value → Items → Items

  pub data Fields : Type 0 where
    end : Fields
    field : Text → Value → Fields → Fields

pub record Platform : Type 0 where
  pub is_finite : ℕ → Bool
  pub less : ℕ → ℕ → Bool
  pub degrees : ℕ → ℕ
  pub negative : ℕ → ℕ
  pub to_text : ℕ → Text
  pub of_text : Text → ℕ
  pub normalize : Text → Text
  pub to_lower : Text → Text
  pub parse_json : Text → Option Value

pub data Status : Type 0 where
  active inactive maintenance : Status

-- `ImportPayload`; an optional field is `some` where `present` names it.
pub record Payload : Type 0 where
  pub inventory_number : Text
  pub latitude : ℕ
  pub longitude : ℕ
  pub external_id : Option (Option Text)
  pub address : Option (Option Text)
  pub district : Option (Option Text)
  pub lamp_type : Option (Option Text)
  pub status : Option Status

pub data RowError : Type 0 where
  invalid_row missing_inventory_number invalid_coordinates invalid_external_id : RowError
  invalid_address invalid_district invalid_lamp_type invalid_status malformed_record : RowError
  invalid_geometry conflicting_duplicate_inventory_number : RowError

-- `ParsedImportRow`, without the texts of the messages.
pub record ParsedRow : Type 0 where
  pub row_index : ℕ
  pub inventory_number : Text
  pub payload : Option Payload
  pub error_code : Option RowError
  pub duplicate_of : Option ℕ

-- The errors that refuse a whole file.
pub data FileError : Type 0 where
  too_large too_many_rows empty_file invalid_json no_features unsupported_structure : FileError
  malformed_csv no_data_records duplicate_headers missing_columns : FileError

pub data Parsed : Type 0 where
  rows : List ParsedRow → Parsed
  refused : FileError → Parsed
