-- ===== src/Import/Source/Contents.antt =====
-- The records that a file of an import holds, by its format.
use public_lighting_fault_re.Base.{ℕ, Option, none, some, List, [], ◌∷◌, if◌then◌else◌, map}
use public_lighting_fault_re.Base.Text.{codes, trim}
use public_lighting_fault_re.Csv.{parse_csv_records}
use public_lighting_fault_re.Import.{
  Text, Value, array, object, Items, nil, cons, Fields, Platform, ParsedRow,
}
use public_lighting_fault_re.Import.Records.{property, parse_record}
use public_lighting_fault_re.Import.Source.{parse_cells, parse_feature, is_json, without_mark}

-- A line of a CSV file under its header, an element of a JSON array, a feature, or a whole object.
pub data Record : Type 0 where
  line : (headers values : List Text) → Record
  item feature : Value → Record
  whole : Fields → Record

abbrev pub items_of : (Value → Record) → Items → List Record
items_of g nil = []
items_of g (cons v vs) = g v ∷ items_of g vs

abbrev pub table_records : List (List Text) → List Record
table_records [] = []
table_records (first ∷ rs) = map (line (map trim first)) rs

unfoldable pub csv_records : Text → List Record
csv_records s = elim (parse_csv_records (without_mark s)) [
  | none ↦ []
  | some records ↦ table_records records
]

abbrev pub feature_records : Option Value → Fields → List Record
feature_records none fs = whole fs ∷ []
feature_records (some (array vs)) fs = items_of feature vs
feature_records (some _) fs = []

abbrev pub json_records : Option Value → List Record
json_records (some (array vs)) = items_of item vs
json_records (some (object fs)) = feature_records (property (codes "features") fs) fs
json_records _ = []

module _ (p : Platform) where
  abbrev pub source_records : (content mimetype name : Text) → List Record
  source_records content mimetype name =
      if is_json p mimetype name then json_records (p.parse_json content) else csv_records content

  -- What is made of one record with its number.
  abbrev pub row_of : Record → ℕ → ParsedRow
  row_of (line headers values) i = parse_cells p headers values i
  row_of (item v) i = parse_record p v i none
  row_of (feature v) i = parse_feature p v i
  row_of (whole fs) i = parse_record p (object fs) i none
