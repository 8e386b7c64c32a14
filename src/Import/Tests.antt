-- ===== src/Import/Tests.antt =====
-- Files that are read and previewed, and the theorems at concrete inputs.
use public_lighting_fault_re.Base.{
  ℕ, ◌+◌, ◌-◌, ◌≡◌, refl, true, none, some, List, [], ◌∷◌, ◌++◌, ltb, length,
}
use public_lighting_fault_re.Base.Text.{codes}
use public_lighting_fault_re.Base.Tables.{find_row, update_rows, count_rows}
use public_lighting_fault_re.Import.{
  Text, Value, number, text, array, object, nil, cons, end, field, Platform, Payload, ParsedRow,
  rows, refused, missing_columns, missing_inventory_number,
}
use public_lighting_fault_re.Import.Records.{with_error, with_payload}
use public_lighting_fault_re.Import.Source.{parse_import_source}
use public_lighting_fault_re.Import.Source.Contents.{source_records}
use public_lighting_fault_re.Import.Source.Rows.{IsFile, parse_import_source-IsFile}
use public_lighting_fault_re.Import.Preview.{
  Point, has_number, group_rows, summarize, build_import_preview,
}
use public_lighting_fault_re.Import.Preview.Groups.{rows_with, group_of, group_rows-group_of}
use public_lighting_fault_re.Import.Preview.Once.{IsOnce}
use public_lighting_fault_re.Import.Preview.Files.{total, build_import_preview-parse_import_source}

abbrev lamp : Text → ℕ → Value
lamp n latitude = object (
    field (codes "inventory_number") (text n)
      (field (codes "lat") (number latitude) (field (codes "lng") (number 1002) end)))

abbrev content : Value
content = array (
    cons (lamp (codes "A") 1001) (
      cons (lamp (codes " A ") 1001)
        (cons (lamp (codes "B") 1005) (cons (lamp (codes "") 1006) nil))))

-- The number `1000 + x` stands for the double x.
abbrev platform : Platform
platform = record {
  is_finite = λ n. true;
  less = ltb;
  degrees = λ n. 1000 + n;
  negative = λ n. 2000 - n;
  to_text = λ n. n ∷ [];
  of_text = λ s. 1000 + length s;
  normalize = λ s. s;
  to_lower = λ s. s;
  parse_json = λ s. some content;
}

abbrev payload_of : Text → ℕ → Payload
payload_of n latitude = record {
  inventory_number = n;
  latitude = latitude;
  longitude = 1002;
  external_id = none;
  address = none;
  district = none;
  lamp_type = none;
  status = none;
}

abbrev parsed : List ParsedRow
parsed =
    with_payload platform 1 (payload_of (codes "A") 1001)
    ∷ with_payload platform 2 (payload_of (codes "A") 1001)
    ∷ with_payload platform 3 (payload_of (codes "B") 1005)
    ∷ with_error platform 4 [] missing_inventory_number
    ∷ []

abbrev stringify : Payload → Text
stringify q = q.latitude ∷ q.inventory_number

abbrev points : List Point
points = (record { inventory_number = codes "B"; id = 7 }) ∷ []

json_rows :
    parse_import_source platform 100 (codes "[]") (codes "application/json") (codes "lamps")
    ≡ rows parsed
unfolding parse_import_source
json_rows = refl

csv_rows :
    parse_import_source platform 100
      (codes "inventory_number,lat" ++ (10 ∷ codes "A,1"))
      []
      (codes "lamps.csv")
    ≡ refused missing_columns
unfolding parse_import_source
csv_rows = refl

counted_rows :
    summarize (build_import_preview points stringify parsed)
    ≡ record { to_create = 1; to_update = 1; skipped_count = 1; errors = 1 }
unfolding summarize build_import_preview find_row update_rows count_rows
counted_rows = refl

parse_import_source-IsFile_example :
    IsFile platform
      (source_records platform (codes "[]") (codes "application/json") (codes "lamps"))
      (parse_import_source platform 100 (codes "[]") (codes "application/json") (codes "lamps"))
parse_import_source-IsFile_example =
    parse_import_source-IsFile platform 100 (codes "[]") (codes "application/json") (codes "lamps")

group_rows-group_of_example :
    find_row (has_number (codes "A")) (group_rows stringify parsed [])
    ≡ group_of stringify (rows_with (codes "A") parsed)
group_rows-group_of_example = group_rows-group_of stringify (codes "A") parsed refl

build_import_preview-parse_import_source_example :
    IsOnce (build_import_preview points stringify parsed)
    × (total (build_import_preview points stringify parsed) ≡ length parsed)
unfolding parse_import_source
build_import_preview-parse_import_source_example =
    build_import_preview-parse_import_source platform points stringify 100 (codes "[]")
      (codes "application/json") (codes "lamps") parsed refl
