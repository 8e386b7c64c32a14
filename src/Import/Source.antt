-- ===== src/Import/Source.antt =====
-- `parseCsv` and `parseImportSource`: the rows of a file.
pub mod Contents
pub mod Rows
use public_lighting_fault_re.Base.{
  ℕ, suc, ◌+◌, ◌*◌, ◌^◌, Bool, true, false, Option, none, some, List, [], ◌∷◌, ltb, ◌==◌,
  if◌then◌else◌, ◌&&◌, ◌||◌, any, not, length, map,
}
use public_lighting_fault_re.Base.Text.{codes, trim, same_text, starts_with}
use public_lighting_fault_re.Csv.{parse_csv_records}
use public_lighting_fault_re.Import.{
  Text, Value, null, text, array, object, Items, nil, cons, Fields, end, field, Platform,
  malformed_record, invalid_geometry, ParsedRow, too_large, too_many_rows, empty_file, invalid_json,
  no_features, unsupported_structure, malformed_csv, no_data_records, duplicate_headers,
  missing_columns, Parsed, rows, refused,
}
use public_lighting_fault_re.Import.Records.{is_blank, property, with_error, parse_record}

abbrev pub max_import_file_bytes : ℕ
max_import_file_bytes = 16 * 1024 * 1024

abbrev pub max_import_rows : ℕ
max_import_rows = 50_000

-- `text.replace(/^\uFEFF/, '')`
abbrev pub without_mark : Text → Text
without_mark [] = []
without_mark (c ∷ s) = if c == 65279 then s else c ∷ s

unfoldable pub has_duplicates : List Text → Bool
has_duplicates [] = false
has_duplicates (h ∷ hs) = any (same_text h) hs || has_duplicates hs

-- Whether a column has one of the names.
abbrev has_column : List Text → List Text → Bool
has_column names headers = any (λ h. any (same_text h) names) headers

abbrev pub has_columns : List Text → Bool
has_columns headers =
    has_column (codes "inventory_number" ∷ codes "inventoryNumber" ∷ []) headers
    && has_column (codes "latitude" ∷ codes "lat" ∷ []) headers
    && has_column (codes "longitude" ∷ codes "lon" ∷ codes "lng" ∷ []) headers

-- The object of a record; the headers are distinct.
unfoldable pub zip_fields : List Text → List Text → Fields
zip_fields (h ∷ hs) (v ∷ vs) = field h (text v) (zip_fields hs vs)
zip_fields _ _ = end

abbrev pub count_items : Items → ℕ
count_items nil = 0
count_items (cons v vs) = suc (count_items vs)

abbrev pub ends_with : Text → Text → Bool
ends_with suffix [] = is_blank suffix
ends_with suffix (c ∷ s) = same_text suffix (c ∷ s) || ends_with suffix s

abbrev pub includes : Text → Text → Bool
includes part [] = is_blank part
includes part (c ∷ s) = starts_with part (c ∷ s) || includes part s

-- The coordinates of a `Point`.
abbrev pub point_of : Option Value → Option Items
point_of (some (object fs)) = elim (property (codes "type") fs) [
  | some (text t) ↦
      if same_text t (codes "Point")
      then elim (property (codes "coordinates") fs) [ some (array vs) ↦ some vs | _ ↦ none ]
      else none
  | _ ↦ none
]
point_of _ = none

module _ (p : Platform) where
  -- A data record of a CSV file.
  unfoldable pub parse_cells : List Text → List Text → ℕ → ParsedRow
  unfolding parse_record zip_fields
  parse_cells headers values i =
      if length values == length headers
      then parse_record p (object (zip_fields headers values)) i none
      else with_error p i [] malformed_record

  unfoldable pub parse_data : List Text → List (List Text) → ℕ → List ParsedRow
  unfolding parse_cells
  parse_data headers [] i = []
  parse_data headers (r ∷ rs) i = parse_cells headers r i ∷ parse_data headers rs (suc i)

  -- The header and the data of a CSV file.
  unfoldable pub parse_table : List (List Text) → Parsed
  unfolding has_duplicates parse_data trim
  parse_table [] = refused no_data_records
  parse_table (first ∷ data_records) =
      let headers = map trim first in
      if length data_records == 0
      then refused no_data_records
      else if ltb max_import_rows (length data_records)
      then refused too_many_rows
      else if has_duplicates headers
      then refused duplicate_headers
      else if has_columns headers
      then rows (parse_data headers data_records 1)
      else refused missing_columns

  -- `parseCsv`
  unfoldable pub parse_csv : Text → Parsed
  unfolding parse_csv_records parse_table
  parse_csv s = elim (parse_csv_records (without_mark s)) [
    | none ↦ refused malformed_csv
    | some records ↦ parse_table records
  ]

  -- A feature of a GeoJSON collection; an array has none of the properties.
  unfoldable pub parse_feature : Value → ℕ → ParsedRow
  unfolding property parse_record
  parse_feature (object fs) i = elim (point_of (property (codes "geometry") fs)) [
    | none ↦ with_error p i [] invalid_geometry
    | some geo ↦ elim (property (codes "properties") fs) [
      | none ↦ parse_record p null i (some geo)
      | some v ↦ parse_record p v i (some geo)
    ]
  ]
  parse_feature (array vs) i = with_error p i [] invalid_geometry
  parse_feature _ i = parse_record p null i none

  unfoldable pub parse_items : (Value → ℕ → ParsedRow) → Items → ℕ → List ParsedRow
  parse_items f nil i = []
  parse_items f (cons v vs) i = f v i ∷ parse_items f vs (suc i)

  abbrev pub record_of : Value → ℕ → ParsedRow
  record_of v i = parse_record p v i none

  unfoldable pub parse_features : Option Value → Fields → Parsed
  unfolding parse_items parse_feature parse_record
  parse_features none fs = rows (parse_record p (object fs) 1 none ∷ [])
  parse_features (some (array vs)) fs =
      if ltb max_import_rows (count_items vs)
      then refused too_many_rows
      else rows (parse_items parse_feature vs 1)
  parse_features (some _) fs = refused no_features

  unfoldable pub parse_json_source : Option Value → Parsed
  unfolding parse_items parse_features property
  parse_json_source none = refused invalid_json
  parse_json_source (some (array vs)) =
      if ltb max_import_rows (count_items vs)
      then refused too_many_rows
      else rows (parse_items record_of vs 1)
  parse_json_source (some (object fs)) = parse_features (property (codes "features") fs) fs
  parse_json_source (some _) = refused unsupported_structure

  abbrev pub is_json : Text → Text → Bool
  is_json mimetype name =
      includes (codes "json") mimetype
      || ends_with (codes ".json") (p.to_lower name)
      || ends_with (codes ".geojson") (p.to_lower name)

  -- `parseImportSource`, on the size of the file and its bytes read as text.
  unfoldable pub parse_import_source : (bytes : ℕ) → (content mimetype name : Text) → Parsed
  unfolding parse_csv parse_json_source trim
  parse_import_source bytes content mimetype name =
      if ltb max_import_file_bytes bytes
      then refused too_large
      else if is_blank (trim content)
      then refused empty_file
      else if is_json mimetype name
      then parse_json_source (p.parse_json content)
      else parse_csv content
