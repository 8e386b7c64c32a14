-- ===== src/Import/Source/Rows.antt =====
-- The rows that a file yields: numbered in order, with coordinates in range wherever there is a
-- payload.
use mathlib.Core.Path.{subst}
use public_lighting_fault_re.Base.{
  ℕ, suc, ◌≤◌, ◌≡◌, refl, ap, inl, inr, false, Option, none, some, List, [], ◌∷◌, arith, ltb, ◌==◌,
  length, map, Bool-cases, Option-cases,
}
use public_lighting_fault_re.Base.Text.{codes, trim}
use public_lighting_fault_re.Csv.{parse_csv_records}
use public_lighting_fault_re.Import.{
  Text, Value, null, boolean, number, text, array, object, Items, nil, cons, Fields, Platform,
  Payload, RowError, ParsedRow, Parsed, rows, refused,
}
use public_lighting_fault_re.Import.Records.{
  is_blank, text_of, first_own, property, canonicalize, is_outside, with_error, with_payload,
  optional_field, status_field, parse_fields, longitude_of, latitude_of, parse_located,
  parse_object, parse_record,
}
use public_lighting_fault_re.Import.Source.{
  max_import_file_bytes, max_import_rows, has_duplicates, has_columns, count_items, point_of,
  zip_fields, parse_cells, parse_data, parse_table, parse_csv, parse_feature, parse_items,
  parse_features, parse_json_source, is_json, parse_import_source, record_of, without_mark,
}
use public_lighting_fault_re.Import.Source.Contents.{
  Record, line, item, feature, items_of, table_records, csv_records, feature_records, json_records,
  source_records, row_of,
}

module _ (p : Platform) where
  -- A payload's number is the row's, is not empty, and its coordinates are in range.
  abbrev pub IsInRange : ParsedRow → Payload → Type 0
  IsInRange r q =
      (r.inventory_number ≡ q.inventory_number)
      × (is_blank q.inventory_number ≡ false)
      × (is_outside p q.latitude q.longitude ≡ false)

  -- The row has the number `i`, no link to another row yet, and a payload or an error.
  abbrev pub IsRow : ℕ → ParsedRow → Type 0
  IsRow i r =
      (r.row_index ≡ i)
      × (r.duplicate_of ≡ none)
      × ((q : Payload) → r.payload ≡ some q → IsInRange r q × (r.error_code ≡ none))
      × (r.payload ≡ none → (e : RowError) × (r.error_code ≡ some e))

  abbrev pub AreRows : ℕ → List ParsedRow → Type 0
  AreRows i [] = Unit
  AreRows i (r ∷ rs) = IsRow i r × AreRows (suc i) rs

  with_error-IsRow : (i : ℕ) (n : Text) (e : RowError) → IsRow i (with_error p i n e)
  with_error-IsRow i n e = (refl, refl, λ q h. absurd (cc), λ h. (e, refl))

  with_payload-IsRow :
      (i : ℕ) (q : Payload)
      → is_blank q.inventory_number ≡ false
      → is_outside p q.latitude q.longitude ≡ false
      → IsRow i (with_payload p i q)
  with_payload-IsRow i q named inside = (
    refl,
    refl,
    λ q' h.
        let same : q ≡ q' = ground arith in
        subst (λ t. IsInRange (with_payload p i q) t × ((with_payload p i q).error_code ≡ none))
          same ((refl, named, inside), refl),
    λ h. absurd (cc),
  )

  parse_fields-IsRow :
      (i : ℕ) (n : Text) (latitude longitude : ℕ) (fs : Fields)
      → is_blank n ≡ false
      → is_outside p latitude longitude ≡ false
      → IsRow i (parse_fields p i n latitude longitude fs)
  unfolding parse_fields
  parse_fields-IsRow i n latitude longitude fs named inside =
      let external = optional_field p fs (codes "external_id" ∷ codes "externalId" ∷ []) in
      let address = optional_field p fs (codes "address" ∷ []) in
      let district = optional_field p fs (codes "district" ∷ []) in
      let lamp = optional_field p fs (codes "lamp_type" ∷ codes "lampType" ∷ []) in
      elim (Option-cases external) [
        | inl e ↦ rw (e, parse_fields) (with_error-IsRow i n _)
        | inr (x, e) ↦ elim (Option-cases address) [
          | inl f ↦ rw (e, f, parse_fields) (with_error-IsRow i n _)
          | inr (a, f) ↦ elim (Option-cases district) [
            | inl g ↦ rw (e, f, g, parse_fields) (with_error-IsRow i n _)
            | inr (d, g) ↦ elim (Option-cases lamp) [
              | inl h ↦ rw (e, f, g, h, parse_fields) (with_error-IsRow i n _)
              | inr (l, h) ↦ elim (Option-cases (status_field p fs)) [
                | inl k ↦ rw (e, f, g, h, k, parse_fields) (with_error-IsRow i n _)
                | inr (t, k) ↦
                    rw (e, f, g, h, k, parse_fields) (with_payload-IsRow i _ named inside)
              ]
            ]
          ]
        ]
      ]

  parse_located-IsRow :
      (i : ℕ) (n : Text) (latitude longitude : Option ℕ) (fs : Fields)
      → is_blank n ≡ false
      → IsRow i (parse_located p i n latitude longitude fs)
  unfolding parse_located
  parse_located-IsRow i n none longitude fs named = with_error-IsRow i n _
  parse_located-IsRow i n (some latitude) none fs named = with_error-IsRow i n _
  parse_located-IsRow i n (some latitude) (some longitude) fs named =
      elim (Bool-cases (is_outside p latitude longitude)) [
        | inl e ↦ rw e (with_error-IsRow i n _)
        | inr e ↦ rw e (parse_fields-IsRow i n latitude longitude fs named e)
      ]

  parse_object-IsRow :
      (fs : Fields) (i : ℕ) (geo : Option Items) → IsRow i (parse_object p fs i geo)
  unfolding parse_object
  parse_object-IsRow fs i geo =
      let keys = codes "inventory_number" ∷ codes "inventoryNumber" ∷ [] in
      let n = canonicalize p (text_of (first_own fs keys)) in
      elim (Bool-cases (is_blank n)) [
        | inl e ↦ rw e (with_error-IsRow i [] _)
        | inr e ↦ rw e (parse_located-IsRow i n (latitude_of p geo fs) (longitude_of p geo fs) fs e)
      ]

  parse_record-IsRow : (v : Value) (i : ℕ) (geo : Option Items) → IsRow i (parse_record p v i geo)
  unfolding parse_record
  parse_record-IsRow null i geo = with_error-IsRow i [] _
  parse_record-IsRow (boolean b) i geo = with_error-IsRow i [] _
  parse_record-IsRow (number n) i geo = with_error-IsRow i [] _
  parse_record-IsRow (text s) i geo = with_error-IsRow i [] _
  parse_record-IsRow (array vs) i geo = with_error-IsRow i [] _
  parse_record-IsRow (object fs) i geo = parse_object-IsRow fs i geo

  parse_cells-IsRow :
      (headers values : List Text) (i : ℕ) → IsRow i (parse_cells p headers values i)
  unfolding parse_cells
  parse_cells-IsRow headers values i = elim (Bool-cases (length values == length headers)) [
    | inl e ↦ rw e (parse_record-IsRow (object (zip_fields headers values)) i none)
    | inr e ↦ rw e (with_error-IsRow i [] _)
  ]

  parse_feature-IsRow : (v : Value) (i : ℕ) → IsRow i (parse_feature p v i)
  unfolding parse_feature
  parse_feature-IsRow null i = parse_record-IsRow null i none
  parse_feature-IsRow (boolean b) i = parse_record-IsRow null i none
  parse_feature-IsRow (number n) i = parse_record-IsRow null i none
  parse_feature-IsRow (text s) i = parse_record-IsRow null i none
  parse_feature-IsRow (array vs) i = with_error-IsRow i [] _
  parse_feature-IsRow (object fs) i =
      elim (Option-cases (point_of (property (codes "geometry") fs))) [
        | inl e ↦ rw (e, parse_feature) (with_error-IsRow i [] _)
        | inr (geo, e) ↦ elim (Option-cases (property (codes "properties") fs)) [
          | inl f ↦ rw (e, f, parse_feature) (parse_record-IsRow null i (some geo))
          | inr (v, f) ↦ rw (e, f, parse_feature) (parse_record-IsRow v i (some geo))
        ]
      ]

  -- The rows of these records, numbered in their order.
  abbrev pub numbered : ℕ → List Record → List ParsedRow
  numbered i [] = []
  numbered i (x ∷ xs) = row_of p x i ∷ numbered (suc i) xs

  -- The rows of these records, as many and in their order, and not too many.
  abbrev pub IsFile : List Record → Parsed → Type 0
  IsFile xs (rows rs) = AreRows 1 rs × (rs ≡ numbered 1 xs) × (length rs ≤ max_import_rows)
  IsFile xs (refused e) = Unit

  parse_data-AreRows :
      (headers : List Text) (rs : List (List Text)) (i : ℕ)
      → AreRows i (parse_data p headers rs i)
        × (length (parse_data p headers rs i) ≡ length rs)
        × (parse_data p headers rs i ≡ numbered i (map (line headers) rs))
  unfolding parse_data
  parse_data-AreRows headers [] i = (tt, refl, refl)
  parse_data-AreRows headers (r ∷ rs) i =
      let (rest, same, equal) = parse_data-AreRows headers rs (suc i) in
      (
        (parse_cells-IsRow headers r i, rest),
        ap suc same,
        ap (λ xs. parse_cells p headers r i ∷ xs) equal,
      )

  parse_items-AreRows :
      (f : Value → ℕ → ParsedRow) (g : Value → Record) (vs : Items) (i : ℕ)
      → ((v : Value) (j : ℕ) → IsRow j (f v j) × (f v j ≡ row_of p (g v) j))
      → AreRows i (parse_items p f vs i)
        × (length (parse_items p f vs i) ≡ count_items vs)
        × (parse_items p f vs i ≡ numbered i (items_of g vs))
  unfolding parse_items
  parse_items-AreRows f g nil i h = (tt, refl, refl)
  parse_items-AreRows f g (cons v vs) i h =
      let (rest, same, equal) = parse_items-AreRows f g vs (suc i) h in
      let (row, own) = h v i in ((row, rest), ap suc same, rw (own, equal) refl)

  parse_table-IsFile :
      (records : List (List Text)) → IsFile (table_records records) (parse_table p records)
  unfolding parse_table
  parse_table-IsFile [] = tt
  parse_table-IsFile (first ∷ rs) =
      let headers = map trim first in
      let (all, same, equal) = parse_data-AreRows headers rs 1 in
      elim (Bool-cases (length rs == 0)) [
        | inl e ↦ rw e tt
        | inr e ↦ elim (Bool-cases (ltb max_import_rows (length rs))) [
          | inl f ↦ rw (e, f) tt
          | inr f ↦ elim (Bool-cases (has_duplicates headers)) [
            | inl g ↦ rw (e, f, g) tt
            | inr g ↦ elim (Bool-cases (has_columns headers)) [
              | inl h ↦ rw (e, f, g, h) (all, equal, rw same (ground arith))
              | inr h ↦ rw (e, f, g, h) tt
            ]
          ]
        ]
      ]

  parse_csv-IsFile : (s : Text) → IsFile (csv_records s) (parse_csv p s)
  unfolding parse_csv csv_records
  parse_csv-IsFile s = elim (Option-cases (parse_csv_records (without_mark s))) [
    | inl e ↦ rw (e, parse_csv) tt
    | inr (records, e) ↦ rw (e, parse_csv, csv_records) (parse_table-IsFile records)
  ]

  items-IsFile :
      (f : Value → ℕ → ParsedRow) (g : Value → Record) (vs : Items)
      → ((v : Value) (j : ℕ) → IsRow j (f v j) × (f v j ≡ row_of p (g v) j))
      → ltb max_import_rows (count_items vs) ≡ false
      → IsFile (items_of g vs) (rows (parse_items p f vs 1))
  items-IsFile f g vs h few =
      let (all, same, equal) = parse_items-AreRows f g vs 1 h in
      (all, equal, rw same (ground arith))

  parse_features-IsFile :
      (o : Option Value) (fs : Fields) → IsFile (feature_records o fs) (parse_features p o fs)
  unfolding parse_features
  parse_features-IsFile none fs = ((parse_record-IsRow (object fs) 1 none, tt), refl, omega arith)
  parse_features-IsFile (some null) fs = tt
  parse_features-IsFile (some (boolean b)) fs = tt
  parse_features-IsFile (some (number n)) fs = tt
  parse_features-IsFile (some (text s)) fs = tt
  parse_features-IsFile (some (object gs)) fs = tt
  parse_features-IsFile (some (array vs)) fs =
      elim (Bool-cases (ltb max_import_rows (count_items vs))) [
        | inl e ↦ rw e tt
        | inr e ↦
            rw e
              (items-IsFile (parse_feature p) feature vs (λ v j. (parse_feature-IsRow v j, refl)) e)
      ]

  parse_json_source-IsFile : (o : Option Value) → IsFile (json_records o) (parse_json_source p o)
  unfolding parse_json_source
  parse_json_source-IsFile none = tt
  parse_json_source-IsFile (some null) = tt
  parse_json_source-IsFile (some (boolean b)) = tt
  parse_json_source-IsFile (some (number n)) = tt
  parse_json_source-IsFile (some (text s)) = tt
  parse_json_source-IsFile (some (object fs)) =
      parse_features-IsFile (property (codes "features") fs) fs
  parse_json_source-IsFile (some (array vs)) =
      elim (Bool-cases (ltb max_import_rows (count_items vs))) [
        | inl e ↦ rw e tt
        | inr e ↦
            rw e (items-IsFile (record_of p) item vs (λ v j. (parse_record-IsRow v j none, refl)) e)
      ]

  -- Whatever the file holds, it is refused or it yields the rows of its records, as many as them,
  -- in their order and numbered from 1: of the lines after the header of a CSV file, of the
  -- features or elements of a JSON text, or of the one object that it is. They are at most 50000,
  -- each with either an error or a payload; a payload has a number that is not empty, the row's,
  -- and coordinates that are in range.
  pub parse_import_source-IsFile :
      (bytes : ℕ) (content mimetype name : Text)
      → IsFile
          (source_records p content mimetype name)
          (parse_import_source p bytes content mimetype name)
  unfolding parse_import_source
  parse_import_source-IsFile bytes content mimetype name =
      elim (Bool-cases (ltb max_import_file_bytes bytes)) [
        | inl e ↦ rw e tt
        | inr e ↦ elim (Bool-cases (is_blank (trim content))) [
          | inl f ↦ rw (e, f) tt
          | inr f ↦ elim (Bool-cases (is_json p mimetype name)) [
            | inl g ↦ rw (e, f, g) (parse_json_source-IsFile (p.parse_json content))
            | inr g ↦ rw (e, f, g) (parse_csv-IsFile content)
          ]
        ]
      ]
