-- ===== src/Import/Records.antt =====
-- `parseRecord` and its helpers.
use public_lighting_fault_re.Base.{
  ℕ, Bool, true, false, Option, none, some, List, [], ◌∷◌, if◌then◌else◌, ◌&&◌, ◌||◌, not,
}
use public_lighting_fault_re.Base.Text.{codes, trim, same_text}
use public_lighting_fault_re.Import.{
  Text, Value, null, number, text, object, Items, nil, cons, Fields, end, field, Platform, Status,
  active, inactive, maintenance, Payload, RowError, invalid_row, missing_inventory_number,
  invalid_coordinates, invalid_external_id, invalid_address, invalid_district, invalid_lamp_type,
  invalid_status, ParsedRow,
}

abbrev pub is_blank : Text → Bool
is_blank [] = true
is_blank (c ∷ s) = false

-- `record[key]`, where the object has the property.
unfoldable pub property : Text → Fields → Option Value
property k end = none
property k (field n v fs) = if same_text k n then some v else property k fs

-- `firstOwn`
unfoldable pub first_own : Fields → List Text → Option Value
unfolding property
first_own fs [] = none
first_own fs (k ∷ ks) = elim (property k fs) [ some v ↦ some v | none ↦ first_own fs ks ]

-- The coordinates of a geometry, an array: `geo[0]` and `geo[1]`.
abbrev pub item_0 : Items → Option Value
item_0 nil = none
item_0 (cons v vs) = some v

abbrev pub item_1 : Items → Option Value
item_1 nil = none
item_1 (cons v vs) = item_0 vs

abbrev pub text_of : Option Value → Text
text_of (some (text s)) = s
text_of _ = []

module _ (p : Platform) where
  -- `asOptionalText`, with `none` where it gives undefined.
  unfoldable pub as_optional_text : Value → Option (Option Text)
  as_optional_text null = some none
  as_optional_text (text s) = if is_blank s then some none else some (some s)
  as_optional_text (number n) = if p.is_finite n then some (some (p.to_text n)) else none
  as_optional_text _ = none

  -- `parseNumber`, also of a value that is not there.
  unfoldable pub parse_number : Option Value → Option ℕ
  unfolding trim
  parse_number (some (number n)) = if p.is_finite n then some n else none
  parse_number (some (text s)) =
      if not (is_blank (trim s)) && p.is_finite (p.of_text s) then some (p.of_text s) else none
  parse_number _ = none

  -- `canonicalizeInventoryNumber`; its set of edge characters is that of `trim`.
  unfoldable pub canonicalize : Text → Text
  unfolding trim
  canonicalize s = p.normalize (trim s)

  abbrev pub is_outside : ℕ → ℕ → Bool
  is_outside latitude longitude =
      p.less latitude (p.negative (p.degrees 90))
      || p.less (p.degrees 90) latitude
      || p.less longitude (p.negative (p.degrees 180))
      || p.less (p.degrees 180) longitude

  abbrev pub with_error : ℕ → Text → RowError → ParsedRow
  with_error i n e = record {
    row_index = i;
    inventory_number = n;
    payload = none;
    error_code = some e;
    duplicate_of = none;
  }

  abbrev pub with_payload : ℕ → Payload → ParsedRow
  with_payload i q = record {
    row_index = i;
    inventory_number = q.inventory_number;
    payload = some q;
    error_code = none;
    duplicate_of = none;
  }

  -- An optional field under the given names: absent, a text or null, or an error.
  unfoldable pub optional_field : Fields → List Text → Option (Option (Option Text))
  unfolding first_own as_optional_text
  optional_field fs ks = elim (first_own fs ks) [
    | none ↦ some none
    | some v ↦ elim (as_optional_text v) [ none ↦ none | some t ↦ some (some t) ]
  ]

  abbrev status_of : Value → Option Status
  status_of (text s) =
      if same_text s (codes "active")
      then some active
      else if same_text s (codes "inactive")
      then some inactive
      else if same_text s (codes "maintenance")
      then some maintenance
      else none
  status_of _ = none

  unfoldable pub status_field : Fields → Option (Option Status)
  unfolding first_own
  status_field fs = elim (first_own fs (codes "status" ∷ [])) [
    | none ↦ some none
    | some v ↦ elim (status_of v) [ none ↦ none | some s ↦ some (some s) ]
  ]

  -- The fields after the coordinates, in their order; the first error ends the row.
  unfoldable pub parse_fields : ℕ → Text → (latitude longitude : ℕ) → Fields → ParsedRow
  unfolding optional_field status_field
  parse_fields i n latitude longitude fs =
      elim (optional_field fs (codes "external_id" ∷ codes "externalId" ∷ [])) [
        | none ↦ with_error i n invalid_external_id
        | some external ↦ elim (optional_field fs (codes "address" ∷ [])) [
          | none ↦ with_error i n invalid_address
          | some address ↦ elim (optional_field fs (codes "district" ∷ [])) [
            | none ↦ with_error i n invalid_district
            | some district ↦ elim (optional_field fs (codes "lamp_type" ∷ codes "lampType" ∷ [])) [
              | none ↦ with_error i n invalid_lamp_type
              | some lamp ↦ elim (status_field fs) [
                | none ↦ with_error i n invalid_status
                | some status ↦ with_payload i (record {
                  inventory_number = n;
                  latitude = latitude;
                  longitude = longitude;
                  external_id = external;
                  address = address;
                  district = district;
                  lamp_type = lamp;
                  status = status;
                })
              ]
            ]
          ]
        ]
      ]

  -- The longitude and the latitude, from the geometry if there is one.
  unfoldable pub longitude_of : Option Items → Fields → Option ℕ
  unfolding first_own parse_number
  longitude_of (some geo) fs = parse_number (item_0 geo)
  longitude_of none fs =
      parse_number (first_own fs (codes "longitude" ∷ codes "lon" ∷ codes "lng" ∷ []))

  unfoldable pub latitude_of : Option Items → Fields → Option ℕ
  unfolding first_own parse_number
  latitude_of (some geo) fs = parse_number (item_1 geo)
  latitude_of none fs = parse_number (first_own fs (codes "latitude" ∷ codes "lat" ∷ []))

  unfoldable pub parse_located : ℕ → Text → (latitude longitude : Option ℕ) → Fields → ParsedRow
  unfolding parse_fields
  parse_located i n (some latitude) (some longitude) fs =
      if is_outside latitude longitude
      then with_error i n invalid_coordinates
      else parse_fields i n latitude longitude fs
  parse_located i n _ _ fs = with_error i n invalid_coordinates

  unfoldable pub parse_object : Fields → ℕ → Option Items → ParsedRow
  unfolding canonicalize parse_located longitude_of latitude_of first_own
  parse_object fs i geo =
      let n =
        canonicalize
          (text_of (first_own fs (codes "inventory_number" ∷ codes "inventoryNumber" ∷ []))) in
      if is_blank n
      then with_error i [] missing_inventory_number
      else parse_located i n (latitude_of geo fs) (longitude_of geo fs) fs

  -- `parseRecord`
  unfoldable pub parse_record : Value → ℕ → Option Items → ParsedRow
  unfolding parse_object
  parse_record (object fs) i geo = parse_object fs i geo
  parse_record _ i geo = with_error i [] invalid_row
