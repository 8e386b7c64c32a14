-- ===== src/History/Targets.antt =====
-- `validateSubmission`, `parseTarget` and `resolveAndValidateReportTarget`.
use public_lighting_fault_re.Base.{
  ℕ, Bool, true, false, Option, none, some, List, [], ◌∷◌, leb, ◌==◌, if◌then◌else◌, ◌&&◌, ◌||◌,
  any, not, is_some, length, all,
}
use public_lighting_fault_re.Base.Text.{codes, trim, same_text, is_base64url}
use public_lighting_fault_re.Base.Tables.{find_row}
use public_lighting_fault_re.Email.Service.{is_uuid_v4}
use public_lighting_fault_re.Import.{Text, Value, number, text, object, Fields, Platform}
use public_lighting_fault_re.Import.Records.{is_blank, property, is_outside}
use public_lighting_fault_re.History.{
  Wish, light_point, custom, device, manual, Target, at_light_point, at_custom, at_device, by_hand,
  inside, outside, invalid_coordinate, unavailable, Refusal, invalid_submission_attempt_id,
  invalid_locality, invalid_fault_code, invalid_automatic_address, invalid_automatic_address_proof,
  invalid_report_target, invalid_coordinates, light_point_not_found, service_area_unavailable,
  outside_service_area, Rules, Submission, Point,
}

pub data Resolved : Type 0 where
  target : Target → Resolved
  refusal : Refusal → Resolved

-- An optional code that is empty counts as absent.
abbrev pub is_code_ok : (Text → Bool) → Option Text → Bool
is_code_ok known none = true
is_code_ok known (some s) = is_blank s || known s

-- `[\r\n\u0000-\u001f\u007f]`
abbrev pub is_control : ℕ → Bool
is_control c = leb c 31 || c == 127

abbrev pub is_address_ok : Option Text → Bool
is_address_ok none = true
is_address_ok (some s) = leb (length s) 500 && not (any is_control s)

-- `/^v1\.[A-Za-z0-9_-]{43}$/`
abbrev pub is_proof : Text → Bool
is_proof (v ∷ n ∷ d ∷ s) =
    v == b'v' && n == b'1' && d == b'.' && length s == 43 && all is_base64url s
is_proof _ = false

abbrev pub is_proof_ok : Option Text → Bool
is_proof_ok none = true
is_proof_ok (some s) = is_proof s

unfoldable pub has_address : Option Text → Bool
unfolding trim
has_address none = false
has_address (some s) = not (is_blank (trim s))

abbrev pub is_attempt_ok : Option Text → Bool
is_attempt_ok none = true
is_attempt_ok (some s) = is_uuid_v4 s

abbrev is_object : Value → Bool
is_object (object fs) = true
is_object _ = false

abbrev same_flag : Bool → Bool → Bool
same_flag true b = b
same_flag false b = not b

-- `validateSubmission`
unfoldable pub validate_submission : Rules → Submission → Option Refusal
unfolding has_address
validate_submission c i =
    if not (is_attempt_ok i.attempt_id)
    then some invalid_submission_attempt_id
    else if not (c.known_locality i.locality)
    then some invalid_locality
    else if not (is_code_ok c.known_fault_type i.fault_type)
    then some invalid_fault_code
    else if not (is_code_ok c.known_location_block i.location_block)
    then some invalid_fault_code
    else if not (is_address_ok i.automatic_address)
    then some invalid_automatic_address
    else if not (is_proof_ok i.automatic_address_proof)
    then some invalid_automatic_address_proof
    else if not (same_flag (has_address i.automatic_address) (is_some i.automatic_address_proof))
    then some invalid_automatic_address_proof
    else if is_object i.report_target
    then none
    else some invalid_report_target

abbrev pub kind_of : Fields → Text
kind_of fs = elim (property (codes "kind") fs) [ some (text s) ↦ s | _ ↦ [] ]

abbrev pub number_of : Text → Fields → Option ℕ
number_of k fs = elim (property k fs) [ some (number n) ↦ some n | _ ↦ none ]

abbrev located : (ℕ → ℕ → Wish) → Option ℕ → Option ℕ → Option Wish
located f (some latitude) (some longitude) = some (f latitude longitude)
located f _ _ = none

-- `parseTarget`, on an object.
unfoldable pub parse_target : Fields → Option Wish
unfolding property
parse_target fs =
    let latitude = number_of (codes "latitude") fs in
    let longitude = number_of (codes "longitude") fs in
    if same_text (kind_of fs) (codes "light-point")
    then elim (number_of (codes "lightPointId") fs) [ none ↦ none | some n ↦ some (light_point n) ]
    else if same_text (kind_of fs) (codes "custom")
    then located custom latitude longitude
    else if same_text (kind_of fs) (codes "device")
    then located device latitude longitude
    else if same_text (kind_of fs) (codes "manual")
    then some manual
    else none

unfoldable pub wish_of : Value → Option Wish
unfolding parse_target
wish_of (object fs) = parse_target fs
wish_of _ = none

abbrev pub has_point : ℕ → Point → Bool
has_point i q = q.id == i

abbrev pub can_hold_address : Wish → Bool
can_hold_address (custom _ _) = true
can_hold_address (device _ _) = true
can_hold_address _ = false

abbrev pub is_empty_address : Option Text → Bool
is_empty_address none = true
is_empty_address (some s) = is_blank s

-- The proof of the automatic address, where there is one.
abbrev proved_at : Rules → Text → Text → Target → Bool
proved_at c address proof (at_custom latitude longitude) =
    c.verify_proof address (at_custom latitude longitude) proof
proved_at c address proof (at_device latitude longitude) =
    c.verify_proof address (at_device latitude longitude) proof
proved_at c address proof _ = false

abbrev proved : Rules → Option Text → Option Text → Target → Bool
proved c (some address) (some proof) t = proved_at c address proof t
proved c _ _ t = false

unfoldable pub is_address_proved : Rules → Submission → Target → Bool
unfolding has_address
is_address_proved c i t =
    if has_address i.automatic_address
    then proved c i.automatic_address i.automatic_address_proof t
    else true

module _ (p : Platform) (c : Rules) where
  -- `validateCoordinates`, of two numbers.
  abbrev pub are_coordinates : ℕ → ℕ → Bool
  are_coordinates latitude longitude =
      p.is_finite latitude && p.is_finite longitude && not (is_outside p latitude longitude)

  -- The test of the service area.
  unfoldable pub within_area : (latitude longitude : ℕ) → Target → Resolved
  within_area latitude longitude t =
      if are_coordinates latitude longitude
      then elim (c.classify latitude longitude) [
        | inside ↦ target t
        | outside ↦ refusal outside_service_area
        | invalid_coordinate ↦ refusal invalid_coordinates
        | unavailable ↦ refusal service_area_unavailable
      ]
      else refusal invalid_coordinates

  -- `resolveAndValidateReportTarget`; a manual target is not resolved.
  unfoldable pub resolve_target : List Point → Wish → Resolved
  unfolding within_area find_row
  resolve_target points manual = target by_hand
  resolve_target points (custom latitude longitude) =
      within_area latitude longitude (at_custom latitude longitude)
  resolve_target points (device latitude longitude) =
      within_area latitude longitude (at_device latitude longitude)
  resolve_target points (light_point n) =
      if c.is_safe_id n
      then elim (find_row (has_point (c.id_of n)) points) [
        | none ↦ refusal light_point_not_found
        | some q ↦
            within_area q.latitude q.longitude (at_light_point (c.id_of n) q.latitude q.longitude)
      ]
      else refusal invalid_coordinates
