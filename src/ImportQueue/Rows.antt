-- ===== src/ImportQueue/Rows.antt =====
-- `PROCESS_PENDING_ROW_SQL` and `processImportRows`.
use public_lighting_fault_re.Base.{
  ℕ, zero, suc, Bool, ◌&&◌, Option, none, some, List, [], ◌∷◌, ◌==◌, if◌then◌else◌,
}
use public_lighting_fault_re.Base.Tables.{find_row}
use public_lighting_fault_re.ImportQueue.{
  Point, Payload, Kind, created, updated, unchanged, skipped, pending, settled, ImportRow,
  same_kind, is_option,
}

abbrev existing_update_disabled : ℕ
existing_update_disabled = 1

-- The column `status` of a new point defaults to 'active'.
abbrev active : ℕ
active = 0

-- `CASE WHEN (payload->'present') ? 'f' THEN payload->>'f' ELSE p.f END`
abbrev overlaid {ℓ} : {A : Type ℓ} → Option A → A → A
overlaid none old = old
overlaid (some new) old = new

-- `payload->>'f'`
abbrev value_of : Option (Option ℕ) → Option ℕ
value_of none = none
value_of (some v) = v

abbrev pub new_point : ℕ → Payload → Point
new_point id p = record {
  id = id;
  inventory_number = p.inventory_number;
  external_id = value_of p.external_id;
  longitude = p.longitude;
  latitude = p.latitude;
  address = value_of p.address;
  district = value_of p.district;
  lamp_type = value_of p.lamp_type;
  status = overlaid p.status active;
}

abbrev pub overwritten : Payload → Point → Point
overwritten p old = record {
  id = old.id;
  inventory_number = p.inventory_number;
  external_id = overlaid p.external_id old.external_id;
  longitude = p.longitude;
  latitude = p.latitude;
  address = overlaid p.address old.address;
  district = overlaid p.district old.district;
  lamp_type = overlaid p.lamp_type old.lamp_type;
  status = overlaid p.status old.status;
}

abbrev pub same_point : Point → Point → Bool
same_point a b =
    a.inventory_number == b.inventory_number
    && is_option a.external_id b.external_id
    && a.longitude == b.longitude
    && a.latitude == b.latitude
    && is_option a.address b.address
    && is_option a.district b.district
    && is_option a.lamp_type b.lamp_type
    && a.status == b.status

-- What becomes of one selected row.
pub record Plan : Type 0 where
  pub kind : Kind
  pub entity : ℕ
  pub payload : Payload
  pub reason : Option ℕ

abbrev plan_existing : Bool → Payload → Point → Plan
plan_existing allow p old =
    if allow
    then (if same_point (overwritten p old) old
        then record { kind = unchanged; entity = old.id; payload = p; reason = none }
        else record { kind = updated; entity = old.id; payload = p; reason = none })
    else record {
      kind = skipped;
      entity = old.id;
      payload = p;
      reason = some existing_update_disabled;
    }

-- By the points before the statement.
unfoldable pub plan : List Point → Bool → (next : ℕ) → Payload → Plan
unfolding find_row
plan points allow next p = elim (find_row (λ q. q.inventory_number == p.inventory_number) points) [
  | none ↦ record { kind = created; entity = next; payload = p; reason = none }
  | some old ↦ plan_existing allow p old
]

abbrev is_new : Plan → Bool
is_new p = same_kind created p.kind

abbrev pub after_plan : ℕ → Plan → ℕ
after_plan next p = if is_new p then suc next else next

abbrev pub settle : Plan → ImportRow → ImportRow
settle p r = record r {
  outcome = settled p.kind;
  entity_id = some p.entity;
  reason_code = p.reason;
}

-- The payload of a row that is pending in the batch.
unfoldable pub open_payload : (batch : ℕ) → ImportRow → Option Payload
open_payload b r =
    if r.batch_id == b then elim r.outcome [ pending p ↦ some p | settled k ↦ none ] else none

-- The first `limit` pending rows of the batch are marked; their plans.
unfoldable pub settle_rows :
    (List Point) → Bool → (batch limit next : ℕ) → List ImportRow → List ImportRow × List Plan
unfolding plan open_payload
settle_rows points allow b limit next [] = ([], [])
settle_rows points allow b zero next (r ∷ rs) = (r ∷ rs, [])
settle_rows points allow b (suc limit) next (r ∷ rs) = elim (open_payload b r) [
  | none ↦ let (rs', ps) = settle_rows points allow b (suc limit) next rs in (r ∷ rs', ps)
  | some payload ↦
      let p = plan points allow next payload in
      let (rs', ps) = settle_rows points allow b limit (after_plan next p) rs in
      (settle p r ∷ rs', p ∷ ps)
]
