-- ===== src/Import/Preview.antt =====
-- `buildImportPreview`: what becomes of each row of a file. The rows are told apart by their numbers
-- in the file, as the program does; `stringify` is `JSON.stringify` of a payload whose `present` is
-- sorted, and the light points are a table with a unique index on the number.
pub mod Groups
pub mod Once
pub mod Files
use public_lighting_fault_re.Base.{
  ℕ, suc, ◌+◌, Bool, true, false, Option, none, some, List, [], ◌∷◌, ◌++◌, ◌==◌, if◌then◌else◌,
  ◌||◌, any, not, is_none, is_some, length,
}
use public_lighting_fault_re.Base.Text.{same_text}
use public_lighting_fault_re.Base.Tables.{find_row, update_rows, count_rows}
use public_lighting_fault_re.Import.{
  Text, Payload, RowError, invalid_row, conflicting_duplicate_inventory_number, ParsedRow,
}
use public_lighting_fault_re.Import.Records.{is_blank}

-- A value of `duplicateGroups`, under its number.
pub record Group : Type 0 where
  pub key : Text
  pub first : ParsedRow
  pub first_signature : Option Text
  pub duplicates : List ParsedRow
  pub conflict : Bool

abbrev pub has_number : Text → Group → Bool
has_number k g = same_text g.key k

abbrev pub differ : Option Text → Option Text → Bool
differ none t = true
differ (some s) none = true
differ (some s) (some t) = not (same_text s t)

-- A row of `light_points`.
pub record Point : Type 0 where
  pub inventory_number : Text
  pub id : ℕ

pub data Action : Type 0 where
  create update skip error : Action

-- The column `outcome`.
pub data Outcome : Type 0 where
  pending skipped failed : Outcome

pub data Reason : Type 0 where
  duplicate_in_same_import : Reason
  row_error : RowError → Reason

-- A row of `import_batch_rows`.
pub record StagedRow : Type 0 where
  pub source_row_number : ℕ
  pub inventory_number : Text
  pub outcome : Outcome
  pub preview_action : Action
  pub preview_existing_id : Option ℕ
  pub reason_code : Option Reason
  pub staged_payload : Option Payload

abbrev pub is_action : Action → Action → Bool
is_action create create = true
is_action update update = true
is_action skip skip = true
is_action error error = true
is_action _ _ = false

abbrev pub is_outcome : Outcome → Outcome → Bool
is_outcome pending pending = true
is_outcome skipped skipped = true
is_outcome failed failed = true
is_outcome _ _ = false

module _ (stringify : Payload → Text) where
  abbrev pub signature : ParsedRow → Option Text
  signature r = elim r.payload [ none ↦ none | some q ↦ some (stringify q) ]

  abbrev pub new_group : ParsedRow → Group
  new_group r = record {
    key = r.inventory_number;
    first = r;
    first_signature = signature r;
    duplicates = [];
    conflict = is_none (signature r);
  }

  abbrev pub joined : ParsedRow → Group → Group
  joined r g = record g {
    duplicates = g.duplicates ++ (r ∷ []);
    conflict = g.conflict || differ g.first_signature (signature r);
  }

  -- One turn of the loop over the rows.
  unfoldable pub add_row : ParsedRow → List Group → List Group
  unfolding find_row update_rows
  add_row r groups =
      if is_blank r.inventory_number
      then groups
      else elim (find_row (has_number r.inventory_number) groups) [
        | none ↦ groups ++ (new_group r ∷ [])
        | some g ↦ update_rows (has_number r.inventory_number) (joined r) groups
      ]

  unfoldable pub group_rows : List ParsedRow → List Group → List Group
  unfolding add_row
  group_rows [] groups = groups
  group_rows (r ∷ rs) groups = group_rows rs (add_row r groups)

-- The rows' numbers that a group puts into `duplicateConflicts`.
abbrev pub indexes : List ParsedRow → List ℕ
indexes [] = []
indexes (r ∷ rs) = r.row_index ∷ indexes rs

abbrev pub conflicts_of : Group → List ℕ
conflicts_of g =
    if length g.duplicates == 0
    then []
    else if g.conflict
    then g.first.row_index ∷ indexes g.duplicates
    else []

-- The rows' numbers that a group puts into `duplicateSkips`.
abbrev pub skips_of : Group → List ℕ
skips_of g = if g.conflict then [] else indexes g.duplicates

unfoldable pub collect : (Group → List ℕ) → List Group → List ℕ
collect f [] = []
collect f (g ∷ groups) = f g ++ collect f groups

abbrev pub is_index : ℕ → ℕ → Bool
is_index i j = j == i

abbrev pub has_point : Text → Point → Bool
has_point n q = same_text q.inventory_number n

abbrev pub failure_of : ParsedRow → RowError
failure_of r = elim r.error_code [ none ↦ invalid_row | some e ↦ e ]

abbrev pub failed_row : ParsedRow → RowError → StagedRow
failed_row r e = record {
  source_row_number = r.row_index;
  inventory_number = r.inventory_number;
  outcome = failed;
  preview_action = error;
  preview_existing_id = none;
  reason_code = some (row_error e);
  staged_payload = none;
}

abbrev pub skipped_row : ParsedRow → StagedRow
skipped_row r = record {
  source_row_number = r.row_index;
  inventory_number = r.inventory_number;
  outcome = skipped;
  preview_action = skip;
  preview_existing_id = none;
  reason_code = some duplicate_in_same_import;
  staged_payload = none;
}

abbrev pub pending_row : ParsedRow → Payload → Option ℕ → StagedRow
pending_row r q existing = record {
  source_row_number = r.row_index;
  inventory_number = r.inventory_number;
  outcome = pending;
  preview_action = if is_some existing then update else create;
  preview_existing_id = existing;
  reason_code = none;
  staged_payload = some q;
}

module _ (points : List Point) where
  -- `existing.get`; the ids of the table are not 0.
  unfoldable pub existing_id : Text → Option ℕ
  unfolding find_row
  existing_id n = elim (find_row (has_point n) points) [ none ↦ none | some q ↦ some q.id ]

  unfoldable pub stage_payload : ParsedRow → StagedRow
  unfolding existing_id
  stage_payload r = elim r.payload [
    | none ↦ failed_row r (failure_of r)
    | some q ↦
        if is_some r.error_code
        then failed_row r (failure_of r)
        else pending_row r q (existing_id q.inventory_number)
  ]

  -- What becomes of a row, with the numbers of the conflicts and of the skips.
  unfoldable pub stage_row : (conflicts skips : List ℕ) → ParsedRow → StagedRow
  unfolding stage_payload
  stage_row conflicts skips r =
      if any (is_index r.row_index) skips
      then skipped_row r
      else if any (is_index r.row_index) conflicts
      then failed_row r conflicting_duplicate_inventory_number
      else stage_payload r

  unfoldable pub stage_rows : (conflicts skips : List ℕ) → List ParsedRow → List StagedRow
  unfolding stage_row
  stage_rows conflicts skips [] = []
  stage_rows conflicts skips (r ∷ rs) = stage_row conflicts skips r ∷ stage_rows conflicts skips rs

  -- The rows that `buildImportPreview` inserts.
  unfoldable pub build_import_preview : (Payload → Text) → List ParsedRow → List StagedRow
  unfolding group_rows stage_rows collect
  build_import_preview stringify rs =
      let groups = group_rows stringify rs [] in
      stage_rows (collect conflicts_of groups) (collect skips_of groups) rs

-- The summary that the statement of `getImportPreviewPage` counts.
pub record Summary : Type 0 where
  pub to_create : ℕ
  pub to_update : ℕ
  pub skipped_count : ℕ
  pub errors : ℕ

abbrev pub with_action : Action → StagedRow → Bool
with_action a r = is_action a r.preview_action

abbrev pub with_outcome : Outcome → StagedRow → Bool
with_outcome o r = is_outcome o r.outcome

unfoldable pub summarize : List StagedRow → Summary
unfolding count_rows
summarize rs = record {
  to_create = count_rows (with_action create) rs;
  to_update = count_rows (with_action update) rs;
  skipped_count = count_rows (with_outcome skipped) rs;
  errors = count_rows (with_outcome failed) rs;
}
