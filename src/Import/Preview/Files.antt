-- ===== src/Import/Preview/Files.antt =====
-- The preview of a parsed file.
use mathlib.Core.Path.{subst}
use public_lighting_fault_re.Base.{
  ℕ, suc, ◌+◌, ◌≡◌, ap, ◌∙◌, inl, inr, true, none, List, [], ◌∷◌, All, arith, any, length,
  Bool-cases, Option-cases, is_some,
}
use public_lighting_fault_re.Base.Tables.{count_rows}
use public_lighting_fault_re.Import.{Text, Platform, Payload, ParsedRow, rows}
use public_lighting_fault_re.Import.Records.{is_blank}
use public_lighting_fault_re.Import.Source.{parse_import_source}
use public_lighting_fault_re.Import.Source.Contents.{source_records}
use public_lighting_fault_re.Import.Source.Rows.{IsRow, AreRows, IsFile, parse_import_source-IsFile}
use public_lighting_fault_re.Import.Preview.{
  StagedRow, summarize, Point, existing_id, stage_payload, stage_row, stage_rows,
  build_import_preview, is_index,
}
use public_lighting_fault_re.Import.Preview.Once.{IsOnce, build_import_preview-IsOnce}

unnumbered :
    (p : Platform) (i : ℕ) (r : ParsedRow)
    → IsRow p i r
    → is_blank r.inventory_number ≡ true
    → r.payload ≡ none
unnumbered p i r h blank = elim (Option-cases r.payload) [
  | inl e ↦ e
  | inr (q, e) ↦
      let (in_range, _) = h.2 q e in
      let (same, named, _) = in_range in absurd (cc (rw (same, named) at blank))
]

unnumbered_all :
    (p : Platform) (i : ℕ) (rs : List ParsedRow)
    → AreRows p i rs
    → All (λ r. is_blank r.inventory_number ≡ true → r.payload ≡ none) rs
unnumbered_all p i [] h = tt
unnumbered_all p i (r ∷ rs) h = (unnumbered p i r h.0, unnumbered_all p (suc i) rs h.1)

abbrev pub total : List StagedRow → ℕ
total ts = let s = summarize ts in s.to_create + s.to_update + s.skipped_count + s.errors

-- Each row is counted once.
total-stage_row :
    (points : List Point) (cs ss : List ℕ) (r : ParsedRow) (ts : List StagedRow)
    → total (stage_row points cs ss r ∷ ts) ≡ suc (total ts)
unfolding stage_row stage_payload summarize count_rows
total-stage_row points cs ss r ts = elim (Bool-cases (any (is_index r.row_index) ss)) [
  | inl e ↦ rw e (omega arith)
  | inr e ↦ elim (Bool-cases (any (is_index r.row_index) cs)) [
    | inl f ↦ rw (e, f) (omega arith)
    | inr f ↦ elim (Option-cases r.payload) [
      | inl g ↦ rw (e, f, g, stage_payload) (omega arith)
      | inr (q, g) ↦ elim (Bool-cases (is_some r.error_code)) [
        | inl h ↦ rw (e, f, g, stage_payload, h) (omega arith)
        | inr h ↦ elim (Bool-cases (is_some (existing_id points q.inventory_number))) [
          | inl k ↦ rw (e, f, g, stage_payload, h, k) (omega arith)
          | inr k ↦ rw (e, f, g, stage_payload, h, k) (omega arith)
        ]
      ]
    ]
  ]
]

total-stage_rows :
    (points : List Point) (cs ss : List ℕ) (rs : List ParsedRow)
    → total (stage_rows points cs ss rs) ≡ length rs
unfolding stage_rows summarize count_rows
total-stage_rows points cs ss [] = omega arith
total-stage_rows points cs ss (r ∷ rs) =
    total-stage_row points cs ss r (stage_rows points cs ss rs)
    ∙ ap suc (total-stage_rows points cs ss rs)

total-build_import_preview :
    (points : List Point) (stringify : Payload → Text) (rs : List ParsedRow)
    → total (build_import_preview points stringify rs) ≡ length rs
unfolding build_import_preview
total-build_import_preview points stringify rs = total-stage_rows points _ _ rs

-- The preview of a file that is not refused never leaves two rows pending with the same inventory
-- number, and its summary counts every row of the file exactly once.
pub build_import_preview-parse_import_source :
    (p : Platform) (points : List Point) (stringify : Payload → Text) (bytes : ℕ)
    (content mimetype name : Text) (rs : List ParsedRow)
    → parse_import_source p bytes content mimetype name ≡ rows rs
    → IsOnce (build_import_preview points stringify rs)
      × (total (build_import_preview points stringify rs) ≡ length rs)
build_import_preview-parse_import_source p points stringify bytes content mimetype name rs h =
    let file : IsFile p (source_records p content mimetype name) (rows rs) =
      subst (IsFile p (source_records p content mimetype name)) h
        (parse_import_source-IsFile p bytes content mimetype name) in
    (
      build_import_preview-IsOnce points stringify rs (unnumbered_all p 1 rs file.0),
      total-build_import_preview points stringify rs,
    )
