-- ===== src/Import/Preview/Once.antt =====
-- No inventory number is imported twice by one file.
use mathlib.Core.List.{append_assoc}
use public_lighting_fault_re.Base.{
  ℕ, ◌≡◌, refl, sym, ap, ◌∙◌, inl, inr, Bool, true, false, none, some, List, [], ◌∷◌, ◌++◌, All,
  arith, ◌==◌, ==_iff, ◌||◌, any, any-append, length, nil_of_length, Bool-cases,
}
use public_lighting_fault_re.Base.Text.{same_text}
use public_lighting_fault_re.Base.Text.Laws.{same_text_eq, same_text_self}
use public_lighting_fault_re.Base.Tables.{find_row}
use public_lighting_fault_re.Import.{Text, Payload, ParsedRow}
use public_lighting_fault_re.Import.Records.{is_blank}
use public_lighting_fault_re.Import.Preview.{
  Group, has_number, group_rows, indexes, conflicts_of, skips_of, collect, is_index, StagedRow,
  pending, is_outcome, Point, stage_payload, stage_row, stage_rows, build_import_preview,
}
use public_lighting_fault_re.Import.Preview.Groups.{rows_with, group_of, group_rows-group_of}

abbrev pub is_pending : StagedRow → Bool
is_pending t = is_outcome pending t.outcome

-- No two rows that stay pending have the same number.
abbrev pub IsOnce : List StagedRow → Type 0
IsOnce [] = Unit
IsOnce (t ∷ ts) =
    (is_pending t ≡ true
      → All (λ u. is_pending u ≡ true → same_text t.inventory_number u.inventory_number ≡ false) ts)
    × IsOnce ts

rows_with-append :
    (k : Text) (xs ys : List ParsedRow) → rows_with k (xs ++ ys) ≡ rows_with k xs ++ rows_with k ys
unfolding rows_with
rows_with-append k [] ys = refl
rows_with-append k (x ∷ xs) ys = elim (Bool-cases (same_text x.inventory_number k)) [
  | inl e ↦ rw e (ap (λ zs. x ∷ zs) (rows_with-append k xs ys))
  | inr e ↦ rw e (rows_with-append k xs ys)
]

snoc-cons {ℓ} :
    {A : Type ℓ} (xs : List A) (x : A) → (f : A) × (w : List A) × (xs ++ (x ∷ []) ≡ f ∷ w)
snoc-cons [] x = (x, [], refl)
snoc-cons (y ∷ xs) x = (y, xs ++ (x ∷ []), refl)

rows_with_last :
    (before : List ParsedRow) (r : ParsedRow)
    → (f : ParsedRow) × (w : List ParsedRow) × (rows_with r.inventory_number (before ++ (r ∷ []))
        ≡ f ∷ w)
unfolding rows_with
rows_with_last before r =
    let (f, w, e) = snoc-cons (rows_with r.inventory_number before) r in
    (
      f,
      w,
      rows_with-append r.inventory_number before (r ∷ [])
          ∙ rw (same_text_self r.inventory_number) e,
    )

any-collect :
    (q : ℕ → Bool) (f : Group → List ℕ) (p : Group → Bool) (groups : List Group) {g : Group}
    → find_row p groups ≡ some g
    → any q (f g) ≡ true
    → any q (collect f groups) ≡ true
unfolding find_row collect
any-collect q f p [] e h = absurd (cc)
any-collect q f p (x ∷ groups) {g} e h = elim (Bool-cases (p x)) [
  | inl t ↦
      let same : x ≡ g = ground (arith, rw t at e) in
      rw (any-append q (f x) (collect f groups), same, h) refl
  | inr t ↦
      rw (any-append q (f x) (collect f groups), any-collect q f p groups (rw t at e) h)
        (ground arith)
]

any-indexes :
    (xs ys : List ParsedRow) (r : ParsedRow)
    → any (is_index r.row_index) (indexes (xs ++ (r ∷ ys))) ≡ true
any-indexes [] ys r = rw ((==_iff r.row_index r.row_index).1 refl) refl
any-indexes (x ∷ xs) ys r = rw (any-indexes xs ys r) (ground arith)

any-conflicts_of :
    (q : ℕ → Bool) (g : Group)
    → g.conflict ≡ true
    → any q (indexes g.duplicates) ≡ true
    → any q (conflicts_of g) ≡ true
any-conflicts_of q g c here = elim (Bool-cases (length g.duplicates == 0)) [
  | inl z ↦
      let none_left : g.duplicates ≡ [] = nil_of_length g.duplicates (ground arith) in
      absurd (cc (rw none_left at here))
  | inr z ↦ rw (z, c, here) (ground arith)
]

module _ (points : List Point) where
  stage_row-inventory_number :
      (cs ss : List ℕ) (r : ParsedRow)
      → (stage_row points cs ss r).inventory_number ≡ r.inventory_number
  unfolding stage_row stage_payload
  stage_row-inventory_number cs ss r = ground arith

  -- A row without a payload does not stay pending.
  stage_row_unparsed :
      (cs ss : List ℕ) (r : ParsedRow)
      → r.payload ≡ none
      → is_pending (stage_row points cs ss r) ≡ false
  unfolding stage_row stage_payload
  stage_row_unparsed cs ss r h = ground arith

  stage_row_marked :
      (cs ss : List ℕ) (r : ParsedRow)
      → any (is_index r.row_index) ss || any (is_index r.row_index) cs ≡ true
      → is_pending (stage_row points cs ss r) ≡ false
  unfolding stage_row
  stage_row_marked cs ss r h = elim (Bool-cases (any (is_index r.row_index) ss)) [
    | inl e ↦ rw e refl
    | inr e ↦ rw (e, rw e at h) refl
  ]

module _ (points : List Point) (stringify : Payload → Text) (rs : List ParsedRow) where
  abbrev groups : List Group
  groups = group_rows stringify rs []

  abbrev conflicts : List ℕ
  conflicts = collect conflicts_of groups

  abbrev skips : List ℕ
  skips = collect skips_of groups

  -- A duplicate of its group is in one of the two sets.
  duplicate_marked :
      (r : ParsedRow) (xs ys : List ParsedRow) {g : Group}
      → find_row (has_number r.inventory_number) groups ≡ some g
      → g.duplicates ≡ xs ++ (r ∷ ys)
      → any (is_index r.row_index) skips || any (is_index r.row_index) conflicts ≡ true
  duplicate_marked r xs ys {g} e d =
      let here : any (is_index r.row_index) (indexes g.duplicates) ≡ true =
        rw d (any-indexes xs ys r) in
      elim (Bool-cases g.conflict) [
        | inl c ↦
            let mine : any (is_index r.row_index) (conflicts_of g) ≡ true =
              any-conflicts_of (is_index r.row_index) g c here in
            rw
              (any-collect (is_index r.row_index) conflicts_of (has_number r.inventory_number)
                groups e mine)
              (ground arith)
        | inr c ↦
            let mine : any (is_index r.row_index) (skips_of g) ≡ true = rw c here in
            rw
              (any-collect (is_index r.row_index) skips_of (has_number r.inventory_number) groups e
                mine)
              refl
      ]

  -- A row is not pending once an earlier one has its number.
  later_marked :
      (before after : List ParsedRow) (r f : ParsedRow) (w : List ParsedRow)
      → rs ≡ before ++ (r ∷ after)
      → is_blank r.inventory_number ≡ false
      → rows_with r.inventory_number before ≡ f ∷ w
      → is_pending (stage_row points conflicts skips r) ≡ false
  unfolding rows_with
  later_marked before after r f w split named earlier =
      let n = r.inventory_number in
      let rest : rows_with n (r ∷ after) ≡ r ∷ rows_with n after = rw (same_text_self n) refl in
      let whole : rows_with n rs ≡ f ∷ (w ++ (r ∷ rows_with n after)) =
        rw split (rows_with-append n before (r ∷ after) ∙ rw (earlier, rest) refl) in
      let found = group_rows-group_of stringify n rs named in
      stage_row_marked points conflicts skips r
        (duplicate_marked r w (rows_with n after) (found ∙ ap (group_of stringify) whole) refl)

  -- None of the rows from here on stays pending with the number `k`, which an earlier row has.
  none_pending :
      (k : Text) (before rest : List ParsedRow) (f : ParsedRow) (w : List ParsedRow)
      → rs ≡ before ++ rest
      → is_blank k ≡ false
      → rows_with k before ≡ f ∷ w
      → All
          (λ u. is_pending u ≡ true → same_text k u.inventory_number ≡ false)
          (stage_rows points conflicts skips rest)
  unfolding stage_rows
  none_pending k before [] f w split named earlier = tt
  none_pending k before (r ∷ rest) f w split named earlier = (
    λ kept. elim (Bool-cases (same_text k (stage_row points conflicts skips r).inventory_number)) [
      | inl e ↦
          let number = stage_row-inventory_number points conflicts skips r in
          let same : k ≡ r.inventory_number = same_text_eq k _ e ∙ number in
          absurd (
            cc (
              rw (later_marked before rest r f w split (rw same at named) (rw same at earlier)) at
                kept))
      | inr e ↦ e
    ],
    none_pending k (before ++ (r ∷ [])) rest f (w ++ rows_with k (r ∷ []))
        (split ∙ sym (append_assoc before (r ∷ []) rest)) named
        (rows_with-append k before (r ∷ []) ∙ rw earlier refl),
  )

  suffix-IsOnce :
      (before rest : List ParsedRow)
      → rs ≡ before ++ rest
      → All (λ r. is_blank r.inventory_number ≡ true → r.payload ≡ none) rest
      → IsOnce (stage_rows points conflicts skips rest)
  unfolding stage_rows
  suffix-IsOnce before [] split h = tt
  suffix-IsOnce before (r ∷ rest) split h = (
    λ kept. elim (Bool-cases (is_blank r.inventory_number)) [
      | inl e ↦ absurd (cc (rw (stage_row_unparsed points conflicts skips r (h.0 e)) at kept))
      | inr e ↦
          let (f, w, earlier) = rows_with_last before r in
          rw (stage_row-inventory_number points conflicts skips r) (
            none_pending r.inventory_number (before ++ (r ∷ [])) rest f w
              (split ∙ sym (append_assoc before (r ∷ []) rest)) e earlier)
    ],
    suffix-IsOnce (before ++ (r ∷ [])) rest (split ∙ sym (append_assoc before (r ∷ []) rest)) h.1,
  )

-- One file never leaves two rows pending with the same inventory number, if its rows without a
-- number have no payload.
pub build_import_preview-IsOnce :
    (points : List Point) (stringify : Payload → Text) (rs : List ParsedRow)
    → All (λ r. is_blank r.inventory_number ≡ true → r.payload ≡ none) rs
    → IsOnce (build_import_preview points stringify rs)
unfolding build_import_preview
build_import_preview-IsOnce points stringify rs h = suffix-IsOnce points stringify rs [] rs refl h
