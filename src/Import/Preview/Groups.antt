-- ===== src/Import/Preview/Groups.antt =====
-- The map of the duplicate groups, against the rows that share a number.
use mathlib.Core.Path.{subst}
use mathlib.Core.List.{append_assoc, append-nil}
use public_lighting_fault_re.Base.{
  ◌≡◌, refl, sym, ap, ◌∙◌, inl, inr, Bool, true, false, Option, none, some, List, [], ◌∷◌, ◌++◌,
  arith, if◌then◌else◌, ◌||◌, any, Bool-cases, Option-cases,
}
use public_lighting_fault_re.Base.Text.{same_text}
use public_lighting_fault_re.Base.Text.Laws.{same_text_eq, same_text_self}
use public_lighting_fault_re.Base.Tables.{find_row}
use public_lighting_fault_re.Base.Tables.Laws.{find_row-holds}
use public_lighting_fault_re.Base.Tables.Find.{find_row-update_rows}
use public_lighting_fault_re.Import.{Text, Payload, ParsedRow}
use public_lighting_fault_re.Import.Records.{is_blank}
use public_lighting_fault_re.Import.Preview.{
  Group, has_number, differ, signature, new_group, joined, add_row, group_rows,
}

-- The rows with the number `k`.
unfoldable pub rows_with : Text → List ParsedRow → List ParsedRow
rows_with k [] = []
rows_with k (r ∷ rs) =
    let rest = rows_with k rs in if same_text r.inventory_number k then r ∷ rest else rest

module _ (stringify : Payload → Text) where
  -- The group of rows that share a number: the first of them, the rest, and whether the first has
  -- no payload or another has none, or one that differs.
  abbrev pub group_with : Group → List ParsedRow → Group
  group_with g rs = record g {
    duplicates = g.duplicates ++ rs;
    conflict = g.conflict || any (λ r. differ g.first_signature (signature stringify r)) rs;
  }

  abbrev pub group_of : List ParsedRow → Option Group
  group_of [] = none
  group_of (r ∷ rs) = some (group_with (new_group stringify r) rs)

  abbrev extended : Option Group → List ParsedRow → Option Group
  extended none rs = group_of rs
  extended (some g) rs = some (group_with g rs)

  find_row-snoc {ℓ} :
      {A : Type ℓ} (p : A → Bool) (xs : List A) (x : A)
      → find_row p xs ≡ none
      → p x ≡ true
      → find_row p (xs ++ (x ∷ [])) ≡ some x
  unfolding find_row
  find_row-snoc p [] x h t = rw t refl
  find_row-snoc p (y ∷ xs) x h t = elim (Bool-cases (p y)) [
    | inl e ↦ absurd (cc (rw e at h))
    | inr e ↦ rw e (find_row-snoc p xs x (rw e at h) t)
  ]

  find_row-snoc_other {ℓ} :
      {A : Type ℓ} (p : A → Bool) (xs : List A) (x : A)
      → p x ≡ false
      → find_row p (xs ++ (x ∷ [])) ≡ find_row p xs
  unfolding find_row
  find_row-snoc_other p [] x t = rw t refl
  find_row-snoc_other p (y ∷ xs) x t = elim (Bool-cases (p y)) [
    | inl e ↦ rw e refl
    | inr e ↦ rw e (find_row-snoc_other p xs x t)
  ]

  add_row_found :
      (r : ParsedRow) (groups : List Group) {g : Group}
      → is_blank r.inventory_number ≡ false
      → find_row (has_number r.inventory_number) groups ≡ some g
      → find_row (has_number r.inventory_number) (add_row stringify r groups)
        ≡ some (joined stringify r g)
  unfolding add_row
  add_row_found r groups {g} named e =
      let p = has_number r.inventory_number in
      let holds = find_row-holds p groups e in
      rw (named, e, add_row)
        (find_row-update_rows p p (joined stringify r) groups (λ x. refl) ∙ rw (e, holds) refl)

  add_row_new :
      (r : ParsedRow) (groups : List Group)
      → is_blank r.inventory_number ≡ false
      → find_row (has_number r.inventory_number) groups ≡ none
      → find_row (has_number r.inventory_number) (add_row stringify r groups)
        ≡ some (new_group stringify r)
  unfolding add_row
  add_row_new r groups named e =
      rw (named, e, add_row)
        (find_row-snoc (has_number r.inventory_number) groups (new_group stringify r) e
          (same_text_self r.inventory_number))

  add_row_other :
      (k : Text) (r : ParsedRow) (groups : List Group)
      → same_text r.inventory_number k ≡ false
      → find_row (has_number k) (add_row stringify r groups) ≡ find_row (has_number k) groups
  unfolding add_row
  add_row_other k r groups other = elim (Bool-cases (is_blank r.inventory_number)) [
    | inl e ↦ rw e refl
    | inr e ↦
        let n = r.inventory_number in
        elim (Option-cases (find_row (has_number n) groups)) [
          | inl f ↦
              rw (e, f, add_row)
                (find_row-snoc_other (has_number k) groups (new_group stringify r) other)
          | inr (g, f) ↦ elim (Option-cases (find_row (has_number k) groups)) [
            | inl h ↦
                rw (e, f, add_row)
                  (find_row-update_rows (has_number k) (has_number n) (joined stringify r) groups
                      (λ x. refl)
                    ∙ rw h refl)
            | inr (x, h) ↦ elim (Bool-cases (has_number n x)) [
              | inl t ↦
                  let at_k = same_text_eq x.key k (find_row-holds (has_number k) groups h) in
                  let at_n = same_text_eq x.key n t in
                  let same : n ≡ k = sym at_n ∙ at_k in
                  absurd (cc (rw (same, same_text_self k) at other))
              | inr t ↦
                  rw (e, f, add_row)
                    (find_row-update_rows (has_number k) (has_number n) (joined stringify r) groups
                        (λ x. refl)
                      ∙ rw (h, t) refl)
            ]
          ]
        ]
  ]

  group_with-joined :
      (r : ParsedRow) (g : Group) (rs : List ParsedRow)
      → group_with (joined stringify r g) rs ≡ group_with g (r ∷ rs)
  group_with-joined r g rs =
      let d = differ g.first_signature (signature stringify r) in
      let a = any (λ q. differ g.first_signature (signature stringify q)) rs in
      let lists : (g.duplicates ++ (r ∷ [])) ++ rs ≡ g.duplicates ++ (r ∷ rs) =
        append_assoc g.duplicates (r ∷ []) rs in
      let flags : (g.conflict || d) || a ≡ g.conflict || (d || a) = ground arith in
      rw (lists, flags) refl

  extended-nil : (o : Option Group) → o ≡ extended o []
  extended-nil none = refl
  extended-nil (some g) =
      let flag : g.conflict || false ≡ g.conflict = ground arith in
      rw (append-nil g.duplicates, flag) refl

  extended-add_row :
      (r : ParsedRow) (rs : List ParsedRow) (groups : List Group)
      → is_blank r.inventory_number ≡ false
      → extended (find_row (has_number r.inventory_number) (add_row stringify r groups)) rs
        ≡ extended (find_row (has_number r.inventory_number) groups) (r ∷ rs)
  extended-add_row r rs groups named =
      elim (Option-cases (find_row (has_number r.inventory_number) groups)) [
        | inl e ↦ rw (add_row_new r groups named e, e) refl
        | inr (g, e) ↦ rw (add_row_found r groups named e, e) (ap some (group_with-joined r g rs))
      ]

  find_row-group_rows :
      (k : Text) (rs : List ParsedRow) (groups : List Group)
      → is_blank k ≡ false
      → find_row (has_number k) (group_rows stringify rs groups)
        ≡ extended (find_row (has_number k) groups) (rows_with k rs)
  unfolding group_rows rows_with
  find_row-group_rows k [] groups named = extended-nil (find_row (has_number k) groups)
  find_row-group_rows k (r ∷ rs) groups named =
      let later = find_row-group_rows k rs (add_row stringify r groups) named in
      elim (Bool-cases (same_text r.inventory_number k)) [
        | inl e ↦
            let same : r.inventory_number ≡ k = same_text_eq r.inventory_number k e in
            rw e (
              later
              ∙ subst
                  (λ t.
                    is_blank t ≡ false
                    → extended (find_row (has_number t) (add_row stringify r groups))
                        (rows_with k rs)
                      ≡ extended (find_row (has_number t) groups) (r ∷ rows_with k rs))
                  same (extended-add_row r (rows_with k rs) groups) named)
        | inr e ↦ rw (e, sym (add_row_other k r groups e)) later
      ]

  -- The one pass over the rows finds for every number what a look at its rows alone gives: the first
  -- row, the others in their order, and a conflict exactly if the first has no payload or another
  -- has none or one that differs from the first's.
  pub group_rows-group_of :
      (k : Text) (rs : List ParsedRow)
      → is_blank k ≡ false
      → find_row (has_number k) (group_rows stringify rs []) ≡ group_of (rows_with k rs)
  unfolding find_row
  group_rows-group_of k rs named = find_row-group_rows k rs [] named
