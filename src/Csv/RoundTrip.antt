-- ===== src/Csv/RoundTrip.antt =====
-- What is exported and then imported.
use mathlib.Core.List.{append_assoc, append-nil}
use public_lighting_fault_re.Base.{
  ℕ, suc, ◌≡◌, refl, ap, sym, ◌∙◌, inl, inr, Bool, true, false, Option, none, some, List, [], ◌∷◌,
  ◌++◌, map, All, All-map, not, ◌&&◌, ◌||◌, leb, ltb, if◌then◌else◌,
}
use public_lighting_fault_re.Csv.{
  Text, state, step, scan, head, is_blank, finish_row, needs_quotes, line_end, parse_csv_records,
  write_rows, received,
}
use public_lighting_fault_re.Csv.Units.{
  plain_field, plain_fields, plain_row, plain_rows, whole_text-write_rows, received-whole_text,
}
use public_lighting_fault_re.Csv.Fields.{scan-step, scan_skip, IsDelimiter, scan-plain_text}

-- The first and the second half of a surrogate pair.
abbrev is_high : ℕ → Bool
is_high c = leb 55296 c && ltb c 56320

abbrev is_low : ℕ → Bool
is_low c = leb 56320 c && ltb c 57344

-- What a field is read back as: nothing for null.
abbrev pub text_of : Option Text → Text
text_of none = []
text_of (some s) = s

step_comma :
    (rs : List (List Text)) (r : List Text) (cell : Text) (closed : Bool) (next : Option ℕ)
    → step (state rs r cell false closed) b',' next
      ≡ some (state rs (r ++ (cell ∷ [])) [] false false, false)
unfolding step
step_comma rs r cell true next = refl
step_comma rs r cell false next = refl

step_end :
    (rs : List (List Text)) (r : List Text) (cell : Text) (closed : Bool)
    → step (state rs r cell false closed) b'\r' (some b'\n')
      ≡ some (state (finish_row rs (r ++ (cell ∷ []))) [] [] false false, true)
unfolding step
step_end rs r cell true = refl
step_end rs r cell false = refl

scan_end :
    (rs : List (List Text)) (r : List Text) (cell rest : Text) (closed : Bool)
    → scan false (state rs r cell false closed) (line_end ++ rest)
      ≡ scan false (state (finish_row rs (r ++ (cell ∷ []))) [] [] false false) rest
scan_end rs r cell rest closed =
    scan-step (state rs r cell false closed)
      (state (finish_row rs (r ++ (cell ∷ []))) [] [] false false) true b'\r' (b'\n' ∷ rest)
      (step_end rs r cell closed)
    ∙ scan_skip (state (finish_row rs (r ++ (cell ∷ []))) [] [] false false) b'\n' rest

closed_by : Option Text → Bool
closed_by none = false
closed_by (some s) = needs_quotes s

scan_field :
    (rs : List (List Text)) (r : List Text) (d : ℕ) (rest : Text)
    → IsDelimiter d
    → (f : Option Text)
    → scan false (state rs r [] false false) (plain_field f ++ (d ∷ rest))
      ≡ scan false (state rs r (text_of f) false (closed_by f)) (d ∷ rest)
unfolding plain_field closed_by
scan_field rs r d rest h none = refl
scan_field rs r d rest h (some s) = scan-plain_text rs r d rest h s

-- A field, up to whatever the row goes on with.
scan_one :
    (rs : List (List Text)) (r : List Text) (i : ℕ) (rest : Text) (f : Option Text)
    (fs : List (Option Text))
    → scan false
        (state rs r [] false false)
        (plain_field f ++ (plain_fields (suc i) fs ++ (line_end ++ rest)))
      ≡ scan false
          (state rs r (text_of f) false (closed_by f))
          (plain_fields (suc i) fs ++ (line_end ++ rest))
unfolding plain_fields
scan_one rs r i rest f [] = scan_field rs r b'\r' (b'\n' ∷ rest) (inr refl) f
scan_one rs r i rest f (g ∷ fs) =
    scan_field rs r b',' (plain_field g ++ plain_fields (suc (suc i)) fs ++ (line_end ++ rest))
      (inl refl) f

-- The rest of a row, from the delimiter after a field on.
scan_fields :
    (rs : List (List Text)) (i : ℕ) (rest : Text) (fs : List (Option Text)) (r : List Text)
    (cell : Text) (closed : Bool)
    → scan false (state rs r cell false closed) (plain_fields (suc i) fs ++ (line_end ++ rest))
      ≡ scan false (state (finish_row rs (r ++ (cell ∷ map text_of fs))) [] [] false false) rest
unfolding plain_fields
scan_fields rs i rest [] r cell closed = scan_end rs r cell rest closed
scan_fields rs i rest (f ∷ fs) r cell closed =
    let after = plain_fields (suc (suc i)) fs ++ (line_end ++ rest) in
    let r' = r ++ (cell ∷ []) in
    ap (λ t. scan false (state rs r cell false closed) (b',' ∷ t))
      (append_assoc (plain_field f) (plain_fields (suc (suc i)) fs) (line_end ++ rest))
    ∙ scan-step (state rs r cell false closed) (state rs r' [] false false) false b','
        (plain_field f ++ after) (step_comma rs r cell closed (head (plain_field f ++ after)))
    ∙ scan_one rs r' (suc i) rest f fs
    ∙ scan_fields rs (suc i) rest fs r' (text_of f) (closed_by f)
    ∙ ap (λ x. scan false (state (finish_row rs x) [] [] false false) rest)
        (append_assoc r (cell ∷ []) (text_of f ∷ map text_of fs))

scan_nothing : (rs : List (List Text)) → scan false (state rs [] [] false false) [] ≡ some rs
unfolding scan
scan_nothing rs = refl

first_field :
    (f : Option Text) (fs : List (Option Text)) (rest : Text)
    → plain_fields 0 (f ∷ fs) ++ rest ≡ plain_field f ++ (plain_fields 1 fs ++ rest)
unfolding plain_fields
first_field f fs rest = append_assoc (plain_field f) (plain_fields 1 fs) rest

-- A row of at least one field that the scanner does not drop as a blank line.
abbrev pub IsReadable : List (Option Text) → Type 0
IsReadable [] = ⊥
IsReadable (f ∷ fs) = is_blank (text_of f ∷ map text_of fs) ≡ false

finish_row-kept :
    (rs : List (List Text)) (r : List Text) → is_blank r ≡ false → finish_row rs r ≡ rs ++ (r ∷ [])
unfolding finish_row
finish_row-kept rs r h = rw h refl

scan_row :
    (rs : List (List Text)) (rest : Text) (fs : List (Option Text))
    → IsReadable fs
    → scan false (state rs [] [] false false) (plain_row fs ++ rest)
      ≡ scan false (state (rs ++ (map text_of fs ∷ [])) [] [] false false) rest
unfolding plain_row
scan_row rs rest [] h = absurd h
scan_row rs rest (f ∷ fs) h =
    ap (λ t. scan false (state rs [] [] false false) t)
      (append_assoc (plain_fields 0 (f ∷ fs)) line_end rest ∙ first_field f fs (line_end ++ rest))
    ∙ scan_one rs [] 0 rest f fs
    ∙ scan_fields rs 0 rest fs [] (text_of f) (closed_by f)
    ∙ ap (λ x. scan false (state x [] [] false false) rest)
        (finish_row-kept rs (text_of f ∷ map text_of fs) h)

scan_rows :
    (rs : List (List Text)) (rows : List (List (Option Text)))
    → All IsReadable rows
    → scan false (state rs [] [] false false) (plain_rows rows)
      ≡ some (rs ++ map (map text_of) rows)
unfolding plain_rows
scan_rows rs [] h = scan_nothing rs ∙ ap some (sym (append-nil rs))
scan_rows rs (row ∷ rows) h =
    scan_row rs (plain_rows rows) row h.0
    ∙ scan_rows (rs ++ (map text_of row ∷ [])) rows h.1
    ∙ ap some (append_assoc rs (map text_of row ∷ []) (map (map text_of) rows))

-- Units that are no half of a surrogate pair, and whole pairs.
unfoldable pub is_well_formed : Text → Bool
is_well_formed [] = true
is_well_formed (c ∷ []) = not (is_high c || is_low c)
is_well_formed (c ∷ d ∷ s) =
    let rest = is_well_formed s in
    let next = is_well_formed (d ∷ s) in
    if is_high c then is_low d && rest else not (is_low c) && next

-- Rows written by the export are read back field by field by the import, whatever separators,
-- quotation marks, line breaks or blanks the fields hold, with null read as the empty text, where
-- the text of each call of `response.write` is well formed and such a text comes back as it was
-- when its bytes are read; each row must have a field, and a row of one field must not be blank. A
-- chunk of 8192 units that ends between the halves of a surrogate pair is not well formed.
pub parse_csv_records-write_rows :
    (encode : Text → Text) (rows : List (List (Option Text)))
    → ((s : Text) → is_well_formed s ≡ true → encode s ≡ s)
    → All (λ s. is_well_formed s ≡ true) (write_rows rows)
    → All IsReadable rows
    → parse_csv_records (received encode (write_rows rows)) ≡ some (map (map text_of) rows)
unfolding parse_csv_records
parse_csv_records-write_rows encode rows faithful whole h =
    ap (scan false (state [] [] [] false false)) (
      received-whole_text encode (write_rows rows) (
        All-map (λ s. is_well_formed s ≡ true) (λ s. encode s ≡ s) (write_rows rows) faithful whole)
      ∙ whole_text-write_rows rows)
    ∙ scan_rows [] rows h
