-- ===== src/Csv/Units.antt =====
-- The text that the calls of an export make together, unit by unit.
use mathlib.Core.List.{append_assoc}
use public_lighting_fault_re.Base.{
  ℕ, zero, suc, ◌≡◌, refl, ap, sym, ◌∙◌, inl, inr, Option, none, some, List, [], ◌∷◌, ◌++◌, length,
  if◌then◌else◌, Bool-cases, All,
}
use public_lighting_fault_re.Csv.{
  Text, Calls, take, drop, write_chars, double_quotes, needs_quotes, line_end, write_chunks,
  write_text, write_csv_field, write_fields, write_csv_row, write_rows, received,
}

unfoldable pub plain_chunks : ℕ → (fuel : ℕ) → Text → Text
unfolding double_quotes
plain_chunks n zero s = []
plain_chunks n (suc fuel) [] = []
plain_chunks n (suc fuel) (c ∷ s) =
    double_quotes (take n (c ∷ s)) ++ plain_chunks n fuel (drop n (c ∷ s))

unfoldable pub plain_text : Text → Text
unfolding plain_chunks
plain_text s =
    if needs_quotes s
    then (b'"' ∷ []) ++ (plain_chunks write_chars (length s) s ++ (b'"' ∷ []))
    else plain_chunks write_chars (length s) s

unfoldable pub plain_field : Option Text → Text
unfolding plain_text
plain_field none = []
plain_field (some s) = plain_text s

unfoldable pub plain_fields : ℕ → List (Option Text) → Text
unfolding plain_field
plain_fields i [] = []
plain_fields zero (f ∷ fs) = plain_field f ++ plain_fields 1 fs
plain_fields (suc i) (f ∷ fs) = b',' ∷ (plain_field f ++ plain_fields (suc (suc i)) fs)

unfoldable pub plain_row : List (Option Text) → Text
unfolding plain_fields
plain_row fs = plain_fields 0 fs ++ line_end

unfoldable pub plain_rows : List (List (Option Text)) → Text
unfolding plain_row
plain_rows [] = []
plain_rows (r ∷ rs) = plain_row r ++ plain_rows rs

-- The calls' texts one after the other.
unfoldable pub whole_text : Calls → Text
whole_text [] = []
whole_text (s ∷ ss) = s ++ whole_text ss

whole_text-append : (xs ys : Calls) → whole_text (xs ++ ys) ≡ whole_text xs ++ whole_text ys
unfolding whole_text
whole_text-append [] ys = refl
whole_text-append (x ∷ xs) ys =
    ap (λ t. x ++ t) (whole_text-append xs ys)
    ∙ sym (append_assoc x (whole_text xs) (whole_text ys))

whole_text-write_chunks :
    (n fuel : ℕ) (s : Text) → whole_text (write_chunks n fuel s) ≡ plain_chunks n fuel s
unfolding whole_text write_chunks plain_chunks
whole_text-write_chunks n zero s = refl
whole_text-write_chunks n (suc fuel) [] = refl
whole_text-write_chunks n (suc fuel) (c ∷ s) =
    ap (λ t. double_quotes (take n (c ∷ s)) ++ t) (whole_text-write_chunks n fuel (drop n (c ∷ s)))

whole_text-write_text : (s : Text) → whole_text (write_text s) ≡ plain_text s
unfolding whole_text write_text plain_text
whole_text-write_text s =
    let chunks = write_chunks write_chars (length s) s in
    let same = whole_text-write_chunks write_chars (length s) s in
    elim (Bool-cases (needs_quotes s)) [
      | inl e ↦ rw e (
          ap (λ t. b'"' ∷ t)
            (whole_text-append chunks ((b'"' ∷ []) ∷ []) ∙ ap (λ t. t ++ (b'"' ∷ [])) same))
      | inr e ↦ rw e same
    ]

whole_text-write_csv_field : (f : Option Text) → whole_text (write_csv_field f) ≡ plain_field f
unfolding whole_text write_csv_field plain_field
whole_text-write_csv_field none = refl
whole_text-write_csv_field (some s) = whole_text-write_text s

whole_text-write_fields :
    (i : ℕ) (fs : List (Option Text)) → whole_text (write_fields i fs) ≡ plain_fields i fs
unfolding whole_text write_fields plain_fields
whole_text-write_fields i [] = refl
whole_text-write_fields zero (f ∷ fs) =
    whole_text-append (write_csv_field f) (write_fields 1 fs)
    ∙ ap (λ t. t ++ whole_text (write_fields 1 fs)) (whole_text-write_csv_field f)
    ∙ ap (λ t. plain_field f ++ t) (whole_text-write_fields 1 fs)
whole_text-write_fields (suc i) (f ∷ fs) =
    ap (λ t. b',' ∷ t)
      (whole_text-append (write_csv_field f) (write_fields (suc (suc i)) fs)
        ∙ ap (λ t. t ++ whole_text (write_fields (suc (suc i)) fs)) (whole_text-write_csv_field f)
        ∙ ap (λ t. plain_field f ++ t) (whole_text-write_fields (suc (suc i)) fs))

whole_text-write_csv_row : (fs : List (Option Text)) → whole_text (write_csv_row fs) ≡ plain_row fs
unfolding whole_text write_csv_row plain_row
whole_text-write_csv_row fs =
    whole_text-append (write_fields 0 fs) (line_end ∷ [])
    ∙ ap (λ t. t ++ line_end) (whole_text-write_fields 0 fs)

pub whole_text-write_rows :
    (rows : List (List (Option Text))) → whole_text (write_rows rows) ≡ plain_rows rows
unfolding whole_text write_rows plain_rows
whole_text-write_rows [] = refl
whole_text-write_rows (r ∷ rs) =
    whole_text-append (write_csv_row r) (write_rows rs)
    ∙ ap (λ t. t ++ whole_text (write_rows rs)) (whole_text-write_csv_row r)
    ∙ ap (λ t. plain_row r ++ t) (whole_text-write_rows rs)

-- Calls that are encoded faithfully are received as they are.
pub received-whole_text :
    (encode : Text → Text) (ss : Calls)
    → All (λ s. encode s ≡ s) ss
    → received encode ss ≡ whole_text ss
unfolding received whole_text
received-whole_text encode [] h = refl
received-whole_text encode (s ∷ ss) h =
    ap (λ t. t ++ received encode ss) h.0 ∙ ap (λ t. s ++ t) (received-whole_text encode ss h.1)
