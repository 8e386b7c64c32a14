-- ===== src/Csv/Tests.antt =====
-- Texts read and written, and the theorem at concrete rows.
use public_lighting_fault_re.Base.{
  ◌≡◌, true, if◌then◌else◌, ◌∷◌, refl, Option, none, some, List, [], map,
}
use public_lighting_fault_re.Base.Text.{codes, trim, drop_spaces, is_space}
use public_lighting_fault_re.Csv.{Text, parse_csv_records, is_blank, write_rows, received}
use public_lighting_fault_re.Csv.RoundTrip.{is_well_formed, text_of, parse_csv_records-write_rows}

quoted_and_bare :
    parse_csv_records (codes "a,\"b,\"\"c\"\" \" \n\n d ,")
    ≡ some ((codes "a" ∷ codes "b,\"c\" " ∷ []) ∷ (codes " d " ∷ [] ∷ []) ∷ [])
unfolding parse_csv_records is_blank trim drop_spaces is_space
quoted_and_bare = refl

text_after_quote : parse_csv_records (codes "\"a\"b") ≡ none
unfolding parse_csv_records
text_after_quote = refl

unclosed : parse_csv_records (codes "a,\"b") ≡ none
unfolding parse_csv_records
unclosed = refl

abbrev rows : List (List (Option Text))
rows =
    (some (codes "VO-1") ∷ none ∷ some (codes "Main, \"old\"") ∷ []) ∷ (some (codes "7") ∷ []) ∷ []

-- A text that is not well formed comes back with a replacement character.
abbrev encode : Text → Text
encode s = if is_well_formed s then s else 65533 ∷ []

encode-well_formed : (s : Text) → is_well_formed s ≡ true → encode s ≡ s
encode-well_formed s h = rw h refl

parse_csv_records-write_rows_example :
    parse_csv_records (received encode (write_rows rows)) ≡ some (map (map text_of) rows)
unfolding is_blank trim drop_spaces is_space write_rows is_well_formed
parse_csv_records-write_rows_example =
    parse_csv_records-write_rows encode rows encode-well_formed
      (refl, (refl, (refl, (refl, (refl, (refl, (refl, (refl, (refl, tt))))))))) (refl, (refl, tt))
