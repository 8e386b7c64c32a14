-- ===== src/Phone.antt =====
-- Slovak telephone numbers: backend/src/utils/slovakPhone.ts. A text is its list of code units.
pub mod Format
mod Tests
use public_lighting_fault_re.Base.{
  ℕ, zero, suc, Bool, true, false, ◌&&◌, ◌||◌, List, [], ◌∷◌, ◌++◌, leb, ◌==◌, if◌then◌else◌, all,
  length,
}
use public_lighting_fault_re.Base.Text.{is_space, is_digit, trim}

abbrev pub Text : Type 0
Text = List ℕ

-- `[\s\-().]`
abbrev pub is_separator : ℕ → Bool
is_separator c = is_space c || c == b'-' || c == b'(' || c == b')' || c == b'.'

unfoldable pub without_separators : Text → Text
unfolding is_space
without_separators [] = []
without_separators (c ∷ s) =
    let rest = without_separators s in if is_separator c then rest else c ∷ rest

-- An international prefix `00` becomes `+`.
unfoldable pub plus_prefix : Text → Text
plus_prefix (a ∷ b ∷ s) = if a == b'0' && b == b'0' then b'+' ∷ s else a ∷ b ∷ s
plus_prefix s = s

abbrev pub is_empty : Text → Bool
is_empty [] = true
is_empty (c ∷ s) = false

-- `normalizePhoneInput`
unfoldable pub normalize_phone_input : Text → Text
unfolding trim without_separators plus_prefix
normalize_phone_input raw =
    let trimmed = trim raw in
    if is_empty trimmed then [] else plus_prefix (without_separators trimmed)

-- `[2-9]\d{8}$`
unfoldable pub is_subscriber : Text → Bool
is_subscriber [] = false
is_subscriber (c ∷ s) = leb b'2' c && leb c b'9' && all is_digit s && length s == 8

-- `^421[2-9]\d{8}$`
unfoldable pub is_country : Text → Bool
unfolding is_subscriber
is_country (a ∷ b ∷ c ∷ s) = a == b'4' && b == b'2' && c == b'1' && is_subscriber s
is_country _ = false

-- `^\+421[2-9]\d{8}$`
unfoldable pub is_e164 : Text → Bool
unfolding is_country
is_e164 [] = false
is_e164 (p ∷ s) = p == b'+' && is_country s

-- `^0[2-9]\d{8}$`
unfoldable pub is_national : Text → Bool
unfolding is_subscriber
is_national [] = false
is_national (z ∷ s) = z == b'0' && is_subscriber s

-- `isValidSlovakPhone`
unfoldable pub is_valid_slovak_phone : Text → Bool
unfolding normalize_phone_input is_e164 is_country is_national
is_valid_slovak_phone raw =
    let phone = normalize_phone_input raw in
    if is_empty phone then true else is_e164 phone || is_country phone || is_national phone

abbrev pub tail : Text → Text
tail [] = []
tail (c ∷ s) = s

-- `formatSlovakPhoneE164`
unfoldable pub format_slovak_phone_e164 : Text → Text
unfolding normalize_phone_input is_e164 is_country is_national
format_slovak_phone_e164 raw =
    let phone = normalize_phone_input raw in
    if is_empty phone
    then []
    else if is_e164 phone
    then phone
    else if is_country phone
    then b'+' ∷ phone
    else if is_national phone
    then b'+' ∷ b'4' ∷ b'2' ∷ b'1' ∷ tail phone
    else phone
