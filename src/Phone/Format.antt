-- ===== src/Phone/Format.antt =====
-- What is stored for a number that the form accepts.
use public_lighting_fault_re.Base.{◌≡◌, refl, inl, inr, true, false, [], ◌∷◌, arith, Bool-cases}
use public_lighting_fault_re.Phone.{
  Text, is_empty, normalize_phone_input, is_country, is_e164, is_national, is_valid_slovak_phone,
  tail, format_slovak_phone_e164,
}

is_e164-country : (s : Text) → is_country s ≡ true → is_e164 (b'+' ∷ s) ≡ true
unfolding is_e164
is_e164-country s h = h

is_e164-national :
    (s : Text) → is_national s ≡ true → is_e164 (b'+' ∷ b'4' ∷ b'2' ∷ b'1' ∷ tail s) ≡ true
unfolding is_e164 is_country is_national
is_e164-national [] h = cc
is_e164-national (z ∷ s) h = ground arith

-- A number of which something is left by `normalizePhoneInput`, which takes blanks and separators
-- out, is stored in the form `+421` and nine digits, the first of them from 2 to 9, exactly if the
-- form accepts it.
pub is_e164-format :
    (raw : Text)
    → is_empty (normalize_phone_input raw) ≡ false
    → is_e164 (format_slovak_phone_e164 raw) ≡ is_valid_slovak_phone raw
unfolding format_slovak_phone_e164 is_valid_slovak_phone
is_e164-format raw some_text =
    let phone = normalize_phone_input raw in
    elim (Bool-cases (is_e164 phone)) [
      | inl a ↦ rw (some_text, a) (rw a refl)
      | inr a ↦ elim (Bool-cases (is_country phone)) [
        | inl b ↦ rw (some_text, a, b) (is_e164-country phone b)
        | inr b ↦ elim (Bool-cases (is_national phone)) [
          | inl c ↦ rw (some_text, a, b, c) (is_e164-national phone c)
          | inr c ↦ rw (some_text, a, b, c) a
        ]
      ]
    ]
