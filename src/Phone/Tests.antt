-- ===== src/Phone/Tests.antt =====
-- Telephone numbers read and written, and the theorem at a concrete one.
use public_lighting_fault_re.Base.{◌≡◌, refl, false}
use public_lighting_fault_re.Base.Text.{codes, trim, drop_spaces, is_space}
use public_lighting_fault_re.Phone.{
  without_separators, plus_prefix, normalize_phone_input, is_subscriber, is_country, is_e164,
  is_national, is_valid_slovak_phone, format_slovak_phone_e164,
}
use public_lighting_fault_re.Phone.Format.{is_e164-format}

national : format_slovak_phone_e164 (codes " 0951 449-039 ") ≡ codes "+421951449039"
unfolding format_slovak_phone_e164 normalize_phone_input without_separators plus_prefix trim
    drop_spaces is_space is_e164 is_country is_national is_subscriber
national = refl

international : format_slovak_phone_e164 (codes "00421 (951) 449.039") ≡ codes "+421951449039"
unfolding format_slovak_phone_e164 normalize_phone_input without_separators plus_prefix trim
    drop_spaces is_space is_e164 is_country is_national is_subscriber
international = refl

too_short : is_valid_slovak_phone (codes "0951 449 03") ≡ false
unfolding is_valid_slovak_phone normalize_phone_input without_separators plus_prefix trim
    drop_spaces is_space is_e164 is_country is_national is_subscriber
too_short = refl

is_e164-format_example :
    is_e164 (format_slovak_phone_e164 (codes "0951 449 039"))
    ≡ is_valid_slovak_phone (codes "0951 449 039")
unfolding normalize_phone_input without_separators plus_prefix trim drop_spaces is_space
is_e164-format_example = is_e164-format (codes "0951 449 039") refl
