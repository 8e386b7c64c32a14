-- ===== src/History/Tests.antt =====
-- Submissions of reports, and the theorems at concrete inputs.
use public_lighting_fault_re.Base.{
  ℕ, ◌+◌, ◌≡◌, ◌≢◌, refl, true, false, none, some, List, [], ◌∷◌, arith, ltb,
}
use public_lighting_fault_re.Base.Text.{codes}
use public_lighting_fault_re.Base.Tables.{find_row, delete_rows, update_rows, count_rows}
use public_lighting_fault_re.Email.Data.{Challenge, Store}
use public_lighting_fault_re.Email.Store.{consume_verification}
use public_lighting_fault_re.Email.Store.Invariant.{IsStore}
use public_lighting_fault_re.Email.Service.{
  Crypto, uuid, is_uuid_v4, is_valid_email, digest_of_email,
}
use public_lighting_fault_re.Import.{Text, text, number, object, end, field, Platform}
use public_lighting_fault_re.History.{
  light_point, inside, Rules, Submission, Tables, Times, recorded, duplicate,
}
use public_lighting_fault_re.History.Targets.{
  validate_submission, wish_of, resolve_target, is_address_proved,
}
use public_lighting_fault_re.History.Record.{record_submission}
use public_lighting_fault_re.History.Record.Ledger.{view, IsTables}
use public_lighting_fault_re.History.Record.Retry.{
  Call, record_all, enter_all, record_all-enter_all,
}
use public_lighting_fault_re.History.Record.Again.{record_submission_again}
use public_lighting_fault_re.Email.Store.Spent.{clean}
use public_lighting_fault_re.Email.Data.{Clock}
use public_lighting_fault_re.History.Record.Verified.{
  Step, submit_report, use_store, take_steps, submit, submit_once,
}

abbrev platform : Platform
platform = record {
  is_finite = λ n. true;
  less = ltb;
  degrees = λ n. 1000 + n;
  negative = λ n. 1000;
  to_text = λ n. n ∷ [];
  of_text = λ s. 1000;
  normalize = λ s. s;
  to_lower = λ s. s;
  parse_json = λ s. none;
}

abbrev rules : Rules
rules = record {
  known_locality = λ s. true;
  known_fault_type = λ s. true;
  known_location_block = λ s. true;
  is_safe_id = λ n. true;
  id_of = λ n. n;
  classify = λ latitude longitude. inside;
  verify_proof = λ address t proof. false;
}

abbrev first_id : Text
first_id = codes "0b0c0d0e-0000-4000-8000-000000000001"

abbrev second_id : Text
second_id = codes "0b0c0d0e-0000-4000-8000-000000000002"

abbrev submission : Text → Submission
submission id = record {
  attempt_id = some id;
  locality = codes "KE";
  automatic_address = none;
  automatic_address_proof = none;
  location_block = none;
  fault_type = none;
  report_target = object (
      field (codes "kind") (text (codes "light-point"))
        (field (codes "lightPointId") (number 7) end));
}

abbrev times : ℕ → Times
times t = record { lookup = t; deletion = t; submission = t; receipt = t }

abbrev tables : {A : Type 0} → A → Tables A
tables a = record {
  history = [];
  attempts = [];
  next_id = 1;
  points = (record { id = 7; latitude = 1048; longitude = 1021 }) ∷ [];
  auth = a;
}

abbrev start : Tables ℕ
start = tables 0

abbrev call : ℕ → Text → Call ℕ
call t id = record { times = times t; authorize = none; submission = submission id }

abbrev calls : List (Call ℕ)
calls = call 100 first_id ∷ call 200 first_id ∷ call 300 second_id ∷ []

answers :
    (record_all platform rules calls start).1
    ≡ recorded 1 100 ∷ duplicate 1 100 ∷ recorded 2 300 ∷ []
unfolding record_all validate_submission wish_of resolve_target is_address_proved find_row
    delete_rows is_uuid_v4 uuid
answers = refl

record_all-enter_all_example :
    (view (record_all platform rules calls start).0
      ≡ (enter_all platform rules calls (view start)).0)
    × ((record_all platform rules calls start).1 ≡ (enter_all platform rules calls (view start)).1)
    × IsTables (record_all platform rules calls start).0
record_all-enter_all_example =
    record_all-enter_all platform rules calls start (omega arith, (omega arith, (omega arith, tt)))
      (tt, tt)

abbrev between : List (Call ℕ)
between = (record { times = times 150; authorize = none; submission = submission second_id }) ∷ []

abbrev after_first : Tables ℕ
after_first = (record_submission platform rules (times 100) none (submission first_id) start).0

record_submission_again_example :
    record_submission platform rules
      (times 200)
      none
      (submission first_id)
      (record_all platform rules between after_first).0
    ≡ ((record_all platform rules between after_first).0, duplicate 1 100)
unfolding record_all validate_submission wish_of resolve_target is_address_proved find_row
    delete_rows is_uuid_v4 uuid
record_submission_again_example =
    record_submission_again platform rules (times 100) (times 200) none none (submission first_id)
      (submission first_id) start between (uuid first_id) 1 100 (light_point 7) (tt, tt) tt
      (omega arith) refl refl (omega arith, tt) (omega arith, tt) refl refl (omega arith)

abbrev crypto : Crypto
crypto = record {
  to_lower_case = λ s. s;
  email_digest = λ s. 11;
  ip_digest = λ s. 3;
  otp_digest = λ intent email code. 13;
  token_digest = λ intent email token. 17;
}

abbrev address : Text
address = codes "a@b.sk"

abbrev token : Text
token = codes "0123456789012345678901234567890123456789abc"

abbrev challenge : Challenge
challenge = record {
  intent_id = uuid second_id;
  email_digest = 11;
  otp_digest = 13;
  verification_token_digest = some 17;
  attempt_count = 1;
  send_count = 1;
  last_sent_at = 10;
  expires_at = 600_010;
  verified_at = some 20;
  consumed_at = none;
}

abbrev verified : Store
verified = record { challenges = challenge ∷ []; rate_limits = [] }

verified-IsStore : IsStore verified
verified-IsStore = record { rows = (ground arith, tt); intents = (tt, tt); rates = tt }

abbrev first_submit : Tables Store
first_submit =
    (submit platform rules crypto (times 100) 100 second_id address token (submission first_id)
      (tables verified)).0

abbrev clock : Clock
clock = record {
  stmt = λ n. 120;
  challenge_cleanup = record { app = λ n. n; db = λ n. 120 };
  rate_cleanup = record { app = λ n. n; db = λ n. 120 };
}

abbrev steps : List (Step platform rules crypto)
steps =
    use_store clock clean
    ∷ submit_report (times 150) 150 second_id address token (submission first_id)
    ∷ []

submit_once_example :
    (submit platform rules crypto
      (times 200)
      200
      second_id
      address
      token
      (submission second_id)
      (take_steps platform rules crypto steps first_submit)).1
    ≢ recorded 2 200
unfolding submit validate_submission wish_of resolve_target is_address_proved find_row delete_rows
    is_uuid_v4 uuid update_rows count_rows is_valid_email consume_verification digest_of_email
submit_once_example =
    submit_once platform rules crypto (times 100) (times 200) 100 200 second_id address token token
      (submission first_id) (submission second_id) (tables verified) steps 1 100 2 200 (tt, tt)
      verified-IsStore (omega arith) (omega arith) refl (tt, (omega arith, tt))
