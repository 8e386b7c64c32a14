-- ===== src/Email/Tests.antt =====
-- Runs of the e-mail verification, and its theorems at concrete inputs.
use public_lighting_fault_re.Base.{
  ℕ, ◌+◌, ◌*◌, ◌-◌, ◌≤◌, max, ◌≡◌, refl, true, false, none, some, List, [], ◌∷◌, arith, ◌==◌,
}
use public_lighting_fault_re.Base.Text.{codes}
use public_lighting_fault_re.Base.Tables.{
  find_row, update_rows, delete_rows, count_rows, delete_oldest,
}
use public_lighting_fault_re.Email.Data.{
  second, ceil_seconds, Challenge, Store, VerifyInput, NewChallenge, Clock, RateLimit, RateRow,
  VerifyResult, ResendResult, CreateResult, Scope, matches,
}
use public_lighting_fault_re.Email.Rates.{upsert, apply_rate_limits}
use public_lighting_fault_re.Email.Cleanup.{cleanup_temporary_state}
use public_lighting_fault_re.Email.Store.{
  create_challenge, resend_challenge, verify_challenge, consume_verification, verified_row,
  count_attempt, is_candidate, send_limits,
}
use public_lighting_fault_re.Email.Store.Invariant.{IsStore}
use public_lighting_fault_re.Email.Store.Verify.{IsAllowed, IsRight, verify_challenge_sound}
use public_lighting_fault_re.Email.Store.Accept.{verify_challenge_complete}
use public_lighting_fault_re.Email.Store.Tries.{verify_all, verify_all_wrong-le}
use public_lighting_fault_re.Email.Store.Resend.{IsResendable, resend_challenge_sound}
use public_lighting_fault_re.Email.Store.Spent.{create, verify, operate_all}
use public_lighting_fault_re.Email.Store.Consume.{consume_verification_once}
use public_lighting_fault_re.Email.Service.{
  Crypto, RequestResult, uuid, verify_code, request_code, consume_submission_verification,
  is_valid_email, is_uuid_v4, is_token, is_code, verify_input, digest_of_email,
}
use public_lighting_fault_re.Email.Service.Laws.{
  IsWithdrawn, consume_submission-verify_code, request_code-IsWithdrawn,
}

-- One line for every definition that a run computes through.
email : Unit {0}
unfolding find_row update_rows delete_rows count_rows delete_oldest upsert apply_rate_limits
    cleanup_temporary_state create_challenge resend_challenge verify_challenge consume_verification
email = tt

abbrev clock : Clock
clock = record {
  stmt = λ n. 10 * second + n;
  challenge_cleanup = record { app = λ n. n; db = λ n. 11 * second };
  rate_cleanup = record { app = λ n. n; db = λ n. 11 * second };
}

abbrev later : Clock
later = record {
  stmt = λ n. 80 * second + n;
  challenge_cleanup = record { app = λ n. n; db = λ n. 81 * second };
  rate_cleanup = record { app = λ n. n; db = λ n. 81 * second };
}

abbrev row : Challenge
row = record {
  intent_id = 7;
  email_digest = 11;
  otp_digest = 13;
  verification_token_digest = none;
  attempt_count = 1;
  send_count = 1;
  last_sent_at = 5 * second;
  expires_at = 605 * second;
  verified_at = none;
  consumed_at = none;
}

abbrev store : Store
store = record { challenges = row ∷ []; rate_limits = [] }

abbrev right_input : VerifyInput
right_input = record {
  intent_id = 7;
  email_digest = 11;
  ip_digest = 3;
  otp_digest = 13;
  token_digest = 17;
}

abbrev wrong_input : VerifyInput
wrong_input = record {
  intent_id = 7;
  email_digest = 11;
  ip_digest = 3;
  otp_digest = 14;
  token_digest = 17;
}

abbrev again : NewChallenge
again = record { intent_id = 7; email_digest = 11; ip_digest = 3; otp_digest = 19 }

store-IsStore : IsStore store
store-IsStore = record { rows = (ground arith, tt); intents = (tt, tt); rates = tt }

row-IsRight : IsRight clock right_input row
row-IsRight = ground arith

allowed : IsAllowed clock right_input store
unfolding email
allowed = refl

found : find_row (matches 7 11) store.challenges ≡ some row
unfolding email
found = refl

accepts : (verify_challenge clock right_input store).1 ≡ VerifyResult.verified 595
unfolding email
accepts = refl

offers : (verify_challenge clock wrong_input store).1 ≡ VerifyResult.invalid 3
unfolding email
offers = refl

sends : (resend_challenge later again store).1 ≡ ResendResult.sent
unfolding email
sends = refl

cools : (resend_challenge clock again store).1 ≡ ResendResult.cooldown 55
unfolding email
cools = refl

creates :
    (create_challenge clock again (record { challenges = []; rate_limits = [] })).1
    ≡ some CreateResult.created
unfolding email
creates = refl

verify_challenge_sound_example :
    IsAllowed clock right_input store
    × ((r : Challenge) × (find_row (is_candidate (clock.stmt 2) right_input) store.challenges
          ≡ some r)
        × IsRight clock right_input r)
verify_challenge_sound_example = verify_challenge_sound clock right_input store 595 accepts

verify_challenge_complete_example :
    ((verify_challenge clock right_input store).1
      ≡ VerifyResult.verified (max 1 (ceil_seconds (row.expires_at - clock.stmt 3))))
    × (find_row (matches 7 11) (verify_challenge clock right_input store).0.challenges
        ≡ some (verified_row (clock.stmt 3) right_input (count_attempt row)))
verify_challenge_complete_example =
    verify_challenge_complete clock right_input store row store-IsStore allowed found row-IsRight
      (omega arith) (λ k. omega arith)

verify_all_wrong-le_example :
    (verify_all ((clock, wrong_input) ∷ (clock, wrong_input) ∷ []) store).1 ≤ 4
verify_all_wrong-le_example =
    verify_all_wrong-le 7 ((clock, wrong_input) ∷ (clock, wrong_input) ∷ []) store
      (refl, (refl, tt)) store-IsStore

resend_challenge_sound_example :
    ((apply_rate_limits (λ n. later.stmt (n + 1)) (send_limits again) store.rate_limits).1 ≡ 0)
    × ((r : Challenge) × (find_row (matches 7 11) store.challenges ≡ some r)
        × IsResendable (later.stmt 3) again r)
resend_challenge_sound_example = resend_challenge_sound later again store store-IsStore sends

abbrev proved : Store
proved = record { challenges = verified_row 20 right_input row ∷ []; rate_limits = [] }

proved-IsStore : IsStore proved
proved-IsStore = record { rows = (ground arith, tt); intents = (tt, tt); rates = tt }

consumes : (consume_verification 30 7 11 17 proved).1 ≡ true
unfolding email
consumes = refl

abbrev other_challenge : NewChallenge
other_challenge = record again { intent_id = 8 }

consume_verification_once_example :
    (consume_verification 40 7 11 17 (
      operate_all
        ((clock, create other_challenge) ∷ (clock, verify right_input) ∷ [])
        (consume_verification 30 7 11 17 proved).0)).1
    ≡ false
consume_verification_once_example =
    consume_verification_once 30 40 7 11 17 17 proved
      ((clock, create other_challenge) ∷ (clock, verify right_input) ∷ []) proved-IsStore consumes
      (ground arith, (tt, tt))

abbrev counter : RateRow
counter = record {
  scope = Scope.verify_ip;
  key_digest = 3;
  window_started_at = 0;
  attempt_count = 29;
  updated_at = 0;
}

abbrev ip_limit : RateLimit
ip_limit = record { scope = Scope.verify_ip; key_digest = 3; max_attempts = 30 }

abbrev poly : List ℕ → ℕ
poly [] = 1
poly (c ∷ s) = c + 257 * poly s

abbrev crypto : Crypto
crypto = record {
  to_lower_case = λ s. s;
  email_digest = poly;
  ip_digest = poly;
  otp_digest = λ i e c. poly i + e + poly c;
  token_digest = λ i e t. poly i + e + 3 * poly t;
}

abbrev intent : List ℕ
intent = codes "0f0f0f0f-1234-4abc-8def-0123456789ab"

abbrev address : List ℕ
address = codes "a@b.sk"

abbrev code : List ℕ
code = codes "012345"

abbrev token : List ℕ
token = codes "abcdefghijklmnopqrstuvwxyzABCDEFGHIJKLMNO-_"

abbrev asked : VerifyInput
asked = verify_input crypto intent address [] code token

abbrev sent_row : Challenge
sent_row = record row {
  intent_id = asked.intent_id;
  email_digest = asked.email_digest;
  otp_digest = asked.otp_digest;
}

abbrev sent_store : Store
sent_store = record { challenges = sent_row ∷ []; rate_limits = [] }

sent_store-IsStore : IsStore sent_store
sent_store-IsStore = record { rows = (ground arith, tt); intents = (tt, tt); rates = tt }

==_refl : (n : ℕ) → (n == n) ≡ true
==_refl n = ground arith

sent_found :
    find_row (matches (uuid intent) (digest_of_email crypto address)) sent_store.challenges
    ≡ some sent_row
unfolding find_row
sent_found = rw (==_refl (uuid intent), ==_refl (digest_of_email crypto address))

sent-IsAllowed : IsAllowed clock asked sent_store
unfolding email digest_of_email
sent-IsAllowed = refl

sent_row-IsRight : IsRight clock asked sent_row
sent_row-IsRight = record {
  intent = refl;
  email = refl;
  unverified = refl;
  unconsumed = refl;
  tries_left = omega arith;
  unexpired = omega arith;
  code = refl;
}

consume_submission-verify_code_example :
    (consume_submission_verification crypto
      (100 * second)
      intent
      address
      token
      (verify_code crypto clock intent address [] code token sent_store).0).1
    ≡ true
unfolding is_valid_email is_code is_uuid_v4 is_token
consume_submission-verify_code_example =
    consume_submission-verify_code crypto clock intent address [] code token sent_store sent_row
      (100 * second) refl refl refl refl sent_store-IsStore sent-IsAllowed sent_found
      sent_row-IsRight (omega arith) (λ k. omega arith) (omega arith)

undelivered :
    (request_code crypto clock address none [] intent code false true
      (record { challenges = []; rate_limits = [] })).1
    ≡ some RequestResult.delivery_failed
unfolding request_code is_valid_email digest_of_email uuid email
undelivered = refl

request_code-IsWithdrawn_example :
    IsWithdrawn crypto clock address [] code intent
      (request_code crypto clock address none [] intent code false true
        (record { challenges = []; rate_limits = [] })).0
request_code-IsWithdrawn_example =
    request_code-IsWithdrawn crypto clock address [] code none intent false
      (record { challenges = []; rate_limits = [] }) undelivered
