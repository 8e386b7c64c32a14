-- ===== src/Email/Service.antt =====
-- `EmailVerificationService` (backend/src/services/emailVerification.service.ts) over the store.
pub mod Laws
use public_lighting_fault_re.Base.{
  ℕ, zero, suc, ◌+◌, ◌*◌, ◌-◌, Bool, true, false, not, ◌&&◌, ◌||◌, Option, none, some, List, [],
  ◌∷◌, leb, ◌==◌, if◌then◌else◌, all, any, length,
}
use public_lighting_fault_re.Base.Text.{is_space, is_digit, is_hex_digit, is_base64url, trim}
use public_lighting_fault_re.Email.Data.{
  otp_ttl_seconds, resend_cooldown_seconds, Store, NewChallenge, VerifyInput, Clock, CreateResult,
  ResendResult, VerifyResult,
}
use public_lighting_fault_re.Email.Store.{
  create_challenge, resend_challenge, verify_challenge, delete_undelivered_challenge,
  consume_verification,
}

-- `EmailVerificationCrypto`: keyed digests, and the platform's `toLowerCase`.
pub record Crypto : Type 0 where
  pub to_lower_case : List ℕ → List ℕ
  pub email_digest : List ℕ → ℕ
  pub ip_digest : List ℕ → ℕ
  pub otp_digest : List ℕ → ℕ → List ℕ → ℕ
  pub token_digest : List ℕ → ℕ → List ℕ → ℕ

abbrev pub hex_value : ℕ → ℕ
hex_value c = if is_digit c then c - b'0' else if leb b'a' c then c - 87 else c - 55

-- PostgreSQL reads a UUID by its hexadecimal digits.
uuid_from : ℕ → List ℕ → ℕ
uuid_from acc [] = acc
uuid_from acc (c ∷ s) = uuid_from (if c == b'-' then acc else acc * 16 + hex_value c) s

unfoldable pub uuid : List ℕ → ℕ
unfolding uuid_from
uuid s = uuid_from 0 s

abbrev is_local : ℕ → Bool
is_local c = not (is_space c) && not (c == b'@')

-- `[^\s@]+\.[^\s@]+$` where `some_before` says that a character stands before.
domain_ok : Bool → List ℕ → Bool
domain_ok some_before [] = false
domain_ok some_before (c ∷ []) = false
domain_ok some_before (c ∷ d ∷ s) =
    let later = domain_ok true (d ∷ s) in
    is_local c && ((some_before && c == b'.' && all is_local (d ∷ s)) || later)

address_ok : Bool → List ℕ → Bool
unfolding domain_ok is_space
address_ok some_before [] = false
address_ok some_before (c ∷ s) =
    let later = address_ok true s in
    if c == b'@' then some_before && domain_ok false s else is_local c && later

-- `/^[0-9a-f]{8}-[0-9a-f]{4}-4[0-9a-f]{3}-[89ab][0-9a-f]{3}-[0-9a-f]{12}$/i`, position by position.
uuid_char : ℕ → ℕ → Bool
uuid_char i c =
    if i == 8 || i == 13 || i == 18 || i == 23
    then c == b'-'
    else if i == 14
    then c == b'4'
    else if i == 19
    then c == b'8' || c == b'9' || c == b'a' || c == b'b' || c == b'A' || c == b'B'
    else is_hex_digit c

uuid_chars : ℕ → List ℕ → Bool
unfolding uuid_char
uuid_chars i [] = i == 36
uuid_chars i (c ∷ s) = uuid_char i c && uuid_chars (i + 1) s

unfoldable pub is_uuid_v4 : List ℕ → Bool
unfolding uuid_chars
is_uuid_v4 s = uuid_chars 0 s

-- `/^\d{6}$/`
unfoldable pub is_code : List ℕ → Bool
is_code s = length s == 6 && all is_digit s

-- `/^[A-Za-z0-9_-]{43}$/`
unfoldable pub is_token : List ℕ → Bool
is_token s = length s == 43 && all is_base64url s

pub data RequestResult : Type 0 where
  sent : List ℕ → ℕ → ℕ → RequestResult
  rate_limited : ℕ → RequestResult
  cooldown : ℕ → RequestResult
  send_limit expired not_found delivery_failed invalid_email : RequestResult

pub data CodeResult : Type 0 where
  verified : List ℕ → ℕ → CodeResult
  invalid_email malformed : CodeResult
  refused : VerifyResult → CodeResult

module _ (crypto : Crypto) where
  unfoldable pub normalize_email : List ℕ → List ℕ
  unfolding trim
  normalize_email s = crypto.to_lower_case (trim s)

  unfoldable pub is_valid_email : List ℕ → Bool
  unfolding normalize_email address_ok
  is_valid_email s = leb (length (normalize_email s)) 254 && address_ok false (normalize_email s)

  -- `emailDigest` normalises again.
  unfoldable pub digest_of_email : List ℕ → ℕ
  unfolding normalize_email
  digest_of_email s = crypto.email_digest (normalize_email s)

  abbrev pub is_empty : List ℕ → Bool
  is_empty [] = true
  is_empty (c ∷ s) = false

  abbrev pub challenge_for : (email ip code intent : List ℕ) → NewChallenge
  challenge_for email ip code intent = record {
    intent_id = uuid intent;
    email_digest = digest_of_email (normalize_email email);
    ip_digest = crypto.ip_digest ip;
    otp_digest = crypto.otp_digest intent (digest_of_email (normalize_email email)) code;
  }

  -- What the provider does with the e-mail is given: it is delivered, or the call throws, and then
  -- the challenge is deleted (`deleted` is false where that throws too, which is ignored).
  deliver : List ℕ → ℕ → Bool → Bool → Store → Store × Option RequestResult
  deliver intent otp delivered deleted s =
      if delivered
      then (s, some (RequestResult.sent intent otp_ttl_seconds resend_cooldown_seconds))
      else (
        (if deleted then delete_undelivered_challenge (uuid intent) otp s else s),
        some RequestResult.delivery_failed,
      )

  after_resend : List ℕ → ℕ → Bool → Bool → Store × ResendResult → Store × Option RequestResult
  unfolding deliver
  after_resend intent otp delivered deleted (s, ResendResult.sent) =
      deliver intent otp delivered deleted s
  after_resend intent otp delivered deleted (s, ResendResult.rate_limited n) =
      (s, some (RequestResult.rate_limited n))
  after_resend intent otp delivered deleted (s, ResendResult.cooldown n) =
      (s, some (RequestResult.cooldown n))
  after_resend intent otp delivered deleted (s, ResendResult.send_limit) =
      (s, some RequestResult.send_limit)
  after_resend intent otp delivered deleted (s, ResendResult.expired) =
      (s, some RequestResult.expired)
  after_resend intent otp delivered deleted (s, ResendResult.not_found) =
      (s, some RequestResult.not_found)

  after_create :
      List ℕ → ℕ → Bool → Bool → Store × Option CreateResult → Store × Option RequestResult
  unfolding deliver
  after_create intent otp delivered deleted (s, none) = (s, none)
  after_create intent otp delivered deleted (s, some (CreateResult.rate_limited n)) =
      (s, some (RequestResult.rate_limited n))
  after_create intent otp delivered deleted (s, some CreateResult.created) =
      deliver intent otp delivered deleted s

  -- `asked` is the request's `intentId`, which is asked for where it is not empty, `fresh` a new UUID and `code` the code drawn at random.
  -- The result is `none` where the store throws.
  unfoldable pub request_code :
      Clock
      → (email : List ℕ) (asked : Option (List ℕ)) (ip fresh code : List ℕ)
        (delivered deleted : Bool)
      → Store
      → Store × Option RequestResult
  unfolding after_resend after_create
  request_code t email asked ip fresh code delivered deleted s =
      let challenge = challenge_for email ip code in
      if not (is_valid_email email) then (s, some RequestResult.invalid_email) else elim asked [
        | some intent ↦
            if is_empty intent
            then after_create intent (challenge intent).otp_digest delivered deleted
                (create_challenge t (challenge intent) s)
            else after_resend intent (challenge intent).otp_digest delivered deleted
                (resend_challenge t (challenge intent) s)
        | none ↦
            after_create fresh (challenge fresh).otp_digest delivered deleted
              (create_challenge t (challenge fresh) s)
      ]

  abbrev pub verify_input : (intent email ip code token : List ℕ) → VerifyInput
  verify_input intent email ip code token = record {
    intent_id = uuid intent;
    email_digest = digest_of_email email;
    ip_digest = crypto.ip_digest ip;
    otp_digest = crypto.otp_digest intent (digest_of_email email) code;
    token_digest = crypto.token_digest intent (digest_of_email email) token;
  }

  abbrev pub reply_of : List ℕ → VerifyResult → CodeResult
  reply_of token (VerifyResult.verified n) = CodeResult.verified token n
  reply_of token other = CodeResult.refused other

  -- `token` is the verification token drawn at random.
  unfoldable pub verify_code :
      Clock → (intent email ip code token : List ℕ) → Store → Store × CodeResult
  unfolding is_code
  verify_code t intent email ip code token s =
      if not (is_valid_email email)
      then (s, CodeResult.invalid_email)
      else if not (is_code code)
      then (s, CodeResult.malformed)
      else (let (s', reply) = verify_challenge t (verify_input intent email ip code token) s in
          (s', reply_of token reply))

  unfoldable pub consume_submission_verification :
      ℕ → (intent email token : List ℕ) → Store → Store × Bool
  unfolding is_uuid_v4 is_token
  consume_submission_verification now intent email token s =
      if not (is_valid_email email) || not (is_uuid_v4 intent) || not (is_token token)
      then (s, false)
      else consume_verification now (uuid intent) (digest_of_email email)
          (crypto.token_digest intent (digest_of_email email) token) s
