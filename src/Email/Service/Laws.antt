-- ===== src/Email/Service/Laws.antt =====
-- The service as its callers see it.
use public_lighting_fault_re.Base.{
  ℕ, ◌<◌, ◌≡◌, inl, inr, Bool, true, false, ◌&&◌, Option, none, some, List, arith, All, Bool-cases,
  ◌==◌,
}
use mathlib.Core.Option
use public_lighting_fault_re.Base.Tables.{find_row}
use public_lighting_fault_re.Base.Tables.Laws.{delete_rows-none_left}
use public_lighting_fault_re.Email.Data.{
  Challenge, Store, Clock, ResendResult, CreateResult, matches,
}
use public_lighting_fault_re.Email.Store.{delete_undelivered_challenge, is_open}
use public_lighting_fault_re.Email.Store.Invariant.{IsStore}
use public_lighting_fault_re.Email.Store.Verify.{IsAllowed, IsRight}
use public_lighting_fault_re.Email.Store.Accept.{IsPrompt}
use public_lighting_fault_re.Email.Store.Consume.{consume-verify_challenge}
use public_lighting_fault_re.Email.Service.{
  Crypto, uuid, is_uuid_v4, is_token, is_code, is_valid_email, digest_of_email, verify_input,
  verify_code, deliver, after_resend, after_create, request_code, is_empty, RequestResult,
  challenge_for, consume_submission_verification,
}

module _ (crypto : Crypto) (t : Clock) (intent email ip code token : List ℕ) (s : Store) where
  -- The token that `verify_code` hands out is good for one submission: given the right code of an
  -- open challenge within the rate limits, the later call with the same intent, e-mail and token
  -- succeeds at any time before the challenge expires.
  pub consume_submission-verify_code :
      (r : Challenge) (now : ℕ)
      → is_valid_email crypto email ≡ true
      → is_code code ≡ true
      → is_uuid_v4 intent ≡ true
      → is_token token ≡ true
      → IsStore s
      → IsAllowed t (verify_input crypto intent email ip code token) s
      → find_row (matches (uuid intent) (digest_of_email crypto email)) s.challenges ≡ some r
      → IsRight t (verify_input crypto intent email ip code token) r
      → t.stmt 3 < r.expires_at
      → IsPrompt t
      → now < r.expires_at
      → (consume_submission_verification crypto now intent email token
          (verify_code crypto t intent email ip code token s).0).1
        ≡ true
  unfolding verify_code consume_submission_verification
  consume_submission-verify_code r now valid six v4 token_ok ok allowed found right h prompt later =
      rw (valid, six, v4, token_ok)
        (consume-verify_challenge t (verify_input crypto intent email ip code token) s r now ok
          allowed found right h prompt later)

module _ (crypto : Crypto) (t : Clock) (email ip code : List ℕ) where
  -- No open challenge of the intent holds the code.
  abbrev pub IsWithdrawn : List ℕ → Store → Type 0
  IsWithdrawn intent s =
      All
        (λ (r : Challenge).
          (r.intent_id == uuid intent
            && r.otp_digest == (challenge_for crypto email ip code intent).otp_digest
            && is_open r)
          ≡ false)
        s.challenges

  deliver-IsWithdrawn :
      (intent : List ℕ) (delivered : Bool) (s : Store)
      → (deliver crypto intent
          (challenge_for crypto email ip code intent).otp_digest
          delivered
          true
          s).1
        ≡ some RequestResult.delivery_failed
      → IsWithdrawn intent
          (deliver crypto intent
            (challenge_for crypto email ip code intent).otp_digest
            delivered
            true
            s).0
  unfolding deliver delete_undelivered_challenge
  deliver-IsWithdrawn intent true s h = ground arith
  deliver-IsWithdrawn intent false s h = delete_rows-none_left _ s.challenges

  after_resend-IsWithdrawn :
      (intent : List ℕ) (delivered : Bool) (reply : Store × ResendResult)
      → let otp = (challenge_for crypto email ip code intent).otp_digest in
        (after_resend crypto intent otp delivered true reply).1 ≡ some RequestResult.delivery_failed
        → IsWithdrawn intent (after_resend crypto intent otp delivered true reply).0
  unfolding after_resend
  after_resend-IsWithdrawn intent delivered (s, ResendResult.sent) h =
      deliver-IsWithdrawn intent delivered s h
  after_resend-IsWithdrawn intent delivered (s, other) h = cc

  after_create-IsWithdrawn :
      (intent : List ℕ) (delivered : Bool) (reply : Store × Option CreateResult)
      → let otp = (challenge_for crypto email ip code intent).otp_digest in
        (after_create crypto intent otp delivered true reply).1 ≡ some RequestResult.delivery_failed
        → IsWithdrawn intent (after_create crypto intent otp delivered true reply).0
  unfolding after_create
  after_create-IsWithdrawn intent delivered (s, some CreateResult.created) h =
      deliver-IsWithdrawn intent delivered s h
  after_create-IsWithdrawn intent delivered (s, other) h = cc

  -- A code that could not be delivered is withdrawn: where the answer is `delivery_failed` and the
  -- deletion went through, no open challenge of the intent, the new one or the one asked for, holds
  -- the code's digest.
  pub request_code-IsWithdrawn :
      (asked : Option (List ℕ)) (fresh : List ℕ) (delivered : Bool) (s : Store)
      → (request_code crypto t email asked ip fresh code delivered true s).1
        ≡ some RequestResult.delivery_failed
      → IsWithdrawn
          (Option.get_or asked fresh)
          (request_code crypto t email asked ip fresh code delivered true s).0
  unfolding request_code
  request_code-IsWithdrawn none fresh delivered s h =
      elim (Bool-cases (is_valid_email crypto email)) [
        | inr e ↦ absurd (cc (rw e at h))
        | inl e ↦ rw e (after_create-IsWithdrawn fresh delivered _ (rw e at h))
      ]
  request_code-IsWithdrawn (some intent) fresh delivered s h =
      elim (Bool-cases (is_valid_email crypto email)) [
        | inr e ↦ absurd (cc (rw e at h))
        | inl e ↦ elim (Bool-cases (is_empty crypto intent)) [
          | inl f ↦ rw (e, f) (after_create-IsWithdrawn intent delivered _ (rw (e, f) at h))
          | inr f ↦ rw (e, f) (after_resend-IsWithdrawn intent delivered _ (rw (e, f) at h))
        ]
      ]
