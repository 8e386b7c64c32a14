-- ===== src/Email/Store/Verify.antt =====
-- When `verify_challenge` accepts a code, and what it leaves behind.
use public_lighting_fault_re.Base.{
  ℕ, ◌<◌, ◌≡◌, inl, inr, true, Option, none, some, arith, Bool-cases, Option-cases, ltb, leb,
  ==_iff, ◌≢◌,
}
use public_lighting_fault_re.Base.Tables.{find_row}
use public_lighting_fault_re.Base.Tables.Laws.{find_row-holds}
use public_lighting_fault_re.Email.Data.{
  max_attempts, Challenge, Store, VerifyInput, Clock, VerifyResult,
}
use public_lighting_fault_re.Email.Rates.{apply_rate_limits}
use public_lighting_fault_re.Email.Store.{
  verify_challenge, is_candidate, count_attempt, digest_matches, check_code, check_candidate,
  diagnose, verify_limits,
}

-- The rate limits let the request through.
abbrev pub IsAllowed : Clock → VerifyInput → Store → Type 0
IsAllowed t v s = (apply_rate_limits t.stmt (verify_limits v) s.rate_limits).1 ≡ 0

-- A stored challenge for which the given code is right and may still be tried.
pub record IsRight (t : Clock) (v : VerifyInput) (r : Challenge) : Type 0 where
  pub intent : r.intent_id ≡ v.intent_id
  pub email : r.email_digest ≡ v.email_digest
  pub unverified : r.verified_at ≡ none
  pub unconsumed : r.consumed_at ≡ none
  pub tries_left : r.attempt_count < max_attempts
  pub unexpired : t.stmt 2 < r.expires_at
  pub code : r.otp_digest ≡ v.otp_digest

candidate-IsRight :
    (t : Clock) (v : VerifyInput) (r : Challenge)
    → is_candidate (t.stmt 2) v r ≡ true
    → r.otp_digest ≡ v.otp_digest
    → IsRight t v r
candidate-IsRight t v r h e = record {
  intent = ground arith;
  email = ground arith;
  unverified = ground arith;
  unconsumed = ground arith;
  tries_left = ground arith;
  unexpired = ground arith;
  code = e;
}

check_code-verified :
    (t : Clock) (v : VerifyInput) (r : Challenge) (s : Store) {n : ℕ}
    → (check_code t v r s).1 ≡ VerifyResult.verified n
    → r.otp_digest ≡ v.otp_digest
unfolding check_code
check_code-verified t v r s h = elim (Bool-cases (digest_matches r.otp_digest v.otp_digest)) [
  | inl e ↦ (==_iff _ _).0 e
  | inr e ↦ elim (Bool-cases (leb max_attempts r.attempt_count)) [
    | inl k ↦ absurd (cc (rw (e, k) at h))
    | inr k ↦ absurd (cc (rw (e, k) at h))
  ]
]

diagnose-ne-verified :
    (now : ℕ) (o : Option Challenge) {n : ℕ} → diagnose now o ≢ VerifyResult.verified n
diagnose-ne-verified now none = cc
diagnose-ne-verified now (some r) = ground arith

check_candidate-verified :
    (t : Clock) (v : VerifyInput) (s : Store) {n : ℕ}
    → (check_candidate t v s).1 ≡ VerifyResult.verified n
    → (r : Challenge) × (find_row (is_candidate (t.stmt 2) v) s.challenges ≡ some r)
      × (r.otp_digest ≡ v.otp_digest)
unfolding check_candidate
check_candidate-verified t v s h =
    elim (Option-cases (find_row (is_candidate (t.stmt 2) v) s.challenges)) [
      | inl e ↦ absurd (diagnose-ne-verified (t.stmt 3) _ (rw (e, check_candidate) at h))
      | inr (r, e) ↦
          (r, e, check_code-verified t v (count_attempt r) _ (rw (e, check_candidate) at h))
    ]

-- A code is accepted only within the rate limits and for a stored challenge of that intent and
-- e-mail that is open, unexpired, has tries left and holds the digest of that very code.
pub verify_challenge_sound :
    (t : Clock) (v : VerifyInput) (s : Store) (n : ℕ)
    → (verify_challenge t v s).1 ≡ VerifyResult.verified n
    → IsAllowed t v s
      × ((r : Challenge) × (find_row (is_candidate (t.stmt 2) v) s.challenges ≡ some r)
          × IsRight t v r)
unfolding verify_challenge
verify_challenge_sound t v s n h =
    elim (Bool-cases (ltb 0 (apply_rate_limits t.stmt (verify_limits v) s.rate_limits).1)) [
      | inl limited ↦ absurd (cc (rw limited at h))
      | inr allowed ↦
          let (r, found, code) = check_candidate-verified t v _ (rw allowed at h) in
          (
            ground arith,
            (r, found, candidate-IsRight t v r (find_row-holds _ s.challenges found) code),
          )
    ]
