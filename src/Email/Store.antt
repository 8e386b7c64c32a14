-- ===== src/Email/Store.antt =====
-- The operations of `PostgresEmailVerificationStore`
-- (backend/src/services/emailVerificationStore.ts). Each is one transaction that the row locks
-- keep alone on its challenge; the n-th statement that reads the time does so once, at `stmt n`.
pub mod Invariant
pub mod Verify
pub mod Accept
pub mod Tries
pub mod Resend
pub mod Spent
pub mod Consume
use public_lighting_fault_re.Base.{
  ℕ, suc, ◌+◌, ◌-◌, ◌*◌, max, Bool, true, false, not, ◌&&◌, ◌||◌, Option, none, some, List, [], ◌∷◌,
  ltb, leb, ◌==◌, if◌then◌else◌, is_some, is_none,
}
use public_lighting_fault_re.Base.Tables.{find_row, update_rows, delete_rows, count_rows}
use public_lighting_fault_re.Email.Data.{
  second, ceil_seconds, otp_ttl_seconds, resend_cooldown_seconds, max_sends, max_attempts,
  Challenge, RateLimit, send_email, send_ip, verify_email, verify_ip, Store, NewChallenge,
  VerifyInput, Clock, CreateResult, ResendResult, VerifyResult, matches,
}
use public_lighting_fault_re.Email.Rates.{apply_rate_limits}
use public_lighting_fault_re.Email.Cleanup.{cleanup_temporary_state}

-- BEGIN, the operation, and COMMIT or, where it throws (`none`), ROLLBACK.
unfoldable pub transaction {ℓ} :
    {R : Type ℓ} → (Store → Option (Store × R)) → Store → Store × Option R
transaction operation s = elim (operation s) [ none ↦ (s, none) | some (s', r) ↦ (s', some r) ]

abbrev pub send_limits : NewChallenge → List RateLimit
send_limits c =
    record { scope = send_email; key_digest = c.email_digest; max_attempts = 3 }
    ∷ record { scope = send_ip; key_digest = c.ip_digest; max_attempts = 15 }
    ∷ []

abbrev pub verify_limits : VerifyInput → List RateLimit
verify_limits v =
    record { scope = verify_email; key_digest = v.email_digest; max_attempts = 15 }
    ∷ record { scope = verify_ip; key_digest = v.ip_digest; max_attempts = 30 }
    ∷ []

abbrev pub new_row : ℕ → NewChallenge → Challenge
new_row now c = record {
  intent_id = c.intent_id;
  email_digest = c.email_digest;
  otp_digest = c.otp_digest;
  verification_token_digest = none;
  attempt_count = 0;
  send_count = 1;
  last_sent_at = now;
  expires_at = now + otp_ttl_seconds * second;
  verified_at = none;
  consumed_at = none;
}

-- The INSERT throws if the primary key is taken.
insert_challenge : ℕ → NewChallenge → Store → Option Store
insert_challenge now c s =
    if is_some (find_row (λ r. r.intent_id == c.intent_id) s.challenges)
    then none
    else some (record s { challenges = new_row now c ∷ s.challenges })

create_body : Clock → NewChallenge → Store → Option (Store × CreateResult)
unfolding insert_challenge
create_body t c s =
    let (rates, retry) = apply_rate_limits t.stmt (send_limits c) s.rate_limits in
    let s1 = record s { rate_limits = rates } in
    if ltb 0 retry
    then some (cleanup_temporary_state t s1, CreateResult.rate_limited retry)
    else elim (insert_challenge (t.stmt 2) c s1) [
      | none ↦ none
      | some s2 ↦ some (cleanup_temporary_state t s2, CreateResult.created)
    ]

unfoldable pub create_challenge : Clock → NewChallenge → Store → Store × Option CreateResult
unfolding create_body transaction
create_challenge t c s = transaction (create_body t c) s

abbrev pub is_unexpired : ℕ → Challenge → Bool
is_unexpired now r = ltb now r.expires_at

abbrev pub is_open : Challenge → Bool
is_open r = is_none r.verified_at && is_none r.consumed_at

-- GREATEST(0, CEIL(EXTRACT(EPOCH FROM last_sent_at + 60 s - now))); the subtraction stops at 0 too.
abbrev pub cooldown_left : ℕ → Challenge → ℕ
cooldown_left now r = ceil_seconds (r.last_sent_at + resend_cooldown_seconds * second - now)

-- The WHERE clause of the UPDATE in `resendChallenge`.
abbrev pub can_resend : ℕ → NewChallenge → Challenge → Bool
can_resend now c r =
    matches c.intent_id c.email_digest r
    && is_open r
    && is_unexpired now r
    && ltb r.send_count max_sends
    && leb (r.last_sent_at + resend_cooldown_seconds * second) now

abbrev pub resent_row : ℕ → NewChallenge → Challenge → Challenge
resent_row now c r = record r {
  otp_digest = c.otp_digest;
  attempt_count = 0;
  send_count = r.send_count + 1;
  last_sent_at = now;
  expires_at = now + otp_ttl_seconds * second;
}

abbrev pub expired_or : ℕ → Option Challenge → ResendResult
expired_or now none = ResendResult.not_found
expired_or now (some r) =
    if leb r.expires_at now then ResendResult.expired else ResendResult.not_found

resend_update : Clock → NewChallenge → Store → Store × ResendResult
resend_update t c s =
    let p = can_resend (t.stmt 3) c in
    let s' =
      cleanup_temporary_state t
        (record s { challenges = update_rows p (resent_row (t.stmt 3) c) s.challenges }) in
    if count_rows p s.challenges == 1
    then (s', ResendResult.sent)
    else (s', expired_or (t.stmt 4) (find_row (matches c.intent_id c.email_digest) s'.challenges))

resend_limited : Clock → NewChallenge → Store → Store × ResendResult
unfolding resend_update
resend_limited t c s =
    let (rates, retry) = apply_rate_limits (λ n. t.stmt (n + 1)) (send_limits c) s.rate_limits in
    let s1 = record s { rate_limits = rates } in
    if ltb 0 retry
    then (cleanup_temporary_state t s1, ResendResult.rate_limited retry)
    else resend_update t c s1

-- The guards on the row that SELECT ... FOR UPDATE gives, at the time `now` of that statement.
resend_row : Clock → NewChallenge → Store → ℕ → Challenge → Store × ResendResult
unfolding resend_limited
resend_row t c s now r =
    if leb r.expires_at now
    then (s, ResendResult.expired)
    else if is_some r.verified_at || is_some r.consumed_at
    then (s, ResendResult.not_found)
    else if leb max_sends r.send_count
    then (s, ResendResult.send_limit)
    else if ltb 0 (cooldown_left now r)
    then (s, ResendResult.cooldown (cooldown_left now r))
    else resend_limited t c s

unfoldable pub resend_challenge : Clock → NewChallenge → Store → Store × ResendResult
unfolding resend_row
resend_challenge t c s = elim (find_row (matches c.intent_id c.email_digest) s.challenges) [
  | none ↦ (s, ResendResult.not_found)
  | some r ↦ resend_row t c s (t.stmt 0) r
]

-- The WHERE clause of the first UPDATE in `verifyChallenge`.
abbrev pub is_candidate : ℕ → VerifyInput → Challenge → Bool
is_candidate now v r =
    matches v.intent_id v.email_digest r
    && is_open r
    && is_unexpired now r
    && ltb r.attempt_count max_attempts

abbrev pub count_attempt : Challenge → Challenge
count_attempt r = record r { attempt_count = r.attempt_count + 1 }

-- Why no row was a candidate.
abbrev pub diagnose : ℕ → Option Challenge → VerifyResult
diagnose now none = VerifyResult.not_found
diagnose now (some r) =
    if leb r.expires_at now
    then VerifyResult.expired
    else if is_some r.consumed_at || is_some r.verified_at
    then VerifyResult.already_verified
    else if leb max_attempts r.attempt_count
    then VerifyResult.attempts_exhausted
    else VerifyResult.not_found

abbrev pub expired_or_verified : ℕ → Option Challenge → VerifyResult
expired_or_verified now none = VerifyResult.already_verified
expired_or_verified now (some r) =
    if leb r.expires_at now then VerifyResult.expired else VerifyResult.already_verified

abbrev pub can_mark : ℕ → VerifyInput → Challenge → Bool
can_mark now v r = matches v.intent_id v.email_digest r && is_open r && is_unexpired now r

abbrev pub verified_row : ℕ → VerifyInput → Challenge → Challenge
verified_row now v r = record r {
  verified_at = some now;
  verification_token_digest = some v.token_digest;
}

mark_verified : Clock → VerifyInput → Store → Store × VerifyResult
mark_verified t v s =
    let p = can_mark (t.stmt 3) v in
    let s' =
      cleanup_temporary_state t
        (record s { challenges = update_rows p (verified_row (t.stmt 3) v) s.challenges }) in
    elim (find_row p s.challenges) [
      | some r ↦ (s', VerifyResult.verified (max 1 (ceil_seconds (r.expires_at - t.stmt 3))))
      | none ↦ (
        s',
        expired_or_verified (t.stmt 4)
            (find_row (matches v.intent_id v.email_digest) s'.challenges),
      )
    ]

-- `digestMatches`: both digests have 32 bytes, so they match where the numbers are equal.
unfoldable pub digest_matches : ℕ → ℕ → Bool
digest_matches actual expected = actual == expected

check_code : Clock → VerifyInput → Challenge → Store → Store × VerifyResult
unfolding mark_verified digest_matches
check_code t v row s =
    if not (digest_matches row.otp_digest v.otp_digest)
    then (
      cleanup_temporary_state t s,
      (if leb max_attempts row.attempt_count
          then VerifyResult.attempts_exhausted
          else VerifyResult.invalid (max_attempts - row.attempt_count)),
    )
    else mark_verified t v s

check_candidate : Clock → VerifyInput → Store → Store × VerifyResult
unfolding check_code
check_candidate t v s =
    let p = is_candidate (t.stmt 2) v in
    elim (find_row p s.challenges) [
      | some r ↦
          check_code t v (count_attempt r)
            (record s { challenges = update_rows p count_attempt s.challenges })
      | none ↦ (
        cleanup_temporary_state t s,
        diagnose (t.stmt 3) (find_row (matches v.intent_id v.email_digest) s.challenges),
      )
    ]

unfoldable pub verify_challenge : Clock → VerifyInput → Store → Store × VerifyResult
unfolding check_candidate
verify_challenge t v s =
    let (rates, retry) = apply_rate_limits t.stmt (verify_limits v) s.rate_limits in
    let s1 = record s { rate_limits = rates } in
    if ltb 0 retry
    then (cleanup_temporary_state t s1, VerifyResult.rate_limited retry)
    else check_candidate t v s1

unfoldable pub delete_undelivered_challenge : ℕ → ℕ → Store → Store
delete_undelivered_challenge intent otp s = record s {
  challenges =
      delete_rows (λ r. r.intent_id == intent && r.otp_digest == otp && is_open r) s.challenges;
}

abbrev pub same_token : Option ℕ → ℕ → Bool
same_token none d = false
same_token (some t) d = t == d

-- The WHERE clause of `consumeVerification`.
abbrev pub can_consume : ℕ → ℕ → ℕ → ℕ → Challenge → Bool
can_consume now intent email token r =
    matches intent email r
    && same_token r.verification_token_digest token
    && is_some r.verified_at
    && is_none r.consumed_at
    && is_unexpired now r

abbrev pub consumed_row : ℕ → Challenge → Challenge
consumed_row now r = record r { consumed_at = some now }

unfoldable pub consume_verification : ℕ → ℕ → ℕ → ℕ → Store → Store × Bool
consume_verification now intent email token s =
    let p = can_consume now intent email token in
    (
      record s { challenges = update_rows p (consumed_row now) s.challenges },
      count_rows p s.challenges == 1,
    )

unfoldable pub cleanup_expired : Clock → Store → Store
unfolding cleanup_temporary_state
cleanup_expired t s = cleanup_temporary_state t s
