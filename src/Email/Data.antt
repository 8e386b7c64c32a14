-- ===== src/Email/Data.antt =====
-- The rows, requests and results of backend/src/services/emailVerificationStore.ts, and the tables
-- of backend/src/db/migrations/0003_email_verification.sql. Times are microseconds, the resolution
-- of a PostgreSQL timestamp. A digest (32 bytes) and a UUID are the numbers that their bytes spell.
use public_lighting_fault_re.Base.{
  ℕ, ◌*◌, ◌+◌, ◌-◌, ◌/◌, Bool, true, false, ◌&&◌, Option, List, ◌==◌,
}

abbrev pub second : ℕ
second = 1_000_000

abbrev pub hour : ℕ
hour = 3_600_000_000

-- backend/src/services/emailVerificationCrypto.ts
abbrev pub otp_ttl_seconds : ℕ
otp_ttl_seconds = 10 * 60

abbrev pub resend_cooldown_seconds : ℕ
resend_cooldown_seconds = 60

abbrev pub max_sends : ℕ
max_sends = 3

abbrev pub max_attempts : ℕ
max_attempts = 5

-- CEIL(EXTRACT(EPOCH FROM x)) of an interval of `x` microseconds.
abbrev pub ceil_seconds : ℕ → ℕ
ceil_seconds x = (x + (second - 1)) / second

pub record Challenge : Type 0 where
  pub intent_id : ℕ
  pub email_digest : ℕ
  pub otp_digest : ℕ
  pub verification_token_digest : Option ℕ
  pub attempt_count : ℕ
  pub send_count : ℕ
  pub last_sent_at : ℕ
  pub expires_at : ℕ
  pub verified_at : Option ℕ
  pub consumed_at : Option ℕ

pub data Scope : Type 0 where
  send_email send_ip verify_email verify_ip : Scope

abbrev pub same_scope : Scope → Scope → Bool
same_scope send_email send_email = true
same_scope send_ip send_ip = true
same_scope verify_email verify_email = true
same_scope verify_ip verify_ip = true
same_scope _ _ = false

pub record RateRow : Type 0 where
  pub scope : Scope
  pub key_digest : ℕ
  pub window_started_at : ℕ
  pub attempt_count : ℕ
  pub updated_at : ℕ

pub record RateLimit : Type 0 where
  pub scope : Scope
  pub key_digest : ℕ
  pub max_attempts : ℕ

pub record Store : Type 0 where
  pub challenges : List Challenge
  pub rate_limits : List RateRow

pub record NewChallenge : Type 0 where
  pub intent_id : ℕ
  pub email_digest : ℕ
  pub ip_digest : ℕ
  pub otp_digest : ℕ

pub record VerifyInput : Type 0 where
  pub intent_id : ℕ
  pub email_digest : ℕ
  pub ip_digest : ℕ
  pub otp_digest : ℕ
  pub token_digest : ℕ

-- What the clocks show: `db` at the n-th statement, `app` at the n-th `Date.now()` (milliseconds).
pub record CleanupClock : Type 0 where
  pub app : ℕ → ℕ
  pub db : ℕ → ℕ

pub record Clock : Type 0 where
  pub stmt : ℕ → ℕ
  pub challenge_cleanup : CleanupClock
  pub rate_cleanup : CleanupClock

pub data CreateResult : Type 0 where
  created : CreateResult
  rate_limited : ℕ → CreateResult

pub data ResendResult : Type 0 where
  sent : ResendResult
  rate_limited : ℕ → ResendResult
  cooldown : ℕ → ResendResult
  send_limit expired not_found : ResendResult

pub data VerifyResult : Type 0 where
  verified : ℕ → VerifyResult
  rate_limited : ℕ → VerifyResult
  invalid : ℕ → VerifyResult
  attempts_exhausted expired already_verified not_found : VerifyResult

-- WHERE intent_id = $1 AND email_digest = $2
abbrev pub matches : ℕ → ℕ → Challenge → Bool
matches intent email r = r.intent_id == intent && r.email_digest == email
