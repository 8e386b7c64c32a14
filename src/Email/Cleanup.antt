-- ===== src/Email/Cleanup.antt =====
-- `cleanupTemporaryState` of backend/src/services/emailVerificationStore.ts.
pub mod Laws
use public_lighting_fault_re.Base.{
  ℕ, zero, suc, ◌+◌, ◌*◌, Bool, true, false, ◌||◌, Option, none, some, List, ltb, leb,
  if◌then◌else◌,
}
use public_lighting_fault_re.Base.Tables.{delete_oldest}
use public_lighting_fault_re.Email.Data.{hour, Challenge, RateRow, CleanupClock, Clock, Store}

abbrev pub cleanup_batch_size : ℕ
cleanup_batch_size = 100

abbrev pub cleanup_max_batches : ℕ
cleanup_max_batches = 10

abbrev pub cleanup_time_budget_ms : ℕ
cleanup_time_budget_ms = 1000

abbrev before : Option ℕ → ℕ → Bool
before none t = false
before (some c) t = ltb (c + hour) t

-- expires_at or consumed_at more than an hour ago
abbrev pub is_stale_challenge : ℕ → Challenge → Bool
is_stale_challenge now r = ltb (r.expires_at + hour) now || before r.consumed_at now

abbrev pub is_stale_rate : ℕ → RateRow → Bool
is_stale_rate now r = ltb (r.updated_at + 48 * hour) now

module _ {ℓ} {A : Type ℓ} (size : ℕ) (key : A → ℕ) (stale : ℕ → A → Bool) where
  -- One pass of the loop reads the clock for its test, runs the statement, and reads it again.
  unfoldable pub batches_from : CleanupClock → ℕ → ℕ → ℕ → List A → List A
  batches_from c deadline zero k rows = rows
  batches_from c deadline (suc left) k rows =
      let (rows', removed) = delete_oldest size key (stale (c.db k)) rows in
      let rest = batches_from c deadline left (k + 1) rows' in
      if ltb (c.app (2 * k + 1)) deadline
      then (if ltb removed size
          then rows'
          else if leb deadline (c.app (2 * k + 2))
          then rows'
          else rest)
      else rows

unfoldable pub cleanup_challenges : Clock → List Challenge → List Challenge
unfolding batches_from
cleanup_challenges c rows =
    batches_from cleanup_batch_size (λ r. r.expires_at) is_stale_challenge c.challenge_cleanup
      (c.challenge_cleanup.app 0 + cleanup_time_budget_ms) cleanup_max_batches 0 rows

unfoldable pub cleanup_rates : Clock → List RateRow → List RateRow
unfolding batches_from
cleanup_rates c rows =
    batches_from cleanup_batch_size (λ r. r.updated_at) is_stale_rate c.rate_cleanup
      (c.rate_cleanup.app 0 + cleanup_time_budget_ms) cleanup_max_batches 0 rows

unfoldable pub cleanup_temporary_state : Clock → Store → Store
unfolding cleanup_challenges cleanup_rates
cleanup_temporary_state c s = record s {
  challenges = cleanup_challenges c s.challenges;
  rate_limits = cleanup_rates c s.rate_limits;
}
