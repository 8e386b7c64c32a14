-- ===== src/Email/Rates.antt =====
-- `applyRateLimits` of backend/src/services/emailVerificationStore.ts: fixed one-hour windows.
pub mod Laws
use public_lighting_fault_re.Base.{
  ℕ, ◌+◌, ◌-◌, min, max, Bool, ◌&&◌, List, [], ◌∷◌, ltb, leb, ◌==◌, if◌then◌else◌,
}
use public_lighting_fault_re.Email.Data.{hour, ceil_seconds, Scope, same_scope, RateRow, RateLimit}

abbrev pub is_key : Scope → ℕ → RateRow → Bool
is_key s k r = same_scope r.scope s && r.key_digest == k

-- The row after ON CONFLICT DO UPDATE at the statement's time `now`.
abbrev pub bump_row : ℕ → RateRow → RateRow
bump_row now r =
    let over = leb (r.window_started_at + hour) now in
    record r {
      attempt_count = if over then 1 else min (r.attempt_count + 1) 2_147_483_647;
      window_started_at = if over then now else r.window_started_at;
      updated_at = now;
    }

abbrev pub fresh_row : ℕ → Scope → ℕ → RateRow
fresh_row now s k = record {
  scope = s;
  key_digest = k;
  window_started_at = now;
  attempt_count = 1;
  updated_at = now;
}

-- INSERT ... ON CONFLICT (scope, key_digest) DO UPDATE ... RETURNING: the table and the row.
unfoldable pub upsert : ℕ → Scope → ℕ → List RateRow → List RateRow × RateRow
upsert now s k [] = (fresh_row now s k ∷ [], fresh_row now s k)
upsert now s k (r ∷ rs) =
    let (rest, row) = upsert now s k rs in
    if is_key s k r then (bump_row now r ∷ rs, bump_row now r) else (r ∷ rest, row)

-- GREATEST(1, CEIL(...)): a negative interval counts as 0 here, and gives 1 as there.
abbrev pub retry_after : ℕ → RateRow → ℕ
retry_after now row = max 1 (ceil_seconds (row.window_started_at + hour - now))

-- The loop over the limits; `i` numbers the statements and `retry` is `retryAfterSeconds`.
unfoldable pub apply_from : (ℕ → ℕ) → ℕ → ℕ → List RateLimit → List RateRow → List RateRow × ℕ
apply_from stmt i retry [] rows = (rows, retry)
apply_from stmt i retry (l ∷ ls) rows =
    let (rows', row) = upsert (stmt i) l.scope l.key_digest rows in
    apply_from stmt (i + 1)
      (if ltb l.max_attempts row.attempt_count then max retry (retry_after (stmt i) row) else retry)
      ls rows'

-- Allowed exactly when the second component is 0.
unfoldable pub apply_rate_limits : (ℕ → ℕ) → List RateLimit → List RateRow → List RateRow × ℕ
unfolding apply_from
apply_rate_limits stmt limits rows = apply_from stmt 0 0 limits rows
