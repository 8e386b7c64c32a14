-- ===== src/Limiter.antt =====
-- `createAddressIpLimiter` (backend/src/security/addressIpLimiter.ts): token buckets by client.
-- Tokens are counted in 60000ths, so that `refillPerMinute / 60_000` tokens for each millisecond is
-- a whole number; the program holds the same quantities as doubles.
pub mod Bound
pub mod Capacity
mod Tests
use public_lighting_fault_re.Base.{
  ℕ, ◌+◌, ◌-◌, ◌*◌, ◌/◌, ◌^◌, min, max, Bool, true, false, Option, none, some, List, [], ◌∷◌, ltb,
  leb, ◌==◌, if◌then◌else◌, length, ◌&&◌,
}
use public_lighting_fault_re.Base.Tables.{find_row, update_rows, delete_rows}

pub record Settings : Type 0 where
  pub burst : ℕ
  pub refill_per_minute : ℕ
  pub max_keys : ℕ
  pub idle_ttl_ms : ℕ

-- `Number.isSafeInteger` on a whole number.
abbrev is_safe : ℕ → Bool
is_safe n = leb n (2 ^ 53 - 1)

-- The check that the constructor makes, over whole numbers, with the length of the secret.
unfoldable pub is_valid : Settings → ℕ → Bool
is_valid c secret_length =
    is_safe c.burst
    && leb 1 c.burst
    && is_safe c.refill_per_minute
    && leb 1 c.refill_per_minute
    && is_safe c.max_keys
    && leb 1 c.max_keys
    && is_safe c.idle_ttl_ms
    && leb 1 c.idle_ttl_ms
    && secret_length == 32

abbrev pub token : ℕ
token = 60_000

-- A bucket under the key that the client's address is hashed to.
pub record Bucket : Type 0 where
  pub key : ℕ
  pub tokens : ℕ
  pub updated_at : ℕ
  pub last_seen_at : ℕ

pub data Refusal : Type 0 where
  rate_limited limiter_capacity : Refusal

pub data LimitResult : Type 0 where
  allowed : LimitResult
  refused : Refusal → ℕ → LimitResult

abbrev pub has_key : ℕ → Bucket → Bool
has_key k b = b.key == k

abbrev pub ceil_div : ℕ → ℕ → ℕ
ceil_div a b = (a + (b - 1)) / b

module _ (c : Settings) where
  abbrev pub is_idle : ℕ → Bucket → Bool
  is_idle now b = leb (b.last_seen_at + c.idle_ttl_ms) now

  -- `Math.max(0, now - updatedAt)` is the subtraction that stops at 0.
  abbrev pub refilled : ℕ → Bucket → ℕ
  refilled now b = min (c.burst * token) (b.tokens + (now - b.updated_at) * c.refill_per_minute)

  abbrev pub seen : ℕ → ℕ → Bucket → Bucket
  seen now tokens b = record b { tokens = tokens; updated_at = now; last_seen_at = now }

  -- What is left in the bucket after the request, and the answer.
  unfoldable pub take : ℕ → Bucket → Bucket × LimitResult
  take now b =
      if ltb (refilled now b) token
      then (
        seen now (refilled now b) b,
        LimitResult.refused rate_limited
            (max 1 (ceil_div (token - refilled now b) (c.refill_per_minute * 1000))),
      )
      else (seen now (refilled now b - token) b, LimitResult.allowed)

  abbrev pub fresh : ℕ → ℕ → Bucket
  fresh now k = record { key = k; tokens = c.burst * token; updated_at = now; last_seen_at = now }

  -- A new client: idle buckets are dropped first, and then there may be no room.
  admit : ℕ → ℕ → List Bucket → List Bucket × LimitResult
  unfolding take
  admit now k buckets =
      let kept = delete_rows (is_idle now) buckets in
      if leb c.max_keys (length kept)
      then (kept, LimitResult.refused limiter_capacity (max 1 (ceil_div c.idle_ttl_ms 1000)))
      else (let (b, r) = take now (fresh now k) in (b ∷ kept, r))

  -- `address` is the hashed key of the normalised address, if it could be normalised.
  unfoldable pub consume : ℕ → Option ℕ → List Bucket → List Bucket × LimitResult
  unfolding admit
  consume now none buckets = (buckets, LimitResult.refused limiter_capacity 60)
  consume now (some k) buckets = elim (find_row (has_key k) buckets) [
    | none ↦ admit now k buckets
    | some b ↦ let (b', r) = take now b in (update_rows (has_key k) (λ _. b') buckets, r)
  ]
