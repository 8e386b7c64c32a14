-- ===== src/Limiter/Bound.antt =====
-- How many requests of one client the limiter lets through in a stretch of time.
use public_lighting_fault_re.Base.{
  ℕ, ◌+◌, ◌-◌, ◌*◌, ◌≤◌, ◌≡◌, inl, inr, true, some, List, [], ◌∷◌, arith, Bool-cases,
}
use public_lighting_fault_re.Base.Tables.{find_row, update_rows}
use public_lighting_fault_re.Base.Tables.Laws.{find_row-holds}
use public_lighting_fault_re.Limiter.{
  Settings, token, Bucket, LimitResult, has_key, refilled, take, consume, fresh, is_idle,
}

abbrev pub passes : LimitResult → ℕ
passes LimitResult.allowed = 1
passes (LimitResult.refused r n) = 0

-- The times do not run backwards, starting from `t`.
abbrev pub IsOrdered : ℕ → List ℕ → Type 0
IsOrdered t [] = Unit
IsOrdered t (now ∷ times) = (t ≤ now) × IsOrdered now times

abbrev pub last_of : ℕ → List ℕ → ℕ
last_of t [] = t
last_of t (now ∷ times) = last_of now times

last_of-le : (t : ℕ) (times : List ℕ) → IsOrdered t times → t ≤ last_of t times
last_of-le t [] h = omega arith
last_of-le t (now ∷ times) h = omega (arith, last_of-le now times h.1)

module _ (c : Settings) (k : ℕ) where
  -- The requests of the client `k` at the given times: how many pass.
  unfoldable pub passed_count : List ℕ → List Bucket → ℕ
  passed_count [] buckets = 0
  passed_count (now ∷ times) buckets =
      let (buckets', r) = consume c now (some k) buckets in passes r + passed_count times buckets'

  take_pays :
      (now : ℕ) (b : Bucket)
      → b.updated_at ≤ now
      → token * passes (take c now b).1 + (take c now b).0.tokens
        ≤ b.tokens + (now - b.updated_at) * c.refill_per_minute
  unfolding take
  take_pays now b h = ground arith

  take-updated_at :
      (now : ℕ) (b : Bucket) → ((take c now b).0.updated_at ≡ now) × ((take c now b).0.key ≡ b.key)
  unfolding take
  take-updated_at now b = ground arith

  found_after :
      (b' : Bucket) (buckets : List Bucket) {b : Bucket}
      → find_row (has_key k) buckets ≡ some b
      → has_key k b' ≡ true
      → find_row (has_key k) (update_rows (has_key k) (λ _. b') buckets) ≡ some b'
  unfolding find_row update_rows
  found_after b' [] e h = cc
  found_after b' (x ∷ xs) e h = elim (Bool-cases (has_key k x)) [
    | inl t ↦ rw (t, h)
    | inr t ↦ rw (t, t) (found_after b' xs (rw t at e) h)
  ]

  spread :
      (u now last r : ℕ) → u ≤ now → now ≤ last → (last - now) * r + (now - u) * r ≡ (last - u) * r
  spread u now last r h g =
      let e : last - u ≡ (last - now) + (now - u) = omega arith in rw e (omega arith)

  consume_found :
      (now : ℕ) (buckets : List Bucket) (b : Bucket)
      → find_row (has_key k) buckets ≡ some b
      → consume c now (some k) buckets
        ≡ (update_rows (has_key k) (λ _. (take c now b).0) buckets, (take c now b).1)
  unfolding consume
  consume_found now buckets b e = rw (e, consume)

  -- While the client has a bucket, what passes is paid for by the tokens that the bucket holds and
  -- by those that flow in from its last update to the last request, at the configured rate: the
  -- times of the requests must not run backwards.
  pub passed_count-le :
      (times : List ℕ) (buckets : List Bucket) (b : Bucket)
      → find_row (has_key k) buckets ≡ some b
      → IsOrdered b.updated_at times
      → token * passed_count times buckets
        ≤ b.tokens + (last_of b.updated_at times - b.updated_at) * c.refill_per_minute
  unfolding passed_count
  passed_count-le [] buckets b e h = omega arith
  passed_count-le (now ∷ times) buckets b e h =
      let b' = (take c now b).0 in
      let (at_now, same) = take-updated_at now b in
      let mine : has_key k b' ≡ true = ground (arith, same, find_row-holds (has_key k) buckets e) in
      let later =
        passed_count-le times (update_rows (has_key k) (λ _. b') buckets) b'
          (found_after b' buckets e mine) (rw at_now h.1) in
      rw (consume_found now buckets b e) (
        omega (
          arith,
          rw at_now at later,
          take_pays now b h.0,
          spread b.updated_at now (last_of now times) c.refill_per_minute h.0
              (last_of-le now times h.1),
        ))

-- Dropping an idle bucket gives nothing away: where the idle time is long enough to refill an empty
-- bucket, a bucket that is old enough to be dropped holds the full burst at that moment, as the
-- fresh bucket does that replaces it, if it was updated when it was last seen.
pub refilled_of_idle :
    (c : Settings) (now : ℕ) (b : Bucket)
    → c.burst * token ≤ c.idle_ttl_ms * c.refill_per_minute
    → b.updated_at ≡ b.last_seen_at
    → is_idle c now b ≡ true
    → refilled c now b ≡ (fresh c now b.key).tokens
refilled_of_idle c now b enough same idle =
    let long : c.idle_ttl_ms ≤ now - b.updated_at = ground arith in
    let flow : c.idle_ttl_ms * c.refill_per_minute ≤ (now - b.updated_at) * c.refill_per_minute =
      grind arith in
    omega arith
