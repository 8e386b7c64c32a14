-- ===== src/Limiter/Capacity.antt =====
-- How many clients the limiter remembers.
use public_lighting_fault_re.Base.{
  ℕ, ◌≤◌, inl, inr, Option, none, some, List, arith, leb, length, Bool-cases, Option-cases,
}
use public_lighting_fault_re.Base.Tables.{find_row, delete_rows}
use public_lighting_fault_re.Base.Tables.Laws.{length-update_rows, length-delete_rows}
use public_lighting_fault_re.Limiter.{Settings, Bucket, has_key, is_idle, admit, consume}

admit_capacity :
    (c : Settings) (now k : ℕ) (buckets : List Bucket)
    → length buckets ≤ c.max_keys
    → length (admit c now k buckets).0 ≤ c.max_keys
unfolding admit
admit_capacity c now k buckets h =
    elim (Bool-cases (leb c.max_keys (length (delete_rows (is_idle c now) buckets)))) [
      | inl full ↦ rw full (omega (arith, length-delete_rows (is_idle c now) buckets))
      | inr room ↦ rw room (ground arith)
    ]

-- The limiter never remembers more clients than `maxKeys`, whatever requests arrive.
pub consume_capacity :
    (c : Settings) (now : ℕ) (address : Option ℕ) (buckets : List Bucket)
    → length buckets ≤ c.max_keys
    → length (consume c now address buckets).0 ≤ c.max_keys
unfolding consume
consume_capacity c now none buckets h = h
consume_capacity c now (some k) buckets h = elim (Option-cases (find_row (has_key k) buckets)) [
  | inl e ↦ rw (e, consume) (admit_capacity c now k buckets h)
  | inr (b, e) ↦ rw (e, consume) (omega (arith, length-update_rows (has_key k) _ buckets))
]
