-- ===== src/Limiter/Tests.antt =====
-- Runs of the limiter, and its theorems at concrete inputs.
use public_lighting_fault_re.Base.{◌+◌, ◌-◌, ◌*◌, ◌≤◌, ◌≡◌, refl, some, [], ◌∷◌, arith, length}
use public_lighting_fault_re.Base.Tables.{find_row, update_rows, delete_rows}
use public_lighting_fault_re.Limiter.{
  Settings, token, Bucket, LimitResult, limiter_capacity, consume,
}
use public_lighting_fault_re.Limiter.Bound.{passed_count, passed_count-le}
use public_lighting_fault_re.Limiter.Capacity.{consume_capacity}

abbrev settings : Settings
settings = record { burst = 2; refill_per_minute = 10; max_keys = 1; idle_ttl_ms = 60_000 }

abbrev bucket : Bucket
bucket = record { key = 5; tokens = 60_000; updated_at = 1000; last_seen_at = 1000 }

second_client :
    (consume settings 1500 (some 6) (bucket ∷ [])).1 ≡ LimitResult.refused limiter_capacity 60
unfolding consume find_row delete_rows
second_client = refl

runs_dry : passed_count settings 5 (1000 ∷ 1001 ∷ 7000 ∷ 7001 ∷ []) (bucket ∷ []) ≡ 2
unfolding passed_count consume find_row update_rows
runs_dry = refl

passed_count-le_example :
    token * passed_count settings 5 (1000 ∷ 7000 ∷ []) (bucket ∷ []) ≤ 60_000 + (7000 - 1000) * 10
unfolding find_row
passed_count-le_example =
    passed_count-le settings 5 (1000 ∷ 7000 ∷ []) (bucket ∷ []) bucket refl (omega arith)

consume_capacity_example : length (consume settings 1500 (some 6) (bucket ∷ [])).0 ≤ 1
consume_capacity_example = consume_capacity settings 1500 (some 6) (bucket ∷ []) (omega arith)
