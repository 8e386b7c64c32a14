-- ===== src/Email/Rates/Laws.antt =====
-- The fixed windows: how many requests a key is allowed.
use public_lighting_fault_re.Base.{
  ℕ, suc, ◌+◌, ◌≤◌, ◌==◌, inl, inr, List, [], ◌∷◌, arith, All, Bool-cases, if◌then◌else◌,
}
use public_lighting_fault_re.Email.Data.{Scope, RateRow, RateLimit}
use public_lighting_fault_re.Email.Rates.{is_key, upsert, apply_from, apply_rate_limits}

-- CHECK (attempt_count > 0)
abbrev pub IsPositive : RateRow → Type 0
IsPositive r = 1 ≤ r.attempt_count

upsert-IsPositive :
    (now : ℕ) (s : Scope) (k : ℕ) (rows : List RateRow)
    → All IsPositive rows
    → All IsPositive (upsert now s k rows).0
unfolding upsert
upsert-IsPositive now s k [] h = (omega arith, tt)
upsert-IsPositive now s k (r ∷ rs) h = elim (Bool-cases (is_key s k r)) [
  | inl e ↦ rw e ((ground arith), h.1)
  | inr e ↦ rw e (h.0, upsert-IsPositive now s k rs h.1)
]

apply_from-IsPositive :
    (stmt : ℕ → ℕ) (i retry : ℕ) (ls : List RateLimit) (rows : List RateRow)
    → All IsPositive rows
    → All IsPositive (apply_from stmt i retry ls rows).0
unfolding apply_from
apply_from-IsPositive stmt i retry [] rows h = h
apply_from-IsPositive stmt i retry (l ∷ ls) rows h =
    apply_from-IsPositive stmt (i + 1) _ ls _
      (upsert-IsPositive (stmt i) l.scope l.key_digest rows h)

pub apply_rate_limits-IsPositive :
    (stmt : ℕ → ℕ) (ls : List RateLimit) (rows : List RateRow)
    → All IsPositive rows
    → All IsPositive (apply_rate_limits stmt ls rows).0
unfolding apply_rate_limits
apply_rate_limits-IsPositive stmt ls rows h = apply_from-IsPositive stmt 0 0 ls rows h

-- Requests at the given times, each of which `apply_rate_limits` checks against the limit: how many
-- it lets through, which are those that it gives no time to wait.
unfoldable pub allowed_count : RateLimit → List ℕ → List RateRow → ℕ
unfolding apply_rate_limits
allowed_count l [] rows = 0
allowed_count l (now ∷ times) rows =
    let (rows', retry) = apply_rate_limits (λ n. now) (l ∷ []) rows in
    let rest = allowed_count l times rows' in if retry == 0 then suc rest else rest
