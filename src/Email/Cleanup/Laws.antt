-- ===== src/Email/Cleanup/Laws.antt =====
-- Cleanup deletes stale rows only.
use public_lighting_fault_re.Base.{
  ℕ, zero, suc, ◌+◌, ◌*◌, ◌≡◌, refl, ◌∙◌, inl, inr, Bool, true, false, List, ltb, leb, All,
  Bool-cases, All-map,
}
use public_lighting_fault_re.Base.Tables.{find_row, delete_oldest}
use public_lighting_fault_re.Base.Tables.Laws.{
  Distinct, Distinct-delete_oldest, All-delete_oldest, find_row-delete_oldest,
}
use public_lighting_fault_re.Email.Data.{Challenge, RateRow, CleanupClock, Clock}
use public_lighting_fault_re.Email.Cleanup.{
  is_stale_challenge, is_stale_rate, cleanup_batch_size, cleanup_time_budget_ms,
  cleanup_max_batches, batches_from, cleanup_challenges, cleanup_rates,
}

module _ {ℓ κ} {A : Type ℓ} (Q : List A → Type κ) (size : ℕ) (key : A → ℕ)
    (stale : ℕ → A → Bool) where
  -- What one statement of the loop keeps, the loop keeps.
  batches_from-keeps :
      (c : CleanupClock) (deadline : ℕ)
      → ((k : ℕ) (rows : List A) → Q rows → Q (delete_oldest size key (stale (c.db k)) rows).0)
      → (left k : ℕ) (rows : List A) → Q rows
      → Q (batches_from size key stale c deadline left k rows)
  unfolding batches_from
  batches_from-keeps c deadline step zero k rows h = h
  batches_from-keeps c deadline step (suc left) k rows h =
      let kept = step k rows h in
      let later = batches_from-keeps c deadline step left (k + 1) _ kept in
      elim (Bool-cases (ltb (c.app (2 * k + 1)) deadline)) [
        | inr e ↦ rw e h
        | inl e ↦ elim (Bool-cases (ltb (delete_oldest size key (stale (c.db k)) rows).1 size)) [
          | inl short ↦ rw (e, short) kept
          | inr full ↦ elim (Bool-cases (leb deadline (c.app (2 * k + 2)))) [
            | inl late ↦ rw (e, full, late) kept
            | inr early ↦ rw (e, full, early) later
          ]
        ]
      ]

module _ {κ} (Q : List Challenge → Type κ) (c : Clock) where
  cleanup_challenges-keeps :
      ((k : ℕ) (rows : List Challenge)
        → Q rows
        → Q
            (delete_oldest cleanup_batch_size
              (λ r. r.expires_at)
              (is_stale_challenge (c.challenge_cleanup.db k))
              rows).0)
      → (rows : List Challenge) → Q rows
      → Q (cleanup_challenges c rows)
  unfolding cleanup_challenges
  cleanup_challenges-keeps step rows h =
      batches_from-keeps Q cleanup_batch_size (λ r. r.expires_at) is_stale_challenge
        c.challenge_cleanup (c.challenge_cleanup.app 0 + cleanup_time_budget_ms) step
        cleanup_max_batches 0 rows h

pub All-cleanup_challenges {κ} :
    (P : Challenge → Type κ) (c : Clock) (rows : List Challenge)
    → All P rows
    → All P (cleanup_challenges c rows)
All-cleanup_challenges P c rows h =
    cleanup_challenges-keeps (All P) c (λ k. All-delete_oldest P cleanup_batch_size _ _) rows h

pub Distinct-cleanup_challenges :
    (id : Challenge → ℕ) (c : Clock) (rows : List Challenge)
    → Distinct id rows
    → Distinct id (cleanup_challenges c rows)
Distinct-cleanup_challenges id c rows h =
    cleanup_challenges-keeps (Distinct id) c (λ k. Distinct-delete_oldest id cleanup_batch_size _ _)
      rows h

pub All-cleanup_rates {κ} :
    (P : RateRow → Type κ) (c : Clock) (rows : List RateRow)
    → All P rows
    → All P (cleanup_rates c rows)
unfolding cleanup_rates
All-cleanup_rates P c rows h =
    batches_from-keeps (All P) cleanup_batch_size (λ r. r.updated_at) is_stale_rate c.rate_cleanup
      (c.rate_cleanup.app 0 + cleanup_time_budget_ms)
      (λ k. All-delete_oldest P cleanup_batch_size _ _) cleanup_max_batches 0 rows h

abbrev pub NeverStale : (Challenge → Bool) → Clock → Challenge → Type 0
NeverStale q c x = (k : ℕ) → q x ≡ true → is_stale_challenge (c.challenge_cleanup.db k) x ≡ false

-- A SELECT whose rows are never stale reads the same after the cleanup.
pub find_row-cleanup_challenges :
    (q : Challenge → Bool) (c : Clock) (rows : List Challenge)
    → All (NeverStale q c) rows
    → find_row q (cleanup_challenges c rows) ≡ find_row q rows
find_row-cleanup_challenges q c rows h =
    (cleanup_challenges-keeps (λ ys. All (NeverStale q c) ys × (find_row q ys ≡ find_row q rows)) c
      (λ k ys g. (
        All-delete_oldest (NeverStale q c) cleanup_batch_size _ _ ys g.0,
        find_row-delete_oldest q cleanup_batch_size _ _ ys (All-map _ _ ys (λ x f. f k) g.0) ∙ g.1,
      ))
      rows (h, refl)).1
