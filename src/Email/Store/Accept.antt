-- ===== src/Email/Store/Accept.antt =====
-- The right code is accepted, and what an accepted code leaves behind.
use public_lighting_fault_re.Base.{
  ℕ, ◌+◌, ◌-◌, max, ◌≤◌, ◌<◌, ◌≡◌, refl, ◌∙◌, Bool, true, false, none, some, arith, ltb, ==_iff,
  All-map,
}
use mathlib.Core.Option
use public_lighting_fault_re.Base.Tables.{find_row, update_rows}
use public_lighting_fault_re.Base.Tables.Laws.{Distinct, Distinct-update_rows, All-same_of_find_row}
use public_lighting_fault_re.Base.Tables.Find.{find_row-update_rows, find_row-refine}
use public_lighting_fault_re.Email.Data.{
  hour, ceil_seconds, Challenge, Store, VerifyInput, Clock, VerifyResult, matches,
}
use public_lighting_fault_re.Email.Rates.{apply_rate_limits}
use public_lighting_fault_re.Email.Cleanup.{is_stale_challenge, cleanup_temporary_state}
use public_lighting_fault_re.Email.Cleanup.Laws.{find_row-cleanup_challenges}
use public_lighting_fault_re.Email.Store.{
  verify_challenge, is_candidate, count_attempt, can_mark, verified_row, digest_matches,
  mark_verified, check_code, check_candidate, verify_limits,
}
use public_lighting_fault_re.Email.Store.Invariant.{IsStore}
use public_lighting_fault_re.Email.Store.Verify.{IsAllowed, IsRight}

-- The challenge that `matches` finds is the one that the statements of a transaction touch.
abbrev selects : VerifyInput → Challenge → Bool
selects v = matches v.intent_id v.email_digest

-- The store's challenges once both UPDATEs have run.
abbrev updated : Clock → VerifyInput → Store → Store
updated t v s = record s {
  challenges =
      update_rows (can_mark (t.stmt 3) v) (verified_row (t.stmt 3) v)
        (update_rows (is_candidate (t.stmt 2) v) count_attempt s.challenges);
}

can_mark_found :
    (t : Clock) (v : VerifyInput) (s : Store) (r : Challenge)
    → find_row (selects v) s.challenges ≡ some r
    → IsRight t v r
    → t.stmt 3 < r.expires_at
    → find_row
        (can_mark (t.stmt 3) v)
        (update_rows (is_candidate (t.stmt 2) v) count_attempt s.challenges)
      ≡ some (count_attempt r)
can_mark_found t v s r found right h =
    let candidate : is_candidate (t.stmt 2) v r ≡ true = ground arith in
    let here =
      find_row-update_rows (selects v) (is_candidate (t.stmt 2) v) count_attempt s.challenges
        (λ x. refl) in
    find_row-refine (can_mark (t.stmt 3) v) (selects v) _ (λ y p. ground arith)
      (rw (found, Option.map, candidate) at here) (ground arith)

mark_verified_complete :
    (t : Clock) (v : VerifyInput) (s : Store) (r : Challenge)
    → find_row (can_mark (t.stmt 3) v) s.challenges ≡ some r
    → mark_verified t v s ≡ (
      cleanup_temporary_state t (record s {
        challenges = update_rows (can_mark (t.stmt 3) v) (verified_row (t.stmt 3) v) s.challenges;
      }),
      VerifyResult.verified (max 1 (ceil_seconds (r.expires_at - t.stmt 3))),
    )
unfolding mark_verified
mark_verified_complete t v s r e = rw (e, mark_verified)

-- The state of the rate tables after the two upserts.
abbrev limited : Clock → VerifyInput → Store → Store
limited t v s = record s {
  rate_limits = (apply_rate_limits t.stmt (verify_limits v) s.rate_limits).0;
}

verify_challenge-runs :
    (t : Clock) (v : VerifyInput) (s : Store) (r : Challenge)
    → IsAllowed t v s
    → find_row (selects v) s.challenges ≡ some r
    → IsRight t v r
    → t.stmt 3 < r.expires_at
    → verify_challenge t v s ≡ (
      cleanup_temporary_state t (updated t v (limited t v s)),
      VerifyResult.verified (max 1 (ceil_seconds (r.expires_at - t.stmt 3))),
    )
unfolding verify_challenge
verify_challenge-runs t v s r allowed found right h =
    let pass : ltb 0 (apply_rate_limits t.stmt (verify_limits v) s.rate_limits).1 ≡ false =
      ground arith in
    let candidate : find_row (is_candidate (t.stmt 2) v) s.challenges ≡ some r =
      find_row-refine _ (selects v) s.challenges (λ y p. ground arith) found (ground arith) in
    let same : digest_matches r.otp_digest v.otp_digest ≡ true = (==_iff _ _).1 right.code in
    rw pass (
      rw (candidate, check_candidate)
        (rw (same, check_code)
          (mark_verified_complete t v _ (count_attempt r) (can_mark_found t v s r found right h))))

-- The cleanup's clock never runs an hour past the moment of the second UPDATE.
abbrev pub IsPrompt : Clock → Type 0
IsPrompt t = (k : ℕ) → t.challenge_cleanup.db k ≤ t.stmt 3 + hour

updated_found :
    (t : Clock) (v : VerifyInput) (s : Store) (r : Challenge)
    → find_row (selects v) s.challenges ≡ some r
    → IsRight t v r
    → t.stmt 3 < r.expires_at
    → find_row (selects v) (updated t v s).challenges
      ≡ some (verified_row (t.stmt 3) v (count_attempt r))
updated_found t v s r found right h =
    let p = is_candidate (t.stmt 2) v in
    let q = can_mark (t.stmt 3) v in
    let candidate : p r ≡ true = ground arith in
    let markable : q (count_attempt r) ≡ true = ground arith in
    let once = find_row-update_rows (selects v) p count_attempt s.challenges (λ x. refl) in
    let twice =
      find_row-update_rows (selects v) q (verified_row (t.stmt 3) v)
        (update_rows p count_attempt s.challenges) (λ x. refl) in
    rw (rw (found, Option.map, candidate) at once, Option.map, markable) at twice

updated-Distinct :
    (t : Clock) (v : VerifyInput) (s : Store)
    → Distinct (λ (r : Challenge). r.intent_id) s.challenges
    → Distinct (λ (r : Challenge). r.intent_id) (updated t v s).challenges
updated-Distinct t v s d =
    Distinct-update_rows (λ r. r.intent_id) _ _ _ (λ x. refl)
      (Distinct-update_rows (λ r. r.intent_id) _ _ s.challenges (λ x. refl) d)

survives :
    (t : Clock) (v : VerifyInput) (s : Store) {x : Challenge}
    → Distinct (λ (r : Challenge). r.intent_id) s.challenges
    → find_row (selects v) s.challenges ≡ some x
    → t.stmt 3 < x.expires_at
    → x.consumed_at ≡ none
    → IsPrompt t
    → find_row (selects v) (cleanup_temporary_state t s).challenges ≡ some x
unfolding cleanup_temporary_state
survives t v s {x} d found h fresh prompt =
    find_row-cleanup_challenges (selects v) t s.challenges (
      All-map _ _ s.challenges (λ y same k m. keep y (same (ground arith)) k)
        (All-same_of_find_row (λ r. r.intent_id) (selects v) v.intent_id s.challenges
          (λ y m. ground arith) d found))
    ∙ found
  where
    keep :
        (y : Challenge) → y ≡ x → (k : ℕ) → is_stale_challenge (t.challenge_cleanup.db k) y ≡ false
    keep y e k = rw e (ground (arith, prompt k))

-- Within the rate limits, the right code for an open and unexpired challenge with tries left is
-- accepted, with the time left in whole seconds, and the challenge is then stored as verified, with
-- the token's digest and one more attempt.
pub verify_challenge_complete :
    (t : Clock) (v : VerifyInput) (s : Store) (r : Challenge)
    → IsStore s
    → IsAllowed t v s
    → find_row (matches v.intent_id v.email_digest) s.challenges ≡ some r
    → IsRight t v r
    → t.stmt 3 < r.expires_at
    → IsPrompt t
    → ((verify_challenge t v s).1
        ≡ VerifyResult.verified (max 1 (ceil_seconds (r.expires_at - t.stmt 3))))
      × (find_row (matches v.intent_id v.email_digest) (verify_challenge t v s).0.challenges
          ≡ some (verified_row (t.stmt 3) v (count_attempt r)))
verify_challenge_complete t v s r ok allowed found right h prompt =
    let runs = verify_challenge-runs t v s r allowed found right h in
    let kept =
      survives t v (updated t v (limited t v s)) (updated-Distinct t v s ok.intents)
        (updated_found t v s r found right h) h right.unconsumed prompt in
    rw runs (refl, kept)
