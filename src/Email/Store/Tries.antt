-- ===== src/Email/Store/Tries.antt =====
-- How often a code may be guessed before the challenge has to be sent again.
use public_lighting_fault_re.Base.{
  ℕ, ◌+◌, ◌≤◌, ◌≡◌, refl, sym, ap, ◌∙◌, inl, inr, true, Option, none, some, List, [], ◌∷◌, arith,
  All, Bool-cases, Option-cases, ltb, leb, All-map, All-zip, if◌then◌else◌,
}
use public_lighting_fault_re.Base.Tables.{find_row, update_rows}
use public_lighting_fault_re.Base.Tables.Laws.{
  All-find_row, All-update_rows, All-update_rows_from, All-same_of_find_row, find_row-holds,
}
use public_lighting_fault_re.Email.Data.{
  max_attempts, Challenge, Store, VerifyInput, Clock, VerifyResult,
}
use public_lighting_fault_re.Email.Rates.{apply_rate_limits}
use public_lighting_fault_re.Email.Cleanup.{cleanup_temporary_state}
use public_lighting_fault_re.Email.Cleanup.Laws.{All-cleanup_challenges}
use public_lighting_fault_re.Email.Store.{
  verify_challenge, is_candidate, count_attempt, can_mark, verified_row, digest_matches,
  mark_verified, check_code, check_candidate, diagnose, verify_limits, expired_or_verified,
}
use public_lighting_fault_re.Email.Store.Invariant.{
  IsStore, rates-IsStore, verify_challenge-IsStore,
}

-- A wrong code was compared, and another try is offered.
abbrev pub wrong_tries : VerifyResult → ℕ
wrong_tries (VerifyResult.invalid n) = 1
wrong_tries (VerifyResult.verified n) = 0
wrong_tries _ = 0

-- A sequence of verification requests; the second component counts the wrong codes.
unfoldable pub verify_all : List (Clock × VerifyInput) → Store → Store × ℕ
verify_all [] s = (s, 0)
verify_all ((t, v) ∷ rest) s =
    let (s', reply) = verify_challenge t v s in
    let (s'', n) = verify_all rest s' in (s'', wrong_tries reply + n)

module _ (intent : ℕ) where
  -- Every stored row of the intent has used up `n` tries.
  abbrev pub HasUsed : ℕ → Store → Type 0
  HasUsed n s = All (λ (r : Challenge). r.intent_id ≡ intent → n ≤ r.attempt_count) s.challenges

  cleanup-HasUsed :
      (n : ℕ) (t : Clock) (s : Store) → HasUsed n s → HasUsed n (cleanup_temporary_state t s)
  unfolding cleanup_temporary_state
  cleanup-HasUsed n t s h = All-cleanup_challenges _ t s.challenges h

  mark_verified-HasUsed :
      (n : ℕ) (t : Clock) (v : VerifyInput) (s : Store)
      → HasUsed n s
      → HasUsed n (mark_verified t v s).0 × (wrong_tries (mark_verified t v s).1 ≡ 0)
  unfolding mark_verified
  mark_verified-HasUsed n t v s h =
      let p = can_mark (t.stmt 3) v in
      let s' : Store = record s {
        challenges = update_rows p (verified_row (t.stmt 3) v) s.challenges;
      } in
      let k = cleanup-HasUsed n t s' (
        All-update_rows (λ r. r.intent_id ≡ intent → n ≤ r.attempt_count) p
          (verified_row (t.stmt 3) v) s.challenges (λ r f q. f) h) in
      elim (Option-cases (find_row p s.challenges)) [
        | inr (r, e) ↦ rw (e, mark_verified) (k, refl)
        | inl e ↦ rw (e, mark_verified) (k, no_try (t.stmt 4) _)
      ]
    where
      no_try : (now : ℕ) (o : Option Challenge) → wrong_tries (expired_or_verified now o) ≡ 0
      no_try now none = refl
      no_try now (some r) = elim (Bool-cases (leb r.expires_at now)) [ inl e ↦ rw e | inr e ↦ rw e ]

  check_code-HasUsed :
      (n : ℕ) (t : Clock) (v : VerifyInput) (r : Challenge) (s : Store)
      → HasUsed (n + 1) s
      → n ≤ 4
      → n + 1 ≤ r.attempt_count
      → HasUsed (n + wrong_tries (check_code t v r s).1) (check_code t v r s).0
        × (n + wrong_tries (check_code t v r s).1 ≤ 4)
  unfolding check_code
  check_code-HasUsed n t v r s h small used =
      let less : HasUsed (n + 0) s = All-map _ _ s.challenges (λ x f i. omega (arith, f i)) h in
      elim (Bool-cases (digest_matches r.otp_digest v.otp_digest)) [
        | inl e ↦
            let (k, none_wrong) = mark_verified-HasUsed (n + 0) t v s less in
            rw (e, check_code, none_wrong) (k, omega arith)
        | inr e ↦ elim (Bool-cases (leb max_attempts r.attempt_count)) [
          | inl spent ↦ rw (e, check_code, spent) (cleanup-HasUsed (n + 0) t s less, omega arith)
          | inr left ↦ rw (e, check_code, left) (cleanup-HasUsed (n + 1) t s h, ground arith)
        ]
      ]

  no_reply : (now : ℕ) (o : Option Challenge) → wrong_tries (diagnose now o) ≡ 0
  no_reply now none = refl
  no_reply now (some r) = ground arith

  counted-HasUsed :
      (n : ℕ) (t : Clock) (v : VerifyInput) (s : Store) {r : Challenge}
      → v.intent_id ≡ intent
      → IsStore s
      → HasUsed n s
      → find_row (is_candidate (t.stmt 2) v) s.challenges ≡ some r
      → HasUsed (n + 1) (record s {
        challenges = update_rows (is_candidate (t.stmt 2) v) count_attempt s.challenges;
      })
  counted-HasUsed n t v s {r} same ok h found =
      let p = is_candidate (t.stmt 2) v in
      let taken = find_row-holds p s.challenges found in
      let only =
        All-same_of_find_row (λ x. x.intent_id) p v.intent_id s.challenges (λ y m. ground arith)
          ok.intents found in
      All-update_rows_from (λ x. x.intent_id ≡ intent → n + 1 ≤ x.attempt_count)
        (λ x. (x.intent_id ≡ intent → n ≤ x.attempt_count) × (x.intent_id ≡ v.intent_id → x ≡ r)) p
        count_attempt s.challenges (λ x (used, one). step x used (λ i. ap p (one i) ∙ taken))
        (All-zip _ _ s.challenges h only)
    where
      step :
          (x : Challenge)
          → (x.intent_id ≡ intent → n ≤ x.attempt_count)
          → (x.intent_id ≡ v.intent_id → is_candidate (t.stmt 2) v x ≡ true)
          → (if is_candidate (t.stmt 2) v x then count_attempt x else x).intent_id ≡ intent
          → n + 1 ≤ (if is_candidate (t.stmt 2) v x then count_attempt x else x).attempt_count
      step x used one i = elim (Bool-cases (is_candidate (t.stmt 2) v x)) [
        | inl e ↦ rw e (omega (arith, used (rw e at i)))
        | inr e ↦ absurd (cc (e, one ((rw e at i) ∙ sym same)))
      ]

  check_candidate-HasUsed :
      (n : ℕ) (t : Clock) (v : VerifyInput) (s : Store)
      → v.intent_id ≡ intent
      → IsStore s
      → HasUsed n s
      → n ≤ 4
      → HasUsed (n + wrong_tries (check_candidate t v s).1) (check_candidate t v s).0
        × (n + wrong_tries (check_candidate t v s).1 ≤ 4)
  unfolding check_candidate
  check_candidate-HasUsed n t v s same ok h small =
      elim (Option-cases (find_row (is_candidate (t.stmt 2) v) s.challenges)) [
        | inl e ↦
            let less : HasUsed (n + 0) s =
              All-map _ _ s.challenges (λ x f i. omega (arith, f i)) h in
            rw (e, check_candidate, no_reply) (cleanup-HasUsed (n + 0) t s less, omega arith)
        | inr (r, e) ↦
            let taken = find_row-holds _ s.challenges e in
            let used =
              All-find_row (λ (x : Challenge). x.intent_id ≡ intent → n ≤ x.attempt_count) _
                s.challenges h e in
            rw (e, check_candidate)
              (check_code-HasUsed n t v (count_attempt r) _ (counted-HasUsed n t v s same ok h e)
                small (omega (arith, used (ground arith))))
      ]

  verify-HasUsed :
      (n : ℕ) (t : Clock) (v : VerifyInput) (s : Store)
      → v.intent_id ≡ intent
      → IsStore s
      → HasUsed n s
      → n ≤ 4
      → HasUsed (n + wrong_tries (verify_challenge t v s).1) (verify_challenge t v s).0
        × (n + wrong_tries (verify_challenge t v s).1 ≤ 4)
  unfolding verify_challenge
  verify-HasUsed n t v s same ok h small =
      elim (Bool-cases (ltb 0 (apply_rate_limits t.stmt (verify_limits v) s.rate_limits).1)) [
        | inl e ↦
            let less : HasUsed (n + 0) s =
              All-map _ _ s.challenges (λ x f i. omega (arith, f i)) h in
            rw e (cleanup-HasUsed (n + 0) t _ less, omega arith)
        | inr e ↦ rw e (
            check_candidate-HasUsed n t v _ same (rates-IsStore t.stmt (verify_limits v) s ok) h
              small)
      ]

  verify_all-HasUsed :
      (n : ℕ) (requests : List (Clock × VerifyInput)) (s : Store)
      → All (λ q. q.1.intent_id ≡ intent) requests
      → IsStore s
      → HasUsed n s
      → n ≤ 4
      → n + (verify_all requests s).1 ≤ 4
  unfolding verify_all
  verify_all-HasUsed n [] s same ok h small = omega arith
  verify_all-HasUsed n ((t, v) ∷ rest) s (here, same) ok h small =
      let (used, bound) = verify-HasUsed n t v s here ok h small in
      omega (
        arith,
        verify_all-HasUsed (n + wrong_tries (verify_challenge t v s).1) rest
            (verify_challenge t v s).0 same (verify_challenge-IsStore t v s ok) used bound,
      )

-- Between two sends a challenge invites at most four further guesses: however many requests name
-- the intent, and whatever codes they carry, at most four are answered `invalid`.
pub verify_all_wrong-le :
    (intent : ℕ) (requests : List (Clock × VerifyInput)) (s : Store)
    → All (λ q. q.1.intent_id ≡ intent) requests
    → IsStore s
    → (verify_all requests s).1 ≤ 4
verify_all_wrong-le intent requests s same ok = omega (
  arith,
  verify_all-HasUsed intent 0 requests s same ok
      (All-map _ _ s.challenges (λ x h i. omega arith) ok.rows) (omega arith),
)
