-- ===== src/Email/Store/Invariant.antt =====
-- The constraints of the two tables hold after every operation of the store.
use public_lighting_fault_re.Base.{
  ℕ, ◌+◌, ◌≤◌, ◌≡◌, refl, inl, inr, Bool, true, false, Option, none, some, List, [], ◌∷◌, arith,
  All, Bool-cases, Option-cases, is_some, is_none, ◌==◌, ◌||◌, ltb, leb, ◌≢◌,
}
use public_lighting_fault_re.Base.Tables.{find_row, update_rows, count_rows}
use public_lighting_fault_re.Base.Tables.Laws.{
  All-update_rows, All-delete_rows, Distinct, Distinct-update_rows, Distinct-delete_rows,
}
use public_lighting_fault_re.Email.Data.{
  max_attempts, max_sends, Challenge, RateLimit, Store, NewChallenge, VerifyInput, Clock, matches,
}
use public_lighting_fault_re.Email.Rates.{apply_rate_limits}
use public_lighting_fault_re.Email.Rates.Laws.{IsPositive, apply_rate_limits-IsPositive}
use public_lighting_fault_re.Email.Cleanup.{cleanup_temporary_state}
use public_lighting_fault_re.Email.Cleanup.Laws.{
  All-cleanup_challenges, All-cleanup_rates, Distinct-cleanup_challenges,
}
use public_lighting_fault_re.Email.Store.{
  transaction, create_challenge, new_row, insert_challenge, create_body, resend_challenge,
  can_resend, resent_row, resend_update, resend_limited, resend_row, verify_challenge, is_candidate,
  count_attempt, can_mark, verified_row, digest_matches, cooldown_left, mark_verified, check_code,
  check_candidate, delete_undelivered_challenge, consume_verification, can_consume, consumed_row,
  cleanup_expired, send_limits, verify_limits,
}

-- The CHECK constraints of a row of email_verification_challenges.
pub record IsRow (r : Challenge) : Type 0 where
  pub attempts : r.attempt_count ≤ max_attempts
  pub sends_pos : 1 ≤ r.send_count
  pub sends : r.send_count ≤ max_sends
  pub token : is_none r.verified_at ≡ is_none r.verification_token_digest
  pub consumed : is_some r.consumed_at ≡ true → is_some r.verified_at ≡ true

-- The constraints of both tables, the primary key of the challenges among them.
pub record IsStore (s : Store) : Type 0 where
  pub rows : All IsRow s.challenges
  pub intents : Distinct (λ (r : Challenge). r.intent_id) s.challenges
  pub rates : All IsPositive s.rate_limits

cleanup-IsStore : (t : Clock) (s : Store) → IsStore s → IsStore (cleanup_temporary_state t s)
unfolding cleanup_temporary_state
cleanup-IsStore t s h = record {
  rows = All-cleanup_challenges IsRow t s.challenges h.rows;
  intents = Distinct-cleanup_challenges (λ r. r.intent_id) t s.challenges h.intents;
  rates = All-cleanup_rates IsPositive t s.rate_limits h.rates;
}

pub rates-IsStore :
    (stmt : ℕ → ℕ) (limits : List RateLimit) (s : Store)
    → IsStore s
    → IsStore (record s { rate_limits = (apply_rate_limits stmt limits s.rate_limits).0 })
rates-IsStore stmt limits s h = record {
  rows = h.rows;
  intents = h.intents;
  rates = apply_rate_limits-IsPositive stmt limits s.rate_limits h.rates;
}

update-IsStore :
    (p : Challenge → Bool) (f : Challenge → Challenge) (s : Store)
    → ((r : Challenge) → (f r).intent_id ≡ r.intent_id)
    → ((r : Challenge) → IsRow r → p r ≡ true → IsRow (f r))
    → IsStore s
    → IsStore (record s { challenges = update_rows p f s.challenges })
update-IsStore p f s same step h = record {
  rows = All-update_rows IsRow p f s.challenges step h.rows;
  intents = Distinct-update_rows (λ r. r.intent_id) p f s.challenges same h.intents;
  rates = h.rates;
}

no_row :
    (k : ℕ) (xs : List Challenge)
    → is_some (find_row (λ r. r.intent_id == k) xs) ≡ false
    → All (λ y. y.intent_id ≢ k) xs
unfolding find_row
no_row k [] h = tt
no_row k (x ∷ xs) h = elim (Bool-cases (x.intent_id == k)) [
  | inl e ↦ ground (arith, e)
  | inr e ↦ ((λ i. ground arith), no_row k xs (ground (arith, e)))
]

insert-IsStore :
    (now : ℕ) (c : NewChallenge) (s s' : Store)
    → IsStore s
    → insert_challenge now c s ≡ some s'
    → IsStore s'
unfolding insert_challenge
insert-IsStore now c s s' h e =
    elim (Bool-cases (is_some (find_row (λ r. r.intent_id == c.intent_id) s.challenges))) [
      | inl taken ↦ ground arith
      | inr free ↦
          let t : record s { challenges = new_row now c ∷ s.challenges } ≡ s' = ground arith in
          rw (← t) (record {
            rows = (ground arith, h.rows);
            intents = (no_row c.intent_id s.challenges free, h.intents);
            rates = h.rates;
          })
    ]

-- The store that an operation leaves, if it does not throw, meets `Q`.
abbrev pub Leaves {ℓ} : {R : Type 0} → (Store → Type ℓ) → Option (Store × R) → Type ℓ
Leaves Q none = Unit
Leaves Q (some (s', r)) = Q s'

pub transaction-keeps {ℓ} :
    {R : Type 0} (Q : Store → Type ℓ) (operation : Store → Option (Store × R)) (s : Store)
    → Q s
    → Leaves Q (operation s)
    → Q (transaction operation s).0
unfolding transaction
transaction-keeps Q operation s h k = elim (Option-cases (operation s)) [
  | inl e ↦ rw (e, transaction) h
  | inr (x, e) ↦ rw (e, transaction) (rw e at k)
]

create_body-IsStore :
    (t : Clock) (c : NewChallenge) (s : Store) → IsStore s → Leaves IsStore (create_body t c s)
unfolding create_body
create_body-IsStore t c s h =
    let (rates, retry) = apply_rate_limits t.stmt (send_limits c) s.rate_limits in
    let s1 : Store = record s { rate_limits = rates } in
    let k = rates-IsStore t.stmt (send_limits c) s h in
    elim (Bool-cases (ltb 0 retry)) [
      | inl limited ↦ rw limited (cleanup-IsStore t s1 k)
      | inr allowed ↦ elim (Option-cases (insert_challenge (t.stmt 2) c s1)) [
        | inl taken ↦ rw (allowed, taken, create_body) tt
        | inr (s2, e) ↦
            rw (allowed, e, create_body)
              (cleanup-IsStore t s2 (insert-IsStore (t.stmt 2) c s1 s2 k e))
      ]
    ]

-- `create_challenge` keeps the constraints, whether it inserts, is limited, or throws.
pub create_challenge-IsStore :
    (t : Clock) (c : NewChallenge) (s : Store) → IsStore s → IsStore (create_challenge t c s).0
unfolding create_challenge
create_challenge-IsStore t c s h =
    transaction-keeps IsStore (create_body t c) s h (create_body-IsStore t c s h)

resend_update-IsStore :
    (t : Clock) (c : NewChallenge) (s : Store) → IsStore s → IsStore (resend_update t c s).0
unfolding resend_update
resend_update-IsStore t c s h =
    let p = can_resend (t.stmt 3) c in
    let k =
      cleanup-IsStore t _
        (update-IsStore p (resent_row (t.stmt 3) c) s (λ r. refl) (λ r k q. ground arith) h) in
    elim (Bool-cases (count_rows p s.challenges == 1)) [ inl e ↦ rw e k | inr e ↦ rw e k ]

resend_limited-IsStore :
    (t : Clock) (c : NewChallenge) (s : Store) → IsStore s → IsStore (resend_limited t c s).0
unfolding resend_limited
resend_limited-IsStore t c s h =
    let (rates, retry) = apply_rate_limits (λ n. t.stmt (n + 1)) (send_limits c) s.rate_limits in
    let s1 : Store = record s { rate_limits = rates } in
    let k = rates-IsStore (λ n. t.stmt (n + 1)) (send_limits c) s h in
    elim (Bool-cases (ltb 0 retry)) [
      | inl limited ↦ rw limited (cleanup-IsStore t s1 k)
      | inr allowed ↦ rw allowed (resend_update-IsStore t c s1 k)
    ]

resend_row-IsStore :
    (t : Clock) (c : NewChallenge) (s : Store) (now : ℕ) (r : Challenge)
    → IsStore s
    → IsStore (resend_row t c s now r).0
unfolding resend_row
resend_row-IsStore t c s now r h = elim (Bool-cases (leb r.expires_at now)) [
  | inl a ↦ rw a h
  | inr a ↦ elim (Bool-cases (is_some r.verified_at || is_some r.consumed_at)) [
    | inl b ↦ rw (a, b) h
    | inr b ↦ elim (Bool-cases (leb max_sends r.send_count)) [
      | inl d ↦ rw (a, b, d) h
      | inr d ↦ elim (Bool-cases (ltb 0 (cooldown_left now r))) [
        | inl e ↦ rw (a, b, d, e) h
        | inr e ↦ rw (a, b, d, e) (resend_limited-IsStore t c s h)
      ]
    ]
  ]
]

-- `resend_challenge` keeps the constraints on every branch.
pub resend_challenge-IsStore :
    (t : Clock) (c : NewChallenge) (s : Store) → IsStore s → IsStore (resend_challenge t c s).0
unfolding resend_challenge
resend_challenge-IsStore t c s h =
    elim (Option-cases (find_row (matches c.intent_id c.email_digest) s.challenges)) [
      | inl e ↦ rw (e, resend_challenge) h
      | inr (r, e) ↦ rw (e, resend_challenge) (resend_row-IsStore t c s (t.stmt 0) r h)
    ]

mark_verified-IsStore :
    (t : Clock) (v : VerifyInput) (s : Store) → IsStore s → IsStore (mark_verified t v s).0
unfolding mark_verified
mark_verified-IsStore t v s h =
    let p = can_mark (t.stmt 3) v in
    let k =
      cleanup-IsStore t _
        (update-IsStore p (verified_row (t.stmt 3) v) s (λ r. refl) (λ r k q. ground arith) h) in
    elim (Option-cases (find_row p s.challenges)) [
      | inl e ↦ rw (e, mark_verified) k
      | inr (r, e) ↦ rw (e, mark_verified) k
    ]

check_code-IsStore :
    (t : Clock) (v : VerifyInput) (row : Challenge) (s : Store)
    → IsStore s
    → IsStore (check_code t v row s).0
unfolding check_code
check_code-IsStore t v row s h = elim (Bool-cases (digest_matches row.otp_digest v.otp_digest)) [
  | inl e ↦ rw e (mark_verified-IsStore t v s h)
  | inr e ↦ rw e (cleanup-IsStore t s h)
]

check_candidate-IsStore :
    (t : Clock) (v : VerifyInput) (s : Store) → IsStore s → IsStore (check_candidate t v s).0
unfolding check_candidate
check_candidate-IsStore t v s h =
    let p = is_candidate (t.stmt 2) v in
    elim (Option-cases (find_row p s.challenges)) [
      | inl e ↦ rw (e, check_candidate) (cleanup-IsStore t s h)
      | inr (r, e) ↦
          rw (e, check_candidate)
            (check_code-IsStore t v (count_attempt r) _
              (update-IsStore p count_attempt s (λ r. refl) (λ r k q. ground arith) h))
    ]

-- `verify_challenge` keeps the constraints on every branch.
pub verify_challenge-IsStore :
    (t : Clock) (v : VerifyInput) (s : Store) → IsStore s → IsStore (verify_challenge t v s).0
unfolding verify_challenge
verify_challenge-IsStore t v s h =
    let (rates, retry) = apply_rate_limits t.stmt (verify_limits v) s.rate_limits in
    let s1 : Store = record s { rate_limits = rates } in
    let k = rates-IsStore t.stmt (verify_limits v) s h in
    elim (Bool-cases (ltb 0 retry)) [
      | inl limited ↦ rw limited (cleanup-IsStore t s1 k)
      | inr allowed ↦ rw allowed (check_candidate-IsStore t v s1 k)
    ]

pub delete_undelivered_challenge-IsStore :
    (intent otp : ℕ) (s : Store) → IsStore s → IsStore (delete_undelivered_challenge intent otp s)
unfolding delete_undelivered_challenge
delete_undelivered_challenge-IsStore intent otp s h = record {
  rows = All-delete_rows IsRow _ s.challenges h.rows;
  intents = Distinct-delete_rows (λ r. r.intent_id) _ s.challenges h.intents;
  rates = h.rates;
}

pub consume_verification-IsStore :
    (now intent email token : ℕ) (s : Store)
    → IsStore s
    → IsStore (consume_verification now intent email token s).0
unfolding consume_verification
consume_verification-IsStore now intent email token s h =
    update-IsStore (can_consume now intent email token) (consumed_row now) s (λ r. refl)
      (λ r k p. ground arith) h

pub cleanup_expired-IsStore : (t : Clock) (s : Store) → IsStore s → IsStore (cleanup_expired t s)
unfolding cleanup_expired
cleanup_expired-IsStore t s h = cleanup-IsStore t s h
