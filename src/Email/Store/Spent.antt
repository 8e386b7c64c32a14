-- ===== src/Email/Store/Spent.antt =====
-- A verification that was consumed stays consumed, whatever the store is used for next.
use public_lighting_fault_re.Base.{
  ℕ, ◌+◌, ◌≡◌, ◌≢◌, refl, inl, inr, Bool, true, false, some, List, [], ◌∷◌, arith, All, Bool-cases,
  Option-cases, is_some, ◌==◌, ◌||◌, ltb, leb,
}
use public_lighting_fault_re.Base.Tables.{find_row, update_rows, count_rows}
use public_lighting_fault_re.Base.Tables.Laws.{
  All-update_rows, All-delete_rows, All-find_row, find_row-holds, Distinct,
}
use public_lighting_fault_re.Base.Tables.Find.{count_rows-none}
use public_lighting_fault_re.Email.Data.{
  max_sends, Challenge, Store, NewChallenge, VerifyInput, Clock, matches,
}
use public_lighting_fault_re.Email.Rates.{apply_rate_limits}
use public_lighting_fault_re.Email.Cleanup.{cleanup_temporary_state}
use public_lighting_fault_re.Email.Cleanup.Laws.{All-cleanup_challenges}
use public_lighting_fault_re.Email.Store.{
  new_row, create_challenge, insert_challenge, create_body, resend_challenge, can_resend,
  resent_row, resend_update, resend_limited, resend_row, verify_challenge, is_candidate,
  count_attempt, can_mark, verified_row, digest_matches, cooldown_left, mark_verified, check_code,
  check_candidate, delete_undelivered_challenge, consume_verification, can_consume, consumed_row,
  cleanup_expired, send_limits, verify_limits,
}
use public_lighting_fault_re.Email.Store.Invariant.{Leaves, transaction-keeps}

-- An operation on the store.
pub data Operation : Type 0 where
  create resend : NewChallenge → Operation
  verify : VerifyInput → Operation
  withdraw : (intent otp : ℕ) → Operation
  take_token : (now intent email token : ℕ) → Operation
  clean : Operation

unfoldable pub operate : Clock → Operation → Store → Store
unfolding create_challenge resend_challenge verify_challenge delete_undelivered_challenge
    consume_verification cleanup_expired
operate t (create c) s = (create_challenge t c s).0
operate t (resend c) s = (resend_challenge t c s).0
operate t (verify v) s = (verify_challenge t v s).0
operate t (withdraw intent otp) s = delete_undelivered_challenge intent otp s
operate t (take_token now intent email token) s = (consume_verification now intent email token s).0
operate t clean s = cleanup_expired t s

unfoldable pub operate_all : List (Clock × Operation) → Store → Store
unfolding operate
operate_all [] s = s
operate_all ((t, o) ∷ os) s = operate_all os (operate t o s)

-- A new challenge gets a new UUID: it is not this one.
abbrev pub IsOther : ℕ → Clock × Operation → Type 0
IsOther intent (t, create c) = c.intent_id ≢ intent
IsOther intent _ = Unit

module _ (intent email : ℕ) where
  -- A challenge of the intent and the e-mail is consumed.
  abbrev pub IsSpent : Challenge → Type 0
  IsSpent r = matches intent email r ≡ true → is_some r.consumed_at ≡ true

  abbrev pub IsSpentStore : Store → Type 0
  IsSpentStore s = All IsSpent s.challenges

  cleanup-IsSpent :
      (t : Clock) (s : Store) → IsSpentStore s → IsSpentStore (cleanup_temporary_state t s)
  unfolding cleanup_temporary_state
  cleanup-IsSpent t s h = All-cleanup_challenges IsSpent t s.challenges h

  update-IsSpent :
      (p : Challenge → Bool) (f : Challenge → Challenge) (s : Store)
      → ((r : Challenge) → IsSpent r → IsSpent (f r))
      → IsSpentStore s
      → All IsSpent (update_rows p f s.challenges)
  update-IsSpent p f s step h = All-update_rows IsSpent p f s.challenges (λ r k q. step r k) h

  insert-IsSpent :
      (now : ℕ) (c : NewChallenge) (s s' : Store)
      → c.intent_id ≢ intent
      → IsSpentStore s
      → insert_challenge now c s ≡ some s'
      → IsSpentStore s'
  unfolding insert_challenge
  insert-IsSpent now c s s' other h e =
      elim (Bool-cases (is_some (find_row (λ r. r.intent_id == c.intent_id) s.challenges))) [
        | inl taken ↦ absurd (cc (rw taken at e))
        | inr free ↦
            let t : record s { challenges = new_row now c ∷ s.challenges } ≡ s' = ground arith in
            rw (← t) ((λ m. ground (arith, m)), h)
      ]

  create_body-IsSpent :
      (t : Clock) (c : NewChallenge) (s : Store)
      → c.intent_id ≢ intent
      → IsSpentStore s
      → Leaves IsSpentStore (create_body t c s)
  unfolding create_body
  create_body-IsSpent t c s other h =
      let (rates, retry) = apply_rate_limits t.stmt (send_limits c) s.rate_limits in
      let s1 : Store = record s { rate_limits = rates } in
      elim (Bool-cases (ltb 0 retry)) [
        | inl limited ↦ rw limited (cleanup-IsSpent t s1 h)
        | inr allowed ↦ elim (Option-cases (insert_challenge (t.stmt 2) c s1)) [
          | inl taken ↦ rw (allowed, taken, create_body) tt
          | inr (s2, e) ↦
              rw (allowed, e, create_body)
                (cleanup-IsSpent t s2 (insert-IsSpent (t.stmt 2) c s1 s2 other h e))
        ]
      ]

  create-IsSpent :
      (t : Clock) (c : NewChallenge) (s : Store)
      → c.intent_id ≢ intent
      → IsSpentStore s
      → IsSpentStore (create_challenge t c s).0
  unfolding create_challenge
  create-IsSpent t c s other h =
      transaction-keeps IsSpentStore (create_body t c) s h (create_body-IsSpent t c s other h)

  resend_update-IsSpent :
      (t : Clock) (c : NewChallenge) (s : Store)
      → IsSpentStore s
      → IsSpentStore (resend_update t c s).0
  unfolding resend_update
  resend_update-IsSpent t c s h =
      let p = can_resend (t.stmt 3) c in
      let k = cleanup-IsSpent t _ (update-IsSpent p (resent_row (t.stmt 3) c) s (λ r k. k) h) in
      elim (Bool-cases (count_rows p s.challenges == 1)) [ inl e ↦ rw e k | inr e ↦ rw e k ]

  resend_limited-IsSpent :
      (t : Clock) (c : NewChallenge) (s : Store)
      → IsSpentStore s
      → IsSpentStore (resend_limited t c s).0
  unfolding resend_limited
  resend_limited-IsSpent t c s h =
      let (rates, retry) = apply_rate_limits (λ n. t.stmt (n + 1)) (send_limits c) s.rate_limits in
      let s1 : Store = record s { rate_limits = rates } in
      elim (Bool-cases (ltb 0 retry)) [
        | inl limited ↦ rw limited (cleanup-IsSpent t s1 h)
        | inr allowed ↦ rw allowed (resend_update-IsSpent t c s1 h)
      ]

  resend_row-IsSpent :
      (t : Clock) (c : NewChallenge) (s : Store) (now : ℕ) (r : Challenge)
      → IsSpentStore s
      → IsSpentStore (resend_row t c s now r).0
  unfolding resend_row
  resend_row-IsSpent t c s now r h = elim (Bool-cases (leb r.expires_at now)) [
    | inl a ↦ rw a h
    | inr a ↦ elim (Bool-cases (is_some r.verified_at || is_some r.consumed_at)) [
      | inl b ↦ rw (a, b) h
      | inr b ↦ elim (Bool-cases (leb max_sends r.send_count)) [
        | inl d ↦ rw (a, b, d) h
        | inr d ↦ elim (Bool-cases (ltb 0 (cooldown_left now r))) [
          | inl e ↦ rw (a, b, d, e) h
          | inr e ↦ rw (a, b, d, e) (resend_limited-IsSpent t c s h)
        ]
      ]
    ]
  ]

  resend-IsSpent :
      (t : Clock) (c : NewChallenge) (s : Store)
      → IsSpentStore s
      → IsSpentStore (resend_challenge t c s).0
  unfolding resend_challenge
  resend-IsSpent t c s h =
      elim (Option-cases (find_row (matches c.intent_id c.email_digest) s.challenges)) [
        | inl e ↦ rw (e, resend_challenge) h
        | inr (r, e) ↦ rw (e, resend_challenge) (resend_row-IsSpent t c s (t.stmt 0) r h)
      ]

  mark_verified-IsSpent :
      (t : Clock) (v : VerifyInput) (s : Store)
      → IsSpentStore s
      → IsSpentStore (mark_verified t v s).0
  unfolding mark_verified
  mark_verified-IsSpent t v s h =
      let p = can_mark (t.stmt 3) v in
      let k = cleanup-IsSpent t _ (update-IsSpent p (verified_row (t.stmt 3) v) s (λ r k. k) h) in
      elim (Option-cases (find_row p s.challenges)) [
        | inl e ↦ rw (e, mark_verified) k
        | inr (r, e) ↦ rw (e, mark_verified) k
      ]

  check_code-IsSpent :
      (t : Clock) (v : VerifyInput) (row : Challenge) (s : Store)
      → IsSpentStore s
      → IsSpentStore (check_code t v row s).0
  unfolding check_code
  check_code-IsSpent t v row s h = elim (Bool-cases (digest_matches row.otp_digest v.otp_digest)) [
    | inl e ↦ rw e (mark_verified-IsSpent t v s h)
    | inr e ↦ rw e (cleanup-IsSpent t s h)
  ]

  verify-IsSpent :
      (t : Clock) (v : VerifyInput) (s : Store)
      → IsSpentStore s
      → IsSpentStore (verify_challenge t v s).0
  unfolding verify_challenge check_candidate
  verify-IsSpent t v s h =
      let (rates, retry) = apply_rate_limits t.stmt (verify_limits v) s.rate_limits in
      let s1 : Store = record s { rate_limits = rates } in
      let p = is_candidate (t.stmt 2) v in
      elim (Bool-cases (ltb 0 retry)) [
        | inl limited ↦ rw limited (cleanup-IsSpent t s1 h)
        | inr allowed ↦ elim (Option-cases (find_row p s.challenges)) [
          | inl e ↦ rw (allowed, e, check_candidate) (cleanup-IsSpent t s1 h)
          | inr (r, e) ↦
              rw (allowed, e, check_candidate)
                (check_code-IsSpent t v (count_attempt r) _
                  (update-IsSpent p count_attempt s (λ r k. k) h))
        ]
      ]

  pub consume-IsSpent :
      (now i e token : ℕ) (s : Store)
      → IsSpentStore s
      → IsSpentStore (consume_verification now i e token s).0
  unfolding consume_verification
  consume-IsSpent now i e token s h =
      update-IsSpent (can_consume now i e token) (consumed_row now) s (λ r k m. refl) h

  pub operate-IsSpent :
      (t : Clock) (o : Operation) (s : Store)
      → IsOther intent (t, o)
      → IsSpentStore s
      → IsSpentStore (operate t o s)
  unfolding operate delete_undelivered_challenge consume_verification cleanup_expired
  operate-IsSpent t (create c) s other h = create-IsSpent t c s other h
  operate-IsSpent t (resend c) s other h = resend-IsSpent t c s h
  operate-IsSpent t (verify v) s other h = verify-IsSpent t v s h
  operate-IsSpent t (withdraw i otp) s other h = All-delete_rows IsSpent _ s.challenges h
  operate-IsSpent t (take_token now i e token) s other h = consume-IsSpent now i e token s h
  operate-IsSpent t clean s other h = cleanup-IsSpent t s h

  pub operate_all-IsSpent :
      (os : List (Clock × Operation)) (s : Store)
      → All (IsOther intent) os
      → IsSpentStore s
      → IsSpentStore (operate_all os s)
  unfolding operate_all
  operate_all-IsSpent [] s other h = h
  operate_all-IsSpent ((t, o) ∷ os) s other h =
      operate_all-IsSpent os (operate t o s) other.1 (operate-IsSpent t o s other.0 h)

  -- A store in which it is spent refuses it.
  pub spent-refused :
      (now token : ℕ) (s : Store)
      → IsSpentStore s
      → (consume_verification now intent email token s).1 ≡ false
  unfolding consume_verification
  spent-refused now token s h =
      let p = can_consume now intent email token in
      elim (Option-cases (find_row p s.challenges)) [
        | inl e ↦ rw (count_rows-none p s.challenges e) refl
        | inr (r, e) ↦
            let taken = find_row-holds p s.challenges e in
            let spent = All-find_row IsSpent p s.challenges h e (ground (arith, taken)) in
            absurd (ground (arith, taken, spent))
      ]

  -- The challenges of an intent are at most one.
  pub only-IsSpent :
      (xs : List Challenge) (r : Challenge)
      → Distinct (λ (x : Challenge). x.intent_id) xs
      → find_row (matches intent email) xs ≡ some r
      → is_some r.consumed_at ≡ true
      → All IsSpent xs
  unfolding find_row
  only-IsSpent [] r d e k = tt
  only-IsSpent (x ∷ xs) r d e k = elim (Bool-cases (matches intent email x)) [
    | inl t ↦
        let same : x ≡ r = ground (arith, rw t at e) in ((λ m. rw same k), no_other xs x t d.0)
    | inr t ↦ ((λ m. ground (arith, t, m)), only-IsSpent xs r d.1 (rw t at e) k)
  ]
    where
      no_other :
          (ys : List Challenge) (x : Challenge)
          → matches intent email x ≡ true
          → All (λ y. y.intent_id ≢ x.intent_id) ys
          → All IsSpent ys
      no_other [] x t h = tt
      no_other (y ∷ ys) x t h = (λ m. absurd (h.0 (ground (arith, t, m))), no_other ys x t h.1)
