-- ===== src/Email/Store/Resend.antt =====
-- When a code is sent again.
use public_lighting_fault_re.Base.{
  ℕ, ◌+◌, ◌*◌, ◌<◌, ◌≤◌, ◌≡◌, inl, inr, true, ◌||◌, Option, none, some, arith, Bool-cases,
  Option-cases, ltb, leb, ◌==◌, is_some, ◌≢◌,
}
use public_lighting_fault_re.Base.Tables.{find_row, update_rows, count_rows}
use public_lighting_fault_re.Base.Tables.Laws.{find_row-holds}
use public_lighting_fault_re.Base.Tables.Find.{find_row-widen, count_rows-none}
use public_lighting_fault_re.Email.Data.{
  second, resend_cooldown_seconds, max_sends, Challenge, Store, NewChallenge, Clock, ResendResult,
  matches,
}
use public_lighting_fault_re.Email.Rates.{apply_rate_limits}
use public_lighting_fault_re.Email.Cleanup.{cleanup_temporary_state}
use public_lighting_fault_re.Email.Store.{
  resend_challenge, resend_row, resend_limited, resend_update, can_resend, resent_row,
  cooldown_left, expired_or, send_limits,
}
use public_lighting_fault_re.Email.Store.Invariant.{IsStore}

-- A stored challenge that may be sent again at `now`.
pub record IsResendable (now : ℕ) (c : NewChallenge) (r : Challenge) : Type 0 where
  pub unverified : r.verified_at ≡ none
  pub unconsumed : r.consumed_at ≡ none
  pub unexpired : now < r.expires_at
  pub sends_left : r.send_count < max_sends
  pub cooled : r.last_sent_at + resend_cooldown_seconds * second ≤ now

expired_or-ne-sent : (now : ℕ) (o : Option Challenge) → expired_or now o ≢ ResendResult.sent
expired_or-ne-sent now none = cc
expired_or-ne-sent now (some r) = ground arith

can_resend-IsResendable :
    (now : ℕ) (c : NewChallenge) (r : Challenge) → can_resend now c r ≡ true → IsResendable now c r
can_resend-IsResendable now c r h = record {
  unverified = ground arith;
  unconsumed = ground arith;
  unexpired = ground arith;
  sends_left = ground arith;
  cooled = ground arith;
}

resend_update-sent :
    (t : Clock) (c : NewChallenge) (s : Store)
    → (resend_update t c s).1 ≡ ResendResult.sent
    → (r : Challenge) × (find_row (can_resend (t.stmt 3) c) s.challenges ≡ some r)
unfolding resend_update
resend_update-sent t c s h =
    let p = can_resend (t.stmt 3) c in
    elim (Bool-cases (count_rows p s.challenges == 1)) [
      | inr e ↦ absurd (
          expired_or-ne-sent (t.stmt 4)
            (find_row (matches c.intent_id c.email_digest)
              (cleanup_temporary_state t (record s {
                challenges = update_rows p (resent_row (t.stmt 3) c) s.challenges;
              })).challenges)
            (rw e at h))
      | inl e ↦ elim (Option-cases (find_row p s.challenges)) [
        | inr found ↦ found
        | inl gone ↦ absurd (cc (rw (count_rows-none p s.challenges gone) at e))
      ]
    ]

resend_limited-sent :
    (t : Clock) (c : NewChallenge) (s : Store)
    → (resend_limited t c s).1 ≡ ResendResult.sent
    → ((apply_rate_limits (λ n. t.stmt (n + 1)) (send_limits c) s.rate_limits).1 ≡ 0)
      × ((r : Challenge) × (find_row (can_resend (t.stmt 3) c) s.challenges ≡ some r))
unfolding resend_limited
resend_limited-sent t c s h =
    let retry : ℕ = (apply_rate_limits (λ n. t.stmt (n + 1)) (send_limits c) s.rate_limits).1 in
    elim (Bool-cases (ltb 0 retry)) [
      | inl e ↦ absurd (cc (rw e at h))
      | inr e ↦ (ground arith, resend_update-sent t c _ (rw e at h))
    ]

resend_row-sent :
    (t : Clock) (c : NewChallenge) (s : Store) (now : ℕ) (r : Challenge)
    → (resend_row t c s now r).1 ≡ ResendResult.sent
    → (resend_limited t c s).1 ≡ ResendResult.sent
unfolding resend_row
resend_row-sent t c s now r h = elim (Bool-cases (leb r.expires_at now)) [
  | inl a ↦ absurd (cc (rw a at h))
  | inr a ↦ elim (Bool-cases (is_some r.verified_at || is_some r.consumed_at)) [
    | inl b ↦ absurd (cc (rw (a, b) at h))
    | inr b ↦ elim (Bool-cases (leb max_sends r.send_count)) [
      | inl d ↦ absurd (cc (rw (a, b, d) at h))
      | inr d ↦ elim (Bool-cases (ltb 0 (cooldown_left now r))) [
        | inl e ↦ absurd (cc (rw (a, b, d, e) at h))
        | inr e ↦ rw (a, b, d, e) at h
      ]
    ]
  ]
]

-- A code is sent again only within the rate limits, for the stored challenge of that intent and
-- e-mail, and only while it is open and unexpired, was sent fewer than three times, and at least
-- sixty seconds after the last time.
pub resend_challenge_sound :
    (t : Clock) (c : NewChallenge) (s : Store)
    → IsStore s
    → (resend_challenge t c s).1 ≡ ResendResult.sent
    → ((apply_rate_limits (λ n. t.stmt (n + 1)) (send_limits c) s.rate_limits).1 ≡ 0)
      × ((r : Challenge) × (find_row (matches c.intent_id c.email_digest) s.challenges ≡ some r)
          × IsResendable (t.stmt 3) c r)
unfolding resend_challenge
resend_challenge_sound t c s ok h =
    elim (Option-cases (find_row (matches c.intent_id c.email_digest) s.challenges)) [
      | inl e ↦ absurd (cc (rw (e, resend_challenge) at h))
      | inr (r, e) ↦
          let (allowed, (x, found)) =
            resend_limited-sent t c s
              (resend_row-sent t c s (t.stmt 0) r (rw (e, resend_challenge) at h)) in
          (
            allowed,
            (
              x,
              find_row-widen (λ y. y.intent_id) (matches c.intent_id c.email_digest) c.intent_id
                  (λ y m. ground arith) (can_resend (t.stmt 3) c) s.challenges (λ y m. ground arith)
                  ok.intents found,
              can_resend-IsResendable (t.stmt 3) c x (find_row-holds _ s.challenges found),
            ),
          )
    ]
