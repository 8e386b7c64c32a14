-- ===== src/Email/Store/Consume.antt =====
-- A verification is consumed with its own token, once.
use public_lighting_fault_re.Base.{
  ℕ, ◌⊎◌, ◌↔◌, ◌<◌, ◌≡◌, refl, inl, inr, Bool, true, false, none, some, List, arith, All,
  Option-cases, is_some,
}
use mathlib.Core.Option
use public_lighting_fault_re.Base.Tables.{find_row, count_rows}
use public_lighting_fault_re.Base.Tables.Laws.{find_row-holds}
use public_lighting_fault_re.Base.Tables.Find.{
  find_row-update_rows, find_row-refine, find_row-widen, count_rows-one, count_rows-none,
}
use public_lighting_fault_re.Email.Data.{Challenge, Store, VerifyInput, Clock, matches}
use public_lighting_fault_re.Email.Store.{
  verify_challenge, consume_verification, can_consume, consumed_row, count_attempt, verified_row,
}
use public_lighting_fault_re.Email.Store.Invariant.{
  IsStore, consume_verification-IsStore, verify_challenge-IsStore,
}
use public_lighting_fault_re.Email.Store.Spent.{
  Operation, IsOther, IsSpentStore, operate_all, operate_all-IsSpent, spent-refused, only-IsSpent,
}
use public_lighting_fault_re.Email.Store.Verify.{IsAllowed, IsRight}
use public_lighting_fault_re.Email.Store.Accept.{IsPrompt, verify_challenge_complete}

-- A stored challenge that a consumer with this token may take at `now`.
pub record IsConsumable (now token : ℕ) (r : Challenge) : Type 0 where
  pub token_digest : r.verification_token_digest ≡ some token
  pub is_verified : is_some r.verified_at ≡ true
  pub unconsumed : r.consumed_at ≡ none
  pub unexpired : now < r.expires_at

can_consume-IsConsumable :
    (now intent email token : ℕ) (r : Challenge)
    → can_consume now intent email token r ≡ true
    → IsConsumable now token r
can_consume-IsConsumable now intent email token r p = record {
  token_digest = ground arith;
  is_verified = ground arith;
  unconsumed = ground arith;
  unexpired = ground arith;
}

can_consume_of :
    (now intent email token : ℕ) (r : Challenge)
    → matches intent email r ≡ true
    → IsConsumable now token r
    → can_consume now intent email token r ≡ true
can_consume_of now intent email token r m c = ground arith

module _ (now intent email token : ℕ) (s : Store) (ok : IsStore s) where
  condition : Challenge → Bool
  condition = can_consume now intent email token

  count_cases :
      ((find_row condition s.challenges ≡ none) × (count_rows condition s.challenges ≡ 0))
      ⊎ ((r : Challenge) × (find_row condition s.challenges ≡ some r)
          × (count_rows condition s.challenges ≡ 1))
  unfolding condition
  count_cases = elim (Option-cases (find_row condition s.challenges)) [
    | inl e ↦ inl (e, count_rows-none condition s.challenges e)
    | inr (r, e) ↦ inr (
      r,
      e,
      count_rows-one (λ x. x.intent_id) condition intent (λ y p. ground arith) s.challenges
          ok.intents e,
    )
  ]

-- Exactly the verified, unconsumed and unexpired challenge of that intent and e-mail whose token
-- has the given digest can be consumed.
pub consume_verification_iff :
    (now intent email token : ℕ) (s : Store)
    → IsStore s
    → ((consume_verification now intent email token s).1 ≡ true) ↔ (
        (r : Challenge) × (find_row (matches intent email) s.challenges ≡ some r)
        × IsConsumable now token r)
unfolding consume_verification condition
consume_verification_iff now intent email token s ok = (
  (λ h. elim (count_cases now intent email token s ok) [
    | inl (none_found, zero_count) ↦ absurd (cc (rw zero_count at h))
    | inr (r, found, _) ↦
        let p = find_row-holds _ s.challenges found in
        (
          r,
          find_row-widen (λ x. x.intent_id) (matches intent email) intent (λ y m. ground arith)
              (can_consume now intent email token) s.challenges (λ y m. ground arith) ok.intents
              found,
          can_consume-IsConsumable now intent email token r p,
        )
  ]),
  (λ (r, found, c). elim (count_cases now intent email token s ok) [
    | inl (none_found, _) ↦
        let found' =
          find_row-refine (can_consume now intent email token) (matches intent email) s.challenges
            (λ y m. ground arith) found
            (can_consume_of now intent email token r (find_row-holds _ s.challenges found) c) in
        absurd (cc (found', none_found))
    | inr (_, _, one) ↦ rw one
  ]),
)

consumed_found :
    (now intent email token : ℕ) (s : Store) {r : Challenge}
    → find_row (matches intent email) s.challenges ≡ some r
    → IsConsumable now token r
    → find_row (matches intent email) (consume_verification now intent email token s).0.challenges
      ≡ some (consumed_row now r)
unfolding consume_verification
consumed_found now intent email token s {r} found c =
    let p = can_consume now intent email token in
    let here =
      find_row-update_rows (matches intent email) p (consumed_row now) s.challenges (λ x. refl) in
    let met : p r ≡ true =
      can_consume_of now intent email token r (find_row-holds _ s.challenges found) c in
    rw (found, Option.map, met) at here

pub consumed-IsSpent :
    (now intent email token : ℕ) (s : Store)
    → IsStore s
    → (consume_verification now intent email token s).1 ≡ true
    → IsSpentStore intent email (consume_verification now intent email token s).0
consumed-IsSpent now intent email token s ok h =
    let (r, found, c) = (consume_verification_iff now intent email token s ok).0 h in
    let s' = (consume_verification now intent email token s).0 in
    let ok' = consume_verification-IsStore now intent email token s ok in
    only-IsSpent intent email s'.challenges (consumed_row now r) ok'.intents
      (consumed_found now intent email token s found c) refl

-- A verification that was consumed is refused ever after: whatever operations the store does in
-- between, with any clocks, for any intents and e-mails, consuming the same intent and e-mail again
-- fails, whatever token is given and whenever. The challenges that are created in between have
-- other intents, since each gets a new UUID.
pub consume_verification_once :
    (now later intent email token other : ℕ) (s : Store) (os : List (Clock × Operation))
    → IsStore s
    → (consume_verification now intent email token s).1 ≡ true
    → All (IsOther intent) os
    → (consume_verification later intent email other
        (operate_all os (consume_verification now intent email token s).0)).1
      ≡ false
consume_verification_once now later intent email token other s os ok h others =
    let s' = (consume_verification now intent email token s).0 in
    spent-refused intent email later other (operate_all os s') (
      operate_all-IsSpent intent email os s' others
        (consumed-IsSpent now intent email token s ok h))

-- A code that is accepted yields a token that can be consumed while the challenge lasts: after
-- `verify_challenge` has accepted the right code, consuming with the same token's digest, at any
-- time before the challenge expires, succeeds.
pub consume-verify_challenge :
    (t : Clock) (v : VerifyInput) (s : Store) (r : Challenge) (now : ℕ)
    → IsStore s
    → IsAllowed t v s
    → find_row (matches v.intent_id v.email_digest) s.challenges ≡ some r
    → IsRight t v r
    → t.stmt 3 < r.expires_at
    → IsPrompt t
    → now < r.expires_at
    → (consume_verification now v.intent_id v.email_digest v.token_digest
        (verify_challenge t v s).0).1
      ≡ true
consume-verify_challenge t v s r now ok allowed found right h prompt later =
    let (_, stored) = verify_challenge_complete t v s r ok allowed found right h prompt in
    (consume_verification_iff now v.intent_id v.email_digest v.token_digest _
        (verify_challenge-IsStore t v s ok)).1
      (
        verified_row (t.stmt 3) v (count_attempt r),
        stored,
        record {
          token_digest = refl;
          is_verified = refl;
          unconsumed = right.unconsumed;
          unexpired = later;
        },
      )
