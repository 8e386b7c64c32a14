-- ===== src/History/Record/Verified.antt =====
-- Reports that are authorised by a verified e-mail address, as the route of submissions does it.
use mathlib.Core.Path.{subst}
use public_lighting_fault_re.Base.{
  ℕ, ◌≤◌, ◌≡◌, ◌≢◌, refl, sym, ap, ◌∙◌, inl, inr, Bool, true, false, Option, some, List, [], ◌∷◌,
  All, ◌||◌, not, Bool-cases,
}
use public_lighting_fault_re.Email.Data.{Store, Clock}
use public_lighting_fault_re.Email.Store.Invariant.{IsStore}
use public_lighting_fault_re.Email.Store.Spent.{
  Operation, operate, IsOther, IsSpentStore, operate-IsSpent, consume-IsSpent, spent-refused,
}
use public_lighting_fault_re.Email.Store.Consume.{consumed-IsSpent}
use public_lighting_fault_re.Email.Service.{
  Crypto, uuid, is_valid_email, is_uuid_v4, is_token, digest_of_email,
  consume_submission_verification,
}
use public_lighting_fault_re.Import.{Text, Platform}
use public_lighting_fault_re.History.{Rules, Submission, Tables, Times, Answer, recorded}
use public_lighting_fault_re.History.Record.{record_submission}
use public_lighting_fault_re.History.Record.Ledger.{Ledger, view, IsTables}
use public_lighting_fault_re.History.Record.Refine.{record_submission-enter}
use public_lighting_fault_re.History.Record.Retry.{enter_recorded}
use public_lighting_fault_re.History.Record.Again.{enter_cases}

module _ (p : Platform) (c : Rules) (crypto : Crypto) where
  -- `authorize` of the route, which requires an intent and a token.
  unfoldable pub submit :
      Times
      → (now : ℕ) (intent email token : Text) → Submission
      → Tables Store
      → Tables Store × Answer
  unfolding record_submission consume_submission_verification
  submit w now intent email token i s =
      record_submission p c w
        (some (λ st. consume_submission_verification crypto now intent email token st)) i s

  -- What a recorded report did to the verifications.
  submit_recorded :
      (w : Times) (now : ℕ) (intent email token : Text) (i : Submission) (s : Tables Store)
      {n t : ℕ}
      → IsTables s
      → w.lookup ≤ w.deletion
      → (submit w now intent email token i s).1 ≡ recorded n t
      → ((submit w now intent email token i s).0.auth
          ≡ (consume_submission_verification crypto now intent email token s.auth).0)
        × ((consume_submission_verification crypto now intent email token s.auth).1 ≡ true)
        × IsTables (submit w now intent email token i s).0
  unfolding submit view
  submit_recorded w now intent email token i s h l e =
      let authorize =
        some (λ (st : Store). consume_submission_verification crypto now intent email token st) in
      let (viewed, answer, kept) = record_submission-enter p c w authorize i s l h in
      let (y, holder, posted_at, number, time, met) =
        enter_recorded p c w authorize i (view s) (sym answer ∙ e) in
      (ap Ledger.holder (viewed ∙ posted_at) ∙ sym (ap (λ r. r.0) met), ap (λ r. r.1) met, kept)

  -- What happens in between: a submission, or an operation of the store.
  pub data Step : Type 0 where
    submit_report : (w : Times) (now : ℕ) (intent email token : Text) (i : Submission) → Step
    use_store : Clock → Operation → Step

  unfoldable pub take_step : Step → Tables Store → Tables Store
  unfolding submit operate
  take_step (submit_report w now intent email token i) s = (submit w now intent email token i s).0
  take_step (use_store t o) s = record s { auth = operate t o s.auth }

  unfoldable pub take_steps : List Step → Tables Store → Tables Store
  unfolding take_step
  take_steps [] s = s
  take_steps (x ∷ xs) s = take_steps xs (take_step x s)

  -- The clock does not run backwards within a submission, and no challenge is created again for
  -- the intent.
  abbrev pub IsUsual : ℕ → Step → Type 0
  IsUsual intent (submit_report w now j email token i) = w.lookup ≤ w.deletion
  IsUsual intent (use_store t o) = IsOther intent (t, o)

  -- The tables are sound, and the challenge of the intent and the e-mail is consumed.
  abbrev IsPaid : (intent email : ℕ) → Tables Store → Type 0
  IsPaid intent email s = IsTables s × IsSpentStore intent email s.auth

  consume_submission-IsSpent :
      (k d now : ℕ) (intent email token : Text) (s : Store)
      → IsSpentStore k d s
      → IsSpentStore k d (consume_submission_verification crypto now intent email token s).0
  unfolding consume_submission_verification operate
  consume_submission-IsSpent k d now intent email token s h =
      elim (Bool-cases
        (not (is_valid_email crypto email) || not (is_uuid_v4 intent) || not (is_token token))) [
          | inl e ↦ rw e h
          | inr e ↦
              let y = digest_of_email crypto email in
              rw e
                (consume-IsSpent k d now (uuid intent) y (crypto.token_digest intent y token) s h)
        ]

  submit-IsPaid :
      (k d : ℕ) (w : Times) (now : ℕ) (intent email token : Text) (i : Submission)
      (s : Tables Store)
      → w.lookup ≤ w.deletion
      → IsPaid k d s
      → IsPaid k d (submit w now intent email token i s).0
  unfolding submit view
  submit-IsPaid k d w now intent email token i s l (h, spent) =
      let authorize : Option (Store → Store × Bool) =
        some (λ (st : Store). consume_submission_verification crypto now intent email token st) in
      let (viewed, answer, kept) = record_submission-enter p c w authorize i s l h in
      (
        kept,
        elim (enter_cases p c w authorize i (view s)) [
          | inl e ↦ subst (IsSpentStore k d) (sym (ap Ledger.holder (viewed ∙ e))) spent
          | inr (y, e, g) ↦
              subst (IsSpentStore k d) (sym (ap Ledger.holder (viewed ∙ e)))
                (consume_submission-IsSpent k d now intent email token s.auth spent)
        ],
      )

  take_steps-IsPaid :
      (k d : ℕ) (xs : List Step) (s : Tables Store)
      → All (IsUsual k) xs
      → IsPaid k d s
      → IsPaid k d (take_steps xs s)
  unfolding take_steps take_step
  take_steps-IsPaid k d [] s usual h = h
  take_steps-IsPaid k d (submit_report w now intent email token i ∷ xs) s usual h =
      take_steps-IsPaid k d xs (submit w now intent email token i s).0 usual.1
        (submit-IsPaid k d w now intent email token i s usual.0 h)
  take_steps-IsPaid k d (use_store t o ∷ xs) s usual h =
      take_steps-IsPaid k d xs (record s { auth = operate t o s.auth }) usual.1
        (h.0, operate-IsSpent k d t o s.auth usual.0 h.1)

  consumed_submission-IsSpent :
      (now : ℕ) (intent email token : Text) (s : Store)
      → IsStore s
      → (consume_submission_verification crypto now intent email token s).1 ≡ true
      → IsSpentStore
          (uuid intent)
          (digest_of_email crypto email)
          (consume_submission_verification crypto now intent email token s).0
  unfolding consume_submission_verification
  consumed_submission-IsSpent now intent email token s ok h =
      elim (Bool-cases
        (not (is_valid_email crypto email) || not (is_uuid_v4 intent) || not (is_token token))) [
          | inl e ↦ absurd (cc (rw e at h))
          | inr e ↦
              let y = digest_of_email crypto email in
              rw e (
                consumed-IsSpent now (uuid intent) y (crypto.token_digest intent y token) s ok
                  (rw e at h))
        ]

  spent_submission-refused :
      (now : ℕ) (intent email token : Text) (s : Store)
      → IsSpentStore (uuid intent) (digest_of_email crypto email) s
      → (consume_submission_verification crypto now intent email token s).1 ≡ false
  unfolding consume_submission_verification
  spent_submission-refused now intent email token s h =
      elim (Bool-cases
        (not (is_valid_email crypto email) || not (is_uuid_v4 intent) || not (is_token token))) [
          | inl e ↦ rw e refl
          | inr e ↦
              let y = digest_of_email crypto email in
              rw e (spent-refused (uuid intent) y now (crypto.token_digest intent y token) s h)
        ]

  -- A verified address pays for one report: once a submission was recorded on a verification, and
  -- after any further submissions and operations of the store, no submission is recorded on the
  -- same intent and e-mail, whatever the attempt, the token and the times. The clock does not run
  -- backwards within a submission, and a challenge that is created in between has another intent,
  -- since it gets a new UUID.
  pub submit_once :
      (w w' : Times) (now later : ℕ) (intent email token other : Text) (i i' : Submission)
      (s : Tables Store) (xs : List Step) (n t n' t' : ℕ)
      → IsTables s
      → IsStore s.auth
      → w.lookup ≤ w.deletion
      → w'.lookup ≤ w'.deletion
      → (submit w now intent email token i s).1 ≡ recorded n t
      → All (IsUsual (uuid intent)) xs
      → (submit w' later intent email other i'
          (take_steps xs (submit w now intent email token i s).0)).1
        ≢ recorded n' t'
  submit_once w w' now later intent email token other i i' s xs n t n' t' h ok l l' e usual e' =
      let (auth, met, kept) = submit_recorded w now intent email token i s h l e in
      let s' = (submit w now intent email token i s).0 in
      let s'' = take_steps xs s' in
      let k = uuid intent in
      let d = digest_of_email crypto email in
      let spent : IsSpentStore k d s'.auth =
        subst (IsSpentStore k d) (sym auth)
          (consumed_submission-IsSpent now intent email token s.auth ok met) in
      let (kept', spent') = take_steps-IsPaid k d xs s' usual (kept, spent) in
      let (_, met', _) = submit_recorded w' later intent email other i' s'' kept' l' e' in
      let again = spent_submission-refused later intent email other s''.auth spent' in
      cc (met', again)
