-- ===== src/History/Record.antt =====
-- `recordSubmission` and `cleanupExpiredSubmissionAttempts`.
pub mod Retry
pub mod Again
pub mod Verified
pub mod Receipts
pub mod Ledger
pub mod Refine
use public_lighting_fault_re.Base.{
  ℕ, suc, ◌+◌, ◌*◌, ◌^◌, ◌||◌, ◌⊎◌, inl, inr, Bool, true, false, Option, none, some, List, [], ◌∷◌,
  ◌++◌, ltb, leb, ◌==◌, if◌then◌else◌, ◌&&◌, not, is_some,
}
use public_lighting_fault_re.Base.Tables.{find_row, delete_rows, delete_oldest}
use public_lighting_fault_re.Email.Service.{uuid}
use public_lighting_fault_re.Import.{Text, Platform}
use public_lighting_fault_re.History.{
  Wish, Target, Refusal, invalid_automatic_address, invalid_automatic_address_proof,
  invalid_report_target, Rules, Submission, Report, Attempt, Tables, Times, Answer, recorded,
  duplicate, unauthorized, refused, conflict,
}
use public_lighting_fault_re.History.Targets.{
  Resolved, target, refusal, validate_submission, wish_of, resolve_target, can_hold_address,
  is_empty_address, is_address_proved,
}
use public_lighting_fault_re.History.Notes.{automatic_notes}

-- 30 days in milliseconds, the default of `expires_at`.
abbrev pub receipt_lifetime : ℕ
receipt_lifetime = 2_592_000_000

abbrev pub is_attempt : ℕ → Attempt → Bool
is_attempt k a = a.attempt_id == k

abbrev pub is_live_attempt : ℕ → ℕ → Attempt → Bool
is_live_attempt now k a = a.attempt_id == k && ltb now a.expires_at

abbrev pub is_dead_attempt : ℕ → ℕ → Attempt → Bool
is_dead_attempt now k a = a.attempt_id == k && leb a.expires_at now

abbrev pub is_report : ℕ → Report → Bool
is_report i r = r.id == i

abbrev pub attempt_key : Submission → Option ℕ
attempt_key i = elim i.attempt_id [ none ↦ none | some s ↦ some (uuid s) ]

-- The checks that come before the transaction.
unfoldable pub accepted_wish : Rules → Submission → Refusal ⊎ Wish
accepted_wish c i = elim (validate_submission c i) [
  | some e ↦ inl e
  | none ↦ elim (wish_of i.report_target) [
    | none ↦ inl invalid_report_target
    | some wish ↦
        if not (is_empty_address i.automatic_address) && not (can_hold_address wish)
        then inl invalid_automatic_address
        else inr wish
  ]
]

-- `authorize`, where it is given.
abbrev pub authorized : {A : Type 0} → Option (A → A × Bool) → A → A × Bool
authorized none a = (a, true)
authorized (some f) a = f a

-- The deletion of the attempt's expired receipt.
abbrev pub without_dead : {A : Type 0} → ℕ → Option ℕ → Tables A → Tables A
without_dead now none s = s
without_dead now (some k) s = record s { attempts = delete_rows (is_dead_attempt now k) s.attempts }

module _ {A : Type 0} (p : Platform) (c : Rules) where
  -- The row that is inserted.
  abbrev pub report_of : Submission → Target → (now : ℕ) → Tables A → Report
  report_of i t now s = record {
    id = s.next_id;
    submitted_at = now;
    locality = i.locality;
    location_block = i.location_block;
    fault_type = i.fault_type;
    target = t;
    notes = automatic_notes t now s.history;
  }

  -- The history after the report, and the receipt of the attempt, which its key must not have.
  unfoldable pub insert_report :
      Times → Option ℕ → Submission → Target → A → Tables A → Option (Tables A)
  unfolding find_row
  insert_report w none i t auth s = some (record s {
    history = s.history ++ (report_of i t w.submission s ∷ []);
    next_id = suc s.next_id;
    auth = auth;
  })
  insert_report w (some k) i t auth s =
      if is_some (find_row (is_attempt k) s.attempts)
      then none
      else some (record s {
        history = s.history ++ (report_of i t w.submission s ∷ []);
        attempts =
            (record {
              attempt_id = k;
              history_id = s.next_id;
              expires_at = w.receipt + receipt_lifetime;
            })
            ∷ s.attempts;
        next_id = suc s.next_id;
        auth = auth;
      })

  -- After the target is resolved: the proof, the authorisation and the insertion. `s` are the tables
  -- at the start, to which a rollback returns, and `s'` those within the transaction.
  unfoldable pub record_resolved :
      Times → Option (A → A × Bool) → Submission → Target → (s s' : Tables A) → Tables A × Answer
  unfolding insert_report
  record_resolved w authorize i t s s' =
      if is_address_proved c i t
      then (let (auth, ok) = authorized authorize s'.auth in
          if ok
          then elim (insert_report w (attempt_key i) i t auth s') [
            | none ↦ (s, conflict)
            | some after ↦ (after, recorded s'.next_id w.submission)
          ]
          else (s, unauthorized))
      else (s, refused invalid_automatic_address_proof)

  -- After the lookup of the receipt has found none.
  unfoldable pub record_new :
      Times → Option (A → A × Bool) → Submission → Wish → Tables A → Tables A × Answer
  unfolding record_resolved delete_rows
  record_new w authorize i wish s = elim (resolve_target p c s.points wish) [
    | refusal e ↦ (s, refused e)
    | target t ↦ record_resolved w authorize i t s (without_dead w.deletion (attempt_key i) s)
  ]

  -- The report of the attempt's live receipt.
  unfoldable pub receipt_of : ℕ → Option ℕ → Tables A → Option Report
  unfolding find_row
  receipt_of now none s = none
  receipt_of now (some k) s = elim (find_row (is_live_attempt now k) s.attempts) [
    | none ↦ none
    | some a ↦ find_row (is_report a.history_id) s.history
  ]

  -- `recordSubmission`
  unfoldable pub record_submission :
      Times → Option (A → A × Bool) → Submission → Tables A → Tables A × Answer
  unfolding accepted_wish receipt_of record_new
  record_submission w authorize i s = elim (accepted_wish c i) [
    | inl e ↦ (s, refused e)
    | inr wish ↦ elim (receipt_of w.lookup (attempt_key i) s) [
      | some r ↦ (s, duplicate r.id r.submitted_at)
      | none ↦ record_new w authorize i wish s
    ]
  ]

-- `cleanupExpiredSubmissionAttempts`: the oldest receipts that have expired, by their time and then
-- by their UUID, which is below 2 ^ 128; `none` where the limit is out of range.
abbrev age : Attempt → ℕ
age a = a.expires_at * 2 ^ 128 + a.attempt_id

abbrev is_expired : ℕ → Attempt → Bool
is_expired now a = leb a.expires_at now

unfoldable pub cleanup_expired_submission_attempts :
    {A : Type 0} → (limit now : ℕ) → Tables A → Option (Tables A × ℕ)
unfolding delete_oldest
cleanup_expired_submission_attempts limit now s =
    if ltb limit 1 || ltb 1000 limit
    then none
    else (let (kept, n) = delete_oldest limit age (is_expired now) s.attempts in
        some (record s { attempts = kept }, n))
