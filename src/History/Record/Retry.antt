-- ===== src/History/Record/Retry.antt =====
-- Runs of submissions, and a submission that is sent again.
use public_lighting_fault_re.Base.{
  ℕ, ◌+◌, ◌≤◌, ◌<◌, ◌≡◌, refl, ap, ◌∙◌, inl, inr, Bool, true, false, Option, some, List, [], ◌∷◌,
  ◌++◌, All, arith, ltb, ◌==◌, ==_iff, Bool-cases, Option-cases,
}
use public_lighting_fault_re.Base.Tables.{find_row}
use public_lighting_fault_re.Import.{Platform}
use public_lighting_fault_re.History.{
  Wish, Target, Rules, Submission, Report, Attempt, Tables, Times, Answer, recorded, duplicate,
}
use public_lighting_fault_re.History.Targets.{resolve_target, is_address_proved}
use public_lighting_fault_re.History.Record.{
  receipt_lifetime, is_report, attempt_key, authorized, receipt_of, accepted_wish,
  record_submission,
}
use public_lighting_fault_re.History.Record.Receipts.{alive}
use public_lighting_fault_re.History.Record.Ledger.{
  Ledger, receipts_after, view, IsTables, posted, post, enter_target, enter_new, receipt_in, enter,
}
use public_lighting_fault_re.History.Record.Refine.{
  Resolved-cases, Wish-cases, record_submission-enter,
}

-- A submission with the readings of the clock and the authorisation that it meets.
pub record Call (A : Type 0) : Type 0 where
  pub times : Times
  pub authorize : Option (A → A × Bool)
  pub submission : Submission

-- The clock does not run backwards between the lookup and the deletion.
abbrev pub IsTimely : {A : Type 0} → Call A → Type 0
IsTimely x = x.times.lookup ≤ x.times.deletion

pub find_row-new :
    (n : ℕ) (xs : List Report) (r : Report)
    → All (λ x. x.id < n) xs
    → r.id ≡ n
    → find_row (is_report n) (xs ++ (r ∷ [])) ≡ some r
unfolding find_row
find_row-new n [] r h e = let same : is_report n r ≡ true = ground arith in rw same refl
find_row-new n (x ∷ xs) r h e =
    let other : is_report n x ≡ false = ground (arith, h.0) in rw other (find_row-new n xs r h.1 e)

module _ {A : Type 0} (p : Platform) (c : Rules) where
  unfoldable pub record_all : List (Call A) → Tables A → Tables A × List Answer
  unfolding record_submission
  record_all [] s = (s, [])
  record_all (x ∷ xs) s =
      let (s', a) = record_submission p c x.times x.authorize x.submission s in
      let (s'', rest) = record_all xs s' in (s'', a ∷ rest)

  unfoldable pub enter_all : List (Call A) → Ledger A → Ledger A × List Answer
  unfolding enter
  enter_all [] l = (l, [])
  enter_all (x ∷ xs) l =
      let (l', a) = enter p c x.times x.authorize x.submission l in
      let (l'', rest) = enter_all xs l' in (l'', a ∷ rest)

  -- Any run of submissions gives the answers that the ledger gives, and leaves tables that read as
  -- its end, with their constraints kept; the clock must not run backwards within a submission.
  pub record_all-enter_all :
      (xs : List (Call A)) (s : Tables A)
      → All IsTimely xs
      → IsTables s
      → (view (record_all xs s).0 ≡ (enter_all xs (view s)).0)
        × ((record_all xs s).1 ≡ (enter_all xs (view s)).1)
        × IsTables (record_all xs s).0
  unfolding record_all enter_all
  record_all-enter_all [] s t h = (refl, refl, h)
  record_all-enter_all (x ∷ xs) s t h =
      let s' = (record_submission p c x.times x.authorize x.submission s).0 in
      let (viewed, answer, kept) =
        record_submission-enter p c x.times x.authorize x.submission s t.0 h in
      let (end_view, answers, end_kept) = record_all-enter_all xs s' t.1 kept in
      (end_view ∙ ap (λ l. (enter_all xs l).0) viewed, rw (answer, answers, viewed) refl, end_kept)

  -- What the ledger records is posted under the next number, at the time of the submission.
  pub enter_recorded :
      (w : Times) (authorize : Option (A → A × Bool)) (i : Submission) (l : Ledger A) {n t : ℕ}
      → (enter p c w authorize i l).1 ≡ recorded n t
      → (y : Target) × (holder : A) × ((enter p c w authorize i l).0 ≡ post p c w i y holder l)
        × (n ≡ l.number)
        × (t ≡ w.submission)
        × (authorized authorize l.holder ≡ (holder, true))
  unfolding enter enter_new enter_target
  enter_recorded w authorize i l h = elim (Wish-cases (accepted_wish c i)) [
    | inl (e, f) ↦ absurd (cc (rw (f, enter) at h))
    | inr (wish, f) ↦ elim (Option-cases (receipt_in p c w.lookup (attempt_key i) l)) [
      | inr (r, g) ↦ absurd (cc (rw (f, g, enter) at h))
      | inl g ↦ elim (Resolved-cases (resolve_target p c l.places wish)) [
        | inr (e, k) ↦ absurd (cc (rw (f, g, k, enter, enter_new) at h))
        | inl (y, k) ↦ elim (Bool-cases (is_address_proved c i y)) [
          | inr m ↦ absurd (cc (rw (f, g, k, m, enter, enter_new) at h))
          | inl m ↦ elim (Bool-cases (authorized authorize l.holder).1) [
            | inr o ↦ absurd (cc (rw (f, g, k, m, o, enter, enter_new) at h))
            | inl o ↦
                let now = rw (f, g, k, m, o, enter, enter_new) at h in
                (
                  y,
                  (authorized authorize l.holder).0,
                  rw (f, g, k, m, o, enter, enter_new) refl,
                  ground arith,
                  ground arith,
                  ap (λ b. ((authorized authorize l.holder).0, b)) o,
                )
          ]
        ]
      ]
    ]
  ]

  -- The ledger finds the report under the receipt that it has just given.
  receipt_in-post :
      (w : Times) (now k : ℕ) (i : Submission) (y : Target) (holder : A) (l : Ledger A)
      → attempt_key i ≡ some k
      → now < w.receipt + receipt_lifetime
      → All (λ x. x.id < l.number) l.reports
      → (r : Report) × (receipt_in p c now (some k) (post p c w i y holder l) ≡ some r)
        × (r.id ≡ l.number)
        × (r.submitted_at ≡ w.submission)
  unfolding receipt_in
  receipt_in-post w now k i y holder l e soon h =
      let key : (k == k) ≡ true = (==_iff k k).1 refl in
      let live : ltb now (w.receipt + receipt_lifetime) ≡ true = ground arith in
      let r = posted p c w i y l in
      let a : Attempt = record {
        attempt_id = k;
        history_id = l.number;
        expires_at = w.receipt + receipt_lifetime;
      } in
      let given : receipts_after w (attempt_key i) l.number l.receipts k ≡ some a =
        rw (e, key) refl in
      let held : alive now (some a) ≡ some a = rw live refl in
      let kept : alive now (receipts_after w (attempt_key i) l.number l.receipts k) ≡ some a =
        ap (alive now) given ∙ held in
      (r, rw (kept, receipt_in) (find_row-new l.number l.reports r h refl), refl, refl)

  pub again :
      (w : Times) (authorize : Option (A → A × Bool)) (i : Submission) (s : Tables A) (k : ℕ)
      (r : Report) (wish : Wish)
      → attempt_key i ≡ some k
      → accepted_wish c i ≡ inr wish
      → receipt_of p c w.lookup (some k) s ≡ some r
      → record_submission p c w authorize i s ≡ (s, duplicate r.id r.submitted_at)
  unfolding record_submission
  again w authorize i s k r wish key fine found = rw (fine, key, found, record_submission) refl
