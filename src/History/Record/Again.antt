-- ===== src/History/Record/Again.antt =====
-- A submission that is sent again.
use mathlib.Core.Path.{subst}
use public_lighting_fault_re.Base.{
  ℕ, ◌+◌, ◌≤◌, ◌<◌, ◌≡◌, ◌≢◌, ◌⊎◌, refl, sym, ap, ◌∙◌, inl, inr, Bool, true, Option, none, some,
  List, [], ◌∷◌, ◌++◌, All, arith, ltb, ◌==◌, ==_iff, Bool-cases, Option-cases,
}
use public_lighting_fault_re.Base.Tables.{find_row}
use public_lighting_fault_re.Import.{Platform}
use public_lighting_fault_re.History.{
  Wish, Target, Rules, Submission, Report, Attempt, Tables, Times, recorded, duplicate,
}
use public_lighting_fault_re.History.Targets.{resolve_target, is_address_proved}
use public_lighting_fault_re.History.Record.{
  receipt_lifetime, is_report, attempt_key, authorized, receipt_of, accepted_wish,
  record_submission,
}
use public_lighting_fault_re.History.Record.Receipts.{alive}
use public_lighting_fault_re.History.Record.Ledger.{
  Ledger, receipts_after, view, IsTables, posted, post, enter_target, enter_new, receipt_in, enter,
}
use public_lighting_fault_re.History.Record.Refine.{
  Resolved-cases, Wish-cases, receipt_of-receipt_in, record_submission-enter,
}
use public_lighting_fault_re.History.Record.Retry.{
  Call, IsTimely, record_all, enter_all, record_all-enter_all, enter_recorded, find_row-new, again,
}

find_row-append {ℓ} :
    {A : Type ℓ} (q : A → Bool) (xs ys : List A) {x : A}
    → find_row q xs ≡ some x
    → find_row q (xs ++ ys) ≡ some x
unfolding find_row
find_row-append q [] ys e = absurd (cc)
find_row-append q (y ∷ xs) ys e = elim (Bool-cases (q y)) [
  | inl t ↦ rw t (rw t at e)
  | inr t ↦ rw t (find_row-append q xs ys (rw t at e))
]

-- Another submission's receipt leaves this one.
receipts_after-other :
    (w : Times) (k n : ℕ) (o : Option ℕ) (f : ℕ → Option Attempt)
    → o ≢ some k
    → receipts_after w o n f k ≡ f k
receipts_after-other w k n none f h = refl
receipts_after-other w k n (some j) f h = elim (Bool-cases (j == k)) [
  | inl e ↦ absurd (h (ground (arith, e)))
  | inr e ↦ rw e refl
]

module _ {A : Type 0} (p : Platform) (c : Rules) where
  -- A submission leaves the ledger, or posts a report where its attempt has no receipt.
  pub enter_cases :
      (w : Times) (authorize : Option (A → A × Bool)) (i : Submission) (l : Ledger A)
      → ((enter p c w authorize i l).0 ≡ l)
        ⊎ ((y : Target) × ((enter p c w authorize i l).0
              ≡ post p c w i y (authorized authorize l.holder).0 l)
            × (receipt_in p c w.lookup (attempt_key i) l ≡ none))
  unfolding enter enter_new enter_target
  enter_cases w authorize i l = elim (Wish-cases (accepted_wish c i)) [
    | inl (e, f) ↦ rw (f, enter) (inl refl)
    | inr (wish, f) ↦ elim (Option-cases (receipt_in p c w.lookup (attempt_key i) l)) [
      | inr (r, g) ↦ rw (f, g, enter) (inl refl)
      | inl g ↦ elim (Resolved-cases (resolve_target p c l.places wish)) [
        | inr (e, k) ↦ rw (f, g, k, enter, enter_new) (inl refl)
        | inl (y, k) ↦ elim (Bool-cases (is_address_proved c i y)) [
          | inr m ↦ rw (f, g, k, m, enter, enter_new) (inl refl)
          | inl m ↦ elim (Bool-cases (authorized authorize l.holder).1) [
            | inr o ↦ rw (f, g, k, m, o, enter, enter_new) (inl refl)
            | inl o ↦ rw (f, g, k, m, o, enter, enter_new) (inr (y, refl, refl))
          ]
        ]
      ]
    ]
  ]

  -- The attempt `k` has a receipt for the report `r`, up to the time `until`.
  record IsReceipted (k until : ℕ) (r : Report) (l : Ledger A) : Type 0 where
    receipt : l.receipts k ≡ some (record { attempt_id = k; history_id = r.id; expires_at = until })
    report : find_row (is_report r.id) l.reports ≡ some r

  receipted :
      (k until now : ℕ) (r : Report) (l : Ledger A)
      → IsReceipted k until r l
      → now < until
      → receipt_in p c now (some k) l ≡ some r
  unfolding receipt_in
  receipted k until now r l h soon =
      let a : Attempt = record { attempt_id = k; history_id = r.id; expires_at = until } in
      let live : ltb now until ≡ true = ground arith in
      let held : alive now (some a) ≡ some a = rw live refl in
      let kept : alive now (l.receipts k) ≡ some a = ap (alive now) h.receipt ∙ held in
      rw (kept, receipt_in) h.report

  enter-IsReceipted :
      (k until : ℕ) (r : Report) (w : Times) (authorize : Option (A → A × Bool)) (i : Submission)
      (l : Ledger A)
      → w.lookup < until
      → IsReceipted k until r l
      → IsReceipted k until r (enter p c w authorize i l).0
  enter-IsReceipted k until r w authorize i l soon h = elim (enter_cases w authorize i l) [
    | inl e ↦ subst (IsReceipted k until r) (sym e) h
    | inr (y, e, g) ↦
        let other : attempt_key i ≢ some k = λ same. absurd (
          cc (
            g,
            ap (λ o. receipt_in p c w.lookup o l) same,
            receipted k until w.lookup r l h soon,
          )) in
        subst (IsReceipted k until r) (sym e) (record {
          receipt = receipts_after-other w k l.number (attempt_key i) l.receipts other ∙ h.receipt;
          report = find_row-append (is_report r.id) l.reports _ h.report;
        })
  ]

  -- The submissions look their receipts up before the time.
  abbrev pub IsBefore : ℕ → Call A → Type 0
  IsBefore until x = x.times.lookup < until

  enter_all-IsReceipted :
      (k until : ℕ) (r : Report) (xs : List (Call A)) (l : Ledger A)
      → All (IsBefore until) xs
      → IsReceipted k until r l
      → IsReceipted k until r (enter_all p c xs l).0
  unfolding enter_all
  enter_all-IsReceipted k until r [] l soon h = h
  enter_all-IsReceipted k until r (x ∷ xs) l soon h =
      enter_all-IsReceipted k until r xs (enter p c x.times x.authorize x.submission l).0 soon.1
        (enter-IsReceipted k until r x.times x.authorize x.submission l soon.0 h)

  posted-IsReceipted :
      (w : Times) (k : ℕ) (i : Submission) (y : Target) (holder : A) (l : Ledger A)
      → attempt_key i ≡ some k
      → All (λ x. x.id < l.number) l.reports
      → IsReceipted k (w.receipt + receipt_lifetime) (posted p c w i y l) (post p c w i y holder l)
  posted-IsReceipted w k i y holder l e h =
      let key : (k == k) ≡ true = (==_iff k k).1 refl in
      record {
        receipt = rw (e, key) refl;
        report = find_row-new l.number l.reports (posted p c w i y l) h refl;
      }

  -- A report that is sent again is recorded once: after a submission is recorded, and after any
  -- further submissions, a submission with the same attempt that passes the checks of its fields is
  -- answered with the same report and changes nothing. All of them look their receipts up within 30
  -- days of the first receipt; the ids of the history are below the next one, and the clock does
  -- not run backwards between the lookup and the deletion of a submission.
  pub record_submission_again :
      (w w' : Times) (authorize authorize' : Option (A → A × Bool)) (i i' : Submission)
      (s : Tables A) (xs : List (Call A)) (k n t : ℕ) (wish : Wish)
      → IsTables s
      → All (λ x. x.id < s.next_id) s.history
      → w.lookup ≤ w.deletion
      → attempt_key i ≡ some k
      → (record_submission p c w authorize i s).1 ≡ recorded n t
      → All IsTimely xs
      → All (IsBefore (w.receipt + receipt_lifetime)) xs
      → attempt_key i' ≡ some k
      → accepted_wish c i' ≡ inr wish
      → w'.lookup < w.receipt + receipt_lifetime
      → record_submission p c w' authorize' i'
          (record_all p c xs (record_submission p c w authorize i s).0).0
        ≡ ((record_all p c xs (record_submission p c w authorize i s).0).0, duplicate n t)
  unfolding view
  record_submission_again w w' authorize authorize' i i' s xs k n t wish h small l key done timely
        before key' fine soon =
      let until = w.receipt + receipt_lifetime in
      let s' = (record_submission p c w authorize i s).0 in
      let s'' = (record_all p c xs s').0 in
      let (viewed, answer, kept) = record_submission-enter p c w authorize i s l h in
      let (y, holder, posted_at, number, time, _) =
        enter_recorded p c w authorize i (view s) (sym answer ∙ done) in
      let (end_view, _, end_kept) = record_all-enter_all p c xs s' timely kept in
      let r = posted p c w i y (view s) in
      let first : IsReceipted k until r (view s') =
        subst (IsReceipted k until r) (sym (viewed ∙ posted_at))
          (posted-IsReceipted w k i y holder (view s) key small) in
      let last : IsReceipted k until r (view s'') =
        subst (IsReceipted k until r) (sym end_view)
          (enter_all-IsReceipted k until r xs (view s') before first) in
      let receipt : receipt_of p c w'.lookup (some k) s'' ≡ some r =
        receipt_of-receipt_in p c w'.lookup (some k) s'' end_kept
        ∙ receipted k until w'.lookup r (view s'') last soon in
      again p c w' authorize' i' s'' k r wish key' fine receipt ∙ rw (number, time) refl
