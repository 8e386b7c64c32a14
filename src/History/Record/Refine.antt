-- ===== src/History/Record/Refine.antt =====
-- `record_submission` does to the tables what the ledger promises.
use mathlib.Core.Path.{fun_ext}
use public_lighting_fault_re.Base.{
  ℕ, suc, ◌+◌, ◌≤◌, ◌≡◌, ◌≢◌, refl, sym, ◌∙◌, ◌⊎◌, inl, inr, Bool, Option, none, some, List, [],
  ◌∷◌, ◌++◌, All, All-map, arith, ◌==◌, ==_iff, Bool-cases, Option-cases,
}
use public_lighting_fault_re.Base.Tables.{find_row}
use public_lighting_fault_re.Base.Tables.Find.{find_row-append_some, find_row-append_last}
use public_lighting_fault_re.Base.Tables.Laws.{All-find_row, All-delete_rows}
use public_lighting_fault_re.Import.{Platform}
use public_lighting_fault_re.History.{
  Wish, Target, Rules, Submission, Report, Attempt, Tables, Times, Answer, Refusal,
}
use public_lighting_fault_re.History.Targets.{
  Resolved, target, refusal, resolve_target, is_address_proved,
}
use public_lighting_fault_re.History.Record.{
  receipt_lifetime, is_attempt, is_live_attempt, is_dead_attempt, is_report, attempt_key, report_of,
  insert_report, authorized, without_dead, record_resolved, record_new, receipt_of, accepted_wish,
  record_submission,
}
use public_lighting_fault_re.History.Record.Receipts.{
  alive, find_row-is_live_attempt, find_row-delete_other, find_row-delete_dead,
  delete_rows-IsUnique,
}
use public_lighting_fault_re.History.Record.Ledger.{
  Ledger, view, HasReport, IsTables, issued, post, enter_target, enter_new, receipt_in, enter,
}

append-HasReport :
    (h : List Report) (r : Report) (xs : List Attempt)
    → All (HasReport h) xs
    → All (HasReport (h ++ (r ∷ []))) xs
append-HasReport h r xs k =
    All-map (HasReport h) (HasReport (h ++ (r ∷ []))) xs
      (λ a. find_row-append_some (is_report a.history_id) h (r ∷ [])) k

pub Resolved-cases :
    (r : Resolved) → ((t : Target) × (r ≡ target t)) ⊎ ((e : Refusal) × (r ≡ refusal e))
Resolved-cases (target t) = inl (t, refl)
Resolved-cases (refusal e) = inr (e, refl)

pub Wish-cases : (r : Refusal ⊎ Wish) → ((e : Refusal) × (r ≡ inl e)) ⊎ ((x : Wish) × (r ≡ inr x))
Wish-cases (inl e) = inl (e, refl)
Wish-cases (inr x) = inr (x, refl)

module _ {A : Type 0} (p : Platform) (c : Rules) where
  -- The result of a submission agrees with the ledger's, and the tables keep their constraints.
  abbrev pub Agrees : Tables A × Answer → Ledger A × Answer → Type 0
  Agrees r l = (view r.0 ≡ l.0) × (r.1 ≡ l.1) × IsTables r.0

  pub receipt_of-receipt_in :
      (now : ℕ) (k : Option ℕ) (s : Tables A)
      → IsTables s
      → receipt_of p c now k s ≡ receipt_in p c now k (view s)
  unfolding receipt_of receipt_in view
  receipt_of-receipt_in now none s h = refl
  receipt_of-receipt_in now (some k) s h =
      let same = find_row-is_live_attempt now k s.attempts h.0 in
      elim (Option-cases (alive now (find_row (is_attempt k) s.attempts))) [
        | inl e ↦ rw (same, e, receipt_of, receipt_in) refl
        | inr (a, e) ↦ rw (same, e, receipt_of, receipt_in) refl
      ]

  -- Where the lookup finds no receipt, none is alive.
  none_alive :
      (now k : ℕ) (s : Tables A)
      → IsTables s
      → receipt_of p c now (some k) s ≡ none
      → find_row (is_live_attempt now k) s.attempts ≡ none
  unfolding receipt_of
  none_alive now k s h e = elim (Option-cases (find_row (is_live_attempt now k) s.attempts)) [
    | inl f ↦ f
    | inr (a, f) ↦
        let there : HasReport s.history a =
          All-find_row (HasReport s.history) (is_live_attempt now k) s.attempts h.1 f in
        let gone : find_row (is_report a.history_id) s.history ≡ none = rw (f, receipt_of) at e in
        absurd (cc (rw gone at there))
  ]

  -- The insertion, on the tables without the attempt's dead receipts.
  abbrev IsInserted : Times → Submission → Target → A → Tables A → Option (Tables A) → Type 0
  IsInserted w i t auth s o =
      (after : Tables A) × (o ≡ some after)
      × (view after ≡ post p c w i t auth (view s))
      × IsTables after

  insert_free :
      (w : Times) (i : Submission) (t : Target) (auth : A) (s : Tables A)
      → attempt_key i ≡ none
      → IsTables s
      → IsInserted w i t auth s (insert_report p c w none i t auth s)
  unfolding insert_report view
  insert_free w i t auth s e h = (
    record s {
      history = s.history ++ (report_of p c i t w.submission s ∷ []);
      next_id = suc s.next_id;
      auth = auth;
    },
    refl,
    rw e refl,
    (h.0, append-HasReport s.history (report_of p c i t w.submission s) s.attempts h.1),
  )

  insert_keyed :
      (w : Times) (k : ℕ) (i : Submission) (t : Target) (auth : A) (s : Tables A)
      → attempt_key i ≡ some k
      → w.lookup ≤ w.deletion
      → find_row (is_live_attempt w.lookup k) s.attempts ≡ none
      → IsTables s
      → IsInserted w i t auth s
          (insert_report p c w (some k) i t auth (without_dead w.deletion (some k) s))
  unfolding insert_report view find_row
  insert_keyed w k i t auth s e l dead h =
      let s' = without_dead w.deletion (some k) s in
      let gone : find_row (is_attempt k) s'.attempts ≡ none =
        find_row-delete_dead w.lookup w.deletion k s.attempts l dead in
      let r = report_of p c i t w.submission s in
      let a : Attempt = record {
        attempt_id = k;
        history_id = s.next_id;
        expires_at = w.receipt + receipt_lifetime;
      } in
      let after : Tables A = record s {
        history = s.history ++ (r ∷ []);
        attempts = a ∷ s'.attempts;
        next_id = suc s.next_id;
        auth = auth;
      } in
      let same : (λ j. find_row (is_attempt j) after.attempts)
          ≡ issued w k s.next_id (λ j. find_row (is_attempt j) s.attempts) =
        fun_ext λ j. elim (Bool-cases (k == j)) [
          | inl t ↦ rw t refl
          | inr t ↦
              let other : j ≢ k = ground arith in
              rw t (find_row-delete_other w.deletion k j s.attempts other)
        ] in
      let kept : All (HasReport s.history) s'.attempts =
        All-delete_rows (HasReport s.history) (is_dead_attempt w.deletion k) s.attempts h.1 in
      (
        after,
        rw gone refl,
        rw (e, same) refl,
        (
          (gone, delete_rows-IsUnique (is_dead_attempt w.deletion k) s.attempts h.0),
          (
            find_row-append_last (is_report s.next_id) s.history r
                ((==_iff s.next_id s.next_id).1 refl),
            append-HasReport s.history r s'.attempts kept,
          ),
        ),
      )

  -- The same for either kind of submission.
  insert_any :
      (w : Times) (ko : Option ℕ) (i : Submission) (t : Target) (auth : A) (s : Tables A)
      → attempt_key i ≡ ko
      → w.lookup ≤ w.deletion
      → receipt_of p c w.lookup ko s ≡ none
      → IsTables s
      → IsInserted w i t auth s (insert_report p c w ko i t auth (without_dead w.deletion ko s))
  insert_any w none i t auth s e l free h = insert_free w i t auth s e h
  insert_any w (some k) i t auth s e l free h =
      insert_keyed w k i t auth s e l (none_alive w.lookup k s h free) h

  without_dead_rest :
      (now : ℕ) (ko : Option ℕ) (s : Tables A)
      → ((without_dead now ko s).auth ≡ s.auth) × ((without_dead now ko s).next_id ≡ s.next_id)
  without_dead_rest now none s = (refl, refl)
  without_dead_rest now (some k) s = (refl, refl)

  record_resolved-enter_target :
      (w : Times) (authorize : Option (A → A × Bool)) (i : Submission) (t : Target) (s : Tables A)
      → w.lookup ≤ w.deletion
      → receipt_of p c w.lookup (attempt_key i) s ≡ none
      → IsTables s
      → Agrees
          (record_resolved p c w authorize i t s (without_dead w.deletion (attempt_key i) s))
          (enter_target p c w authorize i t (view s))
  unfolding record_resolved enter_target view
  record_resolved-enter_target w authorize i t s l free h =
      let s' = without_dead w.deletion (attempt_key i) s in
      let (same, number) = without_dead_rest w.deletion (attempt_key i) s in
      elim (Bool-cases (is_address_proved c i t)) [
        | inl e ↦ elim (Bool-cases (authorized authorize s.auth).1) [
          | inl f ↦
              let auth = (authorized authorize s.auth).0 in
              let (after, inserted, viewed, kept) =
                insert_any w (attempt_key i) i t auth s refl l free h in
              rw (e, same, f, inserted, number, record_resolved) (viewed, refl, kept)
          | inr f ↦ rw (e, same, f) (refl, refl, h)
        ]
        | inr e ↦ rw e (refl, refl, h)
      ]

  record_new-enter_new :
      (w : Times) (authorize : Option (A → A × Bool)) (i : Submission) (wish : Wish) (s : Tables A)
      → w.lookup ≤ w.deletion
      → receipt_of p c w.lookup (attempt_key i) s ≡ none
      → IsTables s
      → Agrees (record_new p c w authorize i wish s) (enter_new p c w authorize i wish (view s))
  unfolding record_new enter_new view
  record_new-enter_new w authorize i wish s l free h =
      elim (Resolved-cases (resolve_target p c s.points wish)) [
        | inl (t, e) ↦
            rw (e, record_new, enter_new) (record_resolved-enter_target w authorize i t s l free h)
        | inr (f, e) ↦ rw (e, record_new, enter_new) (refl, refl, h)
      ]

  -- A submission does to the tables what it does to the ledger, with the same answer.
  pub record_submission-enter :
      (w : Times) (authorize : Option (A → A × Bool)) (i : Submission) (s : Tables A)
      → w.lookup ≤ w.deletion
      → IsTables s
      → Agrees (record_submission p c w authorize i s) (enter p c w authorize i (view s))
  unfolding record_submission enter
  record_submission-enter w authorize i s l h = elim (Wish-cases (accepted_wish c i)) [
    | inl (e, f) ↦ rw (f, record_submission, enter) (refl, refl, h)
    | inr (wish, f) ↦
        let same = receipt_of-receipt_in w.lookup (attempt_key i) s h in
        elim (Option-cases (receipt_of p c w.lookup (attempt_key i) s)) [
          | inl g ↦
              let free = sym same ∙ g in
              rw (f, g, free, record_submission, enter)
                (record_new-enter_new w authorize i wish s l g h)
          | inr (r, g) ↦
              let found = sym same ∙ g in rw (f, g, found, record_submission, enter) (refl, refl, h)
        ]
  ]
