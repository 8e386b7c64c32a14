-- ===== src/History/Record/Ledger.antt =====
-- The tables as a ledger: the reports in their order, and for each attempt the receipt that it has.
-- How the receipts are stored, and that dead ones stay until they are needed again, is forgotten.
use public_lighting_fault_re.Base.{
  ℕ, suc, ◌+◌, ◌≡◌, inl, inr, Bool, true, Option, none, some, List, [], ◌∷◌, ◌++◌, All, ◌==◌,
  if◌then◌else◌, is_some,
}
use public_lighting_fault_re.Base.Tables.{find_row}
use public_lighting_fault_re.Import.{Platform}
use public_lighting_fault_re.History.{
  Wish, Target, Rules, Submission, Report, Attempt, Point, Tables, Times, Answer, recorded,
  duplicate, unauthorized, refused, invalid_automatic_address_proof,
}
use public_lighting_fault_re.History.Targets.{target, refusal, resolve_target, is_address_proved}
use public_lighting_fault_re.History.Notes.{automatic_notes}
use public_lighting_fault_re.History.Record.{
  receipt_lifetime, is_attempt, is_report, attempt_key, authorized, accepted_wish,
}
use public_lighting_fault_re.History.Record.Receipts.{alive, IsUnique}

-- What the service promises.
pub record Ledger (A : Type 0) : Type 0 where
  pub reports : List Report
  pub receipts : ℕ → Option Attempt
  pub number : ℕ
  pub places : List Point
  pub holder : A

unfoldable pub view : {A : Type 0} → Tables A → Ledger A
view s = record {
  reports = s.history;
  receipts = λ k. find_row (is_attempt k) s.attempts;
  number = s.next_id;
  places = s.points;
  holder = s.auth;
}

abbrev pub HasReport : List Report → Attempt → Type 0
HasReport h a = is_some (find_row (is_report a.history_id) h) ≡ true

-- The constraints of the tables: the attempts are a key, and each names a report.
abbrev pub IsTables : {A : Type 0} → Tables A → Type 0
IsTables s = IsUnique s.attempts × All (HasReport s.history) s.attempts

abbrev pub issued : Times → ℕ → ℕ → (ℕ → Option Attempt) → ℕ → Option Attempt
issued w k n f j =
    if k == j
    then some (record { attempt_id = k; history_id = n; expires_at = w.receipt + receipt_lifetime })
    else f j

abbrev pub receipts_after : Times → Option ℕ → ℕ → (ℕ → Option Attempt) → ℕ → Option Attempt
receipts_after w none n f = f
receipts_after w (some k) n f = issued w k n f

module _ {A : Type 0} (p : Platform) (c : Rules) where
  abbrev pub posted : Times → Submission → Target → Ledger A → Report
  posted w i t l = record {
    id = l.number;
    submitted_at = w.submission;
    locality = i.locality;
    location_block = i.location_block;
    fault_type = i.fault_type;
    target = t;
    notes = automatic_notes t w.submission l.reports;
  }

  -- A report is posted, with a receipt for its attempt.
  abbrev pub post : Times → Submission → Target → A → Ledger A → Ledger A
  post w i t holder l = record l {
    reports = l.reports ++ (posted w i t l ∷ []);
    receipts = receipts_after w (attempt_key i) l.number l.receipts;
    number = suc l.number;
    holder = holder;
  }

  unfoldable pub enter_target :
      Times → Option (A → A × Bool) → Submission → Target → Ledger A → Ledger A × Answer
  enter_target w authorize i t l =
      if is_address_proved c i t
      then (let (holder, ok) = authorized authorize l.holder in
          if ok then (post w i t holder l, recorded l.number w.submission) else (l, unauthorized))
      else (l, refused invalid_automatic_address_proof)

  unfoldable pub enter_new :
      Times → Option (A → A × Bool) → Submission → Wish → Ledger A → Ledger A × Answer
  unfolding enter_target
  enter_new w authorize i wish l = elim (resolve_target p c l.places wish) [
    | refusal e ↦ (l, refused e)
    | target t ↦ enter_target w authorize i t l
  ]

  unfoldable pub receipt_in : ℕ → Option ℕ → Ledger A → Option Report
  receipt_in now none l = none
  receipt_in now (some k) l = elim (alive now (l.receipts k)) [
    | none ↦ none
    | some a ↦ find_row (is_report a.history_id) l.reports
  ]

  -- A submission on the ledger: what is refused changes nothing, an attempt whose receipt is alive
  -- is answered with its report, and anything else is posted.
  unfoldable pub enter : Times → Option (A → A × Bool) → Submission → Ledger A → Ledger A × Answer
  unfolding receipt_in enter_new
  enter w authorize i l = elim (accepted_wish c i) [
    | inl e ↦ (l, refused e)
    | inr wish ↦ elim (receipt_in w.lookup (attempt_key i) l) [
      | some r ↦ (l, duplicate r.id r.submitted_at)
      | none ↦ enter_new w authorize i wish l
    ]
  ]
