-- ===== src/Scheduler/Attempts.antt =====
-- When an attempt is made, and when a slot is done with.
use public_lighting_fault_re.Base.{
  ℕ, ◌+◌, ◌≤◌, ◌<◌, ◌≡◌, refl, ap, inl, inr, Bool, true, false, Option, none, some, List, ◌++◌,
  arith, ltb, Bool-cases, Option-cases, length,
}
use public_lighting_fault_re.Scheduler.{
  max_attempts, BackupState, complete, BackupResult, Finished, Event, attempted, already_final,
  is_retryable, finished_for_slot, started_without_finish, last_of, reconcile, retry_time, is_final,
  decide, make_attempt, run_under_lock, latest_due_backup_slot,
}

-- The journal once the abandoned attempts are reconciled, and the number of the clock's reading
-- by which the run decides.
abbrev pub settled : (ℕ → ℕ) → List Event → List Event
settled clock journal = journal ++ reconcile clock 1 (started_without_finish journal)

abbrev pub due_reading : List Event → ℕ
due_reading journal = length (started_without_finish journal) + 1

-- The slot's last finished attempt.
abbrev pub last_finish : (ℕ → ℕ) → ℕ → List Event → Option Finished
last_finish clock slot journal = last_of (finished_for_slot slot (settled clock journal))

-- Why a run may make the `k`-th attempt at `now`.
pub data IsDue (now k : ℕ) : Option Finished → Type 0 where
  first : k ≡ 1 → IsDue now k none
  retry :
      (f : Finished)
      → k ≡ f.attempt + 1
      → f.attempt < max_attempts
      → is_retryable f.state ≡ true
      → retry_time f ≤ now
      → IsDue now k (some f)

make_attempt_number :
    (slot attempt : ℕ) (run : ℕ × Bool) (o : Option BackupResult) (t u : ℕ) (j : List Event)
    {slot' k : ℕ} {st : BackupState} {code : ℕ} {ra : Option ℕ} {r : Option BackupResult}
    → (make_attempt slot attempt run o t u j).1 ≡ some (attempted slot' k st code ra r)
    → (slot ≡ slot') × (k ≡ attempt)
unfolding make_attempt
make_attempt_number slot attempt (run, true) o t u j h = (cc, cc)
make_attempt_number slot attempt (run, false) o t u j h = (cc, cc)

decide-IsDue :
    (clock : ℕ → ℕ) (n slot : ℕ) (last : Option Finished) (run : ℕ × Bool) (o : Option BackupResult)
    (j : List Event) {slot' k : ℕ} {st : BackupState} {code : ℕ} {ra : Option ℕ}
    {r : Option BackupResult}
    → (decide clock n slot last run o j).1 ≡ some (attempted slot' k st code ra r)
    → (slot ≡ slot') × IsDue (clock n) k last
unfolding decide
decide-IsDue clock n slot none run o j h =
    let (same, number) = make_attempt_number slot 1 run o _ _ j h in (same, first number)
decide-IsDue clock n slot (some f) run o j h = elim (Bool-cases (is_final f)) [
  | inl final ↦ absurd (cc (rw final at h))
  | inr more ↦ elim (Bool-cases (ltb (clock n) (retry_time f))) [
    | inl early ↦ absurd (cc (rw (more, early) at h))
    | inr due ↦
        let (same, number) =
          make_attempt_number slot (f.attempt + 1) run o _ _ j (rw (more, due) at h) in
        (same, retry f number (ground arith) (ground arith) (ground arith))
  ]
]

-- An attempt is made only for the slot that is due, and only as the first one of the slot, or as
-- the second after a first that failed in a way worth retrying and whose retry time has come.
pub run_under_lock-IsDue :
    (clock : ℕ → ℕ) (run : ℕ × Bool) (outcome : Option BackupResult) (journal : List Event)
    (slot k : ℕ) (st : BackupState) (code : ℕ) (ra : Option ℕ) (r : Option BackupResult)
    → (run_under_lock clock run outcome journal).1 ≡ some (attempted slot k st code ra r)
    → (latest_due_backup_slot (clock (due_reading journal)) ≡ some slot)
      × IsDue (clock (due_reading journal)) k (last_finish clock slot journal)
unfolding run_under_lock
run_under_lock-IsDue clock run outcome journal slot k st code ra r h =
    elim (Option-cases (latest_due_backup_slot (clock (due_reading journal)))) [
      | inl e ↦ absurd (cc (rw (e, run_under_lock) at h))
      | inr (s, e) ↦
          let (same, due) =
            decide-IsDue clock (due_reading journal) s (last_finish clock s journal) run outcome
              (settled clock journal) (rw (e, run_under_lock) at h) in
          rw (e) (ap some same, rw same at due)
    ]

-- A slot whose last attempt was complete is left alone: the run only reconciles abandoned attempts
-- and answers `already_final` with that attempt's state and exit code.
pub run_under_lock_complete :
    (clock : ℕ → ℕ) (run : ℕ × Bool) (outcome : Option BackupResult) (journal : List Event)
    (slot : ℕ) (f : Finished)
    → latest_due_backup_slot (clock (due_reading journal)) ≡ some slot
    → last_finish clock slot journal ≡ some f
    → f.state ≡ complete
    → run_under_lock clock run outcome journal
      ≡ (settled clock journal, some (already_final slot complete f.exit_code))
unfolding run_under_lock
run_under_lock_complete clock run outcome journal slot f due last done =
    rw (due, run_under_lock) (rw (last, decide) (rw done refl))
