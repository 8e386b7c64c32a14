-- ===== src/Scheduler/Journal.antt =====
-- What a run does to the journal.
use public_lighting_fault_re.Base.{
  ℕ, ◌+◌, ◌≡◌, refl, length, inl, inr, Bool, true, false, Option, none, some, List, [], ◌∷◌, ◌++◌,
  arith, ltb, Bool-cases, Option-cases, any, any-append, All, All-map, All-append,
}
use public_lighting_fault_re.Scheduler.{
  BackupResult, Started, Finished, Event, attempt_started, attempt_finished, is_finish_of,
  starts_open, started_without_finish, last_of, finished_for_slot, reconcile, retry_time, is_final,
  decide, make_attempt, run_under_lock, latest_due_backup_slot, checked_result, finish_of,
}

abbrev IsClosed : List Event → Event → Type 0
IsClosed all_events (attempt_started s) = any (is_finish_of s.run_id) all_events ≡ true
IsClosed all_events (attempt_finished f) = Unit

starts_open-none : (es xs : List Event) → All (IsClosed es) xs → starts_open es xs ≡ []
unfolding starts_open
starts_open-none es [] h = refl
starts_open-none es (attempt_started s ∷ xs) h = rw (h.0) (starts_open-none es xs h.1)
starts_open-none es (attempt_finished f ∷ xs) h = starts_open-none es xs h.1

IsClosed-append : (es rest : List Event) (x : Event) → IsClosed es x → IsClosed (es ++ rest) x
IsClosed-append es rest (attempt_started s) h =
    rw (any-append (is_finish_of s.run_id) es rest, h) refl
IsClosed-append es rest (attempt_finished f) h = tt

abbrev IsClosedBy : List Event → Started → Type 0
IsClosedBy rest s = any (is_finish_of s.run_id) rest ≡ true

reconcile-IsClosedBy :
    (clock : ℕ → ℕ) (n : ℕ) (ss : List Started) → All (IsClosedBy (reconcile clock n ss)) ss
unfolding reconcile
reconcile-IsClosedBy clock n [] = tt
reconcile-IsClosedBy clock n (s ∷ ss) = (
  ground arith,
  All-map (IsClosedBy (reconcile clock (n + 1) ss)) (IsClosedBy (reconcile clock n (s ∷ ss))) ss
      (λ x h. rw h (ground arith)) (reconcile-IsClosedBy clock (n + 1) ss),
)

reconcile_tail :
    (clock : ℕ → ℕ) (n : ℕ) (es : List Event) (ss : List Started)
    → All (IsClosed es) (reconcile clock n ss)
unfolding reconcile
reconcile_tail clock n es [] = tt
reconcile_tail clock n es (s ∷ ss) = (tt, reconcile_tail clock (n + 1) es ss)

-- What was open is closed by the events that close it, the rest stays closed.
starts_open-IsClosed :
    (es rest xs : List Event)
    → All (IsClosedBy rest) (starts_open es xs)
    → All (IsClosed (es ++ rest)) xs
unfolding starts_open
starts_open-IsClosed es rest [] h = tt
starts_open-IsClosed es rest (attempt_finished f ∷ xs) h = (tt, starts_open-IsClosed es rest xs h)
starts_open-IsClosed es rest (attempt_started s ∷ xs) h =
    elim (Bool-cases (any (is_finish_of s.run_id) es)) [
      | inl e ↦ (
        rw (any-append (is_finish_of s.run_id) es rest, e) refl,
        starts_open-IsClosed es rest xs (rw e at h),
      )
      | inr e ↦
          let h' : All (IsClosedBy rest) (s ∷ starts_open es xs) = rw e at h in
          (
            rw (any-append (is_finish_of s.run_id) es rest, e) h'.0,
            starts_open-IsClosed es rest xs h'.1,
          )
    ]

abbrev IsSettled : List Event → Type 0
IsSettled es = All (IsClosed es) es

append_reconcile-IsSettled :
    (clock : ℕ → ℕ) (journal : List Event)
    → IsSettled (journal ++ reconcile clock 1 (started_without_finish journal))
unfolding started_without_finish
append_reconcile-IsSettled clock journal =
    let fresh = reconcile clock 1 (starts_open journal journal) in
    All-append (IsClosed (journal ++ fresh)) journal fresh
      (starts_open-IsClosed journal fresh journal
        (reconcile-IsClosedBy clock 1 (starts_open journal journal)))
      (reconcile_tail clock 1 (journal ++ fresh) (starts_open journal journal))

own_run :
    (slot attempt run u : ℕ) (o : Option BackupResult)
    → (finish_of slot attempt run u o).run_id ≡ run
own_run slot attempt run u none = refl
own_run slot attempt run u (some r) = refl

make_attempt-IsSettled :
    (slot attempt : ℕ) (run : ℕ × Bool) (o : Option BackupResult) (t u : ℕ) (j : List Event)
    → IsSettled j
    → IsSettled (make_attempt slot attempt run o t u j).0
unfolding make_attempt
make_attempt-IsSettled slot attempt (run, false) o t u j h = h
make_attempt-IsSettled slot attempt (run, true) o t u j h =
    let f = finish_of slot attempt run u (checked_result run o) in
    let s : Started = record { slot_id = slot; attempt = attempt; run_id = run; started_at = t } in
    let own : List Event = attempt_started s ∷ attempt_finished f ∷ [] in
    All-append (IsClosed (j ++ own)) j own
      (All-map (IsClosed j) (IsClosed (j ++ own)) j (IsClosed-append j own) h)
      (
        rw (any-append (is_finish_of run) j own, own_run slot attempt run u (checked_result run o))
            (ground arith),
        (tt, tt),
      )

decide-IsSettled :
    (clock : ℕ → ℕ) (n slot : ℕ) (last : Option Finished) (run : ℕ × Bool) (o : Option BackupResult)
    (j : List Event)
    → IsSettled j
    → IsSettled (decide clock n slot last run o j).0
unfolding decide
decide-IsSettled clock n slot none run o j h = make_attempt-IsSettled slot 1 run o _ _ j h
decide-IsSettled clock n slot (some f) run o j h = elim (Bool-cases (is_final f)) [
  | inl e ↦ rw e h
  | inr e ↦ elim (Bool-cases (ltb (clock n) (retry_time f))) [
    | inl e' ↦ rw (e, e') h
    | inr e' ↦ rw (e, e') (make_attempt-IsSettled slot (f.attempt + 1) run o _ _ j h)
  ]
]

settle : (es : List Event) → IsSettled es → started_without_finish es ≡ []
unfolding started_without_finish
settle es h = starts_open-none es es h

run_under_lock-IsSettled :
    (clock : ℕ → ℕ) (run : ℕ × Bool) (outcome : Option BackupResult) (journal : List Event)
    → IsSettled (run_under_lock clock run outcome journal).0
unfolding run_under_lock
run_under_lock-IsSettled clock run outcome journal =
    let open_starts = started_without_finish journal in
    let journal' = journal ++ reconcile clock 1 open_starts in
    let n = length open_starts + 1 in
    elim (Option-cases (latest_due_backup_slot (clock n))) [
      | inl e ↦ rw (e, run_under_lock) (append_reconcile-IsSettled clock journal)
      | inr (slot, e) ↦
          rw (e, run_under_lock)
            (decide-IsSettled clock n slot (last_of (finished_for_slot slot journal')) run outcome
              journal' (append_reconcile-IsSettled clock journal))
    ]

-- A run under the lock leaves no attempt open: every attempt started in the journal it returns,
-- by this run or an earlier one that died, has its finish there.
pub run_under_lock_settled :
    (clock : ℕ → ℕ) (run : ℕ × Bool) (outcome : Option BackupResult) (journal : List Event)
    → started_without_finish (run_under_lock clock run outcome journal).0 ≡ []
run_under_lock_settled clock run outcome journal =
    settle (run_under_lock clock run outcome journal).0
      (run_under_lock-IsSettled clock run outcome journal)
