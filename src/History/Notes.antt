-- ===== src/History/Notes.antt =====
-- The summary of earlier reports on a light point, and the note for the operator.
use public_lighting_fault_re.Base.{
  ℕ, ◌+◌, ◌*◌, max, Bool, false, Option, none, some, List, [], ◌∷◌, ltb, leb, ◌==◌, if◌then◌else◌,
  ◌&&◌,
}
use public_lighting_fault_re.Base.Tables.{count_rows}
use public_lighting_fault_re.History.{
  Target, at_light_point, Note, recurring, recent, previous, Report,
}

-- Milliseconds.
abbrev pub hours : ℕ → ℕ
hours n = n * 3_600_000

pub record PreviousFaults : Type 0 where
  pub recent_count : ℕ
  pub recurring_count : ℕ
  pub latest_previous_at : Option ℕ

abbrev pub is_at : ℕ → Target → Bool
is_at n (at_light_point k latitude longitude) = k == n
is_at n _ = false

-- The reports on the light point in the hours before `now`.
abbrev pub is_within : ℕ → ℕ → ℕ → Report → Bool
is_within n now h r =
    is_at n r.target && leb now (r.submitted_at + hours h) && ltb r.submitted_at now

abbrev later_of : ℕ → Option ℕ → Option ℕ
later_of t none = some t
later_of t (some u) = some (max t u)

unfoldable pub latest : (Report → Bool) → List Report → Option ℕ
latest p [] = none
latest p (r ∷ rs) = let rest = latest p rs in if p r then later_of r.submitted_at rest else rest

-- `FAULT_HISTORY_SUMMARY_SQL`
unfoldable pub previous_faults : ℕ → ℕ → List Report → PreviousFaults
unfolding latest count_rows
previous_faults n now rs = record {
  recent_count = count_rows (is_within n now 72) rs;
  recurring_count = count_rows (is_within n now 720) rs;
  latest_previous_at = latest (is_within n now 720) rs;
}

abbrev note_latest : ℕ → ℕ → Option ℕ → List Note
note_latest n now none = []
note_latest n now (some t) = if leb now (t + hours 168) then previous n t ∷ [] else []

-- `buildAutomaticFaultNotes` on a light point.
unfoldable pub note_point : ℕ → ℕ → PreviousFaults → List Note
note_point n now s =
    if leb 5 s.recurring_count
    then recurring n s.recurring_count (if leb 2 s.recent_count then some s.recent_count else none)
      ∷ []
    else if leb 2 s.recent_count
    then recent n s.recent_count ∷ []
    else note_latest n now s.latest_previous_at

unfoldable pub automatic_notes : Target → ℕ → List Report → List Note
unfolding previous_faults note_point
automatic_notes (at_light_point n latitude longitude) now rs =
    note_point n now (previous_faults n now rs)
automatic_notes _ now rs = []
