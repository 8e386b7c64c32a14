-- ===== src/Csv.antt =====
-- The CSV that the inventory is exported to and imported from: `parseCsvRecords` of
-- backend/src/services/streetLightsImport.service.ts and `writeCsvField`, `writeCsvRow` of
-- backend/src/services/streetLightsExport.service.ts. A text is its list of UTF-16 code units.
mod Units
pub mod Fields
pub mod RoundTrip
mod Tests
use mathlib.Core.List.{reverse}
use public_lighting_fault_re.Base.{
  ℕ, zero, suc, ◌+◌, Bool, true, false, not, ◌&&◌, ◌||◌, Option, none, some, List, [], ◌∷◌, ◌++◌,
  ltb, leb, ◌==◌, if◌then◌else◌, any, length,
}
use public_lighting_fault_re.Base.Text.{trim}

abbrev pub Text : Type 0
Text = List ℕ

-- The scanner's variables.
pub data CsvState : Type 0 where
  state :
      (records : List (List Text)) (row : List Text) (cell : Text) (quoted closed_quote : Bool)
      → CsvState

abbrev pub is_empty : {A : Type 0} → List A → Bool
is_empty [] = true
is_empty (x ∷ xs) = false

abbrev pub is_unit : ℕ → Option ℕ → Bool
is_unit c none = false
is_unit c (some d) = d == c

-- A record of one blank cell is dropped.
unfoldable pub is_blank : List Text → Bool
unfolding trim
is_blank (cell ∷ []) = is_empty (trim cell)
is_blank _ = false

abbrev pub finish_cell : CsvState → CsvState
finish_cell (state rs r cell q closed) = state rs (r ++ (cell ∷ [])) [] q false

unfoldable pub finish_row : List (List Text) → List Text → List (List Text)
unfolding is_blank
finish_row rs r = if is_blank r then rs else rs ++ (r ∷ [])

-- `finishRecord`
abbrev pub finish_record : CsvState → CsvState
unfolding finish_row
finish_record (state rs r cell q closed) = state (finish_row rs (r ++ (cell ∷ []))) [] [] q false

abbrev pub is_after_quote : ℕ → Bool
is_after_quote c = c == b',' || c == b'\r' || c == b'\n' || c == b' ' || c == b'\t'

-- One turn of the loop at the unit `c` with the one after it: the state and whether that one is
-- skipped, or the thrown error.
unfoldable pub step : CsvState → ℕ → Option ℕ → Option (CsvState × Bool)
unfolding finish_row
step (state rs r cell true closed) c next =
    if c == b'"' && is_unit b'"' next
    then some (state rs r (cell ++ (b'"' ∷ [])) true closed, true)
    else if c == b'"'
    then some (state rs r cell false true, false)
    else some (state rs r (cell ++ (c ∷ [])) true closed, false)
step (state rs r cell false closed) c next =
    if closed && not (is_after_quote c)
    then none
    else if c == b'"' && is_empty cell
    then some (state rs r cell true closed, false)
    else if c == b','
    then some (finish_cell (state rs r cell false closed), false)
    else if c == b'\r' || c == b'\n'
    then some (finish_record (state rs r cell false closed), c == b'\r' && is_unit b'\n' next)
    else if closed
    then some (state rs r cell false closed, false)
    else some (state rs r (cell ++ (c ∷ [])) false closed, false)

abbrev pub head : Text → Option ℕ
head [] = none
head (c ∷ s) = some c

-- After the loop.
unfoldable pub finish : CsvState → Option (List (List Text))
unfolding finish_row
finish (state rs r cell true closed) = none
finish (state rs r cell false closed) =
    if is_empty cell && is_empty r && not closed
    then some rs
    else some (finish_row rs (r ++ (cell ∷ [])))

unfoldable pub scan : (skip : Bool) → CsvState → Text → Option (List (List Text))
unfolding step finish
scan skip st [] = finish st
scan true st (c ∷ s) = scan false st s
scan false st (c ∷ s) = elim (step st c (head s)) [
  | none ↦ none
  | some (st', skip) ↦ scan skip st' s
]

-- `parseCsvRecords`; `none` is the thrown error.
unfoldable pub parse_csv_records : Text → Option (List (List Text))
unfolding scan
parse_csv_records text = scan false (state [] [] [] false false) text

abbrev pub write_chars : ℕ
write_chars = 8192

abbrev pub take : ℕ → Text → Text
take zero s = []
take (suc n) [] = []
take (suc n) (c ∷ s) = c ∷ take n s

abbrev pub drop : ℕ → Text → Text
drop zero s = s
drop (suc n) [] = []
drop (suc n) (c ∷ s) = drop n s

-- `replace(/"/g, '""')`
unfoldable pub double_quotes : Text → Text
double_quotes [] = []
double_quotes (c ∷ s) =
    let rest = double_quotes s in if c == b'"' then b'"' ∷ b'"' ∷ rest else c ∷ rest

-- The calls of `response.write`, one for each text.
abbrev pub Calls : Type 0
Calls = List Text

-- The loop over chunks of at most `n` units, on fuel: one call for each.
unfoldable pub write_chunks : ℕ → (fuel : ℕ) → Text → Calls
unfolding double_quotes
write_chunks n zero s = []
write_chunks n (suc fuel) [] = []
write_chunks n (suc fuel) (c ∷ s) =
    double_quotes (take n (c ∷ s)) ∷ write_chunks n fuel (drop n (c ∷ s))

abbrev pub is_special : ℕ → Bool
is_special c = c == b',' || c == b'"' || c == b'\r' || c == b'\n'

abbrev pub needs_quotes : Text → Bool
needs_quotes s = any is_special s

-- `writeCsvField` of a value that is not null.
unfoldable pub write_text : Text → Calls
unfolding write_chunks
write_text s =
    if needs_quotes s
    then ((b'"' ∷ []) ∷ []) ++ (write_chunks write_chars (length s) s ++ ((b'"' ∷ []) ∷ []))
    else write_chunks write_chars (length s) s

-- `writeCsvField`
unfoldable pub write_csv_field : Option Text → Calls
unfolding write_text
write_csv_field none = []
write_csv_field (some s) = write_text s

-- The loop of `writeCsvRow` from the index `i` on.
unfoldable pub write_fields : ℕ → List (Option Text) → Calls
unfolding write_csv_field
write_fields i [] = []
write_fields zero (f ∷ fs) = write_csv_field f ++ write_fields 1 fs
write_fields (suc i) (f ∷ fs) = (b',' ∷ []) ∷ (write_csv_field f ++ write_fields (suc (suc i)) fs)

abbrev pub line_end : Text
line_end = b'\r' ∷ b'\n' ∷ []

-- `writeCsvRow`
unfoldable pub write_csv_row : List (Option Text) → Calls
unfolding write_fields
write_csv_row fs = write_fields 0 fs ++ (line_end ∷ [])

-- The rows of an export, one after the other, after its header line.
unfoldable pub write_rows : List (List (Option Text)) → Calls
unfolding write_csv_row
write_rows [] = []
write_rows (r ∷ rs) = write_csv_row r ++ write_rows rs

-- What is received of the calls: `encode` is what the UTF-8 bytes that the platform makes of the
-- text of one call are read back as.
unfoldable pub received : (encode : Text → Text) → Calls → Text
received encode [] = []
received encode (s ∷ ss) = encode s ++ received encode ss
