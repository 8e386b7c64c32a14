-- ===== src/Csv/Fields.antt =====
-- What the scanner makes of one written field.
use mathlib.Core.List.{append_assoc, append-nil}
use public_lighting_fault_re.Base.{
  ℕ, zero, suc, ◌≤◌, ◌≡◌, refl, ap, sym, ◌∙◌, inl, inr, ◌⊎◌, Bool, true, false, Option, some, List,
  [], ◌∷◌, ◌++◌, arith, ◌==◌, length, Bool-cases,
}
use public_lighting_fault_re.Csv.{
  Text, CsvState, state, step, scan, head, is_special, needs_quotes, double_quotes, take, drop,
}
use public_lighting_fault_re.Csv.Units.{plain_chunks, plain_text}

double_quotes-append : (s t : Text) → double_quotes (s ++ t) ≡ double_quotes s ++ double_quotes t
unfolding double_quotes
double_quotes-append [] t = refl
double_quotes-append (c ∷ s) t = elim (Bool-cases (c == b'"')) [
  | inl e ↦ rw (e, double_quotes-append s t) refl
  | inr e ↦ rw (e, double_quotes-append s t) refl
]

take-append-drop : (n : ℕ) (s : Text) → take n s ++ drop n s ≡ s
take-append-drop zero s = refl
take-append-drop (suc n) [] = refl
take-append-drop (suc n) (c ∷ s) = ap (λ t. c ∷ t) (take-append-drop n s)

length-drop_le : (n : ℕ) (s : Text) → length (drop n s) ≤ length s
length-drop_le zero s = omega arith
length-drop_le (suc n) [] = omega arith
length-drop_le (suc n) (c ∷ s) = omega (arith, length-drop_le n s)

-- The chunks are the whole text's, where there is fuel for each unit.
plain_chunks_lem :
    (n fuel : ℕ) (s : Text) → length s ≤ fuel → plain_chunks (suc n) fuel s ≡ double_quotes s
unfolding plain_chunks
plain_chunks_lem n zero [] h = refl
plain_chunks_lem n zero (c ∷ s) h = absurd (omega arith)
plain_chunks_lem n (suc fuel) [] h = refl
plain_chunks_lem n (suc fuel) (c ∷ s) h =
    ap (λ t. double_quotes (c ∷ take n s) ++ t)
      (plain_chunks_lem n fuel (drop n s) (omega (arith, length-drop_le n s)))
    ∙ sym (double_quotes-append (c ∷ take n s) (drop n s))
    ∙ ap (λ t. double_quotes (c ∷ t)) (take-append-drop n s)

pub scan-step :
    (st st' : CsvState) (skip : Bool) (c : ℕ) (s : Text)
    → step st c (head s) ≡ some (st', skip)
    → scan false st (c ∷ s) ≡ scan skip st' s
unfolding scan
scan-step st st' skip c s e = rw (e, scan) refl

-- Neither delimiter is a quotation mark.
abbrev pub IsDelimiter : ℕ → Type 0
IsDelimiter d = (d ≡ b',') ⊎ (d ≡ b'\r')

step_quote_end :
    (rs : List (List Text)) (r : List Text) (cell : Text) (d : ℕ)
    → IsDelimiter d
    → step (state rs r cell true false) b'"' (some d) ≡ some (state rs r cell false true, false)
unfolding step
step_quote_end rs r cell d (inl e) = rw e refl
step_quote_end rs r cell d (inr e) = rw e refl

step_doubled :
    (rs : List (List Text)) (r : List Text) (cell : Text)
    → step (state rs r cell true false) b'"' (some b'"')
      ≡ some (state rs r (cell ++ (b'"' ∷ [])) true false, true)
unfolding step
step_doubled rs r cell = refl

step_inside :
    (rs : List (List Text)) (r : List Text) (cell : Text) (c : ℕ) (next : Option ℕ)
    → (c == b'"') ≡ false
    → step (state rs r cell true false) c next
      ≡ some (state rs r (cell ++ (c ∷ [])) true false, false)
unfolding step
step_inside rs r cell c next e = rw e refl

step_open :
    (rs : List (List Text)) (r : List Text) (next : Option ℕ)
    → step (state rs r [] false false) b'"' next ≡ some (state rs r [] true false, false)
unfolding step
step_open rs r next = refl

step_bare :
    (rs : List (List Text)) (r : List Text) (cell : Text) (c : ℕ) (next : Option ℕ)
    → is_special c ≡ false
    → step (state rs r cell false false) c next
      ≡ some (state rs r (cell ++ (c ∷ [])) false false, false)
unfolding step
step_bare rs r cell c next e =
    let e₁ : (c == b'"') ≡ false = ground arith in
    let e₂ : (c == b',') ≡ false = ground arith in
    let e₃ : (c == b'\r') ≡ false = ground arith in
    let e₄ : (c == b'\n') ≡ false = ground arith in rw (e₁, e₂, e₃, e₄) refl

pub scan_skip : (st : CsvState) (c : ℕ) (s : Text) → scan true st (c ∷ s) ≡ scan false st s
unfolding scan
scan_skip st c s = refl

double_quotes-cons :
    (c : ℕ) (s : Text) → (c == b'"') ≡ false → double_quotes (c ∷ s) ≡ c ∷ double_quotes s
unfolding double_quotes
double_quotes-cons c s e = rw e refl

plain_text-quoted :
    (s : Text) → needs_quotes s ≡ true → plain_text s ≡ b'"' ∷ (double_quotes s ++ (b'"' ∷ []))
unfolding plain_text
plain_text-quoted s e = rw (e, plain_chunks_lem 8191 (length s) s (omega arith)) refl

plain_text-bare : (s : Text) → needs_quotes s ≡ false → plain_text s ≡ double_quotes s
unfolding plain_text
plain_text-bare s e = rw e (plain_chunks_lem 8191 (length s) s (omega arith))

module _ (rs : List (List Text)) (r : List Text) where
  quoted_body :
      (d : ℕ) (rest : Text)
      → IsDelimiter d
      → (s cell : Text)
      → scan false (state rs r cell true false) (double_quotes s ++ (b'"' ∷ d ∷ rest))
        ≡ scan false (state rs r (cell ++ s) false true) (d ∷ rest)
  unfolding double_quotes
  quoted_body d rest h [] cell = rw (append-nil cell) (
      scan-step (state rs r cell true false) (state rs r cell false true) false b'"' (d ∷ rest)
        (step_quote_end rs r cell d h))
  quoted_body d rest h (c ∷ s) cell =
      let after = double_quotes s ++ (b'"' ∷ d ∷ rest) in
      elim (Bool-cases (c == b'"')) [
        | inl e ↦
            let same : c ≡ b'"' = ground arith in
            rw same (
              scan-step (state rs r cell true false) (state rs r (cell ++ (b'"' ∷ [])) true false)
                true b'"' (b'"' ∷ after) (step_doubled rs r cell)
              ∙ scan_skip (state rs r (cell ++ (b'"' ∷ [])) true false) b'"' after
              ∙ quoted_body d rest h s (cell ++ (b'"' ∷ []))
              ∙ ap (λ t. scan false (state rs r t false true) (d ∷ rest))
                  (append_assoc cell (b'"' ∷ []) s))
        | inr e ↦
            ap (λ t. scan false (state rs r cell true false) (t ++ (b'"' ∷ d ∷ rest)))
              (double_quotes-cons c s e)
            ∙ scan-step (state rs r cell true false) (state rs r (cell ++ (c ∷ [])) true false)
                false c after (step_inside rs r cell c (head after) e)
            ∙ quoted_body d rest h s (cell ++ (c ∷ []))
            ∙ ap (λ t. scan false (state rs r t false true) (d ∷ rest))
                (append_assoc cell (c ∷ []) s)
      ]

  bare_body :
      (rest s cell : Text)
      → needs_quotes s ≡ false
      → scan false (state rs r cell false false) (double_quotes s ++ rest)
        ≡ scan false (state rs r (cell ++ s) false false) rest
  unfolding double_quotes
  bare_body rest [] cell h =
      ap (λ t. scan false (state rs r t false false) rest) (sym (append-nil cell))
  bare_body rest (c ∷ s) cell h =
      let plain : is_special c ≡ false = ground arith in
      let others : needs_quotes s ≡ false = ground arith in
      let e : (c == b'"') ≡ false = ground arith in
      ap (λ t. scan false (state rs r cell false false) (t ++ rest)) (double_quotes-cons c s e)
      ∙ scan-step (state rs r cell false false) (state rs r (cell ++ (c ∷ [])) false false) false c
          (double_quotes s ++ rest) (step_bare rs r cell c (head (double_quotes s ++ rest)) plain)
      ∙ bare_body rest s (cell ++ (c ∷ [])) others
      ∙ ap (λ t. scan false (state rs r t false false) rest) (append_assoc cell (c ∷ []) s)

  -- A written value is read back whole up to the delimiter after it.
  pub scan-plain_text :
      (d : ℕ) (rest : Text)
      → IsDelimiter d
      → (s : Text)
      → scan false (state rs r [] false false) (plain_text s ++ (d ∷ rest))
        ≡ scan false (state rs r s false (needs_quotes s)) (d ∷ rest)
  scan-plain_text d rest h s = elim (Bool-cases (needs_quotes s)) [
    | inl e ↦
        ap (λ t. scan false (state rs r [] false false) (t ++ (d ∷ rest))) (plain_text-quoted s e)
        ∙ ap (λ t. scan false (state rs r [] false false) (b'"' ∷ t))
            (append_assoc (double_quotes s) (b'"' ∷ []) (d ∷ rest))
        ∙ scan-step (state rs r [] false false) (state rs r [] true false) false b'"'
            (double_quotes s ++ (b'"' ∷ d ∷ rest))
            (step_open rs r (head (double_quotes s ++ (b'"' ∷ d ∷ rest))))
        ∙ quoted_body d rest h s []
        ∙ ap (λ q. scan false (state rs r s false q) (d ∷ rest)) (sym e)
    | inr e ↦
        ap (λ t. scan false (state rs r [] false false) (t ++ (d ∷ rest))) (plain_text-bare s e)
        ∙ bare_body (d ∷ rest) s [] e
        ∙ ap (λ q. scan false (state rs r s false q) (d ∷ rest)) (sym e)
  ]
