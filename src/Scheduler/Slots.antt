-- ===== src/Scheduler/Slots.antt =====
-- The slot that a time falls into.
use public_lighting_fault_re.Base.{
  ℕ, ◌+◌, ◌*◌, ◌/◌, ◌%◌, ◌≤◌, ◌<◌, ◌≡◌, refl, inl, inr, ◌⊎◌, true, false, none, some, List, [], ◌∷◌,
  ap, ◌∙◌, arith, leb, Bool-cases,
}
use public_lighting_fault_re.Scheduler.{
  hour_ms, day_ms, latest_due_backup_slot, find_hour, hours_reversed,
}

slot_bounds :
    (now h : ℕ)
    → (h ≡ 0) ⊎ ((h ≡ 6) ⊎ ((h ≡ 12) ⊎ (h ≡ 18)))
    → h ≤ now / hour_ms % 24
    → now / hour_ms % 24 < h + 6
    → let slot = now / day_ms * day_ms + h * hour_ms in
      (slot ≤ now) × (now < slot + 6 * hour_ms) × (slot % (6 * hour_ms) ≡ 0)
slot_bounds now h k lo hi = (omega arith, omega arith, omega arith)

leb-zero : (t : ℕ) → leb 0 t ≡ true
leb-zero t = ground arith

find_hour_take : (t c : ℕ) (cs : List ℕ) → leb c t ≡ true → find_hour t (c ∷ cs) ≡ some c
find_hour_take t c cs e = rw e refl

find_hour_skip : (t c : ℕ) (cs : List ℕ) → leb c t ≡ false → find_hour t (c ∷ cs) ≡ find_hour t cs
find_hour_skip t c cs e = rw e refl

slot_of_hour :
    (now h : ℕ)
    → find_hour (now / hour_ms % 24) hours_reversed ≡ some h
    → latest_due_backup_slot now ≡ some (now / day_ms * day_ms + h * hour_ms)
unfolding latest_due_backup_slot
slot_of_hour now h e =
    ap (λ o. elim o [ none ↦ none | some h ↦ some (now / day_ms * day_ms + h * hour_ms) ]) e

hour_cases :
    (now h : ℕ)
    → (h ≡ 0) ⊎ ((h ≡ 6) ⊎ ((h ≡ 12) ⊎ (h ≡ 18)))
    → h ≤ now / hour_ms % 24
    → now / hour_ms % 24 < h + 6
    → latest_due_backup_slot now ≡ some (now / day_ms * day_ms + h * hour_ms)
    → (slot : ℕ) × (latest_due_backup_slot now ≡ some slot)
      × (slot ≤ now)
      × (now < slot + 6 * hour_ms)
      × (slot % (6 * hour_ms) ≡ 0)
hour_cases now h k lo hi e =
    let (le, lt, mark) = slot_bounds now h k lo hi in
    (now / day_ms * day_ms + h * hour_ms, e, le, lt, mark)

-- Every time has a slot: the last of the six-hour marks at or before it, with the time less than
-- six hours later.
pub latest_due_backup_slot_bounds :
    (now : ℕ)
    → (slot : ℕ) × (latest_due_backup_slot now ≡ some slot)
      × (slot ≤ now)
      × (now < slot + 6 * hour_ms)
      × (slot % (6 * hour_ms) ≡ 0)
latest_due_backup_slot_bounds now =
    let t = now / hour_ms % 24 in
    elim (Bool-cases (leb 18 t)) [
      | inl a ↦
          hour_cases now 18 (inr (inr (inr refl))) (ground arith) (omega arith)
            (slot_of_hour now 18 (find_hour_take t 18 (12 ∷ 6 ∷ 0 ∷ []) a))
      | inr a ↦ elim (Bool-cases (leb 12 t)) [
        | inl b ↦ hour_cases now 12 (inr (inr (inl refl))) (ground arith) (ground arith) (
            slot_of_hour now 12
              (find_hour_skip t 18 (12 ∷ 6 ∷ 0 ∷ []) a ∙ find_hour_take t 12 (6 ∷ 0 ∷ []) b))
        | inr b ↦ elim (Bool-cases (leb 6 t)) [
          | inl c ↦ hour_cases now 6 (inr (inl refl)) (ground arith) (ground arith) (
              slot_of_hour now 6 (
                find_hour_skip t 18 (12 ∷ 6 ∷ 0 ∷ []) a
                ∙ find_hour_skip t 12 (6 ∷ 0 ∷ []) b
                ∙ find_hour_take t 6 (0 ∷ []) c))
          | inr c ↦ hour_cases now 0 (inl refl) (omega arith) (ground arith) (
              slot_of_hour now 0 (
                find_hour_skip t 18 (12 ∷ 6 ∷ 0 ∷ []) a
                ∙ find_hour_skip t 12 (6 ∷ 0 ∷ []) b
                ∙ find_hour_skip t 6 (0 ∷ []) c
                ∙ find_hour_take t 0 [] (leb-zero t)))
        ]
      ]
    ]
