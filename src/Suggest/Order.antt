-- ===== src/Suggest/Order.antt =====
-- What keeps the queue sound and the entries under way busy, change by change.
use public_lighting_fault_re.Base.{
  ℕ, suc, ◌≤◌, ◌≡◌, ◌≢◌, refl, ◌∙◌, inl, inr, some, List, [], ◌∷◌, ◌++◌, All, arith, length,
  Bool-cases, Option-cases, ◌==◌,
}
use public_lighting_fault_re.Base.Tables.{find_row, update_rows}
use public_lighting_fault_re.Base.Cells.{
  get_elem?, modify, get_elem?-modify_same, get_elem?-append, get_elem?-last, get_elem?-lt,
  get_elem?-modify_absent,
}
use public_lighting_fault_re.Suggest.{queued, Outcome, Failure, Entry, Desk, State, Work}
use public_lighting_fault_re.Suggest.Admission.{settle, phase_of, unqueue}
use public_lighting_fault_re.Suggest.Events.{
  is_work, joined, answered, subscribe, without_work, expire_work,
}
use public_lighting_fault_re.Suggest.Queue.{
  AgreesOff, IsQueue, IsSound, phase_of-modify, phase_of-settle, IsQueue-unqueue, IsQueue-agree,
}
use public_lighting_fault_re.Suggest.Busy.{
  IsBusy, IsAfter, AllBusy, phase_of-busy, modify-IsAfter, settle-IsAfter, All-after,
}

abbrev pub IsOrderly : State → Type 0
IsOrderly s = IsSound s × AllBusy s

-- The phases of all entries are the same.
abbrev pub Agrees : Desk → Desk → Type 0
Agrees d d' = (i : ℕ) → phase_of i d' ≡ phase_of i d

pub IsQueue-same :
    (lo : ℕ) (d d' : Desk) (q : List ℕ) → Agrees d d' → IsQueue d lo q → IsQueue d' lo q
IsQueue-same lo d d' [] h k = tt
IsQueue-same lo d d' (i ∷ q) h k = (k.0, h i ∙ k.1, IsQueue-same (suc i) d d' q h k.2)

pub modify-Agrees :
    (f : Entry → Entry) (j : ℕ) (d : Desk)
    → ((e : Entry) → (f e).phase ≡ e.phase)
    → Agrees d (record d { entries = modify f j d.entries })
unfolding phase_of
modify-Agrees f j d k i = elim (Bool-cases (i == j)) [
  | inl t ↦
      let same : i ≡ j = ground arith in
      elim (Option-cases (get_elem? d.entries j)) [
        | inl e ↦ rw (same, phase_of, get_elem?-modify_absent f j d.entries e, e) refl
        | inr (x, e) ↦ rw (same, phase_of, get_elem?-modify_same f j d.entries e, e) (k x)
      ]
  | inr t ↦ let other : i ≢ j = ground arith in phase_of-modify f j d i other
]

-- The new entry stands behind the queue.
pub IsQueue-append :
    (lo : ℕ) (d : Desk) (q : List ℕ) (e : Entry)
    → e.phase ≡ queued
    → lo ≤ length d.entries
    → IsQueue d lo q
    → IsQueue (record d { entries = d.entries ++ (e ∷ []) }) lo (q ++ (length d.entries ∷ []))
unfolding phase_of
IsQueue-append lo d [] e p l k = (l, rw (get_elem?-last d.entries e, phase_of) p, tt)
IsQueue-append lo d (i ∷ q) e p l k = elim (Option-cases (get_elem? d.entries i)) [
  | inl f ↦ absurd (cc (rw (f, phase_of) at k.1))
  | inr (x, f) ↦
      let below = get_elem?-lt i d.entries f in
      (
        k.0,
        rw (get_elem?-append i d.entries (e ∷ []) below, phase_of) k.1,
        IsQueue-append (suc i) d q e p below k.2,
      )
]

pub append-IsAfter :
    (d : Desk) (e : Entry) → IsAfter d (record d { entries = d.entries ++ (e ∷ []) })
append-IsAfter d e i (x, g, h) =
    (x, get_elem?-append i d.entries (e ∷ []) (get_elem?-lt i d.entries g) ∙ g, h)

pub All-without_work :
    (i : ℕ) (P : Work → Type 0) (xs : List Work) → All P xs → All P (without_work i xs)
unfolding without_work
All-without_work i P [] h = tt
All-without_work i P (x ∷ xs) h = elim (Bool-cases (x.entry == i)) [
  | inl e ↦ rw e h.1
  | inr e ↦ rw e (h.0, All-without_work i P xs h.1)
]

-- The new desk has the same phases, or only the entry `i` leaves the queue.
pub same_order :
    (s : State) (d : Desk)
    → Agrees s.desk d
    → IsAfter s.desk d
    → IsOrderly s
    → IsOrderly (record s { desk = d })
same_order s d f g h = (IsQueue-same 0 s.desk d s.queue f h.0, All-after s.desk d s.executing g h.1)

pub unqueue_order :
    (i : ℕ) (s : State) (d : Desk)
    → AgreesOff i s.desk d
    → IsAfter s.desk d
    → IsOrderly s
    → IsOrderly (record s { desk = d; queue = unqueue i s.queue })
unqueue_order i s d f g h =
    (IsQueue-unqueue i 0 s.desk d s.queue f h.0, All-after s.desk d s.executing g h.1)

pub settled_order :
    (i : ℕ) (s : State) (d : Desk)
    → AgreesOff i s.desk d
    → IsAfter s.desk d
    → phase_of i s.desk ≢ queued
    → IsOrderly s
    → IsOrderly (record s { desk = d })
settled_order i s d f g n h =
    (IsQueue-agree i 0 s.desk d s.queue f n h.0, All-after s.desk d s.executing g h.1)

pub answered-IsOrderly :
    (x : ℕ) (f : Failure) (s : State)
    → IsOrderly s
    → IsOrderly (record s { desk = answered x f s.desk })
unfolding phase_of
answered-IsOrderly x f s h = same_order s (answered x f s.desk) (λ i. refl) (λ i b. b) h

pub join-IsOrderly :
    (i x : ℕ) (s : State) → IsOrderly s → IsOrderly (record s { desk = subscribe i x s.desk })
unfolding subscribe
join-IsOrderly i x s h =
    same_order s (subscribe i x s.desk) (modify-Agrees (joined x) i s.desk (λ e. refl))
      (modify-IsAfter (joined x) i s.desk (λ e k. k)) h

pub settle-IsOrderly :
    (i : ℕ) (o : Outcome) (s : State)
    → IsBusy s.desk i
    → IsOrderly s
    → IsOrderly (record s { desk = settle i o s.desk })
settle-IsOrderly i o s b h =
    settled_order i s (settle i o s.desk) (phase_of-settle i o s.desk) (settle-IsAfter i o s.desk)
      (phase_of-busy i s.desk b) h

-- The entry of a call that is under way is busy.
pub found-IsBusy :
    (i : ℕ) (d : Desk) (xs : List Work) {x : Work}
    → find_row (is_work i) xs ≡ some x
    → All (λ y. IsBusy d y.entry) xs
    → IsBusy d i
unfolding find_row
found-IsBusy i d [] e h = absurd (cc)
found-IsBusy i d (y ∷ xs) e h = elim (Bool-cases (is_work i y)) [
  | inl t ↦ let same : y.entry ≡ i = ground arith in rw same at h.0
  | inr t ↦ found-IsBusy i d xs (rw t at e) h.1
]

pub All-expire_work :
    (i : ℕ) (P : ℕ → Type 0) (xs : List Work)
    → All (λ y. P y.entry) xs
    → All (λ y. P y.entry) (update_rows (is_work i) (expire_work i) xs)
unfolding update_rows
All-expire_work i P [] h = tt
All-expire_work i P (y ∷ xs) h = elim (Bool-cases (is_work i y)) [
  | inl t ↦ rw t (h.0, All-expire_work i P xs h.1)
  | inr t ↦ rw t (h.0, All-expire_work i P xs h.1)
]
