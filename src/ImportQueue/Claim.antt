-- ===== src/ImportQueue/Claim.antt =====
-- At most one batch is processed at a time.
use public_lighting_fault_re.Base.{
  ℕ, suc, ◌≤◌, ◌≡◌, ◌≢◌, refl, ap, inl, inr, Bool, false, some, List, [], ◌∷◌, arith, ◌==◌, any,
  Bool-cases, Option-cases, All,
}
use public_lighting_fault_re.Base.Tables.{update_rows, delete_rows, count_rows}
use public_lighting_fault_re.Base.Tables.Laws.{Distinct, Distinct-update_rows, Distinct-delete_rows}
use public_lighting_fault_re.ImportQueue.{Batch, Db, is_processing}
use public_lighting_fault_re.ImportQueue.Batches.{
  is_abandoned, is_expired_preview, requeued, started, candidate, claim_batch,
  cleanup_expired_previews,
}

abbrev pub processing_count : List Batch → ℕ
unfolding count_rows
processing_count bs = count_rows (λ b. is_processing b.status) bs

requeued_count :
    (now : ℕ) (bs : List Batch)
    → processing_count (update_rows (is_abandoned now) requeued bs) ≤ processing_count bs
unfolding update_rows count_rows
requeued_count now [] = omega arith
requeued_count now (b ∷ bs) = elim (Bool-cases (is_abandoned now b)) [
  | inl e ↦ rw e (ground (arith, requeued_count now bs))
  | inr e ↦ rw e (ground (arith, requeued_count now bs))
]

deleted_count :
    (p : Batch → Bool) (bs : List Batch) → processing_count (delete_rows p bs) ≤ processing_count bs
unfolding delete_rows count_rows
deleted_count p [] = omega arith
deleted_count p (b ∷ bs) = ground (arith, deleted_count p bs)

started_count :
    (now token k : ℕ) (bs : List Batch)
    → any (λ b. is_processing b.status) bs ≡ false
    → processing_count (update_rows (λ x. x.id == k) (started now token) bs)
      ≡ count_rows (λ x. x.id == k) bs
unfolding update_rows count_rows
started_count now token k [] h = refl
started_count now token k (b ∷ bs) h =
    let idle : is_processing b.status ≡ false = ground arith in
    let others : any (λ b. is_processing b.status) bs ≡ false = ground arith in
    elim (Bool-cases (b.id == k)) [
      | inl e ↦ rw e (ap suc (started_count now token k bs others))
      | inr e ↦ rw (e, idle) (started_count now token k bs others)
    ]

none_with_id :
    (k : ℕ) (bs : List Batch) → All (λ y. y.id ≢ k) bs → count_rows (λ x. x.id == k) bs ≡ 0
unfolding count_rows
none_with_id k [] h = refl
none_with_id k (b ∷ bs) h =
    let other : (b.id == k) ≡ false = ground (arith, h.0) in rw other (none_with_id k bs h.1)

one_with_id :
    (k : ℕ) (bs : List Batch) → Distinct (λ b. b.id) bs → count_rows (λ x. x.id == k) bs ≤ 1
unfolding count_rows
one_with_id k [] d = omega arith
one_with_id k (b ∷ bs) d = elim (Bool-cases (b.id == k)) [
  | inl e ↦
      let same : b.id ≡ k = ground arith in
      rw e (omega (arith, none_with_id k bs (rw (← same) d.0)))
  | inr e ↦ rw e (one_with_id k bs d.1)
]

candidate_idle :
    (bs : List Batch) (b : Batch)
    → candidate bs ≡ some b
    → any (λ x. is_processing x.status) bs ≡ false
unfolding candidate
candidate_idle bs b e = elim (Bool-cases (any (λ x. is_processing x.status) bs)) [
  | inl f ↦ absurd (cc (rw f at e))
  | inr f ↦ f
]

-- Claiming a batch leaves at most one batch in processing, where the ids are distinct and at most
-- one was in processing before.
pub claim_batch_single :
    (now token : ℕ) (db : Db)
    → Distinct (λ b. b.id) db.batches
    → processing_count db.batches ≤ 1
    → processing_count (claim_batch now token db).0.batches ≤ 1
unfolding claim_batch cleanup_expired_previews
claim_batch_single now token db d h =
    let kept = delete_rows (is_expired_preview now) db.batches in
    let bs = update_rows (is_abandoned now) requeued kept in
    let fewer : processing_count bs ≤ 1 =
      omega (arith, requeued_count now kept, deleted_count (is_expired_preview now) db.batches) in
    elim (Option-cases (candidate bs)) [
      | inl e ↦ rw (e, claim_batch) fewer
      | inr (b, e) ↦
          let d' =
            Distinct-update_rows (λ b. b.id) (is_abandoned now) requeued kept (λ x. refl)
              (Distinct-delete_rows (λ b. b.id) (is_expired_preview now) db.batches d) in
          rw (e, claim_batch)
            (omega (
              arith,
              started_count now token b.id bs (candidate_idle bs b e),
              one_with_id b.id bs d',
            ))
    ]
