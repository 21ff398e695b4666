-- ===== src/Hashtable/Modify/Choice.antt =====
-- Proofs about `hashtable_find_best_deleted_record`, and the record that `hashtable_put` fills.
use app_c_platform.Base.{
  ℕ, zero, suc, ◌+◌, ◌≤◌, ◌<◌, ◌≡◌, ◌⊎◌, inl, inr, Bool, true, false, ◌||◌, not, ltb, arith, refl,
  ap, subst, if◌then◌else◌, Bool-cases,
}
use native.Mathlib.Decide.{ℕ_discrete}
use app_c_platform.Hashtable.Config.{rec_in_use, rec_deleted}
use app_c_platform.Hashtable.Table.{Table, has_record_timestamp}
use app_c_platform.Hashtable.Modify.{Best, better, best_of, best_loop, find_best_deleted_record}

module _ (t : Table) (keep : ℕ → Bool) where
  -- A deleted record that may be chosen.
  abbrev pub Eligible : ℕ → Type 0
  Eligible j = (rec_in_use < t.status j) × (keep j ≡ true)

  -- `r` is as old as `j` by status and, where the records have generations, by generation.
  abbrev pub AtLeastAsOld : ℕ → ℕ → Type 0
  AtLeastAsOld r j =
      (t.status j < t.status r)
      ⊎ ((t.status j ≡ t.status r)
          × (has_record_timestamp t ≡ true → t.generation r ≤ t.generation j))

  abbrev pub IsBest : Best → ℕ → Type 0
  IsBest b hi =
      ((b.found ≡ false) × ((j : ℕ) → j < hi → ¬ Eligible j))
      ⊎ ((b.found ≡ true)
          × (b.best_rec < hi)
          × Eligible b.best_rec
          × (b.best_status ≡ t.status b.best_rec)
          × (has_record_timestamp t ≡ true → b.best_generation ≡ t.generation b.best_rec)
          × ((j : ℕ) → j < hi → Eligible j → AtLeastAsOld b.best_rec j))

  abbrev skip : ℕ → Bool
  skip i = ltb (t.status i) rec_deleted || not (keep i)

  skip_iff : (i : ℕ) → ((skip i ≡ true) × (¬ Eligible i)) ⊎ ((skip i ≡ false) × Eligible i)
  skip_iff i = ground arith

  better-true :
      (b : Best) (i : ℕ)
      → b.found ≡ true
      → better t b i ≡ true
      → (b.best_status < t.status i)
        ⊎ ((t.status i ≡ b.best_status)
            × (has_record_timestamp t ≡ true)
            × (t.generation i < b.best_generation))
  unfolding better
  better-true b i f e = ground arith

  better-false :
      (b : Best) (i : ℕ)
      → better t b i ≡ false
      → (b.found ≡ true)
        × ((t.status i < b.best_status)
            ⊎ ((t.status i ≡ b.best_status)
                × (has_record_timestamp t ≡ true → b.best_generation ≤ t.generation i)))
  unfolding better
  better-false b i e = ground arith

  -- One round of the loop.
  abbrev step : Best → ℕ → Best
  step b i = if skip i then b else if better t b i then best_of t b i else b

  taken :
      (b : Best) (i : ℕ)
      → IsBest b i
      → Eligible i
      → better t b i ≡ true
      → IsBest (best_of t b i) (i + 1)
  unfolding best_of
  taken b i (inl (f, none)) el e = inr (
    refl,
    omega arith,
    el,
    refl,
    (λ h. rw h refl),
    λ j l q. elim (ℕ_discrete j i) [
      | yes w ↦ inr (ap t.status w, λ h. omega (arith, ap t.generation w))
      | no w ↦ absurd (none j (omega arith) q)
    ],
  )
  taken b i (inr (f, l, el0, s, g, all)) el e = inr (
    refl,
    omega arith,
    el,
    refl,
    (λ h. rw h refl),
    λ j l' q. elim (ℕ_discrete j i) [
      | yes w ↦ inr (ap t.status w, λ h. omega (arith, ap t.generation w))
      | no w ↦ elim (better-true b i f e) [
        | inl lt ↦ elim (all j (omega arith) q) [
          | inl x ↦ inl (omega arith)
          | inr (x, y) ↦ inl (omega arith)
        ]
        | inr (eq, h, lt) ↦ elim (all j (omega arith) q) [
          | inl x ↦ inl (omega arith)
          | inr (x, y) ↦ inr (omega arith, λ h'. omega (arith, y h, g h))
        ]
      ]
    ],
  )

  passed : (b : Best) (i : ℕ) → IsBest b i → better t b i ≡ false → IsBest b (i + 1)
  passed b i (inl (f, none)) e = absurd (let z = (better-false b i e).0 in cc)
  passed b i (inr (f, l, el0, s, g, all)) e = inr (
    f,
    omega arith,
    el0,
    s,
    g,
    λ j l' q. elim (ℕ_discrete j i) [
      | yes w ↦ elim (better-false b i e).1 [
        | inl lt ↦ inl (omega (arith, ap t.status w))
        | inr (eq, h) ↦
            inr (omega (arith, ap t.status w), λ x. omega (arith, h x, g x, ap t.generation w))
      ]
      | no w ↦ all j (omega arith) q
    ],
  )

  skipped : (b : Best) (i : ℕ) → IsBest b i → ¬ Eligible i → IsBest b (i + 1)
  skipped b i (inl (f, none)) n = inl (
    f,
    λ j l q. elim (ℕ_discrete j i) [
      | yes w ↦ n (subst (λ x. Eligible x) w q)
      | no w ↦ none j (omega arith) q
    ],
  )
  skipped b i (inr (f, l, el0, s, g, all)) n = inr (
    f,
    omega arith,
    el0,
    s,
    g,
    λ j l' q. elim (ℕ_discrete j i) [
      | yes w ↦ absurd (n (subst (λ x. Eligible x) w q))
      | no w ↦ all j (omega arith) q
    ],
  )

  step-IsBest : (b : Best) (i : ℕ) → IsBest b i → IsBest (step b i) (i + 1)
  step-IsBest b i v = elim (skip_iff i) [
    | inl (e, n) ↦ rw e (skipped b i v n)
    | inr (e, el) ↦ elim (Bool-cases (better t b i)) [
      | inl q ↦ rw (e, q) (taken b i v el q)
      | inr q ↦ rw (e, q) (passed b i v q)
    ]
  ]

  best_loop-IsBest : (n i : ℕ) (b : Best) → IsBest b i → IsBest (best_loop t keep n i b) (i + n)
  unfolding best_loop
  best_loop-IsBest zero i b v = subst (λ x. IsBest b x) (omega arith) v
  best_loop-IsBest (suc n) i b v =
      subst (λ x. IsBest (best_loop t keep n (i + 1) (step b i)) x) (omega arith)
        (best_loop-IsBest n (i + 1) (step b i) (step-IsBest b i v))

  -- `hashtable_find_best_deleted_record` answers 0 where no deleted record may be chosen, and
  -- otherwise the number of one that may be chosen and is the oldest: no other has a higher status,
  -- nor the same status and, where the records have generations, an earlier generation.
  pub find_best_deleted_record_lem :
      let r = find_best_deleted_record t keep in
      ((r ≡ 0) × ((j : ℕ) → j < t.config.capacity → ¬ Eligible j))
      ⊎ ((i : ℕ) × (r ≡ suc i)
          × (i < t.config.capacity)
          × Eligible i
          × ((j : ℕ) → j < t.config.capacity → Eligible j → AtLeastAsOld i j))
  unfolding find_best_deleted_record
  find_best_deleted_record_lem =
      let start : Best = record {
        found = false;
        best_rec = 0;
        best_status = 0;
        best_generation = 0;
      } in
      let b = best_loop t keep t.config.capacity 0 start in
      elim (best_loop-IsBest t.config.capacity 0 start (inl (refl, λ j l q. omega arith))) [
        | inl (f, none) ↦ inl (rw f refl, λ j l. none j (omega arith))
        | inr (f, l, el, s, g, all) ↦
            inr (b.best_rec, rw f (omega arith), omega arith, el, λ j l'. all j (omega arith))
      ]
