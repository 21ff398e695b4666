-- ===== src/Hashtable/Arena/Fit/Merge.antt =====
-- Proofs about the loops of `arena_find_fit` at the blocks that touch the record's own block.
use app_c_platform.Base.{
  ℕ, ◌+◌, ◌≤◌, ◌<◌, ◌^◌, ◌≡◌, ◌∙◌, true, false, List, [], ◌∷◌, some, add64, leb, ◌==◌,
  if◌then◌else◌, arith, Bool-cases, lt→ltb, add64-eq, inl, inr, refl,
}
use app_c_platform.Hashtable.Arena.{
  FreeBlock, block, arena_free_block_adjoins, absorb, merge_own, fit_loop,
}
use app_c_platform.Hashtable.Arena.Region.{FreeFrom, FreeFrom-weaken}
use app_c_platform.Hashtable.Arena.Fit.{first_fit}

-- No block of the list touches the range.
abbrev pub Untouched : ℕ → ℕ → List FreeBlock → Type 0
Untouched o n [] = Unit
Untouched o n (b ∷ fl) = (arena_free_block_adjoins b o n ≡ false) × Untouched o n fl

module _ (o n needed : ℕ) where
  pub fit_loop-first_fit :
      (fl : List FreeBlock) (m : FreeBlock)
      → Untouched o n fl
      → fit_loop fl o n needed m false ≡ first_fit fl needed
  unfolding fit_loop first_fit
  fit_loop-first_fit [] m u = refl
  fit_loop-first_fit (b ∷ fl) m u = rw (u.0) (ground (arith, fit_loop-first_fit fl m))

  pub merge_own-Untouched :
      (fl : List FreeBlock) (m : FreeBlock) → Untouched o n fl → merge_own fl o n m ≡ m
  unfolding merge_own absorb
  merge_own-Untouched [] m u = refl
  merge_own-Untouched (b ∷ fl) m u = rw (u.0) (merge_own-Untouched fl m u.1)

-- `merge_own` starts from a block at or below every other block, and keeps its offset.
module _ (size : ℕ) (small : size < 2 ^ 64) (o n needed : ℕ) (pos : 0 < n)
    (fits : o + n ≤ size) where
  pub beyond-Untouched :
      (fl : List FreeBlock) (lo : ℕ) → o + n < lo → FreeFrom size lo fl → Untouched o n fl
  unfolding arena_free_block_adjoins add64
  beyond-Untouched [] lo h f = tt
  beyond-Untouched (b ∷ fl) lo h f =
      (ground arith, beyond-Untouched fl (b.offset + b.length + 1) (omega arith) f.3)

  offset-absorb : (b m : FreeBlock) → m.offset ≤ b.offset → (absorb b o n m).offset ≡ m.offset
  unfolding absorb
  offset-absorb b m h = ground arith

  pub offset-merge_own :
      (fl : List FreeBlock) (lo : ℕ) (m : FreeBlock)
      → FreeFrom size lo fl
      → m.offset ≤ lo
      → (merge_own fl o n m).offset ≡ m.offset
  unfolding merge_own
  offset-merge_own [] lo m f h = refl
  offset-merge_own (b ∷ fl) lo m f h =
      let e = offset-absorb b m (omega arith) in
      offset-merge_own fl (b.offset + b.length + 1) (absorb b o n m) f.3 (omega arith) ∙ e

  pub offset-merge_own-le :
      (fl : List FreeBlock) (lo : ℕ) (m : FreeBlock)
      → FreeFrom size lo fl
      → lo ≤ m.offset
      → lo ≤ (merge_own fl o n m).offset
  unfolding merge_own
  offset-merge_own-le [] lo m f h = h
  offset-merge_own-le (b ∷ fl) lo m f h =
      offset-merge_own-le fl lo (absorb b o n m)
        (FreeFrom-weaken size small (b.offset + b.length + 1) lo fl f.3 (omega arith))
        (unfold absorb in ground arith)

  -- The block `p` ends where the own block ends, and takes in the free block after it.
  unfoldable pub join : FreeBlock → List FreeBlock → List FreeBlock
  join p [] = p ∷ []
  join p (b ∷ fl) =
      if b.offset == o + n then block p.offset (p.length + b.length) ∷ fl else p ∷ b ∷ fl

  -- A block behind the range touches it when it starts at its end, a block before it when it
  -- ends at its start.
  adjoins_behind :
      (b : FreeBlock)
      → o + n ≤ b.offset
      → b.offset + b.length ≤ size
      → arena_free_block_adjoins b o n ≡ (b.offset == o + n)
  unfolding arena_free_block_adjoins add64
  adjoins_behind b h k = ground arith

  pub adjoins_before :
      (b : FreeBlock)
      → b.offset + b.length ≤ o
      → arena_free_block_adjoins b o n ≡ (b.offset + b.length == o)
  unfolding arena_free_block_adjoins add64
  adjoins_before b h = ground arith

  absorb_touching :
      (b p : FreeBlock)
      → p.offset + p.length ≡ o + n
      → o + n ≤ b.offset
      → b.offset + b.length ≤ size
      → (b.offset == o + n) ≡ true
      → absorb b o n p ≡ block p.offset (p.length + b.length)
  unfolding absorb
  absorb_touching b p e h k t =
      rw (adjoins_behind b h k, t, add64-eq p.length b.length (ground arith)) (ground arith)

  absorb_apart :
      (b p : FreeBlock)
      → o + n ≤ b.offset
      → b.offset + b.length ≤ size
      → (b.offset == o + n) ≡ false
      → absorb b o n p ≡ p
  unfolding absorb
  absorb_apart b p h k t = rw (adjoins_behind b h k, t)

  merge_own_touching :
      (b p : FreeBlock) (fl : List FreeBlock)
      → p.offset + p.length ≡ o + n
      → FreeFrom size (o + n) (b ∷ fl)
      → (b.offset == o + n) ≡ true
      → merge_own (b ∷ fl) o n p ≡ block p.offset (p.length + b.length)
  unfolding merge_own
  merge_own_touching b p fl e f t =
      let u = beyond-Untouched fl (b.offset + b.length + 1) (omega arith) f.3 in
      merge_own-Untouched o n needed fl (absorb b o n p) u ∙ absorb_touching b p e f.0 f.2 t

  merge_own_apart :
      (b p : FreeBlock) (fl : List FreeBlock)
      → FreeFrom size (o + n) (b ∷ fl)
      → (b.offset == o + n) ≡ false
      → merge_own (b ∷ fl) o n p ≡ p
  unfolding merge_own
  merge_own_apart b p fl f t =
      let u = beyond-Untouched fl (b.offset + b.length + 1) (omega arith) f.3 in
      merge_own-Untouched o n needed fl (absorb b o n p) u ∙ absorb_apart b p f.0 f.2 t

  -- One round of the second loop once the merged block is passed.
  fit_loop_touching :
      (b m : FreeBlock) (fl : List FreeBlock)
      → arena_free_block_adjoins b o n ≡ true
      → m.offset < b.offset
      → fit_loop (b ∷ fl) o n needed m true
        ≡ (if leb needed m.length then some m.offset else fit_loop fl o n needed m false)
  unfolding fit_loop
  fit_loop_touching b m fl a h = rw (a, lt→ltb m.offset b.offset h)

  fit_loop_apart :
      (b m : FreeBlock) (fl : List FreeBlock)
      → arena_free_block_adjoins b o n ≡ false
      → m.offset < b.offset
      → fit_loop (b ∷ fl) o n needed m true ≡ (
          if leb needed m.length
          then some m.offset
          else if leb needed b.length
          then some b.offset
          else fit_loop fl o n needed m false)
  unfolding fit_loop
  fit_loop_apart b m fl a h = rw (a, lt→ltb m.offset b.offset h)

  pub fit_loop-join :
      (fl : List FreeBlock) (p : FreeBlock)
      → p.offset + p.length ≡ o + n
      → p.offset ≤ o
      → FreeFrom size (o + n) fl
      → fit_loop fl o n needed (merge_own fl o n p) true ≡ first_fit (join p fl) needed
  unfolding first_fit join
  fit_loop-join [] p e low f = unfold merge_own fit_loop in refl
  fit_loop-join (b ∷ fl) p e low f =
      let u = beyond-Untouched fl (b.offset + b.length + 1) (omega arith) f.3 in
      let grown = block p.offset (p.length + b.length) in
      elim (Bool-cases (b.offset == o + n)) [
        | inl t ↦ rw (
          merge_own_touching b p fl e f t,
          fit_loop_touching b grown fl (adjoins_behind b f.0 f.2 ∙ t) (omega arith),
          fit_loop-first_fit o n needed fl grown u,
          t,
        )
        | inr t ↦ rw (
          merge_own_apart b p fl f t,
          fit_loop_apart b p fl (adjoins_behind b f.0 f.2 ∙ t) (omega arith),
          fit_loop-first_fit o n needed fl p u,
          t,
        )
      ]
