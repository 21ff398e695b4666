-- ===== src/Hashtable/Arena/Fit/Equivalence.antt =====
-- Proofs about the second loop of `arena_find_fit` through the whole list.
use native.Mathlib.Decide.{dec_lt}
use app_c_platform.Base.{
  ℕ, ◌+◌, suc, zero, ◌≤◌, ◌<◌, ◌^◌, ◌≡◌, ◌∙◌, true, false, List, [], ◌∷◌, some, add64, leb,
  if◌then◌else◌, arith, lt→ltb, le→ltb, ne→==, ==_iff, sym, add64-eq, refl,
}
use app_c_platform.Hashtable.Arena.{
  FreeBlock, block, arena_give, arena_free_block_adjoins, absorb, merge_own, fit_loop,
  arena_find_fit, give_first, give_between, give_after, give_loop,
}
use app_c_platform.Hashtable.Arena.Region.{FreeFrom, IsFreeList, Apart}
use app_c_platform.Hashtable.Arena.Fit.{first_fit}
use app_c_platform.Hashtable.Arena.Fit.Merge

module _ (size : ℕ) (small : size < 2 ^ 64) (o n needed : ℕ) (pos : 0 < n)
    (fits : o + n ≤ size) where
  -- The free block after the range starts at its end or behind it.
  FreeFrom-behind :
      (fl : List FreeBlock) → FreeFrom size (o + 1) fl → Apart o n fl → FreeFrom size (o + n) fl
  FreeFrom-behind [] f a = tt
  FreeFrom-behind (b ∷ fl) f a = (omega arith, f.1, f.2, f.3)

  first_fit-give_first :
      (fl : List FreeBlock)
      → FreeFrom size (o + n) fl
      → first_fit (give_first o n fl) needed
        ≡ first_fit (Merge.join size small o n needed pos fits (block o n) fl) needed
  unfolding first_fit give_first Merge.join add64
  first_fit-give_first [] f = refl
  first_fit-give_first (b ∷ fl) f = ground arith

  -- The range joins the block `b` before it.
  first_fit-give_between :
      (b : FreeBlock) (fl : List FreeBlock)
      → b.offset + b.length ≡ o
      → FreeFrom size (o + n) fl
      → first_fit (give_after b fl o n) needed
        ≡ first_fit
            (Merge.join size small o n needed pos fits (block b.offset (n + b.length)) fl)
            needed
  unfolding first_fit give_after give_between Merge.join add64
  first_fit-give_between b [] e f = ground arith
  first_fit-give_between b (c ∷ fl) e f = ground arith

  give_after-apart :
      (b : FreeBlock) (fl : List FreeBlock)
      → b.offset + b.length < o
      → give_after b fl o n ≡ b ∷ give_loop fl o n
  unfolding give_after give_loop give_between add64
  give_after-apart b [] h = ground arith
  give_after-apart b (c ∷ fl) h = ground arith

  give_loop_behind :
      (b : FreeBlock) (fl : List FreeBlock)
      → o ≤ b.offset
      → give_loop (b ∷ fl) o n ≡ give_first o n (b ∷ fl)
  unfolding give_loop
  give_loop_behind b fl h = ground arith

  give_loop_before :
      (b : FreeBlock) (fl : List FreeBlock)
      → b.offset < o
      → give_loop (b ∷ fl) o n ≡ give_after b fl o n
  unfolding give_loop
  give_loop_before b fl h = ground arith

  -- One round of the second loop before the merged block.
  fit_loop_before :
      (b m : FreeBlock) (fl : List FreeBlock)
      → b.offset ≤ m.offset
      → fit_loop (b ∷ fl) o n needed m true ≡ (
          if arena_free_block_adjoins b o n
          then fit_loop fl o n needed m true
          else if leb needed b.length
          then some b.offset
          else fit_loop fl o n needed m true)
  unfolding fit_loop
  fit_loop_before b m fl h = rw (le→ltb m.offset b.offset h)

  merge_own_before :
      (b : FreeBlock) (fl : List FreeBlock)
      → b.offset + b.length < o
      → merge_own (b ∷ fl) o n (block o n) ≡ merge_own fl o n (block o n)
  unfolding merge_own absorb
  merge_own_before b fl h = rw (
    Merge.adjoins_before size small o n needed pos fits b (omega arith),
    ne→== (b.offset + b.length) o (omega arith),
  )

  merge_own_joined :
      (b : FreeBlock) (fl : List FreeBlock)
      → b.offset + b.length ≡ o
      → 0 < b.length
      → merge_own (b ∷ fl) o n (block o n) ≡ merge_own fl o n (block b.offset (n + b.length))
  unfolding merge_own absorb
  merge_own_joined b fl e h = rw (
    Merge.adjoins_before size small o n needed pos fits b (omega arith),
    (==_iff (b.offset + b.length) o).1 e,
    lt→ltb b.offset o (omega arith),
    add64-eq n b.length (omega arith),
  )

  -- The two loops on the list as it is find what first fit finds on the list with the own block.
  fit_loop-give :
      (fl : List FreeBlock) (lo : ℕ)
      → FreeFrom size lo fl
      → Apart o n fl
      → fit_loop fl o n needed (merge_own fl o n (block o n)) true
        ≡ first_fit (give_loop fl o n) needed
  fit_loop-give [] lo f a = unfold fit_loop merge_own first_fit give_loop give_first in refl
  fit_loop-give (b ∷ fl) lo f a = elim (dec_lt b.offset o) [
    | no behind ↦
        let g : FreeFrom size (o + n) (b ∷ fl) = (omega arith, f.1, f.2, f.3) in
        Merge.fit_loop-join size small o n needed pos fits (b ∷ fl) (block o n) refl (omega arith) g
        ∙ sym (first_fit-give_first (b ∷ fl) g)
        ∙ rw (give_loop_behind b fl (omega arith))
    | yes before ↦ elim (dec_lt (b.offset + b.length) o) [
      | yes gap ↦
          let h : b.offset + b.length + 1 ≤ (merge_own fl o n (block o n)).offset =
            Merge.offset-merge_own-le size small o n needed pos fits fl (b.offset + b.length + 1)
              (block o n) f.3 (omega arith) in
          rw
            (
              give_loop_before b fl before,
              give_after-apart b fl gap,
              merge_own_before b fl gap,
              fit_loop_before b (merge_own fl o n (block o n)) fl (omega arith),
              Merge.adjoins_before size small o n needed pos fits b (omega arith),
              ne→== (b.offset + b.length) o (omega arith),
              fit_loop-give fl (b.offset + b.length + 1) f.3 a.1,
            )
            (unfold first_fit in refl)
      | no touch ↦
          let e : b.offset + b.length ≡ o = omega arith in
          let p = block b.offset (n + b.length) in
          let g = FreeFrom-behind fl (rw (← e) f.3) a.1 in
          let h : (merge_own fl o n p).offset ≡ b.offset =
            Merge.offset-merge_own size small o n needed pos fits fl (o + n) p g (omega arith) in
          rw
            (
              give_loop_before b fl before,
              first_fit-give_between b fl e g,
              merge_own_joined b fl e f.1,
              fit_loop_before b (merge_own fl o n p) fl (omega arith),
              Merge.adjoins_before size small o n needed pos fits b (omega arith),
              (==_iff (b.offset + b.length) o).1 e,
            )
            (Merge.fit_loop-join size small o n needed pos fits fl p (omega arith) (omega arith) g)
    ]
  ]

-- With no own block the merged block is never tried.
fit_loop_plain :
    (fl : List FreeBlock) (o needed : ℕ) (m : FreeBlock)
    → fit_loop fl o 0 needed m false ≡ first_fit fl needed
unfolding fit_loop first_fit arena_free_block_adjoins
fit_loop_plain [] o needed m = refl
fit_loop_plain (b ∷ fl) o needed m = rw (fit_loop_plain fl o needed m)

-- `arena_find_fit`, which changes nothing, answers what first fit answers on the free list after
-- the own block has been given back.
pub arena_find_fit-eq-first_fit :
    (size o n needed : ℕ) (fl : List FreeBlock)
    → size < 2 ^ 64
    → o + n ≤ size
    → IsFreeList size fl
    → Apart o n fl
    → arena_find_fit fl o n needed ≡ first_fit (arena_give fl o n) needed
unfolding arena_find_fit arena_give
arena_find_fit-eq-first_fit size o zero needed fl small fits f a =
    fit_loop_plain fl o needed (block o 0)
arena_find_fit-eq-first_fit size o (suc n) needed fl small fits f a =
    rw (ne→== (suc n) 0 (omega arith))
      (fit_loop-give size small o (suc n) needed (omega arith) fits fl 0 f a)
