-- ===== src/Hashtable/Arena/Take.antt =====
-- Proofs about `arena_take` of hashtable_arena.c, by the four ways in which it carves a block.
use app_c_platform.Base.{
  add64-eq, sub64-eq, ℕ, ◌+◌, ◌-◌, ◌≤◌, ◌<◌, ◌^◌, ◌≡◌, ◌&&◌, not, List, [], ◌∷◌, ◌==◌,
  if◌then◌else◌, arith, inl, inr,
}
use app_c_platform.Hashtable.Arena.{FreeBlock, block, arena_take}
use app_c_platform.Hashtable.Arena.Region.{
  in_range, free_at, FreeFrom, IsFreeList, Inside, FreeFrom-weaken, free_at-low, end_of-eq,
}

module _ (size : ℕ) (small : size < 2 ^ 64) where
  -- A block that does not hold the range is passed.
  arena_take_pass :
      (b : FreeBlock) (fl : List FreeBlock) (o n : ℕ)
      → b.offset + b.length ≤ size
      → o + n ≤ size
      → ¬ ((b.offset ≤ o) × (o + n ≤ b.offset + b.length))
      → arena_take (b ∷ fl) o n ≡ b ∷ arena_take fl o n
  unfolding arena_take
  arena_take_pass b fl o n hb ho out =
      rw (end_of-eq size small b hb, add64-eq o n (omega arith)) (ground arith)

  -- What is left of a block that holds the range, without wrap-around.
  carve : FreeBlock → ℕ → ℕ → List FreeBlock → List FreeBlock
  carve b o n fl =
      let after = block (o + n) (b.offset + b.length - (o + n)) in
      let tail = if o + n == b.offset + b.length then fl else after ∷ fl in
      if b.offset == o then tail else block b.offset (o - b.offset) ∷ tail

  arena_take_here :
      (b : FreeBlock) (fl : List FreeBlock) (o n : ℕ)
      → b.offset + b.length ≤ size
      → b.offset ≤ o
      → o + n ≤ b.offset + b.length
      → arena_take (b ∷ fl) o n ≡ carve b o n fl
  unfolding arena_take carve
  arena_take_here b fl o n hb lo hi =
      rw
        (
          end_of-eq size small b hb,
          add64-eq o n (omega arith),
          sub64-eq (b.offset + b.length) (o + n) hi (omega arith),
          sub64-eq o b.offset lo (omega arith),
        )
        (ground arith)

  carve-FreeFrom :
      (b : FreeBlock) (fl : List FreeBlock) (o n lo : ℕ)
      → 0 < n
      → FreeFrom size lo (b ∷ fl)
      → b.offset ≤ o
      → o + n ≤ b.offset + b.length
      → FreeFrom size lo (carve b o n fl)
  unfolding carve
  carve-FreeFrom b fl o n lo pos f low high =
      let e : o + n + (b.offset + b.length - (o + n)) ≡ b.offset + b.length = omega arith in
      ground (
        arith,
        FreeFrom-weaken size small (b.offset + b.length + 1) lo fl,
        FreeFrom-weaken size small (b.offset + b.length + 1)
            (o + n + (b.offset + b.length - (o + n)) + 1) fl,
        FreeFrom-weaken size small (b.offset + b.length + 1) (b.offset + (o - b.offset) + 1) fl,
      )

  pub Inside-le :
      (fl : List FreeBlock) (o n lo : ℕ) → FreeFrom size lo fl → Inside o n fl → o + n ≤ size
  Inside-le [] o n lo f i = absurd i
  Inside-le (b ∷ fl) o n lo f (inl i) = omega arith
  Inside-le (b ∷ fl) o n lo f (inr i) = Inside-le fl o n (b.offset + b.length + 1) f.3 i

  Inside-low : (fl : List FreeBlock) (o n lo : ℕ) → FreeFrom size lo fl → Inside o n fl → lo ≤ o
  Inside-low [] o n lo f i = absurd i
  Inside-low (b ∷ fl) o n lo f (inl i) = omega arith
  Inside-low (b ∷ fl) o n lo f (inr i) =
      omega (arith, Inside-low fl o n (b.offset + b.length + 1) f.3 i)

  take-FreeFrom :
      (fl : List FreeBlock) (o n lo : ℕ)
      → 0 < n
      → FreeFrom size lo fl
      → Inside o n fl
      → FreeFrom size lo (arena_take fl o n)
  take-FreeFrom [] o n lo pos f i = absurd i
  take-FreeFrom (b ∷ fl) o n lo pos f (inl i) =
      rw (arena_take_here b fl o n f.2 i.0 i.1) (carve-FreeFrom b fl o n lo pos f i.0 i.1)
  take-FreeFrom (b ∷ fl) o n lo pos f (inr i) =
      let low = Inside-low fl o n (b.offset + b.length + 1) f.3 i in
      rw
        (arena_take_pass b fl o n f.2 (Inside-le fl o n (b.offset + b.length + 1) f.3 i)
          (omega arith))
        (f.0, f.1, f.2, take-FreeFrom fl o n (b.offset + b.length + 1) pos f.3 i)

  -- Taking a range inside a free block keeps the list ordered, maximal and in bounds.
  pub arena_take-IsFreeList :
      (fl : List FreeBlock) (o n : ℕ)
      → 0 < n
      → IsFreeList size fl
      → Inside o n fl
      → IsFreeList size (arena_take fl o n)
  arena_take-IsFreeList fl o n pos f i = take-FreeFrom fl o n 0 pos f i

  module _ (x : ℕ) where
    free_at-carve :
        (b : FreeBlock) (fl : List FreeBlock) (o n lo : ℕ)
        → 0 < n
        → FreeFrom size lo (b ∷ fl)
        → b.offset ≤ o
        → o + n ≤ b.offset + b.length
        → free_at (carve b o n fl) x ≡ free_at (b ∷ fl) x && not (in_range o n x)
    unfolding carve
    free_at-carve b fl o n lo pos f low high =
        ground (arith, free_at-low size x fl (b.offset + b.length + 1))

    take-free_at :
        (fl : List FreeBlock) (o n lo : ℕ)
        → 0 < n
        → FreeFrom size lo fl
        → Inside o n fl
        → free_at (arena_take fl o n) x ≡ free_at fl x && not (in_range o n x)
    take-free_at [] o n lo pos f i = absurd i
    take-free_at (b ∷ fl) o n lo pos f (inl i) =
        rw (arena_take_here b fl o n f.2 i.0 i.1) (free_at-carve b fl o n lo pos f i.0 i.1)
    take-free_at (b ∷ fl) o n lo pos f (inr i) =
        let low = Inside-low fl o n (b.offset + b.length + 1) f.3 i in
        rw
          (arena_take_pass b fl o n f.2 (Inside-le fl o n (b.offset + b.length + 1) f.3 i)
            (omega arith))
          (ground (arith, take-free_at fl o n (b.offset + b.length + 1) pos f.3 i))

    -- After the call a byte is free when it was free and lies outside the range.
    pub free_at-arena_take :
        (fl : List FreeBlock) (o n : ℕ)
        → 0 < n
        → IsFreeList size fl
        → Inside o n fl
        → free_at (arena_take fl o n) x ≡ free_at fl x && not (in_range o n x)
    free_at-arena_take fl o n pos f i = take-free_at fl o n 0 pos f i
