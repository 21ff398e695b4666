-- ===== src/Hashtable/Arena/Give.antt =====
-- Proofs about `arena_give` of hashtable_arena.c: its order of insertion, its joins, and its bytes.
use app_c_platform.Base.{ℕ, ◌+◌, ◌≤◌, ◌<◌, ◌^◌, ◌≡◌, ◌||◌, List, [], ◌∷◌, add64, arith, refl}
use app_c_platform.Hashtable.Arena.{
  FreeBlock, arena_give, give_first, give_between, give_after, give_loop,
}
use app_c_platform.Hashtable.Arena.Region.{
  in_range, free_at, FreeFrom, IsFreeList, Apart, FreeFrom-weaken,
}

module _ (size : ℕ) (small : size < 2 ^ 64) where
  give_first-FreeFrom :
      (o n lo : ℕ) (fl : List FreeBlock)
      → 0 < n
      → o + n ≤ size
      → lo ≤ o
      → FreeFrom size (o + n) fl
      → FreeFrom size lo (give_first o n fl)
  unfolding give_first add64
  give_first-FreeFrom o n lo [] pos fits low f = ground arith
  give_first-FreeFrom o n lo (b ∷ fl) pos fits low f =
      ground
        (arith, FreeFrom-weaken size small (b.offset + b.length + 1) (o + add64 b.length n + 1) fl)

  give_between-FreeFrom :
      (p : FreeBlock) (o n lo : ℕ) (fl : List FreeBlock)
      → 0 < n
      → o + n ≤ size
      → lo ≤ p.offset
      → 0 < p.length
      → p.offset + p.length ≤ o
      → FreeFrom size (o + n) fl
      → FreeFrom size lo (give_between p o n fl)
  unfolding give_between add64
  give_between-FreeFrom p o n lo [] pos fits low full before f =
      ground (arith, give_first-FreeFrom o n (p.offset + p.length + 1) [])
  give_between-FreeFrom p o n lo (b ∷ fl) pos fits low full before f = ground (
    arith,
    FreeFrom-weaken size small (b.offset + b.length + 1)
        (p.offset + add64 p.length (add64 n b.length) + 1) fl,
    give_first-FreeFrom o n (p.offset + p.length + 1) (b ∷ fl),
  )

  give_after-FreeFrom :
      (p : FreeBlock) (fl : List FreeBlock) (o n lo : ℕ)
      → 0 < n
      → o + n ≤ size
      → lo ≤ p.offset
      → 0 < p.length
      → p.offset + p.length ≤ o
      → FreeFrom size (p.offset + p.length + 1) fl
      → Apart o n fl
      → FreeFrom size lo (give_after p fl o n)
  unfolding give_after
  give_after-FreeFrom p [] o n lo pos fits low full before f a =
      give_between-FreeFrom p o n lo [] pos fits low full before tt
  give_after-FreeFrom p (b ∷ fl) o n lo pos fits low full before f a = ground (
    arith,
    give_after-FreeFrom b fl o n (p.offset + p.length + 1),
    give_between-FreeFrom p o n lo (b ∷ fl),
  )

  -- Giving back a range that no free block meets keeps the list ordered, maximal and in bounds.
  pub arena_give-IsFreeList :
      (fl : List FreeBlock) (o n : ℕ)
      → o + n ≤ size
      → IsFreeList size fl
      → Apart o n fl
      → IsFreeList size (arena_give fl o n)
  unfolding arena_give give_loop
  arena_give-IsFreeList [] o n fits f a = ground (arith, give_first-FreeFrom o n 0 [])
  arena_give-IsFreeList (b ∷ fl) o n fits f a =
      ground (arith, give_first-FreeFrom o n 0 (b ∷ fl), give_after-FreeFrom b fl o n 0)

  module _ (x : ℕ) where
    free_at-give_first :
        (o n : ℕ) (fl : List FreeBlock)
        → o + n ≤ size
        → FreeFrom size (o + n) fl
        → free_at (give_first o n fl) x ≡ in_range o n x || free_at fl x
    unfolding give_first add64
    free_at-give_first o n [] fits f = refl
    free_at-give_first o n (b ∷ fl) fits f = ground arith

    free_at-give_between :
        (p : FreeBlock) (o n : ℕ) (fl : List FreeBlock)
        → o + n ≤ size
        → p.offset + p.length ≤ o
        → FreeFrom size (o + n) fl
        → free_at (give_between p o n fl) x ≡ in_range o n x || free_at (p ∷ fl) x
    unfolding give_between add64
    free_at-give_between p o n [] fits before f = ground (arith, free_at-give_first o n [])
    free_at-give_between p o n (b ∷ fl) fits before f =
        ground (arith, free_at-give_first o n (b ∷ fl))

    free_at-give_after :
        (p : FreeBlock) (fl : List FreeBlock) (o n : ℕ)
        → o + n ≤ size
        → p.offset + p.length ≤ o
        → FreeFrom size (p.offset + p.length + 1) fl
        → Apart o n fl
        → free_at (give_after p fl o n) x ≡ in_range o n x || free_at (p ∷ fl) x
    unfolding give_after
    free_at-give_after p [] o n fits before f a = free_at-give_between p o n [] fits before tt
    free_at-give_after p (b ∷ fl) o n fits before f a =
        ground (arith, free_at-give_after b fl o n, free_at-give_between p o n (b ∷ fl))

    -- After the call a byte is free when it was free, or lies in the range.
    pub free_at-arena_give :
        (fl : List FreeBlock) (o n : ℕ)
        → o + n ≤ size
        → IsFreeList size fl
        → Apart o n fl
        → free_at (arena_give fl o n) x ≡ in_range o n x || free_at fl x
    unfolding arena_give give_loop
    free_at-arena_give [] o n fits f a = ground (arith, free_at-give_first o n [])
    free_at-arena_give (b ∷ fl) o n fits f a =
        ground (arith, free_at-give_first o n (b ∷ fl), free_at-give_after b fl o n)
