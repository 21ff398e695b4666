-- ===== src/Hashtable/Arena/Unique.antt =====
-- Proofs that relate `arena_give` and `arena_take`, by the free bytes of the lists.
use native.Mathlib.Decide.{dec_lt}
use app_c_platform.Hashtable.Arena.Give.{arena_give-IsFreeList, free_at-arena_give}
use app_c_platform.Hashtable.Arena.Take.{arena_take-IsFreeList, free_at-arena_take, Inside-le}
use app_c_platform.Base.{
  ℕ, ◌+◌, ◌≤◌, ◌<◌, ◌^◌, ◌≡◌, ◌⊎◌, true, false, List, [], ◌∷◌, arith, inl, inr, refl, sym, ◌∙◌,
}
use app_c_platform.Hashtable.Arena.{FreeBlock, arena_take, arena_give}
use app_c_platform.Hashtable.Arena.Region.{
  in_range, free_at, FreeFrom, IsFreeList, Apart, Inside, free_at-low,
}

pub bytes_of_Inside :
    (x : ℕ) (fl : List FreeBlock) (o n : ℕ)
    → Inside o n fl
    → in_range o n x ≡ true
    → free_at fl x ≡ true
bytes_of_Inside x [] o n i r = absurd i
bytes_of_Inside x (b ∷ fl) o n i r = ground (arith, bytes_of_Inside x fl o n)

pub bytes_of_Apart :
    (x : ℕ) (fl : List FreeBlock) (o n : ℕ)
    → Apart o n fl
    → in_range o n x ≡ true
    → free_at fl x ≡ false
bytes_of_Apart x [] o n a r = refl
bytes_of_Apart x (b ∷ fl) o n a r = ground (arith, bytes_of_Apart x fl o n)

-- A range inside a free block and a range that no free block meets do not overlap.
pub Inside-Apart_disjoint :
    (fl : List FreeBlock) (o n p m : ℕ) → Inside o n fl → Apart p m fl → (o + n ≤ p) ⊎ (p + m ≤ o)
Inside-Apart_disjoint [] o n p m i a = absurd i
Inside-Apart_disjoint (b ∷ fl) o n p m (inl i) a = ground arith
Inside-Apart_disjoint (b ∷ fl) o n p m (inr i) a = Inside-Apart_disjoint fl o n p m i a.1

module _ (size : ℕ) where
  pub Apart-of_bytes :
      (o n : ℕ)
      → 0 < n
      → (fl : List FreeBlock) (lo : ℕ) → ((x : ℕ) → in_range o n x ≡ true → free_at fl x ≡ false)
      → FreeFrom size lo fl
      → Apart o n fl
  Apart-of_bytes o n pos [] lo h f = tt
  Apart-of_bytes o n pos (b ∷ fl) lo h f = (
    ground (arith, h o, h b.offset),
    Apart-of_bytes o n pos fl (b.offset + b.length + 1) (λ x r. ground (arith, h x)) f.3,
  )

  offset-eq :
      (b c : FreeBlock) (fl gl : List FreeBlock) (lo lo' : ℕ)
      → FreeFrom size lo (b ∷ fl)
      → FreeFrom size lo' (c ∷ gl)
      → ((x : ℕ) → free_at (b ∷ fl) x ≡ free_at (c ∷ gl) x)
      → b.offset ≤ c.offset
  offset-eq b c fl gl lo lo' f g same =
      ground (arith, same c.offset, free_at-low size c.offset fl (b.offset + b.length + 1))

  length-eq :
      (b c : FreeBlock) (fl gl : List FreeBlock) (lo lo' : ℕ)
      → FreeFrom size lo (b ∷ fl)
      → FreeFrom size lo' (c ∷ gl)
      → ((x : ℕ) → free_at (b ∷ fl) x ≡ free_at (c ∷ gl) x)
      → b.offset ≡ c.offset
      → c.length ≤ b.length
  length-eq b c fl gl lo lo' f g same e = ground (
    arith,
    same (b.offset + b.length),
    free_at-low size (b.offset + b.length) fl (b.offset + b.length + 1),
  )

  -- Two free lists with the same free bytes are the same list.
  pub free_at_unique :
      (fl gl : List FreeBlock) (lo lo' : ℕ)
      → FreeFrom size lo fl
      → FreeFrom size lo' gl
      → ((x : ℕ) → free_at fl x ≡ free_at gl x)
      → fl ≡ gl
  free_at_unique [] [] lo lo' f g same = refl
  free_at_unique [] (c ∷ gl) lo lo' f g same = absurd (ground (arith, same c.offset))
  free_at_unique (b ∷ fl) [] lo lo' f g same = absurd (ground (arith, same b.offset))
  free_at_unique (b ∷ fl) (c ∷ gl) lo lo' f g same =
      let swapped = λ (x : ℕ). sym (same x) in
      let e : b.offset ≡ c.offset =
        omega
          (arith, offset-eq b c fl gl lo lo' f g same, offset-eq c b gl fl lo' lo g f swapped) in
      let l : b.length ≡ c.length = omega (
        arith,
        length-eq b c fl gl lo lo' f g same e,
        length-eq c b gl fl lo' lo g f swapped (sym e),
      ) in
      let rest =
        free_at_unique fl gl (b.offset + b.length + 1) (c.offset + c.length + 1) f.3 g.3 (λ x.
          elim (dec_lt x (b.offset + b.length + 1)) [
            | yes h ↦
                free_at-low size x fl (b.offset + b.length + 1) f.3 h
                ∙ sym (free_at-low size x gl (c.offset + c.length + 1) g.3 (omega arith))
            | no h ↦ ground (arith, same x)
          ]) in
      cc

  module _ (small : size < 2 ^ 64) where
    -- A taken range meets no free block any more.
    pub take-Apart :
        (fl : List FreeBlock) (o n : ℕ)
        → 0 < n
        → IsFreeList size fl
        → Inside o n fl
        → Apart o n (arena_take fl o n)
    take-Apart fl o n pos f i =
        Apart-of_bytes o n pos (arena_take fl o n) 0
          (λ x r. ground (arith, free_at-arena_take size small x fl o n pos f i))
          (arena_take-IsFreeList size small fl o n pos f i)

    -- Giving back what was taken restores the free list, block for block.
    pub arena_give-arena_take :
        (fl : List FreeBlock) (o n : ℕ)
        → 0 < n
        → IsFreeList size fl
        → Inside o n fl
        → arena_give (arena_take fl o n) o n ≡ fl
    arena_give-arena_take fl o n pos f i =
        let t = arena_take-IsFreeList size small fl o n pos f i in
        let a = take-Apart fl o n pos f i in
        let fits = Inside-le size small fl o n 0 f i in
        free_at_unique (arena_give (arena_take fl o n) o n) fl 0 0
          (arena_give-IsFreeList size small (arena_take fl o n) o n fits t a) f
          (λ x. ground (
            arith,
            free_at-arena_give size small x (arena_take fl o n) o n fits t a,
            free_at-arena_take size small x fl o n pos f i,
            bytes_of_Inside x fl o n i,
          ))
