-- ===== src/Hashtable/Arena/Region.antt =====
-- What a free list means: which bytes of the storage are free, and the invariant of the list.
use app_c_platform.Base.{
  ℕ, ◌+◌, ◌≤◌, ◌<◌, ◌^◌, ◌≡◌, ◌⊎◌, Bool, false, ◌&&◌, ◌||◌, List, [], ◌∷◌, ltb, leb, arith, refl,
  add64-eq,
}
use app_c_platform.Hashtable.Arena.{FreeBlock, end_of}

abbrev pub in_range : ℕ → ℕ → ℕ → Bool
in_range o n x = leb o x && ltb x (o + n)

-- Byte `x` lies in a free block.
abbrev pub free_at : List FreeBlock → ℕ → Bool
free_at [] x = false
free_at (b ∷ fl) x = in_range b.offset b.length x || free_at fl x

-- Blocks from `lo` on that are not empty, lie in the storage, and leave a gap between each two.
abbrev pub FreeFrom : ℕ → ℕ → List FreeBlock → Type 0
FreeFrom size lo [] = Unit
FreeFrom size lo (b ∷ fl) =
    (lo ≤ b.offset)
    × (0 < b.length)
    × (b.offset + b.length ≤ size)
    × FreeFrom size (b.offset + b.length + 1) fl

abbrev pub IsFreeList : ℕ → List FreeBlock → Type 0
IsFreeList size fl = FreeFrom size 0 fl

-- No free block meets the range.
abbrev pub Apart : ℕ → ℕ → List FreeBlock → Type 0
Apart o n [] = Unit
Apart o n (b ∷ fl) = ((b.offset + b.length ≤ o) ⊎ (o + n ≤ b.offset)) × Apart o n fl

-- One free block holds the range.
abbrev pub Inside : ℕ → ℕ → List FreeBlock → Type 0
Inside o n [] = ⊥
Inside o n (b ∷ fl) = ((b.offset ≤ o) × (o + n ≤ b.offset + b.length)) ⊎ Inside o n fl

module _ (size : ℕ) (small : size < 2 ^ 64) where
  pub end_of-eq : (b : FreeBlock) → b.offset + b.length ≤ size → end_of b ≡ b.offset + b.length
  unfolding end_of
  end_of-eq b h = add64-eq b.offset b.length (omega arith)

  pub FreeFrom-weaken :
      (lo lo' : ℕ) (fl : List FreeBlock) → FreeFrom size lo fl → lo' ≤ lo → FreeFrom size lo' fl
  FreeFrom-weaken lo lo' [] f h = tt
  FreeFrom-weaken lo lo' (b ∷ fl) f h = (omega arith, f.1, f.2, f.3)

-- Below the first bound of the list no byte is free.
pub free_at-low :
    (size x : ℕ) (fl : List FreeBlock) (lo : ℕ)
    → FreeFrom size lo fl
    → x < lo
    → free_at fl x ≡ false
free_at-low size x [] lo f h = refl
free_at-low size x (b ∷ fl) lo f h = ground (arith, free_at-low size x fl (b.offset + b.length + 1))

-- The number of free bytes.
unfoldable pub total_free : List FreeBlock → ℕ
total_free [] = 0
total_free (b ∷ fl) = b.length + total_free fl
