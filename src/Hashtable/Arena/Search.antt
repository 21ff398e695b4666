-- ===== src/Hashtable/Arena/Search.antt =====
-- Proofs about the binary searches over a free list and about
-- `hashtable_arena_validate_used_block`, which looks at the two blocks beside the place found.
use native.Mathlib.Decide.{dec_le}
use app_c_platform.Base.{
  ℕ, ◌+◌, ◌-◌, ◌≤◌, ◌<◌, ◌^◌, ◌≡◌, Bool, true, false, List, [], ◌∷◌, some, leb, if◌then◌else◌,
  arith, inl, inr, leb→le, gt→leb, le→leb, length, zero, suc, add64-eq, ◌/◌, ◌-◌, ◌↔◌,
}
use app_c_platform.Hashtable.Arena.{
  FreeBlock, search_place, block_at, neighbours_clear, hashtable_arena_validate_used_block,
}
use app_c_platform.Hashtable.Arena.Region.{FreeFrom, IsFreeList, Apart, end_of-eq}

-- The test is true exactly on the first `r` blocks.
pub record IsPlace (before : FreeBlock → Bool) (fl : List FreeBlock) (r : ℕ) : Type 0 where
  pub within : r ≤ length fl
  pub passed : (i : ℕ) → i < r → before (block_at fl i) ≡ true
  pub ahead : (i : ℕ) → r ≤ i → i < length fl → before (block_at fl i) ≡ false

-- The search ends, and finds the place, from any bounds round it.
pub search_place-eq :
    (before : FreeBlock → Bool) (fl : List FreeBlock) (r : ℕ) (p : IsPlace before fl r)
    (fuel low high : ℕ)
    → low ≤ r
    → r ≤ high
    → high ≤ length fl
    → high < low + fuel
    → search_place before fl fuel low high ≡ some r
unfolding search_place
search_place-eq before fl r p zero low high a b c d = absurd (omega arith)
search_place-eq before fl r p (suc fuel) low high a b c d =
    let mid = low + (high - low) / 2 in
    ground (
      arith,
      p.passed mid,
      p.ahead mid,
      search_place-eq before fl r p fuel (mid + 1) high,
      search_place-eq before fl r p fuel low mid,
    )

module _ (size : ℕ) (small : size < 2 ^ 64) (o n : ℕ) (pos : 0 < n) where
  -- The number of blocks that start at `o` or before.
  rank : List FreeBlock → ℕ
  rank [] = 0
  rank (b ∷ fl) = if leb b.offset o then suc (rank fl) else 0

  low-le-offset :
      (fl : List FreeBlock) (lo i : ℕ)
      → FreeFrom size lo fl
      → i < length fl
      → lo ≤ (block_at fl i).offset
  low-le-offset [] lo i f h = elim h [ ]
  low-le-offset (b ∷ fl) lo zero f h = f.0
  low-le-offset (b ∷ fl) lo (suc i) f h =
      omega (arith, low-le-offset fl (b.offset + b.length + 1) i f.3 (omega arith))

  rank-le-length : (fl : List FreeBlock) → rank fl ≤ length fl
  unfolding rank
  rank-le-length [] = omega arith
  rank-le-length (b ∷ fl) = ground (arith, rank-le-length fl)

  rank_passed : (fl : List FreeBlock) (i : ℕ) → i < rank fl → leb (block_at fl i).offset o ≡ true
  unfolding rank
  rank_passed [] i h = elim h [ ]
  rank_passed (b ∷ fl) zero h = ground arith
  rank_passed (b ∷ fl) (suc i) h = ground (arith, rank_passed fl i)

  rank_ahead :
      (fl : List FreeBlock) (lo i : ℕ)
      → FreeFrom size lo fl
      → rank fl ≤ i
      → i < length fl
      → leb (block_at fl i).offset o ≡ false
  unfolding rank
  rank_ahead [] lo i f h k = elim k [ ]
  rank_ahead (b ∷ fl) lo zero f h k = ground arith
  rank_ahead (b ∷ fl) lo (suc i) f h k = ground (
    arith,
    rank_ahead fl (b.offset + b.length + 1) i f.3,
    low-le-offset fl (b.offset + b.length + 1) i f.3,
  )

  rank-IsPlace :
      (fl : List FreeBlock) → IsFreeList size fl → IsPlace (λ b. leb b.offset o) fl (rank fl)
  rank-IsPlace fl f = record {
    within = rank-le-length fl;
    passed = rank_passed fl;
    ahead = λ i. rank_ahead fl 0 i f;
  }

  -- What the code asks of the blocks on both sides of the place.
  abbrev LeftClear : List FreeBlock → ℕ → Type 0
  LeftClear fl zero = Unit
  LeftClear fl (suc i) = (block_at fl i).offset + (block_at fl i).length ≤ o

  abbrev Clear : List FreeBlock → ℕ → Type 0
  Clear fl r = LeftClear fl r × (r < length fl → o + n ≤ (block_at fl r).offset)

  Apart-above : (fl : List FreeBlock) (lo : ℕ) → FreeFrom size lo fl → o + n ≤ lo → Apart o n fl
  Apart-above [] lo f h = tt
  Apart-above (b ∷ fl) lo f h =
      (inr (omega arith), Apart-above fl (b.offset + b.length + 1) f.3 (omega arith))

  Clear-cons :
      (b : FreeBlock) (fl : List FreeBlock) (r : ℕ)
      → b.offset ≤ o
      → FreeFrom size (b.offset + b.length + 1) fl
      → r ≤ length fl
      → ((i : ℕ) → i < r → leb (block_at fl i).offset o ≡ true)
      → Clear fl r ↔ Apart o n fl
      → Clear (b ∷ fl) (suc r) ↔ Apart o n (b ∷ fl)
  Clear-cons b fl zero h f l p e = (
    (λ c. (inl c.0, e.0 (tt, λ k. c.1 (omega arith)))),
    (λ a. (omega arith, λ k. (e.1 a.1).1 (omega arith))),
  )
  Clear-cons b fl (suc r) h f l p e =
      let g = low-le-offset fl (b.offset + b.length + 1) r f (omega arith) in
      let q = leb→le (block_at fl r).offset o (p r (omega arith)) in
      (
        (λ c. (inl (omega arith), e.0 (c.0, λ k. c.1 (omega arith)))),
        (λ a. let c = e.1 a.1 in (c.0, λ k. c.1 (omega arith))),
      )

  Clear-iff-Apart :
      (fl : List FreeBlock) (lo : ℕ) → FreeFrom size lo fl → Clear fl (rank fl) ↔ Apart o n fl
  unfolding rank
  Clear-iff-Apart [] lo f = ((λ c. tt), λ a. (tt, λ h. elim h [ ]))
  Clear-iff-Apart (b ∷ fl) lo f = elim (dec_le b.offset o) [
    | no h ↦ rw (gt→leb b.offset o (omega arith)) (
      (λ c. (
        inr (c.1 (omega arith)),
        Apart-above fl (b.offset + b.length + 1) f.3 (omega (arith, c.1 (omega arith))),
      )),
      (λ a. (tt, λ k. omega arith)),
    )
    | yes h ↦ rw (le→leb b.offset o h) (
        Clear-cons b fl (rank fl) h f.3 (rank-le-length fl) (rank_passed fl)
          (Clear-iff-Apart fl (b.offset + b.length + 1) f.3))
  ]

  end-le :
      (fl : List FreeBlock) (lo i : ℕ)
      → FreeFrom size lo fl
      → i < length fl
      → (block_at fl i).offset + (block_at fl i).length ≤ size
  end-le [] lo i f h = elim h [ ]
  end-le (b ∷ fl) lo zero f h = f.2
  end-le (b ∷ fl) lo (suc i) f h = end-le fl (b.offset + b.length + 1) i f.3 (omega arith)

  neighbours_clear_iff :
      (fl : List FreeBlock) (r : ℕ)
      → o + n ≤ size
      → IsFreeList size fl
      → r ≤ length fl
      → (neighbours_clear fl o n r ≡ true) ↔ Clear fl r
  unfolding neighbours_clear
  neighbours_clear_iff fl zero fits f l =
      let a = add64-eq o n (omega arith) in ((λ e. (tt, ground arith)), λ c. ground arith)
  neighbours_clear_iff fl (suc i) fits f l =
      let a = add64-eq o n (omega arith) in
      let s : suc i - 1 ≡ i = omega arith in
      let e = end_of-eq size small (block_at fl i) (end-le fl 0 i f (omega arith)) in
      ((λ h. ground arith), λ c. ground arith)

  -- For a free list and a used block that is not empty and lies within the storage, the search ends,
  -- and the block passes exactly when no free block meets it.
  pub validate_used_block_iff :
      (fl : List FreeBlock)
      → o + n ≤ size
      → IsFreeList size fl
      → (r : Bool) × (hashtable_arena_validate_used_block fl o n ≡ some r)
        × ((r ≡ true) ↔ Apart o n fl)
  unfolding hashtable_arena_validate_used_block
  validate_used_block_iff fl fits f =
      let found =
        search_place-eq (λ b. leb b.offset o) fl (rank fl) (rank-IsPlace fl f) (length fl + 1) 0
          (length fl) (omega arith) (rank-le-length fl) (omega arith) (omega arith) in
      let k = neighbours_clear_iff fl (rank fl) fits f (rank-le-length fl) in
      let c = Clear-iff-Apart fl 0 f in
      (
        neighbours_clear fl o n (rank fl),
        rw (found, hashtable_arena_validate_used_block),
        ((λ e. c.0 (k.0 e)), λ a. k.1 (c.1 a)),
      )
