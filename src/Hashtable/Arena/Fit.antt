-- ===== src/Hashtable/Arena/Fit.antt =====
-- First fit, the search that `arena_find_fit` of hashtable_arena.c stands for. `Merge` follows its
-- loops at the merged block, and `Equivalence` through the whole list.
pub mod Merge
pub mod Equivalence
use native.Mathlib.Decide.{dec_lt}
use app_c_platform.Base.{
  ℕ, ◌+◌, ◌-◌, ◌≤◌, ◌<◌, ◌^◌, ◌≡◌, ◌∙◌, ◌⊎◌, Bool, true, false, ◌&&◌, ◌||◌, not, List, [], ◌∷◌,
  Option, none, some, add64, sub64, ltb, leb, ◌==◌, if◌then◌else◌, arith, Bool-cases, lt→ltb,
  le→ltb, ne→==, ==_iff, sym, add64-eq, inl, inr, refl,
}
use app_c_platform.Hashtable.Arena.{
  FreeBlock, block, end_of, arena_take, arena_give, arena_free_block_adjoins, absorb, merge_own,
  fit_loop, arena_find_fit, give_first, give_between, give_after, give_loop,
}
use app_c_platform.Hashtable.Arena.Region.{
  in_range, free_at, FreeFrom, IsFreeList, Apart, Inside, FreeFrom-weaken, free_at-low,
}

-- First fit: the offset of the first block that is long enough.
unfoldable pub first_fit : List FreeBlock → ℕ → Option ℕ
first_fit [] needed = none
first_fit (b ∷ fl) needed = if leb needed b.length then some b.offset else first_fit fl needed

pub first_fit-Inside :
    (fl : List FreeBlock) (needed r : ℕ) → first_fit fl needed ≡ some r → Inside r needed fl
unfolding first_fit
first_fit-Inside [] needed r h = cc
first_fit-Inside (b ∷ fl) needed r h = ground (arith, first_fit-Inside fl needed r)

pub first_fit-eq-none :
    (fl : List FreeBlock) (needed r : ℕ) → first_fit fl needed ≡ none → Inside r needed fl → ⊥
unfolding first_fit
first_fit-eq-none [] needed r h i = i
first_fit-eq-none (b ∷ fl) needed r h i = ground (arith, first_fit-eq-none fl needed r)

-- A free list whose free bytes hold a whole range holds it in one block.
module _ (size : ℕ) (o n : ℕ) (pos : 0 < n) where
  pub Inside-of_bytes :
      (fl : List FreeBlock) (lo : ℕ)
      → FreeFrom size lo fl
      → ((x : ℕ) → in_range o n x ≡ true → free_at fl x ≡ true)
      → Inside o n fl
  Inside-of_bytes [] lo f h = absurd (ground (arith, h o))
  Inside-of_bytes (b ∷ fl) lo f h = elim (dec_lt o (b.offset + b.length)) [
    | yes p ↦ ground (
      arith,
      h o,
      h (b.offset + b.length),
      free_at-low size o fl (b.offset + b.length + 1),
      free_at-low size (b.offset + b.length) fl (b.offset + b.length + 1),
    )
    | no p ↦ inr (Inside-of_bytes fl (b.offset + b.length + 1) f.3 (λ x r. ground (arith, h x)))
  ]
