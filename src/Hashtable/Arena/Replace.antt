-- ===== src/Hashtable/Arena/Replace.antt =====
-- The allocation that a store makes: `arena_find_fit` with the record's own block, then
-- `arena_give` of that block and `arena_take` of what was found, as in hashtable_arena.c.
use app_c_platform.Hashtable.Arena.Give.{arena_give-IsFreeList, free_at-arena_give}
use app_c_platform.Hashtable.Arena.Take.{arena_take-IsFreeList, free_at-arena_take, Inside-le}
use app_c_platform.Hashtable.Arena.Fit.{first_fit-Inside, first_fit-eq-none, Inside-of_bytes}
use app_c_platform.Hashtable.Arena.Fit.Equivalence.{arena_find_fit-eq-first_fit}
use app_c_platform.Hashtable.Arena.Unique.{bytes_of_Inside}
use app_c_platform.Base.{
  ℕ, ◌+◌, ◌≤◌, ◌<◌, ◌^◌, ◌≡◌, true, ◌&&◌, ◌||◌, not, List, none, some, sym, ◌∙◌,
}
use app_c_platform.Hashtable.Arena.{FreeBlock, arena_take, arena_give, arena_find_fit}
use app_c_platform.Hashtable.Arena.Region.{in_range, free_at, IsFreeList, Apart, Inside}

-- The free list of a storage after a record's block `[o, o + n)` is replaced by one at `r`.
abbrev pub replace : List FreeBlock → ℕ → ℕ → ℕ → ℕ → List FreeBlock
replace fl o n r needed = arena_take (arena_give fl o n) r needed

module _ (size : ℕ) (small : size < 2 ^ 64) (fl : List FreeBlock) (o n needed : ℕ)
    (fits : o + n ≤ size) (f : IsFreeList size fl) (a : Apart o n fl) where
  pub found-Inside :
      (r : ℕ) → arena_find_fit fl o n needed ≡ some r → Inside r needed (arena_give fl o n)
  found-Inside r h =
      first_fit-Inside (arena_give fl o n) needed r
        (sym (arena_find_fit-eq-first_fit size o n needed fl small fits f a) ∙ h)

  -- A range that the search finds lies in the storage, and replacing the own block by it leaves a
  -- free list. A byte is free afterwards when it was free or belonged to the own block, and lies
  -- outside the range found.
  pub replace_lem :
      (r : ℕ)
      → 0 < needed
      → arena_find_fit fl o n needed ≡ some r
      → (r + needed ≤ size)
        × IsFreeList size (replace fl o n r needed)
        × ((x : ℕ)
            → free_at (replace fl o n r needed) x
              ≡ (in_range o n x || free_at fl x) && not (in_range r needed x))
        × ((x : ℕ) → in_range r needed x ≡ true → in_range o n x || free_at fl x ≡ true)
  replace_lem r pos h =
      let g = arena_give-IsFreeList size small fl o n fits f a in
      let i = found-Inside r h in
      (
        Inside-le size small (arena_give fl o n) r needed 0 g i,
        arena_take-IsFreeList size small (arena_give fl o n) r needed pos g i,
        (λ x.
            free_at-arena_take size small x (arena_give fl o n) r needed pos g i
            ∙ rw (free_at-arena_give size small x fl o n fits f a)),
        (λ x k.
            sym (free_at-arena_give size small x fl o n fits f a)
            ∙ bytes_of_Inside x (arena_give fl o n) r needed i k),
      )

  -- The search fails only when every run of `needed` bytes has a byte that is neither free nor of
  -- the own block.
  pub find_fit_complete :
      (r : ℕ)
      → 0 < needed
      → arena_find_fit fl o n needed ≡ none
      → ¬ ((x : ℕ) → in_range r needed x ≡ true → in_range o n x || free_at fl x ≡ true)
  find_fit_complete r pos h all =
      let g = arena_give-IsFreeList size small fl o n fits f a in
      first_fit-eq-none (arena_give fl o n) needed r
        (sym (arena_find_fit-eq-first_fit size o n needed fl small fits f a) ∙ h)
        (Inside-of_bytes size r needed pos (arena_give fl o n) 0 g
          (λ x k. free_at-arena_give size small x fl o n fits f a ∙ all x k))
