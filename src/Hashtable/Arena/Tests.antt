-- ===== src/Hashtable/Arena/Tests.antt =====
-- The free list of hashtable_arena.c on a storage of 100 bytes.
use app_c_platform.Base.{
  ℕ, ◌+◌, ◌≤◌, ◌≡◌, ◌↔◌, ◌&&◌, ◌||◌, not, Bool, true, List, [], ◌∷◌, none, some, refl, inl, inr,
  arith, add64, sub64,
}
use app_c_platform.Hashtable.Arena.{
  FreeBlock, block, end_of, arena_take, arena_give, give_loop, give_after, give_between,
  arena_find_fit, fit_loop, merge_own, absorb, arena_free_block_adjoins,
  hashtable_arena_validate_used_block,
}
use app_c_platform.Hashtable.Arena.Region.{in_range, free_at, IsFreeList, Apart, Inside}
use app_c_platform.Hashtable.Arena.Give.{arena_give-IsFreeList}
use app_c_platform.Hashtable.Arena.Take.{arena_take-IsFreeList}
use app_c_platform.Hashtable.Arena.Fit.{first_fit}
use app_c_platform.Hashtable.Arena.Fit.Equivalence.{arena_find_fit-eq-first_fit}
use app_c_platform.Hashtable.Arena.Replace.{replace, replace_lem, find_fit_complete}
use app_c_platform.Hashtable.Arena.Unique.{arena_give-arena_take}
use app_c_platform.Hashtable.Arena.Search.{validate_used_block_iff}

-- The record's own block [20, 30) stands between two free blocks.
abbrev free_list : List FreeBlock
free_list = block 10 10 ∷ block 30 5 ∷ block 60 40 ∷ []

free_list-IsFreeList : IsFreeList 100 free_list
free_list-IsFreeList = (
  omega arith,
  omega arith,
  omega arith,
  (omega arith, omega arith, omega arith, (omega arith, omega arith, omega arith, tt)),
)

own-Apart : Apart 20 10 free_list
own-Apart = (inl (omega arith), (inr (omega arith), (inr (omega arith), tt)))

-- [12, 15) lies in the first block.
part-Inside : Inside 12 3 free_list
part-Inside = inl (omega arith, omega arith)

joined : arena_give free_list 20 10 ≡ block 10 25 ∷ block 60 40 ∷ []
unfolding arena_give give_loop give_after give_between end_of add64
joined = refl

split : arena_take free_list 12 3 ≡ block 10 2 ∷ block 15 5 ∷ block 30 5 ∷ block 60 40 ∷ []
unfolding arena_take end_of add64 sub64
split = refl

in_place : arena_find_fit free_list 20 10 25 ≡ some 10
unfolding arena_find_fit fit_loop merge_own absorb arena_free_block_adjoins end_of add64
in_place = refl

too_long : arena_find_fit free_list 20 10 41 ≡ none
unfolding arena_find_fit fit_loop merge_own absorb arena_free_block_adjoins end_of add64
too_long = refl

give_IsFreeList_example : IsFreeList 100 (arena_give free_list 20 10)
give_IsFreeList_example =
    arena_give-IsFreeList 100 (omega arith) free_list 20 10 (omega arith) free_list-IsFreeList
      own-Apart

take_IsFreeList_example : IsFreeList 100 (arena_take free_list 12 3)
take_IsFreeList_example =
    arena_take-IsFreeList 100 (omega arith) free_list 12 3 (omega arith) free_list-IsFreeList
      part-Inside

give_take_example : arena_give (arena_take free_list 12 3) 12 3 ≡ free_list
give_take_example =
    arena_give-arena_take 100 (omega arith) free_list 12 3 (omega arith) free_list-IsFreeList
      part-Inside

find_fit_example : arena_find_fit free_list 20 10 25 ≡ first_fit (arena_give free_list 20 10) 25
find_fit_example =
    arena_find_fit-eq-first_fit 100 20 10 25 free_list (omega arith) (omega arith)
      free_list-IsFreeList own-Apart

replace_example :
    (10 + 25 ≤ 100)
    × IsFreeList 100 (replace free_list 20 10 10 25)
    × ((x : ℕ)
        → free_at (replace free_list 20 10 10 25) x
          ≡ (in_range 20 10 x || free_at free_list x) && not (in_range 10 25 x))
    × ((x : ℕ) → in_range 10 25 x ≡ true → in_range 20 10 x || free_at free_list x ≡ true)
replace_example =
    replace_lem 100 (omega arith) free_list 20 10 25 (omega arith) free_list-IsFreeList own-Apart 10
      (omega arith) in_place

complete_example :
    ¬ ((x : ℕ) → in_range 10 41 x ≡ true → in_range 20 10 x || free_at free_list x ≡ true)
complete_example =
    find_fit_complete 100 (omega arith) free_list 20 10 41 (omega arith) free_list-IsFreeList
      own-Apart 10 (omega arith) too_long

used_block_example :
    (r : Bool) × (hashtable_arena_validate_used_block free_list 20 10 ≡ some r)
    × ((r ≡ true) ↔ Apart 20 10 free_list)
used_block_example =
    validate_used_block_iff 100 (omega arith) 20 10 (omega arith) free_list (omega arith)
      free_list-IsFreeList
