-- ===== src/Hashtable/Arena.antt =====
-- The free list of a variable-length storage: prod/libsrc/cplat/hashtable/hashtable_arena.c.
-- The array `free_list[0 .. free_count)` is a list, so `free_count` is its length, a loop over
-- the index is a recursion on the list, and `memmove` inside the array is an insertion into the
-- list or a removal from it. `uint64_t` sums wrap.
pub mod Region
pub mod Give
pub mod Take
pub mod Fit
pub mod Unique
pub mod Replace
pub mod Validate
pub mod Search
mod Tests
use app_c_platform.Base.{
  ℕ, zero, suc, ◌+◌, ◌-◌, ◌/◌, get_or, Bool, true, false, ◌&&◌, ◌||◌, not, List, [], ◌∷◌, Option,
  none, some, add64, sub64, ltb, leb, ◌==◌, if◌then◌else◌,
}
use app_c_platform.Base.{length}

-- `struct hashtable_free_block`.
pub record FreeBlock : Type 0 where
  pub offset : ℕ
  pub length : ℕ

abbrev pub block : ℕ → ℕ → FreeBlock
block o n = record { offset = o; length = n }

-- `free_list[i].offset + free_list[i].length`.
unfoldable pub end_of : FreeBlock → ℕ
unfolding add64
end_of b = add64 b.offset b.length

-- `arena_reset`: the whole storage is one free block.
unfoldable pub arena_reset : ℕ → List FreeBlock
arena_reset storage_size = block 0 storage_size ∷ []

-- `arena_free_block_adjoins`.
unfoldable pub arena_free_block_adjoins : FreeBlock → ℕ → ℕ → Bool
unfolding end_of
arena_free_block_adjoins b own_offset own_length =
    if own_length == 0
    then false
    else (end_of b == own_offset) || (b.offset == add64 own_offset own_length)

-- The body of the first loop of `arena_find_fit`, on `merged_offset` and `merged_length`: a free
-- block that touches the record's own block joins it.
unfoldable pub absorb : FreeBlock → ℕ → ℕ → FreeBlock → FreeBlock
unfolding arena_free_block_adjoins
absorb b own_offset own_length m =
    if arena_free_block_adjoins b own_offset own_length
    then block (if ltb b.offset m.offset then b.offset else m.offset) (add64 m.length b.length)
    else m

-- The first loop of `arena_find_fit`.
unfoldable pub merge_own : List FreeBlock → ℕ → ℕ → FreeBlock → FreeBlock
unfolding absorb
merge_own [] own_offset own_length m = m
merge_own (b ∷ fl) own_offset own_length m =
    merge_own fl own_offset own_length (absorb b own_offset own_length m)

-- The second loop of `arena_find_fit`, from some block on, with `merged_pending`.
unfoldable pub fit_loop : List FreeBlock → ℕ → ℕ → ℕ → FreeBlock → Bool → Option ℕ
unfolding arena_free_block_adjoins
fit_loop [] own_offset own_length needed m pending =
    if pending && leb needed m.length then some m.offset else none
fit_loop (b ∷ fl) own_offset own_length needed m pending =
    let passed = pending && ltb m.offset b.offset in
    let rest = fit_loop fl own_offset own_length needed m (if passed then false else pending) in
    if passed && leb needed m.length
    then some m.offset
    else if arena_free_block_adjoins b own_offset own_length
    then rest
    else if leb needed b.length
    then some b.offset
    else rest

-- `arena_find_fit`: `some offset` is the return value 1 with `*offset_out`, `none` is 0.
unfoldable pub arena_find_fit : List FreeBlock → ℕ → ℕ → ℕ → Option ℕ
unfolding merge_own fit_loop
arena_find_fit fl own_offset own_length needed =
    let own = block own_offset own_length in
    if own_length == 0
    then fit_loop fl own_offset own_length needed own false
    else fit_loop fl own_offset own_length needed (merge_own fl own_offset own_length own) true

-- `arena_take`: the first block that holds the range loses it.
unfoldable pub arena_take : List FreeBlock → ℕ → ℕ → List FreeBlock
unfolding end_of
arena_take [] start length = []
arena_take (b ∷ fl) start length =
    let end = add64 start length in
    let rest = b ∷ arena_take fl start length in
    if ltb start b.offset || ltb (end_of b) end
    then rest
    else if (b.offset == start) && (end == end_of b)
    then fl
    else if b.offset == start
    then block end (sub64 (end_of b) end) ∷ fl
    else if end == end_of b
    then block b.offset (sub64 start b.offset) ∷ fl
    else block b.offset (sub64 start b.offset) ∷ block end (sub64 (end_of b) end) ∷ fl

-- The end of `arena_give` where no block stands before the range: `merge_prev` is 0.
unfoldable pub give_first : ℕ → ℕ → List FreeBlock → List FreeBlock
give_first start length [] = block start length ∷ []
give_first start length (b ∷ fl) =
    if b.offset == add64 start length
    then block start (add64 b.length length) ∷ fl
    else block start length ∷ b ∷ fl

-- The end of `arena_give` after the block `p`, with the blocks from index `i` on.
unfoldable pub give_between : FreeBlock → ℕ → ℕ → List FreeBlock → List FreeBlock
unfolding end_of give_first
give_between p start length [] =
    if end_of p == start
    then block p.offset (add64 p.length length) ∷ []
    else p ∷ give_first start length []
give_between p start length (b ∷ fl) =
    if end_of p == start
    then if b.offset == add64 start length
      then block p.offset (add64 p.length (add64 length b.length)) ∷ fl
      else block p.offset (add64 p.length length) ∷ b ∷ fl
    else p ∷ give_first start length (b ∷ fl)

-- The `while` loop of `arena_give` past its first block: `p` is `free_list[i - 1]`.
unfoldable pub give_after : FreeBlock → List FreeBlock → ℕ → ℕ → List FreeBlock
unfolding give_between
give_after p [] start length = give_between p start length []
give_after p (b ∷ fl) start length =
    if ltb b.offset start
    then p ∷ give_after b fl start length
    else give_between p start length (b ∷ fl)

unfoldable pub give_loop : List FreeBlock → ℕ → ℕ → List FreeBlock
unfolding give_after give_first
give_loop [] start length = give_first start length []
give_loop (b ∷ fl) start length =
    if ltb b.offset start then give_after b fl start length else give_first start length (b ∷ fl)

-- `arena_give`: the range becomes free and is joined with its neighbours.
unfoldable pub arena_give : List FreeBlock → ℕ → ℕ → List FreeBlock
unfolding give_loop
arena_give fl start length = if length == 0 then fl else give_loop fl start length

-- The loop of `hashtable_arena_validate`, from some block on: `first` is `i == 0`, `none` is the
-- return value -1, and `some total` the sum at the end.
unfoldable pub validate_loop : List FreeBlock → Bool → ℕ → ℕ → ℕ → Option ℕ
unfolding end_of
validate_loop [] first prev_end total storage_size = some total
validate_loop (b ∷ fl) first prev_end total storage_size =
    let rest = validate_loop fl false (end_of b) (add64 total b.length) storage_size in
    if b.length == 0
    then none
    else if ltb storage_size b.offset
    then none
    else if ltb (sub64 storage_size b.offset) b.length
    then none
    else if not first && leb b.offset prev_end
    then none
    else rest

-- `hashtable_arena_validate`: `true` is the return value 0.
unfoldable pub hashtable_arena_validate : List FreeBlock → ℕ → ℕ → ℕ → Bool
unfolding validate_loop
hashtable_arena_validate fl storage_size used capacity =
    if ltb (add64 capacity 1) (length fl)
    then false
    else elim (validate_loop fl true 0 0 storage_size) [
      | none ↦ false
      | some total ↦ total == sub64 storage_size used
    ]

-- `free_list[i]`. A read behind the list is ruled out by the loops' bounds.
abbrev pub block_at : List FreeBlock → ℕ → FreeBlock
block_at fl i = get_or fl i (block 0 0)

-- The binary search of `hashtable_arena_compact` and `hashtable_arena_validate_used_block`: the
-- test is true on the blocks before the place looked for. One round halves `high - low`; `none`
-- means that the fuel ran out.
unfoldable pub search_place : (FreeBlock → Bool) → List FreeBlock → ℕ → ℕ → ℕ → Option ℕ
search_place before fl zero low high = none
search_place before fl (suc fuel) low high =
    let mid = low + (high - low) / 2 in
    let right = search_place before fl fuel (mid + 1) high in
    let left = search_place before fl fuel low mid in
    if ltb low high then if before (block_at fl mid) then right else left else some low

-- The two tests at the end of `hashtable_arena_validate_used_block`.
unfoldable pub neighbours_clear : List FreeBlock → ℕ → ℕ → ℕ → Bool
unfolding end_of
neighbours_clear fl offset length' low =
    if not (low == 0) && ltb offset (end_of (block_at fl (low - 1)))
    then false
    else if ltb low (length fl) && ltb (block_at fl low).offset (add64 offset length')
    then false
    else true

-- `hashtable_arena_validate_used_block`: `some true` is the return value 0.
unfoldable pub hashtable_arena_validate_used_block : List FreeBlock → ℕ → ℕ → Option Bool
unfolding neighbours_clear search_place
hashtable_arena_validate_used_block fl offset length' =
    elim (search_place (λ b. leb b.offset offset) fl (length fl + 1) 0 (length fl)) [
      | none ↦ none
      | some low ↦ some (neighbours_clear fl offset length' low)
    ]
