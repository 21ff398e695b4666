-- ===== src/Prompt.antt =====
-- The line editor of prod/libsrc/cplat/prompt/prompt.c: the buffer, the history of each call site and
-- the keys of `prompt_readline_core`. `edit_buf` is the list of the `edit_len` bytes before the
-- terminator. The array of the contexts, found by file and line, is a function of the call site, where
-- a site without a context has the fresh one. The output on the terminal is not modelled. Whether an
-- allocation succeeds is the argument `grants`.
mod Valid
mod History
mod Keys
mod Reach
mod Tests
use app_c_platform.Base.{
  ℕ, zero, suc, ◌+◌, ◌-◌, ◌%◌, ◌≤◌, ◌≡◌, Bool, true, false, ◌&&◌, ◌||◌, not, List, [], ◌∷◌, ◌++◌,
  Option, none, some, ltb, leb, ◌==◌, if◌then◌else◌, length, take, drop, add64,
}
use app_c_platform.Hashtable.Store.{update, until_nul}
use app_c_platform.PromptEdit.{
  Ensured, ensured, short, endless, ensure_capacity, utf8_prev_boundary, utf8_next_boundary,
  Resolved, resolve_options, Validated, valid_length, validate_initial_text,
}

-- `cplat_internal_prompt_ctx`; `none` stands for the `browse_idx` -1.
pub record Context : Type 0 where
  pub entries : ℕ → Option (List ℕ)
  pub first : ℕ
  pub count : ℕ
  pub browse_idx : Option ℕ
  pub saved_line : List ℕ

-- A context as `find_or_create_ctx` makes it.
abbrev pub fresh : Context
fresh = record { entries = λ i. none; first = 0; count = 0; browse_idx = none; saved_line = [] }

-- The changing part of `cplat_prompt`.
pub record Prompt : Type 0 where
  pub edit_buf : List ℕ
  pub edit_cap : ℕ
  pub cursor : ℕ
  pub contexts : ℕ → Context

-- `cplat_prompt_create` with the options as resolved, where the memory is given.
unfoldable pub prompt_create : Resolved → Prompt
prompt_create l = record {
  edit_buf = [];
  edit_cap = l.initial_capacity;
  cursor = 0;
  contexts = λ site. fresh;
}

-- `HIST_IDX`.
unfoldable pub hist_idx : Resolved → Context → ℕ → ℕ
hist_idx l ctx i = (ctx.first + i) % l.history_max

-- `strcmp(…) == 0`.
unfoldable pub same_line : List ℕ → List ℕ → Bool
same_line [] [] = true
same_line [] (d ∷ ds) = false
same_line (c ∷ cs) [] = false
same_line (c ∷ cs) (d ∷ ds) = (c == d) && same_line cs ds

-- Whether the newest entry is the line.
unfoldable pub is_newest : Resolved → Context → List ℕ → Bool
unfolding hist_idx same_line
is_newest l ctx line =
    if ltb 0 ctx.count
    then elim (ctx.entries (hist_idx l ctx (ctx.count - 1))) [
      | none ↦ false
      | some entry ↦ same_line entry line
    ]
    else false

-- A place for one more entry: the oldest goes where the history is full.
unfoldable pub make_place : Resolved → Context → Context
make_place l ctx =
    if ctx.count == l.history_max
    then record ctx {
      entries = update ctx.entries ctx.first none;
      first = (ctx.first + 1) % l.history_max;
    }
    else record ctx { count = ctx.count + 1 }

-- `history_add`.
unfoldable pub history_add : Resolved → Context → List ℕ → Bool → Context
unfolding is_newest make_place hist_idx
history_add l ctx line grants =
    let ctx' = make_place l ctx in
    let slot = hist_idx l ctx' (ctx'.count - 1) in
    if (l.history_max == 0) || (length line == 0)
    then ctx
    else if is_newest l ctx line
    then ctx
    else record ctx' { entries = update ctx'.entries slot (if grants then some line else none) }

-- A line in place of the buffer's, with the cursor at its end.
abbrev pub put_line : Prompt → List ℕ → Prompt
put_line p line = record p { edit_buf = line; cursor = length line }

-- The copy of a line after `cplat_internal_prompt_edit_ensure_capacity`, cut where it has no room.
-- `none` means that a loop does not end.
unfoldable pub set_line : Resolved → Prompt → List ℕ → Bool → Option Prompt
unfolding ensure_capacity add64
set_line l p line grants =
    elim (ensure_capacity grants p.edit_cap l.max_bytes (add64 (length line) 1)) [
      | ensured new_cap ↦ some (put_line (record p { edit_cap = new_cap }) line)
      | short ↦ some (put_line p (take (p.edit_cap - 1) line))
      | endless ↦ none
    ]

abbrev pub set_context : Prompt → ℕ → Context → Prompt
set_context p site ctx = record p { contexts = update p.contexts site ctx }

-- `history_browse_prev` from the entry on.
unfoldable pub browse_to : Resolved → Prompt → ℕ → Context → ℕ → Bool → Option Prompt
unfolding set_line hist_idx
browse_to l p site ctx index grants =
    let p' = set_context p site (record ctx { browse_idx = some index }) in
    elim (ctx.entries (hist_idx l ctx index)) [
      | none ↦ some p'
      | some entry ↦ set_line l p' entry grants
    ]

-- `history_browse_prev`.
unfoldable pub history_browse_prev : Resolved → Prompt → ℕ → Bool → Option Prompt
unfolding browse_to until_nul
history_browse_prev l p site grants =
    let ctx = p.contexts site in
    let from_newest =
      browse_to l p site (record ctx { saved_line = until_nul p.edit_buf }) (ctx.count - 1)
        grants in
    if ctx.count == 0 then some p else elim ctx.browse_idx [
      | none ↦ from_newest
      | some zero ↦ some p
      | some (suc index) ↦ browse_to l p site ctx index grants
    ]

-- The two branches of `history_browse_next` while the history is browsed. The first copies the entry
-- without a test of the capacity.
unfoldable pub browse_on : Resolved → Prompt → ℕ → Context → ℕ → Bool → Option Prompt
unfolding set_line hist_idx
browse_on l p site ctx index grants =
    let p' = set_context p site (record ctx { browse_idx = some (index + 1) }) in
    let newer : Option Prompt = elim (ctx.entries (hist_idx l ctx (index + 1))) [
      | none ↦ some p'
      | some entry ↦ some (put_line p' entry)
    ] in
    if ltb index (ctx.count - 1)
    then newer
    else set_line l (set_context p site (record ctx { browse_idx = none })) ctx.saved_line grants

-- `history_browse_next`.
unfoldable pub history_browse_next : Resolved → Prompt → ℕ → Bool → Option Prompt
unfolding browse_on
history_browse_next l p site grants =
    let ctx = p.contexts site in
    elim ctx.browse_idx [ none ↦ some p | some index ↦ browse_on l p site ctx index grants ]

-- `prompt_key`, with the byte of `KEY_CHAR`. `KEY_EOF` and `KEY_CTRL_C` end the call with no change of
-- the state, as `KEY_RESIZE` and `KEY_UNKNOWN` go on with none.
pub data Key : Type 0 where
  char : ℕ → Key
  enter backspace delete left right up down home to_end clear no_change : Key

-- `KEY_CHAR`.
unfoldable pub insert_char : Resolved → Prompt → ℕ → Bool → Option Prompt
unfolding ensure_capacity add64
insert_char l p ch grants =
    elim (ensure_capacity grants p.edit_cap l.max_bytes (add64 (length p.edit_buf) 2)) [
      | ensured new_cap ↦ some (record p {
        edit_cap = new_cap;
        edit_buf = take p.cursor p.edit_buf ++ (ch ∷ drop p.cursor p.edit_buf);
        cursor = p.cursor + 1;
      })
      | short ↦ some p
      | endless ↦ none
    ]

-- `KEY_BACKSPACE`.
unfoldable pub erase_before : Prompt → Prompt
unfolding utf8_prev_boundary
erase_before p =
    let prev = utf8_prev_boundary p.edit_buf p.cursor in
    if ltb 0 p.cursor
    then record p { edit_buf = take prev p.edit_buf ++ drop p.cursor p.edit_buf; cursor = prev }
    else p

-- `KEY_DELETE`.
unfoldable pub erase_after : Prompt → Prompt
unfolding utf8_next_boundary
erase_after p =
    let next = utf8_next_boundary p.edit_buf (length p.edit_buf) p.cursor in
    if ltb p.cursor (length p.edit_buf)
    then record p { edit_buf = take p.cursor p.edit_buf ++ drop next p.edit_buf }
    else p

-- A key in the loop of `prompt_readline_core`.
unfoldable pub press : Resolved → Prompt → ℕ → Key → Bool → Option Prompt
unfolding insert_char erase_before erase_after history_add history_browse_prev history_browse_next
    until_nul
press l p site (char ch) grants = insert_char l p ch grants
press l p site enter grants = some (
    if ltb 0 (length p.edit_buf)
    then set_context p site (history_add l (p.contexts site) (until_nul p.edit_buf) grants)
    else p)
press l p site backspace grants = some (erase_before p)
press l p site delete grants = some (erase_after p)
press l p site left grants =
    some
      (if ltb 0 p.cursor then record p { cursor = utf8_prev_boundary p.edit_buf p.cursor } else p)
press l p site right grants = some (
    if ltb p.cursor (length p.edit_buf)
    then record p { cursor = utf8_next_boundary p.edit_buf (length p.edit_buf) p.cursor }
    else p)
press l p site up grants = history_browse_prev l p site grants
press l p site down grants = history_browse_next l p site grants
press l p site home grants = some (record p { cursor = 0 })
press l p site to_end grants = some (record p { cursor = length p.edit_buf })
press l p site clear grants =
    some (record (set_context p site (record (p.contexts site) { browse_idx = none })) {
      edit_buf = [];
      cursor = 0;
    })
press l p site no_change grants = some p

-- What `KEY_ENTER` copies to the caller's buffer, before the terminator.
unfoldable pub returned_line : ℕ → Prompt → List ℕ
returned_line buf_size p =
    let copy = if ltb (length p.edit_buf) (buf_size - 1) then length p.edit_buf else buf_size - 1 in
    take copy p.edit_buf

-- `prompt_readline_core` up to its loop, on a valid initial text of `initial_length` bytes. The
-- buffer stays empty where the memory for the text is not given, and the call ends.
unfoldable pub begin_line : Resolved → Prompt → ℕ → List ℕ → ℕ → Bool → Option Prompt
unfolding ensure_capacity add64
begin_line l p site initial_text initial_length grants =
    let ctx = p.contexts site in
    let p' = record (set_context p site (record ctx { browse_idx = none })) {
      edit_buf = [];
      cursor = 0;
    } in
    let filled : Option Prompt =
      elim (ensure_capacity grants p.edit_cap l.max_bytes (add64 initial_length 1)) [
        | ensured new_cap ↦
            some (put_line (record p' { edit_cap = new_cap }) (take initial_length initial_text))
        | short ↦ some p'
        | endless ↦ none
      ] in
    if ltb 0 initial_length then filled else some p'
