-- ===== src/PromptEdit.antt =====
-- prod/libsrc/cplat/prompt/prompt_edit.c. A buffer is the list of its bytes; whether `cplat_realloc`
-- gives the memory is the argument `grants`.
pub mod Laws
mod Tests
use Prim.Native.Nat.{bit_and}
use app_c_platform.Base.{
  ℕ, zero, suc, ◌+◌, ◌-◌, ◌*◌, Bool, true, false, ◌&&◌, ◌||◌, List, [], ◌∷◌, Option, none, some,
  ltb, leb, ◌==◌, if◌then◌else◌, length, get_or, mul64,
}
use app_c_platform.Result.{ResultCode, ok_code, invalid_argument, buffer_too_small}

unfoldable pub utf8_is_continuation : ℕ → Bool
utf8_is_continuation c = bit_and c 0xC0 == 0x80

-- The loop of `cplat_internal_prompt_edit_utf8_prev_boundary`.
unfoldable pub prev_loop : List ℕ → ℕ → ℕ
unfolding utf8_is_continuation
prev_loop buf zero = 0
prev_loop buf (suc p) =
    let rest = prev_loop buf p in
    if utf8_is_continuation (get_or buf (suc p) 0) then rest else suc p

unfoldable pub utf8_prev_boundary : List ℕ → ℕ → ℕ
unfolding prev_loop
utf8_prev_boundary buf zero = 0
utf8_prev_boundary buf (suc p) = prev_loop buf p

-- The loop of `cplat_internal_prompt_edit_utf8_next_boundary`, `n` bytes before the end.
unfoldable pub next_loop : List ℕ → ℕ → ℕ → ℕ
unfolding utf8_is_continuation
next_loop buf zero pos = pos
next_loop buf (suc n) pos =
    let rest = next_loop buf n (pos + 1) in
    if utf8_is_continuation (get_or buf pos 0) then rest else pos

unfoldable pub utf8_next_boundary : List ℕ → ℕ → ℕ → ℕ
unfolding next_loop
utf8_next_boundary buf len pos =
    if leb len pos then len else next_loop buf (len - (pos + 1)) (pos + 1)

-- The loop of `cplat_internal_prompt_edit_utf8_sanitize_boundary`.
unfoldable pub sanitize_loop : List ℕ → ℕ → ℕ → ℕ
unfolding utf8_is_continuation
sanitize_loop buf len zero = 0
sanitize_loop buf len (suc p) =
    let rest = sanitize_loop buf len p in
    if ltb (suc p) len && utf8_is_continuation (get_or buf (suc p) 0) then rest else suc p

unfoldable pub utf8_sanitize_boundary : List ℕ → ℕ → ℕ → ℕ
unfolding sanitize_loop
utf8_sanitize_boundary buf len pos = sanitize_loop buf len (if ltb len pos then len else pos)

-- The capacity after one round of the loop in `cplat_internal_prompt_edit_ensure_capacity`.
unfoldable pub next_capacity : ℕ → ℕ → ℕ
unfolding mul64
next_capacity max_bytes new_cap =
    let next_cap = mul64 new_cap 2 in
    if leb next_cap new_cap || ltb max_bytes next_cap then max_bytes else next_cap

-- The loop. `none` means that the fuel ran out.
unfoldable pub capacity_loop : ℕ → ℕ → ℕ → ℕ → Option ℕ
unfolding next_capacity
capacity_loop max_bytes required zero new_cap = none
capacity_loop max_bytes required (suc fuel) new_cap =
    let rest = capacity_loop max_bytes required fuel (next_capacity max_bytes new_cap) in
    if ltb new_cap required then rest else some new_cap

-- What `cplat_internal_prompt_edit_ensure_capacity` returns: 0 and `*cap`, or -1, or nothing, where
-- the fuel of its loop ran out.
pub data Ensured : Type 0 where
  ensured : ℕ → Ensured
  short : Ensured
  endless : Ensured

unfoldable pub ensure_capacity : Bool → ℕ → ℕ → ℕ → Ensured
unfolding capacity_loop
ensure_capacity grants cap max_bytes required =
    if leb required cap
    then ensured cap
    else if ltb max_bytes required
    then short
    else elim (capacity_loop max_bytes required (suc required) cap) [
      | none ↦ endless
      | some new_cap ↦ if grants then ensured new_cap else short
    ]

pub record Resolved : Type 0 where
  pub history_max : ℕ
  pub initial_capacity : ℕ
  pub max_bytes : ℕ

-- `cplat_internal_prompt_edit_resolve_options`, with `CPLAT_PROMPT_HISTORY_DEFAULT` and
-- `CPLAT_PROMPT_INPUT_BYTES_DEFAULT`.
unfoldable pub resolve_options : ℕ → ℕ → ℕ → ℕ → Resolved
resolve_options requested_history_max requested_initial requested_max initial_default =
    let history = if requested_history_max == 0 then 64 else requested_history_max in
    let bytes = if requested_max == 0 then 4096 else requested_max in
    let bytes' = if ltb bytes 2 then 2 else bytes in
    let initial = if requested_initial == 0 then initial_default else requested_initial in
    let initial' = if ltb initial 2 then 2 else initial in
    record {
      history_max = history;
      initial_capacity = if ltb bytes' initial' then bytes' else initial';
      max_bytes = bytes';
    }

-- The loop of `cplat_internal_prompt_edit_validate_initial_text`: whether a control byte is met.
unfoldable pub has_control : List ℕ → Bool
has_control [] = false
has_control (c ∷ cs) = (ltb c 0x20 || (c == 0x7F)) || has_control cs

pub data Validated : Type 0 where
  valid_length : ℕ → Validated
  invalid_text : ResultCode → Validated

-- `cplat_internal_prompt_edit_validate_initial_text`, where `length_out` is not NULL.
unfoldable pub validate_initial_text : Option (List ℕ) → ℕ → Validated
unfolding has_control
validate_initial_text none max_bytes = valid_length 0
validate_initial_text (some text) max_bytes =
    if has_control text
    then invalid_text invalid_argument
    else if (max_bytes == 0) || ltb (max_bytes - 1) (length text)
    then invalid_text buffer_too_small
    else valid_length (length text)
