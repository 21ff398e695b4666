-- ===== src/LanguageTag.antt =====
-- prod/libsrc/cplat/locale/ui_language_tag.c, with the functions of the C library in the "C" locale.
-- A text is the list of its bytes before the terminator, and a NULL pointer is `none`.
mod Chars
mod Canonical
mod Loop
mod Fixed
mod Laws
mod Tests
use app_c_platform.Base.{
  ℕ, zero, suc, ◌+◌, ◌-◌, Bool, true, false, ◌&&◌, ◌||◌, not, List, [], ◌∷◌, ◌++◌, Option, none,
  some, ltb, leb, ◌==◌, if◌then◌else◌, length, take, drop, add64,
}
use app_c_platform.Result.{ResultCode, ok_code, invalid_argument, buffer_too_small}

-- `isalpha`, `isdigit`, `toupper` and `tolower`.
unfoldable pub is_upper : ℕ → Bool
is_upper c = leb 65 c && leb c 90

unfoldable pub is_lower : ℕ → Bool
is_lower c = leb 97 c && leb c 122

unfoldable pub is_digit : ℕ → Bool
is_digit c = leb 48 c && leb c 57

unfoldable pub to_upper : ℕ → ℕ
unfolding is_lower
to_upper c = if is_lower c then c - 32 else c

unfoldable pub to_lower : ℕ → ℕ
unfolding is_upper
to_lower c = if is_upper c then c + 32 else c

unfoldable pub is_alpha_text : List ℕ → Bool
unfolding is_upper is_lower
is_alpha_text [] = true
is_alpha_text (c ∷ cs) = (is_upper c || is_lower c) && is_alpha_text cs

unfoldable pub is_digit_text : List ℕ → Bool
unfolding is_digit
is_digit_text [] = true
is_digit_text (c ∷ cs) = is_digit c && is_digit_text cs

-- `subtag_length`: the bytes before `_`, `-` or the end.
unfoldable pub subtag_length : List ℕ → ℕ
subtag_length [] = 0
subtag_length (c ∷ cs) =
    let rest = subtag_length cs in if (c == 95) || (c == 45) then 0 else suc rest

-- `strcspn(value, ".@")`.
unfoldable pub name_length : List ℕ → ℕ
name_length [] = 0
name_length (c ∷ cs) = let rest = name_length cs in if (c == 46) || (c == 64) then 0 else suc rest

-- `cplat_strcasecmp(lhs, rhs) == 0`.
unfoldable pub strcasecmp : List ℕ → List ℕ → Bool
unfolding to_lower
strcasecmp [] [] = true
strcasecmp [] (d ∷ ds) = false
strcasecmp (c ∷ cs) [] = false
strcasecmp (c ∷ cs) (d ∷ ds) = (to_lower c == to_lower d) && strcasecmp cs ds

-- The loop of `append_subtag`: the first `upper_length` bytes in upper case, the others in lower case.
unfoldable pub in_case : ℕ → List ℕ → List ℕ
unfolding to_upper to_lower
in_case upper_length [] = []
in_case zero (c ∷ cs) = to_lower c ∷ in_case zero cs
in_case (suc upper_length) (c ∷ cs) = to_upper c ∷ in_case upper_length cs

-- `append_subtag`.
unfoldable pub append_subtag : List ℕ → List ℕ → ℕ → List ℕ
unfolding in_case
append_subtag tag text upper_length =
    (if ltb 0 (length tag) then tag ++ (45 ∷ []) else tag) ++ in_case upper_length text

-- What the loop over the subtags ends with: the tag, a refusal of the value, or nothing, where the
-- fuel ran out.
pub data Looped : Type 0 where
  tagged : List ℕ → Looped
  malformed : Looped
  unfinished : Looped

-- The `while` loop of `cplat_internal_ui_language_normalize`, on the text from `offset` on.
unfoldable pub tag_loop : ℕ → List ℕ → Bool → Bool → List ℕ → Looped
unfolding subtag_length is_alpha_text is_digit_text append_subtag
tag_loop zero rest has_script has_region tag = unfinished
tag_loop (suc fuel) [] has_script has_region tag = tagged tag
tag_loop (suc fuel) (separator ∷ text) has_script has_region tag =
    let len = subtag_length text in
    let subtag = take len text in
    let rest = drop len text in
    let with_script = tag_loop fuel rest true has_region (append_subtag tag subtag 1) in
    let with_region = tag_loop fuel rest has_script true (append_subtag tag subtag len) in
    if len == 0
    then malformed
    else if not has_script && (not has_region && ((len == 4) && is_alpha_text subtag))
    then with_script
    else if not has_region
        && (((len == 2) && is_alpha_text subtag) || ((len == 3) && is_digit_text subtag))
    then with_region
    else tagged tag

-- `CPLAT_UI_LANGUAGE_TAG_MAX`.
abbrev pub tag_max : ℕ
tag_max = 85

-- What a call leaves: the result, and the text in `tag_out`, where it is written.
pub record Normalized : Type 0 where
  pub result : ResultCode
  pub tag_out : Option (List ℕ)

abbrev pub refused : Normalized
refused = record { result = invalid_argument; tag_out = some [] }

-- `cplat_strcpy(tag_out, tag_size, tag)`.
unfoldable pub copy_tag : ℕ → List ℕ → Normalized
unfolding add64
copy_tag tag_size tag =
    if ltb tag_size (add64 (length tag) 1)
    then record { result = buffer_too_small; tag_out = some [] }
    else record { result = ok_code; tag_out = some tag }

-- From the language's subtag on.
unfoldable pub normalize_work : ℕ → List ℕ → Normalized
unfolding tag_loop copy_tag append_subtag is_alpha_text subtag_length
normalize_work tag_size work =
    let offset = subtag_length work in
    if ltb offset 2 || (ltb 3 offset || not (is_alpha_text (take offset work)))
    then refused
    else elim (tag_loop (suc (length work)) (drop offset work) false false
        (append_subtag [] (take offset work) 0)) [
          | tagged tag ↦ copy_tag tag_size tag
          | malformed ↦ refused
          | unfinished ↦ refused
        ]

-- `cplat_internal_ui_language_normalize`, where `tag_out` is not NULL.
unfoldable pub ui_language_normalize : Option (List ℕ) → ℕ → Normalized
unfolding normalize_work name_length strcasecmp
ui_language_normalize none tag_size =
    if tag_size == 0 then record { result = invalid_argument; tag_out = none } else refused
ui_language_normalize (some value) tag_size =
    let work_length = name_length value in
    let work = take work_length value in
    if tag_size == 0
    then record { result = invalid_argument; tag_out = none }
    else if (work_length == 0) || leb tag_max work_length
    then refused
    else if strcasecmp work (67 ∷ []) || strcasecmp work (80 ∷ 79 ∷ 83 ∷ 73 ∷ 88 ∷ [])
    then record { result = ok_code; tag_out = some [] }
    else normalize_work tag_size work
