-- ===== src/PathName.antt =====
-- prod/libsrc/cplat/crt/path_name.c. A path is the list of its bytes before the terminator, a
-- position in it is an index, and a NULL pointer is `none`. The separator that the platform writes
-- (`PLATFORM_PATH_SEP_CHR`) is the argument `path_sep`.
mod Split
pub mod Join
mod Tests
use app_c_platform.Base.{
  ℕ, zero, suc, ◌+◌, ◌-◌, Bool, true, false, ◌&&◌, ◌||◌, not, List, [], ◌∷◌, ◌++◌, Option, none,
  some, map, ltb, leb, ◌==◌, if◌then◌else◌, length, take, drop, get_or, add64, sub64,
}
use app_c_platform.Result.{Errno, einval, enametoolong}

unfoldable pub path_is_sep : ℕ → Bool
path_is_sep c = (c == 47) || (c == 92)

-- What a call leaves: the text in `path_out`, where it is written, and the error, if any.
pub record Written : Type 0 where
  pub path_out : Option (List ℕ)
  pub error : Option Errno

abbrev pub written : List ℕ → Written
written text = record { path_out = some text; error = none }

-- The buffer is not touched.
abbrev pub failed : Errno → Written
failed e = record { path_out = none; error = some e }

-- The buffer holds the empty text.
abbrev pub emptied : Errno → Written
emptied e = record { path_out = some []; error = some e }

-- `copy_path_name_text`, where `text` is not NULL.
unfoldable pub copy_path_name_text : ℕ → List ℕ → Written
unfolding add64
copy_path_name_text path_size text =
    if path_size == 0
    then failed einval
    else if ltb path_size (add64 (length text) 1)
    then emptied enametoolong
    else written text

-- The loops for the last byte that passes a test, from the index `i` on; `last` is what was found
-- before.
unfoldable pub last_where : (ℕ → Bool) → List ℕ → ℕ → Option ℕ → Option ℕ
last_where test [] i last = last
last_where test (c ∷ cs) i last = last_where test cs (i + 1) (if test c then some i else last)

-- `cplat_path_basename`.
unfoldable pub path_basename : List ℕ → List ℕ
unfolding last_where path_is_sep
path_basename path = elim (last_where path_is_sep path 0 none) [
  | none ↦ path
  | some last_sep ↦ drop (last_sep + 1) path
]

-- The loop that moves `end` before the separators at the end of the path.
unfoldable pub trim_end : List ℕ → ℕ → ℕ
unfolding path_is_sep
trim_end path zero = 0
trim_end path (suc zero) = 1
trim_end path (suc (suc e)) =
    let rest = trim_end path (suc e) in
    if path_is_sep (get_or path (suc e) 0) then rest else suc (suc e)

-- The loop that copies the directory's name with the platform's separators.
unfoldable pub normalize_sep : ℕ → ℕ → ℕ
unfolding path_is_sep
normalize_sep path_sep c = if path_is_sep c then path_sep else c

-- `cplat_path_dirname` from the test of `last_sep` on.
unfoldable pub dirname_at : ℕ → ℕ → List ℕ → Option ℕ → Written
unfolding copy_path_name_text normalize_sep add64
dirname_at path_sep path_size path none = copy_path_name_text path_size (46 ∷ [])
dirname_at path_sep path_size path (some zero) = copy_path_name_text path_size (path_sep ∷ [])
dirname_at path_sep path_size path (some (suc n)) =
    if ltb path_size (add64 (suc n) 1)
    then emptied enametoolong
    else written (map (normalize_sep path_sep) (take (suc n) path))

-- `cplat_path_dirname`.
unfoldable pub path_dirname : ℕ → ℕ → List ℕ → Written
unfolding dirname_at trim_end last_where path_is_sep
path_dirname path_sep path_size [] = failed einval
path_dirname path_sep path_size (c ∷ cs) =
    if path_size == 0
    then failed einval
    else dirname_at path_sep path_size (c ∷ cs)
        (last_where path_is_sep (take (trim_end (c ∷ cs) (length (c ∷ cs))) (c ∷ cs)) 0 none)

-- `cplat_path_extension`.
unfoldable pub path_extension : List ℕ → List ℕ
unfolding path_basename last_where
path_extension path =
    let base = path_basename path in
    elim (last_where (λ c. c == 46) base 0 none) [
      | none ↦ []
      | some zero ↦ []
      | some (suc n) ↦ drop (suc n) base
    ]

-- `cplat_path_strip_extension`.
unfoldable pub path_strip_extension : ℕ → List ℕ → Written
unfolding path_extension add64
path_strip_extension path_size [] = failed einval
path_strip_extension path_size (c ∷ cs) =
    let len = length (c ∷ cs) - length (path_extension (c ∷ cs)) in
    if path_size == 0
    then failed einval
    else if ltb path_size (add64 len 1)
    then emptied enametoolong
    else written (take len (c ∷ cs))

-- What the first loop of `cplat_vpath_join_n` ends with: `required_size`, or an error.
pub data Measured : Type 0 where
  requires : ℕ → Measured
  rejects : Errno → Measured

-- The last byte of a text, where there is one.
unfoldable pub last_byte : ℕ → List ℕ → ℕ
last_byte c [] = c
last_byte c (d ∷ ds) = last_byte d ds

-- The first loop, with `required_size`, `have_prev_nonempty` and `prev_ends_with_sep`.
unfoldable pub measure_parts : ℕ → List (Option (List ℕ)) → ℕ → Bool → Bool → Measured
unfolding path_is_sep last_byte add64 sub64
measure_parts path_size [] required have_prev ends = requires required
measure_parts path_size (none ∷ parts) required have_prev ends = rejects einval
measure_parts path_size (some [] ∷ parts) required have_prev ends =
    measure_parts path_size parts required have_prev ends
measure_parts path_size (some (c ∷ cs) ∷ parts) required have_prev ends =
    let starts = path_is_sep c in
    let skip = if have_prev && (ends && starts) then 1 else 0 in
    let need = have_prev && (not ends && not starts) in
    let required' = if need then add64 required 1 else required in
    let more = sub64 (length (c ∷ cs)) skip in
    let rest =
      measure_parts path_size parts (add64 required' more) true (path_is_sep (last_byte c cs)) in
    if need && leb path_size required
    then rejects enametoolong
    else if ltb (sub64 path_size required') more
    then rejects enametoolong
    else rest

-- One part in the second loop, after the bytes `path_out`.
unfoldable pub append_part : ℕ → List ℕ → ℕ → List ℕ → List ℕ
unfolding path_is_sep last_byte
append_part path_sep [] c cs = c ∷ cs
append_part path_sep (p ∷ ps) c cs =
    let ends = path_is_sep (last_byte p ps) in
    let starts = path_is_sep c in
    if ends && starts
    then (p ∷ ps) ++ cs
    else if not ends && not starts
    then (p ∷ ps) ++ (path_sep ∷ c ∷ cs)
    else (p ∷ ps) ++ (c ∷ cs)

-- The second loop of `cplat_vpath_join_n`, which runs when no part is NULL.
unfoldable pub append_parts : ℕ → List ℕ → List (Option (List ℕ)) → List ℕ
unfolding append_part
append_parts path_sep path_out [] = path_out
append_parts path_sep path_out (none ∷ parts) = append_parts path_sep path_out parts
append_parts path_sep path_out (some [] ∷ parts) = append_parts path_sep path_out parts
append_parts path_sep path_out (some (c ∷ cs) ∷ parts) =
    append_parts path_sep (append_part path_sep path_out c cs) parts

-- `cplat_vpath_join_n`.
unfoldable pub path_join : ℕ → ℕ → List (Option (List ℕ)) → Written
unfolding measure_parts append_parts
path_join path_sep path_size [] = failed einval
path_join path_sep path_size (p ∷ parts) =
    if path_size == 0
    then failed einval
    else elim (measure_parts path_size (p ∷ parts) 1 false false) [
      | rejects e ↦ emptied e
      | requires n ↦ written (append_parts path_sep [] (p ∷ parts))
    ]
