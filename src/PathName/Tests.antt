-- ===== src/PathName/Tests.antt =====
-- Runs of path_name.c on concrete paths.
use app_c_platform.Base.{ℕ, ◌<◌, ◌≤◌, ◌≡◌, ◌⊎◌, List, [], ◌∷◌, some, none, map, length, arith, refl}
use app_c_platform.Result.{einval, enametoolong}
use app_c_platform.PathName.{
  written, emptied, normalize_sep, path_is_sep, path_basename, path_dirname, path_extension,
  path_strip_extension, path_join, append_parts, last_byte,
}
use app_c_platform.PathName.Join.{path_join_lem}
use app_c_platform.PathName.Split.{path_join-path_dirname}

-- "/usr\lib/a.c", with `/` as the platform's separator.
abbrev lib_path : List ℕ
lib_path = 47 ∷ 117 ∷ 115 ∷ 114 ∷ 92 ∷ 108 ∷ 47 ∷ 97 ∷ 46 ∷ 99 ∷ []

base_name : path_basename lib_path ≡ 97 ∷ 46 ∷ 99 ∷ []
unfolding path_basename
base_name = refl

dir_name : path_dirname 47 100 lib_path ≡ written (47 ∷ 117 ∷ 115 ∷ 114 ∷ 47 ∷ 108 ∷ [])
unfolding path_dirname
dir_name = refl

dir_root : path_dirname 47 100 (47 ∷ 97 ∷ 47 ∷ 47 ∷ []) ≡ written (47 ∷ [])
unfolding path_dirname
dir_root = refl

dir_short : path_dirname 47 6 lib_path ≡ emptied enametoolong
unfolding path_dirname
dir_short = refl

extension : path_extension lib_path ≡ 46 ∷ 99 ∷ []
unfolding path_extension
extension = refl

-- A name that starts with its only dot has no extension.
hidden : path_extension (47 ∷ 46 ∷ 97 ∷ []) ≡ []
unfolding path_extension
hidden = refl

stripped :
    path_strip_extension 100 lib_path ≡ written (47 ∷ 117 ∷ 115 ∷ 114 ∷ 92 ∷ 108 ∷ 47 ∷ 97 ∷ [])
unfolding path_strip_extension
stripped = refl

-- "a/", "", "/b" and "c".
joins :
    path_join 47 8 (some (97 ∷ 47 ∷ []) ∷ some [] ∷ some (47 ∷ 98 ∷ []) ∷ some (99 ∷ []) ∷ [])
    ≡ written (97 ∷ 47 ∷ 98 ∷ 47 ∷ 99 ∷ [])
unfolding path_join
joins = refl

joins_none : path_join 47 8 (some (97 ∷ []) ∷ none ∷ []) ≡ emptied einval
unfolding path_join
joins_none = refl

path_join_example :
    let w = append_parts 47 [] (some (97 ∷ 47 ∷ []) ∷ some (47 ∷ 98 ∷ []) ∷ []) in
    let r = path_join 47 8 (some (97 ∷ 47 ∷ []) ∷ some (47 ∷ 98 ∷ []) ∷ []) in
    ((r ≡ written w) × (length w < 8)) ⊎ ((r ≡ emptied enametoolong) × (8 ≤ length w))
path_join_example =
    path_join_lem 47 8 (omega arith) (omega arith) (97 ∷ 47 ∷ []) ((47 ∷ 98 ∷ []) ∷ [])
      (omega arith, (omega arith, tt))

split_example :
    (dir : List ℕ) × (path_dirname 47 20 (92 ∷ 97 ∷ 92 ∷ 98 ∷ 99 ∷ []) ≡ written dir)
    × (path_join 47 20 (some dir ∷ some (path_basename (92 ∷ 97 ∷ 92 ∷ 98 ∷ 99 ∷ [])) ∷ [])
        ≡ written (map (normalize_sep 47) (92 ∷ 97 ∷ 92 ∷ 98 ∷ 99 ∷ [])))
unfolding path_is_sep last_byte
split_example =
    path_join-path_dirname 47 92 (97 ∷ []) 92 98 (99 ∷ []) refl (refl, (refl, tt)) refl 20
      (omega arith) (omega arith)
