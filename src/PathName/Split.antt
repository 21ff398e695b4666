-- ===== src/PathName/Split.antt =====
-- Proofs about `cplat_path_basename` and `cplat_path_dirname` of path_name.c: what they take apart,
-- `cplat_vpath_join_n` puts together.
use app_c_platform.Base.{
  ℕ, zero, suc, ◌+◌, ◌<◌, ◌^◌, ◌≡◌, inl, inr, Bool, true, false, List, [], ◌∷◌, ◌++◌, Option, none,
  some, map, ltb, if◌then◌else◌, length, take, drop, get_or, arith, refl, sym, ◌∙◌, ap, add64,
  add64-eq, le→ltb, ne→==, length-append, length-map, take_all, take-append,
}
use mathlib.Core.List.{map-append}
use app_c_platform.PathName.{
  path_is_sep, Written, written, last_byte, last_where, trim_end, path_basename, normalize_sep,
  dirname_at, path_dirname, append_part, append_parts, path_join,
}
use app_c_platform.PathName.Join.{Short, path_join_lem}

-- No byte is a separator.
abbrev pub NoSep : List ℕ → Type 0
NoSep [] = Unit
NoSep (c ∷ cs) = (path_is_sep c ≡ false) × NoSep cs

last_where-append :
    (test : ℕ → Bool) (xs ys : List ℕ) (i : ℕ) (o : Option ℕ)
    → last_where test (xs ++ ys) i o ≡ last_where test ys (i + length xs) (last_where test xs i o)
unfolding last_where
last_where-append test [] ys i o = ap (λ n. last_where test ys n o) (omega arith)
last_where-append test (x ∷ xs) ys i o =
    let o' = if test x then some i else o in
    last_where-append test xs ys (i + 1) o'
    ∙ ap (λ n. last_where test ys n (last_where test xs (i + 1) o')) (omega arith)

last_where-NoSep : (b : List ℕ) (i : ℕ) (o : Option ℕ) → NoSep b → last_where path_is_sep b i o ≡ o
unfolding last_where
last_where-NoSep [] i o h = refl
last_where-NoSep (c ∷ cs) i o h = rw h.0 (last_where-NoSep cs (i + 1) o h.1)

get_or-NoSep : (b : List ℕ) (i : ℕ) → NoSep b → path_is_sep (get_or b i 0) ≡ false
unfolding path_is_sep
get_or-NoSep [] i h = refl
get_or-NoSep (c ∷ cs) zero h = h.0
get_or-NoSep (c ∷ cs) (suc i) h = get_or-NoSep cs i h.1

get_or-append : (xs ys : List ℕ) (i : ℕ) → get_or (xs ++ ys) (length xs + i) 0 ≡ get_or ys i 0
get_or-append [] ys i = ap (λ n. get_or ys n 0) (omega arith)
get_or-append (x ∷ xs) ys i =
    let e : suc (length xs) + i ≡ suc (length xs + i) = omega arith in
    ap (λ n. get_or (x ∷ xs ++ ys) n 0) e ∙ get_or-append xs ys i

drop-length : (xs : List ℕ) (s : ℕ) (ys : List ℕ) → drop (length xs + 1) (xs ++ (s ∷ ys)) ≡ ys
drop-length [] s ys = refl
drop-length (x ∷ xs) s ys =
    let e : suc (length xs) + 1 ≡ suc (length xs + 1) = omega arith in
    ap (λ n. drop n (x ∷ xs ++ (s ∷ ys))) e ∙ drop-length xs s ys

trim_stop :
    (path : List ℕ) (e : ℕ)
    → path_is_sep (get_or path (suc e) 0) ≡ false
    → trim_end path (suc (suc e)) ≡ suc (suc e)
unfolding trim_end
trim_stop path e h = rw h refl

module _ (path_sep : ℕ) where
  map-NoSep : (b : List ℕ) → NoSep b → map (normalize_sep path_sep) b ≡ b
  unfolding normalize_sep
  map-NoSep [] h = refl
  map-NoSep (c ∷ cs) h = rw (h.0, map-NoSep cs h.1) refl

  normal_sep : (s : ℕ) → path_is_sep s ≡ true → normalize_sep path_sep s ≡ path_sep
  unfolding normalize_sep
  normal_sep s h = rw h refl

  -- `c ∷ cs` is the directory, `s` the separator and `d ∷ ds` the last component.
  module _ (c : ℕ) (cs : List ℕ) (s d : ℕ) (ds : List ℕ) (is_sep : path_is_sep s ≡ true)
      (base : NoSep (d ∷ ds)) where
    abbrev path : List ℕ
    path = (c ∷ cs) ++ (s ∷ d ∷ ds)

    last_sep : last_where path_is_sep path 0 none ≡ some (length (c ∷ cs))
    unfolding last_where
    last_sep =
        let o = last_where path_is_sep (c ∷ cs) 0 none in
        let i : ℕ = 0 + length (c ∷ cs) in
        let at_sep : last_where path_is_sep (s ∷ d ∷ ds) i o ≡ some i =
          rw is_sep (last_where-NoSep (d ∷ ds) (i + 1) (some i) base) in
        last_where-append path_is_sep (c ∷ cs) (s ∷ d ∷ ds) 0 none ∙ at_sep ∙ ap some (omega arith)

    pub path_basename-eq : path_basename path ≡ d ∷ ds
    unfolding path_basename
    path_basename-eq =
        let on : Option ℕ → List ℕ = λ o. elim o [ none ↦ path | some n ↦ drop (n + 1) path ] in
        ap on last_sep ∙ drop-length (c ∷ cs) s (d ∷ ds)

    no_trim : trim_end path (length path) ≡ length path
    no_trim =
        let e : ℕ = length cs + suc (length ds) in
        let len : length path ≡ suc (suc e) = omega (arith, length-append (c ∷ cs) (s ∷ d ∷ ds)) in
        let index : suc e ≡ length (c ∷ cs) + suc (length ds) = omega arith in
        let final : get_or path (suc e) 0 ≡ get_or (d ∷ ds) (length ds) 0 =
          ap (λ n. get_or path n 0) index ∙ get_or-append (c ∷ cs) (s ∷ d ∷ ds) (suc (length ds)) in
        ap (trim_end path) len
        ∙ trim_stop path e (ap path_is_sep final ∙ get_or-NoSep (d ∷ ds) (length ds) base)
        ∙ sym len

    pub path_dirname-eq :
        (path_size : ℕ)
        → length (c ∷ cs) < path_size
        → path_size < 2 ^ 64
        → path_dirname path_sep path_size path ≡ written (map (normalize_sep path_sep) (c ∷ cs))
    unfolding path_dirname dirname_at
    path_dirname-eq path_size room big =
        let norm = normalize_sep path_sep in
        let on : List ℕ → Written =
          λ l. dirname_at path_sep path_size path (last_where path_is_sep l 0 none) in
        let cut : take (trim_end path (length path)) path ≡ path =
          ap (λ n. take n path) no_trim ∙ take_all path in
        let start : path_dirname path_sep path_size path ≡ on path =
          rw (ne→== path_size 0 (omega arith)) (ap on cut) in
        let room' : ltb path_size (add64 (length (c ∷ cs)) 1) ≡ false =
          ap (ltb path_size) (add64-eq (length (c ∷ cs)) 1 (omega arith))
          ∙ le→ltb path_size (length (c ∷ cs) + 1) (omega arith) in
        start
        ∙ ap (dirname_at path_sep path_size path) last_sep
        ∙ rw room' (ap (λ l. written (map norm l)) (take-append (c ∷ cs) (s ∷ d ∷ ds)))

    last_normal :
        (p : ℕ) (ps : List ℕ)
        → path_is_sep (last_byte p ps) ≡ false
        → path_is_sep (last_byte (normalize_sep path_sep p) (map (normalize_sep path_sep) ps))
          ≡ false
    unfolding last_byte normalize_sep
    last_normal p [] h = rw h h
    last_normal p (q ∷ ps) h = last_normal q ps h

    joined :
        path_is_sep (last_byte c cs) ≡ false
        → append_parts path_sep []
            (some (map (normalize_sep path_sep) (c ∷ cs)) ∷ some (d ∷ ds) ∷ [])
          ≡ map (normalize_sep path_sep) path
    unfolding append_parts append_part
    joined plain =
        let norm = normalize_sep path_sep in
        let sep : norm s ≡ path_sep = normal_sep s is_sep in
        rw (last_normal c cs plain, base.0)
          (sym (
            map-append norm (c ∷ cs) (s ∷ d ∷ ds)
            ∙ ap (λ l. map norm (c ∷ cs) ++ l)
                (ap (λ x. x ∷ map norm (d ∷ ds)) sep
                  ∙ ap (λ l. path_sep ∷ l) (map-NoSep (d ∷ ds) base))))

    -- A path of a directory that does not end in a separator, a separator, and a last component: the
    -- call of `cplat_vpath_join_n` on what `cplat_path_dirname` and `cplat_path_basename` give, in a
    -- buffer that holds the path, writes the path again, with the platform's separator at each
    -- separator.
    pub path_join-path_dirname :
        path_is_sep (last_byte c cs) ≡ false
        → (path_size : ℕ) → length path < path_size
        → path_size < 2 ^ 64
        → (dir : List ℕ) × (path_dirname path_sep path_size path ≡ written dir)
          × (path_join path_sep path_size (some dir ∷ some (path_basename path) ∷ [])
              ≡ written (map (normalize_sep path_sep) path))
    path_join-path_dirname plain path_size room big =
        let norm = normalize_sep path_sep in
        let dir : List ℕ = map norm (c ∷ cs) in
        let len = length-append (c ∷ cs) (s ∷ d ∷ ds) in
        let short : Short (dir ∷ (d ∷ ds) ∷ []) =
          (omega (arith, len, length-map (c ∷ cs) norm), (omega (arith, len), tt)) in
        let all = length-map path norm in
        let join : List ℕ → Written =
          λ base. path_join path_sep path_size (some dir ∷ some base ∷ []) in
        (
          dir,
          path_dirname-eq path_size (omega (arith, len)) big,
          ap join path_basename-eq
              ∙ elim (path_join_lem path_sep path_size big (omega arith) dir ((d ∷ ds) ∷ [])
                  short) [
                    | inl (e, l) ↦ e ∙ ap written (joined plain)
                    | inr (e, l) ↦ absurd (omega (arith, ap length (joined plain), all))
                  ],
        )
