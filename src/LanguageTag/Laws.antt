-- ===== src/LanguageTag/Laws.antt =====
-- `cplat_internal_ui_language_normalize` of ui_language_tag.c as a whole.
use app_c_platform.Base.{
  ℕ, suc, ◌+◌, ◌-◌, ◌<◌, ◌≤◌, ◌^◌, ◌≡◌, ◌⊎◌, inl, inr, Bool, true, false, ◌||◌, not, List, [], ◌∷◌,
  ◌++◌, none, some, ltb, leb, ◌==◌, if◌then◌else◌, length, take, drop, arith, refl, sym, ◌∙◌, ap,
  length-drop, length-append, add64-eq, le→ltb, ne→==, take_all, take-append, drop-append,
}
use app_c_platform.Result.{ok_code, invalid_argument}
use app_c_platform.LanguageTag.{
  is_alpha_text, subtag_length, name_length, strcasecmp, in_case, append_subtag, Looped, tagged,
  malformed, unfinished, tag_loop, tag_max, Normalized, refused, copy_tag, normalize_work,
  ui_language_normalize,
}
use app_c_platform.LanguageTag.Canonical.{
  IsLanguage, two, three, IsScript, no_script, four, IsRegion, no_region, letters, digits, dash,
  IsTag, in_case-IsLanguage,
}
use app_c_platform.LanguageTag.Fixed.{name_fixed, language_fixed, loop_fixed, not_c, not_posix}
use app_c_platform.LanguageTag.Loop.{tag_loop_lem, subtag_size}

language_size : (l : List ℕ) → IsLanguage l → (2 ≤ length l) × (length l ≤ 3)
language_size _ (two a b p q) = (omega arith, omega arith)
language_size _ (three a b c p q r) = (omega arith, omega arith)

script_size : (s : List ℕ) → IsScript s → length (dash s) ≤ 5
script_size _ no_script = omega arith
script_size _ (four a b c d p q r s) = omega arith

region_size : (s : List ℕ) → IsRegion s → length (dash s) ≤ 4
region_size _ no_region = omega arith
region_size _ (letters a b p q) = omega arith
region_size _ (digits a b c p q r) = omega arith

pub tag_size_le : (t : List ℕ) → IsTag t → (2 ≤ length t) × (length t ≤ 12)
tag_size_le t v =
    let l = language_size v.language v.is_language in
    let s = script_size v.script v.is_script in
    let r = region_size v.region v.is_region in
    let a = length-append v.language (dash v.script ++ dash v.region) in
    let b = length-append (dash v.script) (dash v.region) in
    (omega (arith, ap length v.parts), omega (arith, ap length v.parts))

copy_tag-eq :
    (tag_size : ℕ) (tag : List ℕ)
    → length tag < tag_size
    → tag_size < 2 ^ 64
    → copy_tag tag_size tag ≡ record { result = ok_code; tag_out = some tag }
unfolding copy_tag
copy_tag-eq tag_size tag l big =
    rw (add64-eq (length tag) 1 (omega arith))
      (rw (le→ltb tag_size (length tag + 1) (omega arith)) refl)

finish : ℕ → Looped → Normalized
finish tag_size looped = elim looped [
  | tagged tag ↦ copy_tag tag_size tag
  | malformed ↦ refused
  | unfinished ↦ refused
]

-- What the language's subtag starts: a refusal, or a tag.
work_lem :
    (tag_size : ℕ) (work : List ℕ)
    → (normalize_work tag_size work ≡ refused)
      ⊎ ((tag : List ℕ) × IsTag tag × (normalize_work tag_size work ≡ copy_tag tag_size tag))
unfolding normalize_work append_subtag finish
work_lem tag_size work =
    let n = subtag_length work in
    let lang = take n work in
    let loop = tag_loop (suc (length work)) (drop n work) false false (in_case 0 lang) in
    elim (checked n (is_alpha_text lang) (finish tag_size loop)) [
      | inl e ↦ inl e
      | inr (e, a, l, m) ↦
          let is_language : IsLanguage (in_case 0 lang) =
            in_case-IsLanguage lang a (omega (arith, subtag_size work))
              (omega (arith, subtag_size work)) in
          let size = language_size (in_case 0 lang) is_language in
          elim (tag_loop_lem (length work) (drop n work) (in_case 0 lang) (omega arith)
            (omega (arith, length-drop n work))) [
              | inl f ↦ inl (e ∙ ap (finish tag_size) f)
              | inr (script, region, is_script, is_region, f) ↦ inr (
                in_case 0 lang ++ (dash script ++ dash region),
                record {
                  language = in_case 0 lang;
                  script = script;
                  region = region;
                  is_language = is_language;
                  is_script = is_script;
                  is_region = is_region;
                  parts = refl;
                },
                e ∙ ap (finish tag_size) f,
              )
            ]
    ]
  where
    checked :
        (n : ℕ) (alpha : Bool) (result : Normalized)
        → ((if ltb n 2 || (ltb 3 n || not alpha) then refused else result) ≡ refused)
          ⊎ (((if ltb n 2 || (ltb 3 n || not alpha) then refused else result) ≡ result)
              × (alpha ≡ true)
              × (2 ≤ n)
              × (n ≤ 3))
    checked n alpha result = ground arith

module _ (tag_size : ℕ) (room : 13 ≤ tag_size) (big : tag_size < 2 ^ 64) where
  nonzero : (tag_size == 0) ≡ false
  nonzero = ne→== tag_size 0 (omega arith)

  -- The tests before the language's subtag.
  guards :
      (n : ℕ) (c posix : Bool) (result : Normalized)
      → (let tests =
            if (n == 0) || leb tag_max n
            then refused
            else if c || posix
            then record { result = ok_code; tag_out = some [] }
            else result in
          (tests ≡ refused)
          ⊎ (tests ≡ record { result = ok_code; tag_out = some [] })
          ⊎ (tests ≡ result))
  guards n c posix result = ground arith

  guards_pass :
      (n : ℕ) (c posix : Bool) (result : Normalized)
      → 0 < n
      → n < tag_max
      → c ≡ false
      → posix ≡ false
      → (if (n == 0) || leb tag_max n
          then refused
          else if c || posix
          then record { result = ok_code; tag_out = some [] }
          else result)
        ≡ result
  guards_pass n c posix result h l e f = ground arith

  module _ (tag : List ℕ) (v : IsTag tag) where
    abbrev l : List ℕ
    l = v.language

    abbrev rest : List ℕ
    rest = dash v.script ++ dash v.region

    abbrev t : List ℕ
    t = l ++ rest

    sizes : (2 ≤ length t) × (length t ≤ 12)
    sizes =
        let (a, b) = tag_size_le tag v in let e = ap length v.parts in (omega arith, omega arith)

    looped :
        tag_loop (suc (length t)) (drop (length l) t) false false (in_case 0 (take (length l) t))
        ≡ tagged t
    looped =
        let (sub, alpha, same) =
          language_fixed v.script v.region v.is_script v.is_region l v.is_language in
        let (x, y) = language_size l v.is_language in
        let (a, b) = sizes in
        let fuel : suc (length t) ≡ suc (suc (suc (length t - 2))) = omega arith in
        let on : List ℕ → List ℕ → Looped =
          λ text start. tag_loop (suc (length t)) text false false start in
        ap (λ x. on x (in_case 0 (take (length l) t))) (drop-append l rest)
        ∙ ap (λ x. on rest (in_case 0 x)) (take-append l rest)
        ∙ ap (on rest) same
        ∙ ap (λ n. tag_loop n rest false false l) fuel
        ∙ loop_fixed (length t - 2) v.script v.region l v.is_script v.is_region (omega arith)

    work_fixed : normalize_work tag_size t ≡ copy_tag tag_size t
    unfolding normalize_work append_subtag finish
    work_fixed =
        let (sub, alpha, same) =
          language_fixed v.script v.region v.is_script v.is_region l v.is_language in
        let (x, y) = language_size l v.is_language in
        let on : ℕ → Normalized = λ n.
          if ltb n 2 || (ltb 3 n || not (is_alpha_text (take n t)))
          then refused
          else finish tag_size
              (tag_loop (suc (length t)) (drop n t) false false (in_case 0 (take n t))) in
        let letters : is_alpha_text (take (length l) t) ≡ true =
          ap is_alpha_text (take-append l rest) ∙ alpha in
        ap on sub
        ∙ rw (le→ltb (length l) 2 x, le→ltb 3 (length l) y, letters) (ap (finish tag_size) looped)

    -- A tag is its own tag.
    fixed :
        ui_language_normalize (some tag) tag_size ≡ record { result = ok_code; tag_out = some tag }
    unfolding ui_language_normalize
    fixed =
        let (a, b) = sizes in
        let is = v.is_language in
        let name = name_fixed v.script v.region v.is_script v.is_region l is in
        let posix : List ℕ = 80 ∷ 79 ∷ 83 ∷ 73 ∷ 88 ∷ [] in
        let body : ℕ → List ℕ → Normalized = λ n work.
          if (n == 0) || leb tag_max n
          then refused
          else if strcasecmp work (67 ∷ []) || strcasecmp work posix
          then record { result = ok_code; tag_out = some [] }
          else normalize_work tag_size work in
        let start : ui_language_normalize (some t) tag_size
            ≡ body (name_length t) (take (name_length t) t) =
          rw nonzero refl in
        ap (λ x. ui_language_normalize (some x) tag_size) v.parts
        ∙ start
        ∙ ap (λ n. body n (take n t)) name
        ∙ ap (body (length t)) (take_all t)
        ∙ guards_pass (length t) (strcasecmp t (67 ∷ [])) (strcasecmp t posix)
            (normalize_work tag_size t) (omega arith) (omega arith) (not_c l v.script v.region is)
            (not_posix l v.script v.region is)
        ∙ work_fixed
        ∙ copy_tag-eq tag_size t (omega arith) big
        ∙ ap (λ x. record { result = ok_code; tag_out = some x }) (sym v.parts)

  -- `cplat_internal_ui_language_normalize` on any value, with room for at least 13 bytes, fails with
  -- an invalid argument and an empty text, or writes the empty text, or a tag of at most 12 bytes that
  -- is a language of two or three small letters, then perhaps a script of four letters, then perhaps
  -- a region of two capitals or three digits; that tag is written again when it is the value.
  pub ui_language_normalize_lem :
      (value : List ℕ)
      → (let r = ui_language_normalize (some value) tag_size in
          (r ≡ refused)
          ⊎ (r ≡ record { result = ok_code; tag_out = some [] })
          ⊎ ((tag : List ℕ) × IsTag tag
              × (length tag ≤ 12)
              × (r ≡ record { result = ok_code; tag_out = some tag })
              × (ui_language_normalize (some tag) tag_size
                  ≡ record { result = ok_code; tag_out = some tag })))
  unfolding ui_language_normalize
  ui_language_normalize_lem value =
      let work = take (name_length value) value in
      let posix : List ℕ = 80 ∷ 79 ∷ 83 ∷ 73 ∷ 88 ∷ [] in
      let start : (result : Normalized)
          → (if tag_size == 0 then record { result = invalid_argument; tag_out = none } else result)
            ≡ result =
        λ result. rw nonzero refl in
      elim (guards (name_length value) (strcasecmp work (67 ∷ [])) (strcasecmp work posix)
        (normalize_work tag_size work)) [
          | inl e ↦ inl (start _ ∙ e)
          | inr (inl e) ↦ inr (inl (start _ ∙ e))
          | inr (inr e) ↦ elim (work_lem tag_size work) [
            | inl f ↦ inl (start _ ∙ e ∙ f)
            | inr (tag, v, f) ↦
                let (a, b) = tag_size_le tag v in
                inr (
                  inr (
                    tag,
                    v,
                    b,
                    start _ ∙ e ∙ f ∙ copy_tag-eq tag_size tag (omega arith) big,
                    fixed tag v,
                  ))
          ]
        ]
