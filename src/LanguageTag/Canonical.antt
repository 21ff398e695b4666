-- ===== src/LanguageTag/Canonical.antt =====
-- The tags that ui_language_tag.c writes: `ll`, `lll`, with `-Ssss` and `-RR` or `-000` after it.
use app_c_platform.Base.{ℕ, ◌≤◌, ◌≡◌, Bool, true, ◌&&◌, ◌||◌, List, [], ◌∷◌, ◌++◌, length, arith}
use app_c_platform.LanguageTag.{
  is_upper, is_lower, is_digit, to_upper, to_lower, is_alpha_text, is_digit_text, in_case,
}
use app_c_platform.LanguageTag.Chars.{
  IsUpper, IsLower, IsDigit, to_upper-IsUpper, to_lower-IsLower, to_upper-IsDigit,
}

pub data IsLanguage : List ℕ → Type 0 where
  two : (a b : ℕ) → IsLower a → IsLower b → IsLanguage (a ∷ b ∷ [])
  three : (a b c : ℕ) → IsLower a → IsLower b → IsLower c → IsLanguage (a ∷ b ∷ c ∷ [])

pub data IsScript : List ℕ → Type 0 where
  no_script : IsScript []
  four :
      (a b c d : ℕ) → IsUpper a → IsLower b → IsLower c → IsLower d → IsScript (a ∷ b ∷ c ∷ d ∷ [])

pub data IsRegion : List ℕ → Type 0 where
  no_region : IsRegion []
  letters : (a b : ℕ) → IsUpper a → IsUpper b → IsRegion (a ∷ b ∷ [])
  digits : (a b c : ℕ) → IsDigit a → IsDigit b → IsDigit c → IsRegion (a ∷ b ∷ c ∷ [])

-- A part that is there, after its `-`.
abbrev pub dash : List ℕ → List ℕ
dash [] = []
dash (c ∷ cs) = 45 ∷ c ∷ cs

pub record IsTag (tag : List ℕ) : Type 0 where
  pub language : List ℕ
  pub script : List ℕ
  pub region : List ℕ
  pub is_language : IsLanguage language
  pub is_script : IsScript script
  pub is_region : IsRegion region
  pub parts : tag ≡ language ++ (dash script ++ dash region)

-- The tests of a text of letters hold of each of them.
and_both : (a b : Bool) → (a && b) ≡ true → (a ≡ true) × (b ≡ true)
and_both a b h = ground arith

alpha_cons :
    (c : ℕ) (cs : List ℕ)
    → is_alpha_text (c ∷ cs) ≡ true
    → IsUpper (to_upper c) × IsLower (to_lower c) × (is_alpha_text cs ≡ true)
unfolding is_alpha_text
alpha_cons c cs h =
    let (p, q) = and_both (is_upper c || is_lower c) (is_alpha_text cs) h in
    (to_upper-IsUpper c p, to_lower-IsLower c p, q)

IsDigit-cons :
    (c : ℕ) (cs : List ℕ)
    → is_digit_text (c ∷ cs) ≡ true
    → IsDigit (to_upper c) × (is_digit_text cs ≡ true)
unfolding is_digit_text
IsDigit-cons c cs h =
    let (p, q) = and_both (is_digit c) (is_digit_text cs) h in (to_upper-IsDigit c p, q)

pub in_case-IsLanguage :
    (t : List ℕ) → is_alpha_text t ≡ true → 2 ≤ length t → length t ≤ 3 → IsLanguage (in_case 0 t)
unfolding in_case
in_case-IsLanguage [] h l m = absurd (omega arith)
in_case-IsLanguage (a ∷ []) h l m = absurd (omega arith)
in_case-IsLanguage (a ∷ b ∷ []) h l m =
    let (_, x, h) = alpha_cons a (b ∷ []) h in
    let (_, y, _) = alpha_cons b [] h in two (to_lower a) (to_lower b) x y
in_case-IsLanguage (a ∷ b ∷ c ∷ []) h l m =
    let (_, x, h) = alpha_cons a (b ∷ c ∷ []) h in
    let (_, y, h) = alpha_cons b (c ∷ []) h in
    let (_, z, _) = alpha_cons c [] h in three (to_lower a) (to_lower b) (to_lower c) x y z
in_case-IsLanguage (a ∷ b ∷ c ∷ d ∷ ds) h l m = absurd (omega arith)

pub in_case-IsScript : (t : List ℕ) → is_alpha_text t ≡ true → length t ≡ 4 → IsScript (in_case 1 t)
unfolding in_case
in_case-IsScript [] h l = absurd (omega (arith, l))
in_case-IsScript (a ∷ []) h l = absurd (omega (arith, l))
in_case-IsScript (a ∷ b ∷ []) h l = absurd (omega (arith, l))
in_case-IsScript (a ∷ b ∷ c ∷ []) h l = absurd (omega (arith, l))
in_case-IsScript (a ∷ b ∷ c ∷ d ∷ []) h l =
    let (w, _, h) = alpha_cons a (b ∷ c ∷ d ∷ []) h in
    let (_, x, h) = alpha_cons b (c ∷ d ∷ []) h in
    let (_, y, h) = alpha_cons c (d ∷ []) h in
    let (_, z, _) = alpha_cons d [] h in
    four (to_upper a) (to_lower b) (to_lower c) (to_lower d) w x y z
in_case-IsScript (a ∷ b ∷ c ∷ d ∷ e ∷ es) h l = absurd (omega (arith, l))

pub letters_of : (t : List ℕ) → is_alpha_text t ≡ true → length t ≡ 2 → IsRegion (in_case 2 t)
unfolding in_case
letters_of [] h l = absurd (omega (arith, l))
letters_of (a ∷ []) h l = absurd (omega (arith, l))
letters_of (a ∷ b ∷ []) h l =
    let (x, _, h) = alpha_cons a (b ∷ []) h in
    let (y, _, _) = alpha_cons b [] h in letters (to_upper a) (to_upper b) x y
letters_of (a ∷ b ∷ c ∷ cs) h l = absurd (omega (arith, l))

pub digits_of : (t : List ℕ) → is_digit_text t ≡ true → length t ≡ 3 → IsRegion (in_case 3 t)
unfolding in_case
digits_of [] h l = absurd (omega (arith, l))
digits_of (a ∷ []) h l = absurd (omega (arith, l))
digits_of (a ∷ b ∷ []) h l = absurd (omega (arith, l))
digits_of (a ∷ b ∷ c ∷ []) h l =
    let (x, h) = IsDigit-cons a (b ∷ c ∷ []) h in
    let (y, h) = IsDigit-cons b (c ∷ []) h in
    let (z, _) = IsDigit-cons c [] h in digits (to_upper a) (to_upper b) (to_upper c) x y z
digits_of (a ∷ b ∷ c ∷ d ∷ ds) h l = absurd (omega (arith, l))
