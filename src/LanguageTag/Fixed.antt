-- ===== src/LanguageTag/Fixed.antt =====
-- A tag that ui_language_tag.c writes, as its input.
use app_c_platform.Base.{
  ℕ, suc, ◌<◌, ◌≡◌, inl, inr, Bool, true, false, ◌&&◌, ◌||◌, List, [], ◌∷◌, ◌++◌, ◌==◌, length,
  arith, refl, sym, ◌∙◌, ap, length-append,
}
use mathlib.Core.List.{append-nil, append_assoc}
use app_c_platform.LanguageTag.{
  is_alpha_text, is_digit_text, subtag_length, name_length, strcasecmp, in_case, append_subtag,
  tagged, tag_loop, to_lower,
}
use app_c_platform.LanguageTag.Chars.{
  IsUpper, IsLower, IsDigit, to_upper_same, to_lower_same, alpha_of, digit_of, no_separator,
  no_suffix,
}
use app_c_platform.LanguageTag.Canonical.{
  IsLanguage, two, three, IsScript, no_script, four, IsRegion, no_region, letters, digits, dash,
}
use app_c_platform.LanguageTag.Loop.{append_dash}

-- A subtag ends before the next `-`.
stops_region : (r : List ℕ) → subtag_length (dash r) ≡ 0
unfolding subtag_length
stops_region [] = refl
stops_region (c ∷ cs) = refl

stops : (s r : List ℕ) → subtag_length (dash s ++ dash r) ≡ 0
unfolding subtag_length
stops [] r = stops_region r
stops (c ∷ cs) r = refl

plain_upper : (c : ℕ) → IsUpper c → ((c == 95) || (c == 45)) ≡ false
plain_upper c h = no_separator c (inl h)

plain_lower : (c : ℕ) → IsLower c → ((c == 95) || (c == 45)) ≡ false
plain_lower c h = no_separator c (inr (inl h))

plain_digit : (c : ℕ) → IsDigit c → ((c == 95) || (c == 45)) ≡ false
plain_digit c h = no_separator c (inr (inr h))

-- The region of a tag is taken as it is.
region_fixed :
    (fuel : ℕ) (r : List ℕ) (hs : Bool) (tag : List ℕ)
    → IsRegion r
    → 0 < length tag
    → tag_loop (suc (suc fuel)) (dash r) hs false tag ≡ tagged (tag ++ dash r)
unfolding tag_loop subtag_length is_alpha_text is_digit_text append_subtag in_case
region_fixed fuel _ hs tag no_region named = ap tagged (sym (append-nil tag))
region_fixed fuel _ true tag (letters a b p q) named =
    rw (plain_upper a p, plain_upper b q, alpha_of a (inl p), alpha_of b (inl q))
      (rw (to_upper_same a (inl p), to_upper_same b (inl q))
        (ap tagged (append_dash tag (a ∷ b ∷ []) named (omega arith))))
region_fixed fuel _ false tag (letters a b p q) named =
    rw (plain_upper a p, plain_upper b q, alpha_of a (inl p), alpha_of b (inl q))
      (rw (to_upper_same a (inl p), to_upper_same b (inl q))
        (ap tagged (append_dash tag (a ∷ b ∷ []) named (omega arith))))
region_fixed fuel _ true tag (digits a b c p q s) named =
    rw (plain_digit a p, plain_digit b q, plain_digit c s, digit_of a p, digit_of b q, digit_of c s)
      (rw (to_upper_same a (inr p), to_upper_same b (inr q), to_upper_same c (inr s))
        (ap tagged (append_dash tag (a ∷ b ∷ c ∷ []) named (omega arith))))
region_fixed fuel _ false tag (digits a b c p q s) named =
    rw (plain_digit a p, plain_digit b q, plain_digit c s, digit_of a p, digit_of b q, digit_of c s)
      (rw (to_upper_same a (inr p), to_upper_same b (inr q), to_upper_same c (inr s))
        (ap tagged (append_dash tag (a ∷ b ∷ c ∷ []) named (omega arith))))

-- So are the script and the region.
pub loop_fixed :
    (fuel : ℕ) (s r : List ℕ) (tag : List ℕ)
    → IsScript s
    → IsRegion r
    → 0 < length tag
    → tag_loop (suc (suc (suc fuel))) (dash s ++ dash r) false false tag
      ≡ tagged (tag ++ (dash s ++ dash r))
unfolding tag_loop subtag_length is_alpha_text is_digit_text append_subtag in_case
loop_fixed fuel _ r tag no_script vr named = region_fixed (suc fuel) r false tag vr named
loop_fixed fuel _ r tag (four a b c d p q u w) vr named =
    let s : List ℕ = a ∷ b ∷ c ∷ d ∷ [] in
    rw
      (
        plain_upper a p,
        plain_lower b q,
        plain_lower c u,
        plain_lower d w,
        stops_region r,
        alpha_of a (inl p),
        alpha_of b (inr q),
        alpha_of c (inr u),
        alpha_of d (inr w),
      )
      (rw (to_upper_same a (inl p), to_lower_same b q, to_lower_same c u, to_lower_same d w)
        (ap (tag_loop (suc (suc fuel)) (dash r) true false) (append_dash tag s named (omega arith))
          ∙ region_fixed fuel r true (tag ++ dash s) vr (omega (arith, length-append tag (dash s)))
          ∙ ap tagged (append_assoc tag (dash s) (dash r))))

free_upper : (c : ℕ) → IsUpper c → ((c == 46) || (c == 64)) ≡ false
free_upper c h = no_suffix c (inl h)

free_lower : (c : ℕ) → IsLower c → ((c == 46) || (c == 64)) ≡ false
free_lower c h = no_suffix c (inr (inl h))

free_digit : (c : ℕ) → IsDigit c → ((c == 46) || (c == 64)) ≡ false
free_digit c h = no_suffix c (inr (inr h))

-- No codeset or modifier is cut off.
name_region : (r : List ℕ) → IsRegion r → name_length (dash r) ≡ length (dash r)
unfolding name_length
name_region _ no_region = refl
name_region _ (letters a b p q) = rw (free_upper a p, free_upper b q) refl
name_region _ (digits a b c p q s) = rw (free_digit a p, free_digit b q, free_digit c s) refl

name_script :
    (s r : List ℕ)
    → IsScript s
    → IsRegion r
    → name_length (dash s ++ dash r) ≡ length (dash s ++ dash r)
unfolding name_length
name_script _ r no_script v = name_region r v
name_script _ r (four a b c d p q u w) v =
    rw (free_upper a p, free_lower b q, free_lower c u, free_lower d w)
      (ap (λ n. suc (suc (suc (suc (suc n))))) (name_region r v))

module _ (s r : List ℕ) (vs : IsScript s) (vr : IsRegion r) where
  pub name_fixed :
      (l : List ℕ)
      → IsLanguage l
      → name_length (l ++ (dash s ++ dash r)) ≡ length (l ++ (dash s ++ dash r))
  unfolding name_length
  name_fixed _ (two a b p q) =
      rw (free_lower a p, free_lower b q) (ap (λ n. suc (suc n)) (name_script s r vs vr))
  name_fixed _ (three a b c p q u) =
      rw (free_lower a p, free_lower b q, free_lower c u)
        (ap (λ n. suc (suc (suc n))) (name_script s r vs vr))

  pub language_fixed :
      (l : List ℕ)
      → IsLanguage l
      → (subtag_length (l ++ (dash s ++ dash r)) ≡ length l)
        × (is_alpha_text l ≡ true)
        × (in_case 0 l ≡ l)
  unfolding subtag_length is_alpha_text in_case
  language_fixed _ (two a b p q) = (
    rw (plain_lower a p, plain_lower b q) (ap (λ n. suc (suc n)) (stops s r)),
    rw (alpha_of a (inr p), alpha_of b (inr q)) refl,
    rw (to_lower_same a p, to_lower_same b q) refl,
  )
  language_fixed _ (three a b c p q u) = (
    rw (plain_lower a p, plain_lower b q, plain_lower c u)
        (ap (λ n. suc (suc (suc n))) (stops s r)),
    rw (alpha_of a (inr p), alpha_of b (inr q), alpha_of c (inr u)) refl,
    rw (to_lower_same a p, to_lower_same b q, to_lower_same c u) refl,
  )

-- A tag is neither `C` nor `POSIX`.
dashed_region :
    (r : List ℕ) (d : ℕ) (ds : List ℕ)
    → (to_lower 45 == to_lower d) ≡ false
    → strcasecmp (dash r) (d ∷ ds) ≡ false
unfolding strcasecmp
dashed_region [] d ds e = refl
dashed_region (c ∷ cs) d ds e = rw e refl

dashed :
    (s r : List ℕ) (d : ℕ) (ds : List ℕ)
    → (to_lower 45 == to_lower d) ≡ false
    → strcasecmp (dash s ++ dash r) (d ∷ ds) ≡ false
unfolding strcasecmp
dashed [] r d ds e = dashed_region r d ds e
dashed (c ∷ cs) r d ds e = rw e refl

and_false : (b c : Bool) → c ≡ false → (b && c) ≡ false
and_false b c h = ground arith

pub not_c : (l s r : List ℕ) → IsLanguage l → strcasecmp (l ++ (dash s ++ dash r)) (67 ∷ []) ≡ false
unfolding strcasecmp to_lower
not_c _ s r (two a b p q) = and_false _ _ refl
not_c _ s r (three a b c p q u) = and_false _ _ refl

pub not_posix :
    (l s r : List ℕ)
    → IsLanguage l
    → strcasecmp (l ++ (dash s ++ dash r)) (80 ∷ 79 ∷ 83 ∷ 73 ∷ 88 ∷ []) ≡ false
unfolding strcasecmp to_lower
not_posix _ s r (two a b p q) = rw (dashed s r 83 (73 ∷ 88 ∷ []) refl) (
    and_false (to_lower a == to_lower 80) ((to_lower b == to_lower 79) && false)
      (and_false (to_lower b == to_lower 79) false refl))
not_posix _ s r (three a b c p q u) = rw (dashed s r 73 (88 ∷ []) refl) (
    and_false (to_lower a == to_lower 80)
      ((to_lower b == to_lower 79) && ((to_lower c == to_lower 83) && false))
      (and_false (to_lower b == to_lower 79) ((to_lower c == to_lower 83) && false)
        (and_false (to_lower c == to_lower 83) false refl)))
