-- ===== src/LanguageTag/Loop.antt =====
-- The loop over the subtags in ui_language_tag.c: it adds at most a script and a region.
use app_c_platform.Base.{
  ℕ, zero, suc, ◌+◌, ◌<◌, ◌≤◌, ◌≡◌, ◌⊎◌, inl, inr, Bool, true, false, ◌&&◌, ◌||◌, not, List, [],
  ◌∷◌, ◌++◌, ltb, ◌==◌, if◌then◌else◌, length, take, drop, arith, refl, sym, ◌∙◌, ap, subst,
  length-take, length-drop, length-append, lt→ltb,
}
use mathlib.Core.List.{append-nil, append_assoc}
use app_c_platform.LanguageTag.{
  is_alpha_text, is_digit_text, subtag_length, in_case, append_subtag, Looped, tagged, malformed,
  tag_loop,
}
use app_c_platform.LanguageTag.Canonical.{
  IsScript, no_script, IsRegion, no_region, dash, in_case-IsScript, letters_of, digits_of,
}

-- The choice in a round of the loop, by its tests.
module _ (len : ℕ) (alpha digit : Bool) (with_script with_region stop : Looped) where
  abbrev pub choose : Bool → Bool → Looped
  choose has_script has_region =
      if len == 0
      then malformed
      else if not has_script && (not has_region && ((len == 4) && alpha))
      then with_script
      else if not has_region && (((len == 2) && alpha) || ((len == 3) && digit))
      then with_region
      else stop

  pub choose_lem :
      (hs hr : Bool)
      → (choose hs hr ≡ malformed)
        ⊎ ((choose hs hr ≡ with_script) × (hs ≡ false) × (hr ≡ false) × (len ≡ 4) × (alpha ≡ true))
        ⊎ ((choose hs hr ≡ with_region)
            × (hr ≡ false)
            × (((len ≡ 2) × (alpha ≡ true)) ⊎ ((len ≡ 3) × (digit ≡ true))))
        ⊎ (choose hs hr ≡ stop)
  choose_lem hs hr = ground arith

pub subtag_length_le : (t : List ℕ) → subtag_length t ≤ length t
unfolding subtag_length
subtag_length_le [] = omega arith
subtag_length_le (c ∷ cs) = ground (arith, subtag_length_le cs)

pub length-in_case : (u : ℕ) (t : List ℕ) → length (in_case u t) ≡ length t
unfolding in_case
length-in_case u [] = refl
length-in_case zero (c ∷ cs) = ap suc (length-in_case zero cs)
length-in_case (suc u) (c ∷ cs) = ap suc (length-in_case u cs)

-- A part that is not empty stands after its `-`.
pub append_dash :
    (tag : List ℕ) (part : List ℕ)
    → 0 < length tag
    → 0 < length part
    → (if ltb 0 (length tag) then tag ++ (45 ∷ []) else tag) ++ part ≡ tag ++ dash part
append_dash tag [] h l = absurd (omega arith)
append_dash tag (c ∷ cs) h l = rw (lt→ltb 0 (length tag) h) (append_assoc tag (45 ∷ []) (c ∷ cs))

abbrev subtag_of : List ℕ → List ℕ
subtag_of t = take (subtag_length t) t

pub subtag_size : (t : List ℕ) → length (subtag_of t) ≡ subtag_length t
subtag_size t = omega (arith, length-take (subtag_length t) t, subtag_length_le t)

module _ (tag : List ℕ) (named : 0 < length tag) (t : List ℕ) (u : ℕ) where
  abbrev subtag : List ℕ
  subtag = subtag_of t

  appended : 0 < subtag_length t → append_subtag tag subtag u ≡ tag ++ dash (in_case u subtag)
  unfolding append_subtag
  appended l =
      append_dash tag (in_case u subtag) named
        (omega (arith, length-in_case u subtag, subtag_size t))

-- The script and the region that the loop adds to the tag.
abbrev pub Extends : Looped → List ℕ → Type 0
Extends loop tag =
    (loop ≡ malformed)
    ⊎ ((script region : List ℕ) × IsScript script
        × IsRegion region
        × (loop ≡ tagged (tag ++ (dash script ++ dash region))))

module _ (tag : List ℕ) where
  -- Nothing is added.
  stopped : (loop : Looped) → loop ≡ tagged tag → Extends loop tag
  stopped loop e = inr ([], [], no_script, no_region, e ∙ ap tagged (sym (append-nil tag)))

-- With a region no more is added.
after_region :
    (fuel : ℕ) (rest : List ℕ) (hs : Bool) (tag : List ℕ)
    → (tag_loop (suc fuel) rest hs true tag ≡ malformed)
      ⊎ (tag_loop (suc fuel) rest hs true tag ≡ tagged tag)
unfolding tag_loop
after_region fuel [] hs tag = inr refl
after_region fuel (c ∷ t) hs tag =
    let len = subtag_length t in
    let subtag = take len t in
    elim (choose_lem len (is_alpha_text subtag) (is_digit_text subtag)
      (tag_loop fuel (drop len t) true true (append_subtag tag subtag 1))
      (tag_loop fuel (drop len t) hs true (append_subtag tag subtag len)) (tagged tag) hs true) [
        | inl e ↦ inl e
        | inr (inl (e, a, b, q, r)) ↦ absurd (ground arith)
        | inr (inr (inl (e, b, q))) ↦ absurd (ground arith)
        | inr (inr (inr e)) ↦ inr e
      ]

-- A region.
in_case-IsRegion :
    (t : List ℕ)
    → (let len = subtag_length t in
        ((len ≡ 2) × (is_alpha_text (take len t) ≡ true))
        ⊎ ((len ≡ 3) × (is_digit_text (take len t) ≡ true)))
    → IsRegion (in_case (subtag_length t) (take (subtag_length t) t))
in_case-IsRegion t h =
    let len = subtag_length t in
    let size = subtag_size t in
    elim h [
      | inl (e, p) ↦
          subst (λ n. IsRegion (in_case n (take len t))) (sym e)
            (letters_of (take len t) p (size ∙ e))
      | inr (e, p) ↦
          subst (λ n. IsRegion (in_case n (take len t))) (sym e)
            (digits_of (take len t) p (size ∙ e))
    ]

-- With a script at most a region is added.
abbrev Regional : Looped → List ℕ → Type 0
Regional loop tag =
    (loop ≡ malformed)
    ⊎ ((region : List ℕ) × IsRegion region × (loop ≡ tagged (tag ++ dash region)))

after_script :
    (fuel : ℕ) (rest : List ℕ) (tag : List ℕ)
    → 0 < length tag
    → length rest ≤ fuel
    → Regional (tag_loop (suc fuel) rest true false tag) tag
unfolding tag_loop
after_script fuel [] tag named l = inr ([], no_region, ap tagged (sym (append-nil tag)))
after_script zero (c ∷ t) tag named l = absurd (omega arith)
after_script (suc fuel) (c ∷ t) tag named l =
    let len = subtag_length t in
    let subtag = take len t in
    let rest = drop len t in
    elim (choose_lem len (is_alpha_text subtag) (is_digit_text subtag)
      (tag_loop (suc fuel) rest true false (append_subtag tag subtag 1))
      (tag_loop (suc fuel) rest true true (append_subtag tag subtag len)) (tagged tag) true false) [
        | inl e ↦ inl e
        | inr (inl (e, a, b, q, r)) ↦ absurd (ground arith)
        | inr (inr (inl (e, b, q))) ↦
            let long : 0 < len = ground arith in
            elim (after_region fuel rest true (append_subtag tag subtag len)) [
              | inl m ↦ inl (e ∙ m)
              | inr m ↦ inr (
                in_case len subtag,
                in_case-IsRegion t q,
                e ∙ m ∙ ap tagged (appended tag named t len long),
              )
            ]
        | inr (inr (inr e)) ↦ inr ([], no_region, e ∙ ap tagged (sym (append-nil tag)))
      ]

-- The loop from the language's tag on.
pub tag_loop_lem :
    (fuel : ℕ) (rest : List ℕ) (tag : List ℕ)
    → 0 < length tag
    → length rest ≤ fuel
    → Extends (tag_loop (suc fuel) rest false false tag) tag
unfolding tag_loop
tag_loop_lem fuel [] tag named l = stopped tag (tagged tag) refl
tag_loop_lem zero (c ∷ t) tag named l = absurd (omega arith)
tag_loop_lem (suc fuel) (c ∷ t) tag named l =
    let len = subtag_length t in
    let subtag = take len t in
    let rest = drop len t in
    let short : length rest ≤ fuel = omega (arith, length-drop len t) in
    elim (choose_lem len (is_alpha_text subtag) (is_digit_text subtag)
      (tag_loop (suc fuel) rest true false (append_subtag tag subtag 1))
      (tag_loop (suc fuel) rest false true (append_subtag tag subtag len)) (tagged tag) false
      false) [
        | inl e ↦ inl e
        | inr (inl (e, a, b, q, r)) ↦
            let script : List ℕ = in_case 1 subtag in
            let is_script : IsScript script = in_case-IsScript subtag r (subtag_size t ∙ q) in
            let added : append_subtag tag subtag 1 ≡ tag ++ dash script =
              appended tag named t 1 (omega (arith, q)) in
            let size : length (append_subtag tag subtag 1) ≡ length tag + length (dash script) =
              ap length added ∙ length-append tag (dash script) in
            elim (after_script fuel rest (append_subtag tag subtag 1) (omega (arith, size)) short) [
              | inl m ↦ inl (e ∙ m)
              | inr (region, is_region, m) ↦ inr (
                script,
                region,
                is_script,
                is_region,
                e
                    ∙ m
                    ∙ ap (λ x. tagged (x ++ dash region)) added
                    ∙ ap tagged (append_assoc tag (dash script) (dash region)),
              )
            ]
        | inr (inr (inl (e, b, q))) ↦
            let long : 0 < len = ground arith in
            elim (after_region fuel rest false (append_subtag tag subtag len)) [
              | inl m ↦ inl (e ∙ m)
              | inr m ↦ inr (
                [],
                in_case len subtag,
                no_script,
                in_case-IsRegion t q,
                e ∙ m ∙ ap tagged (appended tag named t len long),
              )
            ]
        | inr (inr (inr e)) ↦ stopped tag _ e
      ]
