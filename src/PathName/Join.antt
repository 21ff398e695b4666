-- ===== src/PathName/Join.antt =====
-- Proofs about `cplat_vpath_join_n` of path_name.c: its two loops agree on the size of the text.
use app_c_platform.Base.{
  ℕ, suc, ◌+◌, ◌-◌, ◌<◌, ◌≤◌, ◌^◌, ◌≡◌, ◌⊎◌, inl, inr, Bool, true, false, ◌&&◌, not, List, [], ◌∷◌,
  ◌++◌, some, map, ltb, leb, if◌then◌else◌, length, arith, refl, sym, ◌∙◌, ap, subst, add64, sub64,
  add64-eq, sub64-eq, lt→ltb, le→ltb, le→leb, gt→leb, ne→==, Bool-cases, length-append,
}
use mathlib.Core.List.{append-nil}
use native.Mathlib.Decide.{dec_lt, dec_le}
use app_c_platform.Result.{enametoolong}
use app_c_platform.PathName.{
  path_is_sep, written, emptied, Measured, requires, rejects, last_byte, measure_parts, append_part,
  append_parts, path_join,
}

have_of : List ℕ → Bool
have_of [] = false
have_of (p ∷ ps) = true

ends_of : List ℕ → Bool
ends_of [] = false
ends_of (p ∷ ps) = path_is_sep (last_byte p ps)

last_byte-append :
    (p : ℕ) (ps : List ℕ) (c : ℕ) (cs : List ℕ) → last_byte p (ps ++ (c ∷ cs)) ≡ last_byte c cs
unfolding last_byte
last_byte-append p [] c cs = refl
last_byte-append p (q ∷ ps) c cs = last_byte-append q ps c cs

abbrev pub Short : List (List ℕ) → Type 0
Short [] = Unit
Short (t ∷ ts) = (length t < 2 ^ 64) × Short ts

module _ (path_sep path_size : ℕ) (big : path_size < 2 ^ 64) where
  -- The measure of a text: its size with the terminator, or a refusal where that is above the buffer's.
  abbrev Fits : Measured → List ℕ → Type 0
  Fits m text =
      ((m ≡ requires (length text + 1)) × (length text < path_size))
      ⊎ ((m ≡ rejects enametoolong) × (path_size ≤ length text))

  module _ (p : ℕ) (ps : List ℕ) (c : ℕ) (cs : List ℕ) where
    -- The four ways in which a part is put after the bytes so far.
    append_part-cases :
        ((path_is_sep (last_byte p ps) ≡ true)
          × (path_is_sep c ≡ true)
          × (append_part path_sep (p ∷ ps) c cs ≡ (p ∷ ps) ++ cs))
        ⊎ ((path_is_sep (last_byte p ps) ≡ true)
            × (path_is_sep c ≡ false)
            × (append_part path_sep (p ∷ ps) c cs ≡ (p ∷ ps) ++ (c ∷ cs)))
        ⊎ ((path_is_sep (last_byte p ps) ≡ false)
            × (path_is_sep c ≡ true)
            × (append_part path_sep (p ∷ ps) c cs ≡ (p ∷ ps) ++ (c ∷ cs)))
        ⊎ ((path_is_sep (last_byte p ps) ≡ false)
            × (path_is_sep c ≡ false)
            × (append_part path_sep (p ∷ ps) c cs ≡ (p ∷ ps) ++ (path_sep ∷ c ∷ cs)))
    unfolding append_part
    append_part-cases = elim (Bool-cases (path_is_sep (last_byte p ps))) [
      | inl e ↦ elim (Bool-cases (path_is_sep c)) [
        | inl f ↦ inl (e, f, rw (e, f) refl)
        | inr f ↦ inr (inl (e, f, rw (e, f) refl))
      ]
      | inr e ↦ elim (Bool-cases (path_is_sep c)) [
        | inl f ↦ inr (inr (inl (e, f, rw (e, f) refl)))
        | inr f ↦ inr (inr (inr (e, f, rw (e, f) refl)))
      ]
    ]

  append_part-grows :
      (out : List ℕ) (c : ℕ) (cs : List ℕ) → length out ≤ length (append_part path_sep out c cs)
  unfolding append_part
  append_part-grows [] c cs = omega arith
  append_part-grows (p ∷ ps) c cs =
      let a = length-append (p ∷ ps) cs in
      let b = length-append (p ∷ ps) (c ∷ cs) in
      let d = length-append (p ∷ ps) (path_sep ∷ c ∷ cs) in
      elim (append_part-cases p ps c cs) [
        | inl (e, f, q) ↦ omega (arith, ap length q, a)
        | inr (inl (e, f, q)) ↦ omega (arith, ap length q, b)
        | inr (inr (inl (e, f, q))) ↦ omega (arith, ap length q, b)
        | inr (inr (inr (e, f, q))) ↦ omega (arith, ap length q, d)
      ]

  have_of-append_part :
      (out : List ℕ) (c : ℕ) (cs : List ℕ) → have_of (append_part path_sep out c cs) ≡ true
  unfolding have_of append_part
  have_of-append_part [] c cs = refl
  have_of-append_part (p ∷ ps) c cs = elim (append_part-cases p ps c cs) [
    | inl (e, f, q) ↦ ap have_of q
    | inr (inl (e, f, q)) ↦ ap have_of q
    | inr (inr (inl (e, f, q))) ↦ ap have_of q
    | inr (inr (inr (e, f, q))) ↦ ap have_of q
  ]

  -- A separator alone that meets one is not written, and the text ends with the one before it.
  ends_met :
      (p : ℕ) (ps : List ℕ) (c : ℕ) (cs : List ℕ)
      → path_is_sep (last_byte p ps) ≡ true
      → path_is_sep c ≡ true
      → path_is_sep (last_byte p (ps ++ cs)) ≡ path_is_sep (last_byte c cs)
  unfolding last_byte
  ends_met p ps c [] e f = ap (λ x. path_is_sep (last_byte p x)) (append-nil ps) ∙ e ∙ sym f
  ends_met p ps c (d ∷ cs) e f = ap path_is_sep (last_byte-append p ps d cs)

  ends_of-append_part :
      (out : List ℕ) (c : ℕ) (cs : List ℕ)
      → ends_of (append_part path_sep out c cs) ≡ path_is_sep (last_byte c cs)
  unfolding ends_of append_part last_byte
  ends_of-append_part [] c cs = refl
  ends_of-append_part (p ∷ ps) c cs = elim (append_part-cases p ps c cs) [
    | inl (e, f, q) ↦ ap ends_of q ∙ ends_met p ps c cs e f
    | inr (inl (e, f, q)) ↦ ap ends_of q ∙ ap path_is_sep (last_byte-append p ps c cs)
    | inr (inr (inl (e, f, q))) ↦ ap ends_of q ∙ ap path_is_sep (last_byte-append p ps c cs)
    | inr (inr (inr (e, f, q))) ↦
        ap ends_of q ∙ ap path_is_sep (last_byte-append p ps path_sep (c ∷ cs))
  ]

  append_parts-grows :
      (out : List ℕ) (ts : List (List ℕ))
      → length out ≤ length (append_parts path_sep out (map some ts))
  unfolding append_parts
  append_parts-grows out [] = omega arith
  append_parts-grows out ([] ∷ ts) = append_parts-grows out ts
  append_parts-grows out ((c ∷ cs) ∷ ts) =
      omega
        (arith, append_part-grows out c cs, append_parts-grows (append_part path_sep out c cs) ts)

  module _ (out : List ℕ) (c : ℕ) (cs : List ℕ) (ts : List (List ℕ))
      (short : length (c ∷ cs) < 2 ^ 64) (here : length out < path_size) where
    -- One round of the first loop that asks for `m` more bytes after `r`.
    round :
        (r m : ℕ)
        → r ≤ path_size
        → m < 2 ^ 64
        → length (append_part path_sep out c cs) + 1 ≡ r + m
        → ((length (append_part path_sep out c cs) < path_size)
            → Fits
                (measure_parts path_size
                  (map some ts)
                  (length (append_part path_sep out c cs) + 1)
                  true
                  (path_is_sep (last_byte c cs)))
                (append_parts path_sep (append_part path_sep out c cs) (map some ts)))
        → Fits
            (if ltb (sub64 path_size r) m
              then rejects enametoolong
              else measure_parts path_size
                  (map some ts)
                  (add64 r m)
                  true
                  (path_is_sep (last_byte c cs)))
            (append_parts path_sep (append_part path_sep out c cs) (map some ts))
    round r m h k e rest =
        let out' = append_part path_sep out c cs in
        let w = append_parts path_sep out' (map some ts) in
        let next : ℕ → Measured =
          λ n. measure_parts path_size (map some ts) n true (path_is_sep (last_byte c cs)) in
        let body : ℕ → ℕ → Measured = λ s n. if ltb s m then rejects enametoolong else next n in
        let q = sub64-eq path_size r h big in
        elim (dec_lt (path_size - r) m) [
          | yes l ↦ inr (
            ap (λ s. body s (add64 r m)) q ∙ rw (lt→ltb (path_size - r) m l) refl,
            omega (arith, append_parts-grows out' ts),
          )
          | no l ↦
              let step : body (sub64 path_size r) (add64 r m) ≡ next (length out' + 1) =
                ap (λ s. body s (add64 r m)) q
                ∙ rw (le→ltb (path_size - r) m (omega arith))
                    (ap next (add64-eq r m (omega arith) ∙ sym e)) in
              subst (λ x. Fits x w) (sym step) (rest (omega arith))
        ]

  module _ (c : ℕ) (cs : List ℕ) (ts : List (List ℕ)) (short : length (c ∷ cs) < 2 ^ 64) where
    after : ℕ → Measured
    after n = measure_parts path_size (map some ts) n true (path_is_sep (last_byte c cs))

    -- The body of the first loop over its three tests.
    abbrev body : ℕ → Bool → Bool → Bool → Measured
    body required have_prev ends starts =
        let required' =
          if have_prev && (not ends && not starts) then add64 required 1 else required in
        let more = sub64 (length (c ∷ cs)) (if have_prev && (ends && starts) then 1 else 0) in
        if (have_prev && (not ends && not starts)) && leb path_size required
        then rejects enametoolong
        else if ltb (sub64 path_size required') more
        then rejects enametoolong
        else after (add64 required' more)

    whole : sub64 (length (c ∷ cs)) 0 ≡ suc (length cs)
    whole = sub64-eq (suc (length cs)) 0 (omega arith) short ∙ omega arith

    -- The first loop goes on with the state that belongs to the bytes of the second.
    measured :
        (out : List ℕ)
        → length out < path_size
        → (let out' = append_part path_sep out c cs in
            length out' < path_size
            → Fits (after (length out' + 1)) (append_parts path_sep out' (map some ts)))
        → Fits
            (body (length out + 1) (have_of out) (ends_of out) (path_is_sep c))
            (append_parts path_sep (append_part path_sep out c cs) (map some ts))
    unfolding have_of ends_of append_part after
    measured [] here rest =
        subst
          (λ x.
            Fits (if ltb (sub64 path_size 1) x then rejects enametoolong else after (add64 1 x))
              (append_parts path_sep (c ∷ cs) (map some ts)))
          (sym whole)
          (round [] c cs ts short here 1 (suc (length cs)) (omega arith) short (omega arith) rest)
    measured (p ∷ ps) here rest =
        let out' = append_part path_sep (p ∷ ps) c cs in
        let w = append_parts path_sep out' (map some ts) in
        let r : ℕ = length (p ∷ ps) + 1 in
        let tail : ℕ → ℕ → Measured =
          λ r x. if ltb (sub64 path_size r) x then rejects enametoolong else after (add64 r x) in
        let on = round (p ∷ ps) c cs ts short here in
        elim (append_part-cases p ps c cs) [
          | inl (e, f, q) ↦
              subst (λ x. Fits x w)
                (sym (rw (e, f) (ap (tail r) (sub64-eq (suc (length cs)) 1 (omega arith) short))))
                (on r (suc (length cs) - 1) (omega arith) (omega arith)
                  (omega (arith, ap length q, length-append (p ∷ ps) cs)) rest)
          | inr (inl (e, f, q)) ↦
              subst (λ x. Fits x w) (sym (rw (e, f) (ap (tail r) whole)))
                (on r (suc (length cs)) (omega arith) short
                  (omega (arith, ap length q, length-append (p ∷ ps) (c ∷ cs))) rest)
          | inr (inr (inl (e, f, q))) ↦
              subst (λ x. Fits x w) (sym (rw (e, f) (ap (tail r) whole)))
                (on r (suc (length cs)) (omega arith) short
                  (omega (arith, ap length q, length-append (p ∷ ps) (c ∷ cs))) rest)
          | inr (inr (inr (e, f, q))) ↦
              let long : length out' ≡ r + suc (length cs) =
                omega (arith, ap length q, length-append (p ∷ ps) (path_sep ∷ c ∷ cs)) in
              elim (dec_le path_size r) [
                | yes l ↦ inr (
                  rw (e, f) (rw (le→leb path_size r l) refl),
                  omega (arith, long, append_parts-grows out' ts),
                )
                | no l ↦
                    let wrap : add64 r 1 ≡ r + 1 = add64-eq r 1 (omega arith) in
                    subst (λ x. Fits x w)
                      (sym (
                        rw (e, f)
                          (rw (gt→leb path_size r (omega arith)) (
                            ap (λ n. tail n (sub64 (suc (length cs)) 0)) wrap
                            ∙ ap (tail (r + 1)) whole))))
                      (on (r + 1) (suc (length cs)) (omega arith) short (omega (arith, long)) rest)
              ]
        ]

  -- The two loops side by side, after the bytes `out`.
  measure_parts_lem :
      (out : List ℕ) (ts : List (List ℕ))
      → Short ts
      → length out < path_size
      → Fits
          (measure_parts path_size (map some ts) (length out + 1) (have_of out) (ends_of out))
          (append_parts path_sep out (map some ts))
  unfolding measure_parts append_parts after
  measure_parts_lem out [] short here = inl (refl, here)
  measure_parts_lem out ([] ∷ ts) short here = measure_parts_lem out ts short.1 here
  measure_parts_lem out ((c ∷ cs) ∷ ts) short here =
      let out' = append_part path_sep out c cs in
      let w = append_parts path_sep out' (map some ts) in
      let n = length out' + 1 in
      measured c cs ts short.0 out here (λ l.
        subst
          (λ h. Fits (measure_parts path_size (map some ts) n h (path_is_sep (last_byte c cs))) w)
          (have_of-append_part out c cs)
          (subst (λ e. Fits (measure_parts path_size (map some ts) n (have_of out') e) w)
            (ends_of-append_part out c cs) (measure_parts_lem out' ts short.1 l)))

  -- `cplat_vpath_join_n` on at least one part, none of them NULL, and a buffer of a size above 0: the
  -- text that its second loop writes stands in the buffer where it fits with its terminator, and
  -- otherwise the call fails with ENAMETOOLONG before anything but the empty text is written.
  pub path_join_lem :
      0 < path_size
      → (t : List ℕ) (ts : List (List ℕ)) → Short (t ∷ ts)
      → (let w = append_parts path_sep [] (map some (t ∷ ts)) in
          let r = path_join path_sep path_size (map some (t ∷ ts)) in
          ((r ≡ written w) × (length w < path_size))
          ⊎ ((r ≡ emptied enametoolong) × (path_size ≤ length w)))
  unfolding path_join have_of ends_of
  path_join_lem room t ts short = elim (measure_parts_lem [] (t ∷ ts) short room) [
    | inl (e, l) ↦ inl (rw (ne→== path_size 0 (omega arith), e) refl, l)
    | inr (e, l) ↦ inr (rw (ne→== path_size 0 (omega arith), e) refl, l)
  ]
