-- ===== src/Hashtable/Modify/Lowest.antt =====
-- `next_empty`: what `scan_next_empty` finds, and the number after a record is filled or emptied.
use app_c_platform.Base.{
  ℕ, zero, suc, ◌+◌, ◌-◌, ◌<◌, ◌≡◌, ◌≢◌, inl, inr, ◌||◌, ◌==◌, ltb, if◌then◌else◌, arith, refl, sym,
  subst, ◌∙◌, ==_iff, ne→==, lt→ltb, le→ltb, ap,
}
use native.Mathlib.Decide.{ℕ_discrete, dec_lt}
use app_c_platform.Hashtable.Store.{update, update_hit, update_miss}
use app_c_platform.Hashtable.Table.Counts.{FirstEmpty}
use app_c_platform.Hashtable.Modify.{scan_loop}

scan_here : (f : ℕ → ℕ) (n i : ℕ) → f i ≡ 0 → scan_loop f (suc n) i ≡ i + 1
unfolding scan_loop
scan_here f n i e = rw e refl

scan_there : (f : ℕ → ℕ) (n i : ℕ) → f i ≢ 0 → scan_loop f (suc n) i ≡ scan_loop f n (i + 1)
unfolding scan_loop
scan_there f n i e = rw (ne→== (f i) 0 e)

-- The loop finds the first record at 0.
pub scan_loop_lem : (f : ℕ → ℕ) (n i : ℕ) → FirstEmpty f i (i + n) (scan_loop f n i)
scan_loop_lem f zero i = inl (unfold scan_loop in refl, λ j l h e. omega arith)
scan_loop_lem f (suc n) i = elim (ℕ_discrete (f i) 0) [
  | yes e ↦
      inr (i, scan_here f n i e ∙ omega arith, omega arith, omega arith, e, λ j l h q. omega arith)
  | no e ↦ elim (scan_loop_lem f n (i + 1)) [
    | inl (z, all) ↦ inl (
      scan_there f n i e ∙ z,
      λ j l h. elim (ℕ_discrete j i) [
        | yes q ↦ λ w. e (sym (ap f q) ∙ w)
        | no q ↦ all j (omega arith) (omega arith)
      ],
    )
    | inr (r, z, a, b, c, all) ↦ inr (
      r,
      scan_there f n i e ∙ z,
      omega arith,
      omega arith,
      c,
      λ j l h. elim (ℕ_discrete j i) [
        | yes q ↦ λ w. e (sym (ap f q) ∙ w)
        | no q ↦ all j (omega arith) (omega arith)
      ],
    )
  ]
]

module _ (f : ℕ → ℕ) (hi ne rec : ℕ) (v : FirstEmpty f 0 hi ne) (small : rec < hi) where
  nonzero : (s : ℕ) → s ≢ 0 → (j : ℕ) → (j ≢ rec → f j ≢ 0) → update f rec s j ≢ 0
  nonzero s p j h e = elim (ℕ_discrete j rec) [
    | yes q ↦ p (sym (update_hit f rec s j q) ∙ e)
    | no q ↦ h q (sym (update_miss f rec s j q) ∙ e)
  ]

  -- Another record than the lowest empty one is filled or stays filled.
  pub FirstEmpty-other : (s : ℕ) → s ≢ 0 → rec + 1 ≢ ne → FirstEmpty (update f rec s) 0 hi ne
  FirstEmpty-other s p n = elim v [
    | inl (z, all) ↦ inl (z, λ j l h. nonzero s p j (λ q. all j l h))
    | inr (r, z, a, b, c, all) ↦ inr (
      r,
      z,
      a,
      b,
      update_miss f rec s r (omega arith) ∙ c,
      λ j l h. nonzero s p j (λ q. all j l h),
    )
  ]

  -- The lowest empty record is filled, and the scan goes on behind it.
  FirstEmpty-lowest :
      (s : ℕ)
      → s ≢ 0
      → rec + 1 ≡ ne
      → FirstEmpty (update f rec s) 0 hi (scan_loop (update f rec s) (hi - (rec + 1)) (rec + 1))
  FirstEmpty-lowest s p e = elim v [
    | inl (z, all) ↦ absurd (omega arith)
    | inr (r, z, a, b, c, all) ↦
        let low : (j : ℕ) → j < rec + 1 → update f rec s j ≢ 0 =
          λ j h. nonzero s p j (λ q. all j (omega arith) (omega arith)) in
        let top : rec + 1 + (hi - (rec + 1)) ≡ hi = omega arith in
        elim (subst
          (λ x.
            FirstEmpty (update f rec s) (rec + 1) x
              (scan_loop (update f rec s) (hi - (rec + 1)) (rec + 1)))
          top (scan_loop_lem (update f rec s) (hi - (rec + 1)) (rec + 1))) [
            | inl (z', all') ↦ inl (
              z',
              λ j l h. elim (dec_lt j (rec + 1)) [
                | yes q ↦ low j q
                | no q ↦ all' j (omega arith) h
              ],
            )
            | inr (r', z', a', b', c', all') ↦ inr (
              r',
              z',
              omega arith,
              b',
              c',
              λ j l h. elim (dec_lt j (rec + 1)) [
                | yes q ↦ low j q
                | no q ↦ all' j (omega arith) h
              ],
            )
          ]
  ]

  pub FirstEmpty-filled :
      (s : ℕ)
      → s ≢ 0
      → FirstEmpty
          (update f rec s)
          0
          hi
          (if rec + 1 == ne then scan_loop (update f rec s) (hi - (rec + 1)) (rec + 1) else ne)
  FirstEmpty-filled s p = elim (ℕ_discrete (rec + 1) ne) [
    | yes e ↦ rw ((==_iff (rec + 1) ne).1 e) (FirstEmpty-lowest s p e)
    | no e ↦ rw (ne→== (rec + 1) ne e) (FirstEmpty-other s p e)
  ]

  -- A record becomes empty.
  pub FirstEmpty-emptied :
      FirstEmpty (update f rec 0) 0 hi (if ne == 0 || ltb (rec + 1) ne then rec + 1 else ne)
  FirstEmpty-emptied = elim v [
    | inl (z, all) ↦ rw z (
        inr (
          rec,
          omega arith,
          omega arith,
          small,
          update_hit f rec 0 rec refl,
          λ j l h e. all j l (omega arith) (sym (update_miss f rec 0 j (omega arith)) ∙ e),
        ))
    | inr (r, z, a, b, c, all) ↦ elim (dec_lt (rec + 1) ne) [
      | yes q ↦
          rw (ne→== ne 0 (omega arith), lt→ltb (rec + 1) ne q)
            (inr (
              rec,
              omega arith,
              omega arith,
              small,
              update_hit f rec 0 rec refl,
              λ j l h e. all j l (omega arith) (sym (update_miss f rec 0 j (omega arith)) ∙ e),
            ))
      | no q ↦
          rw (ne→== ne 0 (omega arith), le→ltb (rec + 1) ne (omega arith))
            (inr (
              r,
              z,
              a,
              b,
              elim (ℕ_discrete r rec) [
                | yes w ↦ update_hit f rec 0 r w
                | no w ↦ update_miss f rec 0 r w ∙ c
              ],
              λ j l h e. all j l h (sym (update_miss f rec 0 j (omega arith)) ∙ e),
            ))
    ]
  ]
