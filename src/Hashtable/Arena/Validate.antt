-- ===== src/Hashtable/Arena/Validate.antt =====
-- Proofs about `hashtable_arena_validate` of hashtable_arena.c, by its loop.
use native.Mathlib.Decide.{dec_lt, dec_le}
use app_c_platform.Base.{
  ℕ, ◌+◌, ◌≤◌, ◌<◌, ◌^◌, ◌≡◌, Bool, true, false, List, [], ◌∷◌, none, some, sub64, arith, ap, sym,
  ◌∙◌, length, add64-eq, sub64-eq,
}
use app_c_platform.Hashtable.Arena.{FreeBlock, validate_loop}
use app_c_platform.Hashtable.Arena.Region.{FreeFrom, total_free, end_of-eq}

module _ (size : ℕ) (small : size < 2 ^ 64) where
  -- The least offset that the loop accepts next.
  abbrev next_bound : Bool → ℕ → ℕ
  next_bound true prev_end = 0
  next_bound false prev_end = prev_end + 1

  -- One round of the loop accepts a block exactly when it extends a free list.
  abbrev Accepts : Bool → ℕ → FreeBlock → Type 0
  Accepts first prev_end b =
      (next_bound first prev_end ≤ b.offset) × (0 < b.length) × (b.offset + b.length ≤ size)

  accepts? : (first : Bool) (prev_end : ℕ) (b : FreeBlock) → Dec (Accepts first prev_end b)
  accepts? first prev_end b = elim (dec_le (next_bound first prev_end) b.offset) [
    | no r ↦ no (λ a. r a.0)
    | yes p ↦ elim (dec_lt 0 b.length) [
      | no r ↦ no (λ a. r a.1)
      | yes q ↦ elim (dec_le (b.offset + b.length) size) [
        | no r ↦ no (λ a. r a.2)
        | yes s ↦ yes (p, q, s)
      ]
    ]
  ]

  validate_loop-Accepts :
      (b : FreeBlock) (fl : List FreeBlock) (first : Bool) (prev_end total : ℕ)
      → total ≤ b.offset
      → Accepts first prev_end b
      → validate_loop (b ∷ fl) first prev_end total size
        ≡ validate_loop fl false (b.offset + b.length) (total + b.length) size
  unfolding validate_loop
  validate_loop-Accepts b fl true prev_end total h a =
      rw
        (
          sub64-eq size b.offset (omega arith) small,
          end_of-eq size small b a.2,
          add64-eq total b.length (omega arith),
        )
        (ground arith)
  validate_loop-Accepts b fl false prev_end total h a =
      rw
        (
          sub64-eq size b.offset (omega arith) small,
          end_of-eq size small b a.2,
          add64-eq total b.length (omega arith),
        )
        (ground arith)

  validate_loop_refuses :
      (b : FreeBlock) (fl : List FreeBlock) (first : Bool) (prev_end total : ℕ)
      → ¬ Accepts first prev_end b
      → validate_loop (b ∷ fl) first prev_end total size ≡ none
  unfolding validate_loop sub64
  validate_loop_refuses b fl true prev_end total no_fit = ground arith
  validate_loop_refuses b fl false prev_end total no_fit = ground arith

  pub validate_loop_sound :
      (fl : List FreeBlock) (first : Bool) (prev_end total t : ℕ)
      → total ≤ next_bound first prev_end
      → validate_loop fl first prev_end total size ≡ some t
      → FreeFrom size (next_bound first prev_end) fl × (t ≡ total + total_free fl)
  unfolding total_free
  validate_loop_sound [] first prev_end total t h e = (tt, unfold validate_loop in ground arith)
  validate_loop_sound (b ∷ fl) first prev_end total t h e = elim (accepts? first prev_end b) [
    | yes a ↦
        let (f, s) =
          validate_loop_sound fl false (b.offset + b.length) (total + b.length) t (omega arith)
            (sym (validate_loop-Accepts b fl first prev_end total (omega arith) a) ∙ e) in
        ((a.0, a.1, a.2, f), omega arith)
    | no r ↦ absurd (cc (validate_loop_refuses b fl first prev_end total r))
  ]

  pub validate_loop_complete :
      (fl : List FreeBlock) (first : Bool) (prev_end total : ℕ)
      → total ≤ next_bound first prev_end
      → FreeFrom size (next_bound first prev_end) fl
      → validate_loop fl first prev_end total size ≡ some (total + total_free fl)
  unfolding total_free
  validate_loop_complete [] first prev_end total h f = unfold validate_loop in ap some (omega arith)
  validate_loop_complete (b ∷ fl) first prev_end total h f =
      validate_loop-Accepts b fl first prev_end total (omega arith) (f.0, f.1, f.2)
      ∙ validate_loop_complete fl false (b.offset + b.length) (total + b.length) (omega arith) f.3
      ∙ ap some (omega arith)
