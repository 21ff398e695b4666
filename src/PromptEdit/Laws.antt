-- ===== src/PromptEdit/Laws.antt =====
-- Proofs about prompt_edit.c.
use app_c_platform.Base.{
  ℕ, zero, suc, ◌+◌, ◌-◌, ◌<◌, ◌≤◌, ◌≡◌, ◌⊎◌, inl, inr, Bool, false, List, some, arith, refl,
  Bool-cases, lt→ltb, le→ltb, le→leb, gt→leb,
}
use native.Mathlib.Decide.{dec_lt, dec_le}
use app_c_platform.PromptEdit.{
  prev_loop, utf8_prev_boundary, next_loop, utf8_next_boundary, next_capacity, capacity_loop,
  ensured, short, ensure_capacity,
}

module _ (max_bytes required : ℕ) (fits : required ≤ max_bytes) where
  next_capacity_lem :
      (cap : ℕ)
      → cap < required
      → (cap < next_capacity max_bytes cap) × (next_capacity max_bytes cap ≤ max_bytes)
  unfolding next_capacity
  next_capacity_lem cap l = ground arith

  -- The loop ends with a capacity between what is asked for and the limit.
  capacity_loop_lem :
      (fuel cap : ℕ)
      → required - cap < fuel
      → cap ≤ max_bytes
      → (c : ℕ) × (capacity_loop max_bytes required fuel cap ≡ some c)
        × (required ≤ c)
        × (cap ≤ c)
        × (c ≤ max_bytes)
  unfolding capacity_loop
  capacity_loop_lem zero cap l m = absurd (omega arith)
  capacity_loop_lem (suc fuel) cap l m = elim (dec_lt cap required) [
    | yes p ↦
        let (a, b) = next_capacity_lem cap p in
        let (c, e, x, y, z) =
          capacity_loop_lem fuel (next_capacity max_bytes cap) (omega arith) b in
        (c, rw (lt→ltb cap required p) e, x, omega arith, z)
    | no p ↦ (cap, rw (le→ltb cap required (omega arith)) refl, omega arith, omega arith, m)
  ]

-- `cplat_internal_prompt_edit_ensure_capacity`, for a capacity before that is not above the limit,
-- ends: with a capacity that holds what is required, is
-- not below the one before and not above the limit, or with a refusal, where more is required than
-- the limit or the memory is not given.
pub ensure_capacity_lem :
    (grants : Bool) (cap max_bytes required : ℕ)
    → cap ≤ max_bytes
    → ((c : ℕ) × (ensure_capacity grants cap max_bytes required ≡ ensured c)
        × (required ≤ c)
        × (cap ≤ c)
        × (c ≤ max_bytes))
      ⊎ ((ensure_capacity grants cap max_bytes required ≡ short)
          × (cap < required)
          × ((max_bytes < required) ⊎ (grants ≡ false)))
unfolding ensure_capacity
ensure_capacity_lem grants cap max_bytes required m = elim (dec_le required cap) [
  | yes p ↦ inl (cap, rw (le→leb required cap p) refl, p, omega arith, m)
  | no p ↦ elim (dec_lt max_bytes required) [
    | yes q ↦ inr (
      rw (gt→leb required cap (omega arith), lt→ltb max_bytes required q) refl,
      omega arith,
      inl q,
    )
    | no q ↦
        let (c, e, x, y, z) =
          capacity_loop_lem max_bytes required (omega arith) (suc required) cap (omega arith) m in
        elim (Bool-cases grants) [
          | inl g ↦ inl (
            c,
            rw (gt→leb required cap (omega arith), le→ltb max_bytes required (omega arith), e, g)
                refl,
            x,
            y,
            z,
          )
          | inr g ↦ inr (
            rw (gt→leb required cap (omega arith), le→ltb max_bytes required (omega arith), e, g)
                refl,
            omega arith,
            inr g,
          )
        ]
  ]
]

pub prev_loop_le : (buf : List ℕ) (p : ℕ) → prev_loop buf p ≤ p
unfolding prev_loop
prev_loop_le buf zero = omega arith
prev_loop_le buf (suc p) = ground (arith, prev_loop_le buf p)

pub utf8_prev_boundary_lt : (buf : List ℕ) (pos : ℕ) → 0 < pos → utf8_prev_boundary buf pos < pos
unfolding utf8_prev_boundary
utf8_prev_boundary_lt buf zero l = absurd (omega arith)
utf8_prev_boundary_lt buf (suc p) l = omega (arith, prev_loop_le buf p)

next_loop_range :
    (buf : List ℕ) (n pos : ℕ) → (pos ≤ next_loop buf n pos) × (next_loop buf n pos ≤ pos + n)
unfolding next_loop
next_loop_range buf zero pos = (omega arith, omega arith)
next_loop_range buf (suc n) pos =
    let (a, b) = next_loop_range buf n (pos + 1) in (ground arith, ground arith)

pub utf8_next_boundary_range :
    (buf : List ℕ) (len pos : ℕ)
    → pos < len
    → (pos < utf8_next_boundary buf len pos) × (utf8_next_boundary buf len pos ≤ len)
unfolding utf8_next_boundary
utf8_next_boundary_range buf len pos l =
    let (a, b) = next_loop_range buf (len - (pos + 1)) (pos + 1) in
    rw (gt→leb len pos l) (omega arith, omega arith)
