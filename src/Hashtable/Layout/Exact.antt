-- ===== src/Hashtable/Layout/Exact.antt =====
-- Proofs about the checked sums, products and alignments of hashtable_layout.c.
use app_c_platform.Base.{
  ℕ, zero, suc, ◌+◌, ◌-◌, ◌*◌, ◌/◌, ◌%◌, ◌≤◌, ◌<◌, ◌≡◌, ◌⊎◌, inl, inr, Option, none, some, ◌==◌,
  if◌then◌else◌, size_max, mul64, add64-eq, arith, refl, ap, lt→ltb, le→ltb, ne→==,
}
use native.Mathlib.Nat.{div-lt_iff_lt-mul, le-div_iff_mul-le, mul_comm}
use native.Mathlib.Decide.{dec_lt}
use app_c_platform.Hashtable.Layout.{add_checked, mul_checked, align_up_checked, and_then}

-- The result is `r` if `n` fits `size_t`, and an error otherwise.
abbrev pub ExactTo {ℓ} : {A : Type ℓ} → Option A → A → ℕ → Type ℓ
ExactTo o r n = ((o ≡ some r) × (n ≤ size_max)) ⊎ ((o ≡ none) × (size_max < n))

abbrev pub Exact : Option ℕ → ℕ → Type 0
Exact o n = ExactTo o n n

-- An error on the way to a size is an error of a size that is at least as large.
pub ExactTo-and_then {ℓ} :
    {A : Type ℓ} (o : Option ℕ) (f : ℕ → Option A) (n m : ℕ) (r : A)
    → Exact o n
    → n ≤ m
    → (n ≤ size_max → ExactTo (f n) r m)
    → ExactTo (and_then o f) r m
ExactTo-and_then o f n m r (inl (e, l)) h g = elim (g l) [
  | inl (e', l') ↦ inl (rw e e', l')
  | inr (e', l') ↦ inr (rw e e', l')
]
ExactTo-and_then o f n m r (inr (e, l)) h g = inr (rw e refl, omega arith)

pub add_checked-Exact : (a b : ℕ) → a ≤ size_max → Exact (add_checked a b) (a + b)
unfolding add_checked
add_checked-Exact a b h = elim (dec_lt (size_max - a) b) [
  | yes l ↦ inr (rw (lt→ltb (size_max - a) b l) refl, omega arith)
  | no l ↦ inl (
    rw (le→ltb (size_max - a) b (omega arith)) (ap some (add64-eq a b (omega arith))),
    omega arith,
  )
]

-- `offset` rounded up to a multiple of `alignment`.
abbrev pub round_up : ℕ → ℕ → ℕ
round_up offset alignment =
    offset + (if offset % alignment == 0 then 0 else alignment - offset % alignment)

pub align_up_checked-Exact :
    (offset alignment : ℕ)
    → offset ≤ size_max
    → Exact (align_up_checked offset alignment) (round_up offset alignment)
unfolding align_up_checked
align_up_checked-Exact offset alignment h =
    add_checked-Exact offset (if offset % alignment == 0 then 0 else alignment - offset % alignment)
      h

pub mul_checked-Exact : (a b : ℕ) → b ≤ size_max → Exact (mul_checked a b) (a * b)
unfolding mul_checked mul64
mul_checked-Exact zero b h = inl (ap some (omega arith), omega arith)
mul_checked-Exact (suc a) b h =
    let z = ne→== (suc a) 0 (omega arith) in
    elim (dec_lt (size_max / suc a) b) [
      | yes l ↦ inr (
        rw (z, lt→ltb (size_max / suc a) b l) refl,
        let p = (div-lt_iff_lt-mul {k = suc a} {x = size_max} {y = b} (omega arith)).0 l in
            let c = mul_comm (suc a) b in omega arith,
      )
      | no l ↦
          let p =
            (le-div_iff_mul-le {k = suc a} {x = b} {y = size_max} (omega arith)).0 (omega arith) in
          let c = mul_comm (suc a) b in
          let q : suc a * b ≤ size_max = omega arith in
          inl (rw (z, le→ltb (size_max / suc a) b (omega arith)) (ap some (omega arith)), q)
    ]
