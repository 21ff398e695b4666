-- ===== src/Timespec/Laws.antt =====
-- Proofs about timespec.c, by arithmetic on the number of nanoseconds.
use app_c_platform.Base.{ℕ, ◌+◌, ◌*◌, ◌/◌, ◌%◌, ◌<◌, ◌≡◌, arith, refl, inl, inr, sym, ap, ◌∙◌, ◌⊎◌}
use app_c_platform.Base.Int.{
  ℤ, pos, negsuc, pos_part, neg_part, ◌+ℤ◌, ◌-ℤ◌, ◌*ℤ◌, ◌≤ℤ◌, +ℤ_parts, -ℤ_parts, +ℤ_cancel,
  int_laws,
}
use native.Mathlib.Decide.{dec_lt}
use native.Mathlib.Nat.{zero-div, zero-mod}
use app_c_platform.Timespec.{
  Timespec, timespec, nsec_per_sec, nsec_per_msec, msec_per_sec, quot, rem, timespec_normalize,
  timespec_add, timespec_sub, timespec_cmp, timespec_add_ms, timespec_diff_ms, Sign,
}

-- The nanoseconds in `[0, 10^9)`.
abbrev pub IsNormal : Timespec → Type 0
IsNormal ts = (neg_part ts.tv_nsec ≡ 0) × (pos_part ts.tv_nsec < nsec_per_sec)

-- The nanoseconds since the origin.
unfoldable pub nanos : Timespec → ℤ
nanos ts = ts.tv_sec *ℤ pos nsec_per_sec +ℤ ts.tv_nsec

abbrev dec_ltℤ : (a b : ℤ) → Dec (pos_part a + neg_part b < pos_part b + neg_part a)
dec_ltℤ a b = dec_lt (pos_part a + neg_part b) (pos_part b + neg_part a)

times_parts :
    (a : ℤ) (k : ℕ)
    → (pos_part (a *ℤ pos k) ≡ pos_part a * k) × (neg_part (a *ℤ pos k) ≡ neg_part a * k)
unfolding ◌*ℤ◌
times_parts (pos n) k = ground arith
times_parts (negsuc n) k = ground arith

pub quot_parts :
    (a : ℤ) (d : ℕ)
    → (pos_part (quot a d) ≡ pos_part a / d) × (neg_part (quot a d) ≡ neg_part a / d)
unfolding quot
quot_parts (pos n) d = (refl, sym (zero-div d))
quot_parts (negsuc n) d = ground (arith, zero-div d)

pub rem_parts :
    (a : ℤ) (d : ℕ) → (pos_part (rem a d) ≡ pos_part a % d) × (neg_part (rem a d) ≡ neg_part a % d)
unfolding rem
rem_parts (pos n) d = (refl, sym (zero-mod d))
rem_parts (negsuc n) d = ground (arith, zero-mod d)

sec_parts :
    (a : ℤ)
    → (pos_part (a *ℤ pos nsec_per_sec) ≡ pos_part a * nsec_per_sec)
      × (neg_part (a *ℤ pos nsec_per_sec) ≡ neg_part a * nsec_per_sec)
sec_parts a = times_parts a nsec_per_sec

ruleset instant_laws = (int_laws, sec_parts)

normalize_parts :
    (ts : Timespec)
    → let r = timespec_normalize ts in
      IsNormal r
      × (pos_part r.tv_sec * nsec_per_sec
            + pos_part r.tv_nsec
            + neg_part ts.tv_sec * nsec_per_sec
            + neg_part ts.tv_nsec
          ≡ pos_part ts.tv_sec * nsec_per_sec
            + pos_part ts.tv_nsec
            + neg_part r.tv_sec * nsec_per_sec
            + neg_part r.tv_nsec)
unfolding timespec_normalize
normalize_parts ts =
    let n = ts.tv_nsec in
    let c = quot n nsec_per_sec in
    let r = rem n nsec_per_sec in
    ground (
      arith,
      quot_parts n nsec_per_sec,
      rem_parts n nsec_per_sec,
      +ℤ_parts ts.tv_sec c,
      +ℤ_parts ts.tv_sec (c -ℤ pos 1),
      -ℤ_parts c (pos 1),
      +ℤ_parts r (pos nsec_per_sec),
    )

-- `cplat_timespec_normalize` leaves the instant and puts the nanoseconds into `[0, 10^9)`, also
-- from negative nanoseconds and from more than a second of them.
pub timespec_normalize_lem :
    (ts : Timespec) → IsNormal (timespec_normalize ts) × (nanos (timespec_normalize ts) ≡ nanos ts)
unfolding nanos
timespec_normalize_lem ts = let p = normalize_parts ts in (p.0, omega (instant_laws, p.1))

-- `cplat_timespec_add` adds the instants, and its result is normal.
pub timespec_add_lem :
    (a b : Timespec) → IsNormal (timespec_add a b) × (nanos (timespec_add a b) ≡ nanos a +ℤ nanos b)
unfolding timespec_add nanos
timespec_add_lem a b =
    let p = normalize_parts (timespec (a.tv_sec +ℤ b.tv_sec) (a.tv_nsec +ℤ b.tv_nsec)) in
    (p.0, omega (instant_laws, p.1))

-- `cplat_timespec_sub` subtracts the instants, and its result is normal.
pub timespec_sub_lem :
    (a b : Timespec) → IsNormal (timespec_sub a b) × (nanos (timespec_sub a b) ≡ nanos a -ℤ nanos b)
unfolding timespec_sub nanos
timespec_sub_lem a b =
    let p = normalize_parts (timespec (a.tv_sec -ℤ b.tv_sec) (a.tv_nsec -ℤ b.tv_nsec)) in
    (p.0, omega (instant_laws, p.1))

-- `cplat_timespec_add_ms` adds the milliseconds to the instant, and its result is normal.
pub timespec_add_ms_lem :
    (ts : Timespec) (ms : ℕ)
    → IsNormal (timespec_add_ms ts ms)
      × (nanos (timespec_add_ms ts ms) ≡ nanos ts +ℤ pos (ms * nsec_per_msec))
unfolding timespec_add_ms nanos
timespec_add_ms_lem ts ms =
    let s = ts.tv_sec +ℤ pos (ms / msec_per_sec) in
    let n = ts.tv_nsec +ℤ pos (ms % msec_per_sec * nsec_per_msec) in
    let p = normalize_parts (timespec s n) in (p.0, omega (instant_laws, p.1))

-- A normal value is determined by its instant.
pub nanos-injective : (a b : Timespec) → IsNormal a → IsNormal b → nanos a ≡ nanos b → a ≡ b
unfolding nanos
nanos-injective a b na nb e =
    let s : a.tv_sec ≡ b.tv_sec = omega (instant_laws, ap pos_part e, ap neg_part e) in
    let n : a.tv_nsec ≡ b.tv_nsec = omega (instant_laws, ap pos_part e, ap neg_part e) in
    λ i. timespec (s i) (n i)

-- Subtracting what was added gives the normal value back.
pub timespec_sub-add : (a b : Timespec) → IsNormal a → timespec_sub (timespec_add a b) b ≡ a
timespec_sub-add a b na =
    let p = timespec_add_lem a b in
    let q = timespec_sub_lem (timespec_add a b) b in
    nanos-injective (timespec_sub (timespec_add a b) b) a q.0 na
      (q.1 ∙ rw p.1 (+ℤ_cancel (nanos a) (nanos b)))

-- On normal values `cplat_timespec_cmp` orders the instants: -1 before, 0 for the same value, and
-- 1 after.
pub timespec_cmp_lem :
    (a b : Timespec)
    → IsNormal a
    → IsNormal b
    → ((timespec_cmp a b ≡ Sign.minus) × (nanos a +ℤ pos 1 ≤ℤ nanos b))
      ⊎ ((timespec_cmp a b ≡ Sign.zero) × (a ≡ b))
      ⊎ ((timespec_cmp a b ≡ Sign.plus) × (nanos b +ℤ pos 1 ≤ℤ nanos a))
unfolding timespec_cmp nanos
timespec_cmp_lem a b na nb = elim (dec_ltℤ a.tv_sec b.tv_sec) [
  | yes h ↦ inl (ground arith, omega instant_laws)
  | no h ↦ elim (dec_ltℤ b.tv_sec a.tv_sec) [
    | yes k ↦ inr (inr (ground arith, omega instant_laws))
    | no k ↦
        let s : a.tv_sec ≡ b.tv_sec = omega int_laws in
        elim (dec_ltℤ a.tv_nsec b.tv_nsec) [
          | yes i ↦ inl (ground arith, omega instant_laws)
          | no i ↦ elim (dec_ltℤ b.tv_nsec a.tv_nsec) [
            | yes j ↦ inr (inr (ground arith, omega instant_laws))
            | no j ↦
                let n : a.tv_nsec ≡ b.tv_nsec = omega int_laws in
                inr (inl (ground arith, λ i. timespec (s i) (n i)))
          ]
        ]
  ]
]

ms_parts :
    (a : ℤ)
    → (pos_part (a *ℤ pos msec_per_sec) ≡ pos_part a * msec_per_sec)
      × (neg_part (a *ℤ pos msec_per_sec) ≡ neg_part a * msec_per_sec)
ms_parts a = times_parts a msec_per_sec

ns_parts :
    (a : ℤ)
    → (pos_part (a *ℤ pos nsec_per_msec) ≡ pos_part a * nsec_per_msec)
      × (neg_part (a *ℤ pos nsec_per_msec) ≡ neg_part a * nsec_per_msec)
ns_parts a = times_parts a nsec_per_msec

floor_ms :
    (t : Timespec)
    → IsNormal t
    → let d = t.tv_sec *ℤ pos msec_per_sec +ℤ quot t.tv_nsec nsec_per_msec in
      (d *ℤ pos nsec_per_msec ≤ℤ nanos t) × (nanos t +ℤ pos 1 ≤ℤ (d +ℤ pos 1) *ℤ pos nsec_per_msec)
unfolding nanos
floor_ms t n =
    let q = quot_parts t.tv_nsec nsec_per_msec in
    (omega (instant_laws, ms_parts, ns_parts, q), omega (instant_laws, ms_parts, ns_parts, q))

-- `cplat_timespec_diff_ms` rounds the difference down to whole milliseconds.
pub timespec_diff_ms_lem :
    (end start : Timespec)
    → let d = timespec_diff_ms end start in
      (d *ℤ pos nsec_per_msec ≤ℤ nanos end -ℤ nanos start)
      × (nanos end -ℤ nanos start +ℤ pos 1 ≤ℤ (d +ℤ pos 1) *ℤ pos nsec_per_msec)
unfolding timespec_diff_ms
timespec_diff_ms_lem end start =
    let p = timespec_sub_lem end start in rw (← p.1) (floor_ms (timespec_sub end start) p.0)
