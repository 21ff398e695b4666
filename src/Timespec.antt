-- ===== src/Timespec.antt =====
-- prod/libsrc/cplat/clock/timespec.c: seconds and nanoseconds as two signed 64-bit numbers.
-- Signed overflow is undefined in C, so the numbers are integers without a bound. NULL arguments,
-- for which the functions return at once, are not modelled.
pub mod Laws
mod Tests
use app_c_platform.Base.{ℕ, suc, ◌*◌, ◌/◌, ◌%◌, Bool, ◌||◌, not, if◌then◌else◌}
use app_c_platform.Base.Int.{ℤ, pos, negsuc, ◌+ℤ◌, ◌-ℤ◌, ◌*ℤ◌, ltb_ℤ, sub_ℕ}

-- `cplat_timespec`.
pub record Timespec : Type 0 where
  pub tv_sec : ℤ
  pub tv_nsec : ℤ

abbrev pub timespec : ℤ → ℤ → Timespec
timespec s n = record { tv_sec = s; tv_nsec = n }

abbrev pub msec_per_sec : ℕ
msec_per_sec = 1000

abbrev pub nsec_per_sec : ℕ
nsec_per_sec = 1_000_000_000

abbrev pub nsec_per_msec : ℕ
nsec_per_msec = 1_000_000

-- The `/` and `%` of C by a positive number, which truncate towards zero.
unfoldable pub quot : ℤ → ℕ → ℤ
quot (pos n) d = pos (n / d)
quot (negsuc n) d = sub_ℕ 0 (suc n / d)

unfoldable pub rem : ℤ → ℕ → ℤ
rem (pos n) d = pos (n % d)
rem (negsuc n) d = sub_ℕ 0 (suc n % d)

-- `cplat_timespec_normalize`.
unfoldable pub timespec_normalize : Timespec → Timespec
timespec_normalize ts =
    let carry_sec = quot ts.tv_nsec nsec_per_sec in
    let nsec = rem ts.tv_nsec nsec_per_sec in
    if not (ltb_ℤ ts.tv_nsec (pos nsec_per_sec)) || ltb_ℤ ts.tv_nsec (pos 0)
    then if ltb_ℤ nsec (pos 0)
      then timespec (ts.tv_sec +ℤ (carry_sec -ℤ pos 1)) (nsec +ℤ pos nsec_per_sec)
      else timespec (ts.tv_sec +ℤ carry_sec) nsec
    else ts

-- `cplat_timespec_add`.
unfoldable pub timespec_add : Timespec → Timespec → Timespec
timespec_add a b = timespec_normalize (timespec (a.tv_sec +ℤ b.tv_sec) (a.tv_nsec +ℤ b.tv_nsec))

-- `cplat_timespec_sub`.
unfoldable pub timespec_sub : Timespec → Timespec → Timespec
timespec_sub a b = timespec_normalize (timespec (a.tv_sec -ℤ b.tv_sec) (a.tv_nsec -ℤ b.tv_nsec))

-- The results -1, 0 and 1 of a comparison.
pub data Sign : Type 0 where
  minus zero plus : Sign

-- `cplat_timespec_cmp`.
unfoldable pub timespec_cmp : Timespec → Timespec → Sign
timespec_cmp a b =
    if ltb_ℤ a.tv_sec b.tv_sec
    then minus
    else if ltb_ℤ b.tv_sec a.tv_sec
    then plus
    else if ltb_ℤ a.tv_nsec b.tv_nsec
    then minus
    else if ltb_ℤ b.tv_nsec a.tv_nsec
    then plus
    else zero

-- `cplat_timespec_add_ms`.
unfoldable pub timespec_add_ms : Timespec → ℕ → Timespec
timespec_add_ms ts timeout_ms = timespec_normalize (
    timespec (ts.tv_sec +ℤ pos (timeout_ms / msec_per_sec))
      (ts.tv_nsec +ℤ pos (timeout_ms % msec_per_sec * nsec_per_msec)))

-- `cplat_timespec_diff_ms`.
unfoldable pub timespec_diff_ms : Timespec → Timespec → ℤ
timespec_diff_ms end start =
    let diff = timespec_sub end start in
    diff.tv_sec *ℤ pos msec_per_sec +ℤ quot diff.tv_nsec nsec_per_msec
