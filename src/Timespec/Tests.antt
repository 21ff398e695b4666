-- ===== src/Timespec/Tests.antt =====
-- The functions of timespec.c on concrete times.
use app_c_platform.Base.{◌≡◌, ◌⊎◌, refl, arith}
use app_c_platform.Base.Int.{pos, negsuc, ◌+ℤ◌, ◌-ℤ◌, ◌*ℤ◌, ◌≤ℤ◌}
use app_c_platform.Timespec.{
  Timespec, timespec, nsec_per_msec, timespec_normalize, timespec_add, timespec_sub, timespec_cmp,
  timespec_diff_ms, Sign, quot, rem,
}
use app_c_platform.Timespec.Laws.{
  IsNormal, nanos, timespec_normalize_lem, timespec_add_lem, timespec_sub_lem, timespec_sub-add,
  timespec_cmp_lem, timespec_diff_ms_lem,
}

abbrev early : Timespec
early = timespec (pos 10) (pos 999_999_999)

abbrev late : Timespec
late = timespec (pos 11) (pos 2)

early-IsNormal : IsNormal early
early-IsNormal = (refl, omega arith)

late-IsNormal : IsNormal late
late-IsNormal = (refl, omega arith)

-- A negative number of nanoseconds borrows a second.
borrow : timespec_normalize (timespec (pos 5) (negsuc 0)) ≡ timespec (pos 4) (pos 999_999_999)
unfolding timespec_normalize quot rem ◌+ℤ◌ ◌-ℤ◌
borrow = refl

carry : timespec_add early late ≡ timespec (pos 22) (pos 1)
unfolding timespec_add timespec_normalize quot rem ◌+ℤ◌ ◌-ℤ◌
carry = refl

normalize_example :
    IsNormal (timespec_normalize (timespec (pos 5) (negsuc 0)))
    × (nanos (timespec_normalize (timespec (pos 5) (negsuc 0)))
        ≡ nanos (timespec (pos 5) (negsuc 0)))
normalize_example = timespec_normalize_lem (timespec (pos 5) (negsuc 0))

sub_add_example : timespec_sub (timespec_add early late) late ≡ early
sub_add_example = timespec_sub-add early late early-IsNormal

add_example :
    IsNormal (timespec_add early late)
    × (nanos (timespec_add early late) ≡ nanos early +ℤ nanos late)
add_example = timespec_add_lem early late

sub_example :
    IsNormal (timespec_sub early late)
    × (nanos (timespec_sub early late) ≡ nanos early -ℤ nanos late)
sub_example = timespec_sub_lem early late

cmp_example :
    ((timespec_cmp early late ≡ Sign.minus) × (nanos early +ℤ pos 1 ≤ℤ nanos late))
    ⊎ ((timespec_cmp early late ≡ Sign.zero) × (early ≡ late))
    ⊎ ((timespec_cmp early late ≡ Sign.plus) × (nanos late +ℤ pos 1 ≤ℤ nanos early))
cmp_example = timespec_cmp_lem early late early-IsNormal late-IsNormal

diff_ms_example :
    let d = timespec_diff_ms early late in
    (d *ℤ pos nsec_per_msec ≤ℤ nanos early -ℤ nanos late)
    × (nanos early -ℤ nanos late +ℤ pos 1 ≤ℤ (d +ℤ pos 1) *ℤ pos nsec_per_msec)
diff_ms_example = timespec_diff_ms_lem early late
