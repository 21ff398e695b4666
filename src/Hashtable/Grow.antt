-- ===== src/Hashtable/Grow.antt =====
-- The size that an automatic growth aims at: `hashtable_growth_target` of
-- prod/libsrc/cplat/hashtable/hashtable_grow.c.
use app_c_platform.Base.{
  ℕ, ◌/◌, ◌&&◌, not, Option, none, some, ltb, leb, ◌==◌, if◌then◌else◌, size_max, mul64,
}

-- `doubled`.
unfoldable pub doubled : ℕ → ℕ
unfolding mul64
doubled current = if ltb (size_max / 2) current then size_max else mul64 current 2

-- `target` before the last test.
unfoldable pub capped : ℕ → ℕ → ℕ → ℕ
unfolding doubled
capped current minimum maximum =
    let target = if ltb (doubled current) minimum then minimum else doubled current in
    if not (maximum == 0) && ltb maximum target then maximum else target

-- `hashtable_growth_target`: `some target` is the return value 1.
unfoldable pub growth_target : ℕ → ℕ → ℕ → Option ℕ
unfolding capped
growth_target current minimum maximum =
    if not (maximum == 0) && ltb maximum minimum
    then none
    else if leb minimum current
    then some current
    else if ltb (capped current minimum maximum) minimum
    then none
    else some (capped current minimum maximum)
