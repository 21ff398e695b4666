-- ===== src/LanguageTag/Chars.antt =====
-- The classes of bytes in ui_language_tag.c, and what its conversions of the case leave.
use app_c_platform.Base.{ℕ, ◌≤◌, ◌≡◌, ◌⊎◌, true, false, ◌||◌, ◌==◌, arith}
use app_c_platform.LanguageTag.{is_upper, is_lower, is_digit, to_upper, to_lower}

abbrev pub IsUpper : ℕ → Type 0
IsUpper c = (65 ≤ c) × (c ≤ 90)

abbrev pub IsLower : ℕ → Type 0
IsLower c = (97 ≤ c) × (c ≤ 122)

abbrev pub IsDigit : ℕ → Type 0
IsDigit c = (48 ≤ c) × (c ≤ 57)

pub to_upper-IsUpper : (c : ℕ) → (is_upper c || is_lower c) ≡ true → IsUpper (to_upper c)
unfolding is_upper is_lower to_upper
to_upper-IsUpper c h = ground arith

pub to_lower-IsLower : (c : ℕ) → (is_upper c || is_lower c) ≡ true → IsLower (to_lower c)
unfolding is_upper is_lower to_lower
to_lower-IsLower c h = ground arith

pub to_upper-IsDigit : (c : ℕ) → is_digit c ≡ true → IsDigit (to_upper c)
unfolding is_digit is_lower to_upper
to_upper-IsDigit c h = ground arith

-- A byte of its class stays as it is.
pub to_upper_same : (c : ℕ) → IsUpper c ⊎ IsDigit c → to_upper c ≡ c
unfolding is_lower to_upper
to_upper_same c h = ground arith

pub to_lower_same : (c : ℕ) → IsLower c → to_lower c ≡ c
unfolding is_upper to_lower
to_lower_same c h = ground arith

pub alpha_of : (c : ℕ) → IsUpper c ⊎ IsLower c → (is_upper c || is_lower c) ≡ true
unfolding is_upper is_lower
alpha_of c h = ground arith

pub digit_of : (c : ℕ) → IsDigit c → is_digit c ≡ true
unfolding is_digit
digit_of c h = ground arith

-- No byte of a tag's parts ends a subtag or a name.
abbrev pub IsPlain : ℕ → Type 0
IsPlain c = IsUpper c ⊎ (IsLower c ⊎ IsDigit c)

pub no_separator : (c : ℕ) → IsPlain c → ((c == 95) || (c == 45)) ≡ false
no_separator c h = ground arith

pub no_suffix : (c : ℕ) → IsPlain c → ((c == 46) || (c == 64)) ≡ false
no_suffix c h = ground arith
