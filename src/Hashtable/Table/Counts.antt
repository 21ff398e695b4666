-- ===== src/Hashtable/Table/Counts.antt =====
-- The counters of the header against the records' status: how many records pass a test, and which
-- record is the lowest empty one.
use app_c_platform.Base.{
  ℕ, zero, suc, ◌+◌, ◌≤◌, ◌<◌, ◌≡◌, ◌≢◌, ◌⊎◌, Bool, true, false, if◌then◌else◌, arith, refl, ap,
}
use native.Mathlib.Decide.{ℕ_discrete}
use app_c_platform.Hashtable.Store.{update, update_hit, update_miss}

-- How many of the first `n` records pass the test.
unfoldable pub count : (ℕ → Bool) → (ℕ → ℕ) → ℕ → ℕ
count test f zero = 0
count test f (suc n) = if test (f n) then suc (count test f n) else count test f n

abbrev pub one_if : Bool → ℕ
one_if b = if b then 1 else 0

pub count_bound : (test : ℕ → Bool) (f : ℕ → ℕ) (n : ℕ) → count test f n ≤ n
unfolding count
count_bound test f zero = omega arith
count_bound test f (suc n) = ground (arith, count_bound test f n)

pub count_none :
    (test : ℕ → Bool) (f : ℕ → ℕ) (n : ℕ)
    → ((j : ℕ) → j < n → test (f j) ≡ false)
    → count test f n ≡ 0
unfolding count
count_none test f zero h = refl
count_none test f (suc n) h =
    rw (h n (omega arith)) (count_none test f n (λ j l. h j (omega arith)))

module _ (test : ℕ → Bool) (f : ℕ → ℕ) (i v : ℕ) where
  count-same : (n : ℕ) → n ≤ i → count test (update f i v) n ≡ count test f n
  unfolding count
  count-same zero h = refl
  count-same (suc n) h = rw (update_miss f i v n (omega arith), count-same n (omega arith))

  -- One record's status changes.
  pub count-update :
      (n : ℕ)
      → i < n
      → count test (update f i v) n + one_if (test (f i)) ≡ count test f n + one_if (test v)
  unfolding count
  count-update zero h = absurd (omega arith)
  count-update (suc n) h = elim (ℕ_discrete n i) [
    | yes e ↦
        let s = count-same n (omega arith) in rw (update_hit f i v n e, s, ap f e) (ground arith)
    | no e ↦ let s = count-update n (omega arith) in rw (update_miss f i v n e) (ground (arith, s))
  ]

  -- A record that passes is counted.
  pub count_pos : (n : ℕ) → i < n → test (f i) ≡ true → 0 < count test f n
  unfolding count
  count_pos zero h e = absurd (omega arith)
  count_pos (suc n) h e = elim (ℕ_discrete n i) [
    | yes q ↦ rw (ap f q, e) (omega arith)
    | no q ↦ let s = count_pos n (omega arith) e in ground (arith, s)
  ]

-- `ne` is the 1-based number of the first record of `[lo, hi)` at 0, or 0 if there is none.
abbrev pub FirstEmpty : (ℕ → ℕ) → ℕ → ℕ → ℕ → Type 0
FirstEmpty f lo hi ne =
    ((ne ≡ 0) × ((j : ℕ) → lo ≤ j → j < hi → f j ≢ 0))
    ⊎ ((r : ℕ) × (ne ≡ suc r)
        × (lo ≤ r)
        × (r < hi)
        × (f r ≡ 0)
        × ((j : ℕ) → lo ≤ j → j < r → f j ≢ 0))
