-- ===== src/ByteOrder/LittleEndian.antt =====
-- A little-endian machine, for which byteorder.c is run.
use native.Mathlib.Nat.{pow-succ'}
use app_c_platform.Base.{
  ℕ, zero, suc, ◌+◌, ◌*◌, ◌/◌, ◌%◌, ◌^◌, ◌<◌, ◌≡◌, List, [], ◌∷◌, length, arith, refl, sym, ◌∙◌, ap,
}
use app_c_platform.ByteOrder.{AreBytes, IsMachine}

unfoldable pub little_load : List ℕ → ℕ
little_load [] = 0
little_load (b ∷ bs) = b + 256 * little_load bs

unfoldable pub little_store : ℕ → ℕ → List ℕ
little_store zero v = []
little_store (suc n) v = v % 256 ∷ little_store n (v / 256)

loaded : (n v : ℕ) → v < 256 ^ n → little_load (little_store n v) ≡ v
unfolding little_load little_store
loaded zero v h = omega arith
loaded (suc n) v h = let p = pow-succ' 256 n in omega (arith, loaded n (v / 256) (omega arith))

stored : (bs : List ℕ) → AreBytes bs → little_store (length bs) (little_load bs) ≡ bs
unfolding little_load little_store
stored [] h = refl
stored (b ∷ bs) h =
    let low : (b + 256 * little_load bs) % 256 ≡ b = omega arith in
    let high : (b + 256 * little_load bs) / 256 ≡ little_load bs = omega arith in
    rw (low, high) (ap (λ l. b ∷ l) (stored bs h.1))

stored_length : (n v : ℕ) → length (little_store n v) ≡ n
unfolding little_store
stored_length zero v = refl
stored_length (suc n) v = ap suc (stored_length n (v / 256))

stored_bytes : (n v : ℕ) → AreBytes (little_store n v)
unfolding little_store
stored_bytes zero v = tt
stored_bytes (suc n) v = (omega arith, stored_bytes n (v / 256))

pub little_load-IsMachine :
    (n : ℕ) → 2 ^ (8 * n) ≡ 256 ^ n → IsMachine n little_load (little_store n)
little_load-IsMachine n e = record {
  loaded = λ v h. loaded n v (omega arith);
  stored = λ bs l h. ap (λ k. little_store k (little_load bs)) (sym l) ∙ stored bs h;
  stored_length = stored_length n;
  stored_bytes = stored_bytes n;
}
