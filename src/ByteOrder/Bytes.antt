-- ===== src/ByteOrder/Bytes.antt =====
-- The bytes of the words of byteorder.c.
use Prim.Native.Nat.{bit_or}
use native.Mathlib.Nat.{mul-lt-mul_of_pos_right, one-le-pow}
use app_c_platform.Base.{
  ℕ, zero, suc, ◌+◌, ◌*◌, ◌^◌, ◌<◌, ◌≡◌, List, [], ◌∷◌, get_or, arith, refl, ◌∙◌, ap,
}
use app_c_platform.Base.Bits.{bit_or_above}
use app_c_platform.ByteOrder.{AreBytes}

-- The next lower byte of a big-endian word, at a literal `k`.
pub next_byte :
    (k h a : ℕ)
    → 2 ^ (k + 8) ≡ 2 ^ k * 256
    → a < 256
    → bit_or (h * 2 ^ (k + 8)) (a * 2 ^ k) ≡ (h * 256 + a) * 2 ^ k
next_byte k h a e l =
    let small : a * 2 ^ k < 256 * 2 ^ k =
      mul-lt-mul_of_pos_right l (one-le-pow k 2 (omega arith)) in
    bit_or_above (k + 8) h (h * 2 ^ (k + 8)) (a * 2 ^ k) refl (omega arith)
    ∙ ap (λ q. h * q + a * 2 ^ k) e
    ∙ grind arith

pub get_or-bytes : (bs : List ℕ) (i : ℕ) → AreBytes bs → get_or bs i 0 < 256
get_or-bytes [] i h = omega arith
get_or-bytes (b ∷ bs) zero h = h.0
get_or-bytes (b ∷ bs) (suc i) h = get_or-bytes bs i h.1
