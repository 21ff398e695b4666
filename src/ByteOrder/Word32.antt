-- ===== src/ByteOrder/Word32.antt =====
-- Proofs about `cplat_hton32` and `cplat_ntoh32` of byteorder.c.
use Prim.Native.Nat.{bit_or}
use app_c_platform.Base.{
  ℕ, ◌+◌, ◌*◌, ◌/◌, ◌%◌, ◌^◌, ◌<◌, ◌≡◌, List, [], ◌∷◌, length, get_or, arith, refl, sym, ◌∙◌, ap,
}
use app_c_platform.Base.Bits.{bit_or_above}
use app_c_platform.ByteOrder.{AreBytes, IsMachine, hton32, ntoh32}
use app_c_platform.ByteOrder.Bytes.{next_byte, get_or-bytes}

-- The word of 4 big-endian bytes.
big_endian32 : List ℕ → ℕ
big_endian32 bytes =
    bit_or
      (bit_or (bit_or (get_or bytes 0 0 * 2 ^ 24) (get_or bytes 1 0 * 2 ^ 16))
        (get_or bytes 2 0 * 2 ^ 8))
      (get_or bytes 3 0)

big_endian32-horner :
    (a b c d : ℕ)
    → AreBytes (a ∷ b ∷ c ∷ d ∷ [])
    → big_endian32 (a ∷ b ∷ c ∷ d ∷ []) ≡ ((a * 256 + b) * 256 + c) * 256 + d
unfolding big_endian32
big_endian32-horner a b c d (ha, (hb, (hc, (hd, u)))) =
    ap (λ x. bit_or (bit_or (x) (c * 2 ^ 8)) d) (next_byte 16 (a) b refl hb)
    ∙ ap (λ x. bit_or (x) d) (next_byte 8 (a * 256 + b) c refl hc)
    ∙ bit_or_above 8 ((a * 256 + b) * 256 + c) (((a * 256 + b) * 256 + c) * 2 ^ 8) d refl
        (omega arith)

bytes32 :
    (bs : List ℕ)
    → length bs ≡ 4
    → get_or bs 0 0 ∷ get_or bs 1 0 ∷ get_or bs 2 0 ∷ get_or bs 3 0 ∷ [] ≡ bs
bytes32 ([]) len = absurd (omega (arith, len))
bytes32 (a ∷ []) len = absurd (omega (arith, len))
bytes32 (a ∷ b ∷ []) len = absurd (omega (arith, len))
bytes32 (a ∷ b ∷ c ∷ []) len = absurd (omega (arith, len))
bytes32 (a ∷ b ∷ c ∷ d ∷ []) len = refl
bytes32 (a ∷ b ∷ c ∷ d ∷ x ∷ xs) len = absurd (omega (arith, len))

-- The bytes of a word, from the most significant one on.
digits32 : ℕ → List ℕ
digits32 v = v / 2 ^ 24 % 256 ∷ v / 2 ^ 16 % 256 ∷ v / 2 ^ 8 % 256 ∷ v % 256 ∷ []

digits32-bytes : (v : ℕ) → AreBytes (digits32 v)
unfolding digits32
digits32-bytes v = (omega arith, (omega arith, (omega arith, (omega arith, tt))))

big_endian32-digits32 : (v : ℕ) → v < 2 ^ 32 → big_endian32 (digits32 v) ≡ v
unfolding digits32
big_endian32-digits32 v l =
    big_endian32-horner (v / 2 ^ 24 % 256) (v / 2 ^ 16 % 256) (v / 2 ^ 8 % 256) (v % 256)
      (digits32-bytes v)
    ∙ omega arith

digits32-horner :
    (a b c d : ℕ)
    → AreBytes (a ∷ b ∷ c ∷ d ∷ [])
    → digits32 (((a * 256 + b) * 256 + c) * 256 + d) ≡ a ∷ b ∷ c ∷ d ∷ []
unfolding digits32
digits32-horner a b c d (ha, (hb, (hc, (hd, u)))) =
    let e0 : (((a * 256 + b) * 256 + c) * 256 + d) / 2 ^ 24 % 256 ≡ a = omega arith in
    let e1 : (((a * 256 + b) * 256 + c) * 256 + d) / 2 ^ 16 % 256 ≡ b = omega arith in
    let e2 : (((a * 256 + b) * 256 + c) * 256 + d) / 2 ^ 8 % 256 ≡ c = omega arith in
    let e3 : (((a * 256 + b) * 256 + c) * 256 + d) % 256 ≡ d = omega arith in
    λ i. e0 i ∷ e1 i ∷ e2 i ∷ e3 i ∷ []

digits32-big_endian32 :
    (bs : List ℕ) → length bs ≡ 4 → AreBytes bs → digits32 (big_endian32 bs) ≡ bs
digits32-big_endian32 bs e h =
    let g : (i : ℕ) → get_or bs i 0 < 256 = λ i. get_or-bytes bs i h in
    let all : AreBytes (get_or bs 0 0 ∷ get_or bs 1 0 ∷ get_or bs 2 0 ∷ get_or bs 3 0 ∷ []) =
      (g 0, (g 1, (g 2, (g 3, tt)))) in
    ap (λ x. digits32 (big_endian32 x)) (sym (bytes32 bs e))
    ∙ ap digits32
        (big_endian32-horner (get_or bs 0 0) (get_or bs 1 0) (get_or bs 2 0) (get_or bs 3 0) all)
    ∙ digits32-horner (get_or bs 0 0) (get_or bs 1 0) (get_or bs 2 0) (get_or bs 3 0) all
    ∙ bytes32 bs e

module _ (load : List ℕ → ℕ) (store : ℕ → List ℕ) (m : IsMachine 4 load store) (v : ℕ)
    (l : v < 2 ^ 32) where
  pub ntoh32-hton32 : ntoh32 load store (hton32 load store v) ≡ v
  unfolding ntoh32 hton32 big_endian32 digits32
  ntoh32-hton32 =
      ap big_endian32 (m.stored (digits32 v) refl (digits32-bytes v)) ∙ big_endian32-digits32 v l

  pub hton32-ntoh32 : hton32 load store (ntoh32 load store v) ≡ v
  unfolding ntoh32 hton32 big_endian32 digits32
  hton32-ntoh32 =
      ap load (digits32-big_endian32 (store v) (m.stored_length v) (m.stored_bytes v))
      ∙ m.loaded v l
