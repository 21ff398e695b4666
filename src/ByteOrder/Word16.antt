-- ===== src/ByteOrder/Word16.antt =====
-- Proofs about `cplat_hton16` and `cplat_ntoh16` of byteorder.c.
use Prim.Native.Nat.{bit_or}
use app_c_platform.Base.{
  ℕ, ◌+◌, ◌*◌, ◌/◌, ◌%◌, ◌^◌, ◌<◌, ◌≡◌, List, [], ◌∷◌, length, get_or, arith, refl, sym, ◌∙◌, ap,
}
use app_c_platform.Base.Bits.{bit_or_above}
use app_c_platform.ByteOrder.{AreBytes, IsMachine, hton16, ntoh16}
use app_c_platform.ByteOrder.Bytes.{get_or-bytes}

-- The word of 2 big-endian bytes.
big_endian16 : List ℕ → ℕ
big_endian16 bytes = bit_or (get_or bytes 0 0 * 2 ^ 8) (get_or bytes 1 0) % 2 ^ 16

big_endian16-horner : (a b : ℕ) → AreBytes (a ∷ b ∷ []) → big_endian16 (a ∷ b ∷ []) ≡ a * 256 + b
unfolding big_endian16
big_endian16-horner a b (ha, (hb, u)) =
    ap (λ x. x % 2 ^ 16) (bit_or_above 8 (a) ((a) * 2 ^ 8) b refl (omega arith)) ∙ omega arith

bytes16 : (bs : List ℕ) → length bs ≡ 2 → get_or bs 0 0 ∷ get_or bs 1 0 ∷ [] ≡ bs
bytes16 ([]) len = absurd (omega (arith, len))
bytes16 (a ∷ []) len = absurd (omega (arith, len))
bytes16 (a ∷ b ∷ []) len = refl
bytes16 (a ∷ b ∷ x ∷ xs) len = absurd (omega (arith, len))

-- The bytes of a word, from the most significant one on.
digits16 : ℕ → List ℕ
digits16 v = v / 2 ^ 8 % 256 ∷ v % 256 ∷ []

digits16-bytes : (v : ℕ) → AreBytes (digits16 v)
unfolding digits16
digits16-bytes v = (omega arith, (omega arith, tt))

big_endian16-digits16 : (v : ℕ) → v < 2 ^ 16 → big_endian16 (digits16 v) ≡ v
unfolding digits16
big_endian16-digits16 v l =
    big_endian16-horner (v / 2 ^ 8 % 256) (v % 256) (digits16-bytes v) ∙ omega arith

digits16-horner : (a b : ℕ) → AreBytes (a ∷ b ∷ []) → digits16 (a * 256 + b) ≡ a ∷ b ∷ []
unfolding digits16
digits16-horner a b (ha, (hb, u)) =
    let e0 : (a * 256 + b) / 2 ^ 8 % 256 ≡ a = omega arith in
    let e1 : (a * 256 + b) % 256 ≡ b = omega arith in λ i. e0 i ∷ e1 i ∷ []

digits16-big_endian16 :
    (bs : List ℕ) → length bs ≡ 2 → AreBytes bs → digits16 (big_endian16 bs) ≡ bs
digits16-big_endian16 bs e h =
    let g : (i : ℕ) → get_or bs i 0 < 256 = λ i. get_or-bytes bs i h in
    let all : AreBytes (get_or bs 0 0 ∷ get_or bs 1 0 ∷ []) = (g 0, (g 1, tt)) in
    ap (λ x. digits16 (big_endian16 x)) (sym (bytes16 bs e))
    ∙ ap digits16 (big_endian16-horner (get_or bs 0 0) (get_or bs 1 0) all)
    ∙ digits16-horner (get_or bs 0 0) (get_or bs 1 0) all
    ∙ bytes16 bs e

module _ (load : List ℕ → ℕ) (store : ℕ → List ℕ) (m : IsMachine 2 load store) (v : ℕ)
    (l : v < 2 ^ 16) where
  pub ntoh16-hton16 : ntoh16 load store (hton16 load store v) ≡ v
  unfolding ntoh16 hton16 big_endian16 digits16
  ntoh16-hton16 =
      ap big_endian16 (m.stored (digits16 v) refl (digits16-bytes v)) ∙ big_endian16-digits16 v l

  pub hton16-ntoh16 : hton16 load store (ntoh16 load store v) ≡ v
  unfolding ntoh16 hton16 big_endian16 digits16
  hton16-ntoh16 =
      ap load (digits16-big_endian16 (store v) (m.stored_length v) (m.stored_bytes v))
      ∙ m.loaded v l
