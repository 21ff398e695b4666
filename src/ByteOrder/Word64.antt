-- ===== src/ByteOrder/Word64.antt =====
-- Proofs about `cplat_hton64` and `cplat_ntoh64` of byteorder.c.
use Prim.Native.Nat.{bit_or}
use app_c_platform.Base.{
  ℕ, ◌+◌, ◌*◌, ◌/◌, ◌%◌, ◌^◌, ◌<◌, ◌≡◌, List, [], ◌∷◌, length, get_or, arith, refl, sym, ◌∙◌, ap,
}
use app_c_platform.Base.Bits.{bit_or_above}
use app_c_platform.ByteOrder.{AreBytes, IsMachine, hton64, ntoh64}
use app_c_platform.ByteOrder.Bytes.{next_byte, get_or-bytes}

-- The word of 8 big-endian bytes.
big_endian64 : List ℕ → ℕ
big_endian64 bytes =
    bit_or
      (bit_or
        (bit_or
          (bit_or
            (bit_or
              (bit_or (bit_or (get_or bytes 0 0 * 2 ^ 56) (get_or bytes 1 0 * 2 ^ 48))
                (get_or bytes 2 0 * 2 ^ 40))
              (get_or bytes 3 0 * 2 ^ 32))
            (get_or bytes 4 0 * 2 ^ 24))
          (get_or bytes 5 0 * 2 ^ 16))
        (get_or bytes 6 0 * 2 ^ 8))
      (get_or bytes 7 0)

big_endian64-horner :
    (a b c d e f g h : ℕ)
    → AreBytes (a ∷ b ∷ c ∷ d ∷ e ∷ f ∷ g ∷ h ∷ [])
    → big_endian64 (a ∷ b ∷ c ∷ d ∷ e ∷ f ∷ g ∷ h ∷ [])
      ≡ ((((((a * 256 + b) * 256 + c) * 256 + d) * 256 + e) * 256 + f) * 256 + g) * 256 + h
unfolding big_endian64
big_endian64-horner a b c d e f g h (ha, (hb, (hc, (hd, (he, (hf, (hg, (hh, u)))))))) =
    ap
      (λ x.
        bit_or
          (bit_or
            (bit_or (bit_or (bit_or (bit_or (x) (c * 2 ^ 40)) (d * 2 ^ 32)) (e * 2 ^ 24))
              (f * 2 ^ 16))
            (g * 2 ^ 8))
          h)
      (next_byte 48 (a) b refl hb)
    ∙ ap
        (λ x.
          bit_or
            (bit_or (bit_or (bit_or (bit_or (x) (d * 2 ^ 32)) (e * 2 ^ 24)) (f * 2 ^ 16))
              (g * 2 ^ 8))
            h)
        (next_byte 40 (a * 256 + b) c refl hc)
    ∙ ap (λ x. bit_or (bit_or (bit_or (bit_or (x) (e * 2 ^ 24)) (f * 2 ^ 16)) (g * 2 ^ 8)) h)
        (next_byte 32 ((a * 256 + b) * 256 + c) d refl hd)
    ∙ ap (λ x. bit_or (bit_or (bit_or (x) (f * 2 ^ 16)) (g * 2 ^ 8)) h)
        (next_byte 24 (((a * 256 + b) * 256 + c) * 256 + d) e refl he)
    ∙ ap (λ x. bit_or (bit_or (x) (g * 2 ^ 8)) h)
        (next_byte 16 ((((a * 256 + b) * 256 + c) * 256 + d) * 256 + e) f refl hf)
    ∙ ap (λ x. bit_or (x) h)
        (next_byte 8 (((((a * 256 + b) * 256 + c) * 256 + d) * 256 + e) * 256 + f) g refl hg)
    ∙ bit_or_above 8 ((((((a * 256 + b) * 256 + c) * 256 + d) * 256 + e) * 256 + f) * 256 + g)
        (((((((a * 256 + b) * 256 + c) * 256 + d) * 256 + e) * 256 + f) * 256 + g) * 2 ^ 8) h refl
        (omega arith)

bytes64 :
    (bs : List ℕ)
    → length bs ≡ 8
    → get_or bs 0 0
        ∷ get_or bs 1 0
        ∷ get_or bs 2 0
        ∷ get_or bs 3 0
        ∷ get_or bs 4 0
        ∷ get_or bs 5 0
        ∷ get_or bs 6 0
        ∷ get_or bs 7 0
        ∷ []
      ≡ bs
bytes64 ([]) len = absurd (omega (arith, len))
bytes64 (a ∷ []) len = absurd (omega (arith, len))
bytes64 (a ∷ b ∷ []) len = absurd (omega (arith, len))
bytes64 (a ∷ b ∷ c ∷ []) len = absurd (omega (arith, len))
bytes64 (a ∷ b ∷ c ∷ d ∷ []) len = absurd (omega (arith, len))
bytes64 (a ∷ b ∷ c ∷ d ∷ e ∷ []) len = absurd (omega (arith, len))
bytes64 (a ∷ b ∷ c ∷ d ∷ e ∷ f ∷ []) len = absurd (omega (arith, len))
bytes64 (a ∷ b ∷ c ∷ d ∷ e ∷ f ∷ g ∷ []) len = absurd (omega (arith, len))
bytes64 (a ∷ b ∷ c ∷ d ∷ e ∷ f ∷ g ∷ h ∷ []) len = refl
bytes64 (a ∷ b ∷ c ∷ d ∷ e ∷ f ∷ g ∷ h ∷ x ∷ xs) len = absurd (omega (arith, len))

-- The bytes of a word, from the most significant one on.
digits64 : ℕ → List ℕ
digits64 v =
    v / 2 ^ 56 % 256
    ∷ v / 2 ^ 48 % 256
    ∷ v / 2 ^ 40 % 256
    ∷ v / 2 ^ 32 % 256
    ∷ v / 2 ^ 24 % 256
    ∷ v / 2 ^ 16 % 256
    ∷ v / 2 ^ 8 % 256
    ∷ v % 256
    ∷ []

digits64-bytes : (v : ℕ) → AreBytes (digits64 v)
unfolding digits64
digits64-bytes v = (
  omega arith,
  (
    omega arith,
    (omega arith, (omega arith, (omega arith, (omega arith, (omega arith, (omega arith, tt)))))),
  ),
)

big_endian64-digits64 : (v : ℕ) → v < 2 ^ 64 → big_endian64 (digits64 v) ≡ v
unfolding digits64
big_endian64-digits64 v l =
    big_endian64-horner (v / 2 ^ 56 % 256) (v / 2 ^ 48 % 256) (v / 2 ^ 40 % 256) (v / 2 ^ 32 % 256)
      (v / 2 ^ 24 % 256) (v / 2 ^ 16 % 256) (v / 2 ^ 8 % 256) (v % 256) (digits64-bytes v)
    ∙ omega arith

digits64-horner :
    (a b c d e f g h : ℕ)
    → AreBytes (a ∷ b ∷ c ∷ d ∷ e ∷ f ∷ g ∷ h ∷ [])
    → digits64 (((((((a * 256 + b) * 256 + c) * 256 + d) * 256 + e) * 256 + f) * 256 + g) * 256 + h)
      ≡ a ∷ b ∷ c ∷ d ∷ e ∷ f ∷ g ∷ h ∷ []
unfolding digits64
digits64-horner a b c d e f g h (ha, (hb, (hc, (hd, (he, (hf, (hg, (hh, u)))))))) =
    let e0 : (((((((a * 256 + b) * 256 + c) * 256 + d) * 256 + e) * 256 + f) * 256 + g) * 256 + h)
          / 2 ^ 56
          % 256
        ≡ a =
      omega arith in
    let e1 : (((((((a * 256 + b) * 256 + c) * 256 + d) * 256 + e) * 256 + f) * 256 + g) * 256 + h)
          / 2 ^ 48
          % 256
        ≡ b =
      omega arith in
    let e2 : (((((((a * 256 + b) * 256 + c) * 256 + d) * 256 + e) * 256 + f) * 256 + g) * 256 + h)
          / 2 ^ 40
          % 256
        ≡ c =
      omega arith in
    let e3 : (((((((a * 256 + b) * 256 + c) * 256 + d) * 256 + e) * 256 + f) * 256 + g) * 256 + h)
          / 2 ^ 32
          % 256
        ≡ d =
      omega arith in
    let e4 : (((((((a * 256 + b) * 256 + c) * 256 + d) * 256 + e) * 256 + f) * 256 + g) * 256 + h)
          / 2 ^ 24
          % 256
        ≡ e =
      omega arith in
    let e5 : (((((((a * 256 + b) * 256 + c) * 256 + d) * 256 + e) * 256 + f) * 256 + g) * 256 + h)
          / 2 ^ 16
          % 256
        ≡ f =
      omega arith in
    let e6 : (((((((a * 256 + b) * 256 + c) * 256 + d) * 256 + e) * 256 + f) * 256 + g) * 256 + h)
          / 2 ^ 8
          % 256
        ≡ g =
      omega arith in
    let e7 : (((((((a * 256 + b) * 256 + c) * 256 + d) * 256 + e) * 256 + f) * 256 + g) * 256 + h)
          % 256
        ≡ h =
      omega arith in
    λ i. e0 i ∷ e1 i ∷ e2 i ∷ e3 i ∷ e4 i ∷ e5 i ∷ e6 i ∷ e7 i ∷ []

digits64-big_endian64 :
    (bs : List ℕ) → length bs ≡ 8 → AreBytes bs → digits64 (big_endian64 bs) ≡ bs
digits64-big_endian64 bs e h =
    let g : (i : ℕ) → get_or bs i 0 < 256 = λ i. get_or-bytes bs i h in
    let all : AreBytes (
        get_or bs 0 0
        ∷ get_or bs 1 0
        ∷ get_or bs 2 0
        ∷ get_or bs 3 0
        ∷ get_or bs 4 0
        ∷ get_or bs 5 0
        ∷ get_or bs 6 0
        ∷ get_or bs 7 0
        ∷ []) =
      (g 0, (g 1, (g 2, (g 3, (g 4, (g 5, (g 6, (g 7, tt)))))))) in
    ap (λ x. digits64 (big_endian64 x)) (sym (bytes64 bs e))
    ∙ ap digits64 (
        big_endian64-horner (get_or bs 0 0) (get_or bs 1 0) (get_or bs 2 0) (get_or bs 3 0)
          (get_or bs 4 0) (get_or bs 5 0) (get_or bs 6 0) (get_or bs 7 0) all)
    ∙ digits64-horner (get_or bs 0 0) (get_or bs 1 0) (get_or bs 2 0) (get_or bs 3 0)
        (get_or bs 4 0) (get_or bs 5 0) (get_or bs 6 0) (get_or bs 7 0) all
    ∙ bytes64 bs e

module _ (load : List ℕ → ℕ) (store : ℕ → List ℕ) (m : IsMachine 8 load store) (v : ℕ)
    (l : v < 2 ^ 64) where
  pub ntoh64-hton64 : ntoh64 load store (hton64 load store v) ≡ v
  unfolding ntoh64 hton64 big_endian64 digits64
  ntoh64-hton64 =
      ap big_endian64 (m.stored (digits64 v) refl (digits64-bytes v)) ∙ big_endian64-digits64 v l

  pub hton64-ntoh64 : hton64 load store (ntoh64 load store v) ≡ v
  unfolding ntoh64 hton64 big_endian64 digits64
  hton64-ntoh64 =
      ap load (digits64-big_endian64 (store v) (m.stored_length v) (m.stored_bytes v))
      ∙ m.loaded v l
