-- ===== src/ByteOrder.antt =====
-- prod/libsrc/cplat/net/byteorder.c. How the machine stores a word of `n` bytes is not part of the
-- program: `memcpy` from a word to bytes and back are the arguments `store` and `load`.
mod Bytes
mod Word16
mod Word32
mod Word64
mod Laws
mod LittleEndian
mod Tests
use Prim.Native.Nat.{bit_or}
use app_c_platform.Base.{
  ℕ, zero, suc, ◌+◌, ◌*◌, ◌/◌, ◌%◌, ◌^◌, ◌<◌, ◌≡◌, List, [], ◌∷◌, length, get_or,
}

-- All are bytes.
abbrev pub AreBytes : List ℕ → Type 0
AreBytes [] = Unit
AreBytes (b ∷ bs) = (b < 256) × AreBytes bs

-- The representation of the unsigned words of `n` bytes: a word below `2 ^ (8 * n)` has one, and each
-- list of `n` bytes is that of one word.
pub record IsMachine (n : ℕ) (load : List ℕ → ℕ) (store : ℕ → List ℕ) : Type 0 where
  pub loaded : (v : ℕ) → v < 2 ^ (8 * n) → load (store v) ≡ v
  pub stored : (bs : List ℕ) → length bs ≡ n → AreBytes bs → store (load bs) ≡ bs
  pub stored_length : (v : ℕ) → length (store v) ≡ n
  pub stored_bytes : (v : ℕ) → AreBytes (store v)

module _ (load : List ℕ → ℕ) (store : ℕ → List ℕ) where
  -- `cplat_hton16`.
  unfoldable pub hton16 : ℕ → ℕ
  hton16 value = load (value / 2 ^ 8 % 256 ∷ value % 256 ∷ [])

  -- `cplat_ntoh16`; the cast to 16 bits is written out.
  unfoldable pub ntoh16 : ℕ → ℕ
  ntoh16 value =
      let bytes = store value in bit_or (get_or bytes 0 0 * 2 ^ 8) (get_or bytes 1 0) % 2 ^ 16

  -- `cplat_hton32`.
  unfoldable pub hton32 : ℕ → ℕ
  hton32 value =
      load (value / 2 ^ 24 % 256 ∷ value / 2 ^ 16 % 256 ∷ value / 2 ^ 8 % 256 ∷ value % 256 ∷ [])

  -- `cplat_ntoh32`.
  unfoldable pub ntoh32 : ℕ → ℕ
  ntoh32 value =
      let bytes = store value in
      bit_or
        (bit_or (bit_or (get_or bytes 0 0 * 2 ^ 24) (get_or bytes 1 0 * 2 ^ 16))
          (get_or bytes 2 0 * 2 ^ 8))
        (get_or bytes 3 0)

  -- `cplat_hton64`.
  unfoldable pub hton64 : ℕ → ℕ
  hton64 value = load (
      value / 2 ^ 56 % 256
      ∷ value / 2 ^ 48 % 256
      ∷ value / 2 ^ 40 % 256
      ∷ value / 2 ^ 32 % 256
      ∷ value / 2 ^ 24 % 256
      ∷ value / 2 ^ 16 % 256
      ∷ value / 2 ^ 8 % 256
      ∷ value % 256
      ∷ [])

  -- `cplat_ntoh64`.
  unfoldable pub ntoh64 : ℕ → ℕ
  ntoh64 value =
      let bytes = store value in
      bit_or
        (bit_or
          (bit_or
            (bit_or
              (bit_or
                (bit_or (bit_or (get_or bytes 0 0 * 2 ^ 56) (get_or bytes 1 0 * 2 ^ 48))
                  (get_or bytes 2 0 * 2 ^ 40))
                (get_or bytes 3 0 * 2 ^ 32))
              (get_or bytes 4 0 * 2 ^ 24))
            (get_or bytes 5 0 * 2 ^ 16))
          (get_or bytes 6 0 * 2 ^ 8))
        (get_or bytes 7 0)
