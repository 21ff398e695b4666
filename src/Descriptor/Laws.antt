-- ===== src/Descriptor/Laws.antt =====
-- Proofs about sync_descriptor.c: what an export writes, an import reads.
use Prim.Native.Nat.{bit_or}
use app_c_platform.Base.{
  ℕ, zero, suc, ◌+◌, ◌*◌, ◌/◌, ◌%◌, ◌^◌, ◌≤◌, ◌<◌, ◌≡◌, ◌≢◌, ◌⊎◌, inl, inr, Bool, true, ◌||◌, not,
  List, [], ◌∷◌, some, ltb, ◌==◌, if◌then◌else◌, length, take, drop, get_or, add64, arith, refl,
  ◌∙◌, ap, add64-eq, le→ltb, length-take, take_all,
}
use app_c_platform.Base.Bits.{bit_or_below}
use app_c_platform.Result.{ok_code, corrupt_descriptor}
use app_c_platform.Descriptor.{
  descriptor_magic, descriptor_version, header_size, descriptor_bytes, descriptor_export, Imported,
  rejected, identified, same_bytes, identity_length, descriptor_import,
}

-- A length of 32 bits from its bytes, the lowest first.
little_endian :
    (n : ℕ)
    → n < 2 ^ 32
    → bit_or
        (bit_or (bit_or (n % 256) (n / 2 ^ 8 % 256 * 2 ^ 8)) (n / 2 ^ 16 % 256 * 2 ^ 16))
        (n / 2 ^ 24 % 256 * 2 ^ 24)
      ≡ n
little_endian n l =
    let a : ℕ = n % 256 in
    let b : ℕ = n / 2 ^ 8 % 256 in
    let c : ℕ = n / 2 ^ 16 % 256 in
    let d : ℕ = n / 2 ^ 24 % 256 in
    ap (λ x. bit_or (bit_or x (c * 2 ^ 16)) (d * 2 ^ 24))
      (bit_or_below 8 b a (b * 2 ^ 8) refl (omega arith))
    ∙ ap (λ x. bit_or x (d * 2 ^ 24))
        (bit_or_below 16 c (a + b * 2 ^ 8) (c * 2 ^ 16) refl (omega arith))
    ∙ bit_or_below 24 d (a + b * 2 ^ 8 + c * 2 ^ 16) (d * 2 ^ 24) refl (omega arith)
    ∙ omega arith

-- The checks of an import, as tests on the numbers they read.
module _ (size version_byte kind_byte backend_byte kind backend identity_len : ℕ)
    (magic_test : Bool) where
  abbrev checks : Imported → Imported
  checks result =
      if ltb size header_size
        || (not magic_test
            || (not (version_byte == descriptor_version)
                || (not (kind_byte == kind) || not (backend_byte == backend))))
      then rejected corrupt_descriptor
      else if (identity_len == 0) || not (size == header_size + identity_len)
      then rejected corrupt_descriptor
      else result

  checks_lem :
      (result : Imported)
      → ((header_size ≤ size)
          × (magic_test ≡ true)
          × (version_byte ≡ descriptor_version)
          × (kind_byte ≡ kind)
          × (backend_byte ≡ backend)
          × (0 < identity_len)
          × (size ≡ header_size + identity_len)
          × (checks result ≡ result))
        ⊎ (checks result ≡ rejected corrupt_descriptor)
  checks_lem result = ground arith

  checks_pass :
      (result : Imported)
      → header_size ≤ size
      → magic_test ≡ true
      → version_byte ≡ descriptor_version
      → kind_byte ≡ kind
      → backend_byte ≡ backend
      → 0 < identity_len
      → size ≡ header_size + identity_len
      → checks result ≡ result
  checks_pass result a b c d e f g = ground arith

length-take_le : (n : ℕ) (xs : List ℕ) → n ≤ length xs → length (take n xs) ≡ n
length-take_le n xs l = omega (arith, length-take n xs)

get_or-take : (n : ℕ) (xs : List ℕ) (i : ℕ) → i < n → get_or (take n xs) i 0 ≡ get_or xs i 0
get_or-take zero xs i l = absurd (omega arith)
get_or-take (suc n) [] i l = refl
get_or-take (suc n) (x ∷ xs) zero l = refl
get_or-take (suc n) (x ∷ xs) (suc i) l = get_or-take n xs i (omega arith)

module _ (identity : List ℕ) (kind backend : ℕ) (named : 0 < length identity)
    (short : length identity < 2 ^ 32) where
  abbrev bytes : List ℕ
  bytes = descriptor_bytes identity kind backend

  read_length : identity_length bytes ≡ length identity
  unfolding identity_length descriptor_bytes
  read_length = little_endian (length identity) short

  size : length bytes ≡ header_size + length identity
  unfolding descriptor_bytes
  size = omega arith

  imported : descriptor_import true (some bytes) kind backend true ≡ identified identity
  unfolding descriptor_import descriptor_bytes same_bytes identity_length
  imported =
      checks_pass (length bytes) descriptor_version kind backend kind backend
        (identity_length bytes) true (identified (take (identity_length bytes) identity))
        (omega (arith, size)) refl refl refl refl (omega (arith, read_length))
        (omega (arith, size, read_length))
      ∙ ap (λ n. identified (take n identity)) read_length
      ∙ ap identified (take_all identity)

  -- A descriptor of another kind or backend is refused.
  mismatch :
      (kind' backend' : ℕ)
      → (kind' ≢ kind) ⊎ (backend' ≢ backend)
      → descriptor_import true (some bytes) kind' backend' true ≡ rejected corrupt_descriptor
  unfolding descriptor_import descriptor_bytes same_bytes identity_length
  mismatch kind' backend' n =
      elim (checks_lem (length bytes) descriptor_version kind backend kind' backend'
        (identity_length bytes) true (identified (take (identity_length bytes) identity))) [
          | inl (a, b, c, d, e, f, g, h) ↦ absurd (ground arith)
          | inr e ↦ e
        ]

  same_length : (n : ℕ) → 12 ≤ n → identity_length (take n bytes) ≡ identity_length bytes
  unfolding identity_length
  same_length n l =
      rw
        (
          get_or-take n bytes 8 (omega arith),
          get_or-take n bytes 9 (omega arith),
          get_or-take n bytes 10 (omega arith),
          get_or-take n bytes 11 (omega arith),
        )
        refl

  -- A part of a descriptor that lacks bytes at its end is refused.
  truncated :
      (n : ℕ)
      → n < length bytes
      → descriptor_import true (some (take n bytes)) kind backend true ≡ rejected corrupt_descriptor
  unfolding descriptor_import
  truncated n l =
      let bs : List ℕ = take n bytes in
      let long = length-take_le n bytes (omega arith) in
      elim (checks_lem (length bs) (get_or bs 4 0) (get_or bs 5 0) (get_or bs 6 0) kind backend
        (identity_length bs) (same_bytes descriptor_magic bs)
        (identified (take (identity_length bs) (drop header_size bs)))) [
          | inl (a, b, c, d, e, f, g, h) ↦
              absurd (omega (arith, size, long, same_length n (omega arith), read_length))
          | inr e ↦ e
        ]

  -- An identity of at least one byte and at most 2^32-1, in a buffer with room for it and the header,
  -- where the memory for both calls is given: the export succeeds and tells the size; the import of the bytes that it wrote, with the same kind
  -- and backend, gives the identity back; with another kind or backend, or with bytes missing at the
  -- end, it fails and calls the descriptor corrupt.
  pub descriptor_import-descriptor_export :
      (room : ℕ)
      → header_size + length identity ≤ room
      → (d : List ℕ) × (descriptor_export (some identity) kind backend true (some room) ≡ record {
        result = ok_code;
        descriptor_size = some (header_size + length identity);
        descriptor = d;
      })
        × (length d ≡ header_size + length identity)
        × (descriptor_import true (some d) kind backend true ≡ identified identity)
        × ((kind' backend' : ℕ)
            → (kind' ≢ kind) ⊎ (backend' ≢ backend)
            → descriptor_import true (some d) kind' backend' true ≡ rejected corrupt_descriptor)
        × ((n : ℕ)
            → n < length d
            → descriptor_import true (some (take n d)) kind backend true
              ≡ rejected corrupt_descriptor)
  unfolding descriptor_export
  descriptor_import-descriptor_export room fits =
      let required : add64 header_size (length identity) ≡ header_size + length identity =
        add64-eq header_size (length identity) (omega arith) in
      (
        bytes,
        rw required (rw (le→ltb room (header_size + length identity) fits) refl),
        size,
        imported,
        mismatch,
        truncated,
      )
