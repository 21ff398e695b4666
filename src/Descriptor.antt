-- ===== src/Descriptor.antt =====
-- prod/libsrc/cplat/sync/sync_descriptor.c. An identity is the list of its bytes before the
-- terminator, and a NULL pointer is `none`.
mod Laws
mod Tests
use Prim.Native.Nat.{bit_or}
use app_c_platform.Base.{
  ℕ, ◌+◌, ◌*◌, ◌/◌, ◌%◌, ◌^◌, Bool, true, false, ◌&&◌, ◌||◌, not, List, [], ◌∷◌, ◌++◌, Option, none,
  some, ltb, ◌==◌, if◌then◌else◌, length, take, drop, get_or, replicate, add64,
}
use app_c_platform.Result.{
  ResultCode, ok_code, unknown, invalid_argument, buffer_too_small, corrupt_descriptor,
}

-- `DESCRIPTOR_MAGIC`, `CPLAT_INTERPROCESS_SYNC_DESCRIPTOR_VERSION` and
-- `CPLAT_INTERPROCESS_SYNC_DESCRIPTOR_HEADER_SIZE`.
abbrev pub descriptor_magic : List ℕ
descriptor_magic = 67 ∷ 85 ∷ 76 ∷ 75 ∷ []

abbrev pub descriptor_version : ℕ
descriptor_version = 1

abbrev pub header_size : ℕ
header_size = 20

-- What an export leaves: the result, `*descriptor_size` where it is written, and the bytes written at
-- `descriptor`.
pub record Exported : Type 0 where
  pub result : ResultCode
  pub descriptor_size : Option ℕ
  pub descriptor : List ℕ

-- The bytes that `out` has after the assignments and the two copies.
unfoldable pub descriptor_bytes : List ℕ → ℕ → ℕ → List ℕ
descriptor_bytes identity kind backend =
    let identity_len = length identity in
    descriptor_magic
    ++ (descriptor_version
        ∷ kind
        ∷ backend
        ∷ 0
        ∷ identity_len % 256
        ∷ identity_len / 2 ^ 8 % 256
        ∷ identity_len / 2 ^ 16 % 256
        ∷ identity_len / 2 ^ 24 % 256
        ∷ replicate 8 0)
    ++ identity

-- `cplat_internal_interprocess_sync_descriptor_export`. `room` is `*descriptor_size`, if the pointer
-- is not NULL, and `has_buffer` tells whether `descriptor` is not NULL.
unfoldable pub descriptor_export : Option (List ℕ) → ℕ → ℕ → Bool → Option ℕ → Exported
unfolding descriptor_bytes add64
descriptor_export none kind backend has_buffer room = record {
  result = invalid_argument;
  descriptor_size = none;
  descriptor = [];
}
descriptor_export (some identity) kind backend has_buffer none = record {
  result = invalid_argument;
  descriptor_size = none;
  descriptor = [];
}
descriptor_export (some identity) kind backend has_buffer (some room) =
    let required = add64 header_size (length identity) in
    if not has_buffer || ltb room required
    then record { result = buffer_too_small; descriptor_size = some required; descriptor = [] }
    else record {
      result = ok_code;
      descriptor_size = some required;
      descriptor = descriptor_bytes identity kind backend;
    }

-- The two results of an import: a code, and the identity that `*identity_out` then points to.
pub data Imported : Type 0 where
  rejected : ResultCode → Imported
  identified : List ℕ → Imported

-- `memcmp(…) == 0` on the first `n` bytes.
unfoldable pub same_bytes : List ℕ → List ℕ → Bool
same_bytes [] bs = true
same_bytes (x ∷ xs) [] = false
same_bytes (x ∷ xs) (b ∷ bs) = (x == b) && same_bytes xs bs

unfoldable pub identity_length : List ℕ → ℕ
identity_length bytes =
    bit_or
      (bit_or (bit_or (get_or bytes 8 0) (get_or bytes 9 0 * 2 ^ 8)) (get_or bytes 10 0 * 2 ^ 16))
      (get_or bytes 11 0 * 2 ^ 24)

-- `cplat_internal_interprocess_sync_descriptor_import`; `has_memory` tells whether `cplat_malloc`
-- gives the memory, `bytes` are the `descriptor_size` bytes at `descriptor`, and `has_out` tells
-- whether `identity_out` is not NULL.
unfoldable pub descriptor_import : Bool → Option (List ℕ) → ℕ → ℕ → Bool → Imported
unfolding same_bytes identity_length
descriptor_import has_memory none kind backend has_out = rejected invalid_argument
descriptor_import has_memory (some bytes) kind backend has_out =
    let identity_len = identity_length bytes in
    if not has_out
    then rejected invalid_argument
    else if ltb (length bytes) header_size
        || (not (same_bytes descriptor_magic bytes)
            || (not (get_or bytes 4 0 == descriptor_version)
                || (not (get_or bytes 5 0 == kind) || not (get_or bytes 6 0 == backend))))
    then rejected corrupt_descriptor
    else if (identity_len == 0) || not (length bytes == header_size + identity_len)
    then rejected corrupt_descriptor
    else if not has_memory
    then rejected unknown
    else identified (take identity_len (drop header_size bytes))
