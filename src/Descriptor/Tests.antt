-- ===== src/Descriptor/Tests.antt =====
-- Runs of sync_descriptor.c on concrete descriptors.
use app_c_platform.Base.{
  ℕ, ◌+◌, ◌<◌, ◌≡◌, ◌≢◌, ◌⊎◌, true, false, List, [], ◌∷◌, none, some, length, take, arith, refl,
}
use app_c_platform.Result.{ok_code, buffer_too_small, invalid_argument, corrupt_descriptor}
use app_c_platform.Descriptor.{
  descriptor_export, rejected, identified, descriptor_import, header_size,
}
use app_c_platform.Descriptor.Laws.{descriptor_import-descriptor_export}

-- "/m"
abbrev name : List ℕ
name = 47 ∷ 109 ∷ []

asks_size :
    descriptor_export (some name) 1 2 false (some 0)
    ≡ record { result = buffer_too_small; descriptor_size = some 22; descriptor = [] }
unfolding descriptor_export
asks_size = refl

no_name :
    descriptor_export none 1 2 true (some 100)
    ≡ record { result = invalid_argument; descriptor_size = none; descriptor = [] }
unfolding descriptor_export
no_name = refl

-- A descriptor whose length bytes are 0 is refused.
empty_name :
    descriptor_import true
      (some
        (67 ∷ 85 ∷ 76 ∷ 75 ∷ 1 ∷ 1 ∷ 2 ∷ 0 ∷ 0 ∷ 0 ∷ 0 ∷ 0 ∷ 0 ∷ 0 ∷ 0 ∷ 0 ∷ 0 ∷ 0 ∷ 0 ∷ 0 ∷ []))
      1
      2
      true
    ≡ rejected corrupt_descriptor
unfolding descriptor_import
empty_name = refl

descriptor_example :
    (d : List ℕ) × (descriptor_export (some name) 1 2 true (some 64) ≡ record {
      result = ok_code;
      descriptor_size = some (header_size + length name);
      descriptor = d;
    })
    × (length d ≡ header_size + length name)
    × (descriptor_import true (some d) 1 2 true ≡ identified name)
    × ((kind' backend' : ℕ)
        → (kind' ≢ 1) ⊎ (backend' ≢ 2)
        → descriptor_import true (some d) kind' backend' true ≡ rejected corrupt_descriptor)
    × ((n : ℕ)
        → n < length d
        → descriptor_import true (some (take n d)) 1 2 true ≡ rejected corrupt_descriptor)
descriptor_example =
    descriptor_import-descriptor_export name 1 2 (omega arith) (omega arith) 64 (omega arith)
