-- ===== src/ByteOrder/Laws.antt =====
-- The three widths of byteorder.c together.
use app_c_platform.Base.{ℕ, ◌^◌, ◌<◌, ◌≡◌, List}
use app_c_platform.ByteOrder.{IsMachine, hton16, ntoh16, hton32, ntoh32, hton64, ntoh64}
use app_c_platform.ByteOrder.Word16.{ntoh16-hton16, hton16-ntoh16}
use app_c_platform.ByteOrder.Word32.{ntoh32-hton32, hton32-ntoh32}
use app_c_platform.ByteOrder.Word64.{ntoh64-hton64, hton64-ntoh64}

-- On a machine that stores the words of 2, 4 and 8 bytes in some order of their bytes, for each of
-- the three widths the conversion to network order and the one from it are inverse to each other, in
-- both orders of calls, on every word of the width.
pub ntoh-hton :
    (load16 load32 load64 : List ℕ → ℕ) (store16 store32 store64 : ℕ → List ℕ)
    → IsMachine 2 load16 store16
    → IsMachine 4 load32 store32
    → IsMachine 8 load64 store64
    → ((v : ℕ)
        → v < 2 ^ 16
        → (ntoh16 load16 store16 (hton16 load16 store16 v) ≡ v)
          × (hton16 load16 store16 (ntoh16 load16 store16 v) ≡ v))
      × ((v : ℕ)
          → v < 2 ^ 32
          → (ntoh32 load32 store32 (hton32 load32 store32 v) ≡ v)
            × (hton32 load32 store32 (ntoh32 load32 store32 v) ≡ v))
      × ((v : ℕ)
          → v < 2 ^ 64
          → (ntoh64 load64 store64 (hton64 load64 store64 v) ≡ v)
            × (hton64 load64 store64 (ntoh64 load64 store64 v) ≡ v))
ntoh-hton l16 l32 l64 s16 s32 s64 a b c = (
  (λ v h. (ntoh16-hton16 l16 s16 a v h, hton16-ntoh16 l16 s16 a v h)),
  (λ v h. (ntoh32-hton32 l32 s32 b v h, hton32-ntoh32 l32 s32 b v h)),
  (λ v h. (ntoh64-hton64 l64 s64 c v h, hton64-ntoh64 l64 s64 c v h)),
)
