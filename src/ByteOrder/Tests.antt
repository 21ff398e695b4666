-- ===== src/ByteOrder/Tests.antt =====
-- Runs of byteorder.c on the little-endian machine.
use app_c_platform.Base.{ℕ, ◌^◌, ◌<◌, ◌≡◌, refl}
use app_c_platform.ByteOrder.{hton16, ntoh16, hton32, ntoh32, hton64, ntoh64}
use app_c_platform.ByteOrder.LittleEndian.{little_load, little_store, little_load-IsMachine}
use app_c_platform.ByteOrder.Laws.{ntoh-hton}

swaps16 : hton16 little_load (little_store 2) 0x1234 ≡ 0x3412
unfolding hton16 little_load
swaps16 = refl

swaps32 : hton32 little_load (little_store 4) 0x12345678 ≡ 0x78563412
unfolding hton32 little_load
swaps32 = refl

swaps64 : ntoh64 little_load (little_store 8) 0x0123456789ABCDEF ≡ 0xEFCDAB8967452301
unfolding ntoh64 little_store
swaps64 = refl

ntoh-hton_example :
    ((v : ℕ)
      → v < 2 ^ 16
      → (ntoh16 little_load (little_store 2) (hton16 little_load (little_store 2) v) ≡ v)
        × (hton16 little_load (little_store 2) (ntoh16 little_load (little_store 2) v) ≡ v))
    × ((v : ℕ)
        → v < 2 ^ 32
        → (ntoh32 little_load (little_store 4) (hton32 little_load (little_store 4) v) ≡ v)
          × (hton32 little_load (little_store 4) (ntoh32 little_load (little_store 4) v) ≡ v))
    × ((v : ℕ)
        → v < 2 ^ 64
        → (ntoh64 little_load (little_store 8) (hton64 little_load (little_store 8) v) ≡ v)
          × (hton64 little_load (little_store 8) (ntoh64 little_load (little_store 8) v) ≡ v))
ntoh-hton_example =
    ntoh-hton little_load little_load little_load (little_store 2) (little_store 4) (little_store 8)
      (little_load-IsMachine 2 refl) (little_load-IsMachine 4 refl) (little_load-IsMachine 8 refl)
