-- ===== src/PromptEdit/Tests.antt =====
-- Runs of prompt_edit.c on concrete buffers.
use app_c_platform.Base.{ℕ, ◌<◌, ◌≤◌, ◌≡◌, ◌⊎◌, true, false, List, [], ◌∷◌, some, arith, refl}
use app_c_platform.Result.{invalid_argument, buffer_too_small}
use app_c_platform.PromptEdit.{
  utf8_prev_boundary, utf8_next_boundary, utf8_sanitize_boundary, ensured, short, ensure_capacity,
  resolve_options, invalid_text, validate_initial_text,
}
use app_c_platform.PromptEdit.Laws.{ensure_capacity_lem}

-- "aあb"
abbrev mixed : List ℕ
mixed = 97 ∷ 0xE3 ∷ 0x81 ∷ 0x82 ∷ 98 ∷ []

goes_left : utf8_prev_boundary mixed 4 ≡ 1
unfolding utf8_prev_boundary
goes_left = refl

goes_right : utf8_next_boundary mixed 5 1 ≡ 4
unfolding utf8_next_boundary
goes_right = refl

sanitized : utf8_sanitize_boundary mixed 5 3 ≡ 1
unfolding utf8_sanitize_boundary
sanitized = refl

doubles : ensure_capacity true 256 4096 1000 ≡ ensured 1024
unfolding ensure_capacity
doubles = refl

stops_at_limit : ensure_capacity true 256 1000 900 ≡ ensured 1000
unfolding ensure_capacity
stops_at_limit = refl

above_limit : ensure_capacity true 256 1000 1001 ≡ short
unfolding ensure_capacity
above_limit = refl

defaults :
    resolve_options 0 0 0 256
    ≡ record { history_max = 64; initial_capacity = 256; max_bytes = 4096 }
unfolding resolve_options
defaults = refl

rejects_tab : validate_initial_text (some (97 ∷ 9 ∷ [])) 100 ≡ invalid_text invalid_argument
unfolding validate_initial_text
rejects_tab = refl

rejects_long : validate_initial_text (some (97 ∷ 98 ∷ [])) 2 ≡ invalid_text buffer_too_small
unfolding validate_initial_text
rejects_long = refl

capacity_example :
    ((c : ℕ) × (ensure_capacity true 256 4096 1000 ≡ ensured c)
      × (1000 ≤ c)
      × (256 ≤ c)
      × (c ≤ 4096))
    ⊎ ((ensure_capacity true 256 4096 1000 ≡ short)
        × (256 < 1000)
        × ((4096 < 1000) ⊎ (true ≡ false)))
capacity_example = ensure_capacity_lem true 256 4096 1000 (omega arith)
