-- ===== src/LanguageTag/Tests.antt =====
-- Runs of ui_language_tag.c on concrete values.
use app_c_platform.Base.{ℕ, ◌≤◌, ◌≡◌, ◌⊎◌, List, [], ◌∷◌, some, length, arith, refl}
use app_c_platform.Result.{ok_code, buffer_too_small}
use app_c_platform.LanguageTag.{refused, ui_language_normalize}
use app_c_platform.LanguageTag.Canonical.{IsTag}
use app_c_platform.LanguageTag.Laws.{ui_language_normalize_lem}

-- "ja_jp.UTF-8" gives "ja-JP".
abbrev ja_jp : List ℕ
ja_jp = 106 ∷ 97 ∷ 95 ∷ 106 ∷ 112 ∷ 46 ∷ 85 ∷ 84 ∷ 70 ∷ 45 ∷ 56 ∷ []

japanese :
    ui_language_normalize (some ja_jp) 85
    ≡ record { result = ok_code; tag_out = some (106 ∷ 97 ∷ 45 ∷ 74 ∷ 80 ∷ []) }
unfolding ui_language_normalize
japanese = refl

-- "ZH-hANS-cn-x" gives "zh-Hans-CN".
chinese :
    ui_language_normalize
      (some (90 ∷ 72 ∷ 45 ∷ 104 ∷ 65 ∷ 78 ∷ 83 ∷ 45 ∷ 99 ∷ 110 ∷ 45 ∷ 120 ∷ []))
      85
    ≡ record {
      result = ok_code;
      tag_out = some (122 ∷ 104 ∷ 45 ∷ 72 ∷ 97 ∷ 110 ∷ 115 ∷ 45 ∷ 67 ∷ 78 ∷ []);
    }
unfolding ui_language_normalize
chinese = refl

-- "posix", "j" and "ja-".
no_language :
    ui_language_normalize (some (112 ∷ 111 ∷ 115 ∷ 105 ∷ 120 ∷ [])) 85
    ≡ record { result = ok_code; tag_out = some [] }
unfolding ui_language_normalize
no_language = refl

short_language : ui_language_normalize (some (106 ∷ [])) 85 ≡ refused
unfolding ui_language_normalize
short_language = refl

empty_subtag : ui_language_normalize (some (106 ∷ 97 ∷ 45 ∷ [])) 85 ≡ refused
unfolding ui_language_normalize
empty_subtag = refl

no_room :
    ui_language_normalize (some ja_jp) 5 ≡ record { result = buffer_too_small; tag_out = some [] }
unfolding ui_language_normalize
no_room = refl

language_example :
    let r = ui_language_normalize (some ja_jp) 85 in
    (r ≡ refused)
    ⊎ (r ≡ record { result = ok_code; tag_out = some [] })
    ⊎ ((tag : List ℕ) × IsTag tag
        × (length tag ≤ 12)
        × (r ≡ record { result = ok_code; tag_out = some tag })
        × (ui_language_normalize (some tag) 85 ≡ record { result = ok_code; tag_out = some tag }))
language_example = ui_language_normalize_lem 85 (omega arith) (omega arith) ja_jp
