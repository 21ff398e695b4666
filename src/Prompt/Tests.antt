-- ===== src/Prompt/Tests.antt =====
-- Runs of the line editor of prompt.c.
use app_c_platform.Base.{ℕ, ◌≡◌, Bool, true, List, [], ◌∷◌, Option, none, some, arith, refl}
use app_c_platform.PromptEdit.{Resolved, resolve_options, valid_length, validate_initial_text}
use app_c_platform.Prompt.{
  Prompt, prompt_create, Key, char, enter, backspace, left, up, down, press, begin_line,
  returned_line,
}
use app_c_platform.Prompt.Valid.{IsPrompt}
use app_c_platform.Prompt.Keys.{IsKey}
use app_c_platform.Prompt.Reach.{
  initial_default, Reach, creates, continues, presses, Reach-IsPrompt,
}

abbrev limits : Resolved
limits = resolve_options 2 4 16 initial_default

-- The keys one after the other, at call site 0.
types : List Key → Option Prompt → Option Prompt
unfolding press
types [] o = o
types (k ∷ ks) none = none
types (k ∷ ks) (some p) = types ks (press limits p 0 k true)

line : Option Prompt → List ℕ
unfolding returned_line
line none = []
line (some p) = returned_line 100 p

abbrev new_line : Key
new_line = Key.clear

edits :
    line (types (char 97 ∷ char 98 ∷ char 99 ∷ left ∷ backspace ∷ []) (some (prompt_create limits)))
    ≡ 97 ∷ 99 ∷ []
unfolding types line prompt_create resolve_options
edits = refl

-- "a" and "b" are entered, and "c" is typed. The cursor key up brings "b" and "a", and down goes back
-- to "c".
abbrev history : List Key
history = char 97 ∷ enter ∷ new_line ∷ char 98 ∷ enter ∷ new_line ∷ char 99 ∷ up ∷ up ∷ []

oldest : line (types history (some (prompt_create limits))) ≡ 97 ∷ []
unfolding types line prompt_create resolve_options
oldest = refl

comes_back : line (types (down ∷ down ∷ []) (types history (some (prompt_create limits)))) ≡ 99 ∷ []
unfolding types line prompt_create resolve_options
comes_back = refl

abbrev typed : Prompt
typed = record (prompt_create limits) { edit_buf = 97 ∷ []; cursor = 1 }

typed-Reach : Reach limits typed
unfolding prompt_create press resolve_options
typed-Reach =
    continues (prompt_create limits) typed creates
      (presses 0 (char 97) true typed (omega arith) refl)

reach_example :
    IsPrompt limits typed
    × ((site : ℕ) (key : Key) (grants : Bool)
        → IsKey key
        → (p' : Prompt) × (press limits typed site key grants ≡ some p'))
    × ((site : ℕ) (text : List ℕ) (n : ℕ) (grants : Bool)
        → validate_initial_text (some text) limits.max_bytes ≡ valid_length n
        → (p' : Prompt) × (begin_line limits typed site text n grants ≡ some p'))
reach_example = Reach-IsPrompt 2 4 16 (omega arith) (omega arith) typed typed-Reach
