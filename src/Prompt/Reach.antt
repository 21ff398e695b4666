-- ===== src/Prompt/Reach.antt =====
-- The runs of the line editor of prompt.c: calls that begin a line, and keys.
use app_c_platform.Base.{
  ℕ, ◌-◌, ◌^◌, ◌<◌, ◌≡◌, inl, inr, Bool, false, ◌||◌, List, [], ◌∷◌, Option, none, some, ltb, ◌==◌,
  if◌then◌else◌, length, take, add64, arith, sym, ◌∙◌, ap, subst, add64-eq, lt→ltb, le→ltb,
  Bool-cases, take_all,
}
use native.Mathlib.Decide.{dec_lt}
use mathlib.Core.Option.{some-injective}
use app_c_platform.Hashtable.Store.Bytes.{NoNul}
use app_c_platform.PromptEdit.{
  Resolved, resolve_options, Ensured, ensured, short, endless, ensure_capacity, has_control,
  valid_length, validate_initial_text,
}
use app_c_platform.PromptEdit.Laws.{ensure_capacity_lem}
use app_c_platform.Prompt.{Prompt, prompt_create, put_line, set_context, Key, press, begin_line}
use app_c_platform.Prompt.Valid.{IsResolved, IsLine, IsPrompt, fresh-IsContext}
use app_c_platform.Prompt.History.{Stays, put_line-IsPrompt, grown-IsPrompt}
use app_c_platform.Prompt.Keys.{IsKey, emptied-IsPrompt, press-Stays}

-- `PROMPT_INPUT_INITIAL_DEFAULT`.
abbrev pub initial_default : ℕ
initial_default = 256

pub data Step (l : Resolved) (p : Prompt) : Prompt → Type 0 where
  begins :
      (site : ℕ) (initial_text : List ℕ) (initial_length : ℕ) (grants : Bool) (p' : Prompt)
      → validate_initial_text (some initial_text) l.max_bytes ≡ valid_length initial_length
      → begin_line l p site initial_text initial_length grants ≡ some p'
      → Step l p p'
  presses :
      (site : ℕ) (key : Key) (grants : Bool) (p' : Prompt)
      → IsKey key
      → press l p site key grants ≡ some p'
      → Step l p p'

-- What a program can bring the line editor to.
pub data Reach (l : Resolved) : Prompt → Type 0 where
  creates : Reach l (prompt_create l)
  continues : (p p' : Prompt) → Reach l p → Step l p p' → Reach l p'

pub resolve_options-IsResolved :
    (history_max initial max_bytes : ℕ)
    → history_max < 2 ^ 31
    → max_bytes < 2 ^ 64 - 1
    → IsResolved (resolve_options history_max initial max_bytes initial_default)
unfolding resolve_options
resolve_options-IsResolved history_max initial max_bytes h m = record {
  some_history = ground arith;
  int_history = ground arith;
  some_bytes = ground arith;
  few_bytes = ground arith;
  some_capacity = ground arith;
  few_capacity = ground arith;
}

no_control-NoNul : (text : List ℕ) → has_control text ≡ false → NoNul text
unfolding has_control
no_control-NoNul [] h = tt
no_control-NoNul (c ∷ cs) h =
    let (a, b) = neither (ltb c 0x20 || (c == 0x7F)) (has_control cs) h in
    ((λ z. ground arith), no_control-NoNul cs b)
  where
    neither : (a b : Bool) → (a || b) ≡ false → (a ≡ false) × (b ≡ false)
    neither a b h = ground arith

module _ (l : Resolved) (limits : IsResolved l) where
  -- A text that passes the validation is a line of that length.
  validated :
      (text : List ℕ) (n : ℕ)
      → validate_initial_text (some text) l.max_bytes ≡ valid_length n
      → IsLine l.max_bytes text × (n ≡ length text)
  unfolding validate_initial_text
  validated text n e = elim (Bool-cases (has_control text)) [
    | inl c ↦ absurd (ground (arith, c, e))
    | inr c ↦ (
      record { fits = ground (arith, c, e, limits.some_bytes); no_nul = no_control-NoNul text c },
      ground (arith, c, e),
    )
  ]

  prompt_create-IsPrompt : IsPrompt l (prompt_create l)
  unfolding prompt_create
  prompt_create-IsPrompt = record {
    edited = record { fits = omega (arith, limits.some_capacity); no_nul = tt };
    cap_ge = limits.some_capacity;
    cap_le = limits.few_capacity;
    in_line = omega arith;
    context = λ site. fresh-IsContext l limits l.initial_capacity;
  }

  begin_line-Stays :
      (p : Prompt) (site : ℕ) (text : List ℕ) (n : ℕ) (grants : Bool)
      → IsPrompt l p
      → validate_initial_text (some text) l.max_bytes ≡ valid_length n
      → Stays l limits (begin_line l p site text n grants)
  unfolding begin_line
  begin_line-Stays p site text n grants v e =
      let (line, size) = validated text n e in
      let p' : Prompt =
        record (set_context p site (record (p.contexts site) { browse_idx = none })) {
          edit_buf = [];
          cursor = 0;
        } in
      let v' : IsPrompt l p' = emptied-IsPrompt l limits p site v in
      let wrap = add64-eq n 1 (omega (arith, size, line.fits, limits.few_bytes)) in
      let on : Ensured → Option Prompt = λ e. elim e [
        | ensured new_cap ↦ some (put_line (record p' { edit_cap = new_cap }) (take n text))
        | short ↦ some p'
        | endless ↦ none
      ] in
      let filled : Option Prompt = on (ensure_capacity grants p.edit_cap l.max_bytes (add64 n 1)) in
      let step : Bool → Option Prompt = λ b. if b then filled else some p' in
      let whole : take n text ≡ text = ap (λ k. take k text) size ∙ take_all text in
      elim (dec_lt 0 n) [
        | yes some_text ↦
            let b = ap step (lt→ltb 0 n some_text) in
            elim (ensure_capacity_lem grants p.edit_cap l.max_bytes (add64 n 1) v.cap_le) [
              | inl (c, q, x, y, z) ↦
                  let fits : IsLine c (take n text) =
                    subst (IsLine c) (sym whole)
                      (record { fits = omega (arith, wrap, size); no_nul = line.no_nul }) in
                  (
                    put_line (record p' { edit_cap = c }) (take n text),
                    b ∙ ap on q,
                    put_line-IsPrompt l limits (record p' { edit_cap = c }) (take n text)
                        (grown-IsPrompt l limits p' c v' y z) fits,
                  )
              | inr (q, x, y) ↦ (p', b ∙ ap on q, v')
            ]
        | no empty ↦ (p', ap step (le→ltb 0 n (omega arith)), v')
      ]

  -- Where a call came back, the state it came back with keeps the invariant.
  of_Stays : (o : Option Prompt) (p' : Prompt) → Stays l limits o → o ≡ some p' → IsPrompt l p'
  of_Stays o p' (q, e, v) f = subst (IsPrompt l) (some-injective q p' (sym e ∙ f)) v

  reached : (p : Prompt) → Reach l p → IsPrompt l p
  reached p creates = prompt_create-IsPrompt
  reached p (continues q _ r (begins site text n grants _ e f)) =
      of_Stays (begin_line l q site text n grants) p
        (begin_line-Stays q site text n grants (reached q r) e) f
  reached p (continues q _ r (presses site key grants _ k f)) =
      of_Stays (press l q site key grants) p
        (press-Stays l limits q site key grants (reached q r) k) f

module _ (history_max initial max_bytes : ℕ) (few : history_max < 2 ^ 31)
    (bounded : max_bytes < 2 ^ 64 - 1) where
  abbrev l : Resolved
  l = resolve_options history_max initial max_bytes initial_default

  -- A line editor with any options, but a history below 2^31 lines and a limit below 2^64-1 bytes,
  -- after any sequence of calls, keys and allocations that fail or not: the line and its terminator
  -- fit in the buffer, which is not above the limit; the cursor stands in the line or at its end; each
  -- line of a history fits in the buffer, into which it is copied without a test; a saved line fits
  -- in its own buffer; and a browsed place is in the history. Each further key and each further call
  -- with a valid initial text comes back with a state.
  pub Reach-IsPrompt :
      (p : Prompt)
      → Reach l p
      → IsPrompt l p
        × ((site : ℕ) (key : Key) (grants : Bool)
            → IsKey key
            → (p' : Prompt) × (press l p site key grants ≡ some p'))
        × ((site : ℕ) (text : List ℕ) (n : ℕ) (grants : Bool)
            → validate_initial_text (some text) l.max_bytes ≡ valid_length n
            → (p' : Prompt) × (begin_line l p site text n grants ≡ some p'))
  Reach-IsPrompt p r =
      let limits = resolve_options-IsResolved history_max initial max_bytes few bounded in
      let v = reached l limits p r in
      (
        v,
        (λ site key grants k.
            let (p', e, w) = press-Stays l limits p site key grants v k in (p', e)),
        (λ site text n grants e.
            let (p', f, w) = begin_line-Stays l limits p site text n grants v e in (p', f)),
      )
