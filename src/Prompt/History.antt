-- ===== src/Prompt/History.antt =====
-- The keys of prompt.c that go through the history keep the invariant of the line editor.
use app_c_platform.Base.{
  ℕ, zero, suc, ◌+◌, ◌-◌, ◌<◌, ◌≤◌, ◌≡◌, inl, inr, Bool, false, List, Option, none, some, ◌==◌,
  if◌then◌else◌, length, take, add64, arith, refl, sym, ◌∙◌, ap, subst, add64-eq, lt→ltb, le→ltb,
  Option-cases, length-take, ==_iff, ne→==,
}
use native.Mathlib.Decide.{ℕ_discrete, dec_lt}
use mathlib.Core.Option.{some-injective, none-ne-some}
use app_c_platform.Hashtable.Store.{until_nul}
use app_c_platform.PromptEdit.{Resolved, Ensured, ensured, short, endless}
use app_c_platform.PromptEdit.Laws.{ensure_capacity_lem}
use app_c_platform.Prompt.{
  Context, Prompt, hist_idx, put_line, set_context, set_line, browse_to, history_browse_prev,
  browse_on, history_browse_next,
}
use app_c_platform.Prompt.Valid.{
  IsResolved, IsLine, IsContext, IsPrompt, IsLine-mono, IsContext-mono, NoNul-take, until_nul_same,
  set_context-IsPrompt,
}

module _ (l : Resolved) (limits : IsResolved l) where
  -- The call comes back, with the invariant.
  abbrev pub Stays : Option Prompt → Type 0
  Stays o = (p' : Prompt) × (o ≡ some p') × IsPrompt l p'

  pub put_line-IsPrompt :
      (p : Prompt) (line : List ℕ)
      → IsPrompt l p
      → IsLine p.edit_cap line
      → IsPrompt l (put_line p line)
  put_line-IsPrompt p line v h = record {
    edited = h;
    cap_ge = v.cap_ge;
    cap_le = v.cap_le;
    in_line = omega arith;
    context = v.context;
  }

  -- A larger buffer.
  pub grown-IsPrompt :
      (p : Prompt) (c : ℕ)
      → IsPrompt l p
      → p.edit_cap ≤ c
      → c ≤ l.max_bytes
      → IsPrompt l (record p { edit_cap = c })
  grown-IsPrompt p c v a b = record {
    edited = IsLine-mono p.edit_cap c p.edit_buf a v.edited;
    cap_ge = omega (arith, v.cap_ge);
    cap_le = b;
    in_line = v.in_line;
    context = λ site. IsContext-mono l p.edit_cap c (p.contexts site) a (v.context site);
  }

  pub set_line-Stays :
      (p : Prompt) (line : List ℕ) (grants : Bool)
      → IsPrompt l p
      → IsLine l.max_bytes line
      → Stays (set_line l p line grants)
  unfolding set_line
  set_line-Stays p line grants v h =
      let wrap = add64-eq (length line) 1 (omega (arith, h.fits, limits.few_bytes)) in
      let on : Ensured → Option Prompt = λ e. elim e [
        | ensured new_cap ↦ some (put_line (record p { edit_cap = new_cap }) line)
        | short ↦ some (put_line p (take (p.edit_cap - 1) line))
        | endless ↦ none
      ] in
      elim (ensure_capacity_lem grants p.edit_cap l.max_bytes (add64 (length line) 1) v.cap_le) [
        | inl (c, e, a, b, m) ↦ (
          put_line (record p { edit_cap = c }) line,
          ap on e,
          put_line-IsPrompt (record p { edit_cap = c }) line (grown-IsPrompt p c v b m)
              (record { fits = omega (arith, wrap); no_nul = h.no_nul }),
        )
        | inr (e, a, b) ↦ (
          put_line p (take (p.edit_cap - 1) line),
          ap on e,
          put_line-IsPrompt p (take (p.edit_cap - 1) line) v (record {
            fits = omega (arith, length-take (p.edit_cap - 1) line, v.cap_ge);
            no_nul = NoNul-take (p.edit_cap - 1) line h.no_nul;
          }),
        )
      ]

  -- The context with another place in the history.
  pub moved-IsContext :
      (cap : ℕ) (ctx : Context) (o : Option ℕ)
      → IsContext l cap ctx
      → ((i : ℕ) → o ≡ some i → i < ctx.count)
      → IsContext l cap (record ctx { browse_idx = o })
  moved-IsContext cap ctx o v h = record {
    lines = v.lines;
    saved = v.saved;
    first_lt = v.first_lt;
    count_le = v.count_le;
    browsed = h;
  }

  browse_to-Stays :
      (p : Prompt) (site : ℕ) (ctx : Context) (index : ℕ) (grants : Bool)
      → IsPrompt l p
      → IsContext l p.edit_cap ctx
      → index < ctx.count
      → Stays (browse_to l p site ctx index grants)
  unfolding browse_to
  browse_to-Stays p site ctx index grants v c lt =
      let p' = set_context p site (record ctx { browse_idx = some index }) in
      let v' : IsPrompt l p' =
        set_context-IsPrompt l limits p site (record ctx { browse_idx = some index }) v
          (moved-IsContext p.edit_cap ctx (some index) c
            (λ i e. subst (λ n. n < ctx.count) (some-injective index i e) lt)) in
      let on : Option (List ℕ) → Option Prompt =
        λ o. elim o [ none ↦ some p' | some entry ↦ set_line l p' entry grants ] in
      elim (Option-cases (ctx.entries (hist_idx l ctx index))) [
        | inl e ↦ (p', ap on e, v')
        | inr (entry, e) ↦
            let (p'', q, w) = set_line-Stays p' entry grants v' (
              IsLine-mono p.edit_cap l.max_bytes entry v.cap_le
                (c.lines (hist_idx l ctx index) entry e)) in
            (p'', ap on e ∙ q, w)
      ]

  pub up-Stays :
      (p : Prompt) (site : ℕ) (grants : Bool)
      → IsPrompt l p
      → Stays (history_browse_prev l p site grants)
  unfolding history_browse_prev
  up-Stays p site grants v =
      let ctx = p.contexts site in
      let c = v.context site in
      let saving : Context = record ctx { saved_line = until_nul p.edit_buf } in
      let saved : IsContext l p.edit_cap saving = record {
        lines = c.lines;
        saved =
            subst (IsLine l.max_bytes) (sym (until_nul_same p.edit_buf v.edited.no_nul))
              (IsLine-mono p.edit_cap l.max_bytes p.edit_buf v.cap_le v.edited);
        first_lt = c.first_lt;
        count_le = c.count_le;
        browsed = c.browsed;
      } in
      let on : Bool → Option ℕ → Option Prompt = λ b o. if b then some p else elim o [
        | none ↦ browse_to l p site saving (ctx.count - 1) grants
        | some zero ↦ some p
        | some (suc index) ↦ browse_to l p site ctx index grants
      ] in
      elim (ℕ_discrete ctx.count 0) [
        | yes z ↦ (p, ap (λ b. on b ctx.browse_idx) ((==_iff ctx.count 0).1 z), v)
        | no n ↦
            let b : (ctx.count == 0) ≡ false = ne→== ctx.count 0 n in
            elim (Option-cases ctx.browse_idx) [
              | inl e ↦
                  let (p', q, w) =
                    browse_to-Stays p site saving (ctx.count - 1) grants v saved (omega arith) in
                  (p', ap (λ b. on b ctx.browse_idx) b ∙ ap (on false) e ∙ q, w)
              | inr (i, e) ↦
                  let (p', q, w) = further i (c.browsed i e) in
                  (p', ap (λ b. on b ctx.browse_idx) b ∙ ap (on false) e ∙ q, w)
            ]
      ]
    where
      further :
          (i : ℕ)
          → i < (p.contexts site).count
          → Stays (elim i as (λ n. Option Prompt) [
            | zero ↦ some p
            | suc index ↦ browse_to l p site (p.contexts site) index grants
          ])
      further zero h = (p, refl, v)
      further (suc index) h =
          browse_to-Stays p site (p.contexts site) index grants v (v.context site) (omega arith)

  browse_on-Stays :
      (p : Prompt) (site : ℕ) (index : ℕ) (grants : Bool)
      → IsPrompt l p
      → (p.contexts site).browse_idx ≡ some index
      → Stays (browse_on l p site (p.contexts site) index grants)
  unfolding browse_on
  browse_on-Stays p site index grants v at_index =
      let ctx = p.contexts site in
      let c = v.context site in
      let p' = set_context p site (record ctx { browse_idx = some (index + 1) }) in
      let p'' = set_context p site (record ctx { browse_idx = none }) in
      let on : Option (List ℕ) → Option Prompt =
        λ o. elim o [ none ↦ some p' | some entry ↦ some (put_line p' entry) ] in
      let newer : Option Prompt = on (ctx.entries (hist_idx l ctx (index + 1))) in
      let oldest : Option Prompt = set_line l p'' ctx.saved_line grants in
      let step : Bool → Option Prompt = λ b. if b then newer else oldest in
      elim (dec_lt index (ctx.count - 1)) [
        | yes lt ↦
            let v' : IsPrompt l p' =
              set_context-IsPrompt l limits p site (record ctx { browse_idx = some (index + 1) }) v
                (moved-IsContext p.edit_cap ctx (some (index + 1)) c (λ i e.
                  subst (λ n. n < ctx.count) (some-injective (index + 1) i e) (omega arith))) in
            let b = ap step (lt→ltb index (ctx.count - 1) lt) in
            elim (Option-cases (ctx.entries (hist_idx l ctx (index + 1)))) [
              | inl e ↦ (p', b ∙ ap on e, v')
              | inr (entry, e) ↦ (
                put_line p' entry,
                b ∙ ap on e,
                put_line-IsPrompt p' entry v' (c.lines (hist_idx l ctx (index + 1)) entry e),
              )
            ]
        | no ge ↦
            let v' : IsPrompt l p'' =
              set_context-IsPrompt l limits p site (record ctx { browse_idx = none }) v
                (moved-IsContext p.edit_cap ctx none c (λ i e. absurd (none-ne-some i e))) in
            let (q, e, w) = set_line-Stays p'' ctx.saved_line grants v' c.saved in
            (q, ap step (le→ltb index (ctx.count - 1) (omega arith)) ∙ e, w)
      ]

  pub down-Stays :
      (p : Prompt) (site : ℕ) (grants : Bool)
      → IsPrompt l p
      → Stays (history_browse_next l p site grants)
  unfolding history_browse_next
  down-Stays p site grants v =
      let ctx = p.contexts site in
      let on : Option ℕ → Option Prompt =
        λ o. elim o [ none ↦ some p | some index ↦ browse_on l p site ctx index grants ] in
      elim (Option-cases ctx.browse_idx) [
        | inl e ↦ (p, ap on e, v)
        | inr (index, e) ↦
            let (p', q, w) = browse_on-Stays p site index grants v e in (p', ap on e ∙ q, w)
      ]
