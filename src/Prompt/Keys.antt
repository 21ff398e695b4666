-- ===== src/Prompt/Keys.antt =====
-- Each key of prompt.c keeps the invariant of the line editor.
use app_c_platform.Base.{
  ℕ, ◌+◌, ◌≤◌, inl, inr, Bool, List, [], ◌∷◌, ◌++◌, Option, none, some, ltb, if◌then◌else◌, length,
  take, drop, add64, arith, refl, sym, ap, subst, add64-eq, lt→ltb, le→ltb, length-take,
  length-drop, length-append,
}
use native.Mathlib.Decide.{dec_lt}
use mathlib.Core.Option.{none-ne-some}
use app_c_platform.Hashtable.Store.{until_nul}
use app_c_platform.PromptEdit.{
  Resolved, Ensured, ensured, short, endless, utf8_prev_boundary, utf8_next_boundary,
}
use app_c_platform.PromptEdit.Laws.{
  ensure_capacity_lem, utf8_prev_boundary_lt, utf8_next_boundary_range,
}
use app_c_platform.Prompt.{
  Prompt, history_add, set_context, Key, char, enter, backspace, delete, left, right, up, down,
  home, to_end, clear, no_change, insert_char, erase_before, erase_after, press,
}
use app_c_platform.Prompt.Valid.{
  IsResolved, IsLine, IsPrompt, NoNul-append, NoNul-take, NoNul-drop, until_nul_same,
  set_context-IsPrompt, history_add-IsContext,
}
use app_c_platform.Prompt.History.{
  Stays, put_line-IsPrompt, grown-IsPrompt, up-Stays, down-Stays, moved-IsContext,
}

-- The bytes of `KEY_CHAR` are no control bytes.
abbrev pub IsKey : Key → Type 0
IsKey (char ch) = 0x20 ≤ ch
IsKey _ = Unit

module _ (l : Resolved) (limits : IsResolved l) where
  insert-Stays :
      (p : Prompt) (ch : ℕ) (grants : Bool)
      → IsPrompt l p
      → 0x20 ≤ ch
      → Stays l limits (insert_char l p ch grants)
  unfolding insert_char
  insert-Stays p ch grants v h =
      let text : List ℕ = take p.cursor p.edit_buf ++ (ch ∷ drop p.cursor p.edit_buf) in
      let wrap =
        add64-eq (length p.edit_buf) 2 (omega (arith, v.edited.fits, v.cap_le, limits.few_bytes)) in
      let on : Ensured → Option Prompt = λ e. elim e [
        | ensured new_cap ↦
            some (record p { edit_cap = new_cap; edit_buf = text; cursor = p.cursor + 1 })
        | short ↦ some p
        | endless ↦ none
      ] in
      let size = length-append (take p.cursor p.edit_buf) (ch ∷ drop p.cursor p.edit_buf) in
      let before = length-take p.cursor p.edit_buf in
      let behind = length-drop p.cursor p.edit_buf in
      elim (ensure_capacity_lem grants p.edit_cap l.max_bytes (add64 (length p.edit_buf) 2)
        v.cap_le) [
          | inl (c, e, a, b, m) ↦
              let w = grown-IsPrompt l limits p c v b m in
              (
                record p { edit_cap = c; edit_buf = text; cursor = p.cursor + 1 },
                ap on e,
                record {
                  edited = record {
                    fits = omega (arith, wrap, size, before, behind, v.in_line);
                    no_nul =
                        NoNul-append (take p.cursor p.edit_buf) (ch ∷ drop p.cursor p.edit_buf)
                          (NoNul-take p.cursor p.edit_buf v.edited.no_nul)
                          ((λ z. omega arith), NoNul-drop p.cursor p.edit_buf v.edited.no_nul);
                  };
                  cap_ge = w.cap_ge;
                  cap_le = m;
                  in_line = omega (arith, size, before, behind, v.in_line);
                  context = w.context;
                },
              )
          | inr (e, a, b) ↦ (p, ap on e, v)
        ]

  -- Bytes are taken out of the line, and the cursor stays in it.
  cut_out :
      (p : Prompt) (a b c : ℕ)
      → IsPrompt l p
      → a ≤ b
      → b ≤ length p.edit_buf
      → c ≤ a
      → IsPrompt l (record p { edit_buf = take a p.edit_buf ++ drop b p.edit_buf; cursor = c })
  cut_out p a b c v h k m =
      let size = length-append (take a p.edit_buf) (drop b p.edit_buf) in
      let before = length-take a p.edit_buf in
      let behind = length-drop b p.edit_buf in
      record {
        edited = record {
          fits = omega (arith, size, before, behind, v.edited.fits);
          no_nul =
              NoNul-append (take a p.edit_buf) (drop b p.edit_buf)
                (NoNul-take a p.edit_buf v.edited.no_nul) (NoNul-drop b p.edit_buf v.edited.no_nul);
        };
        cap_ge = v.cap_ge;
        cap_le = v.cap_le;
        in_line = omega (arith, size, before, behind);
        context = v.context;
      }

  erase_before-IsPrompt : (p : Prompt) → IsPrompt l p → IsPrompt l (erase_before p)
  unfolding erase_before
  erase_before-IsPrompt p v = elim (dec_lt 0 p.cursor) [
    | yes h ↦
        let prev = utf8_prev_boundary p.edit_buf p.cursor in
        rw (lt→ltb 0 p.cursor h) (
          cut_out p prev p.cursor prev v
            (omega (arith, utf8_prev_boundary_lt p.edit_buf p.cursor h)) v.in_line (omega arith))
    | no h ↦ rw (le→ltb 0 p.cursor (omega arith)) v
  ]

  erase_after-IsPrompt : (p : Prompt) → IsPrompt l p → IsPrompt l (erase_after p)
  unfolding erase_after
  erase_after-IsPrompt p v = elim (dec_lt p.cursor (length p.edit_buf)) [
    | yes h ↦
        let next = utf8_next_boundary p.edit_buf (length p.edit_buf) p.cursor in
        let (a, b) = utf8_next_boundary_range p.edit_buf (length p.edit_buf) p.cursor h in
        rw (lt→ltb p.cursor (length p.edit_buf) h)
          (cut_out p p.cursor next p.cursor v (omega arith) b (omega arith))
    | no h ↦ rw (le→ltb p.cursor (length p.edit_buf) (omega arith)) v
  ]

  -- The cursor moves within the line.
  at_cursor :
      (p : Prompt) (c : ℕ)
      → IsPrompt l p
      → c ≤ length p.edit_buf
      → IsPrompt l (record p { cursor = c })
  at_cursor p c v h = record {
    edited = v.edited;
    cap_ge = v.cap_ge;
    cap_le = v.cap_le;
    in_line = h;
    context = v.context;
  }

  left-IsPrompt :
      (p : Prompt)
      → IsPrompt l p
      → IsPrompt l (
          if ltb 0 p.cursor
          then record p { cursor = utf8_prev_boundary p.edit_buf p.cursor }
          else p)
  left-IsPrompt p v = elim (dec_lt 0 p.cursor) [
    | yes h ↦ rw (lt→ltb 0 p.cursor h) (
        at_cursor p (utf8_prev_boundary p.edit_buf p.cursor) v
          (omega (arith, utf8_prev_boundary_lt p.edit_buf p.cursor h, v.in_line)))
    | no h ↦ rw (le→ltb 0 p.cursor (omega arith)) v
  ]

  right-IsPrompt :
      (p : Prompt)
      → IsPrompt l p
      → IsPrompt l (
          if ltb p.cursor (length p.edit_buf)
          then record p { cursor = utf8_next_boundary p.edit_buf (length p.edit_buf) p.cursor }
          else p)
  right-IsPrompt p v = elim (dec_lt p.cursor (length p.edit_buf)) [
    | yes h ↦
        let (a, b) = utf8_next_boundary_range p.edit_buf (length p.edit_buf) p.cursor h in
        rw (lt→ltb p.cursor (length p.edit_buf) h)
          (at_cursor p (utf8_next_boundary p.edit_buf (length p.edit_buf) p.cursor) v b)
    | no h ↦ rw (le→ltb p.cursor (length p.edit_buf) (omega arith)) v
  ]

  enter-IsPrompt :
      (p : Prompt) (site : ℕ) (grants : Bool)
      → IsPrompt l p
      → IsPrompt l (
          if ltb 0 (length p.edit_buf)
          then set_context p site (history_add l (p.contexts site) (until_nul p.edit_buf) grants)
          else p)
  enter-IsPrompt p site grants v = elim (dec_lt 0 (length p.edit_buf)) [
    | yes h ↦
        let line = until_nul p.edit_buf in
        rw (lt→ltb 0 (length p.edit_buf) h) (
          set_context-IsPrompt l limits p site (history_add l (p.contexts site) line grants) v (
            history_add-IsContext l limits p.edit_cap (p.contexts site) line grants (v.context site)
              (subst (IsLine p.edit_cap) (sym (until_nul_same p.edit_buf v.edited.no_nul))
                v.edited)))
    | no h ↦ rw (le→ltb 0 (length p.edit_buf) (omega arith)) v
  ]

  -- The line is emptied, and the history is no longer browsed.
  pub emptied-IsPrompt :
      (p : Prompt) (site : ℕ)
      → IsPrompt l p
      → IsPrompt l (record (set_context p site (record (p.contexts site) { browse_idx = none })) {
        edit_buf = [];
        cursor = 0;
      })
  emptied-IsPrompt p site v =
      let ctx = p.contexts site in
      put_line-IsPrompt l limits (set_context p site (record ctx { browse_idx = none })) []
        (set_context-IsPrompt l limits p site (record ctx { browse_idx = none }) v
          (moved-IsContext l limits p.edit_cap ctx none (v.context site)
            (λ i e. absurd (none-ne-some i e))))
        (record { fits = omega (arith, v.cap_ge); no_nul = tt })

  -- Each key comes back, with the invariant.
  pub press-Stays :
      (p : Prompt) (site : ℕ) (key : Key) (grants : Bool)
      → IsPrompt l p
      → IsKey key
      → Stays l limits (press l p site key grants)
  unfolding press
  press-Stays p site (char ch) grants v h = insert-Stays p ch grants v h
  press-Stays p site enter grants v h = (_, refl, enter-IsPrompt p site grants v)
  press-Stays p site backspace grants v h = (_, refl, erase_before-IsPrompt p v)
  press-Stays p site delete grants v h = (_, refl, erase_after-IsPrompt p v)
  press-Stays p site left grants v h = (_, refl, left-IsPrompt p v)
  press-Stays p site right grants v h = (_, refl, right-IsPrompt p v)
  press-Stays p site up grants v h = up-Stays l limits p site grants v
  press-Stays p site down grants v h = down-Stays l limits p site grants v
  press-Stays p site home grants v h = (_, refl, at_cursor p 0 v (omega arith))
  press-Stays p site to_end grants v h = (_, refl, at_cursor p (length p.edit_buf) v (omega arith))
  press-Stays p site clear grants v h = (_, refl, emptied-IsPrompt p site v)
  press-Stays p site no_change grants v h = (_, refl, v)
