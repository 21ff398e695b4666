-- ===== src/Prompt/Valid.antt =====
-- The invariant of the line editor of prompt.c, and what the history does to it.
use app_c_platform.Base.{
  ℕ, zero, suc, ◌-◌, ◌^◌, ◌<◌, ◌≤◌, ◌≡◌, Bool, true, false, ◌||◌, List, [], ◌∷◌, ◌++◌, Option, none,
  some, ◌==◌, if◌then◌else◌, length, take, drop, arith, refl, sym, ◌∙◌, ap, subst, ==_iff, ne→==,
}
use native.Mathlib.Decide.{ℕ_discrete}
use mathlib.Core.Option.{some-injective, none-ne-some}
use app_c_platform.Hashtable.Store.{update, update_hit, update_miss, until_nul}
use app_c_platform.Hashtable.Store.Bytes.{NoNul}
use app_c_platform.PromptEdit.{Resolved}
use app_c_platform.Prompt.{
  Context, fresh, Prompt, hist_idx, is_newest, make_place, history_add, set_context,
}

-- The limits are those of options that the machine's memory and an `int` can hold.
pub record IsResolved (l : Resolved) : Type 0 where
  pub some_history : 0 < l.history_max
  pub int_history : l.history_max < 2 ^ 31
  pub some_bytes : 2 ≤ l.max_bytes
  pub few_bytes : l.max_bytes < 2 ^ 64 - 1
  pub some_capacity : 2 ≤ l.initial_capacity
  pub few_capacity : l.initial_capacity ≤ l.max_bytes

-- A line without NUL that a buffer of `size` bytes holds with its terminator.
pub record IsLine (size : ℕ) (line : List ℕ) : Type 0 where
  pub fits : length line < size
  pub no_nul : NoNul line

pub record IsContext (l : Resolved) (edit_cap : ℕ) (ctx : Context) : Type 0 where
  pub lines : (i : ℕ) (line : List ℕ) → ctx.entries i ≡ some line → IsLine edit_cap line
  pub saved : IsLine l.max_bytes ctx.saved_line
  pub first_lt : ctx.first < l.history_max
  pub count_le : ctx.count ≤ l.history_max
  pub browsed : (i : ℕ) → ctx.browse_idx ≡ some i → i < ctx.count

pub record IsPrompt (l : Resolved) (p : Prompt) : Type 0 where
  pub edited : IsLine p.edit_cap p.edit_buf
  pub cap_ge : 2 ≤ p.edit_cap
  pub cap_le : p.edit_cap ≤ l.max_bytes
  pub in_line : p.cursor ≤ length p.edit_buf
  pub context : (site : ℕ) → IsContext l p.edit_cap (p.contexts site)

pub IsLine-mono : (a b : ℕ) (line : List ℕ) → a ≤ b → IsLine a line → IsLine b line
IsLine-mono a b line h v = record { fits = omega (arith, v.fits); no_nul = v.no_nul }

pub IsContext-mono :
    (l : Resolved) (a b : ℕ) (ctx : Context) → a ≤ b → IsContext l a ctx → IsContext l b ctx
IsContext-mono l a b ctx h v = record {
  lines = λ i line e. IsLine-mono a b line h (v.lines i line e);
  saved = v.saved;
  first_lt = v.first_lt;
  count_le = v.count_le;
  browsed = v.browsed;
}

pub NoNul-append : (xs ys : List ℕ) → NoNul xs → NoNul ys → NoNul (xs ++ ys)
NoNul-append [] ys h k = k
NoNul-append (x ∷ xs) ys h k = (h.0, NoNul-append xs ys h.1 k)

pub NoNul-take : (n : ℕ) (xs : List ℕ) → NoNul xs → NoNul (take n xs)
NoNul-take zero xs h = tt
NoNul-take (suc n) [] h = tt
NoNul-take (suc n) (x ∷ xs) h = (h.0, NoNul-take n xs h.1)

pub NoNul-drop : (n : ℕ) (xs : List ℕ) → NoNul xs → NoNul (drop n xs)
NoNul-drop zero xs h = h
NoNul-drop (suc n) [] h = tt
NoNul-drop (suc n) (x ∷ xs) h = NoNul-drop n xs h.1

pub until_nul_same : (xs : List ℕ) → NoNul xs → until_nul xs ≡ xs
unfolding until_nul
until_nul_same [] h = refl
until_nul_same (x ∷ xs) h = rw (ne→== x 0 h.0) (ap (λ t. x ∷ t) (until_nul_same xs h.1))

module _ (l : Resolved) (limits : IsResolved l) where
  pub fresh-IsContext : (edit_cap : ℕ) → IsContext l edit_cap fresh
  fresh-IsContext edit_cap = record {
    lines = λ i line e. absurd (none-ne-some line e);
    saved = record { fits = omega (arith, limits.some_bytes); no_nul = tt };
    first_lt = limits.some_history;
    count_le = omega arith;
    browsed = λ i e. absurd (none-ne-some i e);
  }

  -- The context of one site changes.
  pub set_context-IsPrompt :
      (p : Prompt) (site : ℕ) (ctx : Context)
      → IsPrompt l p
      → IsContext l p.edit_cap ctx
      → IsPrompt l (set_context p site ctx)
  set_context-IsPrompt p site ctx v c = record {
    edited = v.edited;
    cap_ge = v.cap_ge;
    cap_le = v.cap_le;
    in_line = v.in_line;
    context = λ j. elim (ℕ_discrete j site) [
      | yes e ↦ subst (IsContext l p.edit_cap) (sym (update_hit p.contexts site ctx j e)) c
      | no n ↦
          subst (IsContext l p.edit_cap) (sym (update_miss p.contexts site ctx j n)) (v.context j)
    ];
  }

  module _ (edit_cap : ℕ) (ctx : Context) (v : IsContext l edit_cap ctx) where
    -- An entry is replaced by a line that fits, or by none.
    replaced :
        (i : ℕ) (o : Option (List ℕ))
        → ((line : List ℕ) → o ≡ some line → IsLine edit_cap line)
        → (j : ℕ) (line : List ℕ) → update ctx.entries i o j ≡ some line
        → IsLine edit_cap line
    replaced i o h j line e = elim (ℕ_discrete j i) [
      | yes q ↦ h line (sym (update_hit ctx.entries i o j q) ∙ e)
      | no q ↦ v.lines j line (sym (update_miss ctx.entries i o j q) ∙ e)
    ]

    make_place-IsContext : IsContext l edit_cap (make_place l ctx)
    unfolding make_place
    make_place-IsContext = elim (ℕ_discrete ctx.count l.history_max) [
      | yes e ↦ rw ((==_iff ctx.count l.history_max).1 e) (record {
        lines = replaced ctx.first none (λ line q. absurd (none-ne-some line q));
        saved = v.saved;
        first_lt = omega (arith, limits.some_history);
        count_le = v.count_le;
        browsed = v.browsed;
      })
      | no n ↦ rw (ne→== ctx.count l.history_max n) (record {
        lines = v.lines;
        saved = v.saved;
        first_lt = v.first_lt;
        count_le = omega (arith, v.count_le);
        browsed = λ i e. omega (arith, v.browsed i e);
      })
    ]

  -- A line that fits is added to the history.
  pub history_add-IsContext :
      (edit_cap : ℕ) (ctx : Context) (line : List ℕ) (grants : Bool)
      → IsContext l edit_cap ctx
      → IsLine edit_cap line
      → IsContext l edit_cap (history_add l ctx line grants)
  unfolding history_add
  history_add-IsContext edit_cap ctx line grants v h =
      let ctx' = make_place l ctx in
      let v' = make_place-IsContext edit_cap ctx v in
      let slot = hist_idx l ctx' (ctx'.count - 1) in
      let o : Option (List ℕ) = if grants then some line else none in
      let added : IsContext l edit_cap (record ctx' { entries = update ctx'.entries slot o }) =
        record {
          lines = replaced edit_cap ctx' v' slot o (held grants);
          saved = v'.saved;
          first_lt = v'.first_lt;
          count_le = v'.count_le;
          browsed = v'.browsed;
        } in
      choose ((l.history_max == 0) || (length line == 0)) (is_newest l ctx line) added
    where
      held : (g : Bool) (t : List ℕ) → (if g then some line else none) ≡ some t → IsLine edit_cap t
      held true t e = subst (IsLine edit_cap) (some-injective line t e) h
      held false t e = absurd (none-ne-some t e)

      choose :
          {c : Context} (a b : Bool)
          → IsContext l edit_cap c
          → IsContext l edit_cap (if a then ctx else if b then ctx else c)
      choose true b w = v
      choose false true w = v
      choose false false w = w
