-- ===== src/Hashtable/Modify/Links.antt =====
-- The link to a record of a chain, and the chains after `*link = next[rec]; next[rec] = 0;`.
use app_c_platform.Base.{
  ℕ, ◌≡◌, ◌≢◌, true, false, List, [], ◌∷◌, ◌==◌, if◌then◌else◌, refl, sym, subst, ◌∙◌, ==_iff,
  ne→==,
}
use native.Mathlib.Decide.{ℕ_discrete}
use app_c_platform.Hashtable.Store.{update, update_hit, update_miss}
use app_c_platform.Hashtable.Table.{Table}
use app_c_platform.Hashtable.Table.Chain.{
  IsChain, has, Distinct, remove, remove_here, remove_there, has_apart, has_nil, has_cons, has_miss,
  IsChain-agree,
}
use app_c_platform.Hashtable.Modify.{Link, head, after, cut}

-- The link to `r` in the chain `l` that `link` starts.
unfoldable pub link_to : Link → List ℕ → ℕ → Link
link_to link [] r = link
link_to link (q ∷ l) r = if r == q then link else link_to (after q) l r

pub link_to_here :
    (link : Link) (q : ℕ) (l : List ℕ) (r : ℕ) → r ≡ q → link_to link (q ∷ l) r ≡ link
unfolding link_to
link_to_here link q l r e = rw ((==_iff r q).1 e)

pub link_to_there :
    (link : Link) (q : ℕ) (l : List ℕ) (r : ℕ)
    → r ≢ q
    → link_to link (q ∷ l) r ≡ link_to (after q) l r
unfolding link_to
link_to_there link q l r n = rw (ne→== r q n)

abbrev pub read : (ℕ → ℕ) → (ℕ → ℕ) → Link → ℕ
read h n (head b) = h b
read h n (after p) = n p

-- What `cut` leaves in the two arrays.
abbrev pub cut_head : (ℕ → ℕ) → (ℕ → ℕ) → Link → ℕ → ℕ → ℕ
cut_head h n (head b) r = update h b (n r)
cut_head h n (after p) r = h

abbrev pub cut_next : (ℕ → ℕ) → Link → ℕ → ℕ → ℕ
cut_next n (head b) r = update n r 0
cut_next n (after p) r = update (update n p (n r)) r 0

pub cut-eq :
    (t : Table) (link : Link) (r : ℕ)
    → cut t link r ≡ record t {
      bucket_head = cut_head t.bucket_head t.next link r;
      next = cut_next t.next link r;
    }
unfolding cut
cut-eq t (head b) r = refl
cut-eq t (after p) r = refl

-- The link is no link of the chain that it starts, nor `x`'s.
abbrev pub NotAfter : Link → ℕ → Type 0
NotAfter (head b) x = Unit
NotAfter (after p) x = x ≢ p

abbrev pub Outside : Link → List ℕ → Type 0
Outside (head b) l = Unit
Outside (after p) l = has p l ≡ false

abbrev pub NotHead : Link → ℕ → Type 0
NotHead (head b) x = x ≢ b
NotHead (after p) x = Unit

-- The record's own link and the one before it are the only ones that change.
cut_next-after : (n : ℕ → ℕ) (p r x : ℕ) → x ≢ p → x ≢ r → cut_next n (after p) r x ≡ n x
cut_next-after n p r x f g = update_miss (update n p (n r)) r 0 x g ∙ update_miss n p (n r) x f

module _ (h n : ℕ → ℕ) (r : ℕ) where
  -- Where `r` itself is the first record of the chain.
  cut_here :
      (link : Link) (l : List ℕ)
      → Outside link (r ∷ l)
      → has r l ≡ false
      → IsChain n (n r) l
      → IsChain (cut_next n link r) (read (cut_head h n link r) (cut_next n link r) link) l
  cut_here (head b) l o f c =
      rw (update_hit h b (n r) b refl) (
        IsChain-agree n (update n r 0) (n r) l (λ x k. update_miss n r 0 x (has_apart x r l k f)) c)
  cut_here (after p) l o f c =
      let d = has_cons p r l o in
      rw (update_miss (update n p (n r)) r 0 p d.0, update_hit n p (n r) p refl)
        (IsChain-agree n (update (update n p (n r)) r 0) (n r) l
          (λ x k. cut_next-after n p r x (has_apart x p l k d.1) (has_apart x r l k f)) c)

  cut_next-here : (link : Link) (x : ℕ) → x ≢ r → NotAfter link x → cut_next n link r x ≡ n x
  cut_next-here (head b) x g a = update_miss n r 0 x g
  cut_next-here (after p) x g a = cut_next-after n p r x a g

  -- A record outside the chain keeps its link.
  pub cut_next-same :
      (link : Link) (l : List ℕ) (x : ℕ)
      → has r l ≡ true
      → has x l ≡ false
      → NotAfter link x
      → cut_next n (link_to link l r) r x ≡ n x
  cut_next-same link [] x k f a = absurd (has_nil r k)
  cut_next-same link (q ∷ l) x k f a =
      let d = has_cons x q l f in
      elim (ℕ_discrete r q) [
        | yes e ↦ rw (link_to_here link q l r e) (cut_next-here link x (λ u. d.0 (u ∙ e)) a)
        | no g ↦
            rw (link_to_there link q l r g)
              (cut_next-same (after q) l x (sym (has_miss r q l g) ∙ k) d.1 d.0)
      ]

  cut_head-here : (link : Link) (b : ℕ) → NotHead link b → cut_head h n link r b ≡ h b
  cut_head-here (head b') b a = update_miss h b' (n r) b a
  cut_head-here (after p) b a = refl

  -- Only the head that starts the chain changes.
  pub cut_head-same :
      (link : Link) (l : List ℕ) (b : ℕ)
      → NotHead link b
      → cut_head h n (link_to link l r) r b ≡ h b
  cut_head-same link [] b a = unfold link_to in cut_head-here link b a
  cut_head-same link (q ∷ l) b a = elim (ℕ_discrete r q) [
    | yes e ↦ rw (link_to_here link q l r e) (cut_head-here link b a)
    | no g ↦ rw (link_to_there link q l r g) (cut_head-same (after q) l b tt)
  ]

  read_same :
      (link : Link) (q : ℕ) (l : List ℕ)
      → has r l ≡ true
      → Outside link (q ∷ l)
      → let k = link_to (after q) l r in
        read (cut_head h n k r) (cut_next n k r) link ≡ read h n link
  read_same (head b) q l k o = cut_head-same (after q) l b tt
  read_same (after p) q l k o = let d = has_cons p q l o in cut_next-same (after q) l p k d.1 d.0

  -- The chain loses `r`.
  pub IsChain-cut :
      (link : Link) (l : List ℕ)
      → Outside link l
      → Distinct l
      → has r l ≡ true
      → IsChain n (read h n link) l
      → let k = link_to link l r in
        IsChain (cut_next n k r) (read (cut_head h n k r) (cut_next n k r) link) (remove r l)
  IsChain-cut link [] o d k c = absurd (has_nil r k)
  IsChain-cut link (q ∷ l) o d k c = elim (ℕ_discrete r q) [
    | yes e ↦
        rw (link_to_here link q l r e, remove_here r q l e)
          (cut_here link l (subst (λ u. Outside link (u ∷ l)) (sym e) o)
            (subst (λ u. has u l ≡ false) (sym e) d.0) (subst (λ u. IsChain n (n u) l) (sym e) c.1))
    | no g ↦
        let k' = sym (has_miss r q l g) ∙ k in
        rw (link_to_there link q l r g, remove_there r q l g, read_same link q l k' o)
          (c.0, IsChain-cut (after q) l d.0 d.1 k' c.1)
  ]
