-- ===== src/Hashtable/Modify/Lookup.antt =====
-- The walks over a chain: `cplat_hashtable_find_recno`, the loop of `cplat_hashtable_delete`, and
-- `hashtable_unlink_record`.
use app_c_platform.Base.{
  ℕ, zero, suc, ◌+◌, ◌≤◌, ◌<◌, ◌≡◌, ◌≢◌, ◌⊎◌, inl, inr, true, false, List, [], ◌∷◌, Option, none,
  some, length, arith, refl, sym, ◌∙◌, ap, Bool-cases, ==_iff, ne→==,
}
use native.Mathlib.Decide.{ℕ_discrete}
use app_c_platform.Hashtable.Store.{hashtable_key_equal}
use app_c_platform.Hashtable.Store.Laws.{stored-eq}
use app_c_platform.Hashtable.Table.{Table, key_shape, entry_key, bucket_of, walk, find_record}
use app_c_platform.Hashtable.Table.Chain.{
  IsChain, has, Distinct, has_here, has_there, has_miss, has_nil,
}
use app_c_platform.Hashtable.Modify.{Link, head, after, read_link, unlink_loop, unlink_record, cut}
use app_c_platform.Hashtable.Modify.Delete.{find_link}
use app_c_platform.Hashtable.Modify.Links.{link_to, link_to_here, link_to_there}
use app_c_platform.Hashtable.Modify.Linked.{chain_bound}
use app_c_platform.Hashtable.Modify.Valid.{
  IsTable, hashtable_key_equal_iff, hash_bound, walk_end, walk_hit, walk_miss, link_end, link_hit,
  link_miss, pred,
}

module _ (t : Table) (key : ℕ → Option (List ℕ)) (k : List ℕ)
    (read_key : (i : ℕ) (u : List ℕ) → key i ≡ some u → entry_key t i ≡ u) where
  abbrev Keyed : List ℕ → Type 0
  Keyed l = (i : ℕ) → has i l ≡ true → (u : List ℕ) × (key i ≡ some u)

  abbrev NoneOf : List ℕ → Type 0
  NoneOf l = (i : ℕ) → has i l ≡ true → key i ≢ some k

  here :
      (r : ℕ) (l : List ℕ)
      → Keyed (r ∷ l)
      → ((hashtable_key_equal (entry_key t r) k ≡ true) × (key r ≡ some k))
        ⊎ ((hashtable_key_equal (entry_key t r) k ≡ false) × (key r ≢ some k))
  here r l m =
      let (u, e) = m r (has_here r l) in
      let q = hashtable_key_equal_iff (entry_key t r) k in
      elim (Bool-cases (hashtable_key_equal (entry_key t r) k)) [
        | inl p ↦ inl (p, e ∙ ap some (sym (read_key r u e) ∙ q.0 p))
        | inr p ↦ inr (p, λ w. absurd (let z = q.1 (read_key r k w) in cc))
      ]

  none_cons : (r : ℕ) (l : List ℕ) → key r ≢ some k → NoneOf l → NoneOf (r ∷ l)
  none_cons r l n a i h e = elim (ℕ_discrete i r) [
    | yes q ↦ n (sym (ap key q) ∙ e)
    | no q ↦ a i (sym (has_miss i r l q) ∙ h) e
  ]

  pub walk-chain :
      (l : List ℕ) (fuel cur : ℕ)
      → length l ≤ fuel
      → IsChain t.next cur l
      → Keyed l
      → ((walk t k (suc fuel) cur ≡ some 0) × NoneOf l)
        ⊎ ((i : ℕ) × (walk t k (suc fuel) cur ≡ some (suc i)) × (has i l ≡ true) × (key i ≡ some k))
  walk-chain [] fuel cur f c m = inl (walk_end t k fuel cur c, λ i h. absurd (has_nil i h))
  walk-chain (r ∷ l) zero cur f c m = absurd (omega arith)
  walk-chain (r ∷ l) (suc fuel) cur f c m = elim (here r l m) [
    | inl (p, e) ↦ inr (r, walk_hit t k (suc fuel) cur r c.0 p, has_here r l, e)
    | inr (p, n) ↦
        let step = walk_miss t k (suc fuel) cur r c.0 p in
        elim (walk-chain l fuel (t.next r) (omega arith) c.1 (λ i h. m i (has_there i r l h))) [
          | inl (w, a) ↦ inl (step ∙ w, none_cons r l n a)
          | inr (i, w, h, e) ↦ inr (i, step ∙ w, has_there i r l h, e)
        ]
  ]

  pub link-chain :
      (l : List ℕ) (fuel : ℕ) (link : Link)
      → length l ≤ fuel
      → IsChain t.next (read_link t link) l
      → Distinct l
      → Keyed l
      → ((find_link t k (suc fuel) link ≡ some none) × NoneOf l)
        ⊎ ((i : ℕ) × (find_link t k (suc fuel) link ≡ some (some (link_to link l i)))
            × (read_link t (link_to link l i) ≡ suc i)
            × (has i l ≡ true)
            × (key i ≡ some k))
  link-chain [] fuel link f c d m = inl (link_end t k fuel link c, λ i h. absurd (has_nil i h))
  link-chain (r ∷ l) zero link f c d m = absurd (omega arith)
  link-chain (r ∷ l) (suc fuel) link f c d m = elim (here r l m) [
    | inl (p, e) ↦
        let s = link_to_here link r l r refl in
        inr (
          r,
          link_hit t k (suc fuel) link r c.0 p ∙ ap (λ x. some (some x)) (sym s),
          ap (read_link t) s ∙ c.0,
          has_here r l,
          e,
        )
    | inr (p, n) ↦
        let step = link_miss t k (suc fuel) link r c.0 p in
        elim (link-chain l fuel (after r) (omega arith) c.1 d.1 (λ i h. m i (has_there i r l h))) [
          | inl (w, a) ↦ inl (step ∙ w, none_cons r l n a)
          | inr (i, w, q, h, e) ↦
              let s = link_to_there link r l i (λ z. n (sym (ap key z) ∙ e)) in
              inr (
                i,
                step ∙ w ∙ ap (λ x. some (some x)) (sym s),
                ap (read_link t) s ∙ q,
                has_there i r l h,
                e,
              )
        ]
  ]

module _ (t : Table) (r : ℕ) where
  unlink_hit :
      (fuel : ℕ) (link : Link)
      → read_link t link ≡ suc r
      → unlink_loop t r (suc fuel) link ≡ some (cut t link r)
  unfolding unlink_loop
  unlink_hit fuel link e =
      rw e (rw (ne→== (suc r) 0 (omega arith), (==_iff (suc r) (r + 1)).1 (omega arith)) refl)

  unlink_miss :
      (fuel : ℕ) (link : Link) (q : ℕ)
      → read_link t link ≡ suc q
      → r ≢ q
      → unlink_loop t r (suc fuel) link ≡ unlink_loop t r fuel (after q)
  unfolding unlink_loop
  unlink_miss fuel link q e n =
      rw e (rw (ne→== (suc q) 0 (omega arith), pred q, ne→== (suc q) (r + 1) (omega arith)) refl)

  -- The loop takes `r` out of the chain that has it.
  pub unlink_loop-chain :
      (l : List ℕ) (fuel : ℕ) (link : Link)
      → length l ≤ fuel
      → IsChain t.next (read_link t link) l
      → has r l ≡ true
      → unlink_loop t r (suc fuel) link ≡ some (cut t (link_to link l r) r)
  unlink_loop-chain [] fuel link f c h = absurd (has_nil r h)
  unlink_loop-chain (q ∷ l) zero link f c h = absurd (omega arith)
  unlink_loop-chain (q ∷ l) (suc fuel) link f c h = elim (ℕ_discrete r q) [
    | yes e ↦
        unlink_hit (suc fuel) link (c.0 ∙ ap suc (sym e))
        ∙ ap (λ x. some (cut t x r)) (sym (link_to_here link q l r e))
    | no e ↦
        unlink_miss (suc fuel) link q c.0 e
        ∙ unlink_loop-chain l fuel (after q) (omega arith) c.1 (sym (has_miss r q l e) ∙ h)
        ∙ ap (λ x. some (cut t x r)) (sym (link_to_there link q l r e))
  ]

module _ (t : Table) (chain : ℕ → List ℕ) (key value : ℕ → Option (List ℕ))
    (v : IsTable t chain key value) where
  pub in_cap : (k : List ℕ) → bucket_of t k < t.config.capacity
  in_cap k = hash_bound t.config.capacity k v.roomy

  pub read_key : (i : ℕ) (u : List ℕ) → key i ≡ some u → entry_key t i ≡ u
  read_key i u e = stored-eq (key_shape t.config) t.keys key v.keys i u e

  keyed :
      (b i : ℕ) → b < t.config.capacity → has i (chain b) ≡ true → (u : List ℕ) × (key i ≡ some u)
  keyed b i l h = let (u, e, w) = v.linked.member b i l h in (u, e)

  bound : (k : List ℕ) → length (chain (bucket_of t k)) ≤ t.config.capacity
  bound k =
      chain_bound t.config.capacity (bucket_of t) in_cap t.bucket_head t.next key chain v.linked
        (bucket_of t k) (in_cap k)

  nowhere :
      (k : List ℕ) → NoneOf t key k read_key (chain (bucket_of t k)) → (i : ℕ) → key i ≢ some k
  nowhere k a i e = a i (v.linked.present i k e) e

  succ : t.config.capacity + 1 ≡ suc t.config.capacity
  succ = omega arith

  -- The walk ends within its fuel, at the one record that has the key, or with 0 where none has it.
  pub find_record_lem :
      (k : List ℕ)
      → ((find_record t k ≡ some 0) × ((i : ℕ) → key i ≢ some k))
        ⊎ ((i : ℕ) × (find_record t k ≡ some (suc i)) × (key i ≡ some k))
  unfolding find_record
  find_record_lem k =
      let b = bucket_of t k in
      let s = ap (λ f. walk t k f (t.bucket_head b)) succ in
      elim (walk-chain t key k read_key (chain b) t.config.capacity (t.bucket_head b) (bound k)
        (v.linked.linked b (in_cap k)) (λ i h. keyed b i (in_cap k) h)) [
          | inl (w, a) ↦ inl (s ∙ w, nowhere k a)
          | inr (i, w, h, e) ↦ inr (i, s ∙ w, e)
        ]

  pub find_link_lem :
      (k : List ℕ)
      → let b = bucket_of t k in
        ((find_link t k (t.config.capacity + 1) (head b) ≡ some none) × ((i : ℕ) → key i ≢ some k))
        ⊎ ((i : ℕ) × (find_link t k (t.config.capacity + 1) (head b)
              ≡ some (some (link_to (head b) (chain b) i)))
            × (read_link t (link_to (head b) (chain b) i) ≡ suc i)
            × (key i ≡ some k))
  find_link_lem k =
      let b = bucket_of t k in
      let s = ap (λ f. find_link t k f (head b)) succ in
      elim (link-chain t key k read_key (chain b) t.config.capacity (head b) (bound k)
        (v.linked.linked b (in_cap k)) (v.linked.distinct b (in_cap k))
        (λ i h. keyed b i (in_cap k) h)) [
          | inl (w, a) ↦ inl (s ∙ w, nowhere k a)
          | inr (i, w, q, h, e) ↦ inr (i, s ∙ w, q, e)
        ]

  pub unlink_record_lem :
      (i : ℕ) (k : List ℕ)
      → key i ≡ some k
      → let b = bucket_of t k in unlink_record t i ≡ some (cut t (link_to (head b) (chain b) i) i)
  unfolding unlink_record
  unlink_record_lem i k e =
      let b = bucket_of t k in
      ap (λ u. unlink_loop t i (t.config.capacity + 1) (head (bucket_of t u))) (read_key i k e)
      ∙ ap (λ f. unlink_loop t i f (head b)) succ
      ∙ unlink_loop-chain t i (chain b) t.config.capacity (head b) (bound k)
          (v.linked.linked b (in_cap k)) (v.linked.present i k e)
