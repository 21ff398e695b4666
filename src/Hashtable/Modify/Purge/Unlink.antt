-- ===== src/Hashtable/Modify/Purge/Unlink.antt =====
-- Proofs about `hashtable_unlink_empty_chains` of hashtable_modify.c. While it runs, the records that
-- are empty already keep the keys that they had in the argument `key`, until they leave their chain.
use app_c_platform.Base.{
  ℕ, zero, suc, ◌+◌, ◌-◌, ◌<◌, ◌≡◌, ◌≢◌, ◌⊎◌, inl, inr, true, false, List, [], ◌∷◌, Option, none,
  some, ◌==◌, if◌then◌else◌, length, arith, refl, sym, ◌∙◌, ap, subst, ==_iff, ne→==, Option-cases,
}
use mathlib.Core.Path.{fun_ext}
use native.Mathlib.Decide.{ℕ_discrete}
use app_c_platform.Hashtable.Config.{rec_empty}
use app_c_platform.Hashtable.Store.{update, update_hit, update_miss}
use app_c_platform.Hashtable.Table.{Table, bucket_of}
use app_c_platform.Hashtable.Table.Chain.{has, remove, has_miss, has-remove}
use app_c_platform.Hashtable.Modify.{Link, head, after, read_link, cut}
use app_c_platform.Hashtable.Modify.Links.{link_to, read, cut_head, cut_next, cut-eq}
use app_c_platform.Hashtable.Modify.Linked.{IsLinked, chain_bound}
use app_c_platform.Hashtable.Modify.Linked.Detach.{detach-IsLinked}
use app_c_platform.Hashtable.Modify.Purge.{unlink_empty_chain, unlink_empty_chains}
use app_c_platform.Hashtable.Modify.Purge.Place.{
  Place, start, Place-has, link_to-Place, Place-remove, Place-after, IsChain-Place,
}
use app_c_platform.Hashtable.Modify.Valid.{pred}

-- The table with other links.
abbrev pub linked_as : Table → (ℕ → ℕ) → (ℕ → ℕ) → Table
linked_as t h n = record t { bucket_head = h; next = n }

module _ (t : Table) (in_cap : (k : List ℕ) → bucket_of t k < t.config.capacity) where
  module _ (h n : ℕ → ℕ) (fuel : ℕ) where
    read-eq : (link : Link) → read_link (linked_as t h n) link ≡ read h n link
    read-eq (head b) = refl
    read-eq (after p) = refl

    -- A round of the loop at the record number `cur`.
    abbrev round : Link → ℕ → Option Table
    round link cur =
        let empty = t.status (cur - 1) == rec_empty in
        if cur == 0
        then some (linked_as t h n)
        else unlink_empty_chain
            (if empty then cut (linked_as t h n) link (cur - 1) else linked_as t h n) fuel
            (if empty then link else after (cur - 1))

    opens :
        (link : Link) (cur : ℕ)
        → read h n link ≡ cur
        → unlink_empty_chain (linked_as t h n) (suc fuel) link ≡ round link cur
    unfolding unlink_empty_chain
    opens link cur e = ap (round link) (read-eq link ∙ e)

    chain_end :
        (link : Link)
        → read h n link ≡ 0
        → unlink_empty_chain (linked_as t h n) (suc fuel) link ≡ some (linked_as t h n)
    chain_end link e = opens link 0 e

    chain_cut :
        (link : Link) (r : ℕ)
        → read h n link ≡ suc r
        → t.status r ≡ rec_empty
        → unlink_empty_chain (linked_as t h n) (suc fuel) link
          ≡ unlink_empty_chain (linked_as t (cut_head h n link r) (cut_next n link r)) fuel link
    chain_cut link r e s =
        opens link (suc r) e
        ∙ rw (ne→== (suc r) 0 (omega arith), pred r, (==_iff (t.status r) rec_empty).1 s)
            (ap (λ x. unlink_empty_chain x fuel link) (cut-eq (linked_as t h n) link r))

    chain_pass :
        (link : Link) (r : ℕ)
        → read h n link ≡ suc r
        → t.status r ≢ rec_empty
        → unlink_empty_chain (linked_as t h n) (suc fuel) link
          ≡ unlink_empty_chain (linked_as t h n) fuel (after r)
    chain_pass link r e s =
        opens link (suc r) e
        ∙ rw (ne→== (suc r) 0 (omega arith), pred r, ne→== (t.status r) rec_empty s) refl

  abbrev cap : ℕ
  cap = t.config.capacity

  -- The links hold the chains of the keys `key`.
  abbrev Linked : (ℕ → ℕ) → (ℕ → ℕ) → (ℕ → Option (List ℕ)) → (ℕ → List ℕ) → Type 0
  Linked h n key chain = IsLinked cap (bucket_of t) h n key chain

  -- Keys of empty records are gone, and no others.
  abbrev pub Loses : (ℕ → Option (List ℕ)) → (ℕ → Option (List ℕ)) → Type 0
  Loses key key' = (j : ℕ) → (key' j ≡ key j) ⊎ ((key' j ≡ none) × (t.status j ≡ rec_empty))

  Loses-trans : (f g k : ℕ → Option (List ℕ)) → Loses f g → Loses g k → Loses f k
  Loses-trans f g k a b j = elim (b j) [
    | inl e ↦ elim (a j) [ inl q ↦ inl (e ∙ q) | inr (q, s) ↦ inr (e ∙ q, s) ]
    | inr p ↦ inr p
  ]

  -- What the loop over a bucket's chain leaves: only the chain of that bucket changes, and it has no
  -- empty record.
  abbrev Unlinked : (ℕ → Option (List ℕ)) → (ℕ → List ℕ) → ℕ → Option Table → Type 0
  Unlinked key chain b o =
      (h' : ℕ → ℕ) × (n' : ℕ → ℕ) × (key' : ℕ → Option (List ℕ)) × (chain' : ℕ → List ℕ) × (o
        ≡ some (linked_as t h' n'))
      × Linked h' n' key' chain'
      × Loses key key'
      × ((x : ℕ) → has x (chain' b) ≡ true → t.status x ≢ rec_empty)
      × ((b' : ℕ) → b' ≢ b → chain' b' ≡ chain b')

  forgets :
      (key : ℕ → Option (List ℕ)) (r : ℕ) → t.status r ≡ rec_empty → Loses key (update key r none)
  forgets key r s j = elim (ℕ_discrete j r) [
    | yes q ↦ inr (update_hit key r none j q, ap t.status q ∙ s)
    | no q ↦ inl (update_miss key r none j q)
  ]

  -- The record at the place leaves the chain of the bucket.
  leaves :
      (h n : ℕ → ℕ) (key : ℕ → Option (List ℕ)) (chain : ℕ → List ℕ) (b : ℕ) (link : Link) (r : ℕ)
      (l : List ℕ)
      → b < cap
      → Linked h n key chain
      → Place (head b) (chain b) link (r ∷ l)
      → Linked
          (cut_head h n link r)
          (cut_next n link r)
          (update key r none)
          (update chain b (remove r (chain b)))
  leaves h n key chain b link r l lt v p =
      let (k, here, at_b) = v.member b r lt (Place-has (head b) link (chain b) r l p) in
      let cut_at : ℕ → Link → Type 0 = λ b y.
        Linked (cut_head h n y r) (cut_next n y r) (update key r none)
          (update chain b (remove r (chain b))) in
      subst (cut_at b) (link_to-Place (head b) link (chain b) r l p (v.distinct b lt)) (
        subst (λ b. cut_at b (link_to (head b) (chain b) r)) at_b
          (detach-IsLinked cap (bucket_of t) in_cap h n key chain v r k here))

  unlink_chain_lem :
      (rest : List ℕ) (fuel : ℕ) (h n : ℕ → ℕ) (key : ℕ → Option (List ℕ)) (chain : ℕ → List ℕ)
      (b : ℕ) (link : Link)
      → b < cap
      → length rest < fuel
      → Linked h n key chain
      → Place (head b) (chain b) link rest
      → ((x : ℕ) → has x (chain b) ≡ true → has x rest ≡ false → t.status x ≢ rec_empty)
      → Unlinked key chain b (unlink_empty_chain (linked_as t h n) fuel link)
  unlink_chain_lem rest zero h n key chain b link lt f v p clean = absurd (omega arith)
  unlink_chain_lem [] (suc fuel) h n key chain b link lt f v p clean =
      let c = IsChain-Place h n (head b) link (chain b) [] p (v.linked b lt) in
      (
        h,
        n,
        key,
        chain,
        chain_end h n fuel link c,
        v,
        (λ j. inl refl),
        (λ x m. clean x m (unfold has in refl)),
        (λ b' e. refl),
      )
  unlink_chain_lem (r ∷ l) (suc fuel) h n key chain b link lt f v p clean =
      let c = IsChain-Place h n (head b) link (chain b) (r ∷ l) p (v.linked b lt) in
      elim (ℕ_discrete (t.status r) rec_empty) [
        | yes s ↦
            let n' = cut_next n link r in
            let h' = cut_head h n link r in
            let chain' = update chain b (remove r (chain b)) in
            let here : chain' b ≡ remove r (chain b) =
              update_hit chain b (remove r (chain b)) b refl in
            let d = v.distinct b lt in
            let (h'', n'', key'', chain'', e, w, loses, cleaned, others) =
              unlink_chain_lem l fuel h' n' (update key r none) chain' b link lt (omega arith)
                (leaves h n key chain b link r l lt v p)
                (subst (λ x. Place (head b) x link l) (sym here)
                  (Place-remove (head b) link (chain b) r l p d))
                (λ x m a.
                  let m' = sym (has-remove x r (chain b) d) ∙ sym (ap (has x) here) ∙ m in
                  let q : x ≢ r = ground (arith, m') in
                  clean x (ground (arith, m')) (has_miss x r l q ∙ a)) in
            (
              h'',
              n'',
              key'',
              chain'',
              chain_cut h n fuel link r c.0 s ∙ e,
              w,
              Loses-trans key (update key r none) key'' (forgets key r s) loses,
              cleaned,
              (λ b' q. others b' q ∙ update_miss chain b (remove r (chain b)) b' q),
            )
        | no s ↦
            let (h', n', key', chain', e, w, loses, cleaned, others) =
              unlink_chain_lem l fuel h n key chain b (after r) lt (omega arith) v
                (Place-after (head b) link (chain b) r l p)
                (λ x m a. elim (ℕ_discrete x r) [
                  | yes q ↦ λ z. s (sym (ap t.status q) ∙ z)
                  | no q ↦ clean x m (has_miss x r l q ∙ a)
                ]) in
            (h', n', key', chain', chain_pass h n fuel link r c.0 s ∙ e, w, loses, cleaned, others)
      ]

  -- The loop over the buckets leaves no empty record in a chain.
  unlink_chains_lem :
      (m i : ℕ) (h n : ℕ → ℕ) (key : ℕ → Option (List ℕ)) (chain : ℕ → List ℕ)
      → i + m ≡ cap
      → Linked h n key chain
      → ((b x : ℕ) → b < i → has x (chain b) ≡ true → t.status x ≢ rec_empty)
      → (h' : ℕ → ℕ) × (n' : ℕ → ℕ) × (key' : ℕ → Option (List ℕ)) × (chain' : ℕ → List ℕ)
        × (unlink_empty_chains (linked_as t h n) m i ≡ some (linked_as t h' n'))
        × Linked h' n' key' chain'
        × Loses key key'
        × ((b x : ℕ) → b < cap → has x (chain' b) ≡ true → t.status x ≢ rec_empty)
  unfolding unlink_empty_chains
  unlink_chains_lem zero i h n key chain e v clean =
      (h, n, key, chain, refl, v, (λ j. inl refl), (λ b x l. clean b x (omega arith)))
  unlink_chains_lem (suc m) i h n key chain e v clean =
      let lt : i < cap = omega arith in
      let size = chain_bound cap (bucket_of t) in_cap h n key chain v i lt in
      let (h1, n1, key1, chain1, q, w, loses, cleaned, others) =
        unlink_chain_lem (chain i) (cap + 1) h n key chain i (head i) lt (omega arith) v
          (start (head i) (chain i)) (λ x m f. absurd (ground (arith, m, f))) in
      let on : Option Table → Option Table =
        λ o. elim o [ none ↦ none | some t' ↦ unlink_empty_chains t' m (i + 1) ] in
      let (h2, n2, key2, chain2, q2, w2, loses2, cleaned2) =
        unlink_chains_lem m (i + 1) h1 n1 key1 chain1 (omega arith) w (λ b x l f.
          elim (ℕ_discrete b i) [
            | yes z ↦ cleaned x (sym (ap (λ c. has x (chain1 c)) z) ∙ f)
            | no z ↦ clean b x (omega arith) (sym (ap (has x) (others b z)) ∙ f)
          ]) in
      (h2, n2, key2, chain2, ap on q ∙ q2, w2, Loses-trans key key1 key2 loses loses2, cleaned2)

  -- `hashtable_unlink_empty_chains` on the chains of `key`: it ends, and the chains are those of the
  -- keys of the records that are not empty.
  pub unlink_empty_chains_lem :
      (key key' : ℕ → Option (List ℕ)) (chain : ℕ → List ℕ)
      → Linked t.bucket_head t.next key chain
      → Loses key key'
      → ((j : ℕ) → t.status j ≡ rec_empty → key' j ≡ none)
      → (h' : ℕ → ℕ) × (n' : ℕ → ℕ) × (chain' : ℕ → List ℕ) × (unlink_empty_chains t cap 0
          ≡ some (linked_as t h' n'))
        × Linked h' n' key' chain'
  unlink_empty_chains_lem key key' chain v loses emptied =
      let (h2, n2, key2, chain2, e, w, loses2, clean) =
        unlink_chains_lem cap 0 t.bucket_head t.next key chain (omega arith) v
          (λ b x l f. absurd (omega arith)) in
      let same : (j : ℕ) → key2 j ≡ key' j = λ j. elim (ℕ_discrete (t.status j) rec_empty) [
        | yes s ↦ elim (Option-cases (key2 j)) [
          | inl q ↦ q ∙ sym (emptied j s)
          | inr (k, q) ↦ absurd (clean (bucket_of t k) j (in_cap k) (w.present j k q) s)
        ]
        | no s ↦ elim (loses j) [
          | inr (q, z) ↦ absurd (s z)
          | inl a ↦ elim (loses2 j) [ inr (q, z) ↦ absurd (s z) | inl b ↦ b ∙ sym a ]
        ]
      ] in
      (h2, n2, chain2, e, subst (λ f. Linked h2 n2 f chain2) (fun_ext same) w)
