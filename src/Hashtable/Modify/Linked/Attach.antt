-- ===== src/Hashtable/Modify/Linked/Attach.antt =====
-- Proofs about a record that becomes the head of a chain: `next[rec] = head; head = rec + 1;`.
use app_c_platform.Base.{
  ℕ, ◌+◌, ◌<◌, ◌≡◌, ◌≢◌, ◌⊎◌, inl, inr, true, List, ◌∷◌, Option, none, some, arith, refl, sym,
  subst, ◌∙◌, ap,
}
use native.Mathlib.Decide.{ℕ_discrete}
use mathlib.Core.Option.{some-injective}
use app_c_platform.Hashtable.Store.{update, update_hit, update_miss}
use app_c_platform.Hashtable.Table.Chain.{
  has, has_here, has_there, has_miss, has_apart, IsChain-agree,
}
use app_c_platform.Hashtable.Modify.Linked.{IsLinked, absent}

module _ (cap : ℕ) (bucket : List ℕ → ℕ) (in_cap : (k : List ℕ) → bucket k < cap) (h n : ℕ → ℕ)
    (key : ℕ → Option (List ℕ)) (chain : ℕ → List ℕ) (v : IsLinked cap bucket h n key chain) where
  module _ (i : ℕ) (k : List ℕ) where
    added :
        (j : ℕ) (u : List ℕ)
        → update key i (some k) j ≡ some u
        → ((j ≡ i) × (k ≡ u)) ⊎ ((j ≢ i) × (key j ≡ some u))
    added j u e = elim (ℕ_discrete j i) [
      | yes q ↦ inl (q, some-injective k u (sym (update_hit key i (some k) j q) ∙ e))
      | no q ↦ inr (q, sym (update_miss key i (some k) j q) ∙ e)
    ]

    attach_member :
        key i ≡ none
        → (b j : ℕ) → b < cap
        → has j (update chain (bucket k) (i ∷ chain (bucket k)) b) ≡ true
        → (u : List ℕ) × (update key i (some k) j ≡ some u) × (bucket u ≡ b)
    attach_member vacant b j l p = elim (ℕ_discrete j i) [
      | yes q ↦ elim (ℕ_discrete b (bucket k)) [
        | yes r ↦ (k, update_hit key i (some k) j q, sym r)
        | no r ↦
            let p' =
              sym (ap (has j) (update_miss chain (bucket k) (i ∷ chain (bucket k)) b r)) ∙ p in
            absurd
              (has_apart j i (chain b) p' (absent cap bucket in_cap h n key chain v i b l vacant) q)
      ]
      | no q ↦
          let p' : has j (chain b) ≡ true = elim (ℕ_discrete b (bucket k)) [
            | yes r ↦
                subst (λ c. has j (chain c) ≡ true) (sym r)
                  (sym (has_miss j i (chain (bucket k)) q)
                    ∙ sym (ap (has j) (update_hit chain (bucket k) (i ∷ chain (bucket k)) b r))
                    ∙ p)
            | no r ↦ sym (ap (has j) (update_miss chain (bucket k) (i ∷ chain (bucket k)) b r)) ∙ p
          ] in
          let (u, e, r) = v.member b j l p' in (u, update_miss key i (some k) j q ∙ e, r)
    ]

    attach_present :
        (j : ℕ) (u : List ℕ)
        → update key i (some k) j ≡ some u
        → has j (update chain (bucket k) (i ∷ chain (bucket k)) (bucket u)) ≡ true
    attach_present j u e = elim (added j u e) [
      | inl (q, r) ↦
          ap (has j)
            (update_hit chain (bucket k) (i ∷ chain (bucket k)) (bucket u) (ap bucket (sym r)))
          ∙ subst (λ x. has j (x ∷ chain (bucket k)) ≡ true) q (has_here j (chain (bucket k)))
      | inr (q, r) ↦ elim (ℕ_discrete (bucket u) (bucket k)) [
        | yes w ↦
            ap (has j) (update_hit chain (bucket k) (i ∷ chain (bucket k)) (bucket u) w)
            ∙ has_there j i (chain (bucket k))
                (subst (λ b. has j (chain b) ≡ true) w (v.present j u r))
        | no w ↦
            ap (has j) (update_miss chain (bucket k) (i ∷ chain (bucket k)) (bucket u) w)
            ∙ v.present j u r
      ]
    ]

    attach_unique :
        ((j : ℕ) → key j ≢ some k)
        → (j j' : ℕ) (u : List ℕ) → update key i (some k) j ≡ some u
        → update key i (some k) j' ≡ some u
        → j ≡ j'
    attach_unique fresh j j' u e e' = elim (added j u e) [
      | inl (q, r) ↦ elim (added j' u e') [
        | inl (q', r') ↦ q ∙ sym q'
        | inr (q', r') ↦ absurd (fresh j' (r' ∙ ap some (sym r)))
      ]
      | inr (q, r) ↦ elim (added j' u e') [
        | inl (q', r') ↦ absurd (fresh j (r ∙ ap some (sym r')))
        | inr (q', r') ↦ v.unique j j' u r r'
      ]
    ]

    -- A new record becomes the head of its bucket.
    pub attach-IsLinked :
        i < cap
        → key i ≡ none
        → ((j : ℕ) → key j ≢ some k)
        → let b = bucket k in
          IsLinked cap bucket
            (update h b (i + 1))
            (update n i (h b))
            (update key i (some k))
            (update chain b (i ∷ chain b))
    attach-IsLinked small vacant fresh =
        let b0 = bucket k in
        record {
          below = λ j u e. elim (ℕ_discrete j i) [
            | yes q ↦ subst (λ x. x < cap) (sym q) small
            | no q ↦ v.below j u (sym (update_miss key i (some k) j q) ∙ e)
          ];
          linked = λ b l. elim (ℕ_discrete b b0) [
            | yes q ↦
                rw
                  (
                    update_hit h b0 (i + 1) b q,
                    update_hit chain b0 (i ∷ chain b0) b q,
                    update_hit n i (h b0) i refl,
                  )
                  (
                    omega arith,
                    IsChain-agree n (update n i (h b0)) (h b0) (chain b0)
                        (λ x p. update_miss n i (h b0) x (
                          has_apart x i (chain b0) p
                            (absent cap bucket in_cap h n key chain v i b0 (in_cap k) vacant)))
                        (v.linked b0 (in_cap k)),
                  )
            | no q ↦
                rw (update_miss h b0 (i + 1) b q, update_miss chain b0 (i ∷ chain b0) b q)
                  (IsChain-agree n (update n i (h b0)) (h b) (chain b)
                    (λ x p. update_miss n i (h b0) x (
                      has_apart x i (chain b) p
                        (absent cap bucket in_cap h n key chain v i b l vacant)))
                    (v.linked b l))
          ];
          distinct = λ b l. elim (ℕ_discrete b b0) [
            | yes q ↦ rw (update_hit chain b0 (i ∷ chain b0) b q) (
              absent cap bucket in_cap h n key chain v i b0 (in_cap k) vacant,
              v.distinct b0 (in_cap k),
            )
            | no q ↦ rw (update_miss chain b0 (i ∷ chain b0) b q) (v.distinct b l)
          ];
          member = attach_member vacant;
          present = attach_present;
          unique = attach_unique fresh;
        }
