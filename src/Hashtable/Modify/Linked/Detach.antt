-- ===== src/Hashtable/Modify/Linked/Detach.antt =====
-- Proofs about a record that leaves a chain, by `*link = next[rec]; next[rec] = 0;`.
use app_c_platform.Base.{
  ℕ, ◌<◌, ◌≡◌, ◌≢◌, true, List, Option, none, some, arith, sym, subst, ◌∙◌, ap, ne→==,
}
use native.Mathlib.Decide.{ℕ_discrete}
use mathlib.Core.Option.{none-ne-some}
use app_c_platform.Hashtable.Store.{update, update_hit, update_miss}
use app_c_platform.Hashtable.Table.Chain.{
  has, remove, has_apart, has-remove, Distinct-remove, IsChain-agree,
}
use app_c_platform.Hashtable.Modify.{head}
use app_c_platform.Hashtable.Modify.Links.{
  link_to, cut_head, cut_next, cut_next-same, cut_head-same, IsChain-cut,
}
use app_c_platform.Hashtable.Modify.Linked.{IsLinked, elsewhere}

module _ (cap : ℕ) (bucket : List ℕ → ℕ) (in_cap : (k : List ℕ) → bucket k < cap) (h n : ℕ → ℕ)
    (key : ℕ → Option (List ℕ)) (chain : ℕ → List ℕ) (v : IsLinked cap bucket h n key chain) where
  module _ (i : ℕ) (k : List ℕ) where
    removed : (j : ℕ) (u : List ℕ) → update key i none j ≡ some u → (j ≢ i) × (key j ≡ some u)
    removed j u e = elim (ℕ_discrete j i) [
      | yes q ↦ absurd (none-ne-some u (sym (update_hit key i none j q) ∙ e))
      | no q ↦ (q, sym (update_miss key i none j q) ∙ e)
    ]

    detach_member :
        key i ≡ some k
        → (b j : ℕ) → b < cap
        → has j (update chain (bucket k) (remove i (chain (bucket k))) b) ≡ true
        → (u : List ℕ) × (update key i none j ≡ some u) × (bucket u ≡ b)
    detach_member here b j l p =
        let b0 = bucket k in
        let r = has-remove j i (chain b0) (v.distinct b0 (in_cap k)) in
        let (q, p') : (j ≢ i) × (has j (chain b) ≡ true) = elim (ℕ_discrete b b0) [
          | yes w ↦
              let m =
                sym r ∙ sym (ap (has j) (update_hit chain b0 (remove i (chain b0)) b w)) ∙ p in
              (ground (arith, m), subst (λ c. has j (chain c) ≡ true) (sym w) (ground (arith, m)))
          | no w ↦
              let m = sym (ap (has j) (update_miss chain b0 (remove i (chain b0)) b w)) ∙ p in
              (
                has_apart j i (chain b) m
                    (elsewhere cap bucket in_cap h n key chain v i b k l here w),
                m,
              )
        ] in
        let (u, e, w) = v.member b j l p' in (u, update_miss key i none j q ∙ e, w)

    detach_present :
        (j : ℕ) (u : List ℕ)
        → update key i none j ≡ some u
        → has j (update chain (bucket k) (remove i (chain (bucket k))) (bucket u)) ≡ true
    detach_present j u e =
        let b0 = bucket k in
        let (q, p) = removed j u e in
        elim (ℕ_discrete (bucket u) b0) [
          | yes w ↦
              ap (has j) (update_hit chain b0 (remove i (chain b0)) (bucket u) w)
              ∙ has-remove j i (chain b0) (v.distinct b0 (in_cap k))
              ∙ rw (ne→== j i q) (subst (λ b. has j (chain b) ≡ true) w (v.present j u p))
          | no w ↦
              ap (has j) (update_miss chain b0 (remove i (chain b0)) (bucket u) w) ∙ v.present j u p
        ]

    -- A record leaves the chain of its bucket.
    pub detach-IsLinked :
        key i ≡ some k
        → let b = bucket k in
          let link = link_to (head b) (chain b) i in
          IsLinked cap bucket
            (cut_head h n link i)
            (cut_next n link i)
            (update key i none)
            (update chain b (remove i (chain b)))
    detach-IsLinked here =
        let b0 = bucket k in
        let c = chain b0 in
        let p = v.present i k here in
        record {
          below = λ j u e. v.below j u (removed j u e).1;
          linked = λ b l. elim (ℕ_discrete b b0) [
            | yes q ↦
                rw (update_hit chain b0 (remove i c) b q, q)
                  (IsChain-cut h n i (head b0) c tt (v.distinct b0 (in_cap k)) p
                    (v.linked b0 (in_cap k)))
            | no q ↦
                rw (update_miss chain b0 (remove i c) b q, cut_head-same h n i (head b0) c b q)
                  (IsChain-agree n (cut_next n (link_to (head b0) c i) i) (h b) (chain b)
                    (λ x m.
                      cut_next-same h n i (head b0) c x p
                        (let (u, e, w) = v.member b x l m in
                          elsewhere cap bucket in_cap h n key chain v x b0 u (in_cap k) e
                            (λ z. q (sym (z ∙ w))))
                        tt)
                    (v.linked b l))
          ];
          distinct = λ b l. elim (ℕ_discrete b b0) [
            | yes q ↦
                rw (update_hit chain b0 (remove i c) b q)
                  (Distinct-remove i c (v.distinct b0 (in_cap k)))
            | no q ↦ rw (update_miss chain b0 (remove i c) b q) (v.distinct b l)
          ];
          member = detach_member here;
          present = detach_present;
          unique = λ j j' u e e'. v.unique j j' u (removed j u e).1 (removed j' u e').1;
        }
