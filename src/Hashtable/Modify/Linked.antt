-- ===== src/Hashtable/Modify/Linked.antt =====
-- The chains of all buckets: each record with a key stands once in the chain of its key's bucket.
pub mod Attach
pub mod Detach
use app_c_platform.Base.{
  ℕ, ◌+◌, ◌<◌, ◌≤◌, ◌≡◌, ◌≢◌, ◌⊎◌, inl, inr, true, false, List, ◌∷◌, Option, none, some, length,
  arith, refl, sym, subst, ◌∙◌, ap, ne→==, Bool-cases,
}
use native.Mathlib.Decide.{ℕ_discrete}
use mathlib.Core.Option.{some-injective, none-ne-some}
use app_c_platform.Hashtable.Store.{update, update_hit, update_miss}
use app_c_platform.Hashtable.Table.Chain.{
  IsChain, has, Distinct, remove, has_here, has_there, has_miss, has_apart, has-remove,
  Distinct-remove, length_bound, IsChain-agree,
}
use app_c_platform.Hashtable.Modify.{head}
use app_c_platform.Hashtable.Modify.Links.{
  link_to, cut_head, cut_next, cut_next-same, cut_head-same, IsChain-cut,
}

pub record IsLinked (cap : ℕ) (bucket : List ℕ → ℕ) (h n : ℕ → ℕ) (key : ℕ → Option (List ℕ))
    (chain : ℕ → List ℕ) : Type 0 where
  pub below : (i : ℕ) (k : List ℕ) → key i ≡ some k → i < cap
  pub linked : (b : ℕ) → b < cap → IsChain n (h b) (chain b)
  pub distinct : (b : ℕ) → b < cap → Distinct (chain b)
  pub member :
      (b i : ℕ)
      → b < cap
      → has i (chain b) ≡ true
      → (k : List ℕ) × (key i ≡ some k) × (bucket k ≡ b)
  pub present : (i : ℕ) (k : List ℕ) → key i ≡ some k → has i (chain (bucket k)) ≡ true
  pub unique : (i j : ℕ) (k : List ℕ) → key i ≡ some k → key j ≡ some k → i ≡ j

module _ (cap : ℕ) (bucket : List ℕ → ℕ) (in_cap : (k : List ℕ) → bucket k < cap) (h n : ℕ → ℕ)
    (key : ℕ → Option (List ℕ)) (chain : ℕ → List ℕ) (v : IsLinked cap bucket h n key chain) where
  -- A record without a key is in no chain.
  pub absent : (i b : ℕ) → b < cap → key i ≡ none → has i (chain b) ≡ false
  absent i b l e = elim (Bool-cases (has i (chain b))) [
    | inl p ↦ let (k, q, r) = v.member b i l p in cc
    | inr p ↦ p
  ]

  -- A record with a key of another bucket is not in the chain.
  pub elsewhere :
      (i b : ℕ) (k : List ℕ) → b < cap → key i ≡ some k → b ≢ bucket k → has i (chain b) ≡ false
  elsewhere i b k l e g = elim (Bool-cases (has i (chain b))) [
    | inl p ↦
        let (k', q, r) = v.member b i l p in
        absurd (g (sym r ∙ ap bucket (some-injective k' k (sym q ∙ e))))
    | inr p ↦ p
  ]

  -- A chain is not longer than the table.
  pub chain_bound : (b : ℕ) → b < cap → length (chain b) ≤ cap
  chain_bound b l =
      length_bound cap (chain b) (v.distinct b l)
        (λ x p. let (k, q, r) = v.member b x l p in v.below x k q)
