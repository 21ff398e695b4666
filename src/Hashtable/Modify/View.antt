-- ===== src/Hashtable/Modify/View.antt =====
-- A table as a finite map from keys to values, and the queries by key as lookups in it.
use app_c_platform.Base.{
  ℕ, suc, ◌≡◌, ◌≢◌, ◌↔◌, ◌⊎◌, inl, inr, true, List, Option, some, ◌==◌, arith, refl, sym, ◌∙◌, ap,
  ==_iff, ne→==, if◌then◌else◌, Option-cases,
}
use native.Mathlib.Decide.{ℕ_discrete}
use mathlib.Core.Option.{some-injective}
use app_c_platform.Hashtable.Config.{not_found, rec_in_use}
use app_c_platform.Hashtable.Store.{hashtable_key_fits}
use app_c_platform.Hashtable.Store.Laws.{stored-eq}
use app_c_platform.Hashtable.Table.{Table, ok, err, key_shape, value_shape, find_record}
use app_c_platform.Hashtable.Query.{find_recno, find_value_ref}
use app_c_platform.Hashtable.Modify.Valid.{IsTable, pred}
use app_c_platform.Hashtable.Modify.Lookup.{find_record_lem}

-- The key is in use with that value.
abbrev pub Maps : Table → (ℕ → Option (List ℕ)) → (ℕ → Option (List ℕ)) → List ℕ → List ℕ → Type 0
Maps t key value k u = (i : ℕ) × (key i ≡ some k) × (value i ≡ some u) × (t.status i ≡ rec_in_use)

module _ (t : Table) (chain : ℕ → List ℕ) (key value : ℕ → Option (List ℕ))
    (v : IsTable t chain key value) (k : List ℕ) where
  found_at :
      (i : ℕ)
      → hashtable_key_fits (key_shape t.config) k ≡ true
      → find_record t k ≡ some (suc i)
      → find_recno t k ≡ (if t.status i == rec_in_use then ok (suc i) else err not_found)
  unfolding find_recno
  found_at i f e = rw (f, e) (rw (ne→== (suc i) 0 (omega arith), pred i) refl)

  missing :
      hashtable_key_fits (key_shape t.config) k ≡ true
      → find_record t k ≡ some 0
      → find_recno t k ≡ err not_found
  unfolding find_recno
  missing f e = rw (f, e) refl

  -- `cplat_hashtable_find_recno` on a key of a valid length answers with the number of the record in
  -- use that has the key, or with not-found where no record in use has it.
  pub find_recno_lem :
      hashtable_key_fits (key_shape t.config) k ≡ true
      → ((i : ℕ) × (find_recno t k ≡ ok (suc i)) × (key i ≡ some k) × (t.status i ≡ rec_in_use))
        ⊎ ((find_recno t k ≡ err not_found) × ((i : ℕ) → key i ≡ some k → t.status i ≢ rec_in_use))
  find_recno_lem f = elim (find_record_lem t chain key value v k) [
    | inl (e, a) ↦ inr (missing f e, λ i p. absurd (a i p))
    | inr (i, e, p) ↦ elim (ℕ_discrete (t.status i) rec_in_use) [
      | yes s ↦ inl (i, found_at i f e ∙ rw ((==_iff (t.status i) rec_in_use).1 s) refl, p, s)
      | no s ↦ inr (
        found_at i f e ∙ rw (ne→== (t.status i) rec_in_use s) refl,
        λ j q w. s (ap t.status (v.linked.unique i j k p q) ∙ w),
      )
    ]
  ]

  pub value_of : (i : ℕ) → t.status i ≡ rec_in_use → (u : List ℕ) × (value i ≡ some u)
  value_of i s = elim (Option-cases (value i)) [
    | inl e ↦ absurd (let z = (v.status_value i).1 e in omega arith)
    | inr p ↦ p
  ]

  -- `cplat_hashtable_find_value_ref` on a table that satisfies the invariant, for a key of a valid
  -- length, answers with the value that the key is mapped to, or with not-found where it is mapped to
  -- none.
  pub find_value_ref_lem :
      hashtable_key_fits (key_shape t.config) k ≡ true
      → ((u : List ℕ) × (find_value_ref t k ≡ ok u) × Maps t key value k u)
        ⊎ ((find_value_ref t k ≡ err not_found) × ((u : List ℕ) → ¬ Maps t key value k u))
  unfolding find_value_ref
  find_value_ref_lem f = elim (find_recno_lem f) [
    | inl (i, e, p, s) ↦
        let (u, w) = value_of i s in
        inl (
          u,
          rw e (
              rw (pred i) (ap ok (stored-eq (value_shape t.config) t.values value v.values i u w))),
          (i, p, w, s),
        )
    | inr (e, a) ↦ inr (rw e refl, λ u (i, p, w, s). a i p s)
  ]

  -- The record of the key is no longer in use, and no other record changes.
  pub Maps-without :
      (i : ℕ) (t' : Table) (key' value' : ℕ → Option (List ℕ))
      → key i ≡ some k
      → t'.status i ≢ rec_in_use
      → ((j : ℕ) → j ≢ i → (t'.status j ≡ t.status j) × (key' j ≡ key j) × (value' j ≡ value j))
      → (k' u' : List ℕ) → Maps t' key' value' k' u' ↔ ((k' ≢ k) × Maps t key value k' u')
  Maps-without i t' key' value' here out same k' u' = (
    (λ (j, p, w, s). elim (ℕ_discrete j i) [
      | yes q ↦ absurd (out (ap t'.status (sym q) ∙ s))
      | no q ↦
          let (a, b, c) = same j q in
          (
            (λ e. q (v.linked.unique j i k (sym b ∙ p ∙ ap some e) here)),
            (j, sym b ∙ p, sym c ∙ w, sym a ∙ s),
          )
    ]),
    (λ (n, (j, p, w, s)). elim (ℕ_discrete j i) [
      | yes q ↦ absurd (n (some-injective k' k (sym p ∙ ap key q ∙ here)))
      | no q ↦ let (a, b, c) = same j q in (j, b ∙ p, c ∙ w, a ∙ s)
    ]),
  )

  -- The record of the key is in use with the value `u`, and no other record in use changes.
  pub Maps-with :
      (i : ℕ) (u : List ℕ) (t' : Table) (key' value' : ℕ → Option (List ℕ))
      → ((j : ℕ) → key j ≡ some k → j ≡ i)
      → t.status i ≢ rec_in_use ⊎ (key i ≡ some k)
      → (key' i ≡ some k) × (value' i ≡ some u) × (t'.status i ≡ rec_in_use)
      → ((j : ℕ) → j ≢ i → (t'.status j ≡ t.status j) × (key' j ≡ key j) × (value' j ≡ value j))
      → (k' u' : List ℕ)
      → Maps t' key' value' k' u' ↔ (((k' ≡ k) × (u' ≡ u)) ⊎ ((k' ≢ k) × Maps t key value k' u'))
  Maps-with i u t' key' value' only was (a, b, c) same k' u' = (
    (λ (j, p, w, s). elim (ℕ_discrete j i) [
      | yes q ↦ inl (
        some-injective k' k (sym p ∙ ap key' q ∙ a),
        some-injective u' u (sym w ∙ ap value' q ∙ b),
      )
      | no q ↦
          let (x, y, z) = same j q in
          inr ((λ e. q (only j (sym y ∙ p ∙ ap some e))), (j, sym y ∙ p, sym z ∙ w, sym x ∙ s))
    ]),
    (λ h. elim h [
      | inl (e, r) ↦ (i, a ∙ ap some (sym e), b ∙ ap some (sym r), c)
      | inr (n, (j, p, w, s)) ↦ elim (ℕ_discrete j i) [
        | yes q ↦ absurd (elim was [
          | inl o ↦ o (ap t.status (sym q) ∙ s)
          | inr o ↦ n (some-injective k' k (sym p ∙ ap key q ∙ o))
        ])
        | no q ↦ let (x, y, z) = same j q in (j, y ∙ p, z ∙ w, x ∙ s)
      ]
    ]),
  )
