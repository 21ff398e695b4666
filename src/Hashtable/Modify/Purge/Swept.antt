-- ===== src/Hashtable/Modify/Purge/Swept.antt =====
-- The records while `cplat_hashtable_push_deleted` and `cplat_hashtable_purge_deleted` go over them:
-- deleted records age or become empty, and the others stay as they are.
use app_c_platform.Base.{
  ℕ, ◌+◌, ◌<◌, ◌≡◌, ◌≢◌, ◌↔◌, ◌⊎◌, inl, inr, List, Option, none, some, ltb, ◌==◌, arith, refl, sym,
  ◌∙◌, ap, ne→==, lt→ltb, Option-cases,
}
use native.Mathlib.Decide.{ℕ_discrete}
use mathlib.Core.Option.{none-ne-some}
use app_c_platform.Timespec.{Timespec}
use app_c_platform.Hashtable.Config.{rec_empty, rec_in_use}
use app_c_platform.Hashtable.Store.{Store, update, update_hit, update_miss, release}
use app_c_platform.Hashtable.Store.Valid.{IsStore}
use app_c_platform.Hashtable.Store.Laws.{release-IsStore}
use app_c_platform.Hashtable.Table.{Table, key_shape, value_shape}
use app_c_platform.Hashtable.Table.Counts.{count, count-update, one_if}
use app_c_platform.Hashtable.Modify.Valid.{IsTable}
use app_c_platform.Hashtable.Modify.View.{Maps}

-- The table with other records under the same links.
abbrev pub swept_as : Table → (ℕ → ℕ) → Store → Store → (ℕ → Timespec) → (ℕ → ℕ) → Table
swept_as t st ks vs f g = record t {
  status = st;
  keys = ks;
  values = vs;
  timestamp = f;
  generation = g;
}

module _ (t : Table) (chain : ℕ → List ℕ) (key value : ℕ → Option (List ℕ))
    (v : IsTable t chain key value) where
  abbrev cap : ℕ
  cap = t.config.capacity

  -- After `n` records became empty. A field is that of the table, or gone with its record.
  pub record IsSwept (st : ℕ → ℕ) (ks vs : Store) (key' value' : ℕ → Option (List ℕ)) (n : ℕ)
      : Type 0 where
    pub keys : IsStore (key_shape t.config) ks key'
    pub values : IsStore (value_shape t.config) vs value'
    pub status_key : (j : ℕ) → (st j ≡ rec_empty) ↔ (key' j ≡ none)
    pub status_value : (j : ℕ) → (st j ≡ rec_empty) ↔ (value' j ≡ none)
    pub loses : (j : ℕ) → (key' j ≡ key j) ⊎ ((key' j ≡ none) × (st j ≡ rec_empty))
    pub keeps : (j : ℕ) → (value' j ≡ value j) ⊎ ((value' j ≡ none) × (st j ≡ rec_empty))
    pub used : (j : ℕ) → (st j ≡ rec_in_use) ↔ (t.status j ≡ rec_in_use)
    pub in_use : count (λ s. s == rec_in_use) st cap ≡ count (λ s. s == rec_in_use) t.status cap
    pub deleted :
        count (λ s. ltb rec_in_use s) st cap + n ≡ count (λ s. ltb rec_in_use s) t.status cap

  pub start-IsSwept : IsSwept t.status t.keys t.values key value 0
  start-IsSwept = record {
    keys = v.keys;
    values = v.values;
    status_key = v.status_key;
    status_value = v.status_value;
    loses = λ j. inl refl;
    keeps = λ j. inl refl;
    used = λ j. ((λ e. e), λ e. e);
    in_use = refl;
    deleted = omega arith;
  }

  module _ (st : ℕ → ℕ) (ks vs : Store) (key' value' : ℕ → Option (List ℕ)) (n : ℕ)
      (w : IsSwept st ks vs key' value' n) (i : ℕ) (below : i < cap) (old : rec_in_use < st i) where
    -- A status above that of a record in use is given.
    other_used :
        (s : ℕ)
        → s ≢ rec_in_use
        → (j : ℕ) → (update st i s j ≡ rec_in_use) ↔ (t.status j ≡ rec_in_use)
    other_used s q j = elim (ℕ_discrete j i) [
      | yes e ↦ (
        (λ z. absurd (q (sym (update_hit st i s j e) ∙ z))),
        λ z. absurd (let u = (w.used j).1 z in let m = ap st e in omega arith),
      )
      | no e ↦ rw (update_miss st i s j e) (w.used j)
    ]

    stays :
        (s : ℕ)
        → s ≢ rec_empty
        → (o o' : ℕ → Option (List ℕ))
        → ((j : ℕ) → (o' j ≡ o j) ⊎ ((o' j ≡ none) × (st j ≡ rec_empty)))
        → (j : ℕ) → (o' j ≡ o j) ⊎ ((o' j ≡ none) × (update st i s j ≡ rec_empty))
    stays s q o o' h j = elim (h j) [
      | inl e ↦ inl e
      | inr (e, z) ↦ elim (ℕ_discrete j i) [
        | yes p ↦ absurd (let m = ap st p in omega arith)
        | no p ↦ inr (e, update_miss st i s j p ∙ z)
      ]
    ]

    same_empty :
        (s : ℕ)
        → s ≢ rec_empty
        → (o : ℕ → Option (List ℕ)) → ((j : ℕ) → (st j ≡ rec_empty) ↔ (o j ≡ none))
        → (j : ℕ) → (update st i s j ≡ rec_empty) ↔ (o j ≡ none)
    same_empty s q o h j = elim (ℕ_discrete j i) [
      | yes e ↦ (
        (λ z. absurd (q (sym (update_hit st i s j e) ∙ z))),
        λ z. absurd (let u = (h j).1 z in let m = ap st e in omega arith),
      )
      | no e ↦ rw (update_miss st i s j e) (h j)
    ]

    -- The record ages.
    pub aged-IsSwept : (s : ℕ) → rec_in_use < s → IsSwept (update st i s) ks vs key' value' n
    aged-IsSwept s q = record {
      keys = w.keys;
      values = w.values;
      status_key = same_empty s (omega arith) key' w.status_key;
      status_value = same_empty s (omega arith) value' w.status_value;
      loses = stays s (omega arith) key key' w.loses;
      keeps = stays s (omega arith) value value' w.keeps;
      used = other_used s (omega arith);
      in_use =
          let c = count-update (λ x. x == rec_in_use) st i s cap below in
          omega (
            arith,
            w.in_use,
            c,
            ap one_if (ne→== (st i) rec_in_use (omega arith)),
            ap one_if (ne→== s rec_in_use (omega arith)),
          );
      deleted =
          let c = count-update (λ x. ltb rec_in_use x) st i s cap below in
          omega (
            arith,
            w.deleted,
            c,
            ap one_if (lt→ltb rec_in_use (st i) old),
            ap one_if (lt→ltb rec_in_use s q),
          );
    }

    gone :
        (o o' : ℕ → Option (List ℕ))
        → ((j : ℕ) → (o' j ≡ o j) ⊎ ((o' j ≡ none) × (st j ≡ rec_empty)))
        → (j : ℕ)
        → (update o' i none j ≡ o j)
          ⊎ ((update o' i none j ≡ none) × (update st i rec_empty j ≡ rec_empty))
    gone o o' h j = elim (ℕ_discrete j i) [
      | yes e ↦ inr (update_hit o' i none j e, update_hit st i rec_empty j e)
      | no e ↦ elim (h j) [
        | inl q ↦ inl (update_miss o' i none j e ∙ q)
        | inr (q, z) ↦ inr (update_miss o' i none j e ∙ q, update_miss st i rec_empty j e ∙ z)
      ]
    ]

    emptied :
        (o : ℕ → Option (List ℕ))
        → ((j : ℕ) → (st j ≡ rec_empty) ↔ (o j ≡ none))
        → (j : ℕ) → (update st i rec_empty j ≡ rec_empty) ↔ (update o i none j ≡ none)
    emptied o h j = elim (ℕ_discrete j i) [
      | yes e ↦ ((λ z. update_hit o i none j e), λ z. update_hit st i rec_empty j e)
      | no e ↦ rw (update_miss st i rec_empty j e, update_miss o i none j e) (h j)
    ]

    field_of :
        (o : ℕ → Option (List ℕ))
        → ((j : ℕ) → (st j ≡ rec_empty) ↔ (o j ≡ none))
        → (u : List ℕ) × (o i ≡ some u)
    field_of o h = elim (Option-cases (o i)) [
      | inl e ↦ absurd (let z = (h i).1 e in omega arith)
      | inr p ↦ p
    ]

    -- The record becomes empty.
    pub expired-IsSwept :
        IsSwept
          (update st i rec_empty)
          (release (key_shape t.config) ks i)
          (release (value_shape t.config) vs i)
          (update key' i none)
          (update value' i none)
          (n + 1)
    expired-IsSwept =
        let (a, p) = field_of key' w.status_key in
        let (b, q) = field_of value' w.status_value in
        record {
          keys = release-IsStore (key_shape t.config) ks key' w.keys i a p;
          values = release-IsStore (value_shape t.config) vs value' w.values i b q;
          status_key = emptied key' w.status_key;
          status_value = emptied value' w.status_value;
          loses = gone key key' w.loses;
          keeps = gone value value' w.keeps;
          used = other_used rec_empty (omega arith);
          in_use =
              let c = count-update (λ x. x == rec_in_use) st i rec_empty cap below in
              omega (arith, w.in_use, c, ap one_if (ne→== (st i) rec_in_use (omega arith)));
          deleted =
              let c = count-update (λ x. ltb rec_in_use x) st i rec_empty cap below in
              omega (arith, w.deleted, c, ap one_if (lt→ltb rec_in_use (st i) old));
        }

  -- The map is that of the table.
  pub Maps-swept :
      (t' : Table) (ks vs : Store) (key' value' : ℕ → Option (List ℕ)) (n : ℕ)
      → IsSwept t'.status ks vs key' value' n
      → (k u : List ℕ) → Maps t' key' value' k u ↔ Maps t key value k u
  Maps-swept t' ks vs key' value' n w k u = (
    (λ (i, p, q, s). elim (w.loses i) [
      | inl a ↦ elim (w.keeps i) [
        | inl b ↦ (i, sym a ∙ p, sym b ∙ q, (w.used i).0 s)
        | inr (b, z) ↦ absurd (none-ne-some u (sym b ∙ q))
      ]
      | inr (a, z) ↦ absurd (none-ne-some k (sym a ∙ p))
    ]),
    (λ (i, p, q, s).
        let s' = (w.used i).1 s in
        elim (w.loses i) [
          | inl a ↦ elim (w.keeps i) [
            | inl b ↦ (i, a ∙ p, b ∙ q, s')
            | inr (b, z) ↦ absurd (omega arith)
          ]
          | inr (a, z) ↦ absurd (omega arith)
        ]),
  )
