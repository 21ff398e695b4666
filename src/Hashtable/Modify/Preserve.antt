-- ===== src/Hashtable/Modify/Preserve.antt =====
-- The steps of hashtable_modify.c that leave the chains alone: the time stamp, a new value for a
-- record, and another status for a record that is not empty.
use app_c_platform.Base.{
  ℕ, ◌+◌, ◌<◌, ◌≡◌, ◌≢◌, ◌↔◌, inl, inr, List, Option, none, some, ◌==◌, ltb, arith, refl, sym, ◌∙◌,
  ap, subst, Bool-cases, add64,
}
use native.Mathlib.Decide.{ℕ_discrete}
use app_c_platform.Timespec.{Timespec}
use app_c_platform.Hashtable.Config.{rec_in_use, rec_empty}
use app_c_platform.Hashtable.Store.{Store, update, update_hit, update_miss}
use app_c_platform.Hashtable.Store.Valid.{IsStore}
use app_c_platform.Hashtable.Table.{Table, value_shape, has_record_timestamp}
use app_c_platform.Hashtable.Table.Counts.{count-update, one_if}
use app_c_platform.Hashtable.Modify.{stamp_record}
use app_c_platform.Hashtable.Modify.Lowest.{FirstEmpty-other}
use app_c_platform.Hashtable.Modify.Valid.{IsTable}

-- The fields that a stamp sets.
abbrev pub restamped : Table → (ℕ → Timespec) → (ℕ → ℕ) → ℕ → Timespec → Table
restamped t f g n now = record t {
  table_generation = n;
  timestamp = f;
  generation = g;
  table_timestamp = now;
}

pub stamp_record-eq :
    (t : Table) (rec : ℕ) (now : Timespec)
    → (f : ℕ → Timespec) × (g : ℕ → ℕ) × (stamp_record t rec now
        ≡ restamped t f g (add64 t.table_generation 1) now)
unfolding stamp_record
stamp_record-eq t rec now = elim (Bool-cases (has_record_timestamp t)) [
  | inl e ↦
      (update t.timestamp rec now, update t.generation rec (add64 t.table_generation 1), rw e refl)
  | inr e ↦ (t.timestamp, t.generation, rw e refl)
]

module _ (t : Table) (chain : ℕ → List ℕ) (key value : ℕ → Option (List ℕ))
    (v : IsTable t chain key value) where
  pub IsTable-restamped :
      (f : ℕ → Timespec) (g : ℕ → ℕ) (n : ℕ) (now : Timespec)
      → IsTable (restamped t f g n now) chain key value
  IsTable-restamped f g n now = record {
    roomy = v.roomy;
    small = v.small;
    keys = v.keys;
    values = v.values;
    status_key = v.status_key;
    status_value = v.status_value;
    linked = v.linked;
    in_use = v.in_use;
    deleted = v.deleted;
    lowest = v.lowest;
  }

  pub stamp_record-IsTable :
      (rec : ℕ) (now : Timespec) → IsTable (stamp_record t rec now) chain key value
  stamp_record-IsTable rec now =
      let (f, g, e) = stamp_record-eq t rec now in
      subst (λ x. IsTable x chain key value) (sym e)
        (IsTable-restamped f g (add64 t.table_generation 1) now)

  -- A record that is not empty gets another value.
  pub IsTable-value :
      (i : ℕ) (u : List ℕ) (st : Store)
      → t.status i ≢ rec_empty
      → IsStore (value_shape t.config) st (update value i (some u))
      → IsTable (record t { values = st }) chain key (update value i (some u))
  IsTable-value i u st n s = record {
    roomy = v.roomy;
    small = v.small;
    keys = v.keys;
    values = s;
    status_key = v.status_key;
    status_value = λ j. elim (ℕ_discrete j i) [
      | yes q ↦ (
        (λ e. absurd (n (sym (ap t.status q) ∙ e))),
        λ e. absurd (let z = update_hit value i (some u) j q in cc),
      )
      | no q ↦ rw (update_miss value i (some u) j q) (v.status_value j)
    ];
    linked = v.linked;
    in_use = v.in_use;
    deleted = v.deleted;
    lowest = v.lowest;
  }

  -- A record that is not empty gets another status than empty, and the counters follow.
  pub IsTable-status :
      (i s a d : ℕ)
      → i < t.config.capacity
      → t.status i ≢ rec_empty
      → s ≢ rec_empty
      → a + one_if (t.status i == rec_in_use) ≡ t.in_use_count + one_if (s == rec_in_use)
      → d + one_if (ltb rec_in_use (t.status i)) ≡ t.deleted_count + one_if (ltb rec_in_use s)
      → IsTable
          (record t { status = update t.status i s; in_use_count = a; deleted_count = d })
          chain
          key
          value
  IsTable-status i s a d l n m p q = record {
    roomy = v.roomy;
    small = v.small;
    keys = v.keys;
    values = v.values;
    status_key = λ j. changed_status j (key j) (v.status_key j);
    status_value = λ j. changed_status j (value j) (v.status_value j);
    linked = v.linked;
    in_use =
        omega (
          arith,
          v.in_use,
          p,
          count-update (λ x. x == rec_in_use) t.status i s t.config.capacity l,
        );
    deleted = omega (
      arith,
      v.deleted,
      q,
      count-update (λ x. ltb rec_in_use x) t.status i s t.config.capacity l,
    );
    lowest = FirstEmpty-other t.status t.config.capacity t.next_empty i v.lowest l s m lowest_other;
  }
    where
      changed_status :
          (j : ℕ) (o : Option (List ℕ))
          → ((t.status j ≡ rec_empty) ↔ (o ≡ none))
          → ((update t.status i s j ≡ rec_empty) ↔ (o ≡ none))
      changed_status j o w = elim (ℕ_discrete j i) [
        | yes e ↦ (
          (λ z. absurd (m (sym (update_hit t.status i s j e) ∙ z))),
          λ z. absurd (n (sym (ap t.status e) ∙ w.1 z)),
        )
        | no e ↦ rw (update_miss t.status i s j e) w
      ]

      lowest_other : i + 1 ≢ t.next_empty
      lowest_other e = elim v.lowest [
        | inl (z, all) ↦ omega arith
        | inr (r, z, x, b, c, all) ↦ let q' : i ≡ r = omega arith in n (ap t.status q' ∙ c)
      ]
