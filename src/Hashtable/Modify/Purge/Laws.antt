-- ===== src/Hashtable/Modify/Purge/Laws.antt =====
-- `cplat_hashtable_push_deleted` and `cplat_hashtable_purge_deleted` of hashtable_modify.c as a whole.
use app_c_platform.Base.{
  ℕ, ◌<◌, ◌≡◌, inl, false, List, Option, none, some, ltb, sub64, sub64-eq, arith, refl, sym, ◌∙◌,
  ap,
}
use app_c_platform.Timespec.{Timespec}
use app_c_platform.Hashtable.Config.{rec_in_use}
use app_c_platform.Hashtable.Store.{Store}
use app_c_platform.Hashtable.Table.{Table, bucket_of}
use app_c_platform.Hashtable.Table.Counts.{count, count_bound, count_none, FirstEmpty}
use app_c_platform.Hashtable.Modify.Deletion.{Becomes}
use app_c_platform.Hashtable.Modify.Linked.{IsLinked}
use app_c_platform.Hashtable.Modify.Lookup.{in_cap}
use app_c_platform.Hashtable.Modify.Purge.{
  Sweep, age, purge, sweep, start, unlink_empty_chains, push_deleted, purge_deleted,
}
use app_c_platform.Hashtable.Modify.Purge.Unlink.{linked_as, unlink_empty_chains_lem}
use app_c_platform.Hashtable.Modify.Purge.Swept.{swept_as, IsSwept, start-IsSwept, Maps-swept}
use app_c_platform.Hashtable.Modify.Purge.Rounds.{
  older, purged, Swept, sweep_lem, purge-Swept, age-Swept,
}
use app_c_platform.Hashtable.Modify.Valid.{IsTable}
use app_c_platform.Hashtable.Modify.View.{Maps}

module _ (t : Table) (chain : ℕ → List ℕ) (key value : ℕ → Option (List ℕ))
    (v : IsTable t chain key value) where
  abbrev cap : ℕ
  cap = t.config.capacity

  -- What a call leaves: a table of the same map, whose records have come to their status.
  abbrev pub Cleaned : (ℕ → ℕ) → Option Table → Type 0
  Cleaned target o =
      (t' : Table) × (o ≡ some t')
      × Becomes t' (Maps t key value)
      × ((i : ℕ) → i < cap → t'.status i ≡ target (t.status i))

  module _ (st : ℕ → ℕ) (ks vs : Store) (f : ℕ → Timespec) (g : ℕ → ℕ)
      (key' value' : ℕ → Option (List ℕ)) (n ne d : ℕ)
      (w : IsSwept t chain key value v st ks vs key' value' n) (lowest : FirstEmpty st 0 cap ne)
      (left : d ≡ count (λ s. ltb rec_in_use s) st cap) where
    abbrev finished : (ℕ → ℕ) → (ℕ → ℕ) → Table
    finished h' n' = record (linked_as (swept_as t st ks vs f g) h' n') {
      next_empty = ne;
      deleted_count = d;
    }

    finished-IsTable :
        (h' n' : ℕ → ℕ) (chain' : ℕ → List ℕ)
        → IsLinked cap (bucket_of t) h' n' key' chain'
        → IsTable (finished h' n') chain' key' value'
    finished-IsTable h' n' chain' l = record {
      roomy = v.roomy;
      small = v.small;
      keys = w.keys;
      values = w.values;
      status_key = w.status_key;
      status_value = w.status_value;
      linked = l;
      in_use = v.in_use ∙ sym w.in_use;
      deleted = left;
      lowest = lowest;
    }

    -- The chains lose their empty records.
    unlinked :
        (h' : ℕ → ℕ) × (n' : ℕ → ℕ) × (unlink_empty_chains (swept_as t st ks vs f g) cap 0
          ≡ some (linked_as (swept_as t st ks vs f g) h' n'))
        × Becomes (finished h' n') (Maps t key value)
    unlinked =
        let t1 = swept_as t st ks vs f g in
        let (h', n', chain', e, l) =
          unlink_empty_chains_lem t1 (in_cap t chain key value v) key key' chain v.linked w.loses
            (λ j. (w.status_key j).0) in
        (
          h',
          n',
          e,
          (
            chain',
            key',
            value',
            finished-IsTable h' n' chain' l,
            Maps-swept t chain key value v (finished h' n') ks vs key' value' n w,
          ),
        )

  start-Swept :
      (target : ℕ → ℕ) (counts : ℕ → ℕ → Type 0)
      → counts 0 0
      → Swept t chain key value v target counts 0 (start t)
  start-Swept target counts q = (
    t.status,
    t.keys,
    t.values,
    t.timestamp,
    t.generation,
    key,
    value,
    0,
    0,
    0,
    refl,
    start-IsSwept t chain key value v,
    inl (refl, λ j l h e. omega arith),
    (λ j l. absurd (omega arith)),
    (λ j l. refl),
    q,
  )

  purged_young : (s : ℕ) → ltb rec_in_use (purged s) ≡ false
  purged_young s = ground arith

  -- The end of `cplat_hashtable_purge_deleted`, after its loop.
  abbrev purge_end : Sweep → Option Table
  purge_end s = elim (unlink_empty_chains s.table cap 0) [
    | none ↦ none
    | some t' ↦ some (record t' { next_empty = s.new_next_empty; deleted_count = 0 })
  ]

  purge_end_lem :
      (s : Sweep)
      → Swept t chain key value v purged (λ c n. Unit) cap s
      → Cleaned purged (purge_end s)
  purge_end_lem s (st, ks, vs, f, g, key', value', n, ne, c, e, w, lowest, done, todo, q) =
      let none_left : 0 ≡ count (λ s. ltb rec_in_use s) st cap = sym (
        count_none (λ s. ltb rec_in_use s) st cap
          (λ j l. ap (ltb rec_in_use) (done j l) ∙ purged_young (t.status j))) in
      let (h', n', u, becomes) = unlinked st ks vs f g key' value' n ne 0 w lowest none_left in
      let on : Option Table → Option Table = λ o. elim o [
        | none ↦ none
        | some t' ↦ some (record t' { next_empty = ne; deleted_count = 0 })
      ] in
      (
        finished st ks vs f g key' value' n ne 0 w lowest none_left h' n',
        ap purge_end e ∙ ap on u,
        becomes,
        done,
      )

  -- The end of `cplat_hashtable_push_deleted`, after its loop.
  abbrev push_end : Sweep → Option Table
  push_end s = elim (unlink_empty_chains s.table cap 0) [
    | none ↦ none
    | some t' ↦ some (record t' {
      next_empty = s.new_next_empty;
      deleted_count = sub64 t'.deleted_count s.expired_count;
    })
  ]

  push_end_lem :
      (s : Sweep)
      → Swept t chain key value v (older t.config.lifetime) (λ c n. c ≡ n) cap s
      → Cleaned (older t.config.lifetime) (push_end s)
  push_end_lem s (st, ks, vs, f, g, key', value', n, ne, c, e, w, lowest, done, todo, q) =
      let d = sub64 t.deleted_count c in
      let bound = count_bound (λ s. ltb rec_in_use s) t.status cap in
      let wrap =
        sub64-eq t.deleted_count c (omega (arith, v.deleted, w.deleted, q))
          (omega (arith, v.deleted, bound, v.small)) in
      let left : d ≡ count (λ s. ltb rec_in_use s) st cap =
        omega (arith, wrap, v.deleted, w.deleted, q) in
      let (h', n', u, becomes) = unlinked st ks vs f g key' value' n ne d w lowest left in
      let on : Option Table → Option Table = λ o. elim o [
        | none ↦ none
        | some t' ↦ some (record t' { next_empty = ne; deleted_count = sub64 t'.deleted_count c })
      ] in
      (
        finished st ks vs f g key' value' n ne d w lowest left h' n',
        ap push_end e ∙ ap on u,
        becomes,
        done,
      )

  -- `cplat_hashtable_purge_deleted` on a table that satisfies the invariant ends: the invariant holds
  -- again, the map is the same, each deleted record has become empty, and the others keep their
  -- status.
  pub purge_deleted_lem :
      (t' : Table) × (purge_deleted t ≡ some t')
      × Becomes t' (Maps t key value)
      × ((i : ℕ) → i < cap → t'.status i ≡ purged (t.status i))
  unfolding purge_deleted
  purge_deleted_lem = purge_end_lem (sweep purge (start t) cap 0) (
      sweep_lem t chain key value v purged (λ c n. Unit) purge (purge-Swept t chain key value v) cap
        0 (start t) (omega arith) (start-Swept purged (λ c n. Unit) tt))

  -- `cplat_hashtable_push_deleted` on a table that satisfies the invariant ends: the invariant holds
  -- again, the map is the same, and each deleted record has aged by one, up to the status of an
  -- infinite lifetime, or has become empty where it comes to a lifetime that is not infinite; the
  -- other records keep their status.
  pub push_deleted_lem :
      (t' : Table) × (push_deleted t ≡ some t')
      × Becomes t' (Maps t key value)
      × ((i : ℕ) → i < cap → t'.status i ≡ older t.config.lifetime (t.status i))
  unfolding push_deleted
  push_deleted_lem = push_end_lem (sweep age (start t) cap 0) (
      sweep_lem t chain key value v (older t.config.lifetime) (λ c n. c ≡ n) age
        (age-Swept t chain key value v) cap 0 (start t) (omega arith)
        (start-Swept (older t.config.lifetime) (λ c n. c ≡ n) refl))
