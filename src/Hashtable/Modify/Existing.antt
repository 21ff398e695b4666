-- ===== src/Hashtable/Modify/Existing.antt =====
-- Proofs about the calls that write to a record that has the key already: `hashtable_update`, and
-- the loop body of `hashtable_put`.
use app_c_platform.Base.{
  ℕ, ◌<◌, ◌≡◌, ◌≢◌, ◌⊎◌, inl, inr, true, false, List, Option, none, some, ◌==◌, ltb, arith, refl,
  sym, ap, subst, ne→==, lt→ltb, Option-cases, add64, sub64, sub64-eq, add64-eq,
}
use app_c_platform.Timespec.{Timespec}
use app_c_platform.Hashtable.Config.{storage_full, rec_in_use, rec_empty}
use app_c_platform.Hashtable.Store.{update, update_hit, update_miss, store, release, find_free}
use app_c_platform.Hashtable.Store.Valid.{IsField}
use app_c_platform.Hashtable.Store.Laws.{store-release-IsStore}
use app_c_platform.Hashtable.Table.{Table, value_shape}
use app_c_platform.Hashtable.Table.Counts.{count_bound, count_pos, one_if}
use app_c_platform.Hashtable.Modify.{changed, refused, value_shortage, stamp_record}
use app_c_platform.Hashtable.Modify.Put.{replace_value, put_value, revive_record}
use app_c_platform.Hashtable.Modify.Preserve.{
  restamped, stamp_record-eq, IsTable-restamped, IsTable-value, IsTable-status,
}
use app_c_platform.Hashtable.Modify.Deletion.{Becomes}
use app_c_platform.Hashtable.Modify.Valid.{IsTable}
use app_c_platform.Hashtable.Modify.View.{Maps, Maps-with}

-- The map after the key is set to the value.
abbrev pub Puts :
    Table
    → (ℕ → Option (List ℕ))
    → (ℕ → Option (List ℕ))
    → List ℕ
    → List ℕ
    → List ℕ
    → List ℕ
    → Type 0
Puts t key value k w k' u' = ((k' ≡ k) × (u' ≡ w)) ⊎ ((k' ≢ k) × Maps t key value k' u')

module _ (t : Table) (chain : ℕ → List ℕ) (key value : ℕ → Option (List ℕ))
    (v : IsTable t chain key value) (i : ℕ) (k : List ℕ) (here : key i ≡ some k)
    (now : Timespec) where
  only : (j : ℕ) → key j ≡ some k → j ≡ i
  only j e = v.linked.unique j i k e here

  pub no_room_or :
      (u : List ℕ)
      → (replace_value t i u ≡ none) × (find_free (value_shape t.config) t.values i true u ≡ none)
        ⊎ ((o : ℕ) × (find_free (value_shape t.config) t.values i true u ≡ some o)
            × (replace_value t i u
                ≡ some (record t {
                  values =
                      store
                        (value_shape t.config)
                        (release (value_shape t.config) t.values i)
                        i
                        u
                        o;
                })))
  unfolding replace_value
  no_room_or u = elim (Option-cases (find_free (value_shape t.config) t.values i true u)) [
    | inl e ↦ inl (rw (replace_value, e) refl, e)
    | inr (o, e) ↦ inr (o, e, rw (replace_value, e) refl)
  ]

  module _ (x u : List ℕ) (had : value i ≡ some x) (fu : IsField (value_shape t.config) u) where
    -- The record with the new value, before the stamp.
    pub replaced-IsTable :
        (o : ℕ)
        → find_free (value_shape t.config) t.values i true u ≡ some o
        → t.status i ≢ rec_empty
        → IsTable
            (record t {
              values =
                  store (value_shape t.config) (release (value_shape t.config) t.values i) i u o;
            })
            chain
            key
            (update value i (some u))
    replaced-IsTable o e n =
        IsTable-value t chain key value v i u
          (store (value_shape t.config) (release (value_shape t.config) t.values i) i u o) n
          (store-release-IsStore (value_shape t.config) t.values value v.values i x u o had fu e)

    -- A value that replaces the value of a record in use, or the refusal for want of room.
    pub put_value_lem :
        t.status i ≡ rec_in_use
        → ((t' : Table) × (put_value t i u now ≡ changed t' false)
            × Becomes t' (Puts t key value k u))
          ⊎ ((put_value t i u now ≡ refused storage_full (value_shortage t u))
              × (find_free (value_shape t.config) t.values i true u ≡ none))
    unfolding put_value
    put_value_lem s = elim (no_room_or u) [
      | inl (e, f) ↦ inr (rw (put_value, e) refl, f)
      | inr (o, e, q) ↦
          let t1 : Table = record t {
            values = store (value_shape t.config) (release (value_shape t.config) t.values i) i u o;
          } in
          let (f, g, r) = stamp_record-eq t1 i now in
          let value' = update value i (some u) in
          let w = replaced-IsTable o e (omega arith) in
          inl (
            stamp_record t1 i now,
            rw (put_value, q) refl,
            subst (λ y. Becomes y (Puts t key value k u)) (sym r)
                (
                  chain,
                  key,
                  value',
                  IsTable-restamped t1 chain key value' w f g (add64 t.table_generation 1) now,
                  Maps-with t chain key value v k i u
                      (restamped t1 f g (add64 t.table_generation 1) now) key value' only (inr here)
                      (here, update_hit value i (some u) i refl, s)
                      (λ j n. (refl, refl, update_miss value i (some u) j n)),
                ),
          )
    ]

-- A deleted record that comes back with the value that it has.
pub revive_record_lem :
    (t : Table) (chain : ℕ → List ℕ) (key value : ℕ → Option (List ℕ))
    (v : IsTable t chain key value) (i : ℕ) (k w : List ℕ) (now : Timespec)
    → key i ≡ some k
    → value i ≡ some w
    → rec_in_use < t.status i
    → Becomes (revive_record t i now) (Puts t key value k w)
unfolding revive_record
revive_record_lem t chain key value v i k w now here had s =
    let back : Table → Table = λ x. record x {
      deleted_count = sub64 x.deleted_count 1;
      in_use_count = add64 x.in_use_count 1;
    } in
    let t1 : Table = record t { status = update t.status i rec_in_use } in
    let (f, g, r) = stamp_record-eq t1 i now in
    let l = v.linked.below i k here in
    let gt = lt→ltb rec_in_use (t.status i) s in
    let p = count_pos (λ y. ltb rec_in_use y) t.status i 0 t.config.capacity l gt in
    let c = count_bound (λ y. ltb rec_in_use y) t.status t.config.capacity in
    let b = count_bound (λ y. y == rec_in_use) t.status t.config.capacity in
    let q =
      sub64-eq t.deleted_count 1 (omega (arith, v.deleted, p))
        (omega (arith, v.deleted, c, v.small)) in
    let a = add64-eq t.in_use_count 1 (omega (arith, v.in_use, b, v.small)) in
    let z =
      IsTable-status t chain key value v i rec_in_use (add64 t.in_use_count 1)
        (sub64 t.deleted_count 1) l (omega arith) (omega arith)
        (omega (arith, a, ap one_if (ne→== (t.status i) rec_in_use (omega arith))))
        (omega (arith, q, v.deleted, p, ap one_if gt)) in
    let t2 = back (restamped t1 f g (add64 t.table_generation 1) now) in
    subst (λ y. Becomes y (Puts t key value k w)) (sym (ap back r))
      (
        chain,
        key,
        value,
        IsTable-restamped (back t1) chain key value z f g (add64 t.table_generation 1) now,
        Maps-with t chain key value v k i w t2 key value (λ j e. v.linked.unique j i k e here)
            (inr here) (here, had, update_hit t.status i rec_in_use i refl)
            (λ j n. (update_miss t.status i rec_in_use j n, refl, refl)),
      )
