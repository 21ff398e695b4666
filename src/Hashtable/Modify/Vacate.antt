-- ===== src/Hashtable/Modify/Vacate.antt =====
-- Proofs about a deleted record that `hashtable_put` takes out of its chain and fills again.
use app_c_platform.Base.{
  ℕ, ◌<◌, ◌≡◌, ◌≢◌, inl, true, List, ◌∷◌, Option, none, some, ltb, arith, refl, sym, ◌∙◌, ap, subst,
  ne→==, lt→ltb, add64, sub64, sub64-eq,
}
use native.Mathlib.Decide.{ℕ_discrete}
use mathlib.Core.Path.{fun_ext}
use app_c_platform.Timespec.{Timespec}
use app_c_platform.Hashtable.Config.{rec_in_use, rec_empty}
use app_c_platform.Hashtable.Store.{update, update_hit, update_miss, store, release, find_free}
use app_c_platform.Hashtable.Store.Valid.{IsStore, IsField}
use app_c_platform.Hashtable.Store.Laws.{store-release-IsStore}
use app_c_platform.Hashtable.Table.{Table, key_shape, value_shape, bucket_of}
use app_c_platform.Hashtable.Table.Chain.{remove}
use app_c_platform.Hashtable.Table.Counts.{count_bound, count_pos, one_if}
use app_c_platform.Hashtable.Modify.{head}
use app_c_platform.Hashtable.Modify.Put.{vacate, fill}
use app_c_platform.Hashtable.Modify.Links.{link_to, cut_head, cut_next, cut-eq}
use app_c_platform.Hashtable.Modify.Linked.Detach.{detach-IsLinked}
use app_c_platform.Hashtable.Modify.Lookup.{in_cap, unlink_record_lem}
use app_c_platform.Hashtable.Modify.Preserve.{restamped, IsTable-restamped}
use app_c_platform.Hashtable.Modify.Fill.{filled, fill-eq, vacated, filled-IsTable}
use app_c_platform.Hashtable.Modify.Deletion.{Becomes}
use app_c_platform.Hashtable.Modify.Valid.{IsTable}
use app_c_platform.Hashtable.Modify.View.{Maps-with}
use app_c_platform.Hashtable.Modify.Existing.{Puts}

update_twice {ℓ} :
    {A : Type ℓ} (f : ℕ → A) (i : ℕ) (a b : A) → update (update f i a) i b ≡ update f i b
update_twice f i a b = fun_ext (λ j. elim (ℕ_discrete j i) [
  | yes q ↦ update_hit (update f i a) i b j q ∙ sym (update_hit f i b j q)
  | no q ↦ update_miss (update f i a) i b j q ∙ update_miss f i a j q ∙ sym (update_miss f i b j q)
])

module _ (t : Table) (chain : ℕ → List ℕ) (key value : ℕ → Option (List ℕ))
    (v : IsTable t chain key value) (i : ℕ) (k u : List ℕ) (now : Timespec) where
  pub vacate-deleted :
      (w : List ℕ)
      → key i ≡ some w
      → rec_in_use < t.status i
      → let link = link_to (head (bucket_of t w)) (chain (bucket_of t w)) i in
        vacate t i
        ≡ some (
            vacated t
              (release (key_shape t.config) t.keys i)
              (release (value_shape t.config) t.values i)
              (cut_head t.bucket_head t.next link i)
              (cut_next t.next link i)
              (sub64 t.deleted_count 1))
  unfolding vacate
  vacate-deleted w e s =
      let link = link_to (head (bucket_of t w)) (chain (bucket_of t w)) i in
      let leave : Table → Option Table = λ y. some (record y {
        deleted_count = sub64 y.deleted_count 1;
        keys = release (key_shape y.config) y.keys i;
        values = release (value_shape y.config) y.values i;
      }) in
      rw (ne→== (t.status i) rec_empty (omega arith), unlink_record_lem t chain key value v i w e)
        (ap leave (cut-eq t link i))

  -- Into a deleted record, which leaves its chain first.
  pub fill_deleted :
      (w x : List ℕ) (ko vo : ℕ)
      → rec_in_use < t.status i
      → key i ≡ some w
      → value i ≡ some x
      → ((j : ℕ) → key j ≢ some k)
      → IsField (key_shape t.config) k
      → IsField (value_shape t.config) u
      → find_free (key_shape t.config) t.keys i true k ≡ some ko
      → find_free (value_shape t.config) t.values i true u ≡ some vo
      → let link = link_to (head (bucket_of t w)) (chain (bucket_of t w)) i in
        Becomes
          (fill
            (vacated t
              (release (key_shape t.config) t.keys i)
              (release (value_shape t.config) t.values i)
              (cut_head t.bucket_head t.next link i)
              (cut_next t.next link i)
              (sub64 t.deleted_count 1))
            i
            k
            u
            ko
            vo
            now)
          (Puts t key value k u)
  fill_deleted w x ko vo s kw vx fresh fk fu a b =
      let l = v.linked.below i w kw in
      let link = link_to (head (bucket_of t w)) (chain (bucket_of t w)) i in
      let ks = key_shape t.config in
      let vs = value_shape t.config in
      let h0 = cut_head t.bucket_head t.next link i in
      let n0 = cut_next t.next link i in
      let d = sub64 t.deleted_count 1 in
      let t0 = vacated t (release ks t.keys i) (release vs t.values i) h0 n0 d in
      let (f, g, e) = fill-eq t0 i k u ko vo now in
      let kst = store ks (release ks t.keys i) i k ko in
      let vst = store vs (release vs t.values i) i u vo in
      let t1 = filled t0 i k kst vst in
      let chain0 = update chain (bucket_of t w) (remove i (chain (bucket_of t w))) in
      let chain' = update chain0 (bucket_of t k) (i ∷ chain0 (bucket_of t k)) in
      let key' = update (update key i none) i (some k) in
      let value' = update (update value i none) i (some u) in
      let gt = lt→ltb rec_in_use (t.status i) s in
      let p = count_pos (λ y. ltb rec_in_use y) t.status i 0 t.config.capacity l gt in
      let c = count_bound (λ y. ltb rec_in_use y) t.status t.config.capacity in
      let q =
        sub64-eq t.deleted_count 1 (omega (arith, v.deleted, p))
          (omega (arith, v.deleted, c, v.small)) in
      let z =
        filled-IsTable t chain key value v i k u chain0 (update key i none) (update value i none) h0
          n0 kst vst (release ks t.keys i) (release vs t.values i) d l (omega arith)
          (detach-IsLinked t.config.capacity (bucket_of t) (in_cap t chain key value v)
            t.bucket_head t.next key chain v.linked i w kw)
          (update_hit key i none i refl) (λ j n. update_miss key i none j n)
          (λ j n. update_miss value i none j n) fresh
          (subst (λ o. IsStore ks kst o) (sym (update_twice key i none (some k)))
            (store-release-IsStore ks t.keys key v.keys i w k ko kw fk a))
          (subst (λ o. IsStore vs vst o) (sym (update_twice value i none (some u)))
            (store-release-IsStore vs t.values value v.values i x u vo vx fu b))
          (omega (arith, q, v.deleted, p, ap one_if gt)) in
      subst (λ y. Becomes y (Puts t key value k u)) (sym e)
        (
          chain',
          key',
          value',
          IsTable-restamped t1 chain' key' value' z f g (add64 t.table_generation 1) now,
          Maps-with t chain key value v k i u (restamped t1 f g (add64 t.table_generation 1) now)
              key' value' (λ j y. absurd (fresh j y)) (inl (omega arith))
              (
                update_hit (update key i none) i (some k) i refl,
                update_hit (update value i none) i (some u) i refl,
                update_hit t.status i rec_in_use i refl,
              )
              (λ j n. (
                update_miss t.status i rec_in_use j n,
                update_miss (update key i none) i (some k) j n ∙ update_miss key i none j n,
                update_miss (update value i none) i (some u) j n ∙ update_miss value i none j n,
              )),
        )
