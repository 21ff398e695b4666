-- ===== src/Hashtable/Modify/Fill.antt =====
-- A vacant record that takes a key and a value: `fill`, the end of `hashtable_put`.
use app_c_platform.Base.{
  ℕ, ◌+◌, ◌-◌, ◌<◌, ◌≡◌, ◌≢◌, ◌↔◌, List, ◌∷◌, Option, none, some, ◌==◌, ltb, arith, sym, ◌∙◌, ap,
  ne→==, if◌then◌else◌, add64, add64-eq,
}
use native.Mathlib.Decide.{ℕ_discrete}
use mathlib.Core.Option.{none-ne-some}
use app_c_platform.Timespec.{Timespec}
use app_c_platform.Hashtable.Config.{rec_in_use, rec_empty}
use app_c_platform.Hashtable.Store.{Store, update, update_hit, update_miss, store}
use app_c_platform.Hashtable.Store.Valid.{IsStore}
use app_c_platform.Hashtable.Table.{Table, key_shape, value_shape, bucket_of}
use app_c_platform.Hashtable.Table.Counts.{count-update, count_bound, one_if}
use app_c_platform.Hashtable.Modify.{scan_loop, scan_next_empty}
use app_c_platform.Hashtable.Modify.Put.{fill}
use app_c_platform.Hashtable.Modify.Linked.{IsLinked}
use app_c_platform.Hashtable.Modify.Linked.Attach.{attach-IsLinked}
use app_c_platform.Hashtable.Modify.Lowest.{FirstEmpty-filled}
use app_c_platform.Hashtable.Modify.Lookup.{in_cap}
use app_c_platform.Hashtable.Modify.Preserve.{restamped, stamp_record-eq}
use app_c_platform.Hashtable.Modify.Valid.{IsTable}

abbrev pub filled : Table → ℕ → List ℕ → Store → Store → Table
filled t i k kst vst = record t {
  values = vst;
  keys = kst;
  status = update t.status i rec_in_use;
  next = update t.next i (t.bucket_head (bucket_of t k));
  bucket_head = update t.bucket_head (bucket_of t k) (i + 1);
  next_empty =
      if i + 1 == t.next_empty
      then scan_loop (update t.status i rec_in_use) (t.config.capacity - (i + 1)) (i + 1)
      else t.next_empty;
  in_use_count = add64 t.in_use_count 1;
}

pub fill-eq :
    (t : Table) (i : ℕ) (k u : List ℕ) (ko vo : ℕ) (now : Timespec)
    → (f : ℕ → Timespec) × (g : ℕ → ℕ) × (fill t i k u ko vo now
        ≡ restamped
            (filled t i k
              (store (key_shape t.config) t.keys i k ko)
              (store (value_shape t.config) t.values i u vo))
            f
            g
            (add64 t.table_generation 1)
            now)
unfolding fill scan_next_empty
fill-eq t i k u ko vo now =
    let placed : Table = record t {
      values = store (value_shape t.config) t.values i u vo;
      status = update t.status i rec_in_use;
      keys = store (key_shape t.config) t.keys i k ko;
    } in
    let (f, g, e) = stamp_record-eq placed i now in
    let finish : Table → Table = λ x. record x {
      next = update x.next i (x.bucket_head (bucket_of t k));
      bucket_head = update x.bucket_head (bucket_of t k) (i + 1);
      next_empty =
          if i + 1 == x.next_empty
          then scan_loop x.status (x.config.capacity - (i + 1)) (i + 1)
          else x.next_empty;
      in_use_count = add64 x.in_use_count 1;
    } in
    (f, g, ap finish e)

-- The table whose record `i` has given up its fields, while the status still stands.
abbrev pub vacated : Table → Store → Store → (ℕ → ℕ) → (ℕ → ℕ) → ℕ → Table
vacated t kst vst h n d = record t {
  keys = kst;
  values = vst;
  bucket_head = h;
  next = n;
  deleted_count = d;
}

module _ (t : Table) (chain : ℕ → List ℕ) (key value : ℕ → Option (List ℕ))
    (v : IsTable t chain key value) (i : ℕ) (k u : List ℕ) (chain0 : ℕ → List ℕ)
    (key0 value0 : ℕ → Option (List ℕ)) (h n : ℕ → ℕ) where
  other_status :
      (o o0 : ℕ → Option (List ℕ)) (w : List ℕ)
      → ((j : ℕ) → (t.status j ≡ rec_empty) ↔ (o j ≡ none))
      → ((j : ℕ) → j ≢ i → o0 j ≡ o j)
      → (j : ℕ) → (update t.status i rec_in_use j ≡ rec_empty) ↔ (update o0 i (some w) j ≡ none)
  other_status o o0 w p q j = elim (ℕ_discrete j i) [
    | yes e ↦ (
      (λ z. absurd (let y = update_hit t.status i rec_in_use j e in omega arith)),
      λ z. absurd (none-ne-some w (sym z ∙ update_hit o0 i (some w) j e)),
    )
    | no e ↦ rw (update_miss t.status i rec_in_use j e, update_miss o0 i (some w) j e, q j e) (p j)
  ]

  pub filled-IsTable :
      (kst vst kst0 vst0 : Store) (d : ℕ)
      → i < t.config.capacity
      → t.status i ≢ rec_in_use
      → IsLinked t.config.capacity (bucket_of t) h n key0 chain0
      → key0 i ≡ none
      → ((j : ℕ) → j ≢ i → key0 j ≡ key j)
      → ((j : ℕ) → j ≢ i → value0 j ≡ value j)
      → ((j : ℕ) → key j ≢ some k)
      → IsStore (key_shape t.config) kst (update key0 i (some k))
      → IsStore (value_shape t.config) vst (update value0 i (some u))
      → d + one_if (ltb rec_in_use (t.status i)) ≡ t.deleted_count
      → IsTable
          (filled (vacated t kst0 vst0 h n d) i k kst vst)
          (update chain0 (bucket_of t k) (i ∷ chain0 (bucket_of t k)))
          (update key0 i (some k))
          (update value0 i (some u))
  filled-IsTable kst vst kst0 vst0 d l s linked0 gone same_key same_value fresh ks vs less =
      let c = count-update (λ x. x == rec_in_use) t.status i rec_in_use t.config.capacity l in
      let b = count_bound (λ x. x == rec_in_use) t.status t.config.capacity in
      let a = add64-eq t.in_use_count 1 (omega (arith, v.in_use, b, v.small)) in
      record {
        roomy = v.roomy;
        small = v.small;
        keys = ks;
        values = vs;
        status_key = other_status key key0 k v.status_key same_key;
        status_value = other_status value value0 u v.status_value same_value;
        linked =
            attach-IsLinked t.config.capacity (bucket_of t) (in_cap t chain key value v) h n key0
              chain0 linked0 i k l gone
              (λ j e. elim (ℕ_discrete j i) [
                | yes q ↦ none-ne-some k (sym gone ∙ ap key0 (sym q) ∙ e)
                | no q ↦ fresh j (sym (same_key j q) ∙ e)
              ]);
        in_use = omega (arith, v.in_use, a, c, ap one_if (ne→== (t.status i) rec_in_use s));
        deleted =
            let c' =
              count-update (λ x. ltb rec_in_use x) t.status i rec_in_use t.config.capacity l in
            omega (arith, v.deleted, less, c');
        lowest =
            FirstEmpty-filled t.status t.config.capacity t.next_empty i v.lowest l rec_in_use
              (omega arith);
      }
