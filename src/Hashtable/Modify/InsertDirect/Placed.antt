-- ===== src/Hashtable/Modify/InsertDirect/Placed.antt =====
-- The writes of `cplat_hashtable_insert_direct` into an empty record.
use app_c_platform.Base.{
  ℕ, ◌+◌, ◌-◌, ◌<◌, ◌^◌, ◌≡◌, ◌≢◌, ◌↔◌, ◌⊎◌, inl, inr, Bool, false, List, ◌∷◌, Option, none, some,
  ◌==◌, ltb, arith, refl, sym, ◌∙◌, ap, subst, if◌then◌else◌, add64, add64-eq,
}
use native.Mathlib.Decide.{ℕ_discrete}
use mathlib.Core.Option.{none-ne-some}
use app_c_platform.Timespec.{Timespec}
use app_c_platform.Hashtable.Config.{rec_in_use, rec_empty}
use app_c_platform.Hashtable.Store.{Store, update, update_hit, update_miss, store, find_free}
use app_c_platform.Hashtable.Store.Valid.{IsStore, IsField}
use app_c_platform.Hashtable.Store.Laws.{store-IsStore}
use app_c_platform.Hashtable.Table.{Table, key_shape, value_shape, bucket_of}
use app_c_platform.Hashtable.Table.Counts.{count, count-update, count_bound, one_if}
use app_c_platform.Hashtable.Modify.{scan_loop, scan_next_empty}
use app_c_platform.Hashtable.Modify.InsertDirect.{stamp_direct, place_direct}
use app_c_platform.Hashtable.Modify.Linked.Attach.{attach-IsLinked}
use app_c_platform.Hashtable.Modify.Lowest.{FirstEmpty-filled}
use app_c_platform.Hashtable.Modify.Lookup.{in_cap}
use app_c_platform.Hashtable.Modify.Preserve.{restamped, IsTable-restamped}
use app_c_platform.Hashtable.Modify.Deletion.{Becomes}
use app_c_platform.Hashtable.Modify.Existing.{Puts}
use app_c_platform.Hashtable.Modify.Valid.{IsTable}
use app_c_platform.Hashtable.Modify.View.{Maps, Maps-with}

-- The map after a record with that status takes the key and the value.
abbrev pub Places :
    Table
    → (ℕ → Option (List ℕ))
    → (ℕ → Option (List ℕ))
    → List ℕ
    → ℕ
    → List ℕ
    → List ℕ
    → List ℕ
    → Type 0
Places t key value k s u k' u' =
    ((s ≡ rec_in_use) × Puts t key value k u k' u') ⊎ ((s ≢ rec_in_use) × Maps t key value k' u')

-- The record with its fields and its status, in its chain, less the stamps.
abbrev pub placed : Table → ℕ → List ℕ → ℕ → Store → Store → Table
placed t i k s kst vst = record t {
  values = vst;
  keys = kst;
  status = update t.status i s;
  next = update t.next i (t.bucket_head (bucket_of t k));
  bucket_head = update t.bucket_head (bucket_of t k) (i + 1);
  next_empty =
      if i + 1 == t.next_empty
      then scan_loop (update t.status i s) (t.config.capacity - (i + 1)) (i + 1)
      else t.next_empty;
  in_use_count = if s == rec_in_use then add64 t.in_use_count 1 else t.in_use_count;
  deleted_count = if s == rec_in_use then t.deleted_count else add64 t.deleted_count 1;
}

stamp_direct-eq :
    (t : Table) (i : ℕ) (time : Option Timespec) (gen : ℕ)
    → (f : ℕ → Timespec) × (g : ℕ → ℕ) × (n : ℕ) × (now : Timespec) × (stamp_direct t i time gen
        ≡ restamped t f g n now)
unfolding stamp_direct
stamp_direct-eq t i none gen =
    (t.timestamp, t.generation, t.table_generation, t.table_timestamp, refl)
stamp_direct-eq t i (some time) gen = (_, _, _, _, refl)

place_direct-eq :
    (t : Table) (i : ℕ) (k : List ℕ) (s : ℕ) (u : List ℕ) (time : Option Timespec) (gen ko vo : ℕ)
    → (f : ℕ → Timespec) × (g : ℕ → ℕ) × (n : ℕ) × (now : Timespec) × (place_direct t i k s u time
          gen ko vo
        ≡ restamped
            (placed t i k s
              (store (key_shape t.config) t.keys i k ko)
              (store (value_shape t.config) t.values i u vo))
            f
            g
            n
            now)
unfolding place_direct scan_next_empty
place_direct-eq t i k s u time gen ko vo =
    let written : Table = record t {
      values = store (value_shape t.config) t.values i u vo;
      keys = store (key_shape t.config) t.keys i k ko;
      status = update t.status i s;
    } in
    let (f, g, n, now, e) = stamp_direct-eq written i time gen in
    let finish : Table → Table = λ x. record x {
      next = update x.next i (x.bucket_head (bucket_of t k));
      bucket_head = update x.bucket_head (bucket_of t k) (i + 1);
      next_empty =
          if i + 1 == x.next_empty
          then scan_loop x.status (x.config.capacity - (i + 1)) (i + 1)
          else x.next_empty;
      in_use_count = if s == rec_in_use then add64 x.in_use_count 1 else x.in_use_count;
      deleted_count = if s == rec_in_use then x.deleted_count else add64 x.deleted_count 1;
    } in
    (f, g, n, now, ap finish e)

-- The counters after the record takes its status.
counters :
    (s used deleted a b a' b' : ℕ)
    → 0 < s
    → used ≡ a
    → deleted ≡ b
    → a + 1 < 2 ^ 64
    → b + 1 < 2 ^ 64
    → a' + 0 ≡ a + one_if (s == rec_in_use)
    → b' + 0 ≡ b + one_if (ltb rec_in_use s)
    → ((if s == rec_in_use then add64 used 1 else used) ≡ a')
      × ((if s == rec_in_use then deleted else add64 deleted 1) ≡ b')
counters s used deleted a b a' b' p e d small small' x y =
    let z = add64-eq used 1 (omega arith) in
    let z' = add64-eq deleted 1 (omega arith) in ground arith

module _ (t : Table) (chain : ℕ → List ℕ) (key value : ℕ → Option (List ℕ))
    (v : IsTable t chain key value) (i : ℕ) (k u : List ℕ) (s : ℕ) (below : i < t.config.capacity)
    (vacant : t.status i ≡ rec_empty) (fresh : (j : ℕ) → key j ≢ some k) (live : 0 < s) where
  status_of :
      (o : ℕ → Option (List ℕ)) (w : List ℕ)
      → ((j : ℕ) → (t.status j ≡ rec_empty) ↔ (o j ≡ none))
      → (j : ℕ) → (update t.status i s j ≡ rec_empty) ↔ (update o i (some w) j ≡ none)
  status_of o w p j = elim (ℕ_discrete j i) [
    | yes e ↦ (
      (λ z. absurd (let y = update_hit t.status i s j e in omega arith)),
      λ z. absurd (none-ne-some w (sym z ∙ update_hit o i (some w) j e)),
    )
    | no e ↦ rw (update_miss t.status i s j e, update_miss o i (some w) j e) (p j)
  ]

  placed-IsTable :
      (kst vst : Store)
      → IsStore (key_shape t.config) kst (update key i (some k))
      → IsStore (value_shape t.config) vst (update value i (some u))
      → IsTable
          (placed t i k s kst vst)
          (update chain (bucket_of t k) (i ∷ chain (bucket_of t k)))
          (update key i (some k))
          (update value i (some u))
  placed-IsTable kst vst ks vs =
      let cap = t.config.capacity in
      let used : ℕ → Bool = λ x. x == rec_in_use in
      let dead : ℕ → Bool = λ x. ltb rec_in_use x in
      let b = count_bound used t.status cap in
      let b' = count_bound dead t.status cap in
      let c : count used (update t.status i s) cap + 0 ≡ count used t.status cap + one_if (used s) =
        subst
          (λ n.
            count used (update t.status i s) cap + one_if (used n)
            ≡ count used t.status cap + one_if (used s))
          vacant (count-update used t.status i s cap below) in
      let c' : count dead (update t.status i s) cap + 0
          ≡ count dead t.status cap + one_if (dead s) =
        subst
          (λ n.
            count dead (update t.status i s) cap + one_if (dead n)
            ≡ count dead t.status cap + one_if (dead s))
          vacant (count-update dead t.status i s cap below) in
      let gone = (v.status_key i).0 vacant in
      let (x, y) =
        counters s t.in_use_count t.deleted_count (count used t.status cap)
          (count dead t.status cap) (count used (update t.status i s) cap)
          (count dead (update t.status i s) cap) live v.in_use v.deleted (omega (arith, b, v.small))
          (omega (arith, b', v.small)) c c' in
      record {
        roomy = v.roomy;
        small = v.small;
        keys = ks;
        values = vs;
        status_key = status_of key k v.status_key;
        status_value = status_of value u v.status_value;
        linked =
            attach-IsLinked t.config.capacity (bucket_of t) (in_cap t chain key value v)
              t.bucket_head t.next key chain v.linked i k below gone fresh;
        in_use = x;
        deleted = y;
        lowest =
            FirstEmpty-filled t.status t.config.capacity t.next_empty i v.lowest below s
              (omega arith);
      }

  Maps-deleted :
      s ≢ rec_in_use
      → (t' : Table) → ((j : ℕ) → t'.status j ≡ update t.status i s j)
      → (k' u' : List ℕ)
      → Maps t' (update key i (some k)) (update value i (some u)) k' u' ↔ Maps t key value k' u'
  Maps-deleted n t' same k' u' = (
    (λ (j, p, w, z). elim (ℕ_discrete j i) [
      | yes e ↦ absurd (n (sym (update_hit t.status i s j e) ∙ sym (same j) ∙ z))
      | no e ↦ (
        j,
        sym (update_miss key i (some k) j e) ∙ p,
        sym (update_miss value i (some u) j e) ∙ w,
        sym (update_miss t.status i s j e) ∙ sym (same j) ∙ z,
      )
    ]),
    (λ (j, p, w, z). elim (ℕ_discrete j i) [
      | yes e ↦ absurd (none-ne-some k' (sym ((v.status_key i).0 vacant) ∙ ap key (sym e) ∙ p))
      | no e ↦ (
        j,
        update_miss key i (some k) j e ∙ p,
        update_miss value i (some u) j e ∙ w,
        same j ∙ update_miss t.status i s j e ∙ z,
      )
    ]),
  )

  Maps-Places :
      (t' : Table)
      → ((j : ℕ) → t'.status j ≡ update t.status i s j)
      → (k' u' : List ℕ)
      → Maps t' (update key i (some k)) (update value i (some u)) k' u'
        ↔ Places t key value k s u k' u'
  Maps-Places t' same k' u' = elim (ℕ_discrete s rec_in_use) [
    | yes e ↦
        let (f, g) =
          Maps-with t chain key value v k i u t' (update key i (some k)) (update value i (some u))
            (λ j q. absurd (fresh j q)) (inl (omega arith))
            (
              update_hit key i (some k) i refl,
              update_hit value i (some u) i refl,
              same i ∙ update_hit t.status i s i refl ∙ e,
            )
            (λ j n. (
              same j ∙ update_miss t.status i s j n,
              update_miss key i (some k) j n,
              update_miss value i (some u) j n,
            ))
            k' u' in
        ((λ m. inl (e, f m)), λ h. elim h [ inl (q, p) ↦ g p | inr (n, m) ↦ absurd (n e) ])
    | no e ↦
        let (f, g) = Maps-deleted e t' same k' u' in
        ((λ m. inr (e, f m)), λ h. elim h [ inl (q, p) ↦ absurd (e q) | inr (n, m) ↦ g m ])
  ]

  pub place_direct-Becomes :
      (time : Option Timespec) (gen ko vo : ℕ)
      → IsField (key_shape t.config) k
      → IsField (value_shape t.config) u
      → find_free (key_shape t.config) t.keys i false k ≡ some ko
      → find_free (value_shape t.config) t.values i false u ≡ some vo
      → Becomes (place_direct t i k s u time gen ko vo) (Places t key value k s u)
  place_direct-Becomes time gen ko vo fk fu a b =
      let (f, g, n, now, e) = place_direct-eq t i k s u time gen ko vo in
      let kst = store (key_shape t.config) t.keys i k ko in
      let vst = store (value_shape t.config) t.values i u vo in
      let t1 = placed t i k s kst vst in
      let chain' = update chain (bucket_of t k) (i ∷ chain (bucket_of t k)) in
      let key' = update key i (some k) in
      let value' = update value i (some u) in
      let w =
        placed-IsTable kst vst
          (store-IsStore (key_shape t.config) t.keys key v.keys i k ko ((v.status_key i).0 vacant)
            fk a)
          (store-IsStore (value_shape t.config) t.values value v.values i u vo
            ((v.status_value i).0 vacant) fu b) in
      subst (λ x. Becomes x (Places t key value k s u)) (sym e)
        (
          chain',
          key',
          value',
          IsTable-restamped t1 chain' key' value' w f g n now,
          Maps-Places (restamped t1 f g n now) (λ j. refl),
        )
