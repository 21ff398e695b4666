-- ===== src/Hashtable/Modify/Empty.antt =====
-- A record that becomes empty: `hashtable_expire_record`, the cut of its link, and `next_empty`.
use app_c_platform.Base.{
  ℕ, ◌+◌, ◌<◌, ◌≡◌, ◌↔◌, inl, inr, ◌||◌, List, Option, none, some, ◌==◌, ltb, arith, refl, ◌∙◌, ap,
  ne→==, lt→ltb, if◌then◌else◌, Bool-cases,
}
use native.Mathlib.Decide.{ℕ_discrete}
use app_c_platform.Base.Int.{pos}
use app_c_platform.Timespec.{Timespec, timespec}
use app_c_platform.Hashtable.Config.{rec_in_use, rec_empty}
use app_c_platform.Hashtable.Store.{update, update_hit, update_miss, release}
use app_c_platform.Hashtable.Store.Laws.{release-IsStore}
use app_c_platform.Hashtable.Table.{Table, key_shape, value_shape, bucket_of, has_record_timestamp}
use app_c_platform.Hashtable.Table.Chain.{remove}
use app_c_platform.Hashtable.Table.Counts.{count-update, one_if}
use app_c_platform.Hashtable.Modify.{Link, head, expire_record, cut}
use app_c_platform.Hashtable.Modify.Delete.{drop_record}
use app_c_platform.Hashtable.Modify.Links.{link_to, cut_head, cut_next, cut-eq}
use app_c_platform.Hashtable.Modify.Linked.Detach.{detach-IsLinked}
use app_c_platform.Hashtable.Modify.Lowest.{FirstEmpty-emptied}
use app_c_platform.Hashtable.Modify.Lookup.{in_cap}
use app_c_platform.Hashtable.Modify.Valid.{IsTable}

abbrev pub lower : ℕ → ℕ → ℕ
lower ne i = if ne == 0 || ltb (i + 1) ne then i + 1 else ne

abbrev lowered : Table → ℕ → Table
lowered t i = record t { next_empty = lower t.next_empty i }

-- The fields that a record loses.
abbrev pub expired : Table → ℕ → (ℕ → Timespec) → (ℕ → ℕ) → Table
expired t i f g = record t {
  status = update t.status i rec_empty;
  values = release (value_shape t.config) t.values i;
  keys = release (key_shape t.config) t.keys i;
  timestamp = f;
  generation = g;
}

pub expire_record-eq :
    (t : Table) (i : ℕ) → (f : ℕ → Timespec) × (g : ℕ → ℕ) × (expire_record t i ≡ expired t i f g)
unfolding expire_record
expire_record-eq t i = elim (Bool-cases (has_record_timestamp t)) [
  | inl e ↦ (update t.timestamp i (timespec (pos 0) (pos 0)), update t.generation i 0, rw e refl)
  | inr e ↦ (t.timestamp, t.generation, rw e refl)
]

-- A table with the record `i` emptied and its chain cut at `link`.
abbrev pub dropped : Table → Link → ℕ → (ℕ → Timespec) → (ℕ → ℕ) → Table
dropped t link i f g = record (expired t i f g) {
  bucket_head = cut_head t.bucket_head t.next link i;
  next = cut_next t.next link i;
  next_empty = lower t.next_empty i;
}

pub drop_record-eq :
    (t : Table) (link : Link) (i : ℕ)
    → (f : ℕ → Timespec) × (g : ℕ → ℕ) × (drop_record t link i ≡ dropped t link i f g)
unfolding drop_record
drop_record-eq t link i =
    let (f, g, e) = expire_record-eq t i in
    (
      f,
      g,
      ap (λ x. lowered (cut x link i) i) e
          ∙ ap (λ x. lowered x i) (cut-eq (expired t i f g) link i),
    )

module _ (t : Table) (chain : ℕ → List ℕ) (key value : ℕ → Option (List ℕ))
    (v : IsTable t chain key value) (i : ℕ) (k : List ℕ) (here : key i ≡ some k)
    (gone : rec_in_use < t.status i) where
  emptied_status :
      (o : ℕ → Option (List ℕ))
      → ((j : ℕ) → (t.status j ≡ rec_empty) ↔ (o j ≡ none))
      → (j : ℕ) → (update t.status i rec_empty j ≡ rec_empty) ↔ (update o i none j ≡ none)
  emptied_status o w j = elim (ℕ_discrete j i) [
    | yes e ↦ ((λ z. update_hit o i none j e), λ z. update_hit t.status i rec_empty j e)
    | no e ↦ rw (update_miss t.status i rec_empty j e, update_miss o i none j e) (w j)
  ]

  -- A deleted record is emptied, and the counter follows.
  pub dropped-IsTable :
      (u : List ℕ) (f : ℕ → Timespec) (g : ℕ → ℕ) (d : ℕ)
      → value i ≡ some u
      → d + 1 ≡ t.deleted_count
      → let b = bucket_of t k in
        IsTable
          (record (dropped t (link_to (head b) (chain b) i) i f g) { deleted_count = d })
          (update chain b (remove i (chain b)))
          (update key i none)
          (update value i none)
  dropped-IsTable u f g d val less =
      let l = v.linked.below i k here in
      record {
        roomy = v.roomy;
        small = v.small;
        keys = release-IsStore (key_shape t.config) t.keys key v.keys i k here;
        values = release-IsStore (value_shape t.config) t.values value v.values i u val;
        status_key = emptied_status key v.status_key;
        status_value = emptied_status value v.status_value;
        linked =
            detach-IsLinked t.config.capacity (bucket_of t) (in_cap t chain key value v)
              t.bucket_head t.next key chain v.linked i k here;
        in_use =
            let c = count-update (λ x. x == rec_in_use) t.status i rec_empty t.config.capacity l in
            omega (arith, v.in_use, c, ap one_if (ne→== (t.status i) rec_in_use (omega arith)));
        deleted =
            let c = count-update (λ x. ltb rec_in_use x) t.status i rec_empty t.config.capacity l in
            omega (arith, v.deleted, c, ap one_if (lt→ltb rec_in_use (t.status i) gone));
        lowest = FirstEmpty-emptied t.status t.config.capacity t.next_empty i v.lowest l;
      }
