-- ===== src/Hashtable/Table.antt =====
-- The state of a table and the walk over a bucket's chain: `struct cplat_hashtable` and
-- `struct hashtable_persist_header` of prod/libsrc/cplat/hashtable/hashtable.h, and the loop that
-- hashtable_query.c and hashtable_modify.c share.
pub mod Chain
pub mod Counts
use app_c_platform.Base.{
  ℕ, zero, suc, ◌+◌, ◌-◌, Bool, true, false, List, Option, none, some, ◌==◌, if◌then◌else◌,
}
use app_c_platform.Timespec.{Timespec}
use app_c_platform.Hashtable.Config.{Config, Code, scope_table, scope_record}
use app_c_platform.Hashtable.Store.{Store, Shape, stored, hashtable_hash_key, hashtable_key_equal}

-- `cplat_hashtable_growth_config`.
pub record GrowthConfig : Type 0 where
  pub max_capacity : ℕ
  pub max_key_storage_size : ℕ
  pub max_value_storage_size : ℕ

-- The header's counters, the arrays of the management region, indexed by bucket or by 0-based
-- record, the two field stores, and the run-time part of the handle. `bucket_head` and `next` hold
-- 1-based record numbers, and 0 ends a chain.
pub record Table : Type 0 where
  pub config : Config
  pub next_empty : ℕ
  pub in_use_count : ℕ
  pub deleted_count : ℕ
  pub table_timestamp : Timespec
  pub table_generation : ℕ
  pub bucket_head : ℕ → ℕ
  pub next : ℕ → ℕ
  pub status : ℕ → ℕ
  pub timestamp : ℕ → Timespec
  pub generation : ℕ → ℕ
  pub keys : Store
  pub values : Store
  pub owns_buffer : Bool
  pub growable : Bool
  pub growth : GrowthConfig

abbrev pub key_shape : Config → Shape
key_shape c = record {
  type = c.key_type;
  fixed_size = c.key_size;
  storage_size = c.key_storage_size;
}

abbrev pub value_shape : Config → Shape
value_shape c = record {
  type = c.value_type;
  fixed_size = c.value_size;
  storage_size = c.value_storage_size;
}

-- `hashtable_entry_key` and `hashtable_data_at`.
abbrev pub entry_key : Table → ℕ → List ℕ
entry_key t rec = stored (key_shape t.config) t.keys rec

abbrev pub entry_value : Table → ℕ → List ℕ
entry_value t rec = stored (value_shape t.config) t.values rec

abbrev pub bucket_of : Table → List ℕ → ℕ
bucket_of t key = hashtable_hash_key t.config.capacity key

-- `hashtable_has_record_timestamp`.
abbrev pub has_record_timestamp : Table → Bool
has_record_timestamp t = elim t.config.timestamp_scope [ scope_table ↦ false | scope_record ↦ true ]

-- What a function returns: a value with `CPLAT_OK`, another code, or nothing, because a chain
-- does not end.
pub data Reply {ℓ} (A : Type ℓ) : Type ℓ where
  ok : A → Reply A
  err : Code → Reply A
  endless : Reply A

-- `while (cur != 0)` over a chain until the key is found: `some cur` is the record number, and
-- `some 0` the end of the chain. `none` means that the fuel ran out.
unfoldable pub walk : Table → List ℕ → ℕ → ℕ → Option ℕ
walk t key zero cur = none
walk t key (suc fuel) cur =
    let rest = walk t key fuel (t.next (cur - 1)) in
    if cur == 0
    then some 0
    else if hashtable_key_equal (entry_key t (cur - 1)) key
    then some cur
    else rest

-- The walk from the bucket of the key. A chain visits each record at most once.
unfoldable pub find_record : Table → List ℕ → Option ℕ
unfolding walk
find_record t key = walk t key (t.config.capacity + 1) (t.bucket_head (bucket_of t key))
