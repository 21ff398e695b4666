-- ===== src/Hashtable/Modify.antt =====
-- The shared parts of prod/libsrc/cplat/hashtable/hashtable_modify.c: the time stamps, the searches
-- for a record to fill, the links of a chain, and the requests for growth. The clock is the
-- argument `now`.
pub mod Put
pub mod Update
pub mod Delete
pub mod Purge
pub mod InsertDirect
pub mod Links
pub mod Linked
pub mod Lowest
pub mod Valid
pub mod Lookup
pub mod View
pub mod Preserve
pub mod Empty
pub mod Deletion
pub mod DeletionByRecord
pub mod Fill
pub mod Vacate
pub mod Insertion
pub mod Choice
pub mod Existing
pub mod Outcome
pub mod Putting
pub mod Updating
use app_c_platform.Base.{
  ℕ, zero, suc, ◌+◌, ◌-◌, Bool, true, false, ◌&&◌, ◌||◌, not, List, Option, none, some, ltb, leb,
  ◌==◌, if◌then◌else◌, add64, sub64, size_max,
}
use app_c_platform.Base.Int.{pos}
use app_c_platform.Timespec.{Timespec}
use app_c_platform.Hashtable.Config.{
  Config, Code, rec_empty, rec_deleted, hashtable_field_is_variable,
}
use app_c_platform.Hashtable.Store.{
  Store, Shape, update, stored, store, release, find_free, hashtable_hash_key,
  hashtable_field_input_size,
}
use app_c_platform.Hashtable.Table.{
  Table, key_shape, value_shape, entry_key, bucket_of, has_record_timestamp,
}

-- `struct hashtable_growth_request`, with the bits of `pressure` apart.
pub record GrowthRequest : Type 0 where
  pub key_storage_min : ℕ
  pub value_storage_min : ℕ
  pub capacity_short : Bool
  pub key_short : Bool
  pub value_short : Bool

abbrev pub no_request : GrowthRequest
no_request = record {
  key_storage_min = 0;
  value_storage_min = 0;
  capacity_short = false;
  key_short = false;
  value_short = false;
}

-- What a change of the table returns: the table with `*inserted_out`, a code with the growth
-- request, or nothing, because a chain does not end.
pub data Change : Type 0 where
  changed : Table → Bool → Change
  refused : Code → GrowthRequest → Change
  lost : Change

-- `scan_next_empty`: over the `n` records from index `i` on.
unfoldable pub scan_loop : (ℕ → ℕ) → ℕ → ℕ → ℕ
scan_loop status zero i = 0
scan_loop status (suc n) i =
    let rest = scan_loop status n (i + 1) in if status i == rec_empty then i + 1 else rest

unfoldable pub scan_next_empty : Table → ℕ → ℕ
unfolding scan_loop
scan_next_empty t start_idx = scan_loop t.status (t.config.capacity - start_idx) start_idx

-- `stamp_record` at the time `now`.
unfoldable pub stamp_record : Table → ℕ → Timespec → Table
stamp_record t rec now =
    let generation' = add64 t.table_generation 1 in
    if has_record_timestamp t
    then record t {
      table_generation = generation';
      timestamp = update t.timestamp rec now;
      generation = update t.generation rec generation';
      table_timestamp = now;
    }
    else record t { table_generation = generation'; table_timestamp = now }

-- The best record so far in `hashtable_find_best_deleted_record`.
pub record Best : Type 0 where
  pub found : Bool
  pub best_rec : ℕ
  pub best_status : ℕ
  pub best_generation : ℕ

-- The tests for `better` on record `i`.
unfoldable pub better : Table → Best → ℕ → Bool
better t b i =
    if not b.found
    then true
    else if ltb b.best_status (t.status i)
    then true
    else (t.status i == b.best_status)
      && (has_record_timestamp t && ltb (t.generation i) b.best_generation)

unfoldable pub best_of : Table → Best → ℕ → Best
best_of t b i = record {
  found = true;
  best_rec = i;
  best_status = t.status i;
  best_generation = if has_record_timestamp t then t.generation i else b.best_generation;
}

-- The loop over the `n` records from index `i` on; `keep` is always true where the argument is NULL.
unfoldable pub best_loop : Table → (ℕ → Bool) → ℕ → ℕ → Best → Best
unfolding better best_of
best_loop t keep zero i b = b
best_loop t keep (suc n) i b =
    let skip = ltb (t.status i) rec_deleted || not (keep i) in
    best_loop t keep n (i + 1) (if skip then b else if better t b i then best_of t b i else b)

-- `hashtable_find_best_deleted_record`.
unfoldable pub find_best_deleted_record : Table → (ℕ → Bool) → ℕ
unfolding best_loop
find_best_deleted_record t keep =
    let start : Best = record {
      found = false;
      best_rec = 0;
      best_status = 0;
      best_generation = 0;
    } in
    let b = best_loop t keep t.config.capacity 0 start in if b.found then b.best_rec + 1 else 0

-- A `uint64_t *link`: the head of a bucket, or the link of a record.
pub data Link : Type 0 where
  head : ℕ → Link
  after : ℕ → Link

abbrev pub read_link : Table → Link → ℕ
read_link t (head idx) = t.bucket_head idx
read_link t (after rec) = t.next rec

abbrev pub write_link : Table → Link → ℕ → Table
write_link t (head idx) v = record t { bucket_head = update t.bucket_head idx v }
write_link t (after rec) v = record t { next = update t.next rec v }

-- `*link = *hashtable_entry_next(ht, rec); *hashtable_entry_next(ht, rec) = 0;`
unfoldable pub cut : Table → Link → ℕ → Table
cut t link rec =
    let t1 = write_link t link (t.next rec) in record t1 { next = update t1.next rec 0 }

-- The loop of `hashtable_unlink_record`. `none` means that the fuel ran out.
unfoldable pub unlink_loop : Table → ℕ → ℕ → Link → Option Table
unfolding cut
unlink_loop t rec zero link = none
unlink_loop t rec (suc fuel) link =
    let cur = read_link t link in
    let rest = unlink_loop t rec fuel (after (cur - 1)) in
    if cur == 0 then some t else if cur == rec + 1 then some (cut t link rec) else rest

-- `hashtable_unlink_record`.
unfoldable pub unlink_record : Table → ℕ → Option Table
unfolding unlink_loop
unlink_record t rec =
    unlink_loop t rec (t.config.capacity + 1) (head (bucket_of t (entry_key t rec)))

-- `storage_min_for_transaction`.
unfoldable pub storage_min_for_transaction : ℕ → ℕ → ℕ
storage_min_for_transaction used input_size =
    if ltb (size_max - used) input_size then size_max else used + input_size

-- The request where a value finds no room.
unfoldable pub value_shortage : Table → List ℕ → GrowthRequest
unfolding storage_min_for_transaction
value_shortage t value = record no_request {
  value_short = true;
  value_storage_min =
      storage_min_for_transaction t.values.used
        (hashtable_field_input_size t.config.value_type 0 value);
}

-- `hashtable_expire_record`.
unfoldable pub expire_record : Table → ℕ → Table
unfolding release
expire_record t rec =
    let t1 = record t {
      status = update t.status rec rec_empty;
      values = release (value_shape t.config) t.values rec;
      keys = release (key_shape t.config) t.keys rec;
    } in
    if has_record_timestamp t
    then record t1 {
      timestamp = update t.timestamp rec (record { tv_sec = pos 0; tv_nsec = pos 0 });
      generation = update t.generation rec 0;
    }
    else t1
