-- ===== src/Hashtable/Modify/InsertDirect.antt =====
-- `cplat_hashtable_insert_direct` of hashtable_modify.c, which a migration and a reader of a saved
-- table use: the record number, the status and the stamp come from the caller. `aliased` says that
-- the key or the value points into the table, and no timestamp is the NULL pointer. A negative
-- status, which is refused as 0 is, is not modelled.
pub mod Placed
pub mod Laws
use app_c_platform.Base.{
  ℕ, zero, suc, ◌+◌, ◌-◌, Bool, true, false, ◌&&◌, ◌||◌, not, List, Option, none, some, ltb, leb,
  ◌==◌, if◌then◌else◌, add64,
}
use app_c_platform.Timespec.{Sign, Timespec, timespec_cmp}
use app_c_platform.Hashtable.Config.{
  Code, invalid_argument, out_of_range, skipped, duplicate_definition, duplicate_key, storage_full,
  lifetime_infinite, rec_empty, rec_in_use, rec_deleted,
}
use app_c_platform.Hashtable.Store.{
  update, store, find_free, hashtable_key_fits, hashtable_fixed_string_fits,
}
use app_c_platform.Hashtable.Table.{
  Table, Reply, ok, err, endless, key_shape, value_shape, bucket_of, has_record_timestamp,
  find_record,
}
use app_c_platform.Hashtable.Query.{bad_record}
use app_c_platform.Hashtable.Modify.{scan_next_empty}

-- `cplat_timespec_cmp(a, b) > 0`.
abbrev pub later : Timespec → Timespec → Bool
later a b = elim (timespec_cmp a b) [ Sign.minus ↦ false | Sign.zero ↦ false | Sign.plus ↦ true ]

-- A stamp goes with exactly the tables that keep one for each record.
unfoldable pub bad_stamp : Table → Option Timespec → ℕ → Bool
bad_stamp t none generation = has_record_timestamp t || not (generation == 0)
bad_stamp t (some time) generation = not (has_record_timestamp t)

-- The record takes the caller's stamp, and the table's stamp rises to it. After `bad_stamp` a stamp is there
-- exactly where the records keep one, which is what the code tests here.
unfoldable pub stamp_direct : Table → ℕ → Option Timespec → ℕ → Table
unfolding timespec_cmp
stamp_direct t rec none generation = t
stamp_direct t rec (some time) generation = record t {
  timestamp = update t.timestamp rec time;
  table_timestamp = if later time t.table_timestamp then time else t.table_timestamp;
  generation = update t.generation rec generation;
  table_generation = if ltb t.table_generation generation then generation else t.table_generation;
}

-- The writes, once the rooms are known.
unfoldable pub place_direct : Table → ℕ → List ℕ → ℕ → List ℕ → Option Timespec → ℕ → ℕ → ℕ → Table
unfolding store stamp_direct scan_next_empty
place_direct t rec key status value timestamp generation key_offset value_offset =
    let idx = bucket_of t key in
    let t1 =
      stamp_direct
        (record t {
          values = store (value_shape t.config) t.values rec value value_offset;
          keys = store (key_shape t.config) t.keys rec key key_offset;
          status = update t.status rec status;
        })
        rec timestamp generation in
    let t2 = record t1 {
      next = update t1.next rec (t1.bucket_head idx);
      bucket_head = update t1.bucket_head idx (rec + 1);
    } in
    record t2 {
      next_empty = if rec + 1 == t2.next_empty then scan_next_empty t2 (rec + 1) else t2.next_empty;
      in_use_count = if status == rec_in_use then add64 t2.in_use_count 1 else t2.in_use_count;
      deleted_count = if status == rec_in_use then t2.deleted_count else add64 t2.deleted_count 1;
    }

-- The search for room: the key's first, and the value's only where the key has room.
unfoldable pub room_direct : Table → ℕ → List ℕ → ℕ → List ℕ → Option Timespec → ℕ → Reply Table
unfolding find_free place_direct
room_direct t rec key status value timestamp generation =
    elim (find_free (key_shape t.config) t.keys rec false key) [
      | none ↦ err storage_full
      | some ko ↦ elim (find_free (value_shape t.config) t.values rec false value) [
        | none ↦ err storage_full
        | some vo ↦ ok (place_direct t rec key status value timestamp generation ko vo)
      ]
    ]

-- A status that ageing would not have left in the table.
abbrev pub omits : Table → ℕ → Bool
omits t status =
    leb rec_deleted status
    && (not (t.config.lifetime == lifetime_infinite) && leb t.config.lifetime status)

-- `cplat_hashtable_insert_direct`.
unfoldable pub insert_direct :
    Table → ℕ → List ℕ → ℕ → List ℕ → Bool → Option Timespec → ℕ → Reply Table
unfolding bad_stamp room_direct find_record
insert_direct t recno key status value aliased timestamp generation =
    if aliased
    then err invalid_argument
    else if bad_stamp t timestamp generation
    then err invalid_argument
    else if ltb status rec_in_use || ltb lifetime_infinite status
    then err invalid_argument
    else if not (hashtable_key_fits (key_shape t.config) key)
    then err out_of_range
    else if not (hashtable_fixed_string_fits t.config.value_type t.config.value_size value)
    then err out_of_range
    else if bad_record t recno
    then err invalid_argument
    else if omits t status
    then err skipped
    else if not (t.status (recno - 1) == rec_empty)
    then err duplicate_definition
    else elim (find_record t key) [
      | none ↦ endless
      | some (suc rec) ↦ err duplicate_key
      | some zero ↦ room_direct t (recno - 1) key status value timestamp generation
    ]
