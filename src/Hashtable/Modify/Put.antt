-- ===== src/Hashtable/Modify/Put.antt =====
-- `hashtable_put` of hashtable_modify.c. `aliased` is the result of `input_points_into_table` on the
-- caller's pointers; NULL arguments and a policy outside the enumeration are not modelled. Where the
-- caller passes no `growth_out`, the request of a refusal is discarded.
use app_c_platform.Base.{
  ℕ, zero, suc, ◌+◌, ◌-◌, Bool, true, false, ◌&&◌, not, List, Option, none, some, ltb, ◌==◌,
  if◌then◌else◌, add64, sub64,
}
use app_c_platform.Timespec.{Timespec}
use app_c_platform.Hashtable.Config.{
  invalid_argument, out_of_range, duplicate_key, storage_full, limit_exceeded, rec_empty,
  rec_in_use, hashtable_field_is_variable,
}
use app_c_platform.Hashtable.Store.{
  update, store, release, find_free, hashtable_key_fits, hashtable_fixed_string_fits,
  hashtable_field_input_size,
}
use app_c_platform.Hashtable.Table.{Table, key_shape, value_shape, bucket_of, find_record}
use app_c_platform.Hashtable.Modify.{
  GrowthRequest, no_request, Change, changed, refused, lost, scan_next_empty, stamp_record,
  find_best_deleted_record, unlink_record, storage_min_for_transaction, value_shortage,
}

-- `cplat_hashtable_add_deleted_policy`.
pub data DeletedPolicy : Type 0 where
  overwrite revive : DeletedPolicy

-- The value of a record is replaced, if room is found for it.
unfoldable pub replace_value : Table → ℕ → List ℕ → Option Table
unfolding find_free store release
replace_value t rec value =
    let s = value_shape t.config in
    elim (find_free s t.values rec true value) [
      | none ↦ none
      | some o ↦ some (record t { values = store s (release s t.values rec) rec value o })
    ]

abbrev pub stamped : Table → ℕ → Timespec → Bool → Change
stamped t rec now inserted = changed (stamp_record t rec now) inserted

-- A value that replaces another, or the refusal.
unfoldable pub put_value : Table → ℕ → List ℕ → Timespec → Change
unfolding replace_value
put_value t rec value now = elim (replace_value t rec value) [
  | none ↦ refused storage_full (value_shortage t value)
  | some t' ↦ stamped t' rec now false
]

-- A deleted record comes back.
unfoldable pub revive_record : Table → ℕ → Timespec → Table
unfolding stamp_record
revive_record t rec now =
    let t1 = stamp_record (record t { status = update t.status rec rec_in_use }) rec now in
    record t1 { deleted_count = sub64 t1.deleted_count 1; in_use_count = add64 t1.in_use_count 1 }

-- The body of the loop of `hashtable_put` at the record that has the key.
unfoldable pub put_existing : Table → ℕ → List ℕ → DeletedPolicy → Bool → Timespec → Change
unfolding put_value revive_record replace_value
put_existing t rec value policy allow_update now =
    if t.status rec == rec_in_use
    then if allow_update then put_value t rec value now else refused duplicate_key no_request
    else elim policy [
      | overwrite ↦ elim (replace_value t rec value) [
        | none ↦ refused storage_full (value_shortage t value)
        | some t' ↦ changed (revive_record t' rec now) true
      ]
      | revive ↦ changed (revive_record t rec now) true
    ]

-- The request where no record can be filled.
unfoldable pub capacity_shortage : Table → List ℕ → List ℕ → GrowthRequest
unfolding storage_min_for_transaction
capacity_shortage t key value =
    let c = t.config in
    let key_min =
      if hashtable_field_is_variable c.key_type
      then storage_min_for_transaction t.keys.used (hashtable_field_input_size c.key_type 0 key)
      else 0 in
    let value_min =
      if hashtable_field_is_variable c.value_type
      then storage_min_for_transaction t.values.used
          (hashtable_field_input_size c.value_type 0 value)
      else 0 in
    record {
      capacity_short = true;
      key_storage_min = key_min;
      key_short = hashtable_field_is_variable c.key_type && ltb c.key_storage_size key_min;
      value_storage_min = value_min;
      value_short = hashtable_field_is_variable c.value_type && ltb c.value_storage_size value_min;
    }

-- The request where a field finds no room; the Booleans say which one does.
unfoldable pub fit_shortage : Table → List ℕ → List ℕ → Bool → Bool → GrowthRequest
unfolding storage_min_for_transaction
fit_shortage t key value key_fits value_fits = record {
  capacity_short = false;
  key_short = not key_fits;
  value_short = not value_fits;
  key_storage_min =
      if key_fits
      then 0
      else storage_min_for_transaction t.keys.used
          (hashtable_field_input_size t.config.key_type 0 key);
  value_storage_min =
      if value_fits
      then 0
      else storage_min_for_transaction t.values.used
          (hashtable_field_input_size t.config.value_type 0 value);
}

-- A deleted record leaves its chain and gives up its fields; an empty one is left as it is.
unfoldable pub vacate : Table → ℕ → Option Table
unfolding unlink_record release
vacate t rec = if t.status rec == rec_empty then some t else elim (unlink_record t rec) [
  | none ↦ none
  | some t1 ↦ some (record t1 {
    deleted_count = sub64 t1.deleted_count 1;
    keys = release (key_shape t1.config) t1.keys rec;
    values = release (value_shape t1.config) t1.values rec;
  })
]

-- The vacant record takes the fields and becomes the head of its bucket.
unfoldable pub fill : Table → ℕ → List ℕ → List ℕ → ℕ → ℕ → Timespec → Table
unfolding store stamp_record scan_next_empty
fill t rec key value key_offset value_offset now =
    let idx = bucket_of t key in
    let t1 =
      stamp_record
        (record t {
          values = store (value_shape t.config) t.values rec value value_offset;
          status = update t.status rec rec_in_use;
          keys = store (key_shape t.config) t.keys rec key key_offset;
        })
        rec now in
    let t2 = record t1 {
      next = update t1.next rec (t1.bucket_head idx);
      bucket_head = update t1.bucket_head idx (rec + 1);
    } in
    record t2 {
      next_empty = if rec + 1 == t2.next_empty then scan_next_empty t2 (rec + 1) else t2.next_empty;
      in_use_count = add64 t2.in_use_count 1;
    }

-- The insertion once the rooms are known.
unfoldable pub put_placed : Table → ℕ → List ℕ → List ℕ → Timespec → Option ℕ → Option ℕ → Change
unfolding vacate fill fit_shortage
put_placed t rec key value now none none =
    refused storage_full (fit_shortage t key value false false)
put_placed t rec key value now none (some vo) =
    refused storage_full (fit_shortage t key value false true)
put_placed t rec key value now (some ko) none =
    refused storage_full (fit_shortage t key value true false)
put_placed t rec key value now (some ko) (some vo) = elim (vacate t rec) [
  | none ↦ lost
  | some t' ↦ changed (fill t' rec key value ko vo now) true
]

-- The insertion into record `rec`.
unfoldable pub put_at : Table → ℕ → List ℕ → List ℕ → Timespec → Change
unfolding find_free put_placed
put_at t rec key value now =
    let replace = not (t.status rec == rec_empty) in
    put_placed t rec key value now (find_free (key_shape t.config) t.keys rec replace key)
      (find_free (value_shape t.config) t.values rec replace value)

-- `rec_no`: the record to fill, or 0.
unfoldable pub choose_record : Table → ℕ
unfolding find_best_deleted_record
choose_record t =
    if (t.next_empty == 0) && t.config.reuse_deleted
    then find_best_deleted_record t (λ i. true)
    else t.next_empty

-- `hashtable_put`.
unfoldable pub hashtable_put :
    Table → List ℕ → List ℕ → Bool → DeletedPolicy → Bool → Timespec → Change
unfolding find_record put_existing put_at choose_record capacity_shortage
hashtable_put t key value aliased policy allow_update now =
    if aliased
    then refused invalid_argument no_request
    else if not (hashtable_key_fits (key_shape t.config) key)
    then refused out_of_range no_request
    else if not (hashtable_fixed_string_fits t.config.value_type t.config.value_size value)
    then refused out_of_range no_request
    else elim (find_record t key) [
      | none ↦ lost
      | some (suc rec) ↦ put_existing t rec value policy allow_update now
      | some zero ↦
          if choose_record t == 0
          then refused limit_exceeded (capacity_shortage t key value)
          else put_at t (choose_record t - 1) key value now
    ]
