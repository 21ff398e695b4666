-- ===== src/Hashtable/Modify/Delete.antt =====
-- `cplat_hashtable_delete` and `cplat_hashtable_delete_rec` of hashtable_modify.c.
use app_c_platform.Base.{
  ℕ, zero, suc, ◌+◌, ◌-◌, ◌||◌, List, Option, none, some, ltb, leb, ◌==◌, if◌then◌else◌, add64,
  sub64,
}
use app_c_platform.Timespec.{Timespec}
use app_c_platform.Hashtable.Config.{
  invalid_argument, out_of_range, not_found, rec_in_use, rec_deleted,
}
use app_c_platform.Hashtable.Store.{update, hashtable_key_fits, hashtable_key_equal}
use app_c_platform.Hashtable.Table.{Table, Reply, ok, err, endless, key_shape, entry_key, bucket_of}
use app_c_platform.Hashtable.Query.{bad_record}
use app_c_platform.Hashtable.Modify.{Link, head, after, read_link, cut, stamp_record, expire_record}

-- The loop of `cplat_hashtable_delete`: the link to the record that has the key, `some none` at the
-- end of the chain, and `none` where the fuel ran out.
unfoldable pub find_link : Table → List ℕ → ℕ → Link → Option (Option Link)
find_link t key zero link = none
find_link t key (suc fuel) link =
    let cur = read_link t link in
    let rest = find_link t key fuel (after (cur - 1)) in
    if cur == 0
    then some none
    else if hashtable_key_equal (entry_key t (cur - 1)) key
    then some (some link)
    else rest

-- The record becomes empty at once and leaves its chain.
unfoldable pub drop_record : Table → Link → ℕ → Table
unfolding expire_record cut
drop_record t link rec =
    let t1 = cut (expire_record t rec) link rec in
    record t1 {
      next_empty =
          if (t1.next_empty == 0) || ltb (rec + 1) t1.next_empty then rec + 1 else t1.next_empty;
    }

-- The record is marked as deleted.
unfoldable pub mark_deleted : Table → ℕ → Timespec → Table
unfolding stamp_record
mark_deleted t rec now =
    let t1 = stamp_record (record t { status = update t.status rec rec_deleted }) rec now in
    record t1 { in_use_count = sub64 t1.in_use_count 1 }

-- The body of the loop at that record.
unfoldable pub delete_at : Table → Link → ℕ → Timespec → Table
unfolding mark_deleted drop_record
delete_at t link rec now =
    let t1 = mark_deleted t rec now in
    if leb t.config.lifetime rec_deleted
    then drop_record t1 link rec
    else record t1 { deleted_count = add64 t1.deleted_count 1 }

-- `cplat_hashtable_delete`.
unfoldable pub hashtable_delete : Table → List ℕ → Timespec → Reply Table
unfolding find_link delete_at
hashtable_delete t key now =
    if hashtable_key_fits (key_shape t.config) key
    then elim (find_link t key (t.config.capacity + 1) (head (bucket_of t key))) [
      | none ↦ endless
      | some none ↦ err not_found
      | some (some link) ↦
          let rec = read_link t link - 1 in
          if t.status rec == rec_in_use then ok (delete_at t link rec now) else err not_found
    ]
    else err out_of_range

-- `cplat_hashtable_delete_rec`.
unfoldable pub hashtable_delete_rec : Table → ℕ → Timespec → Reply Table
unfolding hashtable_delete
hashtable_delete_rec t recno now =
    if bad_record t recno
    then err invalid_argument
    else if t.status (recno - 1) == rec_in_use
    then hashtable_delete t (entry_key t (recno - 1)) now
    else err not_found
