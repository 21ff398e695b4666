-- ===== src/Hashtable/Tests/Calls.antt =====
-- Sweeps of a table of one record, and a sequence of calls that leads to it.
use app_c_platform.Hashtable.Modify.Delete.{hashtable_delete, find_link, delete_at, mark_deleted}
use app_c_platform.Hashtable.Modify.InsertDirect.Laws.{insert_direct_lem, Direct}
use app_c_platform.Hashtable.Modify.InsertDirect.{insert_direct, bad_stamp}
use app_c_platform.Hashtable.Query.Copy.Laws.{find_value_copy_lem, copy_of, image}
use app_c_platform.Hashtable.Query.Copy.{find_value_copy, fails}
use app_c_platform.Base.{
  ℕ, ◌<◌, ◌≡◌, true, false, List, [], ◌∷◌, some, refl, arith, add64, sub64, ◌⊎◌, none, inl, mul64,
}
use app_c_platform.Hashtable.Table.{Table, key_shape, find_record, walk, Reply, ok, err, endless}
use app_c_platform.Hashtable.Query.{find_value_ref, get_key_ref, get_value_ref, get_status}
use app_c_platform.Hashtable.Store.{
  hashtable_key_fits, hash_loop, hashtable_hash_key, hashtable_key_equal,
  hashtable_field_input_size, hashtable_fixed_string_fits, store, release, find_free, stored,
  c_string, until_nul,
}
use app_c_platform.Hashtable.Create.{created}
use app_c_platform.Hashtable.Config.{hashtable_field_is_variable, not_found}
use app_c_platform.Hashtable.Modify.{
  Change, changed, refused, lost, stamp_record, find_best_deleted_record, scan_next_empty,
  scan_loop, unlink_record, unlink_loop,
}
use app_c_platform.Hashtable.Modify.Put.{
  overwrite, hashtable_put, choose_record, put_at, put_placed, fill, vacate, fit_shortage, revive,
  put_existing, revive_record,
}
use app_c_platform.Hashtable.Modify.Deletion.{Becomes}
use app_c_platform.Hashtable.Modify.View.{Maps}
use app_c_platform.Hashtable.Modify.Purge.{push_deleted, purge_deleted}
use app_c_platform.Hashtable.Modify.Purge.Rounds.{older, purged}
use app_c_platform.Hashtable.Modify.Purge.Laws.{push_deleted_lem, purge_deleted_lem}
use app_c_platform.Hashtable.Run.{
  Event, sets, lookup, answer, Run, creates, writes, removes, revives, deletes, IsPair, IsDeleted,
}
use app_c_platform.Hashtable.Run.Laws.{Described}
use app_c_platform.Hashtable.Run.Reach.{find_value_ref-Run}
use app_c_platform.Hashtable.Tests.{
  config, config-InWord, config_valid, bytes_needed, data_needed, empty, text, seven, now, one,
  chain, key, value, one-IsTable, fits, value_fits, text-IsField,
}

push_example :
    (t' : Table) × (push_deleted one ≡ some t')
    × Becomes t' (Maps one key value)
    × ((i : ℕ) → i < one.config.capacity → t'.status i ≡ older one.config.lifetime (one.status i))
unfolding created
push_example = push_deleted_lem one chain key value one-IsTable

purge_example :
    (t' : Table) × (purge_deleted one ≡ some t')
    × Becomes t' (Maps one key value)
    × ((i : ℕ) → i < one.config.capacity → t'.status i ≡ purged (one.status i))
unfolding created
purge_example = purge_deleted_lem one chain key value one-IsTable

abbrev table_of : Change → Table
table_of (changed t b) = t
table_of (refused c r) = empty
table_of lost = empty

abbrev table_left : Reply Table → Table
table_left (ok t) = t
table_left (err c) = empty
table_left endless = empty

abbrev eight : List ℕ
eight = 8 ∷ []

abbrev after_put : Table
after_put = table_of (hashtable_put empty text seven false overwrite true now)

abbrev after_delete : Table
after_delete = table_left (hashtable_delete after_put text now)

abbrev after_revive : Table
after_revive = table_of (hashtable_put after_delete text eight false revive true now)

-- Every call of the sequence succeeds, and the deleted record keeps its key and its value.
calls_succeed :
    (hashtable_put empty text seven false overwrite true now ≡ changed after_put true)
    × (hashtable_delete after_put text now ≡ ok after_delete)
    × IsDeleted after_delete 1 text seven
    × IsPair after_delete text eight
    × (hashtable_put after_delete text eight false revive true now ≡ changed after_revive true)
    × (hashtable_key_fits (key_shape after_put.config) text ≡ true)
unfolding hashtable_put choose_record put_at put_placed fill vacate fit_shortage stamp_record add64
    sub64 find_record walk store release find_free find_best_deleted_record scan_next_empty
    scan_loop stored c_string until_nul hashtable_key_fits hashtable_fixed_string_fits
    hashtable_hash_key hash_loop hashtable_key_equal hashtable_field_is_variable
    hashtable_field_input_size created unlink_record unlink_loop hashtable_delete find_link
    delete_at mark_deleted put_existing revive_record get_key_ref get_value_ref get_status mul64
calls_succeed = (
  refl,
  refl,
  record { key_of = refl; value_of = refl; status_of = (2, refl, omega arith) },
  record {
    key_fits = refl;
    value_fits = refl;
    key_field = ((omega arith, (omega arith, tt)), omega arith);
    value_field = refl;
  },
  refl,
  refl,
)

abbrev log : List Event
log = sets text seven ∷ removes text ∷ sets text seven ∷ []

text_revived : Run config log after_revive
unfolding created
text_revived =
    let pair : IsPair empty text seven = record {
      key_fits = fits;
      value_fits = value_fits;
      key_field = text-IsField;
      value_field = refl;
    } in
    let (put, delete, deleted, pair', revived, fits') = calls_succeed in
    revives (removes text ∷ sets text seven ∷ []) after_delete after_revive 1 text eight seven true
      true now
      (deletes (sets text seven ∷ []) after_put after_delete text now
        (writes [] empty after_put text seven overwrite true true now (creates true) pair (inl refl)
          put)
        fits' delete)
      pair' deleted revived

lookup_example :
    Becomes after_revive (Described log)
    × ((k : List ℕ)
        → hashtable_key_fits (key_shape after_revive.config) k ≡ true
        → find_value_ref after_revive k ≡ answer (lookup log k))
lookup_example =
    find_value_ref-Run config config-InWord config_valid (omega (arith, bytes_needed))
      (omega (arith, data_needed)) (omega arith) log after_revive text_revived

copy_example :
    ((u : List ℕ) × Maps one key value text u
      × (find_value_copy one text false 4 ≡ copy_of (image one.config.value_type u) false 4))
    ⊎ ((find_value_copy one text false 4 ≡ fails not_found)
        × ((u : List ℕ) → ¬ Maps one key value text u))
unfolding created
copy_example =
    find_value_copy_lem one chain key value one-IsTable text false 4 refl (omega arith) fits

abbrev letter : List ℕ
letter = 67 ∷ []

insert_direct_example :
    Direct one chain key value one-IsTable 1 letter seven 2 none 0
      (insert_direct one 2 letter 2 seven false none 0)
unfolding created bad_stamp hashtable_key_fits hashtable_fixed_string_fits
insert_direct_example =
    insert_direct_lem one chain key value one-IsTable 1 letter seven 2 none 0 (omega arith)
      (omega arith) (omega arith) refl refl refl ((omega arith, tt), omega arith) refl
