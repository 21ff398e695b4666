-- ===== src/Hashtable/Tests.antt =====
-- A table of two records with texts of at most three characters as keys and one byte as values.
mod Sizes
mod Calls
use app_c_platform.Base.{
  ℕ, suc, ◌+◌, ◌*◌, ◌≤◌, ◌<◌, ◌≡◌, ◌≢◌, ◌⊎◌, true, false, List, [], ◌∷◌, Option, none, some, refl,
  arith, size_max,
}
use mathlib.Core.Option.{none-ne-some}
use app_c_platform.Base.Int.{pos}
use app_c_platform.Timespec.{Timespec, timespec}
use app_c_platform.Hashtable.Config.{
  Config, Code, not_found, invalid_argument, fixed_binary, fixed_string, scope_table,
  hashtable_field_is_variable,
}
use app_c_platform.Hashtable.Store.{
  Store, update, store, find_free, hashtable_key_fits, hashtable_fixed_string_fits,
}
use app_c_platform.Hashtable.Store.Valid.{IsField}
use app_c_platform.Hashtable.Store.Laws.{store-IsStore}
use app_c_platform.Hashtable.Table.{Table, ok, err, key_shape, value_shape, bucket_of}
use app_c_platform.Hashtable.Query.{find_value_ref}
use app_c_platform.Hashtable.Modify.{find_best_deleted_record}
use app_c_platform.Hashtable.Modify.Put.{overwrite, hashtable_put}
use app_c_platform.Hashtable.Modify.Delete.{hashtable_delete, hashtable_delete_rec}
use app_c_platform.Hashtable.Modify.DeletionByRecord.{hashtable_delete_rec_lem}
use app_c_platform.Hashtable.Modify.Choice.{Eligible, AtLeastAsOld, find_best_deleted_record_lem}
use app_c_platform.Hashtable.Modify.Deletion.{Becomes, hashtable_delete_lem}
use app_c_platform.Hashtable.Modify.Fill.{filled, vacated, filled-IsTable}
use app_c_platform.Hashtable.Modify.Outcome.{PutOutcome}
use app_c_platform.Hashtable.Modify.Putting.{hashtable_put_lem}
use app_c_platform.Hashtable.Modify.{changed, refused, no_request, value_shortage}
use app_c_platform.Hashtable.Modify.Update.{hashtable_update}
use app_c_platform.Hashtable.Modify.Updating.{hashtable_update_lem}
use app_c_platform.Hashtable.Modify.Existing.{Puts}
use app_c_platform.Hashtable.Grow.{growth_target}
use app_c_platform.Hashtable.Config.{storage_full, rec_in_use}
use app_c_platform.Hashtable.Modify.Valid.{IsTable}
use app_c_platform.Hashtable.Modify.View.{Maps, find_value_ref_lem}
use app_c_platform.Hashtable.Layout.{
  hashtable_mgmt_layout, hashtable_data_region_size, sizeof_header, sizeof_uint64, entry_key_offset,
  entry_key_start, key_slot_size,
}
use app_c_platform.Hashtable.Layout.Exact.{ExactTo, Exact}
use app_c_platform.Hashtable.Layout.Sizes.{
  InWord, mgmt_bytes, data_bytes, hashtable_mgmt_layout_lem, hashtable_data_region_size_lem,
}
use app_c_platform.Hashtable.Create.{
  created, own_memory, owns, required_size, refuse_buffers, hashtable_create,
  hashtable_validate_config, hashtable_clear,
}
use app_c_platform.Hashtable.Create.Blank.{nothing, no_chain}
use app_c_platform.Hashtable.Create.Initial.{
  created-IsTable, required_size_lem, hashtable_create_lem, hashtable_clear_lem,
}

abbrev pub config : Config
config = record {
  capacity = 2;
  key_type = fixed_string;
  value_type = fixed_binary;
  timestamp_scope = scope_table;
  key_size = 4;
  value_size = 1;
  key_storage_size = 0;
  value_storage_size = 0;
  value_align = 0;
  lifetime = 3;
  reuse_deleted = false;
}

pub config-InWord : InWord config
config-InWord = record {
  roomy = omega arith;
  capacity = omega arith;
  key_size = omega arith;
  value_size = omega arith;
  key_storage = omega arith;
  value_storage = omega arith;
}

pub config_valid : hashtable_validate_config config ≡ true
unfolding hashtable_validate_config hashtable_field_is_variable
config_valid = refl

pub bytes_needed : mgmt_bytes config config-InWord ≡ 208
unfolding entry_key_offset entry_key_start key_slot_size hashtable_field_is_variable
bytes_needed = refl

pub data_needed : data_bytes config config-InWord ≡ 2
unfolding hashtable_field_is_variable
data_needed = refl

abbrev pub empty : Table
empty = created config true

pub empty-IsTable : IsTable empty no_chain nothing nothing
empty-IsTable =
    created-IsTable config config-InWord true config_valid (omega (arith, bytes_needed))
      (omega (arith, data_needed))

abbrev pub now : Timespec
now = timespec (pos 100) (pos 0)

abbrev pub text : List ℕ
text = 65 ∷ 66 ∷ []

abbrev pub seven : List ℕ
seven = 7 ∷ []

pub text-IsField : IsField (key_shape config) text
text-IsField = ((omega arith, (omega arith, tt)), omega arith)

abbrev keys : Store
keys = store (key_shape config) empty.keys 0 text 0

abbrev values : Store
values = store (value_shape config) empty.values 0 seven 0

-- The table with "AB" mapped to 7.
abbrev pub one : Table
one =
    filled (vacated empty empty.keys empty.values empty.bucket_head empty.next 0) 0 text keys values

abbrev pub chain : ℕ → List ℕ
chain = update no_chain (bucket_of empty text) (0 ∷ [])

abbrev pub key : ℕ → Option (List ℕ)
key = update nothing 0 (some text)

abbrev pub value : ℕ → Option (List ℕ)
value = update nothing 0 (some seven)

pub one-IsTable : IsTable one chain key value
unfolding find_free hashtable_field_is_variable created
one-IsTable =
    filled-IsTable empty no_chain nothing nothing empty-IsTable 0 text seven no_chain nothing
      nothing empty.bucket_head empty.next keys values empty.keys empty.values 0 (omega arith)
      (omega arith) empty-IsTable.linked refl (λ j n. refl) (λ j n. refl) (λ j. none-ne-some text)
      (store-IsStore (key_shape config) empty.keys nothing empty-IsTable.keys 0 text 0 refl
        text-IsField refl)
      (store-IsStore (value_shape config) empty.values nothing empty-IsTable.values 0 seven 0 refl
        refl refl)
      (omega arith)

pub fits : hashtable_key_fits (key_shape config) text ≡ true
unfolding hashtable_key_fits
fits = refl

pub value_fits : hashtable_fixed_string_fits fixed_binary 1 seven ≡ true
unfolding hashtable_fixed_string_fits
value_fits = refl

put_example :
    PutOutcome empty no_chain nothing nothing empty-IsTable text seven overwrite true
      (hashtable_put empty text seven false overwrite true now)
unfolding created
put_example =
    hashtable_put_lem empty no_chain nothing nothing empty-IsTable text seven now refl overwrite
      true fits value_fits text-IsField

delete_example :
    ((t' : Table) × (hashtable_delete one text now ≡ ok t')
      × ((u : List ℕ) × Maps one key value text u)
      × Becomes t' (λ k' u'. (k' ≢ text) × Maps one key value k' u'))
    ⊎ ((hashtable_delete one text now ≡ err not_found)
        × ((u : List ℕ) → ¬ Maps one key value text u))
unfolding created
delete_example = hashtable_delete_lem one chain key value one-IsTable text now fits

find_example :
    ((u : List ℕ) × (find_value_ref one text ≡ ok u) × Maps one key value text u)
    ⊎ ((find_value_ref one text ≡ err not_found) × ((u : List ℕ) → ¬ Maps one key value text u))
unfolding created
find_example = find_value_ref_lem one chain key value one-IsTable text fits

best_example :
    let r = find_best_deleted_record one (λ i. true) in
    ((r ≡ 0) × ((j : ℕ) → j < one.config.capacity → ¬ Eligible one (λ i. true) j))
    ⊎ ((i : ℕ) × (r ≡ suc i)
        × (i < one.config.capacity)
        × Eligible one (λ i. true) i
        × ((j : ℕ)
            → j < one.config.capacity
            → Eligible one (λ i. true) j
            → AtLeastAsOld one (λ i. true) i j))
unfolding created
best_example = find_best_deleted_record_lem one (λ i. true)

clear_example :
    IsTable (hashtable_clear one now) no_chain nothing nothing
    × ((hashtable_clear one now).config ≡ one.config)
unfolding created
clear_example = hashtable_clear_lem one now config-InWord config_valid (omega arith)

update_example :
    ((t' : Table) × (hashtable_update one text seven false now ≡ changed t' false)
      × ((x : List ℕ) × Maps one key value text x)
      × Becomes t' (Puts one key value text seven))
    ⊎ ((hashtable_update one text seven false now ≡ refused storage_full (value_shortage one seven))
        × ((i : ℕ) × (key i ≡ some text)
            × (one.status i ≡ rec_in_use)
            × (find_free (value_shape one.config) one.values i true seven ≡ none)))
    ⊎ ((hashtable_update one text seven false now ≡ refused not_found no_request)
        × ((x : List ℕ) → ¬ Maps one key value text x))
unfolding created
update_example =
    hashtable_update_lem one chain key value one-IsTable text seven now fits value_fits refl

delete_rec_example :
    (t' : Table) × (hashtable_delete_rec one 1 now ≡ ok t')
    × Becomes t' (λ k' u'. (k' ≢ text) × Maps one key value k' u')
unfolding created
delete_rec_example =
    hashtable_delete_rec_lem one chain key value one-IsTable 0 text now refl refl fits
