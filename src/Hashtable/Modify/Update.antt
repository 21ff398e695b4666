-- ===== src/Hashtable/Modify/Update.antt =====
-- `hashtable_update` and `hashtable_update_rec` of hashtable_modify.c, with the arguments of
-- `hashtable_put`.
use app_c_platform.Base.{ℕ, zero, suc, ◌-◌, Bool, not, List, none, some, ◌==◌, if◌then◌else◌}
use app_c_platform.Timespec.{Timespec}
use app_c_platform.Hashtable.Config.{invalid_argument, out_of_range, not_found, rec_in_use}
use app_c_platform.Hashtable.Store.{hashtable_key_fits, hashtable_fixed_string_fits}
use app_c_platform.Hashtable.Table.{Table, key_shape, find_record}
use app_c_platform.Hashtable.Query.{bad_record}
use app_c_platform.Hashtable.Modify.{no_request, Change, refused, lost}
use app_c_platform.Hashtable.Modify.Put.{put_value}

-- `hashtable_update`.
unfoldable pub hashtable_update : Table → List ℕ → List ℕ → Bool → Timespec → Change
unfolding find_record put_value
hashtable_update t key value aliased now =
    if aliased
    then refused invalid_argument no_request
    else if not (hashtable_key_fits (key_shape t.config) key)
    then refused out_of_range no_request
    else if not (hashtable_fixed_string_fits t.config.value_type t.config.value_size value)
    then refused out_of_range no_request
    else elim (find_record t key) [
      | none ↦ lost
      | some zero ↦ refused not_found no_request
      | some (suc rec) ↦
          if t.status rec == rec_in_use
          then put_value t rec value now
          else refused not_found no_request
    ]

-- `hashtable_update_rec`.
unfoldable pub hashtable_update_rec : Table → ℕ → List ℕ → Bool → Timespec → Change
unfolding put_value
hashtable_update_rec t recno value aliased now =
    if aliased
    then refused invalid_argument no_request
    else if not (hashtable_fixed_string_fits t.config.value_type t.config.value_size value)
    then refused out_of_range no_request
    else if bad_record t recno
    then refused invalid_argument no_request
    else if t.status (recno - 1) == rec_in_use
    then put_value t (recno - 1) value now
    else refused not_found no_request
