-- ===== src/Hashtable/Tests/Sizes.antt =====
-- The sizes of the regions, the creation and the growth of that table.
use app_c_platform.Base.{ℕ, ◌+◌, ◌*◌, ◌≤◌, ◌<◌, ◌≡◌, ◌⊎◌, true, false, none, some, size_max}
use app_c_platform.Hashtable.Config.{Code, invalid_argument}
use app_c_platform.Hashtable.Table.{ok, err}
use app_c_platform.Hashtable.Modify.Valid.{IsTable}
use app_c_platform.Hashtable.Layout.{
  hashtable_mgmt_layout, hashtable_data_region_size, sizeof_header, sizeof_uint64,
}
use app_c_platform.Hashtable.Layout.Exact.{ExactTo, Exact}
use app_c_platform.Hashtable.Layout.Sizes.{
  mgmt_bytes, data_bytes, hashtable_mgmt_layout_lem, hashtable_data_region_size_lem,
}
use app_c_platform.Hashtable.Create.{
  created, own_memory, owns, required_size, refuse_buffers, hashtable_create,
  hashtable_validate_config,
}
use app_c_platform.Hashtable.Create.Blank.{nothing, no_chain}
use app_c_platform.Hashtable.Create.Initial.{required_size_lem, hashtable_create_lem}
use app_c_platform.Hashtable.Tests.{config, config-InWord, config_valid}

abbrev limit : ℕ
limit = 12

mgmt_layout_example :
    ExactTo
      (hashtable_mgmt_layout config)
      (record {
        off_bucket_head = sizeof_header;
        off_entries = sizeof_header + 2 * sizeof_uint64;
        mgmt_size = mgmt_bytes config config-InWord;
      })
      (mgmt_bytes config config-InWord)
mgmt_layout_example = hashtable_mgmt_layout_lem config config-InWord

data_region_example : Exact (hashtable_data_region_size config) (data_bytes config config-InWord)
data_region_example = hashtable_data_region_size_lem config config-InWord

required_example :
    ((required_size config ≡ ok (mgmt_bytes config config-InWord, data_bytes config config-InWord))
      × (mgmt_bytes config config-InWord ≤ size_max)
      × (data_bytes config config-InWord ≤ size_max))
    ⊎ ((required_size config ≡ err invalid_argument)
        × ((size_max < mgmt_bytes config config-InWord)
            ⊎ (size_max < data_bytes config config-InWord)))
required_example = required_size_lem config config-InWord config_valid

create_example :
    ((hashtable_create config own_memory true true ≡ ok (created config (owns own_memory)))
      × IsTable (created config (owns own_memory)) no_chain nothing nothing
      × (hashtable_validate_config config ≡ true)
      × (mgmt_bytes config config-InWord ≤ size_max)
      × (data_bytes config config-InWord ≤ size_max)
      × (refuse_buffers config own_memory
            (mgmt_bytes config config-InWord)
            (data_bytes config config-InWord)
            true
          ≡ none)
      × (true ≡ true))
    ⊎ ((code : Code) × (hashtable_create config own_memory true true ≡ err code)
        × ((hashtable_validate_config config ≡ false)
            ⊎ (size_max < mgmt_bytes config config-InWord)
            ⊎ (size_max < data_bytes config config-InWord)
            ⊎ (refuse_buffers config own_memory
                  (mgmt_bytes config config-InWord)
                  (data_bytes config config-InWord)
                  true
                ≡ some code)
            ⊎ (true ≡ false)))
create_example = hashtable_create_lem config config-InWord own_memory true true
