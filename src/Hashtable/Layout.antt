-- ===== src/Hashtable/Layout.antt =====
-- The sizes of the two memory regions: prod/libsrc/cplat/hashtable/hashtable_layout.c. A size that
-- does not fit `size_t` is `none`. The sizes of the C types are those of 64-bit Linux and Windows.
pub mod Exact
pub mod Sizes
use app_c_platform.Base.{
  ℕ, zero, suc, ◌+◌, ◌-◌, ◌*◌, ◌/◌, ◌%◌, Bool, true, false, ◌&&◌, not, Option, none, some, ltb,
  ◌==◌, if◌then◌else◌, size_max, add64, mul64,
}
use app_c_platform.Hashtable.Config.{
  Config, FieldType, fixed_binary, fixed_string, variable_string, TimestampScope, scope_table,
  scope_record, hashtable_field_is_variable,
}

abbrev pub sizeof_uint64 : ℕ
sizeof_uint64 = 8

abbrev pub sizeof_timespec : ℕ
sizeof_timespec = 16

-- `sizeof(struct hashtable_string_ref)` and `sizeof(struct hashtable_free_block)`.
abbrev pub sizeof_string_ref : ℕ
sizeof_string_ref = 16

abbrev pub sizeof_free_block : ℕ
sizeof_free_block = 16

abbrev pub sizeof_header : ℕ
sizeof_header = 160

abbrev pub alignof_uint64 : ℕ
alignof_uint64 = 8

abbrev pub alignof_string_ref : ℕ
alignof_string_ref = 8

abbrev pub entry_timestamp_pad : ℕ
entry_timestamp_pad = 7

-- `hashtable_add_checked`.
unfoldable pub add_checked : ℕ → ℕ → Option ℕ
unfolding add64
add_checked a b = if ltb (size_max - a) b then none else some (add64 a b)

-- `mul_checked`.
unfoldable pub mul_checked : ℕ → ℕ → Option ℕ
unfolding mul64
mul_checked a b = if not (a == 0) && ltb (size_max / a) b then none else some (mul64 a b)

-- `hashtable_align_up_checked`.
unfoldable pub align_up_checked : ℕ → ℕ → Option ℕ
unfolding add_checked
align_up_checked offset alignment =
    let rem = offset % alignment in add_checked offset (if rem == 0 then 0 else alignment - rem)

abbrev pub and_then {ℓ} : {A : Type ℓ} → Option ℕ → (ℕ → Option A) → Option A
and_then none f = none
and_then (some n) f = f n

-- `entry_key_offset` before the alignment of a descriptor.
unfoldable pub entry_key_start : Config → ℕ
entry_key_start c = elim c.timestamp_scope [
  | scope_table ↦ sizeof_uint64 + 1
  | scope_record ↦ sizeof_uint64 + 1 + (entry_timestamp_pad + sizeof_timespec + sizeof_uint64)
]

-- `entry_key_offset`.
unfoldable pub entry_key_offset : Config → ℕ
unfolding entry_key_start
entry_key_offset c =
    let off = entry_key_start c in
    let rem = off % alignof_string_ref in
    if hashtable_field_is_variable c.key_type
    then if rem == 0 then off else off + (alignof_string_ref - rem)
    else off

-- `key_slot_size`.
unfoldable pub key_slot_size : Config → ℕ
key_slot_size c = if hashtable_field_is_variable c.key_type then sizeof_string_ref else c.key_size

-- `value_stride_checked`.
unfoldable pub value_stride_checked : Config → Option ℕ
unfolding align_up_checked
value_stride_checked c =
    if c.value_align == 0 then some c.value_size else align_up_checked c.value_size c.value_align

-- `hashtable_data_region_align`.
unfoldable pub hashtable_data_region_align : Config → ℕ
hashtable_data_region_align c =
    if hashtable_field_is_variable c.value_type
    then alignof_string_ref
    else if c.value_align == 0
    then 1
    else c.value_align

-- `entry_stride_checked`.
unfoldable pub entry_stride_checked : Config → Option ℕ
unfolding add_checked align_up_checked entry_key_offset key_slot_size
entry_stride_checked c =
    and_then (add_checked (entry_key_offset c) (key_slot_size c))
      (λ raw. align_up_checked raw alignof_uint64)

-- `hashtable_free_list_region_size`.
unfoldable pub hashtable_free_list_region_size : Config → Option ℕ
unfolding add_checked mul_checked
hashtable_free_list_region_size c =
    and_then (add_checked c.capacity 1) (λ count. mul_checked count sizeof_free_block)

-- `*off_bucket_head`, `*off_entries` and `*mgmt_size_out`.
pub record MgmtLayout : Type 0 where
  pub off_bucket_head : ℕ
  pub off_entries : ℕ
  pub mgmt_size : ℕ

-- The end of `hashtable_mgmt_layout`, behind the entries: the free list and the storage of the keys.
unfoldable pub key_regions : Config → ℕ → Option ℕ
unfolding hashtable_free_list_region_size add_checked
key_regions c offset =
    and_then
      (if hashtable_field_is_variable c.key_type
        then and_then (hashtable_free_list_region_size c)
            (λ region_size. add_checked offset region_size)
        else some offset)
      (λ offset'. add_checked offset' c.key_storage_size)

-- `hashtable_mgmt_layout`.
unfoldable pub hashtable_mgmt_layout : Config → Option MgmtLayout
unfolding mul_checked add_checked entry_stride_checked key_regions
hashtable_mgmt_layout c = and_then (mul_checked c.capacity sizeof_uint64) (λ heads.
    and_then (add_checked sizeof_header heads) (λ off_entries'.
      and_then (entry_stride_checked c) (λ entry_stride.
        and_then (mul_checked c.capacity entry_stride) (λ entries.
          and_then (add_checked off_entries' entries) (λ offset.
            and_then (key_regions c offset) (λ size. some (record {
              off_bucket_head = sizeof_header;
              off_entries = off_entries';
              mgmt_size = size;
            })))))))

-- `hashtable_data_region_size`.
unfoldable pub hashtable_data_region_size : Config → Option ℕ
unfolding value_stride_checked mul_checked hashtable_free_list_region_size add_checked
hashtable_data_region_size c =
    if hashtable_field_is_variable c.value_type
    then and_then (mul_checked c.capacity sizeof_string_ref) (λ size.
      and_then (hashtable_free_list_region_size c) (λ free_list_size.
        and_then (add_checked size free_list_size)
          (λ size'. add_checked size' c.value_storage_size)))
    else and_then (value_stride_checked c) (λ stride. mul_checked c.capacity stride)
