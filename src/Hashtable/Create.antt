-- ===== src/Hashtable/Create.antt =====
-- prod/libsrc/cplat/hashtable/hashtable_create.c, and `cplat_hashtable_clear` of hashtable_grow.c.
-- Enumerations out of range and NULL `config` or `ht_out` are not modelled. Whether an allocation
-- succeeds and whether a buffer is aligned are arguments.
pub mod Blank
pub mod Initial
use app_c_platform.Base.{
  ℕ, zero, suc, ◌+◌, ◌-◌, ◌*◌, ◌/◌, ◌%◌, Bool, true, false, ◌&&◌, ◌||◌, not, List, [], Option, none,
  some, ltb, ◌==◌, if◌then◌else◌, add64, replicate,
}
use app_c_platform.Base.Int.{pos}
use app_c_platform.Timespec.{Timespec, timespec}
use app_c_platform.Hashtable.Config.{
  Config, Code, invalid_argument, out_of_memory, buffer_too_small, value_align_max,
  hashtable_field_is_variable,
}
use app_c_platform.Hashtable.Arena.{FreeBlock, arena_reset}
use app_c_platform.Hashtable.Store.{Store, Shape, string_ref}
use app_c_platform.Hashtable.Table.{
  Table, Reply, ok, err, endless, GrowthConfig, key_shape, value_shape,
}
use app_c_platform.Hashtable.Layout.{
  MgmtLayout, add_checked, align_up_checked, and_then, hashtable_mgmt_layout,
  hashtable_data_region_size, hashtable_data_region_align,
}

-- The `&` of two numbers, bit by bit.
unfoldable pub bit_and : ℕ → ℕ → ℕ → ℕ
bit_and zero a b = 0
bit_and (suc bits) a b = a % 2 * (b % 2) + 2 * bit_and bits (a / 2) (b / 2)

-- The size tests of `hashtable_validate_config` on one field: `true` where they fail.
abbrev pub bad_sizes : Bool → ℕ → ℕ → Bool
bad_sizes variable size storage_size =
    if variable
    then not (size == 0) || (storage_size == 0)
    else (size == 0) || not (storage_size == 0)

-- `hashtable_validate_config`: `true` is the return value 0.
unfoldable pub hashtable_validate_config : Config → Bool
unfolding bit_and
hashtable_validate_config c =
    let key_variable = hashtable_field_is_variable c.key_type in
    let value_variable = hashtable_field_is_variable c.value_type in
    if c.capacity == 0
    then false
    else if bad_sizes key_variable c.key_size c.key_storage_size
        || bad_sizes value_variable c.value_size c.value_storage_size
    then false
    else if value_variable && not (c.value_align == 0)
    then false
    else if not (c.value_align == 0)
        && (ltb value_align_max c.value_align
            || not (bit_and 64 c.value_align (c.value_align - 1) == 0))
    then false
    else not (ltb c.lifetime 2)

-- `cplat_hashtable_required_size`: the sizes of the two regions.
unfoldable pub required_size : Config → Reply (ℕ × ℕ)
unfolding hashtable_validate_config hashtable_mgmt_layout hashtable_data_region_size
required_size c =
    if hashtable_validate_config c
    then elim (hashtable_mgmt_layout c) [
      | none ↦ err invalid_argument
      | some layout ↦ elim (hashtable_data_region_size c) [
        | none ↦ err invalid_argument
        | some data_size ↦ ok (layout.mgmt_size, data_size)
      ]
    ]
    else err invalid_argument

-- The areas of all records after they are set to zeros, with the free list that `arena_reset` leaves
-- where the field is variable.
abbrev pub zero_store : Shape → Store
zero_store s = record {
  slots = λ i. replicate s.fixed_size 0;
  refs = λ i. string_ref 0 0;
  bytes = λ x. 0;
  free_list = if hashtable_field_is_variable s.type then arena_reset s.storage_size else [];
  used = 0;
}

-- The handle that `cplat_hashtable_create` returns.
unfoldable pub created : Config → Bool → Table
created c owns_buffer' = record {
  config = c;
  next_empty = 1;
  in_use_count = 0;
  deleted_count = 0;
  table_timestamp = timespec (pos 0) (pos 0);
  table_generation = 0;
  bucket_head = λ b. 0;
  next = λ i. 0;
  status = λ i. 0;
  timestamp = λ i. timespec (pos 0) (pos 0);
  generation = λ i. 0;
  keys = zero_store (key_shape c);
  values = zero_store (value_shape c);
  owns_buffer = owns_buffer';
  growable = false;
  growth = record { max_capacity = 0; max_key_storage_size = 0; max_value_storage_size = 0 };
}

-- `buf_mgmt` and `buf_data`: both NULL, both given with their sizes and whether they are aligned, or
-- one of them NULL.
pub data Buffers : Type 0 where
  own_memory : Buffers
  given : ℕ → ℕ → Bool → Bool → Buffers
  one_missing : Buffers

-- The allocation of both regions in one, or the tests of the caller's regions: `none` where they
-- pass.
unfoldable pub refuse_buffers : Config → Buffers → ℕ → ℕ → Bool → Option Code
unfolding align_up_checked add_checked hashtable_data_region_align
refuse_buffers c own_memory mgmt_size data_size allocated =
    elim (and_then (align_up_checked mgmt_size (hashtable_data_region_align c))
      (λ data_offset. add_checked data_offset data_size)) [
        | none ↦ some invalid_argument
        | some total_size ↦ if allocated then none else some out_of_memory
      ]
refuse_buffers c (given mgmt_given data_given mgmt_aligned data_aligned) mgmt_size data_size
      allocated =
    if ltb mgmt_given mgmt_size
    then some buffer_too_small
    else if not mgmt_aligned
    then some invalid_argument
    else if not data_aligned
    then some invalid_argument
    else if ltb data_given data_size
    then some buffer_too_small
    else none
refuse_buffers c one_missing mgmt_size data_size allocated = some invalid_argument

abbrev pub owns : Buffers → Bool
owns own_memory = true
owns (given m d x y) = false
owns one_missing = false

-- `cplat_hashtable_create`. `allocated` says whether the regions can be allocated, and `handle`
-- whether the handle can.
unfoldable pub hashtable_create : Config → Buffers → Bool → Bool → Reply Table
unfolding required_size refuse_buffers created
hashtable_create c buffers allocated handle = elim (required_size c) [
  | err code ↦ err code
  | endless ↦ endless
  | ok sizes ↦ elim (refuse_buffers c buffers sizes.0 sizes.1 allocated) [
    | some code ↦ err code
    | none ↦ if handle then ok (created c (owns buffers)) else err out_of_memory
  ]
]

-- `hashtable_stamp_table`.
abbrev pub stamp_table : Table → Timespec → Table
stamp_table t now = record t {
  table_timestamp = now;
  table_generation = add64 t.table_generation 1;
}

-- `cplat_hashtable_clear`.
unfoldable pub hashtable_clear : Table → Timespec → Table
hashtable_clear t now =
    stamp_table
      (record t {
        bucket_head = λ b. 0;
        next = λ i. 0;
        status = λ i. 0;
        timestamp = λ i. timespec (pos 0) (pos 0);
        generation = λ i. 0;
        keys = zero_store (key_shape t.config);
        values = zero_store (value_shape t.config);
        next_empty = 1;
        in_use_count = 0;
        deleted_count = 0;
      })
      now
