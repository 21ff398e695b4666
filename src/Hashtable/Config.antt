-- ===== src/Hashtable/Config.antt =====
-- The data of prod/include/cplat/hashtable/hashtable.h and of the private header
-- prod/libsrc/cplat/hashtable/hashtable.h that every file of the table uses.
use app_c_platform.Base.{ℕ, Bool, true, false}

-- `cplat_hashtable_field_type`.
pub data FieldType : Type 0 where
  fixed_binary fixed_string variable_string : FieldType

-- `cplat_hashtable_timestamp_scope`.
pub data TimestampScope : Type 0 where
  scope_table scope_record : TimestampScope

-- `cplat_hashtable_config`, less its padding.
pub record Config : Type 0 where
  pub capacity : ℕ
  pub key_type : FieldType
  pub value_type : FieldType
  pub timestamp_scope : TimestampScope
  pub key_size : ℕ
  pub value_size : ℕ
  pub key_storage_size : ℕ
  pub value_storage_size : ℕ
  pub value_align : ℕ
  pub lifetime : ℕ
  pub reuse_deleted : Bool

-- `hashtable_field_is_variable`.
unfoldable pub hashtable_field_is_variable : FieldType → Bool
hashtable_field_is_variable fixed_binary = false
hashtable_field_is_variable fixed_string = false
hashtable_field_is_variable variable_string = true

-- `CPLAT_HASHTABLE_LIFETIME_INFINITE` and `CPLAT_HASHTABLE_VALUE_ALIGN_MAX`.
abbrev pub lifetime_infinite : ℕ
lifetime_infinite = 255

abbrev pub value_align_max : ℕ
value_align_max = 16

-- `REC_EMPTY`, `REC_IN_USE` and `REC_DELETED`.
abbrev pub rec_empty : ℕ
rec_empty = 0

abbrev pub rec_in_use : ℕ
rec_in_use = 1

abbrev pub rec_deleted : ℕ
rec_deleted = 2

-- The result codes that the table returns.
pub data Code : Type 0 where
  invalid_argument out_of_range not_found duplicate_key duplicate_definition : Code
  limit_exceeded storage_full unsupported buffer_too_small out_of_memory skipped : Code
  corrupt_descriptor : Code
