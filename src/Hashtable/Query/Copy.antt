-- ===== src/Hashtable/Query/Copy.antt =====
-- The functions of prod/libsrc/cplat/hashtable/hashtable_query.c that copy a field into the caller's
-- buffer. `dest_null` says that the buffer pointer is NULL; the pointer to the required size is not.
pub mod Laws
use app_c_platform.Base.{
  ℕ, zero, suc, ◌+◌, ◌-◌, Bool, ◌&&◌, ◌||◌, not, List, [], ◌∷◌, add64, ltb, ◌==◌, if◌then◌else◌,
  length, take,
}
use app_c_platform.Hashtable.Config.{
  Code, invalid_argument, fixed_binary, fixed_string, variable_string,
}
use app_c_platform.Hashtable.Store.{Store, Shape, until_nul}
use app_c_platform.Hashtable.Table.{Table, Reply, ok, err, endless, key_shape, value_shape}
use app_c_platform.Hashtable.Query.{find_recno, get_key_ref, get_value_ref}

-- How a copying function ends: it tells the size to a NULL buffer, it fills the buffer, the buffer is
-- too short for the size that it tells, or it fails before it tells a size. `spins` means that a
-- chain does not end.
pub data Copy : Type 0 where
  told : ℕ → Copy
  copied : ℕ → List ℕ → Copy
  short : ℕ → Copy
  fails : Code → Copy
  spins : Copy

-- `copy_arguments_are_valid`.
abbrev pub copy_arguments_are_valid : Bool → ℕ → Bool
copy_arguments_are_valid dest_null dest_size =
    (dest_null && dest_size == 0) || (not dest_null && not (dest_size == 0))

-- `stored_value_size` and `stored_key_size`.
unfoldable pub stored_size : Shape → Store → ℕ → ℕ
unfolding until_nul
stored_size s st rec = elim s.type [
  | variable_string ↦ (st.refs rec).length
  | fixed_string ↦ add64 (length (until_nul (st.slots rec))) 1
  | fixed_binary ↦ s.fixed_size
]

-- The `n` bytes from `o` on.
unfoldable pub bytes_from : (ℕ → ℕ) → ℕ → ℕ → List ℕ
bytes_from bytes o zero = []
bytes_from bytes o (suc n) = bytes o ∷ bytes_from bytes (o + 1) n

-- The first `n` bytes at `hashtable_data_at` or `hashtable_entry_key`, which `memcpy` reads.
unfoldable pub area_bytes : Shape → Store → ℕ → ℕ → List ℕ
unfolding bytes_from
area_bytes s st rec n = elim s.type [
  | variable_string ↦ bytes_from st.bytes (st.refs rec).offset n
  | fixed_string ↦ take n (st.slots rec)
  | fixed_binary ↦ take n (st.slots rec)
]

-- `copy_field`, of the bytes that `src` starts with.
unfoldable pub copy_field : (ℕ → List ℕ) → ℕ → Bool → ℕ → Copy
copy_field src required_size dest_null dest_size =
    if (dest_null && not (dest_size == 0)) || (not dest_null && dest_size == 0)
    then fails invalid_argument
    else if dest_null
    then told required_size
    else if ltb dest_size required_size
    then short required_size
    else copied required_size (src required_size)

-- The field of a record.
abbrev pub copy_stored : Shape → Store → ℕ → Bool → ℕ → Copy
copy_stored s st rec = copy_field (area_bytes s st rec) (stored_size s st rec)

-- `cplat_hashtable_find_value_copy`.
unfoldable pub find_value_copy : Table → List ℕ → Bool → ℕ → Copy
unfolding copy_field
find_value_copy t key dest_null dest_size =
    if copy_arguments_are_valid dest_null dest_size
    then elim (find_recno t key) [
      | ok recno ↦ copy_stored (value_shape t.config) t.values (recno - 1) dest_null dest_size
      | err c ↦ fails c
      | endless ↦ spins
    ]
    else fails invalid_argument

-- `cplat_hashtable_get_key_copy`.
unfoldable pub get_key_copy : Table → ℕ → Bool → ℕ → Copy
unfolding copy_field
get_key_copy t recno dest_null dest_size =
    if copy_arguments_are_valid dest_null dest_size
    then elim (get_key_ref t recno) [
      | ok src ↦ copy_stored (key_shape t.config) t.keys (recno - 1) dest_null dest_size
      | err c ↦ fails c
      | endless ↦ spins
    ]
    else fails invalid_argument

-- `cplat_hashtable_get_value_copy`.
unfoldable pub get_value_copy : Table → ℕ → Bool → ℕ → Copy
unfolding copy_field
get_value_copy t recno dest_null dest_size =
    if copy_arguments_are_valid dest_null dest_size
    then elim (get_value_ref t recno) [
      | ok src ↦ copy_stored (value_shape t.config) t.values (recno - 1) dest_null dest_size
      | err c ↦ fails c
      | endless ↦ spins
    ]
    else fails invalid_argument
