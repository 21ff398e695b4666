-- ===== src/Hashtable/Store.antt =====
-- The bytes of the keys, or of the values, of all records: the two halves of
-- prod/libsrc/cplat/hashtable/hashtable_arena.c that store and release a field, and
-- hashtable_key.c. The C code has each function twice, for keys and for values, with the same body
-- over other areas; here both act on a `Store`. A field that a caller passes is the list of its
-- bytes: the text before the NUL for a string type, all `fixed_size` bytes for a binary one.
pub mod Bytes
pub mod Valid
pub mod Variable
pub mod Laws
mod Tests
use app_c_platform.Base.{
  ℕ, zero, suc, ◌+◌, ◌-◌, ◌*◌, ◌%◌, Bool, true, false, ◌&&◌, List, [], ◌∷◌, ◌++◌, Option, none,
  some, add64, sub64, mul64, ltb, leb, ◌==◌, if◌then◌else◌, length, replicate, get_or, ==_iff,
  ne→==, ◌≡◌, ◌≢◌,
}
use app_c_platform.Hashtable.Config.{
  FieldType, fixed_binary, fixed_string, variable_string, hashtable_field_is_variable,
}
use app_c_platform.Hashtable.Arena.{
  FreeBlock, block, arena_reset, arena_find_fit, arena_take, arena_give,
}

-- `struct hashtable_string_ref`.
pub record StringRef : Type 0 where
  pub offset : ℕ
  pub length : ℕ

abbrev pub string_ref : ℕ → ℕ → StringRef
string_ref o n = record { offset = o; length = n }

-- `slots` are the fixed-length areas of the records, `refs` the descriptors and `bytes` the
-- variable-length storage, with its free list and its used bytes.
pub record Store : Type 0 where
  pub slots : ℕ → List ℕ
  pub refs : ℕ → StringRef
  pub bytes : ℕ → ℕ
  pub free_list : List FreeBlock
  pub used : ℕ

-- What `config` says of a field.
pub record Shape : Type 0 where
  pub type : FieldType
  pub fixed_size : ℕ
  pub storage_size : ℕ

-- A write to one element of an array.
abbrev pub update {ℓ} : {A : Type ℓ} → (ℕ → A) → ℕ → A → ℕ → A
update f i v j = if j == i then v else f j

pub update_hit {ℓ} : {A : Type ℓ} (f : ℕ → A) (i : ℕ) (v : A) (j : ℕ) → j ≡ i → update f i v j ≡ v
update_hit f i v j e = rw ((==_iff j i).1 e)

pub update_miss {ℓ} :
    {A : Type ℓ} (f : ℕ → A) (i : ℕ) (v : A) (j : ℕ) → j ≢ i → update f i v j ≡ f j
update_miss f i v j e = rw (ne→== j i e)

-- `memset(storage + offset, 0, length)` and `memcpy(storage + offset, text, length)`.
abbrev pub clear_bytes : (ℕ → ℕ) → ℕ → ℕ → ℕ → ℕ
clear_bytes bytes o n x = if leb o x && ltb x (o + n) then 0 else bytes x

abbrev pub write_bytes : (ℕ → ℕ) → ℕ → List ℕ → ℕ → ℕ
write_bytes bytes o text x =
    if leb o x && ltb x (o + length text) then get_or text (x - o) 0 else bytes x

-- The text of a C string that starts at `o`, before its NUL, in at most `fuel` bytes.
unfoldable pub c_string : (ℕ → ℕ) → ℕ → ℕ → List ℕ
c_string bytes o zero = []
c_string bytes o (suc fuel) = if bytes o == 0 then [] else bytes o ∷ c_string bytes (o + 1) fuel

-- The text of a C string in a fixed-length area.
unfoldable pub until_nul : List ℕ → List ℕ
until_nul [] = []
until_nul (c ∷ cs) = if c == 0 then [] else c ∷ until_nul cs

-- `hashtable_entry_key` and `hashtable_data_at`, read as the field that stands there.
unfoldable pub stored : Shape → Store → ℕ → List ℕ
unfolding c_string until_nul
stored s st rec = elim s.type [
  | variable_string ↦ c_string st.bytes (st.refs rec).offset (s.storage_size - (st.refs rec).offset)
  | fixed_string ↦ until_nul (st.slots rec)
  | fixed_binary ↦ st.slots rec
]

-- `hashtable_field_input_size`.
unfoldable pub hashtable_field_input_size : FieldType → ℕ → List ℕ → ℕ
hashtable_field_input_size variable_string fixed_size value = add64 (length value) 1
hashtable_field_input_size fixed_string fixed_size value = fixed_size
hashtable_field_input_size fixed_binary fixed_size value = fixed_size

-- `hashtable_key_fits`.
unfoldable pub hashtable_key_fits : Shape → List ℕ → Bool
hashtable_key_fits s key = elim s.type [
  | fixed_binary ↦ true
  | variable_string ↦ ltb (length key) s.storage_size
  | fixed_string ↦ ltb (length key) s.fixed_size
]

-- `hashtable_fixed_string_fits`.
unfoldable pub hashtable_fixed_string_fits : FieldType → ℕ → List ℕ → Bool
hashtable_fixed_string_fits fixed_string fixed_size value = ltb (length value) fixed_size
hashtable_fixed_string_fits fixed_binary fixed_size value = true
hashtable_fixed_string_fits variable_string fixed_size value = true

-- The loop of `hashtable_hash_key`: `hash * 33 + c` in 64 bits.
unfoldable pub hash_loop : ℕ → List ℕ → ℕ
hash_loop hash [] = hash
hash_loop hash (c ∷ cs) = hash_loop (add64 (add64 (mul64 hash 32) hash) c) cs

-- `hashtable_hash_key`.
unfoldable pub hashtable_hash_key : ℕ → List ℕ → ℕ
unfolding hash_loop
hashtable_hash_key capacity key = hash_loop 5381 key % capacity

-- `strcmp` and `memcmp` at 0, the tests of `hashtable_key_equal`.
unfoldable pub hashtable_key_equal : List ℕ → List ℕ → Bool
hashtable_key_equal [] [] = true
hashtable_key_equal [] (d ∷ ds) = false
hashtable_key_equal (c ∷ cs) [] = false
hashtable_key_equal (c ∷ cs) (d ∷ ds) = c == d && hashtable_key_equal cs ds

-- `hashtable_release_key` and `hashtable_release_value`.
unfoldable pub release : Shape → Store → ℕ → Store
release s st rec =
    let ref = st.refs rec in
    if hashtable_field_is_variable s.type
    then record st {
      bytes = clear_bytes st.bytes ref.offset ref.length;
      free_list = arena_give st.free_list ref.offset ref.length;
      used = sub64 st.used ref.length;
      refs = update st.refs rec (string_ref 0 0);
    }
    else record st { slots = update st.slots rec (replicate s.fixed_size 0) }

-- `hashtable_key_store` and `hashtable_value_store`.
unfoldable pub store : Shape → Store → ℕ → List ℕ → ℕ → Store
store s st rec field storage_offset = elim s.type [
  | variable_string ↦
      let length' = add64 (length field) 1 in
      record st {
        free_list = arena_take st.free_list storage_offset length';
        refs = update st.refs rec (string_ref storage_offset length');
        bytes = write_bytes st.bytes storage_offset (field ++ 0 ∷ []);
        used = add64 st.used length';
      }
  | fixed_string ↦ record st {
    slots = update st.slots rec (field ++ 0 ∷ replicate (s.fixed_size - (length field + 1)) 0);
  }
  | fixed_binary ↦ record st { slots = update st.slots rec field }
]

-- `hashtable_key_storage_find_free` and `hashtable_value_storage_find_free`: `some offset` is the
-- return value 1.
unfoldable pub find_free : Shape → Store → ℕ → Bool → List ℕ → Option ℕ
find_free s st rec replace field =
    let own = if replace then st.refs rec else string_ref 0 0 in
    let needed = hashtable_field_input_size s.type 0 field in
    if hashtable_field_is_variable s.type
    then arena_find_fit st.free_list own.offset own.length needed
    else some 0
