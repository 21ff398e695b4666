-- ===== src/Hashtable/Query.antt =====
-- prod/libsrc/cplat/hashtable/hashtable_query.c. A result through a pointer argument is the value
-- of `ok`; NULL arguments are not modelled.
pub mod Copy
use app_c_platform.Base.{
  ℕ, zero, suc, ◌+◌, ◌-◌, Bool, ◌||◌, not, List, Option, none, some, ltb, ◌==◌, if◌then◌else◌,
  sub64,
}
use app_c_platform.Timespec.{Timespec}
use app_c_platform.Hashtable.Config.{
  invalid_argument, out_of_range, not_found, unsupported, rec_empty, rec_in_use,
}
use app_c_platform.Hashtable.Store.{hashtable_key_fits}
use app_c_platform.Hashtable.Table.{
  Table, Reply, ok, err, endless, key_shape, entry_key, entry_value, has_record_timestamp,
  find_record,
}

-- `cplat_hashtable_find_recno`.
unfoldable pub find_recno : Table → List ℕ → Reply ℕ
find_recno t key =
    if hashtable_key_fits (key_shape t.config) key
    then elim (find_record t key) [
      | none ↦ endless
      | some cur ↦
          if cur == 0
          then err not_found
          else if t.status (cur - 1) == rec_in_use
          then ok cur
          else err not_found
    ]
    else err out_of_range

-- The rest of each lookup by key, at the record found.
abbrev pub at_record {ℓ} : {A : Type ℓ} → Reply ℕ → (ℕ → A) → Reply A
at_record (ok cur) f = ok (f (cur - 1))
at_record (err c) f = err c
at_record endless f = endless

-- `cplat_hashtable_find_value_ref`: the value that the pointer points to.
unfoldable pub find_value_ref : Table → List ℕ → Reply (List ℕ)
unfolding find_recno
find_value_ref t key = at_record (find_recno t key) (entry_value t)

-- `cplat_hashtable_find_timestamp_ref`.
unfoldable pub find_timestamp_ref : Table → List ℕ → Reply Timespec
unfolding find_recno
find_timestamp_ref t key =
    if has_record_timestamp t then at_record (find_recno t key) t.timestamp else err unsupported

-- `cplat_hashtable_find_generation`.
unfoldable pub find_generation : Table → List ℕ → Reply ℕ
unfolding find_recno
find_generation t key =
    if has_record_timestamp t then at_record (find_recno t key) t.generation else err unsupported

-- `(record == 0) || (record > capacity)`.
abbrev pub bad_record : Table → ℕ → Bool
bad_record t recno = (recno == 0) || ltb t.config.capacity recno

-- The guards of the functions by record number, and what they read.
abbrev pub of_record {ℓ} : {A : Type ℓ} → Table → ℕ → (ℕ → A) → Reply A
of_record t recno f =
    if bad_record t recno
    then err invalid_argument
    else if t.status (recno - 1) == rec_empty
    then err not_found
    else ok (f (recno - 1))

-- `cplat_hashtable_get_key_ref`.
unfoldable pub get_key_ref : Table → ℕ → Reply (List ℕ)
get_key_ref t recno = of_record t recno (entry_key t)

-- `cplat_hashtable_get_value_ref`.
unfoldable pub get_value_ref : Table → ℕ → Reply (List ℕ)
get_value_ref t recno = of_record t recno (entry_value t)

-- `cplat_hashtable_get_timestamp_ref`.
unfoldable pub get_timestamp_ref : Table → ℕ → Reply Timespec
get_timestamp_ref t recno =
    if has_record_timestamp t then of_record t recno t.timestamp else err unsupported

-- `cplat_hashtable_get_generation`.
unfoldable pub get_generation : Table → ℕ → Reply ℕ
get_generation t recno =
    if has_record_timestamp t then of_record t recno t.generation else err unsupported

-- `cplat_hashtable_get_status`.
unfoldable pub get_status : Table → ℕ → Reply ℕ
get_status t recno = if bad_record t recno then err invalid_argument else ok (t.status (recno - 1))

-- The three bits of `status_mask`; a mask with other bits is refused before the loop.
pub record ScanMask : Type 0 where
  pub scan_in_use : Bool
  pub scan_deleted : Bool
  pub scan_empty : Bool

unfoldable pub scan_bit : ScanMask → ℕ → Bool
scan_bit m status =
    if status == rec_empty
    then m.scan_empty
    else if status == rec_in_use
    then m.scan_in_use
    else m.scan_deleted

-- The loop of `cplat_hashtable_next_record` over the `n` records from index `i` on: the record
-- number, or `none` where `*has_record_out` stays 0.
unfoldable pub next_loop : Table → ScanMask → ℕ → ℕ → Option ℕ
unfolding scan_bit
next_loop t m zero i = none
next_loop t m (suc n) i =
    let rest = next_loop t m n (i + 1) in if scan_bit m (t.status i) then some (i + 1) else rest

-- `cplat_hashtable_next_record`.
unfoldable pub next_record : Table → ℕ → ScanMask → Reply (Option ℕ)
unfolding next_loop
next_record t from m =
    if not (m.scan_in_use || m.scan_deleted || m.scan_empty)
    then err invalid_argument
    else if ltb t.config.capacity from
    then err invalid_argument
    else ok (next_loop t m (t.config.capacity - from) from)

-- `cplat_hashtable_count_status`: in use, deleted and empty.
unfoldable pub count_status : Table → ℕ × ℕ × ℕ
count_status t = (
  t.in_use_count,
  t.deleted_count,
  sub64 (sub64 t.config.capacity t.in_use_count) t.deleted_count,
)

-- `cplat_hashtable_count`, `cplat_hashtable_deleted_count` and `cplat_hashtable_empty_count`.
unfoldable pub count : Table → ℕ
unfolding count_status
count t = (count_status t).0

unfoldable pub deleted_count : Table → ℕ
unfolding count_status
deleted_count t = (count_status t).1

unfoldable pub empty_count : Table → ℕ
unfolding count_status
empty_count t = (count_status t).2

-- `cplat_hashtable_get_table_timestamp_ref` and `cplat_hashtable_get_table_generation`.
unfoldable pub get_table_timestamp_ref : Table → Timespec
get_table_timestamp_ref t = t.table_timestamp

unfoldable pub get_table_generation : Table → ℕ
get_table_generation t = t.table_generation

-- The functions `..._val` copy what the pointer of `..._ref` points to.
unfoldable pub find_timestamp_val : Table → List ℕ → Reply Timespec
unfolding find_timestamp_ref
find_timestamp_val t key = elim (find_timestamp_ref t key) [
  | ok src ↦ ok src
  | err c ↦ err c
  | endless ↦ endless
]

unfoldable pub get_timestamp_val : Table → ℕ → Reply Timespec
unfolding get_timestamp_ref
get_timestamp_val t recno = elim (get_timestamp_ref t recno) [
  | ok src ↦ ok src
  | err c ↦ err c
  | endless ↦ endless
]

unfoldable pub get_table_timestamp_val : Table → Timespec
unfolding get_table_timestamp_ref
get_table_timestamp_val t = get_table_timestamp_ref t
