-- ===== src/Hashtable/Run.antt =====
-- Sequences of calls of the hash table, of hashtable_modify.c, hashtable_create.c and hashtable_grow.c,
-- beside the finite map that they build.
pub mod Laws
mod Inserts
mod Puts
pub mod Reach
use app_c_platform.Base.{
  ℕ, ◌≡◌, ◌⊎◌, Bool, true, false, List, [], ◌∷◌, Option, none, some, if◌then◌else◌, suc, ◌<◌, ◌≤◌,
}
use app_c_platform.Timespec.{Timespec}
use app_c_platform.Hashtable.Config.{Config, not_found, rec_in_use, rec_deleted, lifetime_infinite}
use app_c_platform.Hashtable.Store.{
  hashtable_key_equal, hashtable_key_fits, hashtable_fixed_string_fits,
}
use app_c_platform.Hashtable.Store.Valid.{IsField}
use app_c_platform.Hashtable.Table.{Table, Reply, ok, err, key_shape, value_shape}
use app_c_platform.Hashtable.Query.{find_recno, get_key_ref, get_value_ref, get_status}
use app_c_platform.Hashtable.Modify.{changed}
use app_c_platform.Hashtable.Modify.Put.{DeletedPolicy, overwrite, revive, hashtable_put}
use app_c_platform.Hashtable.Modify.Update.{hashtable_update}
use app_c_platform.Hashtable.Modify.Delete.{hashtable_delete, hashtable_delete_rec}
use app_c_platform.Hashtable.Modify.InsertDirect.{bad_stamp, insert_direct}
use app_c_platform.Hashtable.Modify.Purge.{push_deleted, purge_deleted}
use app_c_platform.Hashtable.Create.{created, hashtable_clear}

-- What successful calls do to the map, the last first.
pub data Event : Type 0 where
  sets : List ℕ → List ℕ → Event
  removes : List ℕ → Event

-- The value that the events leave at a key.
unfoldable pub lookup : List Event → List ℕ → Option (List ℕ)
lookup [] k = none
lookup (sets k' u ∷ log) k = if hashtable_key_equal k' k then some u else lookup log k
lookup (removes k' ∷ log) k = if hashtable_key_equal k' k then none else lookup log k

-- The answer of a query that finds the value or nothing.
abbrev pub answer : Option (List ℕ) → Reply (List ℕ)
answer none = err not_found
answer (some u) = ok u

-- A key and a value of lengths that the table takes, with no NUL in a string.
pub record IsPair (t : Table) (k u : List ℕ) : Type 0 where
  pub key_fits : hashtable_key_fits (key_shape t.config) k ≡ true
  pub value_fits : hashtable_fixed_string_fits t.config.value_type t.config.value_size u ≡ true
  pub key_field : IsField (key_shape t.config) k
  pub value_field : IsField (value_shape t.config) u

-- What the queries by record number say of a deleted record of the key: it keeps the value `w`.
pub record IsDeleted (t : Table) (r : ℕ) (k w : List ℕ) : Type 0 where
  pub key_of : get_key_ref t r ≡ ok k
  pub value_of : get_value_ref t r ≡ ok w
  pub status_of : (s : ℕ) × (get_status t r ≡ ok s) × (rec_in_use < s)

-- Every record of the key that the queries tell of is in use.
abbrev pub NoneDeleted : Table → List ℕ → Type 0
NoneDeleted t k = (r : ℕ) → get_key_ref t r ≡ ok k → get_status t r ≡ ok rec_in_use

-- The tables that successful calls lead to from a new one of the configuration. A call that is refused
-- changes nothing and is no step. A put sets the key to its value, save that a deleted record of the
-- key comes back under the policy `revive` with the value that it kept before the call.
pub data Run (c : Config) : List Event → Table → Type 0 where
  creates : (owns_memory : Bool) → Run c [] (created c owns_memory)
  writes :
      (log : List Event) (t t' : Table) (k u : List ℕ) (policy : DeletedPolicy)
      (allow_update inserted : Bool) (now : Timespec)
      → Run c log t
      → IsPair t k u
      → (policy ≡ overwrite) ⊎ NoneDeleted t k
      → hashtable_put t k u false policy allow_update now ≡ changed t' inserted
      → Run c (sets k u ∷ log) t'
  revives :
      (log : List Event) (t t' : Table) (r : ℕ) (k u w : List ℕ) (allow_update inserted : Bool)
      (now : Timespec)
      → Run c log t
      → IsPair t k u
      → IsDeleted t r k w
      → hashtable_put t k u false revive allow_update now ≡ changed t' inserted
      → Run c (sets k w ∷ log) t'
  updates :
      (log : List Event) (t t' : Table) (k u : List ℕ) (inserted : Bool) (now : Timespec)
      → Run c log t
      → IsPair t k u
      → hashtable_update t k u false now ≡ changed t' inserted
      → Run c (sets k u ∷ log) t'
  deletes :
      (log : List Event) (t t' : Table) (k : List ℕ) (now : Timespec)
      → Run c log t
      → hashtable_key_fits (key_shape t.config) k ≡ true
      → hashtable_delete t k now ≡ ok t'
      → Run c (removes k ∷ log) t'
  deletes_record :
      (log : List Event) (t t' : Table) (k : List ℕ) (r : ℕ) (now : Timespec)
      → Run c log t
      → hashtable_key_fits (key_shape t.config) k ≡ true
      → find_recno t k ≡ ok r
      → hashtable_delete_rec t r now ≡ ok t'
      → Run c (removes k ∷ log) t'
  inserts :
      (log : List Event) (t t' : Table) (i : ℕ) (k u : List ℕ) (time : Option Timespec) (gen : ℕ)
      → Run c log t
      → IsPair t k u
      → i < t.config.capacity
      → bad_stamp t time gen ≡ false
      → insert_direct t (suc i) k rec_in_use u false time gen ≡ ok t'
      → Run c (sets k u ∷ log) t'
  inserts_deleted :
      (log : List Event) (t t' : Table) (i s : ℕ) (k u : List ℕ) (time : Option Timespec) (gen : ℕ)
      → Run c log t
      → IsPair t k u
      → i < t.config.capacity
      → rec_deleted ≤ s
      → s ≤ lifetime_infinite
      → bad_stamp t time gen ≡ false
      → insert_direct t (suc i) k s u false time gen ≡ ok t'
      → Run c log t'
  ages : (log : List Event) (t t' : Table) → Run c log t → push_deleted t ≡ some t' → Run c log t'
  purges :
      (log : List Event) (t t' : Table) → Run c log t → purge_deleted t ≡ some t' → Run c log t'
  clears :
      (log : List Event) (t : Table) (now : Timespec)
      → Run c log t
      → t.config ≡ c
      → Run c [] (hashtable_clear t now)
