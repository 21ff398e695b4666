-- ===== src/Hashtable/Store/Valid.antt =====
-- When a store holds given fields: `held i` is what record `i` holds, if anything.
use app_c_platform.Base.{
  ℕ, ◌+◌, ◌-◌, ◌≤◌, ◌<◌, ◌^◌, ◌≡◌, ◌≢◌, ◌⊎◌, List, ◌∷◌, ◌++◌, Option, none, some, length, replicate,
}
use app_c_platform.Hashtable.Config.{FieldType, fixed_binary, fixed_string, variable_string}
use app_c_platform.Hashtable.Arena.{FreeBlock}
use app_c_platform.Hashtable.Arena.Region.{IsFreeList, Apart}
use app_c_platform.Hashtable.Store.{Store, StringRef, Shape}
use app_c_platform.Hashtable.Store.Bytes.{NoNul, StandsAt}

-- The descriptor `r` holds the text `t` in the variable-length storage, in no free block.
pub record HeldAt (size : ℕ) (bytes : ℕ → ℕ) (fl : List FreeBlock) (r : StringRef) (t : List ℕ)
    : Type 0 where
  pub long : r.length ≡ length t + 1
  pub fits : r.offset + r.length ≤ size
  pub apart : Apart r.offset r.length fl
  pub stands : StandsAt bytes r.offset t
  pub no_nul : NoNul t

abbrev pub Disjoint : StringRef → StringRef → Type 0
Disjoint a b = (a.offset + a.length ≤ b.offset) ⊎ (b.offset + b.length ≤ a.offset)

-- A variable-length storage: the free list is in order, the fields lie outside it and outside one
-- another, and a record without a field has the empty descriptor.
pub record IsVariable (size : ℕ) (st : Store) (held : ℕ → Option (List ℕ)) : Type 0 where
  pub small : size < 2 ^ 64
  pub free : IsFreeList size st.free_list
  pub each :
      (i : ℕ) (t : List ℕ) → held i ≡ some t → HeldAt size st.bytes st.free_list (st.refs i) t
  pub disjoint :
      (i j : ℕ) (t u : List ℕ)
      → i ≢ j
      → held i ≡ some t
      → held j ≡ some u
      → Disjoint (st.refs i) (st.refs j)
  pub vacant : (i : ℕ) → held i ≡ none → ((st.refs i).offset ≡ 0) × ((st.refs i).length ≡ 0)

-- A fixed-length string area holds the text, its NUL and zeros.
pub record IsString (size : ℕ) (st : Store) (held : ℕ → Option (List ℕ)) : Type 0 where
  pub padded :
      (i : ℕ) (t : List ℕ)
      → held i ≡ some t
      → (st.slots i ≡ t ++ 0 ∷ replicate (size - (length t + 1)) 0) × NoNul t × (length t < size)

pub record IsBinary (size : ℕ) (st : Store) (held : ℕ → Option (List ℕ)) : Type 0 where
  pub plain : (i : ℕ) (t : List ℕ) → held i ≡ some t → (st.slots i ≡ t) × (length t ≡ size)

abbrev pub StoreOf : FieldType → ℕ → ℕ → Store → (ℕ → Option (List ℕ)) → Type 0
StoreOf variable_string fixed_size storage_size st held = IsVariable storage_size st held
StoreOf fixed_string fixed_size storage_size st held = IsString fixed_size st held
StoreOf fixed_binary fixed_size storage_size st held = IsBinary fixed_size st held

-- The store holds exactly the fields `held`.
abbrev pub IsStore : Shape → Store → (ℕ → Option (List ℕ)) → Type 0
IsStore s st held = StoreOf s.type s.fixed_size s.storage_size st held

abbrev pub FieldOf : FieldType → ℕ → ℕ → List ℕ → Type 0
FieldOf variable_string fixed_size storage_size t = NoNul t × (length t < 2 ^ 64 - 1)
FieldOf fixed_string fixed_size storage_size t = NoNul t × (length t < fixed_size)
FieldOf fixed_binary fixed_size storage_size t = length t ≡ fixed_size

-- What a caller may pass as a field: a text without NUL whose size fits a `size_t` and, in a
-- fixed-length string area, the area; or exactly the bytes of a binary area.
abbrev pub IsField : Shape → List ℕ → Type 0
IsField s t = FieldOf s.type s.fixed_size s.storage_size t
