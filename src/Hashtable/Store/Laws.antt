-- ===== src/Hashtable/Store/Laws.antt =====
-- Proofs about `store`, `release`, `find_free` and `stored`, for each field type.
use native.Mathlib.Decide.{ℕ_discrete}
use mathlib.Core.Path.{fun_ext}
use app_c_platform.Base.{
  ℕ, ◌+◌, ◌-◌, ◌≡◌, inr, true, false, List, [], ◌∷◌, Option, none, some, length, replicate, arith,
  refl, sym, subst, ◌∙◌, add64-eq, add64, sub64,
}
use app_c_platform.Hashtable.Config.{
  FieldType, fixed_binary, fixed_string, variable_string, hashtable_field_is_variable,
}
use app_c_platform.Hashtable.Arena.{FreeBlock, arena_give}
use app_c_platform.Hashtable.Arena.Region.{Apart, Inside}
use app_c_platform.Hashtable.Arena.Replace.{found-Inside}
use app_c_platform.Hashtable.Store.{
  Store, Shape, update, update_hit, update_miss, stored, store, release, find_free,
  hashtable_field_input_size,
}
use app_c_platform.Hashtable.Store.Bytes.{c_string-eq, until_nul-eq}
use app_c_platform.Hashtable.Store.Valid.{IsStore, IsField}
use app_c_platform.Hashtable.Store.Variable.{stored_at-IsVariable, released_at-IsVariable}

abbrev shape : FieldType → ℕ → ℕ → Shape
shape k f z = record { type = k; fixed_size = f; storage_size = z }

-- No free block meets the empty range.
Apart-empty : (fl : List FreeBlock) → Apart 0 0 fl
Apart-empty [] = tt
Apart-empty (b ∷ fl) = (inr (omega arith), Apart-empty fl)

module _ (f z : ℕ) (st : Store) (held : ℕ → Option (List ℕ)) (i : ℕ) where
  stored_of :
      (k : FieldType) (t : List ℕ)
      → IsStore (shape k f z) st held
      → held i ≡ some t
      → stored (shape k f z) st i ≡ t
  unfolding stored
  stored_of variable_string t v h =
      let a = v.each i t h in
      c_string-eq st.bytes t (st.refs i).offset (z - (st.refs i).offset) a.no_nul a.stands
        (omega (arith, a.long, a.fits))
  stored_of fixed_string t v h =
      let p = v.padded i t h in rw p.0 (until_nul-eq t (replicate (f - (length t + 1)) 0) p.1)
  stored_of fixed_binary t v h = (v.plain i t h).0

  released_of :
      (k : FieldType) (t : List ℕ)
      → IsStore (shape k f z) st held
      → held i ≡ some t
      → IsStore (shape k f z) (release (shape k f z) st i) (update held i none)
  unfolding release hashtable_field_is_variable
  released_of variable_string t v h =
      released_at-IsVariable z st held v i t (sub64 st.used (st.refs i).length) h
  released_of fixed_string t v h = record { padded = λ j u g. ground (arith, v.padded j u) }
  released_of fixed_binary t v h = record { plain = λ j u g. ground (arith, v.plain j u) }

  -- Into a record without a field, at free bytes.
  stored_into :
      (k : FieldType) (field : List ℕ) (o : ℕ)
      → IsStore (shape k f z) st held
      → held i ≡ none
      → IsField (shape k f z) field
      → (k ≡ variable_string → Inside o (length field + 1) st.free_list)
      → IsStore (shape k f z) (store (shape k f z) st i field o) (update held i (some field))
  unfolding store
  stored_into variable_string field o v h d inside = rw (add64-eq (length field) 1 (omega arith)) (
      stored_at-IsVariable z st held v i field o (add64 st.used (length field + 1)) h d.0
        (inside refl))
  stored_into fixed_string field o v h d inside = record {
    padded = λ j u g. ground (arith, v.padded j u);
  }
  stored_into fixed_binary field o v h d inside = record {
    plain = λ j u g. ground (arith, v.plain j u);
  }

  found_fresh :
      (k : FieldType) (field : List ℕ) (o : ℕ)
      → IsStore (shape k f z) st held
      → IsField (shape k f z) field
      → find_free (shape k f z) st i false field ≡ some o
      → k ≡ variable_string
      → Inside o (length field + 1) st.free_list
  unfolding find_free hashtable_field_is_variable hashtable_field_input_size arena_give
  found_fresh variable_string field o v d e k =
      let needed = add64-eq (length field) 1 (omega arith) in
      found-Inside z v.small st.free_list 0 0 (length field + 1) (omega arith) v.free
        (Apart-empty st.free_list) o (rw needed at e)
  found_fresh fixed_string field o v d e k = absurd (cc)
  found_fresh fixed_binary field o v d e k = absurd (cc)

  found_own :
      (k : FieldType) (t field : List ℕ) (o : ℕ)
      → IsStore (shape k f z) st held
      → held i ≡ some t
      → IsField (shape k f z) field
      → find_free (shape k f z) st i true field ≡ some o
      → k ≡ variable_string
      → Inside o (length field + 1) (release (shape k f z) st i).free_list
  unfolding find_free release hashtable_field_is_variable hashtable_field_input_size
  found_own variable_string t field o v h d e k =
      let a = v.each i t h in
      let needed = add64-eq (length field) 1 (omega arith) in
      found-Inside z v.small st.free_list (st.refs i).offset (st.refs i).length (length field + 1)
        a.fits v.free a.apart o (rw needed at e)
  found_own fixed_string t field o v h d e k = absurd (cc)
  found_own fixed_binary t field o v h d e k = absurd (cc)

module _ (s : Shape) (st : Store) (held : ℕ → Option (List ℕ)) (v : IsStore s st held) (i : ℕ) where
  -- Reading the field of a record gives what the record holds.
  pub stored-eq : (t : List ℕ) → held i ≡ some t → stored s st i ≡ t
  stored-eq t h = stored_of s.fixed_size s.storage_size st held i s.type t v h

  -- After `release` the record holds nothing, and every other record what it held.
  pub release-IsStore :
      (t : List ℕ) → held i ≡ some t → IsStore s (release s st i) (update held i none)
  release-IsStore t h = released_of s.fixed_size s.storage_size st held i s.type t v h

  -- `store` at the offset that `find_free` found for a record without a field: the record holds
  -- the field, and every other record what it held.
  pub store-IsStore :
      (field : List ℕ) (o : ℕ)
      → held i ≡ none
      → IsField s field
      → find_free s st i false field ≡ some o
      → IsStore s (store s st i field o) (update held i (some field))
  store-IsStore field o h d e =
      stored_into s.fixed_size s.storage_size st held i s.type field o v h d
        (found_fresh s.fixed_size s.storage_size st held i s.type field o v d e)

  -- `release` and then `store`, at the offset that `find_free` found when it counted the bytes of the
  -- record's own field as free: the record holds the new field, and every other record what it held.
  pub store-release-IsStore :
      (t field : List ℕ) (o : ℕ)
      → held i ≡ some t
      → IsField s field
      → find_free s st i true field ≡ some o
      → IsStore s (store s (release s st i) i field o) (update held i (some field))
  store-release-IsStore t field o h d e =
      subst (λ g. IsStore s (store s (release s st i) i field o) g)
        (fun_ext (λ j. elim (ℕ_discrete j i) [
          | yes q ↦
              update_hit (update held i none) i (some field) j q
              ∙ sym (update_hit held i (some field) j q)
          | no q ↦
              update_miss (update held i none) i (some field) j q
              ∙ update_miss held i none j q
              ∙ sym (update_miss held i (some field) j q)
        ]))
        (stored_into s.fixed_size s.storage_size (release s st i) (update held i none) i s.type
          field o (release-IsStore t h) (update_hit held i none i refl) d
          (found_own s.fixed_size s.storage_size st held i s.type t field o v h d e))
