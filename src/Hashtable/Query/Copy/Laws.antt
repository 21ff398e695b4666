-- ===== src/Hashtable/Query/Copy/Laws.antt =====
-- What the copying functions of hashtable_query.c put into a buffer.
use app_c_platform.Base.{
  ℕ, ◌+◌, ◌-◌, ◌<◌, ◌^◌, ◌≡◌, ◌⊎◌, inl, inr, Bool, true, false, List, [], ◌∷◌, ◌++◌, Option, some,
  add64-eq, ltb, arith, refl, sym, ◌∙◌, ap, if◌then◌else◌, length, take, length-append, take_all,
  replicate,
}
use app_c_platform.Hashtable.Config.{
  FieldType, not_found, fixed_binary, fixed_string, variable_string,
}
use app_c_platform.Hashtable.Store.{Store, Shape, hashtable_key_fits}
use app_c_platform.Hashtable.Store.Bytes.{StandsAt, until_nul-eq}
use app_c_platform.Hashtable.Store.Valid.{IsStore}
use app_c_platform.Hashtable.Table.{Table, Reply, ok, err, endless, key_shape, value_shape}
use app_c_platform.Hashtable.Modify.Valid.{IsTable, pred}
use app_c_platform.Hashtable.Modify.View.{Maps, find_recno_lem, value_of}
use app_c_platform.Hashtable.Query.{find_recno}
use app_c_platform.Hashtable.Query.Copy.{
  Copy, told, copied, short, fails, spins, copy_arguments_are_valid, stored_size, bytes_from,
  area_bytes, copy_field, copy_stored, find_value_copy,
}

-- The bytes that stand for a field: a text has its NUL.
abbrev pub image : FieldType → List ℕ → List ℕ
image variable_string u = u ++ 0 ∷ []
image fixed_string u = u ++ 0 ∷ []
image fixed_binary u = u

-- What a copy of the bytes comes to.
abbrev pub copy_of : List ℕ → Bool → ℕ → Copy
copy_of bytes dest_null dest_size =
    if dest_null
    then told (length bytes)
    else if ltb dest_size (length bytes)
    then short (length bytes)
    else copied (length bytes) bytes

bytes_from-eq :
    (bytes : ℕ → ℕ) (o : ℕ) (u : List ℕ)
    → StandsAt bytes o u
    → bytes_from bytes o (length u + 1) ≡ u ++ 0 ∷ []
unfolding bytes_from
bytes_from-eq bytes o [] s = ground arith
bytes_from-eq bytes o (c ∷ cs) s = ground (arith, bytes_from-eq bytes (o + 1) cs s.1)

take_text : (u rest : List ℕ) → take (length u + 1) (u ++ 0 ∷ rest) ≡ u ++ 0 ∷ []
take_text [] rest = refl
take_text (c ∷ cs) rest = ground (arith, take_text cs rest)

length_text : (u : List ℕ) → length (u ++ 0 ∷ []) ≡ length u + 1
length_text u = length-append u (0 ∷ [])

module _ (f z : ℕ) (st : Store) (held : ℕ → Option (List ℕ)) (i : ℕ) (u : List ℕ)
    (here : held i ≡ some u) (small : f < 2 ^ 64) where
  abbrev of_type : FieldType → Shape
  of_type k = record { type = k; fixed_size = f; storage_size = z }

  image_of :
      (k : FieldType)
      → IsStore (of_type k) st held
      → (stored_size (of_type k) st i ≡ length (image k u))
        × (area_bytes (of_type k) st i (length (image k u)) ≡ image k u)
  unfolding stored_size area_bytes
  image_of variable_string v =
      let a = v.each i u here in
      let n = length_text u in
      (omega (arith, a.long, n), rw n (bytes_from-eq st.bytes (st.refs i).offset u a.stands))
  image_of fixed_string v =
      let p = v.padded i u here in
      let pad : List ℕ = replicate (f - (length u + 1)) 0 in
      let n = length_text u in
      let e = add64-eq (length u) 1 (omega (arith, p.2, small)) in
      (rw (p.0, until_nul-eq u pad p.1, e, n) refl, rw (p.0, n) (take_text u pad))
  image_of fixed_binary v = let p = v.plain i u here in (sym p.1, rw p.0 (take_all u))

copy_field_of :
    (src : ℕ → List ℕ) (n : ℕ) (bytes : List ℕ) (dest_null : Bool) (dest_size : ℕ)
    → copy_arguments_are_valid dest_null dest_size ≡ true
    → n ≡ length bytes
    → src (length bytes) ≡ bytes
    → copy_field src n dest_null dest_size ≡ copy_of bytes dest_null dest_size
unfolding copy_field
copy_field_of src n bytes true dest_size ok_args e q = ground arith
copy_field_of src n bytes false dest_size ok_args e q = ground arith

module _ (t : Table) (chain : ℕ → List ℕ) (key value : ℕ → Option (List ℕ))
    (v : IsTable t chain key value) (k : List ℕ) (dest_null : Bool) (dest_size : ℕ)
    (args : copy_arguments_are_valid dest_null dest_size ≡ true)
    (small : t.config.value_size < 2 ^ 64) where
  abbrev rest : Reply ℕ → Copy
  rest r = elim r [
    | ok recno ↦ copy_stored (value_shape t.config) t.values (recno - 1) dest_null dest_size
    | err c ↦ fails c
    | endless ↦ spins
  ]

  guards : find_value_copy t k dest_null dest_size ≡ rest (find_recno t k)
  unfolding find_value_copy
  guards = rw args refl

  -- `cplat_hashtable_find_value_copy` on a table that satisfies the invariant, for a key of a valid
  -- length and a buffer that passes the argument test. Where the key is mapped to a value, a NULL buffer
  -- is told the exact number of bytes of the value, with the NUL of a text; a buffer that is shorter is
  -- refused and told that number; and any other buffer gets exactly those bytes. Otherwise the call
  -- answers with not-found.
  pub find_value_copy_lem :
      hashtable_key_fits (key_shape t.config) k ≡ true
      → ((u : List ℕ) × Maps t key value k u
          × (find_value_copy t k dest_null dest_size
              ≡ copy_of (image t.config.value_type u) dest_null dest_size))
        ⊎ ((find_value_copy t k dest_null dest_size ≡ fails not_found)
            × ((u : List ℕ) → ¬ Maps t key value k u))
  find_value_copy_lem f = elim (find_recno_lem t chain key value v k f) [
    | inl (i, e, p, s) ↦
        let (u, w) = value_of t chain key value v k i s in
        let (n, b) =
          image_of t.config.value_size t.config.value_storage_size t.values value i u w small
            t.config.value_type v.values in
        let c : copy_stored (value_shape t.config) t.values i dest_null dest_size
            ≡ copy_of (image t.config.value_type u) dest_null dest_size =
          copy_field_of (area_bytes (value_shape t.config) t.values i)
            (stored_size (value_shape t.config) t.values i) (image t.config.value_type u) dest_null
            dest_size args n b in
        inl (
          u,
          (i, p, w, s),
          guards
              ∙ ap rest e
              ∙ ap (λ j. copy_stored (value_shape t.config) t.values j dest_null dest_size) (pred i)
              ∙ c,
        )
    | inr (e, a) ↦ inr (guards ∙ ap rest e, λ u (i, p, w, s). a i p s)
  ]
