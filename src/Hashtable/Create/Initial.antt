-- ===== src/Hashtable/Create/Initial.antt =====
-- Proofs about the tables that `cplat_hashtable_create` and `cplat_hashtable_clear` leave.
use app_c_platform.Base.{
  ℕ, ◌≤◌, ◌<◌, ◌≡◌, ◌⊎◌, inl, inr, Bool, true, false, ◌||◌, none, some, ◌==◌, size_max, arith, refl,
  Bool-cases, Option-cases,
}
use native.Mathlib.Decide.{ℕ_discrete}
use app_c_platform.Timespec.{Timespec}
use app_c_platform.Hashtable.Config.{
  Config, Code, invalid_argument, out_of_memory, FieldType, variable_string,
  hashtable_field_is_variable,
}
use app_c_platform.Hashtable.Table.{Table, ok, err}
use app_c_platform.Hashtable.Layout.Sizes.{
  InWord, mgmt_bytes, data_bytes, hashtable_mgmt_layout_lem, hashtable_data_region_size_lem,
}
use app_c_platform.Hashtable.Modify.Valid.{IsTable}
use app_c_platform.Hashtable.Create.{
  bad_sizes, created, Buffers, owns, required_size, refuse_buffers, hashtable_create,
  hashtable_validate_config, hashtable_clear,
}
use app_c_platform.Hashtable.Create.Blank.{nothing, no_chain, zero_store-IsStore, blank-IsTable}

is_variable : (k : FieldType) → k ≡ variable_string → hashtable_field_is_variable k ≡ true
unfolding hashtable_field_is_variable
is_variable k e = rw e refl

module _ (c : Config) (w : InWord c) where
  abbrev key_bad : Bool
  key_bad = bad_sizes (hashtable_field_is_variable c.key_type) c.key_size c.key_storage_size

  abbrev value_bad : Bool
  value_bad = bad_sizes (hashtable_field_is_variable c.value_type) c.value_size c.value_storage_size

  refused_sizes : key_bad || value_bad ≡ true → hashtable_validate_config c ≡ false
  unfolding hashtable_validate_config
  refused_sizes h = elim (Bool-cases (c.capacity == 0)) [
    | inl e ↦ rw e refl
    | inr e ↦ rw (e, h) refl
  ]

  no_storage :
      (b : Bool) (size storage_size : ℕ)
      → b ≡ true
      → storage_size ≡ 0
      → bad_sizes b size storage_size ≡ true
  no_storage b size storage_size e z = rw (e, z) (ground arith)

  or_right : (a b : Bool) → b ≡ true → a || b ≡ true
  or_right false b h = h
  or_right true b h = refl

  or_left : (a b : Bool) → a ≡ true → a || b ≡ true
  or_left a b h = rw h refl

  storage_of_valid :
      hashtable_validate_config c ≡ true
      → (hashtable_field_is_variable c.key_type ≡ true → 0 < c.key_storage_size)
        × (hashtable_field_is_variable c.value_type ≡ true → 0 < c.value_storage_size)
  storage_of_valid e = (
    (λ h. elim (ℕ_discrete c.key_storage_size 0) [
      | yes z ↦
          let q = refused_sizes (
            or_left key_bad value_bad (
              no_storage (hashtable_field_is_variable c.key_type) c.key_size c.key_storage_size h
                z)) in
          absurd (cc)
      | no z ↦ omega arith
    ]),
    (λ h. elim (ℕ_discrete c.value_storage_size 0) [
      | yes z ↦
          let q = refused_sizes (
            or_right key_bad value_bad (
              no_storage (hashtable_field_is_variable c.value_type) c.value_size
                c.value_storage_size h z)) in
          absurd (cc)
      | no z ↦ omega arith
    ]),
  )

  -- `cplat_hashtable_required_size` on a valid configuration answers with the exact numbers of bytes
  -- of both regions if both fit `size_t`, and with invalid-argument if one does not.
  pub required_size_lem :
      hashtable_validate_config c ≡ true
      → ((required_size c ≡ ok (mgmt_bytes c w, data_bytes c w))
          × (mgmt_bytes c w ≤ size_max)
          × (data_bytes c w ≤ size_max))
        ⊎ ((required_size c ≡ err invalid_argument)
            × ((size_max < mgmt_bytes c w) ⊎ (size_max < data_bytes c w)))
  unfolding required_size
  required_size_lem v = elim (hashtable_mgmt_layout_lem c w) [
    | inr (e, h) ↦ inr (rw (v, e) refl, inl h)
    | inl (e, h) ↦ elim (hashtable_data_region_size_lem c w) [
      | inr (e', h') ↦ inr (rw (v, e, e') refl, inr h')
      | inl (e', h') ↦ inl (rw (v, e, e') refl, h, h')
    ]
  ]

  invalid : hashtable_validate_config c ≡ false → required_size c ≡ err invalid_argument
  unfolding required_size
  invalid v = rw v refl

  pub created-IsTable :
      (o : Bool)
      → hashtable_validate_config c ≡ true
      → mgmt_bytes c w ≤ size_max
      → data_bytes c w ≤ size_max
      → IsTable (created c o) no_chain nothing nothing
  unfolding created
  created-IsTable o v m d =
      let s = storage_of_valid v in
      blank-IsTable (created c o) w.roomy (omega arith)
        (zero_store-IsStore c.key_type c.key_size c.key_storage_size
          (λ e. (s.0 (is_variable c.key_type e), w.key_storage)))
        (zero_store-IsStore c.value_type c.value_size c.value_storage_size
          (λ e. (s.1 (is_variable c.value_type e), w.value_storage)))

  -- `cplat_hashtable_create`, for a capacity above 0 and fields within `size_t`, succeeds exactly where
  -- the configuration is valid, both sizes fit
  -- `size_t`, the caller's buffers pass or the memory is given, and the handle can be allocated. The
  -- table that it returns then satisfies the invariant with no record in use.
  pub hashtable_create_lem :
      (buffers : Buffers) (allocated handle : Bool)
      → ((hashtable_create c buffers allocated handle ≡ ok (created c (owns buffers)))
          × IsTable (created c (owns buffers)) no_chain nothing nothing
          × (hashtable_validate_config c ≡ true)
          × (mgmt_bytes c w ≤ size_max)
          × (data_bytes c w ≤ size_max)
          × (refuse_buffers c buffers (mgmt_bytes c w) (data_bytes c w) allocated ≡ none)
          × (handle ≡ true))
        ⊎ ((code : Code) × (hashtable_create c buffers allocated handle ≡ err code)
            × ((hashtable_validate_config c ≡ false)
                ⊎ (size_max < mgmt_bytes c w)
                ⊎ (size_max < data_bytes c w)
                ⊎ (refuse_buffers c buffers (mgmt_bytes c w) (data_bytes c w) allocated ≡ some code)
                ⊎ (handle ≡ false)))
  unfolding hashtable_create
  hashtable_create_lem buffers allocated handle = elim (Bool-cases (hashtable_validate_config c)) [
    | inr v ↦ inr (invalid_argument, rw (hashtable_create, invalid v) refl, inl v)
    | inl v ↦ elim (required_size_lem v) [
      | inr (e, inl h) ↦ inr (invalid_argument, rw (hashtable_create, e) refl, inr (inl h))
      | inr (e, inr h) ↦ inr (invalid_argument, rw (hashtable_create, e) refl, inr (inr (inl h)))
      | inl (e, m, d) ↦
          elim (Option-cases
            (refuse_buffers c buffers (mgmt_bytes c w) (data_bytes c w) allocated)) [
              | inr (code, r) ↦
                  inr (code, rw (hashtable_create, e) (rw r refl), inr (inr (inr (inl r))))
              | inl r ↦ elim (Bool-cases handle) [
                | inl q ↦ inl (
                  rw (hashtable_create, e) (rw (r, q) refl),
                  created-IsTable (owns buffers) v m d,
                  v,
                  m,
                  d,
                  r,
                  q,
                )
                | inr q ↦ inr (
                  out_of_memory,
                  rw (hashtable_create, e) (rw (r, q) refl),
                  inr (inr (inr (inr q))),
                )
              ]
            ]
    ]
  ]

-- `cplat_hashtable_clear` on a table with a valid configuration leaves a table that satisfies the
-- invariant with no record in use, whatever it held before, and keeps the configuration.
pub hashtable_clear_lem :
    (t : Table) (now : Timespec)
    → InWord t.config
    → hashtable_validate_config t.config ≡ true
    → t.config.capacity < size_max
    → IsTable (hashtable_clear t now) no_chain nothing nothing
      × ((hashtable_clear t now).config ≡ t.config)
unfolding hashtable_clear
hashtable_clear_lem t now w v l =
    let s = storage_of_valid t.config w v in
    (
      blank-IsTable (hashtable_clear t now) w.roomy l
          (zero_store-IsStore t.config.key_type t.config.key_size t.config.key_storage_size
            (λ e. (s.0 (is_variable t.config.key_type e), w.key_storage)))
          (zero_store-IsStore t.config.value_type t.config.value_size t.config.value_storage_size
            (λ e. (s.1 (is_variable t.config.value_type e), w.value_storage))),
      refl,
    )
