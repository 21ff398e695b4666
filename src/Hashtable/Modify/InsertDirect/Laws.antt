-- ===== src/Hashtable/Modify/InsertDirect/Laws.antt =====
-- `cplat_hashtable_insert_direct` of hashtable_modify.c as a whole.
use app_c_platform.Base.{
  ℕ, zero, suc, ◌-◌, ◌<◌, ◌≤◌, ◌≡◌, ◌≢◌, ◌⊎◌, inl, inr, true, false, not, List, Option, none, some,
  ◌==◌, arith, refl, sym, ◌∙◌, ap, subst, if◌then◌else◌, le→ltb, ne→==, ==_iff, Bool-cases,
  Option-cases,
}
use native.Mathlib.Decide.{ℕ_discrete}
use app_c_platform.Timespec.{Timespec}
use app_c_platform.Hashtable.Config.{
  skipped, duplicate_definition, duplicate_key, storage_full, rec_empty, rec_in_use,
  lifetime_infinite,
}
use app_c_platform.Hashtable.Store.{find_free, hashtable_key_fits, hashtable_fixed_string_fits}
use app_c_platform.Hashtable.Store.Valid.{IsField}
use app_c_platform.Hashtable.Table.{
  Table, Reply, ok, err, endless, key_shape, value_shape, find_record,
}
use app_c_platform.Hashtable.Modify.Deletion.{Becomes}
use app_c_platform.Hashtable.Modify.InsertDirect.{
  bad_stamp, omits, place_direct, room_direct, insert_direct,
}
use app_c_platform.Hashtable.Modify.InsertDirect.Placed.{Places, place_direct-Becomes}
use app_c_platform.Hashtable.Modify.Lookup.{find_record_lem}
use app_c_platform.Hashtable.Modify.Valid.{IsTable, pred}

module _ (t : Table) (chain : ℕ → List ℕ) (key value : ℕ → Option (List ℕ))
    (v : IsTable t chain key value) (i : ℕ) (k u : List ℕ) (s : ℕ) (time : Option Timespec)
    (gen : ℕ) where
  -- What a call for these arguments can end in.
  abbrev pub Direct : Reply Table → Type 0
  Direct r =
      ((t' : Table) × (r ≡ ok t')
        × (omits t s ≡ false)
        × (t.status i ≡ rec_empty)
        × ((j : ℕ) → key j ≢ some k)
        × Becomes t' (Places t key value k s u))
      ⊎ ((r ≡ err skipped) × (omits t s ≡ true))
      ⊎ ((r ≡ err duplicate_definition) × (t.status i ≢ rec_empty))
      ⊎ ((r ≡ err duplicate_key) × ((j : ℕ) × (key j ≡ some k)))
      ⊎ ((r ≡ err storage_full)
          × ((find_free (key_shape t.config) t.keys i false k ≡ none)
              ⊎ (find_free (value_shape t.config) t.values i false u ≡ none)))

  module _ (below : i < t.config.capacity) (live : rec_in_use ≤ s) (old : s ≤ lifetime_infinite)
      (stamp : bad_stamp t time gen ≡ false) (kf : hashtable_key_fits (key_shape t.config) k ≡ true)
      (vf : hashtable_fixed_string_fits t.config.value_type t.config.value_size u ≡ true) where
    abbrev by_found : ℕ → Option ℕ → Reply Table
    by_found j r = elim r [
      | none ↦ endless
      | some (suc rec) ↦ err duplicate_key
      | some zero ↦ room_direct t j k s u time gen
    ]

    abbrev body : ℕ → Reply Table
    body j =
        if omits t s
        then err skipped
        else if not (t.status j == rec_empty)
        then err duplicate_definition
        else by_found j (find_record t k)

    guards : insert_direct t (suc i) k s u false time gen ≡ body (suc i - 1)
    unfolding insert_direct
    guards =
        rw (stamp, le→ltb s rec_in_use live)
          (rw (le→ltb lifetime_infinite s old, kf, vf)
            (rw (ne→== (suc i) 0 (omega arith), le→ltb t.config.capacity (suc i) (omega arith))
              refl))

    passed : insert_direct t (suc i) k s u false time gen ≡ body i
    passed = guards ∙ ap body (pred i)

    room_lem :
        t.status i ≡ rec_empty
        → omits t s ≡ false
        → ((j : ℕ) → key j ≢ some k)
        → IsField (key_shape t.config) k
        → IsField (value_shape t.config) u
        → Direct (room_direct t i k s u time gen)
    unfolding room_direct
    room_lem vacant kept fresh fk fu =
        elim (Option-cases (find_free (key_shape t.config) t.keys i false k)) [
          | inl a ↦ inr (inr (inr (inr (rw (room_direct, a) refl, inl a))))
          | inr (ko, a) ↦
              elim (Option-cases (find_free (value_shape t.config) t.values i false u)) [
                | inl b ↦ inr (inr (inr (inr (rw (room_direct, a) (rw b refl), inr b))))
                | inr (vo, b) ↦ inl (
                  place_direct t i k s u time gen ko vo,
                  rw (room_direct, a) (rw b refl),
                  kept,
                  vacant,
                  fresh,
                  place_direct-Becomes t chain key value v i k u s below vacant fresh (omega arith)
                      time gen ko vo fk fu a b,
                )
              ]
        ]

    -- `cplat_hashtable_insert_direct` on a table that satisfies the invariant, for a record number of
    -- the table, a status from in-use to the greatest one, a stamp exactly where the records have one,
    -- and a key and a value that pass the size tests and do not stand in the table. Where no record has
    -- the key, the record is empty, the status is one that ageing leaves and both fields find room, the
    -- call succeeds, and the invariant holds again; the key is mapped to the value if the status is
    -- in-use, and otherwise the map stays the same. In every other case the call answers with the code of
    -- the condition that fails.
    pub insert_direct_lem :
        IsField (key_shape t.config) k
        → IsField (value_shape t.config) u
        → Direct (insert_direct t (suc i) k s u false time gen)
    insert_direct_lem fk fu = subst Direct (sym passed) (elim (Bool-cases (omits t s)) [
      | inl o ↦ inr (inl (rw o refl, o))
      | inr o ↦ elim (ℕ_discrete (t.status i) rec_empty) [
        | no n ↦ inr (inr (inl (rw (o, ne→== (t.status i) rec_empty n) refl, n)))
        | yes e ↦
            let reached : body i ≡ by_found i (find_record t k) =
              rw (o, (==_iff (t.status i) rec_empty).1 e) refl in
            subst Direct (sym reached) (elim (find_record_lem t chain key value v k) [
              | inr (j, q, p) ↦ inr (inr (inr (inl (ap (by_found i) q, (j, p)))))
              | inl (q, fresh) ↦ subst Direct (sym (ap (by_found i) q)) (room_lem e o fresh fk fu)
            ])
      ]
    ])
