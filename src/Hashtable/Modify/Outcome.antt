-- ===== src/Hashtable/Modify/Outcome.antt =====
-- The ways in which `hashtable_put` of hashtable_modify.c can end, and the record that it chooses.
use app_c_platform.Base.{
  ℕ, suc, ◌<◌, ◌≡◌, ◌≢◌, ◌⊎◌, inl, inr, Bool, true, false, not, List, Option, none, some, ◌==◌,
  arith, refl, sym, ◌∙◌, ==_iff, ne→==, Bool-cases,
}
use app_c_platform.Hashtable.Config.{
  storage_full, duplicate_key, limit_exceeded, rec_in_use, rec_empty,
}
use app_c_platform.Hashtable.Store.{find_free}
use app_c_platform.Hashtable.Table.{Table, key_shape, value_shape}
use app_c_platform.Hashtable.Modify.{
  Change, changed, refused, no_request, value_shortage, find_best_deleted_record,
}
use app_c_platform.Hashtable.Modify.Put.{
  DeletedPolicy, overwrite, revive, choose_record, capacity_shortage,
}
use app_c_platform.Hashtable.Modify.Choice.{find_best_deleted_record_lem}
use app_c_platform.Hashtable.Modify.Deletion.{Becomes}
use app_c_platform.Hashtable.Modify.Existing.{Puts}
use app_c_platform.Hashtable.Modify.Insertion.{insert_shortage}
use app_c_platform.Hashtable.Modify.Valid.{IsTable}
use app_c_platform.Hashtable.Modify.View.{Maps}

module _ (t : Table) (chain : ℕ → List ℕ) (key value : ℕ → Option (List ℕ))
    (v : IsTable t chain key value) where
  -- No record can be filled: none is empty, and none is deleted or deleted ones are not reused.
  abbrev pub Full : Type 0
  Full =
      ((j : ℕ) → j < t.config.capacity → t.status j ≢ rec_empty)
      × ((t.config.reuse_deleted ≡ false)
          ⊎ ((j : ℕ) → j < t.config.capacity → ¬ (rec_in_use < t.status j)))

  pub choose_lem :
      ((choose_record t ≡ 0) × Full)
      ⊎ ((i : ℕ) × (choose_record t ≡ suc i)
          × (i < t.config.capacity)
          × (t.status i ≢ rec_in_use)
          × ¬ Full)
  unfolding choose_record
  choose_lem = elim v.lowest [
    | inr (r, e, a, b, c, all) ↦ inr (
      r,
      rw (ne→== t.next_empty 0 (omega arith)) e,
      b,
      omega arith,
      λ (n, o). n r b (omega arith),
    )
    | inl (e, all) ↦ elim (Bool-cases t.config.reuse_deleted) [
      | inl q ↦
          let s : choose_record t ≡ find_best_deleted_record t (λ i. true) =
            rw ((==_iff t.next_empty 0).1 e, q) refl in
          elim (find_best_deleted_record_lem t (λ i. true)) [
            | inl (z, nil) ↦
                inl (s ∙ z, ((λ j l. all j (omega arith) l), inr (λ j l g. nil j l (g, refl))))
            | inr (i, z, l, (g, h), best) ↦ inr (
              i,
              s ∙ z,
              l,
              omega arith,
              λ (n, o). elim o [
                | inl p ↦ absurd (let f : true ≡ false = sym q ∙ p in cc)
                | inr p ↦ p i l g
              ],
            )
          ]
      | inr q ↦ inl (rw ((==_iff t.next_empty 0).1 e, q) e, ((λ j l. all j (omega arith) l), inl q))
    ]
  ]

  module _ (k u : List ℕ) (policy : DeletedPolicy) (allow_update : Bool) where
    -- The record that has the key is to be overwritten, because it is in use and an update is
    -- allowed, or deleted under the policy `overwrite`, and it has no room for the value.
    abbrev pub NoRoomInPlace : Type 0
    NoRoomInPlace =
        (i : ℕ) × (key i ≡ some k)
        × (((t.status i ≡ rec_in_use) × (allow_update ≡ true))
            ⊎ ((rec_in_use < t.status i) × (policy ≡ overwrite)))
        × (find_free (value_shape t.config) t.values i true u ≡ none)

    -- No record has the key, and the one chosen for it has no room for the key or for the value.
    abbrev pub NoRoomChosen : Change → Type 0
    NoRoomChosen c =
        (i : ℕ) × (c ≡ refused storage_full (insert_shortage t i k u))
        × ((j : ℕ) → key j ≢ some k)
        × (choose_record t ≡ suc i)
        × ¬ Full
        × ((find_free (key_shape t.config) t.keys i (not (t.status i == rec_empty)) k ≡ none)
            ⊎ (find_free (value_shape t.config) t.values i (not (t.status i == rec_empty)) u
                ≡ none))

    -- The value that a successful call leaves at the key: under the policy `revive` the one of the
    -- deleted record that has the key, if one does, and the new one otherwise.
    abbrev pub Written : List ℕ → Type 0
    Written w =
        ((w ≡ u) × ((policy ≡ overwrite) ⊎ ((i : ℕ) → key i ≡ some k → t.status i ≡ rec_in_use)))
        ⊎ ((policy ≡ revive)
            × ((i : ℕ) × (key i ≡ some k) × (value i ≡ some w) × (rec_in_use < t.status i)))

    -- What the call may answer about the key: that it was not mapped, and a record was there for it,
    -- or that it was mapped, and could be updated.
    abbrev pub Answered : Table → Change → Type 0
    Answered t' c =
        ((c ≡ changed t' true)
          × ((x : List ℕ) → ¬ Maps t key value k x)
          × (((j : ℕ) → key j ≢ some k) → ¬ Full))
        ⊎ ((c ≡ changed t' false) × (allow_update ≡ true) × ((x : List ℕ) × Maps t key value k x))

    abbrev pub PutOutcome : Change → Type 0
    PutOutcome c =
        ((t' : Table) × (w : List ℕ) × Answered t' c
          × Written w
          × Becomes t' (Puts t key value k w))
        ⊎ ((c ≡ refused duplicate_key no_request)
            × (allow_update ≡ false)
            × ((x : List ℕ) × Maps t key value k x))
        ⊎ ((c ≡ refused limit_exceeded (capacity_shortage t k u))
            × ((j : ℕ) → key j ≢ some k)
            × Full)
        ⊎ ((c ≡ refused storage_full (value_shortage t u)) × NoRoomInPlace)
        ⊎ NoRoomChosen c
