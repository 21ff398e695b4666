-- ===== src/Hashtable/Modify/Updating.antt =====
-- Proofs about `hashtable_update` of hashtable_modify.c.
use app_c_platform.Base.{
  ℕ, suc, ◌≡◌, ◌⊎◌, inl, inr, true, false, List, Option, none, some, ◌==◌, refl, ◌∙◌, ap, ==_iff,
  ne→==, if◌then◌else◌,
}
use native.Mathlib.Decide.{ℕ_discrete}
use app_c_platform.Timespec.{Timespec}
use app_c_platform.Hashtable.Config.{storage_full, not_found, rec_in_use}
use app_c_platform.Hashtable.Store.{find_free, hashtable_key_fits, hashtable_fixed_string_fits}
use app_c_platform.Hashtable.Store.Valid.{IsField}
use app_c_platform.Hashtable.Table.{Table, key_shape, value_shape, find_record}
use app_c_platform.Hashtable.Modify.{changed, refused, no_request, value_shortage}
use app_c_platform.Hashtable.Modify.Put.{put_value}
use app_c_platform.Hashtable.Modify.Update.{hashtable_update}
use app_c_platform.Hashtable.Modify.Deletion.{Becomes}
use app_c_platform.Hashtable.Modify.Existing.{Puts, put_value_lem}
use app_c_platform.Hashtable.Modify.Lookup.{find_record_lem}
use app_c_platform.Hashtable.Modify.Valid.{IsTable}
use app_c_platform.Hashtable.Modify.View.{Maps, value_of}

module _ (t : Table) (chain : ℕ → List ℕ) (key value : ℕ → Option (List ℕ))
    (v : IsTable t chain key value) (k u : List ℕ) (now : Timespec)
    (kf : hashtable_key_fits (key_shape t.config) k ≡ true)
    (vf : hashtable_fixed_string_fits t.config.value_type t.config.value_size u ≡ true) where
  update_miss_lem :
      find_record t k ≡ some 0 → hashtable_update t k u false now ≡ refused not_found no_request
  unfolding hashtable_update
  update_miss_lem e = rw (kf, vf, e) refl

  update_hit_lem :
      (i : ℕ)
      → find_record t k ≡ some (suc i)
      → hashtable_update t k u false now
        ≡ (if t.status i == rec_in_use then put_value t i u now else refused not_found no_request)
  unfolding hashtable_update
  update_hit_lem i e = rw (kf, vf, e) refl

  -- `hashtable_update` on a table that satisfies the invariant, for a key and a value that pass the
  -- size tests and do not stand in the table. Where the key is mapped and the new value finds room,
  -- the call succeeds, the invariant holds again, the key is mapped to the new value and every other
  -- key to what it was mapped to. Where the key is mapped and its record has no room for the
  -- value, the call answers with storage-full and the bytes that are needed. Where the key is not mapped, the call
  -- answers with not-found.
  pub hashtable_update_lem :
      IsField (value_shape t.config) u
      → ((t' : Table) × (hashtable_update t k u false now ≡ changed t' false)
          × ((x : List ℕ) × Maps t key value k x)
          × Becomes t' (Puts t key value k u))
        ⊎ ((hashtable_update t k u false now ≡ refused storage_full (value_shortage t u))
            × ((i : ℕ) × (key i ≡ some k)
                × (t.status i ≡ rec_in_use)
                × (find_free (value_shape t.config) t.values i true u ≡ none)))
        ⊎ ((hashtable_update t k u false now ≡ refused not_found no_request)
            × ((x : List ℕ) → ¬ Maps t key value k x))
  hashtable_update_lem fu = elim (find_record_lem t chain key value v k) [
    | inl (e, fresh) ↦ inr (inr (update_miss_lem e, λ x (i, p, w, s). fresh i p))
    | inr (i, e, p) ↦ elim (ℕ_discrete (t.status i) rec_in_use) [
      | no s ↦ inr (
          inr (
            update_hit_lem i e ∙ rw (ne→== (t.status i) rec_in_use s) refl,
            λ x (j, q, w, z). s (ap t.status (v.linked.unique i j k p q) ∙ z),
          ))
      | yes s ↦
          let (x, had) = value_of t chain key value v k i s in
          let q = (==_iff (t.status i) rec_in_use).1 s in
          elim (put_value_lem t chain key value v i k p now x u had fu s) [
            | inl (t', c, b) ↦ inl (t', update_hit_lem i e ∙ rw q c, (x, (i, p, had, s)), b)
            | inr (c, f) ↦ inr (inl (update_hit_lem i e ∙ rw q c, (i, p, s, f)))
          ]
    ]
  ]
