-- ===== src/Hashtable/Modify/DeletionByRecord.antt =====
-- Proofs about `cplat_hashtable_delete_rec` of hashtable_modify.c.
use app_c_platform.Base.{
  ℕ, suc, ◌-◌, ◌<◌, ◌≡◌, ◌≢◌, inl, inr, true, List, Option, some, ◌==◌, arith, refl, ◌∙◌, ap,
  ==_iff, ne→==, le→ltb, if◌then◌else◌,
}
use app_c_platform.Timespec.{Timespec}
use app_c_platform.Hashtable.Config.{not_found, rec_in_use}
use app_c_platform.Hashtable.Store.{hashtable_key_fits}
use app_c_platform.Hashtable.Table.{Table, Reply, ok, err, key_shape, entry_key}
use app_c_platform.Hashtable.Modify.Delete.{hashtable_delete, hashtable_delete_rec}
use app_c_platform.Hashtable.Modify.Deletion.{Becomes, hashtable_delete_lem}
use app_c_platform.Hashtable.Modify.Lookup.{read_key}
use app_c_platform.Hashtable.Modify.Valid.{IsTable, pred}
use app_c_platform.Hashtable.Modify.View.{Maps, value_of}

module _ (t : Table) (chain : ℕ → List ℕ) (key value : ℕ → Option (List ℕ))
    (v : IsTable t chain key value) (i : ℕ) (k : List ℕ) (now : Timespec) where
  by_key :
      i < t.config.capacity
      → t.status i ≡ rec_in_use
      → hashtable_delete_rec t (suc i) now ≡ hashtable_delete t (entry_key t i) now
  unfolding hashtable_delete_rec
  by_key l s =
      let body : ℕ → Reply Table = λ j.
        if t.status j == rec_in_use
        then hashtable_delete t (entry_key t j) now
        else err not_found in
      let guards : hashtable_delete_rec t (suc i) now ≡ body (suc i - 1) =
        rw (ne→== (suc i) 0 (omega arith), le→ltb t.config.capacity (suc i) (omega arith)) refl in
      let used : body i ≡ hashtable_delete t (entry_key t i) now =
        rw ((==_iff (t.status i) rec_in_use).1 s) refl in
      guards ∙ ap body (pred i) ∙ used

  -- `cplat_hashtable_delete_rec` on a table that satisfies the invariant, for the number of a record in
  -- use whose key passes the size test, succeeds: the invariant holds again, the record's key is
  -- mapped to nothing, and every other key to what it was mapped to.
  pub hashtable_delete_rec_lem :
      key i ≡ some k
      → t.status i ≡ rec_in_use
      → hashtable_key_fits (key_shape t.config) k ≡ true
      → (t' : Table) × (hashtable_delete_rec t (suc i) now ≡ ok t')
        × Becomes t' (λ k' u'. (k' ≢ k) × Maps t key value k' u')
  hashtable_delete_rec_lem e s f =
      let (u, w) = value_of t chain key value v k i s in
      let step =
        by_key (v.linked.below i k e) s
        ∙ ap (λ x. hashtable_delete t x now) (read_key t chain key value v i k e) in
      elim (hashtable_delete_lem t chain key value v k now f) [
        | inl (t', q, was, b) ↦ (t', step ∙ q, b)
        | inr (q, nil) ↦ absurd (nil u (i, e, w, s))
      ]
