-- ===== src/Hashtable/Run/Reach.antt =====
-- Every table that calls of the hash table lead to, against the map that the calls describe.
use app_c_platform.Hashtable.Run.Puts.{write-Becomes, revive-Becomes}
use app_c_platform.Hashtable.Run.Inserts.{insert-Becomes, insert_deleted-Becomes}
use app_c_platform.Base.{
  ℕ, suc, ◌≤◌, ◌<◌, ◌≡◌, ◌≢◌, ◌↔◌, inl, inr, Bool, true, false, List, [], ◌∷◌, Option, some,
  size_max, sym, ◌∙◌, ap, subst,
}
use mathlib.Core.Option.{some-injective, none-ne-some}
use app_c_platform.Timespec.{Timespec}
use app_c_platform.Hashtable.Config.{Config}
use app_c_platform.Hashtable.Store.{hashtable_key_fits}
use app_c_platform.Hashtable.Table.{Table, ok, key_shape}
use app_c_platform.Hashtable.Query.{find_recno, find_value_ref}
use app_c_platform.Hashtable.Layout.Sizes.{InWord, mgmt_bytes, data_bytes}
use app_c_platform.Hashtable.Modify.{changed}
use app_c_platform.Hashtable.Modify.View.{Maps, find_recno_lem}
use app_c_platform.Hashtable.Modify.Deletion.{Becomes, hashtable_delete_lem}
use app_c_platform.Hashtable.Modify.Existing.{Puts}
use app_c_platform.Hashtable.Modify.Update.{hashtable_update}
use app_c_platform.Hashtable.Modify.Updating.{hashtable_update_lem}
use app_c_platform.Hashtable.Modify.Delete.{hashtable_delete, hashtable_delete_rec}
use app_c_platform.Hashtable.Modify.Purge.{push_deleted, purge_deleted}
use app_c_platform.Hashtable.Modify.Purge.Laws.{push_deleted_lem, purge_deleted_lem}
use app_c_platform.Hashtable.Create.{created, hashtable_validate_config, hashtable_clear}
use app_c_platform.Hashtable.Create.Blank.{nothing, no_chain}
use app_c_platform.Hashtable.Create.Initial.{created-IsTable, hashtable_clear_lem}
use app_c_platform.Hashtable.Modify.DeletionByRecord.{hashtable_delete_rec_lem}
use app_c_platform.Hashtable.Run.{
  Event, sets, removes, lookup, answer, IsPair, Run, creates, writes, revives, updates, deletes,
  deletes_record, ages, purges, clears, inserts, inserts_deleted,
}
use app_c_platform.Hashtable.Run.Laws.{
  Described, Becomes_map, changed_table, reply_of, find_by_log, sets_lem, removes_lem,
}

module _ (c : Config) (w : InWord c) (valid : hashtable_validate_config c ≡ true)
    (mgmt_fits : mgmt_bytes c w ≤ size_max) (data_fits : data_bytes c w ≤ size_max)
    (small : c.capacity < size_max) where
  created-Becomes : (o : Bool) → Becomes (created c o) (Described [])
  unfolding lookup
  created-Becomes o = (
    no_chain,
    nothing,
    nothing,
    created-IsTable c w o valid mgmt_fits data_fits,
    λ k u. ((λ (i, p, q, s). absurd (none-ne-some k p)), λ h. absurd (none-ne-some u h)),
  )

  clear-Becomes :
      (t : Table) (now : Timespec) → t.config ≡ c → Becomes (hashtable_clear t now) (Described [])
  unfolding lookup
  clear-Becomes t now e =
      let valid' : hashtable_validate_config t.config ≡ true =
        ap hashtable_validate_config e ∙ valid in
      let (v, z) =
        hashtable_clear_lem t now (subst InWord (sym e) w) valid'
          (subst (λ x. x.capacity < size_max) (sym e) small) in
      (
        no_chain,
        nothing,
        nothing,
        v,
        λ k u. ((λ (i, p, q, s). absurd (none-ne-some k p)), λ h. absurd (none-ne-some u h)),
      )

  update-Becomes :
      (log : List Event) (t t' : Table) (k u : List ℕ) (b : Bool) (now : Timespec)
      → Becomes t (Described log)
      → IsPair t k u
      → hashtable_update t k u false now ≡ changed t' b
      → Becomes t' (Described (sets k u ∷ log))
  update-Becomes log t t' k u b now (chain, key, value, v, same) p e =
      elim (hashtable_update_lem t chain key value v k u now p.key_fits p.value_fits
        p.value_field) [
          | inl (t1, q, was, becomes) ↦
              let at : t1 ≡ t' = some-injective t1 t' (ap changed_table (sym q ∙ e)) in
              Becomes_map t' (Puts t key value k u) (Described (sets k u ∷ log))
                (sets_lem (Maps t key value) log same k u)
                (subst (λ y. Becomes y (Puts t key value k u)) at becomes)
          | inr (inl (q, x)) ↦ absurd (none-ne-some t' (ap changed_table (sym q ∙ e)))
          | inr (inr (q, x)) ↦ absurd (none-ne-some t' (ap changed_table (sym q ∙ e)))
        ]

  without_key :
      (log : List Event) (t t' : Table) (chain : ℕ → List ℕ) (key value : ℕ → Option (List ℕ))
      → ((k u : List ℕ) → Maps t key value k u ↔ Described log k u)
      → (k : List ℕ) (t1 : Table) → t1 ≡ t'
      → Becomes t1 (λ k' u'. (k' ≢ k) × Maps t key value k' u')
      → Becomes t' (Described (removes k ∷ log))
  without_key log t t' chain key value same k t1 at becomes =
      let M : List ℕ → List ℕ → Type 0 = λ k' u'. (k' ≢ k) × Maps t key value k' u' in
      Becomes_map t' M (Described (removes k ∷ log)) (removes_lem (Maps t key value) log same k)
        (subst (λ y. Becomes y M) at becomes)

  delete-Becomes :
      (log : List Event) (t t' : Table) (k : List ℕ) (now : Timespec)
      → Becomes t (Described log)
      → hashtable_key_fits (key_shape t.config) k ≡ true
      → hashtable_delete t k now ≡ ok t'
      → Becomes t' (Described (removes k ∷ log))
  delete-Becomes log t t' k now (chain, key, value, v, same) f e =
      elim (hashtable_delete_lem t chain key value v k now f) [
        | inl (t1, q, was, becomes) ↦
            let at : t1 ≡ t' = some-injective t1 t' (ap reply_of (sym q ∙ e)) in
            without_key log t t' chain key value same k t1 at becomes
        | inr (q, x) ↦ absurd (none-ne-some t' (ap reply_of (sym q ∙ e)))
      ]

  delete_rec-Becomes :
      (log : List Event) (t t' : Table) (k : List ℕ) (r : ℕ) (now : Timespec)
      → Becomes t (Described log)
      → hashtable_key_fits (key_shape t.config) k ≡ true
      → find_recno t k ≡ ok r
      → hashtable_delete_rec t r now ≡ ok t'
      → Becomes t' (Described (removes k ∷ log))
  delete_rec-Becomes log t t' k r now (chain, key, value, v, same) f at_r e =
      elim (find_recno_lem t chain key value v k f) [
        | inl (i, q, here, s) ↦
            let (t1, d, becomes) = hashtable_delete_rec_lem t chain key value v i k now here s f in
            let num : suc i ≡ r = some-injective (suc i) r (ap reply_of (sym q ∙ at_r)) in
            let deleted : hashtable_delete_rec t r now ≡ ok t1 =
              subst (λ n. hashtable_delete_rec t n now ≡ ok t1) num d in
            let at : t1 ≡ t' = some-injective t1 t' (ap reply_of (sym deleted ∙ e)) in
            without_key log t t' chain key value same k t1 at becomes
        | inr (q, x) ↦ absurd (none-ne-some r (ap reply_of (sym q ∙ at_r)))
      ]

  push-Becomes :
      (log : List Event) (t t' : Table)
      → Becomes t (Described log)
      → push_deleted t ≡ some t'
      → Becomes t' (Described log)
  push-Becomes log t t' (chain, key, value, v, same) e =
      let (t1, q, becomes, statuses) = push_deleted_lem t chain key value v in
      Becomes_map t' (Maps t key value) (Described log) same
        (subst (λ y. Becomes y (Maps t key value)) (some-injective t1 t' (sym q ∙ e)) becomes)

  purge-Becomes :
      (log : List Event) (t t' : Table)
      → Becomes t (Described log)
      → purge_deleted t ≡ some t'
      → Becomes t' (Described log)
  purge-Becomes log t t' (chain, key, value, v, same) e =
      let (t1, q, becomes, statuses) = purge_deleted_lem t chain key value v in
      Becomes_map t' (Maps t key value) (Described log) same
        (subst (λ y. Becomes y (Maps t key value)) (some-injective t1 t' (sym q ∙ e)) becomes)

  Run-Becomes : (log : List Event) (t : Table) → Run c log t → Becomes t (Described log)
  Run-Becomes log t (creates o) = created-Becomes o
  Run-Becomes log t2 (writes log0 t t' k u policy allow b now r p h e) =
      write-Becomes log0 t t' k u policy allow b now (Run-Becomes log0 t r) p h e
  Run-Becomes log t2 (revives log0 t t' n k u x allow b now r p d e) =
      revive-Becomes log0 t t' n k u x allow b now (Run-Becomes log0 t r) p d e
  Run-Becomes log t2 (updates log0 t t' k u b now r p e) =
      update-Becomes log0 t t' k u b now (Run-Becomes log0 t r) p e
  Run-Becomes log t2 (deletes log0 t t' k now r f e) =
      delete-Becomes log0 t t' k now (Run-Becomes log0 t r) f e
  Run-Becomes log t2 (deletes_record log0 t t' k n now r f at e) =
      delete_rec-Becomes log0 t t' k n now (Run-Becomes log0 t r) f at e
  Run-Becomes log t2 (inserts log0 t t' i k u time gen r p l stamp e) =
      insert-Becomes log0 t t' i k u time gen (Run-Becomes log0 t r) p l stamp e
  Run-Becomes log t2 (inserts_deleted log0 t t' i s k u time gen r p l dead old stamp e) =
      insert_deleted-Becomes log0 t t' i s k u time gen (Run-Becomes log0 t r) p l dead old stamp e
  Run-Becomes log t2 (ages log0 t t' r e) = push-Becomes log0 t t' (Run-Becomes log0 t r) e
  Run-Becomes log t2 (purges log0 t t' r e) = purge-Becomes log0 t t' (Run-Becomes log0 t r) e
  Run-Becomes log t2 (clears log0 t now r e) = clear-Becomes t now e

  -- Take a table that successful puts, updates, deletions, direct insertions, sweeps of deleted records
  -- and clears lead to, in any order, from a new one of a valid configuration whose sizes fit `size_t`,
  -- where each call's key and value pass the size tests and do not stand in the table. The invariant
  -- holds, and a lookup of a key of a valid length answers with the value that the calls set last for
  -- the key. It answers with not-found where no call set the key since the table was new or cleared,
  -- or where the key was deleted after. An update sets the key to its value, a direct insertion does
  -- if its status is in-use, and so does a put under both policies, whether the key is new, in use or
  -- deleted, with one exception: where a deleted record has the key before the call and the policy is
  -- `revive`, the put sets the key to the value that the queries by record number told of that record
  -- before the call.
  pub find_value_ref-Run :
      (log : List Event) (t : Table)
      → Run c log t
      → Becomes t (Described log)
        × ((k : List ℕ)
            → hashtable_key_fits (key_shape t.config) k ≡ true
            → find_value_ref t k ≡ answer (lookup log k))
  find_value_ref-Run log t r =
      let becomes = Run-Becomes log t r in (becomes, λ k f. find_by_log t log k becomes f)
