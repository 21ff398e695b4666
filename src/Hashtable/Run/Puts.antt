-- ===== src/Hashtable/Run/Puts.antt =====
-- What successful puts leave of the map that the calls describe.
use app_c_platform.Base.{
  zero, ◌↔◌, ◌-◌, ◌≤◌, ◌≢◌, ◌==◌, if◌then◌else◌, ==_iff, ne→==, le→ltb, lt→ltb, Option-cases, ℕ,
  suc, ◌<◌, ◌≡◌, ◌⊎◌, inl, inr, Bool, true, false, List, ◌∷◌, Option, some, arith, refl, sym, ◌∙◌,
  ap, subst,
}
use native.Mathlib.Decide.{ℕ_discrete, dec_le}
use mathlib.Core.Option.{some-injective, none-ne-some}
use app_c_platform.Timespec.{Timespec}
use app_c_platform.Hashtable.Config.{rec_in_use, rec_empty, invalid_argument, not_found}
use app_c_platform.Hashtable.Table.{Table, Reply, ok, err, value_shape, entry_key, entry_value}
use app_c_platform.Hashtable.Query.{of_record, get_key_ref, get_value_ref, get_status}
use app_c_platform.Hashtable.Modify.{changed}
use app_c_platform.Hashtable.Modify.Deletion.{Becomes}
use app_c_platform.Hashtable.Modify.Existing.{Puts}
use app_c_platform.Hashtable.Modify.Lookup.{read_key}
use app_c_platform.Hashtable.Modify.Outcome.{Written}
use app_c_platform.Hashtable.Modify.Put.{DeletedPolicy, overwrite, revive, hashtable_put}
use app_c_platform.Hashtable.Modify.Putting.{hashtable_put_lem}
use app_c_platform.Hashtable.Modify.Valid.{IsTable, pred}
use app_c_platform.Hashtable.Modify.View.{Maps}
use app_c_platform.Hashtable.Store.Laws.{stored-eq}
use app_c_platform.Hashtable.Run.{Event, sets, IsPair, IsDeleted, NoneDeleted}
use app_c_platform.Hashtable.Run.Laws.{
  Described, Becomes_map, reply_of, is_revive, put_outcome, sets_lem,
}

module _ (t : Table) {A : Type 0} (f : ℕ → A) where
  abbrev read : ℕ → Reply A
  read j = if t.status j == rec_empty then err not_found else ok (f j)

  of_record_within : (i : ℕ) → suc i ≤ t.config.capacity → of_record t (suc i) f ≡ read i
  of_record_within i l =
      let q : of_record t (suc i) f ≡ read (suc i - 1) =
        rw (le→ltb t.config.capacity (suc i) l, ne→== (suc i) 0 (omega arith)) refl in
      q ∙ ap read (pred i)

  of_record_found :
      (i : ℕ) → i < t.config.capacity → t.status i ≢ rec_empty → of_record t (suc i) f ≡ ok (f i)
  of_record_found i l n =
      of_record_within i (omega arith) ∙ rw (ne→== (t.status i) rec_empty n) refl

  -- A query by record number that succeeds reads a record of the table that is not empty.
  of_record_reads :
      (r : ℕ) (x : A)
      → of_record t r f ≡ ok x
      → (i : ℕ) × (r ≡ suc i) × (i < t.config.capacity) × (t.status i ≢ rec_empty) × (f i ≡ x)
  of_record_reads zero x e = absurd (none-ne-some x (ap reply_of e))
  of_record_reads (suc i) x e = elim (dec_le (suc i) t.config.capacity) [
    | no n ↦
        let q : of_record t (suc i) f ≡ err invalid_argument =
          rw (lt→ltb t.config.capacity (suc i) (omega arith), ne→== (suc i) 0 (omega arith)) refl in
        absurd (none-ne-some x (ap reply_of (sym q ∙ e)))
    | yes l ↦ elim (ℕ_discrete (t.status i) rec_empty) [
      | yes z ↦
          let q : of_record t (suc i) f ≡ err not_found =
            of_record_within i l ∙ rw ((==_iff (t.status i) rec_empty).1 z) refl in
          absurd (none-ne-some x (ap reply_of (sym q ∙ e)))
      | no n ↦
          (i, refl, l, n, some-injective (f i) x (ap reply_of (sym (of_record_found i l n) ∙ e)))
    ]
  ]

module _ (t : Table) (chain : ℕ → List ℕ) (key value : ℕ → Option (List ℕ))
    (v : IsTable t chain key value) where
  not_empty : (i : ℕ) (k : List ℕ) → key i ≡ some k → t.status i ≢ rec_empty
  not_empty i k p z = none-ne-some k (sym ((v.status_key i).0 z) ∙ p)

  told_key : (i : ℕ) (k : List ℕ) → key i ≡ some k → get_key_ref t (suc i) ≡ ok k
  unfolding get_key_ref
  told_key i k p =
      of_record_found t (entry_key t) i (v.linked.below i k p) (not_empty i k p)
      ∙ ap ok (read_key t chain key value v i k p)

  key_held : (i : ℕ) (k : List ℕ) → t.status i ≢ rec_empty → entry_key t i ≡ k → key i ≡ some k
  key_held i k n e = elim (Option-cases (key i)) [
    | inl z ↦ absurd (n ((v.status_key i).1 z))
    | inr (k', p) ↦ p ∙ ap some (sym (read_key t chain key value v i k' p) ∙ e)
  ]

  value_held :
      (i : ℕ) (w : List ℕ) → t.status i ≢ rec_empty → entry_value t i ≡ w → value i ≡ some w
  value_held i w n e = elim (Option-cases (value i)) [
    | inl z ↦ absurd (n ((v.status_value i).1 z))
    | inr (x, p) ↦
        p ∙ ap some (sym (stored-eq (value_shape t.config) t.values value v.values i x p) ∙ e)
  ]

  get_status-eq : (i : ℕ) → i < t.config.capacity → get_status t (suc i) ≡ ok (t.status i)
  unfolding get_status
  get_status-eq i l =
      let q : get_status t (suc i) ≡ ok (t.status (suc i - 1)) =
        rw (le→ltb t.config.capacity (suc i) (omega arith), ne→== (suc i) 0 (omega arith)) refl in
      q ∙ ap (λ j. ok (t.status j)) (pred i)

  status_told :
      (i : ℕ) (r s : ℕ) → i < t.config.capacity → r ≡ suc i → get_status t r ≡ ok s → t.status i ≡ s
  status_told i r s l e q =
      some-injective (t.status i) s
        (ap reply_of (sym (get_status-eq i l) ∙ ap (get_status t) (sym e) ∙ q))

  -- What the queries by number tell of a deleted record is what the table holds there.
  deleted_held :
      (r : ℕ) (k w : List ℕ)
      → IsDeleted t r k w
      → (i : ℕ) × (key i ≡ some k) × (value i ≡ some w) × (rec_in_use < t.status i)
  unfolding get_key_ref get_value_ref
  deleted_held r k w d =
      let (i, e, l, n, q) = of_record_reads t (entry_key t) r k d.key_of in
      let (j, e', l', n', q') = of_record_reads t (entry_value t) r w d.value_of in
      let (s, told, dead) = d.status_of in
      let same : j ≡ i = omega (arith, e, e') in
      (
        i,
        key_held i k n q,
        value_held i w n (ap (entry_value t) (sym same) ∙ q'),
        subst (λ x. rec_in_use < x) (sym (status_told i r s l e told)) dead,
      )

  -- The value that a put leaves where no deleted record of the key comes back.
  written_new :
      (k u x : List ℕ) (policy : DeletedPolicy) (allow : Bool)
      → (policy ≡ overwrite) ⊎ NoneDeleted t k
      → Written t chain key value v k u policy allow x
      → x ≡ u
  written_new k u x policy allow h (inl (e, o)) = e
  written_new k u x policy allow (inl over) (inr (back, (i, p, w, s))) =
      absurd (let z : false ≡ true = ap is_revive (sym over ∙ back) in cc)
  written_new k u x policy allow (inr none_deleted) (inr (back, (i, p, w, s))) =
      let l = v.linked.below i k p in
      let z = status_told i (suc i) rec_in_use l refl (none_deleted (suc i) (told_key i k p)) in
      absurd (omega (arith, z, s))

  -- The value that a put leaves where one does.
  written_kept :
      (r : ℕ) (k u w x : List ℕ) (allow : Bool)
      → IsDeleted t r k w
      → Written t chain key value v k u revive allow x
      → x ≡ w
  written_kept r k u w x allow d (inl (e, inl over)) =
      absurd (let z : false ≡ true = ap is_revive (sym over) in cc)
  written_kept r k u w x allow d (inl (e, inr used)) =
      let (i, p, h, s) = deleted_held r k w d in absurd (let z = used i p in omega (arith, z, s))
  written_kept r k u w x allow d (inr (back, (j, q, h', s'))) =
      let (i, p, h, s) = deleted_held r k w d in
      some-injective x w (sym h' ∙ ap value (v.linked.unique j i k q p) ∙ h)

put-Becomes :
    (log : List Event) (t t' : Table) (chain : ℕ → List ℕ) (key value : ℕ → Option (List ℕ))
    (v : IsTable t chain key value) (k u y : List ℕ) (policy : DeletedPolicy) (allow b : Bool)
    (now : Timespec)
    → ((k' u' : List ℕ) → Maps t key value k' u' ↔ Described log k' u')
    → IsPair t k u
    → ((x : List ℕ) → Written t chain key value v k u policy allow x → x ≡ y)
    → hashtable_put t k u false policy allow now ≡ changed t' b
    → Becomes t' (Described (sets k y ∷ log))
put-Becomes log t t' chain key value v k u y policy allow b now same p only e =
    let (x, written, becomes) =
      put_outcome t chain key value v k u policy allow b t'
        (hashtable_put t k u false policy allow now) e
        (hashtable_put_lem t chain key value v k u now p.value_field policy allow p.key_fits
          p.value_fits p.key_field) in
    subst (λ z. Becomes t' (Described (sets k z ∷ log))) (only x written)
      (Becomes_map t' (Puts t key value k x) (Described (sets k x ∷ log))
        (sets_lem (Maps t key value) log same k x) becomes)

pub write-Becomes :
    (log : List Event) (t t' : Table) (k u : List ℕ) (policy : DeletedPolicy) (allow b : Bool)
    (now : Timespec)
    → Becomes t (Described log)
    → IsPair t k u
    → (policy ≡ overwrite) ⊎ NoneDeleted t k
    → hashtable_put t k u false policy allow now ≡ changed t' b
    → Becomes t' (Described (sets k u ∷ log))
write-Becomes log t t' k u policy allow b now (chain, key, value, v, same) p h e =
    put-Becomes log t t' chain key value v k u u policy allow b now same p
      (λ x. written_new t chain key value v k u x policy allow h) e

pub revive-Becomes :
    (log : List Event) (t t' : Table) (r : ℕ) (k u w : List ℕ) (allow b : Bool) (now : Timespec)
    → Becomes t (Described log)
    → IsPair t k u
    → IsDeleted t r k w
    → hashtable_put t k u false revive allow now ≡ changed t' b
    → Becomes t' (Described (sets k w ∷ log))
revive-Becomes log t t' r k u w allow b now (chain, key, value, v, same) p d e =
    put-Becomes log t t' chain key value v k u w revive allow b now same p
      (λ x. written_kept t chain key value v r k u w x allow d) e
