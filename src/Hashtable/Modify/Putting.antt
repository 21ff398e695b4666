-- ===== src/Hashtable/Modify/Putting.antt =====
-- Proofs about `hashtable_put` of hashtable_modify.c as a whole.
use app_c_platform.Base.{
  ℕ, suc, ◌<◌, ◌≡◌, ◌≢◌, ◌↔◌, inl, inr, Bool, true, false, List, Option, some, arith, refl, sym,
  ◌∙◌, ap, subst, ==_iff, ne→==, Option-cases,
}
use native.Mathlib.Decide.{ℕ_discrete}
use mathlib.Core.Option.{some-injective, none-ne-some}
use app_c_platform.Timespec.{Timespec}
use app_c_platform.Hashtable.Config.{limit_exceeded, rec_in_use, rec_empty}
use app_c_platform.Hashtable.Store.{
  update, update_hit, update_miss, store, release, hashtable_key_fits, hashtable_fixed_string_fits,
}
use app_c_platform.Hashtable.Store.Valid.{IsField}
use app_c_platform.Hashtable.Table.{Table, key_shape, value_shape, find_record}
use app_c_platform.Hashtable.Modify.{refused}
use app_c_platform.Hashtable.Modify.Put.{
  DeletedPolicy, overwrite, revive, revive_record, put_existing, put_at, choose_record,
  capacity_shortage, hashtable_put,
}
use app_c_platform.Hashtable.Modify.Existing.{
  Puts, put_value_lem, no_room_or, replaced-IsTable, revive_record_lem,
}
use app_c_platform.Hashtable.Modify.Insertion.{put_at_lem}
use app_c_platform.Hashtable.Modify.Lookup.{find_record_lem}
use app_c_platform.Hashtable.Modify.Valid.{IsTable, pred}
use app_c_platform.Hashtable.Modify.View.{Maps}
use app_c_platform.Hashtable.Modify.Outcome.{PutOutcome, choose_lem}

module _ (t : Table) (chain : ℕ → List ℕ) (key value : ℕ → Option (List ℕ))
    (v : IsTable t chain key value) where
  module _ (k u : List ℕ) where
    module _ (now : Timespec) (fu : IsField (value_shape t.config) u) where
      module _ (i : ℕ) (x : List ℕ) (here : key i ≡ some k) (had : value i ≡ some x) where
        -- Writing a value to the record itself changes the map at the key alone.
        Puts-replaced :
            (t1 : Table)
            → t1.status ≡ t.status
            → (k' u' : List ℕ)
            → Puts t1 key (update value i (some u)) k u k' u' ↔ Puts t key value k u k' u'
        Puts-replaced t1 e k' u' = (
          (λ h. elim h [
            | inl p ↦ inl p
            | inr (n, (j, p, w, s)) ↦
                let q : j ≢ i = λ z. n (some-injective k' k (sym p ∙ ap key z ∙ here)) in
                inr
                  (n, (j, p, sym (update_miss value i (some u) j q) ∙ w, sym (ap (λ g. g j) e) ∙ s))
          ]),
          (λ h. elim h [
            | inl p ↦ inl p
            | inr (n, (j, p, w, s)) ↦
                let q : j ≢ i = λ z. n (some-injective k' k (sym p ∙ ap key z ∙ here)) in
                inr (n, (j, p, update_miss value i (some u) j q ∙ w, ap (λ g. g j) e ∙ s))
          ]),
        )

        -- No record but this one has the key.
        all_used : t.status i ≡ rec_in_use → (j : ℕ) → key j ≡ some k → t.status j ≡ rec_in_use
        all_used s j p = ap t.status (v.linked.unique j i k p here) ∙ s

        not_mapped : rec_in_use < t.status i → (y : List ℕ) → ¬ Maps t key value k y
        not_mapped s y (j, p, w, z) =
            let q = v.linked.unique j i k p here in omega (arith, ap t.status q)

        existing_in_use :
            (policy : DeletedPolicy) (allow_update : Bool)
            → t.status i ≡ rec_in_use
            → PutOutcome t chain key value v k u policy allow_update
                (put_existing t i u policy allow_update now)
        unfolding put_existing
        existing_in_use policy false s =
            inr (inl (rw ((==_iff (t.status i) rec_in_use).1 s) refl, refl, (x, (i, here, had, s))))
        existing_in_use policy true s =
            let q = (==_iff (t.status i) rec_in_use).1 s in
            elim (put_value_lem t chain key value v i k here now x u had fu s) [
              | inl (t', e, w) ↦ inl (
                t',
                u,
                inr (rw q e, refl, (x, (i, here, had, s))),
                inl (refl, inr (all_used s)),
                w,
              )
              | inr (e, f) ↦ inr (inr (inr (inl (rw q e, (i, here, inl (s, refl), f)))))
            ]

        existing_deleted :
            (policy : DeletedPolicy) (allow_update : Bool)
            → rec_in_use < t.status i
            → PutOutcome t chain key value v k u policy allow_update
                (put_existing t i u policy allow_update now)
        unfolding put_existing
        existing_deleted revive allow_update s = inl (
          revive_record t i now,
          x,
          inl (
            rw (ne→== (t.status i) rec_in_use (omega arith)) refl,
            not_mapped s,
            λ n. absurd (n i here),
          ),
          inr (refl, (i, here, had, s)),
          revive_record_lem t chain key value v i k x now here had s,
        )
        existing_deleted overwrite allow_update s =
            elim (no_room_or t chain key value v i k here now u) [
              | inl (e, f) ↦ inr (
                  inr (
                    inr (
                      inl (
                        rw (ne→== (t.status i) rec_in_use (omega arith), e) refl,
                        (i, here, inr (s, refl), f),
                      ))))
              | inr (o, e, q) ↦
                  let t1 : Table = record t {
                    values =
                        store (value_shape t.config) (release (value_shape t.config) t.values i) i u
                          o;
                  } in
                  let value' = update value i (some u) in
                  let w =
                    replaced-IsTable t chain key value v i k here now x u had fu o e
                      (omega arith) in
                  let (c, k0, v0, y, m) =
                    revive_record_lem t1 chain key value' w i k u now here
                      (update_hit value i (some u) i refl) s in
                  inl (
                    revive_record t1 i now,
                    u,
                    inl (
                      rw (ne→== (t.status i) rec_in_use (omega arith), q) refl,
                      not_mapped s,
                      λ n. absurd (n i here),
                    ),
                    inl (refl, inl refl),
                    (
                      c,
                      k0,
                      v0,
                      y,
                      λ k' u'. (
                        (λ h. (Puts-replaced t1 refl k' u').0 ((m k' u').0 h)),
                        λ h. (m k' u').1 ((Puts-replaced t1 refl k' u').1 h),
                      ),
                    ),
                  )
            ]

      module _ (policy : DeletedPolicy) (allow_update : Bool)
          (kf : hashtable_key_fits (key_shape t.config) k ≡ true)
          (vf : hashtable_fixed_string_fits t.config.value_type t.config.value_size u ≡ true) where
        put_hit :
            (i : ℕ)
            → find_record t k ≡ some (suc i)
            → hashtable_put t k u false policy allow_update now
              ≡ put_existing t i u policy allow_update now
        unfolding hashtable_put
        put_hit i e = rw (kf, vf, e) refl

        put_full :
            find_record t k ≡ some 0
            → choose_record t ≡ 0
            → hashtable_put t k u false policy allow_update now
              ≡ refused limit_exceeded (capacity_shortage t k u)
        unfolding hashtable_put
        put_full e c = rw (kf, vf, e) (rw c refl)

        put_new :
            (i : ℕ)
            → find_record t k ≡ some 0
            → choose_record t ≡ suc i
            → hashtable_put t k u false policy allow_update now ≡ put_at t i k u now
        unfolding hashtable_put
        put_new i e c = rw (kf, vf, e) (rw c (rw (ne→== (suc i) 0 (omega arith), pred i) refl))

        -- `hashtable_put` on a table that satisfies the invariant, for a key and a value that pass the
        -- size tests and do not stand in the table. The call ends in one of five ways. It succeeds: the
        -- invariant holds again, and every other key is mapped to what it was. The key is mapped to the
        -- value of the deleted record that has the key, if the policy is `revive` and one has it, and
        -- to the new value otherwise. `*inserted_out` says whether the key was unmapped; if it was
        -- mapped, an update was allowed, and if no record had it, a record was empty or could be reused.
        -- Or it answers that the key is mapped and may not be updated. Or that the key is in no record
        -- and none can be filled. Or, with storage-full and the bytes needed, that the record to be
        -- overwritten, in use with an update allowed or deleted under the policy `overwrite`, has no
        -- room for the value. Or, with storage-full and the bytes needed, that no record has the key and
        -- the record chosen for it has no room for the key or the value.
        pub hashtable_put_lem :
            IsField (key_shape t.config) k
            → PutOutcome t chain key value v k u policy allow_update
                (hashtable_put t k u false policy allow_update now)
        hashtable_put_lem fk = elim (find_record_lem t chain key value v k) [
          | inr (i, e, p) ↦ elim (Option-cases (value i)) [
            | inl q ↦
                absurd (
                  let z = (v.status_key i).0 ((v.status_value i).1 q) in none-ne-some k (sym z ∙ p))
            | inr (x, had) ↦
                subst (λ c. PutOutcome t chain key value v k u policy allow_update c)
                  (sym (put_hit i e))
                  (elim (ℕ_discrete (t.status i) rec_in_use) [
                    | yes s ↦ existing_in_use i x p had policy allow_update s
                    | no s ↦
                        let n : t.status i ≢ rec_empty =
                          λ z. none-ne-some k (sym ((v.status_key i).0 z) ∙ p) in
                        existing_deleted i x p had policy allow_update (omega arith)
                  ])
          ]
          | inl (e, fresh) ↦ elim (choose_lem t chain key value v) [
            | inl (c, full) ↦ inr (inr (inl (put_full e c, fresh, full)))
            | inr (i, c, l, s, room) ↦
                subst (λ c. PutOutcome t chain key value v k u policy allow_update c)
                  (sym (put_new i e c))
                  (elim (put_at_lem t chain key value v i k u now l s fresh fk fu) [
                    | inl (t', q, b) ↦ inl (
                      t',
                      u,
                      inl (q, (λ y (j, w, z, d). fresh j w), λ n. room),
                      inl (refl, inr (λ j p. absurd (fresh j p))),
                      b,
                    )
                    | inr (q, m) ↦ inr (inr (inr (inr (i, q, fresh, c, room, m))))
                  ])
          ]
        ]
