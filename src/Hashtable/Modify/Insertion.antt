-- ===== src/Hashtable/Modify/Insertion.antt =====
-- Proofs about the insertion of `hashtable_put` into an empty record and into a deleted one.
use app_c_platform.Base.{
  ℕ, ◌<◌, ◌≡◌, ◌≢◌, ◌⊎◌, inl, inr, Bool, true, false, not, List, ◌∷◌, Option, none, some, ◌==◌, ltb,
  arith, refl, sym, ◌∙◌, ap, subst, ne→==, Option-cases, add64, sub64,
}
use native.Mathlib.Decide.{ℕ_discrete}
use app_c_platform.Timespec.{Timespec}
use app_c_platform.Hashtable.Config.{storage_full, rec_in_use, rec_empty}
use app_c_platform.Hashtable.Store.{update, update_hit, update_miss, store, release, find_free}
use app_c_platform.Hashtable.Store.Valid.{IsField}
use app_c_platform.Hashtable.Store.Laws.{store-IsStore}
use app_c_platform.Hashtable.Table.{Table, key_shape, value_shape, bucket_of}
use app_c_platform.Hashtable.Table.Counts.{one_if}
use app_c_platform.Hashtable.Modify.{head, Change, changed, refused, GrowthRequest}
use app_c_platform.Hashtable.Modify.Put.{vacate, fill, put_placed, put_at, fit_shortage}
use app_c_platform.Hashtable.Modify.Links.{link_to, cut_head, cut_next}
use app_c_platform.Hashtable.Modify.Preserve.{restamped, IsTable-restamped}
use app_c_platform.Hashtable.Modify.Fill.{filled, fill-eq, vacated, filled-IsTable}
use app_c_platform.Hashtable.Modify.Deletion.{Becomes}
use app_c_platform.Hashtable.Modify.Valid.{IsTable}
use app_c_platform.Hashtable.Modify.View.{Maps-with}
use app_c_platform.Hashtable.Modify.Existing.{Puts}
use app_c_platform.Hashtable.Modify.Vacate.{vacate-deleted, fill_deleted}

-- Whether a search for room found some.
abbrev pub found : Option ℕ → Bool
found none = false
found (some o) = true

-- The request of an insertion into the record `i` that is refused for want of room.
abbrev pub insert_shortage : Table → ℕ → List ℕ → List ℕ → GrowthRequest
insert_shortage t i k u =
    fit_shortage t k u
      (found (find_free (key_shape t.config) t.keys i (not (t.status i == rec_empty)) k))
      (found (find_free (value_shape t.config) t.values i (not (t.status i == rec_empty)) u))

-- An insertion changes the table as described, or is refused for want of room for the key or the
-- value.
abbrev pub Inserts : Table → ℕ → List ℕ → List ℕ → Change → (List ℕ → List ℕ → Type 0) → Type 0
Inserts t i k u c map' =
    ((t' : Table) × (c ≡ changed t' true) × Becomes t' map')
    ⊎ ((c ≡ refused storage_full (insert_shortage t i k u))
        × ((find_free (key_shape t.config) t.keys i (not (t.status i == rec_empty)) k ≡ none)
            ⊎ (find_free (value_shape t.config) t.values i (not (t.status i == rec_empty)) u
                ≡ none)))

module _ (t : Table) (chain : ℕ → List ℕ) (key value : ℕ → Option (List ℕ))
    (v : IsTable t chain key value) (i : ℕ) (k u : List ℕ) (now : Timespec) where
  abbrev replace : Bool
  replace = not (t.status i == rec_empty)

  placed :
      (t0 : Table) (ko vo : ℕ)
      → vacate t i ≡ some t0
      → put_placed t i k u now (some ko) (some vo) ≡ changed (fill t0 i k u ko vo now) true
  unfolding put_placed
  placed t0 ko vo e = rw (put_placed, e) refl

  -- Both rooms are found, or the call is refused.
  by_rooms :
      ((ko vo : ℕ)
        → find_free (key_shape t.config) t.keys i replace k ≡ some ko
        → find_free (value_shape t.config) t.values i replace u ≡ some vo
        → (t0 : Table) × (vacate t i ≡ some t0)
          × Becomes (fill t0 i k u ko vo now) (Puts t key value k u))
      → Inserts t i k u (put_at t i k u now) (Puts t key value k u)
  unfolding put_at put_placed
  by_rooms go = elim (Option-cases (find_free (key_shape t.config) t.keys i replace k)) [
    | inl a ↦ elim (Option-cases (find_free (value_shape t.config) t.values i replace u)) [
      | inl b ↦ inr (rw (a, b) refl, inl a)
      | inr (vo, b) ↦ inr (rw (a, b) refl, inl a)
    ]
    | inr (ko, a) ↦ elim (Option-cases (find_free (value_shape t.config) t.values i replace u)) [
      | inl b ↦ inr (rw (a, b) refl, inr b)
      | inr (vo, b) ↦
          let (t0, e, w) = go ko vo a b in
          inl (fill t0 i k u ko vo now, rw (a, b) (placed t0 ko vo e), w)
    ]
  ]

  vacate-empty : t.status i ≡ rec_empty → vacate t i ≡ some t
  unfolding vacate
  vacate-empty s = rw s refl

  replace-empty : t.status i ≡ rec_empty → replace ≡ false
  replace-empty s = rw s refl

  replace-deleted : rec_in_use < t.status i → replace ≡ true
  replace-deleted s = rw (ne→== (t.status i) rec_empty (omega arith)) refl

  -- Into an empty record.
  fill_empty :
      (ko vo : ℕ)
      → i < t.config.capacity
      → t.status i ≡ rec_empty
      → ((j : ℕ) → key j ≢ some k)
      → IsField (key_shape t.config) k
      → IsField (value_shape t.config) u
      → find_free (key_shape t.config) t.keys i false k ≡ some ko
      → find_free (value_shape t.config) t.values i false u ≡ some vo
      → Becomes (fill t i k u ko vo now) (Puts t key value k u)
  fill_empty ko vo l s fresh fk fu a b =
      let (f, g, e) = fill-eq t i k u ko vo now in
      let kst = store (key_shape t.config) t.keys i k ko in
      let vst = store (value_shape t.config) t.values i u vo in
      let t1 = filled t i k kst vst in
      let gone = (v.status_key i).0 s in
      let gone' = (v.status_value i).0 s in
      let chain' = update chain (bucket_of t k) (i ∷ chain (bucket_of t k)) in
      let key' = update key i (some k) in
      let value' = update value i (some u) in
      let w =
        filled-IsTable t chain key value v i k u chain key value t.bucket_head t.next kst vst t.keys
          t.values t.deleted_count l (omega arith) v.linked gone (λ j n. refl) (λ j n. refl) fresh
          (store-IsStore (key_shape t.config) t.keys key v.keys i k ko gone fk a)
          (store-IsStore (value_shape t.config) t.values value v.values i u vo gone' fu b)
          (omega (arith, ap (λ x. one_if (ltb rec_in_use x)) s)) in
      subst (λ x. Becomes x (Puts t key value k u)) (sym e)
        (
          chain',
          key',
          value',
          IsTable-restamped t1 chain' key' value' w f g (add64 t.table_generation 1) now,
          Maps-with t chain key value v k i u (restamped t1 f g (add64 t.table_generation 1) now)
              key' value' (λ j q. absurd (fresh j q)) (inl (omega arith))
              (
                update_hit key i (some k) i refl,
                update_hit value i (some u) i refl,
                update_hit t.status i rec_in_use i refl,
              )
              (λ j n. (
                update_miss t.status i rec_in_use j n,
                update_miss key i (some k) j n,
                update_miss value i (some u) j n,
              )),
        )

  -- `hashtable_put` into an empty or a deleted record. A key that no record has is inserted with its
  -- value, and the other keys keep what they are mapped to, unless the key or the value finds no
  -- room.
  pub put_at_lem :
      i < t.config.capacity
      → t.status i ≢ rec_in_use
      → ((j : ℕ) → key j ≢ some k)
      → IsField (key_shape t.config) k
      → IsField (value_shape t.config) u
      → Inserts t i k u (put_at t i k u now) (Puts t key value k u)
  put_at_lem l s fresh fk fu = elim (ℕ_discrete (t.status i) rec_empty) [
    | yes e ↦ by_rooms (λ ko vo a b. (
      t,
      vacate-empty e,
      fill_empty ko vo l e fresh fk fu
          (ap (λ r. find_free (key_shape t.config) t.keys i r k) (sym (replace-empty e)) ∙ a)
          (ap (λ r. find_free (value_shape t.config) t.values i r u) (sym (replace-empty e)) ∙ b),
    ))
    | no e ↦
        let gone : rec_in_use < t.status i = omega arith in
        elim (Option-cases (key i)) [
          | inl q ↦ absurd (e ((v.status_key i).1 q))
          | inr (w, kw) ↦ elim (Option-cases (value i)) [
            | inl q ↦ absurd (e ((v.status_value i).1 q))
            | inr (x, vx) ↦
                let link = link_to (head (bucket_of t w)) (chain (bucket_of t w)) i in
                by_rooms (λ ko vo a b. (
                  vacated t (release (key_shape t.config) t.keys i)
                      (release (value_shape t.config) t.values i)
                      (cut_head t.bucket_head t.next link i) (cut_next t.next link i)
                      (sub64 t.deleted_count 1),
                  vacate-deleted t chain key value v i k u now w kw gone,
                  fill_deleted t chain key value v i k u now w x ko vo gone kw vx fresh fk fu
                      (ap (λ r. find_free (key_shape t.config) t.keys i r k)
                          (sym (replace-deleted gone))
                        ∙ a)
                      (ap (λ r. find_free (value_shape t.config) t.values i r u)
                          (sym (replace-deleted gone))
                        ∙ b),
                ))
          ]
        ]
  ]
