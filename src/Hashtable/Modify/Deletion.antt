-- ===== src/Hashtable/Modify/Deletion.antt =====
-- Proofs about `cplat_hashtable_delete` of hashtable_modify.c.
use app_c_platform.Base.{
  ℕ, suc, ◌+◌, ◌<◌, ◌^◌, ◌≡◌, ◌≢◌, ◌↔◌, ◌⊎◌, inl, inr, true, false, List, Option, none, some, ◌==◌,
  ltb, leb, arith, refl, sym, ◌∙◌, ap, subst, ==_iff, ne→==, if◌then◌else◌, Bool-cases, add64,
  sub64, add64-eq, sub64-eq,
}
use native.Mathlib.Decide.{ℕ_discrete}
use app_c_platform.Timespec.{Timespec}
use app_c_platform.Hashtable.Config.{not_found, rec_in_use, rec_empty, rec_deleted}
use app_c_platform.Hashtable.Store.{update, update_hit, update_miss, hashtable_key_fits}
use app_c_platform.Hashtable.Table.{Table, ok, err, key_shape, bucket_of}
use app_c_platform.Hashtable.Table.Chain.{remove}
use app_c_platform.Hashtable.Table.Counts.{count_bound, count_pos, one_if}
use app_c_platform.Hashtable.Modify.{Link, head, read_link}
use app_c_platform.Hashtable.Modify.Delete.{
  find_link, drop_record, mark_deleted, delete_at, hashtable_delete,
}
use app_c_platform.Hashtable.Modify.Links.{link_to}
use app_c_platform.Hashtable.Modify.Empty.{dropped, drop_record-eq, dropped-IsTable}
use app_c_platform.Hashtable.Modify.Preserve.{
  restamped, stamp_record-eq, IsTable-restamped, IsTable-status,
}
use app_c_platform.Hashtable.Modify.Lookup.{find_link_lem}
use app_c_platform.Hashtable.Modify.Valid.{IsTable, pred}
use app_c_platform.Hashtable.Modify.View.{Maps, Maps-without, value_of}

-- The table with the record marked, and the counter of the records in use.
abbrev marked : Table → ℕ → ℕ → Table
marked t i d = record t {
  status = update t.status i rec_deleted;
  in_use_count = sub64 t.in_use_count 1;
  deleted_count = d;
}

mark_deleted-eq :
    (t : Table) (i : ℕ) (now : Timespec)
    → (f : ℕ → Timespec) × (g : ℕ → ℕ) × (mark_deleted t i now
        ≡ restamped (marked t i t.deleted_count) f g (add64 t.table_generation 1) now)
unfolding mark_deleted
mark_deleted-eq t i now =
    let t1 : Table = record t { status = update t.status i rec_deleted } in
    let (f, g, e) = stamp_record-eq t1 i now in
    let lower : Table → Table = λ x. record x { in_use_count = sub64 x.in_use_count 1 } in
    (f, g, ap lower e)

-- What a change of the table amounts to: it is a table again, and its map is as described.
abbrev pub Becomes : Table → (List ℕ → List ℕ → Type 0) → Type 0
Becomes t' map' =
    (chain' : ℕ → List ℕ) × (key' : ℕ → Option (List ℕ)) × (value' : ℕ → Option (List ℕ)) × IsTable
      t' chain' key' value'
    × ((k' u' : List ℕ) → Maps t' key' value' k' u' ↔ map' k' u')

module _ (t : Table) (chain : ℕ → List ℕ) (key value : ℕ → Option (List ℕ))
    (v : IsTable t chain key value) (k : List ℕ) (now : Timespec) where
  abbrev Without : List ℕ → List ℕ → Type 0
  Without k' u' = (k' ≢ k) × Maps t key value k' u'

  module _ (i : ℕ) (here : key i ≡ some k) (used : t.status i ≡ rec_in_use) where
    deleted_small : t.deleted_count + 1 < 2 ^ 64
    deleted_small =
        let b = count_bound (λ x. ltb rec_in_use x) t.status t.config.capacity in
        omega (arith, v.deleted, b, v.small)

    marked-IsTable : IsTable (marked t i (add64 t.deleted_count 1)) chain key value
    marked-IsTable =
        let l = v.linked.below i k here in
        let p =
          count_pos (λ x. x == rec_in_use) t.status i 0 t.config.capacity l
            ((==_iff (t.status i) rec_in_use).1 used) in
        let c = count_bound (λ x. x == rec_in_use) t.status t.config.capacity in
        let a =
          sub64-eq t.in_use_count 1 (omega (arith, v.in_use, p))
            (omega (arith, v.in_use, c, v.small)) in
        let d = add64-eq t.deleted_count 1 deleted_small in
        IsTable-status t chain key value v i rec_deleted (sub64 t.in_use_count 1)
          (add64 t.deleted_count 1) l (omega arith) (omega arith)
          (omega (arith, a, v.in_use, p, ap (λ x. one_if (x == rec_in_use)) used))
          (omega (arith, d, ap (λ x. one_if (ltb rec_in_use x)) used))

    abbrev one_more : Table → Table
    one_more x = record x { deleted_count = add64 x.deleted_count 1 }

    delete_at-kept :
        (link : Link)
        → leb t.config.lifetime rec_deleted ≡ false
        → delete_at t link i now ≡ one_more (mark_deleted t i now)
    unfolding delete_at
    delete_at-kept link e = rw e refl

    delete_at-dropped :
        (link : Link)
        → leb t.config.lifetime rec_deleted ≡ true
        → delete_at t link i now ≡ drop_record (mark_deleted t i now) link i
    unfolding delete_at
    delete_at-dropped link e = rw e refl

    -- The record stays, marked as deleted.
    kept :
        (link : Link)
        → leb t.config.lifetime rec_deleted ≡ false
        → Becomes (delete_at t link i now) Without
    kept link e =
        let (f, g, q) = mark_deleted-eq t i now in
        let t1 =
          restamped (marked t i (add64 t.deleted_count 1)) f g (add64 t.table_generation 1) now in
        subst (λ x. Becomes x Without) (sym (delete_at-kept link e ∙ ap one_more q))
          (
            chain,
            key,
            value,
            IsTable-restamped (marked t i (add64 t.deleted_count 1)) chain key value marked-IsTable
                f g (add64 t.table_generation 1) now,
            Maps-without t chain key value v k i t1 key value here
                (λ z. absurd (let w = update_hit t.status i rec_deleted i refl in omega arith))
                (λ j n. (update_miss t.status i rec_deleted j n, refl, refl)),
          )

    -- The record becomes empty at once.
    dropped_lem :
        leb t.config.lifetime rec_deleted ≡ true
        → Becomes
            (delete_at t (link_to (head (bucket_of t k)) (chain (bucket_of t k)) i) i now)
            Without
    dropped_lem e =
        let b = bucket_of t k in
        let link = link_to (head b) (chain b) i in
        let (f, g, q) = mark_deleted-eq t i now in
        let (u, w) = value_of t chain key value v k i used in
        let n = add64 t.table_generation 1 in
        let t1 = restamped (marked t i t.deleted_count) f g n now in
        let (f', g', q') = drop_record-eq t1 link i in
        let t2 = restamped (marked t i (add64 t.deleted_count 1)) f g n now in
        let v2 =
          IsTable-restamped (marked t i (add64 t.deleted_count 1)) chain key value marked-IsTable f
            g n now in
        let key' = update key i none in
        let value' = update value i none in
        let m = update_hit t.status i rec_deleted i refl in
        let d = add64-eq t.deleted_count 1 deleted_small in
        subst (λ x. Becomes x Without)
          (sym (delete_at-dropped link e ∙ ap (λ x. drop_record x link i) q ∙ q'))
          (
            update chain b (remove i (chain b)),
            key',
            value',
            dropped-IsTable t2 chain key value v2 i k here (omega arith) u f' g' t.deleted_count w
                (sym d),
            Maps-without t chain key value v k i (dropped t1 link i f' g') key' value' here
                (λ z. absurd (
                  let y = update_hit (update t.status i rec_deleted) i rec_empty i refl in
                  omega arith))
                (λ j n. (
                  update_miss (update t.status i rec_deleted) i rec_empty j n
                      ∙ update_miss t.status i rec_deleted j n,
                  update_miss key i none j n,
                  update_miss value i none j n,
                )),
          )

  deleted_at :
      (link : Link) (i : ℕ)
      → hashtable_key_fits (key_shape t.config) k ≡ true
      → find_link t k (t.config.capacity + 1) (head (bucket_of t k)) ≡ some (some link)
      → read_link t link ≡ suc i
      → hashtable_delete t k now
        ≡ (if t.status i == rec_in_use then ok (delete_at t link i now) else err not_found)
  unfolding hashtable_delete
  deleted_at link i f e r = rw (f, e) (rw r (rw (pred i) refl))

  missing :
      hashtable_key_fits (key_shape t.config) k ≡ true
      → find_link t k (t.config.capacity + 1) (head (bucket_of t k)) ≡ some none
      → hashtable_delete t k now ≡ err not_found
  unfolding hashtable_delete
  missing f e = rw (f, e) refl

  -- `cplat_hashtable_delete` on a table that satisfies the invariant, for a key of a valid length.
  -- Where the key is mapped to a value, the call succeeds, the invariant holds again, the key is
  -- mapped to nothing, and every other key to what it was mapped to. Otherwise the call answers
  -- not-found. This holds for every lifetime, so with the record kept as deleted or emptied at once.
  pub hashtable_delete_lem :
      hashtable_key_fits (key_shape t.config) k ≡ true
      → ((t' : Table) × (hashtable_delete t k now ≡ ok t')
          × ((u : List ℕ) × Maps t key value k u)
          × Becomes t' (λ k' u'. (k' ≢ k) × Maps t key value k' u'))
        ⊎ ((hashtable_delete t k now ≡ err not_found) × ((u : List ℕ) → ¬ Maps t key value k u))
  hashtable_delete_lem f = elim (find_link_lem t chain key value v k) [
    | inl (e, a) ↦ inr (missing f e, λ u (i, p, w, s). a i p)
    | inr (i, e, r, p) ↦
        let link = link_to (head (bucket_of t k)) (chain (bucket_of t k)) i in
        elim (ℕ_discrete (t.status i) rec_in_use) [
          | yes s ↦
              let (u, w) = value_of t chain key value v k i s in
              inl (
                delete_at t link i now,
                deleted_at link i f e r ∙ rw ((==_iff (t.status i) rec_in_use).1 s) refl,
                (u, (i, p, w, s)),
                elim (Bool-cases (leb t.config.lifetime rec_deleted)) [
                  | inl q ↦ dropped_lem i p s q
                  | inr q ↦ kept i p s link q
                ],
              )
          | no s ↦ inr (
            deleted_at link i f e r ∙ rw (ne→== (t.status i) rec_in_use s) refl,
            λ u (j, q, w, z). s (ap t.status (v.linked.unique i j k p q) ∙ z),
          )
        ]
  ]
