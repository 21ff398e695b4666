-- ===== src/Hashtable/Modify/Purge/Rounds.antt =====
-- The loops of `cplat_hashtable_push_deleted` and `cplat_hashtable_purge_deleted` over the records.
use app_c_platform.Base.{
  ℕ, zero, suc, ◌+◌, ◌<◌, ◌≤◌, ◌≡◌, ◌≢◌, inl, inr, Bool, ◌&&◌, not, List, Option, none, ltb, leb,
  ◌==◌, if◌then◌else◌, add64, add64-eq, arith, refl, sym, ◌∙◌, ap, subst, ==_iff, ne→==, le→leb,
  gt→leb, Bool-cases,
}
use native.Mathlib.Decide.{ℕ_discrete, dec_le}
use app_c_platform.Timespec.{Timespec}
use app_c_platform.Hashtable.Config.{lifetime_infinite, rec_empty, rec_in_use, rec_deleted}
use app_c_platform.Hashtable.Store.{Store, update, update_hit, update_miss, release}
use app_c_platform.Hashtable.Table.{Table, key_shape, value_shape}
use app_c_platform.Hashtable.Table.Counts.{count_bound, FirstEmpty}
use app_c_platform.Hashtable.Modify.{expire_record}
use app_c_platform.Hashtable.Modify.Empty.{expire_record-eq}
use app_c_platform.Hashtable.Modify.Purge.{Sweep, note_empty, age, purge, sweep}
use app_c_platform.Hashtable.Modify.Purge.Swept.{swept_as, IsSwept, aged-IsSwept, expired-IsSwept}
use app_c_platform.Hashtable.Modify.Valid.{IsTable}

-- The status of a record that one call of `cplat_hashtable_push_deleted` leaves, and the one that
-- `cplat_hashtable_purge_deleted` leaves.
abbrev pub older : ℕ → ℕ → ℕ
older lifetime s =
    if leb rec_deleted s && ltb s lifetime_infinite
    then if leb lifetime (s + 1) && not (lifetime == lifetime_infinite) then rec_empty else s + 1
    else s

abbrev pub purged : ℕ → ℕ
purged s = if leb rec_deleted s then rec_empty else s

FirstEmpty-agree :
    (f f' : ℕ → ℕ) (hi ne : ℕ)
    → ((j : ℕ) → j < hi → f' j ≡ f j)
    → FirstEmpty f 0 hi ne
    → FirstEmpty f' 0 hi ne
FirstEmpty-agree f f' hi ne same v = elim v [
  | inl (z, all) ↦ inl (z, λ j l h e. all j l h (sym (same j h) ∙ e))
  | inr (r, z, a, b, c, all) ↦
      inr (r, z, a, b, same r b ∙ c, λ j l h e. all j l h (sym (same j (omega arith)) ∙ e))
]

-- The first empty record is noted when the loop comes to it.
FirstEmpty-noted :
    (f : ℕ → ℕ) (i ne : ℕ)
    → FirstEmpty f 0 i ne
    → FirstEmpty f 0 (i + 1) (if (ne == 0) && (f i == rec_empty) then i + 1 else ne)
FirstEmpty-noted f i ne v = elim v [
  | inl (z, all) ↦ elim (ℕ_discrete (f i) rec_empty) [
    | yes e ↦
        rw ((==_iff ne 0).1 z, (==_iff (f i) rec_empty).1 e)
          (inr (i, omega arith, omega arith, omega arith, e, λ j l h. all j l h))
    | no e ↦
        rw ((==_iff ne 0).1 z, ne→== (f i) rec_empty e)
          (inl (
            z,
            λ j l h q. elim (ℕ_discrete j i) [
              | yes w ↦ e (sym (ap f w) ∙ q)
              | no w ↦ all j l (omega arith) q
            ],
          ))
  ]
  | inr (r, z, a, b, c, all) ↦ rw (ne→== ne 0 (omega arith)) (inr (r, z, a, omega arith, c, all))
]

module _ (t : Table) (chain : ℕ → List ℕ) (key value : ℕ → Option (List ℕ))
    (v : IsTable t chain key value) where
  abbrev cap : ℕ
  cap = t.config.capacity

  abbrev pub at_state : (ℕ → ℕ) → Store → Store → (ℕ → Timespec) → (ℕ → ℕ) → ℕ → ℕ → Sweep
  at_state st ks vs f g ne c = record {
    table = swept_as t st ks vs f g;
    new_next_empty = ne;
    expired_count = c;
  }

  -- The loop after the records below `i`, whose status has become the target; `counts` is what is
  -- known of `expired_count` after `n` records became empty.
  module _ (target : ℕ → ℕ) (counts : ℕ → ℕ → Type 0) where
    abbrev pub Swept : ℕ → Sweep → Type 0
    Swept i s =
        (st : ℕ → ℕ) × (ks : Store) × (vs : Store) × (f : ℕ → Timespec) × (g : ℕ → ℕ) × (key' : ℕ
          → Option (List ℕ))
        × (value' : ℕ → Option (List ℕ)) × (n : ℕ) × (ne : ℕ) × (c : ℕ) × (s
            ≡ at_state st ks vs f g ne c)
        × IsSwept t chain key value v st ks vs key' value' n
        × FirstEmpty st 0 i ne
        × ((j : ℕ) → j < i → st j ≡ target (t.status j))
        × ((j : ℕ) → i ≤ j → st j ≡ t.status j)
        × counts c n

    -- The record `i` has come to its target.
    noted :
        (i : ℕ) (st st' : ℕ → ℕ) (ks vs : Store) (f : ℕ → Timespec) (g : ℕ → ℕ)
        (key' value' : ℕ → Option (List ℕ)) (n ne c : ℕ) (s : Sweep)
        → s ≡ at_state st' ks vs f g ne c
        → IsSwept t chain key value v st' ks vs key' value' n
        → FirstEmpty st 0 i ne
        → ((j : ℕ) → j < i → st j ≡ target (t.status j))
        → ((j : ℕ) → i ≤ j → st j ≡ t.status j)
        → counts c n
        → st' i ≡ target (t.status i)
        → ((j : ℕ) → j ≢ i → st' j ≡ st j)
        → Swept (i + 1) (note_empty s i)
    unfolding note_empty
    noted i st st' ks vs f g key' value' n ne c s e w lowest done todo q here others = (
      st',
      ks,
      vs,
      f,
      g,
      key',
      value',
      n,
      (if (ne == 0) && (st' i == rec_empty) then i + 1 else ne),
      c,
      ap (λ x. note_empty x i) e,
      w,
      FirstEmpty-noted st' i ne
          (FirstEmpty-agree st st' i ne (λ j l. others j (omega arith)) lowest),
      (λ j l. elim (ℕ_discrete j i) [
        | yes z ↦ ap st' z ∙ here ∙ ap (λ x. target (t.status x)) (sym z)
        | no z ↦ others j z ∙ done j (omega arith)
      ]),
      (λ j l. others j (omega arith) ∙ todo j (omega arith)),
      q,
    )

    pub sweep_lem :
        (round : Sweep → ℕ → Sweep)
        → ((s : Sweep) (i : ℕ) → i < cap → Swept i s → Swept (i + 1) (round s i))
        → (m i : ℕ) (s : Sweep) → i + m ≡ cap
        → Swept i s
        → Swept cap (sweep round s m i)
    unfolding sweep
    sweep_lem round step zero i s e p = subst (λ x. Swept x s) (omega arith) p
    sweep_lem round step (suc m) i s e p =
        sweep_lem round step m (i + 1) (round s i) (omega arith) (step s i (omega arith) p)

  emptied_table :
      (st : ℕ → ℕ) (ks vs : Store) (f : ℕ → Timespec) (g : ℕ → ℕ) (i : ℕ)
      → (f' : ℕ → Timespec) × (g' : ℕ → ℕ) × (expire_record (swept_as t st ks vs f g) i
          ≡ swept_as t
              (update st i rec_empty)
              (release (key_shape t.config) ks i)
              (release (value_shape t.config) vs i)
              f'
              g')
  emptied_table st ks vs f g i = expire_record-eq (swept_as t st ks vs f g) i

  -- One round of `cplat_hashtable_purge_deleted`.
  pub purge-Swept :
      (s : Sweep) (i : ℕ)
      → i < cap
      → Swept purged (λ c n. Unit) i s
      → Swept purged (λ c n. Unit) (i + 1) (purge s i)
  unfolding purge
  purge-Swept s i below (st, ks, vs, f, g, key', value', n, ne, c, e, w, lowest, done, todo, q) =
      let now = todo i (omega arith) in
      let on : Sweep → Sweep = λ x.
        if leb rec_deleted (x.table.status i)
        then record x { table = expire_record x.table i }
        else x in
      elim (dec_le rec_deleted (st i)) [
        | yes old ↦
            let (f', g', p) = emptied_table st ks vs f g i in
            let w' =
              expired-IsSwept t chain key value v st ks vs key' value' n w i below (omega arith) in
            noted purged (λ c n. Unit) i st (update st i rec_empty)
              (release (key_shape t.config) ks i) (release (value_shape t.config) vs i) f' g'
              (update key' i none) (update value' i none) (n + 1) ne c (on s)
              (ap on e
                ∙ rw (le→leb rec_deleted (st i) old)
                    (ap (λ x. record (at_state st ks vs f g ne c) { table = x }) p))
              w' lowest done todo tt
              (update_hit st i rec_empty i refl
                ∙ rw (le→leb rec_deleted (t.status i) (omega (arith, now))) refl)
              (λ j z. update_miss st i rec_empty j z)
        | no young ↦
            noted purged (λ c n. Unit) i st st ks vs f g key' value' n ne c (on s)
              (ap on e ∙ rw (gt→leb rec_deleted (st i) (omega arith)) refl) w lowest done todo tt
              (now ∙ rw (gt→leb rec_deleted (t.status i) (omega (arith, now))) refl) (λ j z. refl)
      ]

  -- One round of `cplat_hashtable_push_deleted`.
  pub age-Swept :
      (s : Sweep) (i : ℕ)
      → i < cap
      → Swept (older t.config.lifetime) (λ c n. c ≡ n) i s
      → Swept (older t.config.lifetime) (λ c n. c ≡ n) (i + 1) (age s i)
  unfolding age
  age-Swept s i below (st, ks, vs, f, g, key', value', n, ne, c, e, w, lowest, done, todo, q) =
      let now = todo i (omega arith) in
      let old = st i in
      let lifetime = t.config.lifetime in
      let aged : ℕ → ℕ = update st i (old + 1) in
      let mid : Table = swept_as t aged ks vs f g in
      let ages : Bool = leb rec_deleted old && ltb old lifetime_infinite in
      let ends : Bool = leb lifetime (old + 1) && not (lifetime == lifetime_infinite) in
      let target : older lifetime (t.status i)
          ≡ (if ages then if ends then rec_empty else old + 1 else old) =
        ap (older lifetime) (sym now) in
      let on : Sweep → Sweep = λ x.
        let y = x.table in
        let o = y.status i in
        let y' = record y { status = update y.status i (o + 1) } in
        if leb rec_deleted o && ltb o lifetime_infinite
        then if leb y.config.lifetime (o + 1) && not (y.config.lifetime == lifetime_infinite)
          then record x { table = expire_record y' i; expired_count = add64 x.expired_count 1 }
          else record x { table = y' }
        else x in
      elim (Bool-cases ages) [
        | inr a ↦
            noted (older lifetime) (λ c n. c ≡ n) i st st ks vs f g key' value' n ne c (on s)
              (ap on e ∙ rw a refl) w lowest done todo q (sym (target ∙ rw a refl)) (λ j z. refl)
        | inl a ↦
            let deleted : rec_in_use < old = ground (arith, a) in
            let w1 =
              aged-IsSwept t chain key value v st ks vs key' value' n w i below deleted (old + 1)
                (omega arith) in
            elim (Bool-cases ends) [
              | inr b ↦
                  noted (older lifetime) (λ c n. c ≡ n) i st aged ks vs f g key' value' n ne c
                    (on s) (ap on e ∙ rw (a, b) refl) w1 lowest done todo q
                    (update_hit st i (old + 1) i refl ∙ sym (target ∙ rw (a, b) refl))
                    (λ j z. update_miss st i (old + 1) j z)
              | inl b ↦
                  let (f', g', p) = emptied_table aged ks vs f g i in
                  let hit = update_hit st i (old + 1) i refl in
                  let w2 =
                    expired-IsSwept t chain key value v aged ks vs key' value' n w1 i below
                      (omega (arith, hit)) in
                  let count = count_bound (λ x. ltb rec_in_use x) t.status cap in
                  let wrap = add64-eq c 1 (omega (arith, w1.deleted, count, q, v.small)) in
                  noted (older lifetime) (λ c n. c ≡ n) i st (update aged i rec_empty)
                    (release (key_shape t.config) ks i) (release (value_shape t.config) vs i) f' g'
                    (update key' i none) (update value' i none) (n + 1) ne (add64 c 1) (on s)
                    (ap on e
                      ∙ rw (a, b)
                          (ap (λ x. record (at_state st ks vs f g ne (add64 c 1)) { table = x }) p))
                    w2 lowest done todo (omega (arith, wrap, q))
                    (update_hit aged i rec_empty i refl ∙ sym (target ∙ rw (a, b) refl))
                    (λ j z. update_miss aged i rec_empty j z ∙ update_miss st i (old + 1) j z)
            ]
      ]
