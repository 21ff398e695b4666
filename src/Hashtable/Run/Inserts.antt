-- ===== src/Hashtable/Run/Inserts.antt =====
-- What direct insertions leave of the map that the calls describe.
use app_c_platform.Base.{
  ℕ, suc, ◌<◌, ◌≤◌, ◌≡◌, inl, inr, false, List, ◌∷◌, Option, arith, refl, sym, ◌∙◌, ap, subst,
}
use mathlib.Core.Option.{some-injective, none-ne-some}
use app_c_platform.Timespec.{Timespec}
use app_c_platform.Hashtable.Config.{rec_in_use, rec_deleted, lifetime_infinite}
use app_c_platform.Hashtable.Table.{Table, ok}
use app_c_platform.Hashtable.Modify.Valid.{IsTable}
use app_c_platform.Hashtable.Modify.View.{Maps}
use app_c_platform.Hashtable.Modify.Deletion.{Becomes}
use app_c_platform.Hashtable.Modify.InsertDirect.{bad_stamp, insert_direct}
use app_c_platform.Hashtable.Modify.InsertDirect.Placed.{Places}
use app_c_platform.Hashtable.Modify.InsertDirect.Laws.{insert_direct_lem}
use app_c_platform.Hashtable.Run.{Event, sets, IsPair}
use app_c_platform.Hashtable.Run.Laws.{Described, Becomes_map, reply_of, sets_lem}

-- What a call of `cplat_hashtable_insert_direct` that succeeds leaves.
direct_outcome :
    (t : Table) (chain : ℕ → List ℕ) (key value : ℕ → Option (List ℕ))
    (v : IsTable t chain key value) (i : ℕ) (k u : List ℕ) (s : ℕ) (time : Option Timespec)
    (gen : ℕ) (t' : Table)
    → i < t.config.capacity
    → rec_in_use ≤ s
    → s ≤ lifetime_infinite
    → bad_stamp t time gen ≡ false
    → IsPair t k u
    → insert_direct t (suc i) k s u false time gen ≡ ok t'
    → Becomes t' (Places t key value k s u)
direct_outcome t chain key value v i k u s time gen t' l live old stamp p e =
    elim (insert_direct_lem t chain key value v i k u s time gen l live old stamp p.key_fits
      p.value_fits p.key_field p.value_field) [
        | inl (t1, q, kept, vacant, fresh, becomes) ↦
            subst (λ y. Becomes y (Places t key value k s u))
              (some-injective t1 t' (ap reply_of (sym q ∙ e))) becomes
        | inr (inl (q, x)) ↦ absurd (none-ne-some t' (ap reply_of (sym q ∙ e)))
        | inr (inr (inl (q, x))) ↦ absurd (none-ne-some t' (ap reply_of (sym q ∙ e)))
        | inr (inr (inr (inl (q, x)))) ↦ absurd (none-ne-some t' (ap reply_of (sym q ∙ e)))
        | inr (inr (inr (inr (q, x)))) ↦ absurd (none-ne-some t' (ap reply_of (sym q ∙ e)))
      ]

pub insert-Becomes :
    (log : List Event) (t t' : Table) (i : ℕ) (k u : List ℕ) (time : Option Timespec) (gen : ℕ)
    → Becomes t (Described log)
    → IsPair t k u
    → i < t.config.capacity
    → bad_stamp t time gen ≡ false
    → insert_direct t (suc i) k rec_in_use u false time gen ≡ ok t'
    → Becomes t' (Described (sets k u ∷ log))
insert-Becomes log t t' i k u time gen (chain, key, value, v, same) p l stamp e =
    Becomes_map t' (Places t key value k rec_in_use u) (Described (sets k u ∷ log))
      (λ k' u'.
        let (f, g) = sets_lem (Maps t key value) log same k u k' u' in
        ((λ h. elim h [ inl (q, m) ↦ f m | inr (n, m) ↦ absurd (n refl) ]), λ d. inl (refl, g d)))
      (direct_outcome t chain key value v i k u rec_in_use time gen t' l (omega arith) (omega arith)
        stamp p e)

pub insert_deleted-Becomes :
    (log : List Event) (t t' : Table) (i s : ℕ) (k u : List ℕ) (time : Option Timespec) (gen : ℕ)
    → Becomes t (Described log)
    → IsPair t k u
    → i < t.config.capacity
    → rec_deleted ≤ s
    → s ≤ lifetime_infinite
    → bad_stamp t time gen ≡ false
    → insert_direct t (suc i) k s u false time gen ≡ ok t'
    → Becomes t' (Described log)
insert_deleted-Becomes log t t' i s k u time gen (chain, key, value, v, same) p l dead old stamp e =
    Becomes_map t' (Places t key value k s u) (Described log)
      (λ k' u'.
        let (f, g) = same k' u' in
        (
          (λ h. elim h [ inl (q, m) ↦ absurd (omega (arith, q)) | inr (n, m) ↦ f m ]),
          λ d. inr ((λ q. absurd (omega (arith, q))), g d),
        ))
      (direct_outcome t chain key value v i k u s time gen t' l (omega arith) old stamp p e)
