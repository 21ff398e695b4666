-- ===== src/Hashtable/Run/Laws.antt =====
-- What sequences of calls of the hash table amount to: lookups in the map that the calls describe.
use app_c_platform.Base.{
  ℕ, ◌≡◌, ◌≢◌, ◌↔◌, ◌⊎◌, inl, inr, Bool, true, false, List, ◌∷◌, Option, none, some, refl, sym, ◌∙◌,
  ap, subst, Bool-cases, Option-cases,
}
use mathlib.Core.Option.{some-injective, none-ne-some}
use app_c_platform.Hashtable.Store.{hashtable_key_equal, hashtable_key_fits}
use app_c_platform.Hashtable.Table.{Table, Reply, ok, err, endless, key_shape}
use app_c_platform.Hashtable.Query.{find_value_ref}
use app_c_platform.Hashtable.Modify.{Change, changed, refused, lost}
use app_c_platform.Hashtable.Modify.Valid.{IsTable, hashtable_key_equal_iff}
use app_c_platform.Hashtable.Modify.View.{find_value_ref_lem}
use app_c_platform.Hashtable.Modify.Deletion.{Becomes}
use app_c_platform.Hashtable.Modify.Existing.{Puts}
use app_c_platform.Hashtable.Modify.Outcome.{PutOutcome, Written}
use app_c_platform.Hashtable.Modify.Put.{DeletedPolicy, overwrite, revive}
use app_c_platform.Hashtable.Run.{Event, sets, removes, lookup, answer}

-- The map that the events describe.
abbrev pub Described : List Event → List ℕ → List ℕ → Type 0
Described log k u = lookup log k ≡ some u

same_key : (a b : List ℕ) → (hashtable_key_equal a b ≡ true) → b ≡ a
same_key a b e = sym ((hashtable_key_equal_iff a b).0 e)

other_key : (a b : List ℕ) → (hashtable_key_equal a b ≡ false) → b ≢ a
other_key a b e q = let z = (hashtable_key_equal_iff a b).1 (sym q) in absurd (cc)

module _ (log : List Event) (k k' : List ℕ) where
  pub sets_hit :
      (w : List ℕ) → hashtable_key_equal k k' ≡ true → lookup (sets k w ∷ log) k' ≡ some w
  unfolding lookup
  sets_hit w e = rw e refl

  sets_miss :
      (w : List ℕ) → hashtable_key_equal k k' ≡ false → lookup (sets k w ∷ log) k' ≡ lookup log k'
  unfolding lookup
  sets_miss w e = rw e refl

  removes_hit : hashtable_key_equal k k' ≡ true → lookup (removes k ∷ log) k' ≡ none
  unfolding lookup
  removes_hit e = rw e refl

  removes_miss : hashtable_key_equal k k' ≡ false → lookup (removes k ∷ log) k' ≡ lookup log k'
  unfolding lookup
  removes_miss e = rw e refl

module _ (M : List ℕ → List ℕ → Type 0) (log : List Event)
    (same : (k u : List ℕ) → M k u ↔ Described log k u) (k : List ℕ) where
  -- A key that is set in the map is set in the description.
  pub sets_lem :
      (w k' u' : List ℕ)
      → (((k' ≡ k) × (u' ≡ w)) ⊎ ((k' ≢ k) × M k' u')) ↔ Described (sets k w ∷ log) k' u'
  sets_lem w k' u' = elim (Bool-cases (hashtable_key_equal k k')) [
    | inl e ↦ (
      (λ h. elim h [
        | inl (p, q) ↦ sets_hit log k k' w e ∙ ap some (sym q)
        | inr (n, m) ↦ absurd (n (same_key k k' e))
      ]),
      (λ h. inl (same_key k k' e, some-injective u' w (sym h ∙ sets_hit log k k' w e))),
    )
    | inr e ↦ (
      (λ h. elim h [
        | inl (p, q) ↦ absurd (other_key k k' e p)
        | inr (n, m) ↦ sets_miss log k k' w e ∙ (same k' u').0 m
      ]),
      (λ h. inr (other_key k k' e, (same k' u').1 (sym (sets_miss log k k' w e) ∙ h))),
    )
  ]

  -- A key that is removed from the map is removed from the description.
  pub removes_lem : (k' u' : List ℕ) → ((k' ≢ k) × M k' u') ↔ Described (removes k ∷ log) k' u'
  removes_lem k' u' = elim (Bool-cases (hashtable_key_equal k k')) [
    | inl e ↦ (
      (λ (n, m). absurd (n (same_key k k' e))),
      (λ h. absurd (none-ne-some u' (sym (removes_hit log k k' e) ∙ h))),
    )
    | inr e ↦ (
      (λ (n, m). removes_miss log k k' e ∙ (same k' u').0 m),
      (λ h. (other_key k k' e, (same k' u').1 (sym (removes_miss log k k' e) ∙ h))),
    )
  ]

pub Becomes_map :
    (t : Table) (M N : List ℕ → List ℕ → Type 0)
    → ((k u : List ℕ) → M k u ↔ N k u)
    → Becomes t M
    → Becomes t N
Becomes_map t M N f (chain, key, value, v, same) = (
  chain,
  key,
  value,
  v,
  λ k u. ((λ m. (f k u).0 ((same k u).0 m)), λ n. (same k u).1 ((f k u).1 n)),
)

-- The table of an answer that succeeds.
abbrev pub changed_table : Change → Option Table
changed_table (changed t b) = some t
changed_table (refused c r) = none
changed_table lost = none

abbrev pub reply_of : {A : Type 0} → Reply A → Option A
reply_of (ok a) = some a
reply_of (err c) = none
reply_of endless = none

abbrev pub is_revive : DeletedPolicy → Bool
is_revive overwrite = false
is_revive revive = true

-- What a call of `hashtable_put` that succeeds leaves.
pub put_outcome :
    (t : Table) (chain : ℕ → List ℕ) (key value : ℕ → Option (List ℕ))
    (v : IsTable t chain key value) (k u : List ℕ) (policy : DeletedPolicy) (allow b : Bool)
    (t' : Table) (c : Change)
    → c ≡ changed t' b
    → PutOutcome t chain key value v k u policy allow c
    → (w : List ℕ) × Written t chain key value v k u policy allow w
      × Becomes t' (Puts t key value k w)
put_outcome t chain key value v k u policy allow b t' c e (inl (t1, w, h, written, becomes)) =
    let same : t1 ≡ t' = elim h [
      | inl (q, x, y) ↦ some-injective t1 t' (ap changed_table (sym q ∙ e))
      | inr (q, x, y) ↦ some-injective t1 t' (ap changed_table (sym q ∙ e))
    ] in
    (w, written, subst (λ y. Becomes y (Puts t key value k w)) same becomes)
put_outcome t chain key value v k u policy allow b t' c e (inr (inl (q, x, y))) =
    absurd (none-ne-some t' (ap changed_table (sym q ∙ e)))
put_outcome t chain key value v k u policy allow b t' c e (inr (inr (inl (q, x, y)))) =
    absurd (none-ne-some t' (ap changed_table (sym q ∙ e)))
put_outcome t chain key value v k u policy allow b t' c e (inr (inr (inr (inl (q, x))))) =
    absurd (none-ne-some t' (ap changed_table (sym q ∙ e)))
put_outcome t chain key value v k u policy allow b t' c e
      (inr (inr (inr (inr (i, q, x, y, z, m))))) =
    absurd (none-ne-some t' (ap changed_table (sym q ∙ e)))

-- A lookup in a table that stands for the described map.
pub find_by_log :
    (t : Table) (log : List Event) (k : List ℕ)
    → Becomes t (Described log)
    → hashtable_key_fits (key_shape t.config) k ≡ true
    → find_value_ref t k ≡ answer (lookup log k)
find_by_log t log k (chain, key, value, v, same) f =
    elim (find_value_ref_lem t chain key value v k f) [
      | inl (u, e, m) ↦ e ∙ ap answer (sym ((same k u).0 m))
      | inr (e, n) ↦ elim (Option-cases (lookup log k)) [
        | inl q ↦ e ∙ ap answer (sym q)
        | inr (u, q) ↦ absurd (n u ((same k u).1 q))
      ]
    ]
