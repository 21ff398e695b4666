-- ===== src/Hashtable/Store/Variable.antt =====
-- Proofs about storing into and releasing from a variable-length storage.
use native.Mathlib.Decide.{ℕ_discrete}
use mathlib.Core.Option.{some-injective}
use app_c_platform.Base.{
  ℕ, ◌+◌, ◌≤◌, ◌<◌, ◌≡◌, ◌≢◌, List, [], ◌∷◌, ◌++◌, Option, none, some, length, arith, refl, sym,
  subst, ◌∙◌, length-append,
}
use app_c_platform.Hashtable.Arena.{arena_take, arena_give}
use app_c_platform.Hashtable.Arena.Region.{Inside}
use app_c_platform.Hashtable.Arena.Give.{arena_give-IsFreeList, free_at-arena_give}
use app_c_platform.Hashtable.Arena.Take.{arena_take-IsFreeList, free_at-arena_take, Inside-le}
use app_c_platform.Hashtable.Arena.Unique.{
  bytes_of_Apart, Apart-of_bytes, take-Apart, Inside-Apart_disjoint,
}
use app_c_platform.Hashtable.Store.{
  Store, string_ref, update, update_hit, update_miss, write_bytes, clear_bytes,
}
use app_c_platform.Hashtable.Store.Bytes.{NoNul, StandsAt-agree, StandsAt-write_bytes}
use app_c_platform.Hashtable.Store.Valid.{HeldAt, Disjoint, IsVariable}

-- The two effects on a storage, as records of their own.
abbrev pub stored_at : Store → ℕ → List ℕ → ℕ → ℕ → Store
stored_at st rec field o used' = record st {
  free_list = arena_take st.free_list o (length field + 1);
  refs = update st.refs rec (string_ref o (length field + 1));
  bytes = write_bytes st.bytes o (field ++ 0 ∷ []);
  used = used';
}

abbrev pub released_at : Store → ℕ → ℕ → Store
released_at st rec used' = record st {
  bytes = clear_bytes st.bytes (st.refs rec).offset (st.refs rec).length;
  free_list = arena_give st.free_list (st.refs rec).offset (st.refs rec).length;
  used = used';
  refs = update st.refs rec (string_ref 0 0);
}

module _ (size : ℕ) (st : Store) (held : ℕ → Option (List ℕ)) (v : IsVariable size st held)
    (rec : ℕ) where
  module _ (field : List ℕ) (o used' : ℕ) (empty : held rec ≡ none) (n : NoNul field)
      (i : Inside o (length field + 1) st.free_list) where
    abbrev st' : Store
    st' = stored_at st rec field o used'

    abbrev held' : ℕ → Option (List ℕ)
    held' = update held rec (some field)

    pos : 0 < length field + 1
    pos = omega arith

    fits : o + (length field + 1) ≤ size
    fits = Inside-le size v.small st.free_list o (length field + 1) 0 v.free i

    -- The record's own field.
    own : HeldAt size st'.bytes st'.free_list (string_ref o (length field + 1)) field
    own = record {
      long = refl;
      fits = fits;
      apart = take-Apart size v.small st.free_list o (length field + 1) pos v.free i;
      stands = StandsAt-write_bytes st.bytes o field;
      no_nul = n;
    }

    beside :
        (j : ℕ) (t : List ℕ)
        → held j ≡ some t
        → Disjoint (string_ref o (length field + 1)) (st.refs j)
    beside j t h =
        Inside-Apart_disjoint st.free_list o (length field + 1) (st.refs j).offset
          (st.refs j).length i (v.each j t h).apart

    -- Another record's field.
    other :
        (j : ℕ) (t : List ℕ) → held j ≡ some t → HeldAt size st'.bytes st'.free_list (st.refs j) t
    other j t h =
        let a = v.each j t h in
        let d = beside j t h in
        let l = length-append field (0 ∷ []) in
        record {
          long = a.long;
          fits = a.fits;
          apart =
              Apart-of_bytes size (st.refs j).offset (st.refs j).length (omega (arith, a.long))
                st'.free_list 0
                (λ x r.
                  let q =
                    bytes_of_Apart x st.free_list (st.refs j).offset (st.refs j).length a.apart r in
                  free_at-arena_take size v.small x st.free_list o (length field + 1) pos v.free i
                  ∙ rw q)
                (arena_take-IsFreeList size v.small st.free_list o (length field + 1) pos v.free i);
          stands =
              StandsAt-agree st.bytes st'.bytes t (st.refs j).offset
                (λ x lo hi. ground (arith, a.long)) a.stands;
          no_nul = a.no_nul;
        }

    -- Storing a field in free bytes keeps the storage valid, with the field held.
    pub stored_at-IsVariable : IsVariable size st' held'
    stored_at-IsVariable = record {
      small = v.small;
      free = arena_take-IsFreeList size v.small st.free_list o (length field + 1) pos v.free i;
      each = λ j t h. elim (ℕ_discrete j rec) [
        | yes e ↦
            let same = some-injective field t (sym (update_hit held rec (some field) j e) ∙ h) in
            let r = string_ref o (length field + 1) in
            rw (update_hit st.refs rec r j e)
              (subst (λ u. HeldAt size st'.bytes st'.free_list r u) same own)
        | no e ↦
            rw (update_miss st.refs rec (string_ref o (length field + 1)) j e)
              (other j t (sym (update_miss held rec (some field) j e) ∙ h))
      ];
      disjoint = λ j k t u ne h g. ground (arith, v.disjoint j k t u ne, beside j t, beside k u);
      vacant = λ j h. ground (arith, v.vacant j);
    }

  module _ (text : List ℕ) (used' : ℕ) (full : held rec ≡ some text) where
    abbrev freed : Store
    freed = released_at st rec used'

    abbrev left : ℕ → Option (List ℕ)
    left = update held rec none

    mine : HeldAt size st.bytes st.free_list (st.refs rec) text
    mine = v.each rec text full

    -- Another record's field.
    spared :
        (j : ℕ) (t : List ℕ)
        → j ≢ rec
        → held j ≡ some t
        → HeldAt size freed.bytes freed.free_list (st.refs j) t
    spared j t ne h =
        let a = v.each j t h in
        let d = v.disjoint j rec t text ne h full in
        let o = (st.refs rec).offset in
        let n = (st.refs rec).length in
        record {
          long = a.long;
          fits = a.fits;
          apart =
              Apart-of_bytes size (st.refs j).offset (st.refs j).length (omega (arith, a.long))
                freed.free_list 0
                (λ x r.
                  let q =
                    bytes_of_Apart x st.free_list (st.refs j).offset (st.refs j).length a.apart r in
                  free_at-arena_give size v.small x st.free_list o n mine.fits v.free mine.apart
                  ∙ ground arith)
                (arena_give-IsFreeList size v.small st.free_list o n mine.fits v.free mine.apart);
          stands =
              StandsAt-agree st.bytes freed.bytes t (st.refs j).offset
                (λ x lo hi. ground (arith, a.long)) a.stands;
          no_nul = a.no_nul;
        }

    -- Releasing a field keeps the storage valid, with the field gone.
    pub released_at-IsVariable : IsVariable size freed left
    released_at-IsVariable = record {
      small = v.small;
      free =
          arena_give-IsFreeList size v.small st.free_list (st.refs rec).offset (st.refs rec).length
            mine.fits v.free mine.apart;
      each = λ j t h. elim (ℕ_discrete j rec) [
        | yes e ↦ absurd (cc (update_hit held rec none j e))
        | no e ↦
            rw (update_miss st.refs rec (string_ref 0 0) j e)
              (spared j t e (sym (update_miss held rec none j e) ∙ h))
      ];
      disjoint = λ j k t u ne h g. ground (arith, v.disjoint j k t u ne);
      vacant = λ j h. ground (arith, v.vacant j);
    }
