-- ===== src/Hashtable/Store/Tests.antt =====
-- A variable-length storage of 32 bytes with the text "AB" of record 0 in it.
use mathlib.Core.Option.{some-injective}
use app_c_platform.Base.{
  ℕ, zero, suc, ◌≡◌, ◌≢◌, List, [], ◌∷◌, Option, none, some, true, false, refl, subst, inr, arith,
  get_or, add64,
}
use app_c_platform.Hashtable.Config.{variable_string, hashtable_field_is_variable}
use app_c_platform.Hashtable.Arena.{
  block, arena_find_fit, fit_loop, merge_own, absorb, arena_free_block_adjoins, end_of,
}
use app_c_platform.Hashtable.Store.{
  Store, StringRef, string_ref, Shape, update, store, release, find_free,
  hashtable_field_input_size,
}
use app_c_platform.Hashtable.Store.Valid.{HeldAt, Disjoint, IsStore, IsField}
use app_c_platform.Hashtable.Store.Laws.{store-IsStore, store-release-IsStore}

abbrev shape : Shape
shape = record { type = variable_string; fixed_size = 0; storage_size = 32 }

abbrev text : List ℕ
text = 65 ∷ 66 ∷ []

abbrev ref_of : ℕ → StringRef
ref_of zero = string_ref 0 3
ref_of (suc i) = string_ref 0 0

abbrev held : ℕ → Option (List ℕ)
held zero = some text
held (suc i) = none

abbrev one_text : Store
one_text = record {
  slots = λ i. [];
  refs = ref_of;
  bytes = λ x. get_or text x 0;
  free_list = block 3 29 ∷ [];
  used = 3;
}

each_text :
    (i : ℕ) (t : List ℕ)
    → held i ≡ some t
    → HeldAt 32 one_text.bytes one_text.free_list (one_text.refs i) t
each_text zero t h =
    subst (λ u. HeldAt 32 one_text.bytes one_text.free_list (string_ref 0 3) u)
      (some-injective text t h)
      (record {
        long = refl;
        fits = omega arith;
        apart = (inr (omega arith), tt);
        stands = (refl, (refl, refl));
        no_nul = (omega arith, (omega arith, tt));
      })
each_text (suc i) t h = cc

alone :
    (i j : ℕ) (t u : List ℕ)
    → i ≢ j
    → held i ≡ some t
    → held j ≡ some u
    → Disjoint (ref_of i) (ref_of j)
alone zero zero t u n h k = absurd (n refl)
alone zero (suc j) t u n h k = cc
alone (suc i) j t u n h k = cc

no_ref : (i : ℕ) → held i ≡ none → ((ref_of i).offset ≡ 0) × ((ref_of i).length ≡ 0)
no_ref zero h = cc
no_ref (suc i) h = (refl, refl)

one_text-IsStore : IsStore shape one_text held
one_text-IsStore = record {
  small = omega arith;
  free = (omega arith, omega arith, omega arith, tt);
  each = each_text;
  disjoint = alone;
  vacant = no_ref;
}

fits : find_free shape one_text 1 false (67 ∷ []) ≡ some 3
unfolding find_free hashtable_field_is_variable hashtable_field_input_size arena_find_fit fit_loop
    merge_own absorb arena_free_block_adjoins end_of add64
fits = refl

refits : find_free shape one_text 0 true (67 ∷ []) ≡ some 0
unfolding find_free hashtable_field_is_variable hashtable_field_input_size arena_find_fit fit_loop
    merge_own absorb arena_free_block_adjoins end_of add64
refits = refl

letter-IsField : IsField shape (67 ∷ [])
letter-IsField = ((omega arith, tt), omega arith)

store_example : IsStore shape (store shape one_text 1 (67 ∷ []) 3) (update held 1 (some (67 ∷ [])))
store_example =
    store-IsStore shape one_text held one_text-IsStore 1 (67 ∷ []) 3 refl letter-IsField fits

overwrite_example :
    IsStore shape
      (store shape (release shape one_text 0) 0 (67 ∷ []) 0)
      (update held 0 (some (67 ∷ [])))
overwrite_example =
    store-release-IsStore shape one_text held one_text-IsStore 0 text (67 ∷ []) 0 refl
      letter-IsField refits
