-- ===== src/Hashtable/Create/Blank.antt =====
-- Proofs about a table whose areas are all zeros, as hashtable_create.c sets them.
use app_c_platform.Base.{
  ℕ, zero, suc, ◌≤◌, ◌<◌, ◌≡◌, inr, Bool, false, List, [], Option, none, ltb, ◌==◌, size_max, arith,
  refl, sym,
}
use app_c_platform.Hashtable.Config.{
  FieldType, fixed_binary, fixed_string, variable_string, rec_in_use, hashtable_field_is_variable,
}
use app_c_platform.Hashtable.Arena.{arena_reset}
use app_c_platform.Hashtable.Store.Valid.{IsStore}
use app_c_platform.Hashtable.Table.{Table, key_shape, value_shape}
use app_c_platform.Hashtable.Table.Chain.{has_nil}
use app_c_platform.Hashtable.Table.Counts.{count}
use app_c_platform.Hashtable.Modify.Valid.{IsTable}
use app_c_platform.Hashtable.Create.{zero_store}

abbrev pub nothing : ℕ → Option (List ℕ)
nothing i = none

abbrev pub no_chain : ℕ → List ℕ
no_chain b = []

pub zero_store-IsStore :
    (k : FieldType) (f z : ℕ)
    → (k ≡ variable_string → (0 < z) × (z ≤ size_max))
    → IsStore
        (record { type = k; fixed_size = f; storage_size = z })
        (zero_store (record { type = k; fixed_size = f; storage_size = z }))
        nothing
unfolding hashtable_field_is_variable arena_reset
zero_store-IsStore variable_string f z h = record {
  small = let p = h refl in omega arith;
  free = let p = h refl in (omega arith, p.0, omega arith, tt);
  each = λ i t e. cc;
  disjoint = λ i j t u n e e'. cc;
  vacant = λ i e. (refl, refl);
}
zero_store-IsStore fixed_string f z h = record { padded = λ i t e. cc }
zero_store-IsStore fixed_binary f z h = record { plain = λ i t e. cc }

count_zero : (test : ℕ → Bool) (n : ℕ) → test 0 ≡ false → count test (λ i. 0) n ≡ 0
unfolding count
count_zero test zero h = refl
count_zero test (suc n) h = rw (h, count_zero test n h) refl

module _ (t : Table) (roomy : 0 < t.config.capacity) (small : t.config.capacity < size_max)
    (ks : IsStore (key_shape t.config) (zero_store (key_shape t.config)) nothing)
    (vs : IsStore (value_shape t.config) (zero_store (value_shape t.config)) nothing) where
  -- A table whose records are all zeros.
  pub blank-IsTable :
      IsTable
        (record t {
          bucket_head = λ b. 0;
          next = λ i. 0;
          status = λ i. 0;
          keys = zero_store (key_shape t.config);
          values = zero_store (value_shape t.config);
          next_empty = 1;
          in_use_count = 0;
          deleted_count = 0;
        })
        no_chain
        nothing
        nothing
  blank-IsTable = record {
    roomy = roomy;
    small = small;
    keys = ks;
    values = vs;
    status_key = λ i. ((λ e. refl), λ e. refl);
    status_value = λ i. ((λ e. refl), λ e. refl);
    linked = record {
      below = λ i k e. cc;
      linked = λ b l. refl;
      distinct = λ b l. tt;
      member = λ b i l h. absurd (has_nil i h);
      present = λ i k e. cc;
      unique = λ i j k e e'. cc;
    };
    in_use = sym (count_zero (λ s. s == rec_in_use) t.config.capacity refl);
    deleted = sym (count_zero (λ s. ltb rec_in_use s) t.config.capacity refl);
    lowest = inr (0, refl, omega arith, roomy, refl, λ j l h e. omega arith);
  }
