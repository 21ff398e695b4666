-- ===== src/Hashtable/Modify/Valid.antt =====
-- The invariant of a table, with the lists of the chains and the fields of the records named beside
-- it, and what a walk over a chain finds.
use app_c_platform.Base.{
  ℕ, suc, ◌-◌, ◌<◌, ◌^◌, ◌≡◌, ◌↔◌, true, false, List, [], ◌∷◌, Option, none, some, ltb, ◌==◌, arith,
  refl, ==_iff, ne→==,
}
use app_c_platform.Hashtable.Config.{rec_empty, rec_in_use}
use app_c_platform.Hashtable.Store.{hashtable_key_equal, hashtable_hash_key}
use app_c_platform.Hashtable.Store.Valid.{IsStore}
use app_c_platform.Hashtable.Table.{Table, key_shape, value_shape, entry_key, bucket_of, walk}
use app_c_platform.Hashtable.Table.Counts.{count, FirstEmpty}
use app_c_platform.Hashtable.Modify.{Link, after, read_link}
use app_c_platform.Hashtable.Modify.Delete.{find_link}
use app_c_platform.Hashtable.Modify.Linked.{IsLinked}

-- `key i` and `value i` are the fields of record `i`, if it is not empty, and `chain b` is the list
-- of the records of bucket `b`.
pub record IsTable (t : Table) (chain : ℕ → List ℕ) (key value : ℕ → Option (List ℕ)) : Type 0 where
  pub roomy : 0 < t.config.capacity
  pub small : t.config.capacity < 2 ^ 64 - 1
  pub keys : IsStore (key_shape t.config) t.keys key
  pub values : IsStore (value_shape t.config) t.values value
  pub status_key : (i : ℕ) → (t.status i ≡ rec_empty) ↔ (key i ≡ none)
  pub status_value : (i : ℕ) → (t.status i ≡ rec_empty) ↔ (value i ≡ none)
  pub linked : IsLinked t.config.capacity (bucket_of t) t.bucket_head t.next key chain
  pub in_use : t.in_use_count ≡ count (λ s. s == rec_in_use) t.status t.config.capacity
  pub deleted : t.deleted_count ≡ count (λ s. ltb rec_in_use s) t.status t.config.capacity
  pub lowest : FirstEmpty t.status 0 t.config.capacity t.next_empty

pub hashtable_key_equal_iff : (a b : List ℕ) → (hashtable_key_equal a b ≡ true) ↔ (a ≡ b)
unfolding hashtable_key_equal
hashtable_key_equal_iff [] [] = ((λ e. refl), λ e. refl)
hashtable_key_equal_iff [] (d ∷ ds) = ((λ e. cc), λ e. cc)
hashtable_key_equal_iff (c ∷ cs) [] = ((λ e. cc), λ e. cc)
hashtable_key_equal_iff (c ∷ cs) (d ∷ ds) =
    let (f, g) = hashtable_key_equal_iff cs ds in
    (
      (λ e. let h : c ≡ d = ground arith in let k : cs ≡ ds = f (ground arith) in λ i. h i ∷ k i),
      λ e. let h : c ≡ d = cc in let k : cs ≡ ds = cc in rw ((==_iff c d).1 h) (g k),
    )

pub hash_bound :
    (capacity : ℕ) (k : List ℕ) → 0 < capacity → hashtable_hash_key capacity k < capacity
unfolding hashtable_hash_key
hash_bound capacity k h = omega arith

pub pred : (r : ℕ) → suc r - 1 ≡ r
pred r = omega arith

module _ (t : Table) (k : List ℕ) where
  pub walk_end : (fuel cur : ℕ) → cur ≡ 0 → walk t k (suc fuel) cur ≡ some 0
  unfolding walk
  walk_end fuel cur e = rw e refl

  pub walk_hit :
      (fuel cur r : ℕ)
      → cur ≡ suc r
      → hashtable_key_equal (entry_key t r) k ≡ true
      → walk t k (suc fuel) cur ≡ some (suc r)
  unfolding walk
  walk_hit fuel cur r e h = rw e (rw (ne→== (suc r) 0 (omega arith), pred r, h) refl)

  pub walk_miss :
      (fuel cur r : ℕ)
      → cur ≡ suc r
      → hashtable_key_equal (entry_key t r) k ≡ false
      → walk t k (suc fuel) cur ≡ walk t k fuel (t.next r)
  unfolding walk
  walk_miss fuel cur r e h = rw e (rw (ne→== (suc r) 0 (omega arith), pred r, h) refl)

  pub link_end :
      (fuel : ℕ) (link : Link) → read_link t link ≡ 0 → find_link t k (suc fuel) link ≡ some none
  unfolding find_link
  link_end fuel link e = rw e refl

  pub link_hit :
      (fuel : ℕ) (link : Link) (r : ℕ)
      → read_link t link ≡ suc r
      → hashtable_key_equal (entry_key t r) k ≡ true
      → find_link t k (suc fuel) link ≡ some (some link)
  unfolding find_link
  link_hit fuel link r e h = rw e (rw (ne→== (suc r) 0 (omega arith), pred r, h) refl)

  pub link_miss :
      (fuel : ℕ) (link : Link) (r : ℕ)
      → read_link t link ≡ suc r
      → hashtable_key_equal (entry_key t r) k ≡ false
      → find_link t k (suc fuel) link ≡ find_link t k fuel (after r)
  unfolding find_link
  link_miss fuel link r e h = rw e (rw (ne→== (suc r) 0 (omega arith), pred r, h) refl)
