-- ===== src/Hashtable/Layout/Sizes.antt =====
-- Proofs about the sizes of the regions in hashtable_layout.c.
use app_c_platform.Base.{
  ℕ, ◌+◌, ◌*◌, ◌≤◌, ◌<◌, inl, inr, Option, some, ◌==◌, if◌then◌else◌, size_max, arith, refl, subst,
  Bool-cases,
}
use native.Mathlib.Nat.{mul-le-mul_right}
use app_c_platform.Hashtable.Config.{Config, hashtable_field_is_variable}
use app_c_platform.Hashtable.Layout.{
  sizeof_uint64, sizeof_header, sizeof_free_block, sizeof_string_ref, alignof_uint64, and_then,
  add_checked, mul_checked, align_up_checked, entry_key_offset, key_slot_size, entry_stride_checked,
  value_stride_checked, hashtable_free_list_region_size, MgmtLayout, key_regions,
  hashtable_mgmt_layout, hashtable_data_region_size, entry_key_start,
}
use app_c_platform.Hashtable.Layout.Exact.{
  ExactTo, Exact, ExactTo-and_then, add_checked-Exact, mul_checked-Exact, align_up_checked-Exact,
  round_up,
}

-- What a caller may pass in the fields of type `size_t`, and a capacity that is not 0.
pub record InWord (c : Config) : Type 0 where
  pub roomy : 0 < c.capacity
  pub capacity : c.capacity ≤ size_max
  pub key_size : c.key_size ≤ size_max
  pub value_size : c.value_size ≤ size_max
  pub key_storage : c.key_storage_size ≤ size_max
  pub value_storage : c.value_storage_size ≤ size_max

module _ (c : Config) (w : InWord c) where
  abbrev pub entry_stride : ℕ
  entry_stride = round_up (entry_key_offset c + key_slot_size c) alignof_uint64

  abbrev pub free_list_size : ℕ
  free_list_size = (c.capacity + 1) * sizeof_free_block

  -- The bytes of the management region: header, heads, entries, free list and storage of the keys.
  abbrev pub mgmt_bytes : ℕ
  mgmt_bytes =
      sizeof_header
      + c.capacity * sizeof_uint64
      + c.capacity * entry_stride
      + (if hashtable_field_is_variable c.key_type then free_list_size else 0)
      + c.key_storage_size

  -- The bytes of the data region.
  abbrev pub data_bytes : ℕ
  data_bytes =
      if hashtable_field_is_variable c.value_type
      then c.capacity * sizeof_string_ref + free_list_size + c.value_storage_size
      else c.capacity
        * (if c.value_align == 0 then c.value_size else round_up c.value_size c.value_align)

  key_offset_small : entry_key_offset c ≤ 48
  unfolding entry_key_offset entry_key_start
  key_offset_small = ground arith

  slot_small : key_slot_size c ≤ size_max
  unfolding key_slot_size
  slot_small = let k = w.key_size in ground arith

  stride-Exact : Exact (entry_stride_checked c) entry_stride
  unfolding entry_stride_checked
  stride-Exact =
      ExactTo-and_then (add_checked (entry_key_offset c) (key_slot_size c))
        (λ raw. align_up_checked raw alignof_uint64) (entry_key_offset c + key_slot_size c)
        entry_stride entry_stride
        (add_checked-Exact (entry_key_offset c) (key_slot_size c)
          (let k = key_offset_small in omega arith))
        (omega arith)
        (λ h. align_up_checked-Exact (entry_key_offset c + key_slot_size c) alignof_uint64 h)

  free_list-Exact : Exact (hashtable_free_list_region_size c) free_list_size
  unfolding hashtable_free_list_region_size
  free_list-Exact =
      ExactTo-and_then (add_checked c.capacity 1) (λ count. mul_checked count sizeof_free_block)
        (c.capacity + 1) free_list_size free_list_size (add_checked-Exact c.capacity 1 w.capacity)
        (omega arith) (λ h. mul_checked-Exact (c.capacity + 1) sizeof_free_block (omega arith))

  regions-Exact :
      (offset : ℕ)
      → offset ≤ size_max
      → Exact (key_regions c offset) (
          offset
          + (if hashtable_field_is_variable c.key_type then free_list_size else 0)
          + c.key_storage_size)
  unfolding key_regions
  regions-Exact offset h = elim (Bool-cases (hashtable_field_is_variable c.key_type)) [
    | inl e ↦ rw e (
        ExactTo-and_then
          (and_then (hashtable_free_list_region_size c)
            (λ region_size. add_checked offset region_size))
          (λ o. add_checked o c.key_storage_size) (offset + free_list_size)
          (offset + free_list_size + c.key_storage_size)
          (offset + free_list_size + c.key_storage_size)
          (ExactTo-and_then (hashtable_free_list_region_size c)
            (λ region_size. add_checked offset region_size) free_list_size (offset + free_list_size)
            (offset + free_list_size) free_list-Exact (omega arith)
            (λ k. add_checked-Exact offset free_list_size h))
          (omega arith) (λ k. add_checked-Exact (offset + free_list_size) c.key_storage_size k))
    | inr e ↦ rw e (
        subst (λ n. Exact (add_checked offset c.key_storage_size) (n + c.key_storage_size))
          (omega arith) (add_checked-Exact offset c.key_storage_size h))
  ]

  stride_le : entry_stride ≤ c.capacity * entry_stride
  stride_le = let m = mul-le-mul_right {m = 1} {n = c.capacity} entry_stride w.roomy in omega arith

  -- `hashtable_mgmt_layout`, for a capacity above 0 and fields within `size_t`, answers with the exact
  -- offsets and size where the size fits `size_t`, and with an error where it does not: no
  -- intermediate sum or product wraps.
  pub hashtable_mgmt_layout_lem :
      ExactTo
        (hashtable_mgmt_layout c)
        (record {
          off_bucket_head = sizeof_header;
          off_entries = sizeof_header + c.capacity * sizeof_uint64;
          mgmt_size = mgmt_bytes;
        })
        mgmt_bytes
  unfolding hashtable_mgmt_layout
  hashtable_mgmt_layout_lem =
      let heads = c.capacity * sizeof_uint64 in
      let r : MgmtLayout = record {
        off_bucket_head = sizeof_header;
        off_entries = sizeof_header + heads;
        mgmt_size = mgmt_bytes;
      } in
      let entries = c.capacity * entry_stride in
      let offset = sizeof_header + heads + entries in
      let size : ℕ → Option MgmtLayout = λ n. some (record {
        off_bucket_head = sizeof_header;
        off_entries = sizeof_header + heads;
        mgmt_size = n;
      }) in
      ExactTo-and_then (mul_checked c.capacity sizeof_uint64) _ heads mgmt_bytes r
        (mul_checked-Exact c.capacity sizeof_uint64 (omega arith)) (omega arith)
        (λ h1.
          ExactTo-and_then (add_checked sizeof_header heads) _ (sizeof_header + heads) mgmt_bytes r
            (add_checked-Exact sizeof_header heads (omega arith)) (omega arith)
            (λ h2.
              ExactTo-and_then (entry_stride_checked c) _ entry_stride mgmt_bytes r stride-Exact
                (let s = stride_le in omega arith)
                (λ h3.
                  ExactTo-and_then (mul_checked c.capacity entry_stride) _ entries mgmt_bytes r
                    (mul_checked-Exact c.capacity entry_stride h3) (omega arith)
                    (λ h4.
                      ExactTo-and_then (add_checked (sizeof_header + heads) entries) _ offset
                        mgmt_bytes r (add_checked-Exact (sizeof_header + heads) entries h2)
                        (omega arith)
                        (λ h5.
                          ExactTo-and_then (key_regions c offset) size mgmt_bytes mgmt_bytes r
                            (regions-Exact offset h5) (omega arith) (λ h6. inl (refl, h6)))))))

  value_stride-Exact :
      Exact
        (value_stride_checked c)
        (if c.value_align == 0 then c.value_size else round_up c.value_size c.value_align)
  unfolding value_stride_checked
  value_stride-Exact = elim (Bool-cases (c.value_align == 0)) [
    | inl e ↦ rw e (inl (refl, w.value_size))
    | inr e ↦ rw e (align_up_checked-Exact c.value_size c.value_align w.value_size)
  ]

  -- `hashtable_data_region_size`, for a capacity above 0 and fields within `size_t`, answers with the
  -- exact size where it fits `size_t`, and with an error where it does not.
  pub hashtable_data_region_size_lem : Exact (hashtable_data_region_size c) data_bytes
  unfolding hashtable_data_region_size
  hashtable_data_region_size_lem = elim (Bool-cases (hashtable_field_is_variable c.value_type)) [
    | inl e ↦
        let refs = c.capacity * sizeof_string_ref in
        let n = refs + free_list_size + c.value_storage_size in
        rw e (
          ExactTo-and_then (mul_checked c.capacity sizeof_string_ref) _ refs n n
            (mul_checked-Exact c.capacity sizeof_string_ref (omega arith)) (omega arith)
            (λ h1.
              ExactTo-and_then (hashtable_free_list_region_size c) _ free_list_size n n
                free_list-Exact (omega arith)
                (λ h2.
                  ExactTo-and_then (add_checked refs free_list_size) _ (refs + free_list_size) n n
                    (add_checked-Exact refs free_list_size h1) (omega arith)
                    (λ h3. add_checked-Exact (refs + free_list_size) c.value_storage_size h3))))
    | inr e ↦
        let stride =
          if c.value_align == 0 then c.value_size else round_up c.value_size c.value_align in
        let m = mul-le-mul_right {m = 1} {n = c.capacity} stride w.roomy in
        rw e (
          ExactTo-and_then (value_stride_checked c) _ stride (c.capacity * stride)
            (c.capacity * stride) value_stride-Exact (omega arith)
            (λ h. mul_checked-Exact c.capacity stride h))
  ]
