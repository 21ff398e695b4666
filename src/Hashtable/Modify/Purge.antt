-- ===== src/Hashtable/Modify/Purge.antt =====
-- `cplat_hashtable_push_deleted`, `cplat_hashtable_purge_deleted` and
-- `hashtable_unlink_empty_chains` of hashtable_modify.c.
mod Place
mod Unlink
mod Swept
pub mod Rounds
pub mod Laws
use app_c_platform.Base.{
  ℕ, zero, suc, ◌+◌, ◌-◌, ◌&&◌, not, Option, none, some, ltb, leb, ◌==◌, if◌then◌else◌, add64,
  sub64,
}
use app_c_platform.Hashtable.Config.{lifetime_infinite, rec_empty, rec_deleted}
use app_c_platform.Hashtable.Store.{update}
use app_c_platform.Hashtable.Table.{Table}
use app_c_platform.Hashtable.Modify.{Link, head, after, read_link, cut, expire_record}

-- The `while` loop of `hashtable_unlink_empty_chains` from a link on. `none` means that the fuel
-- ran out.
unfoldable pub unlink_empty_chain : Table → ℕ → Link → Option Table
unfolding cut
unlink_empty_chain t zero link = none
unlink_empty_chain t (suc fuel) link =
    let cur = read_link t link in
    let empty = t.status (cur - 1) == rec_empty in
    let rest =
      unlink_empty_chain (if empty then cut t link (cur - 1) else t) fuel
        (if empty then link else after (cur - 1)) in
    if cur == 0 then some t else rest

-- `hashtable_unlink_empty_chains` over the `n` buckets from `i` on.
unfoldable pub unlink_empty_chains : Table → ℕ → ℕ → Option Table
unfolding unlink_empty_chain
unlink_empty_chains t zero i = some t
unlink_empty_chains t (suc n) i = elim (unlink_empty_chain t (t.config.capacity + 1) (head i)) [
  | none ↦ none
  | some t' ↦ unlink_empty_chains t' n (i + 1)
]

-- The state of the loops: the table, `new_next_empty` and `expired_count`.
pub record Sweep : Type 0 where
  pub table : Table
  pub new_next_empty : ℕ
  pub expired_count : ℕ

-- `if ((new_next_empty == 0) && (*status == REC_EMPTY)) new_next_empty = i + 1;`
unfoldable pub note_empty : Sweep → ℕ → Sweep
note_empty s i = record s {
  new_next_empty =
      if (s.new_next_empty == 0) && (s.table.status i == rec_empty)
      then i + 1
      else s.new_next_empty;
}

-- One round of `cplat_hashtable_push_deleted`.
unfoldable pub age : Sweep → ℕ → Sweep
unfolding expire_record note_empty
age s i =
    let t = s.table in
    let old = t.status i in
    let t' = record t { status = update t.status i (old + 1) } in
    note_empty
      (if leb rec_deleted old && ltb old lifetime_infinite
        then if leb t.config.lifetime (old + 1) && not (t.config.lifetime == lifetime_infinite)
          then record s { table = expire_record t' i; expired_count = add64 s.expired_count 1 }
          else record s { table = t' }
        else s)
      i

-- One round of `cplat_hashtable_purge_deleted`.
unfoldable pub purge : Sweep → ℕ → Sweep
unfolding expire_record note_empty
purge s i =
    note_empty
      (if leb rec_deleted (s.table.status i)
        then record s { table = expire_record s.table i }
        else s)
      i

-- A loop over the `n` records from `i` on.
unfoldable pub sweep : (Sweep → ℕ → Sweep) → Sweep → ℕ → ℕ → Sweep
sweep round s zero i = s
sweep round s (suc n) i = sweep round (round s i) n (i + 1)

abbrev pub start : Table → Sweep
start t = record { table = t; new_next_empty = 0; expired_count = 0 }

-- `cplat_hashtable_push_deleted`.
unfoldable pub push_deleted : Table → Option Table
unfolding sweep age unlink_empty_chains
push_deleted t =
    let s = sweep age (start t) t.config.capacity 0 in
    elim (unlink_empty_chains s.table t.config.capacity 0) [
      | none ↦ none
      | some t' ↦ some (record t' {
        next_empty = s.new_next_empty;
        deleted_count = sub64 t'.deleted_count s.expired_count;
      })
    ]

-- `cplat_hashtable_purge_deleted`.
unfoldable pub purge_deleted : Table → Option Table
unfolding sweep purge unlink_empty_chains
purge_deleted t =
    let s = sweep purge (start t) t.config.capacity 0 in
    elim (unlink_empty_chains s.table t.config.capacity 0) [
      | none ↦ none
      | some t' ↦ some (record t' { next_empty = s.new_next_empty; deleted_count = 0 })
    ]
