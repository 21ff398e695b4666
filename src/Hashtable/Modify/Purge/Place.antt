-- ===== src/Hashtable/Modify/Purge/Place.antt =====
-- A place in a chain: the link that a walk stands at and the records behind it.
use app_c_platform.Base.{ℕ, ◌≡◌, true, List, ◌∷◌, refl, sym, ◌∙◌, subst}
use app_c_platform.Hashtable.Table.Chain.{
  IsChain, has, Distinct, remove, remove_here, remove_there, has_here, has_there, has_apart,
}
use app_c_platform.Hashtable.Modify.{Link, after}
use app_c_platform.Hashtable.Modify.Links.{link_to, link_to_here, link_to_there, read}

-- A walk over the chain `c` that starts at the first link stands at the second, with the records
-- `rest` to come.
pub data Place : Link → List ℕ → Link → List ℕ → Type 0 where
  start : (link : Link) (c : List ℕ) → Place link c link c
  behind :
      (first link : Link) (q : ℕ) (c rest : List ℕ)
      → Place (after q) c link rest
      → Place first (q ∷ c) link rest

pub Place-has :
    (first link : Link) (c : List ℕ) (r : ℕ) (l : List ℕ)
    → Place first c link (r ∷ l)
    → has r c ≡ true
Place-has first _ _ r l (start _ _) = has_here r l
Place-has first link _ r l (behind _ _ q c _ p) = has_there r q c (Place-has (after q) link c r l p)

pub link_to-Place :
    (first link : Link) (c : List ℕ) (r : ℕ) (l : List ℕ)
    → Place first c link (r ∷ l)
    → Distinct c
    → link_to first c r ≡ link
link_to-Place first _ _ r l (start _ _) d = link_to_here first r l r refl
link_to-Place first link _ r l (behind _ _ q c _ p) d =
    link_to_there first q c r (has_apart r q c (Place-has (after q) link c r l p) d.0)
    ∙ link_to-Place (after q) link c r l p d.1

-- The record at the place leaves the chain.
pub Place-remove :
    (first link : Link) (c : List ℕ) (r : ℕ) (l : List ℕ)
    → Place first c link (r ∷ l)
    → Distinct c
    → Place first (remove r c) link l
Place-remove first _ _ r l (start _ _) d =
    subst (λ x. Place first x first l) (sym (remove_here r r l refl)) (start first l)
Place-remove first link _ r l (behind _ _ q c _ p) d =
    subst (λ x. Place first x link l)
      (sym (remove_there r q c (has_apart r q c (Place-has (after q) link c r l p) d.0)))
      (behind first link q (remove r c) l (Place-remove (after q) link c r l p d.1))

-- The walk goes on behind the record.
pub Place-after :
    (first link : Link) (c : List ℕ) (r : ℕ) (l : List ℕ)
    → Place first c link (r ∷ l)
    → Place first c (after r) l
Place-after first _ _ r l (start _ _) = behind first (after r) r l l (start (after r) l)
Place-after first link _ r l (behind _ _ q c _ p) =
    behind first (after r) q c l (Place-after (after q) link c r l p)

pub IsChain-Place :
    (h n : ℕ → ℕ) (first link : Link) (c rest : List ℕ)
    → Place first c link rest
    → IsChain n (read h n first) c
    → IsChain n (read h n link) rest
IsChain-Place h n first _ _ rest (start _ _) v = v
IsChain-Place h n first link _ rest (behind _ _ q c _ p) v =
    IsChain-Place h n (after q) link c rest p v.1
