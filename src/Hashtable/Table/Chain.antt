-- ===== src/Hashtable/Table/Chain.antt =====
-- The chains of a table as lists: the linked list that a bucket's head starts, the list without one
-- of its records, and how long a list of distinct records can be.
use app_c_platform.Base.{
  ℕ, zero, suc, ◌+◌, ◌≤◌, ◌<◌, ◌≡◌, ◌≢◌, Bool, true, false, ◌&&◌, ◌||◌, not, List, [], ◌∷◌, ◌==◌,
  if◌then◌else◌, length, arith, ==_iff, ne→==,
}

-- The links from `cur` on pass through the records of the list, in order, and end.
abbrev pub IsChain : (ℕ → ℕ) → ℕ → List ℕ → Type 0
IsChain next cur [] = cur ≡ 0
IsChain next cur (r ∷ l) = (cur ≡ suc r) × IsChain next (next r) l

unfoldable pub has : ℕ → List ℕ → Bool
has x [] = false
has x (y ∷ l) = x == y || has x l

abbrev pub Distinct : List ℕ → Type 0
Distinct [] = Unit
Distinct (r ∷ l) = (has r l ≡ false) × Distinct l

-- The list without its first `x`.
unfoldable pub remove : ℕ → List ℕ → List ℕ
remove x [] = []
remove x (y ∷ l) = if x == y then l else y ∷ remove x l

pub remove_here : (x y : ℕ) (l : List ℕ) → x ≡ y → remove x (y ∷ l) ≡ l
unfolding remove
remove_here x y l e = rw ((==_iff x y).1 e)

pub remove_there : (x y : ℕ) (l : List ℕ) → x ≢ y → remove x (y ∷ l) ≡ y ∷ remove x l
unfolding remove
remove_there x y l n = rw (ne→== x y n)

pub has_nil : (x : ℕ) → has x [] ≢ true
unfolding has
has_nil x h = cc

pub has_here : (x : ℕ) (l : List ℕ) → has x (x ∷ l) ≡ true
unfolding has
has_here x l = ground arith

pub has_there : (x y : ℕ) (l : List ℕ) → has x l ≡ true → has x (y ∷ l) ≡ true
unfolding has
has_there x y l h = ground arith

pub has_cons : (x y : ℕ) (l : List ℕ) → has x (y ∷ l) ≡ false → (x ≢ y) × (has x l ≡ false)
unfolding has
has_cons x y l h = ground arith

pub has_miss : (x y : ℕ) (l : List ℕ) → x ≢ y → has x (y ∷ l) ≡ has x l
unfolding has
has_miss x y l n = ground arith

pub has_apart : (x y : ℕ) (l : List ℕ) → has x l ≡ true → has y l ≡ false → x ≢ y
has_apart x y l h f e = cc

pub has-remove : (x y : ℕ) (l : List ℕ) → Distinct l → has x (remove y l) ≡ not (x == y) && has x l
unfolding has remove
has-remove x y [] d = ground arith
has-remove x y (z ∷ l) d = ground (arith, has-remove x y l)

pub Distinct-remove : (y : ℕ) (l : List ℕ) → Distinct l → Distinct (remove y l)
unfolding has remove
Distinct-remove y [] d = tt
Distinct-remove y (z ∷ l) d = ground (arith, has-remove z y l d.1, Distinct-remove y l)

length-remove : (y : ℕ) (l : List ℕ) → length l ≤ length (remove y l) + 1
unfolding remove
length-remove y [] = omega arith
length-remove y (z ∷ l) = ground (arith, length-remove y l)

-- Distinct numbers below `n` are at most `n` many.
pub length_bound :
    (n : ℕ) (l : List ℕ) → Distinct l → ((x : ℕ) → has x l ≡ true → x < n) → length l ≤ n
length_bound zero [] d h = omega arith
length_bound zero (y ∷ l) d h = absurd (omega (arith, h y (has_here y l)))
length_bound (suc n) l d h =
    let rest =
      length_bound n (remove n l) (Distinct-remove n l d)
        (λ x k. ground (arith, has-remove x n l d, h x)) in
    omega (arith, length-remove n l, rest)

-- A chain depends on the links of its own records only.
pub IsChain-agree :
    (n n' : ℕ → ℕ) (cur : ℕ) (l : List ℕ)
    → ((x : ℕ) → has x l ≡ true → n' x ≡ n x)
    → IsChain n cur l
    → IsChain n' cur l
IsChain-agree n n' cur [] a c = c
IsChain-agree n n' cur (r ∷ l) a c =
    (c.0, rw (a r (has_here r l)) (IsChain-agree n n' (n r) l (λ x h. a x (has_there x r l h)) c.1))
