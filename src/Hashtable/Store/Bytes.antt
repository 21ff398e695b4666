-- ===== src/Hashtable/Store/Bytes.antt =====
-- Strings in a variable-length storage and the writes to its bytes.
use app_c_platform.Base.{
  ℕ, zero, suc, ◌+◌, ◌-◌, ◌≤◌, ◌<◌, ◌≡◌, ◌≢◌, List, [], ◌∷◌, ◌++◌, arith, refl, length, get_or,
  length-append,
}
use app_c_platform.Hashtable.Store.{c_string, until_nul, write_bytes}

abbrev pub NoNul : List ℕ → Type 0
NoNul [] = Unit
NoNul (c ∷ cs) = (c ≢ 0) × NoNul cs

-- The text and its NUL stand at `o`.
abbrev pub StandsAt : (ℕ → ℕ) → ℕ → List ℕ → Type 0
StandsAt bytes o [] = bytes o ≡ 0
StandsAt bytes o (c ∷ cs) = (bytes o ≡ c) × StandsAt bytes (o + 1) cs

pub c_string-eq :
    (bytes : ℕ → ℕ) (text : List ℕ) (o fuel : ℕ)
    → NoNul text
    → StandsAt bytes o text
    → length text < fuel
    → c_string bytes o fuel ≡ text
unfolding c_string
c_string-eq bytes text o zero n s h = elim h [ ]
c_string-eq bytes [] o (suc fuel) n s h = rw s
c_string-eq bytes (c ∷ cs) o (suc fuel) n s h =
    ground (arith, c_string-eq bytes cs (o + 1) fuel n.1 s.1)

-- Bytes that agree on the range of a string hold the same string.
pub StandsAt-agree :
    (f g : ℕ → ℕ) (text : List ℕ) (o : ℕ)
    → ((x : ℕ) → o ≤ x → x < o + length text + 1 → f x ≡ g x)
    → StandsAt f o text
    → StandsAt g o text
StandsAt-agree f g [] o same s = ground (arith, same o)
StandsAt-agree f g (c ∷ cs) o same s = (
  ground (arith, same o),
  StandsAt-agree f g cs (o + 1) (λ x h k. same x (omega arith) (omega arith)) s.1,
)

-- The write of a string at `o + k` after `k` bytes of it.
pub StandsAt-of_get_or :
    (f : ℕ → ℕ) (text : List ℕ) (o : ℕ)
    → ((i : ℕ) → i ≤ length text → f (o + i) ≡ get_or (text ++ 0 ∷ []) i 0)
    → StandsAt f o text
StandsAt-of_get_or f [] o same = let z : o + 0 ≡ o = omega arith in rw z at (same 0 (omega arith))
StandsAt-of_get_or f (c ∷ cs) o same =
    let z : o + 0 ≡ o = omega arith in
    (
      (rw z at (same 0 (omega arith))),
      StandsAt-of_get_or f cs (o + 1)
          (λ i h. let e : o + 1 + i ≡ o + suc i = omega arith in rw e (same (suc i) (omega arith))),
    )

pub StandsAt-write_bytes :
    (bytes : ℕ → ℕ) (o : ℕ) (text : List ℕ) → StandsAt (write_bytes bytes o (text ++ 0 ∷ [])) o text
StandsAt-write_bytes bytes o text =
    StandsAt-of_get_or (write_bytes bytes o (text ++ 0 ∷ [])) text o (λ i h.
      let l = length-append text (0 ∷ []) in let e : o + i - o ≡ i = omega arith in ground arith)

pub until_nul-eq : (text rest : List ℕ) → NoNul text → until_nul (text ++ 0 ∷ rest) ≡ text
unfolding until_nul
until_nul-eq [] rest n = refl
until_nul-eq (c ∷ cs) rest n = ground (arith, until_nul-eq cs rest)
