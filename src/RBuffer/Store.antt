-- ===== src/RBuffer/Store.antt =====
-- The heap of nodes: the newest write to an address counts.
use liteldacssdk.Prelude.{
  ℕ, suc, ◌≤◌, max, ◌≡◌, refl, Option, none, some, List, [], ◌∷◌, arith, ◌==◌, if◌then◌else◌, ◌>>=◌,
}

-- `rnode_t`
pub record Node : Type 0 where
  pub item : ℕ
  pub prev : ℕ
  pub next : ℕ

abbrev pub Heap : Type 0
Heap = List (ℕ × Option Node)

abbrev pub read : Heap → ℕ → Option Node
read [] a = none
read ((b, n) ∷ h) a = if b == a then n else read h a

abbrev pub write : Heap → ℕ → Node → Heap
write h a n = (a, some n) ∷ h

-- `free`
abbrev pub release : Heap → ℕ → Heap
release h a = (a, none) ∷ h

-- `p->next = q` and `p->prev = q`
unfoldable pub set_next : Heap → ℕ → ℕ → Option Heap
set_next h p q = read h p >>= λ n. some (write h p (record n { next = q }))

unfoldable pub set_prev : Heap → ℕ → ℕ → Option Heap
set_prev h p q = read h p >>= λ n. some (write h p (record n { prev = q }))

-- An allocator: the address past the highest one ever used. It shows that what is assumed of
-- `malloc`, an address at which no node is live, can be met.
abbrev pub highest : Heap → ℕ
highest [] = 0
highest ((a, n) ∷ h) = max (suc a) (highest h)

read-highest : (h : Heap) (b : ℕ) → highest h ≤ b → read h b ≡ none
read-highest [] b p = refl
read-highest ((a, n) ∷ h) b p = ground (arith, read-highest h b)

pub highest_fresh : (h : Heap) → read h (highest h) ≡ none
highest_fresh h = read-highest h (highest h) (omega arith)
