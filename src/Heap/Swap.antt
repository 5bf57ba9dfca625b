-- ===== src/Heap/Swap.antt =====
-- What c_swap of src/ld_heap.c does to the slots, and what a heap holds.
use liteldacssdk.Prelude.{
  ℕ, zero, suc, ◌+◌, ◌-◌, ◌/◌, ◌≤◌, ◌<◌, ◌≡◌, refl, sym, ap, ◌∙◌, ◌≢◌, inl, inr, Bool, true, false,
  Option, some, List, [], ◌∷◌, ◌++◌, arith, length, set, length-set, get_or-set, ltb, ◌==◌, ==_iff,
  Bool-cases, ◌>>=◌,
}
use liteldacssdk.Heap.{HeapNode, nowhere, node_at, factor_at, put_at, c_swap}
use liteldacssdk.Heap.Order.{AreSwapped}

-- Every node knows its slot.
abbrev pub IsIndexed : List HeapNode → Type 0
IsIndexed hps = (j : ℕ) → j < length hps → (node_at hps j).heap_idx ≡ j

abbrev pub one_if : Bool → ℕ
one_if true = 1
one_if false = 0

-- How many nodes have an object and a factor with a property.
unfoldable pub count : (ℕ → ℕ → Bool) → List HeapNode → ℕ
count test [] = 0
count test (node ∷ hps) = one_if (test node.obj node.factor) + count test hps

abbrev pub counts : (ℕ → ℕ → Bool) → HeapNode → ℕ
counts test node = one_if (test node.obj node.factor)

pub count-append :
    (test : ℕ → ℕ → Bool) (xs ys : List HeapNode)
    → count test (xs ++ ys) ≡ count test xs + count test ys
unfolding count
count-append test [] ys = omega arith
count-append test (x ∷ xs) ys = omega (arith, count-append test xs ys)

pub count_one : (test : ℕ → ℕ → Bool) (x : HeapNode) → count test (x ∷ []) ≡ counts test x
unfolding count
count_one test x = omega arith

pub count_first :
    (test : ℕ → ℕ → Bool) (x : HeapNode) (xs : List HeapNode)
    → count test (x ∷ xs) ≡ counts test x + count test xs
unfolding count
count_first test x xs = refl

pub count-put_at :
    (test : ℕ → ℕ → Bool) (hps : List HeapNode) (i : ℕ) (node : HeapNode)
    → i < length hps
    → count test (put_at hps i node) + counts test (node_at hps i)
      ≡ count test hps + counts test node
count-put_at test hps i node h = go hps i (record node { heap_idx = i }) h
  where
    go :
        (hps : List HeapNode) (i : ℕ) (v : HeapNode)
        → i < length hps
        → count test (set hps i v) + counts test (node_at hps i) ≡ count test hps + counts test v
    go [] i v h = absurd (omega arith)
    go (x ∷ xs) zero v h = omega (arith, count_first test v xs, count_first test x xs)
    go (x ∷ xs) (suc i) v h =
        omega
          (arith, go xs i v (omega arith), count_first test x (set xs i v), count_first test x xs)

pub node_at-put_at_self :
    (hps : List HeapNode) (i : ℕ) (node : HeapNode)
    → i < length hps
    → node_at (put_at hps i node) i ≡ record node { heap_idx = i }
node_at-put_at_self hps i node h =
    ground (arith, get_or-set hps i i (record node { heap_idx = i }) nowhere h)

pub node_at-put_at_ne :
    (hps : List HeapNode) (i j : ℕ) (node : HeapNode)
    → i < length hps
    → j ≢ i
    → node_at (put_at hps i node) j ≡ node_at hps j
node_at-put_at_ne hps i j node h ne =
    ground (arith, get_or-set hps i j (record node { heap_idx = i }) nowhere h)

pub length-put_at :
    (hps : List HeapNode) (i : ℕ) (node : HeapNode) → length (put_at hps i node) ≡ length hps
length-put_at hps i node = length-set hps i (record node { heap_idx = i })

pub put_at-IsIndexed :
    (hps : List HeapNode) (i : ℕ) (node : HeapNode)
    → i < length hps
    → IsIndexed hps
    → IsIndexed (put_at hps i node)
put_at-IsIndexed hps i node h v j l = elim (Bool-cases (j == i)) [
  | inl e ↦
      let eq : j ≡ i = (==_iff j i).0 e in
      ap (λ k. (node_at (put_at hps i node) k).heap_idx) eq
      ∙ ap (λ x. x.heap_idx) (node_at-put_at_self hps i node h)
      ∙ sym eq
  | inr e ↦
      ap (λ x. x.heap_idx) (node_at-put_at_ne hps i j node h (ground arith))
      ∙ v j (omega (arith, length-put_at hps i node))
]

-- The nodes in two different slots were swapped, and all know their slots.
pub record Swapped (hps : List HeapNode) (x y : ℕ) : Type 0 where
  pub after : List HeapNode
  pub runs : c_swap hps x y ≡ some after
  pub sized : length after ≡ length hps
  pub indexed : IsIndexed after
  pub swapped : AreSwapped (λ j. factor_at hps j) (λ j. factor_at after j) x y
  pub counted : (test : ℕ → ℕ → Bool) → count test after ≡ count test hps

pub c_swap-Swapped :
    (hps : List HeapNode) (x y : ℕ)
    → x < length hps
    → y < length hps
    → x ≢ y
    → IsIndexed hps
    → Swapped hps x y
c_swap-Swapped hps x y h l ne v =
    let mid = put_at hps x (node_at hps y) in
    let n : length mid ≡ length hps = length-put_at hps x (node_at hps y) in
    let old : node_at mid y ≡ node_at hps y =
      node_at-put_at_ne hps x y (node_at hps y) h (λ e. ne (sym e)) in
    let l' : y < length mid = omega (arith, n) in
    record {
      after = put_at mid y (node_at hps x);
      runs =
          let x_in : ltb x (length hps) ≡ true = ground arith in
          let y_in : ltb y (length hps) ≡ true = ground arith in rw (x_in, y_in) refl;
      sized = length-put_at mid y (node_at hps x) ∙ n;
      indexed =
          put_at-IsIndexed mid y (node_at hps x) l' (put_at-IsIndexed hps x (node_at hps y) h v);
      swapped = record {
        here =
            ap (λ k. k.factor)
              (node_at-put_at_ne mid y x (node_at hps x) l' ne
                ∙ node_at-put_at_self hps x (node_at hps y) h);
        there = ap (λ k. k.factor) (node_at-put_at_self mid y (node_at hps x) l');
        elsewhere = λ j p q.
            ap (λ k. k.factor)
              (node_at-put_at_ne mid y j (node_at hps x) l' q
                ∙ node_at-put_at_ne hps x j (node_at hps y) h p);
      };
      counted = λ test. omega (
        arith,
        count-put_at test hps x (node_at hps y) h,
        count-put_at test mid y (node_at hps x) l',
        ap (counts test) old,
      );
    }

-- An ordered heap whose nodes know their slots, with what was held.
pub record IsSorted (hps : List HeapNode) : Type 0 where
  pub ordered : (j : ℕ) → 0 < j → j < length hps → factor_at hps ((j - 1) / 2) ≤ factor_at hps j
  pub indexed : IsIndexed hps

-- The nodes moved, and are in order now.
pub record Settled (hps : List HeapNode) (o : Option (List HeapNode)) : Type 0 where
  pub after : List HeapNode
  pub runs : o ≡ some after
  pub sized : length after ≡ length hps
  pub sorted : IsSorted after
  pub counted : (test : ℕ → ℕ → Bool) → count test after ≡ count test hps

-- A round of a loop and the rest of it.
pub go_on :
    {hps : List HeapNode} {x y : ℕ} (s : Swapped hps x y)
    (loop : List HeapNode → Option (List HeapNode)) {o : Option (List HeapNode)}
    → o ≡ (c_swap hps x y >>= loop)
    → Settled s.after (loop s.after)
    → Settled hps o
go_on s loop e later = record {
  after = later.after;
  runs = e ∙ ap (λ r. r >>= loop) s.runs ∙ later.runs;
  sized = later.sized ∙ s.sized;
  sorted = later.sorted;
  counted = λ test. later.counted test ∙ s.counted test;
}
