-- ===== src/Connections/Remove.antt =====
-- connection_unregister of src/ld_net.c.
use liteldacssdk.Prelude.{
  ℕ, zero, suc, ◌+◌, ◌-◌, ◌≤◌, ◌<◌, ◌≡◌, refl, ap, ◌∙◌, ◌≢◌, inl, inr, Bool, true, Option, some,
  List, [], ◌∷◌, arith, length, take, length-take, ltb, ◌==◌, ==_iff, Bool-cases,
}
use liteldacssdk.Heap.{HeapNode, node_at, factor_at, put_at, parent, get_heap}
use liteldacssdk.Heap.Order.{IsSinking}
use liteldacssdk.Heap.Swap.{
  IsIndexed, IsSorted, counts, count, count-put_at, put_at-IsIndexed, length-put_at,
  node_at-put_at_self, node_at-put_at_ne,
}
use liteldacssdk.Heap.Down.{down_from-Settled}
use liteldacssdk.Connections.{without, connection_unregister}

node_at-take : (m : ℕ) (xs : List HeapNode) (j : ℕ) → j < m → node_at (take m xs) j ≡ node_at xs j
node_at-take zero xs j h = absurd (omega arith)
node_at-take (suc m) [] j h = refl
node_at-take (suc m) (x ∷ xs) zero h = refl
node_at-take (suc m) (x ∷ xs) (suc j) h = node_at-take m xs j (omega arith)

-- All but the last.
count-take :
    (test : ℕ → ℕ → Bool) (m : ℕ) (xs : List HeapNode)
    → m + 1 ≡ length xs
    → count test (take m xs) + counts test (node_at xs m) ≡ count test xs
unfolding count
count-take test zero [] e = absurd (omega arith)
count-take test zero (x ∷ []) e = omega arith
count-take test zero (x ∷ y ∷ xs) e = absurd (omega arith)
count-take test (suc m) [] e = absurd (omega arith)
count-take test (suc m) (x ∷ xs) e = omega (arith, count-take test m xs (omega arith))

-- One node is gone, and the others are in order.
pub record Removed (hps : List HeapNode) (node : HeapNode) (o : Option (List HeapNode))
    : Type 0 where
  pub after : List HeapNode
  pub runs : o ≡ some after
  pub sized : length after + 1 ≡ length hps
  pub sorted : IsSorted after
  pub counted : (test : ℕ → ℕ → Bool) → count test after + counts test node ≡ count test hps

-- The heap without slot `i`, before it is put in order.
module _ (hps : List HeapNode) (i : ℕ) (h : i < length hps) (v : IsSorted hps) where
  length-without : length (without hps i) + 1 ≡ length hps
  length-without = omega (
    arith,
    length-take (length hps - 1) (put_at hps i (node_at hps (length hps - 1))),
    length-put_at hps i (node_at hps (length hps - 1)),
  )

  node_at-without :
      (j : ℕ)
      → j < length hps - 1
      → node_at (without hps i) j ≡ node_at (put_at hps i (node_at hps (length hps - 1))) j
  node_at-without j l =
      node_at-take (length hps - 1) (put_at hps i (node_at hps (length hps - 1))) j l

  factor_kept : (j : ℕ) → j < length hps - 1 → j ≢ i → factor_at (without hps i) j ≡ factor_at hps j
  factor_kept j l ne =
      ap (λ x. x.factor)
        (node_at-without j l ∙ node_at-put_at_ne hps i j (node_at hps (length hps - 1)) h ne)

  factor_here : i < length hps - 1 → factor_at (without hps i) i ≡ factor_at hps (length hps - 1)
  factor_here l =
      ap (λ x. x.factor)
        (node_at-without i l ∙ node_at-put_at_self hps i (node_at hps (length hps - 1)) h)

  without-IsIndexed : IsIndexed (without hps i)
  without-IsIndexed j l =
      let l' : j < length hps - 1 = omega (arith, length-without) in
      ap (λ x. x.heap_idx) (node_at-without j l')
      ∙ put_at-IsIndexed hps i (node_at hps (length hps - 1)) h v.indexed j
          (omega (arith, length-put_at hps i (node_at hps (length hps - 1))))

  -- The condition is that of the last node at its new place.
  without-IsSinking :
      (0 < i → factor_at hps (parent i) ≤ factor_at hps (length hps - 1))
      → IsSinking (λ j. factor_at (without hps i) j) (length (without hps i)) i
  without-IsSinking fits = record {
    others = λ j a b ne.
        let l : j < length hps - 1 = omega (arith, length-without) in
        let above = factor_kept (parent j) (omega arith) ne in
        elim (Bool-cases (j == i)) [
          | inl e ↦
              let eq : j ≡ i = (==_iff j i).0 e in
              omega (
                arith,
                above,
                ap (λ k. factor_at hps (parent k)) eq,
                ap (factor_at (without hps i)) eq,
                factor_here (omega (arith, eq)),
                fits (omega (arith, eq)),
              )
          | inr e ↦
              omega (arith, above, factor_kept j l (ground arith), v.ordered j a (omega arith))
        ];
    bridged = λ j a b e pos.
        let l : j < length hps - 1 = omega (arith, length-without) in
        omega (
          arith,
          factor_kept (parent i) (omega arith) (omega arith),
          factor_kept j l (omega arith),
          ap (factor_at hps) e,
          v.ordered j a (omega arith),
          v.ordered i pos h,
        );
  }

  count-without :
      (test : ℕ → ℕ → Bool)
      → count test (without hps i) + counts test (node_at hps i) ≡ count test hps
  count-without test =
      let l = node_at hps (length hps - 1) in
      let full = put_at hps i l in
      let n : length full ≡ length hps = length-put_at hps i l in
      let end : counts test (node_at full (length hps - 1)) ≡ counts test l =
        elim (Bool-cases (length hps - 1 == i)) [
          | inl e ↦
              ap (λ k. counts test (node_at full k)) ((==_iff (length hps - 1) i).0 e)
              ∙ ap (counts test) (node_at-put_at_self hps i l h)
          | inr e ↦ ap (counts test) (node_at-put_at_ne hps i (length hps - 1) l h (ground arith))
        ] in
      omega (
        arith,
        count-put_at test hps i l h,
        count-take test (length hps - 1) full (omega (arith, n)),
        end,
      )

-- connection_unregister of a connection in slot `i` of an ordered heap, when its parent in the heap
-- was not used after the last node's connection: its node is gone, the others are in order, and each
-- knows its slot.
pub connection_unregister-Removed :
    (hps : List HeapNode) (bc i : ℕ)
    → IsSorted hps
    → get_heap hps bc ≡ some i
    → i < length hps
    → (0 < i → factor_at hps (parent i) ≤ factor_at hps (length hps - 1))
    → Removed hps (node_at hps i) (connection_unregister hps bc)
unfolding connection_unregister
connection_unregister-Removed hps bc i v found h fits =
    let inside : ltb i (length hps) ≡ true = ground arith in
    let settled =
      down_from-Settled (length (without hps i)) (without hps i) i (omega arith)
        (without-IsIndexed hps i h v) (without-IsSinking hps i h v fits) in
    let n = length-without hps i h v in
    record {
      after = settled.after;
      runs = rw (found, v.indexed i h, inside) settled.runs;
      sized = omega (arith, settled.sized, n);
      sorted = settled.sorted;
      counted = λ test. omega (arith, settled.counted test, count-without hps i h v test);
    }
