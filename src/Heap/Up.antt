-- ===== src/Heap/Up.antt =====
-- heap_bubble_up and heap_insert of src/ld_heap.c.
use liteldacssdk.Prelude.{
  ℕ, zero, suc, ◌+◌, ◌<◌, ◌≡◌, refl, sym, ap, ◌∙◌, subst, inl, inr, Bool, true, false, ◌||◌, Option,
  some, List, [], ◌∷◌, ◌++◌, arith, length, length-append, ltb, leb, ◌==◌, Bool-cases, ◌>>=◌,
}
use liteldacssdk.Heap.{HeapNode, max_heap, node_at, factor_at, c_swap, parent, up_from, heap_insert}
use liteldacssdk.Heap.Order.{IsRising, rises, rises-IsOrdered}
use liteldacssdk.Heap.Swap.{
  IsIndexed, counts, count, count-append, count_one, c_swap-Swapped, IsSorted, go_on, Settled,
}

-- One round of up_from, which goes on or has reached its place.
up_from_step :
    (rounds : ℕ) (hps : List HeapNode) (i : ℕ)
    → 0 < i
    → factor_at hps i < factor_at hps (parent i)
    → up_from (suc rounds) hps i
      ≡ (c_swap hps i (parent i) >>= λ hps'. up_from rounds hps' (parent i))
unfolding up_from
up_from_step rounds hps i pos low =
    let deep : (i == 0) ≡ false = ground arith in
    let before : leb (factor_at hps (parent i)) (factor_at hps i) ≡ false = ground arith in
    rw (deep, before) refl

up_from_stop :
    (rounds : ℕ) (hps : List HeapNode) (i : ℕ)
    → (i == 0 || leb (factor_at hps (parent i)) (factor_at hps i)) ≡ true
    → up_from (suc rounds) hps i ≡ some hps
unfolding up_from
up_from_stop rounds hps i e = rw e refl

pub up_from-Settled :
    (rounds : ℕ) (hps : List HeapNode) (i : ℕ)
    → i < rounds
    → i < length hps
    → IsIndexed hps
    → IsRising (λ j. factor_at hps j) (length hps) i
    → Settled hps (up_from rounds hps i)
up_from-Settled zero hps i f h v r = absurd (omega arith)
up_from-Settled (suc rounds) hps i f h v r =
    elim (Bool-cases (i == 0 || leb (factor_at hps (parent i)) (factor_at hps i))) [
      | inl e ↦ record {
        after = hps;
        runs = up_from_stop rounds hps i e;
        sized = refl;
        sorted = record {
          ordered = rises-IsOrdered (λ j. factor_at hps j) (length hps) i r (λ pos. ground arith);
          indexed = v;
        };
        counted = λ test. refl;
      }
      | inr e ↦
          let pos : 0 < i = ground arith in
          let low : factor_at hps i < factor_at hps (parent i) = ground arith in
          let s = c_swap-Swapped hps i (parent i) h (omega arith) (omega arith) v in
          let rising : IsRising (λ j. factor_at s.after j) (length s.after) (parent i) =
            subst (λ n. IsRising (λ j. factor_at s.after j) n (parent i)) (sym s.sized)
              (rises (λ j. factor_at hps j) (λ j. factor_at s.after j) (length hps) i pos h r low
                s.swapped) in
          go_on s (λ hps'. up_from rounds hps' (parent i)) (up_from_step rounds hps i pos low)
            (up_from-Settled rounds s.after (parent i) (omega arith) (omega (arith, s.sized))
              s.indexed rising)
    ]

-- The slots of a longer array.
get_or-append_before :
    (xs : List HeapNode) (y : HeapNode) (j : ℕ)
    → j < length xs
    → node_at (xs ++ y ∷ []) j ≡ node_at xs j
get_or-append_before [] y j h = absurd (omega arith)
get_or-append_before (x ∷ xs) y zero h = refl
get_or-append_before (x ∷ xs) y (suc j) h = get_or-append_before xs y j (omega arith)

get_or-append_last : (xs : List HeapNode) (y : HeapNode) → node_at (xs ++ y ∷ []) (length xs) ≡ y
get_or-append_last [] y = refl
get_or-append_last (x ∷ xs) y = get_or-append_last xs y

-- The heap has one node more, in order.
pub record Inserted (hps : List HeapNode) (obj factor : ℕ) (o : Option (List HeapNode))
    : Type 0 where
  pub after : List HeapNode
  pub runs : o ≡ some after
  pub sized : length after ≡ length hps + 1
  pub sorted : IsSorted after
  pub counted :
      (test : ℕ → ℕ → Bool)
      → count test after
        ≡ count test hps + counts test (record { heap_idx = 0; factor = factor; obj = obj })

-- heap_insert into an ordered heap with room, when malloc gives a node: the heap has one node more,
-- that with the object and factor, is ordered, and every node knows its slot.
pub heap_insert-Inserted :
    (hps : List HeapNode) (obj factor : ℕ)
    → IsSorted hps
    → length hps < 8192
    → Inserted hps obj factor (heap_insert true hps obj factor)
unfolding heap_insert
heap_insert-Inserted hps obj factor v room =
    let node : HeapNode = record { heap_idx = length hps; factor = factor; obj = obj } in
    let more = hps ++ node ∷ [] in
    let n : length more ≡ length hps + 1 = omega (arith, length-append hps (node ∷ [])) in
    let fits : ltb (length hps) max_heap ≡ true = ground arith in
    let old : (j : ℕ) → j < length hps → node_at more j ≡ node_at hps j =
      λ j h. get_or-append_before hps node j h in
    let indexed : IsIndexed more = λ j h. elim (Bool-cases (ltb j (length hps))) [
      | inl e ↦
          let before : j < length hps = ground arith in
          ap (λ x. x.heap_idx) (old j before) ∙ v.indexed j before
      | inr e ↦
          let last : j ≡ length hps = ground (arith, n) in
          ap (λ k. (node_at more k).heap_idx) last
          ∙ ap (λ x. x.heap_idx) (get_or-append_last hps node)
          ∙ sym last
    ] in
    let rising : IsRising (λ j. factor_at more j) (length more) (length hps) = record {
      others = λ j a b ne. omega (
        arith,
        ap (λ x. x.factor) (old j (omega (arith, n))),
        ap (λ x. x.factor) (old (parent j) (omega (arith, n))),
        v.ordered j a (omega (arith, n)),
      );
      bridged = λ j a b e pos. absurd (omega (arith, n));
    } in
    let later =
      up_from-Settled (length hps + 1) more (length hps) (omega arith) (omega (arith, n)) indexed
        rising in
    record {
      after = later.after;
      runs = rw fits later.runs;
      sized = later.sized ∙ n;
      sorted = later.sorted;
      counted = λ test.
          later.counted test
          ∙ count-append test hps (node ∷ [])
          ∙ ap (λ k. count test hps + k) (count_one test node);
    }
