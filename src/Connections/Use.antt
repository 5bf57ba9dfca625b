-- ===== src/Connections/Use.antt =====
-- connecion_set_reactivated of src/ld_net.c at a server.
use liteldacssdk.Prelude.{
  ℕ, ◌+◌, ◌≤◌, ◌<◌, ◌≡◌, ap, ◌∙◌, ◌≢◌, inl, inr, Bool, true, Option, some, List, arith, length, set,
  ◌==◌, ==_iff, Bool-cases,
}
use liteldacssdk.Heap.{HeapNode, node_at, factor_at, put_at, parent, get_heap, heap_bubble_down}
use liteldacssdk.Heap.Order.{IsSinking}
use liteldacssdk.Heap.Swap.{
  IsIndexed, IsSorted, counts, count, count-put_at, put_at-IsIndexed, length-put_at,
  node_at-put_at_self, node_at-put_at_ne,
}
use liteldacssdk.Heap.Down.{down_from-Settled}
use liteldacssdk.Connections.{set_factor, reactivate_at, connecion_set_reactivated}

-- The node has another factor, and the nodes are in order.
pub record Used (hps : List HeapNode) (i now : ℕ) (o : Option (List HeapNode)) : Type 0 where
  pub after : List HeapNode
  pub runs : o ≡ some after
  pub sized : length after ≡ length hps
  pub sorted : IsSorted after
  pub counted :
      (test : ℕ → ℕ → Bool)
      → count test after + counts test (node_at hps i)
        ≡ count test hps + counts test (record (node_at hps i) { factor = now })

set_factor-put_at :
    (hps : List HeapNode) (i now : ℕ)
    → i < length hps
    → IsIndexed hps
    → set_factor hps i now ≡ put_at hps i (record (node_at hps i) { factor = now })
set_factor-put_at hps i now h v =
    ap (λ k. set hps i (record (node_at hps i) { heap_idx = k; factor = now })) (v i h)

module _ (hps : List HeapNode) (i now : ℕ) (h : i < length hps) (v : IsSorted hps)
    (later : factor_at hps i ≤ now) where
  fresh_kept :
      (j : ℕ)
      → j ≢ i
      → factor_at (put_at hps i (record (node_at hps i) { factor = now })) j ≡ factor_at hps j
  fresh_kept j ne =
      ap (λ x. x.factor) (node_at-put_at_ne hps i j (record (node_at hps i) { factor = now }) h ne)

  fresh_here : factor_at (put_at hps i (record (node_at hps i) { factor = now })) i ≡ now
  fresh_here =
      ap (λ x. x.factor) (node_at-put_at_self hps i (record (node_at hps i) { factor = now }) h)

  set_factor-IsSinking :
      IsSinking
        (λ j. factor_at (put_at hps i (record (node_at hps i) { factor = now })) j)
        (length (put_at hps i (record (node_at hps i) { factor = now })))
        i
  set_factor-IsSinking =
      let n = length-put_at hps i (record (node_at hps i) { factor = now }) in
      let fresh = put_at hps i (record (node_at hps i) { factor = now }) in
      record {
        others = λ j a b ne.
            let above = fresh_kept (parent j) ne in
            elim (Bool-cases (j == i)) [
              | inl e ↦
                  let eq : j ≡ i = (==_iff j i).0 e in
                  omega (
                    arith,
                    above,
                    ap (factor_at fresh) eq,
                    ap (factor_at hps) eq,
                    fresh_here,
                    later,
                    v.ordered j a (omega (arith, n)),
                  )
              | inr e ↦
                  omega
                    (arith, above, fresh_kept j (ground arith), v.ordered j a (omega (arith, n)))
            ];
        bridged = λ j a b e pos. omega (
          arith,
          fresh_kept (parent i) (omega arith),
          fresh_kept j (omega arith),
          ap (factor_at hps) e,
          v.ordered j a (omega (arith, n)),
          v.ordered i pos h,
        );
      }

-- connecion_set_reactivated at a server, of a connection in slot `i` of an ordered heap that was not
-- used after `now`: its node has the time `now`, the others are as they were, and the heap is in
-- order again.
pub connecion_set_reactivated-Used :
    (hps : List HeapNode) (bc i now : ℕ)
    → IsSorted hps
    → get_heap hps bc ≡ some i
    → i < length hps
    → factor_at hps i ≤ now
    → Used hps i now (connecion_set_reactivated true now hps bc)
unfolding connecion_set_reactivated
connecion_set_reactivated-Used hps bc i now v found h later =
    let fresh = put_at hps i (record (node_at hps i) { factor = now }) in
    let n : length fresh ≡ length hps =
      length-put_at hps i (record (node_at hps i) { factor = now }) in
    let idx : (node_at fresh i).heap_idx ≡ i =
      ap (λ x. x.heap_idx)
        (node_at-put_at_self hps i (record (node_at hps i) { factor = now }) h) in
    let settled =
      down_from-Settled (length fresh) fresh i (omega arith)
        (put_at-IsIndexed hps i (record (node_at hps i) { factor = now }) h v.indexed)
        (set_factor-IsSinking hps i now h v later) in
    record {
      after = settled.after;
      runs =
          ap (reactivate_at true now hps) found
          ∙ ap (λ fs. heap_bubble_down fs (node_at fs i).heap_idx)
              (set_factor-put_at hps i now h v.indexed)
          ∙ ap (heap_bubble_down fresh) idx
          ∙ settled.runs;
      sized = settled.sized ∙ n;
      sorted = settled.sorted;
      counted = λ test. omega (
        arith,
        settled.counted test,
        count-put_at test hps i (record (node_at hps i) { factor = now }) h,
      );
    }
