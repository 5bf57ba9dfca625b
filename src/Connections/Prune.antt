-- ===== src/Connections/Prune.antt =====
-- server_connection_prune of src/ld_net.c: it closes the connections that were not used for as long
-- as the timeout, the oldest first.
use liteldacssdk.Prelude.{
  ℕ, zero, suc, ◌+◌, ◌≤◌, ◌<◌, ◌≡◌, refl, ap, ◌⊎◌, inl, inr, Bool, true, false, ◌&&◌, not, Option,
  some, List, [], ◌∷◌, arith, length, ltb, leb, ◌==◌, ==_iff, Bool-cases,
}
use liteldacssdk.Heap.{HeapNode, node_at, factor_at, parent, get_heap}
use liteldacssdk.Heap.Swap.{IsSorted, one_if, counts, count}
use liteldacssdk.Connections.{connection_close, prune_round, server_connection_prune}
use liteldacssdk.Connections.Remove.{Removed, connection_unregister-Removed}

-- Not used for as long as the timeout, or longer.
abbrev pub is_stale : ℕ → ℕ → ℕ → Bool
is_stale now timeout factor = leb (factor + timeout) now

-- A connection that is stale, and any that is not.
abbrev pub stale_one : ℕ → ℕ → ℕ → ℕ → ℕ → Bool
stale_one now timeout bc obj factor = (obj == bc) && is_stale now timeout factor

abbrev pub fresh_one : ℕ → ℕ → ℕ → ℕ → ℕ → Bool
fresh_one now timeout bc obj factor = (obj == bc) && not (is_stale now timeout factor)

abbrev pub times : ℕ → List ℕ → ℕ
times bc [] = 0
times bc (x ∷ xs) = one_if (x == bc) + times bc xs

-- The first of an ordered heap is the oldest.
root_lowest :
    (hps : List HeapNode) (n j : ℕ)
    → IsSorted hps
    → j ≤ n
    → j < length hps
    → factor_at hps 0 ≤ factor_at hps j
root_lowest hps n zero v l h = omega arith
root_lowest hps zero (suc j) v l h = absurd (omega arith)
root_lowest hps (suc n) (suc j) v l h = omega (
  arith,
  root_lowest hps n (parent (suc j)) v (omega arith) (omega arith),
  v.ordered (suc j) (omega arith) h,
)

-- What was closed, and what is left.
pub record Pruned (left now timeout : ℕ) (hps : List HeapNode) (o : Option (List ℕ × List HeapNode))
    : Type 0 where
  pub closed : List ℕ
  pub after : List HeapNode
  pub runs : o ≡ some (closed, after)
  pub sorted : IsSorted after
  pub kept :
      (bc : ℕ) → count (fresh_one now timeout bc) after ≡ count (fresh_one now timeout bc) hps
  pub gone :
      (bc : ℕ)
      → count (stale_one now timeout bc) after + times bc closed
        ≡ count (stale_one now timeout bc) hps
  pub enough :
      (length closed ≡ left) ⊎ ((j : ℕ) → j < length after → now < factor_at after j + timeout)

found_first : (hps : List HeapNode) → 0 < length hps → get_heap hps (node_at hps 0).obj ≡ some 0
found_first [] h = absurd (omega arith)
found_first (node ∷ hps) h =
    let same : (node.obj == node.obj) ≡ true = (==_iff node.obj node.obj).1 refl in rw same refl

close_first :
    (hps : List HeapNode)
    → IsSorted hps
    → 0 < length hps
    → Removed hps (node_at hps 0) (connection_close hps (node_at hps 0).obj)
unfolding connection_close
close_first hps v h =
    connection_unregister-Removed hps (node_at hps 0).obj 0 v (found_first hps h) h
      (λ deep. absurd (omega arith))

prune_round_stop :
    (left now timeout : ℕ) (hps : List HeapNode)
    → (ltb 0 (length hps) && not (timeout == 0) && leb (factor_at hps 0 + timeout) now) ≡ false
    → prune_round (suc left) now timeout hps ≡ some ([], hps)
unfolding prune_round
prune_round_stop left now timeout hps e = rw e refl

prune_round_step :
    (left now timeout : ℕ) (hps hps' : List HeapNode) (closed : List ℕ) (end : List HeapNode)
    → (ltb 0 (length hps) && not (timeout == 0) && leb (factor_at hps 0 + timeout) now) ≡ true
    → connection_close hps (node_at hps 0).obj ≡ some hps'
    → prune_round left now timeout hps' ≡ some (closed, end)
    → prune_round (suc left) now timeout hps ≡ some ((node_at hps 0).obj ∷ closed, end)
unfolding prune_round
prune_round_step left now timeout hps hps' closed end e close later = rw (e, close, later) refl

-- A round that closes the oldest, and those behind it.
prune_on :
    (left now timeout : ℕ) (hps : List HeapNode)
    (r : Removed hps (node_at hps 0) (connection_close hps (node_at hps 0).obj))
    → (ltb 0 (length hps) && not (timeout == 0) && leb (factor_at hps 0 + timeout) now) ≡ true
    → Pruned left now timeout r.after (prune_round left now timeout r.after)
    → Pruned (suc left) now timeout hps (prune_round (suc left) now timeout hps)
prune_on left now timeout hps r e later =
    let old : is_stale now timeout (factor_at hps 0) ≡ true = ground arith in
    record {
      closed = (node_at hps 0).obj ∷ later.closed;
      after = later.after;
      runs =
          prune_round_step left now timeout hps r.after later.closed later.after e r.runs
            later.runs;
      sorted = later.sorted;
      kept = λ bc.
          let stays : counts (fresh_one now timeout bc) (node_at hps 0) ≡ 0 =
            rw old (ground arith) in
          omega (arith, later.kept bc, r.counted (fresh_one now timeout bc), stays);
      gone = λ bc.
          let goes : counts (stale_one now timeout bc) (node_at hps 0)
              ≡ one_if ((node_at hps 0).obj == bc) =
            rw old (ground arith) in
          omega (arith, later.gone bc, r.counted (stale_one now timeout bc), goes);
      enough = elim later.enough [ inl all ↦ inl (ap suc all) | inr none_left ↦ inr none_left ];
    }

prune_round-Pruned :
    (left now timeout : ℕ) (hps : List HeapNode)
    → 0 < timeout
    → IsSorted hps
    → Pruned left now timeout hps (prune_round left now timeout hps)
unfolding prune_round
prune_round-Pruned zero now timeout hps pos v = record {
  closed = [];
  after = hps;
  runs = refl;
  sorted = v;
  kept = λ bc. refl;
  gone = λ bc. omega arith;
  enough = inl refl;
}
prune_round-Pruned (suc left) now timeout hps pos v =
    elim (Bool-cases
      (ltb 0 (length hps) && not (timeout == 0) && leb (factor_at hps 0 + timeout) now)) [
        | inl e ↦
            let r = close_first hps v (ground arith) in
            prune_on left now timeout hps r e
              (prune_round-Pruned left now timeout r.after pos r.sorted)
        | inr e ↦ record {
          closed = [];
          after = hps;
          runs = prune_round_stop left now timeout hps e;
          sorted = v;
          kept = λ bc. refl;
          gone = λ bc. omega arith;
          enough = inr λ j h.
              let new : now < factor_at hps 0 + timeout = ground arith in
              omega (arith, new, root_lowest hps j j v (omega arith) h);
        }
      ]

-- server_connection_prune with a timeout, on a heap in order: it ends without a fault and leaves the
-- heap in order; it closes only connections that were not used for as long as the timeout, each as
-- often as it leaves the heap, and keeps every other; and it closes 100, or else leaves none that
-- was not used for as long.
pub server_connection_prune-Pruned :
    (now timeout : ℕ) (hps : List HeapNode)
    → 0 < timeout
    → IsSorted hps
    → Pruned 100 now timeout hps (server_connection_prune now timeout hps)
unfolding server_connection_prune
server_connection_prune-Pruned now timeout hps pos v = prune_round-Pruned 100 now timeout hps pos v
