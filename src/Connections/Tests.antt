-- ===== src/Connections/Tests.antt =====
-- The connections of src/ld_net.c on small heaps: the theorems applied, and what the code does where
-- they do not hold.
use liteldacssdk.Prelude.{
  ℕ, zero, suc, ◌+◌, ◌-◌, ◌/◌, ◌≤◌, ◌<◌, ◌≡◌, refl, true, Option, none, some, List, [], ◌∷◌, arith,
}
use liteldacssdk.Heap.{HeapNode, node_at, factor_at, heap_insert, down_from}
use liteldacssdk.Heap.Swap.{IsSorted}
use liteldacssdk.Heap.Up.{Inserted, heap_insert-Inserted}
use liteldacssdk.Connections.{
  connection_unregister, connection_close, connecion_set_reactivated, prune_round,
  server_connection_prune,
}
use liteldacssdk.Connections.Prune.{Pruned, server_connection_prune-Pruned}
use liteldacssdk.Connections.Use.{Used, connecion_set_reactivated-Used}

-- A node in slot `i`, of connection 100 + `i`.
abbrev node : ℕ → ℕ → HeapNode
node i factor = record { heap_idx = i; factor = factor; obj = 100 + i }

abbrev four : List HeapNode
four = node 0 5 ∷ node 1 30 ∷ node 2 8 ∷ node 3 40 ∷ []

four-ordered : (j : ℕ) → 0 < j → j < 4 → factor_at four ((j - 1) / 2) ≤ factor_at four j
four-ordered zero a b = absurd (omega arith)
four-ordered (suc zero) a b = omega arith
four-ordered (suc (suc zero)) a b = omega arith
four-ordered (suc (suc (suc zero))) a b = omega arith
four-ordered (suc (suc (suc (suc j)))) a b = absurd (omega arith)

four-indexed : (j : ℕ) → j < 4 → (node_at four j).heap_idx ≡ j
four-indexed zero h = refl
four-indexed (suc zero) h = refl
four-indexed (suc (suc zero)) h = refl
four-indexed (suc (suc (suc zero))) h = refl
four-indexed (suc (suc (suc (suc j)))) h = absurd (omega arith)

four-IsSorted : IsSorted four
four-IsSorted = record { ordered = four-ordered; indexed = four-indexed }

heap_insert-Inserted_example : Inserted four 200 7 (heap_insert true four 200 7)
heap_insert-Inserted_example = heap_insert-Inserted four 200 7 four-IsSorted (omega arith)

server_connection_prune-Pruned_example : Pruned 100 20 10 four (server_connection_prune 20 10 four)
server_connection_prune-Pruned_example =
    server_connection_prune-Pruned 20 10 four (omega arith) four-IsSorted

connecion_set_reactivated-Used_example : Used four 0 35 (connecion_set_reactivated true 35 four 100)
connecion_set_reactivated-Used_example =
    connecion_set_reactivated-Used four 100 0 35 four-IsSorted refl (omega arith) (omega arith)

-- Times 5 and 8 are stale at 20 with a timeout of 10.
pruned :
    server_connection_prune 20 10 four
    ≡ some (
      100 ∷ 102 ∷ [],
      record { heap_idx = 0; factor = 30; obj = 101 }
          ∷ record { heap_idx = 1; factor = 40; obj = 103 }
          ∷ [],
    )
unfolding server_connection_prune prune_round connection_close connection_unregister down_from
pruned = refl

-- The last connection takes the place of one whose parent was used after it: 3 stands below 10.
abbrev seven : List HeapNode
seven = node 0 1 ∷ node 1 10 ∷ node 2 2 ∷ node 3 11 ∷ node 4 12 ∷ node 5 20 ∷ node 6 3 ∷ []

abbrev misplaced : List HeapNode
misplaced =
    node 0 1
    ∷ node 1 10
    ∷ node 2 2
    ∷ record { heap_idx = 3; factor = 3; obj = 106 }
    ∷ node 4 12
    ∷ node 5 20
    ∷ []

unregistered : connection_unregister seven 103 ≡ some misplaced
unfolding connection_unregister down_from
unregistered = refl

-- At 103 with a timeout of 100, the connection with time 3 is stale and stays.
abbrev closed_of : Option (List ℕ × List HeapNode) → List ℕ
closed_of none = []
closed_of (some (closed, hps)) = closed

missed : closed_of (server_connection_prune 103 100 misplaced) ≡ 100 ∷ 102 ∷ []
unfolding server_connection_prune prune_round connection_close connection_unregister down_from
missed = refl

-- A connection that was not registered is closed by a NULL pointer that is followed.
not_registered : connection_close four 200 ≡ none
unfolding connection_close connection_unregister
not_registered = refl
