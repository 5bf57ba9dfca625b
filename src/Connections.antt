-- ===== src/Connections.antt =====
-- The connections of a net context in src/ld_net.c, kept in the heap by the time of their last use:
-- connection_register, connection_unregister, connecion_is_expired, connecion_set_reactivated,
-- connecion_set_expired and server_connection_prune. Closing a connection also releases what it
-- holds, which is left out; a connection is its address. `none` is a fault.
pub mod Remove
pub mod Prune
pub mod Use
mod Tests
use liteldacssdk.Prelude.{
  ℕ, zero, suc, ◌+◌, ◌-◌, max, ap, Bool, true, false, ◌&&◌, not, Option, none, some, List, [], ◌∷◌,
  length, set, take, ltb, leb, ◌==◌, if◌then◌else◌, ◌>>=◌,
}
use liteldacssdk.Heap.{
  HeapNode, node_at, factor_at, put_at, max_heap, heap_insert, heap_bubble_up, heap_bubble_down,
  get_heap, up_from, down_from,
}

-- `false` is ERROR.
unfoldable pub connection_register : Bool → List HeapNode → ℕ → ℕ → Option (Bool × List HeapNode)
unfolding heap_insert
connection_register malloc_gives hps bc factor =
    if leb max_heap (length hps)
    then some (false, hps)
    else (heap_insert malloc_gives hps bc factor >>= λ hps'. some (true, hps'))

-- The last node takes the place of the one that goes.
abbrev pub without : List HeapNode → ℕ → List HeapNode
without hps idx = take (length hps - 1) (put_at hps idx (node_at hps (length hps - 1)))

unfoldable pub connection_unregister : List HeapNode → ℕ → Option (List HeapNode)
unfolding down_from
connection_unregister hps bc = get_heap hps bc >>= λ slot.
    let idx = (node_at hps slot).heap_idx in
    if ltb idx (length hps) then heap_bubble_down (without hps idx) idx else none

unfoldable pub connection_close : List HeapNode → ℕ → Option (List HeapNode)
unfolding connection_unregister
connection_close hps bc = connection_unregister hps bc

-- Whether the connection stands: those steps that call the system are given by their results. What
-- was set up is closed again when one of them fails, the registration included.
unfoldable pub init_basic_conn :
    Bool → Bool → Bool → Bool → List HeapNode → ℕ → ℕ → Option (Bool × List HeapNode)
unfolding connection_register connection_close
init_basic_conn malloc_gives set_nonblocking lfqueue_init net_epoll_add hps bc now =
    connection_register malloc_gives hps bc now >>= λ (registered, hps').
    if registered && set_nonblocking && lfqueue_init && net_epoll_add
    then some (true, hps')
    else (connection_close hps' bc >>= λ hps''. some (false, hps''))

-- A connection that is not in the heap is a NULL pointer that is followed.
pub connecion_is_expired : ℕ → ℕ → List HeapNode → ℕ → Option Bool
connecion_is_expired now timeout hps bc = get_heap hps bc >>= λ slot.
    some (if timeout == 0 then false else ltb (factor_at hps slot + timeout) now)

abbrev pub set_factor : List HeapNode → ℕ → ℕ → List HeapNode
set_factor hps slot factor = set hps slot (record (node_at hps slot) { factor = factor })

abbrev pub reactivate : Bool → List HeapNode → ℕ → Option (List HeapNode)
reactivate is_server hps slot =
    if is_server then heap_bubble_down hps (node_at hps slot).heap_idx else some hps

abbrev pub reactivate_at : Bool → ℕ → List HeapNode → Option ℕ → Option (List HeapNode)
reactivate_at is_server now hps none = some hps
reactivate_at is_server now hps (some slot) = reactivate is_server (set_factor hps slot now) slot

-- Only a server's heap is put in order.
unfoldable pub connecion_set_reactivated : Bool → ℕ → List HeapNode → ℕ → Option (List HeapNode)
unfolding down_from
connecion_set_reactivated is_server now hps bc = reactivate_at is_server now hps (get_heap hps bc)

abbrev pub expire_at : Bool → List HeapNode → Option ℕ → ℕ → Option (List HeapNode)
expire_at is_server hps none bc = some hps
expire_at is_server hps (some slot) bc =
    let hps' = set_factor hps slot 0 in
    (if is_server then heap_bubble_up hps' (node_at hps' slot).heap_idx else some hps') >>= λ hps''.
    connection_close hps'' bc

pub connecion_set_expired : Bool → List HeapNode → ℕ → Option (List HeapNode)
unfolding connection_close up_from
connecion_set_expired is_server hps bc = expire_at is_server hps (get_heap hps bc) bc

-- The loop of server_connection_prune, with `left` more closings at most: the connections that were
-- closed, in order, and the heap.
unfoldable pub prune_round : ℕ → ℕ → ℕ → List HeapNode → Option (List ℕ × List HeapNode)
unfolding connection_close
prune_round zero now timeout hps = some ([], hps)
prune_round (suc left) now timeout hps =
    if ltb 0 (length hps) && not (timeout == 0) && leb (factor_at hps 0 + timeout) now
    then (connection_close hps (node_at hps 0).obj >>= λ hps'.
        prune_round left now timeout hps' >>= λ (closed, end).
        some ((node_at hps 0).obj ∷ closed, end))
    else some ([], hps)

unfoldable pub server_connection_prune : ℕ → ℕ → List HeapNode → Option (List ℕ × List HeapNode)
unfolding prune_round
server_connection_prune now timeout hps = prune_round 100 now timeout hps
