-- ===== src/Heap.antt =====
-- src/ld_heap.c and include/ld_heap.h: a heap in an array, the lowest factor first.
-- The array holds the nodes in its first `heap_size` slots, which is the length of the list here.
-- Factors are times that are not negative. `none` is an assertion that fails, a write behind the
-- array, or a NULL pointer that is followed.
pub mod Order
pub mod Swap
pub mod Up
pub mod Down
mod Tests
use liteldacssdk.Prelude.{
  ℕ, zero, suc, ◌+◌, ◌-◌, ◌*◌, ◌/◌, max, ap, Bool, true, false, ◌&&◌, ◌||◌, not, Option, none, some,
  List, [], ◌∷◌, ◌++◌, length, set, get_or, ltb, leb, ◌==◌, if◌then◌else◌, ◌>>=◌,
}

-- `heap_t`
pub record HeapNode : Type 0 where
  pub heap_idx : ℕ
  pub factor : ℕ
  pub obj : ℕ

abbrev pub max_heap : ℕ
max_heap = 8192

abbrev pub nowhere : HeapNode
nowhere = record { heap_idx = 0; factor = 0; obj = 0 }

-- What is read is below `heap_size`.
abbrev pub node_at : List HeapNode → ℕ → HeapNode
node_at hps i = get_or hps i nowhere

abbrev pub factor_at : List HeapNode → ℕ → ℕ
factor_at hps i = (node_at hps i).factor

abbrev pub init_heap_desc : List HeapNode
init_heap_desc = []

abbrev pub put_at : List HeapNode → ℕ → HeapNode → List HeapNode
put_at hps i node = set hps i (record node { heap_idx = i })

abbrev pub c_swap : List HeapNode → ℕ → ℕ → Option (List HeapNode)
c_swap hps x y =
    if ltb x (length hps) && ltb y (length hps)
    then some (put_at (put_at hps x (node_at hps y)) y (node_at hps x))
    else none

abbrev pub parent : ℕ → ℕ
parent idx = (idx - 1) / 2

-- The loop of heap_bubble_up, with `rounds` of it at most; the root's parent is -1.
unfoldable pub up_from : ℕ → List HeapNode → ℕ → Option (List HeapNode)
up_from zero hps idx = some hps
up_from (suc rounds) hps idx =
    if idx == 0 || leb (factor_at hps (parent idx)) (factor_at hps idx)
    then some hps
    else (c_swap hps idx (parent idx) >>= λ hps'. up_from rounds hps' (parent idx))

abbrev pub heap_bubble_up : List HeapNode → ℕ → Option (List HeapNode)
heap_bubble_up hps idx = up_from (idx + 1) hps idx

-- Whether `malloc` has a node is not looked at.
unfoldable pub heap_insert : Bool → List HeapNode → ℕ → ℕ → Option (List HeapNode)
unfolding up_from
heap_insert malloc_gives hps obj factor =
    if malloc_gives && ltb (length hps) max_heap
    then heap_bubble_up (hps ++ record { heap_idx = length hps; factor = factor; obj = obj } ∷ [])
        (length hps)
    else none

-- A child's index, or one that is too large.
abbrev pub child_or_out : ℕ → ℕ → ℕ
child_or_out heap_size child = if ltb child heap_size then child else heap_size + 1

-- `none` for no child.
abbrev pub proper_child : List HeapNode → ℕ → Option ℕ
proper_child hps idx =
    let heap_size = length hps in
    let lchild = child_or_out heap_size (2 * idx + 1) in
    let rchild = child_or_out heap_size (2 * idx + 2) in
    if ltb heap_size lchild && ltb heap_size rchild
    then none
    else if ltb lchild heap_size && ltb rchild heap_size
    then some (if ltb (factor_at hps lchild) (factor_at hps rchild) then lchild else rchild)
    else if ltb heap_size lchild
    then some rchild
    else some lchild

abbrev pub sinks : List HeapNode → ℕ → Option ℕ → Bool
sinks hps idx none = false
sinks hps idx (some c) = not (leb (factor_at hps idx) (factor_at hps c))

abbrev pub child_of : Option ℕ → ℕ
child_of none = 0
child_of (some c) = c

-- The loop of heap_bubble_down.
unfoldable pub down_from : ℕ → List HeapNode → ℕ → Option (List HeapNode)
down_from zero hps idx = some hps
down_from (suc rounds) hps idx =
    let child = proper_child hps idx in
    if sinks hps idx child
    then (c_swap hps idx (child_of child) >>= λ hps'. down_from rounds hps' (child_of child))
    else some hps

abbrev pub heap_bubble_down : List HeapNode → ℕ → Option (List HeapNode)
heap_bubble_down hps idx = down_from (length hps) hps idx

-- The slot of the first node with the object.
abbrev pub heap_from : List HeapNode → ℕ → ℕ → Option ℕ
heap_from [] i obj = none
heap_from (node ∷ hps) i obj =
    let rest = heap_from hps (i + 1) obj in if node.obj == obj then some i else rest

abbrev pub get_heap : List HeapNode → ℕ → Option ℕ
get_heap hps obj = heap_from hps 0 obj
