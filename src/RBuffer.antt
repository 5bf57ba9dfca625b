-- ===== src/RBuffer.antt =====
-- src/ld_rbuffer.c: a bounded buffer on a circular doubly linked list.
-- Nodes live in an explicit heap, so that the order of the pointer writes and the aliasing of
-- head, tail and the neighbours are those of the code. `none` is a fault: a read or write through
-- a pointer that is NULL or does not point to a live node. A `void *` is a number, NULL is 0.
pub mod Store
pub mod Chain
pub mod Push
pub mod Pop
pub mod Walk
pub mod Deque
mod Tests
use liteldacssdk.Prelude.{
  ℕ, zero, suc, ◌+◌, ◌-◌, ◌^◌, ap, Bool, true, false, Option, none, some, List, [], ◌∷◌, set, ltb,
  leb, ◌==◌, if◌then◌else◌, ◌>>=◌,
}
use liteldacssdk.Err.{Err, ok, internal}
use Store.{Node, Heap, read, write, release, set_next, set_prev}

-- `ld_rbuffer`; a pointer to a node is `none` for NULL. The `int` count is
-- never negative, and a push that would take it past the largest `int` is a fault. The malloc of
-- ld_rbuffer_init is taken to succeed.
pub record RBuffer : Type 0 where
  pub head : Option ℕ
  pub tail : Option ℕ
  pub count : ℕ
  pub size : ℕ

pub ld_rbuffer_init : ℕ → RBuffer
ld_rbuffer_init size = record { head = none; tail = none; count = 0; size = size }

abbrev first_node : ℕ → RBuffer → ℕ → Heap → Option (Err × RBuffer × Heap)
first_node new rb item h = some (
  ok,
  record rb { head = some new; tail = some new; count = rb.count + 1 },
  write h new (record { item = item; prev = new; next = new }),
)

-- `tail->next = new; head->prev = new` on a new node between the two.
abbrev link_node : ℕ → RBuffer → ℕ → Heap → Option Heap
link_node new rb item h = rb.head >>= λ head. rb.tail >>= λ tail.
    set_next (write h new (record { item = item; prev = tail; next = head })) tail new >>= λ h₁.
    set_prev h₁ head new

-- The last count that can be counted up; `count++` overflows the `int` after it.
unfoldable pub int_max : ℕ
int_max = 2 ^ 31 - 1

-- `malloc(sizeof(rnode_t))` is a parameter: the address that it gives for the present heap, or NULL,
-- which is written through.
module _ (malloc : Heap → Option ℕ) where
  pub ld_rbuffer_push_front : RBuffer → ℕ → Heap → Option (Err × RBuffer × Heap)
  ld_rbuffer_push_front rb item h =
      if leb rb.size rb.count
      then some (internal, rb, h)
      else if leb int_max rb.count
      then none
      else (malloc h >>= λ new.
          if rb.count == 0
          then first_node new rb item h
          else (link_node new rb item h >>= λ h'.
              some (ok, record rb { head = some new; count = rb.count + 1 }, h')))

  pub ld_rbuffer_push_back : RBuffer → ℕ → Heap → Option (Err × RBuffer × Heap)
  ld_rbuffer_push_back rb item h =
      if leb rb.size rb.count
      then some (internal, rb, h)
      else if leb int_max rb.count
      then none
      else (malloc h >>= λ new.
          if rb.count == 0
          then first_node new rb item h
          else (link_node new rb item h >>= λ h'.
              some (ok, record rb { tail = some new; count = rb.count + 1 }, h')))

-- The links past the popped node: nothing for the last node.
abbrev unlink : RBuffer → Node → Heap → Option (RBuffer × Heap)
unlink rb n h =
    if rb.count == 1
    then some (record rb { head = none; tail = none }, h)
    else (rb.tail >>= λ tail. set_next h tail n.next >>= λ h₁.
        set_prev h₁ n.next tail >>= λ h₂. some (record rb { head = some n.next }, h₂))

-- `*data` is the second part, NULL where the buffer is empty.
pub ld_rbuffer_pop : RBuffer → Heap → Option (Err × ℕ × RBuffer × Heap)
ld_rbuffer_pop rb h =
    if rb.count == 0
    then some (internal, 0, rb, h)
    else (rb.head >>= λ pop_node. read h pop_node >>= λ n. unlink rb n h >>= λ (rb', h').
        some (ok, n.item, record rb' { count = rb'.count - 1 }, release h' pop_node))

pub ld_rbuffer_get_front : RBuffer → Heap → Option (Err × ℕ)
ld_rbuffer_get_front rb h =
    if rb.count == 0
    then some (internal, 0)
    else (rb.head >>= λ head. read h head >>= λ n. some (ok, n.item))

-- `while (count > 0) pop`; the pop's own error is ignored, as in the code.
free_loop : ℕ → RBuffer → Heap → Option (RBuffer × Heap)
free_loop zero rb h = some (rb, h)
free_loop (suc fuel) rb h =
    let next = ld_rbuffer_pop rb h >>= λ (_, _, rb', h'). free_loop fuel rb' h' in
    if ltb 0 rb.count then next else some (rb, h)

pub ld_rbuffer_free : RBuffer → Heap → Option (RBuffer × Heap)
unfolding free_loop ld_rbuffer_pop
ld_rbuffer_free rb h = free_loop rb.count rb h

-- The items that the callback is called on, from `current` on, `left` rounds.
pub items_from : ℕ → ℕ → Heap → Option (List ℕ)
items_from zero current h = some []
items_from (suc left) current h =
    read h current >>= λ n. items_from left n.next h >>= λ rest. some (n.item ∷ rest)

-- The trace of callbacks; an empty buffer only logs.
pub ring_buffer_traverse : RBuffer → Heap → Option (List ℕ)
unfolding items_from
ring_buffer_traverse rb h =
    if rb.count == 0 then some [] else (rb.head >>= λ head. items_from rb.count head h)

-- `factor` is the comparison that the caller passes.
exist_from : (ℕ → ℕ → Bool) → ℕ → ℕ → ℕ → Heap → Option Bool
exist_from factor ptr zero current h = some false
exist_from factor ptr (suc left) current h = read h current >>= λ n.
    let rest = exist_from factor ptr left n.next h in if factor n.item ptr then some true else rest

-- `current = head` is not read when the count is 0.
pub ld_rbuffer_check_exist : RBuffer → ℕ → (ℕ → ℕ → Bool) → Heap → Option Bool
unfolding exist_from
ld_rbuffer_check_exist rb ptr factor h =
    if rb.count == 0
    then some false
    else (rb.head >>= λ head. exist_from factor ptr rb.count head h)

pub ld_rbuffer_count : RBuffer → ℕ
ld_rbuffer_count rb = rb.count
