-- ===== src/PQueue.antt =====
-- src/ld_pqueue.c: a priority queue, a binary heap in an array from index 1 on.
-- `d` holds the allocated slots, slot 0 included; a slot from `size` on is written before it is
-- read, and reads as 0 here until then. An element is a number, its priority and position are read
-- and set through the caller's functions: `pri` and `pos` are what they have been set to. `locked`
-- is the mutex, of the default kind. `none` is a call that waits for the mutex for ever.
pub mod Up
pub mod Rise
pub mod Down
pub mod Insert
pub mod Pop
pub mod Change
mod Tests
use liteldacssdk.Prelude.{
  ℕ, zero, suc, ◌+◌, ◌-◌, ◌*◌, ◌/◌, max, ap, Bool, true, false, ◌&&◌, Option, none, some, List,
  ◌++◌, set, get_or, drop, replicate, ltb, leb, ◌==◌, if◌then◌else◌, ◌>>=◌,
}

-- `queue_erros_e`, and last the literal 1 that a failed realloc returns.
pub data Code : Type 0 where
  q_ok : Code
  q_err_invalid : Code
  q_err_lock : Code
  q_err_mem : Code
  q_err_nonewdata : Code
  q_err_invalid_element : Code
  q_err_invalid_cb : Code
  q_err_num_elements : Code
  one : Code

-- `pqueue_t` with the priorities and positions of the elements.
pub record PQueue : Type 0 where
  pub size : ℕ
  pub avail : ℕ
  pub step : ℕ
  pub d : List ℕ
  pub locked : Bool
  pub pri : ℕ → ℕ
  pub pos : ℕ → ℕ

-- The setters change one element.
abbrev pub put : (ℕ → ℕ) → ℕ → ℕ → ℕ → ℕ
put f x v y = if x == y then v else f y

abbrev pub at : PQueue → ℕ → ℕ
at q i = get_or q.d i 0

-- The priority of the element at an index.
abbrev pub key : PQueue → ℕ → ℕ
key q i = q.pri (at q i)

-- `q->d[i] = x; q->setpos(x, i)`
abbrev pub place : PQueue → ℕ → ℕ → PQueue
place q i x = record q { d = set q.d i x; pos = put q.pos x i }

pub pqueue_init : ℕ → PQueue
pqueue_init n = record {
  size = 1;
  avail = n + 1;
  step = n + 1;
  d = replicate (n + 1) 0;
  locked = false;
  pri = λ x. 0;
  pos = λ x. 0;
}

pub pqueue_size : PQueue → ℕ
pqueue_size q = q.size - 1

pub pqueue_empty : PQueue → Bool
unfolding pqueue_size
pqueue_empty q = pqueue_size q == 0

abbrev pub pqueue_lock_internal : PQueue → Option PQueue
pqueue_lock_internal q = if q.locked then none else some (record q { locked = true })

abbrev pub pqueue_unlock_internal : PQueue → PQueue
pqueue_unlock_internal q = record q { locked = false }

-- `realloc_gives n` says whether there is memory for `n` slots.
abbrev pub append_slot : (ℕ → Bool) → PQueue → Option PQueue
append_slot realloc_gives q =
    if leb q.avail q.size
    then (if realloc_gives (q.size + q.step)
        then some (record q {
          d = q.d ++ replicate (q.size + q.step - q.avail) 0;
          avail = q.size + q.step;
        })
        else none)
    else some q

-- `q->d[posn] = q->d[--q->size]`
abbrev pub drop_last_into : PQueue → ℕ → PQueue
drop_last_into q posn = record q { size = q.size - 1; d = set q.d posn (at q (q.size - 1)) }

-- `cmppri a b`: an element of priority `b` goes before one of priority `a`.
module _ (cmppri : ℕ → ℕ → Bool) where
  -- The loop: the state it leaves and the index that is free then. Each round halves `i`.
  pub bubble_from : ℕ → ℕ → ℕ → PQueue → PQueue × ℕ
  bubble_from zero i moving_pri q = (q, i)
  bubble_from (suc fuel) i moving_pri q =
      let rest = bubble_from fuel (i / 2) moving_pri (place q i (at q (i / 2))) in
      if ltb 1 i && cmppri (key q (i / 2)) moving_pri then rest else (q, i)

  pub bubble_up : PQueue → ℕ → PQueue
  unfolding bubble_from
  bubble_up q i =
      let moving_node = at q i in
      let (q', j) = bubble_from i i (q.pri moving_node) q in place q' j moving_node

  pub maxchild : PQueue → ℕ → ℕ
  maxchild q i =
      let child = 2 * i in
      if leb q.size child
      then 0
      else if ltb (child + 1) q.size && cmppri (key q child) (key q (child + 1))
      then child + 1
      else child

  -- Each round at least doubles `i`.
  pub percolate_from : ℕ → ℕ → ℕ → PQueue → PQueue × ℕ
  unfolding maxchild
  percolate_from zero i moving_pri q = (q, i)
  percolate_from (suc fuel) i moving_pri q =
      let child = maxchild q i in
      let rest = percolate_from fuel child moving_pri (place q i (at q child)) in
      if ltb 0 child && cmppri moving_pri (key q child) then rest else (q, i)

  pub percolate_down : PQueue → ℕ → PQueue
  unfolding percolate_from
  percolate_down q i =
      let moving_node = at q i in
      let (q', j) = percolate_from q.size i (q.pri moving_node) q in place q' j moving_node

  -- The insertion proper, the mutex held.
  abbrev pub insert_item : PQueue → ℕ → PQueue
  insert_item q x = bubble_up (record q { size = q.size + 1; d = set q.d q.size x }) q.size

  -- The mutex is not released when realloc fails.
  abbrev pub insert_locked : PQueue → ℕ → Option PQueue → Option (Code × PQueue)
  insert_locked q x none = some (one, q)
  insert_locked q x (some q') = some (q_ok, pqueue_unlock_internal (insert_item q' x))

  pub pqueue_insert : (ℕ → Bool) → PQueue → ℕ → Option (Code × PQueue)
  unfolding bubble_up
  pqueue_insert realloc_gives q x =
      pqueue_lock_internal q >>= λ l. insert_locked l x (append_slot realloc_gives l)

  pub pqueue_change_priority : PQueue → ℕ → ℕ → Option (Code × PQueue)
  unfolding bubble_up percolate_down
  pqueue_change_priority q new_pri x =
      let old_pri = q.pri x in
      pqueue_lock_internal q >>= λ l.
      let s = record l { pri = put l.pri x new_pri } in
      some (
        q_ok,
        pqueue_unlock_internal
            (if cmppri old_pri new_pri then bubble_up s (s.pos x) else percolate_down s (s.pos x)),
      )

  pub pqueue_remove : PQueue → ℕ → Option (Code × PQueue)
  unfolding bubble_up percolate_down
  pqueue_remove q x = pqueue_lock_internal q >>= λ l.
      let posn = l.pos x in
      let s = drop_last_into l posn in
      some (
        q_ok,
        pqueue_unlock_internal
            (if cmppri (s.pri x) (key s posn) then bubble_up s posn else percolate_down s posn),
      )

  -- The element is NULL, as 0, where the queue is empty; the mutex is kept then.
  pub pqueue_pop : PQueue → Option (Code × ℕ × PQueue)
  unfolding percolate_down
  pqueue_pop q = pqueue_lock_internal q >>= λ l.
      if l.size == 1
      then some (q_err_invalid, 0, l)
      else some (q_ok, at l 1, pqueue_unlock_internal (percolate_down (drop_last_into l 1) 1))

pub pqueue_peek : PQueue → Option (Code × ℕ × PQueue)
pqueue_peek q = pqueue_lock_internal q >>= λ l.
    if l.size == 1 then some (q_ok, 0, l) else some (q_ok, at l 1, pqueue_unlock_internal l)
