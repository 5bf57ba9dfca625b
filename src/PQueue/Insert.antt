-- ===== src/PQueue/Insert.antt =====
-- pqueue_insert of src/ld_pqueue.c, and the mutex after an error.
use liteldacssdk.Prelude.{
  ℕ, zero, suc, ◌+◌, ◌-◌, ◌/◌, ◌≤◌, ◌<◌, ◌≡◌, refl, sym, ap, ap₂, ◌∙◌, subst, ◌⊎◌, inl, inr, Bool,
  true, false, Option, none, some, List, [], ◌∷◌, ◌++◌, arith, length, set, get_or, replicate,
  length-append, length-set, length-replicate, get_or-set, leb, ◌==◌, if◌then◌else◌, Bool-cases,
  ◌>>=◌,
}
use liteldacssdk.PQueue.{
  PQueue, Code, q_ok, one, q_err_invalid, at, key, append_slot, insert_item, insert_locked,
  pqueue_insert, pqueue_pop, pqueue_peek,
}
use liteldacssdk.PQueue.Up.{
  one_if, count_below, count_below_eq, count_below_step, IsOrder, IsHeap, IsHole,
}
use liteldacssdk.PQueue.Rise.{bubble_up-Risen}

-- The counts are those of the slots.
pub record IsValid (q : PQueue) : Type 0 where
  pub rooted : 1 ≤ q.size
  pub inside : q.size ≤ q.avail
  pub slots : length q.d ≡ q.avail
  pub growing : 1 ≤ q.step

get_or-append : (xs ys : List ℕ) (i : ℕ) → i < length xs → get_or (xs ++ ys) i 0 ≡ get_or xs i 0
get_or-append [] ys i h = absurd (omega arith)
get_or-append (x ∷ xs) ys zero h = refl
get_or-append (x ∷ xs) ys (suc i) h = get_or-append xs ys i (omega arith)

-- The same queue with a slot to spare.
record Roomy (q q' : PQueue) : Type 0 where
  valid : IsValid q'
  spare : q'.size < q'.avail
  roomy_size : q'.size ≡ q.size
  roomy_pri : q'.pri ≡ q.pri
  same_slot : (j : ℕ) → j < q.size → at q' j ≡ at q j

append_slot-Roomy :
    (realloc_gives : ℕ → Bool) (q : PQueue)
    → IsValid q
    → (append_slot realloc_gives q ≡ none)
      ⊎ ((q' : PQueue) × (append_slot realloc_gives q ≡ some q') × Roomy q q')
append_slot-Roomy realloc_gives q v = elim (Bool-cases (leb q.avail q.size)) [
  | inr e ↦ inr (
    q,
    rw e refl,
    record {
      valid = v;
      spare = ground arith;
      roomy_size = refl;
      roomy_pri = refl;
      same_slot = λ j h. refl;
    },
  )
  | inl e ↦ elim (Bool-cases (realloc_gives (q.size + q.step))) [
    | inr no_memory ↦ inl (rw (e, no_memory) refl)
    | inl memory ↦
        let full : q.size ≡ q.avail = ground (arith, v.inside) in
        inr (
          record q { d = q.d ++ replicate (q.size + q.step - q.avail) 0; avail = q.size + q.step },
          rw (e, memory) refl,
          record {
            valid = record {
              rooted = v.rooted;
              inside = omega arith;
              slots = omega (
                arith,
                v.slots,
                length-append q.d (replicate (q.size + q.step - q.avail) 0),
                length-replicate {A = ℕ} (q.size + q.step - q.avail) 0,
              );
              growing = v.growing;
            };
            spare = omega (arith, v.growing);
            roomy_size = refl;
            roomy_pri = refl;
            same_slot = λ j h. get_or-append q.d _ j (omega (arith, v.slots));
          },
        )
  ]
]

module _ (cmppri : ℕ → ℕ → Bool) (order : IsOrder cmppri) where
  -- `r` holds what `q` holds and `x`.
  pub record Added (q : PQueue) (x : ℕ) (r : PQueue) : Type 0 where
    pub heap : IsHeap cmppri r
    pub valid : IsValid r
    pub one_more : r.size ≡ q.size + 1
    pub same_pri : r.pri ≡ q.pri
    pub holds : (y : ℕ) → count_below r.d y r.size ≡ count_below q.d y q.size + one_if (x == y)

  -- The slot behind a heap can be filled.
  last-IsHole :
      (q s : PQueue) (i m : ℕ)
      → IsHeap cmppri q
      → 1 ≤ q.size
      → i ≡ q.size
      → s.size ≡ i + 1
      → ((j : ℕ) → j < q.size → key s j ≡ key q j)
      → IsHole cmppri s i m
  last-IsHole q s i m heap rooted behind more same_key = record {
    apart = λ j a b c d.
        ap₂ cmppri (same_key (j / 2) (omega arith)) (same_key j (omega arith))
        ∙ heap j a (omega arith);
    below = λ j b a c. absurd (omega arith);
    across = λ j b a c. absurd (omega arith);
  }

  insert_item-Added :
      (q q' : PQueue) (x : ℕ) → IsHeap cmppri q → Roomy q q' → Added q x (insert_item cmppri q' x)
  insert_item-Added q q' x heap roomy =
      let s : PQueue = record q' { size = q'.size + 1; d = set q'.d q'.size x } in
      let slot : q'.size < length q'.d = omega (arith, roomy.valid.slots, roomy.spare) in
      let last : get_or (set q'.d q'.size x) q'.size 0 ≡ x =
        ground (arith, get_or-set q'.d q'.size q'.size x 0 slot) in
      let before : (j : ℕ) → j < q.size → get_or (set q'.d q'.size x) j 0 ≡ at q j = λ j h.
        ground (arith, get_or-set q'.d q'.size j x 0 slot, roomy.same_slot j h, roomy.roomy_size) in
      let risen =
        bubble_up-Risen cmppri order s q'.size (omega (arith, roomy.valid.rooted)) (omega arith)
          (omega (arith, length-set q'.d q'.size x))
          (last-IsHole q s q'.size (key s q'.size) heap
            (omega (arith, roomy.valid.rooted, roomy.roomy_size)) roomy.roomy_size refl
            λ j h. ap₂ (λ (f : ℕ → ℕ) a. f a) roomy.roomy_pri (before j h)) in
      record {
        heap = risen.heap;
        valid = record {
          rooted = omega (arith, risen.same_size);
          inside = omega (arith, risen.same_size, risen.same_avail, roomy.spare);
          slots =
              risen.same_slots
              ∙ length-set q'.d q'.size x
              ∙ roomy.valid.slots
              ∙ sym risen.same_avail;
          growing = omega (arith, risen.same_step, roomy.valid.growing);
        };
        one_more = omega (arith, risen.same_size, roomy.roomy_size);
        same_pri = risen.same_pri ∙ roomy.roomy_pri;
        holds = λ y. omega (
          arith,
          risen.holds y,
          ap (count_below (insert_item cmppri q' x).d y) risen.same_size,
          count_below_step (set q'.d q'.size x) y q'.size,
          ap (count_below (set q'.d q'.size x) y) roomy.roomy_size,
          count_below_eq q.d (set q'.d q'.size x) y q.size before,
          ap (λ v. one_if (v == y)) last,
        );
      }

  -- The outcome of an insertion: what is added, with the mutex free, or an error with the mutex
  -- still taken.
  pub data Inserted (q : PQueue) (x : ℕ) : Option (Code × PQueue) → Type 0 where
    added : (r : PQueue) → Added q x r → r.locked ≡ false → Inserted q x (some (q_ok, r))
    no_memory : Inserted q x (some (one, record q { locked = true }))

  -- pqueue_insert into a valid heap whose mutex is free, for a strict weak order: it adds exactly
  -- the element, keeps the heap in order and valid and frees the mutex; or, when memory is refused,
  -- it changes nothing but leaves the mutex taken.
  pub pqueue_insert-Inserted :
      (realloc_gives : ℕ → Bool) (q : PQueue) (x : ℕ)
      → IsValid q
      → IsHeap cmppri q
      → q.locked ≡ false
      → Inserted q x (pqueue_insert cmppri realloc_gives q x)
  unfolding pqueue_insert
  pqueue_insert-Inserted realloc_gives q x v heap free =
      let l : PQueue = record q { locked = true } in
      let vl : IsValid l = record {
        rooted = v.rooted;
        inside = v.inside;
        slots = v.slots;
        growing = v.growing;
      } in
      subst
        (λ b. Inserted q x (
          (if b then none else some l) >>= λ l.
          insert_locked cmppri l x (append_slot realloc_gives l)))
        (sym free)
        (elim (append_slot-Roomy realloc_gives l vl) [
          | inl e ↦ subst (λ o. Inserted q x (insert_locked cmppri l x o)) (sym e) no_memory
          | inr (q', e, roomy) ↦
              let a = insert_item-Added l q' x heap roomy in
              subst (λ o. Inserted q x (insert_locked cmppri l x o)) (sym e)
                (added _
                  (record {
                    heap = a.heap;
                    valid = record {
                      rooted = a.valid.rooted;
                      inside = a.valid.inside;
                      slots = a.valid.slots;
                      growing = a.valid.growing;
                    };
                    one_more = a.one_more;
                    same_pri = a.same_pri;
                    holds = a.holds;
                  })
                  refl)
        ])

-- On an empty queue whose mutex is free, pqueue_pop and pqueue_peek keep the mutex, and an insertion
-- after that waits for ever.
pub pqueue_pop_empty :
    (cmppri : ℕ → ℕ → Bool) (realloc_gives : ℕ → Bool) (q : PQueue) (x : ℕ)
    → q.size ≡ 1
    → q.locked ≡ false
    → (q' : PQueue) × (pqueue_pop cmppri q ≡ some (q_err_invalid, 0, q'))
      × (pqueue_peek q ≡ some (q_ok, 0, q'))
      × (pqueue_insert cmppri realloc_gives q' x ≡ none)
unfolding pqueue_pop pqueue_peek pqueue_insert
pqueue_pop_empty cmppri realloc_gives q x empty free =
    (record q { locked = true }, rw (free, empty) refl, rw (free, empty) refl, refl)
