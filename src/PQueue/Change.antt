-- ===== src/PQueue/Change.antt =====
-- pqueue_change_priority of src/ld_pqueue.c.
use liteldacssdk.Prelude.{
  ℕ, ◌/◌, ◌≤◌, ◌<◌, ◌≡◌, refl, sym, ap, ap₂, ◌∙◌, subst, ◌≢◌, inl, inr, Bool, true, false, some,
  arith, length, Bool-cases,
}
use liteldacssdk.PQueue.{
  PQueue, q_ok, at, key, put, bubble_up, percolate_down, pqueue_change_priority,
}
use liteldacssdk.PQueue.Up.{count_below, IsOrder, IsHeap, IsHole}
use liteldacssdk.PQueue.Down.{IsSink}
use liteldacssdk.PQueue.Rise.{Risen, bubble_up-Risen}
use liteldacssdk.PQueue.Pop.{percolate_down-Risen}
use liteldacssdk.PQueue.Insert.{IsValid}

-- The element stands at its position and nowhere else.
pub record IsAt (q : PQueue) (x : ℕ) : Type 0 where
  pub pos_pos : 0 < q.pos x
  pub pos_lt : q.pos x < q.size
  pub there : at q (q.pos x) ≡ x
  pub alone : (j : ℕ) → 0 < j → j < q.size → j ≢ q.pos x → at q j ≢ x

module _ (cmppri : ℕ → ℕ → Bool) (order : IsOrder cmppri) where
  -- `r` is `q` in heap order under the new priority.
  pub record Changed (q : PQueue) (x new_pri : ℕ) (r : PQueue) : Type 0 where
    pub heap : IsHeap cmppri r
    pub same_size : r.size ≡ q.size
    pub new : r.pri ≡ put q.pri x new_pri
    pub holds : (y : ℕ) → count_below r.d y q.size ≡ count_below q.d y q.size

  module _ (q s : PQueue) (x new_pri : ℕ) (heap : IsHeap cmppri q) (is_at : IsAt q x)
      (sized : s.size ≡ q.size)
      (other : (j : ℕ) → 0 < j → j < q.size → j ≢ q.pos x → key s j ≡ key q j)
      (old : key q (q.pos x) ≡ q.pri x) where
    -- Under the position, and across it, the order is that of the old priority.
    under : (j : ℕ) → 1 < j → j < q.size → j / 2 ≡ q.pos x → cmppri (q.pri x) (key q j) ≡ false
    under j a b e =
        ap (λ k. cmppri k (key q j)) (sym old)
        ∙ ap (λ k. cmppri (key q k) (key q j)) (sym e)
        ∙ heap j a b

    over : 1 < q.pos x → cmppri (key q (q.pos x / 2)) (q.pri x) ≡ false
    over deep = ap (cmppri (key q (q.pos x / 2))) (sym old) ∙ heap (q.pos x) deep is_at.pos_lt

    apart_lem :
        (j : ℕ)
        → 1 < j
        → j < s.size
        → j ≢ q.pos x
        → j / 2 ≢ q.pos x
        → cmppri (key s (j / 2)) (key s j) ≡ false
    apart_lem j a b ne ne' =
        ap₂ cmppri (other (j / 2) (omega arith) (omega arith) ne')
          (other j (omega arith) (omega arith) ne)
        ∙ heap j a (omega arith)

    across_lem :
        (j : ℕ)
        → j < s.size
        → 1 < q.pos x
        → j / 2 ≡ q.pos x
        → cmppri (key s (q.pos x / 2)) (key s j) ≡ false
    across_lem j b deep e =
        ap₂ cmppri (other (q.pos x / 2) (omega arith) (omega (arith, is_at.pos_lt)) (omega arith))
          (other j (omega arith) (omega arith) (omega (arith, is_at.pos_pos)))
        ∙ order.negative_trans (key q (q.pos x / 2)) (q.pri x) (key q j) (over deep)
            (under j (omega arith) (omega arith) e)

    raised : cmppri (q.pri x) new_pri ≡ true → IsHole cmppri s (q.pos x) new_pri
    raised up = record {
      apart = apart_lem;
      below = λ j b a e.
          ap (cmppri new_pri) (other j (omega arith) (omega arith) (omega arith))
          ∙ order.negative_trans new_pri (q.pri x) (key q j) (order.asym (q.pri x) new_pri up)
              (under j a (omega arith) e);
      across = across_lem;
    }

    lowered : cmppri (q.pri x) new_pri ≡ false → IsSink cmppri order s (q.pos x) new_pri
    lowered down = record {
      apart = apart_lem;
      across = across_lem;
      above = λ deep.
          ap (λ k. cmppri k new_pri)
            (other (q.pos x / 2) (omega arith) (omega (arith, is_at.pos_lt)) (omega arith))
          ∙ order.negative_trans (key q (q.pos x / 2)) (q.pri x) new_pri (over deep) down;
    }

  put_self : (f : ℕ → ℕ) (x v y : ℕ) → y ≡ x → put f x v y ≡ v
  put_self f x v y e = ground arith

  put_ne : (f : ℕ → ℕ) (x v y : ℕ) → y ≢ x → put f x v y ≡ f y
  put_ne f x v y ne = ground arith

  settled :
      (q s r : PQueue) (x new_pri i : ℕ)
      → s.d ≡ q.d
      → s.size ≡ q.size
      → s.pri ≡ put q.pri x new_pri
      → Risen cmppri order s i (at s i) r
      → Changed q x new_pri r
  settled q s r x new_pri i slots sized new risen = record {
    heap = risen.heap;
    same_size = risen.same_size ∙ sized;
    new = risen.same_pri ∙ new;
    holds = λ y. omega (
      arith,
      risen.holds y,
      ap (count_below r.d y) sized,
      ap₂ (λ d n. count_below d y n) slots sized,
    );
  }

  -- pqueue_change_priority on a valid queue in heap order whose mutex is free, for a strict weak
  -- order and an element that stands at its position and nowhere else: it ends with the new priority
  -- set, the same elements, the queue in heap order and the mutex free.
  pub pqueue_change_priority-Changed :
      (q : PQueue) (x new_pri : ℕ)
      → IsValid q
      → IsHeap cmppri q
      → q.locked ≡ false
      → IsAt q x
      → (r : PQueue) × (pqueue_change_priority cmppri q new_pri x ≡ some (q_ok, r))
        × (r.locked ≡ false)
        × Changed q x new_pri r
  unfolding pqueue_change_priority
  pqueue_change_priority-Changed q x new_pri v heap free is_at =
      let s : PQueue = record q { locked = true; pri = put q.pri x new_pri } in
      let i = q.pos x in
      let mine : key s i ≡ new_pri = put_self q.pri x new_pri (at q i) is_at.there in
      let other : (j : ℕ) → 0 < j → j < q.size → j ≢ i → key s j ≡ key q j =
        λ j a b ne. put_ne q.pri x new_pri (at q j) (is_at.alone j a b ne) in
      let old = ap q.pri is_at.there in
      let room : q.size ≤ length q.d = omega (arith, v.slots, v.inside) in
      let up : cmppri (q.pri x) new_pri ≡ true → Changed q x new_pri (bubble_up cmppri s i) = λ e.
        settled q s (bubble_up cmppri s i) x new_pri i refl refl refl (
          bubble_up-Risen cmppri order s i is_at.pos_pos is_at.pos_lt room (
            subst (IsHole cmppri s i) (sym mine)
              (raised q s x new_pri heap is_at refl other old e))) in
      let down : cmppri (q.pri x) new_pri ≡ false
          → Changed q x new_pri (percolate_down cmppri s i) =
        λ e. settled q s (percolate_down cmppri s i) x new_pri i refl refl refl (
          percolate_down-Risen cmppri order s i is_at.pos_pos is_at.pos_lt room (
            subst (IsSink cmppri order s i) (sym mine)
              (lowered q s x new_pri heap is_at refl other old e))) in
      elim (Bool-cases (cmppri (q.pri x) new_pri)) [
        | inl e ↦
            let c = up e in
            (
              record (bubble_up cmppri s i) { locked = false },
              simp (free, e) refl,
              refl,
              record { heap = c.heap; same_size = c.same_size; new = c.new; holds = c.holds },
            )
        | inr e ↦
            let c = down e in
            (
              record (percolate_down cmppri s i) { locked = false },
              simp (free, e) refl,
              refl,
              record { heap = c.heap; same_size = c.same_size; new = c.new; holds = c.holds },
            )
      ]
