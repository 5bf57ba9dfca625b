-- ===== src/PQueue/Pop.antt =====
-- pqueue_pop of src/ld_pqueue.c, with the loop of percolate_down.
use liteldacssdk.Prelude.{
  ℕ, zero, suc, ◌+◌, ◌-◌, ◌*◌, ◌/◌, ◌≤◌, ◌<◌, ◌≡◌, refl, sym, ap, ap₂, ◌∙◌, subst, ◌≢◌, inl, inr,
  Bool, true, false, ◌&&◌, some, arith, length, set, length-set, get_or-set, ltb, leb, ◌==◌, ==_iff,
  Bool-cases,
}
use liteldacssdk.PQueue.{
  PQueue, q_ok, at, key, place, maxchild, percolate_from, percolate_down, drop_last_into,
  pqueue_pop,
}
use liteldacssdk.PQueue.Up.{
  one_if, count_below, count_below-set, count_below-set_out, count_below_step, IsOrder, IsHeap,
  IsHole,
}
use liteldacssdk.PQueue.Down.{maxchild-IsFirst, IsSink, sink, sunk, irreflexive}
use liteldacssdk.PQueue.Rise.{Risen, filled, lifted}
use liteldacssdk.PQueue.Insert.{IsValid}

module _ (cmppri : ℕ → ℕ → Bool) (order : IsOrder cmppri) where
  childless :
      (q : PQueue) (i m : ℕ) → q.size ≤ 2 * i → IsSink cmppri order q i m → IsHole cmppri q i m
  childless q i m e hole = record {
    apart = hole.apart;
    below = λ j b a y. absurd (omega arith);
    across = hole.across;
  }

  percolate_from-Risen :
      (fuel : ℕ) (q : PQueue) (i x : ℕ)
      → q.size ≤ i + fuel
      → 0 < i
      → i < q.size
      → q.size ≤ length q.d
      → IsSink cmppri order q i (q.pri x)
      → Risen cmppri order q i x (
          place
            (percolate_from cmppri fuel i (q.pri x) q).0
            (percolate_from cmppri fuel i (q.pri x) q).1
            x)
  unfolding percolate_from
  percolate_from-Risen zero q i x enough pos h room hole = absurd (omega arith)
  percolate_from-Risen (suc fuel) q i x enough pos h room hole =
      elim (maxchild-IsFirst cmppri order q i pos) [
        | inl (none_left, leaf) ↦
            rw none_left
              (filled cmppri order q i x h room (childless q i (q.pri x) leaf hole) hole.above)
        | inr top ↦
            let c = maxchild cmppri q i in
            elim (Bool-cases (ltb 0 c && cmppri (q.pri x) (key q c))) [
              | inl e ↦ rw e (
                  lifted cmppri order q i c x _ (omega (arith, top.child)) h room (
                    percolate_from-Risen fuel (place q i (at q c)) c x (omega (arith, top.child))
                      (omega (arith, top.child)) top.inside
                      (omega (arith, length-set q.d i (at q c)))
                      (sink cmppri order q i c (q.pri x) (omega arith) pos hole top
                        (ground arith))))
              | inr e ↦
                  let stays : cmppri (q.pri x) (key q c) ≡ false = ground (arith, top.child) in
                  rw e (
                    filled cmppri order q i x h room
                      (sunk cmppri order q i c (q.pri x) (omega arith) pos hole top stays)
                      hole.above)
            ]
      ]

  -- No element goes before the root.
  root_first :
      (fuel : ℕ) (q : PQueue) (j : ℕ)
      → IsHeap cmppri q
      → j ≤ fuel
      → 0 < j
      → j < q.size
      → cmppri (key q 1) (key q j) ≡ false
  root_first zero q j heap le pos h = absurd (omega arith)
  root_first (suc fuel) q j heap le pos h = elim (Bool-cases (j == 1)) [
    | inl e ↦
        ap (λ k. cmppri (key q 1) (key q k)) ((==_iff _ _).0 e) ∙ irreflexive cmppri order (key q 1)
    | inr e ↦
        order.negative_trans (key q 1) (key q (j / 2)) (key q j)
          (root_first fuel q (j / 2) heap (omega arith) (ground arith) (omega arith))
          (heap j (ground arith) h)
  ]

  -- `r` holds what `q` holds but its root, which no element goes before.
  pub record Popped (q r : PQueue) : Type 0 where
    pub first : (j : ℕ) → 0 < j → j < q.size → cmppri (key q 1) (key q j) ≡ false
    pub heap : IsHeap cmppri r
    pub valid : IsValid r
    pub one_less : r.size + 1 ≡ q.size
    pub same_pri : r.pri ≡ q.pri
    pub holds : (y : ℕ) → count_below r.d y r.size + one_if (at q 1 == y) ≡ count_below q.d y q.size

  -- The state before percolate_down: the root's slot is to be filled from the last slot.
  dropped-IsSink :
      (q : PQueue) (m : ℕ)
      → IsValid q
      → IsHeap cmppri q
      → 2 < q.size
      → IsSink cmppri order (drop_last_into q 1) 1 m
  dropped-IsSink q m v heap many =
      let other : (j : ℕ) → j ≢ 1 → key (drop_last_into q 1) j ≡ key q j = λ j ne. ap q.pri (
        ground
          (arith, get_or-set q.d 1 j (at q (q.size - 1)) 0 (omega (arith, v.slots, v.inside)))) in
      record {
        apart = λ j a b x y. ap₂ cmppri (other (j / 2) y) (other j x) ∙ heap j a (omega arith);
        across = λ j b deep y. absurd (omega arith);
        above = λ deep. absurd (omega arith);
      }

  pub percolate_down-Risen :
      (q : PQueue) (i : ℕ)
      → 0 < i
      → i < q.size
      → q.size ≤ length q.d
      → IsSink cmppri order q i (key q i)
      → Risen cmppri order q i (at q i) (percolate_down cmppri q i)
  unfolding percolate_down
  percolate_down-Risen q i pos h room hole =
      percolate_from-Risen q.size q i (at q i) (omega arith) pos h room hole

  pop_many :
      (q : PQueue)
      → IsValid q
      → IsHeap cmppri q
      → 2 < q.size
      → Popped q (percolate_down cmppri (drop_last_into q 1) 1)
  pop_many q v heap many =
      let s : PQueue = drop_last_into q 1 in
      let sized = length-set q.d 1 (at q (q.size - 1)) in
      let risen =
        percolate_down-Risen s 1 (omega arith) (omega arith)
          (omega (arith, sized, v.slots, v.inside)) (dropped-IsSink q (key s 1) v heap many) in
      let last : q.size - 1 + 1 ≡ q.size = omega arith in
      record {
        first = λ j pos h. root_first j q j heap (omega arith) pos h;
        heap = risen.heap;
        valid = record {
          rooted = omega (arith, risen.same_size);
          inside = omega (arith, risen.same_size, risen.same_avail, v.inside);
          slots = risen.same_slots ∙ sized ∙ v.slots ∙ sym risen.same_avail;
          growing = omega (arith, risen.same_step, v.growing);
        };
        one_less = omega (arith, risen.same_size);
        same_pri = risen.same_pri;
        holds = λ y. omega (
          arith,
          risen.holds y,
          ap (count_below (percolate_down cmppri s 1).d y) risen.same_size,
          count_below-set q.d y (q.size - 1) 1 (at q (q.size - 1))
              (omega (arith, v.slots, v.inside)) (omega arith),
          count_below_step q.d y (q.size - 1),
          ap (count_below q.d y) last,
        );
      }

  childless_from :
      (fuel : ℕ) (q : PQueue) (i m : ℕ) → q.size ≤ 2 * i → percolate_from cmppri fuel i m q ≡ (q, i)
  unfolding percolate_from maxchild
  childless_from zero q i m leaf = refl
  childless_from (suc fuel) q i m leaf =
      let out : leb q.size (2 * i) ≡ true = ground arith in rw out refl

  childless_down :
      (q : PQueue) (i : ℕ) → q.size ≤ 2 * i → percolate_down cmppri q i ≡ place q i (at q i)
  unfolding percolate_down
  childless_down q i leaf =
      ap (λ (p : PQueue × ℕ). place p.0 p.1 (at q i)) (childless_from q.size q i (key q i) leaf)

  pop_last :
      (q : PQueue)
      → IsValid q
      → IsHeap cmppri q
      → q.size ≡ 2
      → Popped q (percolate_down cmppri (drop_last_into q 1) 1)
  pop_last q v heap two =
      let s : PQueue = drop_last_into q 1 in
      let slot : 1 < length q.d = omega (arith, v.slots, v.inside) in
      let sized = length-set q.d 1 (at q (q.size - 1)) in
      let rest : q.size - 1 ≡ 1 = omega arith in
      subst (Popped q) (sym (childless_down s 1 (omega arith))) (record {
        first = λ j pos h. root_first j q j heap (omega arith) pos h;
        heap = λ j a b. absurd (omega arith);
        valid = record {
          rooted = omega arith;
          inside = omega (arith, v.inside);
          slots = length-set (set q.d 1 (at q (q.size - 1))) 1 (at s 1) ∙ sized ∙ v.slots;
          growing = v.growing;
        };
        one_less = omega arith;
        same_pri = refl;
        holds = λ y. omega (
          arith,
          ap (count_below (set (set q.d 1 (at q (q.size - 1))) 1 (at s 1)) y) rest,
          count_below-set_out (set q.d 1 (at q (q.size - 1))) y 1 1 (at s 1) (omega (arith, sized))
              (omega arith),
          count_below-set_out q.d y 1 1 (at q (q.size - 1)) slot (omega arith),
          count_below_step q.d y 1,
          ap (count_below q.d y) two,
        );
      })

  -- pqueue_pop on a valid queue in heap order that is not empty and whose mutex is free, for a
  -- strict weak order: it gives the root, which no element goes before, takes exactly that out,
  -- keeps the queue valid and in heap order and frees the mutex.
  pub pqueue_pop-Popped :
      (q : PQueue)
      → IsValid q
      → IsHeap cmppri q
      → q.locked ≡ false
      → 1 < q.size
      → (r : PQueue) × (pqueue_pop cmppri q ≡ some (q_ok, at q 1, r))
        × (r.locked ≡ false)
        × Popped q r
  unfolding pqueue_pop
  pqueue_pop-Popped q v heap free many =
      let l : PQueue = record q { locked = true } in
      let vl : IsValid l = record {
        rooted = v.rooted;
        inside = v.inside;
        slots = v.slots;
        growing = v.growing;
      } in
      let popped : Popped l (percolate_down cmppri (drop_last_into l 1) 1) =
        elim (Bool-cases (q.size == 2)) [
          | inl e ↦ pop_last l vl heap ((==_iff _ _).0 e)
          | inr e ↦ pop_many l vl heap (ground arith)
        ] in
      let full : (q.size == 1) ≡ false = ground arith in
      (
        record (percolate_down cmppri (drop_last_into l 1) 1) { locked = false },
        simp (free, full) refl,
        refl,
        record {
          first = popped.first;
          heap = popped.heap;
          valid = record {
            rooted = popped.valid.rooted;
            inside = popped.valid.inside;
            slots = popped.valid.slots;
            growing = popped.valid.growing;
          };
          one_less = popped.one_less;
          same_pri = popped.same_pri;
          holds = popped.holds;
        },
      )
