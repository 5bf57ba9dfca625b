-- ===== src/PQueue/Rise.antt =====
-- The loop of bubble_up in src/ld_pqueue.c: an element rises to its place from a free slot.
use liteldacssdk.Prelude.{
  ℕ, zero, suc, ◌+◌, ◌/◌, ◌≤◌, ◌<◌, ◌≡◌, refl, ap, ◌∙◌, ◌≢◌, inl, inr, Bool, false, ◌&&◌, arith,
  length, set, get_or, length-set, get_or-set, ltb, ◌==◌, Bool-cases,
}
use liteldacssdk.PQueue.{PQueue, at, key, place, bubble_from, bubble_up}
use liteldacssdk.PQueue.Up.{
  one_if, count_below, count_below-set, IsOrder, IsHeap, IsHole, rise, fill,
}

module _ (cmppri : ℕ → ℕ → Bool) (order : IsOrder cmppri) where
  -- What is left when `x` has risen from the free slot `i` of `q`.
  pub record Risen (q : PQueue) (i x : ℕ) (r : PQueue) : Type 0 where
    pub heap : IsHeap cmppri r
    pub same_size : r.size ≡ q.size
    pub same_slots : length r.d ≡ length q.d
    pub same_avail : r.avail ≡ q.avail
    pub same_step : r.step ≡ q.step
    pub same_pri : r.pri ≡ q.pri
    pub holds :
        (y : ℕ)
        → count_below r.d y q.size + one_if (get_or q.d i 0 == y)
          ≡ count_below q.d y q.size + one_if (x == y)

  pub filled :
      (q : PQueue) (i x : ℕ)
      → i < q.size
      → q.size ≤ length q.d
      → IsHole cmppri q i (q.pri x)
      → (1 < i → cmppri (key q (i / 2)) (q.pri x) ≡ false)
      → Risen q i x (place q i x)
  filled q i x h room hole top = record {
    heap = fill cmppri order q i (q.pri x) (omega arith) h hole x refl top;
    same_size = refl;
    same_slots = length-set q.d i x;
    same_avail = refl;
    same_step = refl;
    same_pri = refl;
    holds = λ y. count_below-set q.d y q.size i x (omega arith) h;
  }

  -- A round moves the element of slot `c` into the free slot `i`.
  pub lifted :
      (q : PQueue) (i c x : ℕ) (r : PQueue)
      → c ≢ i
      → i < q.size
      → q.size ≤ length q.d
      → Risen (place q i (at q c)) c x r
      → Risen q i x r
  lifted q i c x r apart h room risen = record {
    heap = risen.heap;
    same_size = risen.same_size;
    same_slots = risen.same_slots ∙ length-set q.d i (at q c);
    same_avail = risen.same_avail;
    same_step = risen.same_step;
    same_pri = risen.same_pri;
    holds = λ y.
        let up : get_or (set q.d i (at q c)) c 0 ≡ at q c =
          ground (arith, get_or-set q.d i c (at q c) 0 (omega arith)) in
        omega (
          arith,
          risen.holds y,
          count_below-set q.d y q.size i (at q c) (omega arith) h,
          ap (λ v. one_if (v == y)) up,
        );
  }

  pub bubble_from-Risen :
      (fuel : ℕ) (q : PQueue) (i x : ℕ)
      → i ≤ fuel
      → 0 < i
      → i < q.size
      → q.size ≤ length q.d
      → IsHole cmppri q i (q.pri x)
      → Risen q i x (
          place
            (bubble_from cmppri fuel i (q.pri x) q).0
            (bubble_from cmppri fuel i (q.pri x) q).1
            x)
  unfolding bubble_from
  bubble_from-Risen zero q i x enough pos h room hole = absurd (omega arith)
  bubble_from-Risen (suc fuel) q i x enough pos h room hole =
      elim (Bool-cases (ltb 1 i && cmppri (key q (i / 2)) (q.pri x))) [
        | inl e ↦
            let deep : 1 < i = ground arith in
            rw e (
              lifted q i (i / 2) x _ (omega arith) h room (
                bubble_from-Risen fuel (place q i (at q (i / 2))) (i / 2) x (omega arith)
                  (omega arith) (omega arith) (omega (arith, length-set q.d i (at q (i / 2))))
                  (rise cmppri order q i (q.pri x) (omega arith) h hole deep (ground arith))))
        | inr e ↦ rw e (filled q i x h room hole λ deep. ground arith)
      ]

  pub bubble_up-Risen :
      (q : PQueue) (i : ℕ)
      → 0 < i
      → i < q.size
      → q.size ≤ length q.d
      → IsHole cmppri q i (key q i)
      → Risen q i (at q i) (bubble_up cmppri q i)
  unfolding bubble_up
  bubble_up-Risen q i pos h room hole =
      bubble_from-Risen i q i (at q i) (omega arith) pos h room hole
