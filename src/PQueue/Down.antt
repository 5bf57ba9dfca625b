-- ===== src/PQueue/Down.antt =====
-- One round of percolate_down in src/ld_pqueue.c: the child that goes first moves up into the free
-- slot.
use liteldacssdk.Prelude.{
  ℕ, ◌+◌, ◌*◌, ◌/◌, ◌≤◌, ◌<◌, ◌≡◌, refl, sym, ap, ap₂, ◌∙◌, ◌≢◌, ◌⊎◌, inl, inr, Bool, true, false,
  ◌&&◌, arith, length, ltb, leb, ◌==◌, ==_iff, Bool-cases,
}
use liteldacssdk.PQueue.{PQueue, at, key, place, maxchild}
use liteldacssdk.PQueue.Up.{IsOrder, IsHole, key-place_self, key-place_ne}

module _ (cmppri : ℕ → ℕ → Bool) (order : IsOrder cmppri) where
  pub irreflexive : (a : ℕ) → cmppri a a ≡ false
  irreflexive a = elim (Bool-cases (cmppri a a)) [ inl e ↦ order.asym a a e | inr e ↦ e ]

  -- `c` is the child of `i` that goes first.
  pub record IsFirst (q : PQueue) (i c : ℕ) : Type 0 where
    pub child : c / 2 ≡ i
    pub inside : c < q.size
    pub first : (j : ℕ) → j < q.size → 1 < j → j / 2 ≡ i → cmppri (key q c) (key q j) ≡ false

  pub maxchild-IsFirst :
      (q : PQueue) (i : ℕ)
      → 0 < i
      → ((maxchild cmppri q i ≡ 0) × (q.size ≤ 2 * i)) ⊎ IsFirst q i (maxchild cmppri q i)
  unfolding maxchild
  maxchild-IsFirst q i pos = elim (Bool-cases (leb q.size (2 * i))) [
    | inl e ↦ inl (rw e refl, ground arith)
    | inr e ↦
        elim (Bool-cases (ltb (2 * i + 1) q.size && cmppri (key q (2 * i)) (key q (2 * i + 1)))) [
          | inl right ↦ inr (
              rw (e, right)
                (record {
                  child = omega arith;
                  inside = ground arith;
                  first = λ j h deep c. elim (Bool-cases (j == 2 * i)) [
                    | inl eq ↦
                        ap (λ k. cmppri (key q (2 * i + 1)) (key q k)) ((==_iff _ _).0 eq)
                        ∙ order.asym (key q (2 * i)) (key q (2 * i + 1)) (ground arith)
                    | inr ne ↦
                        let eq : j ≡ 2 * i + 1 = ground arith in
                        ap (λ k. cmppri (key q (2 * i + 1)) (key q k)) eq
                        ∙ irreflexive (key q (2 * i + 1))
                  ];
                }))
          | inr left ↦ inr (
              rw (e, left)
                (record {
                  child = omega arith;
                  inside = ground arith;
                  first = λ j h deep c. elim (Bool-cases (j == 2 * i)) [
                    | inl eq ↦
                        ap (λ k. cmppri (key q (2 * i)) (key q k)) ((==_iff _ _).0 eq)
                        ∙ irreflexive (key q (2 * i))
                    | inr ne ↦
                        let eq : j ≡ 2 * i + 1 = ground arith in
                        let there : ltb (2 * i + 1) q.size ≡ true = ground arith in
                        ap (λ k. cmppri (key q (2 * i)) (key q k)) eq ∙ ground arith
                  ];
                }))
        ]
  ]

  -- The order around a free slot that an element of priority `m` has to go down from.
  pub record IsSink (q : PQueue) (i m : ℕ) : Type 0 where
    pub apart :
        (j : ℕ) → 1 < j → j < q.size → j ≢ i → j / 2 ≢ i → cmppri (key q (j / 2)) (key q j) ≡ false
    pub across : (j : ℕ) → j < q.size → 1 < i → j / 2 ≡ i → cmppri (key q (i / 2)) (key q j) ≡ false
    pub above : 1 < i → cmppri (key q (i / 2)) m ≡ false

  module _ (q : PQueue) (i c m : ℕ) (h : i < length q.d) (pos : 0 < i) (hole : IsSink q i m)
      (top : IsFirst q i c) where
    pub sink : cmppri m (key q c) ≡ true → IsSink (place q i (at q c)) c m
    sink after =
        let mine = key-place_self cmppri order q i (at q c) h in
        let other = λ (j : ℕ) (ne : j ≢ i). key-place_ne cmppri order q i (at q c) j h ne in
        record {
          apart = λ j a b x y. elim (Bool-cases (j == i)) [
            | inl e ↦
                let eq : j ≡ i = (==_iff _ _).0 e in
                ap₂ cmppri (other (j / 2) (omega arith) ∙ ap (λ k. key q (k / 2)) eq)
                  (ap (key (place q i (at q c))) eq ∙ mine)
                ∙ hole.across c top.inside (omega arith) top.child
            | inr off ↦ elim (Bool-cases (j / 2 == i)) [
              | inl sibling ↦
                  let eq : j / 2 ≡ i = (==_iff _ _).0 sibling in
                  ap₂ cmppri (ap (key (place q i (at q c))) eq ∙ mine) (other j (ground arith))
                  ∙ top.first j b a eq
              | inr away ↦
                  ap₂ cmppri (other (j / 2) (ground arith)) (other j (ground arith))
                  ∙ hole.apart j a b (ground arith) (ground arith)
            ]
          ];
          across = λ j b deep y.
              ap₂ cmppri (ap (key (place q i (at q c))) top.child ∙ mine)
                (other j (omega (arith, top.child)))
              ∙ ap (λ k. cmppri (key q k) (key q j)) (sym y)
              ∙ hole.apart j (omega (arith, top.child)) b (omega (arith, top.child))
                  (omega (arith, top.child));
          above = λ deep.
              ap (λ k. cmppri k m) (ap (key (place q i (at q c))) top.child ∙ mine)
              ∙ order.asym m (key q c) after;
        }

    -- Where the first child does not go before it, the element stays.
    pub sunk : cmppri m (key q c) ≡ false → IsHole cmppri q i m
    sunk stays = record {
      apart = hole.apart;
      below = λ j b a y. order.negative_trans m (key q c) (key q j) stays (top.first j b a y);
      across = hole.across;
    }
