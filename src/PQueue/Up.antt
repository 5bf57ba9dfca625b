-- ===== src/PQueue/Up.antt =====
-- bubble_up of src/ld_pqueue.c: it restores the order along the path to the root, and keeps what
-- the queue holds.
use liteldacssdk.Prelude.{
  ℕ, zero, suc, ◌+◌, ◌/◌, ◌≤◌, ◌<◌, ◌≡◌, refl, sym, ap, ap₂, ◌∙◌, ◌≢◌, inl, inr, Bool, true, false,
  List, arith, length, set, get_or, get_or-set, ◌==◌, ==_iff, Bool-cases,
}
use liteldacssdk.PQueue.{PQueue, at, key, place}

-- How often an element stands in the slots below `n`.
abbrev pub one_if : Bool → ℕ
one_if true = 1
one_if false = 0

pub count_below : List ℕ → ℕ → ℕ → ℕ
count_below d y zero = 0
count_below d y (suc n) = count_below d y n + one_if (get_or d n 0 == y)

pub count_below_step :
    (d : List ℕ) (y n : ℕ)
    → count_below d y (n + 1) ≡ count_below d y n + one_if (get_or d n 0 == y)
unfolding count_below
count_below_step d y n = let next : n + 1 ≡ suc n = omega arith in ap (count_below d y) next

pub count_below-set_out :
    (d : List ℕ) (y n i v : ℕ)
    → i < length d
    → n ≤ i
    → count_below (set d i v) y n ≡ count_below d y n
unfolding count_below
count_below-set_out d y zero i v h p = refl
count_below-set_out d y (suc n) i v h p =
    let same_slot : get_or (set d i v) n 0 ≡ get_or d n 0 =
      ground (arith, get_or-set d i n v 0 h) in
    ap₂ (λ a b. a + one_if (b == y)) (count_below-set_out d y n i v h (omega arith)) same_slot

pub count_below-set :
    (d : List ℕ) (y n i v : ℕ)
    → i < length d
    → i < n
    → count_below (set d i v) y n + one_if (get_or d i 0 == y) ≡ count_below d y n + one_if (v == y)
unfolding count_below
count_below-set d y zero i v h p = absurd (omega arith)
count_below-set d y (suc n) i v h p = elim (Bool-cases (i == n)) [
  | inl e ↦
      let eq : i ≡ n = (==_iff i n).0 e in
      let mine : get_or (set d i v) n 0 ≡ v = ground (arith, get_or-set d i n v 0 h) in
      omega (
        arith,
        count_below-set_out d y n i v h (omega arith),
        ap (λ b. one_if (b == y)) mine,
        ap (λ k. one_if (get_or d k 0 == y)) eq,
      )
  | inr e ↦
      let other : get_or (set d i v) n 0 ≡ get_or d n 0 = ground (arith, get_or-set d i n v 0 h) in
      omega (arith, count_below-set d y n i v h (ground arith), ap (λ b. one_if (b == y)) other)
]

pub count_below_eq :
    (d d' : List ℕ) (y n : ℕ)
    → ((j : ℕ) → j < n → get_or d' j 0 ≡ get_or d j 0)
    → count_below d' y n ≡ count_below d y n
unfolding count_below
count_below_eq d d' y zero eq = refl
count_below_eq d d' y (suc n) eq =
    ap₂ (λ a v. a + one_if (v == y)) (count_below_eq d d' y n λ j h. eq j (omega arith))
      (eq n (omega arith))

-- `cmppri` is a strict weak order.
pub record IsOrder (cmppri : ℕ → ℕ → Bool) : Type 0 where
  pub asym : (a b : ℕ) → cmppri a b ≡ true → cmppri b a ≡ false
  pub negative_trans : (a b c : ℕ) → cmppri a b ≡ false → cmppri b c ≡ false → cmppri a c ≡ false

module _ (cmppri : ℕ → ℕ → Bool) where
  -- No element goes before its parent.
  abbrev pub IsHeap : PQueue → Type 0
  IsHeap q = (j : ℕ) → 1 < j → j < q.size → cmppri (key q (j / 2)) (key q j) ≡ false

  -- The order around a free slot `i` that an element of priority `m` is to fill.
  pub record IsHole (q : PQueue) (i m : ℕ) : Type 0 where
    pub apart :
        (j : ℕ) → 1 < j → j < q.size → j ≢ i → j / 2 ≢ i → cmppri (key q (j / 2)) (key q j) ≡ false
    pub below : (j : ℕ) → j < q.size → 1 < j → j / 2 ≡ i → cmppri m (key q j) ≡ false
    pub across : (j : ℕ) → j < q.size → 1 < i → j / 2 ≡ i → cmppri (key q (i / 2)) (key q j) ≡ false

  module _ (order : IsOrder cmppri) where
    pub key-place_self : (q : PQueue) (i x : ℕ) → i < length q.d → key (place q i x) i ≡ q.pri x
    key-place_self q i x h = ap q.pri (ground (arith, get_or-set q.d i i x 0 h))

    pub key-place_ne :
        (q : PQueue) (i x j : ℕ) → i < length q.d → j ≢ i → key (place q i x) j ≡ key q j
    key-place_ne q i x j h ne = ap q.pri (ground (arith, get_or-set q.d i j x 0 h))

    module _ (q : PQueue) (i m : ℕ) (h : i < length q.d) (inside : i < q.size)
        (hole : IsHole q i m) where
      -- The parent's element moves down into the free slot.
      pub rise :
          1 < i → cmppri (key q (i / 2)) m ≡ true → IsHole (place q i (at q (i / 2))) (i / 2) m
      rise deep before =
          let mine = key-place_self q i (at q (i / 2)) h in
          let other = λ (j : ℕ) (ne : j ≢ i). key-place_ne q i (at q (i / 2)) j h ne in
          record {
            apart = λ j a b c d. elim (Bool-cases (j / 2 == i)) [
              | inl e ↦
                  let e' : j / 2 ≡ i = (==_iff _ _).0 e in
                  ap₂ cmppri (ap (key (place q i (at q (i / 2)))) e' ∙ mine) (other j (omega arith))
                  ∙ hole.across j b deep e'
              | inr e ↦
                  ap₂ cmppri (other (j / 2) (ground arith)) (other j (ground arith))
                  ∙ hole.apart j a b (ground arith) (ground arith)
            ];
            below = λ j b a c. elim (Bool-cases (j == i)) [
              | inl e ↦
                  ap (cmppri m) (ap (key (place q i (at q (i / 2)))) ((==_iff _ _).0 e) ∙ mine)
                  ∙ order.asym (key q (i / 2)) m before
              | inr e ↦
                  ap (cmppri m) (other j (ground arith))
                  ∙ order.negative_trans m (key q (i / 2)) (key q j)
                      (order.asym (key q (i / 2)) m before)
                      (ap (λ k. cmppri (key q k) (key q j)) (sym c)
                        ∙ hole.apart j a b (ground arith) (omega arith))
            ];
            across = λ j b deeper c.
                let grand : cmppri (key q (i / 2 / 2)) (key q (i / 2)) ≡ false =
                  hole.apart (i / 2) deeper (omega arith) (omega arith) (omega arith) in
                ap₂ cmppri (other (i / 2 / 2) (omega arith)) refl ∙ elim (Bool-cases (j == i)) [
                  | inl e ↦
                      ap (cmppri (key q (i / 2 / 2)))
                        (ap (key (place q i (at q (i / 2)))) ((==_iff _ _).0 e) ∙ mine)
                      ∙ grand
                  | inr e ↦
                      ap (cmppri (key q (i / 2 / 2))) (other j (ground arith))
                      ∙ order.negative_trans (key q (i / 2 / 2)) (key q (i / 2)) (key q j) grand (
                          ap (λ k. cmppri (key q k) (key q j)) (sym c)
                          ∙ hole.apart j (omega arith) b (ground arith) (omega arith))
                ];
          }

      -- A free slot with no element before its parent is filled.
      pub fill :
          (x : ℕ) → q.pri x ≡ m → (1 < i → cmppri (key q (i / 2)) m ≡ false) → IsHeap (place q i x)
      fill x e top j a b = elim (Bool-cases (j == i)) [
        | inl at_i ↦
            let eq : j ≡ i = (==_iff _ _).0 at_i in
            ap₂ cmppri (key-place_ne q i x (j / 2) h (omega arith) ∙ ap (λ k. key q (k / 2)) eq)
              (ap (key (place q i x)) eq ∙ key-place_self q i x h ∙ e)
            ∙ top (omega arith)
        | inr off ↦
            ap (cmppri (key (place q i x) (j / 2))) (key-place_ne q i x j h (ground arith))
            ∙ elim (Bool-cases (j / 2 == i)) [
              | inl child ↦
                  let eq : j / 2 ≡ i = (==_iff _ _).0 child in
                  ap (λ k. cmppri k (key q j))
                    (ap (key (place q i x)) eq ∙ key-place_self q i x h ∙ e)
                  ∙ hole.below j b a eq
              | inr away ↦
                  ap (λ k. cmppri k (key q j)) (key-place_ne q i x (j / 2) h (ground arith))
                  ∙ hole.apart j a b (ground arith) (ground arith)
            ]
      ]
