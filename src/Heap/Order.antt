-- ===== src/Heap/Order.antt =====
-- The order of the heap in src/ld_heap.c, on the factors by their slots.
use liteldacssdk.Prelude.{
  ℕ, ◌≤◌, ◌<◌, ◌≡◌, sym, ap, subst, ◌≢◌, inl, inr, arith, ◌==◌, ==_iff, Bool-cases,
}
use liteldacssdk.Heap.{parent}

-- No factor is lower than its parent's, among the first `n`.
abbrev pub IsOrdered : (ℕ → ℕ) → ℕ → Type 0
IsOrdered f n = (j : ℕ) → 0 < j → j < n → f (parent j) ≤ f j

-- Only the factor in slot `i` may be too low.
pub record IsRising (f : ℕ → ℕ) (n i : ℕ) : Type 0 where
  pub others : (j : ℕ) → 0 < j → j < n → j ≢ i → f (parent j) ≤ f j
  pub bridged : (j : ℕ) → 0 < j → j < n → parent j ≡ i → 0 < i → f (parent i) ≤ f j

-- Only the factor in slot `i` may be too high.
pub record IsSinking (f : ℕ → ℕ) (n i : ℕ) : Type 0 where
  pub others : (j : ℕ) → 0 < j → j < n → parent j ≢ i → f (parent j) ≤ f j
  pub bridged : (j : ℕ) → 0 < j → j < n → parent j ≡ i → 0 < i → f (parent i) ≤ f j

-- The factors in two slots change places.
pub record AreSwapped (f f' : ℕ → ℕ) (x y : ℕ) : Type 0 where
  pub here : f' x ≡ f y
  pub there : f' y ≡ f x
  pub elsewhere : (j : ℕ) → j ≢ x → j ≢ y → f' j ≡ f j

pub rises-IsOrdered :
    (f : ℕ → ℕ) (n i : ℕ) → IsRising f n i → (0 < i → f (parent i) ≤ f i) → IsOrdered f n
rises-IsOrdered f n i r top j pos h = elim (Bool-cases (j == i)) [
  | inl e ↦
      let eq : j ≡ i = (==_iff j i).0 e in
      subst (λ k. f (parent k) ≤ f k) (sym eq) (top (omega arith))
  | inr e ↦ r.others j pos h (ground arith)
]

module _ (f f' : ℕ → ℕ) (n i : ℕ) (pos : 0 < i) (h : i < n) where
  pub rises :
      IsRising f n i → f i < f (parent i) → AreSwapped f f' i (parent i) → IsRising f' n (parent i)
  rises r low s = record {
    others = λ j a b ne. elim (Bool-cases (j == i)) [
      | inl e ↦
          let eq : j ≡ i = (==_iff j i).0 e in
          subst (λ k. f' (parent k) ≤ f' k) (sym eq) (omega (arith, s.here, s.there))
      | inr e ↦
          let off : j ≢ i = ground arith in
          let same = s.elsewhere j off ne in
          elim (Bool-cases (parent j == i)) [
            | inl c ↦
                let eq : parent j ≡ i = (==_iff (parent j) i).0 c in
                omega (arith, ap f' eq, s.here, same, r.bridged j a b eq pos)
            | inr c ↦ elim (Bool-cases (parent j == parent i)) [
              | inl d ↦
                  let eq : parent j ≡ parent i = (==_iff (parent j) (parent i)).0 d in
                  omega (arith, ap f' eq, ap f eq, s.there, same, low, r.others j a b off)
              | inr d ↦ omega (
                arith,
                s.elsewhere (parent j) (ground arith) (ground arith),
                same,
                r.others j a b off,
              )
            ]
          ]
    ];
    bridged = λ j a b c deep. elim (Bool-cases (j == i)) [
      | inl e ↦
          let eq : j ≡ i = (==_iff j i).0 e in
          omega (
            arith,
            ap f' eq,
            s.here,
            s.elsewhere (parent (parent i)) (omega arith) (omega arith),
            r.others (parent i) deep (omega arith) (omega arith),
          )
      | inr e ↦
          let off : j ≢ i = ground arith in
          omega (
            arith,
            s.elsewhere j off (omega arith),
            s.elsewhere (parent (parent i)) (omega arith) (omega arith),
            ap f c,
            r.others j a b off,
            r.others (parent i) deep (omega arith) (omega arith),
          )
    ];
  }

pub sinks-IsOrdered :
    (f : ℕ → ℕ) (n i : ℕ)
    → IsSinking f n i
    → ((j : ℕ) → 0 < j → j < n → parent j ≡ i → f i ≤ f j)
    → IsOrdered f n
sinks-IsOrdered f n i r low j pos h = elim (Bool-cases (parent j == i)) [
  | inl e ↦
      let eq : parent j ≡ i = (==_iff (parent j) i).0 e in omega (arith, ap f eq, low j pos h eq)
  | inr e ↦ r.others j pos h (ground arith)
]

module _ (f f' : ℕ → ℕ) (n i c : ℕ) (deep : 0 < c) (h : c < n) (child : parent c ≡ i) where
  pub sinks_on :
      IsSinking f n i
      → f c < f i
      → ((j : ℕ) → 0 < j → j < n → parent j ≡ i → f c ≤ f j)
      → AreSwapped f f' i c
      → IsSinking f' n c
  sinks_on r low first s = record {
    others = λ j a b ne. elim (Bool-cases (j == c)) [
      | inl e ↦
          let eq : j ≡ c = (==_iff j c).0 e in
          subst (λ k. f' (parent k) ≤ f' k) (sym eq) (omega (arith, ap f' child, s.here, s.there))
      | inr e ↦
          let off : j ≢ c = ground arith in
          elim (Bool-cases (parent j == i)) [
            | inl d ↦
                let eq : parent j ≡ i = (==_iff (parent j) i).0 d in
                omega (arith, ap f' eq, s.here, s.elsewhere j (omega arith) off, first j a b eq)
            | inr d ↦
                let away : parent j ≢ i = ground arith in
                let same = s.elsewhere (parent j) away ne in
                elim (Bool-cases (j == i)) [
                  | inl g ↦
                      let eq : j ≡ i = (==_iff j i).0 g in
                      omega (
                        arith,
                        ap f' eq,
                        ap (λ k. f (parent k)) eq,
                        same,
                        s.here,
                        r.bridged c deep h child (omega arith),
                      )
                  | inr g ↦
                      omega (arith, same, s.elsewhere j (ground arith) off, r.others j a b away)
                ]
          ]
    ];
    bridged = λ j a b e pos. omega (
      arith,
      ap f' child,
      s.here,
      s.elsewhere j (omega arith) (omega arith),
      ap f e,
      r.others j a b (omega arith),
    );
  }
