-- ===== src/Heap/Down.antt =====
-- heap_bubble_down of src/ld_heap.c.
use liteldacssdk.Prelude.{
  ℕ, zero, suc, ◌+◌, ◌*◌, ◌≤◌, ◌<◌, ◌≡◌, refl, sym, ap, ◌∙◌, subst, inl, inr, true, false, not,
  none, some, List, arith, length, ltb, leb, ◌==◌, if◌then◌else◌, ltb→lt, leb→le, ==_iff,
  Bool-cases, ◌>>=◌,
}
use liteldacssdk.Heap.{
  HeapNode, factor_at, c_swap, parent, proper_child, sinks, child_of, down_from,
}
use liteldacssdk.Heap.Order.{IsSinking, sinks_on, sinks-IsOrdered}
use liteldacssdk.Heap.Swap.{IsIndexed, c_swap-Swapped, Settled, go_on}

-- `c` is the child of `i` with the lowest factor.
record IsLowest (hps : List HeapNode) (i c : ℕ) : Type 0 where
  deep : 0 < c
  inside : c < length hps
  child : parent c ≡ i
  lowest : (j : ℕ) → 0 < j → j < length hps → parent j ≡ i → factor_at hps c ≤ factor_at hps j

childless : (hps : List HeapNode) (i : ℕ) → length hps ≤ 2 * i + 1 → proper_child hps i ≡ none
childless hps i h =
    let left : ltb (2 * i + 1) (length hps) ≡ false = ground arith in
    let right : ltb (2 * i + 2) (length hps) ≡ false = ground arith in
    let out : ltb (length hps) (length hps + 1) ≡ true = ground arith in rw (left, right, out) refl

proper_child-IsLowest :
    (hps : List HeapNode) (i : ℕ)
    → 2 * i + 1 < length hps
    → (c : ℕ) × (proper_child hps i ≡ some c) × IsLowest hps i c
proper_child-IsLowest hps i h =
    let n = length hps in
    let left : ltb (2 * i + 1) n ≡ true = ground arith in
    let left_in : ltb n (2 * i + 1) ≡ false = ground arith in
    elim (Bool-cases (ltb (2 * i + 2) n)) [
      | inl e ↦
          let right_in : ltb n (2 * i + 2) ≡ false = ground arith in
          elim (Bool-cases (ltb (factor_at hps (2 * i + 1)) (factor_at hps (2 * i + 2)))) [
            | inl g ↦ (
              2 * i + 1,
              rw (left, e) (rw (left_in, left, e, g) refl),
              record {
                deep = omega arith;
                inside = h;
                child = omega arith;
                lowest = λ j a b p. elim (Bool-cases (j == 2 * i + 1)) [
                  | inl q ↦ omega (arith, ap (factor_at hps) ((==_iff j (2 * i + 1)).0 q))
                  | inr q ↦
                      let eq : j ≡ 2 * i + 2 = ground arith in
                      omega (arith, ap (factor_at hps) eq, ltb→lt _ _ g)
                ];
              },
            )
            | inr g ↦ (
              2 * i + 2,
              rw (left, e) (rw (left_in, left, e, g) refl),
              record {
                deep = omega arith;
                inside = ground arith;
                child = omega arith;
                lowest = λ j a b p. elim (Bool-cases (j == 2 * i + 2)) [
                  | inl q ↦ omega (arith, ap (factor_at hps) ((==_iff j (2 * i + 2)).0 q))
                  | inr q ↦
                      let eq : j ≡ 2 * i + 1 = ground arith in
                      let high : factor_at hps (2 * i + 2) ≤ factor_at hps (2 * i + 1) =
                        ground arith in
                      omega (arith, ap (factor_at hps) eq, high)
                ];
              },
            )
          ]
      | inr e ↦
          let out : ltb n (n + 1) ≡ true = ground arith in
          let out' : ltb (n + 1) n ≡ false = ground arith in
          (
            2 * i + 1,
            rw (left, e) (rw (left_in, left, out') refl),
            record {
              deep = omega arith;
              inside = h;
              child = omega arith;
              lowest = λ j a b p.
                  let eq : j ≡ 2 * i + 1 = ground arith in omega (arith, ap (factor_at hps) eq);
            },
          )
    ]

down_from_stop :
    (rounds : ℕ) (hps : List HeapNode) (i : ℕ)
    → sinks hps i (proper_child hps i) ≡ false
    → down_from (suc rounds) hps i ≡ some hps
unfolding down_from
down_from_stop rounds hps i e = rw e refl

down_from_step :
    (rounds : ℕ) (hps : List HeapNode) (i c : ℕ)
    → proper_child hps i ≡ some c
    → factor_at hps c < factor_at hps i
    → down_from (suc rounds) hps i ≡ (c_swap hps i c >>= λ hps'. down_from rounds hps' c)
unfolding down_from
down_from_step rounds hps i c e low =
    let deep : leb (factor_at hps i) (factor_at hps c) ≡ false = ground arith in
    ap
      (λ child.
        if sinks hps i child
        then (c_swap hps i (child_of child) >>= λ hps'. down_from rounds hps' (child_of child))
        else some hps)
      e
    ∙ rw deep refl

pub down_from-Settled :
    (rounds : ℕ) (hps : List HeapNode) (i : ℕ)
    → length hps ≤ i + rounds
    → IsIndexed hps
    → IsSinking (λ j. factor_at hps j) (length hps) i
    → Settled hps (down_from rounds hps i)
unfolding down_from
down_from-Settled zero hps i f v r = record {
  after = hps;
  runs = refl;
  sized = refl;
  sorted = record {
    ordered =
        sinks-IsOrdered (λ j. factor_at hps j) (length hps) i r (λ j a b p. absurd (omega arith));
    indexed = v;
  };
  counted = λ test. refl;
}
down_from-Settled (suc rounds) hps i f v r = elim (Bool-cases (leb (length hps) (2 * i + 1))) [
  | inl e ↦
      let alone : proper_child hps i ≡ none = childless hps i (ground arith) in
      record {
        after = hps;
        runs = down_from_stop rounds hps i (ap (sinks hps i) alone);
        sized = refl;
        sorted = record {
          ordered =
              sinks-IsOrdered (λ j. factor_at hps j) (length hps) i r
                (λ j a b p. absurd (ground arith));
          indexed = v;
        };
        counted = λ test. refl;
      }
  | inr e ↦
      let (c, is_child, low) = proper_child-IsLowest hps i (ground arith) in
      elim (Bool-cases (leb (factor_at hps i) (factor_at hps c))) [
        | inl g ↦
            let stays : factor_at hps i ≤ factor_at hps c = leb→le _ _ g in
            record {
              after = hps;
              runs = down_from_stop rounds hps i (ap (sinks hps i) is_child ∙ ap not g);
              sized = refl;
              sorted = record {
                ordered =
                    sinks-IsOrdered (λ j. factor_at hps j) (length hps) i r
                      (λ j a b p. omega (arith, stays, low.lowest j a b p));
                indexed = v;
              };
              counted = λ test. refl;
            }
        | inr g ↦
            let lower : factor_at hps c < factor_at hps i = ground arith in
            let s =
              c_swap-Swapped hps i c (omega (arith, low.child, low.deep, low.inside)) low.inside
                (λ same. omega (arith, same, low.child, low.deep)) v in
            let sinking : IsSinking (λ j. factor_at s.after j) (length s.after) c =
              subst (λ n. IsSinking (λ j. factor_at s.after j) n c) (sym s.sized)
                (sinks_on (λ j. factor_at hps j) (λ j. factor_at s.after j) (length hps) i c
                  low.deep low.inside low.child r lower low.lowest s.swapped) in
            go_on s (λ hps'. down_from rounds hps' c) (down_from_step rounds hps i c is_child lower)
              (down_from-Settled rounds s.after c (omega (arith, s.sized, low.child, low.deep))
                s.indexed sinking)
      ]
]
