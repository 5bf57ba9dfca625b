-- ===== src/RBuffer/Deque.antt =====
-- src/ld_rbuffer.c implements the bounded deque.
use mathlib.Core.Path.{subst₂}
use liteldacssdk.Prelude.{
  ℕ, suc, ◌≤◌, ◌<◌, ◌≡◌, ◌^◌, refl, sym, ap, subst, inl, inr, Bool, true, false, Option, none, some,
  List, [], ◌∷◌, ◌++◌, arith, length, leb, leb→le, Bool-cases, ◌>>=◌,
}
use liteldacssdk.Deque
use liteldacssdk.Deque.{
  Call, put_front, put_back, take_front, look, find, Reply, status, item, found, Implementation,
}
use liteldacssdk.RBuffer.{
  RBuffer, int_max, ld_rbuffer_push_front, ld_rbuffer_push_back, ld_rbuffer_pop,
  ld_rbuffer_get_front, ld_rbuffer_check_exist, ld_rbuffer_init,
}
use liteldacssdk.RBuffer.Store.{Heap, read}
use liteldacssdk.RBuffer.Chain.{Nodes, items, IsRing}
use liteldacssdk.RBuffer.Push.{ld_rbuffer_push_back-Pushed, ld_rbuffer_push_front-Pushed, push-full}
use liteldacssdk.RBuffer.Pop.{ld_rbuffer_pop-Popped, pop-empty, ld_rbuffer_get_front_lem}
use liteldacssdk.RBuffer.Walk.{ld_rbuffer_check_exist-some}

-- A buffer of capacity `size`, below 2^31, whose ring holds the items `xs`.
pub record Holds (size : ℕ) (s : RBuffer × Heap) (xs : List ℕ) : Type 0 where
  pub nodes : Nodes
  pub ring : IsRing s.1 s.0 nodes
  pub view : items nodes ≡ xs
  pub capacity : s.0.size ≡ size
  pub small : size < 2 ^ 31

-- A fresh buffer holds nothing.
pub ld_rbuffer_init-Holds :
    (size : ℕ) (h : Heap) → size < 2 ^ 31 → Holds size (ld_rbuffer_init size, h) []
unfolding ld_rbuffer_init
ld_rbuffer_init-Holds size h l = record {
  nodes = [];
  ring = record { counted = refl; bounded = omega arith; ends = (refl, refl); distinct = tt };
  view = refl;
  capacity = refl;
  small = l;
}

length-items : (ns : Nodes) → length (items ns) ≡ length ns
length-items [] = refl
length-items ((a, x) ∷ ns) = ap suc (length-items ns)

items-append : (ns : Nodes) (a x : ℕ) → items (ns ++ (a, x) ∷ []) ≡ items ns ++ x ∷ []
items-append [] a x = refl
items-append ((b, y) ∷ ns) a x = ap (◌∷◌ y) (items-append ns a x)

module _ (malloc : Heap → Option ℕ) where
  -- The function that a client's call runs, and what it returns.
  unfoldable pub call : Call → RBuffer × Heap → Option (Reply × (RBuffer × Heap))
  call (put_front x) (rb, h) =
      ld_rbuffer_push_front malloc rb x h >>= λ (e, rb', h'). some (status e, (rb', h'))
  call (put_back x) (rb, h) =
      ld_rbuffer_push_back malloc rb x h >>= λ (e, rb', h'). some (status e, (rb', h'))
  call take_front (rb, h) = ld_rbuffer_pop rb h >>= λ (e, x, rb', h'). some (item e x, (rb', h'))
  call look (rb, h) = ld_rbuffer_get_front rb h >>= λ (e, x). some (item e x, (rb, h))
  call (find factor ptr) (rb, h) =
      ld_rbuffer_check_exist rb ptr factor h >>= λ b. some (found b, (rb, h))

  unfoldable pub run : List Call → RBuffer × Heap → Option (List Reply)
  unfolding call
  run [] s = some []
  run (c ∷ cs) s = call c s >>= λ (r, s'). run cs s' >>= λ rs. some (r ∷ rs)

-- The step of the list, done by the buffer.
abbrev pub Simulates : ℕ → Option (Reply × (RBuffer × Heap)) → Reply × List ℕ → Type 0
Simulates size r (reply, ys) = (s' : RBuffer × Heap) × (r ≡ some (reply, s')) × Holds size s' ys

module _ (malloc : Heap → ℕ) (malloc_fresh : (h : Heap) → read h (malloc h) ≡ none) where
  module _ (rb : RBuffer) (h : Heap) (ns : Nodes) (ring : IsRing h rb ns)
      (little : rb.size < 2 ^ 31) where
    refused : leb rb.size (length (items ns)) ≡ true → rb.size ≤ rb.count
    refused e = omega (arith, leb→le rb.size (length (items ns)) e, length-items ns, ring.counted)

    room : leb rb.size (length (items ns)) ≡ false → length ns < rb.size
    room e = ground (arith, length-items ns)

    below : leb rb.size (length (items ns)) ≡ false → length ns < int_max
    unfolding int_max
    below e = omega (arith, room e, little)

    put_back-Simulates :
        (x : ℕ)
        → Simulates rb.size
            (call (λ m. some (malloc m)) (put_back x) (rb, h))
            (Deque.step rb.size (put_back x) (items ns))
    unfolding call Deque.step
    put_back-Simulates x = elim (Bool-cases (leb rb.size (length (items ns)))) [
      | inl e ↦
          rw (e, (push-full malloc malloc_fresh rb x h (refused e)).0)
            (
              (rb, h),
              refl,
              record { nodes = ns; ring = ring; view = refl; capacity = refl; small = little },
            )
      | inr e ↦
          let p =
            ld_rbuffer_push_back-Pushed malloc malloc_fresh rb x h ns ring (room e) (below e) in
          rw (e, p.done)
            (
              (p.buffer, p.heap),
              refl,
              record {
                nodes = ns ++ (malloc h, x) ∷ [];
                ring = p.ring;
                view = items-append ns (malloc h) x;
                capacity = p.same_size;
                small = little;
              },
            )
    ]

    put_front-Simulates :
        (x : ℕ)
        → Simulates rb.size
            (call (λ m. some (malloc m)) (put_front x) (rb, h))
            (Deque.step rb.size (put_front x) (items ns))
    unfolding call Deque.step
    put_front-Simulates x = elim (Bool-cases (leb rb.size (length (items ns)))) [
      | inl e ↦
          rw (e, (push-full malloc malloc_fresh rb x h (refused e)).1)
            (
              (rb, h),
              refl,
              record { nodes = ns; ring = ring; view = refl; capacity = refl; small = little },
            )
      | inr e ↦
          let p =
            ld_rbuffer_push_front-Pushed malloc malloc_fresh rb x h ns ring (room e) (below e) in
          rw (e, p.done)
            (
              (p.buffer, p.heap),
              refl,
              record {
                nodes = (malloc h, x) ∷ ns;
                ring = p.ring;
                view = refl;
                capacity = p.same_size;
                small = little;
              },
            )
    ]

    find-Simulates :
        (factor : ℕ → ℕ → Bool) (ptr : ℕ)
        → Simulates rb.size
            (call (λ m. some (malloc m)) (find factor ptr) (rb, h))
            (Deque.step rb.size (find factor ptr) (items ns))
    unfolding call Deque.step
    find-Simulates factor ptr = rw (ld_rbuffer_check_exist-some rb ptr factor h ns ring) (
      (rb, h),
      refl,
      record { nodes = ns; ring = ring; view = refl; capacity = refl; small = little },
    )

  take_front-Simulates :
      (rb : RBuffer) (h : Heap) (ns : Nodes)
      → IsRing h rb ns
      → rb.size < 2 ^ 31
      → Simulates rb.size
          (call (λ m. some (malloc m)) take_front (rb, h))
          (Deque.step rb.size take_front (items ns))
  unfolding call Deque.step
  take_front-Simulates rb h [] ring little = rw (pop-empty rb h ring.counted).0 (
    (rb, h),
    refl,
    record { nodes = []; ring = ring; view = refl; capacity = refl; small = little },
  )
  take_front-Simulates rb h ((a, x) ∷ ns) ring little =
      let p = ld_rbuffer_pop-Popped rb h a x ns ring in
      rw p.done (
        (p.buffer, p.heap),
        refl,
        record { nodes = ns; ring = p.ring; view = refl; capacity = p.same_size; small = little },
      )

  look-Simulates :
      (rb : RBuffer) (h : Heap) (ns : Nodes)
      → IsRing h rb ns
      → rb.size < 2 ^ 31
      → Simulates rb.size
          (call (λ m. some (malloc m)) look (rb, h))
          (Deque.step rb.size look (items ns))
  unfolding call Deque.step
  look-Simulates rb h [] ring little = rw (pop-empty rb h ring.counted).1 (
    (rb, h),
    refl,
    record { nodes = []; ring = ring; view = refl; capacity = refl; small = little },
  )
  look-Simulates rb h ((a, x) ∷ ns) ring little = rw (ld_rbuffer_get_front_lem rb h a x ns ring) (
    (rb, h),
    refl,
    record { nodes = (a, x) ∷ ns; ring = ring; view = refl; capacity = refl; small = little },
  )

  ring-Simulates :
      (c : Call) (rb : RBuffer) (h : Heap) (ns : Nodes)
      → IsRing h rb ns
      → rb.size < 2 ^ 31
      → Simulates rb.size (call (λ m. some (malloc m)) c (rb, h)) (Deque.step rb.size c (items ns))
  ring-Simulates (put_front x) rb h ns ring little = put_front-Simulates rb h ns ring little x
  ring-Simulates (put_back x) rb h ns ring little = put_back-Simulates rb h ns ring little x
  ring-Simulates take_front rb h ns ring little = take_front-Simulates rb h ns ring little
  ring-Simulates look rb h ns ring little = look-Simulates rb h ns ring little
  ring-Simulates (find factor ptr) rb h ns ring little =
      find-Simulates rb h ns ring little factor ptr

  pub call-Simulates :
      (size : ℕ) (c : Call) (s : RBuffer × Heap) (xs : List ℕ)
      → Holds size s xs
      → Simulates size (call (λ m. some (malloc m)) c s) (Deque.step size c xs)
  call-Simulates size c (rb, h) xs v =
      subst₂ (λ n ys. Simulates n (call (λ m. some (malloc m)) c (rb, h)) (Deque.step n c ys))
        v.capacity v.view
        (ring-Simulates c rb h v.nodes v.ring (subst (λ n. n < 2 ^ 31) (sym v.capacity) v.small))

  -- The buffer as an implementation of the deque, for its clients.
  abbrev pub rbuffer_deque : Implementation
  rbuffer_deque = record {
    State = RBuffer × Heap;
    Holds = Holds;
    call = call (λ m. some (malloc m));
    call_lem = call-Simulates;
  }

  -- From a heap that holds a ring of the items of `xs`, with a capacity below 2^31, no sequence of
  -- calls faults as long as malloc gives a node for each push, and none tells the linked buffer from a
  -- list of at most `size` items: every reply, errors included, is that of the list.
  pub run_refines :
      (size : ℕ) (cs : List Call) (s : RBuffer × Heap) (xs : List ℕ)
      → Holds size s xs
      → run (λ m. some (malloc m)) cs s ≡ some (Deque.run size cs xs)
  unfolding run Deque.run
  run_refines size [] s xs v = refl
  run_refines size (c ∷ cs) s xs v =
      let (s', e, v') = call-Simulates size c s xs v in
      rw (e, run_refines size cs s' (Deque.step size c xs).1 v') refl
