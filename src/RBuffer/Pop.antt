-- ===== src/RBuffer/Pop.antt =====
-- src/ld_rbuffer.c, ld_rbuffer_pop, ld_rbuffer_get_front and ld_rbuffer_free.
use liteldacssdk.Prelude.{
  ℕ, zero, suc, ◌-◌, ◌≤◌, ◌<◌, ◌≡◌, refl, Option, none, some, [], ◌∷◌, arith, length,
}
use liteldacssdk.Err.{Err, ok, internal}
use liteldacssdk.RBuffer.{RBuffer, ld_rbuffer_pop, ld_rbuffer_get_front, free_loop, ld_rbuffer_free}
use liteldacssdk.RBuffer.Store.{Node, Heap, read, release, set_next, set_prev}
use liteldacssdk.RBuffer.Chain.{
  Nodes, back, Links-cons, set_next-Relinked, set_prev-Relinked, IsRing,
}

-- What a pop gives on a ring that begins with the item `x`: LD_OK, that item, and a ring of the rest.
pub record Popped (r : Option (Err × ℕ × RBuffer × Heap)) (x size : ℕ) (ns : Nodes) : Type 0 where
  pub buffer : RBuffer
  pub heap : Heap
  pub done : r ≡ some (ok, x, buffer, heap)
  pub ring : IsRing heap buffer ns
  pub same_size : buffer.size ≡ size

pop-some :
    (rb : RBuffer) (h : Heap) (a t : ℕ) (n : Node) {h₁ h₂ : Heap}
    → 1 < rb.count
    → rb.head ≡ some a
    → rb.tail ≡ some t
    → read h a ≡ some n
    → set_next h t n.next ≡ some h₁
    → set_prev h₁ n.next t ≡ some h₂
    → ld_rbuffer_pop rb h
      ≡ some (ok, n.item, record rb { head = some n.next; count = rb.count - 1 }, release h₂ a)
unfolding ld_rbuffer_pop
pop-some rb h a t n c eh et er e₁ e₂ = ground arith

pop_last :
    (rb : RBuffer) (h : Heap) (a : ℕ) (n : Node)
    → rb.count ≡ 1
    → rb.head ≡ some a
    → read h a ≡ some n
    → ld_rbuffer_pop rb h
      ≡ some (ok, n.item, record rb { head = none; tail = none; count = rb.count - 1 }, release h a)
unfolding ld_rbuffer_pop
pop_last rb h a n c eh er = ground arith

-- On a non-empty ring `ld_rbuffer_pop` gives the oldest item, and keeps the rest a ring.
pub ld_rbuffer_pop-Popped :
    (rb : RBuffer) (h : Heap) (a x : ℕ) (ns : Nodes)
    → IsRing h rb ((a, x) ∷ ns)
    → Popped (ld_rbuffer_pop rb h) x rb.size ns
ld_rbuffer_pop-Popped rb h a x [] ring = record {
  buffer = record rb { head = none; tail = none; count = rb.count - 1 };
  heap = release h a;
  done = pop_last rb h a _ ring.counted ring.ends.0 ring.ends.2.0;
  ring = record {
    counted = omega (arith, ring.counted);
    bounded = omega arith;
    ends = (refl, refl);
    distinct = tt;
  };
  same_size = refl;
}
ld_rbuffer_pop-Popped rb h a x ((b, y) ∷ ns) ring =
    let tail = back b ns in
    let r₁ = set_next-Relinked h a a b b y ns ring.ends.2.1 ring.distinct.1 in
    let r₂ = set_prev-Relinked r₁.heap a b tail b y ns r₁.links ring.distinct.1.0 in
    record {
      buffer = record rb { head = some b; count = rb.count - 1 };
      heap = release r₂.heap a;
      done =
          pop-some rb h a tail _ (omega (arith, ring.counted)) ring.ends.0 ring.ends.1 ring.ends.2.0
            r₁.done r₂.done;
      ring = record {
        counted = omega (arith, ring.counted);
        bounded = omega (arith, ring.bounded);
        ends = (
          refl,
          ring.ends.1,
          Links-cons r₂.heap tail b a none ((b, y) ∷ ns) ring.distinct.0 r₂.links,
        );
        distinct = ring.distinct.1;
      };
      same_size = refl;
    }

-- An empty buffer gives an error and NULL for a pop and for the front, and nothing changes.
pub pop-empty :
    (rb : RBuffer) (h : Heap)
    → rb.count ≡ 0
    → (ld_rbuffer_pop rb h ≡ some (internal, 0, rb, h))
      × (ld_rbuffer_get_front rb h ≡ some (internal, 0))
unfolding ld_rbuffer_pop ld_rbuffer_get_front
pop-empty rb h e = ground arith

-- ld_rbuffer_get_front reads the oldest item.
pub ld_rbuffer_get_front_lem :
    (rb : RBuffer) (h : Heap) (a x : ℕ) (ns : Nodes)
    → IsRing h rb ((a, x) ∷ ns)
    → ld_rbuffer_get_front rb h ≡ some (ok, x)
unfolding ld_rbuffer_get_front
ld_rbuffer_get_front_lem rb h a x ns ring = ground (arith, ring.counted, ring.ends.0, ring.ends.2.0)

free_loop-some :
    (fuel : ℕ) (rb : RBuffer) (h : Heap) (ns : Nodes)
    → IsRing h rb ns
    → length ns ≤ fuel
    → (rb' : RBuffer) × (h' : Heap) × (free_loop fuel rb h ≡ some (rb', h')) × (rb'.count ≡ 0)
unfolding free_loop
free_loop-some zero rb h [] ring f = (rb, h, refl, ring.counted)
free_loop-some zero rb h (n ∷ ns) ring f = absurd (omega arith)
free_loop-some (suc fuel) rb h [] ring f = (rb, h, ground (arith, ring.counted), ring.counted)
free_loop-some (suc fuel) rb h ((a, x) ∷ ns) ring f =
    let p = ld_rbuffer_pop-Popped rb h a x ns ring in
    let (rb', h', e, z) = free_loop-some fuel p.buffer p.heap ns p.ring (omega arith) in
    (rb', h', ground (arith, ring.counted, p.done, e), z)

-- On a ring ld_rbuffer_free terminates, with no access to a node that is not live, on an empty buffer.
pub ld_rbuffer_free-some :
    (rb : RBuffer) (h : Heap) (ns : Nodes)
    → IsRing h rb ns
    → (rb' : RBuffer) × (h' : Heap) × (ld_rbuffer_free rb h ≡ some (rb', h')) × (rb'.count ≡ 0)
unfolding ld_rbuffer_free
ld_rbuffer_free-some rb h ns ring =
    free_loop-some rb.count rb h ns ring (omega (arith, ring.counted))
