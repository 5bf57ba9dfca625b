-- ===== src/RBuffer/Push.antt =====
-- src/ld_rbuffer.c, ld_rbuffer_push_front and ld_rbuffer_push_back.
use liteldacssdk.Prelude.{
  ℕ, suc, ◌+◌, ◌≤◌, ◌<◌, ◌≡◌, refl, sym, ap, ◌∙◌, subst, ◌≢◌, Option, none, some, [], ◌∷◌, ◌++◌,
  arith, length, length-append,
}
use liteldacssdk.Err.{Err, ok, internal}
use liteldacssdk.RBuffer.{
  RBuffer, int_max, first_node, link_node, ld_rbuffer_push_front, ld_rbuffer_push_back,
}
use liteldacssdk.RBuffer.Store.{Heap, read, write, set_next, set_prev}
use liteldacssdk.RBuffer.Chain.{
  Nodes, back, Links, NotIn, Distinct, Links-cons, Links-NotIn, Links-append, back-append,
  set_next-Relinked, set_prev-Relinked, IsRing, NotIn-back, read_self,
}

-- What a push gives where there is room: LD_OK, and a well-formed ring of the new nodes.
pub record Pushed (r : Option (Err × RBuffer × Heap)) (size : ℕ) (ns : Nodes) : Type 0 where
  pub buffer : RBuffer
  pub heap : Heap
  pub done : r ≡ some (ok, buffer, heap)
  pub ring : IsRing heap buffer ns
  pub same_size : buffer.size ≡ size

Distinct-append : (a x : ℕ) (ns : Nodes) → NotIn a ns → Distinct ns → Distinct (ns ++ (a, x) ∷ [])
Distinct-append a x [] n d = (tt, tt)
Distinct-append a x ((b, y) ∷ ns) n d =
    (apart b ns (λ e. n.0 (sym e)) d.0, Distinct-append a x ns n.1 d.1)
  where
    apart : (b : ℕ) (ns : Nodes) → b ≢ a → NotIn b ns → NotIn b (ns ++ (a, x) ∷ [])
    apart b [] ne m = (ne, tt)
    apart b ((c, z) ∷ ns) ne m = (m.0, apart b ns ne m.1)

length-snoc : (ns : Nodes) (a x : ℕ) → length (ns ++ (a, x) ∷ []) ≡ suc (length ns)
length-snoc ns a x = omega (arith, length-append ns ((a, x) ∷ []))

module _ (malloc : Heap → ℕ) (malloc_fresh : (h : Heap) → read h (malloc h) ≡ none) where
  -- The heap after the new node is linked in between the tail and the head.
  record Linked (r : Option Heap) (new item : ℕ) (a x : ℕ) (ns : Nodes) : Type 0 where
    heap : Heap
    done : r ≡ some heap
    links : Links heap new ((a, x) ∷ ns) new
    node : read heap new ≡ some (record { item = item; prev = back a ns; next = a })
    apart : NotIn new ((a, x) ∷ ns)

  link_node-some :
      (rb : RBuffer) (item : ℕ) (h : Heap) (a t : ℕ) {h₁ h₂ : Heap}
      → rb.head ≡ some a
      → rb.tail ≡ some t
      → set_next (write h (malloc h) (record { item = item; prev = t; next = a })) t (malloc h)
        ≡ some h₁
      → set_prev h₁ a (malloc h) ≡ some h₂
      → link_node (malloc h) rb item h ≡ some h₂
  link_node-some rb item h a t eh et e₁ e₂ = simp (eh, et, e₁, e₂)

  link_node-Linked :
      (rb : RBuffer) (item : ℕ) (h : Heap) (a x : ℕ) (ns : Nodes)
      → IsRing h rb ((a, x) ∷ ns)
      → Linked (link_node (malloc h) rb item h) (malloc h) item a x ns
  link_node-Linked rb item h a x ns ring =
      let new = malloc h in
      let tail = back a ns in
      let h₀ = write h new (record { item = item; prev = tail; next = a }) in
      let apart = Links-NotIn h tail a new ((a, x) ∷ ns) (malloc_fresh h) ring.ends.2 in
      let l₀ =
        Links-cons h tail a new (some (record { item = item; prev = tail; next = a })) ((a, x) ∷ ns)
          apart ring.ends.2 in
      let r₁ = set_next-Relinked h₀ tail a new a x ns l₀ ring.distinct in
      let r₂ = set_prev-Relinked r₁.heap tail new new a x ns r₁.links ring.distinct.0 in
      record {
        heap = r₂.heap;
        done = link_node-some rb item h a tail ring.ends.0 ring.ends.1 r₁.done r₂.done;
        links = r₂.links;
        node =
            r₂.others new (λ e. apart.0 (sym e))
            ∙ r₁.others new (λ e. NotIn-back new a ns apart.0 apart.1 (sym e))
            ∙ read_self h new _;
        apart = apart;
      }

  -- With the first node the two pushes are one: the node points to itself.
  first_node-Pushed :
      (rb : RBuffer) (item : ℕ) (h : Heap)
      → rb.count ≡ 0
      → 0 < rb.size
      → Pushed (first_node (malloc h) rb item h) rb.size ((malloc h, item) ∷ [])
  first_node-Pushed rb item h e room = record {
    buffer = record rb { head = some (malloc h); tail = some (malloc h); count = rb.count + 1 };
    heap = _;
    done = refl;
    ring = record {
      counted = omega arith;
      bounded = omega arith;
      ends = (refl, refl, (read_self h (malloc h) _, tt));
      distinct = (tt, tt);
    };
    same_size = refl;
  }

  first_branch :
      (push : Option (Err × RBuffer × Heap)) (rb : RBuffer) (item : ℕ) (h : Heap)
      → push ≡ first_node (malloc h) rb item h
      → rb.count ≡ 0
      → 0 < rb.size
      → Pushed push rb.size ((malloc h, item) ∷ [])
  first_branch push rb item h e z room =
      subst (λ r. Pushed r rb.size ((malloc h, item) ∷ [])) (sym e)
        (first_node-Pushed rb item h z room)

  -- On a ring with room, of less than 2^31 - 1 items, ld_rbuffer_push_back puts the item at its end,
  -- and keeps it a ring; malloc gives the node.
  pub ld_rbuffer_push_back-Pushed :
      (rb : RBuffer) (item : ℕ) (h : Heap) (ns : Nodes)
      → IsRing h rb ns
      → length ns < rb.size
      → length ns < int_max
      → Pushed
          (ld_rbuffer_push_back (λ m. some (malloc m)) rb item h)
          rb.size
          (ns ++ (malloc h, item) ∷ [])
  unfolding ld_rbuffer_push_back
  ld_rbuffer_push_back-Pushed rb item h [] ring room small =
      first_branch _ rb item h (ground (arith, ring.counted)) ring.counted room
  ld_rbuffer_push_back-Pushed rb item h ((a, x) ∷ ns) ring room small =
      let new = malloc h in
      let tail = back a ns in
      let l = link_node-Linked rb item h a x ns ring in
      record {
        buffer = record rb { tail = some new; count = rb.count + 1 };
        heap = l.heap;
        done = ground (arith, ring.counted, l.done);
        ring = record {
          counted = omega (arith, length-snoc ns new item, ring.counted);
          bounded = omega (arith, length-snoc ns new item);
          ends = (
            ring.ends.0,
            ap some (sym (back-append a ns new item)),
            subst (λ p. Links l.heap p ((a, x) ∷ ns ++ (new, item) ∷ []) a)
                (sym (back-append a ns new item))
                (Links-append l.heap new a ((a, x) ∷ ns) ((new, item) ∷ []) l.links (l.node, tt)),
          );
          distinct = Distinct-append new item ((a, x) ∷ ns) l.apart ring.distinct;
        };
        same_size = refl;
      }

  -- A push with room puts the item at the front of such a ring, and keeps it a ring.
  pub ld_rbuffer_push_front-Pushed :
      (rb : RBuffer) (item : ℕ) (h : Heap) (ns : Nodes)
      → IsRing h rb ns
      → length ns < rb.size
      → length ns < int_max
      → Pushed
          (ld_rbuffer_push_front (λ m. some (malloc m)) rb item h)
          rb.size
          ((malloc h, item) ∷ ns)
  unfolding ld_rbuffer_push_front
  ld_rbuffer_push_front-Pushed rb item h [] ring room small =
      first_branch _ rb item h (ground (arith, ring.counted)) ring.counted room
  ld_rbuffer_push_front-Pushed rb item h ((a, x) ∷ ns) ring room small =
      let l = link_node-Linked rb item h a x ns ring in
      record {
        buffer = record rb { head = some (malloc h); count = rb.count + 1 };
        heap = l.heap;
        done = ground (arith, ring.counted, l.done);
        ring = record {
          counted = omega (arith, ring.counted);
          bounded = omega arith;
          ends = (refl, ring.ends.1, (l.node, l.links));
          distinct = (l.apart, ring.distinct);
        };
        same_size = refl;
      }

  -- A full buffer refuses both pushes, and nothing changes.
  pub push-full :
      (rb : RBuffer) (item : ℕ) (h : Heap)
      → rb.size ≤ rb.count
      → (ld_rbuffer_push_back (λ m. some (malloc m)) rb item h ≡ some (internal, rb, h))
        × (ld_rbuffer_push_front (λ m. some (malloc m)) rb item h ≡ some (internal, rb, h))
  unfolding ld_rbuffer_push_back ld_rbuffer_push_front
  push-full rb item h full = ground arith
