-- ===== src/RBuffer/Walk.antt =====
-- src/ld_rbuffer.c, the two walks round the ring.
use liteldacssdk.Prelude.{
  ℕ, suc, ◌≡◌, refl, Bool, Option, some, List, [], ◌∷◌, arith, length, suc-eq-zero,
}
use liteldacssdk.Deque
use liteldacssdk.RBuffer.{
  RBuffer, items_from, ring_buffer_traverse, exist_from, ld_rbuffer_check_exist,
}
use liteldacssdk.RBuffer.Store.{Heap}
use liteldacssdk.RBuffer.Chain.{Nodes, front, back, items, Links, IsRing}

items_from-some :
    (h : Heap) (p q : ℕ) (ns : Nodes)
    → Links h p ns q
    → items_from (length ns) (front ns q) h ≡ some (items ns)
unfolding items_from
items_from-some h p q [] l = refl
items_from-some h p q ((a, x) ∷ ns) l = rw (l.0, items_from-some h a q ns l.1) refl

exist_from-some :
    (factor : ℕ → ℕ → Bool) (ptr : ℕ) (h : Heap) (p q : ℕ) (ns : Nodes)
    → Links h p ns q
    → exist_from factor ptr (length ns) (front ns q) h ≡ some (Deque.exist factor ptr (items ns))
unfolding exist_from Deque.exist
exist_from-some factor ptr h p q [] l = refl
exist_from-some factor ptr h p q ((a, x) ∷ ns) l =
    ground (arith, l.0, exist_from-some factor ptr h a q ns l.1)

traverse-items_from :
    (rb : RBuffer) (h : Heap) (a n : ℕ) {r : Option (List ℕ)}
    → rb.count ≡ suc n
    → rb.head ≡ some a
    → items_from (suc n) a h ≡ r
    → ring_buffer_traverse rb h ≡ r
unfolding ring_buffer_traverse
traverse-items_from rb h a n e eh er = simp (e, eh, suc-eq-zero) er

check_exist-exist_from :
    (rb : RBuffer) (ptr : ℕ) (factor : ℕ → ℕ → Bool) (h : Heap) (a n : ℕ) {r : Option Bool}
    → rb.count ≡ suc n
    → rb.head ≡ some a
    → exist_from factor ptr (suc n) a h ≡ r
    → ld_rbuffer_check_exist rb ptr factor h ≡ r
unfolding ld_rbuffer_check_exist
check_exist-exist_from rb ptr factor h a n e eh er = simp (e, eh, suc-eq-zero) er

-- On a ring, ring_buffer_traverse calls back on every item once, oldest first.
pub ring_buffer_traverse-some :
    (rb : RBuffer) (h : Heap) (ns : Nodes)
    → IsRing h rb ns
    → ring_buffer_traverse rb h ≡ some (items ns)
unfolding ring_buffer_traverse
ring_buffer_traverse-some rb h [] ring = ground (arith, ring.counted)
ring_buffer_traverse-some rb h ((a, x) ∷ ns) ring =
    traverse-items_from rb h a (length ns) ring.counted ring.ends.0
      (items_from-some h (back a ns) a ((a, x) ∷ ns) ring.ends.2)

-- ld_rbuffer_check_exist tells whether the comparison holds of some item.
pub ld_rbuffer_check_exist-some :
    (rb : RBuffer) (ptr : ℕ) (factor : ℕ → ℕ → Bool) (h : Heap) (ns : Nodes)
    → IsRing h rb ns
    → ld_rbuffer_check_exist rb ptr factor h ≡ some (Deque.exist factor ptr (items ns))
unfolding ld_rbuffer_check_exist Deque.exist
ld_rbuffer_check_exist-some rb ptr factor h [] ring = ground (arith, ring.counted)
ld_rbuffer_check_exist-some rb ptr factor h ((a, x) ∷ ns) ring =
    check_exist-exist_from rb ptr factor h a (length ns) ring.counted ring.ends.0
      (exist_from-some factor ptr h (back a ns) a ((a, x) ∷ ns) ring.ends.2)
