-- ===== src/RBuffer/Chain.antt =====
-- The shape of the list: doubly linked segments, and how single pointer writes change them.
use liteldacssdk.Prelude.{
  ℕ, ◌≤◌, ◌≡◌, refl, sym, ap, ◌∙◌, subst, ◌≢◌, Option, none, some, List, [], ◌∷◌, ◌++◌, arith,
  length,
}
use liteldacssdk.RBuffer.{RBuffer}
use liteldacssdk.RBuffer.Store.{Node, Heap, read, write, set_next, set_prev}

-- The nodes in order: address and item.
abbrev pub Nodes : Type 0
Nodes = List (ℕ × ℕ)

abbrev pub front : Nodes → ℕ → ℕ
front [] q = q
front ((a, x) ∷ ns) q = a

abbrev pub back : ℕ → Nodes → ℕ
back p [] = p
back p ((a, x) ∷ ns) = back a ns

abbrev pub items : Nodes → List ℕ
items [] = []
items ((a, x) ∷ ns) = x ∷ items ns

-- The segment `ns` of live nodes, entered from `p` and left towards `q`.
abbrev pub Links : Heap → ℕ → Nodes → ℕ → Type 0
Links h p [] q = Unit {0}
Links h p ((a, x) ∷ ns) q =
    (read h a ≡ some (record { item = x; prev = p; next = front ns q })) × Links h a ns q

abbrev pub NotIn : ℕ → Nodes → Type 0
NotIn a [] = Unit {0}
NotIn a ((b, x) ∷ ns) = (a ≢ b) × NotIn a ns

abbrev pub Distinct : Nodes → Type 0
Distinct [] = Unit {0}
Distinct ((a, x) ∷ ns) = NotIn a ns × Distinct ns

pub read_ne : (h : Heap) (a b : ℕ) (o : Option Node) → a ≢ b → read ((a, o) ∷ h) b ≡ read h b
read_ne h a b o ne = ground arith

pub read_self : (h : Heap) (a : ℕ) (o : Option Node) → read ((a, o) ∷ h) a ≡ o
read_self h a o = ground arith

-- A write, or a release, elsewhere leaves a segment alone.
pub Links-cons :
    (h : Heap) (p q a : ℕ) (o : Option Node) (ns : Nodes)
    → NotIn a ns
    → Links h p ns q
    → Links ((a, o) ∷ h) p ns q
Links-cons h p q a o [] d l = tt
Links-cons h p q a o ((b, x) ∷ ns) d l =
    (read_ne h a b o d.0 ∙ l.0, Links-cons h b q a o ns d.1 l.1)

-- An address that is not live is in no segment.
pub Links-NotIn :
    (h : Heap) (p q a : ℕ) (ns : Nodes) → read h a ≡ none → Links h p ns q → NotIn a ns
Links-NotIn h p q a [] e l = tt
Links-NotIn h p q a ((b, x) ∷ ns) e l = (differ, Links-NotIn h b q a ns e l.1)
  where
    differ : a ≡ b → ⊥
    differ eq = cc (subst (λ c. read h c ≡ none) eq e)

pub Links-append :
    (h : Heap) (p q : ℕ) (ns ms : Nodes)
    → Links h p ns (front ms q)
    → Links h (back p ns) ms q
    → Links h p (ns ++ ms) q
Links-append h p q [] ms l m = m
Links-append h p q ((a, x) ∷ ns) ms l m = (
  l.0 ∙ ap (λ t. some (record { item = x; prev = p; next = t })) (joined ns),
  Links-append h a q ns ms l.1 m,
)
  where
    joined : (ns : Nodes) → front ns (front ms q) ≡ front (ns ++ ms) q
    joined [] = refl
    joined ((b, y) ∷ ns) = refl

pub back-append : (p : ℕ) (ns : Nodes) (a x : ℕ) → back p (ns ++ (a, x) ∷ []) ≡ a
back-append p [] a x = refl
back-append p ((b, y) ∷ ns) a x = back-append b ns a x

pub NotIn-back : (a b : ℕ) (ns : Nodes) → a ≢ b → NotIn a ns → a ≢ back b ns
NotIn-back a b [] ne d = ne
NotIn-back a b ((c, y) ∷ ns) ne d = NotIn-back a c ns d.0 d.1

-- What a pointer write gives: a heap in which the segment has its new end, and which reads as
-- before at every other address.
pub record Relinked (r : Option Heap) (h : Heap) (at p : ℕ) (ns : Nodes) (q : ℕ) : Type 0 where
  pub heap : Heap
  pub done : r ≡ some heap
  pub links : Links heap p ns q
  pub others : (b : ℕ) → at ≢ b → read heap b ≡ read h b

-- `tail->next = q'`
pub set_next-Relinked :
    (h : Heap) (p q q' a x : ℕ) (ns : Nodes)
    → Links h p ((a, x) ∷ ns) q
    → Distinct ((a, x) ∷ ns)
    → Relinked (set_next h (back a ns) q') h (back a ns) p ((a, x) ∷ ns) q'
unfolding set_next
set_next-Relinked h p q q' a x [] l d = rw l.0 (record {
  heap = write h a (record { item = x; prev = p; next = q' });
  done = refl;
  links = (read_self h a _, tt);
  others = λ b ne. read_ne h a b _ ne;
})
set_next-Relinked h p q q' a x ((b, y) ∷ ns) l d =
    let rest = set_next-Relinked h a q q' b y ns l.1 d.1 in
    record {
      heap = rest.heap;
      done = rest.done;
      links = (rest.others a (λ e. NotIn-back a b ns d.0.0 d.0.1 (sym e)) ∙ l.0, rest.links);
      others = rest.others;
    }

-- `head->prev = p'`
pub set_prev-Relinked :
    (h : Heap) (p q p' a x : ℕ) (ns : Nodes)
    → Links h p ((a, x) ∷ ns) q
    → NotIn a ns
    → Relinked (set_prev h a p') h a p' ((a, x) ∷ ns) q
unfolding set_prev
set_prev-Relinked h p q p' a x ns l d = rw l.0 (record {
  heap = write h a (record { item = x; prev = p'; next = front ns q });
  done = refl;
  links = (read_self h a _, Links-cons h a q a _ ns d l.1);
  others = λ b ne. read_ne h a b _ ne;
})

-- The buffer's own fields against the nodes of its ring.
abbrev pub Ends : Heap → RBuffer → Nodes → Type 0
Ends h rb [] = (rb.head ≡ none) × (rb.tail ≡ none)
Ends h rb ((a, x) ∷ ns) =
    (rb.head ≡ some a) × (rb.tail ≡ some (back a ns)) × Links h (back a ns) ((a, x) ∷ ns) a

-- `rb` is a well-formed ring of the nodes `ns`, oldest first, within its capacity.
pub record IsRing (h : Heap) (rb : RBuffer) (ns : Nodes) : Type 0 where
  pub counted : rb.count ≡ length ns
  pub bounded : length ns ≤ rb.size
  pub ends : Ends h rb ns
  pub distinct : Distinct ns
