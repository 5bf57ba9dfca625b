-- ===== src/Window/In.antt =====
-- window_in_get of src/ld_window.c: the first item that was received whole, and the slide over what
-- was taken out.
use liteldacssdk.Prelude.{
  ℕ, zero, suc, ◌+◌, ◌%◌, ◌^◌, ◌≤◌, ◌<◌, ◌≡◌, refl, sym, ap, ◌∙◌, ◌⊎◌, inl, inr, Bool, true, false,
  ◌&&◌, not, Option, none, some, List, [], ◌∷◌, arith, length, get_elem?, set, get_or, length-set,
  get_or-set, get_elem?-eq-get_or, ◌==◌, if◌then◌else◌, ==_iff, Bool-cases, ◌>>=◌,
}
use liteldacssdk.Buffer.{Buffer, init_buffer_unptr, clone_to_chunk}
use liteldacssdk.Window.{Window, WindowItem, cleared}

abbrev pub item_at : Window → ℕ → WindowItem
item_at w k = get_or w.items k cleared

abbrev pub is_ready : WindowItem → Bool
is_ready item = item.all_recv && not item.is_processed

-- The place of the first that is ready, of `left` items from number `i` of the window on.
unfoldable pub ready_from : ℕ → ℕ → Window → Option ℕ
ready_from zero i w = none
ready_from (suc left) i w =
    let rest = ready_from left (i + 1) w in
    let place = (w.to_recv_start + i) % w.seq_sz in
    if is_ready (item_at w place) then some place else rest

abbrev pub passed : Window → Window
passed w = record w {
  items = set w.items w.to_recv_start cleared;
  to_recv_start = (w.to_recv_start + 1) % w.seq_sz % 2 ^ 8;
}

-- The slide, with `rounds` of it at most.
unfoldable pub recv_slide : ℕ → Window → Option Window
recv_slide zero w = none
recv_slide (suc rounds) w =
    let rest = recv_slide rounds (passed w) in
    get_elem? w.items w.to_recv_start >>= λ item. if item.is_processed then rest else some w

module _ (calloc_gives : ℕ → Bool) where
  -- The copy that is given; `none` is the buffer of an item that has none.
  abbrev pub taken_out : Window → ℕ → Option Buffer → Option (Option Buffer × Window)
  taken_out w place none = none
  taken_out w place (some b) = clone_to_chunk calloc_gives init_buffer_unptr b.ptr b.len >>= λ buf.
      some (
        some buf,
        record w {
          items = set w.items place (record (item_at w place) { is_processed = true });
          avail_size = (w.avail_size + 1) % 2 ^ 64;
        },
      )

  abbrev pub take_ready : Window → Option ℕ → Option (Option Buffer × Window)
  take_ready w none = some (none, w)
  take_ready w (some place) = taken_out w place (item_at w place).buf

  unfoldable pub window_in_get : Window → Option (Option Buffer × Window)
  unfolding ready_from recv_slide
  window_in_get w = take_ready w (ready_from w.win_size 0 w) >>= λ (buf, w').
      recv_slide (w.seq_sz + 1) w' >>= λ w''. some (buf, w'')

-- A window that receives: an item for each number, which have eight bits.
pub record IsReceiver (w : Window) : Type 0 where
  pub items : length w.items ≡ w.seq_sz
  pub few : w.seq_sz ≤ 2 ^ 8
  pub starts : w.to_recv_start < w.seq_sz
  pub window : w.win_size ≤ w.seq_sz

-- How many items were taken out and not passed.
abbrev one_if : Bool → ℕ
one_if true = 1
one_if false = 0

pub count_processed : List WindowItem → ℕ
count_processed [] = 0
count_processed (item ∷ items) = one_if item.is_processed + count_processed items

count_processed-set :
    (items : List WindowItem) (i : ℕ)
    → i < length items
    → (get_or items i cleared).is_processed ≡ true
    → count_processed (set items i cleared) + 1 ≡ count_processed items
unfolding count_processed
count_processed-set [] i h e = absurd (omega arith)
count_processed-set (item ∷ items) zero h e = omega (arith, ap one_if e)
count_processed-set (item ∷ items) (suc i) h e =
    omega (arith, count_processed-set items i (omega arith) e)

pub count_processed_le : (items : List WindowItem) → count_processed items ≤ length items
unfolding count_processed
count_processed_le [] = omega arith
count_processed_le (item ∷ items) = elim (Bool-cases item.is_processed) [
  | inl e ↦ omega (arith, ap one_if e, count_processed_le items)
  | inr e ↦ omega (arith, ap one_if e, count_processed_le items)
]

-- The start moved to an item that was not taken out; every item was cleared after it was taken out,
-- or is as it was.
pub record Passed (w : Window) (o : Option Window) : Type 0 where
  pub after : Window
  pub runs : o ≡ some after
  pub receiver : IsReceiver after
  pub stops : (item_at after after.to_recv_start).is_processed ≡ false
  pub others :
      (k : ℕ)
      → (item_at after k ≡ item_at w k)
        ⊎ (item_at after k ≡ cleared) × ((item_at w k).is_processed ≡ true)
  pub avail_same : after.avail_size ≡ w.avail_size

passed-IsReceiver : (w : Window) → IsReceiver w → IsReceiver (passed w)
passed-IsReceiver w v = record {
  items = length-set w.items w.to_recv_start cleared ∙ v.items;
  few = v.few;
  starts = omega (arith, v.starts, v.few);
  window = v.window;
}

item_at-passed :
    (w : Window) (k : ℕ)
    → IsReceiver w
    → item_at (passed w) k ≡ (if w.to_recv_start == k then cleared else item_at w k)
item_at-passed w k v =
    get_or-set w.items w.to_recv_start k cleared cleared (omega (arith, v.items, v.starts))

pub recv_slide-Passed :
    (rounds : ℕ) (w : Window)
    → IsReceiver w
    → count_processed w.items < rounds
    → Passed w (recv_slide rounds w)
unfolding recv_slide
recv_slide-Passed zero w v h = absurd (omega arith)
recv_slide-Passed (suc rounds) w v h =
    let inside : w.to_recv_start < length w.items = omega (arith, v.items, v.starts) in
    let got = get_elem?-eq-get_or w.items w.to_recv_start cleared inside in
    elim (Bool-cases (item_at w w.to_recv_start).is_processed) [
      | inr e ↦ record {
        after = w;
        runs = rw (got, e) refl;
        receiver = v;
        stops = e;
        others = λ k. inl refl;
        avail_same = refl;
      }
      | inl e ↦
          let later =
            recv_slide-Passed rounds (passed w) (passed-IsReceiver w v)
              (omega (arith, count_processed-set w.items w.to_recv_start inside e)) in
          record {
            after = later.after;
            runs = rw (got, e) later.runs;
            receiver = later.receiver;
            stops = later.stops;
            others = λ k. elim (Bool-cases (w.to_recv_start == k)) [
              | inl here ↦
                  let eq : w.to_recv_start ≡ k = (==_iff w.to_recv_start k).0 here in
                  let gone : item_at (passed w) k ≡ cleared =
                    item_at-passed w k v ∙ ap (λ b. if b then cleared else item_at w k) here in
                  let was : (item_at w k).is_processed ≡ true =
                    ap (λ j. (item_at w j).is_processed) (sym eq) ∙ e in
                  elim (later.others k) [ inl s ↦ inr (s ∙ gone, was) | inr (s, p) ↦ inr (s, was) ]
              | inr away ↦
                  let same_item : item_at (passed w) k ≡ item_at w k =
                    item_at-passed w k v ∙ ap (λ b. if b then cleared else item_at w k) away in
                  elim (later.others k) [
                    | inl s ↦ inl (s ∙ same_item)
                    | inr (s, p) ↦ inr (s, ap (λ item. item.is_processed) (sym same_item) ∙ p)
                  ]
            ];
            avail_same = later.avail_same;
          }
    ]
