-- ===== src/Window/Deliver.antt =====
-- What window_in_get of src/ld_window.c gives.
use liteldacssdk.Prelude.{
  ℕ, zero, suc, ◌+◌, ◌%◌, ◌^◌, ◌≤◌, ◌<◌, ◌≡◌, refl, ap, ◌∙◌, ◌⊎◌, inl, inr, Bool, true, false,
  Option, none, some, arith, length, set, length-set, get_or-set, ◌==◌, if◌then◌else◌, ==_iff,
  Bool-cases,
}
use liteldacssdk.Buffer.{Buffer, bytes_at, init_buffer_unptr}
use liteldacssdk.Buffer.Copy.{contents}
use liteldacssdk.Buffer.Fresh.{full_buffer, clone_to_chunk-contents}
use liteldacssdk.Window.{Window, WindowItem, cleared}
use liteldacssdk.Window.In.{
  item_at, is_ready, ready_from, recv_slide, taken_out, take_ready, window_in_get, IsReceiver,
  count_processed_le, Passed, recv_slide-Passed,
}

-- Where number `k` of the window stands.
abbrev pub window_place : Window → ℕ → ℕ
window_place w k = (w.to_recv_start + k) % w.seq_sz

-- The first that is ready of those in a range of the window.
pub record FirstReady (w : Window) (i end : ℕ) (o : Option ℕ) : Type 0 where
  pub number : ℕ
  pub from : i ≤ number
  pub inside : number < end
  pub found : o ≡ some (window_place w number)
  pub ready : is_ready (item_at w (window_place w number)) ≡ true
  pub earlier : (k : ℕ) → i ≤ k → k < number → is_ready (item_at w (window_place w k)) ≡ false

pub ready_from-cases :
    (left i : ℕ) (w : Window)
    → ((ready_from left i w ≡ none)
        × ((k : ℕ) → i ≤ k → k < i + left → is_ready (item_at w (window_place w k)) ≡ false))
      ⊎ FirstReady w i (i + left) (ready_from left i w)
unfolding ready_from
ready_from-cases zero i w = inl (refl, λ k a b. absurd (omega arith))
ready_from-cases (suc left) i w = elim (Bool-cases (is_ready (item_at w (window_place w i)))) [
  | inl e ↦ inr (record {
    number = i;
    from = omega arith;
    inside = omega arith;
    found = rw e refl;
    ready = e;
    earlier = λ k a b. absurd (omega arith);
  })
  | inr e ↦
      let before : (k : ℕ) → k ≡ i → is_ready (item_at w (window_place w k)) ≡ false =
        λ k q. ap (λ j. is_ready (item_at w (window_place w j))) q ∙ e in
      elim (ready_from-cases left (i + 1) w) [
        | inl (nothing, all) ↦ inl (
          rw e nothing,
          λ k a b. elim (Bool-cases (k == i)) [
            | inl q ↦ before k ((==_iff k i).0 q)
            | inr q ↦ all k (ground arith) (omega arith)
          ],
        )
        | inr first ↦ inr (record {
          number = first.number;
          from = omega (arith, first.from);
          inside = omega (arith, first.inside);
          found = rw e first.found;
          ready = first.ready;
          earlier = λ k a b. elim (Bool-cases (k == i)) [
            | inl q ↦ before k ((==_iff k i).0 q)
            | inr q ↦ first.earlier k (ground arith) b
          ];
        })
      ]
]

-- A buffer whose bytes are there.
pub record Holds (item : WindowItem) (b : Buffer) : Type 0 where
  pub buffer : item.buf ≡ some b
  pub block : b.len ≤ length (bytes_at b.ptr)
  pub small : b.len + 1 < 2 ^ 64

-- What was given of the window: nothing when nothing is ready, or else a copy of the first that is,
-- which is ready no more.
pub data Given (w after : Window) : Option Buffer → Type 0 where
  nothing :
      ((k : ℕ) → k < w.win_size → is_ready (item_at w (window_place w k)) ≡ false)
      → Given w after none
  first :
      (b : Buffer) (k : ℕ)
      → k < w.win_size
      → is_ready (item_at w (window_place w k)) ≡ true
      → ((j : ℕ) → j < k → is_ready (item_at w (window_place w j)) ≡ false)
      → Holds (item_at w (window_place w k)) b
      → is_ready (item_at after (window_place w k)) ≡ false
      → Given w after (some (full_buffer (contents b)))

pub record Delivered (w : Window) (o : Option (Option Buffer × Window)) : Type 0 where
  pub buf : Option Buffer
  pub after : Window
  pub runs : o ≡ some (buf, after)
  pub given : Given w after buf
  pub receiver : IsReceiver after
  pub stops : (item_at after after.to_recv_start).is_processed ≡ false

-- The window with one item taken out.
abbrev pub taken : Window → ℕ → Window
taken w p = record w {
  items = set w.items p (record (item_at w p) { is_processed = true });
  avail_size = (w.avail_size + 1) % 2 ^ 64;
}

not_ready : (item : WindowItem) → item.is_processed ≡ true → is_ready item ≡ false
not_ready item e = ground arith

pub item_at-taken :
    (w : Window) (p : ℕ) → p < length w.items → (item_at (taken w p) p).is_processed ≡ true
item_at-taken w p h =
    let v : WindowItem = record (item_at w p) { is_processed = true } in
    let self : (p == p) ≡ true = (==_iff p p).1 refl in
    ap (λ item. item.is_processed)
      (get_or-set w.items p p v cleared h ∙ ap (λ (b : Bool). if b then v else item_at w p) self)

pub taken-IsReceiver : (w : Window) (p : ℕ) → IsReceiver w → IsReceiver (taken w p)
taken-IsReceiver w p v = record {
  items = length-set w.items p (record (item_at w p) { is_processed = true }) ∙ v.items;
  few = v.few;
  starts = v.starts;
  window = v.window;
}

module _ (calloc_gives : ℕ → Bool) (memory : (n : ℕ) → calloc_gives n ≡ true) where
  pub take_ready-taken :
      (w : Window) (p : ℕ) (b : Buffer)
      → Holds (item_at w p) b
      → take_ready calloc_gives w (some p) ≡ some (some (full_buffer (contents b)), taken w p)
  take_ready-taken w p b held =
      ap (taken_out calloc_gives w p) held.buffer
      ∙ rw (clone_to_chunk-contents calloc_gives memory init_buffer_unptr b held.block held.small)
          refl

  pub slid_after :
      (w w' : Window) (buf : Option Buffer)
      → take_ready calloc_gives w (ready_from w.win_size 0 w) ≡ some (buf, w')
      → IsReceiver w'
      → w'.seq_sz ≡ w.seq_sz
      → (s : Passed w' (recv_slide (w.seq_sz + 1) w')) × (window_in_get calloc_gives w
          ≡ some (buf, s.after))
  unfolding window_in_get
  slid_after w w' buf e v same_size =
      let s =
        recv_slide-Passed (w.seq_sz + 1) w' v
          (omega (arith, count_processed_le w'.items, v.items, same_size)) in
      (s, rw (e, s.runs) refl)

  -- window_in_get of a window with an item for each of at most 256 numbers, in which what was received
  -- whole and not taken out has its bytes, when memory does not run out: it ends without a fault; it
  -- gives a copy of the first such item of the window, which is none of them afterwards, or nothing
  -- when there is none; and the start moves to an item that was not taken out.
  pub window_in_get-Delivered :
      (w : Window)
      → IsReceiver w
      → ((k : ℕ)
          → k < w.win_size
          → is_ready (item_at w (window_place w k)) ≡ true
          → (b : Buffer) × Holds (item_at w (window_place w k)) b)
      → Delivered w (window_in_get calloc_gives w)
  window_in_get-Delivered w v held = elim (ready_from-cases w.win_size 0 w) [
    | inl (empty, none_ready) ↦
        let (s, runs) = slid_after w w none (ap (take_ready calloc_gives w) empty) v refl in
        record {
          buf = none;
          after = s.after;
          runs = runs;
          given = nothing (λ k h. none_ready k (omega arith) (omega arith));
          receiver = s.receiver;
          stops = s.stops;
        }
    | inr f ↦
        let inside : f.number < w.win_size = omega (arith, f.inside) in
        let (b, holds) = held f.number inside f.ready in
        let p = window_place w f.number in
        let p_in : p < length w.items = omega (arith, v.items, v.starts) in
        let (s, runs) =
          slid_after w (taken w p) (some (full_buffer (contents b)))
            (ap (take_ready calloc_gives w) f.found ∙ take_ready-taken w p b holds)
            (taken-IsReceiver w p v) refl in
        record {
          buf = some (full_buffer (contents b));
          after = s.after;
          runs = runs;
          given =
              first b f.number inside f.ready (λ j h. f.earlier j (omega arith) h) holds
                (elim (s.others p) [
                  | inl kept ↦
                      ap is_ready kept ∙ not_ready (item_at (taken w p) p) (item_at-taken w p p_in)
                  | inr (gone, was) ↦ ap is_ready gone
                ]);
          receiver = s.receiver;
          stops = s.stops;
        }
  ]
