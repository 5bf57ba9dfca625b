-- ===== src/Window/Transfer.antt =====
-- An item from the sender's window of src/ld_window.c to the receiver's, and out of it.
use liteldacssdk.Prelude.{
  ℕ, ◌+◌, ◌%◌, ◌^◌, ◌≤◌, ◌<◌, ◌≡◌, refl, ap, ◌∙◌, inl, inr, Bool, true, false, some, List, [], ◌∷◌,
  ◌++◌, arith, length, get_elem?, set, take, length-append, length-set, length-take, get_or-set,
  get_elem?-eq-get_or, ltb, leb, ◌==◌, if◌then◌else◌, lt→ltb, ==_iff, Bool-cases, ◌>>=◌,
}
use native.Mathlib.Nat.{mod-eq_of_lt}
use liteldacssdk.Err.{ok}
use liteldacssdk.Buffer.{Buffer, bytes_at, sub_size, init_buffer_unptr, clone_to_chunk}
use liteldacssdk.Buffer.Copy.{contents}
use liteldacssdk.Buffer.Fresh.{full_buffer, clone_to_chunk-contents}
use liteldacssdk.Window.{
  Window, WindowItem, WindowCtx, cleared, pred_size, is_receivable, window_put_ctx,
}
use liteldacssdk.Window.Range.{distance, distance_ahead, is_receivable-distance}
use liteldacssdk.Window.In.{item_at, is_ready, ready_from, window_in_get, take_ready, IsReceiver}
use liteldacssdk.Window.Deliver.{
  window_place, ready_from-cases, Holds, taken, taken-IsReceiver, item_at-taken, take_ready-taken,
  slid_after,
}
use liteldacssdk.Window.Out.{next_place, put_item, check_item, window_check_get}

-- The next item to send, which was not sent yet, with its buffer.
pub record IsNext (w : Window) (b : Buffer) : Type 0 where
  pub items : length w.items ≡ w.seq_sz
  pub few : w.seq_sz ≤ 2 ^ 8
  pub starts : w.to_send_start < w.seq_sz
  pub waits : w.avail_size < w.seq_sz
  pub holds : Holds (item_at w w.to_send_start) b
  pub unsent : (item_at w w.to_send_start).offset ≡ 0

-- What is sent of it.
abbrev pub whole : Window → WindowItem → Buffer → WindowCtx
whole w item b = record {
  buf = full_buffer (contents b);
  pid = w.to_send_start;
  cos = item.cos;
  offset = b.len % 2 ^ 8;
  is_rst = true;
  is_lfr = true;
}

-- The window that has sent it.
abbrev pub sent : Window → WindowItem → Buffer → Window
sent w item b = record (put_item w (record item { offset = b.len % 2 ^ 8 })) {
  to_send_start = (w.to_send_start + 1) % w.seq_sz % 2 ^ 8;
  avail_size = (w.avail_size + 1) % 2 ^ 64;
}

length-contents : (b : Buffer) → b.len ≤ length (bytes_at b.ptr) → length (contents b) ≡ b.len
length-contents b h = omega (arith, length-take b.len (bytes_at b.ptr))

-- A copy of a copy.
contents-full_buffer : (bytes : List ℕ) → contents (full_buffer bytes) ≡ bytes
contents-full_buffer bytes = go bytes
  where
    go : (bytes : List ℕ) → take (length bytes) (bytes ++ 0 ∷ []) ≡ bytes
    go [] = refl
    go (b ∷ bytes) = ap (λ t. b ∷ t) (go bytes)

module _ (calloc_gives : ℕ → Bool) (memory : (n : ℕ) → calloc_gives n ≡ true) where
  clone_filled :
      (ch : Buffer) (bytes : List ℕ)
      → length bytes + 1 < 2 ^ 64
      → clone_to_chunk calloc_gives ch (some (bytes ++ 0 ∷ [])) (length bytes)
        ≡ some (full_buffer bytes)
  clone_filled ch bytes h =
      clone_to_chunk-contents calloc_gives memory ch (full_buffer bytes)
        (omega (arith, length-append bytes (0 ∷ []))) h
      ∙ ap (λ t. some (full_buffer t)) (contents-full_buffer bytes)

  check_item-whole :
      (w : Window) (item : WindowItem) (b : Buffer) (avail : ℕ)
      → w.avail_size < w.seq_sz
      → item.offset ≡ 0
      → b.len ≤ length (bytes_at b.ptr)
      → b.len + 1 < 2 ^ 64
      → b.len ≤ avail
      → check_item calloc_gives w item (some b) avail
        ≡ some (some (whole w item b), sub_size avail b.len, sent w item b)
  check_item-whole w item b avail waits unsent held small room =
      let fits : leb b.len avail ≡ true = ground arith in
      let some_wait : (w.avail_size == w.seq_sz) ≡ false = ground arith in
      let n : length (contents b) ≡ b.len = length-contents b held in
      let first_part : (item.offset == 0) ≡ true = (==_iff item.offset 0).1 unsent in
      rw
        (
          fits,
          some_wait,
          clone_to_chunk-contents calloc_gives memory init_buffer_unptr b held small,
          clone_filled init_buffer_unptr (contents b) (omega (arith, n)),
          first_part,
        )
        (ap (λ k. some (some (whole w item b), sub_size avail k, sent w item b)) n)

  window_check_get-whole :
      (w : Window) (b : Buffer) (avail : ℕ)
      → IsNext w b
      → b.len ≤ avail
      → window_check_get calloc_gives w avail
        ≡ some (
          some (whole w (item_at w w.to_send_start) b),
          sub_size avail b.len,
          sent w (item_at w w.to_send_start) b,
        )
  unfolding window_check_get
  window_check_get-whole w b avail v room =
      let item = item_at w w.to_send_start in
      let got : get_elem? w.items (next_place w) ≡ some item =
        ap (get_elem? w.items) (mod-eq_of_lt v.starts)
        ∙ get_elem?-eq-get_or w.items w.to_send_start cleared (omega (arith, v.items, v.starts)) in
      ap (λ o. o >>= λ p_item. check_item calloc_gives w p_item p_item.buf avail) got
      ∙ ap (λ o. check_item calloc_gives w item o avail) v.holds.buffer
      ∙ check_item-whole w item b avail v.waits v.unsent v.holds.block v.holds.small room

-- The receiver waits for number `pid` first.
pub record Awaits (w : Window) (pid : ℕ) : Type 0 where
  pub receiver : IsReceiver w
  pub room : 0 < w.win_size
  pub part : w.win_size < w.seq_sz
  pub next : w.to_recv_start ≡ pid

-- The item that holds a context that came whole.
abbrev pub holding : WindowItem → WindowCtx → Buffer → WindowItem
holding item ctx b = record item {
  offset = ctx.offset % 2 ^ 8;
  cos = ctx.cos;
  buf = some b;
  all_recv = true;
  is_processed = false;
}

abbrev pub holds_now : Window → WindowCtx → Buffer → Window
holds_now w ctx b = record w {
  items = set w.items ctx.pid (holding (item_at w ctx.pid) ctx b);
  avail_size = pred_size w.avail_size;
}

first_receivable : (w : Window) (pid : ℕ) → Awaits w pid → is_receivable w pid ≡ true
first_receivable w pid v =
    let r = v.receiver in
    let at_start : distance w.seq_sz w.to_recv_start pid ≡ 0 =
      distance_ahead w.seq_sz w.to_recv_start pid (omega (arith, v.next))
        (omega (arith, v.next, r.starts))
      ∙ omega (arith, v.next) in
    is_receivable-distance w pid r.few (omega (arith, v.next, r.starts)) r.starts v.part
    ∙ ap (λ d. ltb d w.win_size) at_start
    ∙ lt→ltb 0 w.win_size v.room

module _ (calloc_gives : ℕ → Bool) (memory : (n : ℕ) → calloc_gives n ≡ true) where
  window_put_ctx-whole :
      (w : Window) (ctx : WindowCtx) (bytes : List ℕ)
      → Awaits w ctx.pid
      → ctx.is_rst ≡ true
      → ctx.is_lfr ≡ true
      → ctx.buf ≡ full_buffer bytes
      → length bytes + 1 < 2 ^ 64
      → window_put_ctx calloc_gives w ctx ≡ some (ok, holds_now w ctx (full_buffer bytes))
  unfolding window_put_ctx
  window_put_ctx-whole w ctx bytes v first last carried small =
      let r = v.receiver in
      let inside : ctx.pid < w.seq_sz = omega (arith, v.next, r.starts) in
      let near : is_receivable w ctx.pid ≡ true = first_receivable w ctx.pid v in
      let got = get_elem?-eq-get_or w.items ctx.pid cleared (omega (arith, r.items, inside)) in
      let copy : clone_to_chunk calloc_gives init_buffer_unptr ctx.buf.ptr ctx.buf.len
          ≡ some (full_buffer bytes) =
        ap (λ (b : Buffer). clone_to_chunk calloc_gives init_buffer_unptr b.ptr b.len) carried
        ∙ clone_filled calloc_gives memory init_buffer_unptr bytes small in
      rw (near, got, first, copy, last) refl

-- The window that holds the item it waited for.
module _ (w : Window) (ctx : WindowCtx) (bytes : List ℕ) (v : Awaits w ctx.pid) where
  holds_now-IsReceiver : IsReceiver (holds_now w ctx (full_buffer bytes))
  holds_now-IsReceiver =
      let r = v.receiver in
      record {
        items =
            length-set w.items ctx.pid (holding (item_at w ctx.pid) ctx (full_buffer bytes))
            ∙ r.items;
        few = r.few;
        starts = r.starts;
        window = r.window;
      }

  item_at-holds_now :
      item_at (holds_now w ctx (full_buffer bytes)) ctx.pid
      ≡ holding (item_at w ctx.pid) ctx (full_buffer bytes)
  item_at-holds_now =
      let item = holding (item_at w ctx.pid) ctx (full_buffer bytes) in
      let r = v.receiver in
      let self : (ctx.pid == ctx.pid) ≡ true = (==_iff ctx.pid ctx.pid).1 refl in
      get_or-set w.items ctx.pid ctx.pid item cleared (omega (arith, v.next, r.items, r.starts))
      ∙ ap (λ (b : Bool). if b then item else item_at w ctx.pid) self

  first_place : window_place (holds_now w ctx (full_buffer bytes)) 0 ≡ ctx.pid
  first_place =
      ap (λ k. k % w.seq_sz) (add_zero w.to_recv_start ∙ v.next)
      ∙ mod-eq_of_lt (omega (arith, v.next, v.receiver.starts))
    where
      add_zero : (n : ℕ) → n + 0 ≡ n
      add_zero n = omega arith

  first_ready :
      is_ready (
        item_at
          (holds_now w ctx (full_buffer bytes))
          (window_place (holds_now w ctx (full_buffer bytes)) 0))
      ≡ true
  first_ready =
      ap (λ k. is_ready (item_at (holds_now w ctx (full_buffer bytes)) k)) first_place
      ∙ ap is_ready item_at-holds_now

  ready_from-first : ready_from w.win_size 0 (holds_now w ctx (full_buffer bytes)) ≡ some ctx.pid
  ready_from-first = elim (ready_from-cases w.win_size 0 (holds_now w ctx (full_buffer bytes))) [
    | inl (empty, none_ready) ↦
        let wrong = none_ready 0 (omega arith) (omega (arith, v.room)) in
        absurd (cc (first_ready, wrong))
    | inr f ↦ elim (Bool-cases (f.number == 0)) [
      | inl e ↦
          f.found
          ∙ ap (λ k. some (window_place (holds_now w ctx (full_buffer bytes)) k))
              ((==_iff f.number 0).0 e)
          ∙ ap some first_place
      | inr e ↦
          let wrong = f.earlier 0 (omega arith) (ground arith) in absurd (cc (first_ready, wrong))
    ]
  ]

-- From one window to the other, and out of it.
pub record Transferred (calloc_gives : ℕ → Bool) (sender receiver : Window) (b : Buffer) (avail : ℕ)
    : Type 0 where
  pub ctx : WindowCtx
  pub sender' : Window
  pub receiver' : Window
  pub after : Window
  pub sends :
      window_check_get calloc_gives sender avail ≡ some (some ctx, sub_size avail b.len, sender')
  pub moves_on : sender'.to_send_start ≡ (sender.to_send_start + 1) % sender.seq_sz % 2 ^ 8
  pub takes : window_put_ctx calloc_gives receiver ctx ≡ some (ok, receiver')
  pub gives : window_in_get calloc_gives receiver' ≡ some (some (full_buffer (contents b)), after)
  pub once : is_ready (item_at after ctx.pid) ≡ false
  pub waits : (item_at after after.to_recv_start).is_processed ≡ false

not_ready : (item : WindowItem) → item.is_processed ≡ true → is_ready item ≡ false
not_ready item e = ground arith

module _ (calloc_gives : ℕ → Bool) (memory : (n : ℕ) → calloc_gives n ≡ true) where
  -- An item whole: the sender has its next item, not sent yet, in a buffer of at most `avail` bytes,
  -- and the receiver waits for its number first, with a window of fewer numbers than there are. When
  -- memory does not run out, window_check_get gives a context and goes on to the next number,
  -- window_put_ctx takes it, and window_in_get then gives the sender's bytes; the item is not given
  -- again, and the receiver's start is one that was not taken out.
  pub window_in_get-window_check_get :
      (sender receiver : Window) (b : Buffer) (avail : ℕ)
      → IsNext sender b
      → b.len ≤ avail
      → Awaits receiver sender.to_send_start
      → Transferred calloc_gives sender receiver b avail
  window_in_get-window_check_get sender receiver b avail next room v =
      let ctx = whole sender (item_at sender sender.to_send_start) b in
      let n : length (contents b) ≡ b.len = length-contents b next.holds.block in
      let now = holds_now receiver ctx (full_buffer (contents b)) in
      let held : Holds (item_at now ctx.pid) (full_buffer (contents b)) = record {
        buffer = ap (λ item. item.buf) (item_at-holds_now receiver ctx (contents b) v);
        block = omega (arith, length-append (contents b) (0 ∷ []));
        small = omega (arith, n, next.holds.small);
      } in
      let inside : ctx.pid < length now.items = omega (
        arith,
        v.next,
        (holds_now-IsReceiver receiver ctx (contents b) v).items,
        v.receiver.starts,
      ) in
      let (s, runs) =
        slid_after calloc_gives memory now (taken now ctx.pid)
          (some (full_buffer (contents (full_buffer (contents b)))))
          (ap (take_ready calloc_gives now) (ready_from-first receiver ctx (contents b) v)
            ∙ take_ready-taken calloc_gives memory now ctx.pid (full_buffer (contents b)) held)
          (taken-IsReceiver now ctx.pid (holds_now-IsReceiver receiver ctx (contents b) v)) refl in
      record {
        ctx = ctx;
        sender' = sent sender (item_at sender sender.to_send_start) b;
        receiver' = now;
        after = s.after;
        sends = window_check_get-whole calloc_gives memory sender b avail next room;
        moves_on = refl;
        takes =
            window_put_ctx-whole calloc_gives memory receiver ctx (contents b) v refl refl refl
              (omega (arith, n, next.holds.small));
        gives =
            runs
            ∙ ap (λ t. some (some (full_buffer t), s.after)) (contents-full_buffer (contents b));
        once = elim (s.others ctx.pid) [
          | inl kept ↦
              ap is_ready kept
              ∙ not_ready (item_at (taken now ctx.pid) ctx.pid) (item_at-taken now ctx.pid inside)
          | inr (gone, was) ↦ ap is_ready gone
        ];
        waits = s.stops;
      }
