-- ===== src/Window.antt =====
-- src/ld_window.c: the sliding windows over sequence numbers, which come round at `seq_sz`. The
-- mutex and the condition are not modelled: an operation that would wait for another thread, like a
-- fault, is `none`. `to_*_start` have eight bits, the sizes 64.
pub mod Range
pub mod Slide
pub mod In
pub mod Deliver
pub mod Out
pub mod Transfer
mod Tests
mod TransferTests
use liteldacssdk.Prelude.{
  ℕ, zero, suc, ◌+◌, ◌-◌, ◌/◌, ◌%◌, ◌^◌, Bool, true, false, ◌&&◌, ◌||◌, not, Option, none, some,
  List, [], get_elem?, set, replicate, ltb, leb, ◌==◌, if◌then◌else◌, ◌>>=◌,
}
use liteldacssdk.Err.{Err, ok, internal, invalid, null}
use liteldacssdk.Buffer.{Buffer, bytes_at, init_buffer_unptr, cat_to_buffer, clone_to_chunk}

-- `window_item_t`; `none` is the NULL buffer.
pub record WindowItem : Type 0 where
  pub cos : ℕ
  pub offset : ℕ
  pub buf : Option Buffer
  pub is_ack : Bool
  pub is_processed : Bool
  pub all_recv : Bool

-- What `memset` leaves.
abbrev pub cleared : WindowItem
cleared = record {
  cos = 0;
  offset = 0;
  buf = none;
  is_ack = false;
  is_processed = false;
  all_recv = false;
}

-- `window_t`
pub record Window : Type 0 where
  pub items : List WindowItem
  pub seq_sz : ℕ
  pub avail_size : ℕ
  pub win_size : ℕ
  pub to_ack_start : ℕ
  pub to_send_start : ℕ
  pub to_recv_start : ℕ
  pub avail_start : ℕ

-- `window_ctx_t`
pub record WindowCtx : Type 0 where
  pub buf : Buffer
  pub pid : ℕ
  pub cos : ℕ
  pub offset : ℕ
  pub is_rst : Bool
  pub is_lfr : Bool

-- A size less one, with the wrap-around of `size_t`.
abbrev pub pred_size : ℕ → ℕ
pred_size n = (n + (2 ^ 64 - 1)) % 2 ^ 64

abbrev pub window_end : Window → ℕ
window_end w = (w.to_ack_start + w.win_size) % w.seq_sz % 2 ^ 8

-- The allocations are taken to succeed.
pub init_window : ℕ → Window
init_window seq_size = record {
  items = replicate seq_size cleared;
  seq_sz = seq_size;
  avail_size = seq_size;
  win_size = seq_size / 2;
  to_ack_start = 0;
  to_send_start = 0;
  to_recv_start = 0;
  avail_start = 0;
}

-- The test of window_put_ctx, negated.
abbrev pub is_receivable : Window → ℕ → Bool
is_receivable w pid =
    let win_end = (w.to_recv_start + w.win_size) % w.seq_sz % 2 ^ 8 in
    leb w.to_recv_start pid && ltb pid win_end
    || ltb win_end w.to_recv_start && (ltb pid win_end || leb w.to_recv_start pid)

abbrev pub is_awaited : Window → ℕ → Bool
is_awaited w pid =
    leb w.to_ack_start pid && ltb pid w.to_send_start
    || ltb w.to_send_start w.to_ack_start && (leb w.to_ack_start pid || ltb pid w.to_send_start)

module _ (calloc_gives : ℕ → Bool) where
  -- The copy of the buffer takes a free place; with none free it waits.
  pub window_put : Window → ℕ → Buffer → Option (ℕ × Window)
  window_put w cos buf =
      if w.avail_size == 0
      then none
      else (get_elem? w.items w.avail_start >>= λ item.
          clone_to_chunk calloc_gives init_buffer_unptr buf.ptr buf.len >>= λ copy. some (
            w.avail_start,
            record w {
              items =
                  set w.items w.avail_start
                    (record item { cos = cos; buf = some copy; is_ack = false });
              avail_start = (w.avail_start + 1) % w.seq_sz % 2 ^ 8;
              avail_size = pred_size w.avail_size;
            },
          ))

  -- The last assignments of window_put_ctx.
  abbrev pub received : Window → WindowCtx → WindowItem → Buffer → Err × Window
  received w ctx item buf = (
    ok,
    record w {
      items =
          set w.items ctx.pid
            (record item { buf = some buf; all_recv = ctx.is_lfr; is_processed = false });
      avail_size = pred_size w.avail_size;
    },
  )

  abbrev pub add_fragment : Window → WindowCtx → WindowItem → Option Buffer → Option (Err × Window)
  add_fragment w ctx item none = some (null, record w { items = set w.items ctx.pid item })
  add_fragment w ctx item (some buf) =
      cat_to_buffer calloc_gives buf (bytes_at ctx.buf.ptr) ctx.buf.len >>= λ (status, buf').
      some (elim status [
        | ok ↦ received w ctx item buf'
        | _ ↦ (internal, record w { items = set w.items ctx.pid (record item { buf = some buf' }) })
      ])

  unfoldable pub window_put_ctx : Window → WindowCtx → Option (Err × Window)
  window_put_ctx w ctx =
      if not (is_receivable w ctx.pid)
      then some (invalid, w)
      else (get_elem? w.items ctx.pid >>= λ old.
          let item = record old { offset = ctx.offset % 2 ^ 8; cos = ctx.cos } in
          if ctx.is_rst
          then (clone_to_chunk calloc_gives init_buffer_unptr ctx.buf.ptr ctx.buf.len >>= λ buf.
              some (received w ctx item buf))
          else add_fragment w ctx item item.buf)

-- The loop of window_slide, as often as there are sequence numbers.
abbrev pub goes_on : Window → Bool
goes_on w =
    ltb w.to_ack_start w.to_send_start
    || ltb w.to_send_start w.to_ack_start && ltb (w.to_send_start + w.win_size) w.to_ack_start

abbrev pub slid : Window → Window
slid w = record w {
  items = set w.items w.to_ack_start cleared;
  to_ack_start = (w.to_ack_start + 1) % w.seq_sz % 2 ^ 8;
}

pub slide_from : ℕ → Window → Option Window
slide_from zero w = none
slide_from (suc rounds) w =
    let rest = slide_from rounds (slid w) in
    if goes_on w
    then (get_elem? w.items w.to_ack_start >>= λ item. if item.is_ack then rest else some w)
    else some w

pub window_slide : Window → Option Window
unfolding slide_from
window_slide w = slide_from (w.seq_sz + 1) w

pub window_ack_item : Window → ℕ → Option (Err × Window)
unfolding window_slide
window_ack_item w pid =
    if is_awaited w pid
    then (get_elem? w.items pid >>= λ item.
        window_slide (record w { items = set w.items pid (record item { is_ack = true }) })
        >>= λ w'. some (ok, w'))
    else some (invalid, w)

pub window_set_send_start : Window → ℕ → Window
window_set_send_start w pos = record w {
  to_send_start = pos;
  avail_start = pos;
  to_ack_start = pos;
}
