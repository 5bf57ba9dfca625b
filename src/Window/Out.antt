-- ===== src/Window/Out.antt =====
-- window_check_get of src/ld_window.c with window_out_get and window_out_get_frag: what is sent of the
-- next item, all of it or as much as there is room for. Room is the `int64_t` as the `size_t` that it
-- is compared as. `none` is a fault; a copy from behind a block is one.
use liteldacssdk.Prelude.{
  ℕ, ◌+◌, ◌%◌, ◌^◌, Bool, true, false, Option, none, some, get_elem?, set, drop, leb, ◌==◌,
  if◌then◌else◌, ◌>>=◌,
}
use liteldacssdk.Buffer.{Buffer, bytes_at, sub_size, init_buffer_unptr, clone_to_chunk}
use liteldacssdk.Window.{Window, WindowItem, WindowCtx, cleared}

abbrev pub next_place : Window → ℕ
next_place w = w.to_send_start % w.seq_sz

-- `w->items[...]` is written back.
abbrev pub put_item : Window → WindowItem → Window
put_item w item = record w { items = set w.items (next_place w) item }

module _ (calloc_gives : ℕ → Bool) where
  -- The whole buffer, whatever was sent of it; the length is cut to eight bits in the item.
  abbrev pub window_out_get : Window → WindowItem → Buffer → Option (Option WindowItem × Window)
  window_out_get w p_item b =
      if w.avail_size == w.seq_sz
      then some (none, w)
      else (let item = record p_item { offset = b.len % 2 ^ 8 } in
          clone_to_chunk calloc_gives init_buffer_unptr b.ptr b.len >>= λ buf. some (
            some (record item { buf = some buf }),
            record (put_item w item) {
              to_send_start = (w.to_send_start + 1) % w.seq_sz % 2 ^ 8;
              avail_size = (w.avail_size + 1) % 2 ^ 64;
            },
          ))

  -- A run of `sz` bytes behind what was sent; the place is cut to eight bits.
  abbrev pub window_out_get_frag :
      Window → WindowItem → Buffer → ℕ → Option (Option WindowItem × Window)
  window_out_get_frag w p_item b sz =
      if w.avail_size == w.seq_sz
      then some (none, w)
      else (let offset = (p_item.offset + sz) % 2 ^ 8 in
          clone_to_chunk calloc_gives init_buffer_unptr (some (drop p_item.offset (bytes_at b.ptr)))
            sz
          >>= λ buf. some (
            some (record cleared { cos = p_item.cos; buf = some buf; offset = offset }),
            put_item w (record p_item { offset = offset }),
          ))

  abbrev pub pop_out : Window → WindowItem → Bool → WindowItem → Buffer → Option WindowCtx
  pop_out w p_item is_lfr item b =
      clone_to_chunk calloc_gives init_buffer_unptr b.ptr b.len >>= λ buf. some (record {
        buf = buf;
        pid = w.to_send_start;
        cos = item.cos;
        offset = item.offset;
        is_rst = p_item.offset == 0;
        is_lfr = is_lfr;
      })

  -- The context of what was taken, and the room that is left.
  abbrev pub popped :
      Window
      → WindowItem
      → Bool
      → ℕ
      → Option WindowItem × Window
      → Option (Option WindowCtx × ℕ × Window)
  popped w p_item is_lfr avail (none, w') = some (none, avail, w')
  popped w p_item is_lfr avail (some item, w') = item.buf >>= λ b.
      pop_out w p_item is_lfr item b >>= λ ctx.
      some (some ctx, (if is_lfr then sub_size avail b.len else avail), w')

  abbrev pub check_item :
      Window → WindowItem → Option Buffer → ℕ → Option (Option WindowCtx × ℕ × Window)
  check_item w p_item none avail = some (none, avail, w)
  check_item w p_item (some b) avail =
      if leb b.len avail
      then (window_out_get w p_item b >>= λ r. popped w p_item true avail r)
      else (window_out_get_frag w p_item b avail >>= λ r. popped w p_item false avail r)

  -- NULL, or a context, with the room that is left.
  unfoldable pub window_check_get : Window → ℕ → Option (Option WindowCtx × ℕ × Window)
  window_check_get w avail =
      get_elem? w.items (next_place w) >>= λ p_item. check_item w p_item p_item.buf avail
