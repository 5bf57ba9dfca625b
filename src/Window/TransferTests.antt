-- ===== src/Window/TransferTests.antt =====
-- Windows of src/ld_window.c with four numbers: an item from one to the other, and in fragments.
use liteldacssdk.Prelude.{
  ℕ, zero, suc, ◌<◌, ◌≡◌, refl, sym, ◌∙◌, Bool, true, false, Option, none, some, [], ◌∷◌, arith,
  length,
}
use liteldacssdk.Buffer.{Buffer, clone_to_chunk, alloc_buffer, clone_to_buffer}
use liteldacssdk.Buffer.Fresh.{full_buffer}
use liteldacssdk.Window.{Window, WindowCtx, cleared}
use liteldacssdk.Window.In.{item_at, is_ready, window_in_get, IsReceiver}
use liteldacssdk.Window.Deliver.{window_place, Holds, Delivered, window_in_get-Delivered}
use liteldacssdk.Window.Out.{window_check_get}
use liteldacssdk.Window.Transfer.{IsNext, Awaits, Transferred, window_in_get-window_check_get}

abbrev bytes : Buffer
bytes = full_buffer (11 ∷ 12 ∷ 13 ∷ 14 ∷ [])

-- Number 1 is the next to send.
abbrev sender : Window
sender = record {
  items = cleared ∷ record cleared { cos = 3; buf = some bytes } ∷ cleared ∷ cleared ∷ [];
  seq_sz = 4;
  avail_size = 3;
  win_size = 2;
  to_ack_start = 0;
  to_send_start = 1;
  to_recv_start = 0;
  avail_start = 2;
}

abbrev receiver : Window
receiver = record sender {
  items = cleared ∷ cleared ∷ cleared ∷ cleared ∷ [];
  avail_size = 4;
  to_send_start = 0;
  to_recv_start = 1;
}

-- Number 2 was received before number 1.
abbrev ahead : Window
ahead = record receiver {
  items = cleared ∷ cleared ∷ record cleared { buf = some bytes; all_recv = true } ∷ cleared ∷ [];
}

bytes-IsNext : IsNext sender bytes
bytes-IsNext = record {
  items = refl;
  few = omega arith;
  starts = omega arith;
  waits = omega arith;
  holds = record { buffer = refl; block = omega arith; small = omega arith };
  unsent = refl;
}

receives :
    (w : Window)
    → length w.items ≡ 4
    → w.seq_sz ≡ 4
    → w.to_recv_start ≡ 1
    → w.win_size ≡ 2
    → IsReceiver w
receives w l s p n = record {
  items = l ∙ sym s;
  few = omega (arith, s);
  starts = omega (arith, s, p);
  window = omega (arith, s, n);
}

one-Awaits : Awaits receiver 1
one-Awaits = record {
  receiver = receives receiver refl refl refl refl;
  room = omega arith;
  part = omega arith;
  next = refl;
}

window_in_get-window_check_get_example : Transferred (λ n. true) sender receiver bytes 10
window_in_get-window_check_get_example =
    window_in_get-window_check_get (λ n. true) (λ n. refl) sender receiver bytes 10 bytes-IsNext
      (omega arith) one-Awaits

ahead-Holds :
    (k : ℕ)
    → k < 2
    → is_ready (item_at ahead (window_place ahead k)) ≡ true
    → (b : Buffer) × Holds (item_at ahead (window_place ahead k)) b
ahead-Holds zero h e = absurd (cc)
ahead-Holds (suc zero) h e =
    (bytes, record { buffer = refl; block = omega arith; small = omega arith })
ahead-Holds (suc (suc k)) h e = absurd (omega arith)

window_in_get-Delivered_example : Delivered ahead (window_in_get (λ n. true) ahead)
window_in_get-Delivered_example =
    window_in_get-Delivered (λ n. true) (λ n. refl) ahead (receives ahead refl refl refl refl)
      ahead-Holds

abbrev carries : Option (Option WindowCtx × ℕ × Window) → Option (Buffer × Bool × Bool)
carries (some (some ctx, avail, w)) = some (ctx.buf, ctx.is_rst, ctx.is_lfr)
carries _ = none

abbrev goes_on_with :
    ℕ → Option (Option WindowCtx × ℕ × Window) → Option (Option WindowCtx × ℕ × Window)
goes_on_with avail none = none
goes_on_with avail (some (ctx, left, w)) = window_check_get (λ n. true) w avail

-- Three of four bytes, then room for all: the whole is sent again behind its beginning.
first_fragment :
    carries (window_check_get (λ n. true) sender 3)
    ≡ some (full_buffer (11 ∷ 12 ∷ 13 ∷ []), true, false)
unfolding window_check_get clone_to_chunk clone_to_buffer alloc_buffer
first_fragment = refl

last_fragment :
    carries (goes_on_with 10 (window_check_get (λ n. true) sender 3)) ≡ some (bytes, false, true)
unfolding window_check_get clone_to_chunk clone_to_buffer alloc_buffer
last_fragment = refl

-- Room for three bytes again, with one left: bytes behind the block are read.
read_behind : goes_on_with 3 (window_check_get (λ n. true) sender 3) ≡ none
unfolding window_check_get clone_to_chunk clone_to_buffer alloc_buffer
read_behind = refl
