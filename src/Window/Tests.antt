-- ===== src/Window/Tests.antt =====
-- Windows of src/ld_window.c of eight numbers, and the theorems applied to them.
use liteldacssdk.Prelude.{ℕ, ◌≡◌, refl, Bool, true, false, Option, none, some, [], ◌∷◌, arith, ltb}
use liteldacssdk.Err.{Err}
use liteldacssdk.Window.{
  Window, WindowItem, cleared, is_receivable, window_ack_item, window_slide, slide_from,
}
use liteldacssdk.Window.Range.{distance, is_receivable-distance}
use liteldacssdk.Window.Slide.{Acknowledged, window_ack_item-Acknowledged}

abbrev sent : Bool → WindowItem
sent is_ack = record cleared { is_ack = is_ack }

-- Numbers 2 to 4 are sent, 3 is acknowledged.
abbrev busy : Window
busy = record {
  items =
      cleared ∷ cleared ∷ sent false ∷ sent true ∷ sent false ∷ cleared ∷ cleared ∷ cleared ∷ [];
  seq_sz = 8;
  avail_size = 5;
  win_size = 4;
  to_ack_start = 2;
  to_send_start = 5;
  to_recv_start = 6;
  avail_start = 5;
}

window_ack_item-Acknowledged_example : Acknowledged busy 2 (window_ack_item busy 2)
window_ack_item-Acknowledged_example =
    window_ack_item-Acknowledged busy 2 (omega arith) (omega arith) (omega arith) refl

is_receivable-distance_example : is_receivable busy 1 ≡ ltb (distance 8 6 1) 4
is_receivable-distance_example =
    is_receivable-distance busy 1 (omega arith) (omega arith) (omega arith) (omega arith)

abbrev start_of : Option (Err × Window) → ℕ
start_of none = 99
start_of (some (status, w)) = w.to_ack_start

slides_twice : start_of (window_ack_item busy 2) ≡ 4
unfolding window_ack_item window_slide slide_from
slides_twice = refl

-- Five numbers are on their way, more than the window, and have come round: none is passed any more.
abbrev crowded : Window
crowded = record busy {
  items = cleared ∷ cleared ∷ cleared ∷ cleared ∷ sent false ∷ cleared ∷ cleared ∷ cleared ∷ [];
  to_ack_start = 4;
  to_send_start = 1;
}

stuck : start_of (window_ack_item crowded 4) ≡ 4
unfolding window_ack_item window_slide slide_from
stuck = refl
