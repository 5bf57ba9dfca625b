-- ===== src/Net.antt =====
-- src/ld_net.c: packets over a stream socket. A packet travels as its length, four bytes with the
-- highest first, and its bytes. What the system calls answer is a list of results; a list that has
-- run out stands for EAGAIN. The queue of packets to write (src/ld_mqueue.c, a copied library) is a
-- parameter, an unbounded queue.
pub mod Receive
pub mod Send
use liteldacssdk.Prelude.{
  ℕ, ◌+◌, ◌*◌, ◌/◌, ◌%◌, ◌^◌, max, Option, none, some, List, [], ◌∷◌, ◌++◌, length,
}

-- OK, AGAIN and ERROR.
pub data Status : Type 0 where
  done again error : Status

-- MAX_INPUT_BUFFER_SIZE
abbrev pub max_input : ℕ
max_input = 8192

-- `htonl`, as bytes.
abbrev pub to_network : ℕ → List ℕ
to_network n = n / 2 ^ 24 % 2 ^ 8 ∷ n / 2 ^ 16 % 2 ^ 8 ∷ n / 2 ^ 8 % 2 ^ 8 ∷ n % 2 ^ 8 ∷ []

-- Four bytes copied out of a block, by `ntohl`; `none` where there are fewer.
abbrev pub from_network : List ℕ → Option ℕ
from_network (a ∷ b ∷ c ∷ d ∷ rest) = some (a * 2 ^ 24 + b * 2 ^ 16 + c * 2 ^ 8 + d)
from_network _ = none

-- The stream of packets.
abbrev pub frame : List ℕ → List ℕ
frame packet = to_network (length packet) ++ packet

pub frames : List (List ℕ) → List ℕ
frames [] = []
frames (packet ∷ packets) = frame packet ++ frames packets
