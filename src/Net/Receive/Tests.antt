-- ===== src/Net/Receive/Tests.antt =====
-- Streams of src/ld_net.c on concrete bytes, and the theorems on receiving applied to them.
use liteldacssdk.Prelude.{
  ℕ, ◌≡◌, refl, inl, Bool, true, false, Option, none, some, List, [], ◌∷◌, ◌++◌, arith,
}
use liteldacssdk.Err.{Err, ok}
use liteldacssdk.Buffer.{
  Buffer, init_buffer_unptr, cat_to_buffer, alloc_buffer, clone_to_buffer, clone_to_chunk,
}
use liteldacssdk.Buffer.Copy.{contents}
use liteldacssdk.Net.{Status, done, error, frames}
use liteldacssdk.Net.Receive.{
  Receiver, connected, read_packet, got, eof, read_from, process_complete_packets, process_from,
  process_round, remove_from_buffer_front,
}
use liteldacssdk.Net.Receive.Stream.{ArePackets, no_more, next, handle_all}
use liteldacssdk.Net.Receive.Loop.{Takes}
use liteldacssdk.Net.Receive.Calls.{concat, read_calls, read_calls-frames}
use liteldacssdk.Net.Receive.Total.{Ends, next_read, no_reads, read_packet-Ends}

abbrev pub always : ℕ → Bool
always _ = true

-- A handler that keeps the packets.
abbrev pub keep : Buffer → List (List ℕ) → Err × List (List ℕ)
keep buf h = (ok, h ++ (contents buf ∷ []))

abbrev pub keep_packet : List ℕ → List (List ℕ) → List (List ℕ)
keep_packet packet h = h ++ (packet ∷ [])

abbrev pub new : Receiver (List (List ℕ))
new = record {
  recv_buffer = none;
  expected_pkt_len = 0;
  reading_header = false;
  state = connected;
  handled = [];
}

pub keep-Takes : Takes always keep keep_packet
keep-Takes = record { gives = λ n. refl; takes = λ buf h v. (ok, refl, refl) }

abbrev two : List (List ℕ)
two = (7 ∷ 8 ∷ []) ∷ (9 ∷ []) ∷ []

two-ArePackets : ArePackets two
two-ArePackets = next (omega arith) (omega arith) (next (omega arith) (omega arith) no_more)

-- A header cut in two, then the rest in another call.
abbrev cut : List (List (List ℕ))
cut = ((0 ∷ 0 ∷ []) ∷ (0 ∷ 2 ∷ 7 ∷ []) ∷ []) ∷ ((8 ∷ 0 ∷ 0 ∷ 0 ∷ 1 ∷ 9 ∷ []) ∷ []) ∷ []

read_calls-frames_example :
    (r' : Receiver (List (List ℕ))) × (read_calls always keep cut new ≡ some r')
    × (r'.handled ≡ handle_all keep_packet two [])
unfolding frames concat
read_calls-frames_example =
    read_calls-frames always keep keep_packet keep-Takes new two cut refl two-ArePackets
      (omega arith) refl

-- A length that is too great, behind a packet.
abbrev rogue : List ℕ
rogue = 0 ∷ 0 ∷ 0 ∷ 1 ∷ 5 ∷ 255 ∷ 0 ∷ 0 ∷ 0 ∷ []

read_packet-Ends_example : Ends (read_packet always keep (got rogue ∷ eof ∷ []) new)
read_packet-Ends_example =
    read_packet-Ends always keep (got rogue ∷ eof ∷ []) new (inl refl)
      (next_read _ (omega arith) (next_read _ (omega arith) no_reads))

abbrev outcome : Option (Status × Receiver (List (List ℕ))) → Status × List (List ℕ)
outcome none = (done, [])
outcome (some (status, r)) = (status, r.handled)

-- The packet in front is handled, then the connection is given up.
rogue_refused : outcome (read_packet always keep (got rogue ∷ []) new) ≡ (error, (5 ∷ []) ∷ [])
unfolding read_packet read_from process_complete_packets process_from process_round
    remove_from_buffer_front cat_to_buffer alloc_buffer clone_to_buffer clone_to_chunk
    init_buffer_unptr
rogue_refused = refl
