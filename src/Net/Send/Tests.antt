-- ===== src/Net/Send/Tests.antt =====
-- The sending side of src/ld_net.c on concrete packets, and its theorems applied to them.
use liteldacssdk.Prelude.{
  ℕ, suc, ◌≡◌, refl, ap, ◌≢◌, true, false, Option, none, some, List, [], ◌∷◌, ◌++◌, map, arith,
  length, replicate,
}
use liteldacssdk.Buffer.{Buffer, init_buffer_unptr, cat_to_buffer, alloc_buffer}
use liteldacssdk.Buffer.Copy.{contents, IsValid}
use liteldacssdk.Net.{Status, done, frame, frames}
use liteldacssdk.Net.Receive.{Receiver}
use liteldacssdk.Net.Receive.Stream.{no_more, next, handle_all}
use liteldacssdk.Net.Receive.Calls.{concat, read_calls}
use liteldacssdk.Net.Receive.Tests.{always, keep, keep_packet, keep-Takes, new}
use liteldacssdk.Net.Send.{
  took, would_block, interrupted, WriteQueue, Sender, closed, epoll_in, epoll_out, start_frame,
  serve_out, write_packet, defalut_send_pkt,
}
use liteldacssdk.Net.Send.Frame.{IsFifo, IsReady, unsent}
use liteldacssdk.Net.Send.Frame
use liteldacssdk.Net.Send.Drain.{Sent, write_packet-Sent}
use liteldacssdk.Net.Send.Progress.{write_calls, write_calls-done}
use liteldacssdk.Net.Send.Full.{serve_out-closed}
use liteldacssdk.Net.Send.Events.{
  Event, send, writable, packets_of, AreSendable, no_events, send_next, write_next, run,
  defalut_send_pkt-unsent, run-unsent, transfer,
}

-- A queue as a list.
abbrev take_first : List Buffer → Option Buffer × List Buffer
take_first [] = (none, [])
take_first (b ∷ bs) = (some b, bs)

abbrev listed : WriteQueue (List Buffer)
listed = record { put = λ q b. q ++ (b ∷ []); deq = take_first; size = λ q. length q }

abbrev all_of : List Buffer → List Buffer
all_of q = q

first_of :
    (q : List Buffer) (b : Buffer) (bs : List Buffer)
    → q ≡ b ∷ bs
    → (q' : List Buffer) × (take_first q ≡ (some b, q')) × (q' ≡ bs)
first_of q b bs e = (bs, ap take_first e, refl)

listed-IsFifo : IsFifo listed all_of
listed-IsFifo = record { put_last = λ q b. refl; counts = λ q. refl; takes_first = first_of }

abbrev idle : Sender (List Buffer)
idle = record {
  current_write_buffer = none;
  current_write_offset = 0;
  write_pkts = [];
  trans_done = true;
  interest = epoll_in;
  wire = [];
}

idle-IsReady : IsReady all_of idle
idle-IsReady = record { queued = Frame.no_more; current = 0 }

abbrev pair : Buffer
pair = record { len = 2; total = 2; free = 0; ptr = some (7 ∷ 8 ∷ 0 ∷ []) }

pair-IsValid : IsValid pair
pair-IsValid = record { used = omega arith; block = omega arith; small = omega arith }

abbrev single : Buffer
single = record { len = 1; total = 1; free = 0; ptr = some (9 ∷ 0 ∷ []) }

single-IsValid : IsValid single
single-IsValid = record { used = omega arith; block = omega arith; small = omega arith }

-- Two packets, the first of which is written in part before the second is handed over.
abbrev history : List Event
history = send pair ∷ writable (interrupted ∷ took 3 ∷ []) ∷ send single ∷ []

history-AreSendable : AreSendable history
history-AreSendable =
    send_next pair-IsValid (omega arith)
      (write_next (send_next single-IsValid (omega arith) no_events))

abbrev or_idle : Option (Sender (List Buffer)) → Sender (List Buffer)
or_idle none = idle
or_idle (some s) = s

abbrev sender_of : Option (Status × Sender (List Buffer)) → Sender (List Buffer)
sender_of none = idle
sender_of (some (status, s)) = s

abbrev before : Sender (List Buffer)
before = or_idle (run always listed history idle)

abbrev behind : Sender (List Buffer)
behind = sender_of (write_packet always listed (took 8 ∷ took 8 ∷ []) before)

transfer_example :
    (r' : Receiver (List (List ℕ))) × (read_calls always keep
        (((0 ∷ 0 ∷ 0 ∷ 2 ∷ 7 ∷ 8 ∷ 0 ∷ []) ∷ []) ∷ ((0 ∷ 0 ∷ 1 ∷ 9 ∷ []) ∷ []) ∷ [])
        new
      ≡ some r')
    × (r'.handled ≡ handle_all keep_packet (packets_of history) [])
unfolding run write_packet defalut_send_pkt start_frame cat_to_buffer alloc_buffer init_buffer_unptr
    frames packets_of concat
transfer_example =
    transfer always (λ n. refl) listed all_of listed-IsFifo keep keep_packet keep-Takes history
      (took 8 ∷ took 8 ∷ []) idle before behind new
      (((0 ∷ 0 ∷ 0 ∷ 2 ∷ 7 ∷ 8 ∷ 0 ∷ []) ∷ []) ∷ ((0 ∷ 0 ∷ 1 ∷ 9 ∷ []) ∷ []) ∷ [])
      history-AreSendable
      (next (omega arith) (omega arith) (next (omega arith) (omega arith) no_more)) (omega arith)
      idle-IsReady refl refl refl refl refl

abbrev loaded : Sender (List Buffer)
loaded = record idle { write_pkts = pair ∷ single ∷ [] }

loaded-IsReady : IsReady all_of loaded
loaded-IsReady = record {
  queued =
      Frame.next pair-IsValid (omega arith) (Frame.next single-IsValid (omega arith) Frame.no_more);
  current = 0;
}

write_packet-Sent_example :
    Sent all_of loaded (write_packet always listed (took 8 ∷ would_block ∷ []) loaded)
write_packet-Sent_example =
    write_packet-Sent always (λ n. refl) listed all_of listed-IsFifo (took 8 ∷ would_block ∷ [])
      loaded loaded-IsReady

defalut_send_pkt-unsent_example :
    (s' : Sender (List Buffer)) × (defalut_send_pkt always listed none pair loaded ≡ some s')
    × IsReady all_of s'
    × (unsent all_of s' ≡ unsent all_of loaded ++ frame (contents pair))
    × (s'.wire ≡ loaded.wire)
    × (loaded.current_write_buffer ≡ none → s'.interest ≡ epoll_out)
defalut_send_pkt-unsent_example =
    defalut_send_pkt-unsent always (λ n. refl) listed all_of listed-IsFifo pair loaded
      loaded-IsReady pair-IsValid (omega arith)

run-unsent_example :
    (s' : Sender (List Buffer)) × (run always listed history loaded ≡ some s')
    × IsReady all_of s'
    × (s'.wire ++ unsent all_of s'
        ≡ loaded.wire ++ unsent all_of loaded ++ frames (packets_of history))
run-unsent_example =
    run-unsent always (λ n. refl) listed all_of listed-IsFifo history loaded history-AreSendable
      loaded-IsReady

-- A byte at a time.
write_calls-done_example :
    (s' : Sender (List Buffer)) × (write_calls always
        (λ n. refl)
        listed
        all_of
        listed-IsFifo
        (map (λ (k, ks). map (λ n. took (suc n)) (k ∷ ks)) (replicate 12 (0, 0 ∷ [])))
        loaded
      ≡ some (done, s'))
unfolding frames
write_calls-done_example =
    write_calls-done always (λ n. refl) listed all_of listed-IsFifo (replicate 12 (0, 0 ∷ []))
      loaded loaded-IsReady (omega arith)

something_left : unsent all_of loaded ≢ []
unfolding frames
something_left e = absurd (omega (arith, ap length e))

serve_out-closed_example :
    serve_out always listed false none (would_block ∷ []) loaded ≡ some (closed [])
serve_out-closed_example =
    serve_out-closed always (λ n. refl) listed all_of listed-IsFifo none [] loaded loaded-IsReady
      something_left
