-- ===== src/Net/Send/Events.antt =====
-- A connection of src/ld_net.c from end to end: packets handed to defalut_send_pkt, writes whenever
-- the socket is ready, and the reads of the peer.
use liteldacssdk.Prelude.{
  ℕ, ◌^◌, ◌<◌, ◌≡◌, refl, sym, ap, ap₂, ◌∙◌, subst, Bool, true, Option, none, some, List, [], ◌∷◌,
  ◌++◌, map, append-nil, append_assoc, arith, length, ◌>>=◌,
}
use liteldacssdk.Err.{Err}
use liteldacssdk.Buffer.{Buffer, init_buffer_unptr, bytes_at}
use liteldacssdk.Buffer.Copy.{contents, IsValid}
use liteldacssdk.Net.{Status, done, frame, frames}
use liteldacssdk.Net.Receive.{Receiver}
use liteldacssdk.Net.Receive.Stream.{ArePackets, handle_all}
use liteldacssdk.Net.Receive.Loop.{Takes}
use liteldacssdk.Net.Receive.Calls.{concat, read_calls, read_calls-frames}
use liteldacssdk.Net.Send.{
  wake, Write, WriteQueue, Sender, epoll_out, write_packet, defalut_send_pkt,
}
use liteldacssdk.Net.Send.Frame.{
  IsFifo, AreFramable, no_more, next, unsent_of, unsent, IsReady, cat_given,
}
use liteldacssdk.Net.Send.Drain.{Sent, sent, write_packet-Sent}

-- What a sender does: a packet is handed over, or the socket can be written to.
pub data Event : Type 0 where
  send : Buffer → Event
  writable : List Write → Event

-- The packets handed over.
unfoldable pub packets_of : List Event → List (List ℕ)
packets_of [] = []
packets_of (send buf ∷ events) = contents buf ∷ packets_of events
packets_of (writable ws ∷ events) = packets_of events

pub data AreSendable : List Event → Type 0 where
  no_events : AreSendable []
  send_next :
      {buf : Buffer} {events : List Event}
      → IsValid buf
      → buf.len < 2 ^ 32
      → AreSendable events
      → AreSendable (send buf ∷ events)
  write_next :
      {ws : List Write} {events : List Event}
      → AreSendable events
      → AreSendable (writable ws ∷ events)

frames-append : (xs ys : List (List ℕ)) → frames (xs ++ ys) ≡ frames xs ++ frames ys
unfolding frames
frames-append [] ys = refl
frames-append (x ∷ xs) ys =
    ap (λ t. frame x ++ t) (frames-append xs ys)
    ∙ sym (append_assoc (frame x) (frames xs) (frames ys))

map-append_contents :
    (xs ys : List Buffer) → map contents (xs ++ ys) ≡ map contents xs ++ map contents ys
map-append_contents [] ys = refl
map-append_contents (x ∷ xs) ys = ap (λ t. contents x ∷ t) (map-append_contents xs ys)

frames-put :
    (bs : List Buffer) (b : Buffer)
    → frames (map contents (bs ++ (b ∷ []))) ≡ frames (map contents bs) ++ frame (contents b)
unfolding frames
frames-put bs b =
    ap frames (map-append_contents bs (b ∷ []))
    ∙ frames-append (map contents bs) (contents b ∷ [])
    ∙ ap (λ xs. frames (map contents bs) ++ xs) (append-nil (frame (contents b)))

framable-append : {xs ys : List Buffer} → AreFramable xs → AreFramable ys → AreFramable (xs ++ ys)
framable-append no_more q = q
framable-append (next v s p) q = next v s (framable-append p q)

module _ (calloc_gives : ℕ → Bool) {Q : Type 0} (queue : WriteQueue Q) where
  -- The events in turn, whatever the writes answer.
  unfoldable pub run : List Event → Sender Q → Option (Sender Q)
  run [] s = some s
  run (send buf ∷ events) s = defalut_send_pkt calloc_gives queue none buf s >>= λ s'. run events s'
  run (writable ws ∷ events) s = write_packet calloc_gives queue ws s >>= λ (_, s'). run events s'

module _ (calloc_gives : ℕ → Bool) (gives : (n : ℕ) → calloc_gives n ≡ true) {Q : Type 0}
    (queue : WriteQueue Q) (items : Q → List Buffer) (fifo : IsFifo queue items) where
  -- defalut_send_pkt without a mid_func puts a copy of the packet behind what is unsent, and writes
  -- nothing. When nothing was being written, epoll then waits for the socket to take bytes.
  pub defalut_send_pkt-unsent :
      (buf : Buffer) (s : Sender Q)
      → IsReady items s
      → IsValid buf
      → buf.len < 2 ^ 32
      → (s' : Sender Q) × (defalut_send_pkt calloc_gives queue none buf s ≡ some s')
        × IsReady items s'
        × (unsent items s' ≡ unsent items s ++ frame (contents buf))
        × (s'.wire ≡ s.wire)
        × (s.current_write_buffer ≡ none → s'.interest ≡ epoll_out)
  unfolding defalut_send_pkt init_buffer_unptr frames
  defalut_send_pkt-unsent buf s g v small =
      let start : IsValid init_buffer_unptr = record {
        used = omega arith;
        block = omega arith;
        small = omega arith;
      } in
      let (e, copy, is, w, l, c) =
        cat_given calloc_gives gives init_buffer_unptr (bytes_at buf.ptr) buf.len start
          (omega (arith, v.used, v.block)) (omega arith) in
      let s' : Sender Q = record s {
        write_pkts = queue.put s.write_pkts copy;
        interest = wake s.current_write_buffer s.interest;
      } in
      let last = fifo.put_last s.write_pkts copy in
      (
        s',
        rw is refl,
        record {
          queued =
              subst AreFramable (sym last)
                (framable-append g.queued (next w (omega (arith, l)) no_more));
          current = g.current;
        },
        ap
              (λ bs.
                unsent_of s.current_write_buffer s.current_write_offset ++ frames (map contents bs))
              last
            ∙ ap (λ xs. unsent_of s.current_write_buffer s.current_write_offset ++ xs)
                (frames-put (items s.write_pkts) copy
                  ∙ ap (λ xs. frames (map contents (items s.write_pkts)) ++ frame xs) c)
            ∙ sym (
                append_assoc (unsent_of s.current_write_buffer s.current_write_offset)
                  (frames (map contents (items s.write_pkts))) (frame (contents buf))),
        refl,
        λ free. ap (λ o. wake o s.interest) free,
      )

  -- Events in any order never fault, and keep one stream: what was written and what is unsent are
  -- what they were, and the frames of the packets handed over, in order. The queue gives back what
  -- was put, the buffers are valid and fit the header, and memory is not refused.
  pub run-unsent :
      (events : List Event) (s : Sender Q)
      → AreSendable events
      → IsReady items s
      → (s' : Sender Q) × (run calloc_gives queue events s ≡ some s')
        × IsReady items s'
        × (s'.wire ++ unsent items s' ≡ s.wire ++ unsent items s ++ frames (packets_of events))
  unfolding run packets_of frames
  run-unsent [] s no_events g = (s, refl, g, sym (append-nil _))
  run-unsent (send buf ∷ events) s (send_next v small a) g =
      let (t, is, h, more, same_wire, wakes) = defalut_send_pkt-unsent buf s g v small in
      let (s', runs, h', e) = run-unsent events t a h in
      (
        s',
        rw is runs,
        h',
        e
            ∙ ap₂ (λ w u. w ++ u ++ frames (packets_of events)) same_wire more
            ∙ ap (λ xs. xs ++ frames (packets_of events))
                (sym (append_assoc s.wire (unsent items s) (frame (contents buf))))
            ∙ append_assoc (s.wire ++ unsent items s) (frame (contents buf))
                (frames (packets_of events)),
      )
  run-unsent (writable ws ∷ events) s (write_next a) g =
      go (write_packet calloc_gives queue ws s)
        (write_packet-Sent calloc_gives gives queue items fifo ws s g)
        (λ t h. run-unsent events t a h)
    where
      go :
          (o : Option (Status × Sender Q))
          → Sent items s o
          → ((t : Sender Q)
              → IsReady items t
              → (s' : Sender Q) × (run calloc_gives queue events t ≡ some s')
                × IsReady items s'
                × (s'.wire ++ unsent items s'
                    ≡ t.wire ++ unsent items t ++ frames (packets_of events)))
          → (s' : Sender Q) × ((o >>= λ (_, s'). run calloc_gives queue events s') ≡ some s')
            × IsReady items s'
            × (s'.wire ++ unsent items s' ≡ s.wire ++ unsent items s ++ frames (packets_of events))
      go _ (sent status t h k q) on =
          let (s', runs, h', e) = on t h in
          (s', runs, h', e ∙ ap (λ xs. xs ++ frames (packets_of events)) k)

  -- After OK, all that was unsent is on the wire.
  written :
      (s s' : Sender Q) (ws : List Write)
      → IsReady items s
      → write_packet calloc_gives queue ws s ≡ some (done, s')
      → s'.wire ≡ s.wire ++ unsent items s
  written s s' ws g ends =
      go (write_packet calloc_gives queue ws s)
        (write_packet-Sent calloc_gives gives queue items fifo ws s g) ends
    where
      go :
          (o : Option (Status × Sender Q))
          → Sent items s o
          → o ≡ some (done, s')
          → s'.wire ≡ s.wire ++ unsent items s
      go _ (sent status t h k q) e =
          let same_sender : t ≡ s' = ap (λ o. elim o [ none ↦ t | some x ↦ x.1 ]) e in
          let is_done : status ≡ done = ap (λ o. elim o [ none ↦ status | some x ↦ x.0 ]) e in
          ap (λ x. x.wire) (sym same_sender)
          ∙ sym (append-nil t.wire)
          ∙ ap (λ xs. t.wire ++ xs) (sym (q is_done))
          ∙ k

  -- From end to end: packets of one to 8192 bytes are handed to defalut_send_pkt of a connection that
  -- has nothing to send, with calls of write_packet in between, until one answers OK; whatever the
  -- socket took at each write, and however the peer's reads cut what was written, the calls of
  -- read_packet on the peer's new connection hand exactly these packets to its handler, in order.
  -- The whole stream has fewer than 2^63 bytes, no memory is refused on either side, and the handler
  -- does not answer LD_ERR_INTERNAL.
  pub transfer :
      {H : Type 0} (recv_handler : Buffer → H → Err × H) (take_packet : List ℕ → H → H)
      (t : Takes calloc_gives recv_handler take_packet) (events : List Event) (ws : List Write)
      (s s' s'' : Sender Q) (r : Receiver H) (calls : List (List (List ℕ)))
      → AreSendable events
      → ArePackets (packets_of events)
      → length (frames (packets_of events)) < 2 ^ 63
      → IsReady items s
      → s.wire ++ unsent items s ≡ []
      → run calloc_gives queue events s ≡ some s'
      → write_packet calloc_gives queue ws s' ≡ some (done, s'')
      → r.recv_buffer ≡ none
      → concat (map concat calls) ≡ s''.wire
      → (r' : Receiver H) × (read_calls calloc_gives recv_handler calls r ≡ some r')
        × (r'.handled ≡ handle_all take_packet (packets_of events) r.handled)
  transfer recv_handler take_packet t events ws s s' s'' r calls a sized fits g fresh runs ends new
        cut =
      let (z, runs', h, e) = run-unsent events s a g in
      let same_sender : z ≡ s' =
        ap (λ (o : Option (Sender Q)). elim o [ none ↦ z | some x ↦ x ]) (sym runs' ∙ runs) in
      let stream : s'.wire ++ unsent items s' ≡ frames (packets_of events) =
        ap (λ x. x.wire ++ unsent items x) (sym same_sender)
        ∙ e
        ∙ ap (λ xs. xs ++ frames (packets_of events)) fresh in
      let whole : s''.wire ≡ frames (packets_of events) =
        written s' s'' ws (subst (λ x. IsReady items x) same_sender h) ends ∙ stream in
      read_calls-frames calloc_gives recv_handler take_packet t r (packets_of events) calls new
        sized fits (cut ∙ whole)
