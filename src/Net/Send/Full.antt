-- ===== src/Net/Send/Full.antt =====
-- What src/ld_net.c does with a connection whose socket is full.
use liteldacssdk.Prelude.{
  ℕ, ◌≡◌, refl, ap, ◌≢◌, Bool, true, false, Option, none, some, List, [], ◌∷◌,
}
use liteldacssdk.Buffer.{Buffer}
use liteldacssdk.Net.{Status, done, again}
use liteldacssdk.Net.Send.{
  Write, would_block, WriteQueue, Sender, closed, Next, nothing, write_from, stuck, next_buffer,
  write_once, write_packet, go_on, leave, fault, response_send_buffer, response_handle, serve_out,
}
use liteldacssdk.Net.Send.Frame.{IsFifo, unsent, IsReady}
use liteldacssdk.Net.Send.Wire.{Kept}
use liteldacssdk.Net.Send.Drain.{NextReady, idle, writes, next_buffer-Ready}

module _ (calloc_gives : ℕ → Bool) (gives : (n : ℕ) → calloc_gives n ≡ true) {Q : Type 0}
    (queue : WriteQueue Q) (items : Q → List Buffer) (fifo : IsFifo queue items) where
  write_packet_full :
      (ws : List Write) (s : Sender Q)
      → IsReady items s
      → unsent items s ≢ []
      → (s' : Sender Q) × (write_packet calloc_gives queue (would_block ∷ ws) s ≡ some (again, s'))
        × Kept items s s'
        × (s'.wire ≡ s.wire)
  unfolding write_packet
  write_packet_full ws s g left =
      go (next_buffer calloc_gives queue s s.current_write_buffer)
        (next_buffer-Ready calloc_gives gives queue items fifo s g)
    where
      go :
          (x : Next Q)
          → NextReady items s x
          → (s' : Sender Q) × (◌≡◌ {A = Option (Status × Sender Q)}
              (elim x [
                | nothing ↦ some (done, s)
                | write_from buf s' ↦ elim (write_once would_block buf s') [
                  | go_on s'' ↦ write_packet calloc_gives queue ws s''
                  | leave status s'' ↦ some (status, s'')
                  | fault ↦ none
                ]
                | stuck ↦ none
              ])
              (some (again, s')))
            × Kept items s s'
            × (s'.wire ≡ s.wire)
      go _ (idle e) = absurd (left e)
      go _ (writes buf s' here g' k w) = (s', refl, k, w)

  -- A connection with bytes to send, not timed out, whose queue gives back what was put in order and
  -- whose socket is full when its turn comes: the loop of net_setup closes it, with no byte written
  -- more than there was. The bytes that were to be sent are freed. No memory is refused.
  pub serve_out-closed :
      (reset_conn : Option (Sender Q → Sender Q)) (ws : List Write) (s : Sender Q)
      → IsReady items s
      → unsent items s ≢ []
      → serve_out calloc_gives queue false reset_conn (would_block ∷ ws) s ≡ some (closed s.wire)
  unfolding serve_out response_handle response_send_buffer
  serve_out-closed reset_conn ws s g left =
      let (s', runs, kept, same_wire) = write_packet_full ws s g left in
      rw runs (ap (λ w. some (closed w)) same_wire)
