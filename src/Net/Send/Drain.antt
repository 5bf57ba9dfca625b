-- ===== src/Net/Send/Drain.antt =====
-- write_packet and defalut_send_pkt of src/ld_net.c on a queue that keeps its order.
use liteldacssdk.Prelude.{
  ℕ, ◌^◌, ◌<◌, ◌≡◌, refl, sym, ap, ap₂, ◌∙◌, subst, inl, inr, Bool, true, false, Option, none, some,
  List, [], ◌∷◌, ◌++◌, map, arith, length, ltb, Option-cases,
}
use liteldacssdk.Buffer.{Buffer}
use liteldacssdk.Buffer.Copy.{contents, IsValid}
use liteldacssdk.Net.{Status, done, again, frames}
use liteldacssdk.Net.Send.{
  Write, WriteQueue, Sender, Pass, go_on, leave, fault, Next, nothing, write_from, stuck,
  write_once, next_buffer, write_packet,
}
use liteldacssdk.Net.Send.Frame.{
  IsFifo, AreFramable, next, unsent_of, unsent, IsReady, start_frame-some,
}
use liteldacssdk.Net.Send.Wire.{Kept, Passed, goes, leaves, write_once-Passed}

module _ {Q : Type 0} (items : Q → List Buffer) where
  pub data NextReady (s : Sender Q) : Next Q → Type 0 where
    idle : unsent items s ≡ [] → NextReady s nothing
    writes :
        (buf : Buffer) (s' : Sender Q)
        → s'.current_write_buffer ≡ some buf
        → IsReady items s'
        → Kept items s s'
        → s'.wire ≡ s.wire
        → NextReady s (write_from buf s')

  -- What was written and what is unsent are the same stream as before; with OK, all is written.
  pub data Sent (s : Sender Q) : Option (Status × Sender Q) → Type 0 where
    sent :
        (status : Status) (s' : Sender Q)
        → IsReady items s'
        → Kept items s s'
        → (status ≡ done → unsent items s' ≡ [])
        → Sent s (some (status, s'))

  after : {s t : Sender Q} {o : Option (Status × Sender Q)} → Kept items s t → Sent t o → Sent s o
  after k (sent status s' g k' q) = sent status s' g (k' ∙ k) q

first_framable :
    {b : Buffer} {bs : List Buffer}
    → AreFramable (b ∷ bs)
    → IsValid b × (b.len < 2 ^ 32) × AreFramable bs
first_framable (next v small fs) = (v, small, fs)

module _ (calloc_gives : ℕ → Bool) (gives : (n : ℕ) → calloc_gives n ≡ true) {Q : Type 0}
    (queue : WriteQueue Q) (items : Q → List Buffer) (fifo : IsFifo queue items) where
  load-Ready :
      (s : Sender Q) (bs : List Buffer)
      → IsReady items s
      → s.current_write_buffer ≡ none
      → items s.write_pkts ≡ bs
      → NextReady items s (next_buffer calloc_gives queue s none)
  unfolding frames
  load-Ready s [] g free e =
      let none_left : ltb 0 (queue.size s.write_pkts) ≡ false =
        ground (arith, fifo.counts s.write_pkts, ap length e) in
      rw none_left
        (idle (ap₂ (λ o bs. unsent_of o s.current_write_offset ++ frames (map contents bs)) free e))
  load-Ready s (b ∷ bs) g free e =
      let some_left : ltb 0 (queue.size s.write_pkts) ≡ true =
        ground (arith, fifo.counts s.write_pkts, ap length e) in
      let (q', taken, rest) = fifo.takes_first s.write_pkts b bs e in
      let (v, small, fs) = first_framable (subst AreFramable e g.queued) in
      let (whole, is, w, pos, c) = start_frame-some calloc_gives gives b v small in
      rw (some_left, taken, is)
        (writes whole _ refl
          (record { queued = subst AreFramable (sym rest) fs; current = (w, pos) })
          (ap (λ xs. s.wire ++ xs)
            (ap₂ (λ xs bs. xs ++ frames (map contents bs)) c rest
              ∙ sym (
                  ap₂ (λ o bs. unsent_of o s.current_write_offset ++ frames (map contents bs)) free
                    e)))
          refl)

  pub next_buffer-Ready :
      (s : Sender Q)
      → IsReady items s
      → NextReady items s (next_buffer calloc_gives queue s s.current_write_buffer)
  next_buffer-Ready s g = elim (Option-cases s.current_write_buffer) [
    | inl free ↦
        subst (λ o. NextReady items s (next_buffer calloc_gives queue s o)) (sym free)
          (load-Ready s (items s.write_pkts) g free refl)
    | inr (buf, here) ↦
        subst (λ o. NextReady items s (next_buffer calloc_gives queue s o)) (sym here)
          (writes buf s here g refl refl)
  ]

  -- A connection whose queue gives back what was put in order: whatever the socket takes, write_packet
  -- never faults, what was written followed by what is unsent stays the same stream of frames, and
  -- when it answers OK, all of it was written. Memory is not refused.
  pub write_packet-Sent :
      (ws : List Write) (s : Sender Q)
      → IsReady items s
      → Sent items s (write_packet calloc_gives queue ws s)
  unfolding write_packet
  write_packet-Sent [] s g =
      go (next_buffer calloc_gives queue s s.current_write_buffer) (next_buffer-Ready s g)
    where
      go :
          (x : Next Q)
          → NextReady items s x
          → Sent items s (elim x [
            | nothing ↦ some (done, s)
            | write_from buf s' ↦ some (again, s')
            | stuck ↦ none
          ])
      go _ (idle e) = sent done s g refl (λ _. e)
      go _ (writes buf s' here g' k _) = sent again s' g' k (λ x. absurd (cc))
  write_packet-Sent (w ∷ ws) s g =
      go (λ s' g'. write_packet-Sent ws s' g')
        (next_buffer calloc_gives queue s s.current_write_buffer) (next_buffer-Ready s g)
    where
      turn :
          ((s' : Sender Q)
            → IsReady items s'
            → Sent items s' (write_packet calloc_gives queue ws s'))
          → (s' : Sender Q) (x : Pass Q) → Passed items s' x
          → Sent items s' (elim x [
            | go_on s'' ↦ write_packet calloc_gives queue ws s''
            | leave status s'' ↦ some (status, s'')
            | fault ↦ none
          ])
      turn on s' _ (goes s'' g'' k) = after items k (on s'' g'')
      turn on s' _ (leaves status s'' g'' k q) = sent status s'' g'' k (λ e. absurd (q e))

      go :
          ((s' : Sender Q)
            → IsReady items s'
            → Sent items s' (write_packet calloc_gives queue ws s'))
          → (x : Next Q) → NextReady items s x
          → Sent items s (elim x [
            | nothing ↦ some (done, s)
            | write_from buf s' ↦ elim (write_once w buf s') [
              | go_on s'' ↦ write_packet calloc_gives queue ws s''
              | leave status s'' ↦ some (status, s'')
              | fault ↦ none
            ]
            | stuck ↦ none
          ])
      go on _ (idle e) = sent done s g refl (λ _. e)
      go on _ (writes buf s' here g' k _) =
          after items k
            (turn on s' (write_once w buf s') (write_once-Passed items buf s' here g' w))
