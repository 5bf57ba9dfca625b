-- ===== src/Net/Receive/Total.antt =====
-- read_packet of src/ld_net.c on any bytes whatever, with any handler, memory refused or not.
use liteldacssdk.Prelude.{
  ℕ, zero, suc, ◌+◌, ◌≤◌, ◌<◌, ◌≡◌, refl, sym, subst, ◌⊎◌, inl, inr, Bool, true, false, Option,
  none, some, List, [], ◌∷◌, arith, length, take, ◌>>=◌,
}
use liteldacssdk.Err.{Err}
use liteldacssdk.Buffer.{Buffer, init_buffer_unptr, cat_to_buffer}
use liteldacssdk.Buffer.Copy.{IsValid}
use liteldacssdk.Buffer.Cat.{Appended, refused, appended, cat_to_buffer-Appended}
use liteldacssdk.Net.{Status, done, error, max_input}
use liteldacssdk.Net.Receive.{
  Receiver, Read, got, eof, would_block, interrupted, conn_reset, timed_out, bad_fd, other, Round,
  more, failed, stop, fault, process_round, process_from, process_complete_packets, rounds, receive,
  read_from, with_buffer, read_packet,
}
use liteldacssdk.Net.Receive.Calls.{with_buffer-some}
use liteldacssdk.Net.Receive.Safety.{IsSound, Turns, halts, fails, goes, process_round-Turns}

-- What a call leaves behind: it never faults.
pub data Ends {H : Type 0} : Option (Status × Receiver H) → Type 0 where
  ends : (r : Receiver H) (g : IsSound r) → g.buf.len < max_input → Ends (some (done, r))
  breaks : (r : Receiver H) → Ends (some (error, r))

abbrev pub read_size : Read → ℕ
read_size (got bytes) = length bytes
read_size _ = 0

-- `read` is asked for no more than MAX_INPUT_BUFFER_SIZE bytes.
pub data AreReads : List Read → Type 0 where
  no_reads : AreReads []
  next_read :
      (x : Read) {reads : List Read}
      → read_size x ≤ max_input
      → AreReads reads
      → AreReads (x ∷ reads)

module _ (calloc_gives : ℕ → Bool) {H : Type 0} (recv_handler : Buffer → H → Err × H) where
  process_from-Ends :
      (fuel : ℕ) (r : Receiver H)
      → IsSound r
      → rounds r < fuel
      → Ends (process_from calloc_gives recv_handler fuel r)
  unfolding process_from
  process_from-Ends zero r g h = absurd (omega arith)
  process_from-Ends (suc fuel) r g h =
      go (λ r' g' less. process_from-Ends fuel r' g' (omega arith))
        (process_round calloc_gives recv_handler r)
        (process_round-Turns calloc_gives recv_handler r g)
    where
      go :
          ((r' : Receiver H)
            → IsSound r'
            → rounds r' < rounds r
            → Ends (process_from calloc_gives recv_handler fuel r'))
          → (x : Round H) → Turns r g.buf x
          → Ends (elim x [
            | more r' ↦ process_from calloc_gives recv_handler fuel r'
            | failed r' ↦ some (error, r')
            | stop ↦ some (done, r)
            | fault ↦ none
          ])
      go on _ (halts small) = ends r g small
      go on _ (fails r') = breaks r'
      go on _ (goes r' g' less) = on r' g' less

  receive-Ends :
      (bytes : List ℕ) (r : Receiver H) (g : IsSound r)
      → g.buf.len < max_input
      → length bytes ≤ max_input
      → Ends (receive calloc_gives recv_handler bytes r)
  unfolding process_complete_packets
  receive-Ends bytes r g small fits =
      subst
        (λ o. Ends (elim o [
          | none ↦ none
          | some buf ↦ cat_to_buffer calloc_gives buf bytes (length bytes) >>= λ (_, buf').
              process_complete_packets calloc_gives recv_handler
                (record r { recv_buffer = some buf' })
        ]))
        (sym g.here)
        (go (cat_to_buffer calloc_gives g.buf bytes (length bytes)) (
          cat_to_buffer-Appended calloc_gives g.buf bytes (length bytes) g.valid (omega arith)
            (omega arith)))
    where
      with_bytes :
          (buf : Buffer)
          → IsValid buf
          → Ends (
              process_complete_packets calloc_gives recv_handler
                (record r { recv_buffer = some buf }))
      with_bytes buf v =
          let r' : Receiver H = record r { recv_buffer = some buf } in
          process_from-Ends (rounds r' + 1) r'
            (record { buf = buf; here = refl; valid = v; bounded = g.bounded; waits = g.waits })
            (omega arith)

      go :
          (o : Option (Err × Buffer))
          → Appended calloc_gives g.buf (take (length bytes) bytes) o
          → Ends (
              o >>= λ (_, buf').
              process_complete_packets calloc_gives recv_handler
                (record r { recv_buffer = some buf' }))
      go _ (refused e) = with_bytes g.buf g.valid
      go _ (appended buf' v n c) = with_bytes buf' v

  read_from-Ends :
      (any : Bool) (reads : List Read) (r : Receiver H) (g : IsSound r)
      → g.buf.len < max_input
      → AreReads reads
      → Ends (read_from calloc_gives recv_handler any reads r)
  unfolding read_from
  read_from-Ends any [] r g small a = ends r g small
  read_from-Ends any (got bytes ∷ reads) r g small (next_read _ fits a) =
      go (λ r' g' small'. read_from-Ends true reads r' g' small' a)
        (receive calloc_gives recv_handler bytes r) (receive-Ends bytes r g small fits)
    where
      go :
          ((r' : Receiver H) (g' : IsSound r')
            → g'.buf.len < max_input
            → Ends (read_from calloc_gives recv_handler true reads r'))
          → (o : Option (Status × Receiver H)) → Ends o
          → Ends (
              o >>= λ (status, r'). elim status [
                | error ↦ some (error, r')
                | _ ↦ read_from calloc_gives recv_handler true reads r'
              ])
      go on _ (ends r' g' small') = on r' g' small'
      go on _ (breaks r') = breaks r'
  read_from-Ends any (would_block ∷ reads) r g small a = ends r g small
  read_from-Ends true (interrupted ∷ reads) r g small a = ends r g small
  read_from-Ends false (interrupted ∷ reads) r g small (next_read _ fits a) =
      read_from-Ends false reads r g small a
  read_from-Ends any (eof ∷ reads) r g small a = breaks _
  read_from-Ends any (conn_reset ∷ reads) r g small a = breaks _
  read_from-Ends any (timed_out ∷ reads) r g small a = breaks _
  read_from-Ends any (bad_fd ∷ reads) r g small a = breaks _
  read_from-Ends any (other ∷ reads) r g small a = breaks _

  -- Whatever bytes a peer sends, in reads of at most 8192 bytes, whatever the handler answers and
  -- whichever blocks of bytes calloc refuses, as long as malloc gives the record of each new buffer
  -- (init_buffer_unptr): a call of read_packet on a connection without a buffer, or one that an earlier
  -- call left with OK, ends and accesses no byte outside a block. When it answers OK, the buffer is
  -- valid, fewer than 8192 bytes wait in it, and the packet awaited has at most 8192.
  pub read_packet-Ends :
      (reads : List Read) (r : Receiver H)
      → (r.recv_buffer ≡ none) ⊎ (g : IsSound r) × (g.buf.len < max_input)
      → AreReads reads
      → Ends (read_packet calloc_gives recv_handler reads r)
  unfolding read_packet init_buffer_unptr
  read_packet-Ends reads r (inl new) a =
      subst
        (λ o. Ends (
          read_from calloc_gives recv_handler false reads
            (with_buffer (record r { recv_buffer = o }))))
        (sym new)
        (read_from-Ends false reads (with_buffer (record r { recv_buffer = none }))
          (record {
            buf = init_buffer_unptr;
            here = refl;
            valid = record { used = omega arith; block = omega arith; small = omega arith };
            bounded = omega arith;
            waits = λ f. absurd (cc);
          })
          (omega arith) a)
  read_packet-Ends reads r (inr (g, small)) a =
      subst (λ x. Ends (read_from calloc_gives recv_handler false reads x))
        (sym (with_buffer-some r g.buf g.here)) (read_from-Ends false reads r g small a)
