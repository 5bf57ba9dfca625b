-- ===== src/Net/Receive.antt =====
-- The receiving side of src/ld_net.c: bytes are collected until they make up packets.
-- The caller's handler is given each packet and a state of its own; it does not touch the
-- connection's buffers. `read_pkt` holds a packet only while the handler runs. `none` is a fault.
pub mod Bytes
pub mod Stream
pub mod Loop
pub mod Calls
pub mod Safety
pub mod Total
pub mod Tests
use liteldacssdk.Prelude.{
  ℕ, zero, suc, ◌+◌, ◌-◌, ◌*◌, max, Bool, true, false, Option, none, some, List, [], ◌∷◌, ◌++◌,
  length, set, take, drop, ltb, leb, ◌==◌, if◌then◌else◌, ◌>>=◌,
}
use liteldacssdk.Err.{Err, internal}
use liteldacssdk.Buffer.{Buffer, bytes_at, init_buffer_unptr, cat_to_buffer, clone_to_chunk}
use liteldacssdk.Net.{Status, done, error, max_input, from_network}

-- What `read` answers, by `errno` where it fails.
pub data Read : Type 0 where
  got : List ℕ → Read
  eof would_block interrupted conn_reset timed_out bad_fd other : Read

pub data ConnState : Type 0 where
  connected closing closed : ConnState

-- The fields of `basic_conn_t` that receive, and the handler's state.
pub record Receiver (H : Type 0) : Type 0 where
  pub recv_buffer : Option Buffer
  pub expected_pkt_len : ℕ
  pub reading_header : Bool
  pub state : ConnState
  pub handled : H

-- The `memmove` stays inside the `len` bytes.
abbrev pub move_front : ℕ → ℕ → Option (List ℕ) → Option (List ℕ)
move_front len count none = none
move_front len count (some bytes) =
    some (take (len - count) (drop count bytes) ++ drop (len - count) bytes)

pub remove_from_buffer_front : Buffer → ℕ → Buffer
remove_from_buffer_front buf count =
    if count == 0
    then buf
    else if leb buf.len count
    then record buf { len = 0 }
    else record buf { ptr = move_front buf.len count buf.ptr; len = buf.len - count }

-- One round of the loop.
pub data Round (H : Type 0) : Type 0 where
  more failed : Receiver H → Round H
  stop fault : Round H

abbrev pub is_internal : Err → Bool
is_internal internal = true
is_internal _ = false

-- Twice the bytes there are, and one for a body that is awaited: each round lowers it.
abbrev pub rounds_left : Option Buffer → Bool → ℕ
rounds_left none reading_header = if reading_header then 0 else 1
rounds_left (some buf) reading_header = 2 * buf.len + (if reading_header then 0 else 1)

module _ {H : Type 0} where
  abbrev pub take_header : Buffer → Receiver H → Option ℕ → Round H
  take_header buf r none = fault
  take_header buf r (some n) =
      let r' = record r { expected_pkt_len = n } in
      let cut = some (remove_from_buffer_front buf 4) in
      if n == 0
      then more (record r' { recv_buffer = cut })
      else if ltb max_input n
      then failed r'
      else more (record r' { recv_buffer = cut; reading_header = false })

  abbrev pub read_header : Buffer → Receiver H → Round H
  read_header buf r =
      if ltb buf.len 4 then stop else take_header buf r (from_network (bytes_at buf.ptr))

  abbrev pub rounds : Receiver H → ℕ
  rounds r = rounds_left r.recv_buffer r.reading_header

  -- The buffer is made at the first call.
  abbrev pub with_buffer : Receiver H → Receiver H
  with_buffer r = elim r.recv_buffer [
    | none ↦ record r {
      recv_buffer = some init_buffer_unptr;
      expected_pkt_len = 0;
      reading_header = true;
    }
    | some buf ↦ r
  ]

module _ (calloc_gives : ℕ → Bool) {H : Type 0} (recv_handler : Buffer → H → Err × H) where
  abbrev pub deliver : Buffer → Receiver H → Option Buffer → Round H
  deliver buf r none = fault
  deliver buf r (some read_pkt) =
      let (result, handled) = recv_handler read_pkt r.handled in
      if is_internal result
      then failed (record r { handled = handled })
      else more (record r {
        recv_buffer = some (remove_from_buffer_front buf r.expected_pkt_len);
        expected_pkt_len = 0;
        reading_header = true;
        handled = handled;
      })

  abbrev pub read_body : Buffer → Receiver H → Round H
  read_body buf r =
      if ltb buf.len r.expected_pkt_len
      then stop
      else deliver buf r (clone_to_chunk calloc_gives init_buffer_unptr buf.ptr r.expected_pkt_len)

  abbrev pub round_on : Receiver H → Option Buffer → Round H
  round_on r none = stop
  round_on r (some buf) =
      if buf.len == 0 then stop else if r.reading_header then read_header buf r else read_body buf r

  pub process_round : Receiver H → Round H
  unfolding remove_from_buffer_front
  process_round r = round_on r r.recv_buffer

  pub process_from : ℕ → Receiver H → Option (Status × Receiver H)
  unfolding process_round
  process_from zero r = none
  process_from (suc fuel) r = elim (process_round r) [
    | more r' ↦ process_from fuel r'
    | failed r' ↦ some (error, r')
    | stop ↦ some (done, r)
    | fault ↦ none
  ]

  pub process_complete_packets : Receiver H → Option (Status × Receiver H)
  unfolding process_from
  process_complete_packets r = process_from (rounds r + 1) r

  -- The bytes of one `read`; the status of cat_to_buffer is not looked at.
  abbrev pub receive : List ℕ → Receiver H → Option (Status × Receiver H)
  receive bytes r = elim r.recv_buffer [
    | none ↦ none
    | some buf ↦ cat_to_buffer calloc_gives buf bytes (length bytes) >>= λ (_, buf').
        process_complete_packets (record r { recv_buffer = some buf' })
  ]

  pub read_from : Bool → List Read → Receiver H → Option (Status × Receiver H)
  unfolding process_complete_packets
  read_from has_read_any [] r = some (done, r)
  read_from has_read_any (got bytes ∷ reads) r = receive bytes r >>= λ (status, r'). elim status [
    | error ↦ some (error, r')
    | _ ↦ read_from true reads r'
  ]
  read_from has_read_any (would_block ∷ reads) r = some (done, r)
  read_from has_read_any (interrupted ∷ reads) r =
      let rest = read_from has_read_any reads r in if has_read_any then some (done, r) else rest
  read_from has_read_any (eof ∷ reads) r = some (error, record r { state = closed })
  read_from has_read_any (conn_reset ∷ reads) r = some (error, record r { state = closed })
  read_from has_read_any (timed_out ∷ reads) r = some (error, r)
  read_from has_read_any (bad_fd ∷ reads) r = some (error, r)
  read_from has_read_any (other ∷ reads) r = some (error, r)

  pub read_packet : List Read → Receiver H → Option (Status × Receiver H)
  unfolding read_from
  read_packet reads r = read_from false reads (with_buffer r)
