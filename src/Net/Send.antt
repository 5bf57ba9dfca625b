-- ===== src/Net/Send.antt =====
-- The sending side of src/ld_net.c: packets are queued, and written to the socket when it takes
-- bytes. `wire` is what the socket has taken so far. `none` is a fault, or a loop that finds no
-- packet in a queue that is not empty.
pub mod Frame
pub mod Wire
pub mod Drain
pub mod Progress
pub mod Full
pub mod Events
mod Tests
use liteldacssdk.Prelude.{
  ℕ, ◌+◌, min, Bool, true, false, not, Option, none, some, List, [], ◌∷◌, ◌++◌, length, set, take,
  drop, ltb, leb, ◌==◌, if◌then◌else◌, ◌>>=◌,
}
use liteldacssdk.Buffer.{Buffer, add_size, sub_size, bytes_at, init_buffer_unptr, cat_to_buffer}
use liteldacssdk.Net.{Status, done, again, error, to_network}

-- What `write` answers: how many bytes it would take, of which it takes those that there are, or
-- `errno`.
pub data Write : Type 0 where
  took : ℕ → Write
  would_block interrupted broken other : Write

pub data Interest : Type 0 where
  epoll_in epoll_out : Interest

-- The operations of `lfqueue_t` that are called.
pub record WriteQueue (Q : Type 0) : Type 0 where
  pub put : Q → Buffer → Q
  pub deq : Q → Option Buffer × Q
  pub size : Q → ℕ

-- The fields of `basic_conn_t` that send, and what epoll waits for.
pub record Sender (Q : Type 0) : Type 0 where
  pub current_write_buffer : Option Buffer
  pub current_write_offset : ℕ
  pub write_pkts : Q
  pub trans_done : Bool
  pub interest : Interest
  pub wire : List ℕ

-- A connection: in use, or after connection_close, which takes it out of the heap, closes the socket and
-- frees the buffer and the queue, with what the socket had taken until then.
pub data Conn (Q : Type 0) : Type 0 where
  live : Sender Q → Conn Q
  closed : List ℕ → Conn Q

-- A `write` and what the loop does next.
pub data Pass (Q : Type 0) : Type 0 where
  go_on : Sender Q → Pass Q
  leave : Status → Sender Q → Pass Q
  fault : Pass Q

-- What is to be written.
pub data Next (Q : Type 0) : Type 0 where
  nothing : Next Q
  write_from : Buffer → Sender Q → Next Q
  stuck : Next Q

-- `mid_func` fills the new buffer first.
abbrev pub filled : Option (Buffer → Buffer) → Buffer
filled none = init_buffer_unptr
filled (some mid_func) = mid_func init_buffer_unptr

abbrev pub wake : Option Buffer → Interest → Interest
wake none interest = epoll_out
wake (some buf) interest = interest

module _ {Q : Type 0} where
  -- `n` bytes are taken.
  abbrev pub advance : ℕ → Buffer → Sender Q → Pass Q
  advance n buf s =
      let offset = add_size s.current_write_offset n in
      let out = take n (drop s.current_write_offset (bytes_at buf.ptr)) in
      let s' = record s { current_write_offset = offset; wire = s.wire ++ out } in
      if ltb (length (bytes_at buf.ptr)) (s.current_write_offset + n)
      then fault
      else if leb buf.len offset
      then go_on (record s' { current_write_buffer = none; current_write_offset = 0 })
      else leave again s'

  abbrev pub write_once : Write → Buffer → Sender Q → Pass Q
  write_once (took k) buf s =
      let n = min k (sub_size buf.len s.current_write_offset) in
      if n == 0 then leave error s else advance n buf s
  write_once would_block buf s = leave again s
  write_once interrupted buf s = go_on s
  write_once broken buf s = leave error s
  write_once other buf s = leave error s

module _ (calloc_gives : ℕ → Bool) where
  -- A packet with its length in front; the statuses of cat_to_buffer are not looked at.
  pub start_frame : Buffer → Option Buffer
  start_frame b = cat_to_buffer calloc_gives init_buffer_unptr (to_network b.len) 4 >>= λ (_, head).
      cat_to_buffer calloc_gives head (bytes_at b.ptr) b.len >>= λ (_, whole). some whole

module _ (calloc_gives : ℕ → Bool) {Q : Type 0} (queue : WriteQueue Q) where
  abbrev pub started : Sender Q → Option Buffer → Next Q
  started s none = stuck
  started s (some buf) =
      write_from buf (record s { current_write_buffer = some buf; current_write_offset = 0 })

  abbrev pub dequeued : Sender Q → Option Buffer × Q → Next Q
  dequeued s (none, rest) = stuck
  dequeued s (some b, rest) = started (record s { write_pkts = rest }) (start_frame calloc_gives b)

  abbrev pub next_buffer : Sender Q → Option Buffer → Next Q
  next_buffer s (some buf) = write_from buf s
  next_buffer s none =
      if ltb 0 (queue.size s.write_pkts) then dequeued s (queue.deq s.write_pkts) else nothing

  pub write_packet : List Write → Sender Q → Option (Status × Sender Q)
  unfolding start_frame
  write_packet [] s = elim (next_buffer s s.current_write_buffer) [
    | nothing ↦ some (done, s)
    | write_from buf s' ↦ some (again, s')
    | stuck ↦ none
  ]
  write_packet (w ∷ ws) s = elim (next_buffer s s.current_write_buffer) [
    | nothing ↦ some (done, s)
    | write_from buf s' ↦ elim (write_once w buf s') [
      | go_on s'' ↦ write_packet ws s''
      | leave status s'' ↦ some (status, s'')
      | fault ↦ none
    ]
    | stuck ↦ none
  ]

  abbrev pub is_drained : Sender Q → Bool
  is_drained s = elim s.current_write_buffer [
    | none ↦ queue.size s.write_pkts == 0
    | some _ ↦ false
  ]

  -- connecion_set_expired; a connection that is closed is no longer in the heap, and stays as it is.
  abbrev pub set_expired : Conn Q → Conn Q
  set_expired (live s) = closed s.wire
  set_expired (closed wire) = closed wire

  pub response_send_buffer : List Write → Sender Q → Option (Status × Conn Q)
  unfolding write_packet
  response_send_buffer ws s = write_packet ws s >>= λ (status, s'). elim status [
    | done ↦ some (
      done,
      live (
          if is_drained s'
          then record s' { trans_done = true; interest = epoll_in }
          else record s' { trans_done = false; interest = epoll_out }),
    )
    | again ↦ some (again, live (record s' { trans_done = false }))
    | error ↦ some (error, set_expired (live (record s' { trans_done = true })))
  ]

  abbrev pub reset : Option (Sender Q → Sender Q) → Sender Q → Sender Q
  reset none s = s
  reset (some reset_conn) s = reset_conn s

  abbrev pub finished : Option (Sender Q → Sender Q) → Conn Q → Conn Q
  finished reset_conn (live s) =
      live (if s.trans_done then record (reset reset_conn s) { interest = epoll_in } else s)
  finished reset_conn (closed wire) = closed wire

  pub response_handle :
      Option (Sender Q → Sender Q) → List Write → Sender Q → Option (Status × Conn Q)
  unfolding response_send_buffer
  response_handle reset_conn ws s = response_send_buffer ws s >>= λ (status, bc). elim status [
    | done ↦ some (done, finished reset_conn bc)
    | again ↦ some (again, bc)
    | error ↦ some (error, set_expired bc)
  ]

  -- The loop of net_setup on EPOLLOUT alone; `late` is what connecion_is_expired says. net_epoll_in on
  -- the descriptor that was closed fails and changes nothing; reactivating moves the connection among
  -- the others.
  pub serve_out : Bool → Option (Sender Q → Sender Q) → List Write → Sender Q → Option (Conn Q)
  unfolding response_handle
  serve_out late reset_conn ws s =
      if late
      then some (live s)
      else (response_handle reset_conn ws s >>= λ (status, bc).
          some (elim status [ done ↦ bc | _ ↦ set_expired bc ]))

  pub defalut_send_pkt : Option (Buffer → Buffer) → Buffer → Sender Q → Option (Sender Q)
  defalut_send_pkt mid_func in_buf s =
      cat_to_buffer calloc_gives (filled mid_func) (bytes_at in_buf.ptr) in_buf.len >>= λ (_, buf).
      some (record s {
        write_pkts = queue.put s.write_pkts buf;
        interest = wake s.current_write_buffer s.interest;
      })
