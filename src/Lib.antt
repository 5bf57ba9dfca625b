-- ===== src/Lib.antt =====
-- A model of the LDACS utility library.
--
-- The program is a set of small components that the LDACS stack links against. The ones modelled
-- here, with the files that model them:
--
--   Err       the status codes (global/ldacs_def.h).
--   Bitset    resource allocation on a bit set (src/ld_bitset.c): the struct `bitset_t` is the
--             record `Bitset`, its bytes a list of numbers below 256, and each function of the
--             file is the definition of the same name. Child files: Bits (bit operations on a
--             byte), Alloc, Count (the loops that count and search), Shift (bit_rightshift).
--   RBuffer   the bounded buffer on a circular doubly linked list (src/ld_rbuffer.c). Nodes live
--             in an explicit heap, a read through a dead pointer is `none`. Child files: Store
--             (the heap), Chain (what it is for a heap to hold a ring), Push, Pop, Walk, Deque.
--   Deque     what the buffer promises its users: a list of at most `size` items. It is an
--             interface, a record of calls and laws; RBuffer.Deque fills it and Drr uses it.
--   Drr       the deficit round robin scheduler (src/ld_drr.c), on any implementation of the
--             bounded deque. Child files: Serve (the inner loop for one user), Count (sums over
--             users), Enroll (the first loop), Loop (the second), Alloc (the whole call), Setup.
--   Crc       the checksums of 8 and 32 bits (src/ld_crc.c, include/ld_crc.h). Child files: Xor (the
--             laws of the bit operations), Bitwise (division a bit at a time), Detect, Narrow.
--   Buffer    growing byte buffers (src/ld_buffer.c, include/ld_buffer.h) on the blocks they own.
--             Child files: Copy (what memcpy writes, well-formedness), Cat, Set.
--   PQueue    the priority queue (src/ld_pqueue.c, include/ld_pqueue.h), a heap in an array with its
--             mutex as a flag. bubble_up has the index as its fuel, which each round halves, and
--             percolate_down the size. Child files: Up (one round, what the queue holds), Rise (the
--             loop), Insert, Down, Pop, Change.
--   Net       packets over a stream socket (src/ld_net.c, include/ld_net.h). Net/Receive has
--             read_packet and process_complete_packets on the list of what `read` answers; child
--             files Bytes (byte runs), Stream (a round on part of a stream), Loop, Calls (many
--             reads and calls), Safety and Total (any bytes at all). Net/Send has write_packet,
--             defalut_send_pkt and response_handle on the list of what `write` answers; child
--             files Frame, Wire (one write), Drain (the loop), Progress, Full (a full socket), Events
--             (both sides).
--   Santilizer packets as bit fields (src/ld_santilizer.c, include/ld_santilizer.h, bytes_len of
--             src/ld_utils.c). Child files: Bits (the bits of a number), Append (append_bits),
--             Detach and DetachLoop (detach_bits), Fields (the numbers of out_struct and
--             in_struct, with Carry and Accepted), Strings, and Packet: whole packets, with Out
--             (out_struct, close_output_pbs, gen_pdu) and In (in_struct, parse_sdu), Sendable and
--             Shape (what can be sent), OutSent, Wire and Build (what is written), InSent and Read
--             (what is read), RoundTrip, Ends, Fixed and Damage (fields at fixed places,
--             and a byte that was changed).
--   Window    the sliding windows (src/ld_window.c, include/ld_window.h). Child files: Range (which
--             numbers are taken), Slide (window_slide and window_ack_item), In and Deliver
--             (window_in_get), Out (window_check_get), Transfer (from one window to the other).
--   Heap      the array heap (src/ld_heap.c, include/ld_heap.h). Child files: Order (the order, on
--             factors), Swap (c_swap), Up (heap_insert), Down.
--   Connections the connections in that heap, by the time of their last use (src/ld_net.c). Child
--             files: Remove (connection_unregister), Prune (server_connection_prune), Use.
--   Timers    the conversions of times and the rounds of callbacks (src/ld_globaltimer.c,
--             src/ld_newtimer.c), without the clock, the threads and the semaphores. A round is one
--             turn of the loop, or one test of the stop flag, and the argument is the list of them.
--             Child file: Cycles (until when callbacks are called).
--   Prelude   numbers, lists, options and Boolean tests that the others share.
--
-- State is passed explicitly. Machine integers are natural numbers with their wrap-around written
-- out; where it is not, a comment says why no wrap-around can happen. Allocation is a parameter: in
-- RBuffer `malloc` gives an address without a live node, or NULL, which is then a fault; in Drr `calloc`
-- is taken to succeed; in Buffer and PQueue a test says which requests `calloc` and `realloc` meet.
-- The malloc of the record of a buffer or a ring itself (init_buffer_unptr, ld_rbuffer_init) is taken
-- to succeed: the code writes to it without a test.
--
-- Loops over an index run on what is left of the range. ld_rbuffer_free runs on the count of
-- items. The inner loop of drr_resource_alloc has the user's request plus one as its fuel: each
-- round hands out at least one byte of it or is the last. The second loop has `W + 1`: each round
-- lowers `W`, for a packet of at least one byte. The theorems below state that these are enough.
--
-- process_complete_packets runs on twice the bytes that wait, and one more for a body that is
-- awaited: each round lowers that. write_packet and read_packet run on the list of what the socket
-- answers. window_slide and the slide of window_in_get run on the count of sequence numbers and one
-- more. append_bits and detach_bits run on the bytes that a field reaches, and one more.
-- heap_bubble_up runs on the index and one more, heap_bubble_down on the nodes there are.
--
-- Not modelled: the release of memory alone (free_bitset, free_ld_drr, free_buffer, pqueue_free),
-- logging; dupl_buffer and the array macros of buffers; the operations of the priority queue that
-- wait for another thread, print or flush; the sub-streams of out_struct and in_struct, and the
-- authentication of messages; the making of sockets, what is released with a connection, and the loop
-- over epoll events, but for a socket that can be written to; and the parts of the library that only
-- call the system or another library (epoll, threads, files, sqlite, json, config, dashboard), and
-- copies of other projects (hashmap, state machine, message queue, atomic queue, logger, red-black
-- timers).
pub mod Prelude
pub mod Err
pub mod Deque
pub mod Bitset
pub mod RBuffer
pub mod Santilizer
pub mod Connections
pub mod Heap
pub mod Timers
pub mod Window
pub mod Crc
pub mod Buffer
pub mod PQueue
pub mod Net
pub mod Drr
