-- ===== src/Net/Receive/Stream.antt =====
-- Packets out of a stream: the rounds of process_complete_packets of src/ld_net.c, on a buffer that
-- holds the front of a stream of packets.
use liteldacssdk.Prelude.{
  ℕ, ◌^◌, ◌≤◌, ◌<◌, max, ◌≡◌, refl, sym, ap, ap₂, ◌∙◌, subst, inl, inr, Bool, true, false, some,
  List, [], ◌∷◌, ◌++◌, append_assoc, arith, length, take, drop, length-append, length-drop, ltb,
  ◌==◌, Bool-cases,
}
use liteldacssdk.Buffer.{Buffer, bytes_at}
use liteldacssdk.Buffer.Copy.{contents, IsValid}
use liteldacssdk.Net.{max_input, to_network, from_network, frame, frames}
use liteldacssdk.Net.Receive.{
  Receiver, Round, more, stop, take_header, read_header, rounds, remove_from_buffer_front,
  rounds_left,
}
use liteldacssdk.Net.Receive.Bytes.{
  from_network-to_network, from_network-take, append_split, take-append_self, take-take,
  length-contents, remove_from_buffer_front-Removed,
}

-- Packets that the receiver takes: neither empty nor too long.
pub data ArePackets : List (List ℕ) → Type 0 where
  no_more : ArePackets []
  next :
      {packet : List ℕ} {packets : List (List ℕ)}
      → 0 < length packet
      → length packet ≤ max_input
      → ArePackets packets
      → ArePackets (packet ∷ packets)

-- The rest of the stream, by what the receiver waits for.
pub data Awaits (reading_header : Bool) (expected : ℕ) (whole : List ℕ)
    : List (List ℕ) → Type 0 where
  header :
      (packets : List (List ℕ))
      → reading_header ≡ true
      → whole ≡ frames packets
      → Awaits reading_header expected whole packets
  body :
      (packet : List ℕ) (packets : List (List ℕ))
      → reading_header ≡ false
      → expected ≡ length packet
      → whole ≡ packet ++ frames packets
      → Awaits reading_header expected whole (packet ∷ packets)

-- A receiver that has part of the stream of `packets`; `later` is still to come.
pub record Holds {H : Type 0} (r : Receiver H) (later : List ℕ) (packets : List (List ℕ))
    : Type 0 where
  pub buf : Buffer
  pub here : r.recv_buffer ≡ some buf
  pub valid : IsValid buf
  pub awaits : Awaits r.reading_header r.expected_pkt_len (contents buf ++ later) packets
  pub sized : ArePackets packets
  pub fits : length (contents buf ++ later) < 2 ^ 63

-- Too few bytes for what is awaited: there is no packet.
too_few_bytes :
    {h : Bool} {e : ℕ} {whole : List ℕ} {packets : List (List ℕ)}
    → Awaits h e whole packets
    → ArePackets packets
    → (h ≡ true → length whole < 4)
    → (h ≡ false → length whole < max 1 e)
    → packets ≡ []
unfolding frames
too_few_bytes (header [] t w) s f g = refl
too_few_bytes (header (p ∷ ps) t w) s f g =
    absurd (omega (arith, f t, ap length w, length-append (frame p) (frames ps)))
too_few_bytes (body p ps t e w) (next pos small s) f g =
    absurd (omega (arith, g t, pos, e, ap length w, length-append p (frames ps)))

module _ {H : Type 0} (take_packet : List ℕ → H → H) where
  unfoldable pub handle_all : List (List ℕ) → H → H
  handle_all [] h = h
  handle_all (packet ∷ packets) h = handle_all packets (take_packet packet h)

  -- What a round does to a receiver that holds part of a stream.
  pub data Progress (r : Receiver H) (later : List ℕ) (packets : List (List ℕ))
      : Round H → Type 0 where
    stopped : (later ≡ [] → packets ≡ []) → Progress r later packets stop
    moved :
        (r' : Receiver H) (packets' : List (List ℕ))
        → Holds r' later packets'
        → handle_all packets' r'.handled ≡ handle_all packets r.handled
        → rounds r' < rounds r
        → Progress r later packets (more r')

-- A stream that begins with a header, four bytes of which are here.
header_here :
    (xs ys : List ℕ) (packets : List (List ℕ))
    → xs ++ ys ≡ frames packets
    → ArePackets packets
    → 4 ≤ length xs
    → (packet : List ℕ) × (rest : List (List ℕ)) × (packets ≡ packet ∷ rest)
      × (0 < length packet)
      × (length packet ≤ max_input)
      × (from_network xs ≡ some (length packet))
      × (drop 4 xs ++ ys ≡ packet ++ frames rest)
unfolding frames
header_here xs ys [] e s h = absurd (omega (arith, ap length e, length-append xs ys))
header_here xs ys (p ∷ ps) e (next pos small s) h =
    let (front, rest) =
      append_split xs ys (to_network (length p)) (p ++ frames ps)
        (e ∙ append_assoc (to_network (length p)) p (frames ps)) h in
    (
      p,
      ps,
      refl,
      pos,
      small,
      ap from_network front ∙ from_network-to_network (length p) (drop 4 xs) (omega arith),
      rest,
    )

at_header :
    {h : Bool} {e : ℕ} {whole : List ℕ} {packets : List (List ℕ)}
    → Awaits h e whole packets
    → h ≡ true
    → whole ≡ frames packets
at_header (header ps t w) u = w
at_header (body p ps f e w) u = absurd (cc)

pub at_body :
    {h : Bool} {e : ℕ} {whole : List ℕ} {packets : List (List ℕ)}
    → Awaits h e whole packets
    → h ≡ false
    → (packet : List ℕ) × (rest : List (List ℕ)) × (packets ≡ packet ∷ rest)
      × (e ≡ length packet)
      × (whole ≡ packet ++ frames rest)
at_body (header ps t w) u = absurd (cc)
at_body (body p ps f e w) u = (p, ps, refl, e, w)

pub first_sized :
    {packet : List ℕ} {packets : List (List ℕ)}
    → ArePackets (packet ∷ packets)
    → (0 < length packet) × (length packet ≤ max_input) × ArePackets packets
first_sized (next pos small s) = (pos, small, s)

module _ {H : Type 0} (take_packet : List ℕ → H → H) (r : Receiver H) (later : List ℕ)
    (packets : List (List ℕ)) (g : Holds r later packets) where
  pub quiet :
      (r.reading_header ≡ true → g.buf.len < 4)
      → (r.reading_header ≡ false → g.buf.len < max 1 r.expected_pkt_len)
      → later ≡ []
      → packets ≡ []
  quiet f k none_later =
      let n : length (contents g.buf ++ later) ≡ g.buf.len = omega (
        arith,
        length-append (contents g.buf) later,
        length-contents g.valid,
        ap length none_later,
      ) in
      too_few_bytes g.awaits g.sized (λ t. omega (arith, f t)) (λ t. omega (arith, k t))

  pub cut_fits :
      (count : ℕ) → length (contents (remove_from_buffer_front g.buf count) ++ later) < 2 ^ 63
  cut_fits count =
      let cut = remove_from_buffer_front-Removed g.buf count g.valid in
      omega (
        arith,
        g.fits,
        length-append (contents (remove_from_buffer_front g.buf count)) later,
        length-append (contents g.buf) later,
        ap length cut.rest,
        length-drop count (contents g.buf),
      )

  pub rounds_at : (h : Bool) → r.reading_header ≡ h → rounds r ≡ rounds_left (some g.buf) h
  rounds_at h t = ap₂ rounds_left g.here t

  header_taken :
      (packet : List ℕ) (rest : List (List ℕ))
      → packets ≡ packet ∷ rest
      → r.reading_header ≡ true
      → 4 ≤ g.buf.len
      → 0 < length packet
      → length packet ≤ max_input
      → drop 4 (contents g.buf) ++ later ≡ packet ++ frames rest
      → Progress take_packet r later packets (take_header g.buf r (some (length packet)))
  header_taken packet rest e t four pos small after =
      let zero_no : (length packet == 0) ≡ false = ground arith in
      let long_no : ltb max_input (length packet) ≡ false = ground arith in
      let cut = remove_from_buffer_front-Removed g.buf 4 g.valid in
      rw (zero_no, long_no)
        (moved _ packets
          (record {
            buf = remove_from_buffer_front g.buf 4;
            here = refl;
            valid = cut.valid;
            awaits =
                subst
                  (λ ps.
                    Awaits false (length packet)
                      (contents (remove_from_buffer_front g.buf 4) ++ later) ps)
                  (sym e) (body packet rest refl refl (ap (λ xs. xs ++ later) cut.rest ∙ after));
            sized = g.sized;
            fits = cut_fits 4;
          })
          refl (omega (arith, rounds_at true t, cut.shorter)))

  pub read_header-Progress :
      r.reading_header ≡ true
      → 0 < g.buf.len
      → Progress take_packet r later packets (read_header g.buf r)
  read_header-Progress t pos = elim (Bool-cases (ltb g.buf.len 4)) [
    | inl e ↦ rw e (stopped (quiet (λ u. ground arith) (λ u. absurd (cc))))
    | inr e ↦
        let four : 4 ≤ g.buf.len = ground arith in
        let (packet, rest, is, full, small, read, after) =
          header_here (contents g.buf) later packets (at_header g.awaits t) g.sized
            (omega (arith, length-contents g.valid)) in
        rw (e, from_network-take g.buf.len (bytes_at g.buf.ptr) read)
          (header_taken packet rest is t four full small after)
  ]

  -- A body that is here, as the copy that the handler gets.
  pub body_here :
      (packet : List ℕ) (rest : List (List ℕ))
      → r.expected_pkt_len ≡ length packet
      → contents g.buf ++ later ≡ packet ++ frames rest
      → r.expected_pkt_len ≤ g.buf.len
      → (take r.expected_pkt_len (bytes_at g.buf.ptr) ≡ packet)
        × (drop r.expected_pkt_len (contents g.buf) ++ later ≡ frames rest)
  body_here packet rest n whole full =
      let (front, after) =
        append_split (contents g.buf) later packet (frames rest) whole
          (omega (arith, length-contents g.valid)) in
      let cut = take-append_self packet (drop (length packet) (contents g.buf)) in
      (
        sym (take-take r.expected_pkt_len g.buf.len (bytes_at g.buf.ptr) full)
            ∙ ap (λ xs. take r.expected_pkt_len xs) front
            ∙ ap (λ k. take k (packet ++ drop (length packet) (contents g.buf))) n
            ∙ cut,
        ap (λ k. drop k (contents g.buf) ++ later) n ∙ after,
      )
