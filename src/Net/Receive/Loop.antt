-- ===== src/Net/Receive/Loop.antt =====
-- process_complete_packets of src/ld_net.c on part of a stream, to its end: every packet that is
-- complete goes to the handler.
use liteldacssdk.Prelude.{
  ℕ, zero, suc, ◌+◌, ◌^◌, ◌≤◌, ◌<◌, ◌≡◌, refl, sym, ap, ap₂, ◌∙◌, subst, inl, inr, Bool, true,
  false, Option, none, some, List, [], ◌∷◌, ◌++◌, arith, length, take, drop, ltb, ◌==◌,
  if◌then◌else◌, Bool-cases, Option-cases,
}
use liteldacssdk.Err.{Err}
use liteldacssdk.Buffer.{Buffer, bytes_at, init_buffer_unptr, clone_to_chunk}
use liteldacssdk.Buffer.Copy.{contents, IsValid}
use liteldacssdk.Buffer.Set.{chunk_given, clone_to_chunk-Cloned}
use liteldacssdk.Net.{Status, done, error, frames}
use liteldacssdk.Net.Receive.{
  Receiver, Round, more, failed, stop, fault, is_internal, deliver, read_header, read_body,
  round_on, process_round, process_from, rounds, remove_from_buffer_front,
}
use liteldacssdk.Net.Receive.Bytes.{remove_from_buffer_front-Removed}
use liteldacssdk.Net.Receive.Stream.{
  ArePackets, header, Holds, handle_all, Progress, stopped, moved, at_body, first_sized, quiet,
  cut_fits, rounds_at, read_header-Progress, body_here,
}

-- The memory and the handler: nothing is refused, and a packet is taken by its bytes.
pub record Takes (calloc_gives : ℕ → Bool) {H : Type 0} (recv_handler : Buffer → H → Err × H)
    (take_packet : List ℕ → H → H) : Type 0 where
  pub gives : (n : ℕ) → calloc_gives n ≡ true
  pub takes :
      (buf : Buffer) (h : H)
      → IsValid buf
      → (e : Err) × (is_internal e ≡ false)
        × (recv_handler buf h ≡ (e, take_packet (contents buf) h))

module _ (calloc_gives : ℕ → Bool) {H : Type 0} (recv_handler : Buffer → H → Err × H)
    (take_packet : List ℕ → H → H) (ok_handler : Takes calloc_gives recv_handler take_packet)
    (later : List ℕ) where
  clone_here :
      (buf : Buffer) (e : ℕ)
      → IsValid buf
      → 0 < e
      → e ≤ buf.len
      → e < 2 ^ 63
      → (ch : Buffer) × (clone_to_chunk calloc_gives init_buffer_unptr buf.ptr e ≡ some ch)
        × IsValid ch
        × (contents ch ≡ take e (bytes_at buf.ptr))
  clone_here buf e v pos full small = elim (Option-cases buf.ptr) [
    | inl gone ↦ absurd (omega (arith, v.used, v.block, ap (λ p. length (bytes_at p)) gone))
    | inr (bytes, here) ↦
        let (ch, is, w, c) =
          chunk_given
            (clone_to_chunk-Cloned calloc_gives init_buffer_unptr bytes e
              (omega (arith, v.used, v.block, ap (λ p. length (bytes_at p)) here))
              (omega (arith, v.used, v.block, v.small)))
            (ok_handler.gives (e + 1)) in
        (
          ch,
          ap (λ p. clone_to_chunk calloc_gives init_buffer_unptr p e) here ∙ is,
          w,
          c ∙ ap (λ p. take e (bytes_at p)) (sym here),
        )
  ]

  module _ (r : Receiver H) (packets : List (List ℕ)) (g : Holds r later packets) where
    deliver-Progress :
        (packet : List ℕ) (rest : List (List ℕ)) (ch : Buffer)
        → packets ≡ packet ∷ rest
        → r.reading_header ≡ false
        → r.expected_pkt_len ≡ length packet
        → r.expected_pkt_len ≤ g.buf.len
        → IsValid ch
        → contents ch ≡ packet
        → drop r.expected_pkt_len (contents g.buf) ++ later ≡ frames rest
        → Progress take_packet r later packets (deliver calloc_gives recv_handler g.buf r (some ch))
    unfolding handle_all
    deliver-Progress packet rest ch is f n full w c after =
        let (e, fine, result) = ok_handler.takes ch r.handled w in
        let (pos, small, sized) = first_sized (subst ArePackets is g.sized) in
        let cut = remove_from_buffer_front-Removed g.buf r.expected_pkt_len g.valid in
        rw (result, fine)
          (moved _ rest
            (record {
              buf = remove_from_buffer_front g.buf r.expected_pkt_len;
              here = refl;
              valid = cut.valid;
              awaits = header rest refl (ap (λ xs. xs ++ later) cut.rest ∙ after);
              sized = sized;
              fits = cut_fits take_packet r later packets g r.expected_pkt_len;
            })
            (ap (λ p. handle_all take_packet rest (take_packet p r.handled)) c
              ∙ sym (ap (λ ps. handle_all take_packet ps r.handled) is))
            (omega (arith, rounds_at take_packet r later packets g false f, cut.shorter)))

    read_body-Progress :
        r.reading_header ≡ false
        → Progress take_packet r later packets (read_body calloc_gives recv_handler g.buf r)
    read_body-Progress f = elim (Bool-cases (ltb g.buf.len r.expected_pkt_len)) [
      | inl e ↦
          let short : g.buf.len < r.expected_pkt_len = ground arith in
          rw e (stopped (quiet take_packet r later packets g (λ t. absurd (cc)) (λ u. omega arith)))
      | inr e ↦
          let full : r.expected_pkt_len ≤ g.buf.len = ground arith in
          let (packet, rest, is, n, whole) = at_body g.awaits f in
          let (pos, small, sized) = first_sized (subst ArePackets is g.sized) in
          let (front, after) = body_here take_packet r later packets g packet rest n whole full in
          let (ch, copy, w, c) =
            clone_here g.buf r.expected_pkt_len g.valid (omega arith) full (omega arith) in
          rw (e, copy) (deliver-Progress packet rest ch is f n full w (c ∙ front) after)
    ]

    process_round-Progress :
        Progress take_packet r later packets (process_round calloc_gives recv_handler r)
    unfolding process_round
    process_round-Progress =
        let chosen = λ (b c : Bool).
          if b
          then stop
          else if c
          then read_header g.buf r
          else read_body calloc_gives recv_handler g.buf r in
        let Goal = λ (x : Round H). Progress take_packet r later packets x in
        subst (λ o. Goal (round_on calloc_gives recv_handler r o)) (sym g.here)
          (elim (Bool-cases (g.buf.len == 0)) [
            | inl e ↦
                let empty : g.buf.len ≡ 0 = ground arith in
                subst (λ b. Goal (chosen b r.reading_header)) (sym e)
                  (stopped
                    (quiet take_packet r later packets g (λ t. omega arith) (λ u. omega arith)))
            | inr e ↦ elim (Bool-cases r.reading_header) [
              | inl t ↦
                  subst Goal (sym (ap₂ chosen e t))
                    (read_header-Progress take_packet r later packets g t (ground arith))
              | inr f ↦ subst Goal (sym (ap₂ chosen e f)) (read_body-Progress f)
            ]
          ])

module _ {H : Type 0} (take_packet : List ℕ → H → H) (later : List ℕ) where
  -- All that is complete was handled, and the receiver holds the rest.
  pub data Processed (handled : H) (packets : List (List ℕ))
      : Option (Status × Receiver H) → Type 0 where
    processed :
        (r : Receiver H) (packets' : List (List ℕ))
        → Holds r later packets'
        → (later ≡ [] → packets' ≡ [])
        → handle_all take_packet packets' r.handled ≡ handle_all take_packet packets handled
        → Processed handled packets (some (done, r))

  pub carry :
      {h h' : H} {packets packets' : List (List ℕ)} {o : Option (Status × Receiver H)}
      → handle_all take_packet packets' h' ≡ handle_all take_packet packets h
      → Processed h' packets' o
      → Processed h packets o
  carry e (processed r ps g q e') = processed r ps g q (e' ∙ e)

module _ (calloc_gives : ℕ → Bool) {H : Type 0} (recv_handler : Buffer → H → Err × H)
    (take_packet : List ℕ → H → H) (ok_handler : Takes calloc_gives recv_handler take_packet)
    (later : List ℕ) where
  pub process_from-Processed :
      (fuel : ℕ) (r : Receiver H) (packets : List (List ℕ))
      → Holds r later packets
      → rounds r < fuel
      → Processed take_packet later r.handled packets
          (process_from calloc_gives recv_handler fuel r)
  unfolding process_from
  process_from-Processed zero r packets g h = absurd (omega arith)
  process_from-Processed (suc fuel) r packets g h =
      go (λ r' ps g' less. process_from-Processed fuel r' ps g' (omega arith))
        (process_round calloc_gives recv_handler r)
        (process_round-Progress calloc_gives recv_handler take_packet ok_handler later r packets g)
    where
      go :
          ((r' : Receiver H) (ps : List (List ℕ))
            → Holds r' later ps
            → rounds r' < rounds r
            → Processed take_packet later r'.handled ps
                (process_from calloc_gives recv_handler fuel r'))
          → (x : Round H) → Progress take_packet r later packets x
          → Processed take_packet later r.handled packets (elim x [
            | more r' ↦ process_from calloc_gives recv_handler fuel r'
            | failed r' ↦ some (error, r')
            | stop ↦ some (done, r)
            | fault ↦ none
          ])
      go on stop (stopped q) = processed r packets g q refl
      go on (more _) (moved r' packets' g' e less) =
          carry take_packet later e (on r' packets' g' less)
      go on (failed _) impossible = elim impossible [ ]
      go on fault impossible = elim impossible [ ]
