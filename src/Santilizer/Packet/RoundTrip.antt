-- ===== src/Santilizer/Packet/RoundTrip.antt =====
-- A whole packet through gen_pdu and parse_sdu of src/ld_santilizer.c: fields, a length, fields, a
-- payload and a checksum.
use liteldacssdk.Prelude.{
  ℕ, ◌+◌, ◌-◌, ◌*◌, ◌/◌, ◌%◌, ◌≤◌, ◌<◌, ◌≡◌, refl, sym, ap, ◌∙◌, Bool, true, false, ltb, some, List,
  [], ◌∷◌, ◌++◌, arith, length, replicate, length-replicate, get_or-replicate,
}
use liteldacssdk.Buffer.{Buffer, bytes_at}
use liteldacssdk.Buffer.Copy.{contents}
use liteldacssdk.Crc.{cal_crc_8bits}
use liteldacssdk.Santilizer.Bits.{bit_zero, bit}
use liteldacssdk.Santilizer.Append.{bit_at}
use liteldacssdk.Santilizer.Fields.{bits_left}
use liteldacssdk.Santilizer.Packet.{Field, Member, unset, value, text, init_pbs, lacks_room}
use liteldacssdk.Santilizer.Packet.Out.{OutState, begin_out, gen_pdu}
use liteldacssdk.Santilizer.Packet.In.{
  InState, struct_size, written_size, in_fields, in_struct, parse_sdu,
}
use liteldacssdk.Buffer.Fresh.{full_buffer}
use liteldacssdk.Santilizer.Packet.Shape.{
  packet, packet_members, crc_at, IsPacket, lacks_room-packet,
}
use liteldacssdk.Santilizer.Packet.Sendable.{
  AreSendable-le, Carries-same, CarriesAt-same, CarriesBytes-same, length-contents,
}
use liteldacssdk.Santilizer.Packet.OutSent.{StandsAt}
use liteldacssdk.Santilizer.Packet.InSent.{fresh}
use liteldacssdk.Santilizer.Packet.Build.{PacketSent, out_fields-PacketSent}
use liteldacssdk.Santilizer.Packet.Read.{IsReceived, received_packet, in_fields-received_packet}
use liteldacssdk.Santilizer.Packet.Wire.{
  on_wire, gen_pdu-on_wire, length-on_wire, length_block, bit_at_block, take_block, crc_of_block,
}

not_past : (size n : ℕ) → n ≤ size → ltb size n ≡ false
not_past size n h = ground arith

written_size-le :
    {A : Type 0} (fields : List (Field A)) (members : List Member)
    → written_size fields members ≤ struct_size fields
written_size-le [] members = omega arith
written_size-le (fp ∷ fields) [] = omega arith
written_size-le (fp ∷ fields) (unset ∷ members) = omega (arith, written_size-le fields members)
written_size-le (fp ∷ fields) (value n ∷ members) = omega (arith, written_size-le fields members)
written_size-le (fp ∷ fields) (text b ∷ members) = omega (arith, written_size-le fields members)

module _ (calloc_gives : ℕ → Bool) where
  parse_sdu-some :
      {A : Type 0} (fields : List (Field A)) (block : Buffer) (size : ℕ) (members : List Member)
      (s : InState)
      → calloc_gives size ≡ true
      → struct_size fields ≤ size
      → lacks_room (init_pbs (bytes_at block.ptr) block.len) fields ≡ false
      → in_fields calloc_gives fields
          (fresh fields)
          (bytes_at block.ptr)
          (record { cur = 0; bit_size = 0; pdu_len = 0 })
        ≡ some (true, members, s)
      → parse_sdu calloc_gives block fields size ≡ some (some members)
  unfolding parse_sdu in_struct init_pbs
  parse_sdu-some fields block size members s given wide room runs =
      let inside : ltb size (written_size fields members) ≡ false =
        not_past size (written_size fields members)
          (omega (arith, written_size-le fields members)) in
      rw (given, room, runs, inside) refl

-- The stream of gen_pdu before anything is written.
module _ (bytes : List ℕ) (roof : ℕ) where
  begins : StandsAt 0 (begin_out (init_pbs bytes roof))
  unfolding init_pbs
  begins = record { at_cur = refl; at_bit = refl }

blank_bits : (n q : ℕ) → 0 ≤ q → bit_at (replicate n 0) q ≡ 0
blank_bits n q h = ap (bit (7 - q % 8)) (get_or-replicate n (q / 8) 0) ∙ bit_zero (7 - q % 8)

packet_sent :
    {A : Type 0} {now size p e : ℕ} {before between : List (Field A)} {ms₁ ms₂ : List Member}
    {b : Buffer}
    → IsPacket now before ms₁ size between ms₂ b p e
    → PacketSent now before ms₁ size between ms₂ b p e
        (begin_out (init_pbs (replicate 4096 0) 4096))
unfolding init_pbs
packet_sent k =
    out_fields-PacketSent (begin_out (init_pbs (replicate 4096 0) 4096)) k
      (begins (replicate 4096 0) 4096) (length-replicate {A = ℕ} 4096 0) (blank_bits 4096) refl

packet-IsReceived :
    {A : Type 0} {now size p e : ℕ} {before between : List (Field A)} {ms₁ ms₂ : List Member}
    {b : Buffer} {s : OutState}
    → IsPacket now before ms₁ size between ms₂ b p e
    → (sent : PacketSent now before ms₁ size between ms₂ b p e s)
    → IsReceived now before ms₁ size between ms₂ b p e
        (on_wire sent.bytes (crc_at e b.len) (crc_at e b.len + 1) ++ 0 ∷ [])
packet-IsReceived {now = now} {size = size} {p = p} {e = e} {b = b} k sent =
    let at = crc_at e b.len in
    let ends = AreSendable-le now k.second in
    let n : length (contents b) ≡ b.len = length-contents b k.block in
    let fits : at + 1 ≤ length sent.bytes = omega (arith, k.fits, sent.sized) in
    let block = on_wire sent.bytes at (at + 1) ++ 0 ∷ [] in
    let same : (q : ℕ) → q < e + 8 * b.len → bit_at block q ≡ bit_at sent.bytes q =
      λ q h. bit_at_block sent.bytes at (at + 1) q (omega arith) fits (omega (arith, k.aligned)) in
    record {
      sized = length_block sent.bytes at (at + 1) fits;
      carries_first =
          Carries-same now sent.bytes block k.first (λ q l m. same q (omega arith))
            sent.carries_first;
      carries_length =
          CarriesAt-same size (at + 1) p sent.bytes block (λ q l m. same q (omega arith))
            sent.carries_length;
      carries_second =
          Carries-same now sent.bytes block k.second (λ q l m. same q (omega arith))
            sent.carries_second;
      carries_payload =
          CarriesBytes-same (contents b) e sent.bytes block (λ q l m. same q (omega (arith, n)))
            sent.carries_payload;
      checked =
          crc_of_block sent.bytes at (at + 1) (omega arith) fits
          ∙ ap (λ t. some (cal_crc_8bits t))
              (sym (take_block sent.bytes at (at + 1) (omega arith) fits));
    }

module _ (calloc_gives : ℕ → Bool) (memory : (n : ℕ) → calloc_gives n ≡ true) {A : Type 0}
    {now size p e : ℕ} {before between : List (Field A)} {ms₁ ms₂ : List Member} {b : Buffer} where
  gen_pdu-full_buffer :
      (k : IsPacket now before ms₁ size between ms₂ b p e)
      (sent : PacketSent now before ms₁ size between ms₂ b p e
        (begin_out (init_pbs (replicate 4096 0) 4096)))
      → gen_pdu calloc_gives (packet before size between) now (packet_members ms₁ ms₂ b)
        ≡ some (full_buffer (on_wire sent.bytes (crc_at e b.len) (crc_at e b.len + 1)))
  gen_pdu-full_buffer k sent =
      gen_pdu-on_wire calloc_gives (packet before size between) now (packet_members ms₁ ms₂ b)
        sent.after (p / 8, bits_left size p) sent.bytes (crc_at e b.len) memory
        (lacks_room-packet (replicate 4096 0) 4096 k k.fits (omega arith)) sent.runs sent.slen
        sent.plen sent.crc sent.fills (omega (arith, k.fits, sent.sized))
        (omega (arith, k.fits, sent.sized, sent.at_end)) sent.sized
      ∙ ap (λ n. some (full_buffer (on_wire sent.bytes (crc_at e b.len) n))) sent.at_end

  -- A packet of fields that can be sent, a length whose member is 0, more fields, a payload and a
  -- checksum of 8 bits, with the payload at a whole byte, at most 4096 bytes in all and a length that
  -- fits its field: when memory does not run out, gen_pdu gives a buffer with that many bytes, and
  -- parse_sdu of it, for a struct with room for the members, gives the members that were sent, with
  -- the number of bytes as the length.
  pub parse_sdu-gen_pdu :
      IsPacket now before ms₁ size between ms₂ b p e
      → (sizeof : ℕ) → struct_size (packet before size between) ≤ sizeof
      → (pdu : Buffer) × (gen_pdu calloc_gives
            (packet before size between)
            now
            (packet_members ms₁ ms₂ b)
          ≡ some pdu)
        × (pdu.len ≡ crc_at e b.len + 1)
        × (parse_sdu calloc_gives pdu (packet before size between) sizeof
            ≡ some (some (received_packet now before ms₁ between ms₂ b (crc_at e b.len + 1))))
  parse_sdu-gen_pdu k sizeof wide =
      let sent = packet_sent k in
      let wire = on_wire sent.bytes (crc_at e b.len) (crc_at e b.len + 1) in
      let n : length wire ≡ crc_at e b.len + 1 =
        length-on_wire sent.bytes (crc_at e b.len) (crc_at e b.len + 1)
          (omega (arith, k.fits, sent.sized)) in
      let (s, runs) =
        in_fields-received_packet calloc_gives memory (wire ++ 0 ∷ [])
          (record { cur = 0; bit_size = 0; pdu_len = 0 }) k (packet-IsReceived k sent)
          (record { at_cur = refl; at_bit = refl }) in
      (
        full_buffer wire,
        gen_pdu-full_buffer k sent,
        n,
        parse_sdu-some calloc_gives (packet before size between) (full_buffer wire) sizeof
            (received_packet now before ms₁ between ms₂ b (crc_at e b.len + 1)) s (memory sizeof)
            wide
            (lacks_room-packet (wire ++ 0 ∷ []) (length wire) k (omega (arith, n))
              (omega (arith, n, k.fits)))
            runs,
      )
