-- ===== src/Santilizer/Packet/Build.antt =====
-- What out_struct of src/ld_santilizer.c leaves of a packet with a length, a payload and a checksum.
use liteldacssdk.Prelude.{
  ℕ, ◌+◌, ◌/◌, ◌≡◌, refl, ap₂, ◌∙◌, subst, true, none, some, List, [], ◌∷◌, ◌++◌, arith, length,
}
use liteldacssdk.Buffer.{Buffer}
use liteldacssdk.Buffer.Copy.{contents}
use liteldacssdk.Santilizer.Bits.{two_pos}
use liteldacssdk.Santilizer.Fields.{FieldDesc, written, member_bits, bytes_len, bits_left}
use liteldacssdk.Santilizer.Fields.Carry.{CarriesAt, IsBlank, Put, append_bits-Put}
use liteldacssdk.Santilizer.Strings.RoundTrip.{Sent, append_str-Sent, CarriesBytes}
use liteldacssdk.Santilizer.Packet.{Field, number, Member, unset, value, text}
use liteldacssdk.Santilizer.Packet.Out.{OutState, fill_length, out_crc, out_field, out_fields}
use liteldacssdk.Santilizer.Packet.Shape.{
  packet, packet_end, packet_members, length_field, crc_at, IsPacket, member-zero,
}
use liteldacssdk.Santilizer.Packet.Sendable.{
  AreSendable-le, Carries, Carries-same, CarriesAt-same, CarriesBytes-same, length-contents,
}
use liteldacssdk.Santilizer.Packet.OutSent.{
  StandsAt, after_number, out_field_number, after_text, out_text-after_text, FieldsSent,
  out_fields-FieldsSent,
}
use liteldacssdk.Santilizer.Packet.Wire.{fill_length-LengthFilled}

pub record PacketSent {A : Type 0} (now : ℕ) (before : List (Field A)) (ms₁ : List Member)
    (size : ℕ) (between : List (Field A)) (ms₂ : List Member) (b : Buffer) (p e : ℕ) (s : OutState)
    : Type 0 where
  pub after : OutState
  pub bytes : List ℕ
  pub runs :
      out_fields (packet before size between) now (packet_members ms₁ ms₂ b) s ≡ some (true, after)
  pub slen : after.out.slen_fld ≡ none
  pub plen : after.out.plen_fld ≡ some (p / 8, bits_left size p)
  pub crc : after.crc_fld ≡ some (crc_at e b.len, 8)
  pub at_end : after.out.cur ≡ crc_at e b.len + 1
  pub fills :
      fill_length (some 0) after.out.cur (some (p / 8, bits_left size p)) after.out.stream
      ≡ some bytes
  pub sized : length bytes ≡ 4096
  pub carries_first : Carries now bytes before ms₁ 0
  pub carries_length : CarriesAt bytes p size (crc_at e b.len + 1)
  pub carries_second : Carries now bytes between ms₂ (p + size)
  pub carries_payload : CarriesBytes bytes e (contents b)

module _ {A : Type 0} {now size p e : ℕ} {before between : List (Field A)} {ms₁ ms₂ : List Member}
    {b : Buffer} (s : OutState) (k : IsPacket now before ms₁ size between ms₂ b p e)
    (sized : length s.out.stream ≡ 4096) (no_slen : s.out.slen_fld ≡ none)
    (f : FieldsSent before now ms₁ 0 p s)
    (put : Put size (written (length_field {A = A} size) now 0) p f.after.out.stream)
    (g : FieldsSent between now ms₂
      (p + size)
      e
      (after_number (length_field {A = A} size) p f.after put.after))
    (sent : Sent (contents b) e g.after.out.stream) where
  -- The payload behind the fields, then the length in its place.
  end_packet : PacketSent now before ms₁ size between ms₂ b p e s
  unfolding out_fields out_field
  end_packet =
      let n : length (contents b) ≡ b.len = length-contents b k.block in
      let ends = AreSendable-le now k.second in
      let fp : FieldDesc A = length_field size in
      let zero_written : written fp now 0 ≡ 0 = member-zero (member_bits (bytes_len size)) in
      let zeros : CarriesAt put.after p size 0 =
        subst (λ v. CarriesAt put.after p size v) zero_written put.carries in
      let filled_in =
        fill_length-LengthFilled size (crc_at e b.len + 1) p sent.after k.counted
          (omega (arith, k.fits, sent.sized, g.sized, put.sized, f.sized, sized))
          (CarriesAt-same size 0 p put.after sent.after
            (λ q l m. sent.kept q (omega arith) ∙ g.kept q m) zeros) in
      record {
        after = out_crc 8 (after_text e b.len g.after sent.after);
        bytes = filled_in.after;
        runs =
            f.runs (number fp ∷ (between ++ packet_end))
              (value 0 ∷ (ms₂ ++ text (some b) ∷ unset ∷ []))
            ∙ rw
                (
                  out_field_number fp now 0 p f.after put f.stands refl,
                  g.runs packet_end (text (some b) ∷ unset ∷ []),
                  out_text-after_text b e g.after sent g.stands k.block,
                )
                refl;
        slen = g.notes.slen_kept ∙ f.notes.slen_kept ∙ no_slen;
        plen = g.notes.plen_kept ∙ ap₂ (λ c l. some (c, size + l)) f.stands.at_cur f.stands.at_bit;
        crc = refl;
        at_end = refl;
        fills = filled_in.runs;
        sized = omega (arith, filled_in.sized, sent.sized, g.sized, put.sized, f.sized, sized);
        carries_first =
            Carries-same now f.after.out.stream filled_in.after k.first
              (λ q l m.
                filled_in.before q m
                ∙ sent.kept q (omega arith)
                ∙ g.kept q (omega arith)
                ∙ put.kept q m)
              f.carries;
        carries_length = filled_in.carries;
        carries_second =
            Carries-same now g.after.out.stream filled_in.after k.second
              (λ q l m. filled_in.behind q l ∙ sent.kept q m) g.carries;
        carries_payload =
            CarriesBytes-same (contents b) e sent.after filled_in.after
              (λ q l m. filled_in.behind q (omega arith)) sent.carries;
      }

pub out_fields-PacketSent :
    {A : Type 0} {now size p e : ℕ} {before between : List (Field A)} {ms₁ ms₂ : List Member}
    {b : Buffer} (s : OutState)
    → IsPacket now before ms₁ size between ms₂ b p e
    → StandsAt 0 s
    → length s.out.stream ≡ 4096
    → IsBlank s.out.stream 0
    → s.out.slen_fld ≡ none
    → PacketSent now before ms₁ size between ms₂ b p e s
out_fields-PacketSent {A = A} {now = now} {size = size} {p = p} {e = e} {before = before}
      {between = between} {ms₁ = ms₁} {ms₂ = ms₂} {b = b} s k at sized blank no_slen =
    let n : length (contents b) ≡ b.len = length-contents b k.block in
    let ends = AreSendable-le now k.second in
    let fp : FieldDesc A = length_field size in
    let zero_written : written fp now 0 ≡ 0 = member-zero (member_bits (bytes_len size)) in
    let f = out_fields-FieldsSent s k.first at (omega (arith, k.fits, sized)) blank in
    let put =
      append_bits-Put size (written fp now 0) p f.after.out.stream
        (omega (arith, zero_written, two_pos size)) (omega (arith, k.fits, f.sized, sized))
        f.blank in
    let s' = after_number fp p f.after put.after in
    let g : FieldsSent between now ms₂ (p + size) e s' =
      out_fields-FieldsSent s' k.second
        (record { at_cur = refl; at_bit = omega (arith, f.stands.at_bit) })
        (omega (arith, k.fits, put.sized, f.sized, sized)) put.blank in
    let sent =
      append_str-Sent (contents b) e g.after.out.stream k.valid
        (omega (arith, n, k.fits, k.aligned, g.sized, put.sized, f.sized, sized)) g.blank in
    end_packet s k sized no_slen f put g sent
