-- ===== src/Santilizer/Packet/Shape.antt =====
-- A packet of src/ld_santilizer.c with fields, a length, fields, a payload and a checksum.
use liteldacssdk.Prelude.{
  ℕ, ◌+◌, ◌*◌, ◌/◌, ◌%◌, ◌^◌, ◌≤◌, ◌<◌, ◌≡◌, refl, false, Option, none, some, List, [], ◌∷◌, ◌++◌,
  arith, length, AreBytes,
}
use liteldacssdk.Buffer.{Buffer, bytes_at}
use liteldacssdk.Buffer.Copy.{contents}
use liteldacssdk.Santilizer.Fields.{ft_plen, FieldDesc, member}
use liteldacssdk.Santilizer.Packet.{
  Field, number, ft_p_raw, ft_crc, Member, unset, value, text, init_pbs, lacks_room, bits_of,
  sizeof_packet,
}
use liteldacssdk.Santilizer.Packet.Sendable.{
  AreSendable, no_fields, next_number, next_text, next_pad,
}

module _ {A : Type 0} where
  bits_of-append : (xs ys : List (Field A)) → bits_of (xs ++ ys) ≡ bits_of xs + bits_of ys
  bits_of-append [] ys = omega arith
  bits_of-append (x ∷ xs) ys = omega (arith, bits_of-append xs ys)

  pub bits_of_le :
      {now : ℕ} {fields : List (Field A)} {members : List Member} {p e : ℕ}
      → AreSendable now fields members p e
      → p + bits_of fields ≤ e
  bits_of_le no_fields = omega arith
  bits_of_le (next_number l pos narrow small fine a) = omega (arith, bits_of_le a)
  bits_of_le (next_text size short block bytes a) = omega (arith, bits_of_le a)
  bits_of_le (next_pad a) = omega (arith, bits_of_le a)

  -- A length field.
  abbrev pub length_field : ℕ → FieldDesc A
  length_field size = record { field_type = ft_plen; size = size; enum_desc = []; fix_num = 0 }

  -- What comes behind the length; the payload's field knows the checksum of 8 bits behind it.
  abbrev pub packet_end : List (Field A)
  packet_end = ft_p_raw 0 8 ∷ ft_crc 8 ∷ []

  abbrev pub packet : List (Field A) → ℕ → List (Field A) → List (Field A)
  packet before size between = before ++ number (length_field size) ∷ (between ++ packet_end)

pub member-zero : (o : Option ℕ) → member o 0 ≡ 0
member-zero none = refl
member-zero (some w) = omega arith

-- The member of the length is 0: out_struct writes it, and the length is then put over its bits.
abbrev pub packet_members : List Member → List Member → Buffer → List Member
packet_members ms₁ ms₂ b = ms₁ ++ value 0 ∷ (ms₂ ++ text (some b) ∷ unset ∷ [])

-- Where the checksum stands when a payload of `n` bytes starts at the place `e`.
abbrev pub crc_at : ℕ → ℕ → ℕ
crc_at e n = (e + 8 * n) / 8

-- The parts of such a packet: `p` is where the length stands, `e` where the payload starts.
pub record IsPacket {A : Type 0} (now : ℕ) (before : List (Field A)) (ms₁ : List Member) (size : ℕ)
    (between : List (Field A)) (ms₂ : List Member) (b : Buffer) (p e : ℕ) : Type 0 where
  pub first : AreSendable now before ms₁ 0 p
  pub pos : 0 < size
  pub narrow : size ≤ 31
  pub second : AreSendable now between ms₂ (p + size) e
  pub aligned : e % 8 ≡ 0
  pub block : b.len ≤ length (bytes_at b.ptr)
  pub valid : AreBytes (contents b)
  pub fits : crc_at e b.len + 1 ≤ 4096
  pub counted : crc_at e b.len + 1 < 2 ^ size

module _ {A : Type 0} where
  packet_bits :
      {now size p e : ℕ} {before between : List (Field A)} {ms₁ ms₂ : List Member} {b : Buffer}
      → IsPacket now before ms₁ size between ms₂ b p e
      → bits_of (packet before size between) ≤ e + 8
  packet_bits {size = size} {before = before} {between = between} k = omega (
    arith,
    bits_of-append before (number (length_field size) ∷ (between ++ packet_end)),
    bits_of-append between packet_end,
    bits_of_le k.first,
    bits_of_le k.second,
  )

  room_for :
      (fields : List (Field A)) (bytes : List ℕ) (total roof : ℕ)
      → bits_of fields ≤ 8 * total
      → total ≤ roof
      → roof < 2 ^ 64
      → lacks_room (init_pbs bytes roof) fields ≡ false
  unfolding init_pbs
  room_for fields bytes total roof h l m =
      let left : (roof + 2 ^ 64) % 2 ^ 64 ≡ roof = omega arith in
      let enough : sizeof_packet fields ≤ roof = ground arith in rw left (ground arith)

  -- A stream with room for a packet is not too small for in_struct or out_struct.
  pub lacks_room-packet :
      {now size p e : ℕ} {before between : List (Field A)} {ms₁ ms₂ : List Member} {b : Buffer}
      (bytes : List ℕ) (roof : ℕ)
      → IsPacket now before ms₁ size between ms₂ b p e
      → crc_at e b.len + 1 ≤ roof
      → roof < 2 ^ 64
      → lacks_room (init_pbs bytes roof) (packet before size between) ≡ false
  lacks_room-packet {size = size} {e = e} {before = before} {between = between} {b = b} bytes roof k
        l m =
      room_for (packet before size between) bytes (crc_at e b.len + 1) roof
        (omega (arith, packet_bits k)) l m
