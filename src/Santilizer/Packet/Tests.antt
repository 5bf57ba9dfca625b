-- ===== src/Santilizer/Packet/Tests.antt =====
-- The packet of tests/pbs_test.c without its strings, through gen_pdu and parse_sdu, and what the
-- code does with packets that are wrong.
use liteldacssdk.Prelude.{ℕ, ◌≡◌, refl, ◌≢◌, true, none, some, List, [], ◌∷◌, ◌++◌, arith, set}
use liteldacssdk.Buffer.{Buffer}
use liteldacssdk.Santilizer.Fields.{ft_set, FieldDesc, in_number}
use liteldacssdk.Santilizer.Packet.{Field, number, ft_fl_str, ft_pad, Member, unset, value, text}
use liteldacssdk.Santilizer.Packet.Out.{gen_pdu, fill_length}
use liteldacssdk.Santilizer.Packet.In.{parse_sdu}
use liteldacssdk.Buffer.Fresh.{full_buffer}
use liteldacssdk.Santilizer.Packet.Sendable.{
  AreSendable, no_fields, next_number, next_text, next_pad,
}
use liteldacssdk.Santilizer.Packet.Shape.{packet, packet_members, IsPacket}
use liteldacssdk.Santilizer.Packet.Read.{received_packet}
use liteldacssdk.Crc.{cal_crc_8bits, crc8_loop}
use liteldacssdk.Santilizer.{append_round, detach_round}
use liteldacssdk.Santilizer.Packet.{ft_crc, init_pbs}
use liteldacssdk.Santilizer.Packet.In.{in_struct, in_fields, in_field}
use liteldacssdk.Santilizer.Packet.Fixed.{fixed_none, fixed_number, fixed_pad}
use liteldacssdk.Santilizer.Packet.Damage.{parse_sdu-detects}
use liteldacssdk.Santilizer.Packet.RoundTrip.{parse_sdu-gen_pdu}

abbrev kind : FieldDesc ℕ
kind = record { field_type = ft_set; size = 29; enum_desc = []; fix_num = 0 }

abbrev other_kind : FieldDesc ℕ
other_kind = record { field_type = ft_set; size = 30; enum_desc = []; fix_num = 0 }

abbrev address : Buffer
address = full_buffer (10 ∷ 0 ∷ [])

abbrev before : List (Field ℕ)
before = number kind ∷ ft_fl_str 0 2 ∷ number other_kind ∷ []

abbrev first : List Member
first = value 7 ∷ text (some address) ∷ value 500000000 ∷ []

abbrev between : List (Field ℕ)
between = ft_pad 0 ∷ []

abbrev payload : Buffer
payload = full_buffer (1 ∷ 255 ∷ 3 ∷ [])

first-AreSendable : AreSendable 0 before first 0 75
first-AreSendable = next_number refl (omega arith) (omega arith) (omega arith) refl (
    next_text (omega arith) (omega arith) (omega arith) (omega arith, (omega arith, tt))
      (next_number refl (omega arith) (omega arith) (omega arith) refl no_fields))

small-IsPacket : IsPacket 0 before first 10 between (unset ∷ []) payload 75 88
small-IsPacket = record {
  first = first-AreSendable;
  pos = omega arith;
  narrow = omega arith;
  second = next_pad no_fields;
  aligned = refl;
  block = omega arith;
  valid = (omega arith, (omega arith, (omega arith, tt)));
  fits = omega arith;
  counted = omega arith;
}

parse_sdu-gen_pdu_example :
    (pdu : Buffer) × (gen_pdu
        (λ n. true)
        (packet before 10 between)
        0
        (packet_members first (unset ∷ []) payload)
      ≡ some pdu)
    × (pdu.len ≡ 15)
    × (parse_sdu (λ n. true) pdu (packet before 10 between) 40
        ≡ some (some (received_packet 0 before first between (unset ∷ []) payload 15)))
parse_sdu-gen_pdu_example =
    parse_sdu-gen_pdu (λ n. true) (λ n. refl) small-IsPacket 40 (omega arith)

-- The number 7 in 29 bits, three bits of padding, and the checksum.
abbrev small : List (Field ℕ)
small = number kind ∷ ft_pad 0 ∷ []

abbrev small_block : List ℕ
small_block = 0 ∷ 0 ∷ 0 ∷ 56 ∷ 4 ∷ 0 ∷ []

abbrev small_buffer : Buffer
small_buffer = record { len = 5; total = 5; free = 0; ptr = some small_block }

small_accepted :
    parse_sdu (λ n. true) small_buffer (small ++ ft_crc 8 ∷ []) 4
    ≡ some (some (value 7 ∷ unset ∷ unset ∷ []))
unfolding parse_sdu in_struct in_fields in_field in_number init_pbs detach_round cal_crc_8bits
    crc8_loop
small_accepted = refl

parse_sdu-detects_example :
    parse_sdu
      (λ n. true)
      (record small_buffer { ptr = some (set small_block 3 57) })
      (small ++ ft_crc 8 ∷ [])
      4
    ≢ some (some (value 7 ∷ unset ∷ unset ∷ []))
parse_sdu-detects_example =
    parse_sdu-detects (λ n. true) small_buffer small_block 3 57 4 (value 7 ∷ unset ∷ unset ∷ [])
      (value 7 ∷ unset ∷ unset ∷ []) (fixed_number (fixed_pad fixed_none))
      (omega arith, (omega arith, (omega arith, (omega arith, (omega arith, (omega arith, tt))))))
      (omega arith) (omega arith) (omega arith) (λ e. omega arith) small_accepted

-- A length of 2 over a member that was 1 comes out as 3.
length_over_member : fill_length (some 0) 2 (some (0, 8)) (1 ∷ []) ≡ some (3 ∷ [])
unfolding append_round
length_over_member = refl

-- A struct with no room for its member is written past its end.
struct_too_small : parse_sdu (λ n. true) small_buffer (small ++ ft_crc 8 ∷ []) 3 ≡ none
unfolding parse_sdu in_struct in_fields in_field in_number init_pbs detach_round cal_crc_8bits
    crc8_loop
struct_too_small = refl
