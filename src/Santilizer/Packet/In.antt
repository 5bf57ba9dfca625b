-- ===== src/Santilizer/Packet/In.antt =====
-- in_struct without a sub-stream, and parse_sdu, of src/ld_santilizer.c. The places that are noted
-- in `ins`, which nothing reads, are left out.
use liteldacssdk.Prelude.{
  ℕ, ◌+◌, ◌*◌, ◌/◌, Bool, true, false, Option, none, some, List, [], ◌∷◌, map, get_elem?, take,
  drop, ltb, ◌==◌, if◌then◌else◌, ◌>>=◌,
}
use liteldacssdk.Buffer.{
  Buffer, bytes_at, sub_size, init_buffer_ptr, init_buffer_unptr, cat_to_buffer, clone_to_chunk,
}
use liteldacssdk.Crc.{cal_crc_8bits, cal_crc_32bits}
use liteldacssdk.Santilizer.Fields.{FieldType, ft_plen, bytes_len, member_bits, in_number, stored}
use liteldacssdk.Santilizer.Strings.{detach_str, byte2int}
use liteldacssdk.Santilizer.Packet.{
  Field, number, ft_p_raw, ft_fl_str, ft_dl_str, ft_pad, ft_crc, ft_mac, Member, unset, value, text,
  PbStream, init_pbs, lacks_room,
}
use liteldacssdk.Santilizer.Packet.Out.{to_octet}

pub record InState : Type 0 where
  pub cur : ℕ
  pub bit_size : ℕ
  pub pdu_len : ℕ

abbrev pub note_pdu_len : FieldType → ℕ → ℕ → ℕ
note_pdu_len ft_plen n pdu_len = n
note_pdu_len _ n pdu_len = pdu_len

-- The bytes of a string by way of `temp`, which has 8192 of them.
abbrev pub in_temp : ℕ → List ℕ → InState → Option (List ℕ × InState)
in_temp size bytes s =
    if ltb 8192 size
    then none
    else (detach_str s.cur s.bit_size size bytes >>= λ (cur, temp).
        some (temp, record s { cur = cur; bit_size = s.bit_size + 8 * size }))

-- Whether the checksum is right, and where it ends; other sizes are passed over.
abbrev pub in_crc : ℕ → ℕ → List ℕ → Option (Bool × ℕ)
in_crc size cur bytes =
    if size == 8
    then (get_elem? bytes cur >>= λ b. some (cal_crc_8bits (take cur bytes) == b, cur + 1))
    else if size == 32
    then (byte2int 0 (drop cur bytes) 4 >>= λ n.
        some (cal_crc_32bits (take cur bytes) == n, cur + 4))
    else some (true, cur)

-- A complaint leaves the cursor.
abbrev pub end_in : PbStream → Bool × List Member × InState → Bool × List Member × PbStream
end_in ins (false, members, s) = (false, members, record ins { bit_size = s.bit_size })
end_in ins (true, members, s) = (true, members, record ins { cur = s.cur; bit_size = s.bit_size })

abbrev pub if_fine : Bool × List Member × PbStream → Option (List Member)
if_fine (false, members, ins) = none
if_fine (true, members, ins) = some members

-- The bytes that a field takes in the struct, and what the members that were written take, one behind
-- the other.
abbrev pub octets : Option ℕ → ℕ
octets none = 0
octets (some w) = w / 8

abbrev pub member_size : {A : Type 0} → Field A → ℕ
member_size (number fp) = octets (member_bits (bytes_len fp.size))
member_size (ft_p_raw size desc) = 8
member_size (ft_fl_str size desc) = 8
member_size (ft_dl_str size) = 8
member_size (ft_pad size) = 0
member_size (ft_crc size) = 0
member_size (ft_mac size) = 0

abbrev pub struct_size : {A : Type 0} → List (Field A) → ℕ
struct_size [] = 0
struct_size (fp ∷ fields) = member_size fp + struct_size fields

abbrev pub is_written : Member → Bool
is_written unset = false
is_written (value n) = true
is_written (text b) = true

abbrev pub written_size : {A : Type 0} → List (Field A) → List Member → ℕ
written_size [] members = 0
written_size (fp ∷ fields) [] = 0
written_size (fp ∷ fields) (m ∷ members) =
    (if is_written m then member_size fp else 0) + written_size fields members

-- What parse_sdu returns, unless in_struct wrote past the end of the struct.
abbrev pub uploaded :
    {A : Type 0}
    → ℕ
    → List (Field A)
    → Bool × List Member × PbStream
    → Option (Option (List Member))
uploaded size fields (fine, members, ins) =
    if ltb size (written_size fields members) then none else some (if_fine (fine, members, ins))

module _ (calloc_gives : ℕ → Bool) where
  -- A buffer's free room is filled.
  abbrev pub in_text : Buffer → List ℕ → InState → Option (Bool × Member × InState)
  in_text b bytes s = in_temp b.free bytes s >>= λ (temp, s').
      cat_to_buffer calloc_gives b temp b.free >>= λ (err, b'). some (true, text (some b'), s')

  -- The pointer in the struct is taken as it is there.
  abbrev pub in_dl_str : Member → List ℕ → InState → Option (Bool × Member × InState)
  in_dl_str (text (some b)) bytes s = in_text b bytes s
  in_dl_str (text none) bytes s = some (true, text none, s)
  in_dl_str _ bytes s = none

  -- What the packet's length says is left for the payload, in `size_t`.
  abbrev pub in_raw : ℕ → List ℕ → InState → Option (Bool × Member × InState)
  in_raw desc bytes s =
      let slen = sub_size (sub_size s.pdu_len s.cur) (desc / 8) in
      in_temp slen bytes s >>= λ (temp, s').
      clone_to_chunk calloc_gives init_buffer_unptr (some temp) slen >>= λ b.
      some (true, text (some b), s')

  module _ {A : Type 0} where
    -- One field: whether it is accepted, its member, and the variables afterwards.
    unfoldable pub in_field : Field A → Member → List ℕ → InState → Option (Bool × Member × InState)
    unfolding cat_to_buffer clone_to_chunk init_buffer_ptr init_buffer_unptr
    in_field (number fp) m bytes s = in_number fp bytes s.cur s.bit_size >>= λ (accepted, n, cur').
        some (
          accepted,
          value (stored fp n),
          record {
            cur = cur';
            bit_size = s.bit_size + fp.size;
            pdu_len = note_pdu_len fp.field_type n s.pdu_len;
          },
        )
    in_field (ft_p_raw size desc) m bytes s = in_raw desc bytes s
    in_field (ft_fl_str size desc) m bytes s = in_text (init_buffer_ptr calloc_gives desc) bytes s
    in_field (ft_dl_str size) m bytes s = in_dl_str m bytes s
    in_field (ft_pad size) m bytes s =
        some (true, m, record s { cur = to_octet s.cur s.bit_size; bit_size = 0 })
    in_field (ft_crc size) m bytes s =
        in_crc size s.cur bytes >>= λ (right, cur'). some (right, m, record s { cur = cur' })
    in_field (ft_mac size) m bytes s = some (true, m, s)

    -- The loop of in_struct on the struct as it was before: the members afterwards.
    unfoldable pub in_fields :
        List (Field A) → List Member → List ℕ → InState → Option (Bool × List Member × InState)
    unfolding in_field
    in_fields [] before bytes s = some (true, before, s)
    in_fields (fp ∷ fields) [] bytes s = none
    in_fields (fp ∷ fields) (m ∷ before) bytes s = in_field fp m bytes s >>= λ (accepted, m', s').
        let rest = in_fields fields before bytes s' in
        if accepted
        then (rest >>= λ (fine, members, e). some (fine, m' ∷ members, e))
        else some (false, m' ∷ before, s')

    unfoldable pub in_struct :
        List (Field A) → List Member → PbStream → Option (Bool × List Member × PbStream)
    unfolding in_fields
    in_struct fields before ins =
        if lacks_room ins fields
        then some (false, before, ins)
        else (in_fields fields before ins.bytes
              (record { cur = ins.cur; bit_size = ins.bit_size; pdu_len = 0 })
            >>= λ r. some (end_in ins r))

    -- The struct is `size` bytes of malloc, not written yet; `some none` is NULL.
    unfoldable pub parse_sdu : Buffer → List (Field A) → ℕ → Option (Option (List Member))
    unfolding in_struct init_pbs
    parse_sdu buf fields size =
        if calloc_gives size
        then (in_struct fields (map (λ fp. unset) fields) (init_pbs (bytes_at buf.ptr) buf.len)
            >>= λ r. uploaded size fields r)
        else some none
