-- ===== src/Santilizer/Packet/Out.antt =====
-- out_struct without a sub-stream, close_output_pbs and gen_pdu of src/ld_santilizer.c.
use liteldacssdk.Prelude.{
  ℕ, ◌+◌, ◌-◌, ◌/◌, ◌%◌, ◌^◌, Bool, true, false, Option, none, some, List, [], ◌∷◌, get_elem?, set,
  take, drop, replicate, ◌==◌, if◌then◌else◌, ◌>>=◌,
}
use liteldacssdk.Buffer.{Buffer, bytes_at, init_buffer_unptr, clone_to_chunk}
use liteldacssdk.Crc.{cal_crc_8bits, cal_crc_32bits}
use liteldacssdk.Santilizer.{append_bits}
use liteldacssdk.Santilizer.Fields.{Out, out_number}
use liteldacssdk.Santilizer.Strings.{append_str}
use liteldacssdk.Santilizer.Packet.{
  Field, number, ft_p_raw, ft_fl_str, ft_dl_str, ft_pad, ft_crc, ft_mac, Member, value, text,
  PbStream, init_pbs, lacks_room,
}

-- The variables of out_struct: the stream and cursor, where the payload starts, and the checksum.
pub record OutState : Type 0 where
  pub out : Out
  pub payload_start : Option ℕ
  pub crc_fld : Option (ℕ × ℕ)

abbrev pub to_octet : ℕ → ℕ → ℕ
to_octet cur bit_size = if bit_size % 8 == 0 then cur else cur + 1

-- A string, whatever its field says of its length; NULL is left out.
abbrev pub out_text : Member → OutState → Option (Bool × OutState)
out_text (text (some b)) s =
    append_str s.out.cur s.out.bit_size (bytes_at b.ptr) b.len s.out.stream
    >>= λ (cur, bit_size, stream).
        some (
          true,
          record s { out = record s.out { stream = stream; cur = cur; bit_size = bit_size } },
        )
out_text (text none) s = some (true, s)
out_text _ s = none

abbrev pub out_padding : OutState → OutState
out_padding s =
    let cur = to_octet s.out.cur s.out.bit_size in
    record s { out = record s.out { cur = cur; bit_size = 0 }; payload_start = some cur }

-- The place is noted and left free.
abbrev pub out_crc : ℕ → OutState → OutState
out_crc size s = record s {
  out = record s.out { cur = s.out.cur + size / 8 };
  crc_fld = some (s.out.cur, size);
}

-- Fills in a length field.
abbrev pub fill_length : Option ℕ → ℕ → Option (ℕ × ℕ) → List ℕ → Option (List ℕ)
fill_length start cur none bytes = some bytes
fill_length none cur (some fld) bytes = none
fill_length (some start) cur (some (at, left)) bytes =
    append_bits left (cur - start) at bytes >>= λ (next, bytes'). some bytes'

abbrev pub write_all : ℕ → List ℕ → List ℕ → Option (List ℕ)
write_all at [] bytes = some bytes
write_all at (b ∷ rest) bytes =
    get_elem? bytes at >>= λ old. write_all (at + 1) rest (set bytes at b)

abbrev pub crc_bytes : ℕ → List ℕ → List ℕ
crc_bytes size covered =
    if size == 8
    then cal_crc_8bits covered ∷ []
    else if size == 32
    then (let crc = cal_crc_32bits covered in
        crc / 2 ^ 24 % 2 ^ 8 ∷ crc / 2 ^ 16 % 2 ^ 8 ∷ crc / 2 ^ 8 % 2 ^ 8 ∷ crc % 2 ^ 8 ∷ [])
    else []

-- The checksum of the bytes from `start` to its own place; other sizes are left out.
abbrev pub fill_crc : Option ℕ → Option (ℕ × ℕ) → List ℕ → Option (List ℕ)
fill_crc start none bytes = some bytes
fill_crc none (some fld) bytes = none
fill_crc (some start) (some (at, size)) bytes =
    write_all at (crc_bytes size (drop start (take at bytes))) bytes

-- The bytes afterwards; the container's cursor is set by out_struct.
unfoldable pub close_output_pbs : PbStream → Option (List ℕ)
close_output_pbs pbs = fill_length pbs.start pbs.cur pbs.slen_fld pbs.bytes >>= λ bytes.
    fill_length pbs.start pbs.cur pbs.plen_fld bytes >>= λ bytes'.
    fill_crc pbs.start pbs.crc_fld bytes'

abbrev pub begin_out : PbStream → OutState
begin_out outs = record {
  out = record {
    stream = outs.bytes;
    cur = outs.cur;
    bit_size = outs.bit_size;
    slen_fld = none;
    plen_fld = outs.plen_fld;
  };
  payload_start = none;
  crc_fld = outs.crc_fld;
}

-- The stream `obj`, which has the length of the payload only.
abbrev pub payload_of : PbStream → OutState → PbStream
payload_of outs s = record {
  bytes = s.out.stream;
  start = s.payload_start;
  cur = s.out.cur;
  roof = outs.roof;
  slen_fld = s.out.slen_fld;
  plen_fld = none;
  crc_fld = none;
  bit_size = 0;
}

-- What the fields leave in `outs`.
abbrev pub written_to : PbStream → OutState → List ℕ → ℕ → PbStream
written_to outs s bytes cur = record outs {
  bytes = bytes;
  cur = cur;
  plen_fld = s.out.plen_fld;
  crc_fld = s.crc_fld;
  bit_size = s.out.bit_size;
}

-- `ft_end`: the payload's stream is closed, and its cursor is passed up. A complaint leaves the
-- cursor.
abbrev pub end_out : PbStream → Bool × OutState → Option (Bool × PbStream)
end_out outs (false, s) = some (false, written_to outs s s.out.stream outs.cur)
end_out outs (true, s) =
    close_output_pbs (payload_of outs s) >>= λ bytes. some (true, written_to outs s bytes s.out.cur)

module _ {A : Type 0} where
  -- One field; `bad_case` aborts.
  unfoldable pub out_field : Field A → ℕ → Member → OutState → Option (Bool × OutState)
  out_field (number fp) now (value v) s =
      out_number fp now v s.out >>= λ (accepted, out). some (accepted, record s { out = out })
  out_field (number fp) now _ s = none
  out_field (ft_p_raw size desc) now m s = out_text m s
  out_field (ft_fl_str size desc) now m s = out_text m s
  out_field (ft_dl_str size) now m s = out_text m s
  out_field (ft_pad size) now m s = some (true, out_padding s)
  out_field (ft_crc size) now m s = some (true, out_crc size s)
  out_field (ft_mac size) now m s = none

  -- The loop of out_struct, up to `ft_end` or a complaint.
  unfoldable pub out_fields : List (Field A) → ℕ → List Member → OutState → Option (Bool × OutState)
  unfolding out_field
  out_fields [] now members s = some (true, s)
  out_fields (fp ∷ fields) now [] s = none
  out_fields (fp ∷ fields) now (m ∷ members) s = out_field fp now m s >>= λ (accepted, s').
      let rest = out_fields fields now members s' in if accepted then rest else some (false, s')

  unfoldable pub out_struct : List (Field A) → ℕ → List Member → PbStream → Option (Bool × PbStream)
  unfolding out_fields close_output_pbs
  out_struct fields now members outs =
      if lacks_room outs fields
      then some (false, outs)
      else (out_fields fields now members (begin_out outs) >>= λ r. end_out outs r)

  -- 4096 bytes; whether out_struct complained is not looked at.
  unfoldable pub gen_pdu : (ℕ → Bool) → List (Field A) → ℕ → List Member → Option Buffer
  unfolding out_struct close_output_pbs init_pbs clone_to_chunk init_buffer_unptr
  gen_pdu calloc_gives fields now members =
      out_struct fields now members (init_pbs (replicate 4096 0) 4096) >>= λ (fine, pbs).
      close_output_pbs pbs >>= λ bytes.
      clone_to_chunk calloc_gives init_buffer_unptr (some bytes) pbs.cur
