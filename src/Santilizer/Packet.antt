-- ===== src/Santilizer/Packet.antt =====
-- The fields and members of a packet in src/ld_santilizer.c, and its bit streams (init_pbs).
-- A stream has the bytes behind a pointer; places are indices of them. `none` is a fault.
pub mod Out
pub mod In
pub mod Sendable
pub mod OutSent
pub mod InSent
pub mod Wire
pub mod Shape
pub mod Build
pub mod Read
pub mod RoundTrip
pub mod Ends
pub mod Fixed
pub mod Damage
mod Tests
use liteldacssdk.Prelude.{
  ℕ, ◌+◌, ◌/◌, ◌%◌, ap, Bool, true, Option, none, some, List, [], ◌∷◌, set, ltb, ◌==◌,
  if◌then◌else◌,
}
use liteldacssdk.Buffer.{Buffer, sub_size}
use liteldacssdk.Santilizer.Fields.{FieldDesc}

-- `field_desc` by its type, with the size in bits and what `desc` points to.
pub data Field (A : Type 0) : Type 0 where
  number : FieldDesc A → Field A
  ft_p_raw ft_fl_str : (size desc : ℕ) → Field A
  ft_dl_str ft_pad ft_crc ft_mac : (size : ℕ) → Field A

-- A member of the struct for each field; a padding, a checksum and a MAC have no use of theirs.
-- `unset` is memory that was not written yet.
pub data Member : Type 0 where
  unset : Member
  value : ℕ → Member
  text : Option Buffer → Member

-- `pb_stream`: a length field is noted by its place and shift, a checksum by its place and size.
pub record PbStream : Type 0 where
  pub bytes : List ℕ
  pub start : Option ℕ
  pub cur : ℕ
  pub roof : ℕ
  pub slen_fld : Option (ℕ × ℕ)
  pub plen_fld : Option (ℕ × ℕ)
  pub crc_fld : Option (ℕ × ℕ)
  pub bit_size : ℕ

unfoldable pub init_pbs : List ℕ → ℕ → PbStream
init_pbs bytes len = record {
  bytes = bytes;
  start = some 0;
  cur = 0;
  roof = len;
  slen_fld = none;
  plen_fld = none;
  crc_fld = none;
  bit_size = 0;
}

abbrev pub size_of : {A : Type 0} → Field A → ℕ
size_of (number fp) = fp.size
size_of (ft_p_raw size desc) = size
size_of (ft_fl_str size desc) = size
size_of (ft_dl_str size) = size
size_of (ft_pad size) = size
size_of (ft_crc size) = size
size_of (ft_mac size) = size

abbrev pub bits_of : {A : Type 0} → List (Field A) → ℕ
bits_of [] = 0
bits_of (fp ∷ fields) = size_of fp + bits_of fields

-- sizeof_struct on such fields.
abbrev pub sizeof_packet : {A : Type 0} → List (Field A) → ℕ
sizeof_packet fields =
    if bits_of fields % 8 == 0 then bits_of fields / 8 else bits_of fields / 8 + 1

-- `roof - cur < sizeof_struct(...)`, a comparison of `size_t`.
abbrev pub lacks_room : {A : Type 0} → PbStream → List (Field A) → Bool
lacks_room pbs fields = ltb (sub_size pbs.roof pbs.cur) (sizeof_packet fields)
