-- ===== src/Santilizer/Fields.antt =====
-- The numbers of a packet in out_struct and in_struct of src/ld_santilizer.c, with bytes_len of
-- src/ld_utils.c: one field at a time, as the loops of Packet/Out and Packet/In call it. `none` is a
-- fault.
pub mod Carry
pub mod Accepted
mod Tests
use liteldacssdk.Prelude.{
  ℕ, zero, suc, ◌+◌, ◌-◌, ◌/◌, ◌%◌, ◌^◌, ap, Bool, true, false, ◌&&◌, not, Option, none, some, List,
  [], ◌∷◌, get_elem?, set, leb, ◌==◌, if◌then◌else◌, ◌>>=◌,
}
use liteldacssdk.Santilizer.{append_bits, detach_bits}

-- The field types that are written as numbers.
pub data FieldType : Type 0 where
  ft_mbz ft_set ft_enum ft_plen ft_slen ft_fix ft_sqn ft_time : FieldType

-- `enum_names`: one range, and the names of it.
pub record EnumNames (A : Type 0) : Type 0 where
  pub en_first : ℕ
  pub en_last : ℕ
  pub en_names : List A

-- `field_desc` with what `desc` points to.
pub record FieldDesc (A : Type 0) : Type 0 where
  pub field_type : FieldType
  pub size : ℕ
  pub enum_desc : List (EnumNames A)
  pub fix_num : ℕ

pub enum_name_default : {A : Type 0} → List (EnumNames A) → ℕ → Option A → Option A
enum_name_default [] val def = def
enum_name_default (p ∷ ed) val def =
    let rest = enum_name_default ed val def in
    if leb p.en_first val && leb val p.en_last
    then get_elem? p.en_names (val - p.en_first)
    else rest

pub enum_name : {A : Type 0} → List (EnumNames A) → ℕ → Option A
unfolding enum_name_default
enum_name ed val = enum_name_default ed val none

-- The first shift that leaves nothing.
abbrev pub count_shifts : ℕ → ℕ → ℕ → ℕ
count_shifts zero n i = i
count_shifts (suc fuel) n i =
    let more = count_shifts fuel n (i + 1) in if n / 2 ^ i == 0 then i else more

-- The decrement wraps around at 0; a `size_t` has 64 bits.
abbrev pub bytes_len : ℕ → ℕ
bytes_len n = count_shifts 64 ((n + (2 ^ 64 - 1)) % 2 ^ 64) 0

-- The bits of the member that a field of that size has, `none` for no member.
abbrev pub member_bits : ℕ → Option ℕ
member_bits len =
    if leb len 3
    then some 8
    else if len == 4
    then some 16
    else if len == 5
    then some 32
    else if len == 6
    then some 64
    else none

abbrev pub member : Option ℕ → ℕ → ℕ
member none v = 0
member (some w) v = v % 2 ^ w

-- Bits of a field in a stream: `left` is `to_shift + 8`.
abbrev pub bits_left : ℕ → ℕ → ℕ
bits_left size bit_size = size + bit_size % 8

-- An output stream while a struct is written; a length field is noted by its place and shift.
pub record Out : Type 0 where
  pub stream : List ℕ
  pub cur : ℕ
  pub bit_size : ℕ
  pub slen_fld : Option (ℕ × ℕ)
  pub plen_fld : Option (ℕ × ℕ)

abbrev pub is_known : {A : Type 0} → Option A → Bool
is_known none = false
is_known (some name) = true

abbrev pub note_slen : FieldType → ℕ → Out → Option (ℕ × ℕ)
note_slen ft_slen left s = some (s.cur, left)
note_slen _ left s = s.slen_fld

abbrev pub note_plen : FieldType → ℕ → Out → Option (ℕ × ℕ)
note_plen ft_plen left s = some (s.cur, left)
note_plen _ left s = s.plen_fld

module _ {A : Type 0} where
  -- What is written for a member.
  abbrev pub written_as : FieldType → FieldDesc A → ℕ → ℕ → ℕ
  written_as ft_fix fp now v = fp.fix_num
  written_as ft_time fp now v = now
  written_as _ fp now v = member (member_bits (bytes_len fp.size)) v

  abbrev pub written : FieldDesc A → ℕ → ℕ → ℕ
  written fp now v = written_as fp.field_type fp now v

  -- An `ft_enum` without a name is a complaint, and ends the loop after the field.
  abbrev pub accepts_out_as : FieldType → FieldDesc A → ℕ → Bool
  accepts_out_as ft_enum fp n = is_known (enum_name fp.enum_desc n)
  accepts_out_as _ fp n = true

  abbrev pub accepts_out : FieldDesc A → ℕ → Bool
  accepts_out fp n = accepts_out_as fp.field_type fp n

  unfoldable pub out_number : FieldDesc A → ℕ → ℕ → Out → Option (Bool × Out)
  unfolding enum_name
  out_number fp now v s =
      let n = written fp now v in
      let left = bits_left fp.size s.bit_size in
      append_bits left n s.cur s.stream >>= λ (cur, stream). some (
        accepts_out fp n,
        record {
          stream = stream;
          cur = cur;
          bit_size = s.bit_size + fp.size;
          slen_fld = note_slen fp.field_type left s;
          plen_fld = note_plen fp.field_type left s;
        },
      )

  abbrev pub accepts_in_as : FieldType → FieldDesc A → ℕ → Bool
  accepts_in_as ft_enum fp n = is_known (enum_name fp.enum_desc n)
  accepts_in_as ft_fix fp n = n == fp.fix_num
  accepts_in_as _ fp n = true

  abbrev pub accepts_in : FieldDesc A → ℕ → Bool
  accepts_in fp n = accepts_in_as fp.field_type fp n

  -- What the member of the struct keeps of it.
  abbrev pub stored : FieldDesc A → ℕ → ℕ
  stored fp n = member (member_bits (bytes_len fp.size)) n

  -- A field that is read: its number, and where the next begins.
  unfoldable pub in_number : FieldDesc A → List ℕ → ℕ → ℕ → Option (Bool × ℕ × ℕ)
  unfolding enum_name
  in_number fp stream cur bit_size =
      detach_bits (bits_left fp.size bit_size) 0 cur stream (bit_size % 8) >>= λ (n, cur').
      some (accepts_in fp n, n, cur')
