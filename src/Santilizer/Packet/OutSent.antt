-- ===== src/Santilizer/Packet/OutSent.antt =====
-- The loop of out_struct in src/ld_santilizer.c on members that can be sent.
use liteldacssdk.Prelude.{
  ℕ, ◌+◌, ◌*◌, ◌/◌, ◌%◌, ◌≤◌, ◌<◌, ◌≡◌, refl, sym, ap, ap₂, ◌∙◌, inl, inr, true, false, some, List,
  ◌++◌, arith, length, ◌==◌, Bool-cases, ◌>>=◌,
}
use liteldacssdk.Buffer.{Buffer, bytes_at}
use liteldacssdk.Buffer.Copy.{contents}
use liteldacssdk.Santilizer.{append_bits}
use liteldacssdk.Santilizer.Append.{bit_at}
use liteldacssdk.Santilizer.Fields.{
  FieldType, ft_mbz, ft_set, ft_enum, ft_plen, ft_slen, ft_fix, ft_sqn, ft_time, FieldDesc, Out,
  written, accepts_out, bits_left, note_slen, note_plen, out_number,
}
use liteldacssdk.Santilizer.Fields.Carry.{IsBlank, Put, append_bits-Put}
use liteldacssdk.Santilizer.Strings.{append_str}
use liteldacssdk.Santilizer.Strings.Place.{append_str_same, append_str-take}
use liteldacssdk.Santilizer.Strings.RoundTrip.{Sent, append_str-Sent}
use liteldacssdk.Santilizer.Packet.{Field, number, Member, value, text}
use liteldacssdk.Santilizer.Packet.Out.{
  OutState, to_octet, out_text, out_padding, out_field, out_fields,
}
use liteldacssdk.Santilizer.Packet.Sendable.{
  is_length, octet, AreSendable, no_fields, next_number, next_text, next_pad, AreSendable-le,
  Carries, CarriesAt-same, CarriesBytes-same, length-contents,
}

-- The variables stand at the place `p`.
pub record StandsAt (p : ℕ) (s : OutState) : Type 0 where
  pub at_cur : s.out.cur ≡ p / 8
  pub at_bit : s.out.bit_size % 8 ≡ p % 8

-- Only the stream, the cursor and the start of the payload differ.
pub record KeepsNotes (s s' : OutState) : Type 0 where
  pub slen_kept : s'.out.slen_fld ≡ s.out.slen_fld
  pub plen_kept : s'.out.plen_fld ≡ s.out.plen_fld
  pub crc_kept : s'.crc_fld ≡ s.crc_fld

notes_kept :
    (t : FieldType) (left : ℕ) (s : Out)
    → is_length t ≡ false
    → (note_slen t left s ≡ s.slen_fld) × (note_plen t left s ≡ s.plen_fld)
notes_kept ft_mbz left s e = (refl, refl)
notes_kept ft_set left s e = (refl, refl)
notes_kept ft_enum left s e = (refl, refl)
notes_kept ft_plen left s e = absurd (cc)
notes_kept ft_slen left s e = absurd (cc)
notes_kept ft_fix left s e = (refl, refl)
notes_kept ft_sqn left s e = (refl, refl)
notes_kept ft_time left s e = (refl, refl)

-- The number `n` was put at `p`.
abbrev pub after_number : {A : Type 0} → FieldDesc A → ℕ → OutState → List ℕ → OutState
after_number fp p s stream = record s {
  out = record {
    stream = stream;
    cur = (p + fp.size) / 8;
    bit_size = s.out.bit_size + fp.size;
    slen_fld = note_slen fp.field_type (bits_left fp.size s.out.bit_size) s.out;
    plen_fld = note_plen fp.field_type (bits_left fp.size s.out.bit_size) s.out;
  };
}

pub out_field_number :
    {A : Type 0} (fp : FieldDesc A) (now v p : ℕ) (s : OutState)
    (put : Put fp.size (written fp now v) p s.out.stream)
    → StandsAt p s
    → accepts_out fp (written fp now v) ≡ true
    → out_field (number fp) now (value v) s ≡ some (true, after_number fp p s put.after)
unfolding out_field out_number
out_field_number fp now v p s put at fine =
    let n = written fp now v in
    let runs : append_bits (bits_left fp.size s.out.bit_size) n s.out.cur s.out.stream
        ≡ some ((p + fp.size) / 8, put.after) =
      ap₂ (λ l c. append_bits (fp.size + l) n c s.out.stream) at.at_bit at.at_cur ∙ put.runs in
    rw (runs, fine) refl

abbrev pub after_text : ℕ → ℕ → OutState → List ℕ → OutState
after_text p n s stream = record s {
  out = record s.out { stream = stream; cur = (p + 8 * n) / 8; bit_size = s.out.bit_size + 8 * n };
}

pub out_text-after_text :
    (b : Buffer) (p : ℕ) (s : OutState) (sent : Sent (contents b) p s.out.stream)
    → StandsAt p s
    → b.len ≤ length (bytes_at b.ptr)
    → out_text (text (some b)) s ≡ some (true, after_text p b.len s sent.after)
out_text-after_text b p s sent at block =
    let n : length (contents b) ≡ b.len = length-contents b block in
    let runs : append_str s.out.cur s.out.bit_size (bytes_at b.ptr) b.len s.out.stream
        ≡ some ((p + 8 * b.len) / 8, s.out.bit_size + 8 * b.len, sent.after) =
      append_str-take s.out.cur s.out.bit_size (bytes_at b.ptr) b.len s.out.stream
      ∙ append_str_same s.out.cur s.out.bit_size p (contents b) b.len s.out.stream at.at_bit
      ∙ ap₂
          (λ c k. append_str c p (contents b) k s.out.stream >>= λ (c', _, after).
            some (c', s.out.bit_size + 8 * b.len, after))
          at.at_cur (sym n)
      ∙ ap (λ o. o >>= λ (c', _, after). some (c', s.out.bit_size + 8 * b.len, after)) sent.runs
      ∙ ap (λ k. some ((p + 8 * k) / 8, s.out.bit_size + 8 * b.len, sent.after)) n in
    rw runs refl

octet_place :
    (p : ℕ) (s : OutState) → StandsAt p s → to_octet s.out.cur s.out.bit_size ≡ octet p / 8
octet_place p s at = elim (Bool-cases (s.out.bit_size % 8 == 0)) [
  | inl e ↦
      let whole : s.out.bit_size % 8 ≡ 0 = ground arith in
      rw e (omega (arith, whole, at.at_bit, at.at_cur))
  | inr e ↦
      let part : 0 < s.out.bit_size % 8 = ground arith in
      rw e (omega (arith, part, at.at_bit, at.at_cur))
]

pub record FieldsSent {A : Type 0} (fields : List (Field A)) (now : ℕ) (members : List Member)
    (p e : ℕ) (s : OutState) : Type 0 where
  pub after : OutState
  pub runs :
      (rest : List (Field A)) (more : List Member)
      → out_fields (fields ++ rest) now (members ++ more) s ≡ out_fields rest now more after
  pub stands : StandsAt e after
  pub notes : KeepsNotes s after
  pub sized : length after.out.stream ≡ length s.out.stream
  pub carries : Carries now after.out.stream fields members p
  pub kept : (q : ℕ) → q < p → bit_at after.out.stream q ≡ bit_at s.out.stream q
  pub blank : IsBlank after.out.stream e

pub out_fields-FieldsSent :
    {A : Type 0} {now : ℕ} {fields : List (Field A)} {members : List Member} {p e : ℕ}
    (s : OutState)
    → AreSendable now fields members p e
    → StandsAt p s
    → e ≤ 8 * length s.out.stream
    → IsBlank s.out.stream p
    → FieldsSent fields now members p e s
unfolding out_fields
out_fields-FieldsSent s no_fields at room blank = record {
  after = s;
  runs = λ rest more. refl;
  stands = at;
  notes = record { slen_kept = refl; plen_kept = refl; crc_kept = refl };
  sized = refl;
  carries = tt;
  kept = λ q h. refl;
  blank = blank;
}
out_fields-FieldsSent {now = now} {p = p} s
      (next_number {fp = fp} {v = v} l pos narrow small fine a) at room blank =
    let ends = AreSendable-le now a in
    let put = append_bits-Put fp.size (written fp now v) p s.out.stream small (omega arith) blank in
    let s' = after_number fp p s put.after in
    let (slen, plen) = notes_kept fp.field_type (bits_left fp.size s.out.bit_size) s.out l in
    let later : FieldsSent _ now _ (p + fp.size) _ s' =
      out_fields-FieldsSent s' a (record { at_cur = refl; at_bit = omega (arith, at.at_bit) })
        (omega (arith, put.sized)) put.blank in
    record {
      after = later.after;
      runs = λ rest more. rw (out_field_number fp now v p s put at fine) (later.runs rest more);
      stands = later.stands;
      notes = record {
        slen_kept = later.notes.slen_kept ∙ slen;
        plen_kept = later.notes.plen_kept ∙ plen;
        crc_kept = later.notes.crc_kept;
      };
      sized = later.sized ∙ put.sized;
      carries = (
        CarriesAt-same fp.size (written fp now v) p put.after later.after.out.stream
            (λ q m n. later.kept q n) put.carries,
        later.carries,
      );
      kept = λ q h. later.kept q (omega arith) ∙ put.kept q h;
      blank = later.blank;
    }
out_fields-FieldsSent {now = now} {p = p} s (next_text {b = b} size short block bytes a) at room
      blank =
    let ends = AreSendable-le now a in
    let n : length (contents b) ≡ b.len = length-contents b block in
    let sent = append_str-Sent (contents b) p s.out.stream bytes (omega arith) blank in
    let s' = after_text p b.len s sent.after in
    let later : FieldsSent _ now _ (p + 8 * b.len) _ s' =
      out_fields-FieldsSent s' a (record { at_cur = refl; at_bit = omega (arith, at.at_bit) })
        (omega (arith, sent.sized)) (λ q h. sent.blank q (omega arith)) in
    record {
      after = later.after;
      runs = λ rest more. rw (out_text-after_text b p s sent at block) (later.runs rest more);
      stands = later.stands;
      notes = record {
        slen_kept = later.notes.slen_kept;
        plen_kept = later.notes.plen_kept;
        crc_kept = later.notes.crc_kept;
      };
      sized = later.sized ∙ sent.sized;
      carries = (
        CarriesBytes-same (contents b) p sent.after later.after.out.stream
            (λ q m k. later.kept q (omega arith)) sent.carries,
        later.carries,
      );
      kept = λ q h. later.kept q (omega arith) ∙ sent.kept q h;
      blank = later.blank;
    }
out_fields-FieldsSent {now = now} {p = p} s (next_pad a) at room blank =
    let later : FieldsSent _ now _ (octet p) _ (out_padding s) =
      out_fields-FieldsSent (out_padding s) a
        (record { at_cur = octet_place p s at; at_bit = omega arith }) room
        (λ q h. blank q (omega arith)) in
    record {
      after = later.after;
      runs = later.runs;
      stands = later.stands;
      notes = record {
        slen_kept = later.notes.slen_kept;
        plen_kept = later.notes.plen_kept;
        crc_kept = later.notes.crc_kept;
      };
      sized = later.sized;
      carries = later.carries;
      kept = λ q h. later.kept q (omega arith);
      blank = later.blank;
    }
