-- ===== src/Santilizer/Packet/Ends.antt =====
-- Where a field that in_struct of src/ld_santilizer.c reads ends, whatever the bytes, and what a
-- checksum that it accepts is.
use liteldacssdk.Prelude.{
  ℕ, ◌+◌, ◌*◌, ◌%◌, ◌≡◌, refl, sym, ap, ◌∙◌, inl, inr, Bool, true, none, some, List, arith,
  get_elem?, take, ltb, ◌==◌, ==_iff, Bool-cases, ◌>>=◌,
}
use liteldacssdk.Buffer.{init_buffer_ptr, cat_to_buffer}
use liteldacssdk.Crc.{cal_crc_8bits}
use liteldacssdk.Santilizer.{detach_bits}
use liteldacssdk.Santilizer.DetachEnds.{some_injective, bind_some, detach_bits_ends}
use liteldacssdk.Santilizer.Fields.{FieldDesc, accepts_in, bits_left, in_number, stored}
use liteldacssdk.Santilizer.Strings.{detach_str}
use liteldacssdk.Santilizer.Strings.Place.{detach_str-ends}
use liteldacssdk.Santilizer.Packet.{number, ft_fl_str, ft_pad, ft_crc, Member, value, text}
use liteldacssdk.Santilizer.Packet.In.{InState, note_pdu_len, in_temp, in_crc, in_field}
use liteldacssdk.Santilizer.Packet.Sendable.{octet}
use liteldacssdk.Santilizer.Packet.InSent.{ReadsAt, octet_place}

abbrev read_to : {A : Type 0} → FieldDesc A → ℕ → ℕ → InState → InState
read_to fp n c s = record {
  cur = c;
  bit_size = s.bit_size + fp.size;
  pdu_len = note_pdu_len fp.field_type n s.pdu_len;
}

in_temp_ends :
    (size : ℕ) (bytes : List ℕ) (s s' : InState) (temp : List ℕ)
    → in_temp size bytes s ≡ some (temp, s')
    → (s'.cur ≡ s.cur + size) × (s'.bit_size ≡ s.bit_size + 8 * size)
in_temp_ends size bytes s s' temp e = elim (Bool-cases (ltb 8192 size)) [
  | inl long ↦ let faults : in_temp size bytes s ≡ none = rw long refl in absurd (cc (faults, e))
  | inr fits ↦
      let reads : in_temp size bytes s ≡ (
          detach_str s.cur s.bit_size size bytes >>= λ (cur, temp).
          some (temp, record s { cur = cur; bit_size = s.bit_size + 8 * size })) =
        rw fits refl in
      let ((cur, temp'), read, last) =
        bind_some (detach_str s.cur s.bit_size size bytes)
          (λ (cur, temp). some (temp, record s { cur = cur; bit_size = s.bit_size + 8 * size }))
          (sym reads ∙ e) in
      let cur_is = ap (λ r. r.1.cur) (some_injective last) in
      let bit_is = ap (λ r. r.1.bit_size) (some_injective last) in
      (sym cur_is ∙ detach_str-ends s.cur s.bit_size size bytes read, sym bit_is)
]

module _ (calloc_gives : ℕ → Bool) (A : Type 0) where
  -- Where a number, a string and a padding end.
  pub number_ends :
      (fp : FieldDesc A) (p : ℕ) (m m' : Member) (bytes : List ℕ) (s s' : InState) (b : Bool)
      → ReadsAt p s
      → in_field calloc_gives (number fp) m bytes s ≡ some (b, m', s')
      → ReadsAt (p + fp.size) s'
  unfolding in_field in_number
  number_ends fp p m m' bytes s s' b at e =
      let ((accepted, n, c), one, last) =
        bind_some (in_number fp bytes s.cur s.bit_size)
          (λ (accepted, n, c). some (accepted, value (stored fp n), read_to fp n c s)) e in
      let ((n', c'), bits, same_end) =
        bind_some (detach_bits (bits_left fp.size s.bit_size) 0 s.cur bytes (s.bit_size % 8))
          (λ (n, cur'). some (accepts_in fp n, n, cur')) one in
      let moved =
        detach_bits_ends (bits_left fp.size s.bit_size) 0 s.cur bytes (s.bit_size % 8) bits in
      let here = ap (λ r. r.2) (some_injective same_end) in
      let cur_is = ap (λ r. r.2.cur) (some_injective last) in
      let bit_is = ap (λ r. r.2.bit_size) (some_injective last) in
      record {
        at_cur = omega (arith, cur_is, here, moved, at.at_cur, at.at_bit);
        at_bit = omega (arith, bit_is, at.at_bit);
      }

  pub text_ends :
      (size desc p : ℕ) (m m' : Member) (bytes : List ℕ) (s s' : InState) (b : Bool)
      → ReadsAt p s
      → in_field calloc_gives {A = A} (ft_fl_str size desc) m bytes s ≡ some (b, m', s')
      → ReadsAt (p + 8 * desc) s'
  unfolding in_field init_buffer_ptr
  text_ends size desc p m m' bytes s s' b at e =
      let buf = init_buffer_ptr calloc_gives desc in
      let ((temp, s''), read, e₁) =
        bind_some (in_temp desc bytes s)
          (λ (temp, s''). cat_to_buffer calloc_gives buf temp desc >>= λ (err, b').
            some (true, text (some b'), s''))
          e in
      let ((err, b'), cat, last) =
        bind_some (cat_to_buffer calloc_gives buf temp desc)
          (λ (err, b'). some (true, text (some b'), s'')) e₁ in
      let (cur_is, bit_is) = in_temp_ends desc bytes s s'' temp read in
      let same_cur = ap (λ r. r.2.cur) (some_injective last) in
      let same_bit = ap (λ r. r.2.bit_size) (some_injective last) in
      record {
        at_cur = omega (arith, same_cur, cur_is, at.at_cur);
        at_bit = omega (arith, same_bit, bit_is, at.at_bit);
      }

  pub pad_ends :
      (size p : ℕ) (m m' : Member) (bytes : List ℕ) (s s' : InState) (b : Bool)
      → ReadsAt p s
      → in_field calloc_gives {A = A} (ft_pad size) m bytes s ≡ some (b, m', s')
      → ReadsAt (octet p) s'
  unfolding in_field
  pad_ends size p m m' bytes s s' b at e =
      let cur_is = ap (λ r. r.2.cur) (some_injective e) in
      let bit_is = ap (λ r. r.2.bit_size) (some_injective e) in
      record { at_cur = sym cur_is ∙ octet_place p s at; at_bit = omega (arith, bit_is) }

  -- A checksum that was accepted is that of the bytes before it.
  pub crc_right :
      (m m' : Member) (bytes : List ℕ) (s s' : InState)
      → in_field calloc_gives {A = A} (ft_crc 8) m bytes s ≡ some (true, m', s')
      → get_elem? bytes s.cur ≡ some (cal_crc_8bits (take s.cur bytes))
  unfolding in_field
  crc_right m m' bytes s s' e =
      let ((right, cur'), compared, last) =
        bind_some (in_crc 8 s.cur bytes) (λ (right, cur'). some (right, m, record s { cur = cur' }))
          e in
      let (b, at, same_crc) =
        bind_some (get_elem? bytes s.cur)
          (λ b. some (cal_crc_8bits (take s.cur bytes) == b, s.cur + 1)) compared in
      let yes : (cal_crc_8bits (take s.cur bytes) == b) ≡ true =
        ap (λ r. r.0) (some_injective same_crc) ∙ ap (λ r. r.0) (some_injective last) in
      at ∙ ap some (sym ((==_iff (cal_crc_8bits (take s.cur bytes)) b).0 yes))
