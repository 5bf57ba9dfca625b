-- ===== src/Santilizer/Packet/InSent.antt =====
-- The loop of in_struct in src/ld_santilizer.c on a stream that carries the fields.
use liteldacssdk.Prelude.{
  ℕ, ◌+◌, ◌*◌, ◌/◌, ◌%◌, ◌^◌, ◌≤◌, ◌<◌, ◌≡◌, refl, ap, ◌∙◌, subst, inl, inr, Bool, true, false,
  Option, none, some, List, [], ◌∷◌, ◌++◌, map, arith, length, ltb, ◌==◌, Bool-cases, AreBytes,
  ◌>>=◌,
}
use liteldacssdk.Buffer.{init_buffer_ptr}
use liteldacssdk.Buffer.Copy.{contents}
use liteldacssdk.Santilizer.{detach_bits}
use liteldacssdk.Santilizer.Fields.{
  FieldType, ft_mbz, ft_set, ft_enum, ft_plen, ft_slen, ft_fix, ft_sqn, ft_time, FieldDesc, written,
  accepts_in, in_number,
}
use liteldacssdk.Santilizer.Fields.Carry.{CarriesAt}
use liteldacssdk.Santilizer.Fields.Accepted.{accepted_as, in_number-some, member_fits}
use liteldacssdk.Santilizer.Strings.{detach_str}
use liteldacssdk.Santilizer.Strings.Place.{detach_str_same}
use liteldacssdk.Santilizer.Strings.RoundTrip.{CarriesBytes, detach_str-some}
use liteldacssdk.Santilizer.Packet.{Field, number, ft_fl_str, Member, unset, value, text}
use liteldacssdk.Santilizer.Packet.Out.{to_octet}
use liteldacssdk.Santilizer.Packet.In.{InState, note_pdu_len, in_temp, in_field, in_fields}
use liteldacssdk.Buffer.Fresh.{full_buffer, cat_to_buffer-init_buffer_ptr}
use liteldacssdk.Santilizer.Packet.Sendable.{
  is_length, octet, AreSendable, no_fields, next_number, next_text, next_pad, AreSendable-le,
  Carries, read_back, length-contents,
}

pub record ReadsAt (p : ℕ) (s : InState) : Type 0 where
  pub at_cur : s.cur ≡ p / 8
  pub at_bit : s.bit_size % 8 ≡ p % 8

-- A struct that was not written yet.
abbrev pub fresh : {A : Type 0} → List (Field A) → List Member
fresh fields = map (λ fp. unset) fields

-- The members read first come first.
abbrev pub put_first :
    List Member → Bool × List Member × InState → Option (Bool × List Member × InState)
put_first got (fine, members, s) = some (fine, got ++ members, s)

pdu_len_kept : (t : FieldType) (n d : ℕ) → is_length t ≡ false → note_pdu_len t n d ≡ d
pdu_len_kept ft_mbz n d e = refl
pdu_len_kept ft_set n d e = refl
pdu_len_kept ft_enum n d e = refl
pdu_len_kept ft_plen n d e = absurd (cc)
pdu_len_kept ft_slen n d e = refl
pdu_len_kept ft_fix n d e = refl
pdu_len_kept ft_sqn n d e = refl
pdu_len_kept ft_time n d e = refl

in_number_same :
    {A : Type 0} (fp : FieldDesc A) (bytes : List ℕ) (cur b p : ℕ)
    → b % 8 ≡ p % 8
    → in_number fp bytes cur b ≡ in_number fp bytes cur p
unfolding in_number
in_number_same fp bytes cur b p e =
    ap
      (λ k.
        detach_bits (fp.size + k) 0 cur bytes k >>= λ (n, cur'). some (accepts_in fp n, n, cur'))
      e

abbrev pub read_number : {A : Type 0} → FieldDesc A → ℕ → ℕ → InState → InState
read_number fp p n s = record {
  cur = (p + fp.size) / 8;
  bit_size = s.bit_size + fp.size;
  pdu_len = note_pdu_len fp.field_type n s.pdu_len;
}

module _ (calloc_gives : ℕ → Bool) where
  pub in_field_number :
      {A : Type 0} (fp : FieldDesc A) (n p : ℕ) (m : Member) (bytes : List ℕ) (s : InState)
      → 0 < fp.size
      → fp.size ≤ 31
      → n < 2 ^ fp.size
      → p + fp.size ≤ 8 * length bytes
      → CarriesAt bytes p fp.size n
      → accepts_in fp n ≡ true
      → ReadsAt p s
      → in_field calloc_gives (number fp) m bytes s ≡ some (true, value n, read_number fp p n s)
  unfolding in_field
  in_field_number fp n p m bytes s pos narrow small room c fine at =
      let runs : in_number fp bytes s.cur s.bit_size ≡ some (true, n, (p + fp.size) / 8) =
        in_number_same fp bytes s.cur s.bit_size p at.at_bit
        ∙ ap (λ k. in_number fp bytes k p) at.at_cur
        ∙ in_number-some fp n p bytes pos narrow small room c fine in
      rw (runs, member_fits fp.size n pos narrow small) refl

abbrev pub read_text : ℕ → ℕ → InState → InState
read_text p n s = record s { cur = (p + 8 * n) / 8; bit_size = s.bit_size + 8 * n }

-- Bytes that the stream carries, by way of `temp`.
pub in_temp-read_text :
    (src : List ℕ) (p : ℕ) (bytes : List ℕ) (s : InState)
    → AreBytes src
    → length src ≤ 8192
    → p + 8 * length src ≤ 8 * length bytes
    → CarriesBytes bytes p src
    → ReadsAt p s
    → in_temp (length src) bytes s ≡ some (src, read_text p (length src) s)
in_temp-read_text src p bytes s valid short room c at =
    let fits : ltb 8192 (length src) ≡ false = ground arith in
    let runs : detach_str s.cur s.bit_size (length src) bytes
        ≡ some ((p + 8 * length src) / 8, src) =
      detach_str_same s.cur s.bit_size p (length src) bytes at.at_bit
      ∙ ap (λ k. detach_str k p (length src) bytes) at.at_cur
      ∙ detach_str-some src p bytes valid room c in
    rw (fits, runs) refl

pub octet_place : (p : ℕ) (s : InState) → ReadsAt p s → to_octet s.cur s.bit_size ≡ octet p / 8
octet_place p s at = elim (Bool-cases (s.bit_size % 8 == 0)) [
  | inl e ↦
      let whole : s.bit_size % 8 ≡ 0 = ground arith in
      rw e (omega (arith, whole, at.at_bit, at.at_cur))
  | inr e ↦
      let part : 0 < s.bit_size % 8 = ground arith in
      rw e (omega (arith, part, at.at_bit, at.at_cur))
]

module _ (calloc_gives : ℕ → Bool) (memory : (n : ℕ) → calloc_gives n ≡ true) where
  in_field_text :
      (A : Type 0) (size p : ℕ) (src : List ℕ) (m : Member) (bytes : List ℕ) (s : InState)
      → AreBytes src
      → length src ≤ 8192
      → p + 8 * length src ≤ 8 * length bytes
      → CarriesBytes bytes p src
      → ReadsAt p s
      → in_field calloc_gives {A = A} (ft_fl_str size (length src)) m bytes s
        ≡ some (true, text (some (full_buffer src)), read_text p (length src) s)
  unfolding in_field init_buffer_ptr
  in_field_text A size p src m bytes s valid short room c at =
      rw
        (
          in_temp-read_text src p bytes s valid short room c at,
          cat_to_buffer-init_buffer_ptr calloc_gives memory src (omega arith),
        )
        refl

  pub record FieldsRead {A : Type 0} (fields : List (Field A)) (now : ℕ) (members : List Member)
      (e : ℕ) (bytes : List ℕ) (s : InState) : Type 0 where
    pub after : InState
    pub runs :
        (rest : List (Field A))
        → in_fields calloc_gives (fields ++ rest) (fresh (fields ++ rest)) bytes s ≡ (
            in_fields calloc_gives rest (fresh rest) bytes after >>= λ r.
            put_first (read_back now fields members) r)
    pub stands : ReadsAt e after
    pub pdu_len_same : after.pdu_len ≡ s.pdu_len

  put_nothing : (o : Option (Bool × List Member × InState)) → o ≡ (o >>= λ r. put_first [] r)
  put_nothing none = refl
  put_nothing (some (fine, members, s)) = refl

  put_one :
      (m : Member) (got : List Member) (o : Option (Bool × List Member × InState))
      → ((o >>= λ r. put_first got r) >>= λ (fine, members, s). some (fine, m ∷ members, s))
        ≡ (o >>= λ r. put_first (m ∷ got) r)
  put_one m got none = refl
  put_one m got (some (fine, members, s)) = refl

  pub in_fields-FieldsRead :
      {A : Type 0} {now : ℕ} {fields : List (Field A)} {members : List Member} {p e : ℕ}
      (bytes : List ℕ) (s : InState)
      → AreSendable now fields members p e
      → Carries now bytes fields members p
      → e ≤ 8 * length bytes
      → ReadsAt p s
      → FieldsRead fields now members e bytes s
  unfolding in_fields
  in_fields-FieldsRead bytes s no_fields c room at = record {
    after = s;
    runs = λ rest. put_nothing (in_fields calloc_gives rest (fresh rest) bytes s);
    stands = at;
    pdu_len_same = refl;
  }
  in_fields-FieldsRead {now = now} {p = p} bytes s
        (next_number {fp = fp} {v = v} l pos narrow small fine a) (c, carried) room at =
      let ends = AreSendable-le now a in
      let n = written fp now v in
      let s' = read_number fp p n s in
      let later : FieldsRead _ now _ _ bytes s' =
        in_fields-FieldsRead bytes s' a carried room
          (record { at_cur = refl; at_bit = omega (arith, at.at_bit) }) in
      record {
        after = later.after;
        runs = λ rest.
            rw
              (
                in_field_number calloc_gives fp n p unset bytes s pos narrow small (omega arith) c
                    (accepted_as fp.field_type fp now v fine) at,
                later.runs rest,
              )
              (put_one (value n) (read_back now _ _)
                (in_fields calloc_gives rest (fresh rest) bytes later.after));
        stands = later.stands;
        pdu_len_same = later.pdu_len_same ∙ pdu_len_kept fp.field_type n s.pdu_len l;
      }
  in_fields-FieldsRead {A = A} {now = now} {p = p} bytes s
        (next_text {size = size} {b = b} wide short block valid a) (c, carried) room at =
      let ends = AreSendable-le now a in
      let n : length (contents b) ≡ b.len = length-contents b block in
      let s' = read_text p b.len s in
      let later : FieldsRead _ now _ _ bytes s' =
        in_fields-FieldsRead bytes s' a carried room
          (record { at_cur = refl; at_bit = omega (arith, at.at_bit) }) in
      let one : in_field calloc_gives {A = A} (ft_fl_str size b.len) unset bytes s
          ≡ some (true, text (some (full_buffer (contents b))), s') =
        subst
          (λ k.
            in_field calloc_gives {A = A} (ft_fl_str size k) unset bytes s
            ≡ some (true, text (some (full_buffer (contents b))), read_text p k s))
          n
          (in_field_text A size p (contents b) unset bytes s valid (omega arith) (omega arith) c
            at) in
      record {
        after = later.after;
        runs = λ rest.
            rw (one, later.runs rest)
              (put_one (text (some (full_buffer (contents b)))) (read_back now _ _)
                (in_fields calloc_gives rest (fresh rest) bytes later.after));
        stands = later.stands;
        pdu_len_same = later.pdu_len_same;
      }
  in_fields-FieldsRead {now = now} {p = p} bytes s (next_pad a) c room at =
      let s' : InState = record s { cur = to_octet s.cur s.bit_size; bit_size = 0 } in
      let later : FieldsRead _ now _ _ bytes s' =
        in_fields-FieldsRead bytes s' a c room
          (record { at_cur = octet_place p s at; at_bit = omega arith }) in
      record {
        after = later.after;
        runs = λ rest. rw (later.runs rest) (
            put_one unset (read_back now _ _)
              (in_fields calloc_gives rest (fresh rest) bytes later.after));
        stands = later.stands;
        pdu_len_same = later.pdu_len_same;
      }
