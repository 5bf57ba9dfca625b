-- ===== src/Santilizer/Packet/Damage.antt =====
-- A checksum in a packet of src/ld_santilizer.c whose fields have fixed places: parse_sdu refuses
-- what was damaged.
use liteldacssdk.Prelude.{
  ℕ, zero, suc, ◌/◌, ◌<◌, ◌≡◌, refl, sym, ap, ◌∙◌, ◌≢◌, inl, inr, ltb, Bool, true, false, none,
  some, List, [], ◌∷◌, ◌++◌, arith, length, get_elem?, set, get_or, take, get_elem?-set_ne,
  Bool-cases, AreBytes, ◌>>=◌,
}
use liteldacssdk.Buffer.{Buffer, bytes_at}
use liteldacssdk.Crc.{cal_crc_8bits}
use liteldacssdk.Crc.Narrow.{cal_crc_8bits-detects}
use liteldacssdk.Santilizer.DetachEnds.{some_injective, bind_some}
use liteldacssdk.Santilizer.Packet.{Field, ft_crc, Member, PbStream, init_pbs, lacks_room}
use liteldacssdk.Santilizer.Packet.In.{
  InState, in_fields, in_struct, end_in, if_fine, uploaded, written_size, parse_sdu,
}
use liteldacssdk.Santilizer.Packet.InSent.{ReadsAt, fresh}
use liteldacssdk.Santilizer.Packet.Fixed.{IsFixed, in_fields-checked}

fine_if_fine :
    (fine : Bool) (ms : List Member) (ins : PbStream) (members : List Member)
    → if_fine (fine, ms, ins) ≡ some members
    → fine ≡ true
fine_if_fine true ms ins members e = refl
fine_if_fine false ms ins members e = absurd (cc)

fine_end_in :
    (ins : PbStream) (fine : Bool) (ms : List Member) (s : InState)
    → (end_in ins (fine, ms, s)).0 ≡ fine
fine_end_in ins true ms s = refl
fine_end_in ins false ms s = refl

-- A struct that is returned is what in_struct was content with.
uploaded-some :
    {A : Type 0} (fields : List (Field A)) (size : ℕ) (fine : Bool) (ms : List Member)
    (ins : PbStream) (members : List Member)
    → uploaded size fields (fine, ms, ins) ≡ some (some members)
    → if_fine (fine, ms, ins) ≡ some members
uploaded-some fields size fine ms ins members e =
    elim (Bool-cases (ltb size (written_size fields ms))) [
      | inl past ↦
          let lost : uploaded size fields (fine, ms, ins) ≡ none = rw past refl in
          let wrong : none ≡ some (some members) = sym lost ∙ e in absurd (cc (wrong))
      | inr within ↦
          let kept : uploaded size fields (fine, ms, ins) ≡ some (if_fine (fine, ms, ins)) =
            rw within refl in
          some_injective (sym kept ∙ e)
    ]

-- The loop has accepted every field.
record FieldsAccepted {A : Type 0} (calloc_gives : ℕ → Bool) (fields : List (Field A))
    (bytes : List ℕ) : Type 0 where
  members : List Member
  end : InState
  accepted :
      in_fields calloc_gives fields
        (fresh fields)
        bytes
        (record { cur = 0; bit_size = 0; pdu_len = 0 })
      ≡ some (true, members, end)

module _ (calloc_gives : ℕ → Bool) {A : Type 0} (fields : List (Field A)) where
  in_struct-accepted :
      (bytes : List ℕ) (len : ℕ) (ms : List Member) (ins : PbStream)
      → in_struct calloc_gives fields (fresh fields) (init_pbs bytes len) ≡ some (true, ms, ins)
      → FieldsAccepted calloc_gives fields bytes
  unfolding in_struct init_pbs
  in_struct-accepted bytes len ms ins e =
      let start : InState = record { cur = 0; bit_size = 0; pdu_len = 0 } in
      elim (Bool-cases (lacks_room (init_pbs bytes len) fields)) [
        | inl short ↦
            let refused : in_struct calloc_gives fields (fresh fields) (init_pbs bytes len)
                ≡ some (false, fresh fields, init_pbs bytes len) =
              rw short refl in
            let wrong : false ≡ true = ap (λ r. r.0) (some_injective (sym refused ∙ e)) in
            absurd (cc)
        | inr room ↦
            let reads : in_struct calloc_gives fields (fresh fields) (init_pbs bytes len) ≡ (
                in_fields calloc_gives fields (fresh fields) bytes start >>= λ r.
                some (end_in (init_pbs bytes len) r)) =
              rw room refl in
            let ((fine, got, end), run, last) =
              bind_some (in_fields calloc_gives fields (fresh fields) bytes start)
                (λ r. some (end_in (init_pbs bytes len) r)) (sym reads ∙ e) in
            let right : fine ≡ true =
              sym (fine_end_in (init_pbs bytes len) fine got end)
              ∙ ap (λ r. r.0) (some_injective last) in
            record { members = got; end = end; accepted = run ∙ ap (λ b. some (b, got, end)) right }
      ]

  parse_sdu-accepted :
      (buf : Buffer) (size : ℕ) (members : List Member)
      → parse_sdu calloc_gives buf fields size ≡ some (some members)
      → FieldsAccepted calloc_gives fields (bytes_at buf.ptr)
  unfolding parse_sdu
  parse_sdu-accepted buf size members e = elim (Bool-cases (calloc_gives size)) [
    | inr refused ↦
        let null : parse_sdu calloc_gives buf fields size ≡ some none = rw refused refl in
        let wrong : none ≡ some members = some_injective (sym null ∙ e) in absurd (cc (wrong))
    | inl given ↦
        let reads : parse_sdu calloc_gives buf fields size ≡ (
            in_struct calloc_gives fields (fresh fields) (init_pbs (bytes_at buf.ptr) buf.len)
            >>= λ r. uploaded size fields r) =
          rw given refl in
        let ((fine, ms, ins), run, last) =
          bind_some
            (in_struct calloc_gives fields (fresh fields) (init_pbs (bytes_at buf.ptr) buf.len))
            (λ r. uploaded size fields r) (sym reads ∙ e) in
        let right =
          fine_if_fine fine ms ins members (uploaded-some fields size fine ms ins members last) in
        in_struct-accepted (bytes_at buf.ptr) buf.len ms ins
          (run ∙ ap (λ b. some (b, ms, ins)) right)
  ]

-- Bytes before a place, with one of them changed.
record Changed (block : List ℕ) (i v at : ℕ) : Type 0 where
  pre : List ℕ
  post : List ℕ
  pre_bytes : AreBytes pre
  post_bytes : AreBytes post
  small : get_or block i 0 < 256
  old : take at block ≡ pre ++ get_or block i 0 ∷ post
  new : take at (set block i v) ≡ pre ++ v ∷ post

take-AreBytes : (n : ℕ) (xs : List ℕ) → AreBytes xs → AreBytes (take n xs)
take-AreBytes zero xs b = tt
take-AreBytes (suc n) [] b = tt
take-AreBytes (suc n) (x ∷ xs) (h, b) = (h, take-AreBytes n xs b)

set-Changed :
    (block : List ℕ) (i v at : ℕ)
    → i < at
    → i < length block
    → AreBytes block
    → Changed block i v at
set-Changed block i v zero h l b = absurd (omega arith)
set-Changed [] i v (suc at) h l b = absurd (omega arith)
set-Changed (x ∷ xs) zero v (suc at) h l (small, b) = record {
  pre = [];
  post = take at xs;
  pre_bytes = tt;
  post_bytes = take-AreBytes at xs b;
  small = small;
  old = refl;
  new = refl;
}
set-Changed (x ∷ xs) (suc i) v (suc at) h l (small, b) =
    let c = set-Changed xs i v at (omega arith) (omega arith) b in
    record {
      pre = x ∷ c.pre;
      post = c.post;
      pre_bytes = (small, c.pre_bytes);
      post_bytes = c.post_bytes;
      small = c.small;
      old = ap (λ t. x ∷ t) c.old;
      new = ap (λ t. x ∷ t) c.new;
    }

-- A packet whose fields are numbers, strings of a fixed length and paddings, to the place `e`, and
-- then a checksum of 8 bits: when parse_sdu accepts the bytes of a buffer, it does not accept them
-- with one byte before the checksum changed to another.
pub parse_sdu-detects :
    (calloc_gives : ℕ → Bool) {A : Type 0} {fields : List (Field A)} {e : ℕ} (buf : Buffer)
    (block : List ℕ) (i v size : ℕ) (members members' : List Member)
    → IsFixed fields 0 e
    → AreBytes block
    → i < e / 8
    → i < length block
    → v < 256
    → get_or block i 0 ≢ v
    → parse_sdu calloc_gives (record buf { ptr = some block }) (fields ++ ft_crc 8 ∷ []) size
      ≡ some (some members)
    → parse_sdu calloc_gives
        (record buf { ptr = some (set block i v) })
        (fields ++ ft_crc 8 ∷ [])
        size
      ≢ some (some members')
parse_sdu-detects calloc_gives {fields = fields} {e = e} buf block i v size members members' f bytes
      early inside small other good bad =
    let start : InState = record { cur = 0; bit_size = 0; pdu_len = 0 } in
    let full = fields ++ ft_crc 8 ∷ [] in
    let a =
      parse_sdu-accepted calloc_gives full (record buf { ptr = some block }) size members good in
    let b =
      parse_sdu-accepted calloc_gives full (record buf { ptr = some (set block i v) }) size members'
        bad in
    let at_start : ReadsAt 0 start = record { at_cur = refl; at_bit = refl } in
    let here = in_fields-checked calloc_gives (fresh full) block start f at_start a.accepted in
    let there =
      in_fields-checked calloc_gives (fresh full) (set block i v) start f at_start b.accepted in
    let same_byte : get_elem? (set block i v) (e / 8) ≡ get_elem? block (e / 8) =
      get_elem?-set_ne block v (λ q. omega arith) in
    let same_crc : cal_crc_8bits (take (e / 8) block)
        ≡ cal_crc_8bits (take (e / 8) (set block i v)) =
      some_injective (sym here ∙ sym same_byte ∙ there) in
    let c = set-Changed block i v (e / 8) early inside bytes in
    cal_crc_8bits-detects c.pre c.post (get_or block i 0) v c.pre_bytes c.post_bytes c.small small
      other (ap cal_crc_8bits (sym c.old) ∙ same_crc ∙ ap cal_crc_8bits c.new)
