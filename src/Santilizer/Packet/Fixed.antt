-- ===== src/Santilizer/Packet/Fixed.antt =====
-- Packets of src/ld_santilizer.c whose fields have fixed places: where in_struct ends on any bytes
-- that it accepts, and what it has compared.
use liteldacssdk.Prelude.{
  ℕ, ◌+◌, ◌*◌, ◌/◌, ◌≡◌, ap, ◌∙◌, subst, Bool, true, false, Option, some, List, [], ◌∷◌, ◌++◌,
  get_elem?, take, if◌then◌else◌, ◌>>=◌,
}
use liteldacssdk.Crc.{cal_crc_8bits}
use liteldacssdk.Santilizer.DetachEnds.{some_injective, bind_some}
use liteldacssdk.Santilizer.Fields.{FieldDesc}
use liteldacssdk.Santilizer.Packet.{Field, number, ft_fl_str, ft_pad, ft_crc, Member}
use liteldacssdk.Santilizer.Packet.In.{InState, in_field, in_fields}
use liteldacssdk.Santilizer.Packet.Sendable.{octet}
use liteldacssdk.Santilizer.Packet.Ends.{number_ends, text_ends, pad_ends, crc_right}
use liteldacssdk.Santilizer.Packet.InSent.{ReadsAt, put_first}

-- Fields that reach from the place `p` to `e`, whatever they hold.
pub data IsFixed {A : Type 0} : List (Field A) → ℕ → ℕ → Type 0 where
  fixed_none : {p : ℕ} → IsFixed [] p p
  fixed_number :
      {fp : FieldDesc A} {fields : List (Field A)} {p e : ℕ}
      → IsFixed fields (p + fp.size) e
      → IsFixed (number fp ∷ fields) p e
  fixed_text :
      {size desc : ℕ} {fields : List (Field A)} {p e : ℕ}
      → IsFixed fields (p + 8 * desc) e
      → IsFixed (ft_fl_str size desc ∷ fields) p e
  fixed_pad :
      {size : ℕ} {fields : List (Field A)} {p e : ℕ}
      → IsFixed fields (octet p) e
      → IsFixed (ft_pad size ∷ fields) p e

-- The loop has come to the place `e` and accepts the rest.
record ComesTo {A : Type 0} (calloc_gives : ℕ → Bool) (rest : List (Field A)) (bytes : List ℕ)
    (e : ℕ) : Type 0 where
  before : List Member
  state : InState
  members : List Member
  end : InState
  reads : ReadsAt e state
  goes_well : in_fields calloc_gives rest before bytes state ≡ some (true, members, end)

-- What the loop makes of a field and the rest.
abbrev outcome :
    Bool
    → Option (Bool × List Member × InState)
    → Member
    → List Member
    → InState
    → Option (Bool × List Member × InState)
outcome accepted rest m before s =
    if accepted then (rest >>= λ r. put_first (m ∷ []) r) else some (false, m ∷ before, s)

module _ (calloc_gives : ℕ → Bool) {A : Type 0} where
  -- One field was accepted, and the others behind it.
  record Accepted (fp : Field A) (fields : List (Field A)) (before : List Member) (bytes : List ℕ)
      (s : InState) : Type 0 where
    member_before : Member
    before_rest : List Member
    member_after : Member
    next : InState
    members : List Member
    end : InState
    field_read : in_field calloc_gives fp member_before bytes s ≡ some (true, member_after, next)
    rest_read : in_fields calloc_gives fields before_rest bytes next ≡ some (true, members, end)

  take_rest :
      (fp : Field A) (fields : List (Field A)) (m : Member) (before : List Member) (bytes : List ℕ)
      (s : InState) (accepted : Bool) (m' : Member) (s' : InState) {members : List Member}
      {end : InState}
      → in_field calloc_gives fp m bytes s ≡ some (accepted, m', s')
      → outcome accepted (in_fields calloc_gives fields before bytes s') m' before s'
        ≡ some (true, members, end)
      → Accepted fp fields (m ∷ before) bytes s
  take_rest fp fields m before bytes s false m' s' one e =
      let wrong : false ≡ true = ap (λ r. r.0) (some_injective e) in absurd (cc)
  take_rest fp fields m before bytes s true m' s' one e =
      let ((fine, ms, s''), run, last) =
        bind_some (in_fields calloc_gives fields before bytes s') (λ r. put_first (m' ∷ []) r) e in
      let right : fine ≡ true = ap (λ r. r.0) (some_injective last) in
      record {
        member_before = m;
        before_rest = before;
        member_after = m';
        next = s';
        members = ms;
        end = s'';
        field_read = one;
        rest_read = run ∙ ap (λ b. some (b, ms, s'')) right;
      }

  take_first :
      (fp : Field A) (fields : List (Field A)) (before : List Member) (bytes : List ℕ) (s : InState)
      {members : List Member} {end : InState}
      → in_fields calloc_gives (fp ∷ fields) before bytes s ≡ some (true, members, end)
      → Accepted fp fields before bytes s
  unfolding in_fields
  take_first fp fields [] bytes s e = absurd (cc)
  take_first fp fields (m ∷ before) bytes s e =
      let ((accepted, m', s'), one, rest) =
        bind_some (in_field calloc_gives fp m bytes s)
          (λ (accepted, m', s').
            outcome accepted (in_fields calloc_gives fields before bytes s') m' before s')
          e in
      take_rest fp fields m before bytes s accepted m' s' one rest

  -- Fixed fields that were accepted end where they always do.
  in_fields-ComesTo :
      {fields : List (Field A)} {p e : ℕ} (rest : List (Field A)) (before : List Member)
      (bytes : List ℕ) (s : InState) {members : List Member} {end : InState}
      → IsFixed fields p e
      → ReadsAt p s
      → in_fields calloc_gives (fields ++ rest) before bytes s ≡ some (true, members, end)
      → ComesTo calloc_gives rest bytes e
  in_fields-ComesTo rest before bytes s {members = members} {end = end} fixed_none at run = record {
    before = before;
    state = s;
    members = members;
    end = end;
    reads = at;
    goes_well = run;
  }
  in_fields-ComesTo {p = p} rest before bytes s (fixed_number {fp = fp} {fields = fields} f) at
        run =
      let a = take_first (number fp) (fields ++ rest) before bytes s run in
      in_fields-ComesTo rest a.before_rest bytes a.next f
        (number_ends calloc_gives A fp p a.member_before a.member_after bytes s a.next true at
          a.field_read)
        a.rest_read
  in_fields-ComesTo {p = p} rest before bytes s
        (fixed_text {size = size} {desc = desc} {fields = fields} f) at run =
      let a = take_first (ft_fl_str size desc) (fields ++ rest) before bytes s run in
      in_fields-ComesTo rest a.before_rest bytes a.next f
        (text_ends calloc_gives A size desc p a.member_before a.member_after bytes s a.next true at
          a.field_read)
        a.rest_read
  in_fields-ComesTo {p = p} rest before bytes s (fixed_pad {size = size} {fields = fields} f) at
        run =
      let a = take_first (ft_pad size) (fields ++ rest) before bytes s run in
      in_fields-ComesTo rest a.before_rest bytes a.next f
        (pad_ends calloc_gives A size p a.member_before a.member_after bytes s a.next true at
          a.field_read)
        a.rest_read

  pub in_fields-checked :
      {fields : List (Field A)} {e : ℕ} (before : List Member) (bytes : List ℕ) (s : InState)
      {members : List Member} {end : InState}
      → IsFixed fields 0 e
      → ReadsAt 0 s
      → in_fields calloc_gives (fields ++ ft_crc 8 ∷ []) before bytes s ≡ some (true, members, end)
      → get_elem? bytes (e / 8) ≡ some (cal_crc_8bits (take (e / 8) bytes))
  in_fields-checked {fields = fields} {e = e} before bytes s f at run =
      let c = in_fields-ComesTo (ft_crc 8 ∷ []) before bytes s f at run in
      let a = take_first (ft_crc 8) [] c.before bytes c.state c.goes_well in
      subst (λ k. get_elem? bytes k ≡ some (cal_crc_8bits (take k bytes))) c.reads.at_cur
        (crc_right calloc_gives A a.member_before a.member_after bytes c.state a.next a.field_read)
