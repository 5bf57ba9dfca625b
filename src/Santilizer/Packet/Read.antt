-- ===== src/Santilizer/Packet/Read.antt =====
-- What in_struct of src/ld_santilizer.c reads of a packet with a length, a payload and a checksum.
use liteldacssdk.Prelude.{
  ℕ, ◌+◌, ◌/◌, ◌≤◌, ◌≡◌, refl, sym, ap, ◌∙◌, subst, Bool, true, some, List, [], ◌∷◌, ◌++◌, arith,
  length, get_elem?, take, ◌==◌, ==_iff, AreBytes,
}
use liteldacssdk.Buffer.{Buffer, bytes_at, init_buffer_unptr, sub_size}
use liteldacssdk.Buffer.Copy.{contents}
use liteldacssdk.Crc.{cal_crc_8bits}
use liteldacssdk.Santilizer.Fields.{FieldDesc}
use liteldacssdk.Santilizer.Fields.Carry.{CarriesAt}
use liteldacssdk.Santilizer.Strings.RoundTrip.{CarriesBytes}
use liteldacssdk.Santilizer.Packet.{Field, number, Member, unset, value, text}
use liteldacssdk.Santilizer.Packet.In.{InState, in_field, in_fields, in_temp, in_raw, in_crc}
use liteldacssdk.Buffer.Fresh.{full_buffer, take-length, clone_to_chunk-take}
use liteldacssdk.Santilizer.Packet.Shape.{packet, packet_end, length_field, crc_at, IsPacket}
use liteldacssdk.Santilizer.Packet.Sendable.{AreSendable-le, Carries, read_back, length-contents}
use liteldacssdk.Santilizer.Packet.InSent.{
  ReadsAt, fresh, read_number, in_field_number, read_text, in_temp-read_text, FieldsRead,
  in_fields-FieldsRead,
}

-- The block that a receiver has.
pub record IsReceived {A : Type 0} (now : ℕ) (before : List (Field A)) (ms₁ : List Member)
    (size : ℕ) (between : List (Field A)) (ms₂ : List Member) (b : Buffer) (p e : ℕ)
    (block : List ℕ) : Type 0 where
  pub sized : length block ≡ crc_at e b.len + 1 + 1
  pub carries_first : Carries now block before ms₁ 0
  pub carries_length : CarriesAt block p size (crc_at e b.len + 1)
  pub carries_second : Carries now block between ms₂ (p + size)
  pub carries_payload : CarriesBytes block e (contents b)
  pub checked :
      get_elem? block (crc_at e b.len) ≡ some (cal_crc_8bits (take (crc_at e b.len) block))

-- The members of a packet that was received.
abbrev pub received_packet :
    {A : Type 0}
    → ℕ
    → List (Field A)
    → List Member
    → List (Field A)
    → List Member
    → Buffer
    → ℕ
    → List Member
received_packet now before ms₁ between ms₂ b total =
    read_back now before ms₁
    ++ value total
      ∷ (read_back now between ms₂ ++ text (some (full_buffer (contents b))) ∷ unset ∷ [])

in_crc-right :
    (cur : ℕ) (bytes : List ℕ)
    → get_elem? bytes cur ≡ some (cal_crc_8bits (take cur bytes))
    → in_crc 8 cur bytes ≡ some (true, cur + 1)
in_crc-right cur bytes e =
    let same : (cal_crc_8bits (take cur bytes) == cal_crc_8bits (take cur bytes)) ≡ true =
      (==_iff (cal_crc_8bits (take cur bytes)) (cal_crc_8bits (take cur bytes))).1 refl in
    rw (e, same) refl

module _ (calloc_gives : ℕ → Bool) (memory : (n : ℕ) → calloc_gives n ≡ true) where
  -- The payload is what the length says is left of the packet.
  in_raw-payload :
      (b : Buffer) (e : ℕ) (block : List ℕ) (s : InState)
      → crc_at e b.len + 1 ≤ 4096
      → b.len ≤ length (bytes_at b.ptr)
      → AreBytes (contents b)
      → length block ≡ crc_at e b.len + 1 + 1
      → CarriesBytes block e (contents b)
      → ReadsAt e s
      → s.pdu_len ≡ crc_at e b.len + 1
      → in_raw calloc_gives 8 block s
        ≡ some (true, text (some (full_buffer (contents b))), read_text e b.len s)
  in_raw-payload b e block s fits held valid sized c at counted =
      let n : length (contents b) ≡ b.len = length-contents b held in
      let slen : sub_size (sub_size s.pdu_len s.cur) (8 / 8) ≡ b.len =
        omega (arith, at.at_cur, counted) in
      let temp : in_temp b.len block s ≡ some (contents b, read_text e b.len s) =
        subst (λ k. in_temp k block s ≡ some (contents b, read_text e k s)) n
          (in_temp-read_text (contents b) e block s valid (omega arith) (omega arith) c at) in
      let whole : take b.len (contents b) ≡ contents b =
        ap (λ k. take k (contents b)) (sym n) ∙ take-length (contents b) in
      rw
        (
          slen,
          temp,
          clone_to_chunk-take calloc_gives memory init_buffer_unptr (contents b) b.len (omega arith)
              (omega arith),
          whole,
        )
        refl

  pub in_fields-received_packet :
      {A : Type 0} {now size p e : ℕ} {before between : List (Field A)} {ms₁ ms₂ : List Member}
      {b : Buffer} (block : List ℕ) (s : InState)
      → IsPacket now before ms₁ size between ms₂ b p e
      → IsReceived now before ms₁ size between ms₂ b p e block
      → ReadsAt 0 s
      → (s' : InState) × (in_fields calloc_gives
            (packet before size between)
            (fresh (packet before size between))
            block
            s
          ≡ some (true, received_packet now before ms₁ between ms₂ b (crc_at e b.len + 1), s'))
  unfolding in_fields in_field
  in_fields-received_packet {A = A} {now = now} {size = size} {p = p} {e = e} {before = before}
        {between = between} {ms₁ = ms₁} {ms₂ = ms₂} {b = b} block s k w at =
      let ends = AreSendable-le now k.second in
      let total = crc_at e b.len + 1 in
      let fp : FieldDesc A = length_field size in
      let f =
        in_fields-FieldsRead calloc_gives memory block s k.first w.carries_first
          (omega (arith, w.sized)) at in
      let s' = read_number fp p total f.after in
      let g : FieldsRead calloc_gives memory between now ms₂ e block s' =
        in_fields-FieldsRead calloc_gives memory block s' k.second w.carries_second
          (omega (arith, w.sized))
          (record { at_cur = refl; at_bit = omega (arith, f.stands.at_bit) }) in
      (
        record (read_text e b.len g.after) { cur = crc_at e b.len + 1 },
        f.runs (number fp ∷ (between ++ packet_end))
            ∙ rw
                (
                  in_field_number calloc_gives fp total p unset block f.after k.pos k.narrow
                      k.counted (omega (arith, w.sized)) w.carries_length refl f.stands,
                  g.runs packet_end,
                  in_raw-payload b e block g.after k.fits k.block k.valid w.sized w.carries_payload
                      g.stands g.pdu_len_same,
                  in_crc-right (crc_at e b.len) block w.checked,
                )
                refl,
      )
