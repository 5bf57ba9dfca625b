-- ===== src/Santilizer/DetachLoop.antt =====
-- The loop of detach_bits of src/ld_santilizer.c.
use liteldacssdk.Prelude.{
  ℕ, zero, suc, ◌+◌, ◌-◌, ◌*◌, ◌/◌, ◌^◌, ◌≤◌, ◌<◌, max, bit_or, ◌≡◌, refl, sym, ap, ap₂, ◌∙◌, inl,
  inr, true, false, some, List, arith, length, get_or, get_elem?-eq-get_or, ltb, leb, ◌==◌,
  Bool-cases,
}
use liteldacssdk.Santilizer.{detach_round, detach_bits}
use liteldacssdk.Santilizer.Bits.{bit, bit-or, or_bound}
use liteldacssdk.Santilizer.Append.{bit_at}
use liteldacssdk.Santilizer.Detach.{
  Detached, byte_small, part_small, byte_bit, shift_int-some, shifted_byte, byte_below, byte_inside,
  byte_outside, shifted_part, part_inside, part_outside,
}

detach_round_none :
    (rounds n cur : ℕ) (stream : List ℕ) (pre : ℕ)
    → detach_round rounds 0 n cur stream pre ≡ some (n, cur)
unfolding detach_round
detach_round_none zero n cur stream pre = refl
detach_round_none (suc rounds) n cur stream pre = refl

module _ (rounds left n cur : ℕ) (stream : List ℕ) (pre : ℕ) (fits : pre < 8)
    (room : cur < length stream) where
  abbrev byte : ℕ
  byte = get_or stream cur 0

  whole_step :
      8 ≤ left
      → left ≤ 31 + pre
      → Detached (left - 8) (bit_or n (shifted_byte byte pre left)) (cur + 1) stream 0 (
          detach_round rounds (left - 8) (bit_or n (shifted_byte byte pre left)) (cur + 1) stream 0)
      → Detached left n cur stream pre (detach_round (suc rounds) left n cur stream pre)
  unfolding detach_round
  whole_step full most r =
      let many : (left == 0) ≡ false = ground arith in
      let whole : leb 8 left ≡ true = ground arith in
      let stop : cur + 1 + (left - 8) / 8 ≡ cur + left / 8 = omega arith in
      let ends : 8 * (cur + 1) + (left - 8) ≡ 8 * cur + left = omega arith in
      let bits : ℕ = shifted_byte byte pre left in
      let bits_small : bits < 2 ^ 31 = byte_small byte pre left full fits most in
      record {
        value = r.value;
        runs =
            rw
              (
                many,
                whole,
                get_elem?-eq-get_or stream cur 0 room,
                shift_int-some byte pre left full fits most,
              )
              (r.runs ∙ ap (λ k. some (r.value, k)) stop);
        small = λ h. r.small (or_bound 31 n bits h bits_small);
        inside = λ k lo hi. elim (Bool-cases (ltb k (left - 8))) [
          | inl e ↦
              let later : k < left - 8 = ground arith in
              r.inside k later (omega arith)
              ∙ ap₂ max
                  (bit-or k n bits
                    ∙ ap (λ x. max (bit k n) x) (byte_below byte pre left full fits k later)
                    ∙ omega arith)
                  (ap (λ j. bit_at stream (j - 1 - k)) ends)
          | inr e ↦
              let first : left - 8 ≤ k = ground arith in
              r.above k first
              ∙ bit-or k n bits
              ∙ ap (λ x. max (bit k n) x)
                  (byte_inside byte pre left full fits k first (omega arith)
                    ∙ sym (
                        byte_bit stream cur (8 * cur + left - 1 - k) (k - (left - 8)) (omega arith)
                          (omega arith)))
        ];
        masked = λ k lo hi.
            r.above k (omega arith)
            ∙ bit-or k n bits
            ∙ ap (λ x. max (bit k n) x)
                (byte_outside byte pre left full fits k (omega arith) (omega arith))
            ∙ omega arith;
        above = λ k hi.
            r.above k (omega arith)
            ∙ bit-or k n bits
            ∙ ap (λ x. max (bit k n) x)
                (byte_outside byte pre left full fits k (omega arith) (omega arith))
            ∙ omega arith;
      }

  last_step :
      0 < left
      → left < 8
      → Detached left n cur stream pre (detach_round (suc rounds) left n cur stream pre)
  unfolding detach_round
  last_step pos part =
      let many : (left == 0) ≡ false = ground arith in
      let whole : leb 8 left ≡ false = ground arith in
      let stop : cur ≡ cur + left / 8 = omega arith in
      let bits : ℕ = shifted_part byte pre left in
      let bits_small : bits < 2 ^ 31 = part_small byte pre left in
      record {
        value = bit_or n bits;
        runs =
            rw (many, whole, get_elem?-eq-get_or stream cur 0 room)
              (detach_round_none rounds (bit_or n bits) cur stream 0
                ∙ ap (λ k. some (bit_or n bits, k)) stop);
        small = λ h. or_bound 31 n bits h bits_small;
        inside = λ k lo hi.
            bit-or k n bits
            ∙ ap (λ x. max (bit k n) x)
                (part_inside byte pre left part fits k (omega arith)
                  ∙ sym (
                      byte_bit stream cur (8 * cur + left - 1 - k) (k + (8 - left)) (omega arith)
                        (omega arith)));
        masked = λ k lo hi.
            bit-or k n bits
            ∙ ap (λ x. max (bit k n) x) (part_outside byte pre left part fits k (omega arith))
            ∙ omega arith;
        above = λ k hi.
            bit-or k n bits
            ∙ ap (λ x. max (bit k n) x) (part_outside byte pre left part fits k (omega arith))
            ∙ omega arith;
      }

detach_round-Detached :
    (rounds left n cur : ℕ) (stream : List ℕ) (pre : ℕ)
    → left < 8 * rounds
    → 8 * cur + left ≤ 8 * length stream
    → pre < 8
    → left ≤ 31 + pre
    → Detached left n cur stream pre (detach_round rounds left n cur stream pre)
unfolding detach_round
detach_round-Detached zero left n cur stream pre h fits unused most = absurd (omega arith)
detach_round-Detached (suc rounds) left n cur stream pre h fits unused most =
    elim (Bool-cases (left == 0)) [
      | inl e ↦
          let nothing : left ≡ 0 = ground arith in
          let stop : cur ≡ cur + left / 8 = omega arith in
          rw e (record {
            value = n;
            runs = ap (λ k. some (n, k)) stop;
            small = λ s. s;
            inside = λ k lo hi. absurd (omega arith);
            masked = λ k lo hi. refl;
            above = λ k hi. refl;
          })
      | inr e ↦ elim (Bool-cases (leb 8 left)) [
        | inl f ↦
            let full : 8 ≤ left = ground arith in
            whole_step rounds left n cur stream pre unused (omega arith) full most (
              detach_round-Detached rounds (left - 8) _ (cur + 1) stream 0 (omega arith)
                (omega arith) (omega arith) (omega arith))
        | inr f ↦
            last_step rounds left n cur stream pre unused (ground arith) (ground arith)
              (ground arith)
      ]
    ]

-- detach_bits of at most 31 bits inside a stream: no shift overflows, and the value has the bits of
-- the stream that belong to the field, and those it had.
pub detach_bits-Detached :
    (left n cur : ℕ) (stream : List ℕ) (pre : ℕ)
    → 8 * cur + left ≤ 8 * length stream
    → pre < 8
    → left ≤ 31 + pre
    → Detached left n cur stream pre (detach_bits left n cur stream pre)
detach_bits-Detached left n cur stream pre fits unused most =
    detach_round-Detached (left / 8 + 1) left n cur stream pre (omega arith) fits unused most
