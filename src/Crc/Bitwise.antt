-- ===== src/Crc/Bitwise.antt =====
-- The checksums of src/ld_crc.c by the bit: division by the polynomial, one shift at a time, and the
-- proof that the tables do the same a byte at a time.
use liteldacssdk.Prelude.{
  ℕ, zero, suc, ◌+◌, ◌*◌, ◌/◌, ◌%◌, ◌^◌, ◌<◌, bit_and, bit_xor, ◌≡◌, refl, sym, ap, ap₂, ◌∙◌, inl,
  inr, true, List, [], ◌∷◌, arith, get_or, ltb, ◌==◌, if◌then◌else◌, ltb→lt, ==_iff, Bool-cases,
  AreBytes, all_below, all_below_sound,
}
use liteldacssdk.Crc.{
  crc8_table, crc32_table, crc8_round, crc32_round, crc8_loop, crc32_loop, cal_crc_8bits,
  cal_crc_32bits,
}
use liteldacssdk.Crc.Xor.{
  xor-half, xor_parity, xor_zero, xor_bound, and_byte, xor_split, shifted, xor-high,
  xor_interchange,
}

abbrev pub iterate : ℕ → (ℕ → ℕ) → ℕ → ℕ
iterate zero f x = x
iterate (suc n) f x = iterate n f (f x)

-- Highest bit first, in 8 bits; the polynomial is 0x97.
abbrev pub shift8 : ℕ → ℕ
shift8 crc = if ltb crc 128 then crc * 2 else bit_xor ((crc * 2) % 2 ^ 8) 0x97

-- Lowest bit first; the polynomial, in that order, is 0xFA567D89.
abbrev pub shift32 : ℕ → ℕ
shift32 crc = if crc % 2 == 0 then crc / 2 else bit_xor (crc / 2) 0xFA567D89

abbrev pub divide8 : ℕ → List ℕ → ℕ
divide8 crc [] = crc
divide8 crc (byte ∷ bytes) = divide8 (iterate 8 shift8 (bit_xor crc byte)) bytes

abbrev pub divide32 : ℕ → List ℕ → ℕ
divide32 crc [] = crc
divide32 crc (byte ∷ bytes) = divide32 (iterate 8 shift32 (bit_xor crc byte)) bytes

crc8_table_lem : all_below 256 (λ b. get_or crc8_table b 0 == iterate 8 shift8 b) ≡ true
unfolding all_below
crc8_table_lem = refl

crc32_table_lem : all_below 256 (λ b. get_or crc32_table b 0 == iterate 8 shift32 b) ≡ true
unfolding all_below
crc32_table_lem = refl

-- One shift is linear.
tap : ℕ → ℕ
tap crc = crc % 2 * 0xFA567D89

shift32-tap : (crc : ℕ) → shift32 crc ≡ bit_xor (crc / 2) (tap crc)
unfolding tap
shift32-tap crc = elim (Bool-cases (crc % 2 == 0)) [
  | inl e ↦
      let z : crc % 2 * 0xFA567D89 ≡ 0 = omega (arith, (==_iff (crc % 2) 0).0 e) in
      rw (e, z) (sym (xor_zero (crc / 2)))
  | inr e ↦ let one : crc % 2 * 0xFA567D89 ≡ 0xFA567D89 = ground arith in rw (e, one) refl
]

tap_digits :
    (x y : ℕ) → x < 2 → y < 2 → (x + y) % 2 * 0xFA567D89 ≡ bit_xor (x * 0xFA567D89) (y * 0xFA567D89)
tap_digits zero zero p q = refl
tap_digits zero (suc zero) p q = refl
tap_digits (suc zero) zero p q = refl
tap_digits (suc zero) (suc zero) p q = refl
tap_digits (suc (suc x)) y p q = absurd (omega arith)
tap_digits x (suc (suc y)) p q = absurd (omega arith)

tap-xor : (a b : ℕ) → tap (bit_xor a b) ≡ bit_xor (tap a) (tap b)
unfolding tap
tap-xor a b = omega (arith, xor_parity a b, tap_digits (a % 2) (b % 2) (omega arith) (omega arith))

shift32-xor : (a b : ℕ) → shift32 (bit_xor a b) ≡ bit_xor (shift32 a) (shift32 b)
shift32-xor a b =
    shift32-tap (bit_xor a b)
    ∙ ap₂ bit_xor (xor-half a b) (tap-xor a b)
    ∙ xor_interchange (a / 2) (b / 2) (tap a) (tap b)
    ∙ sym (ap₂ bit_xor (shift32-tap a) (shift32-tap b))

pub iterate-xor :
    (n a b : ℕ)
    → iterate n shift32 (bit_xor a b) ≡ bit_xor (iterate n shift32 a) (iterate n shift32 b)
iterate-xor zero a b = refl
iterate-xor (suc n) a b =
    ap (iterate n shift32) (shift32-xor a b) ∙ iterate-xor n (shift32 a) (shift32 b)

-- Digits that are zero only move the rest.
shift32-double : (m : ℕ) → shift32 (m * 2) ≡ m
shift32-double m = ground arith

iterate-shifted : (n h : ℕ) → iterate n shift32 (shifted n h) ≡ h
unfolding shifted
iterate-shifted zero h = refl
iterate-shifted (suc n) h =
    ap (iterate n shift32) (shift32-double (shifted n h)) ∙ iterate-shifted n h

-- Eight shifts of a number by the shifts of its lowest byte.
iterate-split : (a : ℕ) → iterate 8 shift32 a ≡ bit_xor (a / 256) (iterate 8 shift32 (a % 256))
iterate-split a =
    ap (iterate 8 shift32) (sym (xor_split a))
    ∙ iterate-xor 8 (shifted 8 (a / 256)) (a % 256)
    ∙ ap (λ x. bit_xor x (iterate 8 shift32 (a % 256))) (iterate-shifted 8 (a / 256))

crc32_table_eq : (b : ℕ) → b < 256 → get_or crc32_table b 0 ≡ iterate 8 shift32 b
crc32_table_eq b p =
    (==_iff _ _).0
      (all_below_sound 256 (λ b. get_or crc32_table b 0 == iterate 8 shift32 b) b crc32_table_lem p)

crc32_round-iterate :
    (crc byte : ℕ) → byte < 256 → crc32_round crc byte ≡ iterate 8 shift32 (bit_xor crc byte)
crc32_round-iterate crc byte p =
    ap₂ bit_xor (sym (xor-high crc byte p)) (
      ap (λ k. get_or crc32_table k 0) (and_byte (bit_xor crc byte))
      ∙ crc32_table_eq (bit_xor crc byte % 256) (omega arith))
    ∙ sym (iterate-split (bit_xor crc byte))

crc32_loop-divide32 :
    (crc : ℕ) (bytes : List ℕ) → AreBytes bytes → crc32_loop crc bytes ≡ divide32 crc bytes
unfolding crc32_loop
crc32_loop-divide32 crc [] v = refl
crc32_loop-divide32 crc (byte ∷ bytes) v =
    ap (λ c. crc32_loop c bytes) (crc32_round-iterate crc byte v.0)
    ∙ crc32_loop-divide32 (iterate 8 shift32 (bit_xor crc byte)) bytes v.1

-- On bytes, cal_crc_32bits is the division by the polynomial 0xFA567D89 taken lowest bit first, a
-- bit at a time from 0, with every bit of the remainder inverted.
pub cal_crc_32bits-divide32 :
    (bytes : List ℕ) → AreBytes bytes → cal_crc_32bits bytes ≡ bit_xor (divide32 0 bytes) 0xFFFFFFFF
unfolding cal_crc_32bits
cal_crc_32bits-divide32 bytes v = ap (λ c. bit_xor c 0xFFFFFFFF) (crc32_loop-divide32 0 bytes v)

crc8_table_eq : (b : ℕ) → b < 256 → get_or crc8_table b 0 ≡ iterate 8 shift8 b
crc8_table_eq b p =
    (==_iff _ _).0
      (all_below_sound 256 (λ b. get_or crc8_table b 0 == iterate 8 shift8 b) b crc8_table_lem p)

crc8_round-iterate :
    (crc byte : ℕ)
    → crc < 256
    → byte < 256
    → crc8_round crc byte ≡ iterate 8 shift8 (bit_xor crc byte)
crc8_round-iterate crc byte p q =
    let small : bit_xor crc byte < 256 = xor_bound 8 crc byte p q in
    let mask : bit_and (bit_xor crc byte) 0xFF ≡ bit_xor crc byte =
      omega (arith, and_byte (bit_xor crc byte)) in
    ap (λ k. get_or crc8_table k 0) mask ∙ crc8_table_eq (bit_xor crc byte) small

crc8_bound : all_below 256 (λ b. ltb (get_or crc8_table b 0) 256) ≡ true
unfolding all_below
crc8_bound = refl

pub crc8_round_lt : (crc byte : ℕ) → crc8_round crc byte < 256
crc8_round_lt crc byte = ltb→lt _ 256 (
    all_below_sound 256 (λ b. ltb (get_or crc8_table b 0) 256) (bit_and (bit_xor crc byte) 0xFF)
      crc8_bound (omega (arith, and_byte (bit_xor crc byte))))

crc8_loop-divide8 :
    (crc : ℕ) (bytes : List ℕ)
    → crc < 256
    → AreBytes bytes
    → crc8_loop crc bytes ≡ divide8 crc bytes
unfolding crc8_loop
crc8_loop-divide8 crc [] p v = refl
crc8_loop-divide8 crc (byte ∷ bytes) p v =
    crc8_loop-divide8 (crc8_round crc byte) bytes (crc8_round_lt crc byte) v.1
    ∙ ap (λ c. divide8 c bytes) (crc8_round-iterate crc byte p v.0)

-- On bytes, cal_crc_8bits is the division by the polynomial 0x97 taken highest bit first, a bit at
-- a time from 0.
pub cal_crc_8bits-divide8 :
    (bytes : List ℕ) → AreBytes bytes → cal_crc_8bits bytes ≡ divide8 0 bytes
unfolding cal_crc_8bits
cal_crc_8bits-divide8 bytes v = crc8_loop-divide8 0 bytes (omega arith) v
