-- ===== src/Crc/Detect.antt =====
-- What the checksums of src/ld_crc.c detect: a receiver that checks the sum over a message and its
-- checksum byte, and messages that differ in one byte.
use liteldacssdk.Prelude.{
  ℕ, zero, suc, ◌/◌, ◌%◌, ◌^◌, ◌<◌, bit_and, bit_xor, ◌≡◌, refl, sym, ap, ◌∙◌, ◌≢◌, inl, inr, List,
  [], ◌∷◌, ◌++◌, arith, get_or, ◌==◌, Bool-cases, AreBytes,
}
use liteldacssdk.Crc.{crc8_table, crc8_round, crc8_loop, cal_crc_8bits, cal_crc_32bits}
use liteldacssdk.Crc.Xor.{xor_comm, xor_self, xor_cancel, xor_bound}
use liteldacssdk.Crc.Bitwise.{iterate, shift32, divide32, iterate-xor, cal_crc_32bits-divide32}

-- Equal sums with the same number come from equal numbers.
pub xor_inj : (a b c : ℕ) → bit_xor a c ≡ bit_xor b c → a ≡ b
xor_inj a b c e = sym (xor_cancel a c) ∙ ap (λ x. bit_xor x c) e ∙ xor_cancel b c

xor_eq_zero : (a b : ℕ) → bit_xor a b ≡ 0 → a ≡ b
xor_eq_zero a b e = xor_inj a b b (e ∙ sym (xor_self b))

pub xor_inj_left : (a b c : ℕ) → bit_xor c a ≡ bit_xor c b → a ≡ b
xor_inj_left a b c e = xor_inj a b c (xor_comm a c ∙ e ∙ xor_comm c b)

-- The shift of 32 bits loses nothing: the top bit of the polynomial tells what was shifted out.
shift32_lt : (d : ℕ) → d < 2 ^ 32 → shift32 d < 2 ^ 32
shift32_lt d p =
    let reduced : bit_xor (d / 2) 0xFA567D89 < 2 ^ 32 =
      xor_bound 32 (d / 2) 0xFA567D89 (omega arith) (omega arith) in
    ground arith

shift32-zero : (d : ℕ) → d < 2 ^ 32 → shift32 d ≡ 0 → d ≡ 0
shift32-zero d p e = elim (Bool-cases (d % 2 == 0)) [
  | inl even ↦ ground arith
  | inr odd ↦
      let e' : bit_xor (d / 2) 0xFA567D89 ≡ 0 = ground arith in
      absurd (omega (arith, xor_eq_zero (d / 2) 0xFA567D89 e'))
]

iterate_lt : (n d : ℕ) → d < 2 ^ 32 → iterate n shift32 d < 2 ^ 32
iterate_lt zero d p = p
iterate_lt (suc n) d p = iterate_lt n (shift32 d) (shift32_lt d p)

iterate-zero : (n d : ℕ) → d < 2 ^ 32 → iterate n shift32 d ≡ 0 → d ≡ 0
iterate-zero zero d p e = e
iterate-zero (suc n) d p e = shift32-zero d p (iterate-zero n (shift32 d) (shift32_lt d p) e)

iterate_inj :
    (n a b : ℕ) → a < 2 ^ 32 → b < 2 ^ 32 → iterate n shift32 a ≡ iterate n shift32 b → a ≡ b
iterate_inj n a b p q e = xor_eq_zero a b (
    iterate-zero n (bit_xor a b) (xor_bound 32 a b p q) (
      iterate-xor n a b
      ∙ ap (λ x. bit_xor x (iterate n shift32 b)) e
      ∙ xor_self (iterate n shift32 b)))

divide32_lt :
    (crc : ℕ) (bytes : List ℕ) → crc < 2 ^ 32 → AreBytes bytes → divide32 crc bytes < 2 ^ 32
divide32_lt crc [] p v = p
divide32_lt crc (byte ∷ bytes) p v =
    divide32_lt (iterate 8 shift32 (bit_xor crc byte)) bytes
      (iterate_lt 8 (bit_xor crc byte) (xor_bound 32 crc byte p (omega (arith, v.0)))) v.1

divide32_inj :
    (a b : ℕ) (bytes : List ℕ)
    → a < 2 ^ 32
    → b < 2 ^ 32
    → AreBytes bytes
    → divide32 a bytes ≡ divide32 b bytes
    → a ≡ b
divide32_inj a b [] p q v e = e
divide32_inj a b (byte ∷ bytes) p q v e =
    let byte_lt : byte < 2 ^ 32 = omega (arith, v.0) in
    let a_lt : bit_xor a byte < 2 ^ 32 = xor_bound 32 a byte p byte_lt in
    let b_lt : bit_xor b byte < 2 ^ 32 = xor_bound 32 b byte q byte_lt in
    xor_inj a b byte (
      iterate_inj 8 (bit_xor a byte) (bit_xor b byte) a_lt b_lt (
        divide32_inj (iterate 8 shift32 (bit_xor a byte)) (iterate 8 shift32 (bit_xor b byte)) bytes
          (iterate_lt 8 _ a_lt) (iterate_lt 8 _ b_lt) v.1 e))

divide32-append :
    (crc : ℕ) (xs ys : List ℕ) → divide32 crc (xs ++ ys) ≡ divide32 (divide32 crc xs) ys
divide32-append crc [] ys = refl
divide32-append crc (x ∷ xs) ys = divide32-append (iterate 8 shift32 (bit_xor crc x)) xs ys

pub AreBytes-append : (xs ys : List ℕ) → AreBytes xs → AreBytes ys → AreBytes (xs ++ ys)
AreBytes-append [] ys v w = w
AreBytes-append (x ∷ xs) ys v w = (v.0, AreBytes-append xs ys v.1 w)

module _ (pre post : List ℕ) (a b : ℕ) (v : AreBytes pre) (w : AreBytes post) (p : a < 256)
    (q : b < 256) where
  bytes_with : (c : ℕ) → c < 256 → AreBytes (pre ++ c ∷ post)
  bytes_with c r = AreBytes-append pre (c ∷ post) v (r, w)

  -- Two messages of bytes that differ in one byte, wherever it stands, have different checksums of
  -- 32 bits.
  pub cal_crc_32bits-detects :
      a ≢ b → cal_crc_32bits (pre ++ a ∷ post) ≢ cal_crc_32bits (pre ++ b ∷ post)
  cal_crc_32bits-detects ne e =
      let eq = xor_inj (divide32 0 (pre ++ a ∷ post)) (divide32 0 (pre ++ b ∷ post)) 0xFFFFFFFF (
        sym (cal_crc_32bits-divide32 (pre ++ a ∷ post) (bytes_with a p))
        ∙ e
        ∙ cal_crc_32bits-divide32 (pre ++ b ∷ post) (bytes_with b q)) in
      let s_lt = divide32_lt 0 pre (omega arith) v in
      let s = divide32 0 pre in
      let a_lt = xor_bound 32 s a s_lt (omega arith) in
      let b_lt = xor_bound 32 s b s_lt (omega arith) in
      ne (
        xor_inj_left a b s (
          iterate_inj 8 (bit_xor s a) (bit_xor s b) a_lt b_lt (
            divide32_inj (iterate 8 shift32 (bit_xor s a)) (iterate 8 shift32 (bit_xor s b)) post
              (iterate_lt 8 (bit_xor s a) a_lt) (iterate_lt 8 (bit_xor s b) b_lt) w
              (sym (divide32-append 0 pre (a ∷ post)) ∙ eq ∙ divide32-append 0 pre (b ∷ post)))))

crc8_loop-append :
    (crc : ℕ) (xs ys : List ℕ) → crc8_loop crc (xs ++ ys) ≡ crc8_loop (crc8_loop crc xs) ys
unfolding crc8_loop
crc8_loop-append crc [] ys = refl
crc8_loop-append crc (x ∷ xs) ys = crc8_loop-append (crc8_round crc x) xs ys

-- A message followed by its checksum byte has checksum 0.
pub cal_crc_8bits-check : (bytes : List ℕ) → cal_crc_8bits (bytes ++ cal_crc_8bits bytes ∷ []) ≡ 0
unfolding cal_crc_8bits crc8_loop
cal_crc_8bits-check bytes =
    crc8_loop-append 0 bytes (crc8_loop 0 bytes ∷ [])
    ∙ ap (λ x. get_or crc8_table (bit_and x 0xFF) 0) (xor_self (crc8_loop 0 bytes))
