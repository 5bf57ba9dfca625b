-- ===== src/Crc/Narrow.antt =====
-- What the checksum of 8 bits of src/ld_crc.c detects: messages that differ in one byte.
use liteldacssdk.Prelude.{
  ℕ, zero, suc, ◌+◌, ◌/◌, ◌%◌, ◌<◌, bit_xor, ◌≡◌, refl, sym, ap, ◌∙◌, ◌≢◌, true, List, [], ◌∷◌,
  ◌++◌, arith, ltb, ◌==◌, if◌then◌else◌, ltb→lt, ==_iff, AreBytes, all_below, all_below_sound,
}
use liteldacssdk.Crc.{cal_crc_8bits}
use liteldacssdk.Crc.Xor.{xor_bound}
use liteldacssdk.Crc.Detect.{AreBytes-append, xor_inj, xor_inj_left}
use liteldacssdk.Crc.Bitwise.{iterate, shift8, divide8, cal_crc_8bits-divide8}

-- The lowest bit of the polynomial tells what was shifted out.
abbrev unshift8 : ℕ → ℕ
unshift8 crc = if crc % 2 == 0 then crc / 2 else bit_xor crc 0x97 / 2 + 128

unshift8_table : all_below 256 (λ b. unshift8 (shift8 b) == b) ≡ true
unfolding all_below
unshift8_table = refl

shift8_small : all_below 256 (λ b. ltb (shift8 b) 256) ≡ true
unfolding all_below
shift8_small = refl

shift8_lt : (a : ℕ) → a < 256 → shift8 a < 256
shift8_lt a p = ltb→lt _ 256 (all_below_sound 256 (λ b. ltb (shift8 b) 256) a shift8_small p)

shift8_inj : (a b : ℕ) → a < 256 → b < 256 → shift8 a ≡ shift8 b → a ≡ b
shift8_inj a b p q e =
    let back = λ (x : ℕ) (h : x < 256).
      (==_iff (unshift8 (shift8 x)) x).0
        (all_below_sound 256 (λ c. unshift8 (shift8 c) == c) x unshift8_table h) in
    sym (back a p) ∙ ap unshift8 e ∙ back b q

iterate_lt : (n a : ℕ) → a < 256 → iterate n shift8 a < 256
iterate_lt zero a p = p
iterate_lt (suc n) a p = iterate_lt n (shift8 a) (shift8_lt a p)

iterate_inj : (n a b : ℕ) → a < 256 → b < 256 → iterate n shift8 a ≡ iterate n shift8 b → a ≡ b
iterate_inj zero a b p q e = e
iterate_inj (suc n) a b p q e =
    shift8_inj a b p q (iterate_inj n (shift8 a) (shift8 b) (shift8_lt a p) (shift8_lt b q) e)

divide8_lt : (crc : ℕ) (bytes : List ℕ) → crc < 256 → AreBytes bytes → divide8 crc bytes < 256
divide8_lt crc [] p v = p
divide8_lt crc (byte ∷ bytes) p v =
    divide8_lt (iterate 8 shift8 (bit_xor crc byte)) bytes
      (iterate_lt 8 (bit_xor crc byte) (xor_bound 8 crc byte p v.0)) v.1

divide8_inj :
    (a b : ℕ) (bytes : List ℕ)
    → a < 256
    → b < 256
    → AreBytes bytes
    → divide8 a bytes ≡ divide8 b bytes
    → a ≡ b
divide8_inj a b [] p q v e = e
divide8_inj a b (byte ∷ bytes) p q v e =
    let a_lt = xor_bound 8 a byte p v.0 in
    let b_lt = xor_bound 8 b byte q v.0 in
    xor_inj a b byte (
      iterate_inj 8 (bit_xor a byte) (bit_xor b byte) a_lt b_lt (
        divide8_inj (iterate 8 shift8 (bit_xor a byte)) (iterate 8 shift8 (bit_xor b byte)) bytes
          (iterate_lt 8 _ a_lt) (iterate_lt 8 _ b_lt) v.1 e))

divide8-append : (crc : ℕ) (xs ys : List ℕ) → divide8 crc (xs ++ ys) ≡ divide8 (divide8 crc xs) ys
divide8-append crc [] ys = refl
divide8-append crc (x ∷ xs) ys = divide8-append (iterate 8 shift8 (bit_xor crc x)) xs ys

-- Two messages of bytes that differ in one byte have different checksums of 8 bits.
pub cal_crc_8bits-detects :
    (pre post : List ℕ) (a b : ℕ)
    → AreBytes pre
    → AreBytes post
    → a < 256
    → b < 256
    → a ≢ b
    → cal_crc_8bits (pre ++ a ∷ post) ≢ cal_crc_8bits (pre ++ b ∷ post)
cal_crc_8bits-detects pre post a b v w p q ne e =
    let s = divide8 0 pre in
    let s_lt = divide8_lt 0 pre (omega arith) v in
    let a_lt = xor_bound 8 s a s_lt p in
    let b_lt = xor_bound 8 s b s_lt q in
    let same_rest : divide8 0 (pre ++ a ∷ post) ≡ divide8 0 (pre ++ b ∷ post) =
      sym (cal_crc_8bits-divide8 (pre ++ a ∷ post) (AreBytes-append pre (a ∷ post) v (p, w)))
      ∙ e
      ∙ cal_crc_8bits-divide8 (pre ++ b ∷ post) (AreBytes-append pre (b ∷ post) v (q, w)) in
    ne (
      xor_inj_left a b s (
        iterate_inj 8 (bit_xor s a) (bit_xor s b) a_lt b_lt (
          divide8_inj (iterate 8 shift8 (bit_xor s a)) (iterate 8 shift8 (bit_xor s b)) post
            (iterate_lt 8 (bit_xor s a) a_lt) (iterate_lt 8 (bit_xor s b) b_lt) w
            (sym (divide8-append 0 pre (a ∷ post)) ∙ same_rest ∙ divide8-append 0 pre (b ∷ post)))))
