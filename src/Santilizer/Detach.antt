-- ===== src/Santilizer/Detach.antt =====
-- detach_bits of src/ld_santilizer.c, by the bits of the stream.
use liteldacssdk.Prelude.{
  ℕ, ◌+◌, ◌-◌, ◌*◌, ◌/◌, ◌%◌, ◌^◌, ◌≤◌, ◌<◌, max, ◌≡◌, refl, ap, ap₂, ◌∙◌, true, Option, some, List,
  arith, get_or, ltb,
}
use native.Mathlib.Nat.{mod-lt, div-le_self}
use liteldacssdk.Santilizer.{specific, shift_int}
use liteldacssdk.Santilizer.Bits.{
  bit, bit-div, bit-mul, bit-mul_low, bit-mod_low, bit-mod_high, two_pos, two_mono, mul_bound,
}
use liteldacssdk.Santilizer.Append.{bit_at}

-- The bits of the stream before the end, from the bits of a field before on, are those of the value.
pub record Detached (left n cur : ℕ) (stream : List ℕ) (pre : ℕ) (o : Option (ℕ × ℕ)) : Type 0 where
  pub value : ℕ
  pub runs : o ≡ some (value, cur + left / 8)
  pub small : n < 2 ^ 31 → value < 2 ^ 31
  pub inside :
      (k : ℕ)
      → k < left
      → 8 * cur + pre ≤ 8 * cur + left - 1 - k
      → bit k value ≡ max (bit k n) (bit_at stream (8 * cur + left - 1 - k))
  pub masked : (k : ℕ) → k < left → 8 * cur + left - 1 - k < 8 * cur + pre → bit k value ≡ bit k n
  pub above : (k : ℕ) → left ≤ k → bit k value ≡ bit k n

pub byte_bit :
    (stream : List ℕ) (cur q r : ℕ)
    → q / 8 ≡ cur
    → 7 - q % 8 ≡ r
    → bit_at stream q ≡ bit r (get_or stream cur 0)
byte_bit stream cur q r e p = ap₂ (λ j k. bit k (get_or stream j 0)) e p

abbrev pub shifted_byte : ℕ → ℕ → ℕ → ℕ
shifted_byte b pre left = specific b pre * 2 ^ (left - 8)

abbrev pub shifted_part : ℕ → ℕ → ℕ → ℕ
shifted_part b pre left = specific b pre / 2 ^ (8 - left)

pub byte_small :
    (b pre left : ℕ) → 8 ≤ left → pre < 8 → left ≤ 31 + pre → shifted_byte b pre left < 2 ^ 31
byte_small b pre left full fits small =
    let part : b % 2 ^ (8 - pre) < 2 ^ (8 - pre) = mod-lt b (two_pos (8 - pre)) in
    let bound : b % 2 ^ (8 - pre) * 2 ^ (left - 8) < 2 ^ (8 - pre + (left - 8)) =
      mul_bound (8 - pre) (left - 8) (b % 2 ^ (8 - pre)) part in
    let most : 2 ^ (8 - pre + (left - 8)) ≤ 2 ^ 31 =
      two_mono (8 - pre + (left - 8)) 31 (omega arith) in
    omega arith

pub part_small : (b pre left : ℕ) → shifted_part b pre left < 2 ^ 31
part_small b pre left =
    let part : b % 2 ^ (8 - pre) < 2 ^ (8 - pre) = mod-lt b (two_pos (8 - pre)) in
    let most : 2 ^ (8 - pre) ≤ 2 ^ 31 = two_mono (8 - pre) 31 (omega arith) in
    let less : b % 2 ^ (8 - pre) / 2 ^ (8 - left) ≤ b % 2 ^ (8 - pre) =
      div-le_self (b % 2 ^ (8 - pre)) (2 ^ (8 - left)) in
    omega arith

pub shift_int-some :
    (b pre left : ℕ)
    → 8 ≤ left
    → pre < 8
    → left ≤ 31 + pre
    → shift_int (specific b pre) (left - 8) ≡ some (shifted_byte b pre left)
shift_int-some b pre left full fits small =
    let near : ltb (left - 8) 32 ≡ true = ground arith in
    let inside : ltb (b % 2 ^ (8 - pre) * 2 ^ (left - 8)) (2 ^ 31) ≡ true =
      ground (arith, byte_small b pre left full fits small) in
    rw (near, inside) refl

-- A whole byte: its bits from place `left - 8` on.
module _ (b pre left : ℕ) (full : 8 ≤ left) (fits : pre < 8) where
  pub byte_below : (k : ℕ) → k < left - 8 → bit k (shifted_byte b pre left) ≡ 0
  byte_below k h = bit-mul_low (left - 8) k (specific b pre) h

  byte_place :
      (k : ℕ)
      → left - 8 ≤ k
      → bit k (shifted_byte b pre left) ≡ bit (k - (left - 8)) (specific b pre)
  byte_place k h =
      let place : k ≡ k - (left - 8) + (left - 8) = omega arith in
      ap (λ j. bit j (shifted_byte b pre left)) place
      ∙ bit-mul (left - 8) (k - (left - 8)) (specific b pre)

  pub byte_inside :
      (k : ℕ)
      → left - 8 ≤ k
      → k + pre < left
      → bit k (shifted_byte b pre left) ≡ bit (k - (left - 8)) b
  byte_inside k lo hi = byte_place k lo ∙ bit-mod_low (8 - pre) (k - (left - 8)) b (omega arith)

  pub byte_outside : (k : ℕ) → left - 8 ≤ k → left ≤ k + pre → bit k (shifted_byte b pre left) ≡ 0
  byte_outside k lo hi = byte_place k lo ∙ bit-mod_high (8 - pre) (k - (left - 8)) b (omega arith)

-- The first `left` bits of a byte.
module _ (b pre left : ℕ) (part : left < 8) (fits : pre < 8) where
  pub part_inside :
      (k : ℕ) → k + pre < left → bit k (shifted_part b pre left) ≡ bit (k + (8 - left)) b
  part_inside k h =
      bit-div (8 - left) k (specific b pre) ∙ bit-mod_low (8 - pre) (k + (8 - left)) b (omega arith)

  pub part_outside : (k : ℕ) → left ≤ k + pre → bit k (shifted_part b pre left) ≡ 0
  part_outside k h =
      bit-div (8 - left) k (specific b pre)
      ∙ bit-mod_high (8 - pre) (k + (8 - left)) b (omega arith)
