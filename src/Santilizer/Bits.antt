-- ===== src/Santilizer/Bits.antt =====
-- The bits of a number, for the streams of src/ld_santilizer.c.
use liteldacssdk.Prelude.{
  ℕ, zero, suc, ◌+◌, ◌*◌, ◌/◌, ◌%◌, ◌^◌, ◌≤◌, ◌<◌, max, bit_or, ◌≡◌, refl, sym, ap, ap₂, ◌∙◌, subst,
  arith,
}
use Prim.Native.Nat.{bit_or-bitwise}
use native.Mathlib.Nat.{
  div-one, div-div-eq-div-mul, pow-succ', pow-suc, mul-div_cancel, mul_assoc, mod-lt, div-add-mod,
  add-mul-mod_self_left, mod-eq_of_lt, mod-one,
}
use liteldacssdk.Crc.Xor.{enough_digits}

-- Bit `k`, 0 or 1.
unfoldable pub bit : ℕ → ℕ → ℕ
bit zero n = n % 2
bit (suc k) n = bit k (n / 2)

or_digit : (a b : ℕ) → bit_or a b ≡ bit_or (a / 2) (b / 2) * 2 + max (a % 2) (b % 2)
or_digit zero b = omega (arith, bit_or-bitwise 0 b, bit_or-bitwise 0 (b / 2))
or_digit (suc a) b = omega (
  arith,
  bit_or-bitwise (suc a) b,
  bit_or-bitwise (suc a / 2) (b / 2),
  enough_digits (λ b. b) max a (suc a / 2) (suc a / 2) (b / 2) (omega arith) (omega arith),
)

pub bit-or : (k a b : ℕ) → bit k (bit_or a b) ≡ max (bit k a) (bit k b)
unfolding bit
bit-or zero a b = omega (arith, or_digit a b)
bit-or (suc k) a b =
    let half : bit_or a b / 2 ≡ bit_or (a / 2) (b / 2) = omega (arith, or_digit a b) in
    ap (bit k) half ∙ bit-or k (a / 2) (b / 2)

pub or_bound : (w a b : ℕ) → a < 2 ^ w → b < 2 ^ w → bit_or a b < 2 ^ w
or_bound zero zero zero p q = omega (arith, bit_or-bitwise 0 0)
or_bound zero (suc a) b p q = absurd (omega arith)
or_bound zero zero (suc b) p q = absurd (omega arith)
or_bound (suc w) a b p q =
    omega (arith, or_digit a b, or_bound w (a / 2) (b / 2) (omega arith) (omega arith))

pub bit_small : (k n : ℕ) → n < 2 ^ k → bit k n ≡ 0
unfolding bit
bit_small zero n p = omega arith
bit_small (suc k) n p = bit_small k (n / 2) (omega arith)

pub bit_two : (k n : ℕ) → bit k n < 2
unfolding bit
bit_two zero n = omega arith
bit_two (suc k) n = bit_two k (n / 2)

pub bit_zero : (k : ℕ) → bit k 0 ≡ 0
unfolding bit
bit_zero zero = refl
bit_zero (suc k) = bit_zero k

pub two_pos : (s : ℕ) → 0 < 2 ^ s
two_pos zero = omega arith
two_pos (suc s) = omega (arith, two_pos s, pow-succ' 2 s)

pub bit_ext : (w a b : ℕ) → a < 2 ^ w → b < 2 ^ w → ((k : ℕ) → k < w → bit k a ≡ bit k b) → a ≡ b
unfolding bit
bit_ext zero a b p q h = omega arith
bit_ext (suc w) a b p q h =
    let low : a % 2 ≡ b % 2 = h 0 (omega arith) in
    let high : a / 2 ≡ b / 2 =
      bit_ext w (a / 2) (b / 2) (omega arith) (omega arith) (λ k l. h (suc k) (omega arith)) in
    omega arith

pub bit-div : (s k n : ℕ) → bit k (n / 2 ^ s) ≡ bit (k + s) n
unfolding bit
bit-div zero k n =
    let whole : k ≡ k + 0 = omega arith in ap (bit k) (div-one n) ∙ ap (λ j. bit j n) whole
bit-div (suc s) k n =
    let halved : n / 2 ^ suc s ≡ n / 2 / 2 ^ s =
      ap (λ m. n / m) (pow-succ' 2 s) ∙ sym (div-div-eq-div-mul n 2 (2 ^ s)) in
    let next : suc (k + s) ≡ k + suc s = omega arith in
    ap (bit k) halved ∙ bit-div s k (n / 2) ∙ ap (λ j. bit j n) next

pub bit-mul : (s k n : ℕ) → bit (k + s) (n * 2 ^ s) ≡ bit k n
bit-mul s k n = sym (bit-div s k (n * 2 ^ s)) ∙ ap (bit k) (mul-div_cancel n (two_pos s))

mul_twice : (s n : ℕ) → n * 2 ^ suc s ≡ n * 2 ^ s * 2
mul_twice s n = ap (λ m. n * m) (pow-suc 2 s) ∙ sym (mul_assoc n (2 ^ s) 2)

pub bit-mul_low : (s k n : ℕ) → k < s → bit k (n * 2 ^ s) ≡ 0
unfolding bit
bit-mul_low zero k n h = absurd (omega arith)
bit-mul_low (suc s) zero n h = omega (arith, mul_twice s n)
bit-mul_low (suc s) (suc k) n h =
    let half : n * 2 ^ suc s / 2 ≡ n * 2 ^ s = omega (arith, mul_twice s n) in
    ap (bit k) half ∙ bit-mul_low s k n (omega arith)

mod_digit : (w n : ℕ) → n % 2 ^ suc w ≡ n / 2 % 2 ^ w * 2 + n % 2
mod_digit w n =
    let p : ℕ = 2 ^ w in
    let q : ℕ = n / 2 / p in
    let r : ℕ = n / 2 % p in
    let small : r < p = mod-lt (n / 2) (two_pos w) in
    let parts : n ≡ r * 2 + n % 2 + 2 * p * q =
      omega (arith, div-add-mod (n / 2) p, mul_assoc 2 p q) in
    ap₂ (λ a b. a % b) parts (pow-succ' 2 w)
    ∙ add-mul-mod_self_left (r * 2 + n % 2) (2 * p) q
    ∙ mod-eq_of_lt (omega (arith, small))

pub bit-mod_low : (w k n : ℕ) → k < w → bit k (n % 2 ^ w) ≡ bit k n
unfolding bit
bit-mod_low zero k n h = absurd (omega arith)
bit-mod_low (suc w) zero n h = omega (arith, mod_digit w n)
bit-mod_low (suc w) (suc k) n h =
    let half : n % 2 ^ suc w / 2 ≡ n / 2 % 2 ^ w = omega (arith, mod_digit w n) in
    ap (bit k) half ∙ bit-mod_low w k (n / 2) (omega arith)

pub bit-mod_high : (w k n : ℕ) → w ≤ k → bit k (n % 2 ^ w) ≡ 0
unfolding bit
bit-mod_high zero k n h = ap (bit k) (mod-one n) ∙ bit_zero k
bit-mod_high (suc w) zero n h = absurd (omega arith)
bit-mod_high (suc w) (suc k) n h =
    let half : n % 2 ^ suc w / 2 ≡ n / 2 % 2 ^ w = omega (arith, mod_digit w n) in
    ap (bit k) half ∙ bit-mod_high w k (n / 2) (omega arith)

pub two_mono : (i j : ℕ) → i ≤ j → 2 ^ i ≤ 2 ^ j
two_mono zero j h = omega (arith, two_pos j)
two_mono (suc i) zero h = absurd (omega arith)
two_mono (suc i) (suc j) h = omega (arith, two_mono i j (omega arith), pow-succ' 2 i, pow-succ' 2 j)

pub mul_bound : (x y a : ℕ) → a < 2 ^ x → a * 2 ^ y < 2 ^ (x + y)
mul_bound x zero a h =
    let whole : x ≡ x + 0 = omega arith in subst (λ k. a * 1 < 2 ^ k) whole (omega arith)
mul_bound x (suc y) a h =
    let next : suc (x + y) ≡ x + suc y = omega arith in
    subst (λ k. a * 2 ^ suc y < 2 ^ k) next
      (omega (arith, mul_bound x y a h, mul_twice y a, pow-succ' 2 (x + y)))
