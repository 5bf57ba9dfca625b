-- ===== src/Crc/Xor.antt =====
-- The laws of `bit_xor` and `bit_and` that the checksums of src/ld_crc.c rest on, from the digits
-- that the operations stand for.
use Prim.Native.Nat.{digits, bit_and-bitwise, bit_xor-bitwise, differ}
use liteldacssdk.Prelude.{
  ℕ, zero, suc, ◌+◌, ◌*◌, ◌/◌, ◌%◌, ◌^◌, ◌≤◌, ◌<◌, min, bit_and, bit_xor, ◌≡◌, refl, sym, ap, ◌∙◌,
  arith,
}

module _ (z : ℕ → ℕ) (f : ℕ → ℕ → ℕ) where
  pub enough_digits : (n m a b : ℕ) → a ≤ n → a ≤ m → digits z f n a b ≡ digits z f m a b
  enough_digits zero zero zero b p q = refl
  enough_digits zero (suc m) zero b p q = refl
  enough_digits (suc n) zero zero b p q = refl
  enough_digits (suc n) (suc m) zero b p q = refl
  enough_digits zero m (suc a) b p q = absurd (omega arith)
  enough_digits (suc n) zero (suc a) b p q = absurd (omega arith)
  enough_digits (suc n) (suc m) (suc a) b p q =
      omega (arith, enough_digits n m (suc a / 2) (b / 2) (omega arith) (omega arith))

differ_digits : (x y : ℕ) → x < 2 → y < 2 → differ x y ≡ (x + y) % 2
differ_digits zero y p q = omega arith
differ_digits (suc zero) zero p q = refl
differ_digits (suc zero) (suc zero) p q = refl
differ_digits (suc zero) (suc (suc y)) p q = absurd (omega arith)
differ_digits (suc (suc x)) y p q = absurd (omega arith)

differ_lem : (a b : ℕ) → differ (a % 2) (b % 2) ≡ (a + b) % 2
differ_lem a b = omega (arith, differ_digits (a % 2) (b % 2) (omega arith) (omega arith))

abbrev xor_digits : ℕ → ℕ → ℕ → ℕ
xor_digits n a b = digits (λ b. b) differ n a b

xor_enough : (n m a b : ℕ) → a ≤ n → a ≤ m → xor_digits n a b ≡ xor_digits m a b
xor_enough n m a b p q = enough_digits (λ b. b) differ n m a b p q

and_enough : (n m a b : ℕ) → a ≤ n → a ≤ m → digits (λ b. 0) min n a b ≡ digits (λ b. 0) min m a b
and_enough n m a b p q = enough_digits (λ b. 0) min n m a b p q

xor_digit : (a b : ℕ) → bit_xor a b ≡ bit_xor (a / 2) (b / 2) * 2 + (a + b) % 2
xor_digit zero b = omega (arith, bit_xor-bitwise 0 b, bit_xor-bitwise 0 (b / 2))
xor_digit (suc a) b = omega (
  arith,
  bit_xor-bitwise (suc a) b,
  bit_xor-bitwise (suc a / 2) (b / 2),
  differ_lem (suc a) b,
  xor_enough a (suc a / 2) (suc a / 2) (b / 2) (omega arith) (omega arith),
)

pub xor-half : (a b : ℕ) → bit_xor a b / 2 ≡ bit_xor (a / 2) (b / 2)
xor-half a b = omega (arith, xor_digit a b)

pub xor_parity : (a b : ℕ) → bit_xor a b % 2 ≡ (a + b) % 2
xor_parity a b = omega (arith, xor_digit a b)

-- Induction on the digits of three numbers.
xor_assoc_fuel :
    (n a b c : ℕ) → a ≤ n → b ≤ n → c ≤ n → bit_xor (bit_xor a b) c ≡ bit_xor a (bit_xor b c)
xor_assoc_fuel zero zero zero zero p q r = refl
xor_assoc_fuel zero (suc a) b c p q r = absurd (omega arith)
xor_assoc_fuel zero zero (suc b) c p q r = absurd (omega arith)
xor_assoc_fuel zero zero zero (suc c) p q r = absurd (omega arith)
xor_assoc_fuel (suc n) a b c p q r = omega (
  arith,
  xor_digit (bit_xor a b) c,
  xor_digit a (bit_xor b c),
  xor_parity a b,
  xor_parity b c,
  ap (λ x. bit_xor x (c / 2)) (xor-half a b),
  ap (bit_xor (a / 2)) (xor-half b c),
  xor_assoc_fuel n (a / 2) (b / 2) (c / 2) (omega arith) (omega arith) (omega arith),
)

pub xor_assoc : (a b c : ℕ) → bit_xor (bit_xor a b) c ≡ bit_xor a (bit_xor b c)
xor_assoc a b c = xor_assoc_fuel (a + b + c) a b c (omega arith) (omega arith) (omega arith)

xor_comm_fuel : (n a b : ℕ) → a ≤ n → b ≤ n → bit_xor a b ≡ bit_xor b a
xor_comm_fuel zero zero zero p q = refl
xor_comm_fuel zero (suc a) b p q = absurd (omega arith)
xor_comm_fuel zero zero (suc b) p q = absurd (omega arith)
xor_comm_fuel (suc n) a b p q = omega (
  arith,
  xor_digit a b,
  xor_digit b a,
  xor_comm_fuel n (a / 2) (b / 2) (omega arith) (omega arith),
)

pub xor_comm : (a b : ℕ) → bit_xor a b ≡ bit_xor b a
xor_comm a b = xor_comm_fuel (a + b) a b (omega arith) (omega arith)

pub zero_xor : (b : ℕ) → bit_xor 0 b ≡ b
zero_xor b = bit_xor-bitwise 0 b

pub xor_zero : (a : ℕ) → bit_xor a 0 ≡ a
xor_zero a = xor_comm a 0 ∙ zero_xor a

xor_self_fuel : (n a : ℕ) → a ≤ n → bit_xor a a ≡ 0
xor_self_fuel zero zero p = refl
xor_self_fuel zero (suc a) p = absurd (omega arith)
xor_self_fuel (suc n) a p = omega (arith, xor_digit a a, xor_self_fuel n (a / 2) (omega arith))

pub xor_self : (a : ℕ) → bit_xor a a ≡ 0
xor_self a = xor_self_fuel a a (omega arith)

pub xor_cancel : (a b : ℕ) → bit_xor (bit_xor a b) b ≡ a
xor_cancel a b = xor_assoc a b b ∙ ap (bit_xor a) (xor_self b) ∙ xor_zero a

-- The two operands bound the result by a power of two.
pub xor_bound : (k a b : ℕ) → a < 2 ^ k → b < 2 ^ k → bit_xor a b < 2 ^ k
xor_bound zero zero zero p q = omega arith
xor_bound zero (suc a) b p q = absurd (omega arith)
xor_bound zero zero (suc b) p q = absurd (omega arith)
xor_bound (suc k) a b p q =
    omega (arith, xor_digit a b, xor_bound k (a / 2) (b / 2) (omega arith) (omega arith))

and_digit : (a b : ℕ) → bit_and a b ≡ bit_and (a / 2) (b / 2) * 2 + min (a % 2) (b % 2)
and_digit zero b = omega (arith, bit_and-bitwise 0 b, bit_and-bitwise 0 (b / 2))
and_digit (suc a) b = omega (
  arith,
  bit_and-bitwise (suc a) b,
  bit_and-bitwise (suc a / 2) (b / 2),
  and_enough a (suc a / 2) (suc a / 2) (b / 2) (omega arith) (omega arith),
)

and_zero_fuel : (n a : ℕ) → a ≤ n → bit_and a 0 ≡ 0
and_zero_fuel zero zero p = refl
and_zero_fuel zero (suc a) p = absurd (omega arith)
and_zero_fuel (suc n) a p = omega (arith, and_digit a 0, and_zero_fuel n (a / 2) (omega arith))

and_nibble : (a : ℕ) → bit_and a 15 ≡ a % 16
and_nibble a = omega (
  arith,
  and_digit a 15,
  and_digit (a / 2) 7,
  and_digit (a / 2 / 2) 3,
  and_digit (a / 2 / 2 / 2) 1,
  and_zero_fuel (a / 2 / 2 / 2 / 2) (a / 2 / 2 / 2 / 2) (omega arith),
)

pub and_byte : (a : ℕ) → bit_and a 0xFF ≡ a % 256
and_byte a = omega (
  arith,
  and_digit a 255,
  and_digit (a / 2) 127,
  and_digit (a / 2 / 2) 63,
  and_digit (a / 2 / 2 / 2) 31,
  and_nibble (a / 2 / 2 / 2 / 2),
)

-- `h` followed by `k` zero digits.
unfoldable pub shifted : ℕ → ℕ → ℕ
shifted zero h = h
shifted (suc k) h = shifted k h * 2

xor-shifted : (k h l : ℕ) → l < 2 ^ k → bit_xor (shifted k h) l ≡ shifted k h + l
unfolding shifted
xor-shifted zero h zero p = omega (arith, xor_zero h)
xor-shifted zero h (suc l) p = absurd (omega arith)
xor-shifted (suc k) h l p =
    let half : shifted k h * 2 / 2 ≡ shifted k h = omega arith in
    omega (
      arith,
      xor_digit (shifted k h * 2) l,
      ap (λ x. bit_xor x (l / 2)) half,
      xor-shifted k h (l / 2) (omega arith),
    )

pub shifted_byte : (h : ℕ) → shifted 8 h ≡ h * 256
unfolding shifted
shifted_byte h = omega arith

-- A number is the exclusive or of its lowest byte and the rest.
pub xor_split : (a : ℕ) → bit_xor (shifted 8 (a / 256)) (a % 256) ≡ a
xor_split a = omega (arith, shifted_byte (a / 256), xor-shifted 8 (a / 256) (a % 256) (omega arith))

halves : ℕ → ℕ → ℕ
halves zero a = a
halves (suc k) a = halves k (a / 2)

halves-xor : (k a b : ℕ) → halves k (bit_xor a b) ≡ bit_xor (halves k a) (halves k b)
unfolding halves
halves-xor zero a b = refl
halves-xor (suc k) a b = ap (halves k) (xor-half a b) ∙ halves-xor k (a / 2) (b / 2)

halves_byte : (a : ℕ) → halves 8 a ≡ a / 256
unfolding halves
halves_byte a = omega arith

-- A byte leaves the rest of a number as it is.
pub xor-high : (a b : ℕ) → b < 256 → bit_xor a b / 256 ≡ a / 256
xor-high a b p =
    let none_left : halves 8 b ≡ 0 = omega (arith, halves_byte b) in
    omega (
      arith,
      halves-xor 8 a b,
      halves_byte a,
      halves_byte (bit_xor a b),
      ap (bit_xor (halves 8 a)) none_left,
      xor_zero (halves 8 a),
    )

-- Four operands, regrouped.
pub xor_interchange :
    (a b c d : ℕ) → bit_xor (bit_xor a b) (bit_xor c d) ≡ bit_xor (bit_xor a c) (bit_xor b d)
xor_interchange a b c d =
    xor_assoc a b (bit_xor c d)
    ∙ ap (bit_xor a)
        (sym (xor_assoc b c d) ∙ ap (λ x. bit_xor x d) (xor_comm b c) ∙ xor_assoc c b d)
    ∙ sym (xor_assoc a c (bit_xor b d))
