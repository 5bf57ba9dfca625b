-- ===== src/Bitset/Shift.antt =====
-- src/ld_bitset.c, bit_rightshift: a byte array shifted as one little-endian number.
use mathlib.Core.List.{reverse, reverse-append, reverse-reverse}
use native.Mathlib.Nat.{div-div-eq-div-mul, mul_comm, pow-suc}
use liteldacssdk.Prelude.{
  AreBytes, ℕ, zero, suc, ◌+◌, ◌*◌, ◌/◌, ◌%◌, ◌^◌, ◌<◌, bit_and, ◌≡◌, refl, sym, ap, ◌∙◌, inl, inr,
  Bool, true, ◌&&◌, ltb, Option, none, some, List, [], ◌∷◌, ◌++◌, arith, length, length-append,
  ◌==◌, if◌then◌else◌, ==_iff, Bool-cases, all_below, all_below_sound,
}
use liteldacssdk.Err.{Err, ok, internal}

-- `dst[i] = src[src_len - 1 - i]` for every `i`.
pub switch_endian : List ℕ → List ℕ
switch_endian src = reverse src

-- One round: each byte is halved and takes the last bit of the byte before it, `to_add`.
pub shift_round : ℕ → List ℕ → List ℕ
shift_round to_add [] = []
shift_round to_add (b ∷ bytes) =
    let last_bit = bit_and (b * 2 ^ 7) 0x80 in
    ((b / 2 + to_add) % 2 ^ 8) ∷ shift_round last_bit bytes

pub shift_rounds : ℕ → List ℕ → List ℕ
shift_rounds zero bytes = bytes
shift_rounds (suc n) bytes = shift_rounds n (shift_round 0 bytes)

-- The written `dst`, over `src_len` bytes; its `none` is where a pointer is NULL or the length 0, in
-- which case nothing is written. `none` as the whole result is a fault: `calloc` gives NULL, which is
-- written through, or an `int` counter runs up to a size beyond the largest `int` and overflows.
unfoldable pub bit_rightshift : (ℕ → Bool) → List ℕ → ℕ → Option (Err × Option (List ℕ))
unfolding switch_endian shift_rounds shift_round
bit_rightshift calloc_gives src to_shift =
    if length src == 0
    then some (internal, none)
    else if to_shift == 0
    then some (ok, some src)
    else if calloc_gives (length src) && ltb (length src) (2 ^ 31) && ltb to_shift (2 ^ 31)
    then some (ok, some (switch_endian (shift_rounds to_shift (switch_endian src))))
    else none

-- The number that bytes stand for, lowest byte first and highest byte first.
pub le_value : List ℕ → ℕ
le_value [] = 0
le_value (b ∷ bytes) = b + 256 * le_value bytes

be_value : List ℕ → ℕ
be_value [] = 0
be_value (b ∷ bytes) = b * 256 ^ length bytes + be_value bytes

last_bit_table : all_below 256 (λ b. bit_and (b * 2 ^ 7) 0x80 == 128 * (b % 2)) ≡ true
unfolding all_below
last_bit_table = refl

last_bit_lem : (b : ℕ) → b < 256 → bit_and (b * 2 ^ 7) 0x80 ≡ 128 * (b % 2)
last_bit_lem b h =
    (==_iff _ _).0
      (all_below_sound 256 (λ b. bit_and (b * 2 ^ 7) 0x80 == 128 * (b % 2)) b last_bit_table h)

length-shift_round : (c : ℕ) (bytes : List ℕ) → length (shift_round c bytes) ≡ length bytes
unfolding shift_round
length-shift_round c [] = refl
length-shift_round c (b ∷ bytes) = ap suc (length-shift_round (bit_and (b * 2 ^ 7) 0x80) bytes)

shift_round-AreBytes : (c : ℕ) (bytes : List ℕ) → AreBytes (shift_round c bytes)
unfolding shift_round
shift_round-AreBytes c [] = tt
shift_round-AreBytes c (b ∷ bytes) =
    (omega arith, shift_round-AreBytes (bit_and (b * 2 ^ 7) 0x80) bytes)

-- The bit that falls out below, when `t` comes in above.
carry_out : ℕ → List ℕ → ℕ
carry_out t [] = t
carry_out t (b ∷ bytes) = carry_out (b % 2) bytes

carry_out-lt : (t : ℕ) (bytes : List ℕ) → t < 2 → carry_out t bytes < 2
unfolding carry_out
carry_out-lt t [] h = h
carry_out-lt t (b ∷ bytes) h = carry_out-lt (b % 2) bytes (omega arith)

be_value-shift_round :
    (t : ℕ) (bytes : List ℕ)
    → t < 2
    → AreBytes bytes
    → 2 * be_value (shift_round (128 * t) bytes) + carry_out t bytes
      ≡ t * 256 ^ length bytes + be_value bytes
unfolding shift_round be_value carry_out
be_value-shift_round t [] ht v = omega arith
be_value-shift_round t (b ∷ bytes) ht v =
    rw (last_bit_lem b v.0, length-shift_round (128 * (b % 2)) bytes)
      (omega (
        arith,
        be_value-shift_round (b % 2) bytes (omega arith) v.1,
        ap (λ (z : ℕ). z * 256 ^ length bytes) halves,
        ap (λ (z : ℕ). t * z) (pow-suc 256 (length bytes)),
      ))
  where
    halves : 2 * ((b / 2 + 128 * t) % 2 ^ 8) + b % 2 ≡ 256 * t + b
    halves = omega (arith, v.0)

be_value-halves :
    (bytes : List ℕ) → AreBytes bytes → be_value (shift_round 0 bytes) ≡ be_value bytes / 2
be_value-halves bytes v =
    omega (arith, be_value-shift_round 0 bytes (omega arith) v, carry_out-lt 0 bytes (omega arith))

be_value-shift_rounds :
    (n : ℕ) (bytes : List ℕ)
    → AreBytes bytes
    → be_value (shift_rounds n bytes) ≡ be_value bytes / 2 ^ n
unfolding shift_rounds
be_value-shift_rounds zero bytes v = omega arith
be_value-shift_rounds (suc n) bytes v =
    be_value-shift_rounds n (shift_round 0 bytes) (shift_round-AreBytes 0 bytes)
    ∙ rw (be_value-halves bytes v, div-div-eq-div-mul, pow-suc)
        (ap (λ (z : ℕ). be_value bytes / z) (mul_comm 2 (2 ^ n)))

length-shift_rounds : (n : ℕ) (bytes : List ℕ) → length (shift_rounds n bytes) ≡ length bytes
unfolding shift_rounds
length-shift_rounds zero bytes = refl
length-shift_rounds (suc n) bytes =
    length-shift_rounds n (shift_round 0 bytes) ∙ length-shift_round 0 bytes

-- Reversing changes the byte order.
le_value-append :
    (xs : List ℕ) (b : ℕ) → le_value (xs ++ b ∷ []) ≡ le_value xs + b * 256 ^ length xs
unfolding le_value
le_value-append [] b = omega arith
le_value-append (x ∷ xs) b =
    omega (arith, le_value-append xs b, ap (λ (z : ℕ). b * z) (pow-suc 256 (length xs)))

be_value-append : (xs : List ℕ) (b : ℕ) → be_value (xs ++ b ∷ []) ≡ 256 * be_value xs + b
unfolding be_value
be_value-append [] b = omega arith
be_value-append (x ∷ xs) b = rw (length-append xs (b ∷ [])) (
    omega (
      arith,
      be_value-append xs b,
      ap (λ (z : ℕ). x * z) (pow-suc 256 (length xs)),
      ap (λ (z : ℕ). x * 256 ^ z) one_more,
    ))
  where
    one_more : length xs + 1 ≡ suc (length xs)
    one_more = omega arith

length-reverse : (xs : List ℕ) → length (reverse xs) ≡ length xs
length-reverse [] = refl
length-reverse (x ∷ xs) =
    rw (reverse-append (x ∷ []) xs)
      (omega (arith, length-append (reverse xs) (x ∷ []), length-reverse xs))

be_value-reverse : (xs : List ℕ) → be_value (reverse xs) ≡ le_value xs
unfolding le_value be_value
be_value-reverse [] = refl
be_value-reverse (x ∷ xs) =
    rw (reverse-append (x ∷ []) xs)
      (omega (arith, be_value-append (reverse xs) x, be_value-reverse xs))

le_value-reverse : (xs : List ℕ) → le_value (reverse xs) ≡ be_value xs
le_value-reverse xs = sym (be_value-reverse (reverse xs)) ∙ ap be_value (reverse-reverse xs)

AreBytes-append : (xs : List ℕ) (b : ℕ) → AreBytes xs → b < 256 → AreBytes (xs ++ b ∷ [])
AreBytes-append [] b v h = (h, tt)
AreBytes-append (x ∷ xs) b v h = (v.0, AreBytes-append xs b v.1 h)

AreBytes-reverse : (xs : List ℕ) → AreBytes xs → AreBytes (reverse xs)
AreBytes-reverse [] v = tt
AreBytes-reverse (x ∷ xs) v =
    rw (reverse-append (x ∷ []) xs) (AreBytes-append (reverse xs) x (AreBytes-reverse xs v.1) v.0)

module _ (src : List ℕ) (to_shift : ℕ) (v : AreBytes src) where
  abbrev shifted : List ℕ
  shifted = switch_endian (shift_rounds to_shift (switch_endian src))

  le_value-shifted : le_value shifted ≡ le_value src / 2 ^ to_shift
  unfolding switch_endian
  le_value-shifted =
      le_value-reverse (shift_rounds to_shift (reverse src))
      ∙ be_value-shift_rounds to_shift (reverse src) (AreBytes-reverse src v)
      ∙ ap (λ (z : ℕ). z / 2 ^ to_shift) (be_value-reverse src)

  length-shifted : length shifted ≡ length src
  unfolding switch_endian
  length-shifted =
      length-reverse (shift_rounds to_shift (reverse src))
      ∙ length-shift_rounds to_shift (reverse src)
      ∙ length-reverse src

  -- bit_rightshift of a non-empty array of fewer than 2^31 bytes, by fewer than 2^31 bits, when calloc
  -- gives a block for the bytes, returns LD_OK and an array of the same length that holds the
  -- little-endian number of the input divided by two to the shift.
  pub bit_rightshift-div :
      (calloc_gives : ℕ → Bool)
      → calloc_gives (length src) ≡ true
      → 0 < length src
      → length src < 2 ^ 31
      → to_shift < 2 ^ 31
      → (dst : List ℕ) × (bit_rightshift calloc_gives src to_shift ≡ some (ok, some dst))
        × (length dst ≡ length src)
        × (le_value dst ≡ le_value src / 2 ^ to_shift)
  unfolding bit_rightshift
  bit_rightshift-div calloc_gives given h short few = elim (Bool-cases (to_shift == 0)) [
    | inl e ↦
        let z : to_shift ≡ 0 = (==_iff to_shift 0).0 e in
        (src, rw e (ground arith), refl, rw z (omega arith))
    | inr e ↦ (shifted, rw (e, given) (ground arith), length-shifted, le_value-shifted)
  ]
