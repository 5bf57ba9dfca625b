-- ===== src/Santilizer/Strings.antt =====
-- Strings and whole numbers of src/ld_santilizer.c: append_str, detach_str, int2byte, byte2int and
-- is_equal, and memrchr of src/ld_utils.c. `none` is a read outside of the bytes, or a shift of an
-- `int` that overflows.
pub mod Place
pub mod RoundTrip
mod Tests
use liteldacssdk.Prelude.{
  ℕ, zero, suc, ◌+◌, ◌*◌, ◌/◌, ◌%◌, ◌^◌, ap, Bool, true, false, Option, none, some, List, [], ◌∷◌,
  ltb, ◌==◌, if◌then◌else◌, ◌>>=◌,
}
use liteldacssdk.Santilizer.{append_bits, detach_bits, shift_int}
use liteldacssdk.Santilizer.Fields.{bits_left}

-- Where the stream goes on, and the bytes.
pub append_str : ℕ → ℕ → List ℕ → ℕ → List ℕ → Option (ℕ × ℕ × List ℕ)
append_str cur bit_size src zero stream = some (cur, bit_size, stream)
append_str cur bit_size [] (suc size) stream = none
append_str cur bit_size (n ∷ src) (suc size) stream =
    append_bits (bits_left 8 bit_size) n cur stream >>= λ (cur', stream').
    append_str cur' (bit_size + 8) src size stream'

-- The bytes read; `*dst++ = n` keeps eight bits.
pub detach_str : ℕ → ℕ → ℕ → List ℕ → Option (ℕ × List ℕ)
detach_str cur bit_size zero stream = some (cur, [])
detach_str cur bit_size (suc size) stream =
    detach_bits (bits_left 8 bit_size) 0 cur stream (bit_size % 8) >>= λ (n, cur').
    detach_str cur' (bit_size + 8) size stream >>= λ (end, dst). some (end, n % 2 ^ 8 ∷ dst)

-- The last `size` bytes, the highest first; a shift by 32 or more is a fault.
pub int2byte : ℕ → ℕ → Option (List ℕ)
int2byte val zero = some []
int2byte val (suc size) =
    let rest = int2byte val size in
    if ltb (8 * size) 32
    then (rest >>= λ bytes. some (val / 2 ^ (8 * size) % 2 ^ 8 ∷ bytes))
    else none

-- What is added to `*val`.
pub byte2int : ℕ → List ℕ → ℕ → Option ℕ
byte2int val bytes zero = some val
byte2int val [] (suc size) = none
byte2int val (b ∷ bytes) (suc size) =
    shift_int b (8 * size) >>= λ n. byte2int ((val + n) % 2 ^ 32) bytes size

pub is_equal : List ℕ → List ℕ → ℕ → Option Bool
is_equal src contrast zero = some true
is_equal (a ∷ src) (b ∷ contrast) (suc size) =
    let rest = is_equal src contrast size in if a == b then rest else some false
is_equal _ _ (suc size) = none

-- The first byte that is not the target, from `i` on, as an index, `none` for -1.
pub memrchr_from : List ℕ → ℕ → ℕ → Option ℕ
memrchr_from [] target i = none
memrchr_from (b ∷ bytes) target i =
    let rest = memrchr_from bytes target (i + 1) in if b == target then rest else some i
