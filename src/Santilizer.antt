-- ===== src/Santilizer.antt =====
-- src/ld_santilizer.c: fields of any number of bits in a stream of bytes, the highest bit first.
-- A stream is the bytes behind `start`, and `cur` an index of them; `none` is an access outside of
-- them, or a shift of an `int` that overflows. A shift `to_shift` is kept as `left`, which is
-- `to_shift + 8` while that is positive and 0 when the loop ends.
pub mod Bits
pub mod Append
pub mod Detach
pub mod DetachLoop
pub mod DetachEnds
pub mod Fields
pub mod Packet
pub mod Strings
use liteldacssdk.Prelude.{
  ℕ, zero, suc, ◌+◌, ◌-◌, ◌*◌, ◌/◌, ◌%◌, ◌^◌, bit_or, ap, true, ◌&&◌, Option, none, some, List,
  get_elem?, set, ltb, leb, ◌==◌, if◌then◌else◌, ◌>>=◌,
}

-- `**cur |= bits`
abbrev pub or_into : ℕ → ℕ → List ℕ → Option (List ℕ)
or_into cur bits stream = get_elem? stream cur >>= λ b. some (set stream cur (bit_or b bits))

-- The loop of append_bits, with `rounds` of it at most.
pub append_round : ℕ → ℕ → ℕ → ℕ → List ℕ → Option (ℕ × List ℕ)
append_round zero left n cur stream = some (cur, stream)
append_round (suc rounds) left n cur stream =
    if left == 0
    then some (cur, stream)
    else if leb 8 left
    then (or_into cur (n / 2 ^ (left - 8) % 2 ^ 8) stream >>= λ stream'.
        append_round rounds (left - 8) n (cur + 1) stream')
    else (or_into cur (n * 2 ^ (8 - left) % 2 ^ 8) stream >>= λ stream'.
        append_round rounds 0 n cur stream')

abbrev pub append_bits : ℕ → ℕ → ℕ → List ℕ → Option (ℕ × List ℕ)
append_bits left n cur stream = append_round (left / 8 + 1) left n cur stream

-- The part of a byte that a field may have, without the bits of the fields before.
abbrev pub specific : ℕ → ℕ → ℕ
specific byte pre_unavil = byte % 2 ^ (8 - pre_unavil)

-- A shift to the left of a byte that was promoted to `int`.
abbrev pub shift_int : ℕ → ℕ → Option ℕ
shift_int byte k = if ltb k 32 && ltb (byte * 2 ^ k) (2 ^ 31) then some (byte * 2 ^ k) else none

-- The loop of detach_bits.
unfoldable pub detach_round : ℕ → ℕ → ℕ → ℕ → List ℕ → ℕ → Option (ℕ × ℕ)
detach_round zero left n cur stream pre_unavil = some (n, cur)
detach_round (suc rounds) left n cur stream pre_unavil =
    if left == 0
    then some (n, cur)
    else if leb 8 left
    then (get_elem? stream cur >>= λ b. shift_int (specific b pre_unavil) (left - 8) >>= λ bits.
        detach_round rounds (left - 8) (bit_or n bits) (cur + 1) stream 0)
    else (get_elem? stream cur >>= λ b.
        detach_round rounds 0 (bit_or n (specific b pre_unavil / 2 ^ (8 - left))) cur stream 0)

abbrev pub detach_bits : ℕ → ℕ → ℕ → List ℕ → ℕ → Option (ℕ × ℕ)
detach_bits left n cur stream pre_unavil = detach_round (left / 8 + 1) left n cur stream pre_unavil
