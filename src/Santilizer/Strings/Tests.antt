-- ===== src/Santilizer/Strings/Tests.antt =====
-- Strings of src/ld_santilizer.c on concrete bytes, and the theorems applied to them.
use liteldacssdk.Prelude.{
  ℕ, ◌-◌, ◌/◌, ◌%◌, ◌≤◌, ◌<◌, ◌≡◌, refl, ap, ◌∙◌, some, List, [], ◌∷◌, arith, replicate,
  get_or-replicate,
}
use liteldacssdk.Santilizer.Bits.{bit, bit_zero}
use liteldacssdk.Santilizer.Append.{bit_at}
use liteldacssdk.Santilizer.Strings.{append_str, detach_str, byte2int}
use liteldacssdk.Santilizer.Strings.RoundTrip.{detach_str-append_str}

blank_bits : (q : ℕ) → 3 ≤ q → bit_at (replicate 3 0) q ≡ 0
blank_bits q h = ap (bit (7 - q % 8)) (get_or-replicate 3 (q / 8) 0) ∙ bit_zero (7 - q % 8)

detach_str-append_str_example :
    (after : List ℕ) × (append_str 0 3 (200 ∷ 17 ∷ []) 2 (replicate 3 0) ≡ some (2, 19, after))
    × (detach_str 0 3 2 after ≡ some (2, 200 ∷ 17 ∷ []))
    × ((q : ℕ) → q < 3 → bit_at after q ≡ bit_at (replicate 3 0) q)
detach_str-append_str_example =
    detach_str-append_str (200 ∷ 17 ∷ []) 3 (replicate 3 0) (omega arith, (omega arith, record {}))
      (omega arith) blank_bits

-- A value left in place is added to.
added : byte2int 5 (1 ∷ []) 1 ≡ some 6
unfolding byte2int
added = refl
