-- ===== src/Santilizer/Fields/Accepted.antt =====
-- A number that out_struct of src/ld_santilizer.c writes, as in_struct reads it: it is accepted, and
-- fits its member.
use liteldacssdk.Prelude.{
  ℕ, ◌+◌, ◌*◌, ◌/◌, ◌^◌, ◌≤◌, ◌<◌, ◌≡◌, refl, Bool, true, false, ◌||◌, Option, none, some, List,
  arith, length, leb, ◌==◌, all_below, all_below_sound,
}
use native.Mathlib.Nat.{mod-eq_of_lt}
use liteldacssdk.Santilizer.Bits.{two_mono}
use liteldacssdk.Santilizer.Fields.{
  FieldType, ft_mbz, ft_set, ft_enum, ft_plen, ft_slen, ft_fix, ft_sqn, ft_time, written_as,
  accepts_out_as, accepts_in_as, FieldDesc, bytes_len, member_bits, member, accepts_in, in_number,
}
use liteldacssdk.Santilizer.Fields.Carry.{CarriesAt, detach_bits-CarriesAt}

abbrev wide_enough : Option ℕ → ℕ → Bool
wide_enough none size = false
wide_enough (some w) size = leb size w

right_holds : (a b : Bool) → a || b ≡ true → a ≡ false → b ≡ true
right_holds true b e f = absurd (cc)
right_holds false b e f = e

all_wide : all_below 32 (λ k. k == 0 || wide_enough (member_bits (bytes_len k)) k) ≡ true
unfolding all_below
all_wide = refl

-- The member that a field of 1 to 31 bits has is wide enough for it.
member_wide :
    (size : ℕ) → 0 < size → size ≤ 31 → wide_enough (member_bits (bytes_len size)) size ≡ true
member_wide size pos narrow =
    right_holds (size == 0) (wide_enough (member_bits (bytes_len size)) size)
      (all_below_sound 32 (λ k. k == 0 || wide_enough (member_bits (bytes_len k)) k) size all_wide
        (omega arith))
      (positive size pos)
  where
    positive : (size : ℕ) → 0 < size → (size == 0) ≡ false
    positive size pos = ground arith

member_small :
    (o : Option ℕ) (size n : ℕ) → wide_enough o size ≡ true → n < 2 ^ size → member o n ≡ n
member_small none size n e h = absurd (cc)
member_small (some w) size n e h =
    let wide : size ≤ w = ground arith in mod-eq_of_lt (omega (arith, two_mono size w wide))

pub member_fits :
    (size n : ℕ) → 0 < size → size ≤ 31 → n < 2 ^ size → member (member_bits (bytes_len size)) n ≡ n
member_fits size n pos narrow small =
    member_small (member_bits (bytes_len size)) size n (member_wide size pos narrow) small

module _ {A : Type 0} where
  -- What was written for a field is accepted when it is read.
  pub accepted_as :
      (t : FieldType) (fp : FieldDesc A) (now v : ℕ)
      → accepts_out_as t fp (written_as t fp now v) ≡ true
      → accepts_in_as t fp (written_as t fp now v) ≡ true
  accepted_as ft_mbz fp now v e = refl
  accepted_as ft_set fp now v e = refl
  accepted_as ft_enum fp now v e = e
  accepted_as ft_plen fp now v e = refl
  accepted_as ft_slen fp now v e = refl
  accepted_as ft_fix fp now v e = ground arith
  accepted_as ft_sqn fp now v e = refl
  accepted_as ft_time fp now v e = refl

  pub in_number-some :
      (fp : FieldDesc A) (n p : ℕ) (stream : List ℕ)
      → 0 < fp.size
      → fp.size ≤ 31
      → n < 2 ^ fp.size
      → p + fp.size ≤ 8 * length stream
      → CarriesAt stream p fp.size n
      → accepts_in fp n ≡ true
      → in_number fp stream (p / 8) p ≡ some (true, n, (p + fp.size) / 8)
  unfolding in_number
  in_number-some fp n p stream pos narrow small room c fine =
      rw (detach_bits-CarriesAt fp.size n p stream narrow small room c, fine) refl
