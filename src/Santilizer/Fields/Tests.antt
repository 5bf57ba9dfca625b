-- ===== src/Santilizer/Fields/Tests.antt =====
-- The numbers of src/ld_santilizer.c at the edges of their fields.
use liteldacssdk.Prelude.{◌≡◌, refl, none, some, [], ◌∷◌}
use liteldacssdk.Santilizer.{append_bits, detach_bits, append_round, detach_round}

-- A number with more bits than its field spoils the field before.
spoiled : append_bits 6 5 0 (64 ∷ []) ≡ some (0, 84 ∷ [])
unfolding append_round
spoiled = refl

spoiled_wide : append_bits 6 13 0 (64 ∷ []) ≡ some (0, 116 ∷ [])
unfolding append_round
spoiled_wide = refl

-- Thirty-two bits, the highest of them set, overflow an `int`.
too_wide : detach_bits 32 0 0 (128 ∷ 0 ∷ 0 ∷ 0 ∷ []) 0 ≡ none
unfolding detach_round
too_wide = refl
