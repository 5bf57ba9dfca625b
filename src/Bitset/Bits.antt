-- ===== src/Bitset/Bits.antt =====
-- How the writes of the bit set act on its bits, and its well-formedness.
use liteldacssdk.Prelude.{
  ℕ, ◌/◌, ◌%◌, ◌<◌, ◌≡◌, refl, Bool, true, false, List, arith, length, get_or, get_or-set, ◌==◌,
  if◌then◌else◌, all_below, all_below_sound, same, eq_of_same,
}
use liteldacssdk.Bitset.{bit_byte, is_set, set_byte, clear_byte, mark, unmark}

-- Over a byte `b` and two bit numbers: a written bit reads as written, and the others stay.
set_table :
    all_below 256 (λ b. all_below 8 λ k.
      all_below 8 λ j. same (bit_byte (set_byte b k) j) (if k == j then true else bit_byte b j))
    ≡ true
unfolding all_below
set_table = refl

clear_table :
    all_below 256 (λ b. all_below 8 λ k.
      all_below 8 λ j. same (bit_byte (clear_byte b k) j) (if k == j then false else bit_byte b j))
    ≡ true
unfolding all_below
clear_table = refl

module _ (p : ℕ → ℕ → ℕ → Bool) where
  pub table_sound :
      all_below 256 (λ b. all_below 8 λ k. all_below 8 λ j. p b k j) ≡ true
      → (b k j : ℕ) → b < 256
      → k < 8
      → j < 8
      → p b k j ≡ true
  table_sound t b k j hb hk hj =
      all_below_sound 8 (p b k) j
        (all_below_sound 8 (λ k. all_below 8 λ j. p b k j) k
          (all_below_sound 256 (λ b. all_below 8 λ k. all_below 8 λ j. p b k j) b t hb) hk)
        hj

bit_byte-set_byte :
    (b k j : ℕ)
    → b < 256
    → k < 8
    → j < 8
    → bit_byte (set_byte b k) j ≡ (if k == j then true else bit_byte b j)
bit_byte-set_byte b k j hb hk hj = eq_of_same _ _ (table_sound _ set_table b k j hb hk hj)

bit_byte-clear_byte :
    (b k j : ℕ)
    → b < 256
    → k < 8
    → j < 8
    → bit_byte (clear_byte b k) j ≡ (if k == j then false else bit_byte b j)
bit_byte-clear_byte b k j hb hk hj = eq_of_same _ _ (table_sound _ clear_table b k j hb hk hj)

-- Every entry is a byte.
abbrev pub IsBytes : List ℕ → Type 0
IsBytes bytes = (n : ℕ) → get_or bytes n 0 < 256

module _ (bytes : List ℕ) (i j : ℕ) (v : IsBytes bytes) (h : i / 8 < length bytes) where
  pub is_set-mark : is_set (mark bytes i) j ≡ (if i == j then true else is_set bytes j)
  unfolding is_set mark
  is_set-mark = ground (
    arith,
    get_or-set bytes (i / 8) (j / 8) (set_byte (get_or bytes (i / 8) 0) (i % 8)) 0 h,
    bit_byte-set_byte (get_or bytes (i / 8) 0) (i % 8) (j % 8) (v (i / 8)),
  )

  pub is_set-unmark : is_set (unmark bytes i) j ≡ (if i == j then false else is_set bytes j)
  unfolding is_set unmark
  is_set-unmark = ground (
    arith,
    get_or-set bytes (i / 8) (j / 8) (clear_byte (get_or bytes (i / 8) 0) (i % 8)) 0 h,
    bit_byte-clear_byte (get_or bytes (i / 8) 0) (i % 8) (j % 8) (v (i / 8)),
  )
