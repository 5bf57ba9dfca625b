-- ===== src/Bitset/Count.antt =====
-- src/ld_bitset.c: what the counting loops return, and the test for an empty set.
use liteldacssdk.Prelude.{
  ℕ, zero, suc, ◌+◌, ◌/◌, ◌%◌, ◌^◌, ◌≤◌, ◌<◌, bit_and, ◌≡◌, refl, ◌≢◌, ◌⊎◌, inl, inr, true, false,
  ◌&&◌, ◌||◌, not, Option, none, some, List, arith, get_or, ltb, leb, ◌==◌, if◌then◌else◌,
  Bool-cases, all_below, all_below_sound,
}
use liteldacssdk.Bitset.{
  Bitset, is_set, mark, bit_byte, all_empty_from, bs_all_empty, alloced_from, bs_get_alloced,
  highest_from, bs_get_highest, lowest_from, bs_get_lowest, bs_get_lowest_unalloced,
}
use liteldacssdk.Bitset.Bits.{is_set-mark}
use liteldacssdk.Bitset.Alloc.{IsValid, byte_in_range, IsFirstClear, first_clear-IsFirstClear}

abbrev between : ℕ → ℕ → ℕ → ℕ
between lo hi k = if leb lo k && ltb k hi then 1 else 0

-- Setting one clear bit adds one to the count of a range that holds it.
module _ (xs ys : List ℕ) (k : ℕ) (clear : is_set xs k ≡ false)
    (at : (j : ℕ) → is_set ys j ≡ (if k == j then true else is_set xs j)) where
  alloced_from-mark :
      (left i hi ret ret' d : ℕ)
      → i + left ≡ hi
      → ret' ≡ ret + d
      → alloced_from ys left i ret' ≡ alloced_from xs left i ret + d + between i hi k
  unfolding alloced_from
  alloced_from-mark zero i hi ret ret' d e r = ground arith
  alloced_from-mark (suc left) i hi ret ret' d e r = ground (
    arith,
    at i,
    alloced_from-mark left (i + 1) hi (if is_set xs i then ret + 1 else ret)
        (if is_set ys i then ret' + 1 else ret') (if i == k then d + 1 else d),
  )

-- In a valid set, marking a free resource of it raises bs_get_alloced by exactly one.
pub bs_get_alloced-mark :
    (s : Bitset) (k : ℕ)
    → IsValid s
    → k < s.res_num
    → is_set s.bitset k ≡ false
    → bs_get_alloced (record s { bitset = mark s.bitset k }) ≡ bs_get_alloced s + 1
unfolding bs_get_alloced
bs_get_alloced-mark s k v h clear = ground (
  arith,
  alloced_from-mark s.bitset (mark s.bitset k) k clear
      (λ j. is_set-mark s.bitset k j v.bytes (byte_in_range v k h)) s.res_num 0 s.res_num 0 0 0
      (omega arith) (omega arith),
)

-- The number of set bits in `[i, i + left)` is at most `left`.
alloced_from-le : (bytes : List ℕ) (left i ret : ℕ) → alloced_from bytes left i ret ≤ ret + left
unfolding alloced_from
alloced_from-le bytes zero i ret = omega arith
alloced_from-le bytes (suc left) i ret =
    ground (arith, alloced_from-le bytes left (i + 1) (if is_set bytes i then ret + 1 else ret))

-- bs_get_alloced never exceeds the number of resources.
pub bs_get_alloced-le : (s : Bitset) → bs_get_alloced s ≤ s.res_num
unfolding bs_get_alloced
bs_get_alloced-le s = omega (arith, alloced_from-le s.bitset s.res_num 0 0)

-- The result of the search for a set bit from below over `[lo, hi)`.
abbrev pub IsFirstSet : List ℕ → ℕ → ℕ → Option ℕ → Type 0
IsFirstSet bytes lo hi none = (j : ℕ) → lo ≤ j → j < hi → is_set bytes j ≡ false
IsFirstSet bytes lo hi (some k) =
    (lo ≤ k)
    × (k < hi)
    × (is_set bytes k ≡ true)
    × ((j : ℕ) → lo ≤ j → j < k → is_set bytes j ≡ false)

lowest_from-IsFirstSet :
    (bytes : List ℕ) (left i hi : ℕ)
    → i + left ≡ hi
    → IsFirstSet bytes i hi (lowest_from bytes left i)
unfolding lowest_from
lowest_from-IsFirstSet bytes zero i hi e = λ j p q. absurd (omega arith)
lowest_from-IsFirstSet bytes (suc left) i hi e = elim (Bool-cases (is_set bytes i)) [
  | inl taken ↦ rw taken (omega arith, omega arith, taken, λ j p q. absurd (omega arith))
  | inr clear ↦ rw clear (
      extend (lowest_from bytes left (i + 1)) clear
        (lowest_from-IsFirstSet bytes left (i + 1) hi (omega arith)))
]
  where
    below :
        (j : ℕ)
        → i ≤ j
        → is_set bytes i ≡ false
        → (i + 1 ≤ j → is_set bytes j ≡ false)
        → is_set bytes j ≡ false
    below j p t f = ground arith

    extend :
        (r : Option ℕ)
        → is_set bytes i ≡ false
        → IsFirstSet bytes (i + 1) hi r
        → IsFirstSet bytes i hi r
    extend none t f = λ j p q. below j p t (λ p'. f j p' q)
    extend (some k) t f = (omega arith, f.1, f.2, λ j p q. below j p t (λ p'. f.3 j p' q))

-- bs_get_lowest is the lowest allocated index and bs_get_lowest_unalloced the lowest free one;
-- -1 means that there is none.
pub bs_get_lowest_lem :
    (s : Bitset)
    → IsFirstSet s.bitset 0 s.res_num (bs_get_lowest s)
      × IsFirstClear s.bitset 0 s.res_num (bs_get_lowest_unalloced s)
unfolding bs_get_lowest bs_get_lowest_unalloced
bs_get_lowest_lem s = (
  lowest_from-IsFirstSet s.bitset s.res_num 0 s.res_num (omega arith),
  first_clear-IsFirstClear s.bitset s.res_num 0 s.res_num (omega arith),
)

highest_from-le :
    (bytes : List ℕ) (left i hi h j : ℕ)
    → i + left ≡ hi
    → (h < i) ⊎ (h ≡ 0)
    → (((j < i) × (j ≤ h)) ⊎ (i ≤ j))
    → j < hi
    → is_set bytes j ≡ true
    → j ≤ highest_from bytes left i h
unfolding highest_from
highest_from-le bytes zero i hi h j e b c q t = omega arith
highest_from-le bytes (suc left) i hi h j e b c q t =
    ground (arith, highest_from-le bytes left (i + 1) hi (if is_set bytes i then i else h) j)

highest_from-set :
    (bytes : List ℕ) (left i hi h : ℕ)
    → i + left ≡ hi
    → (h ≡ 0) ⊎ ((h < hi) × (is_set bytes h ≡ true))
    → (highest_from bytes left i h ≡ 0)
      ⊎ ((highest_from bytes left i h < hi) × (is_set bytes (highest_from bytes left i h) ≡ true))
unfolding highest_from
highest_from-set bytes zero i hi h e b = b
highest_from-set bytes (suc left) i hi h e b =
    highest_from-set bytes left (i + 1) hi (if is_set bytes i then i else h) (omega arith)
      (ground arith)

-- bs_get_highest is the highest allocated index; it is 0 both when only resource 0 is allocated
-- and when none is.
pub bs_get_highest_lem :
    (s : Bitset)
    → ((j : ℕ) → j < s.res_num → is_set s.bitset j ≡ true → j ≤ bs_get_highest s)
      × ((bs_get_highest s ≡ 0)
          ⊎ ((bs_get_highest s < s.res_num) × (is_set s.bitset (bs_get_highest s) ≡ true)))
unfolding bs_get_highest
bs_get_highest_lem s = (
  λ j p t.
      highest_from-le s.bitset s.res_num 0 s.res_num 0 j (omega arith) (omega arith) (omega arith) p
        t,
  highest_from-set s.bitset s.res_num 0 s.res_num 0 (omega arith) (omega arith),
)

single_table : all_below 256 (λ b. all_below 8 λ k. not (bit_and b (2 ^ k) == 1) || k == 0) ≡ true
unfolding all_below
single_table = refl

single_bit : (b k : ℕ) → b < 256 → 0 < k → k < 8 → bit_and b (2 ^ k) ≢ 1
single_bit b k hb hk h8 = ground (
  arith,
  all_below_sound 8 _ k
      (all_below_sound 256 (λ b. all_below 8 λ k. not (bit_and b (2 ^ k) == 1) || k == 0) b
        single_table hb)
      h8,
)

all_empty_from-true :
    (bytes : List ℕ) (left i hi : ℕ)
    → i + left ≡ hi
    → ((j : ℕ) → j < hi → bit_and (get_or bytes (j / 8) 0) (2 ^ (j % 8)) ≢ 1)
    → all_empty_from bytes left i ≡ true
unfolding all_empty_from
all_empty_from-true bytes zero i hi e h = refl
all_empty_from-true bytes (suc left) i hi e h =
    ground (arith, h i, all_empty_from-true bytes left (i + 1) hi (omega arith) h)

even_single : (b : ℕ) → bit_byte b 0 ≡ false → bit_and b (2 ^ 0) ≢ 1
even_single b h = ground arith

-- bs_all_empty looks only at the first bit of each byte: whatever else is allocated, it answers
-- that a valid set is empty when every resource whose index is a multiple of 8 is free.
pub bs_all_empty-true :
    (s : Bitset)
    → IsValid s
    → ((j : ℕ) → j < s.res_num → j % 8 ≡ 0 → is_set s.bitset j ≡ false)
    → bs_all_empty s ≡ true
unfolding bs_all_empty is_set
bs_all_empty-true s v clear =
    all_empty_from-true s.bitset s.res_num 0 s.res_num (omega arith) λ j p.
      elim (Bool-cases (j % 8 == 0)) [
        | inl first ↦
            let e : j % 8 ≡ 0 = ground arith in
            rw e (even_single (get_or s.bitset (j / 8) 0) (rw e at (clear j p e)))
        | inr other ↦
            single_bit (get_or s.bitset (j / 8) 0) (j % 8) (v.bytes (j / 8)) (ground arith)
              (omega arith)
      ]
