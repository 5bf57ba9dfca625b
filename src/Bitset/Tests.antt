-- ===== src/Bitset/Tests.antt =====
-- Runs and instances for the bit set.
use liteldacssdk.Prelude.{
  AreBytes, ℕ, zero, suc, ◌/◌, ◌^◌, ◌≤◌, ◌<◌, ◌≡◌, refl, ◌⊎◌, true, false, none, some, List, [],
  ◌∷◌, ◌++◌, arith, length, replicate, ◌==◌, if◌then◌else◌,
}
use liteldacssdk.Err.{ok}
use liteldacssdk.Bitset.{
  Bitset, bitset_size, is_set, bs_alloc_resource, bs_free_resource, bs_judge_resource, bs_all_empty,
  bs_get_alloced, bs_get_highest, bs_get_lowest_unalloced,
}
use liteldacssdk.Bitset.Bits.{IsBytes}
use liteldacssdk.Bitset.Alloc.{
  IsValid, Allocated, bs_alloc_resource-Allocated, bs_free_resource_lem,
}
use liteldacssdk.Bitset.Count.{bs_get_highest_lem}
use liteldacssdk.Bitset.Shift.{bit_rightshift, le_value, bit_rightshift-div}

-- ten resources of 4 bytes at address 100; 0, 1 and 9 are taken
abbrev sample : Bitset
sample = record { res_num = 10; res_sz = 4; bitset = 3 ∷ 2 ∷ []; resources = some 100 }

-- a set of 300 resources, of which only 258 is taken
abbrev wide : Bitset
wide = record {
  res_num = 300;
  res_sz = 1;
  bitset = replicate 32 0 ++ 4 ∷ replicate 5 0;
  resources = some 0;
}

IsBytes-of : (bytes : List ℕ) → AreBytes bytes → IsBytes bytes
IsBytes-of [] v n = omega arith
IsBytes-of (b ∷ bytes) v zero = v.0
IsBytes-of (b ∷ bytes) v (suc n) = IsBytes-of bytes v.1 n

sample-IsValid : IsValid sample
unfolding bitset_size
sample-IsValid = record { sized = refl; bytes = IsBytes-of (3 ∷ 2 ∷ []) (omega arith) }

runs :
    (bs_alloc_resource sample ≡ (ok, some 108, record sample { bitset = 7 ∷ 2 ∷ [] }))
    × (bs_get_alloced sample ≡ 3)
    × (bs_get_highest sample ≡ 9)
    × (bs_get_lowest_unalloced sample ≡ some 2)
    × (bs_judge_resource sample 9 ≡ some true)
    × (bs_all_empty (record sample { bitset = 2 ∷ 2 ∷ [] }) ≡ true)
    × (bit_rightshift (λ n. true) (0 ∷ 1 ∷ []) 3 ≡ some (ok, some (32 ∷ 0 ∷ [])))
unfolding bs_alloc_resource bs_get_alloced bs_get_highest bs_get_lowest_unalloced bs_judge_resource
    bs_all_empty bit_rightshift
runs = (refl, refl, refl, refl, refl, refl, refl)

bs_alloc_resource-Allocated_example : Allocated sample 100 (bs_alloc_resource sample)
bs_alloc_resource-Allocated_example = bs_alloc_resource-Allocated sample 100 sample-IsValid refl

bs_free_resource_lem_example :
    IsValid (bs_free_resource sample 9)
    × ((j : ℕ)
        → is_set (bs_free_resource sample 9).bitset j
          ≡ (if 9 == j then false else is_set sample.bitset j))
bs_free_resource_lem_example =
    bs_free_resource_lem sample 9 sample-IsValid (omega arith) (omega arith)

bit_rightshift-div_example :
    (dst : List ℕ) × (bit_rightshift (λ n. true) (0x34 ∷ 0x12 ∷ []) 5 ≡ some (ok, some dst))
    × (length dst ≡ 2)
    × (le_value dst ≡ le_value (0x34 ∷ 0x12 ∷ []) / 2 ^ 5)
bit_rightshift-div_example =
    bit_rightshift-div (0x34 ∷ 0x12 ∷ []) 5 (omega arith) (λ n. true) refl (omega arith)
      (omega arith) (omega arith)

wide-IsValid : IsValid wide
unfolding bitset_size
wide-IsValid = record { sized = refl; bytes = IsBytes-of (wide.bitset) (omega arith) }

abbrev second : Bitset
second = record { res_num = 10; res_sz = 4; bitset = 2 ∷ 0 ∷ []; resources = none }

bs_get_highest_lem_example :
    ((j : ℕ) → j < 10 → is_set (3 ∷ 2 ∷ []) j ≡ true → j ≤ bs_get_highest sample)
    × ((bs_get_highest sample ≡ 0)
        ⊎ ((bs_get_highest sample < 10) × (is_set (3 ∷ 2 ∷ []) (bs_get_highest sample) ≡ true)))
bs_get_highest_lem_example = bs_get_highest_lem sample
