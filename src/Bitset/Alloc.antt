-- ===== src/Bitset/Alloc.antt =====
-- src/ld_bitset.c: well-formedness, and what allocating and freeing a resource does.
use liteldacssdk.Prelude.{
  ℕ, zero, suc, ◌+◌, ◌*◌, ◌/◌, ◌%◌, ◌^◌, ◌≤◌, ◌<◌, bit_and, ◌≡◌, sym, ◌∙◌, subst, inl, inr, true,
  false, not, Option, none, some, List, arith, length, set, get_or, length-set, get_or-set,
  get_elem?-eq-get_or, ltb, ◌==◌, if◌then◌else◌, lt→ltb, Bool-cases,
}
use liteldacssdk.Err.{Err, ok, invalid}
use liteldacssdk.Bitset.{
  Bitset, bitset_size, is_set, mark, unmark, first_clear, take_resource, bs_alloc_resource,
  bs_free_resource, bs_judge_resource,
}
use liteldacssdk.Bitset.Bits.{IsBytes, is_set-mark, is_set-unmark}

-- One byte for each eight resources.
pub record IsValid (s : Bitset) : Type 0 where
  pub sized : length s.bitset ≡ bitset_size s.res_num
  pub bytes : IsBytes s.bitset

pub byte_in_range : {s : Bitset} → IsValid s → (i : ℕ) → i < s.res_num → i / 8 < length s.bitset
unfolding bitset_size
byte_in_range v i h = ground arith

set-IsBytes :
    (bytes : List ℕ) (n b : ℕ)
    → IsBytes bytes
    → n < length bytes
    → b < 256
    → IsBytes (set bytes n b)
set-IsBytes bytes n b v h hb m = ground (arith, get_or-set bytes n m b 0 h, v m)

module _ {s : Bitset} (v : IsValid s) (i : ℕ) (h : i < s.res_num) where
  pub mark-IsValid : IsValid (record s { bitset = mark s.bitset i })
  unfolding mark
  mark-IsValid = record {
    sized = length-set s.bitset (i / 8) _ ∙ v.sized;
    bytes = set-IsBytes s.bitset (i / 8) _ v.bytes (byte_in_range v i h) (omega arith);
  }

  pub unmark-IsValid : IsValid (record s { bitset = unmark s.bitset i })
  unfolding unmark
  unmark-IsValid = record {
    sized = length-set s.bitset (i / 8) _ ∙ v.sized;
    bytes = set-IsBytes s.bitset (i / 8) _ v.bytes (byte_in_range v i h) (omega arith);
  }

-- The result of the loop over `[lo, hi)`: its first clear bit, or all are set.
abbrev pub IsFirstClear : List ℕ → ℕ → ℕ → Option ℕ → Type 0
IsFirstClear bytes lo hi none = (j : ℕ) → lo ≤ j → j < hi → is_set bytes j ≡ true
IsFirstClear bytes lo hi (some k) =
    (lo ≤ k)
    × (k < hi)
    × (is_set bytes k ≡ false)
    × ((j : ℕ) → lo ≤ j → j < k → is_set bytes j ≡ true)

pub first_clear-IsFirstClear :
    (bytes : List ℕ) (left i hi : ℕ)
    → i + left ≡ hi
    → IsFirstClear bytes i hi (first_clear bytes left i)
unfolding first_clear
first_clear-IsFirstClear bytes zero i hi e = λ j p q. absurd (omega arith)
first_clear-IsFirstClear bytes (suc left) i hi e = elim (Bool-cases (is_set bytes i)) [
  | inr clear ↦ rw clear (omega arith, omega arith, clear, λ j p q. absurd (omega arith))
  | inl taken ↦ rw taken (
      extend (first_clear bytes left (i + 1)) taken
        (first_clear-IsFirstClear bytes left (i + 1) hi (omega arith)))
]
  where
    below :
        (j : ℕ)
        → i ≤ j
        → is_set bytes i ≡ true
        → (i + 1 ≤ j → is_set bytes j ≡ true)
        → is_set bytes j ≡ true
    below j p t f = ground arith

    extend :
        (r : Option ℕ)
        → is_set bytes i ≡ true
        → IsFirstClear bytes (i + 1) hi r
        → IsFirstClear bytes i hi r
    extend none t f = λ j p q. below j p t (λ p'. f j p' q)
    extend (some k) t f = (omega arith, f.1, f.2, λ j p q. below j p t (λ p'. f.3 j p' q))

-- What an allocation may do: refuse when every resource is taken, else hand out the lowest
-- free one and mark it alone.
pub data Allocated (s : Bitset) (base : ℕ) : Err × Option ℕ × Bitset → Type 0 where
  full : ((j : ℕ) → j < s.res_num → is_set s.bitset j ≡ true) → Allocated s base (invalid, none, s)
  lowest :
      (k : ℕ) (s' : Bitset)
      → k < s.res_num
      → is_set s.bitset k ≡ false
      → ((j : ℕ) → j < k → is_set s.bitset j ≡ true)
      → IsValid s'
      → ((j : ℕ) → is_set s'.bitset j ≡ (if k == j then true else is_set s.bitset j))
      → Allocated s base (ok, some (base + k * s.res_sz), s')

take_resource-Allocated :
    {s : Bitset} (base : ℕ) (r : Option ℕ)
    → IsValid s
    → IsFirstClear s.bitset 0 s.res_num r
    → Allocated s base (take_resource s base r)
take_resource-Allocated base none v f = full (λ j p. f j (omega arith) p)
take_resource-Allocated {s} base (some k) v f =
    lowest k _ f.1 f.2 (λ j p. f.3 j (omega arith) p) (mark-IsValid v k f.1)
      (λ j. is_set-mark s.bitset k j v.bytes (byte_in_range v k f.1))

alloc_take :
    (s : Bitset) (base : ℕ)
    → s.resources ≡ some base
    → bs_alloc_resource s ≡ take_resource s base (first_clear s.bitset s.res_num 0)
unfolding bs_alloc_resource
alloc_take s base e = ground arith

-- On a valid set with resources, bs_alloc_resource hands out the lowest free one, or refuses when none is free.
pub bs_alloc_resource-Allocated :
    (s : Bitset) (base : ℕ)
    → IsValid s
    → s.resources ≡ some base
    → Allocated s base (bs_alloc_resource s)
bs_alloc_resource-Allocated s base v e = subst (Allocated s base) (sym (alloc_take s base e)) (
    take_resource-Allocated base (first_clear s.bitset s.res_num 0) v
      (first_clear-IsFirstClear s.bitset s.res_num 0 s.res_num (omega arith)))

-- In a valid set, freeing a resource of it below 256 clears its bit and no other, and keeps the set valid.
pub bs_free_resource_lem :
    (s : Bitset) (i : ℕ)
    → IsValid s
    → i < s.res_num
    → i < 256
    → IsValid (bs_free_resource s i)
      × ((j : ℕ)
          → is_set (bs_free_resource s i).bitset j ≡ (if i == j then false else is_set s.bitset j))
unfolding bs_free_resource
bs_free_resource_lem s i v h small =
    let cut : i % 2 ^ 8 ≡ i = omega arith in
    rw (cut, lt→ltb i s.res_num h)
      (unmark-IsValid v i h, λ j. is_set-unmark s.bitset i j v.bytes (byte_in_range v i h))

-- The parameter is one byte wide: in a valid set, freeing a resource of it from 256 on leaves its
-- own bit as it was.
pub bs_free_resource_wide :
    (s : Bitset) (i : ℕ)
    → IsValid s
    → i < s.res_num
    → 256 ≤ i
    → is_set (bs_free_resource s i).bitset i ≡ is_set s.bitset i
unfolding bs_free_resource
bs_free_resource_wide s i v h wide =
    let cut : i % 2 ^ 8 < s.res_num = omega arith in
    ground (arith, is_set-unmark s.bitset (i % 2 ^ 8) i v.bytes (byte_in_range v (i % 2 ^ 8) cut))

positive : (n : ℕ) → ltb 0 n ≡ not (n == 0)
positive n = ground arith

-- In a valid set, bs_judge_resource reads the bit of a resource of it below 256, in bounds.
pub bs_judge_resource_lem :
    (s : Bitset) (i : ℕ)
    → IsValid s
    → i < s.res_num
    → i < 256
    → bs_judge_resource s i ≡ some (is_set s.bitset i)
unfolding bs_judge_resource is_set
bs_judge_resource_lem s i v h small =
    let cut : i % 2 ^ 8 ≡ i = omega arith in
    rw (
      cut,
      get_elem?-eq-get_or s.bitset (i / 8) 0 (byte_in_range v i h),
      positive (bit_and (get_or s.bitset (i / 8) 0) (2 ^ (i % 8))),
    )
