-- ===== src/Bitset.antt =====
-- src/ld_bitset.c: a set of resources with one bit for each, packed eight to a byte.
-- `malloc` and `calloc` are taken to succeed, as the code does not test them; the loops' `int`
-- counters are exact for `res_num` below 2^31.
pub mod Bits
pub mod Alloc
pub mod Count
pub mod Shift
mod Tests
use liteldacssdk.Prelude.{
  ℕ, zero, suc, ◌+◌, ◌-◌, ◌*◌, ◌/◌, ◌%◌, ◌^◌, bit_and, bit_or, Bool, true, false, not, Option, none,
  some, List, get_or, set, get_elem?, replicate, ltb, ◌==◌, if◌then◌else◌, ◌>>=◌,
}
use liteldacssdk.Err.{Err, ok, null, invalid}

-- `ld_bitset_t`. `resources` is a pointer, `none` for NULL; the callbacks are arguments.
pub record Bitset : Type 0 where
  pub res_num : ℕ
  pub res_sz : ℕ
  pub bitset : List ℕ
  pub resources : Option ℕ

-- BITSET_SIZE
pub bitset_size : ℕ → ℕ
bitset_size sz = sz / 8 + (if ltb 0 (sz % 8) then 1 else 0)

-- `(bitset[i / 8] & (1 << (i % 8))) != 0`; a byte out of range reads as 0, which
-- `Bitset.Alloc.byte_in_range` rules out for `i < res_num`.
abbrev pub bit_byte : ℕ → ℕ → Bool
bit_byte b k = not (bit_and b (2 ^ k) == 0)

pub is_set : List ℕ → ℕ → Bool
is_set bytes i = bit_byte (get_or bytes (i / 8) 0) (i % 8)

-- `b |= (1 << k)` and `b &= ~(1 << k)` on a `uint8_t`; `~` is taken at the 32 bits of `int`.
abbrev pub set_byte : ℕ → ℕ → ℕ
set_byte b k = bit_or b (2 ^ k) % 2 ^ 8

abbrev pub clear_byte : ℕ → ℕ → ℕ
clear_byte b k = bit_and b (2 ^ 32 - 1 - 2 ^ k) % 2 ^ 8

pub mark : List ℕ → ℕ → List ℕ
mark bytes i = set bytes (i / 8) (set_byte (get_or bytes (i / 8) 0) (i % 8))

pub unmark : List ℕ → ℕ → List ℕ
unmark bytes i = set bytes (i / 8) (clear_byte (get_or bytes (i / 8) 0) (i % 8))

abbrev after_init : Err × Bitset → Option Bitset
after_init (ok, s) = some s
after_init (_, s) = none

-- `init_func` may fill the resources in. `junk` is what `malloc` leaves in `resources`, which
-- nothing sets when there is no `init_func`. `none` is the NULL that is returned.
pub init_bitset : ℕ → ℕ → Option (Bitset → Err × Bitset) → Option ℕ → Option Bitset
unfolding bitset_size
init_bitset res_num res_sz init_func junk =
    let s : Bitset = record {
      res_num = res_num;
      res_sz = res_sz;
      bitset = replicate (bitset_size res_num) 0;
      resources = junk;
    } in
    elim init_func [ none ↦ some s | some f ↦ after_init (f s) ]

-- No guard: `none` is a write outside the array.
pub bs_record_by_index : Bitset → ℕ → Option (Err × Bitset)
unfolding mark
bs_record_by_index s i =
    get_elem? s.bitset (i / 8) >>= λ b. some (ok, record s { bitset = mark s.bitset i })

-- The loop's first index in `[i, i + left)` whose bit is clear.
pub first_clear : List ℕ → ℕ → ℕ → Option ℕ
unfolding is_set
first_clear bytes zero i = none
first_clear bytes (suc left) i =
    let rest = first_clear bytes left (i + 1) in if is_set bytes i then rest else some i

abbrev take_resource : Bitset → ℕ → Option ℕ → Err × Option ℕ × Bitset
take_resource s base none = (invalid, none, s)
take_resource s base (some i) =
    (ok, some (base + i * s.res_sz), record s { bitset = mark s.bitset i })

-- `*res` is RES_INDEX, the address of the resource; `none` where it is not written.
pub bs_alloc_resource : Bitset → Err × Option ℕ × Bitset
unfolding first_clear mark
bs_alloc_resource s = elim s.resources [
  | none ↦ (null, none, s)
  | some base ↦ take_resource s base (first_clear s.bitset s.res_num 0)
]

-- The parameter is a `uint8_t`: the caller's number is cut to 8 bits.
pub bs_free_resource : Bitset → ℕ → Bitset
unfolding unmark
bs_free_resource s index =
    if ltb (index % 2 ^ 8) s.res_num
    then record s { bitset = unmark s.bitset (index % 2 ^ 8) }
    else s

-- No guard: `none` is a read outside the array.
pub bs_judge_resource : Bitset → ℕ → Option Bool
bs_judge_resource s index = get_elem? s.bitset (index % 2 ^ 8 / 8) >>= λ b.
    some (ltb 0 (bit_and b (2 ^ (index % 2 ^ 8 % 8))))

all_empty_from : List ℕ → ℕ → ℕ → Bool
all_empty_from bytes zero i = true
all_empty_from bytes (suc left) i =
    let rest = all_empty_from bytes left (i + 1) in
    if bit_and (get_or bytes (i / 8) 0) (2 ^ (i % 8)) == 1 then false else rest

-- The test compares with 1, as the code does.
pub bs_all_empty : Bitset → Bool
unfolding all_empty_from
bs_all_empty s = all_empty_from s.bitset s.res_num 0

alloced_from : List ℕ → ℕ → ℕ → ℕ → ℕ
alloced_from bytes zero i ret = ret
alloced_from bytes (suc left) i ret =
    alloced_from bytes left (i + 1) (if is_set bytes i then ret + 1 else ret)

pub bs_get_alloced : Bitset → ℕ
unfolding alloced_from is_set
bs_get_alloced s = alloced_from s.bitset s.res_num 0 0

highest_from : List ℕ → ℕ → ℕ → ℕ → ℕ
highest_from bytes zero i highest = highest
highest_from bytes (suc left) i highest =
    highest_from bytes left (i + 1) (if is_set bytes i then i else highest)

pub bs_get_highest : Bitset → ℕ
unfolding highest_from is_set
bs_get_highest s = highest_from s.bitset s.res_num 0 0

lowest_from : List ℕ → ℕ → ℕ → Option ℕ
lowest_from bytes zero i = none
lowest_from bytes (suc left) i =
    let rest = lowest_from bytes left (i + 1) in if is_set bytes i then some i else rest

-- `none` is the -1 of both.
pub bs_get_lowest : Bitset → Option ℕ
unfolding lowest_from is_set
bs_get_lowest s = lowest_from s.bitset s.res_num 0

pub bs_get_lowest_unalloced : Bitset → Option ℕ
unfolding first_clear
bs_get_lowest_unalloced s = first_clear s.bitset s.res_num 0
