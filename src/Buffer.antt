-- ===== src/Buffer.antt =====
-- src/ld_buffer.c and the macros of include/ld_buffer.h: byte buffers that grow.
-- `ptr` is the block that the buffer owns, with every byte that was allocated, `none` for NULL.
-- Clones copy, so that no block has two owners. `none` as a result is a fault: a copy that reads or
-- writes outside a block, or through NULL. `calloc_gives n` says whether `calloc` has `n` bytes.
pub mod Copy
pub mod Cat
pub mod Set
pub mod Fresh
mod Tests
use liteldacssdk.Prelude.{
  ℕ, ◌+◌, ◌-◌, ◌%◌, ◌^◌, Bool, true, ◌&&◌, Option, none, some, List, [], ◌++◌, length, set, take,
  drop, replicate, ltb, leb, ◌==◌, if◌then◌else◌, ◌>>=◌,
}
use liteldacssdk.Err.{Err, ok, internal, invalid}

-- `buffer_t`
pub record Buffer : Type 0 where
  pub len : ℕ
  pub total : ℕ
  pub free : ℕ
  pub ptr : Option (List ℕ)

-- A sum of `size_t`, and a difference of a `size_t` and an `int` that is not negative.
abbrev pub add_size : ℕ → ℕ → ℕ
add_size a b = (a + b) % 2 ^ 64

abbrev pub sub_size : ℕ → ℕ → ℕ
sub_size a b = (a + (2 ^ 64 - b)) % 2 ^ 64

-- The bytes behind a pointer.
abbrev pub bytes_at : Option (List ℕ) → List ℕ
bytes_at none = []
bytes_at (some bytes) = bytes

-- `memcpy(p + start, src, n)`
abbrev pub copy_to : Option (List ℕ) → ℕ → List ℕ → ℕ → Option (Option (List ℕ))
copy_to p start src n =
    if n == 0
    then some p
    else if leb (start + n) (length (bytes_at p)) && leb n (length src)
    then some (some (take start (bytes_at p) ++ take n src ++ drop (start + n) (bytes_at p)))
    else none

-- Where malloc gives the record of the buffer; the code writes to it without a test, so that a NULL
-- there is a fault, which is outside this model.
unfoldable pub init_buffer_unptr : Buffer
init_buffer_unptr = record { len = 0; total = 0; free = 0; ptr = none }

-- The part of cat_to_buffer that allocates anew: the old bytes, then the new ones, and nothing free.
abbrev pub move_to : Buffer → List ℕ → ℕ → Option (List ℕ) → Option (Err × Buffer)
move_to buf str nbytes none = some (internal, buf)
move_to buf str nbytes (some fresh) =
    let new_size = add_size buf.len nbytes in
    copy_to (some fresh) 0 (bytes_at buf.ptr) buf.len >>= λ p.
    copy_to p buf.len str nbytes >>= λ p'.
    some (ok, record { len = new_size; total = new_size; free = 0; ptr = p' })

-- The part that writes behind the bytes there are.
abbrev pub put : Buffer → List ℕ → ℕ → Option (Err × Buffer)
put buf str nbytes = copy_to buf.ptr buf.len str nbytes >>= λ p.
    some (ok, record buf { len = add_size buf.len nbytes; free = buf.free - nbytes; ptr = p })

-- The copy of clone_to_buffer into what was allocated.
abbrev pub clone_into : Option (List ℕ) → Option (List ℕ) → ℕ → Option (Option (List ℕ))
clone_into none buf total_len = some none
clone_into (some fresh) none total_len = some (some fresh)
clone_into (some fresh) (some bytes) total_len = copy_to (some fresh) 0 bytes total_len

module _ (calloc_gives : ℕ → Bool) where
  unfoldable pub alloc_buffer : ℕ → Option (List ℕ)
  alloc_buffer size =
      let n = add_size size 1 in if calloc_gives n then some (replicate n 0) else none

  -- A failed allocation leaves `ptr` NULL under the same counts, as in the code.
  unfoldable pub init_buffer_ptr : ℕ → Buffer
  unfolding alloc_buffer
  init_buffer_ptr size = record { len = 0; total = size; free = size; ptr = alloc_buffer size }

  abbrev pub grow : Buffer → List ℕ → ℕ → Option (Err × Buffer)
  grow buf str nbytes = move_to buf str nbytes (alloc_buffer (add_size buf.len nbytes))

  unfoldable pub cat_to_buffer : Buffer → List ℕ → ℕ → Option (Err × Buffer)
  unfolding alloc_buffer
  cat_to_buffer buf str nbytes =
      if ltb buf.free nbytes then grow buf str nbytes else put buf str nbytes

  -- `buf` is the memory at the pointer, `none` for NULL.
  unfoldable pub clone_to_buffer : Option (List ℕ) → ℕ → Option (Option (List ℕ))
  unfolding alloc_buffer
  clone_to_buffer buf total_len = clone_into (alloc_buffer total_len) buf total_len

  -- CLONE_TO_CHUNK: what the chunk held is released first, whatever it is.
  unfoldable pub clone_to_chunk : Buffer → Option (List ℕ) → ℕ → Option Buffer
  unfolding clone_to_buffer
  clone_to_chunk ch src size = clone_to_buffer src size >>= λ p.
      some (record { len = size; total = size; free = 0; ptr = p })

  -- CLONE_TO_CHUNK_L copies `total_len` bytes, not `size`.
  pub clone_to_chunk_l : Buffer → Option (List ℕ) → ℕ → ℕ → Option Buffer
  unfolding clone_to_buffer
  clone_to_chunk_l ch src size total_len = clone_to_buffer src total_len >>= λ p.
      some (record { len = size; total = total_len; free = sub_size total_len size; ptr = p })

pub set_to_buffer : Buffer → ℕ → List ℕ → ℕ → Option (Err × Buffer)
set_to_buffer dbuf start src len =
    if ltb (sub_size dbuf.free start) len
    then some (invalid, dbuf)
    else (copy_to dbuf.ptr start src len >>= λ p.
        some
          (ok, record dbuf { len = add_size dbuf.len len; free = sub_size dbuf.free len; ptr = p }))

-- `total` and `free` stay as they were.
pub buffer_clear : Buffer → Buffer
buffer_clear pb = record pb { len = 0; ptr = none }

-- `free` stays as it was; nothing is returned.
pub change_buffer_len : Buffer → ℕ → Buffer
change_buffer_len buf valid_len = record buf { len = valid_len; total = valid_len }
