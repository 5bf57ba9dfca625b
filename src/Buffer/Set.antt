-- ===== src/Buffer/Set.antt =====
-- Clones, writes at a place and cleared buffers of src/ld_buffer.c.
use liteldacssdk.Prelude.{
  ℕ, ◌+◌, ◌-◌, ◌%◌, ◌^◌, ◌≤◌, ◌<◌, ◌≡◌, refl, sym, subst, inl, inr, Bool, true, false, Option, none,
  some, List, ◌++◌, arith, length, take, replicate, length-replicate, ltb, Bool-cases, ◌>>=◌,
}
use liteldacssdk.Err.{Err, ok, invalid}
use liteldacssdk.Buffer.{
  clone_into, Buffer, bytes_at, set_to_buffer, buffer_clear, cat_to_buffer, clone_to_buffer,
  clone_to_chunk,
}
use liteldacssdk.Buffer.Copy.{contents, IsValid, copy_to-some, copy_to_start}
use liteldacssdk.Buffer.Cat.{alloc_buffer_cases}

-- The bytes stand at `start`, or there was no room.
pub data Written (dbuf : Buffer) (start : ℕ) (src : List ℕ) (len : ℕ)
    : Option (Err × Buffer) → Type 0 where
  no_room : dbuf.free < start + len → Written dbuf start src len (some (invalid, dbuf))
  written :
      (dbuf' : Buffer)
      → start + len ≤ dbuf.free
      → IsValid dbuf'
      → dbuf'.len ≡ dbuf.len + len
      → take (start + len) (bytes_at dbuf'.ptr) ≡ take start (bytes_at dbuf.ptr) ++ take len src
      → Written dbuf start src len (some (ok, dbuf'))

module _ (dbuf : Buffer) (start : ℕ) (src : List ℕ) (len : ℕ) (v : IsValid dbuf)
    (reads : len ≤ length src) where
  difference : start ≤ dbuf.free → (dbuf.free + (2 ^ 64 - start)) % 2 ^ 64 ≡ dbuf.free - start
  difference h = omega (arith, v.used, v.block, v.small)

  -- set_to_buffer at a place that is not beyond the free bytes of a valid buffer: it answers
  -- LD_ERR_INVALID and changes nothing when the bytes do not fit the free space from there on;
  -- otherwise it writes them in bounds, and the buffer stays valid.
  pub set_to_buffer-Written :
      start ≤ dbuf.free → Written dbuf start src len (set_to_buffer dbuf start src len)
  unfolding set_to_buffer
  set_to_buffer-Written h = rw (difference h) (elim (Bool-cases (ltb (dbuf.free - start) len)) [
    | inl e ↦ rw e (no_room (ground arith))
    | inr e ↦
        let fits : start + len ≤ dbuf.free = ground arith in
        let (p, e₁, l, t) =
          copy_to-some dbuf.ptr start src len (omega (arith, v.used, v.block)) reads in
        let sum : (dbuf.len + len) % 2 ^ 64 ≡ dbuf.len + len =
          omega (arith, v.used, v.block, v.small) in
        let rest : (dbuf.free + (2 ^ 64 - len)) % 2 ^ 64 ≡ dbuf.free - len =
          omega (arith, v.used, v.block, v.small) in
        rw (e, e₁, sum, rest)
          (written _ fits
            (record {
              used = omega (arith, v.used);
              block = omega (arith, v.block);
              small = omega (arith, v.small);
            })
            refl t)
  ])

  -- On a valid buffer, beyond the free bytes but below 2^31, the difference wraps around and the guard
  -- lets the write pass: readable bytes, at least one and below 2^63,
  -- that do not fit the block are then written outside it.
  pub set_to_buffer-wraps :
      dbuf.free < start
      → start < 2 ^ 31
      → 0 < len
      → len < 2 ^ 63
      → length (bytes_at dbuf.ptr) < start + len
      → set_to_buffer dbuf start src len ≡ none
  unfolding set_to_buffer
  set_to_buffer-wraps h int pos size out =
      let wrapped : (dbuf.free + (2 ^ 64 - start)) % 2 ^ 64 ≡ dbuf.free + (2 ^ 64 - start) =
        omega arith in
      rw wrapped (ground arith)

-- A cleared buffer keeps its count of free bytes: what is put into it within that count is written
-- through NULL.
pub cat_to_buffer-buffer_clear :
    (calloc_gives : ℕ → Bool) (buf : Buffer) (str : List ℕ) (nbytes : ℕ)
    → 0 < nbytes
    → nbytes ≤ buf.free
    → cat_to_buffer calloc_gives (buffer_clear buf) str nbytes ≡ none
unfolding cat_to_buffer buffer_clear
cat_to_buffer-buffer_clear calloc_gives buf str nbytes pos h = ground arith

-- The chunk holds the bytes, or nothing at all under the count of them.
pub data Cloned (calloc_gives : ℕ → Bool) (bytes : List ℕ) (size : ℕ) : Option Buffer → Type 0 where
  cloned :
      (ch : Buffer)
      → IsValid ch
      → contents ch ≡ take size bytes
      → Cloned calloc_gives bytes size (some ch)
  lost :
      calloc_gives (size + 1) ≡ false
      → Cloned calloc_gives bytes size
          (some (record { len = size; total = size; free = 0; ptr = none }))

pub chunk_given :
    {calloc_gives : ℕ → Bool} {bytes : List ℕ} {size : ℕ} {o : Option Buffer}
    → Cloned calloc_gives bytes size o
    → calloc_gives (size + 1) ≡ true
    → (ch : Buffer) × (o ≡ some ch) × IsValid ch × (contents ch ≡ take size bytes)
chunk_given (cloned ch v c) gives = (ch, refl, v, c)
chunk_given (lost e) gives = absurd (cc)

-- CLONE_TO_CHUNK of `size` bytes that can be read leaves a valid chunk that holds them, or, when
-- memory is refused, a chunk of that length on NULL. It never faults.
pub clone_to_chunk-Cloned :
    (calloc_gives : ℕ → Bool) (ch : Buffer) (bytes : List ℕ) (size : ℕ)
    → size ≤ length bytes
    → size + 1 < 2 ^ 64
    → Cloned calloc_gives bytes size (clone_to_chunk calloc_gives ch (some bytes) size)
unfolding clone_to_chunk clone_to_buffer
clone_to_chunk-Cloned calloc_gives ch bytes size reads room =
    let Goal = λ (o : Option (List ℕ)). Cloned calloc_gives bytes size (
      clone_into o (some bytes) size >>= λ p.
      some (record { len = size; total = size; free = 0; ptr = p })) in
    elim (alloc_buffer_cases calloc_gives size room) [
      | inl (e, short) ↦ subst Goal (sym e) (lost short)
      | inr e ↦
          let sized = length-replicate {A = ℕ} (size + 1) 0 in
          let (p, e₁, l, t) =
            copy_to_start (some (replicate (size + 1) 0)) bytes size (omega (arith, sized)) reads in
          subst Goal (sym e) (
            rw e₁ (
              cloned _
                (record {
                  used = omega arith;
                  block = omega (arith, sized);
                  small = omega (arith, sized);
                })
                t))
    ]
