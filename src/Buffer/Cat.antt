-- ===== src/Buffer/Cat.antt =====
-- cat_to_buffer of src/ld_buffer.c keeps what was written, in order.
use liteldacssdk.Prelude.{
  ℕ, ◌+◌, ◌%◌, ◌^◌, ◌≤◌, ◌<◌, ◌≡◌, refl, sym, ap, ◌∙◌, subst, ◌⊎◌, inl, inr, Bool, false, Option,
  none, some, List, ◌++◌, arith, length, take, replicate, length-take, length-replicate, ltb,
  Bool-cases,
}
use liteldacssdk.Err.{Err, ok, internal}
use liteldacssdk.Buffer.{Buffer, bytes_at, grow, put, move_to, cat_to_buffer, alloc_buffer}
use liteldacssdk.Buffer.Copy.{contents, IsValid, copy_to-some, copy_to_start}

-- The bytes were put behind the others, or nothing changed for want of memory.
pub data Appended (calloc_gives : ℕ → Bool) (buf : Buffer) (bytes : List ℕ)
    : Option (Err × Buffer) → Type 0 where
  refused :
      calloc_gives (buf.len + length bytes + 1) ≡ false
      → Appended calloc_gives buf bytes (some (internal, buf))
  appended :
      (buf' : Buffer)
      → IsValid buf'
      → buf'.len ≡ buf.len + length bytes
      → contents buf' ≡ contents buf ++ bytes
      → Appended calloc_gives buf bytes (some (ok, buf'))

pub alloc_buffer_cases :
    (calloc_gives : ℕ → Bool) (size : ℕ)
    → size + 1 < 2 ^ 64
    → (alloc_buffer calloc_gives size ≡ none) × (calloc_gives (size + 1) ≡ false)
      ⊎ (alloc_buffer calloc_gives size ≡ some (replicate (size + 1) 0))
unfolding alloc_buffer
alloc_buffer_cases calloc_gives size p =
    let sum : (size + 1) % 2 ^ 64 ≡ size + 1 = omega arith in
    rw sum (elim (Bool-cases (calloc_gives (size + 1))) [
      | inl e ↦ inr (rw e refl)
      | inr e ↦ inl (rw e refl, e)
    ])

module _ (calloc_gives : ℕ → Bool) (buf : Buffer) (str : List ℕ) (nbytes : ℕ) (v : IsValid buf)
    (reads : nbytes ≤ length str) (room : buf.len + nbytes + 1 < 2 ^ 64) where
  put-Appended :
      nbytes ≤ buf.free → Appended calloc_gives buf (take nbytes str) (put buf str nbytes)
  put-Appended h =
      let (p, e, l, t) =
        copy_to-some buf.ptr buf.len str nbytes (omega (arith, v.used, v.block)) reads in
      let sum : (buf.len + nbytes) % 2 ^ 64 ≡ buf.len + nbytes = omega arith in
      rw (e, sum)
        (appended _
          (record {
            used = omega (arith, v.used);
            block = omega (arith, v.block);
            small = omega (arith, v.small);
          })
          (omega (arith, length-take nbytes str)) t)

  move_to-Appended :
      Appended calloc_gives buf
        (take nbytes str)
        (move_to buf str nbytes (some (replicate (buf.len + nbytes + 1) 0)))
  move_to-Appended =
      let sum : (buf.len + nbytes) % 2 ^ 64 ≡ buf.len + nbytes = omega arith in
      let fresh : List ℕ = replicate (buf.len + nbytes + 1) 0 in
      let sized = length-replicate {A = ℕ} (buf.len + nbytes + 1) 0 in
      let (p, e₁, l₁, t₁) =
        copy_to_start (some fresh) (bytes_at buf.ptr) buf.len (omega (arith, sized))
          (omega (arith, v.used, v.block)) in
      let (p', e₂, l₂, t₂) = copy_to-some p buf.len str nbytes (omega (arith, sized)) reads in
      rw (sum, e₁, e₂)
        (appended _
          (record {
            used = omega arith;
            block = omega (arith, sized);
            small = omega (arith, sized);
          })
          (omega (arith, length-take nbytes str)) (t₂ ∙ ap (λ xs. xs ++ take nbytes str) t₁))

  grow-Appended : Appended calloc_gives buf (take nbytes str) (grow calloc_gives buf str nbytes)
  grow-Appended =
      let sum : (buf.len + nbytes) % 2 ^ 64 ≡ buf.len + nbytes = omega arith in
      let move = λ (o : Option (List ℕ)).
        Appended calloc_gives buf (take nbytes str) (move_to buf str nbytes o) in
      subst (λ n. move (alloc_buffer calloc_gives n)) (sym sum)
        (elim (alloc_buffer_cases calloc_gives (buf.len + nbytes) room) [
          | inl (e, short) ↦
              let n : length (take nbytes str) ≡ nbytes = omega (arith, length-take nbytes str) in
              subst move (sym e) (refused (ap (λ k. calloc_gives (buf.len + k + 1)) n ∙ short))
          | inr e ↦ subst move (sym e) move_to-Appended
        ])

  -- cat_to_buffer on a valid buffer, whose bytes and the new ones fit a `size_t`: it never faults;
  -- when memory is wanted and refused it changes nothing; otherwise it puts the bytes behind those
  -- that were there, and the buffer stays valid.
  pub cat_to_buffer-Appended :
      Appended calloc_gives buf (take nbytes str) (cat_to_buffer calloc_gives buf str nbytes)
  unfolding cat_to_buffer
  cat_to_buffer-Appended = elim (Bool-cases (ltb buf.free nbytes)) [
    | inl e ↦ rw e grow-Appended
    | inr e ↦ rw e (put-Appended (ground arith))
  ]
