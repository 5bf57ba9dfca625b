-- ===== src/Buffer/Fresh.antt =====
-- Copies of src/ld_buffer.c into fresh memory.
use liteldacssdk.Prelude.{
  ℕ, zero, suc, ◌+◌, ◌-◌, ◌%◌, ◌^◌, ◌≤◌, ◌<◌, ◌≡◌, refl, ap, ◌∙◌, Bool, true, false, Option, none,
  some, List, [], ◌∷◌, ◌++◌, arith, length, take, drop, replicate, length-take, length-replicate,
  ltb, leb, suc-eq-zero,
}
use native.Mathlib.Nat.{mod-eq_of_lt}
use liteldacssdk.Buffer.Copy.{contents}
use liteldacssdk.Buffer.{
  bytes_at, Buffer, copy_to, alloc_buffer, cat_to_buffer, clone_to_chunk, init_buffer_ptr,
  clone_to_buffer,
}
use liteldacssdk.Err.{ok}

drop-replicate : (n : ℕ) → drop {A = ℕ} n (replicate (n + 1) 0) ≡ 0 ∷ []
drop-replicate zero = refl
drop-replicate (suc n) =
    let sums : suc n + 1 ≡ suc (n + 1) = omega arith in
    ap (λ k. drop (suc n) (replicate {A = ℕ} k 0)) sums ∙ drop-replicate n

pub take-length : {A : Type 0} (xs : List A) → take (length xs) xs ≡ xs
take-length [] = refl
take-length (x ∷ xs) = ap (λ t. x ∷ t) (take-length xs)

zero_add : (n : ℕ) → 0 + n ≡ n
zero_add n = omega arith

-- Fresh memory has one byte more, which stays 0.
copy_to_fresh :
    (n : ℕ) (src : List ℕ)
    → n ≤ length src
    → copy_to (some (replicate (n + 1) 0)) 0 src n ≡ some (some (take n src ++ 0 ∷ []))
copy_to_fresh zero src h = refl
copy_to_fresh (suc n) src h =
    let room : leb (0 + suc n) (length {A = ℕ} (replicate (suc n + 1) 0)) ≡ true =
      ground (arith, length-replicate {A = ℕ} (suc n + 1) 0) in
    let reads : leb (suc n) (length src) ≡ true = ground arith in
    let rest : drop {A = ℕ} (0 + suc n) (replicate (suc n + 1) 0) ≡ 0 ∷ [] =
      ap (λ k. drop k (replicate {A = ℕ} (suc n + 1) 0)) (zero_add (suc n))
      ∙ drop-replicate (suc n) in
    rw (suc-eq-zero n, room, reads, rest) refl

-- A buffer that was filled with bytes, and nothing more.
abbrev pub full_buffer : List ℕ → Buffer
full_buffer bytes = record {
  len = length bytes;
  total = length bytes;
  free = 0;
  ptr = some (bytes ++ 0 ∷ []);
}

module _ (calloc_gives : ℕ → Bool) (memory : (n : ℕ) → calloc_gives n ≡ true) where
  alloc_buffer-some :
      (n : ℕ) → n + 1 < 2 ^ 64 → alloc_buffer calloc_gives n ≡ some (replicate (n + 1) 0)
  unfolding alloc_buffer
  alloc_buffer-some n h =
      let sum : (n + 1) % 2 ^ 64 ≡ n + 1 = mod-eq_of_lt h in rw (sum, memory (n + 1)) refl

  pub clone_to_chunk-take :
      (ch : Buffer) (src : List ℕ) (n : ℕ)
      → n + 1 < 2 ^ 64
      → n ≤ length src
      → clone_to_chunk calloc_gives ch (some src) n ≡ some (full_buffer (take n src))
  unfolding clone_to_chunk clone_to_buffer
  clone_to_chunk-take ch src n h reads =
      let sized : n ≡ length (take n src) = omega (arith, length-take n src) in
      rw (alloc_buffer-some n h, copy_to_fresh n src reads)
        (ap (λ k. some (record { len = k; total = k; free = 0; ptr = some (take n src ++ 0 ∷ []) }))
          sized)

  clone_nothing : (ch : Buffer) → clone_to_chunk calloc_gives ch none 0 ≡ some (full_buffer [])
  unfolding clone_to_chunk clone_to_buffer
  clone_nothing ch = rw (alloc_buffer-some 0 (omega arith)) refl

  -- cat_to_buffer on a new buffer that the bytes fill.
  pub cat_to_buffer-init_buffer_ptr :
      (bytes : List ℕ)
      → length bytes + 1 < 2 ^ 64
      → cat_to_buffer calloc_gives
          (init_buffer_ptr calloc_gives (length bytes))
          bytes
          (init_buffer_ptr calloc_gives (length bytes)).free
        ≡ some (ok, full_buffer bytes)
  unfolding cat_to_buffer init_buffer_ptr
  cat_to_buffer-init_buffer_ptr bytes h =
      let n = length bytes in
      let enough : ltb n n ≡ false = ground arith in
      let sum : (0 + n) % 2 ^ 64 ≡ n = omega arith in
      let spent : n - n ≡ 0 = omega arith in
      rw (enough, alloc_buffer-some n h, copy_to_fresh n bytes (omega arith), sum, spent)
        (ap (λ t. some (ok, record { len = n; total = n; free = 0; ptr = some (t ++ 0 ∷ []) }))
          (take-length bytes))

  -- A copy of a buffer that has its bytes.
  pub clone_to_chunk-contents :
      (ch b : Buffer)
      → b.len ≤ length (bytes_at b.ptr)
      → b.len + 1 < 2 ^ 64
      → clone_to_chunk calloc_gives ch b.ptr b.len ≡ some (full_buffer (contents b))
  clone_to_chunk-contents ch b held h = of_ptr b.ptr b.len held h
    where
      of_ptr :
          (p : Option (List ℕ)) (n : ℕ)
          → n ≤ length (bytes_at p)
          → n + 1 < 2 ^ 64
          → clone_to_chunk calloc_gives ch p n ≡ some (full_buffer (take n (bytes_at p)))
      of_ptr (some bytes) n held h = clone_to_chunk-take ch bytes n h held
      of_ptr none zero held h = clone_nothing ch
      of_ptr none (suc n) held h = absurd (omega arith)
