-- ===== src/Buffer/Copy.antt =====
-- Well-formed buffers, and what a copy of src/ld_buffer.c writes.
use liteldacssdk.Prelude.{
  ℕ, zero, suc, ◌+◌, ◌^◌, ◌≤◌, ◌<◌, ◌≡◌, refl, sym, ap, ◌∙◌, Option, some, List, [], ◌∷◌, ◌++◌,
  append-nil, arith, length, take, drop, length-append, length-take, length-drop,
}
use liteldacssdk.Buffer.{Buffer, bytes_at, copy_to}

-- What a buffer holds.
abbrev pub contents : Buffer → List ℕ
contents buf = take buf.len (bytes_at buf.ptr)

-- The counts are those of the block, which has one byte more than `total`.
pub record IsValid (buf : Buffer) : Type 0 where
  pub used : buf.len + buf.free ≤ buf.total
  pub block : buf.total ≤ length (bytes_at buf.ptr)
  pub small : length (bytes_at buf.ptr) < 2 ^ 64

take-append_exact : {A : Type 0} (n : ℕ) (xs ys : List A) → length xs ≡ n → take n (xs ++ ys) ≡ xs
take-append_exact zero [] ys e = refl
take-append_exact zero (x ∷ xs) ys e = absurd (omega arith)
take-append_exact (suc n) [] ys e = absurd (omega arith)
take-append_exact (suc n) (x ∷ xs) ys e = ap (λ t. x ∷ t) (take-append_exact n xs ys (omega arith))

length_written :
    (b src : List ℕ) (start n : ℕ)
    → start + n ≤ length b
    → n ≤ length src
    → length (take start b ++ take n src ++ drop (start + n) b) ≡ length b
length_written b src start n fits reads = omega (
  arith,
  length-append (take start b ++ take n src) (drop (start + n) b),
  length-append (take start b) (take n src),
  length-take start b,
  length-take n src,
  length-drop (start + n) b,
)

take_written :
    (b src : List ℕ) (start n : ℕ)
    → start + n ≤ length b
    → n ≤ length src
    → take (start + n) (take start b ++ take n src ++ drop (start + n) b)
      ≡ take start b ++ take n src
take_written b src start n fits reads =
    take-append_exact (start + n) (take start b ++ take n src) (drop (start + n) b) (
      omega
        (arith, length-append (take start b) (take n src), length-take start b, length-take n src))

pub copy_to-some :
    (p : Option (List ℕ)) (start : ℕ) (src : List ℕ) (n : ℕ)
    → start + n ≤ length (bytes_at p)
    → n ≤ length src
    → (p' : Option (List ℕ)) × (copy_to p start src n ≡ some p')
      × (length (bytes_at p') ≡ length (bytes_at p))
      × (take (start + n) (bytes_at p') ≡ take start (bytes_at p) ++ take n src)
copy_to-some p start src zero fits reads =
    let whole : start + 0 ≡ start = omega arith in
    (p, refl, refl, ap (λ k. take k (bytes_at p)) whole ∙ sym (append-nil _))
copy_to-some p start src (suc n) fits reads = (
  some (take start (bytes_at p) ++ take (suc n) src ++ drop (start + suc n) (bytes_at p)),
  ground arith,
  length_written (bytes_at p) src start (suc n) fits reads,
  take_written (bytes_at p) src start (suc n) fits reads,
)

pub copy_to_start :
    (p : Option (List ℕ)) (src : List ℕ) (n : ℕ)
    → n ≤ length (bytes_at p)
    → n ≤ length src
    → (p' : Option (List ℕ)) × (copy_to p 0 src n ≡ some p')
      × (length (bytes_at p') ≡ length (bytes_at p))
      × (take n (bytes_at p') ≡ take n src)
copy_to_start p src n fits reads =
    let whole : n ≡ 0 + n = omega arith in
    let (p', e, l, t) = copy_to-some p 0 src n (omega arith) reads in
    (p', e, l, ap (λ k. take k (bytes_at p')) whole ∙ t)
