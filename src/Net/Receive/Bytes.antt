-- ===== src/Net/Receive/Bytes.antt =====
-- Byte runs of src/ld_net.c: a length survives the wire, and what is left of a buffer when its front
-- is removed.
use liteldacssdk.Prelude.{
  ℕ, zero, suc, ◌-◌, ◌^◌, ◌≤◌, ◌<◌, ◌≡◌, refl, sym, ap, ◌∙◌, inl, inr, Option, none, some, List, [],
  ◌∷◌, ◌++◌, arith, length, take, drop, length-append, length-take, length-drop, leb, ◌==◌,
  Bool-cases,
}
use liteldacssdk.Buffer.{Buffer, bytes_at}
use liteldacssdk.Buffer.Copy.{contents, IsValid}
use liteldacssdk.Net.{to_network, from_network}
use liteldacssdk.Net.Receive.{remove_from_buffer_front, move_front}

pub from_network-to_network :
    (n : ℕ) (rest : List ℕ) → n < 2 ^ 32 → from_network (to_network n ++ rest) ≡ some n
from_network-to_network n rest h = ap some (omega arith)

-- The first four bytes are those of any longer part.
pub from_network-take :
    (k : ℕ) (xs : List ℕ) {n : ℕ} → from_network (take k xs) ≡ some n → from_network xs ≡ some n
from_network-take zero xs e = cc
from_network-take (suc k) [] e = cc
from_network-take (suc zero) (a ∷ xs) e = cc
from_network-take (suc (suc k)) (a ∷ []) e = cc
from_network-take (suc (suc zero)) (a ∷ b ∷ xs) e = cc
from_network-take (suc (suc (suc k))) (a ∷ b ∷ []) e = cc
from_network-take (suc (suc (suc zero))) (a ∷ b ∷ c ∷ xs) e = cc
from_network-take (suc (suc (suc (suc k)))) (a ∷ b ∷ c ∷ []) e = cc
from_network-take (suc (suc (suc (suc k)))) (a ∷ b ∷ c ∷ d ∷ xs) e = e

-- Two ways to cut one run.
pub append_split :
    (xs ys cs ds : List ℕ)
    → xs ++ ys ≡ cs ++ ds
    → length cs ≤ length xs
    → (xs ≡ cs ++ drop (length cs) xs) × (drop (length cs) xs ++ ys ≡ ds)
append_split xs ys [] ds e h = (refl, e)
append_split [] ys (c ∷ cs) ds e h = absurd (omega arith)
append_split (x ∷ xs) ys (c ∷ cs) ds e h =
    let (p, q) = append_split xs ys cs ds (cc) (omega arith) in (cc, q)

pub take-append_self : (xs ys : List ℕ) → take (length xs) (xs ++ ys) ≡ xs
take-append_self [] ys = refl
take-append_self (x ∷ xs) ys = ap (λ t. x ∷ t) (take-append_self xs ys)

pub take-take : (i j : ℕ) (xs : List ℕ) → i ≤ j → take i (take j xs) ≡ take i xs
take-take zero j xs h = refl
take-take (suc i) zero xs h = absurd (omega arith)
take-take (suc i) (suc j) [] h = refl
take-take (suc i) (suc j) (x ∷ xs) h = ap (λ t. x ∷ t) (take-take i j xs (omega arith))

take-nil : (n : ℕ) → take {A = ℕ} n [] ≡ []
take-nil zero = refl
take-nil (suc n) = refl

pub drop-take : (i j : ℕ) (xs : List ℕ) → drop i (take j xs) ≡ take (j - i) (drop i xs)
drop-take zero j xs = ap (λ k. take k xs) (omega arith)
drop-take (suc i) zero xs =
    let none_left : 0 ≡ 0 - suc i = omega arith in ap (λ k. take k (drop (suc i) xs)) none_left
drop-take (suc i) (suc j) [] = sym (take-nil (suc j - suc i))
drop-take (suc i) (suc j) (x ∷ xs) = drop-take i j xs ∙ ap (λ k. take k (drop i xs)) (omega arith)

pub length-contents : {buf : Buffer} → IsValid buf → length (contents buf) ≡ buf.len
length-contents {buf} v = omega (arith, v.used, v.block, length-take buf.len (bytes_at buf.ptr))

-- Removing the front of a valid buffer.
pub record Removed (buf : Buffer) (count : ℕ) (r : Buffer) : Type 0 where
  pub valid : IsValid r
  pub shorter : r.len ≡ buf.len - count
  pub rest : contents r ≡ drop count (contents buf)

pub drop-all : (n : ℕ) (xs : List ℕ) → length xs ≤ n → drop n xs ≡ []
drop-all zero [] h = refl
drop-all zero (x ∷ xs) h = absurd (omega arith)
drop-all (suc n) [] h = refl
drop-all (suc n) (x ∷ xs) h = drop-all n xs (omega arith)

move_front-length :
    (len count : ℕ) (p : Option (List ℕ))
    → count < len
    → len ≤ length (bytes_at p)
    → length (bytes_at (move_front len count p)) ≡ length (bytes_at p)
move_front-length len count none h l = refl
move_front-length len count (some bytes) h l = omega (
  arith,
  length-append (take (len - count) (drop count bytes)) (drop (len - count) bytes),
  length-take (len - count) (drop count bytes),
  length-drop count bytes,
  length-drop (len - count) bytes,
)

move_front-take :
    (len count : ℕ) (p : Option (List ℕ))
    → count < len
    → len ≤ length (bytes_at p)
    → take (len - count) (bytes_at (move_front len count p)) ≡ drop count (take len (bytes_at p))
move_front-take len count none h l = absurd (omega arith)
move_front-take len count (some bytes) h l =
    let n : length (take (len - count) (drop count bytes)) ≡ len - count =
      omega (arith, length-take (len - count) (drop count bytes), length-drop count bytes) in
    let front =
      take-append_self (take (len - count) (drop count bytes)) (drop (len - count) bytes) in
    ap (λ k. take k (bytes_at (move_front len count (some bytes)))) (sym n)
    ∙ front
    ∙ sym (drop-take count len bytes)

pub remove_from_buffer_front-Removed :
    (buf : Buffer) (count : ℕ)
    → IsValid buf
    → Removed buf count (remove_from_buffer_front buf count)
unfolding remove_from_buffer_front
remove_from_buffer_front-Removed buf count v = elim (Bool-cases (count == 0)) [
  | inl e ↦
      let z : count ≡ 0 = ground arith in
      rw e (record {
        valid = v;
        shorter = omega arith;
        rest = ap (λ k. drop k (contents buf)) (sym z);
      })
  | inr e ↦ elim (Bool-cases (leb buf.len count)) [
    | inl f ↦
        let le : buf.len ≤ count = ground arith in
        rw (e, f)
          (record {
            valid = record { used = omega (arith, v.used); block = v.block; small = v.small };
            shorter = omega arith;
            rest = sym (drop-all count (contents buf) (omega (arith, length-contents v)));
          })
    | inr f ↦
        let lt : count < buf.len = ground arith in
        let fits : buf.len ≤ length (bytes_at buf.ptr) = omega (arith, v.used, v.block) in
        let same_size = move_front-length buf.len count buf.ptr lt fits in
        rw (e, f)
          (record {
            valid = record {
              used = omega (arith, v.used);
              block = omega (arith, v.block, same_size);
              small = omega (arith, v.small, same_size);
            };
            shorter = refl;
            rest = move_front-take buf.len count buf.ptr lt fits;
          })
  ]
]
