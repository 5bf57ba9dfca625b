-- ===== src/Santilizer/Strings/Place.antt =====
-- Strings of src/ld_santilizer.c at a place of which only the bits modulo 8 are kept.
use liteldacssdk.Prelude.{
  ℕ, zero, suc, ◌+◌, ◌*◌, ◌%◌, ◌^◌, ◌≡◌, refl, sym, ap, ◌∙◌, some, List, [], ◌∷◌, arith, take,
  ◌>>=◌, bind_ext, bind_assoc,
}
use liteldacssdk.Santilizer.{append_bits, detach_bits}
use liteldacssdk.Santilizer.DetachEnds.{some_injective, bind_some, detach_bits_ends}
use liteldacssdk.Santilizer.Fields.{bits_left}
use liteldacssdk.Santilizer.Strings.{append_str, detach_str}

bits_left_same : (size b p : ℕ) → b % 8 ≡ p % 8 → bits_left size b ≡ bits_left size p
bits_left_same size b p e = ap (λ k. size + k) e

pub append_str_same :
    (cur b p : ℕ) (src : List ℕ) (size : ℕ) (stream : List ℕ)
    → b % 8 ≡ p % 8
    → append_str cur b src size stream
      ≡ (append_str cur p src size stream >>= λ (c, _, after). some (c, b + 8 * size, after))
unfolding append_str
append_str_same cur b p src zero stream e =
    let stays : b ≡ b + 0 = omega arith in ap (λ k. some (cur, k, stream)) stays
append_str_same cur b p [] (suc size) stream e = refl
append_str_same cur b p (n ∷ src) (suc size) stream e =
    let ends : b + 8 + 8 * size ≡ b + 8 * suc size = omega arith in
    ap (λ l. append_bits l n cur stream >>= λ (c, s). append_str c (b + 8) src size s)
      (bits_left_same 8 b p e)
    ∙ bind_ext (append_bits (bits_left 8 p) n cur stream) (λ (c, s).
      append_str_same c (b + 8) (p + 8) src size s (omega arith)
      ∙ ap (λ k. append_str c (p + 8) src size s >>= λ (c', _, after). some (c', k, after)) ends)
    ∙ sym (
        bind_assoc (append_bits (bits_left 8 p) n cur stream)
          (λ (c, s). append_str c (p + 8) src size s)
          (λ (c, _, after). some (c, b + 8 * suc size, after)))

-- Only the first bytes of the source are read.
pub append_str-take :
    (cur b : ℕ) (src : List ℕ) (size : ℕ) (stream : List ℕ)
    → append_str cur b src size stream ≡ append_str cur b (take size src) size stream
unfolding append_str
append_str-take cur b src zero stream = refl
append_str-take cur b [] (suc size) stream = refl
append_str-take cur b (n ∷ src) (suc size) stream =
    bind_ext (append_bits (bits_left 8 b) n cur stream)
      (λ (c, s). append_str-take c (b + 8) src size s)

pub detach_str_same :
    (cur b p size : ℕ) (stream : List ℕ)
    → b % 8 ≡ p % 8
    → detach_str cur b size stream ≡ detach_str cur p size stream
unfolding detach_str
detach_str_same cur b p zero stream e = refl
detach_str_same cur b p (suc size) stream e =
    ap
      (λ k. detach_bits (8 + k) 0 cur stream k >>= λ (n, c).
        detach_str c (b + 8) size stream >>= λ (end, dst). some (end, n % 2 ^ 8 ∷ dst))
      e
    ∙ bind_ext (detach_bits (bits_left 8 p) 0 cur stream (p % 8)) (λ (n, c).
      ap (λ r. r >>= λ (end, dst). some (end, n % 2 ^ 8 ∷ dst))
        (detach_str_same c (b + 8) (p + 8) size stream (omega arith)))

-- A string ends where its length says, whatever it has.
pub detach_str-ends :
    (cur b size : ℕ) (stream : List ℕ) {c : ℕ} {dst : List ℕ}
    → detach_str cur b size stream ≡ some (c, dst)
    → c ≡ cur + size
unfolding detach_str
detach_str-ends cur b zero stream e =
    let ends = ap (λ r. r.0) (some_injective e) in omega (arith, ends)
detach_str-ends cur b (suc size) stream e =
    let ((n, next), one, e₁) =
      bind_some (detach_bits (bits_left 8 b) 0 cur stream (b % 8))
        (λ (n, next).
          detach_str next (b + 8) size stream >>= λ (end, dst). some (end, n % 2 ^ 8 ∷ dst))
        e in
    let ((end, dst), rest, e₂) =
      bind_some (detach_str next (b + 8) size stream) (λ (end, dst). some (end, n % 2 ^ 8 ∷ dst))
        e₁ in
    let moved = detach_bits_ends (bits_left 8 b) 0 cur stream (b % 8) one in
    let later = detach_str-ends next (b + 8) size stream rest in
    let ends = ap (λ r. r.0) (some_injective e₂) in omega (arith, moved, later, ends)
