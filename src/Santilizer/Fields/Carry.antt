-- ===== src/Santilizer/Fields/Carry.antt =====
-- A stream of src/ld_santilizer.c that carries numbers, each at its place.
use liteldacssdk.Prelude.{
  ℕ, ◌+◌, ◌-◌, ◌*◌, ◌/◌, ◌%◌, ◌^◌, ◌≤◌, ◌<◌, max, ◌≡◌, sym, ap, ap₂, ◌∙◌, inl, inr, some, List,
  arith, length, ltb, Bool-cases,
}
use liteldacssdk.Santilizer.{append_bits, detach_bits}
use liteldacssdk.Santilizer.Bits.{bit, bit_small, bit_zero, bit_ext, two_mono}
use liteldacssdk.Santilizer.Append.{bit_at, append_bits-Appended}
use liteldacssdk.Santilizer.DetachLoop.{detach_bits-Detached}
use liteldacssdk.Santilizer.Fields.{bits_left}

-- The bits of `n` stand at the `size` places from `p` on.
abbrev pub CarriesAt : List ℕ → ℕ → ℕ → ℕ → Type 0
CarriesAt stream p size n = (k : ℕ) → k < size → bit_at stream (p + size - 1 - k) ≡ bit k n

-- No bit is set from `p` on.
abbrev pub IsBlank : List ℕ → ℕ → Type 0
IsBlank stream p = (q : ℕ) → p ≤ q → bit_at stream q ≡ 0

-- A number put into a blank rest.
pub record Put (size n p : ℕ) (stream : List ℕ) : Type 0 where
  pub after : List ℕ
  pub runs : append_bits (bits_left size p) n (p / 8) stream ≡ some ((p + size) / 8, after)
  pub sized : length after ≡ length stream
  pub carries : CarriesAt after p size n
  pub kept : (q : ℕ) → q < p → bit_at after q ≡ bit_at stream q
  pub blank : IsBlank after (p + size)

pub append_bits-Put :
    (size n p : ℕ) (stream : List ℕ)
    → n < 2 ^ size
    → p + size ≤ 8 * length stream
    → IsBlank stream p
    → Put size n p stream
append_bits-Put size n p stream small room blank =
    let a = append_bits-Appended (bits_left size p) n (p / 8) stream (omega arith) in
    let stop : p / 8 + (size + p % 8) / 8 ≡ (p + size) / 8 = omega arith in
    let ends : 8 * (p / 8) + (size + p % 8) ≡ p + size = omega arith in
    record {
      after = a.after;
      runs = a.runs ∙ ap (λ k. some (k, a.after)) stop;
      sized = a.sized;
      carries = λ k h.
          let place : p + size - 1 - (p + size - 1 - k) ≡ k = omega arith in
          a.inside (p + size - 1 - k) (omega arith) (omega arith)
          ∙ ap₂ (λ x e. max x (bit (e - 1 - (p + size - 1 - k)) n))
              (blank (p + size - 1 - k) (omega arith)) ends
          ∙ ap (λ j. max 0 (bit j n)) place
          ∙ omega arith;
      kept = λ q h. elim (Bool-cases (ltb q (8 * (p / 8)))) [
        | inl e ↦ a.before q (ground arith)
        | inr e ↦
            let byte : 8 * (p / 8) ≤ q = ground arith in
            let above : bit (p + size - 1 - q) n ≡ 0 =
              bit_small (p + size - 1 - q) n
                (omega (arith, two_mono size (p + size - 1 - q) (omega arith))) in
            a.inside q byte (omega arith)
            ∙ ap (λ e. max (bit_at stream q) (bit (e - 1 - q) n)) ends
            ∙ ap (λ x. max (bit_at stream q) x) above
            ∙ omega arith
      ];
      blank = λ q h. a.behind q (omega arith) ∙ blank q (omega arith);
    }

-- A number of at most 31 bits taken out again.
pub detach_bits-CarriesAt :
    (size n p : ℕ) (stream : List ℕ)
    → size ≤ 31
    → n < 2 ^ size
    → p + size ≤ 8 * length stream
    → CarriesAt stream p size n
    → detach_bits (bits_left size p) 0 (p / 8) stream (p % 8) ≡ some (n, (p + size) / 8)
detach_bits-CarriesAt size n p stream narrow small room c =
    let d =
      detach_bits-Detached (bits_left size p) 0 (p / 8) stream (p % 8) (omega arith) (omega arith)
        (omega arith) in
    let stop : p / 8 + (size + p % 8) / 8 ≡ (p + size) / 8 = omega arith in
    let ends : 8 * (p / 8) + (size + p % 8) ≡ p + size = omega arith in
    let same_bits : (k : ℕ) → k < 31 → bit k d.value ≡ bit k n = λ k h.
      elim (Bool-cases (ltb k size)) [
        | inl e ↦
            let mine : k < size = ground arith in
            d.inside k (omega arith) (omega arith)
            ∙ ap₂ (λ x e. max x (bit_at stream (e - 1 - k))) (bit_zero k) ends
            ∙ ap (λ x. max 0 x) (c k mine)
            ∙ omega arith
        | inr e ↦
            let beyond : size ≤ k = ground arith in
            let clear : bit k n ≡ 0 = bit_small k n (omega (arith, two_mono size k beyond)) in
            elim (Bool-cases (ltb k (bits_left size p))) [
              | inl f ↦ d.masked k (ground arith) (ground arith) ∙ bit_zero k ∙ sym clear
              | inr f ↦ d.above k (ground arith) ∙ bit_zero k ∙ sym clear
            ]
      ] in
    let value : d.value ≡ n =
      bit_ext 31 d.value n (d.small (omega arith)) (omega (arith, two_mono size 31 narrow))
        same_bits in
    d.runs ∙ ap₂ (λ v k. some (v, k)) value stop
