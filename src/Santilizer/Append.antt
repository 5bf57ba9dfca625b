-- ===== src/Santilizer/Append.antt =====
-- append_bits of src/ld_santilizer.c, by the bits of the stream.
use liteldacssdk.Prelude.{
  ℕ, zero, suc, ◌+◌, ◌-◌, ◌*◌, ◌/◌, ◌%◌, ◌^◌, ◌≤◌, ◌<◌, max, bit_or, ◌≡◌, refl, sym, ap, ap₂, ◌∙◌,
  ◌≢◌, inl, inr, true, false, Option, some, List, arith, length, set, get_or, length-set,
  get_or-set, get_elem?-eq-get_or, ltb, leb, ◌==◌, Bool-cases,
}
use liteldacssdk.Santilizer.{or_into, append_round, append_bits}
use liteldacssdk.Santilizer.Bits.{bit, bit-or, bit-div, bit-mul, bit-mul_low, bit-mod_low}

-- Bit `q` of a stream, counted from the highest bit of the first byte.
abbrev pub bit_at : List ℕ → ℕ → ℕ
bit_at stream q = bit (7 - q % 8) (get_or stream (q / 8) 0)

-- The `bits` were put into byte `cur`.
record ByteChanged (cur bits : ℕ) (stream : List ℕ) : Type 0 where
  after : List ℕ
  runs : or_into cur bits stream ≡ some after
  sized : length after ≡ length stream
  here : (q : ℕ) → q / 8 ≡ cur → bit_at after q ≡ max (bit_at stream q) (bit (7 - q % 8) bits)
  elsewhere : (q : ℕ) → q / 8 ≢ cur → bit_at after q ≡ bit_at stream q

at_self :
    (cur v : ℕ) (stream : List ℕ)
    → cur < length stream
    → (q : ℕ) → q / 8 ≡ cur
    → bit_at (set stream cur v) q ≡ bit (7 - q % 8) v
at_self cur v stream h q e =
    let got : get_or (set stream cur v) cur 0 ≡ v =
      ground (arith, get_or-set stream cur cur v 0 h) in
    ap (λ j. bit (7 - q % 8) (get_or (set stream cur v) j 0)) e ∙ ap (bit (7 - q % 8)) got

pub at_other :
    (cur v : ℕ) (stream : List ℕ)
    → cur < length stream
    → (q : ℕ) → q / 8 ≢ cur
    → bit_at (set stream cur v) q ≡ bit_at stream q
at_other cur v stream h q ne =
    let got : get_or (set stream cur v) (q / 8) 0 ≡ get_or stream (q / 8) 0 =
      ground (arith, get_or-set stream cur (q / 8) v 0 h, ne) in
    ap (bit (7 - q % 8)) got

or_into-ByteChanged :
    (cur bits : ℕ) (stream : List ℕ) → cur < length stream → ByteChanged cur bits stream
or_into-ByteChanged cur bits stream h = record {
  after = set stream cur (bit_or (get_or stream cur 0) bits);
  runs = rw (get_elem?-eq-get_or stream cur 0 h) refl;
  sized = length-set stream cur _;
  here = λ q e.
      at_self cur (bit_or (get_or stream cur 0) bits) stream h q e
      ∙ bit-or (7 - q % 8) (get_or stream cur 0) bits
      ∙ ap (λ j. max (bit (7 - q % 8) (get_or stream j 0)) (bit (7 - q % 8) bits)) (sym e);
  elsewhere = λ q ne. at_other cur (bit_or (get_or stream cur 0) bits) stream h q ne;
}

-- The lowest `left` bits of `n` were put into the stream from byte `cur` on, and nothing else.
pub record Appended (left n cur : ℕ) (stream : List ℕ) (o : Option (ℕ × List ℕ)) : Type 0 where
  pub after : List ℕ
  pub runs : o ≡ some (cur + left / 8, after)
  pub sized : length after ≡ length stream
  pub inside :
      (q : ℕ)
      → 8 * cur ≤ q
      → q < 8 * cur + left
      → bit_at after q ≡ max (bit_at stream q) (bit (8 * cur + left - 1 - q) n)
  pub before : (q : ℕ) → q < 8 * cur → bit_at after q ≡ bit_at stream q
  pub behind : (q : ℕ) → 8 * cur + left ≤ q → bit_at after q ≡ bit_at stream q

-- What a whole byte of a number, and its last bits, have at a place.
whole_bit :
    (left n q cur : ℕ)
    → 8 ≤ left
    → q / 8 ≡ cur
    → bit (7 - q % 8) (n / 2 ^ (left - 8) % 2 ^ 8) ≡ bit (8 * cur + left - 1 - q) n
whole_bit left n q cur h e =
    let place : 7 - q % 8 + (left - 8) ≡ 8 * cur + left - 1 - q = omega arith in
    bit-mod_low 8 (7 - q % 8) (n / 2 ^ (left - 8)) (omega arith)
    ∙ bit-div (left - 8) (7 - q % 8) n
    ∙ ap (λ k. bit k n) place

last_bit :
    (left n q cur : ℕ)
    → left < 8
    → q / 8 ≡ cur
    → q < 8 * cur + left
    → bit (7 - q % 8) (n * 2 ^ (8 - left) % 2 ^ 8) ≡ bit (8 * cur + left - 1 - q) n
last_bit left n q cur h e inside =
    let place : 7 - q % 8 ≡ 8 * cur + left - 1 - q + (8 - left) = omega arith in
    bit-mod_low 8 (7 - q % 8) (n * 2 ^ (8 - left)) (omega arith)
    ∙ ap (λ k. bit k (n * 2 ^ (8 - left))) place
    ∙ bit-mul (8 - left) (8 * cur + left - 1 - q) n

past_bit :
    (left n q cur : ℕ)
    → left < 8
    → q / 8 ≡ cur
    → 8 * cur + left ≤ q
    → bit (7 - q % 8) (n * 2 ^ (8 - left) % 2 ^ 8) ≡ 0
past_bit left n q cur h e out =
    bit-mod_low 8 (7 - q % 8) (n * 2 ^ (8 - left)) (omega arith)
    ∙ bit-mul_low (8 - left) (7 - q % 8) n (omega arith)

append_round_none :
    (rounds n cur : ℕ) (stream : List ℕ) → append_round rounds 0 n cur stream ≡ some (cur, stream)
unfolding append_round
append_round_none zero n cur stream = refl
append_round_none (suc rounds) n cur stream = refl

-- A whole byte, then the rest.
whole_step :
    (rounds left n cur : ℕ) (stream : List ℕ)
    → 8 ≤ left
    → (o : ByteChanged cur (n / 2 ^ (left - 8) % 2 ^ 8) stream)
    → Appended (left - 8) n (cur + 1) o.after (append_round rounds (left - 8) n (cur + 1) o.after)
    → Appended left n cur stream (append_round (suc rounds) left n cur stream)
unfolding append_round
whole_step rounds left n cur stream full o r =
    let many : (left == 0) ≡ false = ground arith in
    let byte : leb 8 left ≡ true = ground arith in
    let ends : 8 * (cur + 1) + (left - 8) ≡ 8 * cur + left = omega arith in
    let stop : cur + 1 + (left - 8) / 8 ≡ cur + left / 8 = omega arith in
    record {
      after = r.after;
      runs = rw (many, byte, o.runs) (r.runs ∙ ap (λ k. some (k, r.after)) stop);
      sized = r.sized ∙ o.sized;
      inside = λ q lo hi. elim (Bool-cases (ltb q (8 * (cur + 1)))) [
        | inl e ↦
            let first : q < 8 * (cur + 1) = ground arith in
            let byte_of : q / 8 ≡ cur = omega arith in
            r.before q first
            ∙ o.here q byte_of
            ∙ ap (λ k. max (bit_at stream q) k) (whole_bit left n q cur full byte_of)
        | inr e ↦
            let later : 8 * (cur + 1) ≤ q = ground arith in
            let byte_of : q / 8 ≢ cur = λ x. omega arith in
            r.inside q later (omega arith)
            ∙ ap₂ (λ x k. max x (bit (k - 1 - q) n)) (o.elsewhere q byte_of) ends
      ];
      before = λ q lo. r.before q (omega arith) ∙ o.elsewhere q (λ x. omega arith);
      behind = λ q hi. r.behind q (omega arith) ∙ o.elsewhere q (λ x. omega arith);
    }

-- The bits of a byte that is not filled.
last_step :
    (rounds left n cur : ℕ) (stream : List ℕ)
    → 0 < left
    → left < 8
    → ByteChanged cur (n * 2 ^ (8 - left) % 2 ^ 8) stream
    → Appended left n cur stream (append_round (suc rounds) left n cur stream)
unfolding append_round
last_step rounds left n cur stream pos part o =
    let many : (left == 0) ≡ false = ground arith in
    let byte : leb 8 left ≡ false = ground arith in
    let stop : cur ≡ cur + left / 8 = omega arith in
    record {
      after = o.after;
      runs =
          rw (many, byte, o.runs)
            (append_round_none rounds n cur o.after ∙ ap (λ k. some (k, o.after)) stop);
      sized = o.sized;
      inside = λ q lo hi.
          let byte_of : q / 8 ≡ cur = omega arith in
          o.here q byte_of
          ∙ ap (λ k. max (bit_at stream q) k) (last_bit left n q cur part byte_of hi);
      before = λ q lo. o.elsewhere q (λ x. omega arith);
      behind = λ q hi. elim (Bool-cases (q / 8 == cur)) [
        | inl e ↦
            let byte_of : q / 8 ≡ cur = ground arith in
            o.here q byte_of
            ∙ ap (λ k. max (bit_at stream q) k) (past_bit left n q cur part byte_of hi)
            ∙ omega arith
        | inr e ↦ o.elsewhere q (ground arith)
      ];
    }

append_round-Appended :
    (rounds left n cur : ℕ) (stream : List ℕ)
    → left < 8 * rounds
    → 8 * cur + left ≤ 8 * length stream
    → Appended left n cur stream (append_round rounds left n cur stream)
unfolding append_round
append_round-Appended zero left n cur stream h fits = absurd (omega arith)
append_round-Appended (suc rounds) left n cur stream h fits = elim (Bool-cases (left == 0)) [
  | inl e ↦
      let nothing : left ≡ 0 = ground arith in
      let stop : cur ≡ cur + left / 8 = omega arith in
      record {
        after = stream;
        runs = rw e (ap (λ k. some (k, stream)) stop);
        sized = refl;
        inside = λ q lo hi. absurd (omega arith);
        before = λ q lo. refl;
        behind = λ q hi. refl;
      }
  | inr e ↦ elim (Bool-cases (leb 8 left)) [
    | inl f ↦
        let full : 8 ≤ left = ground arith in
        let o = or_into-ByteChanged cur (n / 2 ^ (left - 8) % 2 ^ 8) stream (omega arith) in
        whole_step rounds left n cur stream full o (
          append_round-Appended rounds (left - 8) n (cur + 1) o.after (omega arith)
            (omega (arith, o.sized)))
    | inr f ↦
        last_step rounds left n cur stream (ground arith) (ground arith)
          (or_into-ByteChanged cur (n * 2 ^ (8 - left) % 2 ^ 8) stream (ground arith))
  ]
]

-- append_bits in a stream that has room: every bit of the field is at its place, the highest first,
-- and the other bits of the stream are as they were.
pub append_bits-Appended :
    (left n cur : ℕ) (stream : List ℕ)
    → 8 * cur + left ≤ 8 * length stream
    → Appended left n cur stream (append_bits left n cur stream)
append_bits-Appended left n cur stream fits =
    append_round-Appended (left / 8 + 1) left n cur stream (omega arith) fits
