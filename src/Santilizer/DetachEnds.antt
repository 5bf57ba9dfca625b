-- ===== src/Santilizer/DetachEnds.antt =====
-- Where detach_bits and detach_str of src/ld_santilizer.c end, whatever the stream has.
use liteldacssdk.Prelude.{
  ℕ, zero, suc, ◌+◌, ◌-◌, ◌/◌, ◌^◌, ◌≤◌, ◌<◌, bit_or, ◌≡◌, refl, sym, ap, ◌∙◌, inl, inr, Option,
  none, some, List, arith, get_elem?, leb, ◌==◌, leb→le, ==_iff, Bool-cases, ◌>>=◌,
}
use liteldacssdk.Santilizer.{shift_int, specific, detach_round, detach_bits}

pub some_injective : {A : Type 0} {x y : A} → some x ≡ some y → x ≡ y
some_injective {x = x} e = ap (λ o. elim o [ none ↦ x | some a ↦ a ]) e

-- A bind that gives something has something to give it from.
pub bind_some :
    {A B : Type 0} (o : Option A) (f : A → Option B) {y : B}
    → (o >>= f) ≡ some y
    → (x : A) × (o ≡ some x) × (f x ≡ some y)
bind_some none f e = absurd (cc)
bind_some (some x) f e = (x, refl, e)

last_ends :
    (rounds n cur : ℕ) (stream : List ℕ) {v c : ℕ}
    → detach_round rounds 0 n cur stream 0 ≡ some (v, c)
    → c ≡ cur
unfolding detach_round
last_ends zero n cur stream e = sym (ap (λ r. r.1) (some_injective e))
last_ends (suc rounds) n cur stream e = sym (ap (λ r. r.1) (some_injective e))

detach_round_ends :
    (rounds left n cur : ℕ) (stream : List ℕ) (pre : ℕ) {v c : ℕ}
    → left / 8 < rounds
    → detach_round rounds left n cur stream pre ≡ some (v, c)
    → c ≡ cur + left / 8
unfolding detach_round
detach_round_ends zero left n cur stream pre h e = absurd (omega arith)
detach_round_ends (suc rounds) left n cur stream pre {v = v} {c = c} h e =
    elim (Bool-cases (left == 0)) [
      | inl none_left ↦
          let stop : detach_round (suc rounds) left n cur stream pre ≡ some (n, cur) =
            rw none_left refl in
          let ends : cur ≡ c = ap (λ r. r.1) (some_injective (sym stop ∙ e)) in
          omega (arith, ends, (==_iff left 0).0 none_left)
      | inr more ↦ elim (Bool-cases (leb 8 left)) [
        | inl whole ↦
            let go : detach_round (suc rounds) left n cur stream pre ≡ (
                get_elem? stream cur >>= λ b. shift_int (specific b pre) (left - 8) >>= λ bits.
                detach_round rounds (left - 8) (bit_or n bits) (cur + 1) stream 0) =
              rw (more, whole) refl in
            let (b, at, e₁) =
              bind_some (get_elem? stream cur)
                (λ b. shift_int (specific b pre) (left - 8) >>= λ bits.
                  detach_round rounds (left - 8) (bit_or n bits) (cur + 1) stream 0)
                (sym go ∙ e) in
            let (bits, fits, e₂) =
              bind_some (shift_int (specific b pre) (left - 8))
                (λ bits. detach_round rounds (left - 8) (bit_or n bits) (cur + 1) stream 0) e₁ in
            let later =
              detach_round_ends rounds (left - 8) (bit_or n bits) (cur + 1) stream 0 (ground arith)
                e₂ in
            let eight : 8 ≤ left = leb→le 8 left whole in omega (arith, later, eight)
        | inr part ↦
            let go : detach_round (suc rounds) left n cur stream pre ≡ (
                get_elem? stream cur >>= λ b.
                detach_round rounds 0 (bit_or n (specific b pre / 2 ^ (8 - left))) cur stream 0) =
              rw (more, part) refl in
            let (b, at, e₁) =
              bind_some (get_elem? stream cur)
                (λ b.
                  detach_round rounds 0 (bit_or n (specific b pre / 2 ^ (8 - left))) cur stream 0)
                (sym go ∙ e) in
            let short : left < 8 = ground arith in
            let later =
              last_ends rounds (bit_or n (specific b pre / 2 ^ (8 - left))) cur stream e₁ in
            omega (arith, later, short)
      ]
    ]

pub detach_bits_ends :
    (left n cur : ℕ) (stream : List ℕ) (pre : ℕ) {v c : ℕ}
    → detach_bits left n cur stream pre ≡ some (v, c)
    → c ≡ cur + left / 8
detach_bits_ends left n cur stream pre e =
    detach_round_ends (left / 8 + 1) left n cur stream pre (omega arith) e
