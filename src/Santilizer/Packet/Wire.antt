-- ===== src/Santilizer/Packet/Wire.antt =====
-- The length field and the checksum that close_output_pbs of src/ld_santilizer.c fills in, and the
-- bytes that gen_pdu sends.
use liteldacssdk.Prelude.{
  ℕ, zero, suc, ◌+◌, ◌-◌, ◌*◌, ◌/◌, ◌%◌, ◌^◌, ◌≤◌, ◌<◌, max, ◌≡◌, refl, ap, ap₂, ◌∙◌, inl, inr,
  Bool, true, false, none, some, List, [], ◌∷◌, ◌++◌, arith, length, get_elem?, set, get_or, take,
  replicate, length-append, length-set, length-take, get_or-set, get_elem?-eq-get_or, ltb,
  Bool-cases, ◌>>=◌,
}
use liteldacssdk.Buffer.{init_buffer_unptr}
use liteldacssdk.Crc.{cal_crc_8bits}
use liteldacssdk.Santilizer.{append_bits}
use liteldacssdk.Santilizer.Bits.{bit, bit_zero, bit_small, two_mono}
use liteldacssdk.Santilizer.Append.{bit_at, at_other, append_bits-Appended}
use liteldacssdk.Santilizer.Fields.{bits_left}
use liteldacssdk.Santilizer.Fields.Carry.{CarriesAt}
use liteldacssdk.Santilizer.Packet.{Field, Member, init_pbs, lacks_room}
use liteldacssdk.Santilizer.Packet.Out.{
  OutState, fill_length, fill_crc, close_output_pbs, begin_out, out_fields, out_struct, gen_pdu,
}
use liteldacssdk.Buffer.Fresh.{full_buffer, clone_to_chunk-take}

-- The number stands in its field, and the other bits are as they were.
pub record LengthFilled (size n p : ℕ) (stream : List ℕ) : Type 0 where
  pub after : List ℕ
  pub runs : fill_length (some 0) n (some (p / 8, bits_left size p)) stream ≡ some after
  pub sized : length after ≡ length stream
  pub carries : CarriesAt after p size n
  pub before : (q : ℕ) → q < p → bit_at after q ≡ bit_at stream q
  pub behind : (q : ℕ) → p + size ≤ q → bit_at after q ≡ bit_at stream q

pub fill_length-LengthFilled :
    (size n p : ℕ) (stream : List ℕ)
    → n < 2 ^ size
    → p + size ≤ 8 * length stream
    → CarriesAt stream p size 0
    → LengthFilled size n p stream
fill_length-LengthFilled size n p stream small room zeros =
    let a = append_bits-Appended (bits_left size p) n (p / 8) stream (omega arith) in
    let ends : 8 * (p / 8) + (size + p % 8) ≡ p + size = omega arith in
    let whole : n - 0 ≡ n = omega arith in
    record {
      after = a.after;
      runs =
          ap (λ k. append_bits (bits_left size p) k (p / 8) stream >>= λ (next, after). some after)
            whole
          ∙ ap (λ o. o >>= λ (next, after). some after) a.runs;
      sized = a.sized;
      carries = λ k h.
          let place : p + size - 1 - (p + size - 1 - k) ≡ k = omega arith in
          a.inside (p + size - 1 - k) (omega arith) (omega arith)
          ∙ ap₂ (λ x e. max x (bit (e - 1 - (p + size - 1 - k)) n)) (zeros k h ∙ bit_zero k) ends
          ∙ ap (λ j. max 0 (bit j n)) place
          ∙ omega arith;
      before = λ q h. elim (Bool-cases (ltb q (8 * (p / 8)))) [
        | inl e ↦ a.before q (ground arith)
        | inr e ↦
            let byte : 8 * (p / 8) ≤ q = ground arith in
            let above : bit (p + size - 1 - q) n ≡ 0 =
              bit_small (p + size - 1 - q) n
                (omega (arith, two_mono size (p + size - 1 - q) (omega arith))) in
            a.inside q byte (omega arith)
            ∙ ap (λ e. max (bit_at stream q) (bit (e - 1 - q) n)) ends
            ∙ ap (λ x. max (bit_at stream q) x) above
            ∙ omega arith
      ];
      behind = λ q h. a.behind q (omega arith);
    }

-- What a packet of `n` bytes has on the wire, with the checksum at `at`.
abbrev pub on_wire : List ℕ → ℕ → ℕ → List ℕ
on_wire bytes at n = take n (set bytes at (cal_crc_8bits (take at bytes)))

fill_crc-some :
    (at : ℕ) (bytes : List ℕ)
    → at < length bytes
    → fill_crc (some 0) (some (at, 8)) bytes ≡ some (set bytes at (cal_crc_8bits (take at bytes)))
fill_crc-some at bytes h = rw (get_elem?-eq-get_or bytes at 0 h) refl

-- gen_pdu when the fields were written, with no payload's length to fill in.
pub gen_pdu-on_wire :
    {A : Type 0} (calloc_gives : ℕ → Bool) (fields : List (Field A)) (now : ℕ)
    (members : List Member) (s : OutState) (fld : ℕ × ℕ) (bytes : List ℕ) (at : ℕ)
    → ((n : ℕ) → calloc_gives n ≡ true)
    → lacks_room (init_pbs (replicate 4096 0) 4096) fields ≡ false
    → out_fields fields now members (begin_out (init_pbs (replicate 4096 0) 4096)) ≡ some (true, s)
    → s.out.slen_fld ≡ none
    → s.out.plen_fld ≡ some fld
    → s.crc_fld ≡ some (at, 8)
    → fill_length (some 0) s.out.cur (some fld) s.out.stream ≡ some bytes
    → at < length bytes
    → s.out.cur ≤ length bytes
    → length bytes ≡ 4096
    → gen_pdu calloc_gives fields now members ≡ some (full_buffer (on_wire bytes at s.out.cur))
unfolding gen_pdu out_struct close_output_pbs init_pbs
gen_pdu-on_wire calloc_gives fields now members s fld bytes at memory room runs slen plen crc fills
      at_in cur_in sized =
    let final = set bytes at (cal_crc_8bits (take at bytes)) in
    let kept : length final ≡ length bytes = length-set bytes at (cal_crc_8bits (take at bytes)) in
    rw (room, runs, slen, plen, crc, fills, fill_crc-some at bytes at_in)
      (clone_to_chunk-take calloc_gives memory init_buffer_unptr final s.out.cur (omega arith)
        (omega (arith, kept)))

take-set : (xs : List ℕ) (i v : ℕ) → take i (set xs i v) ≡ take i xs
take-set [] zero v = refl
take-set [] (suc i) v = refl
take-set (x ∷ xs) zero v = refl
take-set (x ∷ xs) (suc i) v = ap (λ t. x ∷ t) (take-set xs i v)

take-take-append :
    (i n : ℕ) (xs ys : List ℕ) → i ≤ n → n ≤ length xs → take i (take n xs ++ ys) ≡ take i xs
take-take-append zero n xs ys h l = refl
take-take-append (suc i) zero xs ys h l = absurd (omega arith)
take-take-append (suc i) (suc n) [] ys h l = absurd (omega arith)
take-take-append (suc i) (suc n) (x ∷ xs) ys h l =
    ap (λ t. x ∷ t) (take-take-append i n xs ys (omega arith) (omega arith))

get_or-take-append :
    (i n : ℕ) (xs ys : List ℕ)
    → i < n
    → n ≤ length xs
    → get_or (take n xs ++ ys) i 0 ≡ get_or xs i 0
get_or-take-append i zero xs ys h l = absurd (omega arith)
get_or-take-append i (suc n) [] ys h l = absurd (omega arith)
get_or-take-append zero (suc n) (x ∷ xs) ys h l = refl
get_or-take-append (suc i) (suc n) (x ∷ xs) ys h l =
    get_or-take-append i n xs ys (omega arith) (omega arith)

pub length-on_wire :
    (bytes : List ℕ) (at n : ℕ) → n ≤ length bytes → length (on_wire bytes at n) ≡ n
length-on_wire bytes at n h =
    let final = set bytes at (cal_crc_8bits (take at bytes)) in
    omega (arith, length-take n final, length-set bytes at (cal_crc_8bits (take at bytes)))

-- The block that a receiver has: a byte more, and the same bits before the checksum.
pub length_block :
    (bytes : List ℕ) (at n : ℕ) → n ≤ length bytes → length (on_wire bytes at n ++ 0 ∷ []) ≡ n + 1
length_block bytes at n h =
    omega (arith, length-append (on_wire bytes at n) (0 ∷ []), length-on_wire bytes at n h)

pub bit_at_block :
    (bytes : List ℕ) (at n q : ℕ)
    → at < n
    → n ≤ length bytes
    → q < 8 * at
    → bit_at (on_wire bytes at n ++ 0 ∷ []) q ≡ bit_at bytes q
bit_at_block bytes at n q h l small =
    let v = cal_crc_8bits (take at bytes) in
    let kept : length (set bytes at v) ≡ length bytes = length-set bytes at v in
    ap (bit (7 - q % 8))
      (get_or-take-append (q / 8) n (set bytes at v) (0 ∷ []) (omega arith) (omega (arith, kept)))
    ∙ at_other at v bytes (omega arith) q (λ e. omega arith)

pub take_block :
    (bytes : List ℕ) (at n : ℕ)
    → at < n
    → n ≤ length bytes
    → take at (on_wire bytes at n ++ 0 ∷ []) ≡ take at bytes
take_block bytes at n h l =
    let v = cal_crc_8bits (take at bytes) in
    let kept : length (set bytes at v) ≡ length bytes = length-set bytes at v in
    take-take-append at n (set bytes at v) (0 ∷ []) (omega arith) (omega (arith, kept))
    ∙ take-set bytes at v

pub crc_of_block :
    (bytes : List ℕ) (at n : ℕ)
    → at < n
    → n ≤ length bytes
    → get_elem? (on_wire bytes at n ++ 0 ∷ []) at ≡ some (cal_crc_8bits (take at bytes))
crc_of_block bytes at n h l =
    let v = cal_crc_8bits (take at bytes) in
    let kept : length (set bytes at v) ≡ length bytes = length-set bytes at v in
    let here : get_or (set bytes at v) at 0 ≡ v =
      ground (arith, get_or-set bytes at at v 0 (omega arith)) in
    get_elem?-eq-get_or (on_wire bytes at n ++ 0 ∷ []) at 0
      (omega (arith, length_block bytes at n l))
    ∙ ap some (get_or-take-append at n (set bytes at v) (0 ∷ []) h (omega (arith, kept)) ∙ here)
