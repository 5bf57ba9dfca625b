-- ===== src/Santilizer/Packet/Sendable.antt =====
-- Members that out_struct of src/ld_santilizer.c can send, what a stream carries of them, and what a
-- reader gets. A place is counted in bits.
use liteldacssdk.Prelude.{
  ℕ, ◌+◌, ◌-◌, ◌*◌, ◌/◌, ◌^◌, ◌≤◌, ◌<◌, ◌≡◌, ◌∙◌, Bool, true, false, some, List, [], ◌∷◌, arith,
  length, length-take, AreBytes,
}
use liteldacssdk.Buffer.{Buffer, bytes_at}
use liteldacssdk.Buffer.Copy.{contents}
use liteldacssdk.Santilizer.Append.{bit_at}
use liteldacssdk.Santilizer.Fields.{FieldType, ft_plen, ft_slen, FieldDesc, written, accepts_out}
use liteldacssdk.Santilizer.Fields.Carry.{CarriesAt}
use liteldacssdk.Santilizer.Strings.RoundTrip.{CarriesBytes, carries_none, carries_next}
use liteldacssdk.Santilizer.Packet.{Field, number, ft_fl_str, ft_pad, Member, unset, value, text}
use liteldacssdk.Buffer.Fresh.{full_buffer}

abbrev pub is_length : FieldType → Bool
is_length ft_plen = true
is_length ft_slen = true
is_length _ = false

-- The next place that is a multiple of 8.
abbrev pub octet : ℕ → ℕ
octet p = (p + 7) / 8 * 8

-- Numbers of 1 to 31 bits that fit them and are no lengths, with names for what an enumeration has;
-- strings as long as their fields, of 8192 bytes at most; and paddings; from the place `p` to `e`.
pub data AreSendable {A : Type 0} (now : ℕ) : List (Field A) → List Member → ℕ → ℕ → Type 0 where
  no_fields : {p : ℕ} → AreSendable now [] [] p p
  next_number :
      {fp : FieldDesc A} {v p e : ℕ} {fields : List (Field A)} {members : List Member}
      → is_length fp.field_type ≡ false
      → 0 < fp.size
      → fp.size ≤ 31
      → written fp now v < 2 ^ fp.size
      → accepts_out fp (written fp now v) ≡ true
      → AreSendable now fields members (p + fp.size) e
      → AreSendable now (number fp ∷ fields) (value v ∷ members) p e
  next_text :
      {size p e : ℕ} {b : Buffer} {fields : List (Field A)} {members : List Member}
      → size ≤ 8 * b.len
      → b.len ≤ 8192
      → b.len ≤ length (bytes_at b.ptr)
      → AreBytes (contents b)
      → AreSendable now fields members (p + 8 * b.len) e
      → AreSendable now (ft_fl_str size b.len ∷ fields) (text (some b) ∷ members) p e
  next_pad :
      {p e : ℕ} {m : Member} {fields : List (Field A)} {members : List Member}
      → AreSendable now fields members (octet p) e
      → AreSendable now (ft_pad 0 ∷ fields) (m ∷ members) p e

module _ {A : Type 0} (now : ℕ) where
  pub AreSendable-le :
      {fields : List (Field A)} {members : List Member} {p e : ℕ}
      → AreSendable now fields members p e
      → p ≤ e
  AreSendable-le no_fields = omega arith
  AreSendable-le (next_number l pos narrow small fine a) = omega (arith, AreSendable-le a)
  AreSendable-le (next_text size short block bytes a) = omega (arith, AreSendable-le a)
  AreSendable-le (next_pad a) = omega (arith, AreSendable-le a)

  -- The stream has the fields from `p` on.
  abbrev pub Carries : List ℕ → List (Field A) → List Member → ℕ → Type 0
  Carries stream (number fp ∷ fields) (value v ∷ members) p =
      CarriesAt stream p fp.size (written fp now v) × Carries stream fields members (p + fp.size)
  Carries stream (ft_fl_str size desc ∷ fields) (text (some b) ∷ members) p =
      CarriesBytes stream p (contents b) × Carries stream fields members (p + 8 * b.len)
  Carries stream (ft_pad size ∷ fields) (m ∷ members) p = Carries stream fields members (octet p)
  Carries stream _ _ p = Unit {0}

  -- What is read of them.
  abbrev pub read_back : List (Field A) → List Member → List Member
  read_back (number fp ∷ fields) (value v ∷ members) =
      value (written fp now v) ∷ read_back fields members
  read_back (ft_fl_str size desc ∷ fields) (text (some b) ∷ members) =
      text (some (full_buffer (contents b))) ∷ read_back fields members
  read_back (ft_pad size ∷ fields) (m ∷ members) = unset ∷ read_back fields members
  read_back _ _ = []

pub CarriesAt-same :
    (size n p : ℕ) (s s' : List ℕ)
    → ((q : ℕ) → p ≤ q → q < p + size → bit_at s' q ≡ bit_at s q)
    → CarriesAt s p size n
    → CarriesAt s' p size n
CarriesAt-same size n p s s' h c = λ k l. h (p + size - 1 - k) (omega arith) (omega arith) ∙ c k l

pub CarriesBytes-same :
    (bytes : List ℕ) (p : ℕ) (s s' : List ℕ)
    → ((q : ℕ) → p ≤ q → q < p + 8 * length bytes → bit_at s' q ≡ bit_at s q)
    → CarriesBytes s p bytes
    → CarriesBytes s' p bytes
CarriesBytes-same [] p s s' h c = carries_none
CarriesBytes-same (b ∷ bytes) p s s' h (carries_next c rest) =
    carries_next (CarriesAt-same 8 b p s s' (λ q l m. h q l (omega arith)) c)
      (CarriesBytes-same bytes (p + 8) s s' (λ q l m. h q (omega arith) (omega arith)) rest)

pub length-contents : (b : Buffer) → b.len ≤ length (bytes_at b.ptr) → length (contents b) ≡ b.len
length-contents b h = omega (arith, length-take b.len (bytes_at b.ptr))

-- A stream with the same bits there.
pub Carries-same :
    {A : Type 0} (now : ℕ) {fields : List (Field A)} {members : List Member} {p e : ℕ}
    (s s' : List ℕ)
    → AreSendable now fields members p e
    → ((q : ℕ) → p ≤ q → q < e → bit_at s' q ≡ bit_at s q)
    → Carries now s fields members p
    → Carries now s' fields members p
Carries-same now s s' no_fields h c = c
Carries-same now {p = p} s s' (next_number {fp = fp} {v = v} l pos narrow small fine a) h
      (c, rest) =
    (
      CarriesAt-same fp.size (written fp now v) p s s'
          (λ q m n. h q m (omega (arith, AreSendable-le now a))) c,
      Carries-same now s s' a (λ q m n. h q (omega arith) n) rest,
    )
Carries-same now {p = p} s s' (next_text {b = b} size short block bytes a) h (c, rest) = (
  CarriesBytes-same (contents b) p s s'
      (λ q m n. h q m (omega (arith, AreSendable-le now a, length-contents b block))) c,
  Carries-same now s s' a (λ q m n. h q (omega arith) n) rest,
)
Carries-same now s s' (next_pad a) h c = Carries-same now s s' a (λ q m n. h q (omega arith) n) c
