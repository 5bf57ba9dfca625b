-- ===== src/Santilizer/Strings/RoundTrip.antt =====
-- Strings and numbers of src/ld_santilizer.c, there and back.
use liteldacssdk.Prelude.{
  ℕ, zero, suc, ◌+◌, ◌-◌, ◌*◌, ◌/◌, ◌%◌, ◌^◌, ◌≤◌, ◌<◌, ◌≡◌, refl, ap, ap₂, ◌∙◌, true, some, List,
  [], ◌∷◌, arith, length, ltb, AreBytes,
}
use native.Mathlib.Nat.{mod-eq_of_lt}
use liteldacssdk.Santilizer.{shift_int}
use liteldacssdk.Santilizer.Append.{bit_at}
use liteldacssdk.Santilizer.Fields.Carry.{
  CarriesAt, IsBlank, append_bits-Put, detach_bits-CarriesAt,
}
use liteldacssdk.Santilizer.Strings.{append_str, detach_str, int2byte, byte2int}

-- A stream that carries bytes.
pub data CarriesBytes (stream : List ℕ) : ℕ → List ℕ → Type 0 where
  carries_none : {p : ℕ} → CarriesBytes stream p []
  carries_next :
      {p b : ℕ} {bytes : List ℕ}
      → CarriesAt stream p 8 b
      → CarriesBytes stream (p + 8) bytes
      → CarriesBytes stream p (b ∷ bytes)

head_carried :
    {stream : List ℕ} {p b : ℕ} {bytes : List ℕ}
    → CarriesBytes stream p (b ∷ bytes)
    → CarriesAt stream p 8 b × CarriesBytes stream (p + 8) bytes
head_carried (carries_next c rest) = (c, rest)

pub record Sent (src : List ℕ) (p : ℕ) (stream : List ℕ) : Type 0 where
  pub after : List ℕ
  pub runs :
      append_str (p / 8) p src (length src) stream
      ≡ some ((p + 8 * length src) / 8, p + 8 * length src, after)
  pub sized : length after ≡ length stream
  pub carries : CarriesBytes after p src
  pub kept : (q : ℕ) → q < p → bit_at after q ≡ bit_at stream q
  pub blank : IsBlank after (p + 8 * length src)

pub append_str-Sent :
    (src : List ℕ) (p : ℕ) (stream : List ℕ)
    → AreBytes src
    → p + 8 * length src ≤ 8 * length stream
    → IsBlank stream p
    → Sent src p stream
unfolding append_str
append_str-Sent [] p stream bytes room blank =
    let stays : p ≡ p + 0 = omega arith in
    record {
      after = stream;
      runs = ap (λ k. some (k / 8, k, stream)) stays;
      sized = refl;
      carries = carries_none;
      kept = λ q h. refl;
      blank = λ q h. blank q (omega arith);
    }
append_str-Sent (b ∷ src) p stream (small, bytes) room blank =
    let put = append_bits-Put 8 b p stream small (omega arith) blank in
    let rest = append_str-Sent src (p + 8) put.after bytes (omega (arith, put.sized)) put.blank in
    let ends : p + 8 + 8 * length src ≡ p + 8 * suc (length src) = omega arith in
    record {
      after = rest.after;
      runs = rw put.runs (rest.runs ∙ ap (λ k. some (k / 8, k, rest.after)) ends);
      sized = rest.sized ∙ put.sized;
      carries =
          carries_next (λ k h. rest.kept (p + 8 - 1 - k) (omega arith) ∙ put.carries k h)
            rest.carries;
      kept = λ q h. rest.kept q (omega arith) ∙ put.kept q h;
      blank = λ q h. rest.blank q (omega arith);
    }

pub detach_str-some :
    (src : List ℕ) (p : ℕ) (stream : List ℕ)
    → AreBytes src
    → p + 8 * length src ≤ 8 * length stream
    → CarriesBytes stream p src
    → detach_str (p / 8) p (length src) stream ≡ some ((p + 8 * length src) / 8, src)
unfolding detach_str
detach_str-some [] p stream bytes room c =
    let stays : p ≡ p + 0 = omega arith in ap (λ k. some (k / 8, [])) stays
detach_str-some (b ∷ src) p stream (small, bytes) room c =
    let (at_p, later) = head_carried c in
    let ends : p + 8 + 8 * length src ≡ p + 8 * suc (length src) = omega arith in
    rw
      (
        detach_bits-CarriesAt 8 b p stream (omega arith) small (omega arith) at_p,
        detach_str-some src (p + 8) stream bytes (omega arith) later,
      )
      (ap₂ (λ k x. some (k / 8, x ∷ src)) ends (mod-eq_of_lt small))

-- Bytes that append_str writes at any bit of a stream that has room and no bit set from there on are
-- the bytes that detach_str reads there, and the stream before them is as it was.
pub detach_str-append_str :
    (src : List ℕ) (p : ℕ) (stream : List ℕ)
    → AreBytes src
    → p + 8 * length src ≤ 8 * length stream
    → ((q : ℕ) → p ≤ q → bit_at stream q ≡ 0)
    → (after : List ℕ) × (append_str (p / 8) p src (length src) stream
        ≡ some ((p + 8 * length src) / 8, p + 8 * length src, after))
      × (detach_str (p / 8) p (length src) after ≡ some ((p + 8 * length src) / 8, src))
      × ((q : ℕ) → q < p → bit_at after q ≡ bit_at stream q)
detach_str-append_str src p stream bytes room blank =
    let sent = append_str-Sent src p stream bytes room blank in
    (
      sent.after,
      sent.runs,
      detach_str-some src p sent.after bytes (omega (arith, sent.sized)) sent.carries,
      sent.kept,
    )

shift_given :
    (val k : ℕ)
    → k < 32
    → val / 2 ^ k % 2 ^ 8 * 2 ^ k < 2 ^ 31
    → shift_int (val / 2 ^ k % 2 ^ 8) k ≡ some (val / 2 ^ k % 2 ^ 8 * 2 ^ k)
shift_given val k near small =
    let near_yes : ltb k 32 ≡ true = ground arith in
    let small_yes : ltb (val / 2 ^ k % 2 ^ 8 * 2 ^ k) (2 ^ 31) ≡ true = ground arith in
    rw (near_yes, small_yes) refl

-- A number below 2^31 and its bytes, one to four of which hold it: byte2int from 0 gives it back.
pub byte2int-int2byte :
    (val size : ℕ)
    → val < 2 ^ 31
    → size ≤ 4
    → val < 2 ^ (8 * size)
    → (bytes : List ℕ) × (int2byte val size ≡ some bytes) × (byte2int 0 bytes size ≡ some val)
unfolding int2byte byte2int
byte2int-int2byte val zero h four fits = ([], refl, ap some (omega arith))
byte2int-int2byte val (suc zero) h four fits =
    (_, refl, rw (shift_given val 0 (omega arith) (omega arith)) (ap some (omega arith)))
byte2int-int2byte val (suc (suc zero)) h four fits = (
  _,
  refl,
  rw (shift_given val 8 (omega arith) (omega arith), shift_given val 0 (omega arith) (omega arith))
      (ap some (omega arith)),
)
byte2int-int2byte val (suc (suc (suc zero))) h four fits = (
  _,
  refl,
  rw
      (
        shift_given val 16 (omega arith) (omega arith),
        shift_given val 8 (omega arith) (omega arith),
        shift_given val 0 (omega arith) (omega arith),
      )
      (ap some (omega arith)),
)
byte2int-int2byte val (suc (suc (suc (suc zero)))) h four fits = (
  _,
  refl,
  rw
      (
        shift_given val 24 (omega arith) (omega arith),
        shift_given val 16 (omega arith) (omega arith),
        shift_given val 8 (omega arith) (omega arith),
        shift_given val 0 (omega arith) (omega arith),
      )
      (ap some (omega arith)),
)
byte2int-int2byte val (suc (suc (suc (suc (suc size))))) h four fits = absurd (omega arith)
