-- ===== src/Net/Receive/Safety.antt =====
-- A round of process_complete_packets of src/ld_net.c on any bytes whatever, with any handler, memory
-- refused or not.
use liteldacssdk.Prelude.{
  ℕ, ◌+◌, ◌^◌, ◌≤◌, ◌<◌, ◌≡◌, refl, sym, ap, ap₂, subst, ◌≢◌, inl, inr, Bool, true, false, Option,
  none, some, List, [], ◌∷◌, arith, length, ltb, ◌==◌, if◌then◌else◌, Bool-cases,
}
use liteldacssdk.Err.{Err}
use liteldacssdk.Buffer.{Buffer, bytes_at, init_buffer_unptr, clone_to_chunk}
use liteldacssdk.Buffer.Copy.{IsValid}
use liteldacssdk.Buffer.Set.{Cloned, cloned, lost, clone_to_chunk-Cloned}
use liteldacssdk.Net.{max_input, from_network}
use liteldacssdk.Net.Receive.{
  Receiver, Round, more, failed, stop, is_internal, deliver, take_header, read_header, read_body,
  round_on, process_round, rounds, rounds_left, remove_from_buffer_front,
}
use liteldacssdk.Net.Receive.Bytes.{remove_from_buffer_front-Removed}

-- A receiver whose buffer is valid and that awaits a packet of at most 8192 bytes, not an empty one.
pub record IsSound {H : Type 0} (r : Receiver H) : Type 0 where
  pub buf : Buffer
  pub here : r.recv_buffer ≡ some buf
  pub valid : IsValid buf
  pub bounded : r.expected_pkt_len ≤ max_input
  pub waits : r.reading_header ≡ false → 0 < r.expected_pkt_len

-- A round on such a receiver.
pub data Turns {H : Type 0} (r : Receiver H) (buf : Buffer) : Round H → Type 0 where
  halts : buf.len < max_input → Turns r buf stop
  fails : (r' : Receiver H) → Turns r buf (failed r')
  goes : (r' : Receiver H) → IsSound r' → rounds r' < rounds r → Turns r buf (more r')

module _ {H : Type 0} (r : Receiver H) (g : IsSound r) where
  take_header-Turns :
      (o : Option ℕ)
      → 4 ≤ g.buf.len
      → r.reading_header ≡ true
      → o ≢ none
      → Turns r g.buf (take_header g.buf r o)
  take_header-Turns none four t some_length = absurd (some_length refl)
  take_header-Turns (some n) four t some_length =
      let cut = remove_from_buffer_front-Removed g.buf 4 g.valid in
      let now = ap₂ rounds_left g.here t in
      elim (Bool-cases (n == 0)) [
        | inl e ↦ rw e (
            goes _
              (record {
                buf = remove_from_buffer_front g.buf 4;
                here = refl;
                valid = cut.valid;
                bounded = (ground arith);
                waits = λ f. absurd (cc);
              })
              (omega (arith, now, cut.shorter, ap {B = ℕ} (λ (b : Bool). if b then 0 else 1) t)))
        | inr e ↦ elim (Bool-cases (ltb max_input n)) [
          | inl l ↦ rw (e, l) (fails _)
          | inr l ↦
              rw (e, l)
                (goes _
                  (record {
                    buf = remove_from_buffer_front g.buf 4;
                    here = refl;
                    valid = cut.valid;
                    bounded = ground arith;
                    waits = λ f. ground arith;
                  })
                  (omega (arith, now, cut.shorter)))
        ]
      ]

from_network-some : (xs : List ℕ) → 4 ≤ length xs → from_network xs ≢ none
from_network-some [] h = absurd (omega arith)
from_network-some (a ∷ []) h = absurd (omega arith)
from_network-some (a ∷ b ∷ []) h = absurd (omega arith)
from_network-some (a ∷ b ∷ c ∷ []) h = absurd (omega arith)
from_network-some (a ∷ b ∷ c ∷ d ∷ rest) h = λ e. cc

module _ (calloc_gives : ℕ → Bool) where
  clone_safe :
      (p : Option (List ℕ)) (e : ℕ)
      → 0 < e
      → e ≤ length (bytes_at p)
      → e + 1 < 2 ^ 64
      → clone_to_chunk calloc_gives init_buffer_unptr p e ≢ none
  clone_safe none e pos fits small = absurd (omega arith)
  clone_safe (some bytes) e pos fits small =
      go _ (clone_to_chunk-Cloned calloc_gives init_buffer_unptr bytes e fits small)
    where
      go : (o : Option Buffer) → Cloned calloc_gives bytes e o → o ≢ none
      go _ (cloned ch v c) = λ x. cc
      go _ (lost short) = λ x. cc

module _ (calloc_gives : ℕ → Bool) {H : Type 0} (recv_handler : Buffer → H → Err × H)
    (r : Receiver H) (g : IsSound r) where
  deliver-Turns :
      (o : Option Buffer)
      → r.reading_header ≡ false
      → r.expected_pkt_len ≤ g.buf.len
      → o ≢ none
      → Turns r g.buf (deliver calloc_gives recv_handler g.buf r o)
  deliver-Turns none f full got_one = absurd (got_one refl)
  deliver-Turns (some ch) f full got_one =
      let cut = remove_from_buffer_front-Removed g.buf r.expected_pkt_len g.valid in
      elim (Bool-cases (is_internal (recv_handler ch r.handled).0)) [
        | inl e ↦ rw e (fails _)
        | inr e ↦ rw e (
            goes _
              (record {
                buf = remove_from_buffer_front g.buf r.expected_pkt_len;
                here = refl;
                valid = cut.valid;
                bounded = omega arith;
                waits = λ u. absurd (cc);
              })
              (omega (arith, ap₂ rounds_left g.here f, cut.shorter, g.waits f)))
      ]

  read_body-Turns :
      r.reading_header ≡ false → Turns r g.buf (read_body calloc_gives recv_handler g.buf r)
  read_body-Turns f = elim (Bool-cases (ltb g.buf.len r.expected_pkt_len)) [
    | inl e ↦
        let short : g.buf.len < r.expected_pkt_len = ground arith in
        rw e (halts (omega (arith, g.bounded)))
    | inr e ↦
        let full : r.expected_pkt_len ≤ g.buf.len = ground arith in
        rw e (
          deliver-Turns _ f full (
            clone_safe calloc_gives g.buf.ptr r.expected_pkt_len (g.waits f)
              (omega (arith, g.valid.used, g.valid.block)) (omega (arith, g.bounded))))
  ]

  read_header-Turns : r.reading_header ≡ true → Turns r g.buf (read_header g.buf r)
  read_header-Turns t = elim (Bool-cases (ltb g.buf.len 4)) [
    | inl e ↦ rw e (halts (ground arith))
    | inr e ↦
        let four : 4 ≤ g.buf.len = ground arith in
        rw e (
          take_header-Turns r g _ four t
            (from_network-some (bytes_at g.buf.ptr) (omega (arith, g.valid.used, g.valid.block))))
  ]

  pub process_round-Turns : Turns r g.buf (process_round calloc_gives recv_handler r)
  unfolding process_round
  process_round-Turns =
      let chosen = λ (b c : Bool).
        if b
        then stop
        else if c
        then read_header g.buf r
        else read_body calloc_gives recv_handler g.buf r in
      let Goal = λ (x : Round H). Turns r g.buf x in
      subst (λ o. Goal (round_on calloc_gives recv_handler r o)) (sym g.here)
        (elim (Bool-cases (g.buf.len == 0)) [
          | inl e ↦ subst (λ b. Goal (chosen b r.reading_header)) (sym e) (halts (ground arith))
          | inr e ↦ elim (Bool-cases r.reading_header) [
            | inl t ↦ subst Goal (sym (ap₂ chosen e t)) (read_header-Turns t)
            | inr f ↦ subst Goal (sym (ap₂ chosen e f)) (read_body-Turns f)
          ]
        ])
