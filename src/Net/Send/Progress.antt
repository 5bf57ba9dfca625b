-- ===== src/Net/Send/Progress.antt =====
-- write_packet of src/ld_net.c on a socket that takes at least one byte at each write comes to an
-- end.
use liteldacssdk.Prelude.{
  ℕ, suc, ◌+◌, ◌-◌, ◌%◌, ◌^◌, ◌≤◌, ◌<◌, min, ◌≡◌, refl, sym, ap, subst, inl, inr, Bool, true, false,
  Option, none, some, List, [], ◌∷◌, ◌++◌, map, arith, length, take, drop, length-append,
  length-take, length-drop, ltb, leb, ◌==◌, Bool-cases,
}
use liteldacssdk.Buffer.{Buffer, sub_size, bytes_at}
use liteldacssdk.Buffer.Copy.{IsValid}
use liteldacssdk.Net.{Status, done, again, error}
use liteldacssdk.Net.Send.{
  Write, took, WriteQueue, Sender, Pass, go_on, leave, fault, Next, nothing, write_from, stuck,
  advance, write_once, next_buffer, write_packet,
}
use liteldacssdk.Net.Send.Frame.{IsFifo, unsent, IsPartial, IsReady}
use liteldacssdk.Net.Send.Wire.{Kept, Passed, goes, leaves, write_once-Passed}
use liteldacssdk.Net.Send.Drain.{NextReady, idle, writes, next_buffer-Ready}

-- A write that took at least one byte, and what is left then.
data Shorter {Q : Type 0} (items : Q → List Buffer) (s : Sender Q) : Pass Q → Type 0 where
  goes_on :
      (s' : Sender Q)
      → IsReady items s'
      → length (unsent items s') < length (unsent items s)
      → Shorter items s (go_on s')
  waits :
      (s' : Sender Q)
      → IsReady items s'
      → length (unsent items s') < length (unsent items s)
      → Shorter items s (leave again s')

abbrev wire_length : {Q : Type 0} → Pass Q → ℕ
wire_length (go_on s) = length s.wire
wire_length (leave status s) = length s.wire
wire_length fault = 0

abbrev is_taken : {Q : Type 0} → Pass Q → Bool
is_taken (go_on s) = true
is_taken (leave again s) = true
is_taken _ = false

unsent_less :
    {Q : Type 0} (items : Q → List Buffer) (s s' : Sender Q)
    → Kept items s s'
    → length s.wire < length s'.wire
    → length (unsent items s') < length (unsent items s)
unsent_less items s s' k h = omega (
  arith,
  ap length k,
  length-append s'.wire (unsent items s'),
  length-append s.wire (unsent items s),
)

unsent_same :
    {Q : Type 0} (items : Q → List Buffer) (s s' : Sender Q)
    → Kept items s s'
    → s'.wire ≡ s.wire
    → length (unsent items s') ≡ length (unsent items s)
unsent_same items s s' k w = omega (
  arith,
  ap length k,
  ap length w,
  length-append s'.wire (unsent items s'),
  length-append s.wire (unsent items s),
)

write_less :
    {Q : Type 0} (items : Q → List Buffer) (s : Sender Q) (x : Pass Q)
    → Passed items s x
    → length s.wire < wire_length x
    → is_taken x ≡ true
    → Shorter items s x
write_less items s _ (goes s' g k) h m = goes_on s' g (unsent_less items s s' k h)
write_less items s _ (leaves again s' g k q) h m = waits s' g (unsent_less items s s' k h)
write_less items s _ (leaves done s' g k q) h m = absurd (cc)
write_less items s _ (leaves error s' g k q) h m = absurd (cc)

module _ {Q : Type 0} (items : Q → List Buffer) (buf : Buffer) (s : Sender Q)
    (here : s.current_write_buffer ≡ some buf) (g : IsReady items s) where
  partial : IsValid buf × (s.current_write_offset < buf.len)
  partial = subst (λ o. IsPartial o s.current_write_offset) here g.current

  advance-grows :
      (n : ℕ)
      → 0 < n
      → s.current_write_offset + n ≤ buf.len
      → (length s.wire < wire_length (advance n buf s)) × (is_taken (advance n buf s) ≡ true)
  advance-grows n pos h =
      let (v, small) = partial in
      let off = s.current_write_offset in
      let sum : (off + n) % 2 ^ 64 ≡ off + n = omega (arith, v.used, v.block, v.small) in
      let inside : ltb (length (bytes_at buf.ptr)) (off + n) ≡ false =
        ground (arith, v.used, v.block) in
      let longer : length s.wire < length (s.wire ++ take n (drop off (bytes_at buf.ptr))) = omega (
        arith,
        v.used,
        v.block,
        length-append s.wire (take n (drop off (bytes_at buf.ptr))),
        length-take n (drop off (bytes_at buf.ptr)),
        length-drop off (bytes_at buf.ptr),
      ) in
      rw (inside, sum)
        (elim (Bool-cases (leb buf.len (off + n))) [
          | inl e ↦ rw e (longer, refl)
          | inr e ↦ rw e (longer, refl)
        ])

  write_once-Shorter : (k : ℕ) → Shorter items s (write_once (took (suc k)) buf s)
  write_once-Shorter k =
      let (v, small) = partial in
      let left : sub_size buf.len s.current_write_offset ≡ buf.len - s.current_write_offset =
        omega (arith, v.used, v.block, v.small) in
      let n : ℕ = min (suc k) (buf.len - s.current_write_offset) in
      let some_left : (n == 0) ≡ false = ground arith in
      let is : write_once (took (suc k)) buf s ≡ advance n buf s = rw (left, some_left) refl in
      let (longer, taken) = advance-grows n (omega arith) (omega arith) in
      subst (λ x. Shorter items s x) (sym is)
        (write_less items s _
          (subst (λ x. Passed items s x) is (write_once-Passed items buf s here g (took (suc k))))
          longer taken)

module _ (calloc_gives : ℕ → Bool) (gives : (n : ℕ) → calloc_gives n ≡ true) {Q : Type 0}
    (queue : WriteQueue Q) (items : Q → List Buffer) (fifo : IsFifo queue items) where
  -- All was written, or less than that is left.
  pub data Drains (bound : ℕ) : Option (Status × Sender Q) → Type 0 where
    drained : (s' : Sender Q) → Drains bound (some (done, s'))
    less :
        (s' : Sender Q)
        → IsReady items s'
        → length (unsent items s') < bound
        → Drains bound (some (again, s'))

  -- The loop with a buffer chosen; `on` is the rest of it.
  write_next :
      (bound : ℕ) (k : ℕ) (ws : List Write) (s : Sender Q)
      → ((s' : Sender Q)
          → IsReady items s'
          → length (unsent items s') < bound
          → Drains bound (write_packet calloc_gives queue ws s'))
      → IsReady items s
      → length (unsent items s) ≤ bound
      → Drains bound (write_packet calloc_gives queue (took (suc k) ∷ ws) s)
  unfolding write_packet
  write_next bound k ws s on g h =
      go (next_buffer calloc_gives queue s s.current_write_buffer)
        (next_buffer-Ready calloc_gives gives queue items fifo s g)
    where
      turn :
          (s' : Sender Q) (x : Pass Q)
          → length (unsent items s') ≤ bound
          → Shorter items s' x
          → Drains bound (elim x [
            | go_on s'' ↦ write_packet calloc_gives queue ws s''
            | leave status s'' ↦ some (status, s'')
            | fault ↦ none
          ])
      turn s' _ b (goes_on s'' g'' l) = on s'' g'' (omega arith)
      turn s' _ b (waits s'' g'' l) = less s'' g'' (omega arith)

      go :
          (x : Next Q)
          → NextReady items s x
          → Drains bound (elim x [
            | nothing ↦ some (done, s)
            | write_from buf s' ↦ elim (write_once (took (suc k)) buf s') [
              | go_on s'' ↦ write_packet calloc_gives queue ws s''
              | leave status s'' ↦ some (status, s'')
              | fault ↦ none
            ]
            | stuck ↦ none
          ])
      go _ (idle e) = drained s
      go _ (writes buf s' here g' kept w) =
          turn s' (write_once (took (suc k)) buf s') (omega (arith, unsent_same items s s' kept w))
            (write_once-Shorter items buf s' here g' k)

  write_none :
      (bound : ℕ) (s : Sender Q)
      → IsReady items s
      → length (unsent items s) < bound
      → Drains bound (write_packet calloc_gives queue [] s)
  unfolding write_packet
  write_none bound s g h =
      go (next_buffer calloc_gives queue s s.current_write_buffer)
        (next_buffer-Ready calloc_gives gives queue items fifo s g)
    where
      go :
          (x : Next Q)
          → NextReady items s x
          → Drains bound (elim x [
            | nothing ↦ some (done, s)
            | write_from buf s' ↦ some (again, s')
            | stuck ↦ none
          ])
      go _ (idle e) = drained s
      go _ (writes buf s' here g' kept w) =
          less s' g' (omega (arith, unsent_same items s s' kept w))

  write_all :
      (bound : ℕ) (ks : List ℕ) (s : Sender Q)
      → IsReady items s
      → length (unsent items s) < bound
      → Drains bound (write_packet calloc_gives queue (map (λ n. took (suc n)) ks) s)
  write_all bound [] s g h = write_none bound s g h
  write_all bound (k ∷ ks) s g h =
      write_next bound k (map (λ n. took (suc n)) ks) s (λ s' g' l. write_all bound ks s' g' l) g
        (omega arith)

  -- Calls of write_packet, one for each time that the socket is ready, until it no longer answers
  -- AGAIN.
  abbrev proceed :
      (Sender Q → Option (Status × Sender Q))
      → Option (Status × Sender Q)
      → Option (Status × Sender Q)
  proceed on none = none
  proceed on (some (done, s)) = some (done, s)
  proceed on (some (again, s)) = on s
  proceed on (some (error, s)) = some (error, s)

  pub write_calls : List (List Write) → Sender Q → Option (Status × Sender Q)
  write_calls [] s = some (again, s)
  write_calls (ws ∷ calls) s = proceed (write_calls calls) (write_packet calloc_gives queue ws s)

  -- A connection whose queue gives back what was put in order, and a socket that, each time it is
  -- ready, takes at least one byte at the first write and at every other: as many calls of
  -- write_packet as there are unsent bytes, and one more, end with OK. Memory is not refused.
  pub write_calls-done :
      (calls : List (ℕ × List ℕ)) (s : Sender Q)
      → IsReady items s
      → length (unsent items s) < length calls
      → (s' : Sender Q) × (write_calls (map (λ (k, ks). map (λ n. took (suc n)) (k ∷ ks)) calls) s
          ≡ some (done, s'))
  unfolding write_calls
  write_calls-done [] s g h = absurd (omega arith)
  write_calls-done ((k, ks) ∷ calls) s g h =
      go _
        (write_next (length (unsent items s)) k (map (λ n. took (suc n)) ks) s
          (λ s' g' l. write_all (length (unsent items s)) ks s' g' l) g (omega arith))
        (λ s' g' l. write_calls-done calls s' g' (omega arith))
    where
      go :
          (o : Option (Status × Sender Q))
          → Drains (length (unsent items s)) o
          → ((s' : Sender Q)
              → IsReady items s'
              → length (unsent items s') < length (unsent items s)
              → (z : Sender Q) × (write_calls
                    (map (λ (k, ks). map (λ n. took (suc n)) (k ∷ ks)) calls)
                    s'
                  ≡ some (done, z)))
          → (z : Sender Q) × (proceed
                (write_calls (map (λ (k, ks). map (λ n. took (suc n)) (k ∷ ks)) calls))
                o
              ≡ some (done, z))
      go _ (drained s') on = (s', refl)
      go _ (less s' g' l) on = on s' g' l
