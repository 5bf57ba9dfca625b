-- ===== src/Net/Send/Wire.antt =====
-- write_packet of src/ld_net.c loses no byte and puts none in between: what was written and what is
-- unsent stay one stream.
use liteldacssdk.Prelude.{
  ℕ, zero, suc, ◌+◌, ◌-◌, ◌%◌, ◌^◌, ◌≤◌, ◌<◌, min, ◌≡◌, refl, sym, ap, ap₂, ◌∙◌, subst, ◌≢◌, inl,
  inr, false, some, List, [], ◌∷◌, ◌++◌, map, append_assoc, arith, length, take, drop,
  take-append-drop, ltb, leb, ◌==◌, Bool-cases,
}
use liteldacssdk.Buffer.{Buffer, bytes_at, sub_size}
use liteldacssdk.Buffer.Copy.{contents, IsValid}
use liteldacssdk.Net.{Status, done, frames}
use liteldacssdk.Net.Receive.Bytes.{drop-take, drop-all, take-take, length-contents}
use liteldacssdk.Net.Send.{
  Write, took, would_block, interrupted, broken, other, Sender, Pass, go_on, leave, advance,
  write_once,
}
use liteldacssdk.Net.Send.Frame.{unsent_of, unsent, IsPartial, IsReady}

drop-nil : (n : ℕ) → drop {A = ℕ} n [] ≡ []
drop-nil zero = refl
drop-nil (suc n) = refl

drop-drop : (i j : ℕ) (xs : List ℕ) → drop j (drop i xs) ≡ drop (i + j) xs
drop-drop zero j xs = ap (λ k. drop k xs) (omega arith)
drop-drop (suc i) j [] = drop-nil j ∙ sym (drop-nil (suc i + j))
drop-drop (suc i) j (x ∷ xs) =
    let whole : suc (i + j) ≡ suc i + j = omega arith in
    drop-drop i j xs ∙ ap (λ k. drop k (x ∷ xs)) whole

-- `n` bytes of a part of a block.
cut_out :
    (off n len : ℕ) (xs : List ℕ)
    → off + n ≤ len
    → drop off (take len xs) ≡ take n (drop off xs) ++ drop (off + n) (take len xs)
cut_out off n len xs h =
    sym (take-append-drop n (drop off (take len xs)))
    ∙ ap₂ (λ a b. a ++ b)
        (ap (λ ys. take n ys) (drop-take off len xs)
          ∙ take-take n (len - off) (drop off xs) (omega arith))
        (drop-drop off n (take len xs))

module _ {Q : Type 0} (items : Q → List Buffer) where
  -- Nothing is lost: what was written, and what is unsent.
  abbrev pub Kept : Sender Q → Sender Q → Type 0
  Kept s s' = s'.wire ++ unsent items s' ≡ s.wire ++ unsent items s

  pub data Passed (s : Sender Q) : Pass Q → Type 0 where
    goes : (s' : Sender Q) → IsReady items s' → Kept s s' → Passed s (go_on s')
    leaves :
        (status : Status) (s' : Sender Q)
        → IsReady items s'
        → Kept s s'
        → status ≢ done
        → Passed s (leave status s')

  module _ (buf : Buffer) (s : Sender Q) (here : s.current_write_buffer ≡ some buf)
      (g : IsReady items s) where
    partial : IsValid buf × (s.current_write_offset < buf.len)
    partial = subst (λ o. IsPartial o s.current_write_offset) here g.current

    -- The wire after `n` bytes, before what is then unsent.
    further :
        (n : ℕ) (rest : List ℕ)
        → s.current_write_offset + n ≤ buf.len
        → drop (s.current_write_offset + n) (contents buf) ≡ rest
        → s.wire
            ++ take n (drop s.current_write_offset (bytes_at buf.ptr))
            ++ (rest ++ frames (map contents (items s.write_pkts)))
          ≡ s.wire ++ unsent items s
    further n rest h e =
        let out : List ℕ = take n (drop s.current_write_offset (bytes_at buf.ptr)) in
        let later : List ℕ = frames (map contents (items s.write_pkts)) in
        let was : unsent_of s.current_write_buffer s.current_write_offset ≡ out ++ rest =
          ap (λ o. unsent_of o s.current_write_offset) here
          ∙ cut_out s.current_write_offset n buf.len (bytes_at buf.ptr) h
          ∙ ap (λ xs. out ++ xs) e in
        append_assoc s.wire out (rest ++ later)
        ∙ ap (λ xs. s.wire ++ xs) (sym (append_assoc out rest later))
        ∙ ap (λ xs. s.wire ++ (xs ++ later)) (sym was)

    advance-Passed :
        (n : ℕ) → 0 < n → s.current_write_offset + n ≤ buf.len → Passed s (advance n buf s)
    advance-Passed n pos h =
        let (v, small) = partial in
        let off = s.current_write_offset in
        let sum : (off + n) % 2 ^ 64 ≡ off + n = omega (arith, v.used, v.block, v.small) in
        let inside : ltb (length (bytes_at buf.ptr)) (off + n) ≡ false =
          ground (arith, v.used, v.block) in
        rw (inside, sum)
          (elim (Bool-cases (leb buf.len (off + n))) [
            | inl e ↦
                let over : buf.len ≤ off + n = ground arith in
                rw e (
                  goes _ (record { queued = g.queued; current = 0 })
                    (further n [] h
                      (drop-all (off + n) (contents buf) (omega (arith, length-contents v)))))
            | inr e ↦
                let short : off + n < buf.len = ground arith in
                rw e (
                  leaves _ _
                    (record {
                      queued = g.queued;
                      current = subst (λ o. IsPartial o (off + n)) (sym here) (v, short);
                    })
                    (further n _ h (ap (λ o. unsent_of o (off + n)) (sym here))) (λ x. cc))
          ])

    pub write_once-Passed : (w : Write) → Passed s (write_once w buf s)
    write_once-Passed (took k) =
        let (v, small) = partial in
        let left : sub_size buf.len s.current_write_offset ≡ buf.len - s.current_write_offset =
          omega (arith, v.used, v.block, v.small) in
        rw left (elim (Bool-cases (min k (buf.len - s.current_write_offset) == 0)) [
          | inl e ↦ rw e (leaves _ s g refl (λ x. cc))
          | inr e ↦ rw e (advance-Passed _ (ground arith) (omega arith))
        ])
    write_once-Passed would_block = leaves _ s g refl (λ x. cc)
    write_once-Passed interrupted = goes s g refl
    write_once-Passed broken = leaves _ s g refl (λ x. cc)
    write_once-Passed other = leaves _ s g refl (λ x. cc)
