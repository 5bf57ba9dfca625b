-- ===== src/Net/Receive/Calls.antt =====
-- read_packet of src/ld_net.c, called again and again: however a stream is cut into reads, its
-- packets are handled one by one.
use liteldacssdk.Prelude.{
  ℕ, ◌+◌, ◌^◌, ◌<◌, ◌≡◌, refl, sym, ap, ◌∙◌, subst, Bool, true, false, Option, none, some, List, [],
  ◌∷◌, ◌++◌, map, append_assoc, arith, length, take, length-append, ◌>>=◌,
}
use liteldacssdk.Err.{Err}
use liteldacssdk.Buffer.{Buffer, cat_to_buffer, init_buffer_unptr}
use liteldacssdk.Buffer.Copy.{contents}
use liteldacssdk.Buffer.Cat.{Appended, refused, appended, cat_to_buffer-Appended}
use liteldacssdk.Net.{frame, Status, done, error, frames}
use liteldacssdk.Net.Receive.{
  Receiver, got, rounds, process_complete_packets, receive, read_from, with_buffer, read_packet,
}
use liteldacssdk.Net.Receive.Bytes.{length-contents}
use liteldacssdk.Net.Receive.Stream.{ArePackets, Awaits, header, Holds, handle_all}
use liteldacssdk.Net.Receive.Loop.{Takes, Processed, processed, carry, process_from-Processed}

unfoldable pub concat : List (List ℕ) → List ℕ
concat [] = []
concat (xs ∷ xss) = xs ++ concat xss

pub refused_not : {b : Bool} → b ≡ true → b ≡ false → ⊥
refused_not e f = cc

frames-nil : (packets : List (List ℕ)) → [] ≡ frames packets → packets ≡ []
unfolding frames
frames-nil [] e = refl
frames-nil (p ∷ ps) e = absurd (omega (arith, ap length e, length-append (frame p) (frames ps)))

take_all : (xs : List ℕ) → take (length xs) xs ≡ xs
take_all [] = refl
take_all (x ∷ xs) = ap (λ t. x ∷ t) (take_all xs)

module _ (calloc_gives : ℕ → Bool) {H : Type 0} (recv_handler : Buffer → H → Err × H) where
  -- Calls of read_packet, each with the reads that it gets until EAGAIN.
  pub read_calls : List (List (List ℕ)) → Receiver H → Option (Receiver H)
  read_calls [] r = some r
  read_calls (reads ∷ calls) r =
      read_packet calloc_gives recv_handler (map got reads) r >>= λ (status, r'). elim status [
        | done ↦ read_calls calls r'
        | _ ↦ none
      ]

pub with_buffer-some :
    {H : Type 0} (r : Receiver H) (buf : Buffer) → r.recv_buffer ≡ some buf → with_buffer r ≡ r
with_buffer-some r buf here =
    ap
      (λ o. elim o [
        | none ↦ record r {
          recv_buffer = some init_buffer_unptr;
          expected_pkt_len = 0;
          reading_header = true;
        }
        | some _ ↦ r
      ])
      here

module _ (calloc_gives : ℕ → Bool) {H : Type 0} (recv_handler : Buffer → H → Err × H)
    (take_packet : List ℕ → H → H) (t : Takes calloc_gives recv_handler take_packet) where
  receive-Processed :
      (bytes later : List ℕ) (r : Receiver H) (packets : List (List ℕ))
      → Holds r (bytes ++ later) packets
      → Processed take_packet later r.handled packets (receive calloc_gives recv_handler bytes r)
  unfolding process_complete_packets
  receive-Processed bytes later r packets g =
      subst
        (λ o. Processed take_packet later r.handled packets (elim o [
          | none ↦ none
          | some buf ↦ cat_to_buffer calloc_gives buf bytes (length bytes) >>= λ (_, buf').
              process_complete_packets calloc_gives recv_handler
                (record r { recv_buffer = some buf' })
        ]))
        (sym g.here)
        (go (cat_to_buffer calloc_gives g.buf bytes (length bytes)) (
          cat_to_buffer-Appended calloc_gives g.buf bytes (length bytes) g.valid (omega arith) (
            omega (
              arith,
              g.fits,
              length-append (contents g.buf) (bytes ++ later),
              length-append bytes later,
              length-contents g.valid,
            ))))
    where
      go :
          (o : Option (Err × Buffer))
          → Appended calloc_gives g.buf (take (length bytes) bytes) o
          → Processed take_packet later r.handled packets (
              o >>= λ (_, buf').
              process_complete_packets calloc_gives recv_handler
                (record r { recv_buffer = some buf' }))
      go _ (refused e) = absurd (refused_not (t.gives _) e)
      go _ (appended buf' v n c) =
          let whole : contents g.buf ++ (bytes ++ later) ≡ contents buf' ++ later = sym (
            ap (λ xs. xs ++ later) (c ∙ ap (λ xs. contents g.buf ++ xs) (take_all bytes))
            ∙ append_assoc (contents g.buf) bytes later) in
          let r' : Receiver H = record r { recv_buffer = some buf' } in
          process_from-Processed calloc_gives recv_handler take_packet t later (rounds r' + 1) r'
            packets
            (record {
              buf = buf';
              here = refl;
              valid = v;
              awaits =
                  subst (λ xs. Awaits r.reading_header r.expected_pkt_len xs packets) whole
                    g.awaits;
              sized = g.sized;
              fits = subst (λ xs. length xs < 2 ^ 63) whole g.fits;
            })
            (omega arith)

  read_from-Processed :
      (any : Bool) (reads : List (List ℕ)) (later : List ℕ) (r : Receiver H)
      (packets : List (List ℕ))
      → Holds r (concat reads ++ later) packets
      → (concat reads ++ later ≡ [] → packets ≡ [])
      → Processed take_packet later r.handled packets
          (read_from calloc_gives recv_handler any (map got reads) r)
  unfolding read_from concat
  read_from-Processed any [] later r packets g q = processed r packets g q refl
  read_from-Processed any (bytes ∷ reads) later r packets g q =
      go (λ r' ps g' q'. read_from-Processed true reads later r' ps g' q')
        (receive calloc_gives recv_handler bytes r)
        (receive-Processed bytes (concat reads ++ later) r packets
          (subst (λ xs. Holds r xs packets) (append_assoc bytes (concat reads) later) g))
    where
      go :
          ((r' : Receiver H) (ps : List (List ℕ))
            → Holds r' (concat reads ++ later) ps
            → (concat reads ++ later ≡ [] → ps ≡ [])
            → Processed take_packet later r'.handled ps
                (read_from calloc_gives recv_handler true (map got reads) r'))
          → (o : Option (Status × Receiver H))
          → Processed take_packet (concat reads ++ later) r.handled packets o
          → Processed take_packet later r.handled packets (
              o >>= λ (status, r'). elim status [
                | error ↦ some (error, r')
                | _ ↦ read_from calloc_gives recv_handler true (map got reads) r'
              ])
      go on _ (processed r' ps g' q' e) = carry take_packet later e (on r' ps g' q')

  read_calls-Processed :
      (calls : List (List (List ℕ))) (r : Receiver H) (packets : List (List ℕ))
      → Holds r (concat (map concat calls)) packets
      → (concat (map concat calls) ≡ [] → packets ≡ [])
      → (r' : Receiver H) × (read_calls calloc_gives recv_handler calls r ≡ some r')
        × (r'.handled ≡ handle_all take_packet packets r.handled)
  unfolding read_calls read_packet concat handle_all
  read_calls-Processed [] r packets g q =
      (r, refl, sym (ap (λ ps. handle_all take_packet ps r.handled) (q refl)))
  read_calls-Processed (reads ∷ calls) r packets g q =
      go (λ r' ps g' q'. read_calls-Processed calls r' ps g' q')
        (read_from calloc_gives recv_handler false (map got reads) (with_buffer r))
        (subst
          (λ x.
            Processed take_packet (concat (map concat calls)) r.handled packets
              (read_from calloc_gives recv_handler false (map got reads) x))
          (sym (with_buffer-some r g.buf g.here))
          (read_from-Processed false reads (concat (map concat calls)) r packets g q))
    where
      go :
          ((r' : Receiver H) (ps : List (List ℕ))
            → Holds r' (concat (map concat calls)) ps
            → (concat (map concat calls) ≡ [] → ps ≡ [])
            → (z : Receiver H) × (read_calls calloc_gives recv_handler calls r' ≡ some z)
              × (z.handled ≡ handle_all take_packet ps r'.handled))
          → (o : Option (Status × Receiver H))
          → Processed take_packet (concat (map concat calls)) r.handled packets o
          → (z : Receiver H) × ((o >>= λ (status, r'). elim status [
            | done ↦ read_calls calloc_gives recv_handler calls r'
            | _ ↦ none
          ])
              ≡ some z)
            × (z.handled ≡ handle_all take_packet packets r.handled)
      go on _ (processed r' ps g' q' e) = let (z, runs, all) = on r' ps g' q' in (z, runs, all ∙ e)

  read_calls-new :
      (r : Receiver H) (packets : List (List ℕ)) (calls : List (List (List ℕ)))
      → ArePackets packets
      → length (frames packets) < 2 ^ 63
      → concat (map concat calls) ≡ frames packets
      → (r' : Receiver H) × (read_calls calloc_gives recv_handler calls
            (record r { recv_buffer = none })
          ≡ some r')
        × (r'.handled ≡ handle_all take_packet packets r.handled)
  unfolding read_calls read_packet concat handle_all init_buffer_unptr
  read_calls-new r packets [] s fits cut = (
    record r { recv_buffer = none },
    refl,
    sym (ap (λ ps. handle_all take_packet ps r.handled) (frames-nil packets cut)),
  )
  read_calls-new r packets (reads ∷ calls) s fits cut =
      let start : Receiver H = with_buffer (record r { recv_buffer = none }) in
      read_calls-Processed (reads ∷ calls) start packets
        (record {
          buf = init_buffer_unptr;
          here = refl;
          valid = record { used = omega arith; block = omega arith; small = omega arith };
          awaits = header packets refl cut;
          sized = s;
          fits = subst (λ xs. length xs < 2 ^ 63) (sym cut) fits;
        })
        (λ e. frames-nil packets (sym e ∙ cut))

  -- Packets of one to 8192 bytes, fewer than 2^63 bytes with their headers, come as a stream: however
  -- it is cut into reads, and the reads into calls of read_packet, on a connection that has received
  -- nothing, every call ends with OK, and the handler was given exactly these packets, in their
  -- order, as valid buffers. Memory is not refused, and the handler does not answer LD_ERR_INTERNAL.
  pub read_calls-frames :
      (r : Receiver H) (packets : List (List ℕ)) (calls : List (List (List ℕ)))
      → r.recv_buffer ≡ none
      → ArePackets packets
      → length (frames packets) < 2 ^ 63
      → concat (map concat calls) ≡ frames packets
      → (r' : Receiver H) × (read_calls calloc_gives recv_handler calls r ≡ some r')
        × (r'.handled ≡ handle_all take_packet packets r.handled)
  read_calls-frames r packets calls new s fits cut =
      subst
        (λ o.
          (r' : Receiver H) × (read_calls calloc_gives recv_handler calls
              (record r { recv_buffer = o })
            ≡ some r')
          × (r'.handled ≡ handle_all take_packet packets r.handled))
        (sym new) (read_calls-new r packets calls s fits cut)
