-- ===== src/Net/Send/Frame.antt =====
-- What src/ld_net.c puts in front of the socket: a packet as one frame, and what is still unsent.
use liteldacssdk.Prelude.{
  ℕ, ◌+◌, ◌^◌, ◌≤◌, ◌<◌, ◌≡◌, refl, sym, ap, ◌∙◌, Bool, true, Option, none, some, List, [], ◌∷◌,
  ◌++◌, map, arith, length, take, drop, length-take,
}
use liteldacssdk.Err.{Err}
use liteldacssdk.Buffer.{Buffer, bytes_at, init_buffer_unptr, cat_to_buffer}
use liteldacssdk.Buffer.Copy.{contents, IsValid}
use liteldacssdk.Buffer.Cat.{Appended, refused, appended, cat_to_buffer-Appended}
use liteldacssdk.Net.{to_network, frame, frames}
use liteldacssdk.Net.Receive.Bytes.{length-contents}
use liteldacssdk.Net.Receive.Calls.{refused_not}
use liteldacssdk.Net.Send.{WriteQueue, Sender, start_frame}

-- A queue that gives back what was put, in order; `items` is what it holds.
pub record IsFifo {Q : Type 0} (queue : WriteQueue Q) (items : Q → List Buffer) : Type 0 where
  pub put_last : (q : Q) (b : Buffer) → items (queue.put q b) ≡ items q ++ (b ∷ [])
  pub counts : (q : Q) → queue.size q ≡ length (items q)
  pub takes_first :
      (q : Q) (b : Buffer) (bs : List Buffer)
      → items q ≡ b ∷ bs
      → (q' : Q) × (queue.deq q ≡ (some b, q')) × (items q' ≡ bs)

-- Buffers that can be framed: their length fits the header.
pub data AreFramable : List Buffer → Type 0 where
  no_more : AreFramable []
  next :
      {b : Buffer} {bs : List Buffer}
      → IsValid b
      → b.len < 2 ^ 32
      → AreFramable bs
      → AreFramable (b ∷ bs)

-- What is left of the buffer that is being written.
abbrev pub unsent_of : Option Buffer → ℕ → List ℕ
unsent_of none offset = []
unsent_of (some buf) offset = drop offset (contents buf)

abbrev pub unsent : {Q : Type 0} → (Q → List Buffer) → Sender Q → List ℕ
unsent items s =
    unsent_of s.current_write_buffer s.current_write_offset
    ++ frames (map contents (items s.write_pkts))

-- What is being written is valid and not yet done with.
abbrev pub IsPartial : Option Buffer → ℕ → Type 0
IsPartial none offset = ℕ
IsPartial (some buf) offset = IsValid buf × (offset < buf.len)

pub record IsReady {Q : Type 0} (items : Q → List Buffer) (s : Sender Q) : Type 0 where
  pub queued : AreFramable (items s.write_pkts)
  pub current : IsPartial s.current_write_buffer s.current_write_offset

module _ (calloc_gives : ℕ → Bool) (gives : (n : ℕ) → calloc_gives n ≡ true) where
  pub cat_given :
      (buf : Buffer) (str : List ℕ) (n : ℕ)
      → IsValid buf
      → n ≤ length str
      → buf.len + n + 1 < 2 ^ 64
      → (e : Err) × (buf' : Buffer) × (cat_to_buffer calloc_gives buf str n ≡ some (e, buf'))
        × IsValid buf'
        × (buf'.len ≡ buf.len + n)
        × (contents buf' ≡ contents buf ++ take n str)
  cat_given buf str n v reads room =
      go _ (cat_to_buffer-Appended calloc_gives buf str n v reads room)
    where
      go :
          (o : Option (Err × Buffer))
          → Appended calloc_gives buf (take n str) o
          → (e : Err) × (buf' : Buffer) × (o ≡ some (e, buf'))
            × IsValid buf'
            × (buf'.len ≡ buf.len + n)
            × (contents buf' ≡ contents buf ++ take n str)
      go _ (refused short) = absurd (refused_not (gives _) short)
      go _ (appended buf' w l c) = (_, buf', refl, w, (omega (arith, l, length-take n str)), c)

  -- The frame of a packet, with its length.
  pub start_frame-some :
      (b : Buffer)
      → IsValid b
      → b.len < 2 ^ 32
      → (whole : Buffer) × (start_frame calloc_gives b ≡ some whole)
        × IsValid whole
        × (0 < whole.len)
        × (contents whole ≡ frame (contents b))
  unfolding start_frame init_buffer_unptr
  start_frame-some b v small =
      let start : IsValid init_buffer_unptr = record {
        used = omega arith;
        block = omega arith;
        small = omega arith;
      } in
      let (e₁, head, is₁, v₁, l₁, c₁) =
        cat_given init_buffer_unptr (to_network b.len) 4 start (omega arith) (omega arith) in
      let (e₂, whole, is₂, v₂, l₂, c₂) =
        cat_given head (bytes_at b.ptr) b.len v₁ (omega (arith, v.used, v.block))
          (omega (arith, l₁)) in
      let n : length (contents b) ≡ b.len = length-contents v in
      (
        whole,
        rw (is₁, is₂) refl,
        v₂,
        omega (arith, l₁, l₂),
        c₂ ∙ ap (λ xs. xs ++ contents b) c₁ ∙ ap (λ k. to_network k ++ contents b) (sym n),
      )
