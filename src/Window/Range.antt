-- ===== src/Window/Range.antt =====
-- Which sequence numbers the windows of src/ld_window.c take, by their distance from the start.
use liteldacssdk.Prelude.{
  ℕ, ◌+◌, ◌-◌, ◌*◌, ◌%◌, ◌^◌, ◌≤◌, ◌<◌, ◌≡◌, ap, ◌∙◌, inl, inr, Bool, ◌&&◌, ◌||◌, arith, ltb, leb,
  Bool-cases,
}
use native.Mathlib.Nat.{mod-eq_of_lt, add-mul-mod_self_left}
use liteldacssdk.Window.{Window, is_receivable}

-- Places on a circle of `n`, at most once round.
wrap : (a n : ℕ) → n ≤ a → a < n + n → a % n ≡ a - n
wrap a n lo hi =
    let parts : a ≡ a - n + n * 1 = omega arith in
    ap (λ x. x % n) parts ∙ add-mul-mod_self_left (a - n) n 1 ∙ mod-eq_of_lt (omega arith)

-- How far `b` is from `a`.
abbrev pub distance : ℕ → ℕ → ℕ → ℕ
distance n a b = (b + (n - a)) % n

pub distance_ahead : (n a b : ℕ) → a ≤ b → b < n → distance n a b ≡ b - a
distance_ahead n a b h s = wrap (b + (n - a)) n (omega arith) (omega arith) ∙ omega arith

distance_round : (n a b : ℕ) → b < a → a < n → distance n a b ≡ b + n - a
distance_round n a b h s = mod-eq_of_lt (omega arith) ∙ omega arith

-- The test of a range that may come round, for numbers.
abbrev in_range : ℕ → ℕ → ℕ → Bool
in_range start end pid =
    leb start pid && ltb pid end || ltb end start && (ltb pid end || leb start pid)

in_range-straight :
    (n start size pid : ℕ)
    → start + size < n
    → pid < n
    → in_range start (start + size) pid ≡ ltb (distance n start pid) size
in_range-straight n start size pid h p = elim (Bool-cases (leb start pid)) [
  | inl e ↦
      let ahead : start ≤ pid = ground arith in
      rw (distance_ahead n start pid ahead p) (ground arith)
  | inr e ↦
      let back : pid < start = ground arith in
      rw (distance_round n start pid back (omega arith)) (ground arith)
]

in_range-round :
    (n start size pid : ℕ)
    → n ≤ start + size
    → start < n
    → size < n
    → pid < n
    → in_range start (start + size - n) pid ≡ ltb (distance n start pid) size
in_range-round n start size pid h s z p = elim (Bool-cases (leb start pid)) [
  | inl e ↦
      let ahead : start ≤ pid = ground arith in
      rw (distance_ahead n start pid ahead p) (ground arith)
  | inr e ↦
      let back : pid < start = ground arith in rw (distance_round n start pid back s) (ground arith)
]

module _ (w : Window) (pid : ℕ) (few : w.seq_sz ≤ 2 ^ 8) (known : pid < w.seq_sz) where
  -- For at most 256 sequence numbers, a receiving start and a number that are among them, and a window
  -- smaller than their count: window_put_ctx takes the number exactly when its distance from the start,
  -- round the circle, is less than the window.
  pub is_receivable-distance :
      w.to_recv_start < w.seq_sz
      → w.win_size < w.seq_sz
      → is_receivable w pid ≡ ltb (distance w.seq_sz w.to_recv_start pid) w.win_size
  is_receivable-distance start size =
      elim (Bool-cases (ltb (w.to_recv_start + w.win_size) w.seq_sz)) [
        | inl e ↦
            let straight : w.to_recv_start + w.win_size < w.seq_sz = ground arith in
            let end : (w.to_recv_start + w.win_size) % w.seq_sz % 2 ^ 8
                ≡ w.to_recv_start + w.win_size =
              ap (λ x. x % 2 ^ 8) (mod-eq_of_lt straight) ∙ omega arith in
            ap (λ x. in_range w.to_recv_start x pid) end
            ∙ in_range-straight w.seq_sz w.to_recv_start w.win_size pid straight known
        | inr e ↦
            let over : w.seq_sz ≤ w.to_recv_start + w.win_size = ground arith in
            let end : (w.to_recv_start + w.win_size) % w.seq_sz % 2 ^ 8
                ≡ w.to_recv_start + w.win_size - w.seq_sz =
              ap (λ x. x % 2 ^ 8) (wrap (w.to_recv_start + w.win_size) w.seq_sz over (omega arith))
              ∙ omega arith in
            ap (λ x. in_range w.to_recv_start x pid) end
            ∙ in_range-round w.seq_sz w.to_recv_start w.win_size pid over start size known
      ]
