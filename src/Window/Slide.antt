-- ===== src/Window/Slide.antt =====
-- window_slide of src/ld_window.c moves over what was acknowledged, and stops.
use liteldacssdk.Prelude.{
  ℕ, zero, suc, ◌+◌, ◌-◌, ◌%◌, ◌^◌, ◌≤◌, ◌<◌, ◌≡◌, refl, sym, ap, ◌∙◌, subst, inl, inr, Bool, true,
  false, Option, some, arith, length, set, get_or, length-set, get_or-set, get_elem?-eq-get_or, ltb,
  ◌==◌, if◌then◌else◌, Bool-cases,
}
use native.Mathlib.Nat.{mod-eq_of_lt}
use liteldacssdk.Err.{Err, ok, invalid}
use liteldacssdk.Window.{
  Window, cleared, goes_on, slid, slide_from, window_slide, is_awaited, window_ack_item,
}

-- Whether a place holds an acknowledged item.
abbrev pub is_acked : Window → ℕ → Bool
is_acked w k = (get_or w.items k cleared).is_ack

-- The start moved over acknowledged items only, to the first that is not or to what is unsent; the
-- items from there on are as they were.
pub record Slid (w : Window) (o : Option Window) : Type 0 where
  pub after : Window
  pub runs : o ≡ some after
  pub forward : w.to_ack_start ≤ after.to_ack_start
  pub within : after.to_ack_start ≤ w.to_send_start
  pub acked : (k : ℕ) → w.to_ack_start ≤ k → k < after.to_ack_start → is_acked w k ≡ true
  pub stops : after.to_ack_start < w.to_send_start → is_acked w after.to_ack_start ≡ false
  pub rest :
      (k : ℕ) → after.to_ack_start ≤ k → get_or after.items k cleared ≡ get_or w.items k cleared
  pub sends : after.to_send_start ≡ w.to_send_start

other_item :
    (w : Window) (k : ℕ)
    → w.to_ack_start < k
    → w.to_ack_start < length w.items
    → get_or (slid w).items k cleared ≡ get_or w.items k cleared
other_item w k h inside =
    let apart : (w.to_ack_start == k) ≡ false = ground arith in
    get_or-set w.items w.to_ack_start k cleared cleared inside
    ∙ ap (λ (b : Bool). if b then cleared else get_or w.items k cleared) apart

other_ack :
    (w : Window) (k : ℕ)
    → w.to_ack_start < k
    → w.to_ack_start < length w.items
    → is_acked w k ≡ is_acked (slid w) k
other_ack w k h inside = ap (λ item. item.is_ack) (sym (other_item w k h inside))

-- In a window that does not come round.
pub slide_from-Slid :
    (rounds : ℕ) (w : Window)
    → w.to_ack_start ≤ w.to_send_start
    → w.to_send_start < w.seq_sz
    → w.seq_sz ≤ 2 ^ 8
    → length w.items ≡ w.seq_sz
    → w.to_send_start - w.to_ack_start < rounds
    → Slid w (slide_from rounds w)
unfolding slide_from
slide_from-Slid zero w h s few l r = absurd (omega arith)
slide_from-Slid (suc rounds) w h s few l r =
    elim (Bool-cases (ltb w.to_ack_start w.to_send_start)) [
      | inr e ↦
          let end : w.to_ack_start ≡ w.to_send_start = ground arith in
          let stop : goes_on w ≡ false = ground arith in
          record {
            after = w;
            runs = rw stop refl;
            forward = omega arith;
            within = h;
            acked = λ k lo hi. absurd (omega arith);
            stops = λ less. absurd (omega arith);
            rest = λ k lo. refl;
            sends = refl;
          }
      | inl e ↦
          let more : w.to_ack_start < w.to_send_start = ground arith in
          let on : goes_on w ≡ true = ground arith in
          let got = get_elem?-eq-get_or w.items w.to_ack_start cleared (omega arith) in
          elim (Bool-cases (is_acked w w.to_ack_start)) [
            | inr f ↦ record {
              after = w;
              runs = rw (on, got, f) refl;
              forward = omega arith;
              within = h;
              acked = λ k lo hi. absurd (omega arith);
              stops = λ less. f;
              rest = λ k lo. refl;
              sends = refl;
            }
            | inl f ↦
                let next : (w.to_ack_start + 1) % w.seq_sz % 2 ^ 8 ≡ w.to_ack_start + 1 =
                  ap (λ x. x % 2 ^ 8) (mod-eq_of_lt (omega arith)) ∙ omega arith in
                let later =
                  slide_from-Slid rounds (slid w) (omega (arith, next)) s few
                    (length-set w.items w.to_ack_start cleared ∙ l) (omega (arith, next)) in
                let other = λ (k : ℕ) (lo : w.to_ack_start < k). other_item w k lo (omega arith) in
                record {
                  after = later.after;
                  runs = rw (on, got, f) later.runs;
                  forward = omega (arith, next, later.forward);
                  within = later.within;
                  acked = λ k lo hi. elim (Bool-cases (k == w.to_ack_start)) [
                    | inl same_place ↦
                        let here : k ≡ w.to_ack_start = ground arith in ap (is_acked w) here ∙ f
                    | inr apart ↦
                        let behind : w.to_ack_start < k = ground arith in
                        other_ack w k behind (omega arith) ∙ later.acked k (omega (arith, next)) hi
                  ];
                  stops = λ less.
                      other_ack w later.after.to_ack_start (omega (arith, next, later.forward))
                        (omega arith)
                      ∙ later.stops less;
                  rest = λ k lo. later.rest k lo ∙ other k (omega (arith, next, later.forward, lo));
                  sends = later.sends;
                }
          ]
    ]

-- The item was acknowledged.
abbrev pub marked : Window → ℕ → Window
marked w pid = record w {
  items = set w.items pid (record (get_or w.items pid cleared) { is_ack = true });
}

pub data Acknowledged (w : Window) (pid : ℕ) : Option (Err × Window) → Type 0 where
  taken :
      (w' : Window)
      → w.to_ack_start ≤ pid
      → pid < w.to_send_start
      → Slid (marked w pid) (some w')
      → Acknowledged w pid (some (ok, w'))
  refused : (w.to_ack_start ≤ pid → w.to_send_start ≤ pid) → Acknowledged w pid (some (invalid, w))

-- In a window of at most 256 sequence numbers, with an item for each, whose first number not passed
-- does not come behind the first unsent one: window_ack_item takes a number sent and not yet
-- passed, and the start then moves over acknowledged items only, this number counted as one, to the
-- first that is not or to the first unsent, while the items from there on stay. Any other number is
-- refused and changes nothing.
pub window_ack_item-Acknowledged :
    (w : Window) (pid : ℕ)
    → w.to_ack_start ≤ w.to_send_start
    → w.to_send_start < w.seq_sz
    → w.seq_sz ≤ 2 ^ 8
    → length w.items ≡ w.seq_sz
    → Acknowledged w pid (window_ack_item w pid)
unfolding window_ack_item window_slide
window_ack_item-Acknowledged w pid h s few l = elim (Bool-cases (is_awaited w pid)) [
  | inl e ↦
      let hi : pid < w.to_send_start = ground arith in
      let got = get_elem?-eq-get_or w.items pid cleared (omega arith) in
      let moved =
        slide_from-Slid (w.seq_sz + 1) (marked w pid) h s few (length-set w.items pid _ ∙ l)
          (omega arith) in
      rw (e, got, moved.runs)
        (taken moved.after (ground arith) hi (subst (λ o. Slid (marked w pid) o) moved.runs moved))
  | inr e ↦ rw e (refused (λ lo. ground arith))
]
