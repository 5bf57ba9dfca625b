-- ===== src/Drr/Serve.antt =====
-- src/ld_drr.c, the inner loop: what serving one user hands out.
use liteldacssdk.Prelude.{
  ℕ, zero, suc, ◌+◌, ◌^◌, ◌≤◌, ◌<◌, ◌≡◌, refl, ◌≢◌, ◌⊎◌, inl, inr, none, some, arith, Option-cases,
}
use liteldacssdk.Drr.{Serving, serve_round, serve}

-- `v` is `s` after some bytes went to the user: they are taken from its request and from `W`.
pub record Granted (s v : Serving) : Type 0 where
  pub asked : v.alloc + v.req_sz ≡ s.alloc + s.req_sz
  pub taken : v.alloc + v.w ≡ s.alloc + s.w
  pub less : v.w ≤ s.w
  pub deficit : v.dc ≤ s.dc
  pub grown : s.alloc ≤ v.alloc

abbrev pub Fits : Serving → Type 0
Fits s = s.alloc + s.req_sz < 2 ^ 64

module _ (pkt_size w_min : ℕ) (pos : 0 < pkt_size) where
  -- A round that goes on hands at least one byte out.
  serve_round-some :
      (s s' : Serving)
      → Fits s
      → serve_round pkt_size w_min s ≡ some s'
      → Granted s s' × (s'.req_sz < s.req_sz) × (s'.w < s.w)
  unfolding serve_round
  serve_round-some s s' f e = ground arith

  -- The loop ends with `W` down to the minimum, nothing left to ask for, or too small a deficit.
  serve_round-none :
      (s : Serving)
      → serve_round pkt_size w_min s ≡ none
      → w_min < s.w
      → (s.req_sz ≡ 0) ⊎ (s.dc < pkt_size)
  unfolding serve_round
  serve_round-none s e h = ground arith

  serve_round_runs :
      (s : Serving)
      → pkt_size ≤ s.dc
      → 0 < s.req_sz
      → w_min < s.w
      → serve_round pkt_size w_min s ≢ none
  unfolding serve_round
  serve_round_runs s hd hr hw = ground arith

  pub record Served (s v : Serving) : Type 0 where
    pub granted : Granted s v
    pub settled : w_min < v.w → (v.req_sz ≡ 0) ⊎ (v.dc < pkt_size)
    pub progress : pkt_size ≤ s.dc → 0 < s.req_sz → w_min < s.w → v.w < s.w

  -- The fuel `req_sz + 1` is enough, and the result is as `Served` says.
  pub serve-Served :
      (fuel : ℕ) (s : Serving)
      → Fits s
      → s.req_sz < fuel
      → (v : Serving) × (serve fuel pkt_size w_min s ≡ some v) × Served s v
  unfolding serve
  serve-Served zero s f h = absurd (omega arith)
  serve-Served (suc fuel) s f h = elim (Option-cases (serve_round pkt_size w_min s)) [
    | inl ended ↦ (
      s,
      rw (ended, serve) refl,
      record {
        granted = omega arith;
        settled = serve_round-none s ended;
        progress = λ hd hr hw. absurd (serve_round_runs s hd hr hw ended);
      },
    )
    | inr (s', e) ↦
        let (g, r, w) = serve_round-some s s' f e in
        let (v, e', p) = serve-Served fuel s' (omega (arith, g.asked)) (omega arith) in
        (
          v,
          rw (e, serve) e',
          record {
            granted = omega (
              arith, g.asked, g.taken, g.less, g.deficit, g.grown, p.granted.asked, p.granted.taken,
              p.granted.less, p.granted.deficit, p.granted.grown,
            );
            settled = p.settled;
            progress = λ hd hr hw. omega (arith, p.granted.less);
          },
        )
  ]
