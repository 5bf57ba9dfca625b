-- ===== src/Drr/Loop.antt =====
-- src/ld_drr.c, the second loop: it hands `W` out and ends.
use liteldacssdk.Prelude.{
  ℕ, zero, suc, ◌+◌, ◌^◌, ◌≤◌, ◌<◌, ◌≡◌, refl, ap, ◌∙◌, ◌≢◌, ◌⊎◌, inl, inr, true, false, Option,
  some, List, [], ◌∷◌, ◌++◌, arith, length, set, get_or, length-set, get_or-set, ltb, ◌==◌,
  if◌then◌else◌, ltb→lt, ==_iff, Bool-cases, suc-eq-zero,
}
use liteldacssdk.Err.{ok, internal}
use liteldacssdk.Deque.Client.{put_back_lem, put_front_lem, take_front-nil, take_front-cons}
use liteldacssdk.Deque.{Implementation, put_front, put_back, take_front, Reply, status, item}
use liteldacssdk.Drr.{DrrReq, nobody, add64, Serving, Round, settle, serve, serve_user, drr_loop}
use liteldacssdk.Drr.Count.{
  count, sum, sum-set, InRange, Sacs, InRange-tail, InRange-head, length-le, count-snoc,
}
use liteldacssdk.Drr.Serve.{Served, serve-Served}
use liteldacssdk.Drr.Enroll.{wants}

module _ (q : Implementation) (n limit : ℕ) (req : ℕ → ℕ) (pkt_size w_min w₀ : ℕ)
    (req_szs : List ℕ) where
  -- The books between two rounds: each user has been given what its request has lost, the list
  -- has exactly the users that still ask, and no byte of `w₀` is lost.
  pub record Ledger (es : List DrrReq) (alloc : List ℕ) (w : ℕ) (xs : List ℕ) : Type 0 where
    pub size : length es ≡ n
    pub alloc_size : length alloc ≡ n
    pub sacs : Sacs es n
    pub range : InRange n xs
    pub given : (i : ℕ) → i < n → get_or alloc i 0 + (get_or es i nobody).req_sz ≡ req i
    pub asking : (i : ℕ) → i < n → count (suc i) xs ≡ wants (get_or es i nobody).req_sz
    pub spent : sum alloc + w ≡ w₀
    pub dcs : (i : ℕ) → i < n → w_min < w → (get_or es i nobody).dc ≤ limit
    pub dcs_end : (i : ℕ) → i < n → (get_or es i nobody).dc ≤ limit + pkt_size

  -- The active list holds what the books say.
  pub record Going (s : Round q) (xs : List ℕ) : Type 0 where
    pub holds : q.Holds n s.active_list xs
    pub ledger : Ledger s.req_entitys s.alloc_map s.w xs

  -- The loop's result: `W` is down to the minimum, or every request is met.
  pub record Ended (s : Round q) : Type 0 where
    pub list : List ℕ
    pub going : Going s list
    pub stop : (s.w ≤ w_min) ⊎ ((i : ℕ) → i < n → (get_or s.req_entitys i nobody).req_sz ≡ 0)

  module _ (pos : 0 < pkt_size) (room : limit + pkt_size < 2 ^ 64) (big : pkt_size ≤ limit)
      (small : (i : ℕ) → i < n → req i < 2 ^ 64)
      (noted : (i : ℕ) → i < n → 0 < req i → get_or req_szs i 0 ≡ req i) where
    -- One user `i`, at the head of the list, is served from `s` with the result `v`.
    module _ (s : Round q) (i : ℕ) (ys : List ℕ)
        (g : Ledger s.req_entitys s.alloc_map s.w (suc i ∷ ys)) (h : i < n)
        (more : w_min < s.w) where
      abbrev e : DrrReq
      e = get_or s.req_entitys i nobody

      abbrev start : Serving
      start = record {
        w = s.w;
        dc = add64 e.dc pkt_size;
        req_sz = e.req_sz;
        alloc = get_or s.alloc_map e.sac 0;
        frag = false;
      }

      start_lem :
          (start.alloc ≡ get_or s.alloc_map i 0)
          × (start.alloc + start.req_sz ≡ req i)
          × (start.dc ≡ e.dc + pkt_size)
          × (0 < start.req_sz)
          × (count (suc i) ys ≡ 0)
      start_lem =
          let at = ap (λ (k : ℕ). get_or s.alloc_map k 0) (g.sacs i h) in
          let asked : 1 + count (suc i) ys ≡ wants e.req_sz = ground (arith, g.asking i h) in
          (
            at,
            omega (arith, at, g.given i h),
            omega (arith, g.dcs i h more),
            ground arith,
            ground arith,
          )

      module _ (v : Serving) (sv : Served pkt_size w_min pos start v) where
        -- The array after the user's entry has been written, with deficit `d`.
        abbrev entitys : ℕ → List DrrReq
        entitys d = set s.req_entitys i (record e { dc = d; req_sz = v.req_sz })

        settled-Going :
            (l : q.State) (xs : List ℕ) (d : ℕ)
            → q.Holds n l xs
            → InRange n xs
            → ((j : ℕ)
                → j < n
                → count (suc j) xs ≡ (if i == j then wants v.req_sz else count (suc j) ys))
            → (w_min < v.w → d ≤ limit)
            → d ≤ limit + pkt_size
            → Going
                (record {
                  active_list = l;
                  req_entitys = entitys d;
                  alloc_map = set s.alloc_map e.sac v.alloc;
                  w = v.w;
                })
                xs
        settled-Going l xs d hl range counts low high =
            let entry = λ (j : ℕ).
              get_or-set s.req_entitys i j (record e { dc = d; req_sz = v.req_sz }) nobody
                (omega (arith, g.size)) in
            let cell = λ (j : ℕ).
              get_or-set s.alloc_map e.sac j v.alloc 0 (omega (arith, g.alloc_size, g.sacs i h)) in
            record {
              holds = hl;
              ledger = record {
                size = length-set s.req_entitys i _ ∙ g.size;
                alloc_size = length-set s.alloc_map e.sac v.alloc ∙ g.alloc_size;
                sacs = λ j p. ground (arith, entry j, g.sacs j p, g.sacs i h);
                range = range;
                given = λ j p.
                    ground (
                      arith,
                      entry j,
                      cell j,
                      g.sacs i h,
                      g.given j p,
                      sv.granted.asked,
                      start_lem,
                    );
                asking = λ j p. ground (arith, entry j, counts j p, g.asking j p);
                spent = omega (
                  arith,
                  sum-set s.alloc_map e.sac v.alloc (omega (arith, g.alloc_size, g.sacs i h)),
                  sv.granted.taken,
                  g.spent,
                );
                dcs = λ j p m. ground (arith, entry j, g.dcs j p, low m, sv.granted.less);
                dcs_end = λ j p. ground (arith, entry j, g.dcs_end j p, high);
              };
            }

        abbrev Settled : Type 0
        Settled =
            (s' : Round q) × (xs : List ℕ) × (settle q pkt_size w_min req_szs (suc i) e v s
              ≡ some s')
            × Going s' xs
            × (s'.w ≡ v.w)

        low_deficit : v.req_sz ≢ 0 → w_min < v.w → v.dc ≤ limit
        low_deficit ne m = ground (arith, sv.settled m)

        high_deficit : v.dc ≤ limit + pkt_size
        high_deficit = omega (arith, sv.granted.deficit, start_lem, g.dcs i h more)

        -- `alloc_map` has all that was noted exactly when nothing is left to ask for.
        full_iff : (v.alloc == get_or req_szs e.sac 0) ≡ (v.req_sz == 0)
        full_iff =
            let at = ap (λ (k : ℕ). get_or req_szs k 0) (g.sacs i h) in
            ground (arith, at, noted i h, sv.granted.asked, start_lem)

        rest_range : InRange n ys
        rest_range = InRange-tail n (suc i) ys g.range

        rest_short : length ys < n
        rest_short =
            omega (arith, length-le (suc i ∷ ys) n g.range (λ j p. ground (arith, g.asking j p)))

        settle-leave :
            (v.alloc == get_or req_szs e.sac 0) ≡ true
            → settle q pkt_size w_min req_szs (suc i) e v s
              ≡ some (record {
                active_list = s.active_list;
                req_entitys = entitys 0;
                alloc_map = set s.alloc_map e.sac v.alloc;
                w = v.w;
              })
        unfolding settle
        settle-leave full = rw full refl

        settle-wait :
            (r : Reply) (l : q.State)
            → (v.alloc == get_or req_szs e.sac 0) ≡ false
            → q.call (if v.frag then put_front (suc i) else put_back (suc i)) s.active_list
              ≡ some (r, l)
            → settle q pkt_size w_min req_szs (suc i) e v s
              ≡ some (record {
                active_list = l;
                req_entitys = entitys v.dc;
                alloc_map = set s.alloc_map e.sac v.alloc;
                w = v.w;
              })
        unfolding settle
        settle-wait r l differs c = rw (differs, c) refl

        module _ (hl : q.Holds n s.active_list ys) where
          settle_full : v.req_sz ≡ 0 → Settled
          settle_full z = (
            _,
            ys,
            settle-leave (ground (arith, full_iff)),
            settled-Going s.active_list ys 0 hl rest_range (λ j p. ground (arith, start_lem))
                (λ m. omega arith) (omega arith),
            refl,
          )

          settle_front : v.req_sz ≢ 0 → v.frag ≡ true → Settled
          settle_front ne f =
              let (l, c, hl') = put_front_lem q n s.active_list (suc i) ys hl rest_short in
              (
                _,
                suc i ∷ ys,
                settle-wait (status ok) l (ground (arith, full_iff)) (
                    ap
                      (λ b.
                        q.call (if b then put_front (suc i) else put_back (suc i)) s.active_list)
                      f
                    ∙ c),
                settled-Going l (suc i ∷ ys) v.dc hl' g.range (λ j p. ground (arith, start_lem))
                    (low_deficit ne) high_deficit,
                refl,
              )

          settle_back : v.req_sz ≢ 0 → v.frag ≡ false → Settled
          settle_back ne f =
              let (l, c, hl') = put_back_lem q n s.active_list (suc i) ys hl rest_short in
              (
                _,
                ys ++ suc i ∷ [],
                settle-wait (status ok) l (ground (arith, full_iff)) (
                    ap
                      (λ b.
                        q.call (if b then put_front (suc i) else put_back (suc i)) s.active_list)
                      f
                    ∙ c),
                settled-Going l (ys ++ suc i ∷ []) v.dc hl'
                    (λ p. ground (arith, count-snoc p (suc i) ys, g.range p))
                    (λ j p. ground (arith, start_lem, count-snoc (suc j) (suc i) ys))
                    (low_deficit ne) high_deficit,
                refl,
              )

          settle_lem : Settled
          settle_lem = elim (Bool-cases (v.req_sz == 0)) [
            | inl z ↦ settle_full ((==_iff v.req_sz 0).0 z)
            | inr z ↦ elim (Bool-cases v.frag) [
              | inl f ↦ settle_front (ground arith) f
              | inr f ↦ settle_back (ground arith) f
            ]
          ]

    serve_user-some :
        (s s' : Round q) (i : ℕ) (v : Serving)
        → let e = get_or s.req_entitys i nobody in
          serve (e.req_sz + 1) pkt_size w_min (record {
            w = s.w;
            dc = add64 e.dc pkt_size;
            req_sz = e.req_sz;
            alloc = get_or s.alloc_map e.sac 0;
            frag = false;
          })
            ≡ some v
          → settle q pkt_size w_min req_szs (suc i) (get_or s.req_entitys i nobody) v s ≡ some s'
          → serve_user q pkt_size w_min req_szs (suc i) s ≡ some s'
    unfolding serve_user
    serve_user-some s s' i v e₁ e₂ = rw (e₁, e₂) refl

    -- Serving a user that was popped: the loop goes on with less left of `W`.
    served-Going :
        (s : Round q) (i : ℕ) (ys : List ℕ)
        → Ledger s.req_entitys s.alloc_map s.w (suc i ∷ ys)
        → i < n
        → w_min < s.w
        → q.Holds n s.active_list ys
        → (s' : Round q) × (xs : List ℕ) × (serve_user q pkt_size w_min req_szs (suc i) s ≡ some s')
          × Going s' xs
          × (s'.w < s.w)
    served-Going s i ys g h more hl =
        let (at, total, dc, asks, _) = start_lem s i ys g h more in
        let (v, e₁, sv) =
          serve-Served pkt_size w_min pos ((get_or s.req_entitys i nobody).req_sz + 1)
            (start s i ys g h more) (omega (arith, total, small i h)) (omega arith) in
        let (s', xs, e₂, g', w) = settle_lem s i ys g h more v sv hl in
        (
          s',
          xs,
          serve_user-some s s' i v e₁ e₂,
          g',
          omega (arith, sv.progress (omega (arith, dc, pos)) asks more, w),
        )

    loop-stop :
        (fuel : ℕ) (s : Round q)
        → ltb w_min s.w ≡ false
        → drr_loop q pkt_size w_min req_szs (suc fuel) s ≡ some s
    unfolding drr_loop
    loop-stop fuel s t = rw t refl

    loop-nil :
        (fuel : ℕ) (s : Round q) (l : q.State)
        → ltb w_min s.w ≡ true
        → q.call take_front s.active_list ≡ some (item internal 0, l)
        → drr_loop q pkt_size w_min req_szs (suc fuel) s ≡ some (record s { active_list = l })
    unfolding drr_loop
    loop-nil fuel s l t c = rw (t, c) refl

    loop-served :
        (fuel : ℕ) (s : Round q) (l : q.State) (i : ℕ) (s' : Round q) {r : Option (Round q)}
        → ltb w_min s.w ≡ true
        → q.call take_front s.active_list ≡ some (item ok (suc i), l)
        → serve_user q pkt_size w_min req_szs (suc i) (record s { active_list = l }) ≡ some s'
        → drr_loop q pkt_size w_min req_szs fuel s' ≡ r
        → drr_loop q pkt_size w_min req_szs (suc fuel) s ≡ r
    unfolding drr_loop
    loop-served fuel s l i s' t c e₁ e₂ = rw (t, c, suc-eq-zero i, e₁) e₂

    -- The fuel `W + 1` is enough for the second loop, which ends as `Ended` says.
    pub drr_loop-Ended :
        (fuel : ℕ) (s : Round q) (xs : List ℕ)
        → Going s xs
        → s.w < fuel
        → (s' : Round q) × (drr_loop q pkt_size w_min req_szs fuel s ≡ some s') × Ended s'
    drr_loop-Ended zero s xs g f = absurd (omega arith)
    drr_loop-Ended (suc fuel) s [] g f = elim (Bool-cases (ltb w_min s.w)) [
      | inr t ↦ (s, loop-stop fuel s t, record { list = []; going = g; stop = inl (ground arith) })
      | inl t ↦
          let (l, c, hl) = take_front-nil q n s.active_list g.holds in
          (
            record s { active_list = l },
            loop-nil fuel s l t c,
            record {
              list = [];
              going = record { holds = hl; ledger = g.ledger };
              stop = inr (λ i p. ground (arith, g.ledger.asking i p));
            },
          )
    ]
    drr_loop-Ended (suc fuel) s (zero ∷ ys) g f =
        absurd (omega (arith, InRange-head n 0 ys g.ledger.range))
    drr_loop-Ended (suc fuel) s (suc i ∷ ys) g f = elim (Bool-cases (ltb w_min s.w)) [
      | inr t ↦ (
        s,
        loop-stop fuel s t,
        record { list = suc i ∷ ys; going = g; stop = inl (ground arith) },
      )
      | inl t ↦
          let (l, c, hl) = take_front-cons q n s.active_list (suc i) ys g.holds in
          let inside = InRange-head n (suc i) ys g.ledger.range in
          let (s₁, xs₁, e₁, g₁, less) =
            served-Going (record s { active_list = l }) i ys g.ledger inside.1 (ltb→lt _ _ t) hl in
          let (s', e', ended) = drr_loop-Ended fuel s₁ xs₁ g₁ (omega (arith, less)) in
          (s', loop-served fuel s l i s₁ t c e₁ e', ended)
    ]
