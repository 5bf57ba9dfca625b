-- ===== src/Drr/Alloc.antt =====
-- src/ld_drr.c: what a call of drr_resource_alloc does as a whole, and the calls before it.
use liteldacssdk.Prelude.{
  ℕ, ◌+◌, ◌^◌, ◌≤◌, ◌<◌, min, ◌≡◌, refl, sym, ap, ◌∙◌, ◌⊎◌, Option, some, List, arith, length,
  get_or, replicate, length-replicate, get_or-replicate, ltb, if◌then◌else◌,
}
use liteldacssdk.Err.{Err, ok}
use liteldacssdk.Deque.{Implementation}
use liteldacssdk.Drr.{DrrReq, nobody, Enrolled, Round, enroll, drr_loop, drr_resource_alloc}
use liteldacssdk.Drr.Count.{sum, sum-replicate, sum_below, le-sum_below}
use liteldacssdk.Drr.Enroll.{wants, Users, Upto, enroll_all}
use liteldacssdk.Drr.Loop.{Ledger, Going, drr_loop-Ended}

-- What the entries ask for.
abbrev pub requests : List DrrReq → ℕ → ℕ
requests es i = (get_or es i nobody).req_sz

module _ (q : Implementation) (n limit : ℕ) where
  -- The table and the active list before a call: `n` users under their numbers, no user twice in
  -- the list, none there without a request, and every deficit at most `limit`.
  abbrev pub IsValid : Enrolled q → List ℕ → Type 0
  IsValid drr xs =
      Users q n limit (requests drr.req_entitys) drr.active_list xs drr.req_entitys
      × (length drr.req_szs ≡ n)

-- The outcome of a call that may hand out `w` bytes.
pub record Allocation (q : Implementation) (n limit pkt_size w w_min : ℕ) (drr : Enrolled q)
    (r : Option (Err × List ℕ × Enrolled q)) : Type 0 where
  pub after : Enrolled q
  pub alloc_map : List ℕ
  pub left : ℕ
  pub list : List ℕ
  pub done : r ≡ some (ok, alloc_map, after)
  pub granted :
      (i : ℕ)
      → i < n
      → get_or alloc_map i 0 + requests after.req_entitys i ≡ requests drr.req_entitys i
  pub spent : sum alloc_map + left ≡ min w (sum_below (requests drr.req_entitys) n)
  pub stop : (left ≤ w_min) ⊎ ((i : ℕ) → i < n → requests after.req_entitys i ≡ 0)
  pub valid : IsValid q n (limit + pkt_size) after list

module _ (q : Implementation) (n limit pkt_size w w_min : ℕ) (drr : Enrolled q) (xs : List ℕ) where
  abbrev req : ℕ → ℕ
  req = requests drr.req_entitys

  alloc-some :
      (s : Enrolled q) (w₀ : ℕ) (t : Round q)
      → enroll q n 0 (record drr { total = 0 }) ≡ some s
      → w₀ ≡ (if ltb s.total w then s.total else w)
      → drr_loop q pkt_size w_min s.req_szs (w₀ + 1) (record {
        active_list = s.active_list;
        req_entitys = s.req_entitys;
        alloc_map = replicate n 0;
        w = w₀;
      })
        ≡ some t
      → drr_resource_alloc q n pkt_size w w_min drr
        ≡ some
            (ok, t.alloc_map, record s { active_list = t.active_list; req_entitys = t.req_entitys })
  unfolding drr_resource_alloc
  alloc-some s w₀ t e₁ e₂ e₃ = rw (e₁, ← e₂, e₃) refl

  start-Ledger :
      (w₀ : ℕ) (s : Enrolled q) (ys : List ℕ)
      → Upto q n limit req n s ys
      → Ledger q n limit req pkt_size w_min w₀ s.req_szs s.req_entitys (replicate n 0) w₀ ys
  start-Ledger w₀ s ys u = record {
    size = u.users.size;
    alloc_size = length-replicate n 0;
    sacs = u.users.sacs;
    range = u.users.range;
    given = λ i p. omega (arith, get_or-replicate {A = ℕ} n i 0, u.users.reqs i p);
    asking = λ i p. u.asking i p ∙ ap wants (sym (u.users.reqs i p));
    spent = omega (arith, sum-replicate n);
    dcs = λ i p m. u.users.dcs i p;
    dcs_end = λ i p. omega (arith, u.users.dcs i p);
  }

  end-IsValid :
      (w₀ : ℕ) (s : Enrolled q) (t : Round q) (ys : List ℕ)
      → length s.req_szs ≡ n
      → Going q n limit req pkt_size w_min w₀ s.req_szs t ys
      → IsValid q n
          (limit + pkt_size)
          (record s { active_list = t.active_list; req_entitys = t.req_entitys })
          ys
  end-IsValid w₀ s t ys e g = (
    record {
      holds = g.holds;
      size = g.ledger.size;
      sacs = g.ledger.sacs;
      reqs = λ i p. refl;
      dcs = g.ledger.dcs_end;
      range = g.ledger.range;
      once = λ i p. omega (arith, g.ledger.asking i p);
    },
    e,
  )

  -- On a valid table, drr_resource_alloc ends, on any implementation of the list, and never faults.
  -- Each user is
  -- given exactly what its request loses; all that is given and what is left make up the smaller
  -- of the resources and the requests; and at most the minimum is left, or every request is met.
  -- The table is valid for the next call. (For a packet of at least one byte, within the limit of the
  -- table, and sums that fit
  -- 64 bits.)
  pub drr_resource_alloc-Allocation :
      IsValid q n limit drr xs
      → 0 < pkt_size
      → pkt_size ≤ limit
      → limit + pkt_size < 2 ^ 64
      → sum_below (requests drr.req_entitys) n < 2 ^ 64
      → Allocation q n limit pkt_size w w_min drr (drr_resource_alloc q n pkt_size w w_min drr)
  drr_resource_alloc-Allocation v pos big room fits =
      let (s, ys, e₁, u) = enroll_all q n limit req fits drr xs v.0 v.1 in
      let w₀ = if ltb s.total w then s.total else w in
      let (t, e₂, ended) =
        drr_loop-Ended q n limit req pkt_size w_min w₀ s.req_szs pos room big
          (λ i p. omega (arith, le-sum_below req i n p)) u.szs (w₀ + 1)
          (record {
            active_list = s.active_list;
            req_entitys = s.req_entitys;
            alloc_map = replicate n 0;
            w = w₀;
          })
          ys (record { holds = u.users.holds; ledger = start-Ledger w₀ s ys u }) (omega arith) in
      record {
        after = record s { active_list = t.active_list; req_entitys = t.req_entitys };
        alloc_map = t.alloc_map;
        left = t.w;
        list = ended.list;
        done = alloc-some s w₀ t e₁ refl e₂;
        granted = ended.going.ledger.given;
        spent = ended.going.ledger.spent ∙ ground (arith, u.total);
        stop = ended.stop;
        valid = end-IsValid w₀ s t ended.list u.szs_size ended.going;
      }
