-- ===== src/Drr/Enroll.antt =====
-- src/ld_drr.c, the first loop: after it the active list holds exactly the users that ask.
use liteldacssdk.Prelude.{
  ℕ, zero, suc, ◌+◌, ◌^◌, ◌≤◌, ◌<◌, ◌≡◌, refl, ap, ◌∙◌, subst, ◌≢◌, inl, inr, Bool, true, false,
  Option, some, List, [], ◌∷◌, ◌++◌, arith, length, set, get_or, length-set, get_or-set, ltb, ◌==◌,
  if◌then◌else◌, ==_iff, Bool-cases,
}
use liteldacssdk.Err.{ok}
use liteldacssdk.Deque.{find, put_back, status, found, exist, Implementation}
use liteldacssdk.Deque.Client.{find_lem, put_back_lem}
use liteldacssdk.Drr.{DrrReq, nobody, add64, drr_fac, Enrolled, join, enroll_one, enroll}
use liteldacssdk.Drr.Count.{
  count, count-snoc, sum_below, sum_below_mono, sum_below-add_one, sum_below-zero, InRange,
  length-lt, Sacs, exist-count,
}

-- 1 for a user that asks for something.
abbrev pub wants : ℕ → ℕ
wants r = if ltb 0 r then 1 else 0

module _ (q : Implementation) (n limit : ℕ) (req : ℕ → ℕ) where
  -- The state of `n` users that ask for `req i` each, with the active list `xs`.
  pub record Users (l : q.State) (xs : List ℕ) (es : List DrrReq) : Type 0 where
    pub holds : q.Holds n l xs
    pub size : length es ≡ n
    pub sacs : Sacs es n
    pub reqs : (i : ℕ) → i < n → (get_or es i nobody).req_sz ≡ req i
    pub dcs : (i : ℕ) → i < n → (get_or es i nobody).dc ≤ limit
    pub range : InRange n xs
    pub once : (i : ℕ) → i < n → count (suc i) xs ≤ wants (req i)

  -- What joining gives: user `i` stands in the list, and the others as before.
  record Joined (i : ℕ) (s : Enrolled q) (xs : List ℕ) (r : Option (Enrolled q)) : Type 0 where
    after : Enrolled q
    list : List ℕ
    done : r ≡ some after
    users : Users after.active_list list after.req_entitys
    there : (p : ℕ) → count p list ≡ (if suc i == p then 1 else count p xs)
    same_szs : after.req_szs ≡ s.req_szs
    same_total : after.total ≡ s.total

  module _ (i : ℕ) (h : i < n) (s : Enrolled q) (xs : List ℕ)
      (u : Users s.active_list xs s.req_entitys) (asks : 0 < req i) where
    join-old :
        (l : q.State)
        → q.call (find (drr_fac s.req_entitys) (suc i)) s.active_list ≡ some (found true, l)
        → join q i s ≡ some (record s { active_list = l })
    unfolding join
    join-old l e = rw e refl

    abbrev joined_entitys : List DrrReq
    joined_entitys = set s.req_entitys i (record (get_or s.req_entitys i nobody) { dc = 0 })

    join-new :
        (l l' : q.State)
        → q.call (find (drr_fac s.req_entitys) (suc i)) s.active_list ≡ some (found false, l)
        → q.call (put_back (suc i)) l ≡ some (status ok, l')
        → join q i s ≡ some (record s { active_list = l'; req_entitys = joined_entitys })
    unfolding join
    join-new l l' e e' = rw (e, e') refl

    entity_set :
        (j : ℕ)
        → get_or joined_entitys j nobody ≡ (
            if i == j
            then record (get_or s.req_entitys i nobody) { dc = 0 }
            else get_or s.req_entitys j nobody)
    entity_set j = get_or-set s.req_entitys i j _ nobody (omega (arith, u.size))

    found_lem :
        (b : Bool) → ltb 0 (count (suc i) xs) ≡ b → exist (drr_fac s.req_entitys) (suc i) xs ≡ b
    found_lem b e = exist-count s.req_entitys n i xs u.sacs h u.range ∙ e

    old-Joined : ltb 0 (count (suc i) xs) ≡ true → Joined i s xs (join q i s)
    old-Joined e =
        let (l, c, v) = find_lem q n s.active_list (drr_fac s.req_entitys) (suc i) xs u.holds in
        record {
          after = record s { active_list = l };
          list = xs;
          done = join-old l (c ∙ ap (λ b. some (found b, l)) (found_lem true e));
          users = record {
            holds = v;
            size = u.size;
            sacs = u.sacs;
            reqs = u.reqs;
            dcs = u.dcs;
            range = u.range;
            once = u.once;
          };
          there = λ p. ground (arith, u.once i h);
          same_szs = refl;
          same_total = refl;
        }

    new-Joined : ltb 0 (count (suc i) xs) ≡ false → Joined i s xs (join q i s)
    new-Joined e =
        let (l, c, v) = find_lem q n s.active_list (drr_fac s.req_entitys) (suc i) xs u.holds in
        let absent : count (suc i) xs ≡ 0 = ground arith in
        let short = length-lt xs i n u.range (λ j p. ground (arith, u.once j p)) h absent in
        let (l', c', v') = put_back_lem q n l (suc i) xs v short in
        record {
          after = record s { active_list = l'; req_entitys = joined_entitys };
          list = xs ++ (suc i) ∷ [];
          done = join-new l l' (c ∙ ap (λ b. some (found b, l)) (found_lem false e)) c';
          users = record {
            holds = v';
            size = length-set s.req_entitys i _ ∙ u.size;
            sacs = λ j p. ground (arith, entity_set j, u.sacs j p, u.sacs i h);
            reqs = λ j p. ground (arith, entity_set j, u.reqs j p, u.reqs i h);
            dcs = λ j p. ground (arith, entity_set j, u.dcs j p);
            range = λ p. ground (arith, count-snoc p (suc i) xs, u.range p);
            once = λ j p. ground (arith, count-snoc (suc j) (suc i) xs, u.once j p);
          };
          there = λ p. ground (arith, count-snoc p (suc i) xs);
          same_szs = refl;
          same_total = refl;
        }

    join-Joined : Joined i s xs (join q i s)
    join-Joined = elim (Bool-cases (ltb 0 (count (suc i) xs))) [
      | inl e ↦ old-Joined e
      | inr e ↦ new-Joined e
    ]

  -- Users below `i` have been looked at.
  pub record Upto (i : ℕ) (s : Enrolled q) (xs : List ℕ) : Type 0 where
    pub users : Users s.active_list xs s.req_entitys
    pub asking : (j : ℕ) → j < i → count (suc j) xs ≡ wants (req j)
    pub szs_size : length s.req_szs ≡ n
    pub szs : (j : ℕ) → j < i → 0 < req j → get_or s.req_szs j 0 ≡ req j
    pub total : s.total ≡ sum_below req i

  enroll_one-skip :
      (i : ℕ) (s : Enrolled q)
      → (get_or s.req_entitys i nobody).req_sz ≡ 0
      → enroll_one q i s ≡ some s
  unfolding enroll_one
  enroll_one-skip i s e = rw e refl

  -- The state after a user that asks has joined.
  abbrev noted : ℕ → Enrolled q → Enrolled q
  noted i s =
      let e = get_or s.req_entitys i nobody in
      record s { req_szs = set s.req_szs e.sac e.req_sz; total = add64 s.total e.req_sz }

  enroll_one-join :
      (i : ℕ) (s s' : Enrolled q)
      → (get_or s.req_entitys i nobody).req_sz ≢ 0
      → join q i s ≡ some s'
      → enroll_one q i s ≡ some (noted i s')
  unfolding enroll_one
  enroll_one-join i s s' ne e =
      let no : ((get_or s.req_entitys i nobody).req_sz == 0) ≡ false = ground arith in
      rw (no, e) refl

  module _ (fits : sum_below req n < 2 ^ 64) where
    enroll_one-Upto :
        (i : ℕ) (s : Enrolled q) (xs : List ℕ)
        → i < n
        → Upto i s xs
        → (s' : Enrolled q) × (xs' : List ℕ) × (enroll_one q i s ≡ some s') × Upto (i + 1) s' xs'
    enroll_one-Upto i s xs h u = elim (Bool-cases (req i == 0)) [
      | inl idle ↦
          let none_asked : req i ≡ 0 = (==_iff (req i) 0).0 idle in
          (
            s,
            xs,
            enroll_one-skip i s (u.users.reqs i h ∙ none_asked),
            record {
              users = u.users;
              asking = λ j p. ground (arith, u.asking j, u.users.once i h);
              szs_size = u.szs_size;
              szs = λ j p. ground (arith, u.szs j);
              total = omega (arith, u.total, sum_below-add_one req i);
            },
          )
      | inr busy ↦
          let asks : 0 < req i = ground arith in
          let j = join-Joined i h s xs u.users asks in
          let e = get_or j.after.req_entitys i nobody in
          (
            noted i j.after,
            j.list,
            enroll_one-join i s j.after (λ z. absurd (omega (arith, u.users.reqs i h))) j.done,
            record {
              users = j.users;
              asking = λ k p. ground (arith, u.asking k, j.there (suc k));
              szs_size =
                  length-set j.after.req_szs e.sac e.req_sz ∙ ap length j.same_szs ∙ u.szs_size;
              szs = λ k p a. ground (
                arith,
                ap (λ (l : List ℕ). get_or l k 0) j.same_szs,
                ap length j.same_szs,
                u.szs_size,
                u.szs k,
                j.users.sacs i h,
                j.users.reqs i h,
                get_or-set j.after.req_szs e.sac k e.req_sz 0,
              );
              total = omega (
                arith,
                u.total,
                j.same_total,
                j.users.reqs i h,
                sum_below-add_one req i,
                sum_below_mono req (i + 1) n (omega arith),
              );
            },
          )
    ]

    enroll-Upto :
        (left i : ℕ) (s : Enrolled q) (xs : List ℕ)
        → i + left ≡ n
        → Upto i s xs
        → (s' : Enrolled q) × (xs' : List ℕ) × (enroll q left i s ≡ some s') × Upto n s' xs'
    unfolding enroll
    enroll-Upto zero i s xs e u =
        let e' : i ≡ n = omega arith in (s, xs, refl, subst (λ k. Upto k s xs) e' u)
    enroll-Upto (suc left) i s xs e u =
        let (s₁, xs₁, e₁, u₁) = enroll_one-Upto i s xs (omega arith) u in
        let (s', xs', e', u') = enroll-Upto left (i + 1) s₁ xs₁ (omega arith) u₁ in
        (s', xs', rw e₁ e', u')

    -- After the first loop every user that asks stands in the list once, and no other does; what
    -- each asks for is noted, and so is the sum.
    pub enroll_all :
        (s : Enrolled q) (xs : List ℕ)
        → Users s.active_list xs s.req_entitys
        → length s.req_szs ≡ n
        → (s' : Enrolled q) × (xs' : List ℕ) × (enroll q n 0 (record s { total = 0 }) ≡ some s')
          × Upto n s' xs'
    enroll_all s xs u e =
        enroll-Upto n 0 (record s { total = 0 }) xs (omega arith)
          (record {
            users = record {
              holds = u.holds;
              size = u.size;
              sacs = u.sacs;
              reqs = u.reqs;
              dcs = u.dcs;
              range = u.range;
              once = u.once;
            };
            asking = λ j p. absurd (omega arith);
            szs_size = e;
            szs = λ j p. absurd (omega arith);
            total = sum_below-zero req;
          })
