-- ===== src/Drr/Setup.antt =====
-- src/ld_drr.c, init_ld_drr and ld_req_update: the table that the allocation starts from.
use liteldacssdk.Prelude.{
  ℕ, zero, suc, ◌+◌, ◌%◌, ◌^◌, ◌≤◌, ◌<◌, ◌≡◌, refl, ap, ◌∙◌, List, [], arith, length, get_or,
  length-set, length-replicate, get_or-set, ◌==◌, if◌then◌else◌,
}
use liteldacssdk.Deque.{Implementation}
use liteldacssdk.Drr.{nobody, add64, entitys_from, ld_req_update, init_drr, Enrolled}
use liteldacssdk.Drr.Alloc.{requests, IsValid}

length-entitys_from : (left i : ℕ) → length (entitys_from left i) ≡ left
unfolding entitys_from
length-entitys_from zero i = refl
length-entitys_from (suc left) i = ap suc (length-entitys_from left (i + 1))

get_or-entitys_from :
    (left i j : ℕ)
    → j < left
    → get_or (entitys_from left i) j nobody ≡ record { sac = (i + j) % 2 ^ 16; dc = 0; req_sz = 0 }
unfolding entitys_from
get_or-entitys_from zero i j h = absurd (omega arith)
get_or-entitys_from (suc left) i zero h =
    ap (λ k. record { sac = k % 2 ^ 16; dc = 0; req_sz = 0 }) (omega arith)
get_or-entitys_from (suc left) i (suc j) h =
    get_or-entitys_from left (i + 1) j (omega arith)
    ∙ ap (λ k. record { sac = k % 2 ^ 16; dc = 0; req_sz = 0 }) (omega arith)

module _ (q : Implementation) (n limit : ℕ) where
  -- A fresh table of at most 65536 users over an empty list is valid, and asks for nothing.
  pub init_drr-IsValid :
      (l : q.State)
      → q.Holds n l []
      → n ≤ 2 ^ 16
      → IsValid q n limit (init_drr q n l) []
        × ((i : ℕ) → i < n → requests (init_drr q n l).req_entitys i ≡ 0)
  unfolding init_drr
  init_drr-IsValid l v h =
      let at = λ (i : ℕ) (p : i < n). get_or-entitys_from n 0 i p in
      (
        (
          record {
            holds = v;
            size = length-entitys_from n 0;
            sacs = λ i p. ground (arith, at i p);
            reqs = λ i p. refl;
            dcs = λ i p. ground (arith, at i p);
            range = λ p c. absurd (omega arith);
            once = λ i p. omega arith;
          },
          length-replicate n 0,
        ),
        λ i p. ground (arith, at i p),
      )

  -- On a valid table, for a user in it and a sum that fits 64 bits, ld_req_update adds to the request
  -- of that user, changes no other, and keeps the table valid.
  pub ld_req_update-IsValid :
      (drr : Enrolled q) (xs : List ℕ) (sac req_sz : ℕ)
      → IsValid q n limit drr xs
      → sac < n
      → requests drr.req_entitys sac + req_sz < 2 ^ 64
      → IsValid q n limit (record drr { req_entitys = ld_req_update drr.req_entitys sac req_sz }) xs
        × ((i : ℕ)
            → i < n
            → requests (ld_req_update drr.req_entitys sac req_sz) i ≡ (
                if sac == i
                then requests drr.req_entitys i + req_sz
                else requests drr.req_entitys i))
  unfolding ld_req_update
  ld_req_update-IsValid drr xs sac req_sz v h fits =
      let es = drr.req_entitys in
      let e = get_or es sac nobody in
      let at = λ (i : ℕ).
        get_or-set es sac i (record e { req_sz = add64 e.req_sz req_sz }) nobody
          (omega (arith, v.0.size)) in
      (
        (
          record {
            holds = v.0.holds;
            size = length-set es sac _ ∙ v.0.size;
            sacs = λ i p. ground (arith, at i, v.0.sacs i p, v.0.sacs sac h);
            reqs = λ i p. refl;
            dcs = λ i p. ground (arith, at i, v.0.dcs i p, v.0.dcs sac h);
            range = v.0.range;
            once = λ i p. ground (arith, at i, v.0.once i p);
          },
          v.1,
        ),
        λ i p. ground (arith, at i),
      )
