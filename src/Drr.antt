-- ===== src/Drr.antt =====
-- src/ld_drr.c: deficit round robin over the users that ask for bandwidth.
-- The list of active users is any implementation of the bounded deque (`Deque.Implementation`;
-- `RBuffer.Deque.rbuffer_deque` is the one that the code uses). A pointer to `req_entitys[i]` is
-- the number `i + 1`, NULL is 0. `none` is a fault of the list, or the model's fuel running out;
-- `Drr.Alloc` shows that neither happens. `calloc` is taken to succeed.
mod Serve
mod Count
mod Enroll
mod Loop
pub mod Alloc
pub mod Setup
mod Tests
use liteldacssdk.Prelude.{
  ℕ, zero, suc, ◌+◌, ◌-◌, ◌%◌, ◌^◌, min, max, ap, Bool, true, false, ◌&&◌, Option, none, some, List,
  [], ◌∷◌, map, set, get_or, take, replicate, ltb, leb, ◌==◌, if◌then◌else◌, ◌>>=◌,
}
use liteldacssdk.Err.{Err, ok}
use liteldacssdk.Deque.{put_front, put_back, take_front, find, Reply, item, found, Implementation}

-- `drr_req_t`
pub record DrrReq : Type 0 where
  pub sac : ℕ
  pub dc : ℕ
  pub req_sz : ℕ

abbrev pub nobody : DrrReq
nobody = record { sac = 0; dc = 0; req_sz = 0 }

-- The index of the entry that a pointer is to, and the entry.
abbrev pub place : ℕ → ℕ
place zero = 0
place (suc i) = i

abbrev pub entity : List DrrReq → ℕ → DrrReq
entity es ptr = get_or es (place ptr) nobody

-- Sums of `size_t` and `uint64_t`.
abbrev pub add64 : ℕ → ℕ → ℕ
add64 a b = (a + b) % 2 ^ 64

-- `req_entitys[i]` at the start: `SAC` is 16 bits wide.
pub entitys_from : ℕ → ℕ → List DrrReq
entitys_from zero i = []
entitys_from (suc left) i =
    record { sac = i % 2 ^ 16; dc = 0; req_sz = 0 } ∷ entitys_from left (i + 1)

-- ld_req_update, for a `SAC` in the table.
pub ld_req_update : List DrrReq → ℕ → ℕ → List DrrReq
ld_req_update es sac req_sz =
    let e = get_or es sac nobody in set es sac (record e { req_sz = add64 e.req_sz req_sz })

-- drr_fac: two pointers to the same user.
pub drr_fac : List DrrReq → ℕ → ℕ → Bool
drr_fac es a b = (entity es a).sac == (entity es b).sac

-- The locals of the inner loop for one user: `W`, its `DC` and `req_sz`, its cell of
-- `alloc_map`, and `frag_data`.
pub record Serving : Type 0 where
  pub w : ℕ
  pub dc : ℕ
  pub req_sz : ℕ
  pub alloc : ℕ
  pub frag : Bool

-- `grant n`: the updates that hand `n` bytes out. No subtraction wraps: each branch below tests
-- what makes `n` at most `W`, `DC` and `req_sz`.
abbrev pub grant : ℕ → Serving → Serving
grant n s = record s { w = s.w - n; dc = s.dc - n; req_sz = s.req_sz - n; alloc = add64 s.alloc n }

-- One round of the inner loop; `none` where the loop ends, by its test or by `break`.
pub serve_round : ℕ → ℕ → Serving → Option Serving
serve_round pkt_size w_min s =
    if ltb 0 s.dc && ltb 0 s.req_sz
    then (if leb pkt_size s.w && leb pkt_size s.dc
        then (if leb pkt_size s.req_sz
            then some (grant pkt_size s)
            else some (record (grant s.req_sz s) { req_sz = 0 }))
        else if ltb s.w pkt_size && ltb w_min s.w && leb pkt_size s.dc
        then (if leb s.w s.req_sz
            then some (record (grant s.w s) { w = 0; frag = true })
            else some (record (grant s.req_sz s) { req_sz = 0 }))
        else none)
    else none

pub serve : ℕ → ℕ → ℕ → Serving → Option Serving
serve zero pkt_size w_min s = none
serve (suc fuel) pkt_size w_min s = elim (serve_round pkt_size w_min s) [
  | none ↦ some s
  | some s' ↦ serve fuel pkt_size w_min s'
]

abbrev pub reply_found : Reply → Bool
reply_found (found b) = b
reply_found _ = false

-- The pointer that a pop gives: NULL where there is none.
abbrev pub reply_item : Reply → ℕ
reply_item (item e x) = x
reply_item _ = 0

module _ (q : Implementation) where
  open q use {State, call}

  -- `ld_drr_t` with `total_req_bytes`, through the first loop.
  pub record Enrolled : Type 0 where
    pub active_list : State
    pub req_szs : List ℕ
    pub req_entitys : List DrrReq
    pub total : ℕ

  -- init_ld_drr on `sz` users, over the fresh list `l`.
  pub init_drr : ℕ → State → Enrolled
  unfolding entitys_from
  init_drr sz l = record {
    active_list = l;
    req_szs = replicate sz 0;
    req_entitys = entitys_from sz 0;
    total = 0;
  }

  -- A user that is not in the active list joins it, with no deficit.
  pub join : ℕ → Enrolled → Option Enrolled
  unfolding drr_fac
  join i s = call (find (drr_fac s.req_entitys) (suc i)) s.active_list >>= λ (r, l).
      if reply_found r
      then some (record s { active_list = l })
      else (call (put_back (suc i)) l >>= λ (_, l'). some (record s {
        active_list = l';
        req_entitys = set s.req_entitys i (record (get_or s.req_entitys i nobody) { dc = 0 });
      }))

  -- One round of the first loop.
  pub enroll_one : ℕ → Enrolled → Option Enrolled
  unfolding join
  enroll_one i s =
      if (get_or s.req_entitys i nobody).req_sz == 0
      then some s
      else (join i s >>= λ s'.
          let e = get_or s'.req_entitys i nobody in
          some (record s' {
            req_szs = set s'.req_szs e.sac e.req_sz;
            total = add64 s'.total e.req_sz;
          }))

  pub enroll : ℕ → ℕ → Enrolled → Option Enrolled
  unfolding enroll_one
  enroll zero i s = some s
  enroll (suc left) i s = enroll_one i s >>= enroll left (i + 1)

  -- The state of the second loop.
  pub record Round : Type 0 where
    pub active_list : State
    pub req_entitys : List DrrReq
    pub alloc_map : List ℕ
    pub w : ℕ

  module _ (pkt_size w_min : ℕ) (req_szs : List ℕ) where
    -- After the inner loop: a user that got all it asked for leaves, with no deficit; one whose
    -- data was cut waits at the front, any other at the back.
    pub settle : ℕ → DrrReq → Serving → Round → Option Round
    settle ptr e v s =
        let put =
          λ (dc : ℕ). set s.req_entitys (place ptr) (record e { dc = dc; req_sz = v.req_sz }) in
        let alloc_map = set s.alloc_map e.sac v.alloc in
        if v.alloc == get_or req_szs e.sac 0
        then some (record s { req_entitys = put 0; alloc_map = alloc_map; w = v.w })
        else (call (if v.frag then put_front ptr else put_back ptr) s.active_list >>= λ (_, l).
            some
              (record { active_list = l; req_entitys = put v.dc; alloc_map = alloc_map; w = v.w }))

    pub serve_user : ℕ → Round → Option Round
    unfolding settle serve serve_round
    serve_user ptr s =
        let e = entity s.req_entitys ptr in
        serve (e.req_sz + 1) pkt_size w_min (record {
          w = s.w;
          dc = add64 e.dc pkt_size;
          req_sz = e.req_sz;
          alloc = get_or s.alloc_map e.sac 0;
          frag = false;
        })
        >>= λ v. settle ptr e v s

    -- The second loop, while `W > W_min` and a user waits.
    pub drr_loop : ℕ → Round → Option Round
    unfolding serve_user
    drr_loop zero s = none
    drr_loop (suc fuel) s =
        let next = call take_front s.active_list >>= λ (r, l).
        let s' = record s { active_list = l } in
        let served = serve_user (reply_item r) s' >>= drr_loop fuel in
        if reply_item r == 0 then some s' else served in
        if ltb w_min s.w then next else some s

  -- drr_resource_alloc on `max_sz` users. The result is the state after the call and the
  -- `alloc_map` that the callback is given.
  pub drr_resource_alloc : ℕ → ℕ → ℕ → ℕ → Enrolled → Option (Err × List ℕ × Enrolled)
  unfolding enroll drr_loop
  drr_resource_alloc max_sz pkt_size w w_min drr =
      enroll max_sz 0 (record drr { total = 0 }) >>= λ s.
      let w₀ = if ltb s.total w then s.total else w in
      drr_loop pkt_size w_min s.req_szs (w₀ + 1) (record {
        active_list = s.active_list;
        req_entitys = s.req_entitys;
        alloc_map = replicate max_sz 0;
        w = w₀;
      })
      >>= λ t.
          some
            (ok, t.alloc_map, record s { active_list = t.active_list; req_entitys = t.req_entitys })
