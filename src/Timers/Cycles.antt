-- ===== src/Timers/Cycles.antt =====
-- What the loops of src/ld_globaltimer.c and src/ld_newtimer.c do over time: until when wait_sem_func
-- calls its function, and when gtimer_event_dispatch has called every callback often enough.
use liteldacssdk.Prelude.{
  ℕ, suc, ◌+◌, ◌-◌, ◌^◌, ◌≤◌, ◌<◌, max, ◌≡◌, refl, sym, ap, ap₂, subst, ◌∙◌, Bool, true, false,
  List, [], ◌∷◌, map, arith, length, ltb, ◌==◌, ◌||◌, if◌then◌else◌, Bool-cases, inl, inr, ltb→lt,
}
use liteldacssdk.Timers.{
  GtimerEv, Wakeup, interrupted, epoll_failed, read_failed, expired, expire, is_unfinished,
  any_unfinished, dispatch_once, gtimer_event_dispatch, wait_sem_round, wait_sem_func,
}

-- The rounds before the flag to stop is seen.
abbrev pub rounds_before : List Bool → ℕ
rounds_before [] = 0
rounds_before (stop ∷ flags) = let rest = rounds_before flags in if stop then 0 else suc rest

wait_sem_round-length :
    (has_sem is_instant : Bool) (to_times : ℕ) (flags : List Bool) (handle_times : ℕ)
    → length (wait_sem_round has_sem is_instant to_times handle_times flags) ≡ rounds_before flags
unfolding wait_sem_round
wait_sem_round-length has_sem is_instant to_times [] handle_times = refl
wait_sem_round-length has_sem is_instant to_times (true ∷ flags) handle_times = refl
wait_sem_round-length has_sem is_instant to_times (false ∷ flags) handle_times =
    ap (λ n. suc n) (wait_sem_round-length has_sem is_instant to_times flags _)

-- wait_sem_func calls its function once at every round until stop_flag is seen, whatever to_times is:
-- a limit does not end it.
pub wait_sem_func-ignores_limit :
    (has_sem is_instant : Bool) (to_times : ℕ) (flags : List Bool)
    → length (wait_sem_func has_sem is_instant to_times flags) ≡ rounds_before flags
unfolding wait_sem_func
wait_sem_func-ignores_limit has_sem is_instant to_times flags =
    wait_sem_round-length has_sem is_instant to_times flags to_times

-- Callbacks with a limit, which they have not passed.
abbrev pub Limited : List GtimerEv → Type 0
Limited [] = Unit {0}
Limited (c ∷ cbs) = 0 < c.to_times × c.to_times < 2 ^ 64 × c.has_times ≤ c.to_times × Limited cbs

-- The starts that the callback with the most of them still has before it.
abbrev pub calls_left : List GtimerEv → ℕ
calls_left [] = 0
calls_left (c ∷ cbs) = max (c.to_times - c.has_times) (calls_left cbs)

-- A callback that was started as often as its limit.
abbrev pub finish : GtimerEv → GtimerEv
finish c = record c { has_times = c.to_times }

expire_left :
    (c : GtimerEv)
    → 0 < c.to_times
    → c.to_times < 2 ^ 64
    → c.has_times ≤ c.to_times
    → (expire c).to_times - (expire c).has_times ≡ (c.to_times - c.has_times) - 1
expire_left c a b d = ground arith

expire-to_times : (c : GtimerEv) → (expire c).to_times ≡ c.to_times
expire-to_times c = ground arith

expire-has_times :
    (c : GtimerEv)
    → 0 < c.to_times
    → c.to_times < 2 ^ 64
    → c.has_times ≤ c.to_times
    → (expire c).has_times ≤ c.to_times
expire-has_times c a b d = ground arith

finish-expire : (c : GtimerEv) → finish (expire c) ≡ finish c
finish-expire c = ground arith

is_unfinished_lem :
    (c : GtimerEv)
    → 0 < c.to_times
    → c.has_times ≤ c.to_times
    → is_unfinished c ≡ ltb 0 (c.to_times - c.has_times)
is_unfinished_lem c a d = ground arith

finish-finished :
    (c : GtimerEv) → c.has_times ≤ c.to_times → c.to_times - c.has_times ≡ 0 → finish c ≡ c
finish-finished c d z = ap (λ n. record c { has_times = n }) (omega arith)

expire-Limited : (cbs : List GtimerEv) → Limited cbs → Limited (map expire cbs)
expire-Limited [] l = l
expire-Limited (c ∷ cbs) (a, b, d, l) =
    let same = expire-to_times c in
    (
      subst (λ t. 0 < t) (sym same) a,
      subst (λ t. t < 2 ^ 64) (sym same) b,
      subst (λ t. (expire c).has_times ≤ t) (sym same) (expire-has_times c a b d),
      expire-Limited cbs l,
    )

-- An expiration leaves each callback with one call less.
calls_left-expire :
    (cbs : List GtimerEv) → Limited cbs → calls_left (map expire cbs) ≡ calls_left cbs - 1
calls_left-expire [] l = refl
calls_left-expire (c ∷ cbs) (a, b, d, l) =
    ap₂ max (expire_left c a b d) (calls_left-expire cbs l) ∙ omega arith

any_unfinished-calls_left :
    (cbs : List GtimerEv) → Limited cbs → any_unfinished cbs ≡ ltb 0 (calls_left cbs)
any_unfinished-calls_left [] l = refl
any_unfinished-calls_left (c ∷ cbs) (a, b, d, l) =
    ap₂ (λ p q. p || q) (is_unfinished_lem c a d) (any_unfinished-calls_left cbs l) ∙ ground arith

finish-expired : (cbs : List GtimerEv) → map finish (map expire cbs) ≡ map finish cbs
finish-expired [] = refl
finish-expired (c ∷ cbs) = ap₂ (λ p q. p ∷ q) (finish-expire c) (finish-expired cbs)

finish-done : (cbs : List GtimerEv) → Limited cbs → calls_left cbs ≡ 0 → map finish cbs ≡ cbs
finish-done [] l z = refl
finish-done (c ∷ cbs) (a, b, d, l) z =
    ap₂ (λ p q. p ∷ q) (finish-finished c d (omega arith)) (finish-done cbs l (omega arith))

waits_on :
    (c : GtimerEv) (cbs : List GtimerEv)
    → Limited (c ∷ cbs)
    → (dispatch_once (c ∷ cbs)).1 ≡ ltb 0 (calls_left (map expire (c ∷ cbs)))
waits_on c cbs l =
    let after = map expire (c ∷ cbs) in
    let there : (length after == 0) ≡ false = ground arith in
    ap (λ t. t || any_unfinished after) there
    ∙ any_unfinished-calls_left after (expire-Limited (c ∷ cbs) l)

dispatch_on :
    (times : ℕ) (ws : List Wakeup) (cbs : List GtimerEv)
    → (dispatch_once cbs).1 ≡ true
    → gtimer_event_dispatch (expired times ∷ ws) cbs ≡ (
      (gtimer_event_dispatch ws (map expire cbs)).0 + 1,
      (gtimer_event_dispatch ws (map expire cbs)).1,
    )
unfolding gtimer_event_dispatch
dispatch_on times ws cbs more =
    let rest = gtimer_event_dispatch ws (map expire cbs) in
    ap (λ t. if t then (rest.0 + 1, rest.1) else (1, map expire cbs)) more

dispatch_end :
    (times : ℕ) (ws : List Wakeup) (cbs : List GtimerEv)
    → (dispatch_once cbs).1 ≡ false
    → gtimer_event_dispatch (expired times ∷ ws) cbs ≡ (1, map expire cbs)
unfolding gtimer_event_dispatch
dispatch_end times ws cbs over =
    let rest = gtimer_event_dispatch ws (map expire cbs) in
    ap (λ t. if t then (rest.0 + 1, rest.1) else (1, map expire cbs)) over

-- The turns at which the timer had expired, up to a failure of the system.
abbrev pub expiries : List Wakeup → ℕ
expiries [] = 0
expiries (interrupted ∷ ws) = expiries ws
expiries (epoll_failed ∷ ws) = 0
expiries (read_failed ∷ ws) = 0
expiries (expired times ∷ ws) = suc (expiries ws)

-- Callbacks that all have a limit below 2^64 that they have not passed, and one that has starts left:
-- when gtimer_event_dispatch finds the timer expired that often or more before epoll_wait or read
-- fails, it ends after exactly as many such turns as the callback with the most starts left has, and
-- each callback was then started as often as its limit. A turn counts once, however often the timer
-- expired since the last, and a start counts where pthread_create fails.
pub gtimer_event_dispatch-ends :
    (wakeups : List Wakeup) (cbs : List GtimerEv)
    → Limited cbs
    → 0 < calls_left cbs
    → calls_left cbs ≤ expiries wakeups
    → gtimer_event_dispatch wakeups cbs ≡ (calls_left cbs, map finish cbs)
unfolding gtimer_event_dispatch
gtimer_event_dispatch-ends [] cbs l some_left enough = absurd (omega arith)
gtimer_event_dispatch-ends (interrupted ∷ ws) cbs l some_left enough =
    gtimer_event_dispatch-ends ws cbs l some_left enough
gtimer_event_dispatch-ends (epoll_failed ∷ ws) cbs l some_left enough = absurd (omega arith)
gtimer_event_dispatch-ends (read_failed ∷ ws) cbs l some_left enough = absurd (omega arith)
gtimer_event_dispatch-ends (expired times ∷ ws) [] l some_left enough = absurd (omega arith)
gtimer_event_dispatch-ends (expired times ∷ ws) (c ∷ cbs) l some_left enough =
    let after = map expire (c ∷ cbs) in
    let l' = expire-Limited (c ∷ cbs) l in
    let less = calls_left-expire (c ∷ cbs) l in
    elim (Bool-cases (ltb 0 (calls_left after))) [
      | inl more ↦
          dispatch_on times ws (c ∷ cbs) (waits_on c cbs l ∙ more)
          ∙ ap (λ r. (r.0 + 1, r.1))
              (gtimer_event_dispatch-ends ws after l' (ltb→lt _ _ more) (omega arith))
          ∙ ap₂ (λ p q. (p, q)) (omega arith) (finish-expired (c ∷ cbs))
      | inr none_left ↦
          dispatch_end times ws (c ∷ cbs) (waits_on c cbs l ∙ none_left)
          ∙ ap₂ (λ p q. (p, q)) (ground arith)
              (sym (finish-done after l' (ground arith)) ∙ finish-expired (c ∷ cbs))
    ]
