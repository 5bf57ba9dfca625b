-- ===== src/Timers.antt =====
-- The timers of src/ld_globaltimer.c and src/ld_newtimer.c, without the calls of the system: the
-- conversion of times, and how often a callback is called.
pub mod Cycles
mod Tests
use liteldacssdk.Prelude.{
  ℕ, zero, suc, ◌+◌, ◌-◌, ◌/◌, ◌%◌, ◌^◌, ap, Bool, true, false, ◌&&◌, ◌||◌, not, Option, none, some,
  List, [], ◌∷◌, ◌++◌, map, length, ltb, ◌==◌, if◌then◌else◌,
}

abbrev pub second : ℕ
second = 1000000000

abbrev pub microsecond : ℕ
microsecond = 1000

-- 0 stands for no limit.
abbrev pub timer_infinite : ℕ
timer_infinite = 0

-- `struct timeval`
pub record Timeval : Type 0 where
  pub tv_sec : ℕ
  pub tv_usec : ℕ

-- nano_to_timeval of ld_newtimer.c.
abbrev pub nano_to_timeval : ℕ → Timeval
nano_to_timeval nano_time = record {
  tv_sec = nano_time / second;
  tv_usec = nano_time % second / microsecond;
}

-- nano_to_timeval of ld_globaltimer.c, which counts the whole seconds twice.
abbrev pub nano_to_timeval_global : ℕ → Timeval
nano_to_timeval_global nano_time = record {
  tv_sec = nano_time / second;
  tv_usec = nano_time / microsecond;
}

-- The loop of wait_sem_func on what `stop_flag` says at each round: whether each call of the function
-- came after a wait for the semaphore. `has_sem` says whether there is one. `handle_times` is not
-- negative, and counts down to 0.
abbrev pub waits : Bool → ℕ → ℕ → Bool → Bool
waits is_instant to_times handle_times has_sem =
    has_sem
    && (handle_times == timer_infinite || not is_instant || not (handle_times + 1 == to_times))

pub wait_sem_round : Bool → Bool → ℕ → ℕ → List Bool → List Bool
wait_sem_round has_sem is_instant to_times handle_times [] = []
wait_sem_round has_sem is_instant to_times handle_times (stop ∷ flags) =
    let left = if handle_times == timer_infinite then handle_times else handle_times - 1 in
    let rest = wait_sem_round has_sem is_instant to_times left flags in
    if stop then [] else waits is_instant to_times left has_sem ∷ rest

pub wait_sem_func : Bool → Bool → ℕ → List Bool → List Bool
unfolding wait_sem_round
wait_sem_func has_sem is_instant to_times flags =
    wait_sem_round has_sem is_instant to_times to_times flags

-- A callback of a gtimer, `gtimer_ev_t`, by its counts.
pub record GtimerEv : Type 0 where
  pub to_times : ℕ
  pub has_times : ℕ

-- register_gtimer_event; the tenth is the last that there is room for.
abbrev pub register_gtimer_event : List GtimerEv → GtimerEv → Option (List GtimerEv)
register_gtimer_event cbs timer_cb =
    if ltb (length cbs) 10 then some (cbs ++ record timer_cb { has_times = 0 } ∷ []) else none

-- A callback is started when the timer expires, unless it was as often as it is to be.
abbrev pub is_due : GtimerEv → Bool
is_due cbt = cbt.to_times == timer_infinite || ltb cbt.has_times cbt.to_times

abbrev pub expire : GtimerEv → GtimerEv
expire cbt = if is_due cbt then record cbt { has_times = (cbt.has_times + 1) % 2 ^ 64 } else cbt

abbrev pub is_unfinished : GtimerEv → Bool
is_unfinished cbt = cbt.to_times == timer_infinite || not (cbt.has_times == cbt.to_times)

abbrev pub any_unfinished : List GtimerEv → Bool
any_unfinished [] = false
any_unfinished (cbt ∷ cbs) = is_unfinished cbt || any_unfinished cbs

-- What gtimer_event_dispatch does when the timer has expired: the callbacks afterwards, and whether it goes on
-- to wait; with no callback it does.
abbrev pub dispatch_once : List GtimerEv → List GtimerEv × Bool
dispatch_once cbs = let cbs' = map expire cbs in (cbs', length cbs' == 0 || any_unfinished cbs')

-- What a turn of the loop finds: epoll_wait was interrupted or failed, `read` failed, or the timer has
-- expired, and `times` is how often since the last read, which is not used.
pub data Wakeup : Type 0 where
  interrupted epoll_failed read_failed : Wakeup
  expired : (times : ℕ) → Wakeup

-- The loop on these turns, or until it ends: at how many of them the timer had expired, and the
-- callbacks. `has_times` counts a start also where pthread_create fails, as in the code.
pub gtimer_event_dispatch : List Wakeup → List GtimerEv → ℕ × List GtimerEv
gtimer_event_dispatch [] cbs = (0, cbs)
gtimer_event_dispatch (interrupted ∷ wakeups) cbs = gtimer_event_dispatch wakeups cbs
gtimer_event_dispatch (epoll_failed ∷ wakeups) cbs = (0, cbs)
gtimer_event_dispatch (read_failed ∷ wakeups) cbs = (0, cbs)
gtimer_event_dispatch (expired times ∷ wakeups) cbs =
    let (cbs', more) = dispatch_once cbs in
    let (n, end) = gtimer_event_dispatch wakeups cbs' in if more then (n + 1, end) else (1, cbs')
