-- ===== src/Timers/Tests.antt =====
-- The timers of src/ld_globaltimer.c and src/ld_newtimer.c on small inputs: the theorem applied, and
-- what the code does with times and limits.
use liteldacssdk.Prelude.{ℕ, ◌≡◌, refl, true, false, List, [], ◌∷◌, map, arith}
use liteldacssdk.Timers.{
  GtimerEv, Wakeup, interrupted, read_failed, expired, nano_to_timeval, nano_to_timeval_global,
  wait_sem_func, gtimer_event_dispatch,
}
use liteldacssdk.Timers.Cycles.{finish, gtimer_event_dispatch-ends}

abbrev callback : ℕ → ℕ → GtimerEv
callback to_times has_times = record { to_times = to_times; has_times = has_times }

abbrev two : List GtimerEv
two = callback 2 0 ∷ callback 3 0 ∷ []

abbrev turns : List Wakeup
turns = expired 1 ∷ interrupted ∷ expired 4 ∷ expired 1 ∷ read_failed ∷ []

gtimer_event_dispatch-ends_example : gtimer_event_dispatch turns two ≡ (3, map finish two)
gtimer_event_dispatch-ends_example =
    gtimer_event_dispatch-ends turns two
      (omega arith, omega arith, omega arith, (omega arith, omega arith, omega arith, tt))
      (omega arith) (omega arith)

-- A function with a limit of one call is called at every round.
wait_sem_func-one_call :
    wait_sem_func true false 1 (false ∷ false ∷ false ∷ true ∷ []) ≡ true ∷ true ∷ true ∷ []
unfolding wait_sem_func
wait_sem_func-one_call = refl

-- A time of 1.5 s in both conversions.
nano_to_timeval-one_and_a_half :
    nano_to_timeval 1500000000 ≡ record { tv_sec = 1; tv_usec = 500000 }
nano_to_timeval-one_and_a_half = refl

nano_to_timeval_global-one_and_a_half :
    nano_to_timeval_global 1500000000 ≡ record { tv_sec = 1; tv_usec = 1500000 }
nano_to_timeval_global-one_and_a_half = refl
