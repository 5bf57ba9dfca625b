-- ===== src/PQueue/Tests.antt =====
-- The priority queue of src/ld_pqueue.c on concrete elements, and the theorems applied to it.
use liteldacssdk.Prelude.{
  ℕ, zero, suc, ◌<◌, ◌≡◌, refl, ◌≢◌, Bool, true, false, none, some, [], ◌∷◌, arith, get_or, ltb,
  ◌==◌, if◌then◌else◌,
}
use liteldacssdk.PQueue.Pop.{Popped, pqueue_pop-Popped}
use liteldacssdk.PQueue.{
  pqueue_change_priority, PQueue, q_ok, q_err_invalid, pqueue_init, pqueue_insert, pqueue_pop,
  pqueue_peek,
}
use liteldacssdk.PQueue.Up.{IsOrder, IsHeap}
use liteldacssdk.PQueue.Change.{IsAt, Changed, pqueue_change_priority-Changed}
use liteldacssdk.PQueue.Insert.{IsValid, Inserted, pqueue_insert-Inserted, pqueue_pop_empty}

-- The smaller number goes first.
abbrev after : ℕ → ℕ → Bool
after a b = ltb b a

after-IsOrder : IsOrder after
after-IsOrder = record { asym = λ a b h. ground arith; negative_trans = λ a b c g h. ground arith }

-- Elements 5 and 7, in that order, each its own priority.
abbrev sample : PQueue
sample = record {
  size = 3;
  avail = 3;
  step = 3;
  d = 0 ∷ 5 ∷ 7 ∷ [];
  locked = false;
  pri = λ x. x;
  pos = λ x. if x == 7 then 2 else 1;
}

sample-IsValid : IsValid sample
sample-IsValid = record {
  rooted = omega arith;
  inside = omega arith;
  slots = refl;
  growing = omega arith;
}

sample-IsHeap : IsHeap after sample
sample-IsHeap zero a b = absurd (omega arith)
sample-IsHeap (suc zero) a b = absurd (omega arith)
sample-IsHeap (suc (suc zero)) a b = refl
sample-IsHeap (suc (suc (suc j))) a b = absurd (omega arith)

pqueue_insert-Inserted_example :
    Inserted after after-IsOrder sample 3 (pqueue_insert after (λ n. ltb n 100) sample 3)
pqueue_insert-Inserted_example =
    pqueue_insert-Inserted after after-IsOrder (λ n. ltb n 100) sample 3 sample-IsValid
      sample-IsHeap refl

pqueue_pop_empty_example :
    (q' : PQueue) × (pqueue_pop after (pqueue_init 4) ≡ some (q_err_invalid, 0, q'))
    × (pqueue_peek (pqueue_init 4) ≡ some (q_ok, 0, q'))
    × (pqueue_insert after (λ n. true) q' 3 ≡ none)
unfolding pqueue_init
pqueue_pop_empty_example = pqueue_pop_empty after (λ n. true) (pqueue_init 4) 3 refl refl

pqueue_pop-Popped_example :
    (r : PQueue) × (pqueue_pop after sample ≡ some (q_ok, 5, r))
    × (r.locked ≡ false)
    × Popped after after-IsOrder sample r
pqueue_pop-Popped_example =
    pqueue_pop-Popped after after-IsOrder sample sample-IsValid sample-IsHeap refl (omega arith)

sample-IsAt : IsAt sample 7
sample-IsAt = record { pos_pos = omega arith; pos_lt = omega arith; there = refl; alone = alone }
  where
    alone : (j : ℕ) → 0 < j → j < 3 → j ≢ 2 → get_or (sample.d) j 0 ≢ 7
    alone zero a b ne = absurd (omega arith)
    alone (suc zero) a b ne = omega arith
    alone (suc (suc zero)) a b ne = absurd (ne refl)
    alone (suc (suc (suc j))) a b ne = absurd (omega arith)

pqueue_change_priority-Changed_example :
    (r : PQueue) × (pqueue_change_priority after sample 1 7 ≡ some (q_ok, r))
    × (r.locked ≡ false)
    × Changed after after-IsOrder sample 7 1 r
pqueue_change_priority-Changed_example =
    pqueue_change_priority-Changed after after-IsOrder sample 7 1 sample-IsValid sample-IsHeap refl
      sample-IsAt
