-- ===== src/Drr/Tests.antt =====
-- Runs and instances for the deficit round robin, on the ring buffer.
use liteldacssdk.Prelude.{ℕ, ◌+◌, ◌<◌, ◌≡◌, [], arith, ◌==◌, if◌then◌else◌}
use liteldacssdk.Deque.{Implementation}
use liteldacssdk.RBuffer.{ld_rbuffer_init}
use liteldacssdk.RBuffer.Store.{highest, highest_fresh}
use liteldacssdk.RBuffer.Deque.{ld_rbuffer_init-Holds, rbuffer_deque}
use liteldacssdk.Drr.{Enrolled, init_drr, ld_req_update, drr_resource_alloc}
use liteldacssdk.Drr.Count.{sum_below}
use liteldacssdk.Drr.Alloc.{requests, IsValid, Allocation, drr_resource_alloc-Allocation}
use liteldacssdk.Drr.Setup.{init_drr-IsValid, ld_req_update-IsValid}

abbrev ring : Implementation
ring = rbuffer_deque highest highest_fresh

-- Two users, of which the second asks for 25 bytes.
abbrev fresh : Enrolled ring
fresh = init_drr ring 2 (ld_rbuffer_init 2, [])

abbrev asking : Enrolled ring
asking = record fresh { req_entitys = ld_req_update fresh.req_entitys 1 25 }

fresh-IsValid : IsValid ring 2 10 fresh [] × ((i : ℕ) → i < 2 → requests fresh.req_entitys i ≡ 0)
fresh-IsValid =
    init_drr-IsValid ring 2 10 (ld_rbuffer_init 2, []) (ld_rbuffer_init-Holds 2 [] (omega arith))
      (omega arith)

asking-IsValid :
    IsValid ring 2 10 asking []
    × ((i : ℕ)
        → i < 2
        → requests asking.req_entitys i
          ≡ (if 1 == i then requests fresh.req_entitys i + 25 else requests fresh.req_entitys i))
asking-IsValid =
    ld_req_update-IsValid ring 2 10 fresh [] 1 25 fresh-IsValid.0 (omega arith)
      (omega (arith, fresh-IsValid.1 1))

drr_resource_alloc-Allocation_example :
    Allocation ring 2 10 10 18 3 asking (drr_resource_alloc ring 2 10 18 3 asking)
unfolding sum_below
drr_resource_alloc-Allocation_example =
    drr_resource_alloc-Allocation ring 2 10 10 18 3 asking [] asking-IsValid.0 (omega arith)
      (omega arith) (omega arith)
      (ground (arith, asking-IsValid.1 0, asking-IsValid.1 1, fresh-IsValid.1 0, fresh-IsValid.1 1))

ld_req_update-IsValid_example :
    IsValid ring 2 10 (record fresh { req_entitys = ld_req_update fresh.req_entitys 1 25 }) []
    × ((i : ℕ)
        → i < 2
        → requests (ld_req_update fresh.req_entitys 1 25) i
          ≡ (if 1 == i then requests fresh.req_entitys i + 25 else requests fresh.req_entitys i))
ld_req_update-IsValid_example =
    ld_req_update-IsValid ring 2 10 fresh [] 1 25 fresh-IsValid.0 (omega arith)
      (omega (arith, fresh-IsValid.1 1))
