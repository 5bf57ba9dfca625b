-- ===== src/RBuffer/Tests.antt =====
-- Runs and instances for the ring buffer.
use liteldacssdk.Prelude.{◌≡◌, refl, true, some, List, [], ◌∷◌, ◌++◌, arith, ◌==◌}
use liteldacssdk.Err.{ok, internal}
use liteldacssdk.Deque
use liteldacssdk.Deque.{Call, put_front, put_back, take_front, look, find, status, item, found}
use liteldacssdk.RBuffer.{
  RBuffer, int_max, ld_rbuffer_init, ld_rbuffer_push_front, ld_rbuffer_push_back, ld_rbuffer_pop,
  ld_rbuffer_get_front, ld_rbuffer_check_exist, ld_rbuffer_free, ring_buffer_traverse,
}
use liteldacssdk.RBuffer.Store.{Heap, set_next, set_prev, highest, highest_fresh}
use liteldacssdk.RBuffer.Chain.{Nodes, IsRing}
use liteldacssdk.RBuffer.Push.{Pushed, ld_rbuffer_push_back-Pushed}
use liteldacssdk.RBuffer.Pop.{Popped, ld_rbuffer_pop-Popped, ld_rbuffer_free-some}
use liteldacssdk.RBuffer.Deque.{ld_rbuffer_init-Holds, call, run, run_refines}

-- two items, 7 at address 0 and 9 at address 1, in a buffer for three
abbrev two_heap : Heap
two_heap =
    (0, some (record { item = 7; prev = 1; next = 1 }))
    ∷ (1, some (record { item = 9; prev = 0; next = 0 }))
    ∷ []

abbrev two : RBuffer
two = record { head = some 0; tail = some 1; count = 2; size = 3 }

abbrev two_nodes : Nodes
two_nodes = (0, 7) ∷ (1, 9) ∷ []

two-IsRing : IsRing two_heap two two_nodes
two-IsRing = record {
  counted = refl;
  bounded = omega arith;
  ends = (refl, refl, (refl, (refl, tt)));
  distinct = ((omega arith, tt), (tt, tt));
}

abbrev script : List Call
script =
    put_back 5
    ∷ put_back 6
    ∷ put_front 4
    ∷ put_back 1
    ∷ look
    ∷ find ◌==◌ 6
    ∷ take_front
    ∷ take_front
    ∷ take_front
    ∷ take_front
    ∷ []

run-script :
    run (λ h. some (highest h)) script (ld_rbuffer_init 3, [])
    ≡ some (
        status ok
        ∷ status ok
        ∷ status ok
        ∷ status internal
        ∷ item ok 4
        ∷ found true
        ∷ item ok 4
        ∷ item ok 5
        ∷ item ok 6
        ∷ item internal 0
        ∷ [])
unfolding run call int_max ld_rbuffer_init ld_rbuffer_push_front ld_rbuffer_push_back ld_rbuffer_pop
    ld_rbuffer_get_front ld_rbuffer_check_exist set_next set_prev
run-script = refl

traverse-two : ring_buffer_traverse two two_heap ≡ some (7 ∷ 9 ∷ [])
unfolding ring_buffer_traverse
traverse-two = refl

run_refines_example :
    run (λ h. some (highest h)) script (ld_rbuffer_init 3, []) ≡ some (Deque.run 3 script [])
run_refines_example =
    run_refines highest highest_fresh 3 script (ld_rbuffer_init 3, []) []
      (ld_rbuffer_init-Holds 3 [] (omega arith))

ld_rbuffer_push_back-Pushed_example :
    Pushed
      (ld_rbuffer_push_back (λ h. some (highest h)) two 5 two_heap)
      3
      (two_nodes ++ (2, 5) ∷ [])
unfolding int_max
ld_rbuffer_push_back-Pushed_example =
    ld_rbuffer_push_back-Pushed highest highest_fresh two 5 two_heap two_nodes two-IsRing
      (omega arith) (omega arith)

ld_rbuffer_pop-Popped_example : Popped (ld_rbuffer_pop two two_heap) 7 3 ((1, 9) ∷ [])
ld_rbuffer_pop-Popped_example = ld_rbuffer_pop-Popped two two_heap 0 7 ((1, 9) ∷ []) two-IsRing

ld_rbuffer_free-some_example :
    (rb' : RBuffer) × (h' : Heap) × (ld_rbuffer_free two two_heap ≡ some (rb', h'))
    × (rb'.count ≡ 0)
ld_rbuffer_free-some_example = ld_rbuffer_free-some two two_heap two_nodes two-IsRing
