-- ===== src/Heap/Tests.antt =====
-- The heap of src/ld_heap.c on three nodes.
use liteldacssdk.Prelude.{◌≡◌, refl, true, some, List, [], ◌∷◌}
use liteldacssdk.Heap.{HeapNode, get_heap, heap_insert, up_from}

abbrev two : List HeapNode
two =
    record { heap_idx = 0; factor = 5; obj = 10 }
    ∷ record { heap_idx = 1; factor = 6; obj = 11 }
    ∷ []

inserted :
    heap_insert true two 12 4
    ≡ some (
        record { heap_idx = 0; factor = 4; obj = 12 }
        ∷ record { heap_idx = 1; factor = 6; obj = 11 }
        ∷ record { heap_idx = 2; factor = 5; obj = 10 }
        ∷ [])
unfolding heap_insert up_from
inserted = refl

found : get_heap two 11 ≡ some 1
found = refl
