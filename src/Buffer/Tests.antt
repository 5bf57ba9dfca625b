-- ===== src/Buffer/Tests.antt =====
-- The buffers of src/ld_buffer.c on concrete bytes, and the theorems applied to them.
use liteldacssdk.Prelude.{ℕ, ◌≡◌, Bool, none, some, [], ◌∷◌, arith, ltb}
use liteldacssdk.Buffer.{
  Buffer, init_buffer_unptr, cat_to_buffer, set_to_buffer, buffer_clear, clone_to_chunk,
}
use liteldacssdk.Buffer.Copy.{IsValid}
use liteldacssdk.Buffer.Cat.{Appended, cat_to_buffer-Appended}
use liteldacssdk.Buffer.Set.{
  Written, set_to_buffer-Written, cat_to_buffer-buffer_clear, Cloned, clone_to_chunk-Cloned,
}

abbrev plenty : ℕ → Bool
plenty n = ltb n 1000

-- Two bytes used, three free.
abbrev sample : Buffer
sample = record { len = 2; total = 5; free = 3; ptr = some (1 ∷ 2 ∷ 0 ∷ 0 ∷ 0 ∷ 0 ∷ []) }

sample-IsValid : IsValid sample
sample-IsValid = record { used = omega arith; block = omega arith; small = omega arith }

cat_to_buffer-Appended_example :
    Appended plenty sample
      (7 ∷ 8 ∷ 9 ∷ 10 ∷ [])
      (cat_to_buffer plenty sample (7 ∷ 8 ∷ 9 ∷ 10 ∷ []) 4)
cat_to_buffer-Appended_example =
    cat_to_buffer-Appended plenty sample (7 ∷ 8 ∷ 9 ∷ 10 ∷ []) 4 sample-IsValid (omega arith)
      (omega arith)

set_to_buffer-Written_example :
    Written sample 1 (7 ∷ 8 ∷ []) 2 (set_to_buffer sample 1 (7 ∷ 8 ∷ []) 2)
set_to_buffer-Written_example =
    set_to_buffer-Written sample 1 (7 ∷ 8 ∷ []) 2 sample-IsValid (omega arith) (omega arith)

cat_to_buffer-buffer_clear_example : cat_to_buffer plenty (buffer_clear sample) (7 ∷ []) 1 ≡ none
cat_to_buffer-buffer_clear_example =
    cat_to_buffer-buffer_clear plenty sample (7 ∷ []) 1 (omega arith) (omega arith)

clone_to_chunk-Cloned_example :
    Cloned plenty
      (7 ∷ 8 ∷ 9 ∷ [])
      2
      (clone_to_chunk plenty init_buffer_unptr (some (7 ∷ 8 ∷ 9 ∷ [])) 2)
clone_to_chunk-Cloned_example =
    clone_to_chunk-Cloned plenty init_buffer_unptr (7 ∷ 8 ∷ 9 ∷ []) 2 (omega arith) (omega arith)
