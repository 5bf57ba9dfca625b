-- ===== src/Deque/Client.antt =====
-- What a client of the bounded deque may use of an implementation, call by call.
use liteldacssdk.Prelude.{ℕ, ◌<◌, ◌≡◌, Bool, false, some, [], ◌∷◌, ◌++◌, arith, length, leb}
use liteldacssdk.Err.{ok, internal}
use liteldacssdk.Deque.{
  Items, Call, put_front, put_back, take_front, find, Reply, status, item, found, exist, step,
  Implementation,
}

not_full : (n k : ℕ) → k < n → leb n k ≡ false
not_full n k h = ground arith

module _ (q : Implementation) (size : ℕ) (s : q.State) where
  open q use {State, Holds, call, call_lem}

  -- The implementation's next state, which holds `ys`, beside the reply `r`.
  abbrev pub Steps : Call → Reply → Items → Type 0
  Steps c r ys = (s' : State) × (call c s ≡ some (r, s')) × Holds size s' ys

  pub find_lem :
      (factor : ℕ → ℕ → Bool) (ptr : ℕ) (xs : Items)
      → Holds size s xs
      → Steps (find factor ptr) (found (exist factor ptr xs)) xs
  unfolding step
  find_lem factor ptr xs v = call_lem size (find factor ptr) s xs v

  pub put_back_lem :
      (x : ℕ) (xs : Items)
      → Holds size s xs
      → length xs < size
      → Steps (put_back x) (status ok) (xs ++ x ∷ [])
  unfolding step
  put_back_lem x xs v h = rw (not_full size (length xs) h) at (call_lem size (put_back x) s xs v)

  pub put_front_lem :
      (x : ℕ) (xs : Items)
      → Holds size s xs
      → length xs < size
      → Steps (put_front x) (status ok) (x ∷ xs)
  unfolding step
  put_front_lem x xs v h = rw (not_full size (length xs) h) at (call_lem size (put_front x) s xs v)

  pub take_front-nil : Holds size s [] → Steps take_front (item internal 0) []
  unfolding step
  take_front-nil v = call_lem size take_front s [] v

  pub take_front-cons :
      (x : ℕ) (xs : Items) → Holds size s (x ∷ xs) → Steps take_front (item ok x) xs
  unfolding step
  take_front-cons x xs v = call_lem size take_front s (x ∷ xs) v
