-- ===== src/Deque.antt =====
-- A bounded double-ended queue of pointers: what src/ld_rbuffer.c promises to its clients, as
-- functions on lists and as an interface for the client that takes one (src/ld_drr.c).
pub mod Client
use liteldacssdk.Prelude.{
  ℕ, ◌≡◌, Bool, true, false, Option, some, List, [], ◌∷◌, ◌++◌, length, leb, if◌then◌else◌,
}
use liteldacssdk.Err.{Err, ok, internal}

-- The contents, oldest first; pointers are numbers, NULL is 0.
abbrev pub Items : Type 0
Items = List ℕ

module _ (size : ℕ) where
  unfoldable pub push_back : Items → ℕ → Err × Items
  push_back xs x = if leb size (length xs) then (internal, xs) else (ok, xs ++ x ∷ [])

  unfoldable pub push_front : Items → ℕ → Err × Items
  push_front xs x = if leb size (length xs) then (internal, xs) else (ok, x ∷ xs)

unfoldable pub pop : Items → Err × ℕ × Items
pop [] = (internal, 0, [])
pop (x ∷ xs) = (ok, x, xs)

unfoldable pub get_front : Items → Err × ℕ
get_front [] = (internal, 0)
get_front (x ∷ xs) = (ok, x)

-- Whether the comparison holds of some item.
unfoldable pub exist : (ℕ → ℕ → Bool) → ℕ → Items → Bool
exist factor ptr [] = false
exist factor ptr (x ∷ xs) = if factor x ptr then true else exist factor ptr xs

-- A call of a client, and what it gets back.
pub data Call : Type 0 where
  put_front put_back : ℕ → Call
  take_front look : Call
  find : (ℕ → ℕ → Bool) → ℕ → Call

pub data Reply : Type 0 where
  status : Err → Reply
  item : Err → ℕ → Reply
  found : Bool → Reply

unfoldable pub step : ℕ → Call → Items → Reply × Items
unfolding push_back push_front pop get_front exist
step size (put_front x) xs = let (e, ys) = push_front size xs x in (status e, ys)
step size (put_back x) xs = let (e, ys) = push_back size xs x in (status e, ys)
step size take_front xs = let (e, x, ys) = pop xs in (item e x, ys)
step size look xs = let (e, x) = get_front xs in (item e x, xs)
step size (find factor ptr) xs = (found (exist factor ptr xs), xs)

unfoldable pub run : ℕ → List Call → Items → List Reply
unfolding step
run size [] xs = []
run size (c ∷ cs) xs = let (r, ys) = step size c xs in r ∷ run size cs ys

-- What an implementation gives its clients: a state that stands for a list, and a step that
-- never faults and replies as the list does.
pub record Implementation : Type 1 where
  pub State : Type 0
  pub Holds : ℕ → State → Items → Type 0
  pub call : Call → State → Option (Reply × State)
  pub call_lem :
      (size : ℕ) (c : Call) (s : State) (xs : Items)
      → Holds size s xs
      → (s' : State) × (call c s ≡ some ((step size c xs).0, s')) × Holds size s' (step size c xs).1
