-- ===== src/Drr/Count.antt =====
-- Sums, and how often a pointer stands in a list.
use liteldacssdk.Prelude.{
  ℕ, zero, suc, ◌+◌, ◌≤◌, ◌<◌, ◌≡◌, refl, ap, inl, inr, ◌&&◌, List, [], ◌∷◌, ◌++◌, arith, length,
  set, get_or, replicate, ltb, leb, ◌==◌, if◌then◌else◌, ==_iff, Bool-cases,
}
use liteldacssdk.Deque.{exist}
use liteldacssdk.Drr.{DrrReq, nobody, drr_fac}

abbrev pub count : ℕ → List ℕ → ℕ
count p [] = 0
count p (x ∷ xs) = (if x == p then 1 else 0) + count p xs

pub count-snoc :
    (p x : ℕ) (xs : List ℕ) → count p (xs ++ x ∷ []) ≡ (if x == p then 1 else 0) + count p xs
count-snoc p x [] = refl
count-snoc p x (y ∷ xs) = omega (arith, count-snoc p x xs)

pub sum : List ℕ → ℕ
sum [] = 0
sum (x ∷ xs) = x + sum xs

pub sum-set :
    (xs : List ℕ) (i v : ℕ) → i < length xs → sum (set xs i v) + get_or xs i 0 ≡ sum xs + v
unfolding sum
sum-set [] i v h = absurd (omega arith)
sum-set (x ∷ xs) zero v h = omega arith
sum-set (x ∷ xs) (suc i) v h = omega (arith, sum-set xs i v)

pub sum-replicate : (n : ℕ) → sum (replicate n 0) ≡ 0
unfolding sum
sum-replicate zero = refl
sum-replicate (suc n) = omega (arith, sum-replicate n)

-- f 0 + ... + f (n - 1)
unfoldable pub sum_below : (ℕ → ℕ) → ℕ → ℕ
sum_below f zero = 0
sum_below f (suc n) = sum_below f n + f n

pub sum_below-zero : (f : ℕ → ℕ) → ◌≡◌ {A = ℕ} 0 (sum_below f 0)
unfolding sum_below
sum_below-zero f = refl

pub sum_below-add_one : (f : ℕ → ℕ) (n : ℕ) → sum_below f (n + 1) ≡ sum_below f n + f n
unfolding sum_below
sum_below-add_one f n = ground arith

pub sum_below_mono : (f : ℕ → ℕ) (k n : ℕ) → k ≤ n → sum_below f k ≤ sum_below f n
unfolding sum_below
sum_below_mono f k zero h = omega (arith, ap (sum_below f) (zero_only k h))
  where
    zero_only : (k : ℕ) → k ≤ 0 → k ≡ 0
    zero_only k h = omega arith
sum_below_mono f k (suc n) h = elim (Bool-cases (k == suc n)) [
  | inl e ↦ rw ((==_iff k (suc n)).0 e) (omega arith)
  | inr e ↦ omega (arith, sum_below_mono f k n (ground arith))
]

pub le-sum_below : (f : ℕ → ℕ) (i n : ℕ) → i < n → f i ≤ sum_below f n
le-sum_below f i n h =
    omega (arith, sum_below-add_one f i, sum_below_mono f (i + 1) n (omega arith))

-- Every pointer in the list is to one of `n` users.
abbrev pub InRange : ℕ → List ℕ → Type 0
InRange n xs = (p : ℕ) → 0 < count p xs → (0 < p) × (p ≤ n)

pub InRange-tail : (n x : ℕ) (xs : List ℕ) → InRange n (x ∷ xs) → InRange n xs
InRange-tail n x xs r p h = r p (omega arith)

pub InRange-head : (n x : ℕ) (xs : List ℕ) → InRange n (x ∷ xs) → (0 < x) × (x ≤ n)
InRange-head n x xs r = ground (arith, r x)

places : List ℕ → ℕ → ℕ
places xs n = sum_below (λ i. count (suc i) xs) n

places-cons :
    (x : ℕ) (xs : List ℕ) (n : ℕ)
    → places (x ∷ xs) n ≡ (if ltb 0 x && leb x n then 1 else 0) + places xs n
unfolding places sum_below
places-cons x xs zero = ground arith
places-cons x xs (suc n) = ground (arith, places-cons x xs n)

places-nil : (n : ℕ) → places [] n ≡ 0
unfolding places sum_below
places-nil zero = refl
places-nil (suc n) = omega (arith, places-nil n)

length-places : (n : ℕ) (xs : List ℕ) → InRange n xs → length xs ≡ places xs n
length-places n [] r = omega (arith, places-nil n)
length-places n (x ∷ xs) r =
    ground
      (arith, places-cons x xs n, length-places n xs (InRange-tail n x xs r), InRange-head n x xs r)

places-le : (xs : List ℕ) (n : ℕ) → ((i : ℕ) → i < n → count (suc i) xs ≤ 1) → places xs n ≤ n
unfolding places sum_below
places-le xs zero h = omega arith
places-le xs (suc n) h = omega (arith, h n (omega arith), places-le xs n (λ i p. h i (omega arith)))

places-lt :
    (xs : List ℕ) (k n : ℕ)
    → ((i : ℕ) → i < n → count (suc i) xs ≤ 1)
    → k < n
    → count (suc k) xs ≡ 0
    → places xs n < n
unfolding places sum_below
places-lt xs k zero h p e = absurd (omega arith)
places-lt xs k (suc n) h p e = elim (Bool-cases (k == n)) [
  | inl s ↦
      let at : count (suc n) xs ≡ 0 = rw ((==_iff k n).0 s) at e in
      omega (arith, at, places-le xs n (λ i q. h i (omega arith)))
  | inr s ↦
      omega (arith, h n (omega arith), places-lt xs k n (λ i q. h i (omega arith)) (ground arith) e)
]

-- Distinct pointers to `n` users are at most `n`, and fewer if one is missing.
pub length-lt :
    (xs : List ℕ) (k n : ℕ)
    → InRange n xs
    → ((i : ℕ) → i < n → count (suc i) xs ≤ 1)
    → k < n
    → count (suc k) xs ≡ 0
    → length xs < n
length-lt xs k n r h p e = omega (arith, length-places n xs r, places-lt xs k n h p e)

pub length-le :
    (xs : List ℕ) (n : ℕ) → InRange n xs → ((i : ℕ) → i < n → count (suc i) xs ≤ 1) → length xs ≤ n
length-le xs n r h = omega (arith, length-places n xs r, places-le xs n h)

-- Each user's number is its place in the array.
abbrev pub Sacs : List DrrReq → ℕ → Type 0
Sacs es n = (i : ℕ) → i < n → (get_or es i nobody).sac ≡ i

-- The search by drr_fac finds a user exactly where its pointer stands in the list.
pub exist-count :
    (es : List DrrReq) (n i : ℕ) (xs : List ℕ)
    → Sacs es n
    → i < n
    → InRange n xs
    → exist (drr_fac es) (suc i) xs ≡ ltb 0 (count (suc i) xs)
unfolding exist drr_fac
exist-count es n i [] sacs h r = refl
exist-count es n i (zero ∷ xs) sacs h r = absurd (omega (arith, InRange-head n 0 xs r))
exist-count es n i (suc x ∷ xs) sacs h r = ground (
  arith,
  sacs i h,
  sacs x,
  InRange-head n (suc x) xs r,
  exist-count es n i xs sacs h (InRange-tail n (suc x) xs r),
)
