-- ===== src/ObjectPool/Places.antt =====
-- object_pool.h: the places of `m_objects` that have an object, and what they have.
use jonoondb.Prelude.{
  ℕ, zero, suc, ◌+◌, ◌<◌, ◌≡◌, refl, ap, List, [], ◌∷◌, Option, none, some, Bool, true, length,
  replicate, arith, if◌then◌else◌,
}
use jonoondb.Prelude.Int.{ltb_ℤ}
use jonoondb.ObjectPool.{put_at, place, before}

-- The first places have objects, and the others null pointers.
abbrev pub IsFilled : {A : Type 0} → ℕ → List (Option A) → Type 0
IsFilled zero [] = Unit {0}
IsFilled zero (none ∷ xs) = IsFilled zero xs
IsFilled zero (some x ∷ xs) = ⊥
IsFilled (suc k) [] = ⊥
IsFilled (suc k) (none ∷ xs) = ⊥
IsFilled (suc k) (some x ∷ xs) = IsFilled k xs

-- How many of the objects pass a test.
abbrev pub one : {A : Type 0} → (A → Bool) → A → ℕ
one p x = if p x then 1 else 0

abbrev pub count : {A : Type 0} → (A → Bool) → List A → ℕ
count p [] = 0
count p (x ∷ xs) = one p x + count p xs

abbrev pub count_places : {A : Type 0} → (A → Bool) → List (Option A) → ℕ
count_places p [] = 0
count_places p (none ∷ xs) = count_places p xs
count_places p (some x ∷ xs) = one p x + count_places p xs

pub length-put_at :
    {A : Type 0} (xs : List (Option A)) (i : ℕ) (x : Option A) → length (put_at xs i x) ≡ length xs
unfolding put_at
length-put_at [] i x = refl
length-put_at (y ∷ ys) zero x = refl
length-put_at (y ∷ ys) (suc i) x = ap suc (length-put_at ys i x)

pub no_objects : (A : Type 0) (n : ℕ) → IsFilled {A = A} 0 (replicate n none)
no_objects A zero = tt
no_objects A (suc n) = no_objects A n

pub place-put_at :
    {A : Type 0} (xs : List (Option A)) (k : ℕ) (x : Option A)
    → k < length xs
    → place (put_at xs k x) k ≡ x
unfolding put_at
place-put_at [] k x h = absurd (omega arith)
place-put_at (y ∷ ys) zero x h = refl
place-put_at (y ∷ ys) (suc k) x h = place-put_at ys k x (omega arith)

pub place_other :
    {A : Type 0} (xs : List (Option A)) (i k : ℕ) (x : Option A)
    → i < k
    → place (put_at xs k x) i ≡ place xs i
unfolding put_at
place_other [] i k x h = refl
place_other (y ∷ ys) i zero x h = absurd (omega arith)
place_other (y ∷ ys) zero (suc k) x h = refl
place_other (y ∷ ys) (suc i) (suc k) x h = place_other ys i k x (omega arith)

-- A null pointer behind the last object changes nothing.
pub put_null :
    {A : Type 0} (k : ℕ) (xs : List (Option A)) → IsFilled k xs → IsFilled k (put_at xs k none)
unfolding put_at
put_null zero [] h = h
put_null zero (none ∷ xs) h = h
put_null zero (some x ∷ xs) h = absurd h
put_null (suc k) [] h = absurd h
put_null (suc k) (none ∷ xs) h = absurd h
put_null (suc k) (some x ∷ xs) h = put_null k xs h

-- The last object is taken out.
pub take_out :
    {A : Type 0} (k : ℕ) (xs : List (Option A))
    → IsFilled (suc k) xs
    → (x : A) × (place xs k ≡ some x)
      × IsFilled k (put_at xs k none)
      × ((p : A → Bool) → count_places p (put_at xs k none) + one p x ≡ count_places p xs)
unfolding put_at
take_out k [] h = absurd h
take_out k (none ∷ xs) h = absurd h
take_out zero (some x ∷ xs) h = (x, refl, h, λ p. omega arith)
take_out (suc k) (some y ∷ xs) h =
    let (x, there, filled, counts) = take_out k xs h in
    (x, there, filled, λ p. omega (arith, counts p))

-- An object is put behind the last.
pub put_in :
    {A : Type 0} (k : ℕ) (xs : List (Option A)) (x : A)
    → IsFilled k xs
    → k < length xs
    → IsFilled (suc k) (put_at xs k (some x))
      × ((p : A → Bool) → count_places p (put_at xs k (some x)) ≡ count_places p xs + one p x)
unfolding put_at
put_in zero [] x h small = absurd (omega arith)
put_in zero (none ∷ xs) x h small = (h, λ p. omega arith)
put_in zero (some y ∷ xs) x h small = absurd h
put_in (suc k) [] x h small = absurd h
put_in (suc k) (none ∷ xs) x h small = absurd h
put_in (suc k) (some y ∷ xs) x h small =
    let (filled, counts) = put_in k xs x h (omega arith) in (filled, λ p. omega (arith, counts p))

pub before-lt : (k c : ℕ) → ltb_ℤ (before k) (before c) ≡ true → k < c
before-lt zero zero h = absurd (ground arith)
before-lt zero (suc c) h = omega arith
before-lt (suc k) zero h = absurd (ground arith)
before-lt (suc k) (suc c) h = ground arith
