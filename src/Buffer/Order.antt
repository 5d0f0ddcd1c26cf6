-- ===== src/Buffer/Order.antt =====
-- buffer_impl.cc: the comparison operators are the lexicographic order of the contents.
use jonoondb.Prelude.{
  ℕ, zero, suc, ◌≤◌, ◌≡◌, refl, sym, List, [], ◌∷◌, Bool, true, false, arith, length, take, ltb,
  if◌then◌else◌, ◌↔◌, compare, Ordering,
}
use jonoondb.Buffer.{Buffer, stored, contents, memcmp, less, equal}
use jonoondb.Buffer.Valid.{IsValid}

-- The order of byte strings, by their first difference.
unfoldable pub lex_lt : List ℕ → List ℕ → Bool
lex_lt xs [] = false
lex_lt [] (y ∷ ys) = true
lex_lt (x ∷ xs) (y ∷ ys) =
    let rest = lex_lt xs ys in
    elim (compare x y) [ Ordering.lt ↦ true | Ordering.eq ↦ rest | Ordering.gt ↦ false ]

-- `memcmp` over the shorter length, and the lengths where it finds no difference.
abbrev by_length : ℕ → ℕ → Ordering → Bool
by_length m n Ordering.lt = true
by_length m n Ordering.gt = false
by_length m n Ordering.eq = ltb m n

shorter : ℕ → ℕ → ℕ
shorter m n = if ltb n m then n else m

shorter-suc : (m n : ℕ) → shorter (suc m) (suc n) ≡ suc (shorter m n)
unfolding shorter
shorter-suc m n = ground arith

lex_lt_irrefl : (xs : List ℕ) → lex_lt xs xs ≡ false
unfolding lex_lt
lex_lt_irrefl [] = refl
lex_lt_irrefl (x ∷ xs) = ground (arith, lex_lt_irrefl xs)

memcmp-lex_lt :
    (xs ys : List ℕ) (m n : ℕ)
    → m ≤ length xs
    → n ≤ length ys
    → by_length m n (memcmp xs ys (shorter m n)) ≡ lex_lt (take m xs) (take n ys)
unfolding memcmp lex_lt shorter
memcmp-lex_lt xs ys zero zero p q = refl
memcmp-lex_lt xs [] zero (suc n) p q = absurd (omega arith)
memcmp-lex_lt xs (y ∷ ys) zero (suc n) p q = ground arith
memcmp-lex_lt [] ys (suc m) n p q = absurd (omega arith)
memcmp-lex_lt (x ∷ xs) ys (suc m) zero p q = ground arith
memcmp-lex_lt (x ∷ xs) [] (suc m) (suc n) p q = absurd (omega arith)
memcmp-lex_lt (x ∷ xs) (y ∷ ys) (suc m) (suc n) p q =
    rw (shorter-suc m n) (ground (arith, memcmp-lex_lt xs ys m n (omega arith) (omega arith)))

-- On valid buffers `operator<` is the lexicographic order of what they store, also for a buffer and
-- itself.
pub less-lex_lt :
    (same : Bool) (a b : Buffer)
    → IsValid a
    → IsValid b
    → (same ≡ true → a ≡ b)
    → less same a b ≡ lex_lt (contents a) (contents b)
unfolding less shorter memcmp
less-lex_lt true a b v w h = rw (h refl) (sym (lex_lt_irrefl (contents b)))
less-lex_lt false a b v w h =
    ground (
      arith,
      memcmp-lex_lt (stored a.bytes) (stored b.bytes) a.len b.len (omega arith) (omega arith),
    )

lex_lt_trans : (xs ys zs : List ℕ) → lex_lt xs ys ≡ true → lex_lt ys zs ≡ true → lex_lt xs zs ≡ true
unfolding lex_lt
lex_lt_trans xs ys [] p q = cc
lex_lt_trans xs [] (z ∷ zs) p q = cc
lex_lt_trans [] (y ∷ ys) (z ∷ zs) p q = refl
lex_lt_trans (x ∷ xs) (y ∷ ys) (z ∷ zs) p q = ground (arith, lex_lt_trans xs ys zs)

lex_lt_asym : (xs ys : List ℕ) → lex_lt xs ys ≡ true → lex_lt ys xs ≡ false
unfolding lex_lt
lex_lt_asym xs [] p = cc
lex_lt_asym [] (y ∷ ys) p = refl
lex_lt_asym (x ∷ xs) (y ∷ ys) p = ground (arith, lex_lt_asym xs ys)

-- Neither comes before the other: they are the same bytes.
lex_lt_connected : (xs ys : List ℕ) → lex_lt xs ys ≡ false → lex_lt ys xs ≡ false → xs ≡ ys
unfolding lex_lt
lex_lt_connected [] [] p q = refl
lex_lt_connected [] (y ∷ ys) p q = cc
lex_lt_connected (x ∷ xs) [] p q = cc
lex_lt_connected (x ∷ xs) (y ∷ ys) p q = ground (arith, lex_lt_connected xs ys)

distinct :
    (a b : Buffer) → IsValid a → IsValid b → less false a b ≡ lex_lt (contents a) (contents b)
distinct a b v w = less-lex_lt false a b v w (λ e. cc)

-- On valid buffers `operator==` holds exactly when the contents are the same bytes.
pub equal_iff :
    (a b : Buffer) → IsValid a → IsValid b → (equal false a b ≡ true) ↔ (contents a ≡ contents b)
unfolding equal
equal_iff a b v w =
    rw (distinct a b v w, distinct b a w v)
      (
        λ e. lex_lt_connected (contents a) (contents b) (ground arith) (ground arith),
        λ e. rw (e, lex_lt_irrefl),
      )

-- `operator<` of valid buffers is transitive and asymmetric: a buffer that comes before a second one,
-- which comes before a third one, comes before the third one, which does not come before it.
pub less_trans :
    (a b c : Buffer)
    → IsValid a
    → IsValid b
    → IsValid c
    → less false a b ≡ true
    → less false b c ≡ true
    → (less false a c ≡ true) × (less false c a ≡ false)
less_trans a b c v w u p q =
    let ab = rw (distinct a b v w) at p in
    let bc = rw (distinct b c w u) at q in
    let ac = lex_lt_trans (contents a) (contents b) (contents c) ab bc in
    rw (distinct a c v u, distinct c a u v) (ac, lex_lt_asym (contents a) (contents c) ac)
