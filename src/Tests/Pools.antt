-- ===== src/Tests/Pools.antt =====
-- The object pool, with numbers for objects and an allocator that gives the next number below four.
use jonoondb.Prelude.{ℕ, ◌+◌, ◌≡◌, refl, [], ◌∷◌, Option, none, some, ltb, if◌then◌else◌}
use jonoondb.Prelude.Int.{pos}
use jonoondb.Prelude.Outcome.{Outcome, ok}
use jonoondb.ObjectPool.{construct, put_at, clean_up, fill_objects}
use jonoondb.ObjectPool.Balance.{Usage}
use jonoondb.ObjectPool.Construction.{IsConstructed, construct-IsConstructed}

abbrev below_four : ℕ → Outcome (Option ℕ) × ℕ
below_four n = if ltb n 4 then (ok (some n), n + 1) else (ok none, n)

-- The world does not see a reset.
abbrev keep : ℕ → ℕ → ℕ
keep object n = n

-- Two objects in the pool, one with a caller.
abbrev three : Usage ℕ ℕ
three = record {
  pool = record {
    objects = some 0 ∷ some 1 ∷ none ∷ [];
    capacity = 3;
    current_object_index = pos 1;
  };
  held = 2 ∷ [];
  allocated = 2 ∷ 1 ∷ 0 ∷ [];
  freed = [];
  world = 3;
}

-- The constructor fails at its fifth object, and frees none of the four.
four_allocated :
    (construct below_four 5 6 0).objects ≡ some 0 ∷ some 1 ∷ some 2 ∷ some 3 ∷ none ∷ none ∷ []
unfolding construct put_at fill_objects
four_allocated = refl

four_lost : (construct below_four 5 6 0).freed ≡ []
unfolding construct put_at fill_objects clean_up
four_lost = refl

construct-IsConstructed_example : IsConstructed below_four 5 6 0 (construct below_four 5 6 0)
construct-IsConstructed_example = construct-IsConstructed below_four 5 6 0
