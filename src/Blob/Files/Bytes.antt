-- ===== src/Blob/Files/Bytes.antt =====
-- memory_mapped_file.h: what a write leaves in the bytes of a file.
use native.Mathlib.Numerals.{unary_clauses}
use jonoondb.Prelude.{
  ℕ, zero, suc, ◌+◌, ◌≤◌, ◌≡◌, refl, ap, List, [], ◌∷◌, ◌++◌, arith, length, take, drop, sym, ◌∙◌,
  take-append-drop,
}
use jonoondb.Blob.Files.{overwrite_at}

suc_add : (n k : ℕ) → suc n + k ≡ suc (n + k)
suc_add n k = omega arith

pub length-overwrite_at :
    (n : ℕ) (ds bytes : List ℕ) → length (overwrite_at n ds bytes) ≡ length bytes
unfolding overwrite_at
length-overwrite_at zero [] bytes = refl
length-overwrite_at zero (d ∷ ds) [] = refl
length-overwrite_at zero (d ∷ ds) (b ∷ bytes) = ap suc (length-overwrite_at zero ds bytes)
length-overwrite_at (suc n) ds [] = refl
length-overwrite_at (suc n) ds (b ∷ bytes) = ap suc (length-overwrite_at n ds bytes)

-- Nothing in front of the offset changes.
pub take-overwrite_at :
    (k n : ℕ) (ds bytes : List ℕ) → k ≤ n → take k (overwrite_at n ds bytes) ≡ take k bytes
unfolding overwrite_at
take-overwrite_at zero n ds bytes h = refl
take-overwrite_at (suc k) zero ds bytes h = absurd (omega arith)
take-overwrite_at (suc k) (suc n) ds [] h = refl
take-overwrite_at (suc k) (suc n) ds (b ∷ bytes) h =
    ap (◌∷◌ b) (take-overwrite_at k n ds bytes (omega arith))

-- From the offset on there are the bytes written, and then what was there.
pub drop-overwrite_at :
    (n : ℕ) (ds bytes : List ℕ)
    → n + length ds ≤ length bytes
    → drop n (overwrite_at n ds bytes) ≡ ds ++ drop (n + length ds) bytes
unfolding overwrite_at
drop-overwrite_at zero [] bytes h = refl
drop-overwrite_at zero (d ∷ ds) [] h = absurd (omega arith)
drop-overwrite_at zero (d ∷ ds) (b ∷ bytes) h =
    simp unary_clauses (ap (◌∷◌ d) (drop-overwrite_at zero ds bytes (omega arith)))
drop-overwrite_at (suc n) ds [] h = absurd (omega arith)
drop-overwrite_at (suc n) ds (b ∷ bytes) h =
    rw (suc_add n (length ds)) (drop-overwrite_at n ds bytes (omega arith))

-- Two writes, one behind the other, are one.
pub overwrite_at-append :
    (n : ℕ) (ds es bytes : List ℕ)
    → overwrite_at (n + length ds) es (overwrite_at n ds bytes) ≡ overwrite_at n (ds ++ es) bytes
unfolding overwrite_at
overwrite_at-append zero [] es bytes = refl
overwrite_at-append zero (d ∷ ds) es [] = simp unary_clauses refl
overwrite_at-append zero (d ∷ ds) es (b ∷ bytes) =
    simp unary_clauses (ap (◌∷◌ d) (overwrite_at-append zero ds es bytes))
overwrite_at-append (suc n) ds es [] = rw (suc_add n (length ds)) refl
overwrite_at-append (suc n) ds es (b ∷ bytes) =
    rw (suc_add n (length ds)) (ap (◌∷◌ b) (overwrite_at-append n ds es bytes))

-- The bytes written stand between those in front of the offset and those behind.
pub overwrite_at_lem :
    (n : ℕ) (ds bytes : List ℕ)
    → n + length ds ≤ length bytes
    → overwrite_at n ds bytes ≡ take n bytes ++ (ds ++ drop (n + length ds) bytes)
overwrite_at_lem n ds bytes h =
    sym (take-append-drop n (overwrite_at n ds bytes))
    ∙ ap (λ l. l ++ drop n (overwrite_at n ds bytes)) (take-overwrite_at n n ds bytes (omega arith))
    ∙ ap (λ l. take n bytes ++ l) (drop-overwrite_at n ds bytes h)
