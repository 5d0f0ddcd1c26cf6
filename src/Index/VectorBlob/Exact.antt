-- ===== src/Index/VectorBlob/Exact.antt =====
-- vector_blob_indexer.h: `Filter` and `FilterRange` answer constraints as the query means them.
use Prim.Native.String.{String}
use jonoondb.Prelude.{
  ℕ, ◌≡◌, refl, ap, ◌∙◌, List, [], ◌∷◌, Bool, true, false, not, ◌&&◌, ◌||◌, arith, Option-cases,
  inl, inr, some, get_elem?, take, length,
}
use jonoondb.Prelude.Outcome.{ok}
use jonoondb.Bitmap.{Ewah, Bitmap}
use jonoondb.Buffer.{Buffer, contents, less, less_equal, greater, greater_equal}
use jonoondb.Buffer
use jonoondb.Buffer.Valid.{IsValid}
use jonoondb.Buffer.Order.{lex_lt, less-lex_lt}
use jonoondb.Index.Constraint.{
  Floats, Constraint, IndexConstraintOperator, equal, less_than, less_than_equal, greater_than,
  greater_than_equal, is_lower, is_upper,
}
use jonoondb.Index.Manager.{Indexer}
use jonoondb.Index.Manager.Filter.{IsExact}
use jonoondb.Index.Manager.Scanner.{scan_holds, scanner-IsExact}
use jonoondb.Index.VectorInteger.{scan}
use jonoondb.Index.VectorInteger.Scan.{selected, scan_lem}
use jonoondb.Index.VectorDouble.Exact.{is_comparison}
use jonoondb.Index.VectorString.{text_eq}
use jonoondb.Index.VectorString.Exact.{compares_text, lex_lt_total, lex_ge_total}
use jonoondb.Index.VectorBlob.{
  blob_operand, has_bytes, is_blob, filter_blobs, filter_blobs_by, blobs_eq, blobs_lt, blobs_lte,
  blobs_gt, blobs_gte, blobs_between, filter_range_blobs,
}

-- The blobs of an index are valid buffers.
abbrev pub AreValid : List Buffer → Type 0
AreValid values = (j : ℕ) (v : Buffer) → get_elem? values j ≡ some v → IsValid v

selected_within :
    {A : Type 0} (p q : A → Bool) (values : List A) (j : ℕ)
    → ((v : A) → get_elem? values j ≡ some v → p v ≡ q v)
    → selected p values j ≡ selected q values j
unfolding selected
selected_within p q values j h = elim (Option-cases (get_elem? values j)) [
  | inl out ↦ rw out
  | inr (v, there) ↦ rw there (h v there)
]

-- Neither smaller nor greater is equal.
neither-text_eq : (a b : List ℕ) → (not (lex_lt a b) && not (lex_lt b a)) ≡ text_eq a b
unfolding lex_lt text_eq
neither-text_eq [] [] = refl
neither-text_eq [] (y ∷ ys) = refl
neither-text_eq (x ∷ xs) [] = refl
neither-text_eq (x ∷ xs) (y ∷ ys) = ground (arith, neither-text_eq xs ys)

take_all : (xs : List ℕ) → take (length xs) xs ≡ xs
take_all [] = refl
take_all (x ∷ xs) = ap (λ ys. x ∷ ys) (take_all xs)

module _ {f : Floats} where
  blob_operand-IsValid : (c : Constraint f) → IsValid (blob_operand c)
  blob_operand-IsValid c = record { bounded = omega arith; sized = refl }

  -- A null satisfies nothing; blobs are compared by the order of their bytes.
  abbrev pub blob_satisfies : Constraint f → Buffer → Bool
  blob_satisfies c v =
      is_blob c.operand_type && compares_text c.op c.blob_val (contents v) && has_bytes v

  abbrev pub blob_supports : Constraint f → Bool
  blob_supports c = is_comparison c.op && is_blob c.operand_type

  -- The comparisons of a valid buffer with the operand, by the bytes.
  before :
      (c : Constraint f) (v : Buffer)
      → IsValid v
      → less false v (blob_operand c) ≡ lex_lt (contents v) c.blob_val
  before c v valid =
      less-lex_lt false v (blob_operand c) valid (blob_operand-IsValid c) (λ e. absurd cc)
      ∙ ap (lex_lt (contents v)) (take_all c.blob_val)

  behind :
      (c : Constraint f) (v : Buffer)
      → IsValid v
      → less false (blob_operand c) v ≡ lex_lt c.blob_val (contents v)
  behind c v valid =
      less-lex_lt false (blob_operand c) v (blob_operand-IsValid c) valid (λ e. absurd cc)
      ∙ ap (λ x. lex_lt x (contents v)) (take_all c.blob_val)

  at_most :
      (c : Constraint f) (v : Buffer)
      → IsValid v
      → less_equal false v (blob_operand c)
        ≡ (lex_lt (contents v) c.blob_val || text_eq (contents v) c.blob_val)
  unfolding less_equal
  at_most c v valid = ap not (behind c v valid) ∙ lex_lt_total (contents v) c.blob_val

  at_least :
      (c : Constraint f) (v : Buffer)
      → IsValid v
      → greater_equal false v (blob_operand c)
        ≡ (lex_lt c.blob_val (contents v) || text_eq (contents v) c.blob_val)
  unfolding greater_equal
  at_least c v valid = ap not (before c v valid) ∙ lex_ge_total (contents v) c.blob_val

  above :
      (c : Constraint f) (v : Buffer)
      → IsValid v
      → greater false v (blob_operand c) ≡ lex_lt c.blob_val (contents v)
  unfolding greater
  above c v valid = behind c v valid

  same_bytes :
      (c : Constraint f) (v : Buffer)
      → IsValid v
      → Buffer.equal false v (blob_operand c) ≡ text_eq (contents v) c.blob_val
  unfolding Buffer.equal
  same_bytes c v valid =
      rw (before c v valid, behind c v valid) (neither-text_eq (contents v) c.blob_val)

module _ (w : Ewah) (f : Floats) where
  open w use {test}

  -- A scan by one test has the ids of another that agrees with it on valid buffers.
  scan_within :
      (p q : Buffer → Bool) (values : List Buffer)
      → AreValid values
      → ((v : Buffer) → IsValid v → p v ≡ q v)
      → (b : Bitmap w) × (scan w f p 0 values w.blank ≡ ok b)
        × ((j : ℕ) → test b j ≡ selected q values j)
  scan_within p q values valid same =
      let (b, done, tests) = scan_lem w f p values in
      (b, done, λ j. tests j ∙ selected_within p q values j (λ v there. same v (valid j v there)))

  filter_blobs_by-compares :
      (op : IndexConstraintOperator) (values : List Buffer) (c : Constraint f)
      → AreValid values
      → is_comparison op ≡ true
      → is_blob c.operand_type ≡ true
      → (b : Bitmap w) × (filter_blobs_by w f op values c ≡ ok b)
        × ((j : ℕ)
            → test b j
              ≡ selected
                  (λ v.
                    is_blob c.operand_type
                    && compares_text op c.blob_val (contents v)
                    && has_bytes v)
                  values
                  j)
  unfolding filter_blobs_by blobs_eq blobs_lt blobs_lte blobs_gt blobs_gte
  filter_blobs_by-compares equal values c valid h good =
      rw good (scan_within _ _ values valid λ v is. ap (λ x. x && has_bytes v) (same_bytes c v is))
  filter_blobs_by-compares less_than values c valid h good =
      rw good (scan_within _ _ values valid λ v is. ap (λ x. x && has_bytes v) (before c v is))
  filter_blobs_by-compares less_than_equal values c valid h good =
      rw good (scan_within _ _ values valid λ v is. ap (λ x. x && has_bytes v) (at_most c v is))
  filter_blobs_by-compares greater_than values c valid h good =
      rw good (scan_within _ _ values valid λ v is. ap (λ x. x && has_bytes v) (above c v is))
  filter_blobs_by-compares greater_than_equal values c valid h good =
      rw good (scan_within _ _ values valid λ v is. ap (λ x. x && has_bytes v) (at_least c v is))
  filter_blobs_by-compares _ values c valid h good = absurd cc

  -- Two bounds and the test for bytes are the two constraints.
  both : (l l' u u' n : Bool) → l ≡ l' → u ≡ u' → (l && u && n) ≡ ((l' && n) && (u' && n))
  both l l' u u' n e e' = ground arith

  blobs_between-compares :
      (p q : IndexConstraintOperator) (values : List Buffer) (c d : Constraint f)
      → AreValid values
      → is_lower p ≡ true
      → is_upper q ≡ true
      → (b : Bitmap w) × (blobs_between w f p q values (blob_operand c) (blob_operand d) ≡ ok b)
        × ((j : ℕ)
            → test b j
              ≡ selected
                  (λ v.
                    (compares_text p c.blob_val (contents v) && has_bytes v)
                    && (compares_text q d.blob_val (contents v) && has_bytes v))
                  values
                  j)
  unfolding blobs_between is_lower is_upper
  blobs_between-compares greater_than less_than values c d valid h k =
      scan_within _ _ values valid λ v is. both _ _ _ _ _ (above c v is) (before d v is)
  blobs_between-compares greater_than less_than_equal values c d valid h k =
      scan_within _ _ values valid λ v is. both _ _ _ _ _ (above c v is) (at_most d v is)
  blobs_between-compares greater_than_equal less_than values c d valid h k =
      scan_within _ _ values valid λ v is. both _ _ _ _ _ (at_least c v is) (before d v is)
  blobs_between-compares greater_than_equal less_than_equal values c d valid h k =
      scan_within _ _ values valid λ v is. both _ _ _ _ _ (at_least c v is) (at_most d v is)
  blobs_between-compares _ _ values c d valid h k = absurd cc

  supported :
      (c : Constraint f)
      → blob_supports c ≡ true
      → (is_comparison c.op ≡ true) × (is_blob c.operand_type ≡ true)
  supported c good = ground arith

  -- `VectorBlobIndexer` as an `Indexer`.
  abbrev pub blob_indexer : List Buffer → Indexer w f
  blob_indexer values = record {
    filter = filter_blobs w f values;
    filter_range = filter_range_blobs w f values;
  }

  -- Filter of the vector index of blobs returns, for each of the five comparisons with a blob, exactly the
  -- ids whose values have bytes and satisfy the constraint in the order of the bytes, and FilterRange those
  -- that satisfy both bounds: the index keeps what the index manager expects of an indexer, for every
  -- column whose values are valid buffers.
  pub blob_indexer-IsExact :
      (values_of : String → List Buffer) (column : String)
      → AreValid (values_of column)
      → IsExact w f blob_supports
          (scan_holds w f blob_satisfies values_of)
          column
          (blob_indexer (values_of column))
  unfolding filter_blobs filter_range_blobs
  blob_indexer-IsExact values_of column valid =
      scanner-IsExact w f blob_satisfies blob_supports (blob_indexer (values_of column)) values_of
        column
        (λ c good.
          let (compares, is) = supported c good in
          filter_blobs_by-compares c.op (values_of column) c valid compares is)
        (λ c d l u good good'.
          rw ((supported c good).1, (supported d good').1)
            (blobs_between-compares c.op d.op (values_of column) c d valid l u))
