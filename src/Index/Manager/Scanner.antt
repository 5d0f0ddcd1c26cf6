-- ===== src/Index/Manager/Scanner.antt =====
-- index_manager.cc: an indexer that scans the values of the documents, whatever their type, is what the
-- index manager expects, if its two calls select the values that satisfy the constraints.
use Prim.Native.String.{String}
use jonoondb.Prelude.{ℕ, ◌≡◌, sym, ◌∙◌, ap, List, Bool, true, ◌&&◌}
use jonoondb.Prelude.Outcome.{Outcome, ok}
use jonoondb.Bitmap.{Ewah, Bitmap}
use jonoondb.Index.Constraint.{Floats, Constraint, is_lower, is_upper}
use jonoondb.Index.Manager.{Indexer}
use jonoondb.Index.Manager.Filter.{IsExact}
use jonoondb.Index.VectorInteger.Scan.{selected}
use jonoondb.Index.VectorInteger.Exact.{selected-and}

pub and_eq : {a a' b b' : Bool} → a ≡ a' → b ≡ b' → (a && b) ≡ (a' && b')
and_eq e e' = cc

module _ (w : Ewah) (f : Floats) {A : Type 0} (satisfies : Constraint f → A → Bool) where
  open w use {test}

  -- The document has a value in the column, and it satisfies the constraint.
  abbrev pub scan_holds : (String → List A) → Constraint f → ℕ → Bool
  scan_holds values_of c j = selected (satisfies c) (values_of c.column_name) j

  -- The bitmap is returned, and has the ids of the values that pass.
  abbrev pub Selects : (A → Bool) → List A → Outcome (Bitmap w) → Type 0
  Selects p values result =
      (b : Bitmap w) × (result ≡ ok b) × ((j : ℕ) → test b j ≡ selected p values j)

  pub scanner-IsExact :
      (supports : Constraint f → Bool) (indexer : Indexer w f) (values_of : String → List A)
      (column : String)
      → ((c : Constraint f)
          → supports c ≡ true
          → Selects (satisfies c) (values_of column) (indexer.filter c))
      → ((c d : Constraint f)
          → is_lower c.op ≡ true
          → is_upper d.op ≡ true
          → supports c ≡ true
          → supports d ≡ true
          → Selects
              (λ v. satisfies c v && satisfies d v)
              (values_of column)
              (indexer.filter_range c d))
      → IsExact w f supports (scan_holds values_of) column indexer
  scanner-IsExact supports indexer values_of column answers answers_range = record {
    answers = λ c e good.
        let (b, done, tests) = answers c good in (b, done, λ j. tests j ∙ at_column c e j);
    answers_range = λ c d e e' l u good good'.
        let (b, done, tests) = answers_range c d l u good good' in
        (
          b,
          done,
          λ j.
              tests j
              ∙ selected-and (satisfies c) (satisfies d) (values_of column) j
              ∙ and_eq (at_column c e j) (at_column d e' j),
        );
  }
    where
      at_column :
          (c : Constraint f)
          → c.column_name ≡ column
          → (j : ℕ) → selected (satisfies c) (values_of column) j ≡ scan_holds values_of c j
      at_column c e j = ap (λ name. selected (satisfies c) (values_of name) j) (sym e)
