-- ===== src/Index/Manager/Documents/Aligned.antt =====
-- index_manager.cc: `IndexDocuments` keeps the indexers in step with the ids of the documents.
use Prim.Native.String.{String}
use jonoondb.Prelude.{
  ℕ, ◌+◌, ◌%◌, ◌<◌, ◌≡◌, refl, sym, ap, subst, ◌∙◌, List, [], ◌∷◌, Bool, true, length, arith,
}
use jonoondb.Varint.{u64_mod}
use jonoondb.Prelude.Outcome.{ok}
use jonoondb.Index.Manager.Documents.{
  DocumentIdGenerator, Inserting, reserve_id, insert_each, insert_columns, index_each,
  index_documents,
}

-- What is expected of `Insert`: where the assert on the id holds and the document can be read, it returns,
-- and the indexer has one value more.
pub record IsCounting {X D : Type 0} (i : Inserting X D) (readable : D → Bool) : Type 0 where
  pub counts :
      (id : ℕ) (document : D) (x : X)
      → i.size x ≡ id
      → readable document ≡ true
      → (x' : X) × (i.insert id document x ≡ (ok tt, x')) × (i.size x' ≡ id + 1)

abbrev pub AreReadable : {D : Type 0} → (D → Bool) → List D → Type 0
AreReadable readable [] = Unit
AreReadable readable (d ∷ ds) = (readable d ≡ true) × AreReadable readable ds

module _ {X D : Type 0} (i : Inserting X D) where
  -- The indexers have a number of values.
  abbrev pub HaveSize : ℕ → List X → Type 0
  HaveSize n [] = Unit
  HaveSize n (x ∷ xs) = (i.size x ≡ n) × HaveSize n xs

  -- The indexers of all columns have a number of values.
  abbrev pub AreAligned : ℕ → List (String × List X) → Type 0
  AreAligned n [] = Unit
  AreAligned n ((name, xs) ∷ columns) = HaveSize n xs × AreAligned n columns

module _ {X D : Type 0} (i : Inserting X D) (readable : D → Bool)
    (counting : IsCounting i readable) where
  insert_each-HaveSize :
      (id : ℕ) (document : D) (xs : List X)
      → HaveSize i id xs
      → readable document ≡ true
      → (xs' : List X) × (insert_each i id document xs ≡ (ok tt, xs')) × HaveSize i (id + 1) xs'
  unfolding insert_each
  insert_each-HaveSize id document [] h good = ([], refl, tt)
  insert_each-HaveSize id document (x ∷ xs) (h, hs) good =
      let (x', inserted, counted) = counting.counts id document x h good in
      let (xs', done, sizes) = insert_each-HaveSize id document xs hs good in
      (x' ∷ xs', rw (inserted, done) refl, (counted, sizes))

  insert_columns-AreAligned :
      (id : ℕ) (document : D) (columns : List (String × List X))
      → AreAligned i id columns
      → readable document ≡ true
      → (columns' : List (String × List X)) × (insert_columns i id document columns
          ≡ (ok tt, columns'))
        × AreAligned i (id + 1) columns'
  unfolding insert_columns
  insert_columns-AreAligned id document [] h good = ([], refl, tt)
  insert_columns-AreAligned id document ((name, xs) ∷ columns) (h, hs) good =
      let (xs', inserted, sizes) = insert_each-HaveSize id document xs h good in
      let (columns', done, aligned) = insert_columns-AreAligned id document columns hs good in
      ((name, xs') ∷ columns', rw (inserted, done) refl, (sizes, aligned))

  index_each-AreAligned :
      (id : ℕ) (documents : List D) (columns : List (String × List X))
      → AreAligned i id columns
      → AreReadable readable documents
      → id + length documents < u64_mod
      → (columns' : List (String × List X)) × (index_each i id documents columns
          ≡ (ok tt, columns'))
        × AreAligned i (id + length documents) columns'
  unfolding index_each
  index_each-AreAligned id [] columns h good small =
      (columns, refl, subst (λ n. AreAligned i n columns) (omega arith) h)
  index_each-AreAligned id (d ∷ ds) columns h (good, goods) small =
      let (columns', inserted, aligned) = insert_columns-AreAligned id d columns h good in
      let next : (id + 1) % u64_mod ≡ id + 1 = omega arith in
      let (columns'', done, aligned') =
        index_each-AreAligned (id + 1) ds columns' aligned goods (omega arith) in
      (
        columns'',
        rw inserted (ap (λ k. index_each i k ds columns') next ∙ done),
        subst (λ n. AreAligned i n columns'') (omega arith) aligned',
      )

  -- For documents that the indexers can read, and ids below 2 ^ 64, IndexDocuments returns the first id that
  -- the generator had left. If before the call every indexer of every column has as many values as ids were
  -- given, then every insertion gets the id that the assert of the indexer wants, and it is so after the call.
  pub index_documents-AreAligned :
      (g : DocumentIdGenerator) (documents : List D) (columns : List (String × List X))
      → AreAligned i g.current_id columns
      → AreReadable readable documents
      → g.current_id + length documents < u64_mod
      → (g' : DocumentIdGenerator) × ((columns' : List (String × List X)) × (index_documents i g
              documents columns
            ≡ (ok g.current_id, (g', columns')))
          × (g'.current_id ≡ g.current_id + length documents)
          × AreAligned i g'.current_id columns')
  unfolding index_documents reserve_id
  index_documents-AreAligned g documents columns h good small =
      let (columns', done, aligned) =
        index_each-AreAligned g.current_id documents columns h good small in
      let total : (g.current_id + length documents) % u64_mod ≡ g.current_id + length documents =
        omega arith in
      (
        record { current_id = (g.current_id + length documents) % u64_mod },
        (
          columns',
          rw (index_documents, done) refl,
          total,
          subst (λ n. AreAligned i n columns') (sym total) aligned,
        ),
      )
