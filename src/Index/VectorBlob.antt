-- ===== src/Index/VectorBlob.antt =====
-- include/jonoondb_api/vector_blob_indexer.h: `VectorBlobIndexer`, which scans the blobs of the
-- documents. A blob without bytes is a null. The constructor's checks are left out; `insert_blob` takes
-- the bytes that `DocumentUtils::GetBlobValue` gives, for the document id that is the size of the vector.
pub mod Exact
use jonoondb.Prelude.{
  ℕ, List, [], ◌∷◌, ◌++◌, Option, none, some, Bool, true, false, not, ◌&&◌, ltb, if◌then◌else◌,
  get_elem?, length,
}
use jonoondb.Prelude.Outcome.{Outcome, ok, throw, ◌>>=◌, jonoondb_error}
use jonoondb.Bitmap.{Ewah, Bitmap}
use jonoondb.Buffer.{
  Buffer, standard_delete, copy_of, copy, resize, less, less_equal, greater, greater_equal, equal,
}
use jonoondb.Index.Constraint.{
  Floats, Constraint, IndexConstraintOperator, less_than, less_than_equal, greater_than,
  greater_than_equal, OperandType, blob,
}
use jonoondb.Index.Constraint
use jonoondb.Index.VectorInteger.{scan}

-- `constraint.blobVal`
abbrev pub blob_operand : {f : Floats} → Constraint f → Buffer
blob_operand c = record {
  bytes = some c.blob_val;
  deleter = standard_delete;
  len = length c.blob_val;
  capacity = length c.blob_val;
}

-- `GetLength() > 0`
abbrev pub has_bytes : Buffer → Bool
has_bytes v = ltb 0 v.len

abbrev pub is_blob : OperandType → Bool
is_blob blob = true
is_blob _ = false

module _ (fresh : ℕ → List ℕ) where
  -- `Insert`
  unfoldable pub insert_blob : List Buffer → Option (List ℕ) → ℕ → Outcome (List Buffer)
  insert_blob values data' size = copy_of fresh data' size size >>= λ b. ok (values ++ (b ∷ []))

  -- The buffer that `TryGetBlobValue` copies into.
  unfoldable pub fitted : Buffer → Buffer → Buffer
  fitted val v = if ltb val.len v.len then resize fresh val v.len else val

  -- `TryGetBlobValue`: the blob, or `none` for the result false.
  unfoldable pub try_get_blob_value : List Buffer → ℕ → Buffer → Outcome (Option Buffer)
  unfolding fitted
  try_get_blob_value values id val = elim (get_elem? values id) [
    | none ↦ ok none
    | some v ↦ copy (fitted val v) v.bytes v.len >>= λ b. ok (some b)
  ]

module _ (w : Ewah) (f : Floats) where
  unfoldable pub blobs_eq : List Buffer → Constraint f → Outcome (Bitmap w)
  unfolding scan
  blobs_eq values c =
      if is_blob c.operand_type
      then scan w f (λ v. equal false v (blob_operand c) && has_bytes v) 0 values w.blank
      else ok w.blank

  unfoldable pub blobs_lt : List Buffer → Constraint f → Outcome (Bitmap w)
  unfolding scan
  blobs_lt values c =
      if is_blob c.operand_type
      then scan w f (λ v. less false v (blob_operand c) && has_bytes v) 0 values w.blank
      else ok w.blank

  unfoldable pub blobs_lte : List Buffer → Constraint f → Outcome (Bitmap w)
  unfolding scan
  blobs_lte values c =
      if is_blob c.operand_type
      then scan w f (λ v. less_equal false v (blob_operand c) && has_bytes v) 0 values w.blank
      else ok w.blank

  -- A blob is greater than a value of any other type, also one without bytes.
  unfoldable pub blobs_gt : List Buffer → Constraint f → Outcome (Bitmap w)
  unfolding scan
  blobs_gt values c =
      if is_blob c.operand_type
      then scan w f (λ v. greater false v (blob_operand c) && has_bytes v) 0 values w.blank
      else scan w f (λ v. true) 0 values w.blank

  unfoldable pub blobs_gte : List Buffer → Constraint f → Outcome (Bitmap w)
  unfolding scan
  blobs_gte values c =
      if is_blob c.operand_type
      then scan w f (λ v. greater_equal false v (blob_operand c) && has_bytes v) 0 values w.blank
      else scan w f (λ v. true) 0 values w.blank

  -- `Filter`
  unfoldable pub filter_blobs_by :
      IndexConstraintOperator → List Buffer → Constraint f → Outcome (Bitmap w)
  unfolding blobs_eq blobs_lt blobs_lte blobs_gt blobs_gte
  filter_blobs_by Constraint.equal values c = blobs_eq values c
  filter_blobs_by less_than values c = blobs_lt values c
  filter_blobs_by less_than_equal values c = blobs_lte values c
  filter_blobs_by greater_than values c = blobs_gt values c
  filter_blobs_by greater_than_equal values c = blobs_gte values c
  filter_blobs_by _ values c = throw jonoondb_error

  unfoldable pub filter_blobs : List Buffer → Constraint f → Outcome (Bitmap w)
  unfolding filter_blobs_by
  filter_blobs values c = filter_blobs_by c.op values c

  -- The loops of `FilterRange`, by the two operators.
  unfoldable pub blobs_between :
      IndexConstraintOperator
      → IndexConstraintOperator
      → List Buffer
      → Buffer
      → Buffer
      → Outcome (Bitmap w)
  unfolding scan
  blobs_between greater_than less_than values l u =
      scan w f (λ v. greater false v l && less false v u && has_bytes v) 0 values w.blank
  blobs_between greater_than less_than_equal values l u =
      scan w f (λ v. greater false v l && less_equal false v u && has_bytes v) 0 values w.blank
  blobs_between greater_than_equal less_than values l u =
      scan w f (λ v. greater_equal false v l && less false v u && has_bytes v) 0 values w.blank
  blobs_between greater_than_equal less_than_equal values l u =
      scan w f (λ v. greater_equal false v l && less_equal false v u && has_bytes v) 0 values
        w.blank
  blobs_between _ _ values l u = ok w.blank

  -- `FilterRange` where only the upper bound is a blob.
  unfoldable pub blobs_below :
      IndexConstraintOperator → List Buffer → Constraint f → Outcome (Bitmap w)
  unfolding blobs_lt blobs_lte
  blobs_below less_than values c = blobs_lt values c
  blobs_below less_than_equal values c = blobs_lte values c
  blobs_below _ values c = ok w.blank

  -- `FilterRange`
  unfoldable pub filter_range_blobs : List Buffer → Constraint f → Constraint f → Outcome (Bitmap w)
  unfolding blobs_between blobs_below
  filter_range_blobs values lower upper =
      if is_blob lower.operand_type && is_blob upper.operand_type
      then blobs_between lower.op upper.op values (blob_operand lower) (blob_operand upper)
      else if not (is_blob lower.operand_type) && is_blob upper.operand_type
      then blobs_below upper.op values upper
      else ok w.blank
