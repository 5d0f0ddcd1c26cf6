-- ===== src/IdSequence.antt =====
-- src/jonoondb_api/id_seq.cc: `IDSequence`, which hands out the ids of a bitmap in spans of a vector.
-- The pair of iterators is the list of the ids that they have still to go through: the iteration
-- from `begin_pointer` to `end_pointer` gives `positions`.
pub mod Chunks
use jonoondb.Prelude.{
  ℕ, zero, suc, ◌+◌, List, [], ◌∷◌, Option, none, some, Bool, true, false, ltb, if◌then◌else◌,
  length, take, set, replicate,
}
use jonoondb.Bitmap.{Ewah, Bitmap}

pub record IdSequence : Type 0 where
  pub remaining : List ℕ
  -- `m_currentVector`, and the length of `m_currentSpan`, which starts where the vector does.
  pub current_vector : List ℕ
  pub span_length : ℕ

-- The constructor
unfoldable pub make_sequence : (w : Ewah) → Bitmap w → ℕ → IdSequence
make_sequence w bitmap vec_size = record {
  remaining = w.positions bitmap;
  current_vector = replicate vec_size 0;
  span_length = 0;
}

-- `Current`
unfoldable pub current : IdSequence → List ℕ
current s = take s.span_length s.current_vector

-- The loop of `Next`, from an index on.
unfoldable pub fill : ℕ → List ℕ → List ℕ → IdSequence
fill index vector [] = record { remaining = []; current_vector = vector; span_length = index }
fill index vector (id ∷ ids) =
    let rest = fill (index + 1) (set vector index id) ids in
    if ltb index (length vector)
    then rest
    else record { remaining = id ∷ ids; current_vector = vector; span_length = index }

-- `Next`
unfoldable pub next_from : IdSequence → List ℕ → IdSequence × Bool
unfolding fill
next_from s [] = (record s { span_length = 0 }, false)
next_from s (id ∷ ids) = (fill 0 s.current_vector (id ∷ ids), true)

unfoldable pub next : IdSequence → IdSequence × Bool
unfolding next_from
next s = next_from s s.remaining

-- A caller's loop `while (seq.Next())`: the spans that it sees, and `none` if it is not at its end
-- after the given number of calls.
unfoldable pub read_all : ℕ → IdSequence → Option (List (List ℕ))
unfolding next current
read_all zero s = none
read_all (suc calls) s =
    let rest = read_all calls (next s).0 in
    if (next s).1
    then (elim rest [ none ↦ none | some spans ↦ some (current (next s).0 ∷ spans) ])
    else some []
