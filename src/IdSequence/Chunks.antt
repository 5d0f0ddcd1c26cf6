-- ===== src/IdSequence/Chunks.antt =====
-- id_seq.cc: the spans are the ids of the bitmap, in order and cut to the size of the vector.
use jonoondb.Prelude.{
  ℕ, zero, suc, ◌+◌, ◌-◌, ◌≤◌, ◌<◌, ◌≡◌, refl, ap, subst, sym, ◌∙◌, List, [], ◌∷◌, ◌++◌, some,
  arith, length, take, drop, set, replicate, length-set, length-replicate, length-drop, length-take,
  take-append-drop, ltb, Bool-cases, inl, inr,
}
use jonoondb.Bitmap.{Ewah, Bitmap}
use jonoondb.IdSequence.{make_sequence, current, fill, next_from, next, read_all}

-- The spans one after the other.
unfoldable pub joined : List (List ℕ) → List ℕ
joined [] = []
joined (xs ∷ rest) = xs ++ joined rest

-- Every span holds an id, and no more than the vector has room for.
abbrev pub IsCut : ℕ → List (List ℕ) → Type 0
IsCut size [] = Unit {0}
IsCut size (xs ∷ rest) = (0 < length xs) × (length xs ≤ size) × IsCut size rest

take-set :
    (v : List ℕ) (i x : ℕ) (ys : List ℕ)
    → i < length v
    → take (suc i) (set v i x) ++ ys ≡ take i v ++ (x ∷ ys)
take-set [] i x ys h = absurd (omega arith)
take-set (y ∷ v) zero x ys h = refl
take-set (y ∷ v) (suc i) x ys h = ap (◌∷◌ y) (take-set v i x ys (omega arith))

take-set_next :
    (v : List ℕ) (i x : ℕ) (ys : List ℕ)
    → i < length v
    → take (i + 1) (set v i x) ++ ys ≡ take i v ++ (x ∷ ys)
take-set_next v i x ys h = let next : i + 1 ≡ suc i = omega arith in rw next (take-set v i x ys h)

take-nothing : (n : ℕ) → take {A = ℕ} n [] ≡ []
take-nothing zero = refl
take-nothing (suc n) = refl

drop-nothing : (n : ℕ) → drop {A = ℕ} n [] ≡ []
drop-nothing zero = refl
drop-nothing (suc n) = refl

append-nothing : (xs : List ℕ) → xs ++ [] ≡ xs
append-nothing [] = refl
append-nothing (x ∷ xs) = ap (◌∷◌ x) (append-nothing xs)

fill_lem :
    (i : ℕ) (v ids : List ℕ)
    → i ≤ length v
    → (current (fill i v ids) ≡ take i v ++ take (length v - i) ids)
      × ((fill i v ids).remaining ≡ drop (length v - i) ids)
      × (length (fill i v ids).current_vector ≡ length v)
unfolding fill current
fill_lem i v [] h = (
  sym (rw (take-nothing (length v - i)) (append-nothing (take i v))),
  sym (drop-nothing (length v - i)),
  refl,
)
fill_lem i v (id ∷ ids) h = elim (Bool-cases (ltb i (length v))) [
  | inl room ↦
      let (spans, rests, sizes) =
        fill_lem (i + 1) (set v i id) ids (ground (arith, length-set v i id)) in
      let one_less : length v - i ≡ suc (length v - (i + 1)) = ground arith in
      let same = length-set v i id in
      rw (room, one_less)
        (
          rw same at spans ∙ take-set_next v i id (take (length v - (i + 1)) ids) (ground arith),
          rw same at rests,
          sizes ∙ same,
        )
  | inr full ↦
      let none_left : length v - i ≡ 0 = ground arith in
      rw (full, none_left) (sym (append-nothing (take i v)), refl, refl)
]

read_lem :
    (calls : ℕ) (ids v : List ℕ) (span : ℕ)
    → 0 < length v
    → length ids < calls
    → (spans : List (List ℕ)) × (read_all calls
          (record { remaining = ids; current_vector = v; span_length = span })
        ≡ some spans)
      × (joined spans ≡ ids)
      × IsCut (length v) spans
unfolding read_all next next_from joined
read_lem zero ids v span p h = absurd (omega arith)
read_lem (suc calls) [] v span p h = ([], refl, refl, tt)
read_lem (suc calls) (id ∷ ids) v span p h =
    let s = fill 0 v (id ∷ ids) in
    let (span1, rests, sizes) = fill_lem 0 v (id ∷ ids) (omega arith) in
    let whole : length v - 0 ≡ length v = omega arith in
    let taken : current s ≡ take (length v) (id ∷ ids) =
      span1 ∙ ap (λ n. take n (id ∷ ids)) whole in
    let left : s.remaining ≡ drop (length v) (id ∷ ids) =
      rests ∙ ap (λ n. drop n (id ∷ ids)) whole in
    let (spans, done, all, cut) =
      read_lem calls s.remaining s.current_vector s.span_length (omega (arith, sizes))
        (omega (arith, ap (λ l. length l) left, length-drop (length v) (id ∷ ids))) in
    let size = ap (λ l. length l) taken in
    (
      current s ∷ spans,
      rw done,
      rw (taken, all, left) (take-append-drop (length v) (id ∷ ids)),
      (
        omega (arith, size, length-take (length v) (id ∷ ids)),
        omega (arith, size, length-take (length v) (id ∷ ids)),
        subst (λ n. IsCut n spans) sizes cut,
      ),
    )

-- With a vector for one id or more, the loop over `Next` ends after as many calls as there are ids,
-- and one more at most. The spans are the ids of the bitmap in order, each with an id at least, and
-- with no more than the size of the vector.
pub read_all-positions :
    (w : Ewah) (bitmap : Bitmap w) (vec_size calls : ℕ)
    → 0 < vec_size
    → length (w.positions bitmap) < calls
    → (spans : List (List ℕ)) × (read_all calls (make_sequence w bitmap vec_size) ≡ some spans)
      × (joined spans ≡ w.positions bitmap)
      × IsCut vec_size spans
unfolding make_sequence
read_all-positions w bitmap vec_size calls p h =
    let sized : length {A = ℕ} (replicate vec_size 0) ≡ vec_size = length-replicate vec_size 0 in
    let (spans, done, all, cut) =
      read_lem calls (w.positions bitmap) (replicate vec_size 0) 0 (omega (arith, sized)) h in
    (spans, done, all, subst (λ n. IsCut n spans) sized cut)
