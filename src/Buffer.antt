-- ===== src/Buffer.antt =====
-- src/jonoondb_api/buffer_impl.cc: `BufferImpl`, the byte buffer that documents and blobs travel in.
-- `bytes` is what `m_buffer` points to, as many as the capacity; `none` is the null pointer. What
-- `new char[n]` leaves in the memory is the parameter `fresh`. A comparison with `this` and an
-- assignment to it are told apart by a Boolean, `same`.
pub mod Valid
pub mod Order
use jonoondb.Prelude.{
  ℕ, zero, suc, ◌+◌, ◌-◌, ◌≤◌, ◌<◌, ◌≡◌, List, [], ◌∷◌, ◌++◌, Option, none, some, Bool, true, false,
  not, ◌&&◌, ◌||◌, ltb, ◌==◌, if◌then◌else◌, compare, Ordering, length, take, drop,
}
use jonoondb.Prelude.Outcome.{Outcome, ok, throw, invalid_argument, jonoondb_error}

-- `StandardDelete`, `StandardDeleteNoOp`, or a function of the caller's.
pub data Deleter : Type 0 where
  standard_delete standard_delete_no_op : Deleter
  custom : ℕ → Deleter

pub record Buffer : Type 0 where
  pub bytes : Option (List ℕ)
  pub deleter : Deleter
  pub len : ℕ
  pub capacity : ℕ

-- What a buffer says: the bytes up to its length.
abbrev pub stored : Option (List ℕ) → List ℕ
stored none = []
stored (some l) = l

abbrev pub contents : Buffer → List ℕ
contents b = take b.len (stored b.bytes)

-- `BufferImpl()`
abbrev pub empty : Buffer
empty = record { bytes = none; deleter = standard_delete; len = 0; capacity = 0 }

-- `memcpy(target, source, n)`
abbrev pub memcpy : List ℕ → List ℕ → ℕ → List ℕ
memcpy target source n = take n source ++ drop n target

-- The checks that two constructors share: the special case of the default constructor, three
-- refusals, and the rest.
abbrev pub checked {ℓ} :
    {A : Type ℓ} → Option (List ℕ) → ℕ → ℕ → Outcome A → (List ℕ → Outcome A) → Outcome A
checked none len cap special rest = if len == 0 && cap == 0 then special else throw invalid_argument
checked (some source) len cap special rest =
    if len == 0 || cap == 0
    then throw invalid_argument
    else if ltb cap len
    then throw invalid_argument
    else rest source

abbrev pub default_deleter : Option Deleter → Deleter
default_deleter none = standard_delete_no_op
default_deleter (some d) = d

-- `BufferImpl(char*, length, capacity, deleter)`: the memory is taken over, not copied.
unfoldable pub adopt : Option (List ℕ) → ℕ → ℕ → Option Deleter → Outcome Buffer
adopt source len cap deleter =
    checked source len cap
      (ok (record { bytes = none; deleter = default_deleter deleter; len = 0; capacity = 0 }))
      (λ l.
        ok
          (record { bytes = some l; deleter = default_deleter deleter; len = len; capacity = cap }))

-- `BufferImpl(BufferImpl&&)`: the new buffer, and what is left of the other. Its length and its
-- capacity stay.
unfoldable pub move_from : Buffer → Buffer × Buffer
move_from other = (other, record other { bytes = none })

-- `operator=(BufferImpl&&)`
unfoldable pub move_assign : Bool → Buffer → Buffer → Buffer × Buffer
move_assign same self other = if same then (self, self) else (other, record other { bytes = none })

-- `SetLength`
unfoldable pub set_length : Buffer → ℕ → Outcome Buffer
set_length b val =
    if ltb b.capacity val
    then throw invalid_argument
    else if b.len == val
    then ok b
    else ok (record b { len = val })

-- `Copy`
unfoldable pub copy : Buffer → Option (List ℕ) → ℕ → Outcome Buffer
copy b none n = throw invalid_argument
copy b (some source) n =
    if ltb 0 n
    then (if ltb b.capacity n
        then throw jonoondb_error
        else ok (record b { bytes = some (memcpy (stored b.bytes) source n); len = n }))
    else ok b

-- `memcmp(a, b, n)`
unfoldable pub memcmp : List ℕ → List ℕ → ℕ → Ordering
memcmp xs ys zero = Ordering.eq
memcmp [] ys (suc n) = Ordering.eq
memcmp (x ∷ xs) [] (suc n) = Ordering.eq
memcmp (x ∷ xs) (y ∷ ys) (suc n) =
    let rest = memcmp xs ys n in
    elim (compare x y) [
      | Ordering.eq ↦ rest
      | Ordering.lt ↦ Ordering.lt
      | Ordering.gt ↦ Ordering.gt
    ]

-- `operator<`
unfoldable pub less : Bool → Buffer → Buffer → Bool
less same a b =
    if same
    then false
    else if not (a.len == 0) && not (b.len == 0)
    then (let n = if ltb b.len a.len then b.len else a.len in
        elim (memcmp (stored a.bytes) (stored b.bytes) n) [
          | Ordering.lt ↦ true
          | Ordering.gt ↦ false
          | Ordering.eq ↦ if a.len == b.len then false else if ltb b.len a.len then false else true
        ])
    else if a.len == 0 && not (b.len == 0)
    then true
    else if not (a.len == 0) && b.len == 0
    then false
    else false

-- `operator<=`, `operator>`, `operator>=`, `operator==` and `operator!=`
unfoldable pub less_equal : Bool → Buffer → Buffer → Bool
less_equal same a b = not (less same b a)

unfoldable pub greater : Bool → Buffer → Buffer → Bool
greater same a b = less same b a

unfoldable pub greater_equal : Bool → Buffer → Buffer → Bool
greater_equal same a b = not (less same a b)

unfoldable pub equal : Bool → Buffer → Buffer → Bool
equal same a b = not (less same a b) && not (less same b a)

unfoldable pub not_equal : Bool → Buffer → Buffer → Bool
not_equal same a b = less same a b || less same b a

module _ (fresh : ℕ → List ℕ) where
  -- `BufferImpl(capacity)`
  unfoldable pub with_capacity : ℕ → Buffer
  with_capacity cap =
      if ltb 0 cap
      then record empty { bytes = some (fresh cap); len = 0; capacity = cap }
      else empty

  -- `BufferImpl(const char*, length, capacity)`: the bytes are copied.
  unfoldable pub copy_of : Option (List ℕ) → ℕ → ℕ → Outcome Buffer
  copy_of source len cap = checked source len cap (ok empty) λ l. ok (record {
    bytes = some (memcpy (fresh cap) l len);
    deleter = standard_delete;
    len = len;
    capacity = cap;
  })

  -- `BufferImpl(const BufferImpl&)`
  unfoldable pub clone : Buffer → Buffer
  clone other = elim other.bytes [
    | none ↦ empty
    | some l ↦ record {
      bytes = some (memcpy (fresh other.capacity) l other.capacity);
      deleter = standard_delete;
      len = other.len;
      capacity = other.capacity;
    }
  ]

  -- `operator=(const BufferImpl&)`. A reset to null keeps the deleter.
  unfoldable pub assign : Bool → Buffer → Buffer → Buffer
  assign same self other = if same then self else elim other.bytes [
    | none ↦ record self { bytes = none; len = other.len; capacity = other.capacity }
    | some l ↦
        if self.capacity == other.capacity
        then record self {
          bytes = some (memcpy (stored self.bytes) l other.capacity);
          len = other.len;
          capacity = other.capacity;
        }
        else record {
          bytes = some (memcpy (fresh other.capacity) l other.capacity);
          deleter = standard_delete;
          len = other.len;
          capacity = other.capacity;
        }
  ]

  -- `Resize`
  unfoldable pub resize : Buffer → ℕ → Buffer
  resize b cap =
      if cap == 0
      then record b { bytes = none; len = 0; capacity = 0 }
      else if cap == b.capacity
      then b
      else record { bytes = some (fresh cap); deleter = standard_delete; len = 0; capacity = cap }
