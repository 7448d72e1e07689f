-- ===== src/FixedArray.antt =====
-- runtime/utils/fixed_array.h: an array that grows. `none` is a write past the end of its memory.
pub mod Room
use nfvactor.Prelude.{
  ℕ, ◌+◌, ◌-◌, ◌*◌, Option, none, some, List, [], ◌∷◌, ◌++◌, ◌==◌, ◌>>=◌, ltb, leb, if◌then◌else◌,
  length, get_elem?, set, take, drop,
}

-- `bytes` is the size of the memory behind `array_`; `elems` are the elements up to `cur_size_`.
pub record FixedArray (T : Type 0) : Type 0 where
  pub elems : List T
  pub array_size : ℕ
  pub bytes : ℕ

abbrev pub relloc_size : ℕ
relloc_size = 32

-- `sizeof(T)` is a parameter.
module _ {T : Type 0} (size_of : ℕ) where
  unfoldable pub constructed : FixedArray T
  constructed = record { elems = []; array_size = 0; bytes = 0 }

  unfoldable pub init : ℕ → FixedArray T
  init initial_array_size = record {
    elems = [];
    array_size = initial_array_size;
    bytes = size_of * initial_array_size;
  }

  -- The new size in bytes is that of the array in elements, and 32.
  unfoldable pub grow : FixedArray T → FixedArray T
  grow a =
      if length a.elems == a.array_size
      then record a { bytes = a.array_size + relloc_size; array_size = a.array_size + relloc_size }
      else a

  unfoldable pub add : T → FixedArray T → Option (FixedArray T)
  unfolding grow
  add new_val a =
      let a' = grow a in
      if leb ((length a.elems + 1) * size_of) a'.bytes
      then some (record a' { elems = a.elems ++ new_val ∷ [] })
      else none

  -- The calls one after the other.
  unfoldable pub add_all : List T → FixedArray T → Option (FixedArray T)
  unfolding add
  add_all [] a = some a
  add_all (x ∷ l) a = add x a >>= add_all l

module _ {T : Type 0} where
  unfoldable pub remove : ℕ → FixedArray T → FixedArray T
  remove pos a =
      if leb (length a.elems) pos
      then a
      else record a { elems = take pos a.elems ++ drop (pos + 1) a.elems }

  unfoldable pub size : FixedArray T → ℕ
  size a = length a.elems

  unfoldable pub get : ℕ → FixedArray T → Option T
  get pos a = if leb (length a.elems) pos then none else get_elem? a.elems pos
