-- ===== src/Prelude/Bytes.antt =====
-- Numbers as little-endian bytes, and fields of a run of bytes, as `head_data<T*>` reads them.
use mathlib.Core.List.{List, [], ◌∷◌, ◌++◌}
use Prim.Native.Nat.{ℕ, zero, suc, ◌+◌, ◌*◌, ◌/◌, ◌%◌, ◌^◌, ◌<◌}
use mathlib.Core.Path.{◌≡◌, refl, ap}
use native.Mathlib.Omega.{arith}
use nfvactor.Prelude.Lists.{length, take, drop}

unfoldable pub le_bytes : ℕ → ℕ → List ℕ
le_bytes zero v = []
le_bytes (suc n) v = v % 256 ∷ le_bytes n (v / 256)

unfoldable pub le_value : List ℕ → ℕ
le_value [] = 0
le_value (b ∷ l) = b + 256 * le_value l

-- The `n` bytes at an offset, as a number.
unfoldable pub field : List ℕ → ℕ → ℕ → ℕ
unfolding le_value
field bytes at n = le_value (take n (drop at bytes))

pub length-le_bytes : (n v : ℕ) → length (le_bytes n v) ≡ n
unfolding le_bytes
length-le_bytes zero v = refl
length-le_bytes (suc n) v = ap suc (length-le_bytes n (v / 256))

pub le_value-le_bytes : (n v : ℕ) → v < 256 ^ n → le_value (le_bytes n v) ≡ v
unfolding le_bytes le_value
le_value-le_bytes zero v h = omega arith
le_value-le_bytes (suc n) v h = omega (arith, le_value-le_bytes n (v / 256) (omega arith))

module _ {ℓ} {A : Type ℓ} where
  pub take_front : (n : ℕ) (xs ys : List A) → length xs ≡ n → take n (xs ++ ys) ≡ xs
  take_front zero [] ys h = refl
  take_front zero (x ∷ xs) ys h = absurd (omega arith)
  take_front (suc n) [] ys h = absurd (omega arith)
  take_front (suc n) (x ∷ xs) ys h = ap (◌∷◌ x) (take_front n xs ys (omega arith))

  pub drop_front : (n : ℕ) (xs ys : List A) → length xs ≡ n → drop n (xs ++ ys) ≡ ys
  drop_front zero [] ys h = refl
  drop_front zero (x ∷ xs) ys h = absurd (omega arith)
  drop_front (suc n) [] ys h = absurd (omega arith)
  drop_front (suc n) (x ∷ xs) ys h = drop_front n xs ys (omega arith)

-- A field is read back where it was written.
pub field_lem :
    (front back : List ℕ) (at n v : ℕ)
    → length front ≡ at
    → v < 256 ^ n
    → field (front ++ (le_bytes n v ++ back)) at n ≡ v
unfolding field
field_lem front back at n v h b =
    rw
      (
        drop_front at front (le_bytes n v ++ back) h,
        take_front n (le_bytes n v) back (length-le_bytes n v),
      )
      (le_value-le_bytes n v b)
