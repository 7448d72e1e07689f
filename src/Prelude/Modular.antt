-- ===== src/Prelude/Modular.antt =====
-- Positions in a ring of `m` slots.
use Prim.Native.Nat.{ℕ, ◌+◌, ◌-◌, ◌%◌, ◌≤◌, ◌<◌}
use mathlib.Core.Path.{◌≡◌, ◌∙◌, ap}
use mathlib.Core.Logic.{◌≢◌, ◌⊎◌, inl, inr}
use native.Mathlib.Nat.{mod-add-mod, mod-eq_of_lt, mod-eq-sub-mod}
use native.Mathlib.Decide.{dec_lt}
use native.Mathlib.Omega.{arith}

-- Below twice the size, the remainder is the number or the number less the size.
pub mod_cases : (m k : ℕ) → k < m + m → ((k % m ≡ k) × (k < m)) ⊎ ((k % m ≡ k - m) × (m ≤ k))
mod_cases m k h = elim (dec_lt k m) [
  | yes p ↦ inl (mod-eq_of_lt p, p)
  | no p ↦ inr (
    mod-eq-sub-mod {n = k} {m = m} (omega arith) ∙ mod-eq_of_lt {n = k - m} {m = m} (omega arith),
    omega arith,
  )
]

pub mod_bound : (m k : ℕ) → k < m + m → k % m < m
mod_bound m k h = omega (arith, mod_cases m k h)

-- Two offsets below the size lead to two slots.
pub slot-ne : (m h i j : ℕ) → h < m → i < m → j < m → i ≢ j → (h + i) % m ≢ (h + j) % m
slot-ne m h i j p q r n =
    omega (arith, mod_cases m (h + i) (omega arith), mod_cases m (h + j) (omega arith))

-- An offset from a slot further on.
pub slot-shift : (m h k i : ℕ) → ((h + k) % m + i) % m ≡ (h + (k + i)) % m
slot-shift m h k i = rw mod-add-mod (ap (λ n. n % m) (omega arith))
