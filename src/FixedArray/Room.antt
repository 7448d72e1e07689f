-- ===== src/FixedArray/Room.antt =====
-- How many elements fixed arrays have memory for (runtime/utils/fixed_array.h).
use mathlib.Core.List.{append_assoc, append-nil}
use nfvactor.Prelude.{
  ◌+◌, ◌<◌, ◌≤◌, ◌≡◌, refl, sym, ap, ◌∙◌, none, some, List, [], ◌∷◌, ◌++◌, length, length-append,
  arith,
}
use native.Mathlib.Decide.{dec_le}
use nfvactor.FixedArray.{FixedArray, init, grow, add, add_all}

module _ {T : Type 0} where
  -- The array of numbers of four bytes, with the memory of 32 of them.
  abbrev grown : List T → FixedArray T
  grown l = record { elems = l; array_size = 32; bytes = 128 }

  fits : (l : List T) (x : T) → length l < 32 → add 4 x (grown l) ≡ some (grown (l ++ x ∷ []))
  unfolding add grow
  fits l x h = ground arith

  full : (l : List T) (x : T) → length l ≡ 32 → add 4 x (grown l) ≡ none
  unfolding add grow
  full l x h = ground arith

  added :
      (l k : List T)
      → (length l + length k ≤ 32 → add_all 4 k (grown l) ≡ some (grown (l ++ k)))
        × (length l ≤ 32 → 32 < length l + length k → add_all 4 k (grown l) ≡ none)
  unfolding add_all
  added l [] = (λ h. ap (λ q. some (grown q)) (sym (append-nil l)), λ h p. absurd (omega arith))
  added l (x ∷ k) =
      let (more, over) = added (l ++ x ∷ []) k in
      let n = length-append l (x ∷ []) in
      (
        λ h.
            rw (fits l x (omega arith))
              (more (omega (arith, n)) ∙ ap (λ q. some (grown q)) (append_assoc l (x ∷ []) k)),
        λ h p. elim (dec_le 32 (length l)) [
          | yes q ↦ rw (full l x (omega arith)) refl
          | no q ↦ rw (fits l x (omega arith)) (over (omega (arith, n)) (omega (arith, n)))
        ],
      )

  -- An array of numbers of four bytes that is made for 32 of them takes 32. The next addition
  -- asks for 64 bytes where it means 64 numbers, and writes past them.
  pub add_all-init :
      (l : List T)
      → (length l ≤ 32 → (a : FixedArray T) × (add_all 4 l (init 4 32) ≡ some a) × (a.elems ≡ l))
        × (32 < length l → add_all 4 l (init 4 32) ≡ none)
  unfolding init
  add_all-init l =
      let (all, over) = added [] l in
      (λ h. (grown l, all (omega arith), refl), λ h. over (omega arith) (omega arith))
