-- ===== src/Nf/Register/Chain.antt =====
-- What a parsed service chain means when it is unpacked.
use native.Mathlib.Nat.{div-div-eq-div-mul}
use mathlib.Core.List.{reverse_aux}
use native.Mathlib.Decide.{dec_lt}
use nfvactor.Prelude.{
  lt→ltb, ℕ, zero, suc, ◌+◌, ◌*◌, ◌/◌, ◌^◌, ◌<◌, ◌≤◌, ◌≡◌, refl, sym, ◌∙◌, ap, Bool, true, false,
  Option, some, List, [], ◌∷◌, ◌>>=◌, reverse, map, length, arith,
}
use nfvactor.Prelude.Int.{pos}
use nfvactor.Nf.Register.{
  compute_network_function, length_loop, compute_service_chain_length, chain_loop,
  get_service_chain, rounds, add_nf, add_nfs, parse_service_chain, pieces,
}

-- The number whose bytes are the digits, lowest first.
abbrev pub value : List ℕ → ℕ
value [] = 0
value (d ∷ l) = d + 2 ^ 8 * value l

-- Ids are bytes other than 0.
abbrev pub AllIds : List ℕ → Type 0
AllIds [] = Unit
AllIds (d ∷ l) = (0 < d) × (d < 2 ^ 8) × AllIds l

-- The byte at a position, counted down.
abbrev byte_at : ℕ → List ℕ → ℕ
byte_at i [] = 0
byte_at zero (d ∷ l) = d
byte_at (suc i) (d ∷ l) = byte_at i l

byte_power : (i : ℕ) → 2 ^ (8 * suc i) ≡ 2 ^ 8 * 2 ^ (8 * i)
byte_power i =
    let eight : 8 * suc i ≡ suc (suc (suc (suc (suc (suc (suc (suc (8 * i)))))))) = omega arith in
    rw eight (omega arith)

shifted : (n i : ℕ) → n / 2 ^ (8 * suc i) ≡ n / 2 ^ 8 / 2 ^ (8 * i)
shifted n i = rw (byte_power i) (sym (div-div-eq-div-mul n (2 ^ 8) (2 ^ (8 * i))))

compute_network_function-value :
    (l : List ℕ) (i : ℕ) → AllIds l → compute_network_function (value l) i ≡ byte_at i l
unfolding compute_network_function
compute_network_function-value [] zero h = omega arith
compute_network_function-value [] (suc i) h =
    rw (shifted 0 i) (compute_network_function-value [] i h)
compute_network_function-value (d ∷ l) zero h = omega (arith, h)
compute_network_function-value (d ∷ l) (suc i) h =
    let rest : (d + 2 ^ 8 * value l) / 2 ^ 8 ≡ value l = omega (arith, h) in
    rw (shifted (d + 2 ^ 8 * value l) i, rest) (compute_network_function-value l i h.2)

byte_at-inside : (l : List ℕ) (i : ℕ) → AllIds l → i < length l → 0 < byte_at i l
byte_at-inside [] i h p = absurd (omega arith)
byte_at-inside (d ∷ l) zero h p = h.0
byte_at-inside (d ∷ l) (suc i) h p = byte_at-inside l i h.2 (omega arith)

byte_at-outside : (l : List ℕ) (i : ℕ) → length l ≤ i → byte_at i l ≡ 0
byte_at-outside [] i p = refl
byte_at-outside (d ∷ l) zero p = absurd (omega arith)
byte_at-outside (d ∷ l) (suc i) p = byte_at-outside l i (omega arith)

-- Behind the last id, the loop meets zeros only.
loop_outside :
    (l : List ℕ) (n i count : ℕ) (seen : Bool)
    → AllIds l
    → length l ≤ i
    → length_loop (value l) n i count seen ≡ pos count
unfolding length_loop compute_network_function
loop_outside l zero i count seen h p = refl
loop_outside l (suc n) i count seen h p =
    rw (compute_network_function-value l i h, byte_at-outside l i p)
      (loop_outside l n (i + 1) count true h (omega arith))

loop_inside :
    (l : List ℕ) (n i : ℕ)
    → AllIds l
    → i ≤ length l
    → length l ≤ i + n
    → length_loop (value l) n i i false ≡ pos (length l)
unfolding length_loop compute_network_function
loop_inside l zero i h p q = ap pos (omega arith)
loop_inside l (suc n) i h p q = elim (dec_lt i (length l)) [
  | yes k ↦
      rw (compute_network_function-value l i h, lt→ltb 0 (byte_at i l) (byte_at-inside l i h k))
        (loop_inside l n (i + 1) h (omega arith) (omega arith))
  | no k ↦ loop_outside l (suc n) i i false h (omega arith) ∙ ap pos (omega arith)
]

-- The number of ids in a chain of at most eight is found.
pub compute_service_chain_length-value :
    (l : List ℕ) → AllIds l → length l ≤ 8 → compute_service_chain_length (value l) ≡ pos (length l)
unfolding compute_service_chain_length
compute_service_chain_length-value l h p = loop_inside l 8 0 h (omega arith) p

value_bound : (l : List ℕ) (n : ℕ) → AllIds l → length l ≤ n → value l < 2 ^ (8 * n)
value_bound [] zero h p = omega arith
value_bound [] (suc n) h p = rw (byte_power n) (omega (arith, value_bound [] n h (omega arith)))
value_bound (d ∷ l) zero h p = absurd (omega arith)
value_bound (d ∷ l) (suc n) h p =
    rw (byte_power n) (omega (arith, value_bound l n h.2 (omega arith)))

add_nf-value :
    (l : List ℕ) (d : ℕ) → AllIds l → length l ≤ 7 → 0 < d → add_nf (value l) d ≡ value (d ∷ l)
unfolding add_nf
add_nf-value l d h p q = let small : value l < 2 ^ 56 = value_bound l 7 h p in ground arith

add_nfs-value :
    (look_up_id : List ℕ → ℕ) (l : List ℕ) (names : List (List ℕ))
    → AllIds l
    → AllIds (map look_up_id names)
    → length l + length names ≤ 8
    → (add_nfs look_up_id (value l) names ≡ value (reverse_aux (map look_up_id names) l))
      × AllIds (reverse_aux (map look_up_id names) l)
      × (length (reverse_aux (map look_up_id names) l) ≡ length l + length names)
unfolding add_nfs
add_nfs-value look l [] h k p = (refl, h, omega arith)
add_nfs-value look l (s ∷ names) h k p =
    let (same, ids, count) =
      add_nfs-value look (look s ∷ l) names (k.0, k.1, h) k.2 (omega arith) in
    (rw (add_nf-value l (look s) h (omega arith) k.0) same, ids, omega (arith, count))

-- The functions with the given ids.
abbrev pub find_all : {A : Type 0} → (ℕ → Option A) → List ℕ → Option (List A)
find_all id_nf_map [] = some []
find_all id_nf_map (d ∷ l) = id_nf_map d >>= (λ nf. find_all id_nf_map l >>= (λ v. some (nf ∷ v)))

abbrev from : ℕ → List ℕ → List ℕ
from zero l = l
from (suc i) [] = []
from (suc i) (d ∷ l) = from i l

from_end : (l : List ℕ) (i : ℕ) → length l ≤ i → from i l ≡ []
from_end [] zero p = refl
from_end [] (suc i) p = refl
from_end (d ∷ l) zero p = absurd (omega arith)
from_end (d ∷ l) (suc i) p = from_end l i (omega arith)

from_byte : (l : List ℕ) (i : ℕ) → i < length l → from i l ≡ byte_at i l ∷ from (suc i) l
from_byte [] i p = absurd (omega arith)
from_byte (d ∷ l) zero p = refl
from_byte (d ∷ l) (suc i) p = from_byte l i (omega arith)

chain_loop-value :
    {A : Type 0} (id_nf_map : ℕ → Option A) (l : List ℕ) (n i : ℕ)
    → AllIds l
    → i + n ≡ length l
    → chain_loop id_nf_map (value l) n i ≡ find_all id_nf_map (from i l)
unfolding chain_loop
chain_loop-value m l zero i h p = rw (from_end l i (omega arith)) refl
chain_loop-value m l (suc n) i h p =
    let one : i + 1 ≡ suc i = omega arith in
    rw
      (
        from_byte l i (omega arith),
        compute_network_function-value l i h,
        chain_loop-value m l n (i + 1) h (omega arith),
        one,
      )
      refl

-- A flag that names one to eight functions that are registered, each with an id below 256, is parsed into a
-- chain whose functions are those of the flag in the opposite order.
pub get_service_chain-parse :
    {A : Type 0} (look_up_id : List ℕ → ℕ) (id_nf_map : ℕ → Option A) (str : List ℕ)
    → AllIds (map look_up_id (pieces [] str))
    → length (pieces [] str) ≤ 8
    → get_service_chain id_nf_map (parse_service_chain look_up_id str)
      ≡ find_all id_nf_map (reverse (map look_up_id (pieces [] str)))
unfolding get_service_chain parse_service_chain rounds
get_service_chain-parse look m str h p =
    let (same, ids, count) = add_nfs-value look [] (pieces [] str) tt h (omega (arith, p)) in
    let l = reverse (map look (pieces [] str)) in
    let number : compute_service_chain_length (value l) ≡ pos (length l) =
      compute_service_chain_length-value l ids (omega (arith, count)) in
    rw (same, number) (chain_loop-value m l (length l) 0 ids (omega arith))
