-- ===== src/Nf/Register.antt =====
-- runtime/nf/base/network_function_register.cc and `parse_service_chain` of
-- runtime/actor/coordinator.cc: a service chain is a 64-bit number with one network function's id in
-- each byte. The register's table of names is a parameter; a flag is the codes of its characters.
pub mod Chain
use nfvactor.Prelude.{
  ℕ, zero, suc, ◌+◌, ◌*◌, ◌/◌, ◌%◌, ◌^◌, Bool, true, false, Option, none, some, List, [], ◌∷◌, ◌++◌,
  ltb, ◌==◌, ◌>>=◌, if◌then◌else◌, update,
}
use nfvactor.Prelude.Int.{ℤ, pos, negsuc}

unfoldable pub compute_network_function : ℕ → ℕ → ℕ
compute_network_function s at = s / 2 ^ (8 * at) % 2 ^ 8

-- The loop of `compute_service_chain_length`: `n` rounds from `i` on.
unfoldable pub length_loop : ℕ → ℕ → ℕ → ℕ → Bool → ℤ
length_loop s zero i length encounter_zero = pos length
length_loop s (suc n) i length encounter_zero =
    let nf = s / 2 ^ (8 * i) % 2 ^ 8 in
    let counted = length_loop s n (i + 1) (length + 1) encounter_zero in
    let skipped = length_loop s n (i + 1) length true in
    if ltb 0 nf then (if encounter_zero then negsuc 0 else counted) else skipped

unfoldable pub compute_service_chain_length : ℕ → ℤ
unfolding length_loop
compute_service_chain_length s = length_loop s 8 0 0 false

-- The loop of `get_service_chain`: the ids of the functions, `n` from `i` on; the table's element
-- with the id is looked up without a test, `none` stands for its absence.
unfoldable pub chain_loop : {A : Type 0} → (ℕ → Option A) → ℕ → ℕ → ℕ → Option (List A)
unfolding compute_network_function
chain_loop id_nf_map s zero i = some []
chain_loop id_nf_map s (suc n) i =
    id_nf_map (compute_network_function s i)
    >>= (λ nf. chain_loop id_nf_map s n (i + 1) >>= (λ v. some (nf ∷ v)))

unfoldable pub rounds : ℤ → ℕ
rounds (pos n) = n
rounds (negsuc n) = 0

unfoldable pub get_service_chain : {A : Type 0} → (ℕ → Option A) → ℕ → Option (List A)
unfolding chain_loop compute_service_chain_length rounds
get_service_chain id_nf_map s = chain_loop id_nf_map s (rounds (compute_service_chain_length s)) 0

abbrev comma : ℕ
comma = 44

-- The pieces between commas of the flag with a comma behind it; `s` is the piece so far.
unfoldable pub pieces : List ℕ → List ℕ → List (List ℕ)
pieces s [] = s ∷ []
pieces s (c ∷ str) = if c == comma then s ∷ pieces [] str else pieces (s ++ c ∷ []) str

-- `service_chain<<8 | nf_id`, for an id that is found; `look_up_id` gives 0 for an unknown name.
unfoldable pub add_nf : ℕ → ℕ → ℕ
add_nf service_chain nf_id =
    if nf_id == 0 then service_chain else service_chain * 2 ^ 8 % 2 ^ 64 + nf_id

unfoldable pub add_nfs : (List ℕ → ℕ) → ℕ → List (List ℕ) → ℕ
unfolding add_nf
add_nfs look_up_id service_chain [] = service_chain
add_nfs look_up_id service_chain (s ∷ l) =
    add_nfs look_up_id (add_nf service_chain (look_up_id s)) l

-- The test `str=="null"` comes when the comma stands behind the flag, so it never holds and has no
-- part here.
unfoldable pub parse_service_chain : (List ℕ → ℕ) → List ℕ → ℕ
unfolding add_nfs pieces
parse_service_chain look_up_id str = add_nfs look_up_id 0 (pieces [] str)
