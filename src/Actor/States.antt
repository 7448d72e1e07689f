-- ===== src/Actor/States.antt =====
-- The flow states that one runtime copies into a packet are those that the other copies out of it,
-- for a migration and for a replica (runtime/actor/flow_actor.cc); and so for the structures of
-- runtime/actor/coordinator_messages.h.
use nfvactor.Prelude.{
  ℕ, zero, suc, ◌^◌, ◌<◌, ◌≡◌, refl, ap, arith, some, List, [], ◌∷◌, ◌++◌, length, take, drop,
}
use mathlib.Core.List.{append_assoc, append-nil}
use nfvactor.Prelude.Bytes.{le_bytes, le_value, le_value-le_bytes, field, take_front, drop_front}
use nfvactor.Actor.{NetworkFunction, FlowEtherHeader}
use nfvactor.Actor.Chain.{pack, unpack, fill_up}
use nfvactor.Actor.Header.{
  NewRoute, new_route_bytes, read_new_route, create_target_bytes, read_create_target, header_bytes,
  ether_bytes,
}

-- Each function has a state, of its size.
abbrev pub AreSized : {W : Type 0} → List (NetworkFunction W) → List (List ℕ) → Type 0
AreSized [] [] = Unit
AreSized [] (s ∷ fs) = ⊥
AreSized (f ∷ chain) [] = ⊥
AreSized (f ∷ chain) (s ∷ fs) = (length s ≡ f.nf_state_size) × AreSized chain fs

take_all : (n : ℕ) (xs : List ℕ) → length xs ≡ n → take n xs ≡ xs
take_all zero [] h = refl
take_all zero (x ∷ xs) h = absurd (omega arith)
take_all (suc n) [] h = refl
take_all (suc n) (x ∷ xs) h = ap (◌∷◌ x) (take_all n xs (omega arith))

drop_all : (n : ℕ) (xs : List ℕ) → length xs ≡ n → drop n xs ≡ []
drop_all zero [] h = refl
drop_all zero (x ∷ xs) h = absurd (omega arith)
drop_all (suc n) [] h = refl
drop_all (suc n) (x ∷ xs) h = drop_all n xs (omega arith)

module _ {W : Type 0} where
  pub unpack-pack :
      (chain : List (NetworkFunction W)) (fs old : List (List ℕ)) (rest : List ℕ)
      → AreSized chain fs
      → AreSized chain old
      → unpack chain old (pack chain fs ++ rest) ≡ fs
  unfolding unpack pack
  unpack-pack [] [] [] rest h k = refl
  unpack-pack [] [] (s ∷ old) rest h k = absurd k
  unpack-pack [] (s ∷ fs) old rest h k = absurd h
  unpack-pack (f ∷ chain) [] old rest h k = absurd h
  unpack-pack (f ∷ chain) (s ∷ fs) [] rest h k = absurd k
  unpack-pack (f ∷ chain) (s ∷ fs) (o ∷ old) rest (e, h) (d, k) =
      let n = f.nf_state_size in
      rw
        (
          take_all n s e,
          append_assoc s (pack chain fs) rest,
          take_front n s (pack chain fs ++ rest) e,
          drop_front n s (pack chain fs ++ rest) e,
          drop_all n o d,
          append-nil s,
          unpack-pack chain fs old rest h k,
        )
        refl

  -- The flow states that a migration's source writes into a packet, whatever stood in the packet's
  -- memory, are those that the target reads from it, for two runtimes with the same chain whose
  -- states have their functions' sizes.
  pub unpack-sent :
      (chain : List (NetworkFunction W)) (fs old : List (List ℕ)) (n : ℕ) (fresh : List ℕ)
      → AreSized chain fs
      → AreSized chain old
      → unpack chain old (fill_up n fresh (pack chain fs)) ≡ fs
  unfolding fill_up
  unpack-sent chain fs old n fresh h k = unpack-pack chain fs old _ h k

-- A request for a new route says at the receiver what the sender put into it, if the key has sixteen
-- bytes and the runtime's id four.
new_route_round_trip :
    (padding : ℕ) (n : NewRoute)
    → n.flow_key < 256 ^ 16
    → n.new_output_rt_id < 256 ^ 4
    → read_new_route (new_route_bytes padding n) ≡ some n
unfolding read_new_route new_route_bytes field le_bytes le_value
new_route_round_trip padding n h k =
    let key = le_value-le_bytes 16 n.flow_key h in
    let id = le_value-le_bytes 4 n.new_output_rt_id k in
    λ i. some (record { flow_key = key i; new_output_rt_id = id i })

-- A request for a migration target says at the receiver where the flow's packets come from and go
-- to at the sender, and its key, if these have the widths of their fields.
create_target_round_trip :
    (padding : ℕ) (input output : FlowEtherHeader) (flow_key : ℕ)
    → input.dest_rtid < 256 ^ 4
    → input.d_addr < 256 ^ 6
    → output.dest_rtid < 256 ^ 4
    → output.d_addr < 256 ^ 6
    → flow_key < 256 ^ 16
    → read_create_target (create_target_bytes padding input output flow_key)
      ≡ some (record {
        input_rtid = input.dest_rtid;
        input_d_addr = input.d_addr;
        output_rtid = output.dest_rtid;
        output_d_addr = output.d_addr;
        flow_key = flow_key;
      })
unfolding read_create_target create_target_bytes header_bytes ether_bytes field le_bytes le_value
create_target_round_trip padding input output flow_key a b c d h =
    let e1 = le_value-le_bytes 4 input.dest_rtid a in
    let e2 = le_value-le_bytes 6 input.d_addr b in
    let e3 = le_value-le_bytes 4 output.dest_rtid c in
    let e4 = le_value-le_bytes 6 output.d_addr d in
    let e5 = le_value-le_bytes 16 flow_key h in
    λ i. some (record {
      input_rtid = e1 i;
      input_d_addr = e2 i;
      output_rtid = e3 i;
      output_d_addr = e4 i;
      flow_key = e5 i;
    })
