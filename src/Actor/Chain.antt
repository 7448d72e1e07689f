-- ===== src/Actor/Chain.antt =====
-- The loops over the service chain in runtime/actor/flow_actor.cc. The number of flow states is
-- `service_chain_length_`, and the loops go on for as long as there is one.
use nfvactor.Prelude.{
  ℕ, ◌+◌, Bool, true, false, none, some, List, [], ◌∷◌, ◌++◌, if◌then◌else◌, take, drop, length,
}
use nfvactor.Nf.{FlowLeaveStatus}
use nfvactor.Actor.{NetworkFunction}

module _ {W : Type 0} where
  -- The pools take back the states that were handed out before one had none left.
  unfoldable pub give_back : List (NetworkFunction W) → List (List ℕ) → W → W
  give_back [] fs m = m
  give_back (f ∷ chain) [] m = m
  give_back (f ∷ chain) (s ∷ fs) m = give_back chain fs (f.deallocate s m)

  abbrev init_state : Bool → NetworkFunction W → List ℕ × W → List ℕ × W
  init_state init f (s, m) = if init then f.nf_init_fs s m else (s, m)

  -- The loop of the three init handlers; `done` and `fs` are what it has been through. `init`
  -- tells if the handler calls `nf_init_fs`.
  unfoldable pub allocate_states :
      Bool
      → List (NetworkFunction W)
      → List (NetworkFunction W)
      → List (List ℕ)
      → W
      → List (List ℕ) × W
  unfolding give_back
  allocate_states init [] done fs m = (fs, m)
  allocate_states init (f ∷ chain) done fs m = elim (f.allocate m) [
    | none ↦ ([], give_back done fs m)
    | some p ↦
        let (s, m') = init_state init f p in
        allocate_states init chain (done ++ f ∷ []) (fs ++ s ∷ []) m'
  ]

  -- The packet goes through the functions, up to the first one that refuses it.
  unfoldable pub run_nfs :
      List (NetworkFunction W) → List (List ℕ) → List ℕ → W → Bool × List ℕ × List (List ℕ) × W
  run_nfs [] fs pkt m = (true, pkt, fs, m)
  run_nfs (f ∷ chain) [] pkt m = (true, pkt, [], m)
  run_nfs (f ∷ chain) (s ∷ fs) pkt m =
      let (result, pkt', s', m') = f.nf_logic pkt s m in
      let (result2, pkt2, fs2, m2) = run_nfs chain fs pkt' m' in
      if result then (result2, pkt2, s' ∷ fs2, m2) else (false, pkt', s' ∷ fs, m')

  -- `nf_flow_leave` of each function; `release` tells if `deallocate` follows.
  unfoldable pub leave_all :
      FlowLeaveStatus → Bool → List (NetworkFunction W) → List (List ℕ) → W → W
  leave_all status release [] fs m = m
  leave_all status release (f ∷ chain) [] m = m
  leave_all status release (f ∷ chain) (s ∷ fs) m =
      let (s', m') = f.nf_flow_leave status s m in
      leave_all status release chain fs (if release then f.deallocate s' m' else m')

  -- `nf_flow_arrive` of each function.
  unfoldable pub arrive_all : List (NetworkFunction W) → List (List ℕ) → W → List (List ℕ) × W
  arrive_all [] fs m = (fs, m)
  arrive_all (f ∷ chain) [] m = ([], m)
  arrive_all (f ∷ chain) (s ∷ fs) m =
      let (s', m') = f.nf_flow_arrive s m in
      let (fs', m2) = arrive_all chain fs m' in (s' ∷ fs', m2)

  -- `total_fs_size_`, which the coordinator's constructor adds up.
  unfoldable pub total_fs_size : List (NetworkFunction W) → ℕ
  total_fs_size [] = 0
  total_fs_size (f ∷ chain) = f.nf_state_size + total_fs_size chain

  -- The sizes of the flow states that there are.
  unfoldable pub states_size : List (NetworkFunction W) → List (List ℕ) → ℕ
  states_size [] fs = 0
  states_size (f ∷ chain) [] = 0
  states_size (f ∷ chain) (s ∷ fs) = f.nf_state_size + states_size chain fs

  -- The loop that copies the flow states into a packet.
  unfoldable pub pack : List (NetworkFunction W) → List (List ℕ) → List ℕ
  pack [] fs = []
  pack (f ∷ chain) [] = []
  pack (f ∷ chain) (s ∷ fs) = take f.nf_state_size s ++ pack chain fs

  -- The loop that copies the flow states out of a packet.
  unfoldable pub unpack : List (NetworkFunction W) → List (List ℕ) → List ℕ → List (List ℕ)
  unpack [] fs bytes = fs
  unpack (f ∷ chain) [] bytes = []
  unpack (f ∷ chain) (s ∷ fs) bytes =
      (take f.nf_state_size bytes ++ drop f.nf_state_size s)
      ∷ unpack chain fs (drop f.nf_state_size bytes)

-- The bytes of a packet of `n` bytes that stand behind what is written into it.
unfoldable pub fill_up : ℕ → List ℕ → List ℕ → List ℕ
fill_up n fresh front = front ++ drop (length front) (take n fresh)
