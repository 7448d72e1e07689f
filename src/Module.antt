-- ===== src/Module.antt =====
-- runtime/module: the modules that packets go through, and the batches that they are gathered in. A
-- packet comes in as a data packet's bytes, or with the pieces that the runtimes write.
pub mod Key
pub mod KeyLaws
pub mod FlowHash
pub mod Ports
pub mod Batch
pub mod Send
pub mod Ack
pub mod Rounds
pub mod Sound
use nfvactor.Prelude.{
  ℕ, zero, suc, ◌+◌, ◌/◌, ◌%◌, Bool, true, false, not, ◌||◌, ◌&&◌, Option, none, some, List, [],
  ◌∷◌, ◌++◌, ◌==◌, ◌>>=◌, if◌then◌else◌, update, ltb, length,
}
use nfvactor.Prelude.Bytes.{field}
use nfvactor.Packet.{Packet, rel, raw}
use nfvactor.Packet.Garbage.{collect}
use nfvactor.Message
use nfvactor.Message.{SingleMsg}
use nfvactor.Conn.{ReliableP2p, Shared}
use nfvactor.P2p.{recv}
use nfvactor.Pool.{allocate_actor}
use nfvactor.Command.{Control}
use nfvactor.Actor.{Setting, Worker, set_control, add_active}
use nfvactor.Actor.Start.{rotate, init_with_pkt}
use nfvactor.Actor.Forward.{pkt_msg}
use nfvactor.Coordinator.{taken, take_actor, register}
use nfvactor.Coordinator.Match.{match_msg}
use nfvactor.Module.Key.{key_of_pkt}

-- What a module does with a packet: data, control from an address, or neither. `unreadable` is a
-- packet too short for the bytes that the code looks at.
pub data Kind : Type 0 where
  data_pkt : List ℕ → Kind
  control_pkt : ℕ → Packet → Kind
  garbage_pkt : Kind
  unreadable : Kind

-- By the IP version and the protocol.
unfoldable pub by_protocol : ℕ → ℕ → Kind → Kind → Kind
by_protocol version proto as_data as_control =
    if not (version / 16 == 4)
    then garbage_pkt
    else if proto == 0xFF
    then as_control
    else if (proto == 6) || (proto == 0x11)
    then as_data
    else garbage_pkt

unfoldable pub classify : Packet → Kind
unfolding by_protocol field
classify (rel h ∷ rest) =
    by_protocol (h.version_ihl % 256) (h.next_proto_id % 256) unreadable
      (control_pkt h.s_addr (rel h ∷ rest))
classify (raw bytes ∷ []) =
    if ltb (length bytes) 42
    then unreadable
    else by_protocol (field bytes 14 1) (field bytes 23 1) (data_pkt bytes)
        (control_pkt (field bytes 6 6) (raw bytes ∷ []))
classify pkt = unreadable

module _ {W : Type 0} where
  abbrev pub collect_packet : Packet → Worker W → Worker W
  collect_packet pkt w =
      let s = w.control.shared in
      let s' = record s { gp_collector = collect pkt s.gp_collector } in
      set_control (record w.control { shared = s' }) w

  -- The actor of a new flow: it joins the active flows, with the next replica.
  unfoldable pub start_flow : Setting W → ℕ → List ℕ → Option ℕ → Worker W → Option (ℕ × Worker W)
  unfolding rotate add_active init_with_pkt
  start_flow st key pkt none w = some (w.deadend_flow_actor, w)
  start_flow st key pkt (some a) w =
      let (replica, l) = rotate w.control.replicas in
      init_with_pkt st key pkt replica a
        (add_active a (set_control (record w.control { replicas = l }) w))
      >>= (λ w2. some (a, w2))

  -- The flow's actor, which is new if the table has none.
  unfoldable pub flow_actor_of :
      Setting W → ℕ → List ℕ → Option ℕ → Worker W → Option (ℕ × Worker W)
  unfolding start_flow allocate_actor
  flow_actor_of st key pkt (some a) w = some (a, w)
  flow_actor_of st key pkt none w =
      start_flow st key pkt (taken w) (take_actor w) >>= (λ (a, w'). some (a, register key a w'))

  -- A round of the loop over data packets.
  unfoldable pub data_round : Setting W → List ℕ → Worker W → Option (Worker W)
  unfolding key_of_pkt flow_actor_of pkt_msg
  data_round st pkt w =
      flow_actor_of st (key_of_pkt pkt) pkt (w.htable (key_of_pkt pkt)) w
      >>= (λ (a, w'). pkt_msg st a pkt w')

  -- `msg_ptr->clean`, of the message that a connection has put together.
  unfoldable pub cleaned : ℕ → Worker W → Option (Worker W)
  unfolding Message.clean
  cleaned id w = do
    r ← w.control.reliables id
    let c = w.control
    let (m, g) = Message.clean r.cur_msg c.shared.gp_collector
    some (
        set_control
          (record c {
            reliables = update c.reliables id (some (record r { cur_msg = m }));
            shared = record c.shared { gp_collector = g };
          })
          w)

  unfoldable pub handled : Setting W → ℕ → SingleMsg → Worker W → Option (Worker W)
  unfolding match_msg cleaned
  handled st id m w = match_msg st m w >>= cleaned id

  -- The connection and the shared lists that `recv` leaves, and the message, if there is one.
  unfoldable pub received :
      Setting W → ℕ → Worker W → Bool × ReliableP2p × Shared → Option (Worker W)
  unfolding handled
  received st id w (flag, r, s) =
      let c = w.control in
      let w' =
        set_control (record c { reliables = update c.reliables id (some r); shared = s }) w in
      if flag then handled st id r.cur_msg w' else some w'

  -- A control packet from the runtime whose connection is `p`, if that is not null.
  unfoldable pub take_control : Setting W → Packet → Option ℕ → Worker W → Option (Worker W)
  unfolding received recv
  take_control st pkt none w = none
  take_control st pkt (some id) w = elim (w.control.reliables id) [
    | none ↦ none
    | some r ↦ recv st.env.now pkt r w.control.shared >>= received st id w
  ]

  -- `mac_to_reliables_` says which runtime a control packet is from.
  unfoldable pub control_round : Setting W → ℕ → Packet → Worker W → Option (Worker W)
  unfolding take_control
  control_round st mac pkt w = elim (w.control.mac_to_reliables mac) [
    | none ↦ some (collect_packet pkt w)
    | some p ↦ take_control st pkt p w
  ]

  -- The first loop of `ProcessBatch`: the batches of data and of control packets.
  unfoldable pub split_batch :
      List Packet → Worker W → Option (List (List ℕ) × List (ℕ × Packet) × Worker W)
  unfolding classify
  split_batch [] w = some ([], [], w)
  split_batch (pkt ∷ l) w =
      let rest = split_batch l w in
      let rest' = split_batch l (collect_packet pkt w) in
      elim (classify pkt) [
        | data_pkt bytes ↦ rest >>= (λ (dp, cp, w'). some (bytes ∷ dp, cp, w'))
        | control_pkt mac p ↦ rest >>= (λ (dp, cp, w'). some (dp, (mac, p) ∷ cp, w'))
        | garbage_pkt ↦ rest'
        | unreadable ↦ none
      ]

  -- The two other loops; the setting of each round is its own.
  unfoldable pub data_rounds : (ℕ → Setting W) → List (List ℕ) → Worker W → Option (Worker W)
  unfolding data_round
  data_rounds st [] w = some w
  data_rounds st (pkt ∷ l) w = data_round (st (length l)) pkt w >>= data_rounds st l

  unfoldable pub control_rounds : (ℕ → Setting W) → List (ℕ × Packet) → Worker W → Option (Worker W)
  unfolding control_round
  control_rounds st [] w = some w
  control_rounds st ((mac, pkt) ∷ l) w =
      control_round (st (length l)) mac pkt w >>= control_rounds st l

  -- `ProcessBatch` of `forward_ec_scheduler`. The batch that the next module runs on is
  -- `ec_scheduler_batch`.
  unfoldable pub schedule :
      (ℕ → Setting W) → (ℕ → Setting W) → List Packet → Worker W → Option (Worker W)
  unfolding split_batch data_rounds control_rounds
  schedule st st' batch w = do
    (dp, cp, w1) ← split_batch batch (record w { ec_scheduler_batch = [] })
    w2 ← data_rounds st dp w1
    control_rounds st' cp w2

  -- `ProcessBatch` of `reverse_ec_scheduler`, the same code.
  unfoldable pub reverse_schedule :
      (ℕ → Setting W) → (ℕ → Setting W) → List Packet → Worker W → Option (Worker W)
  unfolding schedule
  reverse_schedule st st' batch w = schedule st st' batch w

  -- A round of `recv_reliable_msgack`, which takes control packets only.
  unfoldable pub receive_round : Setting W → Packet → Worker W → Option (Worker W)
  unfolding classify control_round
  receive_round st pkt w = elim (classify pkt) [
    | data_pkt bytes ↦ some (collect_packet pkt w)
    | control_pkt mac p ↦ control_round st mac p w
    | garbage_pkt ↦ some (collect_packet pkt w)
    | unreadable ↦ none
  ]

  unfoldable pub receive_rounds : (ℕ → Setting W) → List Packet → Worker W → Option (Worker W)
  unfolding receive_round
  receive_rounds st [] w = some w
  receive_rounds st (pkt ∷ l) w = receive_round (st (length l)) pkt w >>= receive_rounds st l

  -- `recv_reliable_msgack::ProcessBatch`; the packets that leave it are those of `gb`.
  unfoldable pub receive : (ℕ → Setting W) → List Packet → Worker W → Option (Worker W)
  unfolding receive_rounds
  receive st batch w = receive_rounds st batch (record w { gb = [] })
