-- ===== src/Command.antt =====
-- runtime/module/handle_command.cc: the worker's side of the control plane, one step for each
-- command that the RPC thread puts on the ring, and the coordinator's state that it changes
-- (runtime/actor/coordinator_public_field.h, runtime/actor/coordinator.h).
-- `none` stands for a null pointer that is followed or an assertion that fails.
pub mod Targets
pub mod Lists
pub mod Connected
pub mod LastUser
pub mod Handle
pub mod Run
use nfvactor.Prelude.{
  ℕ, ◌+◌, ◌%◌, ◌^◌, Bool, true, Option, none, some, List, [], ◌∷◌, ◌++◌, ◌==◌, ◌>>=◌, if◌then◌else◌,
  update,
}
use nfvactor.Packet.{Packet, MessageHeader, Dpdk}
use nfvactor.SendQueue
use nfvactor.Pool.{coordinator_actor_id}
use nfvactor.Message.{SingleMsg}
use nfvactor.Conn
use nfvactor.Conn.{ReliableP2p, RuntimeConfig, Shared, add64}
use nfvactor.P2p.{reliable_send, inc_ref_cnt, dec_ref_cnt, is_ref_cnt_zero}

-- A `generic_list_item` of the lists of input and output runtimes.
pub record MacItem : Type 0 where
  pub dst_mac_addr : ℕ
  pub dst_rtid : ℕ

-- What a command finds outside the coordinator: DPDK, the memory of a new connection, the bytes of
-- a ping, whether a packet can be allocated, and the time.
pub record Env : Type 0 where
  pub net : Dpdk
  pub ring : ℕ → Packet
  pub times : ℕ → ℕ
  pub blank : SingleMsg
  pub ping_bytes : List ℕ
  pub alloc : Bool
  pub now : ℕ

-- `migration_target_source_holder` and the part of `migration_stats` that commands set.
pub record Migration : Type 0 where
  pub migration_qouta : ℕ
  pub migration_target_rt_id : ℕ
  pub outgoing_migrations : ℕ
  pub passive_migration_iteration : ℕ
  pub total_passive_migration : ℕ
  pub successful_passive_migration : ℕ
  pub failed_passive_migration : ℕ
  pub null_passive_migration : ℕ
  pub migration_source_loss_counter : ℕ
  pub current_iteration_start_time : ℕ

-- `replication_stats`, the part that commands set.
pub record Recovery : Type 0 where
  pub storage_rtid : ℕ
  pub recovery_iteration : ℕ
  pub successful_recovery : ℕ
  pub unsuccessful_recovery : ℕ
  pub current_recovery_iteration_start_time : ℕ

-- `reliables` is `fast_hash_map`; a pointer to a connection is its runtime's id, `none` if null.
-- `replica_flow_lists` holds the flow actors of each list.
pub record Control : Type 0 where
  pub reliables : ℕ → Option ReliableP2p
  pub mac_to_reliables : ℕ → Option (Option ℕ)
  pub shared : Shared
  pub input_runtime_macs : List MacItem
  pub output_runtime_macs : List MacItem
  pub replicas : List ℕ
  pub migration_targets : List ℕ
  pub replica_flow_lists : ℕ → Option (List ℕ)
  pub local_runtime : RuntimeConfig
  pub next_msg_id : ℕ
  pub migration : Migration
  pub recovery : Recovery

abbrev pub set_migration : Migration → Control → Control
set_migration m c = record c { migration = m }

unfoldable pub new_reliable : Env → ℕ → ℕ → ℕ → RuntimeConfig → Control → ReliableP2p
unfolding SendQueue.init Conn.init
new_reliable env local_mac dest_mac gate config c =
    Conn.init env.net local_mac dest_mac c.local_runtime.runtime_id config.runtime_id gate config
      (SendQueue.init env.net local_mac dest_mac env.ring env.times) env.blank env.now

-- `reliables_.emplace(…)`: null if the key is there, and nothing changes.
unfoldable pub emplace : Env → ℕ → ℕ → ℕ → RuntimeConfig → Control → Option ℕ × Control
unfolding new_reliable
emplace env local_mac dest_mac gate config c = elim (c.reliables config.runtime_id) [
  | some r ↦ (none, c)
  | none ↦ (
    some config.runtime_id,
    record c {
      reliables =
          update c.reliables config.runtime_id
            (some (new_reliable env local_mac dest_mac gate config c));
    },
  )
]

unfoldable pub erase : ℕ → Control → Control
erase id c = record c { reliables = update c.reliables id none }

-- `mac_to_reliables_.Set` and `.Del`
abbrev pub set_mac : ℕ → Option ℕ → Control → Control
set_mac mac r c = record c { mac_to_reliables = update c.mac_to_reliables mac (some r) }

abbrev pub del_mac : ℕ → Control → Control
del_mac mac c = record c { mac_to_reliables = update c.mac_to_reliables mac none }

unfoldable pub allocate_msg_id : Control → ℕ × Control
allocate_msg_id c = (c.next_msg_id, record c { next_msg_id = (c.next_msg_id + 1) % 2 ^ 32 })

-- `coordinator_messages::ping`
abbrev pub ping : ℕ
ping = 1

sent : ℕ → Control → Bool × ReliableP2p × Shared → Option Control
sent id c (flag, r, s) =
    if flag
    then some (record c { reliables = update c.reliables id (some r); shared = s })
    else none

-- The ping that opens a connection; the assertion is that it is sent.
unfoldable pub send_ping : Env → ℕ → Control → Option Control
unfolding reliable_send sent allocate_msg_id
send_ping env id c = do
  let (msg_id, c') = allocate_msg_id c
  r ← c'.reliables id
  let h : MessageHeader = record {
    send_actor_id = coordinator_actor_id;
    recv_actor_id = coordinator_actor_id;
    msg_id = msg_id;
    msg_type = ping;
    msg_pkt_num = 1;
  }
  out ← reliable_send env.net h env.ping_bytes env.alloc r c'.shared
  sent id c' out

-- `find(id)->inc_ref_cnt()` and `find(id)->dec_ref_cnt()`
unfoldable pub inc_ref : ℕ → Control → Option Control
unfolding inc_ref_cnt
inc_ref id c = do
  r ← c.reliables id
  some (record c { reliables = update c.reliables id (some (inc_ref_cnt r)) })

-- The connection goes away with its last user.
unfoldable pub dec_ref : ℕ → Control → Option (Bool × Control)
unfolding dec_ref_cnt is_ref_cnt_zero erase
dec_ref id c = do
  r ← c.reliables id
  let r' = dec_ref_cnt r
  let c' = record c { reliables = update c.reliables id (some r') }
  some (
    is_ref_cnt_zero r',
    if is_ref_cnt_zero r' then erase id (del_mac r'.remote_rt_config.control_port_mac c') else c',
  )
