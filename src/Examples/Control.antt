-- ===== src/Examples/Control.antt =====
-- Commands (runtime/module/handle_command.cc) at a concrete coordinator.
use nfvactor.Prelude.{◌≡◌, refl, true, some, none, []}
use nfvactor.Prelude.Int.{pos}
use nfvactor.Packet.{Dpdk}
use nfvactor.Message.{SingleMsg}
use nfvactor.Conn.{RuntimeConfig, ReliableP2p}
use nfvactor.Command.{Control, Env}
use nfvactor.Command.Handle.{migration_negotiate, delete_migration_source}
use nfvactor.Command.Targets.{negotiate_delete-new}

abbrev dpdk : Dpdk
dpdk = record { rte_ipv4_cksum = λ h. 0; rte_cpu_to_be_16 = λ n. n }

abbrev blank : SingleMsg
blank = record {
  send_runtime_id = 0;
  rmh = record { send_actor_id = 0; recv_actor_id = 0; msg_id = 0; msg_type = 0; msg_pkt_num = 0 };
  cstruct_pkt = none;
  fs_msg_batch = [];
  raw_pkt = none;
  garbage = [];
}

abbrev pub env : Env
env = record {
  net = dpdk;
  ring = λ i. [];
  times = λ i. 0;
  blank = blank;
  ping_bytes = [];
  alloc = true;
  now = 0;
}

abbrev pub config : RuntimeConfig
config = record {
  runtime_id = 2;
  input_port_mac = 10;
  output_port_mac = 11;
  control_port_mac = 12;
  rpc_ip = 0;
  rpc_port = 0;
}

abbrev pub idle_control : Control
idle_control = record {
  reliables = λ i. none;
  mac_to_reliables = λ i. none;
  shared = record {
    gp_collector = record { garbage_pkt_batch = []; freed = [] };
    reliable_send_list = [];
    free_items = 4;
  };
  input_runtime_macs = [];
  output_runtime_macs = [];
  replicas = [];
  migration_targets = [];
  replica_flow_lists = λ i. none;
  local_runtime = record config { runtime_id = 1 };
  next_msg_id = 2;
  migration = record {
    migration_qouta = 0;
    migration_target_rt_id = 0;
    outgoing_migrations = 0;
    passive_migration_iteration = 0;
    total_passive_migration = 0;
    successful_passive_migration = 0;
    failed_passive_migration = 0;
    null_passive_migration = 0;
    migration_source_loss_counter = 0;
    current_iteration_start_time = 0;
  };
  recovery = record {
    storage_rtid = 0;
    recovery_iteration = 0;
    successful_recovery = 0;
    unsuccessful_recovery = 0;
    current_recovery_iteration_start_time = 0;
  };
}

negotiate_delete-new_example :
    (c1 c2 : Control) × (migration_negotiate env config idle_control ≡ some c1)
    × ((r : ReliableP2p) × (c1.reliables 2 ≡ some r) × (r.ref_cnt ≡ pos 1))
    × (c1.mac_to_reliables 12 ≡ some (some 2))
    × (delete_migration_source config c1 ≡ some c2)
    × (c2.reliables 2 ≡ none)
    × (c2.mac_to_reliables 12 ≡ none)
negotiate_delete-new_example = negotiate_delete-new env config idle_control refl
