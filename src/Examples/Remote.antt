-- ===== src/Examples/Remote.antt =====
-- The calls between runtimes (runtime/rpc) at two concrete runtimes.
use nfvactor.Prelude.{
  ℕ, ◌<◌, ◌≡◌, refl, true, false, Option, none, some, List, [], ◌∷◌, ◌++◌, ◌==◌, get_elem?, arith,
}
use nfvactor.Prelude.Int.{pos}
use nfvactor.Conn
use nfvactor.Conn.{RuntimeConfig, ReliableP2p}
use nfvactor.SendQueue
use nfvactor.Command.{Control}
use nfvactor.Command.Connected.{HasConnection}
use nfvactor.Command.Handle.{add_input_runtime, add_output_runtime}
use nfvactor.Command.Run.{RpcOperation, LlringItem, run_task, run_operation}
use nfvactor.Remote.{Remote, World, find, has, key_of, local_addr, concat_with_colon}
use nfvactor.Remote.Codes.{same_text, same_text_refl, int_text, decimal}
use nfvactor.Remote.Config.{
  ConfigMsg, same_config, convert_uint32t_ip, convert_uint64t_mac, mac_byte, local2protobuf,
  protobuf2local,
}
use nfvactor.Remote.Handle
use nfvactor.Remote.Handle.{skips_output, takes_input, add_output_rts, add_input_rt}
use nfvactor.Remote.Calls.{Request, started, serve, handle}
use nfvactor.Remote.Objects.{CallData, create_call_data, handle_rpcs, kind_of, new_call_data}
use nfvactor.Remote.RoundTrip.{
  IsWritable, protobuf2local-local2protobuf, convert_uint64t_mac-overflows,
}
use nfvactor.Remote.Keys.{concat_with_colon_injective}
use nfvactor.Remote.Apart.{IsApart}
use nfvactor.Remote.Reachable.{serve-IsApart}
use nfvactor.Remote.Meet.{answer, own_address, meet}
use nfvactor.Remote.Thread.{Llring, Schedule, exchange}
use nfvactor.Remote.Thread.Answered.{after, idle, exchange-answered}
use nfvactor.Remote.Waiting.{waiting, handle_rpcs-waiting}
use nfvactor.Remote.Twice.{delete_migration_source-twice}
use nfvactor.Examples.Control.{env, idle_control, config}

abbrev quiet : World
quiet = record {
  env = λ i. env;
  other_tasks = λ i c. c;
  add_input_rt = λ i k m. none;
  migration_negotiate = λ i k m. none;
  replica_negotiate = λ i k m. none;
}

abbrev first_config : RuntimeConfig
first_config = record config { runtime_id = 1; rpc_port = 7 }

config-IsWritable : IsWritable config
config-IsWritable = record {
  input_mac =
      (omega arith, omega arith, omega arith, omega arith, omega arith, omega arith, omega arith);
  output_mac =
      (omega arith, omega arith, omega arith, omega arith, omega arith, omega arith, omega arith);
  control_mac =
      (omega arith, omega arith, omega arith, omega arith, omega arith, omega arith, omega arith);
  ip = omega arith;
}

first-IsWritable : IsWritable first_config
first-IsWritable = record {
  input_mac = config-IsWritable.input_mac;
  output_mac = config-IsWritable.output_mac;
  control_mac = config-IsWritable.control_mac;
  ip = omega arith;
}

protobuf2local-local2protobuf_example :
    (m : ConfigMsg) × (local2protobuf config ≡ some m)
    × (protobuf2local m ≡ some config)
    × (m.rpc_ip ≡ convert_uint32t_ip config.rpc_ip)
    × (m.rpc_port ≡ config.rpc_port)
protobuf2local-local2protobuf_example = protobuf2local-local2protobuf config config-IsWritable

convert_uint64t_mac-overflows_example : convert_uint64t_mac 65280 ≡ none
unfolding mac_byte
convert_uint64t_mac-overflows_example =
    convert_uint64t_mac-overflows 65280 1 (omega arith) (omega arith)

concat_with_colon_injective_example : (◌≡◌ {A = ℕ} 5 5) × (◌≡◌ {A = ℕ} 80 80)
concat_with_colon_injective_example =
    concat_with_colon_injective 5 5 80 80 (omega arith) (omega arith) (omega arith) (omega arith)
      refl

abbrev second_runtime : Remote
second_runtime = started config idle_control

abbrev first_runtime : Remote
first_runtime = started first_config idle_control

-- The first runtime's calls reach the second one.
abbrev calling : World
calling = record quiet { add_input_rt = λ i k m. answer quiet second_runtime m }

abbrev opened : Control
opened = elim (add_output_runtime env config idle_control) [ none ↦ idle_control | some k ↦ k ]

opens : add_output_runtime env config idle_control ≡ some opened
unfolding add_output_runtime SendQueue.peek_remaining_size
opens = refl

not_skipped : skips_output (local_addr second_runtime) first_runtime ≡ false
unfolding skips_output has find same_text concat_with_colon int_text decimal convert_uint32t_ip
    started
not_skipped = refl

input_taken :
    takes_input (local_addr first_runtime) first_runtime.local_runtime second_runtime ≡ true
unfolding takes_input has find same_config started
input_taken = refl

-- What both runtimes are when the first has called the second.
abbrev Met : Type 0
Met =
    (r1 r2 : Remote) × (req : ConfigMsg) × (reply : Option ConfigMsg) × (add_output_rts calling
        (own_address second_runtime ∷ []) first_runtime
      ≡ some r1)
    × (add_input_rt quiet req second_runtime ≡ some (r2, reply))
    × (local2protobuf first_config ≡ some req)
    × (find (local_addr second_runtime) r1.output_runtimes ≡ some config)
    × (find (local_addr first_runtime) r2.input_runtimes ≡ some first_config)
    × HasConnection 2 r1.worker
    × HasConnection 1 r2.worker

meet_example : Met
unfolding started
meet_example =
    meet calling quiet first_runtime second_runtime opened first-IsWritable config-IsWritable
      not_skipped input_taken (λ m. refl) opens

met : Met
unfolding started
met =
    meet calling quiet first_runtime second_runtime opened first-IsWritable config-IsWritable
      not_skipped input_taken (λ m. refl) opens

abbrev calls : List Request
calls = Request.add_output_rts (own_address second_runtime ∷ []) ∷ Request.liveness_check ∷ []

all_served : serve calling calls first_runtime ≡ some met.0
unfolding serve handle
all_served = rw met.4 refl

serve-IsApart_example : IsApart met.0
serve-IsApart_example = serve-IsApart calling calls first_config idle_control met.0 all_served

abbrev first_of : List LlringItem → Option (LlringItem × List LlringItem)
first_of [] = none
first_of (x ∷ q) = some (x, q)

abbrev queues : Llring LlringItem
queues = record {
  Ring = List LlringItem;
  empty = [];
  enqueue = λ x q. q ++ x ∷ [];
  dequeue = first_of;
  dequeue-empty = refl;
  dequeue-enqueue = λ x. refl;
}

-- The command task has a turn at the sixtieth attempt.
abbrev late : Schedule
late = record { other = λ t c. c; turns = λ t. t == 60; env = λ t. env }

abbrev item : LlringItem
item = record { op_code = RpcOperation.add_input_runtime; rt_config = config; migration_qouta = 0 }

not_before : (m : ℕ) → m < 60 → late.turns m ≡ false
not_before m h = ground arith

runs :
    run_task env item (after late 0 61 idle_control)
    ≡ some (add_input_runtime env config idle_control)
unfolding run_task after run_operation
runs = refl

exchange-answered_example :
    exchange queues 20 late item idle_control
    ≡ some (item, 10, idle queues (add_input_runtime env config idle_control))
exchange-answered_example =
    exchange-answered queues 60 20 late item idle_control
      (add_input_runtime env config idle_control) (omega arith) not_before refl runs

-- Two calls by the same object, the second one when its answer is out.
abbrev events : List (ℕ × Request)
events = (0, Request.liveness_check) ∷ (0, Request.liveness_check) ∷ []

abbrev objects : Option (List CallData × Remote) → List CallData
objects none = []
objects (some (l, r)) = l

abbrev left : List CallData
left = objects (handle_rpcs quiet events (create_call_data, second_runtime))

all_handled :
    handle_rpcs quiet events (create_call_data, second_runtime) ≡ some (left, second_runtime)
unfolding handle_rpcs create_call_data handle kind_of
all_handled = refl

handle_rpcs-waiting_example :
    (waiting 9 left ≡ 1) × ((i : ℕ) × (get_elem? left i ≡ some (new_call_data 9)))
unfolding kind_of
handle_rpcs-waiting_example =
    handle_rpcs-waiting quiet events left second_runtime second_runtime
      (Request.migrate_to (own_address first_runtime) 1) all_handled

abbrev connection : ReliableP2p
connection =
    record (Conn.init env.net 1 2 1 2 2 config (SendQueue.init env.net 1 2 env.ring env.times)
      env.blank 0) { ref_cnt = pos 1 }

abbrev target_runtime : Remote
target_runtime = record second_runtime {
  migration_sources = (key_of (own_address first_runtime), first_config) ∷ [];
  worker = record idle_control { reliables = λ i. some connection };
}

found :
    find (key_of (own_address first_runtime)) target_runtime.migration_sources ≡ some first_config
unfolding find
found = rw (same_text_refl (key_of (own_address first_runtime))) refl

delete_migration_source-twice_example :
    (r1 : Remote) × (Handle.delete_migration_source quiet (own_address first_runtime) target_runtime
      ≡ some r1)
    × (find (key_of (own_address first_runtime)) r1.migration_sources ≡ some first_config)
    × (r1.worker.reliables 1 ≡ none)
    × (Handle.delete_migration_source quiet (own_address first_runtime) r1 ≡ none)
delete_migration_source-twice_example =
    delete_migration_source-twice quiet target_runtime (own_address first_runtime) first_config
      connection found (λ n c. refl) refl refl
