-- ===== src/Remote.antt =====
-- runtime/rpc: the calls by which runtimes are told of one another (call_data_impl.h, server_impl.h),
-- and what they ask of the worker over a pair of rings.
-- `none` stands for memory that was never written, a write past an array's end, or a failure of the
-- worker's command.
pub mod Codes
pub mod Config
pub mod Names
pub mod RoundTrip
pub mod Keys
pub mod Handle
pub mod State
pub mod Calls
pub mod Tables
pub mod Apart
pub mod Serve
pub mod Kept
pub mod Reachable
pub mod Meet
pub mod Thread
pub mod Objects
pub mod Waiting
pub mod Twice
pub mod Client
use nfvactor.Prelude.{
  ℕ, ◌+◌, Bool, true, false, Option, none, some, List, [], ◌∷◌, ◌++◌, ◌>>=◌, if◌then◌else◌,
}
use nfvactor.Conn.{RuntimeConfig}
use nfvactor.Command.{Control, Env}
use nfvactor.Command.Run.{RpcOperation, run_task}
use nfvactor.Remote.Codes.{Text, same_text, int_text}
use nfvactor.Remote.Config.{ConfigMsg, convert_uint32t_ip}

-- `message Address`
pub record Address : Type 0 where
  pub rpc_ip : Text
  pub rpc_port : ℕ

-- `concat_with_colon(rpc_ip, std::to_string(rpc_port))`, the key of the tables.
unfoldable pub concat_with_colon : Text → ℕ → Text
unfolding int_text
concat_with_colon s port = s ++ b':' ∷ int_text port

abbrev pub key_of : Address → Text
key_of a = concat_with_colon a.rpc_ip a.rpc_port

-- `unordered_map<string, runtime_config>`; the order of a walk over it is not known.
abbrev pub Table : Type 0
Table = List (Text × RuntimeConfig)

unfoldable pub find : Text → Table → Option RuntimeConfig
unfolding same_text
find k [] = none
find k ((j, c) ∷ m) = if same_text j k then some c else find k m

unfoldable pub has : Text → Table → Bool
unfolding find
has k m = elim (find k m) [ none ↦ false | some c ↦ true ]

-- Nothing changes where the key is there.
unfoldable pub insert : Text → RuntimeConfig → Table → Table
unfolding has
insert k c m = if has k m then m else (k, c) ∷ m

unfoldable pub remove : Text → Table → Table
unfolding same_text
remove k [] = []
remove k ((j, c) ∷ m) = let rest = remove k m in if same_text j k then m else (j, c) ∷ rest

-- `message MigrationNegotiateReq` and `message ReplicaNegotiateReq`
pub record NegotiateReq : Type 0 where
  pub source : ConfigMsg
  pub input_runtime_addrs : List Address
  pub output_runtime_addrs : List Address

-- What lies outside the thread, by the number of the question: what a command finds, what the
-- worker has done before it takes the command up, and the answers of other runtimes to calls,
-- `none` for a call that fails, `some none` for an answer without a configuration.
pub record World : Type 0 where
  pub env : ℕ → Env
  pub other_tasks : ℕ → Control → Control
  pub add_input_rt : ℕ → Text → ConfigMsg → Option (Option ConfigMsg)
  pub migration_negotiate : ℕ → Text → NegotiateReq → Option (Option ConfigMsg)
  pub replica_negotiate : ℕ → Text → NegotiateReq → Option (Option ConfigMsg)

-- The tables of `ServerImpl`, the worker's state, and the number of questions so far.
pub record Remote : Type 0 where
  pub input_runtimes : Table
  pub output_runtimes : Table
  pub replicas : Table
  pub storages : Table
  pub migration_targets : Table
  pub migration_sources : Table
  pub local_runtime : RuntimeConfig
  pub turn : ℕ
  pub worker : Control

-- The item goes on one ring, the worker runs the command and puts the item on the other ring, from
-- which the thread takes it.
unfoldable pub call_worker : World → RpcOperation → RuntimeConfig → ℕ → Remote → Option Remote
unfolding run_task
call_worker w op config qouta r = do
  c ←
      run_task (w.env r.turn) (record { op_code = op; rt_config = config; migration_qouta = qouta })
        (w.other_tasks r.turn r.worker)
  some (record r { worker = c; turn = r.turn + 1 })

-- A call to another runtime has been made.
abbrev pub asked : Remote → Remote
asked r = record r { turn = r.turn + 1 }

abbrev pub local_addr : Remote → Text
local_addr r =
    concat_with_colon (convert_uint32t_ip r.local_runtime.rpc_ip) r.local_runtime.rpc_port

-- The configuration in an answer, if there is one.
abbrev pub answered : Option (Option ConfigMsg) → Option ConfigMsg
answered none = none
answered (some rep) = rep
