-- ===== src/Remote/Meet.antt =====
-- Two runtimes that get to know each other: AddOutputRts at one of them calls AddInputRt at the
-- other (runtime/rpc/call_data_impl.h).
use nfvactor.Prelude.{◌+◌, ◌≡◌, refl, ◌∙◌, true, false, Option, some, List, [], ◌∷◌, ◌>>=◌, arith}
use nfvactor.Conn.{RuntimeConfig}
use nfvactor.Command.{Control}
use nfvactor.Command.Handle.{add_input_runtime, add_output_runtime}
use nfvactor.Command.Connected.{
  HasConnection, add_input_runtime-HasConnection, add_output_runtime-HasConnection,
}
use nfvactor.Command.Run.{RpcOperation, run_operation}
use nfvactor.Remote.{
  Address, Remote, World, find, has, insert, asked, key_of, local_addr, concat_with_colon,
}
use nfvactor.Remote.Codes.{Text, same_text_refl}
use nfvactor.Remote.Config.{ConfigMsg, protobuf2local, local2protobuf, convert_uint32t_ip}
use nfvactor.Remote.Handle
use nfvactor.Remote.Handle.{skips_output, takes_input, connect_output, command_and_reply, each}
use nfvactor.Remote.RoundTrip.{IsWritable, protobuf2local-local2protobuf}
use nfvactor.Remote.Tables.{find-insert, call_worker-succeeds}

-- The address by which other runtimes call this one.
abbrev pub own_address : Remote → Address
own_address r = record {
  rpc_ip = convert_uint32t_ip r.local_runtime.rpc_ip;
  rpc_port = r.local_runtime.rpc_port;
}

-- What a call of AddInputRt to this runtime answers.
pub answer : World → Remote → ConfigMsg → Option (Option ConfigMsg)
answer w r req = Handle.add_input_rt w req r >>= (λ p. some p.1)

find-insert_new :
    (k : Text) (c : RuntimeConfig) (m : List (Text × RuntimeConfig))
    → has k m ≡ false
    → find k (insert k c m) ≡ some c
find-insert_new k c m h = rw (find-insert k k c m h, same_text_refl k) refl

command_and_reply-succeeds :
    (w : World) (op : RpcOperation) (c : RuntimeConfig) (r : Remote) (k : Control) (m : ConfigMsg)
    → run_operation op (w.env r.turn) c 0 (w.other_tasks r.turn r.worker) ≡ some k
    → local2protobuf r.local_runtime ≡ some m
    → command_and_reply w op c r ≡ some (record r { worker = k; turn = r.turn + 1 }, some m)
unfolding command_and_reply
command_and_reply-succeeds w op c r k m h e = rw (call_worker-succeeds w op c 0 r k h, e) refl

takes_input_new :
    (k : Text) (c : RuntimeConfig) (r : Remote)
    → takes_input k c r ≡ true
    → has k r.input_runtimes ≡ false
unfolding takes_input
takes_input_new k c r h = ground arith

skips_output_new :
    (k : Text) (r : Remote) → skips_output k r ≡ false → has k r.output_runtimes ≡ false
unfolding skips_output
skips_output_new k r h = ground arith

-- The called side: it notes the caller and answers with its own configuration.
taken :
    (w : World) (r : Remote) (c : RuntimeConfig) (req me : ConfigMsg)
    → protobuf2local req ≡ some c
    → req.rpc_ip ≡ convert_uint32t_ip c.rpc_ip
    → req.rpc_port ≡ c.rpc_port
    → local2protobuf r.local_runtime ≡ some me
    → takes_input (concat_with_colon (convert_uint32t_ip c.rpc_ip) c.rpc_port) c r ≡ true
    → (r' : Remote) × (Handle.add_input_rt w req r ≡ some (r', some me))
      × (find (concat_with_colon (convert_uint32t_ip c.rpc_ip) c.rpc_port) r'.input_runtimes
          ≡ some c)
      × HasConnection c.runtime_id r'.worker
unfolding Handle.add_input_rt run_operation
taken w r c req me e ip port own t =
    let k = concat_with_colon (convert_uint32t_ip c.rpc_ip) c.rpc_port in
    let env = w.env r.turn in
    let seen = w.other_tasks r.turn r.worker in
    let new = record r { input_runtimes = insert k c r.input_runtimes } in
    (
      record new { worker = add_input_runtime env c seen; turn = r.turn + 1 },
      rw (Handle.add_input_rt, e, ip, port, t)
          (command_and_reply-succeeds w RpcOperation.add_input_runtime c new
            (add_input_runtime env c seen) me refl own),
      find-insert_new k c r.input_runtimes (takes_input_new k c r t),
      add_input_runtime-HasConnection env c seen,
    )

-- The calling side, with the other one's configuration in the answer.
noted :
    (w : World) (r : Remote) (d : RuntimeConfig) (me rep : ConfigMsg) (addr : Address) (k : Control)
    → protobuf2local rep ≡ some d
    → local2protobuf r.local_runtime ≡ some me
    → skips_output (key_of addr) r ≡ false
    → w.add_input_rt r.turn (key_of addr) me ≡ some (some rep)
    → add_output_runtime (w.env (r.turn + 1)) d (w.other_tasks (r.turn + 1) r.worker) ≡ some k
    → (r' : Remote) × (Handle.add_output_rts w (addr ∷ []) r ≡ some r')
      × (find (key_of addr) r'.output_runtimes ≡ some d)
      × HasConnection d.runtime_id r'.worker
unfolding Handle.add_output_rts Handle.add_output_rt each connect_output run_operation
noted w r d me rep addr k e own s reply ok =
    let new = record (asked r) { output_runtimes = insert (key_of addr) d r.output_runtimes } in
    (
      record new { worker = k; turn = r.turn + 1 + 1 },
      rw (own, s, reply, e, call_worker-succeeds w RpcOperation.add_output_runtime d 0 new k ok)
          refl,
      find-insert_new (key_of addr) d r.output_runtimes (skips_output_new (key_of addr) r s),
      add_output_runtime-HasConnection (w.env (r.turn + 1)) d (w.other_tasks (r.turn + 1) r.worker)
          k ok,
    )

-- A runtime is told to use another one as output, both have configurations that can be written, the
-- tests of both sides pass, the other one answers the call, and the worker's command for the output
-- does not fail. Then the call succeeds: the first has the second, under its address and with its
-- own configuration, among the outputs, the second has the first among the inputs, and both workers
-- have connections to one another.
pub meet :
    (w1 w2 : World) (r1 r2 : Remote) (k : Control)
    → IsWritable r1.local_runtime
    → IsWritable r2.local_runtime
    → skips_output (local_addr r2) r1 ≡ false
    → takes_input (local_addr r1) r1.local_runtime r2 ≡ true
    → ((req : ConfigMsg) → w1.add_input_rt r1.turn (local_addr r2) req ≡ answer w2 r2 req)
    → add_output_runtime
        (w1.env (r1.turn + 1))
        r2.local_runtime
        (w1.other_tasks (r1.turn + 1) r1.worker)
      ≡ some k
    → (r1' r2' : Remote) × (req : ConfigMsg) × (reply : Option ConfigMsg) × (Handle.add_output_rts
          w1
          (own_address r2 ∷ [])
          r1
        ≡ some r1')
      × (Handle.add_input_rt w2 req r2 ≡ some (r2', reply))
      × (local2protobuf r1.local_runtime ≡ some req)
      × (find (local_addr r2) r1'.output_runtimes ≡ some r2.local_runtime)
      × (find (local_addr r1) r2'.input_runtimes ≡ some r1.local_runtime)
      × HasConnection r2.local_runtime.runtime_id r1'.worker
      × HasConnection r1.local_runtime.runtime_id r2'.worker
unfolding answer
meet w1 w2 r1 r2 k a b s t heard ok =
    let (m1, out1, in1, ip1, port1) = protobuf2local-local2protobuf r1.local_runtime a in
    let (m2, out2, in2, ip2, port2) = protobuf2local-local2protobuf r2.local_runtime b in
    let (r2', e2, found2, c2) = taken w2 r2 r1.local_runtime m1 m2 in1 ip1 port1 out2 t in
    let told : w1.add_input_rt r1.turn (local_addr r2) m1 ≡ some (some m2) =
      heard m1 ∙ rw e2 refl in
    let (r1', e1, found1, c1) =
      noted w1 r1 r2.local_runtime m1 m2 (own_address r2) k in2 out1 s told ok in
    (r1', r2', m1, some m2, e1, e2, out1, found1, found2, c1, c2)
