-- ===== src/Lib.antt =====
-- NFVactor: an NFV runtime in which each flow is an actor that can migrate between servers.
--
-- Parts, and the files that model them (paths from the repository's root):
--   Cdlist: the circular lists of runtime/utils/cdlist.h, in a memory of two link functions.
--   RingBuffer: runtime/bessport/utils/simple_ring_buffer.h; RingBuffer.Queue is its contract.
--   RoundRubinList: runtime/utils/round_rubin_list.h, over Cdlist; RoundRubinList.Queue is its
--     contract, whose turn Actor takes.
--   Pool: the object pools over that ring, runtime/utils/generic_ring_allocator.h and
--     runtime/actor/flow_actor_allocator.h.
--   Packet: packets as sequences of typed pieces, the headers of
--     runtime/reliable/base/reliable_message_misc.h, and runtime/actor/base/garbage_pkt_collector.h.
--   Message: the encoders of runtime/reliable/reliable_p2p.h and the decoder `format`.
--   SendQueue: the go-back-N window of runtime/reliable/base/reliable_send_queue.h.
--   Conn, P2p: the state and the operations of runtime/reliable/reliable_p2p.h and reliable_p2p.cc.
--     P2p.Assembly says how the packets accepted stand in the receiver's batch, P2p.Check how a
--     check goes on or gives the connection up.
--   Protocol: the two ends of a connection over a network that loses, repeats and reorders packets;
--     its steps are sending, receiving, acknowledging and the whole of `check` at either end, with
--     `shut_down` and `reset`.
--   Command: runtime/module/handle_command.cc, which adds and removes connections, runtimes,
--     replicas and storages; it makes connections by Conn.init and pings by P2p.reliable_send.
--     Connected and LastUser say which connections a command leaves.
--   Remote: the calls of runtime/rpc/call_data_impl.h by which runtimes are told of one another, and
--     the tables of runtime/rpc/server_impl.h: Codes, Config and Names are runtime/rpc/ring_msg.h,
--     Handle the handlers, State the statistics, Calls the service as a whole, Thread the exchange
--     with the worker (the other end is RunTask of handle_command.cc), Objects the call objects of
--     runtime/rpc/call_data_base.h and server_impl.cc, Client runtime/rpc/livesness_check_client.h.
--     A call runs a command of Command.Run at the worker; Meet puts two servers together.
--   FastHashMap: runtime/utils/fast_hash_map.h, over Cdlist; Holds is its contract.
--   FixedArray: runtime/utils/fixed_array.h.
--   Timer: runtime/actor/actor_timer.h and actor_timer_list.h; Order says what may happen to a list
--     of timers, Due what is found on it.
--   Actor: runtime/actor/flow_actor.h and flow_actor.cc, a child module for each group of handlers:
--     Chain (the loops over the service chain), Header (the structures of messages as bytes), Start
--     (init_with_pkt and the like), Forward (pkt_msg, rep_fs_pkt_msg), Idle (check_idle), Migrate
--     (the source of a migration), Arrive (its target), Recover; States has the round trips. Its
--     `Worker` is the coordinator's memory; it uses Command, P2p, Pool and Cdlist. A network
--     function is an argument, as runtime/nf/base/network_function_base.h declares it.
--   Coordinator: the handlers of runtime/actor/coordinator.cc; Match is
--     runtime/reliable/process_reliable_msg.h; Tasks is runtime/module/coordinator_mp.cc and
--     timers.cc; Sound says what every handler and task keeps, the timers' links left aside.
--   Module: ProcessBatch of runtime/module/forward_ec_scheduler.cc, reverse_ec_scheduler.cc and
--     recv_reliable_msgack.cc; Key the key of a flow, Batch runtime/actor/base/giant_batch.h (Holds:
--     what it keeps), Send runtime/module/send_reliable_msg.cc, Ack send_reliable_ack.cc, FlowHash
--     runtime/actor/base/flow_hash.h, Ports runtime/module/port_inc.cc and port_out.cc.
--   Nf: the network functions of runtime/nf and the service chains of their register.
--   Examples: theorems at concrete inputs.
--
-- Conventions: numbers are natural numbers with the source's wrap-around written out; a pointer is
-- an index or an option; `none` as a result stands for a failed assertion or a null pointer that is
-- followed. DPDK's checksum and byte order, the memory of new objects, the clock and whether a
-- packet can be allocated are arguments, and so are llring's rings (whose answers may carry
-- RING_QUOT_EXCEED, bit 31), the CRC instruction, and what
-- other runtimes answer to a call.
--
-- Bounds and fuel: `format` runs on the length of its batch as fuel, and each round takes a packet
-- off it; the loop of send_reliable_msg.cc runs on the packets and items of its list, of which a
-- round takes at least one away; the tasks' loops make 32 rounds, as in the source; `cdlist_count`
-- takes fuel above the length of the list. Sequence numbers are taken not to wrap: the protocol's
-- sender pushes fewer than 2 ^ 32 - 2 packets. Message ids wrap at 2 ^ 32, and an id of 0 would
-- stand for a timer that is not running, so theorems ask for ids to be left. The endless poll of the
-- worker's ring runs on fuel, which is enough if the worker's command task has a turn within it.
--
-- Not modelled: the modules that only pass packets on, the library of the service (gRPC), the copy
-- of BESS (runtime/bessport, but for the ring and the batch), the set up of device ports. A hash
-- table is a function or a list of pairs, and its insertions succeed.
pub mod Prelude
pub mod Cdlist
pub mod RingBuffer
pub mod RoundRubinList
pub mod Pool
pub mod Packet
pub mod SendQueue
pub mod Message
pub mod Conn
pub mod P2p
pub mod Protocol
pub mod Nf
pub mod Command
pub mod Remote
pub mod FastHashMap
pub mod FixedArray
pub mod Timer
pub mod Actor
pub mod Coordinator
pub mod Module
pub mod Examples
