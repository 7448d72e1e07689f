-- ===== src/Coordinator.antt =====
-- runtime/actor/coordinator.cc: the messages that the coordinator actor handles. `remove_flow` is
-- with the flow actors that send it. The hash tables of flows (runtime/bessport/utils/htable.h) are
-- functions.
pub mod Match
pub mod Tasks
pub mod Counters
pub mod Sound
use nfvactor.Prelude.{
  ℕ, zero, suc, ◌+◌, ◌%◌, ◌^◌, Bool, true, false, Option, none, some, List, [], ◌∷◌, ◌==◌, ◌>>=◌,
  if◌then◌else◌, update,
}
use nfvactor.Prelude.Bytes.{le_bytes}
use nfvactor.Pool.{FlowActorAllocator, allocate_actor, coordinator_actor_id}
use nfvactor.Actor.{Setting, Worker, modify, add_active, allocate_msg_id, send_cstruct, header}
use nfvactor.Actor.Header.{CreateTarget, NewRoute, TwoWords, two_words_bytes}
use nfvactor.Actor.Start.{init_with_cstruct}

module _ {W : Type 0} where
  -- `ping_t`: the answer's flag is only logged. `pong_t` only logs.
  unfoldable pub ping : Setting W → ℕ → Worker W → Option (Worker W)
  unfolding send_cstruct le_bytes
  ping st sender_rtid w = do
    (flag, w') ← send_cstruct st sender_rtid (header 77364 1 1 2) (le_bytes 4 1024) w
    some w'

  -- `allocator_.allocate()`: the actor, and the memory that is left.
  abbrev pub taken : Worker W → Option ℕ
  taken w = (allocate_actor w.allocator).0

  abbrev pub take_actor : Worker W → Worker W
  take_actor w = record w { allocator = (allocate_actor w.allocator).1 }

  -- Both tables learn of an actor.
  abbrev pub register : ℕ → ℕ → Worker W → Worker W
  register key a w = record w {
    htable = update w.htable key (some a);
    actorid_htable = update w.actorid_htable (w.allocator.actor_id a) (some a);
  }

  -- A response, with its own message id.
  unfoldable pub respond : Setting W → ℕ → ℕ → ℕ → TwoWords → Worker W → Option (Worker W)
  unfolding allocate_msg_id send_cstruct two_words_bytes
  respond st sender_rtid sender_actor_id msg_type t w = do
    let (id, w1) = allocate_msg_id w
    let h = header id coordinator_actor_id sender_actor_id msg_type
    (flag, w2) ← send_cstruct st sender_rtid h (two_words_bytes t) w1
    some w2

  -- The new actor is told to the tables and to the source; there may be none left.
  unfoldable pub created :
      Setting W → ℕ → ℕ → ℕ → CreateTarget → Option ℕ → Worker W → Option (Worker W)
  unfolding add_active init_with_cstruct respond
  created st sender_rtid sender_actor_id msg_id c none w = some w
  created st sender_rtid sender_actor_id msg_id c (some a) w =
      init_with_cstruct st c a (add_active a w) >>= (λ w2.
        respond st sender_rtid sender_actor_id 8
          (record { request_msg_id = msg_id; answer = w2.allocator.actor_id a })
          (register c.flow_key a w2))

  unfoldable pub create_migration_target_actor :
      Setting W → ℕ → ℕ → ℕ → CreateTarget → Worker W → Option (Worker W)
  unfolding allocate_actor created
  create_migration_target_actor st sender_rtid sender_actor_id msg_id c w =
      created st sender_rtid sender_actor_id msg_id c (taken w) (take_actor w)

  -- `flow_actor::update_output_header`
  abbrev update_output_header : ℕ → ℕ → ℕ → Worker W → Worker W
  update_output_header rtid mac a w =
      modify a
        (λ x. record x {
          output_header = record x.output_header {
            dest_rtid = rtid % 2 ^ 32;
            d_addr = mac % 2 ^ 48;
          };
        })
        w

  -- The flow, if it is here, goes to another runtime from now on; the answer is 0 if it is.
  unfoldable pub reroute : NewRoute → Worker W → Option (ℕ × Worker W)
  reroute n w = elim (w.htable n.flow_key) [
    | none ↦ some (1, w)
    | some a ↦ do
      r ← w.control.reliables n.new_output_rt_id
      some (0, update_output_header n.new_output_rt_id r.remote_rt_config.input_port_mac a w)
  ]

  -- The handlers of `change_vswitch_route_t` and `replica_recover_t` differ in the response's type.
  unfoldable pub answer_route : ℕ → Setting W → ℕ → ℕ → ℕ → NewRoute → Worker W → Option (Worker W)
  unfolding reroute respond
  answer_route msg_type st sender_rtid sender_actor_id msg_id n w = do
    (answer, w') ← reroute n w
    let t : TwoWords = record { request_msg_id = msg_id; answer = answer }
    respond st sender_rtid sender_actor_id msg_type t w'

  unfoldable pub change_vswitch_route :
      Setting W → ℕ → ℕ → ℕ → NewRoute → Worker W → Option (Worker W)
  unfolding answer_route
  change_vswitch_route = answer_route 10

  unfoldable pub replica_recover : Setting W → ℕ → ℕ → ℕ → NewRoute → Worker W → Option (Worker W)
  unfolding answer_route
  replica_recover = answer_route 15
