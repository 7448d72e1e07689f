-- ===== src/Module/Send.antt =====
-- runtime/module/send_reliable_msg.cc: the connections with packets to send are served in the order
-- of the coordinator's list, up to a batch of 32 packets.
pub mod Ends
use nfvactor.Prelude.{
  ℕ, zero, suc, ◌+◌, ◌-◌, Bool, true, false, Option, none, some, List, [], ◌∷◌, ◌++◌, ◌==◌, ◌>>=◌,
  if◌then◌else◌, update, ltb, leb, length, map,
}
use nfvactor.Packet.{Packet}
use nfvactor.Packet.Garbage.{max_burst}
use nfvactor.SendQueue.{get_window_batch}
use nfvactor.Conn.{ReliableP2p, Shared, SendItem}
use nfvactor.Command.{Control}

-- What `first_item` points to: the list's first item, or one that has been given back.
pub data First : Type 0 where
  at_head : First
  freed : SendItem → First

-- The item behind it; `none` is the null pointer.
unfoldable pub current : First → List SendItem → Option SendItem
current (freed i) l = some i
current at_head [] = none
current at_head (i ∷ l) = some i

-- The list without its first item, if it has one, or with another first item.
unfoldable pub rest_of : List SendItem → List SendItem
rest_of [] = []
rest_of (i ∷ l) = l

unfoldable pub with_head : SendItem → List SendItem → List SendItem
with_head i [] = []
with_head i (j ∷ l) = i ∷ l

-- `pop_head` and `deallocate`; the list may be empty.
unfoldable pub pop_item : Control → Control
unfolding rest_of
pop_item c =
    let s = c.shared in
    record c {
      shared = record s {
        reliable_send_list = rest_of s.reliable_send_list;
        free_items = s.free_items + 1;
      };
    }

unfoldable pub set_head : SendItem → Control → Control
unfolding with_head
set_head i c =
    let s = c.shared in
    record c { shared = record s { reliable_send_list = with_head i s.reliable_send_list } }

-- The batch is of packets with their output gates.
abbrev pub Out : Type 0
Out = List (Packet × ℕ)

-- What the loop works on.
pub record Sending : Type 0 where
  pub first : First
  pub batch : Out
  pub control : Control

-- A round of the loop; `copies` packets can be copied. The test that empties an item leaves
-- `first_item` where it is.
unfoldable pub send_round : ℕ → ℕ → SendItem → Sending → Sending
unfolding get_window_batch pop_item set_head
send_round now copies i s = elim (s.control.reliables i.reliable_rtid) [
  | none ↦ record s { first = at_head; control = pop_item s.control }
  | some r ↦
      let c = s.control in
      let residual = max_burst - length s.batch in
      let size = if leb residual i.pkt_num then residual else i.pkt_num in
      let (pkts, q) = get_window_batch size now copies r.send_queue in
      let queues = update c.reliables i.reliable_rtid (some (record r { send_queue = q })) in
      let c1 = record c { reliables = queues } in
      let batch' = s.batch ++ map (λ p. (p, i.output_gate)) pkts in
      let left = record i { pkt_num = i.pkt_num - residual } in
      if leb residual i.pkt_num
      then if left.pkt_num == 0
        then record { first = freed left; batch = batch'; control = pop_item c1 }
        else record { first = s.first; batch = batch'; control = set_head left c1 }
      else record { first = at_head; batch = batch'; control = pop_item c1 }
]

-- The loop, on fuel; `none` means that the fuel ran out.
unfoldable pub send_loop : ℕ → ℕ → (ℕ → ℕ) → Sending → Option Sending
unfolding send_round current
send_loop zero now copies s = none
send_loop (suc n) now copies s = elim (current s.first s.control.shared.reliable_send_list) [
  | none ↦ some s
  | some i ↦
      let rest = send_loop n now copies (send_round now (copies n) i s) in
      if length s.batch == max_burst then some s else rest
]

-- A round empties an item, takes packets off it, or leaves one that was given back.
unfoldable pub fuel : First → List SendItem → ℕ
fuel at_head [] = 1
fuel (freed i) [] = 2
fuel first (i ∷ l) = i.pkt_num + 1 + fuel first l

-- `send_reliable_msg::RunTask`: the batch that leaves the module, and the coordinator's state.
unfoldable pub run_send_reliable_msg : ℕ → (ℕ → ℕ) → Control → Option Sending
unfolding send_loop fuel
run_send_reliable_msg now copies c =
    send_loop (fuel at_head c.shared.reliable_send_list) now copies
      (record { first = at_head; batch = []; control = c })
