-- ===== src/SendQueue/Reset.antt =====
-- `reset`: a queue that is given up.
use nfvactor.Prelude.{◌≡◌, ◌≤◌, ◌++◌, refl, [], List, arith, length}
use nfvactor.Packet.{Packet}
use nfvactor.Packet.Garbage.{Garbage, collected, max_burst}
use nfvactor.SendQueue.{SendQueue, reset}
use nfvactor.SendQueue.Inv.{IsHolding}
use nfvactor.SendQueue.Pop.{queued, collect_from-collected}

pub reset_empty :
    (q : SendQueue) (hist : List Packet) (g : Garbage)
    → IsHolding q hist
    → IsHolding (reset q g).0 []
unfolding reset
reset_empty q hist g v = record {
  valid = omega (arith, v.valid.magic);
  counted = refl;
  slots = λ i body h e. absurd (omega arith);
}

-- On a queue in its invariant, `reset` gives every packet that the queue still holds to the collector, in order, each once, and
-- leaves a queue that starts again at number 1 with no history. The garbage batch is not overfull
-- before.
pub reset-IsHolding :
    (q : SendQueue) (hist : List Packet) (g : Garbage)
    → IsHolding q hist
    → length g.garbage_pkt_batch ≤ max_burst
    → let (q', g') = reset q g in
      IsHolding q' [] × (collected g' ≡ collected g ++ queued q 0 q.cur_size)
unfolding reset
reset-IsHolding q hist g v small =
    (reset_empty q hist g v, collect_from-collected q q.cur_size 0 g small)
