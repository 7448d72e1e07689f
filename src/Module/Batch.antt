-- ===== src/Module/Batch.antt =====
-- runtime/actor/base/giant_batch.h over runtime/bessport/pktbatch.h: up to fifty batches of 32
-- packets each, with the output gate of each packet. A packet is anything here. The arrays are
-- functions of the position; a write behind an array's end is a failure.
pub mod Holds
use nfvactor.Prelude.{
  ℕ, ◌+◌, ◌-◌, ◌*◌, Bool, ◌&&◌, Option, none, some, List, [], ◌∷◌, ◌==◌, ◌>>=◌, if◌then◌else◌,
  update, ltb,
}
use nfvactor.Packet.Garbage.{max_burst}

-- `class PacketBatch`
pub record PacketBatch (P : Type 0) : Type 0 where
  pub cnt : ℕ
  pub pkts : ℕ → Option P

abbrev pub buffer_batch_size : ℕ
buffer_batch_size = 50

pub record GiantBatch (P : Type 0) : Type 0 where
  pub batches : ℕ → PacketBatch P
  pub gates : ℕ → ℕ
  pub batch_pos : ℕ
  pub gate_pos : ℕ

module _ {P : Type 0} where
  unfoldable pub batch_clear : PacketBatch P → PacketBatch P
  batch_clear b = record b { cnt = 0 }

  unfoldable pub batch_add : P → PacketBatch P → Option (PacketBatch P)
  batch_add pkt b =
      if ltb b.cnt max_burst
      then some (record { cnt = b.cnt + 1; pkts = update b.pkts b.cnt (some pkt) })
      else none

  unfoldable pub full : PacketBatch P → Bool
  full b = b.cnt == max_burst

  unfoldable pub clear : GiantBatch P → GiantBatch P
  unfolding batch_clear
  clear g = record g {
    batches = update g.batches 0 (batch_clear (g.batches 0));
    batch_pos = 0;
    gate_pos = 0;
  }

  -- The next batch is begun when this one is full, unless it is the last.
  unfoldable pub next_batch : GiantBatch P → GiantBatch P
  unfolding full batch_clear
  next_batch g =
      if full (g.batches g.batch_pos) && ltb g.batch_pos (buffer_batch_size - 1)
      then record g {
        batch_pos = g.batch_pos + 1;
        batches = update g.batches (g.batch_pos + 1) (batch_clear (g.batches (g.batch_pos + 1)));
      }
      else g

  unfoldable pub add_pkt_set_gate : P → ℕ → GiantBatch P → Option (GiantBatch P)
  unfolding batch_add next_batch
  add_pkt_set_gate pkt gate g = do
    b ← batch_add pkt (g.batches g.batch_pos)
    some (
        next_batch (record g {
          gates = update g.gates g.gate_pos gate;
          gate_pos = g.gate_pos + 1;
          batches = update g.batches g.batch_pos b;
        }))

  -- The calls one after the other.
  unfoldable pub add_all : List (P × ℕ) → GiantBatch P → Option (GiantBatch P)
  unfolding add_pkt_set_gate
  add_all [] g = some g
  add_all ((pkt, gate) ∷ l) g = add_pkt_set_gate pkt gate g >>= add_all l

  -- `get_batch(pos)->pkts()[i]` and `get_gate(pos)[i]`
  unfoldable pub get_pkt : ℕ → ℕ → GiantBatch P → Option P
  get_pkt pos i g = if ltb i (g.batches pos).cnt then (g.batches pos).pkts i else none

  unfoldable pub get_gate : ℕ → ℕ → GiantBatch P → ℕ
  get_gate pos i g = g.gates (pos * max_burst + i)
