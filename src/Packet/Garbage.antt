-- ===== src/Packet/Garbage.antt =====
-- runtime/actor/base/garbage_pkt_collector.h: packets to free, gathered in a batch of 32.
use nfvactor.Prelude.{
  ℕ, ◌+◌, ◌≤◌, ◌≡◌, List, [], ◌∷◌, ◌++◌, arith, length, length-append, ltb, ◌==◌, if◌then◌else◌,
}
use mathlib.Core.List.{append_assoc}
use nfvactor.Packet.{Packet}

abbrev pub max_burst : ℕ
max_burst = 32

-- `freed` is what `bess::Packet::Free` has been given so far.
pub record Garbage : Type 0 where
  pub garbage_pkt_batch : List Packet
  pub freed : List Packet

flush : Garbage → Garbage
flush g = record { garbage_pkt_batch = []; freed = g.freed ++ g.garbage_pkt_batch }

-- `collect(bess::Packet*)`
unfoldable pub collect : Packet → Garbage → Garbage
unfolding flush
collect pkt g =
    let g' = if length g.garbage_pkt_batch == max_burst then flush g else g in
    record g' { garbage_pkt_batch = g'.garbage_pkt_batch ++ pkt ∷ [] }

-- `collect(bess::PacketBatch*)`
unfoldable pub collect_batch : List Packet → Garbage → Garbage
unfolding flush
collect_batch batch g =
    let g' = if ltb max_burst (length g.garbage_pkt_batch + length batch) then flush g else g in
    record g' { garbage_pkt_batch = g'.garbage_pkt_batch ++ batch }

abbrev pub collected : Garbage → List Packet
collected g = g.freed ++ g.garbage_pkt_batch

-- Collecting a packet loses none and frees none twice, and never overfills the batch.
pub collect_lem :
    (pkt : Packet) (g : Garbage)
    → length g.garbage_pkt_batch ≤ max_burst
    → (collected (collect pkt g) ≡ collected g ++ pkt ∷ [])
      × (length (collect pkt g).garbage_pkt_batch ≤ max_burst)
unfolding collect
collect_lem pkt g h = ground (
  arith,
  append_assoc g.freed g.garbage_pkt_batch (pkt ∷ []),
  length-append g.garbage_pkt_batch (pkt ∷ []),
)

-- So for a whole batch, of at most 32.
pub collect_batch_lem :
    (batch : List Packet) (g : Garbage)
    → length batch ≤ max_burst
    → length g.garbage_pkt_batch ≤ max_burst
    → (collected (collect_batch batch g) ≡ collected g ++ batch)
      × (length (collect_batch batch g).garbage_pkt_batch ≤ max_burst)
unfolding collect_batch
collect_batch_lem batch g b h =
    ground (
      arith,
      append_assoc g.freed g.garbage_pkt_batch batch,
      length-append g.garbage_pkt_batch batch,
    )
