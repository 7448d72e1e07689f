-- ===== src/Nf/PktCounter.antt =====
-- runtime/nf/pktcounter/pkt_counter.h and pkt_counter_fs.h: a function that counts packets and
-- passes them all.
use nfvactor.Prelude.{ℕ, ◌+◌, ◌%◌, ◌^◌, ◌<◌, ◌≡◌, Bool, true, List, [], ◌∷◌, arith, length}
use nfvactor.Nf.{Frame}

pub record PktCounterFs : Type 0 where
  pub counter : ℕ

unfoldable pub nf_logic_impl : Frame → PktCounterFs → Bool × PktCounterFs
nf_logic_impl pkt fs = (true, record { counter = (fs.counter + 1) % 2 ^ 64 })

unfoldable pub nf_init_fs_impl : PktCounterFs → PktCounterFs
nf_init_fs_impl fs = record { counter = 0 }

abbrev pub process : List Frame → PktCounterFs → PktCounterFs
process [] fs = fs
process (p ∷ ps) fs = process ps (nf_logic_impl p fs).1

process-counter :
    (ps : List Frame) (fs : PktCounterFs)
    → fs.counter < 2 ^ 64
    → (process ps fs).counter ≡ (fs.counter + length ps) % 2 ^ 64
unfolding nf_logic_impl
process-counter [] fs h = omega arith
process-counter (p ∷ ps) fs h =
    omega (arith, process-counter ps (record { counter = (fs.counter + 1) % 2 ^ 64 }) (omega arith))

-- The counter of a flow is the number of its packets, modulo 2 ^ 64.
counts_packets :
    (ps : List Frame) (fs : PktCounterFs)
    → (process ps (nf_init_fs_impl fs)).counter ≡ length ps % 2 ^ 64
unfolding nf_init_fs_impl
counts_packets ps fs = omega (arith, process-counter ps (record { counter = 0 }) (omega arith))
