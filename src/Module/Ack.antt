-- ===== src/Module/Ack.antt =====
-- runtime/module/send_reliable_ack.cc: every connection checks for its peer's acknowledgements, and
-- acknowledges in turn what it has accepted.
use nfvactor.Prelude.{
  ℕ, Bool, Option, none, some, List, [], ◌∷◌, ◌++◌, ◌>>=◌, if◌then◌else◌, update, ltb, length,
}
use nfvactor.Packet.{Packet}
use nfvactor.Packet.Garbage.{max_burst}
use nfvactor.P2p.{check, get_ack_pkt}
use nfvactor.Command.{Control}

-- The acknowledgement joins the batch, which has 32 places; `spare` tells if a packet could be
-- allocated for it.
add_ack : Bool → ℕ → Option Packet → List (Packet × ℕ) → Option (List (Packet × ℕ))
add_ack spare gate none batch = some batch
add_ack spare gate (some pkt) batch =
    if spare
    then if ltb (length batch) max_burst then some (batch ++ (pkt, gate) ∷ []) else none
    else none

unfoldable pub ack_round :
    ℕ → Bool → ℕ → List (Packet × ℕ) → Control → Option (List (Packet × ℕ) × Control)
unfolding check get_ack_pkt add_ack
ack_round now spare id batch c = do
  r ← c.reliables id
  (r1, s) ← check now r c.shared
  let (ack, r2) = get_ack_pkt r1
  batch' ← add_ack spare r.output_gate ack batch
  some (batch', record c { reliables = update c.reliables id (some r2); shared = s })

-- `send_reliable_ack::RunTask`, on the connections in the order in which `reliables_.next()` gives
-- them.
unfoldable pub run_send_reliable_ack :
    ℕ → Bool → List ℕ → List (Packet × ℕ) → Control → Option (List (Packet × ℕ) × Control)
unfolding ack_round
run_send_reliable_ack now spare [] batch c = some (batch, c)
run_send_reliable_ack now spare (id ∷ order) batch c =
    ack_round now spare id batch c
    >>= (λ (batch', c'). run_send_reliable_ack now spare order batch' c')
