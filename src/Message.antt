-- ===== src/Message.antt =====
-- runtime/reliable/base/reliable_message_misc.h, `reliable_single_msg`, and the encoders of
-- runtime/reliable/reliable_p2p.h: how a message is cut into packets and put together again.
-- `none` stands for what the C++ leaves undefined: a read past the batch or of bytes that no
-- encoder writes, a packet count of zero (the loop would not advance), a failed assertion.
pub mod RoundTrip
use nfvactor.Prelude.{
  ℕ, zero, suc, ◌+◌, ◌-◌, Bool, true, false, Option, none, some, List, [], ◌∷◌, ◌++◌, ◌==◌, ltb,
  if◌then◌else◌, length, take, drop,
}
use nfvactor.Packet.{
  Packet, Piece, rel, msg, tag, num, raw, MessageHeader, cstruct_tag, binary_flow_state_tag,
  packet_tag,
}
use nfvactor.Packet.Garbage.{Garbage, collect_batch}

-- `none` in a packet field is the pointer before it is set.
pub record SingleMsg : Type 0 where
  pub send_runtime_id : ℕ
  pub rmh : MessageHeader
  pub cstruct_pkt : Option Packet
  pub fs_msg_batch : List Packet
  pub raw_pkt : Option Packet
  pub garbage : List Packet

unfoldable pub init : SingleMsg → SingleMsg
init m = record m { fs_msg_batch = []; garbage = [] }

-- One round of the loop in `format`: it goes on behind the packets of a sub-message, or stops.
pub data Round : Type 0 where
  more : List Packet → SingleMsg → Round
  bad : SingleMsg → Round
  undefined : Round

-- `num` packets of flow state, the first one already without its tag and count.
flow_state_round : ℕ → List Packet → SingleMsg → Round
flow_state_round n pkts m =
    if n == 0
    then undefined
    else if ltb (length pkts) n
    then undefined
    else more (drop n pkts) (record m {
      fs_msg_batch = m.fs_msg_batch ++ take n pkts;
      garbage = m.garbage ++ take n pkts;
    })

-- A data packet alone, or with a supplement whose data is appended to it.
packet_round : ℕ → Packet → List Packet → SingleMsg → Round
packet_round n pkt [] m = if n == 1 then more [] (record m { raw_pkt = some pkt }) else undefined
packet_round n pkt (next ∷ pkts) m =
    if n == 1
    then more (next ∷ pkts) (record m { raw_pkt = some pkt })
    else if n == 2
    then more pkts (record m { raw_pkt = some (pkt ++ next); garbage = m.garbage ++ next ∷ [] })
    else if n == 0
    then undefined
    else if ltb (length pkts + 2) n
    then undefined
    else more (drop (n - 1) (next ∷ pkts)) (record m { raw_pkt = some pkt })

unfoldable pub tagged_round : ℕ → Packet → List Packet → SingleMsg → Round
unfolding flow_state_round packet_round
tagged_round t (num n ∷ pkt) pkts m =
    if t == cstruct_tag
    then more pkts
        (record m { cstruct_pkt = some (num n ∷ pkt); garbage = m.garbage ++ (num n ∷ pkt) ∷ [] })
    else if t == binary_flow_state_tag
    then flow_state_round n (pkt ∷ pkts) m
    else if t == packet_tag
    then packet_round n pkt pkts m
    else bad (record m { garbage = [] })
tagged_round t pkt pkts m =
    if t == cstruct_tag
    then more pkts (record m { cstruct_pkt = some pkt; garbage = m.garbage ++ pkt ∷ [] })
    else if t == binary_flow_state_tag
    then undefined
    else if t == packet_tag
    then undefined
    else bad (record m { garbage = [] })

unfoldable pub format_round : Packet → List Packet → SingleMsg → Round
unfolding tagged_round
format_round (tag t ∷ pkt) pkts m = tagged_round t pkt pkts m
format_round pkt pkts m = undefined

-- The loop; a round takes at least one packet, so the number of packets is fuel enough.
unfoldable pub format_from : ℕ → List Packet → SingleMsg → Option (Bool × SingleMsg)
unfolding format_round
format_from fuel [] m = some (true, m)
format_from zero (pkt ∷ pkts) m = none
format_from (suc fuel) (pkt ∷ pkts) m = elim (format_round pkt pkts m) [
  | more rest m' ↦ format_from fuel rest m'
  | bad m' ↦ some (false, m')
  | undefined ↦ none
]

unfoldable pub format : List Packet → SingleMsg → Option (Bool × SingleMsg)
unfolding format_from
format batch m = format_from (length batch) batch m

unfoldable pub clean : SingleMsg → Garbage → SingleMsg × Garbage
clean m g = (record m { fs_msg_batch = []; garbage = [] }, collect_batch m.garbage g)

-- `pkt_sub_msg_cutting_thresh`
abbrev pub cutting_thresh : ℕ
cutting_thresh = 1522 - 65

-- `create_cstruct_sub_msg`, where a packet could be allocated: the tag in front of the bytes.
unfoldable pub create_cstruct_sub_msg : List ℕ → Packet
create_cstruct_sub_msg bytes = tag cstruct_tag ∷ raw bytes ∷ []

-- `encode_binary_fs_sub_msg`; `none`: the batch is empty and the assertion fails.
unfoldable pub encode_binary_fs_sub_msg : List Packet → Option (List Packet)
encode_binary_fs_sub_msg [] = none
encode_binary_fs_sub_msg (p ∷ ps) =
    some ((tag binary_flow_state_tag ∷ num (length (p ∷ ps)) ∷ p) ∷ ps)

-- `create_packet_sub_msg` on the bytes of a packet; `spare` tells if a supplement can be
-- allocated. The empty batch is a failure.
unfoldable pub create_packet_sub_msg : Bool → List ℕ → List Packet
create_packet_sub_msg spare bytes =
    if ltb cutting_thresh (length bytes)
    then if spare
      then (tag packet_tag ∷ num 2 ∷ raw bytes ∷ []) ∷ (raw (drop cutting_thresh bytes) ∷ []) ∷ []
      else []
    else (tag packet_tag ∷ num 1 ∷ raw bytes ∷ []) ∷ []
