-- ===== src/Message/RoundTrip.antt =====
-- What was encoded is what `format` finds.
use mathlib.Core.List.{append-nil}
use nfvactor.Prelude.{
  ℕ, zero, suc, ◌≤◌, ◌<◌, ◌≡◌, refl, ap, ◌∙◌, length-append, Bool, true, some, List, [], ◌∷◌, ◌++◌,
  arith, length, take, drop, lt→ltb,
}
use nfvactor.Packet.{Packet, tag, num, raw, binary_flow_state_tag, packet_tag}
use nfvactor.Message.{
  SingleMsg, more, format_round, format_from, format, create_cstruct_sub_msg,
  encode_binary_fs_sub_msg, create_packet_sub_msg, cutting_thresh,
}

finished : (fuel : ℕ) (m : SingleMsg) → format_from fuel [] m ≡ some (true, m)
unfolding format_from
finished zero m = refl
finished (suc fuel) m = refl

-- A structure arrives as its bytes.
pub format-create_cstruct_sub_msg :
    (bytes : List ℕ) (m : SingleMsg)
    → format (create_cstruct_sub_msg bytes ∷ []) m
      ≡ some (
        true,
        record m {
          cstruct_pkt = some (raw bytes ∷ []);
          garbage = m.garbage ++ (raw bytes ∷ []) ∷ [];
        },
      )
unfolding format create_cstruct_sub_msg
format-create_cstruct_sub_msg bytes m = refl

drop_prefix {ℓ} : {A : Type ℓ} (xs ys : List A) → drop (length xs) (xs ++ ys) ≡ ys
drop_prefix [] ys = refl
drop_prefix (x ∷ xs) ys = drop_prefix xs ys

take_prefix {ℓ} : {A : Type ℓ} (xs ys : List A) → take (length xs) (xs ++ ys) ≡ xs
take_prefix [] ys = refl
take_prefix (x ∷ xs) ys = ap (◌∷◌ x) (take_prefix xs ys)

-- The message with the packets of a flow state.
abbrev pub with_flow_state : List Packet → SingleMsg → SingleMsg
with_flow_state pkts m = record m {
  fs_msg_batch = m.fs_msg_batch ++ pkts;
  garbage = m.garbage ++ pkts;
}

-- The batch that `encode_binary_fs_sub_msg` makes of the packets `p ∷ ps`.
abbrev encoded : Packet → List Packet → List Packet
encoded p ps = (tag binary_flow_state_tag ∷ num (length (p ∷ ps)) ∷ p) ∷ ps

flow_state_round-encoded :
    (p : Packet) (ps rest : List Packet) (m : SingleMsg)
    → format_round (tag binary_flow_state_tag ∷ num (length (p ∷ ps)) ∷ p) (ps ++ rest) m
      ≡ more rest (with_flow_state (p ∷ ps) m)
unfolding format_round
flow_state_round-encoded p ps rest m =
    ground (arith, length-append ps rest, drop_prefix (p ∷ ps) rest, take_prefix (p ∷ ps) rest)

format-encoded :
    (p : Packet) (ps rest : List Packet) (m : SingleMsg)
    → format (encoded p ps ++ rest) m
      ≡ format_from (length (ps ++ rest)) rest (with_flow_state (p ∷ ps) m)
unfolding format
format-encoded p ps rest m = rw (flow_state_round-encoded p ps rest m, format_from)

some-eq {ℓ} : {A : Type ℓ} {a b : A} → some a ≡ some b → a ≡ b
some-eq h = cc

-- Flow state arrives as the packets that were given, in order.
pub format-encode_binary_fs_sub_msg :
    (pkts batch : List Packet) (m : SingleMsg)
    → encode_binary_fs_sub_msg pkts ≡ some batch
    → format batch m ≡ some (true, with_flow_state pkts m)
unfolding encode_binary_fs_sub_msg
format-encode_binary_fs_sub_msg [] batch m h = absurd (cc)
format-encode_binary_fs_sub_msg (p ∷ ps) batch m h =
    let same : encoded p ps ++ [] ≡ batch = append-nil (encoded p ps) ∙ some-eq h in
    rw (← same)
      (format-encoded p ps [] m ∙ finished (length (ps ++ [])) (with_flow_state (p ∷ ps) m))

-- The data bytes of a packet.
abbrev pub data_bytes : Packet → List ℕ
data_bytes [] = []
data_bytes (raw bytes ∷ ps) = bytes ++ data_bytes ps
data_bytes (p ∷ ps) = data_bytes ps

-- The sub-message of a data packet, alone and with its supplement.
abbrev alone : List ℕ → List Packet
alone bytes = (tag packet_tag ∷ num 1 ∷ raw bytes ∷ []) ∷ []

abbrev supplemented : List ℕ → List Packet
supplemented bytes =
    (tag packet_tag ∷ num 2 ∷ raw bytes ∷ []) ∷ (raw (drop cutting_thresh bytes) ∷ []) ∷ []

alone_from :
    (fuel : ℕ) (bytes : List ℕ) (m : SingleMsg)
    → 0 < fuel
    → format_from fuel (alone bytes) m ≡ some (true, record m { raw_pkt = some (raw bytes ∷ []) })
unfolding format_from
alone_from zero bytes m h = absurd (omega arith)
alone_from (suc fuel) bytes m h = finished fuel _

supplemented_from :
    (fuel : ℕ) (bytes : List ℕ) (m : SingleMsg)
    → 0 < fuel
    → format_from fuel (supplemented bytes) m
      ≡ some (
        true,
        record m {
          raw_pkt = some (raw bytes ∷ raw (drop cutting_thresh bytes) ∷ []);
          garbage = m.garbage ++ (raw (drop cutting_thresh bytes) ∷ []) ∷ [];
        },
      )
unfolding format_from
supplemented_from zero bytes m h = absurd (omega arith)
supplemented_from (suc fuel) bytes m h = finished fuel _

packet_short :
    (spare : Bool) (bytes : List ℕ)
    → length bytes ≤ cutting_thresh
    → create_packet_sub_msg spare bytes ≡ alone bytes
unfolding create_packet_sub_msg
packet_short spare bytes h = ground arith

packet_long :
    (bytes : List ℕ)
    → cutting_thresh < length bytes
    → create_packet_sub_msg true bytes ≡ supplemented bytes
unfolding create_packet_sub_msg
packet_long bytes h = rw (lt→ltb cutting_thresh (length bytes) h)

-- Flow state with a data packet: both arrive, the packet with exactly its bytes, if it is not
-- longer than the cutting threshold; a longer one arrives with the bytes behind the threshold
-- twice, since the encoder copies them into the supplement and leaves them in the packet.
pub format-flow_state_packet :
    (pkts batch : List Packet) (bytes : List ℕ) (spare : Bool) (m : SingleMsg)
    → encode_binary_fs_sub_msg pkts ≡ some batch
    → (length bytes ≤ cutting_thresh
        → format (batch ++ create_packet_sub_msg spare bytes) m
          ≡ some (true, record (with_flow_state pkts m) { raw_pkt = some (raw bytes ∷ []) }))
      × (cutting_thresh < length bytes
          → (m' : SingleMsg) × (pkt : Packet) × (format
                (batch ++ create_packet_sub_msg true bytes)
                m
              ≡ some (true, m'))
            × (m'.fs_msg_batch ≡ m.fs_msg_batch ++ pkts)
            × (m'.raw_pkt ≡ some pkt)
            × (data_bytes pkt ≡ bytes ++ drop cutting_thresh bytes))
unfolding encode_binary_fs_sub_msg
format-flow_state_packet [] batch bytes spare m h = absurd (cc)
format-flow_state_packet (p ∷ ps) batch bytes spare m h =
    let same : encoded p ps ≡ batch = some-eq h in
    let m' = with_flow_state (p ∷ ps) m in
    (
      λ short.
          rw (← same, packet_short spare bytes short)
            (format-encoded p ps (alone bytes) m
              ∙ alone_from _ bytes m' (omega (arith, length-append ps (alone bytes)))),
      λ long. (
        record m' {
          raw_pkt = some (raw bytes ∷ raw (drop cutting_thresh bytes) ∷ []);
          garbage = m'.garbage ++ (raw (drop cutting_thresh bytes) ∷ []) ∷ [];
        },
        raw bytes ∷ raw (drop cutting_thresh bytes) ∷ [],
        rw (← same, packet_long bytes long)
            (format-encoded p ps (supplemented bytes) m
              ∙ supplemented_from _ bytes m'
                  (omega (arith, length-append ps (supplemented bytes)))),
        refl,
        refl,
        simp append-nil,
      ),
    )
