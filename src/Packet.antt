-- ===== src/Packet.antt =====
-- runtime/reliable/base/reliable_message_misc.h (headers and constants),
-- runtime/actor/base/garbage_pkt_collector.h. A packet is the sequence of the typed pieces that the
-- code writes in front of its data and reads back by `head_data<T*>`: `prepend` puts a piece in
-- front, `adj` takes it off.
pub mod Garbage
use nfvactor.Prelude.{ℕ, zero, suc, ◌+◌, List, [], ◌∷◌, length}

-- `struct reliable_header`: the Ethernet, IPv4 and reliability fields that the code sets.
pub record ReliableHeader : Type 0 where
  pub d_addr : ℕ
  pub s_addr : ℕ
  pub ether_type : ℕ
  pub version_ihl : ℕ
  pub total_length : ℕ
  pub fragment_offset : ℕ
  pub time_to_live : ℕ
  pub next_proto_id : ℕ
  pub hdr_checksum : ℕ
  pub src_addr : ℕ
  pub dst_addr : ℕ
  pub magic_num : ℕ
  pub seq_num : ℕ

-- `struct reliable_message_header`
pub record MessageHeader : Type 0 where
  pub send_actor_id : ℕ
  pub recv_actor_id : ℕ
  pub msg_id : ℕ
  pub msg_type : ℕ
  pub msg_pkt_num : ℕ

abbrev pub msg_magic_num : ℕ
msg_magic_num = 0xA1

abbrev pub ack_magic_num : ℕ
ack_magic_num = 0xB2

-- `enum class sub_message_type_enum`
abbrev pub cstruct_tag : ℕ
cstruct_tag = 0xA1F2DE2399BC7764

abbrev pub binary_flow_state_tag : ℕ
binary_flow_state_tag = 0xB203F2F310AC2741

abbrev pub packet_tag : ℕ
packet_tag = 0xDFFD033011227A64

-- `rel` and `msg` are the two headers, `tag` the eight bytes of a sub-message tag, `num` the one
-- byte of a packet count, `raw` any other bytes.
pub data Piece : Type 0 where
  rel : ReliableHeader → Piece
  msg : MessageHeader → Piece
  tag : ℕ → Piece
  num : ℕ → Piece
  raw : List ℕ → Piece

abbrev pub Packet : Type 0
Packet = List Piece

-- `sizeof` of the pieces: the two headers are padded to four bytes.
abbrev pub size : Piece → ℕ
size (rel h) = 40
size (msg h) = 16
size (tag t) = 8
size (num n) = 1
size (raw bytes) = length bytes

-- `total_len()` and `data_len()`: the code keeps a packet in one segment.
unfoldable pub total_len : Packet → ℕ
total_len [] = 0
total_len (p ∷ ps) = size p + total_len ps

-- What DPDK does for the code: the checksum of an IPv4 header, and the byte order of a half word.
pub record Dpdk : Type 0 where
  pub rte_ipv4_cksum : ReliableHeader → ℕ
  pub rte_cpu_to_be_16 : ℕ → ℕ
