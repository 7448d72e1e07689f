-- ===== src/Nf/Firewall.antt =====
-- runtime/nf/firewall/firewall.h and firewall_state.h: a stateful firewall. A flow is accepted or
-- refused by its first packet; a TCP FIN ends it, and what comes after is dropped.
pub mod Rules
pub mod Verdict
use nfvactor.Prelude.{
  ℕ, ◌+◌, ◌-◌, ◌%◌, ◌*◌, ◌^◌, Bool, true, false, ◌&&◌, ◌||◌, not, ◌==◌, if◌then◌else◌, List, [],
  ◌∷◌,
}
use nfvactor.Nf.{
  Frame, load16, load32, swap32, bit_and, proto_offset, src_ip_offset, dst_ip_offset,
  src_port_offset, dst_port_offset, tcp_flags_offset,
}

-- `no_conneciton` in the source.
abbrev pub no_connection : ℕ
no_connection = 0

abbrev pub connection_up : ℕ
connection_up = 1

abbrev pub connection_down : ℕ
connection_down = 2

abbrev pub bad_connection : ℕ
bad_connection = 3

abbrev pub protocol_tcp : ℕ
protocol_tcp = 0x06

abbrev pub protocol_udp : ℕ
protocol_udp = 0x11

pub record FirewallFs : Type 0 where
  pub src_ip : ℕ
  pub dst_ip : ℕ
  pub src_port : ℕ
  pub dst_port : ℕ
  pub protocol : ℕ
  pub passed_pkts : ℕ
  pub dropped_packets : ℕ
  pub connection_status : ℕ

pub record FirewallRule : Type 0 where
  pub src_ip : ℕ
  pub src_mask : ℕ
  pub dest_ip : ℕ
  pub dest_mask : ℕ

-- The four numbers are those that the string stream reads.
unfoldable pub convert_string_ip : ℕ → ℕ → ℕ → ℕ → ℕ
convert_string_ip a b c d =
    2 ^ 24 * (a % 2 ^ 8) + 2 ^ 16 * (b % 2 ^ 8) + 2 ^ 8 * (c % 2 ^ 8) + d % 2 ^ 8

-- The constructor, for mask lengths from 2 to 32, where the shift of the `int` stays in range.
unfoldable pub firewall_rule : ℕ → ℕ → ℕ → ℕ → FirewallRule
firewall_rule src_ip src_mask_length dest_ip dest_mask_length = record {
  src_ip = src_ip;
  src_mask = 0xFFFFFFFF - (2 ^ (32 - src_mask_length) - 1);
  dest_ip = dest_ip;
  dest_mask = 0xFFFFFFFF - (2 ^ (32 - dest_mask_length) - 1);
}

-- `firewall_rule_type::match`
unfoldable pub match_rule : ℕ → ℕ → FirewallRule → Bool
match_rule src dest r =
    (bit_and 32 src r.src_mask == bit_and 32 r.src_ip r.src_mask)
    || (bit_and 32 dest r.dest_mask == bit_and 32 r.dest_ip r.dest_mask)

-- The rules of `firewall_shared_state`.
unfoldable pub rules : List FirewallRule
unfolding firewall_rule convert_string_ip
rules =
    firewall_rule (convert_string_ip 117 7 8 1) 32 (convert_string_ip 0 0 0 0) 32
    ∷ firewall_rule (convert_string_ip 157 8 8 1) 32 (convert_string_ip 0 0 0 0) 32
    ∷ firewall_rule (convert_string_ip 127 9 8 1) 32 (convert_string_ip 0 0 0 0) 32
    ∷ firewall_rule (convert_string_ip 137 10 8 1) 32 (convert_string_ip 0 0 0 0) 32
    ∷ firewall_rule (convert_string_ip 147 11 8 1) 32 (convert_string_ip 0 0 0 0) 32
    ∷ []

-- `firewall_shared_state::match`
unfoldable pub match_any : ℕ → ℕ → List FirewallRule → Bool
unfolding match_rule
match_any src dest [] = false
match_any src dest (r ∷ rs) = match_rule src dest r || match_any src dest rs

abbrev pub inc32 : ℕ → ℕ
inc32 n = (n + 1) % 2 ^ 32

abbrev drop : FirewallFs → Bool × FirewallFs
drop fs = (
  false,
  record fs { connection_status = bad_connection; dropped_packets = inc32 fs.dropped_packets },
)

-- The fields that the first packet of a flow fills in.
learn : Frame → FirewallFs → FirewallFs
unfolding load16 load32 swap32
learn pkt fs = record fs {
  protocol = pkt proto_offset;
  src_port = load16 pkt src_port_offset;
  dst_port = load16 pkt dst_port_offset;
  src_ip = swap32 (load32 pkt src_ip_offset);
  dst_ip = swap32 (load32 pkt dst_ip_offset);
}

unfoldable pub first_packet : Frame → FirewallFs → List FirewallRule → Bool × FirewallFs
unfolding learn match_any
first_packet pkt fs ss =
    if not (pkt proto_offset == protocol_tcp) && not (pkt proto_offset == protocol_udp)
    then drop fs
    else let fs' = learn pkt fs in
      if match_any fs'.src_ip fs'.dst_ip ss then drop fs' else (
        true,
        record fs' { connection_status = connection_up; passed_pkts = inc32 fs'.passed_pkts },
      )

-- `(flags & 0x01) == 0x01`
abbrev pub has_fin : Frame → Bool
has_fin pkt = pkt tcp_flags_offset % 2 == 1

unfoldable pub nf_logic_impl : Frame → FirewallFs → List FirewallRule → Bool × FirewallFs
unfolding first_packet
nf_logic_impl pkt fs ss =
    if fs.connection_status == no_connection
    then first_packet pkt fs ss
    else if fs.connection_status == connection_up
    then (
      true,
      record fs {
        connection_status =
            if (fs.protocol == protocol_tcp) && has_fin pkt then connection_down else connection_up;
        passed_pkts = inc32 fs.passed_pkts;
      },
    )
    else if (fs.connection_status == connection_down) || (fs.connection_status == bad_connection)
    then drop fs
    else (true, fs)

-- The counters are not set.
unfoldable pub nf_init_fs_impl : FirewallFs → FirewallFs
nf_init_fs_impl fs = record fs { connection_status = no_connection }
