-- ===== src/Nf/Nat.antt =====
-- runtime/nf/nat/nat.h and nat_state.h: a source NAT. A flow takes an address and port from a pool
-- by its first packet and gives it back when it leaves idle.
pub mod Pool
use nfvactor.Prelude.{
  ℕ, zero, suc, ◌+◌, ◌-◌, ◌*◌, ◌%◌, ◌^◌, Bool, true, false, ◌&&◌, ◌==◌, if◌then◌else◌, List, [],
  ◌∷◌,
}
use nfvactor.Nf.{
  Frame, store16, store32, swap16, src_ip_offset, src_port_offset, FlowLeaveStatus, idle,
  migrate_out,
}
use nfvactor.Nf.LoadBalancer.{convert_string_ip}

pub record IpPortTuple : Type 0 where
  pub src_ip : ℕ
  pub src_port : ℕ

abbrev pub no_nat_allocation : ℕ
no_nat_allocation = 1

abbrev pub has_nat_allocation : ℕ
has_nat_allocation = 2

abbrev pub nat_allocation_exception : ℕ
nat_allocation_exception = 3

pub record NatFs : Type 0 where
  pub ip_port : IpPortTuple
  pub nat_status : ℕ

-- The inner loop of the constructor: `n` ports from `j` on.
unfoldable pub add_ports : ℕ → ℕ → ℕ → List IpPortTuple → List IpPortTuple
add_ports ip zero j pool = pool
add_ports ip (suc n) j pool =
    add_ports ip n (j + 1) (record { src_ip = ip; src_port = swap16 j } ∷ pool)

-- The outer loop: `n` addresses, from 101.122.runtime_id.(i+1) on. `convert_string_ip` is the same
-- as the load balancer's.
unfoldable pub add_ips : ℕ → ℕ → ℕ → List IpPortTuple → List IpPortTuple
unfolding add_ports
add_ips runtime_id zero i pool = pool
add_ips runtime_id (suc n) i pool =
    add_ips runtime_id n (i + 1)
      (add_ports (convert_string_ip 101 122 runtime_id (i + 1)) 60000 5001 pool)

-- The constructor of `nat_shared_state`.
unfoldable pub address_pool : ℕ → List IpPortTuple
unfolding add_ips
address_pool runtime_id = add_ips runtime_id 10 0 []

unfoldable pub nat_allocate : List IpPortTuple → IpPortTuple × List IpPortTuple
nat_allocate [] = (record { src_ip = 0; src_port = 0 }, [])
nat_allocate (a ∷ pool) = (a, pool)

unfoldable pub nat_deallocate : IpPortTuple → List IpPortTuple → List IpPortTuple
nat_deallocate a pool = a ∷ pool

-- The writes into the packet.
unfoldable pub rewrite_source : IpPortTuple → Frame → Frame
unfolding store16 store32
rewrite_source a pkt = store16 src_port_offset a.src_port (store32 src_ip_offset a.src_ip pkt)

allocated : Frame → NatFs → IpPortTuple → List IpPortTuple → Bool × Frame × NatFs × List IpPortTuple
unfolding rewrite_source
allocated pkt fs a pool =
    if (a.src_ip == 0) && (a.src_port == 0)
    then (false, pkt, record fs { nat_status = nat_allocation_exception }, pool)
    else (
      true,
      rewrite_source a pkt,
      record fs { ip_port = a; nat_status = has_nat_allocation },
      pool,
    )

unfoldable pub nf_logic_impl :
    Frame → NatFs → List IpPortTuple → Bool × Frame × NatFs × List IpPortTuple
unfolding allocated nat_allocate
nf_logic_impl pkt fs pool =
    if fs.nat_status == no_nat_allocation
    then allocated pkt fs (nat_allocate pool).0 (nat_allocate pool).1
    else if fs.nat_status == has_nat_allocation
    then (true, rewrite_source fs.ip_port pkt, fs, pool)
    else if fs.nat_status == nat_allocation_exception
    then (false, pkt, fs, pool)
    else (true, pkt, fs, pool)

unfoldable pub nf_flow_leave_impl : NatFs → FlowLeaveStatus → List IpPortTuple → List IpPortTuple
unfolding nat_deallocate
nf_flow_leave_impl fs idle pool =
    if fs.nat_status == has_nat_allocation then nat_deallocate fs.ip_port pool else pool
nf_flow_leave_impl fs migrate_out pool = pool

unfoldable pub nf_init_fs_impl : NatFs → NatFs
nf_init_fs_impl fs = record fs { nat_status = no_nat_allocation }
