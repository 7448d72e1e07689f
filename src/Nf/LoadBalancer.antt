-- ===== src/Nf/LoadBalancer.antt =====
-- runtime/nf/loadbalancer/load_balancer.h and load_balancer_state.h: a flow is given a server by its
-- first packet, and each packet is sent to it. `none`: an index out of range, which the code does
-- not test.
pub mod Spread
use mathlib.Core.Option
use nfvactor.Prelude.{
  ◌>>=◌, zero, suc, false, ℕ, ◌+◌, ◌-◌, ◌*◌, ◌%◌, ◌^◌, Bool, true, Option, none, some, List, [],
  ◌∷◌, ltb, if◌then◌else◌, get_elem?, set,
}
use nfvactor.Prelude.Int.{ℤ, pos, negsuc}
use nfvactor.Nf.{Frame, store32, dst_ip_offset}

pub record LoadBalancerFs : Type 0 where
  pub server_pos : ℤ
  pub server_ip_addr : ℕ

pub record LoadBalancerState : Type 0 where
  pub servers : List ℕ
  pub server_workload : List ℕ

-- Little-endian: the first number is the lowest byte.
unfoldable pub convert_string_ip : ℕ → ℕ → ℕ → ℕ → ℕ
convert_string_ip a b c d =
    2 ^ 24 * (d % 2 ^ 8) + 2 ^ 16 * (c % 2 ^ 8) + 2 ^ 8 * (b % 2 ^ 8) + a % 2 ^ 8

-- The constructor: six servers with no work.
unfoldable pub initial_state : LoadBalancerState
unfolding convert_string_ip
initial_state = record {
  servers =
      convert_string_ip 192 168 1 1
      ∷ convert_string_ip 192 168 1 2
      ∷ convert_string_ip 192 168 1 3
      ∷ convert_string_ip 192 168 1 4
      ∷ convert_string_ip 192 168 1 5
      ∷ convert_string_ip 192 168 1 6
      ∷ [];
  server_workload = 0 ∷ 0 ∷ 0 ∷ 0 ∷ 0 ∷ 0 ∷ [];
}

unfoldable pub get_server_ip : ℤ → LoadBalancerState → Option ℕ
get_server_ip (pos i) ss = get_elem? ss.servers i
get_server_ip (negsuc i) ss = none

unfoldable pub add_server_workload : ℤ → LoadBalancerState → Option LoadBalancerState
add_server_workload (pos i) ss =
    Option.map (λ w. record ss { server_workload = set ss.server_workload i ((w + 1) % 2 ^ 64) })
      (get_elem? ss.server_workload i)
add_server_workload (negsuc i) ss = none

unfoldable pub decrease_server_workload : ℤ → LoadBalancerState → Option LoadBalancerState
decrease_server_workload (pos i) ss =
    Option.map
      (λ w.
        if ltb 0 w then record ss { server_workload = set ss.server_workload i (w - 1) } else ss)
      (get_elem? ss.server_workload i)
decrease_server_workload (negsuc i) ss = none

-- `*std::min_element(…)`: the least element.
unfoldable pub min_element : List ℕ → Option ℕ
min_element [] = none
min_element (w ∷ ws) = elim (min_element ws) [
  | none ↦ some w
  | some m ↦ some (if ltb m w then m else w)
]

-- A 64-bit number returned as an `int`.
unfoldable pub as_int : ℕ → ℤ
as_int n = let low = n % 2 ^ 32 in if ltb low (2 ^ 31) then pos low else negsuc (2 ^ 32 - 1 - low)

-- The result is the least workload, where the caller takes it for the server's position.
unfoldable pub find_smallest_workload_server : LoadBalancerState → Option ℤ
unfolding min_element as_int
find_smallest_workload_server ss = Option.map as_int (min_element ss.server_workload)

-- `fs->server_pos == -1`
abbrev pub is_unassigned : ℤ → Bool
is_unassigned (negsuc zero) = true
is_unassigned (negsuc (suc i)) = false
is_unassigned (pos i) = false

unfoldable assign : LoadBalancerFs → LoadBalancerState → Option (LoadBalancerFs × LoadBalancerState)
unfolding find_smallest_workload_server get_server_ip add_server_workload
assign fs ss = do
  at ← find_smallest_workload_server ss
  ip ← get_server_ip at ss
  ss' ← add_server_workload at ss
  some (record { server_pos = at; server_ip_addr = ip }, ss')

-- Every packet passes: the result is the packet and the states.
unfoldable pub nf_logic_impl :
    Frame → LoadBalancerFs → LoadBalancerState → Option (Frame × LoadBalancerFs × LoadBalancerState)
unfolding assign
nf_logic_impl pkt fs ss = do
  (fs', ss') ← if is_unassigned fs.server_pos then assign fs ss else some (fs, ss)
  some (store32 dst_ip_offset fs'.server_ip_addr pkt, fs', ss')

unfoldable pub nf_flow_arrive_impl : LoadBalancerFs → LoadBalancerState → Option LoadBalancerState
unfolding add_server_workload
nf_flow_arrive_impl fs ss =
    if is_unassigned fs.server_pos then some ss else add_server_workload fs.server_pos ss

unfoldable pub nf_flow_leave_impl : LoadBalancerFs → LoadBalancerState → Option LoadBalancerState
unfolding decrease_server_workload
nf_flow_leave_impl fs ss =
    if is_unassigned fs.server_pos then some ss else decrease_server_workload fs.server_pos ss

unfoldable pub nf_init_fs_impl : LoadBalancerFs → LoadBalancerFs
nf_init_fs_impl fs = record fs { server_pos = negsuc 0 }
