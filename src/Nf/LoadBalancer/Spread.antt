-- ===== src/Nf/LoadBalancer/Spread.antt =====
-- Where the load balancer sends flows.
use nfvactor.Prelude.{
  ℕ, zero, suc, ap, lt→ltb, ◌+◌, ◌-◌, ◌>>=◌, replicate, get_elem?-lt, get_elem?-set_self, ◌%◌, ◌^◌,
  ◌≡◌, ◌<◌, refl, false, Option, some, List, [], ◌∷◌, arith, length, get_elem?, set,
}
use nfvactor.Prelude.Int.{ℤ, pos}
use nfvactor.Nf.{Frame, store32, dst_ip_offset}
use nfvactor.Nf.LoadBalancer.{
  LoadBalancerFs, LoadBalancerState, nf_logic_impl, nf_flow_arrive_impl, nf_flow_leave_impl,
  nf_init_fs_impl, find_smallest_workload_server, min_element, as_int, is_unassigned, get_server_ip,
  add_server_workload, decrease_server_workload, assign,
}

idle_min : (w : ℕ) (ws : List ℕ) → min_element ws ≡ some 0 → min_element (w ∷ ws) ≡ some 0
unfolding min_element
idle_min w ws e = rw e (ground arith)

find-first :
    (ip w : ℕ) (ips ws : List ℕ)
    → min_element ws ≡ some 0
    → find_smallest_workload_server (record { servers = ip ∷ ips; server_workload = w ∷ ws })
      ≡ some (pos 0)
unfolding find_smallest_workload_server as_int
find-first ip w ips ws e = rw (idle_min w ws e) refl

new_flow-first :
    (pkt : Frame) (fs : LoadBalancerFs) (ip w : ℕ) (ips ws : List ℕ)
    → min_element ws ≡ some 0
    → nf_logic_impl pkt
        (nf_init_fs_impl fs)
        (record { servers = ip ∷ ips; server_workload = w ∷ ws })
      ≡ some (
        store32 dst_ip_offset ip pkt,
        record { server_pos = pos 0; server_ip_addr = ip },
        record { servers = ip ∷ ips; server_workload = (w + 1) % 2 ^ 64 ∷ ws },
      )
unfolding nf_logic_impl nf_init_fs_impl assign get_server_ip add_server_workload
new_flow-first pkt fs ip w ips ws e = rw (find-first ip w ips ws e) refl

-- The positions that new flows get, one for the first packet of each.
abbrev pub positions : LoadBalancerFs → List Frame → LoadBalancerState → Option (List ℤ)
positions fs [] ss = some []
positions fs (p ∷ ps) ss =
    nf_logic_impl p (nf_init_fs_impl fs) ss
    >>= (λ (pkt, fs', ss'). positions fs ps ss' >>= (λ l. some (fs'.server_pos ∷ l)))

-- While some server behind the first has no work, every new flow is given to the first one, however
-- much work that one has: what is searched is the least workload, 0, and it is used as a position.
pub new_flows-first :
    (fs : LoadBalancerFs) (pkts : List Frame) (ip w : ℕ) (ips ws : List ℕ)
    → min_element ws ≡ some 0
    → positions fs pkts (record { servers = ip ∷ ips; server_workload = w ∷ ws })
      ≡ some (replicate (length pkts) (pos 0))
new_flows-first fs [] ip w ips ws e = refl
new_flows-first fs (p ∷ ps) ip w ips ws e =
    rw (new_flow-first p fs ip w ips ws e, new_flows-first fs ps ip ((w + 1) % 2 ^ 64) ips ws e)
      refl

-- A flow that has a server keeps it, and its packets are sent to it, whatever the workloads are.
pub keeps_server :
    (pkt : Frame) (fs : LoadBalancerFs) (ss : LoadBalancerState)
    → is_unassigned fs.server_pos ≡ false
    → nf_logic_impl pkt fs ss ≡ some (store32 dst_ip_offset fs.server_ip_addr pkt, fs, ss)
unfolding nf_logic_impl
keeps_server pkt fs ss e = rw e refl

set_back : (ws : List ℕ) (i v : ℕ) {w : ℕ} → get_elem? ws i ≡ some w → set (set ws i v) i w ≡ ws
set_back [] i v e = absurd (cc)
set_back (x ∷ ws) zero v e = ground arith
set_back (x ∷ ws) (suc i) v e = ap (◌∷◌ x) (set_back ws i v e)

-- A flow with a server that arrives and leaves again leaves the workloads as they were, if the
-- server's workload is below 2 ^ 64 - 1.
arrive_leave :
    (fs : LoadBalancerFs) (ss : LoadBalancerState) (i w : ℕ)
    → fs.server_pos ≡ pos i
    → get_elem? ss.server_workload i ≡ some w
    → w + 1 < 2 ^ 64
    → (nf_flow_arrive_impl fs ss >>= nf_flow_leave_impl fs) ≡ some ss
unfolding nf_flow_arrive_impl nf_flow_leave_impl add_server_workload decrease_server_workload
arrive_leave fs ss i w at e small =
    let inside = get_elem?-lt ss.server_workload i e in
    let wrapped : (w + 1) % 2 ^ 64 ≡ w + 1 = omega (arith, small) in
    let one_more : w + 1 - 1 ≡ w = omega arith in
    rw
      (
        at,
        e,
        get_elem?-set_self ss.server_workload i ((w + 1) % 2 ^ 64) inside,
        wrapped,
        lt→ltb 0 (w + 1) (omega arith),
        one_more,
        set_back ss.server_workload i (w + 1) e,
      )
      refl
