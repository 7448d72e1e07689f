-- ===== src/Nf/Nat/Pool.antt =====
-- The NAT's addresses: none is lost, none is shared.
use nfvactor.Prelude.{
  ℕ, zero, suc, ◌+◌, ◌*◌, ◌%◌, ◌^◌, ◌≡◌, ◌<◌, refl, true, false, ◌==◌, List, [], ◌∷◌, ◌++◌,
  if◌then◌else◌, arith, length,
}
use nfvactor.Nf.{Frame, idle, migrate_out, swap16}
use nfvactor.Nf.LoadBalancer.{convert_string_ip}
use nfvactor.Nf.Nat.{
  IpPortTuple, NatFs, has_nat_allocation, add_ports, add_ips, address_pool, nat_allocate,
  nf_logic_impl, nf_flow_leave_impl, nf_init_fs_impl, rewrite_source,
}

-- No address of the pool looks like a failed allocation.
abbrev pub AllReal : List IpPortTuple → Type 0
AllReal [] = Unit
AllReal (a ∷ pool) = (0 < a.src_ip) × AllReal pool

-- What a flow holds of the pool.
abbrev pub owned : NatFs → List IpPortTuple
owned fs = if fs.nat_status == has_nat_allocation then fs.ip_port ∷ [] else []

-- A flow takes an address out of the pool, uses the one it has, or takes none: together, the flow
-- and the pool hold the same addresses before and after.
pub nf_logic_impl-owned :
    (pkt : Frame) (fs : NatFs) (pool : List IpPortTuple)
    → AllReal pool
    → let (passed, pkt', fs', pool') = nf_logic_impl pkt fs pool in
      (owned fs' ++ pool' ≡ owned fs ++ pool) × AllReal pool'
unfolding nf_logic_impl nat_allocate
nf_logic_impl-owned pkt fs [] r = (ground arith, ground arith)
nf_logic_impl-owned pkt fs (a ∷ pool) r = (ground arith, ground arith)

-- The first packet of a flow passes exactly if the pool is not empty, and then carries the address
-- that the flow took; every later packet carries the same address, whatever the pool holds then.
first_then_same :
    (pkt later : Frame) (fs : NatFs) (pool pool2 : List IpPortTuple)
    → AllReal pool
    → let (passed, pkt1, fs1, pool1) = nf_logic_impl pkt (nf_init_fs_impl fs) pool in
      (passed ≡ (if length pool == 0 then false else true))
      × (passed ≡ true
          → (pkt1 ≡ rewrite_source fs1.ip_port pkt)
            × (nf_logic_impl later fs1 pool2
                ≡ (true, rewrite_source fs1.ip_port later, fs1, pool2)))
      × (passed ≡ false → nf_logic_impl later fs1 pool2 ≡ (false, later, fs1, pool2))
unfolding nf_logic_impl nat_allocate nf_init_fs_impl
first_then_same pkt later fs [] pool2 r =
    (ground arith, λ h. (ground arith, ground arith), λ h. ground arith)
first_then_same pkt later fs (a ∷ pool) pool2 r =
    (ground arith, λ h. (ground arith, ground arith), λ h. ground arith)

-- A flow that leaves idle gives back what it holds; one that migrates keeps it.
pub nf_flow_leave_impl-owned :
    (fs : NatFs) (pool : List IpPortTuple)
    → (nf_flow_leave_impl fs idle pool ≡ owned fs ++ pool)
      × (nf_flow_leave_impl fs migrate_out pool ≡ pool)
unfolding nf_flow_leave_impl
nf_flow_leave_impl-owned fs pool = (ground arith, refl)

add_ports-AllReal :
    (ip n j : ℕ) (pool : List IpPortTuple)
    → 0 < ip
    → AllReal pool
    → AllReal (add_ports ip n j pool) × (length (add_ports ip n j pool) ≡ n + length pool)
unfolding add_ports
add_ports-AllReal ip zero j pool p r = (r, omega arith)
add_ports-AllReal ip (suc n) j pool p r =
    let (real, count) =
      add_ports-AllReal ip n (j + 1) (record { src_ip = ip; src_port = swap16 j } ∷ pool) p
        (p, r) in
    (real, omega (arith, count))

real_ip : (a b c d : ℕ) → 0 < a % 2 ^ 8 → 0 < convert_string_ip a b c d
unfolding convert_string_ip
real_ip a b c d h = omega arith

add_ips-AllReal :
    (runtime_id n i : ℕ) (pool : List IpPortTuple)
    → AllReal pool
    → AllReal (add_ips runtime_id n i pool)
      × (length (add_ips runtime_id n i pool) ≡ n * 60000 + length pool)
unfolding add_ips
add_ips-AllReal rt zero i pool r = (r, omega arith)
add_ips-AllReal rt (suc n) i pool r =
    let ip = convert_string_ip 101 122 rt (i + 1) in
    let (real, count) =
      add_ports-AllReal ip 60000 5001 pool (real_ip 101 122 rt (i + 1) (omega arith)) r in
    let (all, total) = add_ips-AllReal rt n (i + 1) (add_ports ip 60000 5001 pool) real in
    (all, omega (arith, total, count))

-- The pool starts with 600000 addresses, none of which looks like a failed allocation.
address_pool-AllReal :
    (runtime_id : ℕ)
    → AllReal (address_pool runtime_id) × (length (address_pool runtime_id) ≡ 600000)
unfolding address_pool
address_pool-AllReal rt = let (all, total) = add_ips-AllReal rt 10 0 [] tt in (all, total)
