-- ===== src/Examples/Functions.antt =====
-- Network functions (runtime/nf) at concrete packets and states.
use nfvactor.Prelude.{
  ℕ, ◌≡◌, refl, ◌↔◌, ◌⊎◌, true, false, some, List, [], ◌∷◌, ◌++◌, replicate, reverse, map, arith,
}
use nfvactor.Prelude.Int.{pos, negsuc}
use nfvactor.Nf.{Frame}
use nfvactor.Nf.Firewall
use nfvactor.Nf.Firewall.{FirewallFs, rules, match_any, convert_string_ip, inc32}
use nfvactor.Nf.Firewall.Rules.{match_any-rules}
use nfvactor.Nf.Firewall.Verdict.{verdicts, dropped_for_ever}
use nfvactor.Nf.LoadBalancer.{LoadBalancerFs, min_element}
use nfvactor.Nf.LoadBalancer.Spread.{positions, new_flows-first}
use nfvactor.Nf.Nat
use nfvactor.Nf.Nat.{address_pool, NatFs, IpPortTuple, rewrite_source}
use nfvactor.Nf.Nat.Pool.{AllReal, owned, nf_logic_impl-owned}
use nfvactor.Nf.Register.{get_service_chain, parse_service_chain, pieces}
use nfvactor.Nf.Register.Chain.{AllIds, find_all, get_service_chain-parse}

-- A frame of ones: protocol 1, and the FIN flag set.
abbrev ones : Frame
ones = λ i. 1

abbrev new_flow : FirewallFs
new_flow = record {
  src_ip = 0;
  dst_ip = 0;
  src_port = 0;
  dst_port = 0;
  protocol = 6;
  passed_pkts = 0;
  dropped_packets = 0;
  connection_status = 0;
}

refused : (Firewall.nf_logic_impl ones new_flow []).0 ≡ false
unfolding Firewall.nf_logic_impl Firewall.first_packet
refused = refl

abbrev source : ℕ
source = 5

abbrev destination : ℕ
destination = 0

match_any-rules_example : (match_any source destination rules ≡ true) ↔ (
    (source ≡ convert_string_ip 117 7 8 1)
    ⊎ (source ≡ convert_string_ip 157 8 8 1)
    ⊎ (source ≡ convert_string_ip 127 9 8 1)
    ⊎ (source ≡ convert_string_ip 137 10 8 1)
    ⊎ (source ≡ convert_string_ip 147 11 8 1)
    ⊎ (destination ≡ 0))
match_any-rules_example = match_any-rules source destination (omega arith) (omega arith)

dropped_for_ever_example : verdicts [] new_flow (ones ∷ ones ∷ []) ≡ replicate 2 false
dropped_for_ever_example = dropped_for_ever [] new_flow ones (ones ∷ []) (omega arith) refused

abbrev no_server : LoadBalancerFs
no_server = record { server_pos = negsuc 0; server_ip_addr = 0 }

idle_rest : min_element (0 ∷ []) ≡ some 0
unfolding min_element
idle_rest = refl

new_flows-first_example :
    positions no_server
      (ones ∷ ones ∷ [])
      (record { servers = 7 ∷ 8 ∷ []; server_workload = 5 ∷ 0 ∷ [] })
    ≡ some (replicate 2 (pos 0))
new_flows-first_example =
    new_flows-first no_server (ones ∷ ones ∷ []) 7 5 (8 ∷ []) (0 ∷ []) idle_rest

abbrev no_address : NatFs
no_address = record { ip_port = record { src_ip = 0; src_port = 0 }; nat_status = 1 }

abbrev two_addresses : List IpPortTuple
two_addresses = record { src_ip = 7; src_port = 1 } ∷ record { src_ip = 7; src_port = 2 } ∷ []

two_real : AllReal two_addresses
two_real = (omega arith, (omega arith, tt))

nf_logic_impl-owned_example :
    let (passed, pkt', fs', pool') = Nat.nf_logic_impl ones no_address two_addresses in
    (owned fs' ++ pool' ≡ owned no_address ++ two_addresses) × AllReal pool'
nf_logic_impl-owned_example = nf_logic_impl-owned ones no_address two_addresses two_real

-- Names of one letter, with the letter's code as id: "a,b".
abbrev first_letter : List ℕ → ℕ
first_letter [] = 0
first_letter (c ∷ s) = c

abbrev flag : List ℕ
flag = 97 ∷ 44 ∷ 98 ∷ []

flag-pieces : pieces [] flag ≡ (97 ∷ []) ∷ (98 ∷ []) ∷ []
unfolding pieces
flag-pieces = refl

flag-AllIds : AllIds (map first_letter (pieces [] flag))
flag-AllIds = rw flag-pieces (omega arith, omega arith, (omega arith, omega arith, tt))

get_service_chain-parse_example :
    get_service_chain some (parse_service_chain first_letter flag)
    ≡ find_all some (reverse (map first_letter (pieces [] flag)))
get_service_chain-parse_example =
    get_service_chain-parse first_letter some flag flag-AllIds (rw flag-pieces (omega arith))
