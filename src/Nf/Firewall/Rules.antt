-- ===== src/Nf/Firewall/Rules.antt =====
-- Which flows the firewall's rules refuse.
use nfvactor.Prelude.{
  ℕ, zero, suc, ◌-◌, ◌/◌, ◌%◌, ◌^◌, ◌<◌, ◌≡◌, ◌↔◌, ◌⊎◌, ◌||◌, refl, true, ◌==◌, arith,
}
use nfvactor.Nf.{bit_and}
use nfvactor.Nf.Firewall.{firewall_rule, convert_string_ip, match_rule, match_any, rules}

pow_positive : (w : ℕ) → 0 < 2 ^ w
pow_positive zero = omega arith
pow_positive (suc w) = omega (arith, pow_positive w)

half_ones : (w : ℕ) → ((2 ^ suc w - 1) % 2 ≡ 1) × ((2 ^ suc w - 1) / 2 ≡ 2 ^ w - 1)
half_ones w = (omega (arith, pow_positive w), omega (arith, pow_positive w))

bit_and_ones : (w a : ℕ) → a < 2 ^ w → bit_and w a (2 ^ w - 1) ≡ a
unfolding bit_and
bit_and_ones zero a h = omega arith
bit_and_ones (suc w) a h =
    let (odd, half) = half_ones w in
    let small : a / 2 < 2 ^ w = omega (arith, h) in
    rw (odd, half, bit_and_ones w (a / 2) small) (omega arith)

-- A rule for two hosts.
match_rule-hosts :
    (src dest a b : ℕ)
    → src < 2 ^ 32
    → dest < 2 ^ 32
    → a < 2 ^ 32
    → b < 2 ^ 32
    → match_rule src dest (firewall_rule a 32 b 32) ≡ ((src == a) || (dest == b))
unfolding match_rule firewall_rule
match_rule-hosts src dest a b p q r t =
    rw (bit_and_ones 32 src p, bit_and_ones 32 dest q, bit_and_ones 32 a r, bit_and_ones 32 b t)
      refl

small : (a b c d : ℕ) → convert_string_ip a b c d < 2 ^ 32
unfolding convert_string_ip
small a b c d = omega arith

zero_ip : convert_string_ip 0 0 0 0 ≡ 0
unfolding convert_string_ip
zero_ip = refl

-- The firewall's rules refuse a flow exactly if it comes from one of the five listed addresses, or
-- goes to the address 0.0.0.0. The addresses are 32-bit numbers.
pub match_any-rules :
    (src dest : ℕ)
    → src < 2 ^ 32
    → dest < 2 ^ 32
    → (match_any src dest rules ≡ true) ↔ (
        (src ≡ convert_string_ip 117 7 8 1)
        ⊎ (src ≡ convert_string_ip 157 8 8 1)
        ⊎ (src ≡ convert_string_ip 127 9 8 1)
        ⊎ (src ≡ convert_string_ip 137 10 8 1)
        ⊎ (src ≡ convert_string_ip 147 11 8 1)
        ⊎ (dest ≡ 0))
unfolding match_any rules
match_any-rules src dest p q =
    rw (hosts 117 7 8 1, hosts 157 8 8 1, hosts 127 9 8 1, hosts 137 10 8 1, hosts 147 11 8 1)
      (ground (arith, zero_ip))
  where
    hosts :
        (a b c d : ℕ)
        → match_rule src dest
            (firewall_rule (convert_string_ip a b c d) 32 (convert_string_ip 0 0 0 0) 32)
          ≡ ((src == convert_string_ip a b c d) || (dest == convert_string_ip 0 0 0 0))
    hosts a b c d = match_rule-hosts src dest _ _ p q (small a b c d) (small 0 0 0 0)
