-- ===== src/Remote/RoundTrip.antt =====
-- What one runtime writes of its configuration, another one reads (runtime/rpc/ring_msg.h).
use mathlib.Core.List.{append-nil}
use nfvactor.Prelude.{
  length-append, ℕ, zero, suc, ◌+◌, ◌*◌, ◌/◌, ◌%◌, ◌^◌, ◌<◌, ◌≤◌, ◌≡◌, refl, sym, ap, ◌∙◌, none,
  some, [], ◌∷◌, ◌++◌, arith, length,
}
use nfvactor.Prelude.Bytes.{le_value}
use nfvactor.Conn.{RuntimeConfig}
use nfvactor.Remote.Codes.{
  Text, decimal, read_uint, read_char, read_uint-decimal, starts_with_digit,
}
use nfvactor.Remote.Config.{
  ConfigMsg, read_colon, mac_text, convert_uint32t_ip, convert_string_ip, print_byte, mac_byte,
  convert_uint64t_mac, read_byte, ring_msg_parse_mac_addr, l2_addr_to_u64, convert_string_mac,
  protobuf2local, local2protobuf,
}

pub read_octet :
    (n : ℕ) (rest : Text)
    → read_uint (decimal (n % 256) ++ b'.' ∷ rest) ≡ some (n % 256, b'.' ∷ rest)
unfolding starts_with_digit
read_octet n rest = read_uint-decimal (n % 256) (b'.' ∷ rest) (omega arith) refl

read_last : (n : ℕ) → read_uint (decimal (n % 256)) ≡ some (n % 256, [])
unfolding starts_with_digit
read_last n =
    ap read_uint (sym (append-nil (decimal (n % 256))))
    ∙ read_uint-decimal (n % 256) [] (omega arith) refl

pub octets :
    (ip : ℕ)
    → ip < 2 ^ 32
    → ip / 2 ^ 24 % 256 % 256 * 2 ^ 24
        + ip / 2 ^ 16 % 256 % 256 * 2 ^ 16
        + ip / 2 ^ 8 % 256 % 256 * 2 ^ 8
        + ip % 256 % 256
      ≡ ip
octets ip h = omega arith

-- An address of 32 bits that is written in decimal is read back.
pub convert_string_ip-convert :
    (ip : ℕ) → ip < 2 ^ 32 → convert_string_ip (convert_uint32t_ip ip) ≡ some ip
unfolding convert_string_ip convert_uint32t_ip read_char
convert_string_ip-convert ip h = simp (read_octet, read_last) (ap some (octets ip h))

-- A byte below 128 is printed with two digits, and these are read.
read_byte-print :
    (b : ℕ) (rest : Text) → b < 128 → read_byte (print_byte b ++ rest) ≡ some (b, rest)
unfolding read_byte print_byte
read_byte-print b rest h = ground arith

-- An address of six bytes below 128.
abbrev pub IsPlain : ℕ → Type 0
IsPlain mac =
    (mac < 2 ^ 48)
    × (mac % 256 < 128)
    × (mac / 2 ^ 8 % 256 < 128)
    × (mac / 2 ^ 16 % 256 < 128)
    × (mac / 2 ^ 24 % 256 < 128)
    × (mac / 2 ^ 32 % 256 < 128)
    × (mac / 2 ^ 40 % 256 < 128)

length-print_byte :
    (b : ℕ)
    → (b < 128 → length (print_byte b) ≡ 2)
      × (128 ≤ b → length (print_byte b) ≡ 8)
      × (2 ≤ length (print_byte b))
unfolding print_byte
length-print_byte b = (λ h. ground arith, λ h. ground arith, ground arith)

length-mac_text :
    (b0 b1 b2 b3 b4 b5 : ℕ)
    → length (mac_text b0 b1 b2 b3 b4 b5)
      ≡ length (print_byte b0)
        + length (print_byte b1)
        + length (print_byte b2)
        + length (print_byte b3)
        + length (print_byte b4)
        + length (print_byte b5)
        + 5
unfolding mac_text
length-mac_text b0 b1 b2 b3 b4 b5 = simp length-append (omega arith)

read_last_byte : (b : ℕ) → b < 128 → read_byte (print_byte b) ≡ some (b, [])
read_last_byte b h = ap read_byte (sym (append-nil (print_byte b))) ∙ read_byte-print b [] h

parse-mac_text :
    (b0 b1 b2 b3 b4 b5 : ℕ)
    → b0 < 128
    → b1 < 128
    → b2 < 128
    → b3 < 128
    → b4 < 128
    → b5 < 128
    → ring_msg_parse_mac_addr (mac_text b0 b1 b2 b3 b4 b5) ≡ some (b0 ∷ b1 ∷ b2 ∷ b3 ∷ b4 ∷ b5 ∷ [])
unfolding mac_text ring_msg_parse_mac_addr read_colon
parse-mac_text b0 b1 b2 b3 b4 b5 h0 h1 h2 h3 h4 h5 = rw (read_byte-print b0 _ h0) (
    rw (read_byte-print b1 _ h1) (
      rw (read_byte-print b2 _ h2) (
        rw (read_byte-print b3 _ h3)
          (rw (read_byte-print b4 _ h4) (rw (read_last_byte b5 h5) refl)))))

-- The bytes of an address, and the length of each one's text.
plain_bytes : (mac : ℕ) → IsPlain mac → (i : ℕ) → i < 6 → mac_byte i mac < 128
unfolding mac_byte
plain_bytes mac h zero p = omega (arith, h)
plain_bytes mac h (suc zero) p = omega (arith, h)
plain_bytes mac h (suc (suc zero)) p = omega (arith, h)
plain_bytes mac h (suc (suc (suc zero))) p = omega (arith, h)
plain_bytes mac h (suc (suc (suc (suc zero)))) p = omega (arith, h)
plain_bytes mac h (suc (suc (suc (suc (suc zero))))) p = omega (arith, h)
plain_bytes mac h (suc (suc (suc (suc (suc (suc i)))))) p = absurd (omega arith)

-- Of six lengths of two at least, one is eight.
wide :
    (n : ℕ → ℕ)
    → ((k : ℕ) → 2 ≤ n k)
    → (i : ℕ) → i < 6
    → n i ≡ 8
    → 18 ≤ n 0 + n 1 + n 2 + n 3 + n 4 + n 5
wide n m zero h e = omega (arith, m 1, m 2, m 3, m 4, m 5)
wide n m (suc zero) h e = omega (arith, m 0, m 2, m 3, m 4, m 5)
wide n m (suc (suc zero)) h e = omega (arith, m 0, m 1, m 3, m 4, m 5)
wide n m (suc (suc (suc zero))) h e = omega (arith, m 0, m 1, m 2, m 4, m 5)
wide n m (suc (suc (suc (suc zero)))) h e = omega (arith, m 0, m 1, m 2, m 3, m 5)
wide n m (suc (suc (suc (suc (suc zero))))) h e = omega (arith, m 0, m 1, m 2, m 3, m 4)
wide n m (suc (suc (suc (suc (suc (suc i)))))) h e = absurd (omega arith)

-- A byte above 127 is printed as a negative number, with eight digits: the text of an address that
-- has such a byte among its six does not fit, and the print writes past its array.
pub convert_uint64t_mac-overflows :
    (mac i : ℕ) → i < 6 → 128 ≤ mac_byte i mac → convert_uint64t_mac mac ≡ none
unfolding convert_uint64t_mac
convert_uint64t_mac-overflows mac i h b =
    let at = λ (k : ℕ). mac_byte k mac in
    let p = λ (k : ℕ). length-print_byte (mac_byte k mac) in
    let total = wide (λ k. length (print_byte (mac_byte k mac))) (λ k. (p k).2) i h ((p i).1 b) in
    ground (arith, length-mac_text (at 0) (at 1) (at 2) (at 3) (at 4) (at 5), total)

plain_fits :
    (mac : ℕ)
    → IsPlain mac
    → convert_uint64t_mac mac
      ≡ some (
          mac_text
            (mac_byte 0 mac)
            (mac_byte 1 mac)
            (mac_byte 2 mac)
            (mac_byte 3 mac)
            (mac_byte 4 mac)
            (mac_byte 5 mac))
unfolding convert_uint64t_mac
plain_fits mac h =
    let at = λ (k : ℕ). mac_byte k mac in
    let two = λ (k : ℕ) (q : k < 6). (length-print_byte (at k)).0 (plain_bytes mac h k q) in
    ground (
      arith,
      length-mac_text (at 0) (at 1) (at 2) (at 3) (at 4) (at 5),
      two 0 (omega arith),
      two 1 (omega arith),
      two 2 (omega arith),
      two 3 (omega arith),
      two 4 (omega arith),
      two 5 (omega arith),
    )

bytes_value :
    (mac : ℕ)
    → mac < 2 ^ 48
    → l2_addr_to_u64 (
        mac_byte 0 mac
        ∷ mac_byte 1 mac
        ∷ mac_byte 2 mac
        ∷ mac_byte 3 mac
        ∷ mac_byte 4 mac
        ∷ mac_byte 5 mac
        ∷ [])
      ≡ mac
unfolding l2_addr_to_u64 le_value mac_byte
bytes_value mac h = omega arith

-- An address of six bytes below 128 is written to a text that is read back as that address.
pub convert_mac_round_trip :
    (mac : ℕ)
    → IsPlain mac
    → (s : Text) × (convert_uint64t_mac mac ≡ some s) × (convert_string_mac s ≡ some mac)
unfolding convert_string_mac
convert_mac_round_trip mac h =
    let at = λ (k : ℕ). mac_byte k mac in
    let p = λ (k : ℕ) (q : k < 6). plain_bytes mac h k q in
    let parsed =
      parse-mac_text (at 0) (at 1) (at 2) (at 3) (at 4) (at 5) (p 0 (omega arith))
        (p 1 (omega arith)) (p 2 (omega arith)) (p 3 (omega arith)) (p 4 (omega arith))
        (p 5 (omega arith)) in
    (
      mac_text (at 0) (at 1) (at 2) (at 3) (at 4) (at 5),
      plain_fits mac h,
      rw parsed (ap some (bytes_value mac h.0)),
    )

-- A configuration whose addresses can be written.
pub record IsWritable (c : RuntimeConfig) : Type 0 where
  pub input_mac : IsPlain c.input_port_mac
  pub output_mac : IsPlain c.output_port_mac
  pub control_mac : IsPlain c.control_port_mac
  pub ip : c.rpc_ip < 2 ^ 32

-- A configuration whose hardware addresses have bytes below 128 and whose IP address has 32 bits is
-- written into a message, with its IP address in decimal, and is read back from it unchanged.
pub protobuf2local-local2protobuf :
    (c : RuntimeConfig)
    → IsWritable c
    → (m : ConfigMsg) × (local2protobuf c ≡ some m)
      × (protobuf2local m ≡ some c)
      × (m.rpc_ip ≡ convert_uint32t_ip c.rpc_ip)
      × (m.rpc_port ≡ c.rpc_port)
unfolding local2protobuf protobuf2local
protobuf2local-local2protobuf c w =
    let (a, wa, ra) = convert_mac_round_trip c.input_port_mac w.input_mac in
    let (b, wb, rb) = convert_mac_round_trip c.output_port_mac w.output_mac in
    let (d, wd, rd) = convert_mac_round_trip c.control_port_mac w.control_mac in
    (
      record {
        runtime_id = c.runtime_id;
        input_port_mac = a;
        output_port_mac = b;
        control_port_mac = d;
        rpc_ip = convert_uint32t_ip c.rpc_ip;
        rpc_port = c.rpc_port;
      },
      rw (wa, wb, wd) refl,
      rw (ra, rb, rd, convert_string_ip-convert c.rpc_ip w.ip) refl,
      refl,
      refl,
    )
