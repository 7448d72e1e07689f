-- ===== src/Remote/Config.antt =====
-- runtime/rpc/ring_msg.h: addresses of runtimes as numbers and as texts, and their configuration
-- in the worker's form and in the form of messages.
use nfvactor.Prelude.{
  ℕ, ◌+◌, ◌-◌, ◌*◌, ◌/◌, ◌%◌, ◌^◌, Bool, ◌&&◌, Option, none, some, List, [], ◌∷◌, ◌++◌, ltb, leb,
  ◌==◌, ◌>>=◌, if◌then◌else◌, length,
}
use nfvactor.Prelude.Bytes.{le_value}
use nfvactor.Conn.{RuntimeConfig}
use nfvactor.Remote.Codes.{Text, decimal, read_uint, read_char}

unfoldable pub convert_uint32t_ip : ℕ → Text
convert_uint32t_ip ip =
    decimal (ip / 2 ^ 24 % 256)
    ++ (b'.'
        ∷ (decimal (ip / 2 ^ 16 % 256)
            ++ (b'.' ∷ (decimal (ip / 2 ^ 8 % 256) ++ (b'.' ∷ decimal (ip % 256))))))

-- Any character may separate the numbers, and of each number the low byte counts.
unfoldable pub convert_string_ip : Text → Option ℕ
convert_string_ip s0 = do
  (a, s1) ← read_uint s0
  (ch1, s2) ← read_char s1
  (b, s3) ← read_uint s2
  (ch2, s4) ← read_char s3
  (c, s5) ← read_uint s4
  (ch3, s6) ← read_char s5
  (d, s7) ← read_uint s6
  some (a % 256 * 2 ^ 24 + b % 256 * 2 ^ 16 + c % 256 * 2 ^ 8 + d % 256)

hex_digit : ℕ → ℕ
hex_digit d = if ltb d 10 then b'0' + d else b'a' + (d - 10)

-- `%02x` of a `char`, which is signed: a byte above 127 is a negative number of 32 bits.
unfoldable pub print_byte : ℕ → Text
unfolding hex_digit
print_byte b =
    let two = hex_digit (b / 16) ∷ hex_digit (b % 16) ∷ [] in
    if ltb b 128 then two else b'f' ∷ b'f' ∷ b'f' ∷ b'f' ∷ b'f' ∷ b'f' ∷ two

unfoldable pub mac_byte : ℕ → ℕ → ℕ
mac_byte i mac = mac / 2 ^ (8 * i) % 256

-- `%02x:%02x:%02x:%02x:%02x:%02x`
unfoldable pub mac_text : ℕ → ℕ → ℕ → ℕ → ℕ → ℕ → Text
unfolding print_byte
mac_text b0 b1 b2 b3 b4 b5 =
    print_byte b0
    ++ (b':'
        ∷ (print_byte b1
            ++ (b':'
                ∷ (print_byte b2
                    ++ (b':'
                        ∷ (print_byte b3 ++ (b':' ∷ (print_byte b4 ++ (b':' ∷ print_byte b5)))))))))

-- The array has nineteen characters, the last of them for the end of the text; `none` is a write
-- past its end.
unfoldable pub convert_uint64t_mac : ℕ → Option Text
convert_uint64t_mac mac =
    let at = λ (i : ℕ). mac_byte i mac in
    let str = mac_text (at 0) (at 1) (at 2) (at 3) (at 4) (at 5) in
    if leb (length str + 1) 19 then some str else none

hex_value : ℕ → Option ℕ
hex_value c =
    if leb b'0' c && leb c b'9'
    then some (c - b'0')
    else if leb b'a' c && leb c b'f'
    then some (c - b'a' + 10)
    else if leb b'A' c && leb c b'F'
    then some (c - b'A' + 10)
    else none

-- `%2hhx`: one digit or two.
read_second : ℕ → Text → ℕ × Text
unfolding hex_value
read_second d [] = (d, [])
read_second d (c ∷ s) = elim (hex_value c) [ none ↦ (d, c ∷ s) | some e ↦ (d * 16 + e, s) ]

unfoldable pub read_byte : Text → Option (ℕ × Text)
unfolding hex_value read_second
read_byte [] = none
read_byte (c ∷ s) = hex_value c >>= (λ d. some (read_second d s))

unfoldable pub read_colon : Text → Option Text
read_colon [] = none
read_colon (c ∷ s) = if c == b':' then some s else none

-- The six bytes, if the text has six.
unfoldable pub ring_msg_parse_mac_addr : Text → Option (List ℕ)
unfolding read_byte read_colon
ring_msg_parse_mac_addr str = do
  (b0, s0) ← read_byte str
  (b1, s1) ← read_colon s0 >>= read_byte
  (b2, s2) ← read_colon s1 >>= read_byte
  (b3, s3) ← read_colon s2 >>= read_byte
  (b4, s4) ← read_colon s3 >>= read_byte
  (b5, s5) ← read_colon s4 >>= read_byte
  some (b0 ∷ b1 ∷ b2 ∷ b3 ∷ b4 ∷ b5 ∷ [])

unfoldable pub l2_addr_to_u64 : List ℕ → ℕ
unfolding le_value
l2_addr_to_u64 addr = le_value addr % 2 ^ 48

-- The result of the parser is not looked at: `none` stands for bytes that were never written.
unfoldable pub convert_string_mac : Text → Option ℕ
unfolding ring_msg_parse_mac_addr l2_addr_to_u64
convert_string_mac mac = ring_msg_parse_mac_addr mac >>= (λ addr. some (l2_addr_to_u64 addr))

-- `message RuntimeConfig` of bessport/nfa_msg.proto
pub record ConfigMsg : Type 0 where
  pub runtime_id : ℕ
  pub input_port_mac : Text
  pub output_port_mac : Text
  pub control_port_mac : Text
  pub rpc_ip : Text
  pub rpc_port : ℕ

unfoldable pub protobuf2local : ConfigMsg → Option RuntimeConfig
protobuf2local protobuf_msg = do
  input_port_mac ← convert_string_mac protobuf_msg.input_port_mac
  output_port_mac ← convert_string_mac protobuf_msg.output_port_mac
  control_port_mac ← convert_string_mac protobuf_msg.control_port_mac
  rpc_ip ← convert_string_ip protobuf_msg.rpc_ip
  some (record {
    runtime_id = protobuf_msg.runtime_id;
    input_port_mac = input_port_mac;
    output_port_mac = output_port_mac;
    control_port_mac = control_port_mac;
    rpc_ip = rpc_ip;
    rpc_port = protobuf_msg.rpc_port;
  })

unfoldable pub local2protobuf : RuntimeConfig → Option ConfigMsg
local2protobuf local_msg = do
  input_port_mac ← convert_uint64t_mac local_msg.input_port_mac
  output_port_mac ← convert_uint64t_mac local_msg.output_port_mac
  control_port_mac ← convert_uint64t_mac local_msg.control_port_mac
  some (record {
    runtime_id = local_msg.runtime_id;
    input_port_mac = input_port_mac;
    output_port_mac = output_port_mac;
    control_port_mac = control_port_mac;
    rpc_ip = convert_uint32t_ip local_msg.rpc_ip;
    rpc_port = local_msg.rpc_port;
  })

-- `operator==` of `runtime_config`
unfoldable pub same_config : RuntimeConfig → RuntimeConfig → Bool
same_config a b =
    a.runtime_id == b.runtime_id
    && a.input_port_mac == b.input_port_mac
    && a.output_port_mac == b.output_port_mac
    && a.control_port_mac == b.control_port_mac
    && a.rpc_ip == b.rpc_ip
    && a.rpc_port == b.rpc_port
