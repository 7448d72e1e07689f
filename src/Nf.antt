-- ===== src/Nf.antt =====
-- runtime/nf: the network functions and their register. A function reads and writes a packet's
-- frame by `head_data<T*>(offset)`: the frame is the memory behind the head, byte by byte, and
-- words are little-endian, as on the x86 that the runtime is built for.
pub mod Firewall
pub mod LoadBalancer
pub mod Nat
pub mod PktCounter
pub mod Register
use nfvactor.Prelude.{ℕ, zero, suc, ◌+◌, ◌-◌, ◌*◌, ◌/◌, ◌%◌, ◌^◌, update}

abbrev pub Frame : Type 0
Frame = ℕ → ℕ

-- Offsets behind the 14 bytes of the Ethernet header.
abbrev pub proto_offset : ℕ
proto_offset = 23

abbrev pub src_ip_offset : ℕ
src_ip_offset = 26

abbrev pub dst_ip_offset : ℕ
dst_ip_offset = 30

abbrev pub src_port_offset : ℕ
src_port_offset = 34

abbrev pub dst_port_offset : ℕ
dst_port_offset = 36

abbrev pub tcp_flags_offset : ℕ
tcp_flags_offset = 47

unfoldable pub load16 : Frame → ℕ → ℕ
load16 f i = f i + 2 ^ 8 * f (i + 1)

unfoldable pub load32 : Frame → ℕ → ℕ
load32 f i = f i + 2 ^ 8 * f (i + 1) + 2 ^ 16 * f (i + 2) + 2 ^ 24 * f (i + 3)

unfoldable pub store16 : ℕ → ℕ → Frame → Frame
store16 i v f = update (update f i (v % 2 ^ 8)) (i + 1) (v / 2 ^ 8 % 2 ^ 8)

unfoldable pub store32 : ℕ → ℕ → Frame → Frame
store32 i v f =
    let low = update (update f i (v % 2 ^ 8)) (i + 1) (v / 2 ^ 8 % 2 ^ 8) in
    update (update low (i + 2) (v / 2 ^ 16 % 2 ^ 8)) (i + 3) (v / 2 ^ 24 % 2 ^ 8)

-- `ntol`, `lton`: the bytes in the other order.
unfoldable pub swap32 : ℕ → ℕ
swap32 n =
    2 ^ 24 * (n % 2 ^ 8)
    + 2 ^ 16 * (n / 2 ^ 8 % 2 ^ 8)
    + 2 ^ 8 * (n / 2 ^ 16 % 2 ^ 8)
    + n / 2 ^ 24 % 2 ^ 8

unfoldable pub swap16 : ℕ → ℕ
swap16 n = 2 ^ 8 * (n % 2 ^ 8) + n / 2 ^ 8 % 2 ^ 8

-- `&` on words of `w` bits.
unfoldable pub bit_and : ℕ → ℕ → ℕ → ℕ
bit_and zero a b = 0
bit_and (suc w) a b = (a % 2) * (b % 2) + 2 * bit_and w (a / 2) (b / 2)

-- `enum class flow_leave_status`
pub data FlowLeaveStatus : Type 0 where
  idle : FlowLeaveStatus
  migrate_out : FlowLeaveStatus
