-- ===== src/Deprecated/Messages.antt =====
-- deprecated/taskManager.c: getMessageType, on the byte that begins a message.
pub mod Types
use pi_296_cluster.Prelude.{
  ℕ, zero, suc, ◌-◌, ◌*◌, ◌/◌, ◌%◌, ◌^◌, Bool, ◌==◌, leb, if◌then◌else◌, ℤ, pos, minus_one,
}

-- The loop, with `headerByte` an unsigned char. Its first test is of the highest bit.
pub type_loop : ℕ → ℕ → ℤ
type_loop zero header_byte = pos 0
type_loop (suc rest) header_byte =
    let later = type_loop rest (header_byte * 2 % 256) in
    if leb 128 header_byte
    then if (header_byte / 2 ^ (7 - suc rest)) % 2 == 1 then pos (suc rest) else minus_one
    else later

pub get_message_type : ℕ → ℤ
unfolding type_loop
get_message_type header = type_loop 7 header
