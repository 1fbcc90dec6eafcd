-- ===== src/PacketWriter.antt =====
-- src/tQuicPacketWriter.cc: a writer of packets to a socket, with the flag of a blocked write. The
-- write to the socket, and which results are blocked, are quiche's and arguments.
use nginx_quic_stack.Base.{ℕ, Bool, true, false, if◌then◌else◌}
use nginx_quic_stack.Base.Bytes.{Bytes}

pub record PacketWriter : Type 0 where
  pub fd : ℕ
  pub write_blocked : Bool

unfoldable pub new_packet_writer : ℕ → PacketWriter
new_packet_writer fd = record { fd = fd; write_blocked = false }

module _ {WriteResult : Type 0} (is_write_blocked_status : WriteResult → Bool) where
  unfoldable pub write_packet :
      (ℕ → Bytes → Bytes → Bytes → WriteResult)
      → Bytes
      → Bytes
      → Bytes
      → PacketWriter
      → PacketWriter × WriteResult
  write_packet send buffer self_address peer_address w =
      let result = send w.fd buffer self_address peer_address in
      (if is_write_blocked_status result then record w { write_blocked = true } else w, result)

unfoldable pub is_write_blocked : PacketWriter → Bool
is_write_blocked w = w.write_blocked

unfoldable pub set_writable : PacketWriter → PacketWriter
set_writable w = record w { write_blocked = false }

unfoldable pub set_write_blocked : Bool → PacketWriter → PacketWriter
set_write_blocked is_blocked w = record w { write_blocked = is_blocked }

unfoldable pub supports_release_time : PacketWriter → Bool
supports_release_time w = false

unfoldable pub is_batch_mode : PacketWriter → Bool
is_batch_mode w = false
