-- ===== src/Stack/Handles.antt =====
-- The functions of src/tQuicStack.cc that hand a call on to the dispatcher. A handler is `none`
-- where it is null, and a stack's dispatcher is `none` before it is made.
use nginx_quic_stack.Base.{
  ℕ, Bool, false, true, ◌||◌, List, [], Option, none, some, if◌then◌else◌, is_nil, take,
}
use nginx_quic_stack.Base.Bytes.{Bytes}
use nginx_quic_stack.Base.Int.{ℤ, pos, pos_part, leb_ℤ}
use nginx_quic_stack.Clock.{wall_now, convert_wall_time_to_quic_time}
use nginx_quic_stack.Stack.Dispatcher.{Dispatcher, set_write_blocked_callback}
use nginx_quic_stack.Stream.Identify.{ServerIdentify, add_server_identify}

-- Quiche's dispatcher, as the stack calls it. A socket address is its bytes.
pub record QuicDispatcher (D : Type 0) : Type 0 where
  pub base_initialize_with_writer : ℕ → D → D
  pub base_process_buffered_chlos : ℕ → D → D
  pub base_process_packet : Bytes → Bytes → Bytes → ℤ → D → D
  pub base_on_can_write : D → D
  pub base_has_chlos_buffered : D → Bool
  pub base_has_pending_writes : D → Bool

module _ {D : Type 0} (quic : QuicDispatcher D) where
  open quic use {
    base_initialize_with_writer, base_process_buffered_chlos, base_process_packet,
    base_on_can_write, base_has_chlos_buffered, base_has_pending_writes,
  }

  abbrev pub Stack : Type 0
  Stack = Option (Dispatcher D)

  abbrev on_base : (D → D) → Dispatcher D → Dispatcher D
  on_base f d = record d { base = f d.base }

  unfoldable pub initialize_with_writer : ℕ → Option ℕ → Stack → Stack
  unfolding set_write_blocked_callback
  initialize_with_writer fd cb none = none
  initialize_with_writer fd cb (some d) =
      some (set_write_blocked_callback cb (on_base (base_initialize_with_writer fd) d))

  unfoldable pub process_buffered_chlos : ℕ → Stack → Stack
  process_buffered_chlos max none = none
  process_buffered_chlos max (some d) = some (on_base (base_process_buffered_chlos max) d)

  -- The buffer, which may be null, with its length; `reading` is the time that the clock reads.
  unfoldable pub process_packet : Bytes → Bytes → Option Bytes → ℤ → Stack → Stack
  unfolding wall_now convert_wall_time_to_quic_time
  process_packet self_addr peer_addr buffer reading none = none
  process_packet self_addr peer_addr none reading (some d) = some d
  process_packet self_addr peer_addr (some bytes) reading (some d) =
      let timestamp = convert_wall_time_to_quic_time (wall_now reading) in
      if is_nil bytes
      then some d
      else some (on_base (base_process_packet self_addr peer_addr bytes timestamp) d)

  unfoldable pub on_can_write : Stack → Stack
  on_can_write none = none
  on_can_write (some d) = some (on_base base_on_can_write d)

  unfoldable pub has_chlos_buffered : Stack → Bool
  has_chlos_buffered none = false
  has_chlos_buffered (some d) = base_has_chlos_buffered d.base

  unfoldable pub has_pending_writes : Stack → Bool
  has_pending_writes none = false
  has_pending_writes (some d) = base_has_pending_writes d.base

  unfoldable pub quic_stack_init_writer : ℕ → Option ℕ → Option Stack → Option Stack
  unfolding initialize_with_writer
  quic_stack_init_writer sockfd cb none = none
  quic_stack_init_writer sockfd cb (some stack) = some (initialize_with_writer sockfd cb stack)

  unfoldable pub quic_stack_process_chlos : ℕ → Option Stack → Option Stack
  unfolding process_buffered_chlos
  quic_stack_process_chlos max none = none
  quic_stack_process_chlos max (some stack) = some (process_buffered_chlos max stack)

  unfoldable pub quic_stack_process_packet :
      Bytes → Bytes → Option Bytes → ℤ → Option Stack → Option Stack
  unfolding process_packet
  quic_stack_process_packet self_addr peer_addr buffer reading none = none
  quic_stack_process_packet self_addr peer_addr buffer reading (some stack) =
      some (process_packet self_addr peer_addr buffer reading stack)

  unfoldable pub quic_stack_on_can_write : Option Stack → Option Stack
  unfolding on_can_write
  quic_stack_on_can_write none = none
  quic_stack_on_can_write (some stack) = some (on_can_write stack)

  unfoldable pub quic_stack_has_chlos_buffered : Option Stack → ℤ
  unfolding has_chlos_buffered
  quic_stack_has_chlos_buffered none = pos 0
  quic_stack_has_chlos_buffered (some stack) = if has_chlos_buffered stack then pos 1 else pos 0

  unfoldable pub quic_stack_has_pending_writes : Option Stack → ℤ
  unfolding has_pending_writes
  quic_stack_has_pending_writes none = pos 0
  quic_stack_has_pending_writes (some stack) = if has_pending_writes stack then pos 1 else pos 0

-- A pointer to characters, which may be null, and an int that says how many are meant.
pub record Chars : Type 0 where
  pub start : Option Bytes
  pub len : ℤ

pub record StackCertificate : Type 0 where
  pub certificate : Chars
  pub certificate_key : Chars
  pub hostname : Chars
  pub server_ctx : ℕ

abbrev null_or_empty : Chars → Bool
null_or_empty c = elim c.start [ none ↦ true | some s ↦ leb_ℤ c.len (pos 0) ]

abbrev string_of : Chars → Bytes
string_of c = elim c.start [ none ↦ [] | some s ↦ take (pos_part c.len) s ]

abbrev identify_of : StackCertificate → ServerIdentify
identify_of cert = record {
  name = string_of cert.hostname;
  cert_path = string_of cert.certificate;
  key_path = string_of cert.certificate_key;
  ctx = cert.server_ctx;
}

-- The servers of a stack; its proof source, which reads the files, is not null.
module _ (match_pattern : Bytes → Bytes → Bool) where
  unfoldable pub add_certificate : ServerIdentify → List ServerIdentify → List ServerIdentify
  unfolding add_server_identify
  add_certificate qsi servers = (add_server_identify match_pattern qsi servers).0

  unfoldable pub quic_stack_add_certificate :
      Option StackCertificate → Option (List ServerIdentify) → Option (List ServerIdentify)
  unfolding add_certificate
  quic_stack_add_certificate cert none = none
  quic_stack_add_certificate none (some servers) = some servers
  quic_stack_add_certificate (some cert) (some servers) =
      if null_or_empty cert.certificate
        || null_or_empty cert.certificate_key
        || null_or_empty cert.hostname
      then some servers
      else some (add_certificate (identify_of cert) servers)
