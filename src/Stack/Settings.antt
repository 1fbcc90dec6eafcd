-- ===== src/Stack/Settings.antt =====
-- The settings of connections that `tQuicStack::Initialize` of src/tQuicStack.cc makes. Quiche's
-- defaults are an argument; a span of time is its number of seconds.
use nginx_quic_stack.Base.{ℕ, ◌*◌, if◌then◌else◌, ◌==◌}

-- `QuicConfig`, as far as the stack sets it.
pub record QuicConfig : Type 0 where
  pub initial_stream_flow_control_window : ℕ
  pub initial_session_flow_control_window : ℕ
  pub max_bidirectional_streams : ℕ
  pub max_unidirectional_streams : ℕ
  pub max_idle_time_before_crypto_handshake : ℕ
  pub idle_network_timeout : ℕ
  pub max_time_before_crypto_handshake : ℕ

pub record QuicDefaults : Type 0 where
  pub flow_control_send_window : ℕ
  pub max_streams_per_connection : ℕ
  pub initial_idle_timeout_secs : ℕ
  pub max_time_for_crypto_handshake_secs : ℕ

-- The arguments of the stack's constructor.
pub record StackSettings : Type 0 where
  pub max_streams : ℕ
  pub initial_idle_timeout_in_sec : ℕ
  pub max_idle_timeout_in_sec : ℕ
  pub max_time_before_handshake_in_sec : ℕ

abbrev pub k_initial_session_flow_control_window : ℕ
k_initial_session_flow_control_window = 16 * 1024 * 1024

abbrev pub k_initial_stream_flow_control_window : ℕ
k_initial_stream_flow_control_window = 1024 * 1024

-- A value that is still the default is replaced.
abbrev pub unless_set : ℕ → ℕ → ℕ → ℕ
unless_set default new value = if value == default then new else value

unfoldable pub initialize : QuicDefaults → StackSettings → QuicConfig → QuicConfig
initialize defaults settings config = record {
  initial_stream_flow_control_window =
      unless_set defaults.flow_control_send_window k_initial_stream_flow_control_window
        config.initial_stream_flow_control_window;
  initial_session_flow_control_window =
      unless_set defaults.flow_control_send_window k_initial_session_flow_control_window
        config.initial_session_flow_control_window;
  max_bidirectional_streams =
      unless_set defaults.max_streams_per_connection settings.max_streams
        config.max_bidirectional_streams;
  max_unidirectional_streams =
      unless_set defaults.max_streams_per_connection settings.max_streams
        config.max_unidirectional_streams;
  max_idle_time_before_crypto_handshake =
      unless_set defaults.initial_idle_timeout_secs settings.initial_idle_timeout_in_sec
        config.max_idle_time_before_crypto_handshake;
  idle_network_timeout = settings.max_idle_timeout_in_sec;
  max_time_before_crypto_handshake =
      unless_set defaults.max_time_for_crypto_handshake_secs
        settings.max_time_before_handshake_in_sec config.max_time_before_crypto_handshake;
}
