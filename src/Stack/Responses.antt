-- ===== src/Stack/Responses.antt =====
-- The functions of src/tQuicStack.cc that write a response, through the request that it answers. A
-- handler is the sessions of its dispatcher, or `none` where it is null; a stack without a
-- dispatcher finds what a stack without sessions finds. `data` may be null.
use nginx_quic_stack.Base.{ℕ, Bool, false, List, Option, none, some, if◌then◌else◌, is_nil}
use nginx_quic_stack.Base.Bytes.{Bytes}
use nginx_quic_stack.Base.Int.{ℤ, pos}
use nginx_quic_stack.Http.Tokens.{StringTokenizer, IntReader}
use nginx_quic_stack.Stack.Sessions.{Session, RequestId, on_stream}
use nginx_quic_stack.Stream.Buffer.{quic_stack_ok, quic_stack_server, quic_stack_parameter}
use nginx_quic_stack.Stream.Request.{Surroundings, add_on_can_write_callback}
use nginx_quic_stack.Stream.Response.Header.{write_response_header}
use nginx_quic_stack.Stream.Response.{write_response_body}
use nginx_quic_stack.Stream.State.{ServerStream}

module _ (env : Surroundings) (tokenizer : StringTokenizer) (numbers : IntReader) where
  open env use {spdy, ascii, trim_spaces}
  open spdy use {Block}

  abbrev pub Sessions : Type 0
  Sessions = List (Session (ServerStream Block))

  -- The methods of the stack.
  unfoldable pub stack_write_response_header :
      RequestId → Bytes → Bytes → Bool → Sessions → Sessions × Bool
  unfolding on_stream write_response_header
  stack_write_response_header id bytes trailers last sessions =
      on_stream id
        (write_response_header spdy ascii tokenizer numbers trim_spaces bytes trailers last) false
        sessions

  abbrev pub body_written :
      ℕ → Bytes → Bytes → ℕ → Bool → ServerStream Block → ServerStream Block × ℤ
  body_written buffered bytes trailers limit fin s =
      let w =
        write_response_body spdy ascii.to_lower_ascii trim_spaces buffered bytes trailers limit fin
          s in
      (w.0, pos w.1)

  -- `buffered` is what quiche holds of the stream's body.
  unfoldable pub stack_write_response_body :
      ℕ → RequestId → Bytes → Bytes → ℕ → Bool → Sessions → Sessions × ℤ
  unfolding on_stream write_response_body
  stack_write_response_body buffered id bytes trailers limit fin sessions =
      on_stream id (body_written buffered bytes trailers limit fin) quic_stack_server sessions

  unfoldable pub stack_add_on_can_write_callback :
      RequestId → Option ℕ → Sessions → Sessions × Unit {0}
  unfolding on_stream add_on_can_write_callback
  stack_add_on_can_write_callback id cb sessions =
      on_stream id (λ s. (add_on_can_write_callback env cb s, tt)) tt sessions

  abbrev Handler : Type 0
  Handler = Option Sessions

  abbrev refused : Handler → Handler × ℤ
  refused handler = (handler, quic_stack_parameter)

  abbrev header_code : Sessions × Bool → Handler × ℤ
  header_code (sessions, written) =
      (some sessions, if written then quic_stack_ok else quic_stack_server)

  abbrev body_code : Sessions × ℤ → Handler × ℤ
  body_code (sessions, code) = (some sessions, code)

  unfoldable pub quic_stack_write_response_header :
      Handler → Option RequestId → Option Bytes → Bytes → Bool → Handler × ℤ
  unfolding stack_write_response_header
  quic_stack_write_response_header none id bytes trailers last = refused none
  quic_stack_write_response_header (some sessions) none bytes trailers last =
      refused (some sessions)
  quic_stack_write_response_header (some sessions) (some id) none trailers last =
      refused (some sessions)
  quic_stack_write_response_header (some sessions) (some id) (some bytes) trailers last =
      if is_nil bytes
      then refused (some sessions)
      else header_code (stack_write_response_header id bytes trailers last sessions)

  unfoldable pub quic_stack_write_response_body :
      ℕ → Handler → Option RequestId → Option Bytes → Bytes → ℕ → Bool → Handler × ℤ
  unfolding stack_write_response_body
  quic_stack_write_response_body buffered none id bytes trailers limit last = refused none
  quic_stack_write_response_body buffered (some sessions) none bytes trailers limit last =
      refused (some sessions)
  quic_stack_write_response_body buffered (some sessions) (some id) none trailers limit last =
      refused (some sessions)
  quic_stack_write_response_body buffered (some sessions) (some id) (some bytes) trailers limit
        last =
      body_code (stack_write_response_body buffered id bytes trailers limit last sessions)

  abbrev callback_added : Sessions × Unit {0} → Handler
  callback_added (sessions, done) = some sessions

  unfoldable pub quic_stack_add_on_can_write_callback_once :
      Handler → Option RequestId → Option ℕ → Handler
  unfolding stack_add_on_can_write_callback
  quic_stack_add_on_can_write_callback_once none id cb = none
  quic_stack_add_on_can_write_callback_once (some sessions) none cb = some sessions
  quic_stack_add_on_can_write_callback_once (some sessions) (some id) cb =
      callback_added (stack_add_on_can_write_callback id cb sessions)
