-- ===== src/Stack/Isolated.antt =====
-- Calls for many requests, in any order: what each does to the streams.
use nginx_quic_stack.Base.{
  ℕ, ◌≡◌, refl, ap, ◌∙◌, Bool, false, List, [], ◌∷◌, Option, some, if◌then◌else◌, is_nil, arith,
}
use nginx_quic_stack.Base.Bytes.{Bytes}
use nginx_quic_stack.Http.Tokens.{StringTokenizer, IntReader}
use nginx_quic_stack.Stack.Responses.{
  Sessions, body_written, stack_write_response_header, stack_write_response_body,
  stack_add_on_can_write_callback, quic_stack_write_response_header, quic_stack_write_response_body,
  quic_stack_add_on_can_write_callback_once,
}
use nginx_quic_stack.Stack.Sessions.{RequestId, get_stream, is_same, get_stream-on_stream}
use nginx_quic_stack.Stream.Request.{Surroundings, add_on_can_write_callback}
use nginx_quic_stack.Stream.Response.Header.{write_response_header}
use nginx_quic_stack.Stream.State.{ServerStream}

-- A call with its arguments: data and its trailers, a limit, and whether it is the last.
pub data Call : Type 0 where
  write_header : Bytes → Bytes → Bool → Call
  write_body : ℕ → Bytes → Bytes → ℕ → Bool → Call
  add_callback : Option ℕ → Call

module _ (env : Surroundings) (tokenizer : StringTokenizer) (numbers : IntReader) where
  open env use {spdy, ascii, trim_spaces}
  open spdy use {Block}

  abbrev run_call :
      RequestId
      → Call
      → Option (Sessions env tokenizer numbers)
      → Option (Sessions env tokenizer numbers)
  run_call id (write_header bytes trailers last) handler =
      (quic_stack_write_response_header env tokenizer numbers handler (some id) (some bytes)
        trailers last).0
  run_call id (write_body buffered bytes trailers limit last) handler =
      (quic_stack_write_response_body env tokenizer numbers buffered handler (some id) (some bytes)
        trailers limit last).0
  run_call id (add_callback cb) handler =
      quic_stack_add_on_can_write_callback_once env tokenizer numbers handler (some id) cb

  unfoldable pub run_calls :
      List (RequestId × Call)
      → Option (Sessions env tokenizer numbers)
      → Option (Sessions env tokenizer numbers)
  run_calls [] handler = handler
  run_calls ((id, call) ∷ calls) handler = run_calls calls (run_call id call handler)

  -- What a call does to its own stream; a head without bytes is refused before it comes to it.
  abbrev apply_call : Call → ServerStream Block → ServerStream Block
  apply_call (write_header bytes trailers last) s =
      if is_nil bytes
      then s
      else (write_response_header spdy ascii tokenizer numbers trim_spaces bytes trailers last s).0
  apply_call (write_body buffered bytes trailers limit last) s =
      (body_written env tokenizer numbers buffered bytes trailers limit last s).0
  apply_call (add_callback cb) s = add_on_can_write_callback env cb s

  -- The calls for one request alone, on its stream.
  abbrev pub apply_own :
      RequestId → List (RequestId × Call) → ServerStream Block → ServerStream Block
  apply_own id [] s = s
  apply_own id ((other, call) ∷ calls) s =
      apply_own id calls (if is_same other id then apply_call call s else s)

  get_stream-run_call :
      (id other : RequestId) (call : Call) (sessions : Sessions env tokenizer numbers)
      → (s : ServerStream Block) → get_stream id sessions ≡ some s
      → (after : Sessions env tokenizer numbers) × (run_call other call (some sessions)
          ≡ some after)
        × (get_stream id after ≡ some (if is_same other id then apply_call call s else s))
  unfolding quic_stack_write_response_header quic_stack_write_response_body
      quic_stack_add_on_can_write_callback_once stack_write_response_header
      stack_write_response_body stack_add_on_can_write_callback
  get_stream-run_call id other (write_header [] trailers last) sessions s found =
      (sessions, refl, found ∙ ground arith)
  get_stream-run_call id other (write_header (c ∷ bytes) trailers last) sessions s found = (
    _,
    refl,
    get_stream-on_stream other id
        (write_response_header spdy ascii tokenizer numbers trim_spaces (c ∷ bytes) trailers last)
        false sessions s found,
  )
  get_stream-run_call id other (write_body buffered bytes trailers limit last) sessions s found =
      (_, refl, get_stream-on_stream other id _ _ sessions s found)
  get_stream-run_call id other (add_callback cb) sessions s found =
      (_, refl, get_stream-on_stream other id _ _ sessions s found)

  -- For every sequence of calls that write heads and bodies and add callbacks, for whatever
  -- requests, and every request whose stream is found at first: at the end the stream is found,
  -- and it is what the calls for that request alone, in their order, make of it.
  pub run_calls-apply_own :
      (id : RequestId) (calls : List (RequestId × Call)) (sessions : Sessions env tokenizer numbers)
      → (s : ServerStream Block) → get_stream id sessions ≡ some s
      → (after : Sessions env tokenizer numbers) × (run_calls calls (some sessions) ≡ some after)
        × (get_stream id after ≡ some (apply_own id calls s))
  unfolding run_calls
  run_calls-apply_own id [] sessions s found = (sessions, refl, found)
  run_calls-apply_own id ((other, call) ∷ calls) sessions s found =
      let (next, ran, there) = get_stream-run_call id other call sessions s found in
      let own = if is_same other id then apply_call call s else s in
      let (after, rest, at_end) = run_calls-apply_own id calls next own there in
      (after, ap (run_calls calls) ran ∙ rest, at_end)
