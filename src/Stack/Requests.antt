-- ===== src/Stack/Requests.antt =====
-- How `quic_stack_read_request_body` of src/tQuicStack.cc finds the stream that it reads from. A
-- session has quiche's active streams, of which only the bodies count here.
use nginx_quic_stack.Base.{
  ℕ, ◌<◌, ◌≡◌, refl, Bool, true, false, ◌||◌, not, List, [], Option, none, some, if◌then◌else◌,
  ◌==◌, arith, take, drop,
}
use nginx_quic_stack.Base.Bytes.{Bytes}
use nginx_quic_stack.Base.Int.{ℤ}
use nginx_quic_stack.Stack.Sessions.{
  Session, RequestId, get_stream, store_stream, is_same, get_stream-store_stream, get_stream_other,
}
use nginx_quic_stack.Stream.Buffer.{
  QueuedWriteIoBuffer, Copied, read_request_body, quic_stack_server, quic_stack_parameter,
}
use nginx_quic_stack.Stream.Buffer.Queue.{IsValid, view}
use nginx_quic_stack.Stream.Buffer.Reading.{read_code, read_request_body-ReadsBody}

abbrev pub Sessions : Type 0
Sessions = List (Session QueuedWriteIoBuffer)

-- The result of a call: what stands in the caller's array, and the code. A handler is the sessions
-- of its dispatcher, or `none` where it is null; a stack without a dispatcher finds what a stack
-- without sessions finds.
pub record Answer : Type 0 where
  pub handler : Option Sessions
  pub out : Bytes
  pub code : ℤ

abbrev refused : ℤ → Option Sessions → Answer
refused code handler = record { handler = handler; out = []; code = code }

abbrev answer : RequestId → Sessions → Option (Copied × ℤ) → Option Answer
answer id sessions none = none
answer id sessions (some (c, code)) =
    some (record { handler = some (store_stream id c.buffer sessions); out = c.out; code = code })

unfoldable pub read_from : RequestId → ℕ → Option QueuedWriteIoBuffer → Sessions → Option Answer
read_from id len none sessions = some (refused quic_stack_server (some sessions))
read_from id len (some b) sessions = answer id sessions (read_request_body b len)

-- `id` and `data` may be null; `none` is a result that a loop without end does not give.
unfoldable pub quic_stack_read_request_body :
    Option Sessions → Option RequestId → Bool → ℕ → Option Answer
unfolding read_from get_stream
quic_stack_read_request_body none id has_data len = some (refused quic_stack_parameter none)
quic_stack_read_request_body (some sessions) none has_data len =
    some (refused quic_stack_parameter (some sessions))
quic_stack_read_request_body (some sessions) (some id) has_data len =
    if not has_data || len == 0
    then some (refused quic_stack_parameter (some sessions))
    else read_from id len (get_stream id sessions) sessions

-- A read from the stream whose body is `b`.
pub record Reads (id : RequestId) (len : ℕ) (b : QueuedWriteIoBuffer) (sessions : Sessions)
    (a : Answer) : Type 0 where
  pub out : a.out ≡ take len (view b)
  pub code : a.code ≡ read_code a.out (view b)
  pub after : Sessions
  pub handler : a.handler ≡ some after
  pub left :
      (c : QueuedWriteIoBuffer) × ((get_stream id after ≡ some c)
        × ((view c ≡ drop len (view b)) × IsValid c))
  pub others :
      (other : RequestId)
      → is_same id other ≡ false
      → get_stream other after ≡ get_stream other sessions

-- Where the request's session and stream are found, the stream's buffer is valid, the caller's
-- array is given and its length is positive: quic_stack_read_request_body ends; it gives the first
-- bytes pending on that stream, as many as the array holds or are there, and the code of
-- ReadRequestBody; the stream is then found with the bytes that are left, in a valid buffer, and
-- every other request finds what it found before.
pub quic_stack_read_request_body-Reads :
    (id : RequestId) (len : ℕ) (b : QueuedWriteIoBuffer) (sessions : Sessions)
    → 0 < len
    → get_stream id sessions ≡ some b
    → IsValid b
    → (a : Answer) × ((quic_stack_read_request_body (some sessions) (some id) true len ≡ some a)
        × Reads id len b sessions a)
unfolding quic_stack_read_request_body read_from
quic_stack_read_request_body-Reads id len b sessions some_len found valid =
    let (c, ran, reads) = read_request_body-ReadsBody b len valid in
    let asked : (len == 0) ≡ false = ground (arith, some_len) in
    (
      record {
        handler = some (store_stream id c.buffer sessions);
        out = c.out;
        code = read_code c.out (view b);
      },
      (
        rw (asked, found, ran) refl,
        record {
          out = reads.out;
          code = refl;
          after = store_stream id c.buffer sessions;
          handler = refl;
          left = (
            c.buffer,
            (get_stream-store_stream id b c.buffer sessions found, (reads.contents, reads.valid)),
          );
          others = λ other h. get_stream_other id other c.buffer sessions h;
        },
      ),
    )
