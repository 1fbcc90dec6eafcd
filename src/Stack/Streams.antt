-- ===== src/Stack/Streams.antt =====
-- How the streams of a session come and go: the functions of src/tQuicServerSession.cc that make
-- streams, and CloseStream of src/tQuicStack.cc. Whether quiche allows a new stream, the number that
-- it gives, and what it does with a closed one, are arguments.
use nginx_quic_stack.Base.{ℕ, Bool, List, [], ◌∷◌, Option, none, some, if◌then◌else◌, ◌==◌, is_nil}
use nginx_quic_stack.Base.Bytes.{same}
use nginx_quic_stack.Stack.Sessions.{Session, RequestId}
use nginx_quic_stack.Stream.State.{SpdyHeaderBlock, ServerStream, new_stream}

module _ (spdy : SpdyHeaderBlock) (stack_ctx : ℕ) where
  open spdy use {Block, empty_block}

  -- A new stream of the session under a number.
  abbrev activate_stream : ℕ → Session (ServerStream Block) → Session (ServerStream Block)
  activate_stream id session = record session {
    streams = λ k. if k == id then some (new_stream empty_block stack_ctx) else session.streams k;
  }

  -- The number of the stream that is made, or `none` for a null pointer, and the session.
  unfoldable pub create_incoming_stream :
      Bool → ℕ → Session (ServerStream Block) → Option ℕ × Session (ServerStream Block)
  create_incoming_stream should_create id session =
      if should_create then (some id, activate_stream id session) else (none, session)

  unfoldable pub create_incoming_pending_stream :
      ℕ → Session (ServerStream Block) → Option ℕ × Session (ServerStream Block)
  create_incoming_pending_stream pending_id session =
      (some pending_id, activate_stream pending_id session)

  unfoldable pub create_outgoing_bidirectional_stream :
      Session (ServerStream Block) → Option ℕ × Session (ServerStream Block)
  create_outgoing_bidirectional_stream session = (none, session)

  unfoldable pub create_outgoing_unidirectional_stream :
      Bool → ℕ → Session (ServerStream Block) → Option ℕ × Session (ServerStream Block)
  create_outgoing_unidirectional_stream should_create next_id session =
      if should_create then (some next_id, activate_stream next_id session) else (none, session)

module _ {A : Type 0} where
  -- `closed` is what OnStreamClosed makes of the session.
  unfoldable pub close_stream :
      (ℕ → Session A → Session A) → RequestId → List (Session A) → List (Session A)
  close_stream closed id [] = []
  close_stream closed id (s ∷ sessions) =
      let rest = close_stream closed id sessions in
      if is_nil id.connection_data
      then s ∷ sessions
      else if same s.connection_id id.connection_data
      then closed id.stream_id s ∷ sessions
      else s ∷ rest

  unfoldable pub quic_stack_close_stream :
      (ℕ → Session A → Session A)
      → Option RequestId
      → Option (List (Session A))
      → Option (List (Session A))
  unfolding close_stream
  quic_stack_close_stream closed id none = none
  quic_stack_close_stream closed none (some sessions) = some sessions
  quic_stack_close_stream closed (some id) (some sessions) = some (close_stream closed id sessions)
