-- ===== src/Stream/State.antt =====
-- The state of `tQuicServerStream`, and what it calls of other projects.
use nginx_quic_stack.Base.{ℕ, Bool, true, false, ◌≡◌, List, [], ◌∷◌, ◌++◌, Option, none}
use nginx_quic_stack.Base.Bytes.{Bytes}
use nginx_quic_stack.Base.Int.{ℤ, negsuc}
use nginx_quic_stack.Stream.Buffer.{QueuedWriteIoBuffer, new_buffer}
use nginx_quic_stack.Stream.Identify.{ServerIdentify}

-- `spdy::SpdyHeaderBlock` as the stream uses it: `assign` is an assignment through `operator[]`.
pub record SpdyHeaderBlock : Type 1 where
  pub Block : Type 0
  pub empty_block : Block
  pub assign : Bytes → Bytes → Block → Block
  pub append_value_or_add_header : Bytes → Bytes → Block → Block
  pub is_empty_block : Block → Bool
  pub is_empty-empty : is_empty_block empty_block ≡ true
  pub is_empty-assign : (k v : Bytes) (b : Block) → is_empty_block (assign k v b) ≡ false

-- The calls that leave the stream: of `QuicSpdyStream`, and of the server's callbacks with their
-- context and the server's context.
pub data Effect (Block : Type 0) : Type 0 where
  write_headers : Block → Bool → Effect Block
  write_or_buffer_body : Bytes → Bool → Effect Block
  write_trailers : Block → Effect Block
  request_header : Bytes → ℕ → ℕ → Effect Block
  request_body : ℕ → ℕ → Effect Block
  request_close : ℕ → ℕ → Effect Block
  can_write : ℕ → Effect Block

-- `qsi_`, which no constructor sets: it is `unset` until `OnRequestHeader` has looked a name up.
pub data ServerPointer : Type 0 where
  unset : ServerPointer
  null : ServerPointer
  points : ServerIdentify → ServerPointer

-- `can_write_cb_` is the context of a callback, or `none` for a null function. `effects` lists the
-- calls made so far, the first one first.
pub record ServerStream (Block : Type 0) : Type 0 where
  pub content_length : ℤ
  pub header_sent : Bool
  pub request_host : Bytes
  pub raw_header_str : Bytes
  pub callback_ctx : ℕ
  pub qsi : ServerPointer
  pub is_new_ok : Bool
  pub can_write_cb : Option ℕ
  pub response_headers : Block
  pub response_body : Bytes
  pub response_trailers : Block
  pub body : QueuedWriteIoBuffer
  pub effects : List (Effect Block)

-- The constructors.
abbrev pub new_stream : {Block : Type 0} → Block → ℕ → ServerStream Block
new_stream empty_block stack_ctx = record {
  content_length = negsuc 0;
  header_sent = false;
  request_host = [];
  raw_header_str = [];
  callback_ctx = stack_ctx;
  qsi = unset;
  is_new_ok = true;
  can_write_cb = none;
  response_headers = empty_block;
  response_body = [];
  response_trailers = empty_block;
  body = new_buffer;
  effects = [];
}

abbrev pub emit : {Block : Type 0} → Effect Block → ServerStream Block → ServerStream Block
emit e s = record s { effects = s.effects ++ e ∷ [] }
