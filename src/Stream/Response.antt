-- ===== src/Stream/Response.antt =====
-- The response side of src/tQuicServerStream.cc. What the caller writes is gathered, and sent as
-- headers and body when it says that it is the last.
pub mod Text
pub mod Decimal
pub mod Trailers
pub mod Sent
pub mod Header
pub mod Passed
mod Tests
use nginx_quic_stack.Base.{
  ℕ, ◌+◌, ◌-◌, Bool, true, false, ◌≡◌, ◌&&◌, ◌||◌, not, List, [], ◌∷◌, ◌++◌, Option, none, some,
  if◌then◌else◌, length, take, is_nil, ltb, leb,
}
use nginx_quic_stack.Base.Bytes.{Bytes, codes}
use nginx_quic_stack.Base.Int.{ℤ, pos}
use nginx_quic_stack.Stream.State.{
  SpdyHeaderBlock, ServerStream, Effect, write_headers, write_or_buffer_body, write_trailers, emit,
}
use Text.{decimal, set_trailers}

module _ (spdy : SpdyHeaderBlock) (to_lower_ascii trim_spaces : Bytes → Bytes) where
  open spdy use {Block, empty_block, assign, append_value_or_add_header, is_empty_block}

  unfoldable pub send_headers_and_body_and_trailers :
      Block → Bytes → Block → ServerStream Block → ServerStream Block
  send_headers_and_body_and_trailers response_headers body response_trailers s =
      let headers_fin = is_nil body && is_empty_block response_trailers in
      let s1 = emit (write_headers response_headers headers_fin) s in
      if headers_fin
      then s1
      else let body_fin = is_empty_block response_trailers in
        let s2 =
          if not (is_nil body) || body_fin
          then emit (write_or_buffer_body body body_fin) s1
          else s1 in
        if body_fin then s2 else emit (write_trailers response_trailers) s2

  unfoldable pub send_headers_and_body : Block → Bytes → ServerStream Block → ServerStream Block
  unfolding send_headers_and_body_and_trailers
  send_headers_and_body response_headers body =
      send_headers_and_body_and_trailers response_headers body empty_block

  -- The header block is moved out, which leaves it empty.
  unfoldable pub flush_response : ServerStream Block → ServerStream Block
  unfolding send_headers_and_body_and_trailers
  flush_response s =
      send_headers_and_body_and_trailers
        (assign (codes "content-length") (decimal (length s.response_body)) s.response_headers)
        s.response_body empty_block (record s { response_headers = empty_block })

  -- The names that are not passed on: `kHopHeaders`.
  abbrev pub k_hop_headers : List Bytes
  k_hop_headers =
      codes "alt-svc"
      ∷ codes "connection"
      ∷ codes "proxy-connection"
      ∷ codes "keep-alive"
      ∷ codes "proxy-authenticate"
      ∷ codes "proxy-authorization"
      ∷ codes "te"
      ∷ codes "trailer"
      ∷ codes "transfer-encoding"
      ∷ codes "upgrade"
      ∷ codes "vary"
      ∷ []

  unfoldable pub add_trailers : Bytes → ServerStream Block → ServerStream Block
  unfolding set_trailers
  add_trailers trailers s = record s {
    response_trailers = set_trailers to_lower_ascii trim_spaces assign trailers s.response_trailers;
  }

  unfoldable pub flush_if : Bool → ServerStream Block → ServerStream Block
  unfolding flush_response
  flush_if fin s = if fin then flush_response s else s

  -- How much of the body is taken; `buffered` is `BufferedDataBytes()`.
  unfoldable pub to_write_size : ℕ → ℕ → ℕ → ℕ
  to_write_size len limit buffered =
      let room = if leb limit buffered then 0 else limit - buffered in
      if ltb 0 limit then (if ltb len room then len else room) else len

  -- `data` has `len` bytes; the result is the number of bytes taken.
  unfoldable pub write_response_body :
      ℕ → Bytes → Bytes → ℕ → Bool → ServerStream Block → ServerStream Block × ℕ
  unfolding add_trailers flush_if to_write_size
  write_response_body buffered bytes trailers limit fin s =
      let n = to_write_size (length bytes) limit buffered in
      let s1 = record s { response_body = s.response_body ++ take n bytes } in
      (flush_if fin (add_trailers trailers s1), n)
