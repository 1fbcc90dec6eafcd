-- ===== src/Stream/Request.antt =====
-- The request side of src/tQuicServerStream.cc: the callbacks of the server, and the events of the
-- connection that lead to them. What other projects decide comes in as arguments: how header
-- values are read as numbers, what the sequencer holds, whether the write side is closed. `none`
-- as a result of a handler means that it has read `qsi_` before anything set it.
pub mod Headers
pub mod Calm
pub mod Lifecycle
pub mod Faults
mod Tests
use nginx_quic_stack.Base.{
  ℕ, ◌-◌, Bool, true, false, ◌&&◌, ◌||◌, not, List, [], ◌∷◌, ◌++◌, Option, none, some,
  if◌then◌else◌, length, take, is_nil, ◌==◌, leb, ◌>>=◌,
}
use nginx_quic_stack.Base.Bytes.{Bytes, codes}
use nginx_quic_stack.Base.Int.{ℤ, pos, leb_ℤ, ltb_ℤ, eqb_ℤ}
use nginx_quic_stack.Http.Ascii.{AsciiCase}
use nginx_quic_stack.Http.RequestHeaders.{set_header, to_string}
use nginx_quic_stack.Stream.Buffer.{append}
use nginx_quic_stack.Stream.Identify.{ServerIdentify, get_server_identify_by_name}
use nginx_quic_stack.Stream.Response.{send_headers_and_body}
use nginx_quic_stack.Stream.Response.Text.{decimal}
use nginx_quic_stack.Stream.State.{
  SpdyHeaderBlock, ServerStream, Effect, ServerPointer, unset, null, points, request_header,
  request_body, request_close, can_write, emit,
}
use Headers.{CopiedHeaders, copy_and_validate_headers}

-- The callbacks of `tQuicRequestCallback`; `none` is a null function. The first returns its code
-- and the context that it has stored.
pub record RequestCallback : Type 0 where
  pub on_request_header_cb : Option (Bytes → ℕ → ℕ → ℤ × ℕ)
  pub on_request_body_cb : Option (ℕ → ℕ → ℤ)
  pub on_request_close_cb : Bool

-- What the stream is built with, or calls of other projects.
pub record Surroundings : Type 1 where
  pub spdy : SpdyHeaderBlock
  pub ascii : AsciiCase
  pub trim_spaces : Bytes → Bytes
  pub uint64_to_string : ℕ → Bytes
  pub string_to_uint64 : Bytes → Option ℕ
  pub match_pattern : Bytes → Bytes → Bool
  pub callback : RequestCallback
  pub servers : List ServerIdentify

abbrev pub k_error_response_body : Bytes
k_error_response_body = codes "bad"

abbrev pub k403_response_body : Bytes
k403_response_body =
    codes
      "<html>\r\n<head><title>403 Forbidden</title></head>\r\n<body>\r\n<center><h1>403 Forbidden</h1></center>\r\n"

module _ (env : Surroundings) where
  open env use {
    spdy, ascii, trim_spaces, uint64_to_string, string_to_uint64, match_pattern, callback, servers,
  }
  open spdy use {Block, empty_block, assign}

  -- A code of 0 stands for every code that is not positive; the callers pass 0 and 403.
  unfoldable pub send_error_response_internal : ℕ → Bytes → ServerStream Block → ServerStream Block
  send_error_response_internal resp_code resp_body s =
      let status = if resp_code == 0 then codes "500" else uint64_to_string resp_code in
      let headers = assign (codes ":status") status empty_block in
      send_headers_and_body spdy ascii.to_lower_ascii trim_spaces
        (assign (codes "content-length") (uint64_to_string (length resp_body)) headers) resp_body s

  abbrev pub send_error_response : ℕ → ServerStream Block → ServerStream Block
  send_error_response resp_code = send_error_response_internal resp_code k_error_response_body

  abbrev pub refuse : ServerStream Block → ServerStream Block
  refuse s = record s { is_new_ok = false }

  -- The answer of the callback: every code but `QUIC_STACK_OK` refuses the request.
  after_header : ℤ × ℕ → ServerStream Block → ServerStream Block
  after_header (rc, ctx) s =
      let s1 = record s { callback_ctx = ctx } in
      if eqb_ℤ rc (pos 0) then s1 else refuse (send_error_response 0 s1)

  header_to :
      (Bytes → ℕ → ℕ → ℤ × ℕ) → Option ServerIdentify → ServerStream Block → ServerStream Block
  unfolding after_header
  header_to cb none s =
      refuse (send_error_response_internal 403 k403_response_body (record s { qsi = null }))
  header_to cb (some server) s = after_header (cb s.raw_header_str s.callback_ctx server.ctx) (
      emit (request_header s.raw_header_str s.callback_ctx server.ctx)
        (record s { qsi = points server }))

  header_with : Option (Bytes → ℕ → ℕ → ℤ × ℕ) → ServerStream Block → ServerStream Block
  unfolding header_to
  header_with none s = s
  header_with (some cb) s =
      if not (is_nil s.request_host)
      then header_to cb (get_server_identify_by_name match_pattern s.request_host servers) s
      else s

  unfoldable pub on_request_header : ServerStream Block → ServerStream Block
  unfolding header_with
  on_request_header = header_with callback.on_request_header_cb

  body_to : Option (ℕ → ℕ → ℤ) → ServerPointer → ServerStream Block → Option (ServerStream Block)
  body_to cb unset s = none
  body_to cb null s = some s
  body_to none (points server) s = some s
  body_to (some cb) (points server) s =
      let s1 = emit (request_body s.callback_ctx server.ctx) s in
      some (
        if ltb_ℤ (cb s.callback_ctx server.ctx) (pos 0)
        then refuse (send_error_response 0 s1)
        else s1)

  unfoldable pub on_request_body : ServerStream Block → Option (ServerStream Block)
  unfolding body_to
  on_request_body s = if s.is_new_ok then body_to callback.on_request_body_cb s.qsi s else some s

  close_to : ServerPointer → ServerStream Block → Option (ServerStream Block)
  close_to unset s = none
  close_to null s = some s
  close_to (points server) s =
      some (
        if callback.on_request_close_cb
        then emit (request_close s.callback_ctx server.ctx) s
        else s)

  unfoldable pub on_close : ServerStream Block → Option (ServerStream Block)
  unfolding close_to
  on_close s = do s1 ← if s.is_new_ok then close_to s.qsi s else some s; some (refuse s1)

  unfoldable pub on_initial_headers_complete :
      Bool → List (Bytes × Bytes) → ServerStream Block → ServerStream Block
  on_initial_headers_complete fin header_list s =
      let copied =
        copy_and_validate_headers ascii string_to_uint64 header_list s.content_length
          s.request_host in
      let s1 = record s {
        content_length = copied.content_length;
        request_host = copied.request_host;
        raw_header_str = copied.header_str;
      } in
      let s2 = if copied.valid then s1 else send_error_response 0 s1 in
      if fin then record (on_request_header s2) { raw_header_str = []; header_sent = true } else s2

  unfoldable pub on_trailing_headers_complete : ServerStream Block → ServerStream Block
  on_trailing_headers_complete s = send_error_response 0 s

  -- The loop of `OnBodyAvailable` over the regions that the sequencer holds; it says whether it
  -- came to their end.
  take_regions : List Bytes → ServerStream Block → ServerStream Block × Bool
  take_regions [] s = (s, true)
  take_regions (region ∷ regions) s =
      let (body, taken) = append s.body region in
      let s1 = record s { body = body } in
      let more = take_regions regions s1 in
      if not taken
      then (send_error_response 0 s, false)
      else if leb_ℤ (pos 0) s.content_length && ltb_ℤ s.content_length (pos body.total_size)
      then (send_error_response 0 s1, false)
      else more

  -- A request with a body of unknown length gets a "content-length" in the place of the empty line.
  add_content_length : ServerStream Block → ServerStream Block
  add_content_length s =
      if ltb_ℤ s.content_length (pos 0)
      then record s {
        content_length = pos s.body.total_size;
        raw_header_str =
            (if leb 2 (length s.raw_header_str)
              then take (length s.raw_header_str - 2) s.raw_header_str
              else s.raw_header_str)
            ++ to_string (set_header ascii (codes "content-length") (decimal s.body.total_size) []);
      }
      else s

  body_complete : ServerStream Block → Option (ServerStream Block)
  unfolding add_content_length
  body_complete s =
      let s1 = add_content_length s in
      on_request_body
        (if s1.header_sent then s1 else record (on_request_header s1) { header_sent = true })

  unfoldable pub on_body_available :
      List Bytes → Bool → Bool → ServerStream Block → Option (ServerStream Block)
  unfolding take_regions body_complete
  on_body_available regions sequencer_closed write_closed s =
      let (s1, all_taken) = take_regions regions s in
      if not all_taken || not sequencer_closed || write_closed then some s1 else body_complete s1

  call_can_write : Option ℕ → ServerStream Block → ServerStream Block
  call_can_write none s = s
  call_can_write (some ctx) s = emit (can_write ctx) s

  unfoldable pub on_can_write_new_data : ServerStream Block → ServerStream Block
  unfolding call_can_write
  on_can_write_new_data s = call_can_write s.can_write_cb (record s { can_write_cb = none })

  unfoldable pub add_on_can_write_callback : Option ℕ → ServerStream Block → ServerStream Block
  add_on_can_write_callback cb s = record s { can_write_cb = cb }
