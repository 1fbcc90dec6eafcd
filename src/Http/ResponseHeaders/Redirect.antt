-- ===== src/Http/ResponseHeaders/Redirect.antt =====
-- Redirects, and the headers of a part of a response.
use nginx_quic_stack.Base.{
  ℕ, ◌||◌, Bool, not, List, [], ◌∷◌, ◌++◌, Option, none, some, if◌then◌else◌, ◌==◌, ◌>>=◌,
}
use nginx_quic_stack.Base.Bytes.{Bytes, codes}
use nginx_quic_stack.Base.Int.{ℤ, pos, ◌+ℤ◌, ◌-ℤ◌}
use nginx_quic_stack.Http.Ascii.{AsciiCase}
use nginx_quic_stack.Http.ByteRange.Defs.{HttpByteRange}
use nginx_quic_stack.Http.Pieces.{text_of}
use nginx_quic_stack.Http.Tokens.{StringTokenizer, IntReader}
use nginx_quic_stack.Http.ResponseHeaders.{ParsedHeader, is_continuation, HttpResponseHeaders}
use nginx_quic_stack.Http.ResponseHeaders.Edit.{add_header, remove_header, replace_status_line}
use nginx_quic_stack.Http.ResponseHeaders.Lookup.{is_redirect_response_code}
use nginx_quic_stack.Net.Escape.{escape_non_ascii}
use nginx_quic_stack.Stream.Response.Text.{decimal_int}

module _ (ascii : AsciiCase) where
  -- The first location header with a value; continuations have no name.
  unfoldable pub location_in : List ParsedHeader → Option Bytes
  unfolding is_continuation
  location_in [] = none
  location_in (h ∷ headers) =
      let later = location_in headers in
      if is_continuation h
        || not (ascii.equals_case_insensitive_ascii (codes "location") (text_of h.name))
      then later
      else if h.value.size == 0
      then later
      else some (text_of h.value)

  -- The target, where the response is a redirect.
  unfoldable pub is_redirect : (ℕ → Bool) → HttpResponseHeaders → Option Bytes
  unfolding location_in is_redirect_response_code escape_non_ascii
  is_redirect is_hex_digit h =
      if is_redirect_response_code h.response_code
      then (location_in h.parsed >>= λ location. some (escape_non_ascii is_hex_digit location))
      else none

  module _ (tokenizer : StringTokenizer) (numbers : IntReader) where
    abbrev with_status : Bool → HttpResponseHeaders → Option HttpResponseHeaders
    with_status replace h =
        if replace
        then replace_status_line ascii tokenizer numbers (codes "HTTP/1.1 206 Partial Content") h
        else some h

    unfoldable pub update_with_new_range :
        HttpByteRange → ℤ → Bool → HttpResponseHeaders → Option HttpResponseHeaders
    unfolding add_header remove_header replace_status_line decimal_int
    update_with_new_range byte_range resource_size replace h =
        let removed =
          remove_header ascii tokenizer numbers (codes "Content-Range")
            (remove_header ascii tokenizer numbers (codes "Content-Length") h) in
        let start = byte_range.first_byte_position in
        let end = byte_range.last_byte_position in
        let range_len = end -ℤ start +ℤ pos 1 in
        let range =
          codes "bytes "
          ++ (decimal_int start ++ b'-' ∷ (decimal_int end ++ b'/' ∷ decimal_int resource_size)) in
        with_status replace removed >>= λ h1. some (
          add_header ascii tokenizer numbers (codes "Content-Length") (decimal_int range_len)
            (add_header ascii tokenizer numbers (codes "Content-Range") range h1))
