-- ===== src/Stream/Request/Headers.antt =====
-- `tQuicServerStream::CopyAndValidateHeaders`: the header list of HTTP/3 as an HTTP/1.1 request.
use nginx_quic_stack.Base.{
  ℕ, ◌-◌, ◌^◌, Bool, true, false, ◌&&◌, ◌||◌, not, List, [], ◌∷◌, ◌++◌, Option, none, some,
  if◌then◌else◌, is_nil, ◌==◌, leb, ltb, ◌>>=◌, zero, suc,
}
use nginx_quic_stack.Base.Bytes.{Bytes, codes, same}
use nginx_quic_stack.Base.Int.{ℤ, pos, negsuc, leb_ℤ, ltb_ℤ, pos_part}
use nginx_quic_stack.Http.Ascii.{AsciiCase}
use nginx_quic_stack.Http.RequestHeaders.{HttpRequestHeaders, set_header, to_string}
use nginx_quic_stack.Stream.Response.Text.{decimal}

-- The variables of the loop: the function's own, and the members that it writes.
pub record Gathered : Type 0 where
  pub method : Bytes
  pub path : Bytes
  pub cookies : Bytes
  pub headers : HttpRequestHeaders
  pub content_length : ℤ
  pub request_host : Bytes

-- A uint64_t as an int64_t.
abbrev pub to_int64 : ℕ → ℤ
to_int64 val = if ltb val (2 ^ 63) then pos val else negsuc (2 ^ 64 - val - 1)

-- `std::find_if(name.begin(), name.end(), ::isupper)`.
abbrev has_upper : Bytes → Bool
has_upper [] = false
has_upper (c ∷ name) = (leb b'A' c && leb c b'Z') || has_upper name

-- A byte of a string; behind the last one stands a 0.
abbrev byte_at : ℕ → Bytes → ℕ
byte_at i [] = 0
byte_at zero (c ∷ name) = c
byte_at (suc i) (c ∷ name) = byte_at i name

pub record CopiedHeaders : Type 0 where
  pub valid : Bool
  pub content_length : ℤ
  pub request_host : Bytes
  pub header_str : Bytes

module _ (ascii : AsciiCase) (string_to_uint64 : Bytes → Option ℕ) where
  pseudo_header : Bytes → Bytes → Gathered → Gathered
  pseudo_header name value g =
      if byte_at 1 name == b'm'
      then record g { method = value }
      else if byte_at 1 name == b'p'
      then record g { path = value }
      else if byte_at 1 name == b'a'
      then record g {
        headers = set_header ascii (codes "Host") value g.headers;
        request_host = value;
      }
      else g

  content_length_header : Bytes → Gathered → Option Gathered
  content_length_header value g = do
    val ← string_to_uint64 value
    some (record g {
      content_length = if ltb_ℤ g.content_length (pos 0) then to_int64 val else g.content_length;
    })

  -- One header, its name in lower case.
  gather_named : Bytes → Bytes → Gathered → Option Gathered
  unfolding pseudo_header content_length_header
  gather_named name value g =
      if same name (codes "content-length")
      then content_length_header value g
      else if same name (codes "cookie") && not (is_nil value)
      then some (record g { cookies = g.cookies ++ (value ++ codes ";") })
      else if byte_at 0 name == b':'
      then some (pseudo_header name value g)
      else some (record g { headers = set_header ascii name value g.headers })

  lower_name : Bytes → Bytes
  lower_name name = if has_upper name then ascii.to_lower_ascii name else name

  -- The loop; on an error it says so, with what it has written before.
  gather : List (Bytes × Bytes) → Gathered → Gathered × Bool
  unfolding gather_named lower_name
  gather [] g = (g, true)
  gather ((name, value) ∷ rest) g =
      if is_nil name then (g, false) else elim (gather_named (lower_name name) value g) [
        | none ↦ (g, false)
        | some g' ↦ gather rest g'
      ]

  -- What follows the loop.
  complete_headers : Gathered → HttpRequestHeaders
  complete_headers g =
      let with_cookies =
        if is_nil g.cookies
        then g.headers
        else set_header ascii (codes "cookie") g.cookies g.headers in
      let with_length =
        if leb_ℤ (pos 0) g.content_length
        then set_header ascii (codes "content-length") (decimal (pos_part g.content_length))
            with_cookies
        else with_cookies in
      set_header ascii (codes "transport-protocol") (codes "quic") with_length

  request_text : Gathered → Bytes
  unfolding complete_headers
  request_text g =
      g.method
      ++ (codes " " ++ (g.path ++ (codes " HTTP/1.1\r\n" ++ to_string (complete_headers g))))

  copied_from : Gathered × Bool → CopiedHeaders
  unfolding request_text
  copied_from (g, valid) = record {
    valid = valid;
    content_length = g.content_length;
    request_host = g.request_host;
    header_str = if valid then request_text g else [];
  }

  unfoldable pub copy_and_validate_headers : List (Bytes × Bytes) → ℤ → Bytes → CopiedHeaders
  unfolding gather copied_from
  copy_and_validate_headers header_list content_length request_host = copied_from (
      gather header_list (record {
        method = [];
        path = [];
        cookies = [];
        headers = [];
        content_length = content_length;
        request_host = request_host;
      }))
