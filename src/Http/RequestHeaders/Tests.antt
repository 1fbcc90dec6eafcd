-- ===== src/Http/RequestHeaders/Tests.antt =====
-- Request headers at concrete inputs.
use nginx_quic_stack.Base.{◌≡◌, refl, [], ◌∷◌}
use nginx_quic_stack.Base.Bytes.{codes, same}
use nginx_quic_stack.Concrete.{ascii_case}
use nginx_quic_stack.Http.RequestHeaders.{HttpRequestHeaders, find_header, get_header}
use nginx_quic_stack.Concrete.Splitter.{crlf_splitter}
use nginx_quic_stack.Http.Util.{is_token, is_valid_header_value}
use nginx_quic_stack.Http.RequestHeaders.{to_string}
use nginx_quic_stack.Http.RequestHeaders.FromString.{add_headers_from_string}
use nginx_quic_stack.Http.RequestHeaders.RoundTrip.{AllPrintable, add_headers_from_string-to_string}
use nginx_quic_stack.Http.RequestHeaders.Laws.{Unique}

abbrev two_headers : HttpRequestHeaders
two_headers =
    record { key = codes "Host"; value = codes "a" }
    ∷ record { key = codes "te"; value = codes "b" }
    ∷ []

two_headers-Unique : Unique ascii_case two_headers
unfolding get_header find_header same
two_headers-Unique = (refl, (refl, tt))

two_headers-AllPrintable : AllPrintable two_headers
unfolding is_token is_valid_header_value
two_headers-AllPrintable = (
  record { name = refl; valid = refl; trimmed = refl },
  (record { name = refl; valid = refl; trimmed = refl }, tt),
)

add_headers_from_string-to_string_example :
    add_headers_from_string ascii_case crlf_splitter (to_string two_headers) [] ≡ two_headers
add_headers_from_string-to_string_example =
    add_headers_from_string-to_string ascii_case crlf_splitter two_headers two_headers-AllPrintable
      two_headers-Unique
