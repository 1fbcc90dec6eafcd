-- ===== src/Http/ContentType/Tests.antt =====
-- Content types at concrete inputs.
use nginx_quic_stack.Base.{true, false, [], ◌∷◌, some, ◌≡◌, refl}
use nginx_quic_stack.Base.Bytes.{codes, same}
use nginx_quic_stack.Concrete.{ascii_case}
use nginx_quic_stack.Http.ContentType.RoundTrip.{
  no_content_type, print_content_type, parse_content_type-print,
}
use nginx_quic_stack.Http.ContentType.{parse_content_type}
use nginx_quic_stack.Http.Pieces.{trim_lws}
use nginx_quic_stack.Http.Parameters.{Printed}
use nginx_quic_stack.Http.Util.{is_token, is_token_char}

abbrev utf_8 : Printed
utf_8 = record { name = codes "Charset"; value = codes "UTF-8"; in_quotes = false }

abbrev quoted_boundary : Printed
quoted_boundary = record { name = codes "boundary"; value = codes "a;\"b"; in_quotes = true }

parse_content_type-print_example :
    parse_content_type ascii_case
      (print_content_type (codes "Text/HTML") (quoted_boundary ∷ utf_8 ∷ []))
      no_content_type
    ≡ record {
      mime_type = codes "text/html";
      charset = codes "utf-8";
      had_charset = true;
      type_boundary = some (codes "a;\"b");
    }
unfolding is_token is_token_char same trim_lws
parse_content_type-print_example =
    parse_content_type-print ascii_case (codes "Text/HTML") (quoted_boundary ∷ utf_8 ∷ []) refl
      ((refl, λ h. cc), ((refl, λ h. refl), tt))

no_slash : parse_content_type ascii_case (codes "text; charset=a") no_content_type ≡ no_content_type
unfolding parse_content_type same
no_slash = refl
