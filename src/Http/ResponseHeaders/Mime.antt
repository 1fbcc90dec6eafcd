-- ===== src/Http/ResponseHeaders/Mime.antt =====
-- The type and the character set that the content-type headers of a response give.
use nginx_quic_stack.Base.{Bool, false, not, List, [], ◌∷◌, none, is_nil}
use nginx_quic_stack.Base.Bytes.{Bytes, codes}
use nginx_quic_stack.Http.Ascii.{AsciiCase}
use nginx_quic_stack.Http.ContentType.{ContentType, parse_content_type}
use nginx_quic_stack.Http.ResponseHeaders.{HttpResponseHeaders}
use nginx_quic_stack.Http.ResponseHeaders.Lookup.{all_values}

module _ (ascii : AsciiCase) where
  -- The loop over the values, each read into what the earlier ones gave.
  abbrev pub content_types : List Bytes → ContentType → ContentType
  content_types [] out = out
  content_types (value ∷ values) out = content_types values (parse_content_type ascii value out)

  unfoldable pub get_mime_type_and_charset : HttpResponseHeaders → Bytes × Bytes
  unfolding all_values parse_content_type
  get_mime_type_and_charset h =
      let out =
        content_types (all_values ascii (codes "content-type") h)
          (record { mime_type = []; charset = []; had_charset = false; type_boundary = none }) in
      (out.mime_type, out.charset)

  unfoldable pub get_mime_type : HttpResponseHeaders → Bool × Bytes
  unfolding get_mime_type_and_charset
  get_mime_type h =
      let mime_type = (get_mime_type_and_charset h).0 in (not (is_nil mime_type), mime_type)

  unfoldable pub get_charset : HttpResponseHeaders → Bool × Bytes
  unfolding get_mime_type_and_charset
  get_charset h = let charset = (get_mime_type_and_charset h).1 in (not (is_nil charset), charset)
