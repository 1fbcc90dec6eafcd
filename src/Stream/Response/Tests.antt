-- ===== src/Stream/Response/Tests.antt =====
-- Responses at concrete inputs.
use nginx_quic_stack.Base.{arith, ◌≡◌, refl, true, false, List, [], ◌∷◌, ◌++◌}
use nginx_quic_stack.Base.Bytes.{Bytes, codes, same}
use nginx_quic_stack.Concrete.{ascii_case, header_list_block}
use nginx_quic_stack.Concrete.Tokenizer.{one_pass_tokenizer, digit_reader}
use nginx_quic_stack.Http.Util.{is_token}
use nginx_quic_stack.Http.ResponseHeaders.Created.{sent_head, AllLines}
use nginx_quic_stack.Http.ResponseHeaders.Printed.{Field}
use nginx_quic_stack.Stream.Response.Passed.{Writes, write_response_header-Writes}
use nginx_quic_stack.Stream.Response.Header.{write_response_header}
use nginx_quic_stack.Stream.State.{ServerStream, new_stream}
use nginx_quic_stack.Stream.Response.{send_headers_and_body_and_trailers, write_response_body}
use nginx_quic_stack.Stream.Response.Text.{split_string}
use nginx_quic_stack.Stream.Response.Trailers.{unsplit, closed, AllLack, unsplit-split_string}
use nginx_quic_stack.Stream.Response.Sent.{
  Sends, Write, Takes, write, respond, flushed, taken, send_headers_and_body_and_trailers-Sends,
  write_response_body-Takes, respond_lem,
}

abbrev lower : Bytes → Bytes
lower = ascii_case.to_lower_ascii

abbrev keep : Bytes → Bytes
keep b = b

abbrev fresh : ServerStream (List (Bytes × Bytes))
fresh = new_stream [] 1

send_headers_and_body_and_trailers-Sends_example :
    Sends header_list_block lower keep
      ((codes ":status", codes "200") ∷ [])
      (codes "body")
      []
      fresh
      (send_headers_and_body_and_trailers header_list_block lower keep
        ((codes ":status", codes "200") ∷ [])
        (codes "body")
        []
        fresh)
send_headers_and_body_and_trailers-Sends_example =
    send_headers_and_body_and_trailers-Sends header_list_block lower keep
      ((codes ":status", codes "200") ∷ []) (codes "body") [] fresh

abbrev first_write : Write header_list_block lower keep
first_write = record { buffered = 3; bytes = codes "abcde"; trailers = codes "x:y"; limit = 5 }

abbrev last_write : Write header_list_block lower keep
last_write = record { buffered = 0; bytes = codes "fg"; trailers = []; limit = 0 }

write_response_body-Takes_example :
    Takes header_list_block lower keep true first_write fresh
      (write header_list_block lower keep true first_write fresh).0
      (write header_list_block lower keep true first_write fresh).1
write_response_body-Takes_example =
    write_response_body-Takes header_list_block lower keep true first_write fresh

respond_lem_example :
    (respond header_list_block lower keep (first_write ∷ []) last_write fresh).effects
    ≡ []
      ++ flushed header_list_block lower keep []
          ([] ++ taken header_list_block lower keep (first_write ∷ last_write ∷ []))
respond_lem_example = respond_lem header_list_block lower keep (first_write ∷ []) last_write fresh

unsplit-split_string_example :
    (unsplit b'\n' (split_string (codes "a:b\n\nc:d") b'\n')
      ≡ closed b'\n' true (codes "a:b\n\nc:d"))
    × AllLack b'\n' (split_string (codes "a:b\n\nc:d") b'\n')
unsplit-split_string_example = unsplit-split_string (codes "a:b\n\nc:d") b'\n'

-- Two of five bytes are taken where three of the five that may wait are waiting.
partial_write : (write header_list_block lower keep false first_write fresh).1 ≡ 2
unfolding write_response_body
partial_write = refl

abbrev response_fields : List Field
response_fields =
    record { name = codes "Vary"; value = codes "a" }
    ∷ record { name = codes "ETag"; value = codes "x, y" }
    ∷ []

abbrev response_head : Bytes
response_head = sent_head (codes "HTTP/1.1 200") response_fields

response_headers-AllLines : AllLines response_fields
unfolding is_token
response_headers-AllLines = (
  (record { name = refl; no_nul = refl; start = refl; end = refl }, refl),
  ((record { name = refl; no_nul = refl; start = refl; end = refl }, refl), tt),
)

write_response_header-Writes_example :
    Writes header_list_block ascii_case one_pass_tokenizer digit_reader keep 200 response_fields
      true fresh
      (write_response_header header_list_block ascii_case one_pass_tokenizer digit_reader keep
        response_head [] true fresh)
unfolding same is_token
write_response_header-Writes_example =
    write_response_header-Writes header_list_block ascii_case one_pass_tokenizer digit_reader keep
      (codes "HTTP/1.1") (codes "200") response_fields 200 refl refl refl refl refl refl
      (omega arith) response_headers-AllLines (omega arith) true [] fresh
