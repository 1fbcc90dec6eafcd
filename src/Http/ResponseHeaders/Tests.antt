-- ===== src/Http/ResponseHeaders/Tests.antt =====
-- Runs of the operations of response headers, and the theorems at concrete heads.
use nginx_quic_stack.Base.{◌*◌, true, List, [], ◌∷◌, length, some, ◌≡◌, refl, arith}
use nginx_quic_stack.Base.Bytes.{Bytes, codes, same}
use nginx_quic_stack.Http.Pieces.{find_char, trim_lws}
use nginx_quic_stack.Http.Util.{is_token, is_non_coalescing_header}
use nginx_quic_stack.Http.Version.{version}
use nginx_quic_stack.Base.Int.{pos, pos_part}
use nginx_quic_stack.Concrete.{ascii_case}
use nginx_quic_stack.Concrete.Tokenizer.{
  tokens_in, commas, one_pass_tokenizer, digit_reader, number_from,
}
use nginx_quic_stack.Http.ResponseHeaders.{HttpResponseHeaders, parse, try_to_create}
use nginx_quic_stack.Http.ResponseHeaders.Lookup.{
  header_values, header_lines, get_status_line, get_normalized_header,
}
use nginx_quic_stack.Http.ResponseHeaders.Printed.{Field, AllFields}
use nginx_quic_stack.Http.ResponseHeaders.Created.{sent_head, starts_http, try_to_create-Represents}
use nginx_quic_stack.Http.Converted.{convert_headers_back_to_http_response-assemble_raw_headers}
use nginx_quic_stack.Http.Util.Assemble.{
  assemble_raw_headers, convert_headers_back_to_http_response,
}
use nginx_quic_stack.Http.ResponseHeaders.Freshness.{
  TimeUnits, validation_none, validation_asynchronous, requires_validation,
}
use nginx_quic_stack.Http.ResponseHeaders.Lines.{pairs, header_lines-Represents}
use nginx_quic_stack.Http.ResponseHeaders.Represents.{head, Represents, parse-Represents}
use nginx_quic_stack.Http.ResponseHeaders.Edits.{
  Edit, add, set, remove, remove_line, replace_status, update_with, AllEdits, edits, edits_fields,
  edits-Represents,
}

abbrev fields : List Field
fields =
    record { name = codes "Vary"; value = codes "a, b" }
    ∷ record { name = codes "Date"; value = codes "x, y" }
    ∷ record { name = codes "vary"; value = [] }
    ∷ []

abbrev status : Bytes
status = codes "HTTP/1.1 200  OK "

abbrev parsed_head : HttpResponseHeaders
parsed_head = parse ascii_case one_pass_tokenizer digit_reader (head status fields)

fields-AllFields : AllFields fields
unfolding is_token
fields-AllFields = (
  record { name = refl; no_nul = refl; start = refl; end = refl },
  (
    record { name = refl; no_nul = refl; start = refl; end = refl },
    (record { name = refl; no_nul = refl; start = refl; end = refl }, tt),
  ),
)

status_text : get_status_line parsed_head ≡ codes "HTTP/1.1 200 OK"
unfolding get_status_line parse same find_char version
status_text = refl

vary_values :
    header_values ascii_case 9 (codes "VARY") true parsed_head.parsed
    ≡ codes "a" ∷ codes "b" ∷ [] ∷ []
unfolding header_values parse tokens_in commas same find_char version is_token trim_lws
    is_non_coalescing_header
vary_values = refl

vary_normalized :
    get_normalized_header ascii_case (codes "vary") parsed_head ≡ (true, codes "a, b, ")
unfolding get_normalized_header parse tokens_in commas same find_char version is_token trim_lws
    is_non_coalescing_header
vary_normalized = refl

-- A status code with a reason behind it is no number up to its end.
code_read : parsed_head.response_code ≡ pos 0
unfolding parse
code_read = refl

head_entries : Represents parsed_head fields
head_entries =
    parse-Represents ascii_case one_pass_tokenizer digit_reader status fields refl fields-AllFields

header_lines-Represents_example :
    header_lines (length parsed_head.parsed) parsed_head.parsed ≡ pairs fields
header_lines-Represents_example = header_lines-Represents parsed_head fields head_entries

status-starts_http : starts_http ascii_case status ≡ true
unfolding same
status-starts_http = refl

try_to_create-Represents_example :
    (h : HttpResponseHeaders) × (try_to_create ascii_case one_pass_tokenizer digit_reader
        (sent_head status fields)
      ≡ some h)
    × Represents h fields
try_to_create-Represents_example =
    try_to_create-Represents ascii_case one_pass_tokenizer digit_reader status fields
      status-starts_http refl
      (
        (fields-AllFields.0, refl),
        ((fields-AllFields.1.0, refl), ((fields-AllFields.1.1.0, refl), tt)),
      )
      (omega arith)

convert_headers_back_to_http_response-assemble_raw_headers_example :
    convert_headers_back_to_http_response one_pass_tokenizer
      (assemble_raw_headers ascii_case one_pass_tokenizer (sent_head status fields))
    ≡ sent_head status fields
convert_headers_back_to_http_response-assemble_raw_headers_example =
    convert_headers_back_to_http_response-assemble_raw_headers one_pass_tokenizer ascii_case status
      fields status-starts_http refl
      (
        (fields-AllFields.0, refl),
        ((fields-AllFields.1.0, refl), ((fields-AllFields.1.1.0, refl), tt)),
      )

abbrev cookie : Field
cookie = record { name = codes "Set-Cookie"; value = codes "k=v, w" }

abbrev some_edits : List Edit
some_edits =
    add cookie
    ∷ set (record { name = codes "DATE"; value = codes "z" })
    ∷ remove_line (codes "Vary") []
    ∷ replace_status (codes "HTTP/1.0 404")
    ∷ update_with status (cookie ∷ [])
    ∷ remove (codes "x")
    ∷ []

some_edits-AllEdits : AllEdits some_edits
unfolding is_token
some_edits-AllEdits = (
  record { name = refl; no_nul = refl; start = refl; end = refl },
  (
    record { name = refl; no_nul = refl; start = refl; end = refl },
    (
      tt,
      (
        refl,
        ((refl, (record { name = refl; no_nul = refl; start = refl; end = refl }, tt)), (tt, tt)),
      ),
    ),
  ),
)

edits-Represents_example :
    (h : HttpResponseHeaders) × (edits ascii_case one_pass_tokenizer digit_reader some_edits
        parsed_head
      ≡ some h)
    × Represents h (edits_fields ascii_case some_edits fields)
edits-Represents_example =
    edits-Represents ascii_case one_pass_tokenizer digit_reader some_edits parsed_head fields
      some_edits-AllEdits head_entries

abbrev microseconds : TimeUnits
microseconds = record {
  from_seconds = λ s. pos (1000000 * pos_part s);
  infinite = pos 9223372036854775807;
}

abbrev cached_head : HttpResponseHeaders
cached_head = parse ascii_case one_pass_tokenizer digit_reader (
    head (codes "HTTP/1.1 200") (
      record { name = codes "Cache-Control"; value = codes "stale-while-revalidate=5, max-age=60" }
      ∷ []))

-- Fresh for a minute, and then to be used for five seconds more.
validations :
    (requires_validation ascii_case microseconds digit_reader
        (number_from 0)
        (pos 0)
        (pos 0)
        (pos 59999999)
        cached_head
      ≡ validation_none)
    × (requires_validation ascii_case microseconds digit_reader
          (number_from 0)
          (pos 0)
          (pos 0)
          (pos 60000000)
          cached_head
        ≡ validation_asynchronous)
unfolding requires_validation parse tokens_in commas same find_char version is_token trim_lws
    is_non_coalescing_header
validations = (refl, refl)
