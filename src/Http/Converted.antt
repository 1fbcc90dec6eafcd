-- ===== src/Http/Converted.antt =====
-- `ConvertHeadersBackToHTTPResponse` behind `AssembleRawHeaders`.
use nginx_quic_stack.Base.{
  ℕ, ◌+◌, true, List, [], ◌∷◌, ◌++◌, length, ◌≡◌, refl, ap, ◌∙◌, arith, append_assoc, length-append,
}
use nginx_quic_stack.Base.Bytes.{Bytes, codes}
use nginx_quic_stack.Http.Ascii.{AsciiCase}
use nginx_quic_stack.Http.Pieces.{text_of}
use nginx_quic_stack.Http.Texts.{take-key}
use nginx_quic_stack.Http.Tokens.{StringTokenizer, none_of}
use nginx_quic_stack.Http.Util.Assemble.{
  assemble_raw_headers, lines_ended, convert_headers_back_to_http_response,
}
use nginx_quic_stack.Http.ResponseHeaders.Created.{
  is_line, AllLines, AllLines-AllFields, sent_fields, sent_head, starts_http,
  assemble_raw_headers-sent,
}
use nginx_quic_stack.Http.ResponseHeaders.Printed.{
  Field, print_ended, line_piece, line_pieces, tokens-print,
}
use nginx_quic_stack.Http.ResponseHeaders.Represents.{head}

text_of-line_piece :
    (f : Field) (rest : Bytes) → text_of (line_piece f rest) ≡ f.name ++ (codes ": " ++ f.value)
text_of-line_piece f rest =
    let line = f.name ++ (codes ": " ++ f.value) in
    let measure : length f.name + (2 + length f.value) ≡ length line =
      omega (arith, length-append f.name (codes ": " ++ f.value)) in
    rw (measure, ← (append_assoc f.name (codes ": " ++ f.value) rest)) (take-key line rest)

lines_ended-line_pieces :
    (fs : List Field) → lines_ended (line_pieces fs) ++ codes "\r\n" ≡ sent_fields fs
lines_ended-line_pieces [] = refl
lines_ended-line_pieces (f ∷ fs) =
    let line = f.name ++ (codes ": " ++ f.value) in
    ap (λ t. (t ++ b'\r' ∷ b'\n' ∷ lines_ended (line_pieces fs)) ++ codes "\r\n")
      (text_of-line_piece f (0 ∷ print_ended fs))
    ∙ (append_assoc line (b'\r' ∷ b'\n' ∷ lines_ended (line_pieces fs)) (codes "\r\n")
        ∙ (ap (λ t. line ++ b'\r' ∷ b'\n' ∷ t) (lines_ended-line_pieces fs)
            ∙ append_assoc f.name (codes ": " ++ f.value) (b'\r' ∷ b'\n' ∷ sent_fields fs)))

none_of_nul-line : (text : Bytes) → is_line text ≡ true → none_of (0 ∷ []) text ≡ true
none_of_nul-line [] h = refl
none_of_nul-line (c ∷ text) h = ground (arith, none_of_nul-line text)

module _ (tokenizer : StringTokenizer) where
  lines_ended-head :
      (c : ℕ) (status : Bytes) (fs : List Field)
      → is_line (c ∷ status) ≡ true
      → AllLines fs
      → convert_headers_back_to_http_response tokenizer (head (c ∷ status) fs)
        ≡ sent_head (c ∷ status) fs
  unfolding convert_headers_back_to_http_response
  lines_ended-head c status fs line v =
      let first =
        tokenizer.tokens_token (0 ∷ []) c status 0 (print_ended fs)
          (none_of_nul-line (c ∷ status) line) refl in
      let behind =
        tokenizer.tokens_delimiter (0 ∷ []) 0 (print_ended fs) refl
        ∙ tokens-print tokenizer fs (AllLines-AllFields fs v) in
      rw (first, behind, take-key status (0 ∷ print_ended fs))
        (append_assoc (c ∷ status) (b'\r' ∷ b'\n' ∷ lines_ended (line_pieces fs)) (codes "\r\n")
          ∙ ap (λ t. (c ∷ status) ++ b'\r' ∷ b'\n' ∷ t) (lines_ended-line_pieces fs))

  -- For a status line that starts with HTTP, up to case, and fields whose names are tokens and
  -- whose values have no white space at their ends, all without NUL, CR and LF:
  -- ConvertHeadersBackToHTTPResponse of what AssembleRawHeaders makes of the head, with CR and LF
  -- behind each line and an empty line at the end, is the head again.
  pub convert_headers_back_to_http_response-assemble_raw_headers :
      (ascii : AsciiCase) (status : Bytes) (fs : List Field)
      → starts_http ascii status ≡ true
      → is_line status ≡ true
      → AllLines fs
      → convert_headers_back_to_http_response tokenizer
          (assemble_raw_headers ascii tokenizer (sent_head status fs))
        ≡ sent_head status fs
  convert_headers_back_to_http_response-assemble_raw_headers ascii [] fs http line v =
      absurd (ground (arith, http))
  convert_headers_back_to_http_response-assemble_raw_headers ascii (c ∷ status) fs http line v =
      ap (convert_headers_back_to_http_response tokenizer)
        (assemble_raw_headers-sent ascii tokenizer (c ∷ status) fs http line v)
      ∙ lines_ended-head c status fs line v
