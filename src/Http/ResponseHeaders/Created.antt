-- ===== src/Http/ResponseHeaders/Created.antt =====
-- A head as it is sent, with CR and LF behind each line, made into response headers.
use nginx_quic_stack.Base.{
  ℕ, ◌-◌, ◌≤◌, zero, suc, min, Bool, true, false, ◌&&◌, ◌||◌, not, List, [], ◌∷◌, ◌++◌, some, ◌==◌,
  all, leb, ltb, length, take, ◌≡◌, refl, ap, sym, ◌∙◌, arith, append_assoc, length-append,
  take-append_le,
}
use nginx_quic_stack.Base.Bytes.{Bytes, codes}
use nginx_quic_stack.Http.Ascii.{AsciiCase}
use nginx_quic_stack.Http.Pieces.{StringPiece, contains}
use nginx_quic_stack.Http.Texts.{contains-append, contains-key, take-key}
use nginx_quic_stack.Http.Tokens.{StringTokenizer, IntReader, none_of}
use nginx_quic_stack.Http.Util.{is_token, is_token_char, http_from, locate_start_of_status_line}
use nginx_quic_stack.Http.Util.Assemble.{
  status_line, behind_status_line, starts_lws, is_line_segment_continuable, join_lines, end_lines,
  from_status, assemble_from, assemble_raw_headers,
}
use nginx_quic_stack.Http.ResponseHeaders.{
  HttpResponseHeaders, has_embedded_nulls, parse, try_to_create,
}
use nginx_quic_stack.Http.ResponseHeaders.Printed.{Field, IsField, AllFields, print_ended}
use nginx_quic_stack.Http.ResponseHeaders.Represents.{head, Represents, parse-Represents}

-- No byte that ends a line.
abbrev pub is_line : Bytes → Bool
is_line [] = true
is_line (c ∷ text) = not (c == 0 || c == b'\r' || c == b'\n') && is_line text

abbrev pub AllLines : List Field → Type 0
AllLines [] = Unit {0}
AllLines (f ∷ fs) = (IsField f × (is_line f.value ≡ true)) × AllLines fs

abbrev pub sent_fields : List Field → Bytes
sent_fields [] = codes "\r\n"
sent_fields (f ∷ fs) = f.name ++ (codes ": " ++ (f.value ++ b'\r' ∷ b'\n' ∷ sent_fields fs))

abbrev pub sent_head : Bytes → List Field → Bytes
sent_head status fs = status ++ b'\r' ∷ b'\n' ∷ sent_fields fs

pub AllLines-AllFields : (fs : List Field) → AllLines fs → AllFields fs
AllLines-AllFields [] v = tt
AllLines-AllFields (f ∷ fs) ((v, line), vs) = (v, AllLines-AllFields fs vs)

is_line-token : (name : Bytes) → all is_token_char name ≡ true → is_line name ≡ true
unfolding is_token_char
is_line-token [] h = refl
is_line-token (c ∷ name) h = ground (arith, is_line-token name, h)

is_line-name : (name : Bytes) → is_token name ≡ true → is_line name ≡ true
unfolding is_token
is_line-name [] h = cc
is_line-name (c ∷ name) h = is_line-token (c ∷ name) h

is_line-append : (s t : Bytes) → is_line s ≡ true → is_line t ≡ true → is_line (s ++ t) ≡ true
is_line-append [] t h k = k
is_line-append (c ∷ s) t h k = ground (arith, is_line-append s t)

abbrev line_of : Field → Bytes
line_of f = f.name ++ (codes ": " ++ f.value)

is_line-line_of : (f : Field) → IsField f → is_line f.value ≡ true → is_line (line_of f) ≡ true
is_line-line_of f v line =
    is_line-append f.name (codes ": " ++ f.value) (is_line-name f.name v.name) line

none_of_line : (text : Bytes) → is_line text ≡ true → none_of (codes "\r\n") text ≡ true
none_of_line [] h = refl
none_of_line (c ∷ text) h = ground (arith, none_of_line text)

-- The pieces of the lines.
abbrev sent_pieces : List Field → List StringPiece
sent_pieces [] = []
sent_pieces (f ∷ fs) =
    record { from = line_of f ++ (b'\r' ∷ b'\n' ∷ sent_fields fs); size = length (line_of f) }
    ∷ sent_pieces fs

module _ (tokenizer : StringTokenizer) where
  open tokenizer use {tokens, tokens_end, tokens_delimiter, tokens_token}

  tokens-line :
      (name text rest : Bytes)
      → is_token name ≡ true
      → is_line (name ++ text) ≡ true
      → tokens (codes "\r\n") ((name ++ text) ++ (b'\r' ∷ b'\n' ∷ rest))
        ≡ record { from = (name ++ text) ++ (b'\r' ∷ b'\n' ∷ rest); size = length (name ++ text) }
          ∷ tokens (codes "\r\n") rest
  unfolding is_token
  tokens-line [] text rest named line = cc
  tokens-line (c ∷ name) text rest named line =
      tokens_token (codes "\r\n") c (name ++ text) b'\r' (b'\n' ∷ rest)
        (none_of_line (c ∷ (name ++ text)) line) refl
      ∙ ap
          (λ ps.
            record {
              from = ((c ∷ name) ++ text) ++ (b'\r' ∷ b'\n' ∷ rest);
              size = length ((c ∷ name) ++ text);
            }
            ∷ ps)
          (tokens_delimiter (codes "\r\n") b'\r' (b'\n' ∷ rest) refl
            ∙ tokens_delimiter (codes "\r\n") b'\n' rest refl)

  tokens-sent :
      (fs : List Field) → AllLines fs → tokens (codes "\r\n") (sent_fields fs) ≡ sent_pieces fs
  tokens-sent [] v =
      tokens_delimiter (codes "\r\n") b'\r' (b'\n' ∷ []) refl
      ∙ (tokens_delimiter (codes "\r\n") b'\n' [] refl ∙ tokens_end (codes "\r\n"))
  tokens-sent (f ∷ fs) ((v, line), vs) =
      ap (tokens (codes "\r\n"))
        (sym (append_assoc f.name (codes ": " ++ f.value) (b'\r' ∷ b'\n' ∷ sent_fields fs)))
      ∙ (tokens-line f.name (codes ": " ++ f.value) (sent_fields fs) v.name
            (is_line-line_of f v line)
          ∙ ap
              (λ ps.
                record {
                  from = line_of f ++ (b'\r' ∷ b'\n' ∷ sent_fields fs);
                  size = length (line_of f);
                }
                ∷ ps)
              (tokens-sent fs vs))

starts_lws-name : (name text : Bytes) → is_token name ≡ true → starts_lws (name ++ text) ≡ false
unfolding is_token is_token_char
starts_lws-name [] text h = cc
starts_lws-name (c ∷ name) text h = ground (arith, h)

-- The lines with LF in front of each.
abbrev joined_lines : List Field → Bytes
joined_lines [] = []
joined_lines (f ∷ fs) = b'\n' ∷ (line_of f ++ joined_lines fs)

join_lines-sent :
    (continuable : Bool) (fs : List Field)
    → AllLines fs
    → join_lines continuable (sent_pieces fs) ≡ joined_lines fs
unfolding join_lines
join_lines-sent continuable [] v = refl
join_lines-sent continuable (f ∷ fs) ((v, line), vs) =
    let text = take-key (line_of f) (b'\r' ∷ b'\n' ∷ sent_fields fs) in
    let first = starts_lws-name f.name (codes ": " ++ f.value) v.name in
    let guard : continuable && starts_lws (line_of f) ≡ false = ground (arith, first) in
    let rest = join_lines-sent (is_line_segment_continuable (line_of f)) fs vs in
    rw (text, guard, rest) refl

end_lines-line :
    (line rest : Bytes) → is_line line ≡ true → end_lines (line ++ rest) ≡ line ++ end_lines rest
unfolding end_lines
end_lines-line [] rest h = refl
end_lines-line (c ∷ line) rest h = ground (arith, end_lines-line line rest)

end_lines-joined :
    (fs : List Field)
    → AllLines fs
    → end_lines (joined_lines fs ++ codes "\n\n") ≡ 0 ∷ print_ended fs
unfolding end_lines
end_lines-joined [] v = refl
end_lines-joined (f ∷ fs) ((v, line), vs) =
    ap (λ t. 0 ∷ end_lines t) (append_assoc (line_of f) (joined_lines fs) (codes "\n\n"))
    ∙ ap (λ t. 0 ∷ t)
        (end_lines-line (line_of f) (joined_lines fs ++ codes "\n\n") (is_line-line_of f v line)
          ∙ (ap (λ t. line_of f ++ t) (end_lines-joined fs vs)
              ∙ append_assoc f.name (codes ": " ++ f.value) (0 ∷ print_ended fs)))

status_line-sent :
    (status rest : Bytes)
    → is_line status ≡ true
    → (status_line (status ++ b'\r' ∷ rest) ≡ status)
      × (behind_status_line (status ++ b'\r' ∷ rest) ≡ b'\r' ∷ rest)
unfolding status_line behind_status_line
status_line-sent [] rest h = (refl, refl)
status_line-sent (c ∷ status) rest h = ground (arith, status_line-sent status rest)

module _ (ascii : AsciiCase) where
  http_from-start :
      (slop c : ℕ) (text : Bytes)
      → ascii.lower_case_equals_ascii (take 4 (c ∷ text)) (codes "http") ≡ true
      → http_from ascii slop (c ∷ text) ≡ some 0
  unfolding http_from
  http_from-start zero c text h = rw h refl
  http_from-start (suc slop) c text h = rw h refl

  -- A status line that starts with "HTTP" in any case.
  abbrev pub starts_http : Bytes → Bool
  starts_http status =
      leb 4 (length status) && ascii.lower_case_equals_ascii (take 4 status) (codes "http")

  locate-sent :
      (status rest : Bytes)
      → starts_http status ≡ true
      → locate_start_of_status_line ascii (status ++ rest) ≡ some 0
  unfolding locate_start_of_status_line
  locate-sent [] rest h = absurd (ground (arith, h))
  locate-sent (c ∷ status) rest h =
      let whole = length-append (c ∷ status) rest in
      let long : leb 4 (length ((c ∷ status) ++ rest)) ≡ true = ground (arith, whole, h) in
      let front : take 4 ((c ∷ status) ++ rest) ≡ take 4 (c ∷ status) =
        take-append_le 4 (c ∷ status) rest (ground (arith, h)) in
      let says : ascii.lower_case_equals_ascii (take 4 (c ∷ status)) (codes "http") ≡ true =
        ground (arith, h) in
      rw long (
        http_from-start (min (length ((c ∷ status) ++ rest) - 4) 4) c (status ++ rest)
          (ap (λ t. ascii.lower_case_equals_ascii t (codes "http")) front ∙ says))

  pub assemble_raw_headers-sent :
      (tokenizer : StringTokenizer) (status : Bytes) (fs : List Field)
      → starts_http status ≡ true
      → is_line status ≡ true
      → AllLines fs
      → assemble_raw_headers ascii tokenizer (sent_head status fs) ≡ head status fs
  unfolding assemble_raw_headers
  assemble_raw_headers-sent tokenizer status fs http line v =
      let input = sent_head status fs in
      let behind = b'\r' ∷ b'\n' ∷ sent_fields fs in
      let lines = join_lines-sent false fs v in
      let pieces : tokenizer.tokens (codes "\r\n") behind ≡ sent_pieces fs =
        tokenizer.tokens_delimiter (codes "\r\n") b'\r' (b'\n' ∷ sent_fields fs) refl
        ∙ (tokenizer.tokens_delimiter (codes "\r\n") b'\n' (sent_fields fs) refl
            ∙ tokens-sent tokenizer fs v) in
      let (first, rest) = status_line-sent status (b'\n' ∷ sent_fields fs) line in
      ap (λ o. assemble_from ascii tokenizer (from_status o input)) (locate-sent status behind http)
      ∙ rw (first, rest, pieces, lines)
          (end_lines-line status (joined_lines fs ++ codes "\n\n") line
            ∙ ap (λ t. status ++ t) (end_lines-joined fs v))

  pub no_nul_line : (text : Bytes) → is_line text ≡ true → contains 0 text ≡ false
  no_nul_line [] h = refl
  no_nul_line (c ∷ text) h = ground (arith, no_nul_line text)

  no_nul_fields : (fs : List Field) → AllLines fs → contains 0 (sent_fields fs) ≡ false
  no_nul_fields [] v = refl
  no_nul_fields (f ∷ fs) ((v, line), vs) = ground (
    arith,
    contains-append 0 f.name (codes ": " ++ (f.value ++ b'\r' ∷ b'\n' ∷ sent_fields fs)),
    contains-append 0 f.value (b'\r' ∷ b'\n' ∷ sent_fields fs),
    contains-key f.name v.name,
    no_nul_line f.value line,
    no_nul_fields fs vs,
  )

  -- For a status line that starts with HTTP, up to case, and fields whose names are tokens and
  -- whose values have no white space at their ends, all without NUL, CR and LF: TryToCreate of
  -- them, each field as "name: value", with CR and LF behind each line and an empty line at the
  -- end, at most 2147483647 bytes, succeeds with headers that stand for exactly these fields in
  -- their order.
  pub try_to_create-Represents :
      (tokenizer : StringTokenizer) (numbers : IntReader) (status : Bytes) (fs : List Field)
      → starts_http status ≡ true
      → is_line status ≡ true
      → AllLines fs
      → length (sent_head status fs) ≤ 2147483647
      → (h : HttpResponseHeaders) × (try_to_create ascii tokenizer numbers (sent_head status fs)
          ≡ some h)
        × Represents h fs
  unfolding try_to_create has_embedded_nulls
  try_to_create-Represents tokenizer numbers status fs http line v short =
      let plain : contains 0 (sent_head status fs) ≡ false = ground (
        arith,
        contains-append 0 status (b'\r' ∷ b'\n' ∷ sent_fields fs),
        no_nul_line status line,
        no_nul_fields fs v,
      ) in
      let fits : ltb 2147483647 (length (sent_head status fs)) ≡ false = ground (arith, short) in
      let status_plain : not (contains 0 status) ≡ true = ground (arith, no_nul_line status line) in
      (
        parse ascii tokenizer numbers (head status fs),
        rw (plain, fits, assemble_raw_headers-sent tokenizer status fs http line v) refl,
        parse-Represents ascii tokenizer numbers status fs status_plain (AllLines-AllFields fs v),
      )
