-- ===== src/Stream/Response/Passed.antt =====
-- `WriteResponseHeader` on a head as it is sent: which fields leave the stream, and when.
use nginx_quic_stack.Base.{
  ℕ, subst, ◌+◌, ◌/◌, ◌%◌, ◌<◌, zero, suc, none, all, ltb, if◌then◌else◌, ◌≤◌, ◌≡◌, refl, sym, ap,
  ◌∙◌, Bool, true, false, ◌||◌, not, List, [], ◌∷◌, ◌++◌, some, length, arith, is_nil, Bool-cases,
  inl, inr,
}
use nginx_quic_stack.Base.Bytes.{Bytes, codes, same}
use nginx_quic_stack.Base.Int.{pos, eqb_ℤ}
use nginx_quic_stack.Http.Ascii.{AsciiCase}
use nginx_quic_stack.Http.ParseInt.{is_ascii_digit}
use nginx_quic_stack.Http.Pieces.{contains}
use nginx_quic_stack.Http.StatusLine.{
  from_space, skip_spaces, clamp_version, status_with, parse_version, parse_status_line,
}
use nginx_quic_stack.Http.Version.{HttpVersion}
use nginx_quic_stack.Http.ResponseHeaders.{HttpResponseHeaders, has_more, parse, try_to_create}
use nginx_quic_stack.Http.ResponseHeaders.Plain.{no_nul, c_str-append, behind_nul-append}
use nginx_quic_stack.Http.ResponseHeaders.Created.{
  starts_http, assemble_raw_headers-sent, no_nul_line, is_line, AllLines, sent_fields, sent_head,
  try_to_create-Represents,
}
use nginx_quic_stack.Http.ResponseHeaders.Printed.{Field, print_ended}
use nginx_quic_stack.Http.ResponseHeaders.Represents.{head, fields_where}
use nginx_quic_stack.Http.Tokens.{StringTokenizer, IntReader}
use nginx_quic_stack.Stream.Response.Decimal.{number_from, number_from-decimal}
use nginx_quic_stack.Stream.Response.Header.{
  is_hop_header, passed_on, append_all, write_response_header, write_response_header_lem,
}
use nginx_quic_stack.Stream.Response.Sent.{flushed, flush_response_lem}
use nginx_quic_stack.Stream.Response.Text.{digits, decimal, decimal_int}
use nginx_quic_stack.Stream.Response.{add_trailers, flush_if}
use nginx_quic_stack.Stream.State.{SpdyHeaderBlock, ServerStream}

-- The fields that concern one connection: RFC 7230, section 6.1, and RFC 7540, section 8.1.2.2.
abbrev pub is_connection_field : Bytes → Bool
is_connection_field name =
    same (codes "connection") name
    || same (codes "keep-alive") name
    || same (codes "proxy-connection") name
    || same (codes "transfer-encoding") name
    || same (codes "upgrade") name
    || same (codes "te") name
    || same (codes "trailer") name
    || same (codes "proxy-authenticate") name
    || same (codes "proxy-authorization") name

-- What is not passed on; a name is in lower case.
abbrev pub is_held_back : Bytes → Bool
is_held_back name =
    is_connection_field name || same (codes "alt-svc") name || same (codes "vary") name

-- A text of digits that says a number.
pub record Says (text : Bytes) (n : ℕ) : Type 0 where
  pub all_digits : all is_ascii_digit text ≡ true
  pub number : number_from 0 text ≡ n

all-digits :
    (fuel n : ℕ) (out : Bytes)
    → all is_ascii_digit out ≡ true
    → all is_ascii_digit (digits fuel n out) ≡ true
unfolding digits
all-digits zero n out h = h
all-digits (suc fuel) n out h = elim (Bool-cases (ltb n 10)) [
  | inl small ↦ rw small (ground (arith, small, h))
  | inr large ↦ rw large (all-digits fuel (n / 10) ((48 + n % 10) ∷ out) (ground (arith, h)))
]

decimal_int-Says : (n : ℕ) → Says (decimal_int (pos n)) n
unfolding decimal_int decimal
decimal_int-Says n = record {
  all_digits = all-digits (n + 1) n [] refl;
  number = number_from-decimal n;
}

module _ (spdy : SpdyHeaderBlock) (ascii : AsciiCase) (tokenizer : StringTokenizer)
    (numbers : IntReader) (trim_spaces : Bytes → Bytes) where
  open spdy use {Block, assign}

  is_hop_header_lem :
      (name : Bytes)
      → is_hop_header spdy ascii tokenizer numbers trim_spaces name ≡ is_held_back name
  unfolding is_hop_header
  is_hop_header_lem name = ground arith

  fields_where_agree :
      (keep other : Bytes → Bool)
      → ((name : Bytes) → keep name ≡ other name)
      → (fs : List Field) → fields_where keep fs ≡ fields_where other fs
  fields_where_agree keep other agree [] = refl
  fields_where_agree keep other agree (f ∷ fs) =
      rw (agree f.name, fields_where_agree keep other agree fs) refl

  -- The fields that are passed on, in their order.
  abbrev pub kept : List Field → List Field
  kept = fields_where (λ name. not (is_held_back (ascii.to_lower_ascii name)))

  passed_on-kept :
      (fs : List Field) → passed_on spdy ascii tokenizer numbers trim_spaces fs ≡ kept fs
  passed_on-kept fs =
      fields_where_agree
        (λ name.
          not (is_hop_header spdy ascii tokenizer numbers trim_spaces (ascii.to_lower_ascii name)))
        (λ name. not (is_held_back (ascii.to_lower_ascii name)))
        (λ name. ap not (is_hop_header_lem (ascii.to_lower_ascii name))) fs

  -- The header block with a text for the code.
  abbrev pub block_of : Bytes → List Field → Block → Block
  block_of text fs block =
      append_all spdy ascii tokenizer numbers trim_spaces (kept fs)
        (assign (codes ":status") text block)

  -- A final head leaves the stream with the body that is there; another one waits.
  abbrev pub Leaves : Bool → Block → ServerStream Block → ServerStream Block → Type 0
  Leaves false block s s' =
      (s'.response_headers ≡ block)
      × ((s'.response_body ≡ s.response_body) × (s'.effects ≡ s.effects))
  Leaves true block s s' =
      s'.effects ≡ s.effects ++ flushed spdy ascii.to_lower_ascii trim_spaces block s.response_body

  pub record Writes (code : ℕ) (fs : List Field) (fin : Bool) (s : ServerStream Block)
      (answer : ServerStream Block × Bool) : Type 0 where
    pub done : answer.1 ≡ true
    pub text : Bytes
    pub says : Says text code
    pub leaves : Leaves fin (block_of text fs s.response_headers) s answer.0

  flush_if-Leaves :
      (fin : Bool) (trailers : Bytes) (block : Block) (s : ServerStream Block)
      → Leaves fin block s (
          flush_if spdy ascii.to_lower_ascii trim_spaces fin (
            add_trailers spdy ascii.to_lower_ascii trim_spaces trailers
              (record s { response_headers = block })))
  unfolding flush_if add_trailers
  flush_if-Leaves false trailers block s = (refl, (refl, refl))
  flush_if-Leaves true trailers block s = flush_response_lem spdy ascii.to_lower_ascii trim_spaces _

  created_lem :
      (refused : Bool) (made h : HttpResponseHeaders)
      → (if refused then none else some made) ≡ some h
      → h ≡ made
  created_lem true made h e = cc
  created_lem false made h e = cc

  from_space-append :
      (proto code : Bytes)
      → contains b' ' proto ≡ false
      → from_space (proto ++ b' ' ∷ code) ≡ b' ' ∷ code
  from_space-append [] code h = refl
  from_space-append (c ∷ proto) code h = ground (arith, from_space-append proto code)

  skip_spaces-digits : (code : Bytes) → all is_ascii_digit code ≡ true → skip_spaces code ≡ code
  skip_spaces-digits [] h = refl
  skip_spaces-digits (c ∷ code) h = ground arith

  status_with-digits :
      (v : HttpVersion × Bytes) (code : Bytes) (n : ℕ)
      → is_nil code ≡ false
      → all is_ascii_digit code ≡ true
      → numbers.string_to_int code ≡ some (pos n)
      → (status_with numbers v code).code ≡ pos n
  unfolding status_with
  status_with-digits (v, front) [] n some_code h reads = cc
  status_with-digits (v, front) (c ∷ code) n some_code h reads =
      let digit : is_ascii_digit c ≡ true = ground arith in rw (digit, reads) refl

  parse_status_line-code :
      (proto code : Bytes) (n : ℕ) (more : Bool)
      → contains b' ' proto ≡ false
      → is_nil code ≡ false
      → all is_ascii_digit code ≡ true
      → numbers.string_to_int code ≡ some (pos n)
      → (parse_status_line ascii numbers (proto ++ b' ' ∷ code) more).code ≡ pos n
  unfolding parse_status_line
  parse_status_line-code proto code n more plain some_code h reads =
      rw (from_space-append proto code plain, skip_spaces-digits code h)
        (status_with-digits (clamp_version (parse_version ascii (proto ++ b' ' ∷ code)) more) code n
          some_code h reads)

  parse-code :
      (status : Bytes) (fs : List Field)
      → no_nul status ≡ true
      → (parse ascii tokenizer numbers (head status fs)).response_code
        ≡ (parse_status_line ascii numbers status (has_more (some (print_ended fs)))).code
  unfolding parse
  parse-code status fs plain =
      rw
        (
          behind_nul-append status (print_ended fs) plain,
          c_str-append status (print_ended fs) plain,
        )
        refl

  created_headers :
      (status : Bytes) (fs : List Field) (h : HttpResponseHeaders)
      → starts_http ascii status ≡ true
      → is_line status ≡ true
      → AllLines fs
      → try_to_create ascii tokenizer numbers (sent_head status fs) ≡ some h
      → h ≡ parse ascii tokenizer numbers (head status fs)
  unfolding try_to_create
  created_headers status fs h http line v made =
      created_lem _ _ h made
      ∙ ap (parse ascii tokenizer numbers)
          (assemble_raw_headers-sent ascii tokenizer status fs http line v)

  is_nil-head : (proto code rest : Bytes) → is_nil ((proto ++ b' ' ∷ code) ++ rest) ≡ false
  is_nil-head [] code rest = refl
  is_nil-head (c ∷ proto) code rest = refl

  -- For a head as it is sent, whose status line is a text that starts with HTTP, up to case, and
  -- has no space, then a space and digits that StringToInt reads as a number n above 0; whose
  -- fields have tokens as names and values without white space at their ends; all without NUL, CR
  -- and LF, and at most 2147483647 bytes: WriteResponseHeader returns true. The header block gets
  -- digits that say n under ":status", and behind them exactly the fields whose name, in lower
  -- case, is none of the connection-specific ones of RFC 7230 and RFC 7540, nor alt-svc or vary,
  -- in their order, each under its name in lower case. If the call is not final, nothing has left
  -- the stream and its body is as it was; if it is, this block, with the content-length of the
  -- body that is there, and this body leave the stream behind what left it before, and no trailers
  -- do.
  pub write_response_header-Writes :
      (proto code : Bytes) (fs : List Field) (n : ℕ)
      → starts_http ascii (proto ++ b' ' ∷ code) ≡ true
      → is_line (proto ++ b' ' ∷ code) ≡ true
      → contains b' ' proto ≡ false
      → is_nil code ≡ false
      → all is_ascii_digit code ≡ true
      → numbers.string_to_int code ≡ some (pos n)
      → 0 < n
      → AllLines fs
      → length (sent_head (proto ++ b' ' ∷ code) fs) ≤ 2147483647
      → (fin : Bool) (trailers : Bytes) (s : ServerStream Block)
      → Writes n fs fin s (
          write_response_header spdy ascii tokenizer numbers trim_spaces
            (sent_head (proto ++ b' ' ∷ code) fs)
            trailers
            fin
            s)
  write_response_header-Writes proto code fs n http line plain some_code h reads above v short fin
        trailers s =
      let status = proto ++ b' ' ∷ code in
      let input = sent_head status fs in
      let (headers, made, stands) =
        try_to_create-Represents ascii tokenizer numbers status fs http line v short in
      let whole : no_nul status ≡ true = ground (arith, no_nul_line ascii status line) in
      let number : headers.response_code ≡ pos n =
        ap (λ x. x.response_code) (created_headers status fs headers http line v made)
        ∙ (parse-code status fs whole
            ∙ parse_status_line-code proto code n (has_more (some (print_ended fs))) plain some_code
                h reads) in
      let nonzero : eqb_ℤ headers.response_code (pos 0) ≡ false =
        rw number (ground (arith, above)) in
      let begun : is_nil input ≡ false = is_nil-head proto code (b'\r' ∷ b'\n' ∷ sent_fields fs) in
      let text = decimal_int headers.response_code in
      let result =
        write_response_header_lem spdy ascii tokenizer numbers trim_spaces input trailers fin s
          headers fs begun made nonzero stands
        ∙ ap
            (λ fields. (
              flush_if spdy ascii.to_lower_ascii trim_spaces fin (
                  add_trailers spdy ascii.to_lower_ascii trim_spaces trailers (record s {
                    response_headers =
                        append_all spdy ascii tokenizer numbers trim_spaces fields
                          (assign (codes ":status") text s.response_headers);
                  })),
              true,
            ))
            (passed_on-kept fs) in
      subst (Writes n fs fin s) (sym result) (record {
        done = refl;
        text = text;
        says = subst (λ k. Says (decimal_int k) n) (sym number) (decimal_int-Says n);
        leaves = flush_if-Leaves fin trailers (block_of text fs s.response_headers) s;
      })
