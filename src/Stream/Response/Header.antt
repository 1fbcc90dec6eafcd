-- ===== src/Stream/Response/Header.antt =====
-- `WriteResponseHeader` of src/tQuicServerStream.cc: the head of a response as text, parsed and put
-- into the header block.
use nginx_quic_stack.Base.{
  ◌||◌, ltb, arith, Bool, true, false, ◌≡◌, refl, ◌∙◌, not, List, [], ◌∷◌, Option, none, some,
  if◌then◌else◌, is_nil, length, Bool-cases, inl, inr,
}
use nginx_quic_stack.Base.Bytes.{Bytes, codes}
use nginx_quic_stack.Base.Int.{pos, eqb_ℤ}
use nginx_quic_stack.Http.Ascii.{AsciiCase}
use nginx_quic_stack.Http.Pieces.{contains}
use nginx_quic_stack.Http.ResponseHeaders.{HttpResponseHeaders, has_embedded_nulls, try_to_create}
use nginx_quic_stack.Http.ResponseHeaders.Edit.{contains_name}
use nginx_quic_stack.Http.ResponseHeaders.Lines.{pairs, header_lines-Represents}
use nginx_quic_stack.Http.ResponseHeaders.Lookup.{header_lines}
use nginx_quic_stack.Http.ResponseHeaders.Printed.{Field}
use nginx_quic_stack.Http.ResponseHeaders.Represents.{Represents, fields_where}
use nginx_quic_stack.Http.Tokens.{StringTokenizer, IntReader}
use nginx_quic_stack.Stream.Response.{k_hop_headers, add_trailers, flush_if}
use nginx_quic_stack.Stream.Response.Text.{decimal_int}
use nginx_quic_stack.Stream.State.{SpdyHeaderBlock, ServerStream}

module _ (spdy : SpdyHeaderBlock) (ascii : AsciiCase) (tokenizer : StringTokenizer)
    (numbers : IntReader) (trim_spaces : Bytes → Bytes) where
  open spdy use {Block, assign, append_value_or_add_header}

  -- `QuicContainsKey` of `kHopHeaders`.
  unfoldable pub is_hop_header : Bytes → Bool
  is_hop_header name_lower =
      contains_name name_lower (k_hop_headers spdy ascii.to_lower_ascii trim_spaces)

  -- The loop over the header lines.
  unfoldable pub append_lines : List (Bytes × Bytes) → Block → Block
  unfolding is_hop_header
  append_lines [] headers = headers
  append_lines ((name, value) ∷ lines) headers =
      let name_lower = ascii.to_lower_ascii name in
      append_lines lines (
        if is_hop_header name_lower
        then headers
        else append_value_or_add_header name_lower value headers)

  abbrev pub written :
      Bytes → Bool → Option HttpResponseHeaders → ServerStream Block → ServerStream Block × Bool
  written trailers fin none s = (s, false)
  written trailers fin (some h) s =
      if eqb_ℤ h.response_code (pos 0)
      then (s, false)
      else let block = assign (codes ":status") (decimal_int h.response_code) s.response_headers in
        let s1 = record s {
          response_headers = append_lines (header_lines (length h.parsed) h.parsed) block;
        } in
        (
          flush_if spdy ascii.to_lower_ascii trim_spaces fin
              (add_trailers spdy ascii.to_lower_ascii trim_spaces trailers s1),
          true,
        )

  unfoldable pub write_response_header :
      Bytes → Bytes → Bool → ServerStream Block → ServerStream Block × Bool
  unfolding append_lines try_to_create header_lines add_trailers flush_if decimal_int
  write_response_header header_str trailers fin s =
      if is_nil header_str
      then (s, false)
      else written trailers fin (try_to_create ascii tokenizer numbers header_str) s

  -- The fields that are passed on, each under its name in lower case, in their order.
  abbrev pub passed_on : List Field → List Field
  passed_on = fields_where (λ n. not (is_hop_header (ascii.to_lower_ascii n)))

  abbrev pub append_all : List Field → Block → Block
  append_all [] block = block
  append_all (f ∷ fs) block =
      append_all fs (append_value_or_add_header (ascii.to_lower_ascii f.name) f.value block)

  append_lines-cons :
      (name value : Bytes) (lines : List (Bytes × Bytes)) (block : Block)
      → append_lines ((name, value) ∷ lines) block
        ≡ append_lines lines (
            if is_hop_header (ascii.to_lower_ascii name)
            then block
            else append_value_or_add_header (ascii.to_lower_ascii name) value block)
  unfolding append_lines
  append_lines-cons name value lines block = refl

  append_lines-nil : (block : Block) → append_lines [] block ≡ block
  unfolding append_lines
  append_lines-nil block = refl

  append_lines-pairs :
      (fs : List Field) (block : Block)
      → append_lines (pairs fs) block ≡ append_all (passed_on fs) block
  append_lines-pairs [] block = append_lines-nil block
  append_lines-pairs (f ∷ fs) block =
      elim (Bool-cases (is_hop_header (ascii.to_lower_ascii f.name))) [
        | inl hop ↦
            append_lines-cons f.name f.value (pairs fs) block ∙ rw hop (append_lines-pairs fs block)
        | inr other ↦
            append_lines-cons f.name f.value (pairs fs) block
            ∙ rw other (
                append_lines-pairs fs
                  (append_value_or_add_header (ascii.to_lower_ascii f.name) f.value block))
      ]

  -- Where the head is not empty and TryToCreate makes headers of it that stand for a list of
  -- fields, with a response code other than 0: WriteResponseHeader returns true, puts the code
  -- under ":status" and then appends every field that is no hop-by-hop header, under its name in
  -- lower case, in their order, sets the trailers, and flushes the response if it is final.
  pub write_response_header_lem :
      (header_str trailers : Bytes) (fin : Bool) (s : ServerStream Block) (h : HttpResponseHeaders)
      (fs : List Field)
      → is_nil header_str ≡ false
      → try_to_create ascii tokenizer numbers header_str ≡ some h
      → eqb_ℤ h.response_code (pos 0) ≡ false
      → Represents h fs
      → write_response_header header_str trailers fin s ≡ (
        flush_if spdy ascii.to_lower_ascii trim_spaces fin (
            add_trailers spdy ascii.to_lower_ascii trim_spaces trailers (record s {
              response_headers =
                  append_all
                    (passed_on fs)
                    (assign (codes ":status") (decimal_int h.response_code) s.response_headers);
            })),
        true,
      )
  unfolding write_response_header
  write_response_header_lem header_str trailers fin s h fs some_text created code r =
      let lines = header_lines-Represents h fs r in
      let block = assign (codes ":status") (decimal_int h.response_code) s.response_headers in
      rw (some_text, created, code, lines, append_lines-pairs fs block) refl

  -- For a head that is empty, has a NUL, or has more than 2147483647 bytes: WriteResponseHeader
  -- returns false and leaves the stream as it was.
  pub write_response_header-refused :
      (header_str trailers : Bytes) (fin : Bool) (s : ServerStream Block)
      → (is_nil header_str || contains 0 header_str || ltb 2147483647 (length header_str)) ≡ true
      → write_response_header header_str trailers fin s ≡ (s, false)
  unfolding write_response_header try_to_create has_embedded_nulls
  write_response_header-refused header_str trailers fin s refused =
      elim (Bool-cases (is_nil header_str)) [
        | inl nothing ↦ rw nothing refl
        | inr some_text ↦
            let cause : contains 0 header_str || ltb 2147483647 (length header_str) ≡ true =
              ground (arith, some_text, refused) in
            rw (some_text, cause) refl
      ]
