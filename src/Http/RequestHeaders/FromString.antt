-- ===== src/Http/RequestHeaders/FromString.antt =====
-- Headers from the text of a request: `AddHeaderFromString` and `AddHeadersFromString`.
use nginx_quic_stack.Base.{
  ℕ, ◌+◌, zero, suc, Bool, true, false, ◌&&◌, not, List, [], ◌∷◌, ◌++◌, Option, none, some,
  if◌then◌else◌, ltb, all, length, take, drop, ◌≡◌,
}
use nginx_quic_stack.Base.Bytes.{Bytes}
use nginx_quic_stack.Http.Ascii.{AsciiCase}
use nginx_quic_stack.Http.Pieces.{contains, is_space, text_of, whole, trim_lws, find_char}
use nginx_quic_stack.Http.Util.{is_valid_header_name, is_valid_header_value, last_of}
use nginx_quic_stack.Http.RequestHeaders.{HttpRequestHeaders, set_header}

-- A text with a first and a last byte that are no white space.
abbrev pub is_solid : Bytes → Bool
is_solid [] = false
is_solid (c ∷ text) = not (is_space c) && not (is_space (last_of c text))

-- `gurl_base::SplitStringPieceUsingSubstr` at "\r\n", which trims the pieces and drops the empty ones.
pub record LineSplitter : Type 0 where
  pub split_lines : Bytes → List Bytes
  pub split_end : split_lines [] ≡ []
  pub split_blank :
      (spaces rest : Bytes)
      → contains b'\r' spaces ≡ false
      → all is_space spaces ≡ true
      → split_lines (spaces ++ b'\r' ∷ b'\n' ∷ rest) ≡ split_lines rest
  pub split_line :
      (line spaces rest : Bytes)
      → contains b'\r' line ≡ false
      → contains b'\r' spaces ≡ false
      → is_solid line ≡ true
      → all is_space spaces ≡ true
      → split_lines (line ++ (spaces ++ b'\r' ∷ b'\n' ∷ rest)) ≡ line ∷ split_lines rest

module _ (ascii : AsciiCase) where
  -- A line whose colon stands at `key_end_index`.
  unfoldable pub add_header_at : ℕ → Bytes → HttpRequestHeaders → HttpRequestHeaders
  add_header_at zero line headers = headers
  add_header_at (suc k) line headers =
      let key = take (suc k) line in
      let header_value = text_of (trim_lws (whole (drop (suc k + 1) line))) in
      if not (is_valid_header_name key)
      then headers
      else if ltb (suc k + 1) (length line)
      then (if is_valid_header_value header_value
          then set_header ascii key header_value headers
          else headers)
      else set_header ascii key [] headers

  abbrev pub add_header_found : Option ℕ → Bytes → HttpRequestHeaders → HttpRequestHeaders
  add_header_found none line headers = headers
  add_header_found (some key_end_index) line headers = add_header_at key_end_index line headers

  unfoldable pub add_header_from_string : Bytes → HttpRequestHeaders → HttpRequestHeaders
  unfolding add_header_at
  add_header_from_string line headers =
      add_header_found (find_char b':' (length line) line) line headers

  unfoldable pub add_lines : List Bytes → HttpRequestHeaders → HttpRequestHeaders
  add_lines [] headers = headers
  add_lines (line ∷ lines) headers = add_lines lines (add_header_from_string line headers)

  unfoldable pub add_headers_from_string :
      LineSplitter → Bytes → HttpRequestHeaders → HttpRequestHeaders
  unfolding add_lines
  add_headers_from_string splitter text headers = add_lines (splitter.split_lines text) headers
