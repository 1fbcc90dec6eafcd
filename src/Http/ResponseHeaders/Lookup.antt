-- ===== src/Http/ResponseHeaders/Lookup.antt =====
-- Reading response headers: `FindHeader`, the enumerations, and what is asked of single headers. An
-- index into `parsed_` is the list of the headers from there on, and `npos` is the empty list.
use nginx_quic_stack.Base.{
  ℕ, ◌+◌, ◌-◌, zero, suc, Bool, true, false, ◌||◌, ◌&&◌, not, List, [], ◌∷◌, ◌++◌, Option, none,
  some, if◌then◌else◌, ◌==◌, is_nil, length, take,
}
use nginx_quic_stack.Base.Bytes.{Bytes, codes}
use nginx_quic_stack.Base.Int.{ℤ, pos, eqb_ℤ}
use nginx_quic_stack.Http.Ascii.{AsciiCase}
use nginx_quic_stack.Http.Pieces.{StringPiece, c_str, text_of}
use nginx_quic_stack.Http.ResponseHeaders.{ParsedHeader, is_continuation, HttpResponseHeaders}
use nginx_quic_stack.Http.Version.{version, eq_version, lt_version, le_version}

-- From the start of one place to the end of another.
unfoldable pub span : StringPiece → StringPiece → Bytes
span v w = take (length v.from - length w.from + w.size) v.from

abbrev pub last_value : StringPiece → List ParsedHeader → StringPiece
last_value v [] = v
last_value v (h ∷ headers) = if is_continuation h then last_value h.value headers else v

abbrev pub skip_continuations : List ParsedHeader → List ParsedHeader
skip_continuations [] = []
skip_continuations (h ∷ headers) =
    let rest = skip_continuations headers in if is_continuation h then rest else h ∷ headers

-- A header with its continuations: its name, its values, and both with what stands between them.
pub record HeaderEntry : Type 0 where
  pub name : Bytes
  pub value : Bytes
  pub line : Bytes

abbrev pub entry_of : ParsedHeader → List ParsedHeader → HeaderEntry
entry_of h headers = record {
  name = text_of h.name;
  value = span h.value (last_value h.value headers);
  line = span h.name (last_value h.value headers);
}

unfoldable pub enumerate_header_lines :
    List ParsedHeader → Option ((Bytes × Bytes) × List ParsedHeader)
unfolding is_continuation span
enumerate_header_lines [] = none
enumerate_header_lines (h ∷ headers) =
    let e = entry_of h headers in some ((e.name, e.value), skip_continuations headers)

abbrev pub line_and :
    (List ParsedHeader → List (Bytes × Bytes))
    → Option ((Bytes × Bytes) × List ParsedHeader)
    → List (Bytes × Bytes)
line_and lines none = []
line_and lines (some (line, rest)) = line ∷ lines rest

-- The loop over EnumerateHeaderLines; as many rounds as there are parsed headers are enough.
unfoldable pub header_lines : ℕ → List ParsedHeader → List (Bytes × Bytes)
unfolding enumerate_header_lines
header_lines zero headers = []
header_lines (suc fuel) headers = line_and (header_lines fuel) (enumerate_header_lines headers)

-- The loops that go from header to header; each jumps over the continuations, and the headers start
-- with none.
unfoldable pub entries : List ParsedHeader → List HeaderEntry
unfolding is_continuation span
entries [] = []
entries (h ∷ headers) =
    let rest = entries headers in if is_continuation h then rest else entry_of h headers ∷ rest

unfoldable pub get_status_line : HttpResponseHeaders → Bytes
get_status_line h = c_str h.raw_headers

abbrev behind_space : Bytes → Bytes
behind_space [] = []
behind_space (c ∷ text) = let rest = behind_space text in if c == b' ' then text else rest

-- What stands behind the second space.
unfoldable pub get_status_text : HttpResponseHeaders → Bytes
unfolding get_status_line
get_status_text h = behind_space (behind_space (get_status_line h))

abbrev pub value_of : List ParsedHeader → Option (Bytes × List ParsedHeader)
value_of [] = none
value_of (h ∷ headers) = some (text_of h.value, headers)

abbrev pub value_and :
    (List ParsedHeader → List Bytes) → Option (Bytes × List ParsedHeader) → List Bytes
value_and values none = []
value_and values (some (value, rest)) = value ∷ values rest

module _ (ascii : AsciiCase) where
  unfoldable pub find_header : Bytes → List ParsedHeader → List ParsedHeader
  unfolding is_continuation
  find_header search [] = []
  find_header search (h ∷ headers) =
      let later = find_header search headers in
      if is_continuation h
      then later
      else if ascii.equals_case_insensitive_ascii search (text_of h.name)
      then h ∷ headers
      else later

  -- The place from which the value at an iterator is read; a fresh iterator stands at the start.
  abbrev pub found_at : Bytes → List ParsedHeader → List ParsedHeader
  found_at name [] = []
  found_at name (h ∷ headers) =
      if is_continuation h then h ∷ headers else find_header name (h ∷ headers)

  -- `EnumerateHeader` with an iterator, and with none.
  unfoldable pub enumerate_header :
      Bytes → Bool → List ParsedHeader → Option (Bytes × List ParsedHeader)
  unfolding find_header is_continuation
  enumerate_header name fresh headers =
      value_of (if fresh then find_header name headers else found_at name headers)

  -- The loops over EnumerateHeader: the values that they see. Each round moves on, so that as many
  -- rounds as there are parsed headers are enough.
  unfoldable pub header_values : ℕ → Bytes → Bool → List ParsedHeader → List Bytes
  unfolding enumerate_header
  header_values zero name fresh headers = []
  header_values (suc fuel) name fresh headers =
      value_and (header_values fuel name false) (enumerate_header name fresh headers)

  unfoldable pub all_values : Bytes → HttpResponseHeaders → List Bytes
  unfolding header_values
  all_values name h = header_values (length h.parsed) name true h.parsed

  unfoldable pub has_header : Bytes → HttpResponseHeaders → Bool
  unfolding find_header
  has_header name h = not (is_nil (find_header name h.parsed))

  abbrev any_value : (Bytes → Bool) → List Bytes → Bool
  any_value p [] = false
  any_value p (v ∷ values) = p v || any_value p values

  unfoldable pub has_header_value : Bytes → Bytes → HttpResponseHeaders → Bool
  unfolding all_values
  has_header_value name value h =
      any_value (ascii.equals_case_insensitive_ascii value) (all_values name h)

  abbrev separated : List HeaderEntry → Bytes
  separated [] = []
  separated (e ∷ []) = e.value
  separated (e ∷ f ∷ es) = e.value ++ (codes ", " ++ separated (f ∷ es))

  abbrev pub named : Bytes → List HeaderEntry → List HeaderEntry
  named name [] = []
  named name (e ∷ es) =
      let rest = named name es in
      if ascii.equals_case_insensitive_ascii name e.name then e ∷ rest else rest

  -- Whether the header is there, and its values with ", " between those of different lines.
  unfoldable pub get_normalized_header : Bytes → HttpResponseHeaders → Bool × Bytes
  unfolding entries
  get_normalized_header name h =
      let found = named name (entries h.parsed) in (not (is_nil found), separated found)

  -- Tokens of one connection header: the first one that is known decides.
  abbrev known_token : List Bytes → Option Bool
  known_token [] = none
  known_token (token ∷ tokens) =
      let later = known_token tokens in
      if ascii.lower_case_equals_ascii token (codes "keep-alive")
      then some true
      else if ascii.lower_case_equals_ascii token (codes "close")
      then some false
      else later

  abbrev or_else : Option Bool → Option Bool → Option Bool
  or_else none o = o
  or_else (some b) o = some b

  abbrev keep_alive_or : Option Bool → Bool → Bool
  keep_alive_or none default = default
  keep_alive_or (some b) default = b

  unfoldable pub is_keep_alive : HttpResponseHeaders → Bool
  unfolding all_values lt_version eq_version
  is_keep_alive h =
      if lt_version h.http_version (version 1 0)
      then false
      else keep_alive_or
          (or_else (known_token (all_values (codes "connection") h))
            (known_token (all_values (codes "proxy-connection") h)))
          (not (eq_version h.http_version (version 1 0)))

  unfoldable pub is_chunk_encoded : HttpResponseHeaders → Bool
  unfolding has_header_value le_version
  is_chunk_encoded h =
      le_version (version 1 1) h.http_version
      && has_header_value (codes "Transfer-Encoding") (codes "chunked") h

unfoldable pub is_redirect_response_code : ℤ → Bool
is_redirect_response_code code =
    eqb_ℤ code (pos 301)
    || eqb_ℤ code (pos 302)
    || eqb_ℤ code (pos 303)
    || eqb_ℤ code (pos 307)
    || eqb_ℤ code (pos 308)
