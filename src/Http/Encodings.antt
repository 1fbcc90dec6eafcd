-- ===== src/Http/Encodings.antt =====
-- `HttpUtil::ParseAcceptEncoding` and `ParseContentEncoding` of src/http_parser/http_util.cc. A
-- `std::set` of strings is the list of its members in the order of their insertion.
pub mod Mirrored
pub mod Accepted
mod Tests
use Prim.Native.String.{String}
use nginx_quic_stack.Base.{
  ℕ, ◌+◌, Bool, true, false, ◌&&◌, ◌||◌, not, List, [], ◌∷◌, ◌++◌, Option, none, some,
  if◌then◌else◌, ◌==◌, ltb, is_nil, all, length, take, drop,
}
use nginx_quic_stack.Base.Bytes.{Bytes, codes, same}
use nginx_quic_stack.Http.Ascii.{AsciiCase}
use nginx_quic_stack.Http.ParseInt.{is_ascii_digit}
use nginx_quic_stack.Http.Pieces.{
  StringPiece, contains, is_lws, trim_lws, find_char, text_of, whole,
}
use nginx_quic_stack.Http.Tokens.{StringTokenizer}

abbrev pub has_text : Bytes → List Bytes → Bool
has_text t [] = false
has_text t (u ∷ set) = same t u || has_text t set

abbrev pub insert_text : Bytes → List Bytes → List Bytes
insert_text t set = if has_text t set then set else set ++ t ∷ []

abbrev pub trimmed : Bytes → Bytes
trimmed text = text_of (trim_lws (whole text))

abbrev pub contains_any : Bytes → Bytes → Bool
contains_any chars [] = false
contains_any chars (c ∷ text) = contains c chars || contains_any chars text

-- What an entry comes to: it ends the parse, is passed over, or names an encoding.
pub data EncodingEntry : Type 0 where
  refused : EncodingEntry
  passed_over : EncodingEntry
  allowed : Bytes → EncodingEntry

-- The part of a quality value behind a 0.
unfoldable pub weight_behind_zero : Bytes → Bytes → EncodingEntry
weight_behind_zero encoding [] = passed_over
weight_behind_zero encoding (point ∷ digits) =
    if is_nil digits || ltb 3 (length digits)
    then refused
    else if not (point == b'.')
    then refused
    else if not (all is_ascii_digit digits)
    then refused
    else if not (all (λ d. d == b'0') digits)
    then allowed encoding
    else passed_over

-- If one is there, the other is added.
abbrev pub mirror : String → String → List Bytes → List Bytes
mirror one other set = if has_text (codes one) set then insert_text (codes other) set else set

unfoldable pub complete : List Bytes → List Bytes
complete [] = codes "*" ∷ []
complete (e ∷ set) = mirror "x-compress" "compress" (
    mirror "compress" "x-compress"
      (mirror "x-gzip" "gzip" (mirror "gzip" "x-gzip" (insert_text (codes "identity") (e ∷ set)))))

abbrev pub completed : Bool × List Bytes → Bool × List Bytes
completed (false, set) = (false, set)
completed (true, set) = (true, complete set)

module _ (ascii : AsciiCase) where
  open ascii use {lower_case_equals_ascii, to_lower_ascii, starts_with}

  unfoldable pub weigh : Bytes → Bytes → EncodingEntry
  unfolding weight_behind_zero
  weigh encoding [] = refused
  weigh encoding (c ∷ qvalue) =
      if c == b'1'
      then (if starts_with (codes "1.000") (c ∷ qvalue)
          then allowed (to_lower_ascii encoding)
          else refused)
      else if not (c == b'0')
      then refused
      else weight_behind_zero (to_lower_ascii encoding) qvalue

  abbrev weigh_params : Bytes → Bytes → Option ℕ → EncodingEntry
  weigh_params encoding params none = refused
  weigh_params encoding params (some equals_pos) =
      if not (lower_case_equals_ascii (trimmed (take equals_pos params)) (codes "q"))
      then refused
      else weigh encoding (trimmed (drop (equals_pos + 1) params))

  abbrev weigh_entry : Bytes → Option ℕ → EncodingEntry
  weigh_entry entry none =
      if contains_any (codes " \t") entry then refused else allowed (to_lower_ascii entry)
  weigh_entry entry (some semicolon_pos) =
      let encoding = trimmed (take semicolon_pos entry) in
      let params = trimmed (drop (semicolon_pos + 1) entry) in
      if contains_any (codes " \t") encoding
      then refused
      else weigh_params encoding params (find_char b'=' (length params) params)

  -- One round of the loop, at one token.
  unfoldable pub accept_entry : Bytes → EncodingEntry
  unfolding weigh trim_lws find_char
  accept_entry token =
      let entry = trimmed token in weigh_entry entry (find_char b';' (length entry) entry)

  -- The loop, with what the set then holds.
  unfoldable pub accept_entries : List StringPiece → List Bytes → Bool × List Bytes
  unfolding accept_entry
  accept_entries [] set = (true, set)
  accept_entries (token ∷ tokens) set = elim (accept_entry (text_of token)) [
    | refused ↦ (false, set)
    | passed_over ↦ accept_entries tokens set
    | allowed encoding ↦ accept_entries tokens (insert_text encoding set)
  ]

  module _ (tokenizer : StringTokenizer) where
    unfoldable pub parse_accept_encoding : Bytes → List Bytes → Bool × List Bytes
    unfolding accept_entries complete
    parse_accept_encoding accept_encoding allowed_encodings =
        if contains b'"' accept_encoding
        then (false, allowed_encodings)
        else completed (accept_entries (tokenizer.tokens (codes ",") accept_encoding) [])

    unfoldable pub use_encodings : List StringPiece → List Bytes → Bool × List Bytes
    unfolding trim_lws
    use_encodings [] set = (true, set)
    use_encodings (token ∷ tokens) set =
        let encoding = trimmed (text_of token) in
        let rest = use_encodings tokens (insert_text (to_lower_ascii encoding) set) in
        if contains_any (codes " \t") encoding then (false, set) else rest

    unfoldable pub parse_content_encoding : Bytes → List Bytes → Bool × List Bytes
    unfolding use_encodings
    parse_content_encoding content_encoding used_encodings =
        if contains_any (codes "\"=;*") content_encoding
        then (false, used_encodings)
        else use_encodings (tokenizer.tokens (codes ",") content_encoding) []
