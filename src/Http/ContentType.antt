-- ===== src/Http/ContentType.antt =====
-- `HttpUtil::ParseContentType` of src/http_parser/http_util.cc. An offset into the text is what
-- follows it, and `npos` is the empty text.
pub mod Rounds
pub mod Params
pub mod RoundTrip
mod Tests
use nginx_quic_stack.Base.{
  ℕ, zero, suc, Bool, true, false, ◌&&◌, ◌||◌, not, [], ◌∷◌, Option, none, some, if◌then◌else◌,
  ◌==◌, is_nil, length, take,
}
use nginx_quic_stack.Base.Bytes.{Bytes, codes, same}
use nginx_quic_stack.Http.Ascii.{AsciiCase}
use nginx_quic_stack.Http.Pieces.{
  StringPiece, contains, is_lws, c_str, trim_right, trim_lws, text_of, whole,
}

-- What stands before, and from, the first byte that is one of some.
abbrev pub before_any : Bytes → Bytes → Bytes
before_any stops [] = []
before_any stops (c ∷ text) =
    let rest = before_any stops text in if contains c stops then [] else c ∷ rest

abbrev pub from_any : Bytes → Bytes → Bytes
from_any stops [] = []
from_any stops (c ∷ text) =
    let rest = from_any stops text in if contains c stops then c ∷ text else rest

abbrev pub skip_lws : Bytes → Bytes
skip_lws [] = []
skip_lws (c ∷ text) = let rest = skip_lws text in if is_lws c then rest else c ∷ text

abbrev pub trim_end : Bytes → Bytes
trim_end text = take (trim_right (length text) text) text

-- The loop over a quoted value: what it appends, and where it stops. The flag says that a
-- backslash has been skipped; at the end of the text a backslash stands for itself.
unfoldable pub quoted_value : Bool → Bytes → Bytes × Bytes
quoted_value escaped [] = (if escaped then b'\\' ∷ [] else [], [])
quoted_value escaped (c ∷ text) =
    let rest = quoted_value (not escaped && (c == b'\\')) text in
    if escaped
    then (c ∷ rest.0, rest.1)
    else if c == b'"'
    then ([], c ∷ text)
    else if c == b'\\'
    then rest
    else (c ∷ rest.0, rest.1)

abbrev pub Parameter : Type 0
Parameter = Bytes × Bytes

-- A parameter whose value starts here, if it is one, and where the search for the next one starts.
unfoldable pub value_at : Bytes → Bytes → Option Parameter × Bytes
unfolding quoted_value trim_lws trim_right
value_at name [] = (none, [])
value_at name (c ∷ text) =
    let in_quotes = quoted_value false text in
    if c == b';'
    then (none, c ∷ text)
    else if not (c == b'"')
    then (
      some (name, trim_end (before_any (codes ";") (c ∷ text))),
      from_any (codes ";") (c ∷ text),
    )
    else (some (name, text_of (trim_lws (whole in_quotes.0))), from_any (codes ";") in_quotes.1)

abbrev pub after_name : Bytes → Bytes → Option Parameter × Bytes
after_name name [] = (none, [])
after_name name (c ∷ text) = if c == b';' then (none, c ∷ text) else value_at name (skip_lws text)

-- From behind a semicolon.
unfoldable pub next_parameter : Bytes → Option Parameter × Bytes
unfolding value_at
next_parameter text =
    let start = skip_lws text in
    after_name (before_any (codes ";=") start) (from_any (codes ";=") start)

-- What the loop keeps; `boundary` is none where the caller passes a null pointer.
pub record FoundParameters : Type 0 where
  pub charset_value : Bytes
  pub type_has_charset : Bool
  pub type_has_boundary : Bool
  pub boundary : Option Bytes

abbrev pub set_boundary : Bytes → Option Bytes → Option Bytes
set_boundary value none = none
set_boundary value (some old) = some value

abbrev pub is_some : Option Bytes → Bool
is_some none = false
is_some (some text) = true

-- What the caller passes and gets; `type_boundary` is none where it passes a null pointer.
pub record ContentType : Type 0 where
  pub mime_type : Bytes
  pub charset : Bytes
  pub had_charset : Bool
  pub type_boundary : Option Bytes

-- A meaningless type, or none.
abbrev pub no_type : Bytes → Bool
no_type text = is_nil text || same text (codes "*/*") || not (contains b'/' text)

module _ (ascii : AsciiCase) where
  open ascii use {lower_case_equals_ascii, to_lower_ascii}

  unfoldable pub take_parameter : Option Parameter → FoundParameters → FoundParameters
  take_parameter none p = p
  take_parameter (some (name, value)) p =
      if not p.type_has_charset && lower_case_equals_ascii name (codes "charset")
      then record p { type_has_charset = true; charset_value = value }
      else if is_some p.boundary
          && (not p.type_has_boundary && lower_case_equals_ascii name (codes "boundary"))
      then record p { type_has_boundary = true; boundary = set_boundary value p.boundary }
      else p

  -- The loop over the parameters, from a semicolon; each round takes one byte at least.
  unfoldable pub take_parameters : ℕ → Bytes → FoundParameters → FoundParameters
  unfolding take_parameter next_parameter
  take_parameters zero text p = p
  take_parameters (suc fuel) [] p = p
  take_parameters (suc fuel) (c ∷ text) p =
      let next = next_parameter text in take_parameters fuel next.1 (take_parameter next.0 p)

  abbrev pub params_of : Bytes → Option Bytes → FoundParameters
  params_of content_type_str boundary =
      let behind_type = from_any (codes " \t;(") (skip_lws content_type_str) in
      take_parameters (length content_type_str) (from_any (codes ";") behind_type) (record {
        charset_value = [];
        type_has_charset = false;
        type_has_boundary = false;
        boundary = boundary;
      })

  unfoldable pub parse_content_type : Bytes → ContentType → ContentType
  unfolding take_parameters
  parse_content_type content_type_str out =
      let type_text = before_any (codes " \t;(") (skip_lws content_type_str) in
      let p = params_of content_type_str out.type_boundary in
      let eq =
        not (is_nil out.mime_type) && lower_case_equals_ascii type_text (c_str out.mime_type) in
      let charset_changes = (not eq && out.had_charset) || p.type_has_charset in
      if no_type content_type_str then record out { type_boundary = p.boundary } else record {
        mime_type = if eq then out.mime_type else to_lower_ascii type_text;
        charset = if charset_changes then to_lower_ascii p.charset_value else out.charset;
        had_charset = charset_changes || out.had_charset;
        type_boundary = p.boundary;
      }
