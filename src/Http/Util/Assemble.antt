-- ===== src/Http/Util/Assemble.antt =====
-- `AssembleRawHeaders`: the head of a response with NUL behind each line.
use nginx_quic_stack.Base.{
  ℕ, Bool, false, ◌&&◌, not, List, [], ◌∷◌, ◌++◌, Option, none, some, if◌then◌else◌, ◌==◌, length,
  take, drop,
}
use nginx_quic_stack.Base.Bytes.{Bytes, codes}
use nginx_quic_stack.Http.Ascii.{AsciiCase}
use nginx_quic_stack.Http.Pieces.{StringPiece, contains, is_lws, text_of, find_char}
use nginx_quic_stack.Http.Tokens.{StringTokenizer}
use nginx_quic_stack.Http.Util.{locate_start_of_status_line}

-- `IsLineSegmentContinuable`.
abbrev starts_name : Bytes → Bool
starts_name [] = false
starts_name (c ∷ text) = not (is_lws c)

abbrev name_before : Option ℕ → Bytes → Bool
name_before none line = false
name_before (some colon) line = starts_name (take colon line)

unfoldable pub is_line_segment_continuable : Bytes → Bool
unfolding find_char
is_line_segment_continuable line = name_before (find_char b':' (length line) line) line

-- `FindStatusLineEnd`, as the line itself and what follows.
unfoldable pub status_line : Bytes → Bytes
status_line [] = []
status_line (c ∷ text) =
    let rest = status_line text in if contains c (codes "\r\n") then [] else c ∷ rest

unfoldable pub behind_status_line : Bytes → Bytes
behind_status_line [] = []
behind_status_line (c ∷ text) =
    let rest = behind_status_line text in if contains c (codes "\r\n") then c ∷ text else rest

-- `RemoveLeadingNonLWS`.
unfoldable pub remove_leading_lws : Bytes → Bytes
remove_leading_lws [] = []
remove_leading_lws (c ∷ text) =
    let rest = remove_leading_lws text in if is_lws c then rest else c ∷ text

abbrev pub starts_lws : Bytes → Bool
starts_lws [] = false
starts_lws (c ∷ text) = is_lws c

-- The loop over the lines.
unfoldable pub join_lines : Bool → List StringPiece → Bytes
unfolding remove_leading_lws is_line_segment_continuable
join_lines prev_line_continuable [] = []
join_lines prev_line_continuable (p ∷ lines) =
    let line = text_of p in
    let continued = b' ' ∷ (remove_leading_lws line ++ join_lines prev_line_continuable lines) in
    let separate = b'\n' ∷ (line ++ join_lines (is_line_segment_continuable line) lines) in
    if prev_line_continuable && starts_lws line then continued else separate

-- `Erase` of '\0', and `replace` of '\n' by '\0'.
unfoldable pub end_lines : Bytes → Bytes
end_lines [] = []
end_lines (c ∷ text) =
    let rest = end_lines text in if c == 0 then rest else if c == b'\n' then 0 ∷ rest else c ∷ rest

abbrev pub from_status : Option ℕ → Bytes → Bytes
from_status none input = input
from_status (some k) input = drop k input

module _ (ascii : AsciiCase) (tokenizer : StringTokenizer) where
  abbrev pub assemble_from : Bytes → Bytes
  assemble_from input = end_lines (
      status_line input
      ++ (join_lines false (tokenizer.tokens (codes "\r\n") (behind_status_line input))
          ++ codes "\n\n"))

  unfoldable pub assemble_raw_headers : Bytes → Bytes
  unfolding locate_start_of_status_line status_line behind_status_line join_lines end_lines
  assemble_raw_headers input =
      assemble_from (from_status (locate_start_of_status_line ascii input) input)

abbrev pub lines_ended : List StringPiece → Bytes
lines_ended [] = []
lines_ended (p ∷ lines) = text_of p ++ b'\r' ∷ b'\n' ∷ lines_ended lines

unfoldable pub convert_headers_back_to_http_response : StringTokenizer → Bytes → Bytes
convert_headers_back_to_http_response tokenizer text =
    lines_ended (tokenizer.tokens (0 ∷ []) text) ++ codes "\r\n"
