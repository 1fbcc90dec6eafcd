-- ===== src/Http/HeadersIterator.antt =====
-- `HttpUtil::HeadersIterator` of src/http_parser/http_util.cc: its state is the lines that are
-- still to come.
use nginx_quic_stack.Base.{
  ℕ, ◌≤◌, zero, suc, Bool, List, [], ◌∷◌, Option, none, some, if◌then◌else◌, Option-cases, inl, inr,
  length, ◌≡◌, refl, ap, arith,
}
use nginx_quic_stack.Base.Bytes.{Bytes}
use nginx_quic_stack.Http.Ascii.{AsciiCase}
use nginx_quic_stack.Http.Pieces.{StringPiece, text_of}
use nginx_quic_stack.Http.ResponseHeaders.{ParsedHeader, read_line}

abbrev pub Found : Type 0
Found = Option (ParsedHeader × List StringPiece)

abbrev at_line : Option ParsedHeader → List StringPiece → Found → Found
at_line none lines later = later
at_line (some h) lines later = some (h, lines)

-- The next line that holds a header.
unfoldable pub next_header : List StringPiece → Found
unfolding read_line
next_header [] = none
next_header (line ∷ lines) = let later = next_header lines in at_line (read_line line) lines later

module _ (ascii : AsciiCase) where
  abbrev has_name : Bytes → ParsedHeader → Bool
  has_name name h = ascii.lower_case_equals_ascii (text_of h.name) name

  abbrev advance_from : Bytes → (List StringPiece → Found) → Found → Found
  advance_from name advance none = none
  advance_from name advance (some (h, lines)) =
      let later = advance lines in if has_name name h then some (h, lines) else later

  -- The loop of AdvanceTo; each round moves on by a line at least.
  unfoldable pub advance : ℕ → Bytes → List StringPiece → Found
  unfolding next_header
  advance zero name lines = none
  advance (suc fuel) name lines = advance_from name (advance fuel name) (next_header lines)

  unfoldable pub advance_to : Bytes → List StringPiece → Found
  unfolding advance
  advance_to name lines = advance (length lines) name lines

  -- The first header with a name, among all lines.
  abbrev first_with : Bytes → Option ParsedHeader → List StringPiece → Found → Found
  first_with name none lines later = later
  first_with name (some h) lines later = if has_name name h then some (h, lines) else later

  abbrev pub first_header : Bytes → List StringPiece → Found
  first_header name [] = none
  first_header name (line ∷ lines) =
      first_with name (read_line line) lines (first_header name lines)

  advance_lem :
      (fuel : ℕ) (name : Bytes) (lines : List StringPiece)
      → length lines ≤ fuel
      → advance fuel name lines ≡ first_header name lines
  unfolding advance next_header
  advance_lem zero name [] h = refl
  advance_lem zero name (line ∷ lines) h = absurd (omega arith)
  advance_lem (suc fuel) name [] h = refl
  advance_lem (suc fuel) name (line ∷ lines) h = elim (Option-cases (read_line line)) [
    | inl skipped ↦ rw (skipped, next_header) (advance_lem (suc fuel) name lines (omega (arith, h)))
    | inr (header, found) ↦
        rw (found, next_header)
          (ap (first_with name (some header) lines)
            (advance_lem fuel name lines (omega (arith, h))))
  ]

  -- For every name in lower case and all lines: AdvanceTo stops at the first line that holds a
  -- header with that name, up to case, and at the end where no line does.
  pub advance_to_lem :
      (name : Bytes) (lines : List StringPiece) → advance_to name lines ≡ first_header name lines
  unfolding advance_to
  advance_to_lem name lines = advance_lem (length lines) name lines (omega arith)
