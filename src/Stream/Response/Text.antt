-- ===== src/Stream/Response/Text.antt =====
-- `std::to_string` of a size, `SplitString` and `SetTrailers` of src/tQuicServerStream.cc.
use nginx_quic_stack.Base.{
  ℕ, ◌+◌, ◌/◌, ◌%◌, zero, suc, List, [], ◌∷◌, ◌++◌, Option, none, some, if◌then◌else◌, is_nil, ◌==◌,
  ltb, ◌||◌,
}
use nginx_quic_stack.Base.Bytes.{Bytes}
use nginx_quic_stack.Base.Int.{ℤ, pos, negsuc}

unfoldable pub digits : ℕ → ℕ → Bytes → Bytes
digits zero n out = out
digits (suc fuel) n out =
    let more = digits fuel (n / 10) ((b'0' + n % 10) ∷ out) in
    if ltb n 10 then (b'0' + n) ∷ out else more

-- The decimal digits; a number has at most as many as itself and one.
unfoldable pub decimal : ℕ → Bytes
unfolding digits
decimal n = digits (n + 1) n []

-- `std::to_string` of an int.
unfoldable pub decimal_int : ℤ → Bytes
decimal_int (pos n) = decimal n
decimal_int (negsuc n) = b'-' ∷ decimal (suc n)

-- `find` of one byte, as what stands before and behind it.
unfoldable pub cut_at : ℕ → Bytes → Option (Bytes × Bytes)
cut_at c [] = none
cut_at c (x ∷ xs) =
    if x == c
    then some ([], xs)
    else elim (cut_at c xs) [ none ↦ none | some (a, b) ↦ some (x ∷ a, b) ]

-- `SplitString` at one byte, with `head` before the rest that is scanned: a last empty piece is
-- dropped, an empty piece elsewhere is kept.
unfoldable pub split_from : ℕ → Bytes → Bytes → List Bytes
split_from delim head [] = if is_nil head then [] else head ∷ []
split_from delim head (x ∷ xs) =
    let next_piece = head ∷ split_from delim [] xs in
    let same_piece = split_from delim (head ++ x ∷ []) xs in
    if x == delim then next_piece else same_piece

unfoldable pub split_string : Bytes → ℕ → List Bytes
unfolding split_from
split_string str delim = split_from delim [] str

module _ (to_lower_ascii trim_spaces : Bytes → Bytes) {Block : Type 0}
    (assign : Bytes → Bytes → Block → Block) where
  -- One line of the trailers: a name and a value, both of some length.
  set_trailer : Option (Bytes × Bytes) → Block → Block
  set_trailer none headers = headers
  set_trailer (some (before, behind)) headers =
      let hk = to_lower_ascii before in
      let hv = trim_spaces behind in
      if is_nil hk || is_nil hv then headers else assign hk hv headers

  set_lines : List Bytes → Block → Block
  unfolding set_trailer cut_at
  set_lines [] headers = headers
  set_lines (line ∷ lines) headers = set_lines lines (set_trailer (cut_at b':' line) headers)

  unfoldable pub set_trailers : Bytes → Block → Block
  unfolding set_lines split_string
  set_trailers str headers = set_lines (split_string str b'\n') headers
