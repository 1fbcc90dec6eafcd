-- ===== src/Http/Pieces.antt =====
-- Pieces of text, as `gurl_base::StringPiece` and pairs of iterators give them, with `TrimLWS` of
-- src/http_parser/http_util.cc. A piece is the text from its first byte to the end of the string
-- that it lies in, with its length, since the code also takes a piece's `data()` as a C string.
use nginx_quic_stack.Base.{
  ℕ, zero, suc, Bool, false, ◌&&◌, ◌||◌, [], ◌∷◌, Option, none, some, if◌then◌else◌, ◌==◌, leb,
  take, length,
}
use nginx_quic_stack.Base.Bytes.{Bytes}

-- A text as a C string: the bytes before the first 0.
abbrev pub c_str : Bytes → Bytes
c_str [] = []
c_str (c ∷ cs) = if c == 0 then [] else c ∷ c_str cs

pub record StringPiece : Type 0 where
  pub from : Bytes
  pub size : ℕ

abbrev pub contains : ℕ → Bytes → Bool
contains c [] = false
contains c (x ∷ xs) = (x == c) || contains c xs

-- White space, as absl and gurl_base strip it off.
abbrev pub is_space : ℕ → Bool
is_space c = (c == b' ') || (leb 9 c && leb c 13)

abbrev pub is_lws : ℕ → Bool
is_lws c = (c == b' ') || (c == b'\t')

abbrev pub char_at : ℕ → Bytes → ℕ
char_at i [] = 0
char_at zero (c ∷ text) = c
char_at (suc i) (c ∷ text) = char_at i text

unfoldable pub trim_left : ℕ → Bytes → StringPiece
trim_left zero from = record { from = from; size = 0 }
trim_left (suc n) [] = record { from = []; size = 0 }
trim_left (suc n) (c ∷ from) =
    let rest = trim_left n from in
    if is_lws c then rest else record { from = c ∷ from; size = suc n }

unfoldable pub trim_right : ℕ → Bytes → ℕ
trim_right zero from = 0
trim_right (suc n) from =
    let rest = trim_right n from in if is_lws (char_at n from) then rest else suc n

unfoldable pub trim_lws : StringPiece → StringPiece
unfolding trim_left trim_right
trim_lws p =
    let left = trim_left p.size p.from in record left { size = trim_right left.size left.from }

-- `find` of a byte in the first so many.
unfoldable pub find_char : ℕ → ℕ → Bytes → Option ℕ
find_char c zero from = none
find_char c (suc n) [] = none
find_char c (suc n) (x ∷ from) =
    let later = find_char c n from in
    if x == c then some 0 else elim later [ none ↦ none | some i ↦ some (suc i) ]

-- The bytes of a piece, and a whole text as a piece.
abbrev pub text_of : StringPiece → Bytes
text_of p = take p.size p.from

abbrev pub whole : Bytes → StringPiece
whole text = record { from = text; size = length text }
