-- ===== src/Http/Tokens.antt =====
-- What the code uses of `gurl_base/strings/string_tokenizer.h`, and of number reading, which belong
-- to other projects. They are a parameter of the modules that call them.
use nginx_quic_stack.Base.{ℕ, all, not, Bool, true, List, [], ◌∷◌, ◌++◌, Option, length, ◌≡◌}
use nginx_quic_stack.Base.Bytes.{Bytes}
use nginx_quic_stack.Base.Int.{ℤ}
use nginx_quic_stack.Http.Pieces.{StringPiece, contains}

abbrev pub none_of : Bytes → Bytes → Bool
none_of delims text = all (λ c. not (contains c delims)) text

-- Texts with commas between them.
abbrev pub joined : List Bytes → Bytes
joined [] = []
joined (t ∷ []) = t
joined (t ∷ u ∷ ts) = t ++ b',' ∷ joined (u ∷ ts)

pub record StringTokenizer : Type 0 where
  -- The tokens of a text: the longest runs of bytes that are no delimiters.
  pub tokens : Bytes → Bytes → List StringPiece
  pub tokens_end : (delims : Bytes) → tokens delims [] ≡ []
  pub tokens_delimiter :
      (delims : Bytes) (x : ℕ) (rest : Bytes)
      → contains x delims ≡ true
      → tokens delims (x ∷ rest) ≡ tokens delims rest
  pub tokens_token :
      (delims : Bytes) (c : ℕ) (token : Bytes) (x : ℕ) (rest : Bytes)
      → none_of delims (c ∷ token) ≡ true
      → contains x delims ≡ true
      → tokens delims ((c ∷ token) ++ x ∷ rest)
        ≡ record { from = (c ∷ token) ++ x ∷ rest; size = length (c ∷ token) }
          ∷ tokens delims (x ∷ rest)
  -- The tokens of a text between the commas outside quotes, the empty ones included.
  pub comma_tokens : Bytes → List Bytes
  pub joined-comma_tokens : (text : Bytes) → joined (comma_tokens text) ≡ text

-- `quiche::QuicheTextUtilsImpl::StringToInt`: the number, if the text is one; what it leaves in its
-- result if it is not is not documented.
pub record IntReader : Type 0 where
  pub string_to_int : Bytes → Option ℤ
  pub left_over : Bytes → ℤ
