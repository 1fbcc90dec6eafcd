-- ===== src/Net/Pem/Lines.antt =====
-- The lines of Base64 that `PEMEncode` writes.
use nginx_quic_stack.Base.{
  ℕ, ◌*◌, ◌≤◌, zero, suc, Bool, true, false, ◌&&◌, ◌||◌, not, [], ◌∷◌, ◌++◌, Option, some,
  if◌then◌else◌, ◌==◌, all, length, length-drop, take, drop, take-append-drop, ◌≡◌, refl, ap, ◌∙◌,
  arith,
}
use nginx_quic_stack.Base.Bytes.{Bytes}
use nginx_quic_stack.Http.Pieces.{is_space, contains}
use nginx_quic_stack.Net.Pem.{encoded_lines}

-- A character of Base64 is no dash and no white space.
abbrev pub is_plain : Bytes → Bool
is_plain = all (λ c. not (c == b'-') && not (is_space c))

abbrev pub without_newlines : Bytes → Bytes
without_newlines [] = []
without_newlines (c ∷ text) =
    let rest = without_newlines text in if c == b'\n' then rest else c ∷ rest

-- No white space but newlines.
abbrev pub only_newlines : Bytes → Bool
only_newlines = all (λ c. (c == b'\n') || not (is_space c))

-- What is documented of Base64 and of `CollapseWhitespaceASCII`.
pub record Base64 : Type 0 where
  pub encode : Bytes → Bytes
  pub decode : Bytes → Option Bytes
  pub collapse_whitespace : Bytes → Bytes
  pub decode-encode : (bytes : Bytes) → decode (encode bytes) ≡ some bytes
  pub encode-plain : (bytes : Bytes) → is_plain (encode bytes) ≡ true
  pub collapse_lines :
      (text : Bytes) → only_newlines text ≡ true → collapse_whitespace text ≡ without_newlines text

without_newlines-append :
    (line rest : Bytes)
    → is_plain line ≡ true
    → without_newlines (line ++ rest) ≡ line ++ without_newlines rest
without_newlines-append [] rest h = refl
without_newlines-append (c ∷ line) rest h = ground (arith, without_newlines-append line rest)

is_plain-cut :
    (n : ℕ) (text : Bytes)
    → is_plain text ≡ true
    → (is_plain (take n text) ≡ true) × (is_plain (drop n text) ≡ true)
is_plain-cut zero text h = (refl, h)
is_plain-cut (suc n) [] h = (refl, refl)
is_plain-cut (suc n) (c ∷ text) h = ground (arith, is_plain-cut n text)

pub without_newlines-encoded_lines :
    (chunks : ℕ) (text : Bytes)
    → is_plain text ≡ true
    → length text ≤ 64 * chunks
    → without_newlines (encoded_lines chunks text) ≡ text
without_newlines-encoded_lines zero [] h k = refl
without_newlines-encoded_lines zero (c ∷ text) h k = absurd (omega (arith, k))
without_newlines-encoded_lines (suc chunks) text h k =
    let (front, rest) = is_plain-cut 64 text h in
    without_newlines-append (take 64 text) (b'\n' ∷ encoded_lines chunks (drop 64 text)) front
    ∙ (ap (λ t. take 64 text ++ t)
          (without_newlines-encoded_lines chunks (drop 64 text) rest
            (omega (arith, k, length-drop 64 text)))
        ∙ take-append-drop 64 text)

-- Lines have no dash and no white space but newlines.
abbrev pub is_lines : Bytes → Bool
is_lines = all (λ c. not (c == b'-') && ((c == b'\n') || not (is_space c)))

is_lines-append :
    (line rest : Bytes)
    → is_plain line ≡ true
    → is_lines rest ≡ true
    → is_lines (line ++ rest) ≡ true
is_lines-append [] rest h k = k
is_lines-append (c ∷ line) rest h k = ground (arith, is_lines-append line rest)

pub is_lines-encoded_lines :
    (chunks : ℕ) (text : Bytes) → is_plain text ≡ true → is_lines (encoded_lines chunks text) ≡ true
is_lines-encoded_lines zero text h = refl
is_lines-encoded_lines (suc chunks) text h =
    let (front, rest) = is_plain-cut 64 text h in
    is_lines-append (take 64 text) (b'\n' ∷ encoded_lines chunks (drop 64 text)) front
      (is_lines-encoded_lines chunks (drop 64 text) rest)

pub only_newlines-lines : (text : Bytes) → is_lines text ≡ true → only_newlines text ≡ true
only_newlines-lines [] h = refl
only_newlines-lines (c ∷ text) h = ground (arith, only_newlines-lines text)

pub no_dash-lines : (text : Bytes) → is_lines text ≡ true → contains b'-' text ≡ false
no_dash-lines [] h = refl
no_dash-lines (c ∷ text) h = ground (arith, no_dash-lines text)
