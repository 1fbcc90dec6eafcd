-- ===== src/Http/ContentType/Params.antt =====
-- The loop over the parameters of a content type: it ends, and reads printed parameters back.
use nginx_quic_stack.Http.Parameters.{
  Printed, print_value, print_parameters, AllParameters, read_back,
}
use nginx_quic_stack.Base.{
  ℕ, ◌≤◌, ◌==◌, Bool-cases, inl, inr, zero, suc, Bool, true, false, List, [], ◌∷◌, ◌++◌, some, all,
  length, take, length-append, ◌≡◌, refl, ap, ◌∙◌, arith, append_assoc,
}
use nginx_quic_stack.Base.Bytes.{Bytes, codes}
use nginx_quic_stack.Http.Ascii.{AsciiCase}
use nginx_quic_stack.Http.ContentType.{
  before_any, from_any, skip_lws, trim_end, quoted_value, value_at, next_parameter, FoundParameters,
  take_parameter, take_parameters,
}
use nginx_quic_stack.Http.Pieces.{contains, trim_right, trim_lws, text_of, whole}
use nginx_quic_stack.Http.Texts.{take-length, char_at-last}
use nginx_quic_stack.Http.Util.{is_token, is_token_char, quote, escape_quotes, last_of}

-- The end of a text, or a semicolon.
abbrev ends_value : Bytes → Bool
ends_value [] = true
ends_value (c ∷ text) = contains c (codes ";")

ends_value-print_parameters : (ps : List Printed) → ends_value (print_parameters ps) ≡ true
ends_value-print_parameters [] = refl
ends_value-print_parameters (p ∷ ps) = refl

from_any-ends : (text : Bytes) → ends_value text ≡ true → from_any (codes ";") text ≡ text
from_any-ends [] h = refl
from_any-ends (c ∷ text) h = ground (arith, h)

before_any-ends : (text : Bytes) → ends_value text ≡ true → before_any (codes ";") text ≡ []
before_any-ends [] h = refl
before_any-ends (c ∷ text) h = ground (arith, h)

quoted_value-escape_quotes :
    (text rest : Bytes)
    → quoted_value false (escape_quotes text ++ b'"' ∷ rest) ≡ (text, b'"' ∷ rest)
unfolding quoted_value escape_quotes
quoted_value-escape_quotes [] rest = refl
quoted_value-escape_quotes (c ∷ text) rest = ground (arith, quoted_value-escape_quotes text rest)

before_any-token :
    (token : Bytes) (rest : Bytes)
    → all is_token_char token ≡ true
    → (before_any (codes ";=") (token ++ b'=' ∷ rest) ≡ token)
      × (from_any (codes ";=") (token ++ b'=' ∷ rest) ≡ b'=' ∷ rest)
unfolding is_token_char
before_any-token [] rest h = (refl, refl)
before_any-token (c ∷ token) rest h = ground (arith, before_any-token token rest)

before_any-value :
    (token : Bytes) (rest : Bytes)
    → all is_token_char token ≡ true
    → ends_value rest ≡ true
    → (before_any (codes ";") (token ++ rest) ≡ token)
      × (from_any (codes ";") (token ++ rest) ≡ rest)
unfolding is_token_char
before_any-value [] rest h e = (before_any-ends rest e, from_any-ends rest e)
before_any-value (c ∷ token) rest h e = ground (arith, before_any-value token rest)

skip_lws-token :
    (token rest : Bytes) → is_token token ≡ true → skip_lws (token ++ rest) ≡ token ++ rest
unfolding is_token is_token_char
skip_lws-token [] rest h = cc
skip_lws-token (c ∷ token) rest h = ground (arith, h)

last_token :
    (c : ℕ) (token : Bytes)
    → all is_token_char (c ∷ token) ≡ true
    → is_token_char (last_of c token) ≡ true
last_token c [] h = ground (arith, h)
last_token c (x ∷ token) h = last_token x token (ground (arith, h))

trim_right-token :
    (c : ℕ) (token : Bytes)
    → all is_token_char (c ∷ token) ≡ true
    → trim_right (length (c ∷ token)) (c ∷ token) ≡ length (c ∷ token)
unfolding trim_right is_token_char
trim_right-token c token h = ground (arith, last_token c token h, char_at-last c token)

trim_end-token : (token : Bytes) → is_token token ≡ true → trim_end token ≡ token
unfolding is_token
trim_end-token [] h = cc
trim_end-token (c ∷ token) h =
    ap (λ n. take n (c ∷ token)) (trim_right-token c token h) ∙ take-length (c ∷ token)

value_at-quote :
    (name value rest : Bytes)
    → ends_value rest ≡ true
    → value_at name (skip_lws (quote value ++ rest))
      ≡ (some (name, text_of (trim_lws (whole value))), rest)
unfolding value_at quote
value_at-quote name value rest e =
    let regroup = append_assoc (escape_quotes value) (b'"' ∷ []) rest in
    rw (regroup, quoted_value-escape_quotes value rest, from_any-ends rest e) refl

value_at-token :
    (name value rest : Bytes)
    → is_token value ≡ true
    → ends_value rest ≡ true
    → value_at name (skip_lws (value ++ rest)) ≡ (some (name, value), rest)
unfolding is_token is_token_char value_at
value_at-token name [] rest h e = cc
value_at-token name (c ∷ value) rest h e =
    let (before, from) = before_any-value (c ∷ value) rest h e in
    let (plain, semicolon) : (c == b'"' ≡ false) × (c == b';' ≡ false) = ground (arith, h) in
    rw
      (
        skip_lws-token (c ∷ value) rest h,
        plain,
        semicolon,
        before,
        from,
        trim_end-token (c ∷ value) h,
      )
      refl

value_at-print_value :
    (p : Printed) (rest : Bytes)
    → (p.in_quotes ≡ false → is_token p.value ≡ true)
    → ends_value rest ≡ true
    → value_at p.name (skip_lws (print_value p ++ rest)) ≡ (some (read_back p), rest)
value_at-print_value p rest h e = elim (Bool-cases p.in_quotes) [
  | inl quoted ↦ rw (quoted) (value_at-quote p.name p.value rest e)
  | inr plain ↦ rw (plain) (value_at-token p.name p.value rest (h plain) e)
]

token_chars : (token : Bytes) → is_token token ≡ true → all is_token_char token ≡ true
unfolding is_token
token_chars [] h = refl
token_chars (c ∷ token) h = h

next_parameter-print :
    (p : Printed) (rest : Bytes)
    → is_token p.name ≡ true
    → (p.in_quotes ≡ false → is_token p.value ≡ true)
    → ends_value rest ≡ true
    → next_parameter (b' ' ∷ (p.name ++ b'=' ∷ (print_value p ++ rest)))
      ≡ (some (read_back p), rest)
unfolding next_parameter
next_parameter-print p rest named valued e =
    let text = print_value p ++ rest in
    let (before, from) = before_any-token p.name text (token_chars p.name named) in
    rw (skip_lws-token p.name (b'=' ∷ text) named, before, from)
      (value_at-print_value p rest valued e)

module _ (ascii : AsciiCase) where
  abbrev pub take_all : List Printed → FoundParameters → FoundParameters
  take_all [] found = found
  take_all (p ∷ ps) found = take_all ps (take_parameter ascii (some (read_back p)) found)

  pub take_parameters-print_parameters :
      (fuel : ℕ) (ps : List Printed) (found : FoundParameters)
      → AllParameters ps
      → length (print_parameters ps) ≤ fuel
      → take_parameters ascii fuel (print_parameters ps) found ≡ take_all ps found
  unfolding take_parameters
  take_parameters-print_parameters zero [] found v h = refl
  take_parameters-print_parameters (suc fuel) [] found v h = refl
  take_parameters-print_parameters zero (p ∷ ps) found v h = absurd (omega arith)
  take_parameters-print_parameters (suc fuel) (p ∷ ps) found ((named, valued), vs) h =
      let next =
        next_parameter-print p (print_parameters ps) named valued
          (ends_value-print_parameters ps) in
      let behind = length-append (print_value p) (print_parameters ps) in
      let whole_length = length-append p.name (b'=' ∷ (print_value p ++ print_parameters ps)) in
      rw next (
        take_parameters-print_parameters fuel ps (take_parameter ascii (some (read_back p)) found)
          vs (omega (arith, h, whole_length, behind)))
