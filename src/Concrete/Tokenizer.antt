-- ===== src/Concrete/Tokenizer.antt =====
-- Tokens of a text by one pass over it, and decimal numbers.
use nginx_quic_stack.Base.{
  ℕ, ◌+◌, ◌*◌, ◌-◌, suc, Bool, true, false, not, ◌&&◌, List, [], ◌∷◌, ◌++◌, Option, none, some,
  if◌then◌else◌, ◌==◌, length, ◌≡◌, refl, ap, sym, ◌∙◌, arith,
}
use nginx_quic_stack.Base.Bytes.{Bytes}
use nginx_quic_stack.Base.Int.{ℤ, pos}
use nginx_quic_stack.Http.ParseInt.{is_ascii_digit}
use nginx_quic_stack.Http.Pieces.{StringPiece, contains}
use nginx_quic_stack.Http.Tokens.{none_of, joined, StringTokenizer, IntReader}

run : Bytes → Bytes → ℕ
run delims [] = 0
run delims (x ∷ text) = let rest = run delims text in if contains x delims then 0 else suc rest

-- `inside` says that a token has started.
unfoldable pub tokens_in : Bytes → Bool → Bytes → List StringPiece
unfolding run
tokens_in delims inside [] = []
tokens_in delims inside (x ∷ text) =
    let outer = tokens_in delims false text in
    let inner = tokens_in delims true text in
    if contains x delims
    then outer
    else if inside
    then inner
    else record { from = x ∷ text; size = run delims (x ∷ text) } ∷ inner

run-token :
    (delims token : Bytes) (x : ℕ) (rest : Bytes)
    → none_of delims token ≡ true
    → contains x delims ≡ true
    → run delims (token ++ x ∷ rest) ≡ length token
unfolding run
run-token delims [] x rest h k = rw k refl
run-token delims (c ∷ token) x rest h k = ground (arith, run-token delims token x rest)

tokens_in-inside :
    (delims token : Bytes) (x : ℕ) (rest : Bytes)
    → none_of delims token ≡ true
    → contains x delims ≡ true
    → tokens_in delims true (token ++ x ∷ rest) ≡ tokens_in delims false (x ∷ rest)
unfolding tokens_in
tokens_in-inside delims [] x rest h k = rw k refl
tokens_in-inside delims (c ∷ token) x rest h k =
    ground (arith, tokens_in-inside delims token x rest)

pub tokens_nothing : (delims : Bytes) → tokens_in delims false [] ≡ []
unfolding tokens_in
tokens_nothing delims = refl

pub tokens_in-delimiter :
    (delims : Bytes) (x : ℕ) (rest : Bytes)
    → contains x delims ≡ true
    → tokens_in delims false (x ∷ rest) ≡ tokens_in delims false rest
unfolding tokens_in
tokens_in-delimiter delims x rest h = rw h refl

pub tokens_in-token :
    (delims : Bytes) (c : ℕ) (token : Bytes) (x : ℕ) (rest : Bytes)
    → none_of delims (c ∷ token) ≡ true
    → contains x delims ≡ true
    → tokens_in delims false ((c ∷ token) ++ x ∷ rest)
      ≡ record { from = (c ∷ token) ++ x ∷ rest; size = length (c ∷ token) }
        ∷ tokens_in delims false (x ∷ rest)
unfolding tokens_in
tokens_in-token delims c token x rest h k =
    let no_delimiter : contains c delims ≡ false = ground (arith, h) in
    let others : none_of delims token ≡ true = ground (arith, h) in
    let more = tokens_in-inside delims token x rest others k in
    rw (no_delimiter, run-token delims token x rest others k)
      (ap (λ ps. record { from = (c ∷ token) ++ x ∷ rest; size = length (c ∷ token) } ∷ ps) more)

put : ℕ → List Bytes → List Bytes
put c [] = (c ∷ []) ∷ []
put c (t ∷ ts) = (c ∷ t) ∷ ts

unfoldable pub commas : Bool → Bytes → List Bytes
unfolding put
commas quoted [] = [] ∷ []
commas quoted (c ∷ text) =
    let inside = commas (not quoted) text in
    let on = commas quoted text in
    if c == b'"' then put c inside else if (c == b',') && not quoted then [] ∷ on else put c on

joined-put : (c : ℕ) (ts : List Bytes) → joined (put c ts) ≡ c ∷ joined ts
unfolding put
joined-put c [] = refl
joined-put c (t ∷ []) = refl
joined-put c (t ∷ u ∷ ts) = refl

abbrev not_empty : List Bytes → Bool
not_empty [] = false
not_empty (t ∷ ts) = true

joined-new : (ts : List Bytes) → not_empty ts ≡ true → joined ([] ∷ ts) ≡ b',' ∷ joined ts
joined-new [] h = cc
joined-new (t ∷ ts) h = refl

not_empty-put : (c : ℕ) (ts : List Bytes) → not_empty (put c ts) ≡ true
unfolding put
not_empty-put c [] = refl
not_empty-put c (t ∷ ts) = refl

commas-some : (quoted : Bool) (text : Bytes) → not_empty (commas quoted text) ≡ true
unfolding commas
commas-some quoted [] = refl
commas-some quoted (c ∷ text) =
    ground (arith, not_empty-put c (commas (not quoted) text), not_empty-put c (commas quoted text))

pub joined-commas : (quoted : Bool) (text : Bytes) → joined (commas quoted text) ≡ text
unfolding commas
joined-commas quoted [] = refl
joined-commas quoted (c ∷ text) =
    let comma : c ≡ b',' → b',' ∷ text ≡ c ∷ text = λ e. ap (λ x. x ∷ text) (sym e) in
    let new =
      joined-new (commas quoted text) (commas-some quoted text)
      ∙ ap (λ t. b',' ∷ t) (joined-commas quoted text) in
    let put_inside =
      joined-put c (commas (not quoted) text) ∙ ap (λ t. c ∷ t) (joined-commas (not quoted) text) in
    let put_on = joined-put c (commas quoted text) ∙ ap (λ t. c ∷ t) (joined-commas quoted text) in
    ground (arith, new, put_inside, put_on, comma)

abbrev pub one_pass_tokenizer : StringTokenizer
one_pass_tokenizer = record {
  tokens = λ delims text. tokens_in delims false text;
  tokens_end = tokens_nothing;
  tokens_delimiter = tokens_in-delimiter;
  tokens_token = tokens_in-token;
  comma_tokens = commas false;
  joined-comma_tokens = joined-commas false;
}

abbrev pub number_from : ℕ → Bytes → Option ℤ
number_from n [] = some (pos n)
number_from n (c ∷ text) =
    let rest = number_from (10 * n + (c - b'0')) text in if is_ascii_digit c then rest else none

-- Whole texts of digits; nothing is left over otherwise.
abbrev pub digit_reader : IntReader
digit_reader = record { string_to_int = number_from 0; left_over = λ text. pos 0 }
