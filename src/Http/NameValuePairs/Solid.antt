-- ===== src/Http/NameValuePairs/Solid.antt =====
-- Texts of pairs: where white space, quotation marks and the equals sign stand in them.
use nginx_quic_stack.Http.Parameters.{Printed, print_value}
use nginx_quic_stack.Base.{
  ℕ, true, false, not, [], ◌∷◌, ◌++◌, some, all, is_nil, length, Bool-cases, inl, inr, ◌≡◌, refl,
  ap, ◌∙◌, sym, arith, append-nil,
}
use nginx_quic_stack.Base.Bytes.{Bytes, codes}
use nginx_quic_stack.Http.Encodings.{trimmed, contains_any}
use nginx_quic_stack.Http.Pieces.{is_lws, contains, find_char, text_of, trim_lws}
use nginx_quic_stack.Http.ResponseHeaders.Ends.{starts_solid, ends_solid, trim_lws-solid}
use nginx_quic_stack.Http.Texts.{take-key, contains-token, last_of-append}
use nginx_quic_stack.Http.Util.Quoting.{last_of-concat}
use nginx_quic_stack.Http.Util.{is_token, is_token_char, quote, escape_quotes, last_of}

pub trimmed-solid :
    (text : Bytes) → starts_solid text ≡ true → ends_solid text ≡ true → trimmed text ≡ text
trimmed-solid text start end =
    ap (λ t. text_of (trim_lws (record { from = t; size = length text }))) (sym (append-nil text))
    ∙ (ap text_of (trim_lws-solid text [] start end) ∙ take-key text [])

char_not_lws : (c : ℕ) → is_token_char c ≡ true → is_lws c ≡ false
unfolding is_token_char
char_not_lws c h = ground (arith, h)

last_char :
    (c : ℕ) (token : Bytes)
    → all is_token_char (c ∷ token) ≡ true
    → is_lws (last_of c token) ≡ false
last_char c [] h = char_not_lws c (ground (arith, h))
last_char c (x ∷ token) h = last_char x token (ground (arith, h))

pub starts_token : (token : Bytes) → is_token token ≡ true → starts_solid token ≡ true
unfolding is_token
starts_token [] h = refl
starts_token (c ∷ token) h = ground (arith, char_not_lws c)

pub ends_token : (token : Bytes) → is_token token ≡ true → ends_solid token ≡ true
unfolding is_token
ends_token [] h = refl
ends_token (c ∷ token) h = ground (arith, last_char c token h)

starts_quote : (text : Bytes) → starts_solid (quote text) ≡ true
unfolding quote
starts_quote text = refl

ends_quote : (text : Bytes) → ends_solid (quote text) ≡ true
unfolding quote
ends_quote text = ap (λ c. not (is_lws c)) (last_of-concat b'"' b'"' (escape_quotes text))

-- A value that is printed starts and ends with no white space, and is not empty.
unfoldable pub IsSolid : Bytes → Type 0
IsSolid text = (starts_solid text ≡ true) × (ends_solid text ≡ true) × (is_nil text ≡ false)

pub print_value-IsSolid :
    (p : Printed) → (p.in_quotes ≡ false → is_token p.value ≡ true) → IsSolid (print_value p)
unfolding IsSolid
print_value-IsSolid p h = elim (Bool-cases p.in_quotes) [
  | inl quoted ↦ rw quoted (starts_quote p.value, ends_quote p.value, unfold quote in refl)
  | inr plain ↦
      let token = h plain in
      rw plain (
        starts_token p.value token,
        ends_token p.value token,
        unfold is_token in ground (arith, token),
      )
]

abbrev pub print_prop : Printed → Bytes
print_prop p = p.name ++ b'=' ∷ print_value p

ends_solid-append :
    (name : Bytes) (c : ℕ) (text : Bytes)
    → ends_solid text ≡ true
    → is_nil text ≡ false
    → ends_solid (name ++ c ∷ text) ≡ true
ends_solid-append name c [] h some_text = cc
ends_solid-append [] c (x ∷ text) h some_text = h
ends_solid-append (y ∷ name) c (x ∷ text) h some_text =
    ap (λ k. not (is_lws k)) (last_of-append y c name (x ∷ text)) ∙ h

starts_solid-append :
    (name rest : Bytes) → is_token name ≡ true → starts_solid (name ++ rest) ≡ true
unfolding is_token
starts_solid-append [] rest h = cc
starts_solid-append (c ∷ name) rest h = starts_token (c ∷ name) h

pub trimmed-print_prop :
    (p : Printed)
    → is_token p.name ≡ true
    → (p.in_quotes ≡ false → is_token p.value ≡ true)
    → trimmed (print_prop p) ≡ print_prop p
unfolding IsSolid
trimmed-print_prop p named valued =
    let (start, end, some_text) = print_value-IsSolid p valued in
    trimmed-solid (print_prop p) (starts_solid-append p.name (b'=' ∷ print_value p) named)
      (ends_solid-append p.name b'=' (print_value p) end some_text)

pub find_char-append :
    (c : ℕ) (name rest : Bytes)
    → contains c name ≡ false
    → find_char c (length (name ++ c ∷ rest)) (name ++ c ∷ rest) ≡ some (length name)
unfolding find_char
find_char-append c [] rest h = ground arith
find_char-append c (x ∷ name) rest h = ground (arith, find_char-append c name rest)

pub contains_any-quote :
    (text : Bytes) → contains b'"' text ≡ false → contains_any (codes "\"") text ≡ false
contains_any-quote [] h = refl
contains_any-quote (c ∷ text) h = ground (arith, contains_any-quote text)

pub plain_name :
    (c : ℕ) (name : Bytes)
    → is_token_char c ≡ false
    → is_token name ≡ true
    → contains c name ≡ false
unfolding is_token
plain_name c [] other h = refl
plain_name c (x ∷ name) other h = contains-token c (x ∷ name) other h
