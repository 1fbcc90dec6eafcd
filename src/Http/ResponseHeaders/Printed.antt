-- ===== src/Http/ResponseHeaders/Printed.antt =====
-- Header lines with NUL behind each, as they are read back: `HeadersIterator` and the private
-- `AddHeader` on lines that are printed.
use nginx_quic_stack.Base.{
  ℕ, ◌+◌, ◌-◌, ◌≤◌, zero, suc, true, false, List, [], ◌∷◌, ◌++◌, some, all, length, take, drop, ◌≡◌,
  refl, ap, ◌∙◌, arith, append_assoc, length-append, subst,
}
use nginx_quic_stack.Base.Bytes.{Bytes, codes}
use nginx_quic_stack.Http.Pieces.{StringPiece, contains, is_lws, find_char, trim_left, trim_lws}
use nginx_quic_stack.Http.Texts.{contains-token, contains-append, take-key, drop-key, contains-key}
use nginx_quic_stack.Http.Tokens.{StringTokenizer, none_of}
use nginx_quic_stack.Http.Util.{is_token, is_token_char, last_of}
use nginx_quic_stack.Http.ResponseHeaders.{ParsedHeader, header_at, header_found, read_line}
use nginx_quic_stack.Http.ResponseHeaders.Lookup.{HeaderEntry}
use nginx_quic_stack.Http.ResponseHeaders.Ends.{starts_solid, ends_solid, trim_lws-solid}

-- A name and a value that are printed and read without a change.
pub record Field : Type 0 where
  pub name : Bytes
  pub value : Bytes

pub record IsField (f : Field) : Type 0 where
  pub name : is_token f.name ≡ true
  pub no_nul : contains 0 f.value ≡ false
  pub start : starts_solid f.value ≡ true
  pub end : ends_solid f.value ≡ true

abbrev pub AllFields : List Field → Type 0
AllFields [] = Unit {0}
AllFields (f ∷ fs) = IsField f × AllFields fs

abbrev pub entry_for : Field → HeaderEntry
entry_for f = record { name = f.name; value = f.value; line = f.name ++ (codes ": " ++ f.value) }

abbrev pub entries_for : List Field → List HeaderEntry
entries_for [] = []
entries_for (f ∷ fs) = entry_for f ∷ entries_for fs

abbrev pub print_fields : List Field → Bytes
print_fields [] = []
print_fields (f ∷ fs) = f.name ++ (codes ": " ++ (f.value ++ 0 ∷ print_fields fs))

-- The lines in place, with a NUL behind the last one.
abbrev pub print_ended : List Field → Bytes
print_ended [] = 0 ∷ []
print_ended (f ∷ fs) = f.name ++ (codes ": " ++ (f.value ++ 0 ∷ print_ended fs))

abbrev pub line_piece : Field → Bytes → StringPiece
line_piece f rest = record {
  from = f.name ++ (codes ": " ++ (f.value ++ rest));
  size = length f.name + (2 + length f.value);
}

abbrev pub line_pieces : List Field → List StringPiece
line_pieces [] = []
line_pieces (f ∷ fs) = line_piece f (0 ∷ print_ended fs) ∷ line_pieces fs

none_of_nul : (text : Bytes) → contains 0 text ≡ false → none_of (0 ∷ []) text ≡ true
none_of_nul [] h = refl
none_of_nul (c ∷ text) h = ground (arith, none_of_nul text)

module _ (tokenizer : StringTokenizer) where
  open tokenizer use {tokens, tokens_end, tokens_delimiter, tokens_token}

  tokens-line :
      (name value rest : Bytes)
      → is_token name ≡ true
      → contains 0 value ≡ false
      → tokens (0 ∷ []) (name ++ (codes ": " ++ (value ++ 0 ∷ rest)))
        ≡ record {
          from = name ++ (codes ": " ++ (value ++ 0 ∷ rest));
          size = length name + (2 + length value);
        }
          ∷ tokens (0 ∷ []) rest
  unfolding is_token
  tokens-line [] value rest name no_nul = cc
  tokens-line (c ∷ name) value rest named no_nul =
      let token = name ++ b':' ∷ b' ' ∷ value in
      let plain : contains 0 (c ∷ token) ≡ false = ground (
        arith,
        contains-append 0 (c ∷ name) (b':' ∷ b' ' ∷ value),
        contains-key (c ∷ name) named,
        no_nul,
      ) in
      let first = tokens_token (0 ∷ []) c token 0 rest (none_of_nul (c ∷ token) plain) refl in
      let shape : (c ∷ token) ++ 0 ∷ rest ≡ (c ∷ name) ++ (codes ": " ++ (value ++ 0 ∷ rest)) =
        append_assoc (c ∷ name) (b':' ∷ b' ' ∷ value) (0 ∷ rest) in
      let measure : length (c ∷ token) ≡ length (c ∷ name) + (2 + length value) =
        omega (arith, length-append name (b':' ∷ b' ' ∷ value)) in
      let behind = tokens_delimiter (0 ∷ []) 0 rest refl in
      subst
        (λ s.
          tokens (0 ∷ []) s
          ≡ record { from = s; size = length (c ∷ name) + (2 + length value) }
            ∷ tokens (0 ∷ []) rest)
        shape (first ∙ rw (measure, behind) refl)

  pub tokens-print :
      (fs : List Field) → AllFields fs → tokens (0 ∷ []) (print_ended fs) ≡ line_pieces fs
  tokens-print [] v = tokens_delimiter (0 ∷ []) 0 [] refl ∙ tokens_end (0 ∷ [])
  tokens-print (f ∷ fs) (v, vs) =
      tokens-line f.name f.value (print_ended fs) v.name v.no_nul
      ∙ ap (λ ps. line_piece f (0 ∷ print_ended fs) ∷ ps) (tokens-print fs vs)

find_char-name :
    (name rest : Bytes) (n : ℕ)
    → contains b':' name ≡ false
    → suc (length name) ≤ n
    → find_char b':' n (name ++ b':' ∷ rest) ≡ some (length name)
unfolding find_char
find_char-name name rest zero h k = absurd (omega (arith, k))
find_char-name [] rest (suc n) h k = refl
find_char-name (x ∷ name) rest (suc n) h k = ground (arith, find_char-name name rest n)

token_char_not_lws : (c : ℕ) → is_token_char c ≡ true → is_lws c ≡ false
unfolding is_token_char
token_char_not_lws c h = ground (arith, h)

token_last :
    (c : ℕ) (name : Bytes)
    → all is_token_char (c ∷ name) ≡ true
    → is_token_char (last_of c name) ≡ true
token_last c [] h = ground arith
token_last c (x ∷ name) h = ground (arith, token_last x name)

token_solid :
    (c : ℕ) (name : Bytes)
    → is_token (c ∷ name) ≡ true
    → (starts_solid (c ∷ name) ≡ true) × (ends_solid (c ∷ name) ≡ true)
unfolding is_token
token_solid c name h = (
  ground (arith, token_char_not_lws c),
  ground (arith, token_char_not_lws (last_of c name), token_last c name),
)

trim_lws-value :
    (value rest : Bytes)
    → starts_solid value ≡ true
    → ends_solid value ≡ true
    → trim_lws (record { from = b' ' ∷ (value ++ rest); size = suc (length value) })
      ≡ record { from = value ++ rest; size = length value }
unfolding trim_lws trim_left
trim_lws-value value rest start end = trim_lws-solid value rest start end

header_at-print :
    (c : ℕ) (name value rest : Bytes)
    → is_token (c ∷ name) ≡ true
    → starts_solid value ≡ true
    → ends_solid value ≡ true
    → header_at (suc (length name)) (record {
      from = (c ∷ name) ++ (codes ": " ++ (value ++ rest));
      size = length (c ∷ name) + (2 + length value);
    })
      ≡ some (record {
        name = record {
          from = (c ∷ name) ++ (codes ": " ++ (value ++ rest));
          size = length (c ∷ name);
        };
        value = record { from = value ++ rest; size = length value };
      })
unfolding header_at
header_at-print c name value rest named start end =
    let solid = token_solid c name named in
    let behind = codes ": " ++ (value ++ rest) in
    let trimmed = trim_lws-solid (c ∷ name) behind solid.0 solid.1 in
    let named_part : is_token (take (length (c ∷ name)) ((c ∷ name) ++ behind)) ≡ true =
      ap is_token (take-key (c ∷ name) behind) ∙ named in
    let no_space : is_lws c ≡ false = ground (arith, solid.0) in
    let dropped : drop (suc (length name) + 1) ((c ∷ name) ++ behind) ≡ b' ' ∷ (value ++ rest) =
      drop-key (c ∷ name) (b' ' ∷ (value ++ rest)) b':' (suc (length name) + 1) refl in
    let left : suc (length name) + (2 + length value) - (suc (length name) + 1)
        ≡ suc (length value) =
      omega arith in
    rw (no_space, trimmed, named_part, dropped, left, trim_lws-value value rest start end) refl

read_line-name :
    (name value rest : Bytes)
    → is_token name ≡ true
    → starts_solid value ≡ true
    → ends_solid value ≡ true
    → read_line (record {
      from = name ++ (codes ": " ++ (value ++ rest));
      size = length name + (2 + length value);
    })
      ≡ some (record {
        name = record { from = name ++ (codes ": " ++ (value ++ rest)); size = length name };
        value = record { from = value ++ rest; size = length value };
      })
unfolding read_line is_token is_token_char
read_line-name [] value rest named start end = cc
read_line-name (c ∷ name) value rest named start end =
    let no_colon : contains b':' (c ∷ name) ≡ false = contains-token b':' (c ∷ name) refl named in
    ap
      (λ o. header_found o (record {
        from = (c ∷ name) ++ (codes ": " ++ (value ++ rest));
        size = length (c ∷ name) + (2 + length value);
      }))
      (find_char-name (c ∷ name) (b' ' ∷ (value ++ rest)) (length (c ∷ name) + (2 + length value))
        no_colon (omega arith))
    ∙ header_at-print c name value rest named start end

-- The header that a line gives.
abbrev pub parsed_for : Field → Bytes → ParsedHeader
parsed_for f rest = record {
  name = record { from = f.name ++ (codes ": " ++ (f.value ++ rest)); size = length f.name };
  value = record { from = f.value ++ rest; size = length f.value };
}

pub read_line-print :
    (f : Field) (rest : Bytes)
    → IsField f
    → read_line (line_piece f rest) ≡ some (parsed_for f rest)
read_line-print f rest v = read_line-name f.name f.value rest v.name v.start v.end
