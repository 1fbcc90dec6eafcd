-- ===== src/Http/NameValuePairs/Printed.antt =====
-- Pairs as a sender writes them, read by the iterator.
use nginx_quic_stack.Http.Parameters.{Printed, print_value, AllParameters}
use nginx_quic_stack.Base.{
  ℕ, ◌+◌, zero, suc, Bool, true, false, List, [], ◌∷◌, ◌++◌, some, if◌then◌else◌, ◌==◌, is_nil,
  length, take, drop, Bool-cases, inl, inr, ◌≡◌, refl, ap, ◌∙◌, arith, subst,
}
use nginx_quic_stack.Base.Bytes.{Bytes, codes}
use nginx_quic_stack.Http.ContentType.{Parameter}
use nginx_quic_stack.Http.Encodings.{trimmed, contains_any}
use nginx_quic_stack.Http.NameValuePairs.{
  Values, Quotes, strict_quotes, not_strict, NameValuePairsIterator, new_iterator, pair_value,
  next_value, strictly, read_quoted, read_value, read_named, read_pair, read_prop, get_next,
}
use nginx_quic_stack.Http.Texts.{take-key, drop-key}
use nginx_quic_stack.Http.Util.Quoting.{unquote-quote, last_of-concat, is_nil-concat}
use nginx_quic_stack.Http.Util.{
  is_token, is_token_char, quote, escape_quotes, last_of, unquote, strict_unquote,
}
use nginx_quic_stack.Http.NameValuePairs.Solid.{
  trimmed-solid, starts_token, ends_token, IsSolid, print_value-IsSolid, print_prop,
  trimmed-print_prop, find_char-append, contains_any-quote, plain_name,
}

-- The iterator behind a printed pair.
abbrev at_pair : Printed → List Bytes → NameValuePairsIterator → NameValuePairsIterator
at_pair p props it = record it {
  props = props;
  name = p.name;
  raw_value = print_value p;
  unquoted_value = if p.in_quotes then p.value else [];
  value_is_quoted = p.in_quotes;
}

read_quoted_strict :
    (it : NameValuePairsIterator) (c : ℕ) (text : Bytes)
    → read_quoted it c text strict_quotes
      ≡ strictly (record it { value_is_quoted = true }) (strict_unquote (c ∷ text))
unfolding read_quoted
read_quoted_strict it c text = refl

read_quoted_closed :
    (it : NameValuePairsIterator) (c : ℕ) (text : Bytes)
    → last_of c text == c ≡ true
    → is_nil text ≡ false
    → read_quoted it c text not_strict
      ≡ (true, record it { value_is_quoted = true; unquoted_value = unquote (c ∷ text) })
unfolding read_quoted
read_quoted_closed it c text closed some_text = rw (closed, some_text) refl

read_quoted-quote :
    (it : NameValuePairsIterator) (text : Bytes) (q : Quotes)
    → read_quoted it b'"' (escape_quotes text ++ b'"' ∷ []) q
      ≡ (true, record it { value_is_quoted = true; unquoted_value = text })
unfolding quote
read_quoted-quote it text strict_quotes =
    read_quoted_strict it b'"' (escape_quotes text ++ b'"' ∷ [])
    ∙ ap (strictly (record it { value_is_quoted = true })) (unquote-quote text).0
read_quoted-quote it text not_strict =
    let read : Bytes → Bool × NameValuePairsIterator =
      λ t. (true, record it { value_is_quoted = true; unquoted_value = t }) in
    read_quoted_closed it b'"' (escape_quotes text ++ b'"' ∷ [])
      (ap (λ c. c == b'"') (last_of-concat b'"' b'"' (escape_quotes text)))
      (is_nil-concat b'"' (escape_quotes text))
    ∙ ap read (unquote-quote text).1

read_value-token :
    (it : NameValuePairsIterator) (text : Bytes)
    → is_token text ≡ true
    → read_value true it text ≡ (true, it)
unfolding is_token is_token_char
read_value-token it [] h = cc
read_value-token it (c ∷ text) h = ground (arith, h)

read_value-print_value :
    (it : NameValuePairsIterator) (p : Printed)
    → (p.in_quotes ≡ false → is_token p.value ≡ true)
    → read_value true (record it { unquoted_value = []; value_is_quoted = false }) (print_value p)
      ≡ (
        true,
        record it {
          unquoted_value = if p.in_quotes then p.value else [];
          value_is_quoted = p.in_quotes;
        },
      )
read_value-print_value it p h =
    let cut = record it { unquoted_value = []; value_is_quoted = false } in
    elim (Bool-cases p.in_quotes) [
      | inl quoted ↦ rw quoted (unfold quote in read_quoted-quote cut p.value it.quotes)
      | inr plain ↦ rw plain (read_value-token cut p.value (h plain))
    ]

next_value-solid :
    (prop : Bytes) (props : List Bytes)
    → trimmed prop ≡ prop
    → is_nil prop ≡ false
    → next_value (prop ∷ props) ≡ some (prop, props)
unfolding next_value
next_value-solid prop props solid some_text = rw (solid, some_text) refl

read_pair_found :
    (it : NameValuePairsIterator) (prop : Bytes) (n : ℕ)
    → n == 0 ≡ false
    → contains_any (codes "\"") (take n prop) ≡ false
    → read_pair it prop (some n) ≡ read_named true it (take n prop) (drop (n + 1) prop)
read_pair_found it prop zero h plain = cc
read_pair_found it prop (suc k) h plain = rw plain refl

read_named-solid :
    (it : NameValuePairsIterator) (name behind : Bytes)
    → trimmed name ≡ name
    → trimmed behind ≡ behind
    → read_named true it name behind
      ≡ read_value true
          (record it {
            name = name;
            raw_value = behind;
            value_is_quoted = false;
            unquoted_value = [];
          })
          behind
unfolding read_named
read_named-solid it name behind one two = rw (one, two) refl

is_nil-append : (name : Bytes) (c : ℕ) (rest : Bytes) → is_nil (name ++ c ∷ rest) ≡ false
is_nil-append [] c rest = refl
is_nil-append (x ∷ name) c rest = refl

length-name : (name : Bytes) → is_token name ≡ true → length name == 0 ≡ false
unfolding is_token
length-name [] h = cc
length-name (c ∷ name) h = ground arith

-- One round: the pair is read as it was written, with strict quotes or without.
get_next-print_prop :
    (it : NameValuePairsIterator) (p : Printed) (props : List Bytes)
    → it.props ≡ print_prop p ∷ props
    → is_token p.name ≡ true
    → (p.in_quotes ≡ false → is_token p.value ≡ true)
    → get_next it ≡ (true, at_pair p props it)
unfolding get_next IsSolid is_token_char
get_next-print_prop it p props here named valued =
    let (start, end, some_text) = print_value-IsSolid p valued in
    let moved : NameValuePairsIterator = record it {
      props = props;
      raw_value = print_prop p;
      name = [];
    } in
    let no_quote : contains_any (codes "\"") (take (length p.name) (print_prop p)) ≡ false =
      ap (contains_any (codes "\"")) (take-key p.name (b'=' ∷ print_value p))
      ∙ contains_any-quote p.name (plain_name b'"' p.name refl named) in
    let solid_name = trimmed-solid p.name (starts_token p.name named) (ends_token p.name named) in
    ap (λ ts. read_prop it (next_value ts)) here
    ∙ (ap (read_prop it) (
          next_value-solid (print_prop p) props (trimmed-print_prop p named valued)
            (is_nil-append p.name b'=' (print_value p)))
        ∙ (ap (read_pair moved (print_prop p))
              (find_char-append b'=' p.name (print_value p) (plain_name b'=' p.name refl named))
            ∙ (read_pair_found moved (print_prop p) (length p.name) (length-name p.name named)
                  no_quote
                ∙ (rw
                      (
                        take-key p.name (b'=' ∷ print_value p),
                        drop-key p.name (print_value p) b'=' (length p.name + 1) refl,
                      )
                      (read_named-solid moved p.name (print_value p) solid_name
                        (trimmed-solid (print_value p) start end))
                    ∙ read_value-print_value
                        (record moved { name = p.name; raw_value = print_value p }) p valued))))

-- The rounds of the iterator up to its end: the names and values that it gives.
pub data Reads (last : NameValuePairsIterator)
    : NameValuePairsIterator → List Parameter → Type 0 where
  end : {it : NameValuePairsIterator} → get_next it ≡ (false, last) → Reads last it []
  pair :
      {it next : NameValuePairsIterator} {rest : List Parameter}
      → get_next it ≡ (true, next)
      → Reads last next rest
      → Reads last it ((next.name, pair_value next) ∷ rest)

abbrev pub print_props : List Printed → List Bytes
print_props [] = []
print_props (p ∷ ps) = print_prop p ∷ print_props ps

abbrev pub pairs_of : List Printed → List Parameter
pairs_of [] = []
pairs_of (p ∷ ps) = (p.name, p.value) ∷ pairs_of ps

pair_value-at_pair :
    (p : Printed) (props : List Bytes) (it : NameValuePairsIterator)
    → pair_value (at_pair p props it) ≡ p.value
pair_value-at_pair p props it = elim (Bool-cases p.in_quotes) [
  | inl quoted ↦ rw quoted refl
  | inr plain ↦ rw plain refl
]

get_next_end :
    (it : NameValuePairsIterator) → it.props ≡ [] → get_next it ≡ (false, record it { props = [] })
unfolding get_next next_value
get_next_end it done = ap (λ ts. read_prop it (next_value ts)) done

Reads-print_props :
    (it : NameValuePairsIterator) (ps : List Printed)
    → it.props ≡ print_props ps
    → AllParameters ps
    → (last : NameValuePairsIterator) × Reads last it (pairs_of ps) × (last.valid ≡ it.valid)
Reads-print_props it [] here v = (record it { props = [] }, end (get_next_end it here), refl)
Reads-print_props it (p ∷ ps) here ((named, valued), vs) =
    let step = get_next-print_prop it p (print_props ps) here named valued in
    let (last, reads, kept) = Reads-print_props (at_pair p (print_props ps) it) ps refl vs in
    (
      last,
      subst (λ v. Reads last it ((p.name, v) ∷ pairs_of ps))
          (pair_value-at_pair p (print_props ps) it) (pair step reads),
      kept,
    )

-- For pairs whose names are tokens and whose values are quoted, or tokens: an iterator over them,
-- each written as "name=value", with values required or not and with strict quotes or not, gives
-- exactly these names and values in their order, then ends, and is still valid.
pub new_iterator-print_props :
    (ps : List Printed) (optional_values : Values) (quotes : Quotes)
    → AllParameters ps
    → (last : NameValuePairsIterator) × Reads last
        (new_iterator (print_props ps) optional_values quotes)
        (pairs_of ps)
      × (last.valid ≡ true)
unfolding new_iterator
new_iterator-print_props ps optional_values quotes v =
    Reads-print_props (new_iterator (print_props ps) optional_values quotes) ps refl v
