-- ===== src/Http/NameValuePairs.antt =====
-- `HttpUtil::NameValuePairsIterator` of src/http_parser/http_util.cc. The tokenizer under its
-- `ValuesIterator`, which cuts a text at the delimiters outside quotes, belongs to another project:
-- `props` is what it has still to give. A range of iterators is its text.
pub mod Solid
pub mod Printed
mod Tests
use nginx_quic_stack.Base.{
  ℕ, ◌+◌, zero, suc, Bool, true, false, ◌&&◌, ◌||◌, not, List, [], ◌∷◌, Option, none, some,
  if◌then◌else◌, ◌==◌, is_nil, length, take, drop,
}
use nginx_quic_stack.Base.Bytes.{Bytes, codes}
use nginx_quic_stack.Http.Encodings.{trimmed, contains_any}
use nginx_quic_stack.Http.Pieces.{trim_lws, find_char}
use nginx_quic_stack.Http.Util.{is_quote, last_of, unquote, strict_unquote}

pub data Values : Type 0 where
  not_required : Values
  required : Values

pub data Quotes : Type 0 where
  strict_quotes : Quotes
  not_strict : Quotes

pub record NameValuePairsIterator : Type 0 where
  pub props : List Bytes
  pub valid : Bool
  pub name : Bytes
  pub raw_value : Bytes
  pub unquoted_value : Bytes
  pub value_is_quoted : Bool
  pub optional_values : Values
  pub quotes : Quotes

-- The constructors.
unfoldable pub new_iterator : List Bytes → Values → Quotes → NameValuePairsIterator
new_iterator props optional_values quotes = record {
  props = props;
  valid = true;
  name = [];
  raw_value = [];
  unquoted_value = [];
  value_is_quoted = false;
  optional_values = optional_values;
  quotes = quotes;
}

unfoldable pub default_iterator : List Bytes → NameValuePairsIterator
unfolding new_iterator
default_iterator props = new_iterator props required not_strict

abbrev pub pair_value : NameValuePairsIterator → Bytes
pair_value it = if it.value_is_quoted then it.unquoted_value else it.raw_value

-- `ValuesIterator::GetNext`, which passes over empty values.
unfoldable pub next_value : List Bytes → Option (Bytes × List Bytes)
unfolding trim_lws
next_value [] = none
next_value (token ∷ props) =
    let later = next_value props in
    if is_nil (trimmed token) then later else some (trimmed token, props)

abbrev pub invalid : NameValuePairsIterator → Bool × NameValuePairsIterator
invalid it = (false, record it { valid = false })

abbrev pub strictly : NameValuePairsIterator → Option Bytes → Bool × NameValuePairsIterator
strictly it none = invalid it
strictly it (some unquoted) = (true, record it { unquoted_value = unquoted })

-- A value that starts with a quotation mark.
unfoldable pub read_quoted :
    NameValuePairsIterator → ℕ → Bytes → Quotes → Bool × NameValuePairsIterator
unfolding strict_unquote unquote
read_quoted it c text strict_quotes =
    strictly (record it { value_is_quoted = true }) (strict_unquote (c ∷ text))
read_quoted it c text not_strict =
    if not (last_of c text == c) || is_nil text
    then (true, record it { value_is_quoted = false; raw_value = text })
    else (true, record it { value_is_quoted = true; unquoted_value = unquote (c ∷ text) })

-- The name and the value are cut apart; the flag says that there is an equals sign.
abbrev pub read_value : Bool → NameValuePairsIterator → Bytes → Bool × NameValuePairsIterator
read_value equals it [] = if equals then invalid it else (true, it)
read_value equals it (c ∷ text) = if is_quote c then read_quoted it c text it.quotes else (true, it)

unfoldable pub read_named :
    Bool → NameValuePairsIterator → Bytes → Bytes → Bool × NameValuePairsIterator
unfolding read_quoted trim_lws
read_named equals it before behind =
    let cut = record it {
      name = trimmed before;
      raw_value = trimmed behind;
      value_is_quoted = false;
      unquoted_value = [];
    } in
    read_value equals cut (trimmed behind)

abbrev pub values_optional : Values → Bool
values_optional not_required = true
values_optional required = false

-- At the first equals sign.
abbrev pub read_pair : NameValuePairsIterator → Bytes → Option ℕ → Bool × NameValuePairsIterator
read_pair it prop none =
    if values_optional it.optional_values then read_named false it prop [] else invalid it
read_pair it prop (some zero) = invalid it
read_pair it prop (some (suc k)) =
    if contains_any (codes "\"") (take (suc k) prop)
    then invalid it
    else read_named true it (take (suc k) prop) (drop (suc k + 1) prop)

abbrev pub read_prop :
    NameValuePairsIterator → Option (Bytes × List Bytes) → Bool × NameValuePairsIterator
read_prop it none = (false, record it { props = [] })
read_prop it (some (prop, props)) =
    read_pair (record it { props = props; raw_value = prop; name = [] }) prop
      (find_char b'=' (length prop) prop)

unfoldable pub get_next : NameValuePairsIterator → Bool × NameValuePairsIterator
unfolding next_value read_named find_char
get_next it = read_prop it (next_value it.props)
