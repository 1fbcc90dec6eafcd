-- ===== src/Http/NameValuePairs/Tests.antt =====
-- Pairs of names and values at concrete inputs.
use nginx_quic_stack.Base.{List, [], ◌∷◌, true, false, ◌≡◌, refl}
use nginx_quic_stack.Base.Bytes.{codes}
use nginx_quic_stack.Http.NameValuePairs.Printed.{
  Reads, print_props, pairs_of, new_iterator-print_props,
}
use nginx_quic_stack.Http.NameValuePairs.{
  NameValuePairsIterator, required, strict_quotes, new_iterator, default_iterator, get_next,
  pair_value,
}
use nginx_quic_stack.Http.Parameters.{Printed}
use nginx_quic_stack.Http.Util.{is_token, is_token_char}

abbrev two_pairs : List Printed
two_pairs =
    record { name = codes "a"; value = codes "b\"c"; in_quotes = true }
    ∷ record { name = codes "d"; value = codes "e"; in_quotes = false }
    ∷ []

new_iterator-print_props_example :
    (last : NameValuePairsIterator) × Reads last
      (new_iterator (print_props two_pairs) required strict_quotes)
      (pairs_of two_pairs)
    × (last.valid ≡ true)
unfolding is_token is_token_char
new_iterator-print_props_example =
    new_iterator-print_props two_pairs required strict_quotes
      ((refl, λ h. cc), ((refl, λ h. refl), tt))

no_close_quote :
    pair_value (get_next (default_iterator (codes "name=\"value" ∷ []))).1 ≡ codes "value"
unfolding get_next default_iterator
no_close_quote = refl

no_name : (get_next (default_iterator (codes "=value" ∷ []))).1.valid ≡ false
unfolding get_next default_iterator
no_name = refl
