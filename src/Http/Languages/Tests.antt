-- ===== src/Http/Languages/Tests.antt =====
-- Lists of languages at concrete inputs.
use nginx_quic_stack.Base.{ℕ, List, [], ◌∷◌, true, ◌≡◌, ◌||◌, refl, if◌then◌else◌}
use nginx_quic_stack.Base.Bytes.{Bytes, codes, same}
use nginx_quic_stack.Concrete.Tokenizer.{one_pass_tokenizer, tokens_in}
use nginx_quic_stack.Http.Encodings.{has_text}
use nginx_quic_stack.Http.Languages.Expanded.{distinct, has_base, expand_language_list-Lists}
use nginx_quic_stack.Http.Languages.Ordered.{firsts, spelled}
use nginx_quic_stack.Http.Languages.{
  get_base_language_code, expand_language_list, generate_accept_language_header,
}
use nginx_quic_stack.Http.Pieces.{contains}
use nginx_quic_stack.Http.Tokens.{joined}
use nginx_quic_stack.Stream.Response.Text.{decimal}

abbrev put : ℕ → List Bytes → List Bytes
put c [] = (c ∷ []) ∷ []
put c (t ∷ ts) = (c ∷ t) ∷ ts

-- Pieces between separators, for texts without white space.
abbrev split : Bytes → Bytes → List Bytes
split [] separators = [] ∷ []
split (c ∷ text) separators =
    let rest = split text separators in if contains c separators then [] ∷ rest else put c rest

abbrev preferred : Bytes
preferred = codes "en-US,en-GB,fr"

expand_language_list-Lists_example :
    (listed : List Bytes) × (expand_language_list split preferred ≡ joined listed)
    × (distinct listed ≡ true)
    × (listed ≡ firsts (spelled split (split preferred (codes ","))))
    × ((e : Bytes)
        → has_text e listed
          ≡ has_text e (split preferred (codes ","))
            || has_base split e (split preferred (codes ",")))
unfolding get_base_language_code
expand_language_list-Lists_example = expand_language_list-Lists split preferred refl

expanded : expand_language_list split preferred ≡ codes "en-US,en-GB,en,fr"
unfolding expand_language_list same
expanded = refl

qualities :
    generate_accept_language_header one_pass_tokenizer preferred
    ≡ codes "en-US,en-GB;q=0.9,fr;q=0.8"
unfolding generate_accept_language_header tokens_in decimal
qualities = refl
