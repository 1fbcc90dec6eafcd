-- ===== src/Http/Languages.antt =====
-- Lists of languages in src/http_parser/http_util.cc: `AcceptLanguageBuilder`, `ExpandLanguageList`
-- and `GenerateAcceptLanguageHeader`. `gurl_base::SplitString` belongs to another project and is an
-- argument: the text and the separator, the pieces being trimmed.
pub mod Expanded
pub mod Ordered
pub mod Weighted
mod Tests
use nginx_quic_stack.Base.{
  ℕ, ◌-◌, Bool, true, false, not, List, [], ◌∷◌, ◌++◌, if◌then◌else◌, ◌==◌, ltb, is_nil,
}
use nginx_quic_stack.Base.Bytes.{Bytes, codes, same}
use nginx_quic_stack.Http.Encodings.{has_text}
use nginx_quic_stack.Http.Pieces.{StringPiece, c_str, text_of}
use nginx_quic_stack.Http.Tokens.{StringTokenizer}
use nginx_quic_stack.Stream.Response.Text.{decimal}

pub record AcceptLanguageBuilder : Type 0 where
  pub str : Bytes
  pub seen : List Bytes

abbrev pub new_builder : AcceptLanguageBuilder
new_builder = record { str = []; seen = [] }

-- Formatting with %s reads a C string.
unfoldable pub add_language_code : Bytes → AcceptLanguageBuilder → AcceptLanguageBuilder
add_language_code language b = if has_text language b.seen then b else record {
  str = if is_nil b.str then c_str language else b.str ++ b',' ∷ c_str language;
  seen = b.seen ++ language ∷ [];
}

module _ (split_string : Bytes → Bytes → List Bytes) where
  abbrev first_token : List Bytes → Bytes
  first_token [] = []
  first_token (t ∷ tokens) = t

  unfoldable pub get_base_language_code : Bytes → Bytes
  get_base_language_code language_code = first_token (split_string language_code (codes "-"))

  -- Whether the base language is added here: the next language is not of its family.
  abbrev pub ends_family : Bytes → List Bytes → Bool
  ends_family base_language [] = true
  ends_family base_language (next ∷ languages) =
      not (same (get_base_language_code next) base_language)

  unfoldable pub add_languages : List Bytes → AcceptLanguageBuilder → AcceptLanguageBuilder
  unfolding add_language_code get_base_language_code
  add_languages [] b = b
  add_languages (language ∷ languages) b =
      let base_language = get_base_language_code language in
      let added = add_language_code language b in
      add_languages languages (
        if ends_family base_language languages
        then add_language_code base_language added
        else added)

  unfoldable pub expand_language_list : Bytes → Bytes
  unfolding add_languages
  expand_language_list language_prefs =
      (add_languages (split_string language_prefs (codes ",")) new_builder).str

-- The loop over the languages, with ten times the quality value and what is written so far.
unfoldable pub add_qualities : ℕ → Bytes → List StringPiece → Bytes
add_qualities qvalue10 written [] = written
add_qualities qvalue10 written (t ∷ tokens) =
    let language = text_of t in
    add_qualities (if ltb 1 qvalue10 then qvalue10 - 1 else qvalue10)
      (if qvalue10 == 10
        then language
        else written ++ (b',' ∷ (c_str language ++ (codes ";q=0." ++ decimal qvalue10))))
      tokens

unfoldable pub generate_accept_language_header : StringTokenizer → Bytes → Bytes
unfolding add_qualities
generate_accept_language_header tokenizer raw_language_list =
    add_qualities 10 [] (tokenizer.tokens (codes ",") raw_language_list)
