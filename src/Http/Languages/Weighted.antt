-- ===== src/Http/Languages/Weighted.antt =====
-- The quality values of `GenerateAcceptLanguageHeader`.
use nginx_quic_stack.Base.{
  ℕ, suc, ◌-◌, max, List, [], ◌∷◌, ◌++◌, ◌==◌, ltb, if◌then◌else◌, false, ◌≡◌, refl, ◌∙◌, sym,
  arith, append_assoc, append-nil,
}
use nginx_quic_stack.Base.Bytes.{Bytes, codes}
use nginx_quic_stack.Http.Languages.{add_qualities, generate_accept_language_header}
use nginx_quic_stack.Http.Pieces.{StringPiece, c_str, text_of}
use nginx_quic_stack.Http.Tokens.{StringTokenizer}
use nginx_quic_stack.Stream.Response.Text.{decimal}

-- Ten times the quality value at a place of the list: it falls from 9 to 1 behind the first place.
abbrev pub quality_at : ℕ → ℕ
quality_at k = max 1 (10 - k)

-- A language with its quality value, at the places behind the first one.
abbrev pub weighted : ℕ → List StringPiece → Bytes
weighted k [] = []
weighted k (t ∷ tokens) =
    (b',' ∷ (c_str (text_of t) ++ (codes ";q=0." ++ decimal (quality_at k))))
    ++ weighted (suc k) tokens

add_qualities-weighted :
    (k : ℕ) (written : Bytes) (tokens : List StringPiece)
    → add_qualities (quality_at (suc k)) written tokens ≡ written ++ weighted (suc k) tokens
unfolding add_qualities
add_qualities-weighted k written [] = sym (append-nil written)
add_qualities-weighted k written (t ∷ tokens) =
    let q = quality_at (suc k) in
    let entry = b',' ∷ (c_str (text_of t) ++ (codes ";q=0." ++ decimal q)) in
    let implicit : q == 10 ≡ false = ground arith in
    let falls : (if ltb 1 q then q - 1 else q) ≡ quality_at (suc (suc k)) = ground arith in
    rw (implicit, falls)
      (add_qualities-weighted (suc k) (written ++ entry) tokens
        ∙ append_assoc written entry (weighted (suc (suc k)) tokens))

abbrev pub weighted_list : List StringPiece → Bytes
weighted_list [] = []
weighted_list (t ∷ tokens) = text_of t ++ weighted 1 tokens

add_qualities-weighted_list :
    (tokens : List StringPiece) → add_qualities 10 [] tokens ≡ weighted_list tokens
unfolding add_qualities
add_qualities-weighted_list [] = refl
add_qualities-weighted_list (t ∷ tokens) = add_qualities-weighted 0 (text_of t) tokens

-- For every list of languages: GenerateAcceptLanguageHeader writes the first one as it is, and each
-- further one behind a comma, up to its first NUL, with ";q=0." and a digit that falls from 9 at
-- the second language to 1 and then stays 1.
pub generate_accept_language_header_lem :
    (tokenizer : StringTokenizer) (raw_language_list : Bytes)
    → generate_accept_language_header tokenizer raw_language_list
      ≡ weighted_list (tokenizer.tokens (codes ",") raw_language_list)
unfolding generate_accept_language_header
generate_accept_language_header_lem tokenizer raw_language_list =
    add_qualities-weighted_list (tokenizer.tokens (codes ",") raw_language_list)
