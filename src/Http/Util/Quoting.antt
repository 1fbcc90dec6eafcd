-- ===== src/Http/Util/Quoting.antt =====
-- Quoting and its inverse.
use nginx_quic_stack.Base.{
  ℕ, Bool, true, false, [], ◌∷◌, ◌++◌, some, is_nil, ◌≡◌, refl, ap, arith, append_assoc, append-nil,
}
use nginx_quic_stack.Base.Bytes.{Bytes}
use nginx_quic_stack.Http.Util.{
  last_of, drop_last, unescape, unquote_impl, unquote, strict_unquote, escape_quotes, quote,
  or_text,
}

pub last_of-concat : (c x : ℕ) (text : Bytes) → last_of c (text ++ x ∷ []) ≡ x
last_of-concat c x [] = refl
last_of-concat c x (y ∷ text) = last_of-concat y x text

drop_last-concat : (x : ℕ) (text : Bytes) → drop_last (text ++ x ∷ []) ≡ text
drop_last-concat x [] = refl
drop_last-concat x (y ∷ []) = refl
drop_last-concat x (y ∷ z ∷ text) = ap (λ t. y ∷ t) (drop_last-concat x (z ∷ text))

pub is_nil-concat : (x : ℕ) (text : Bytes) → is_nil (text ++ x ∷ []) ≡ false
is_nil-concat x [] = refl
is_nil-concat x (y ∷ text) = refl

unescape-escape_quotes :
    (strict : Bool) (out text : Bytes)
    → unescape strict false out (escape_quotes text) ≡ some (out ++ text)
unfolding unescape escape_quotes
unescape-escape_quotes strict out [] = ground (arith, append-nil out)
unescape-escape_quotes strict out (c ∷ text) =
    ground
      (arith, unescape-escape_quotes strict (out ++ c ∷ []) text, append_assoc out (c ∷ []) text)

unquote_impl-quote : (strict : Bool) (text : Bytes) → unquote_impl (quote text) strict ≡ some text
unfolding unquote_impl quote
unquote_impl-quote strict text =
    rw
      (
        last_of-concat b'"' b'"' (escape_quotes text),
        is_nil-concat b'"' (escape_quotes text),
        drop_last-concat b'"' (escape_quotes text),
      )
      (unescape-escape_quotes strict [] text)

-- For every text: StrictUnquote of its quoted form succeeds and gives the text back, and Unquote
-- gives the text back.
pub unquote-quote :
    (text : Bytes) → (strict_unquote (quote text) ≡ some text) × (unquote (quote text) ≡ text)
unfolding strict_unquote unquote
unquote-quote text =
    (unquote_impl-quote true text, ap (or_text (quote text)) (unquote_impl-quote false text))
