-- ===== src/Net/Escape/Html.antt =====
-- Escapes for HTML undone.
use nginx_quic_stack.Base.{
  ℕ, false, [], ◌∷◌, ◌++◌, ◌==◌, ◌≡◌, refl, ap, sym, ◌∙◌, arith, Bool-cases, inl, inr,
}
use nginx_quic_stack.Base.Bytes.{Bytes, codes}
use nginx_quic_stack.Http.Pieces.{contains}
use nginx_quic_stack.Net.Escape.{
  append_escaped_char_for_html, escape_for_html, unescape_from, unescape_for_html,
}

unescape_from-plain :
    (c : ℕ) (text : Bytes)
    → (c == b'&') ≡ false
    → unescape_from 0 (c ∷ text) ≡ c ∷ unescape_from 0 text
unfolding unescape_from
unescape_from-plain c text h = rw h refl

nothing : unescape_from 0 [] ≡ []
unfolding unescape_from
nothing = refl

unescape_from-none : (text : Bytes) → contains b'&' text ≡ false → unescape_from 0 text ≡ text
unescape_from-none [] h = nothing
unescape_from-none (c ∷ text) h =
    let other : (c == b'&') ≡ false = ground (arith, h) in
    unescape_from-plain c text other ∙ ap (λ t. c ∷ t) (unescape_from-none text (ground (arith, h)))

unescape_for_html-loop : (text : Bytes) → unescape_for_html text ≡ unescape_from 0 text
unfolding unescape_for_html
unescape_for_html-loop text = elim (Bool-cases (contains b'&' text)) [
  | inl some_code ↦ rw some_code refl
  | inr no_code ↦ rw no_code (sym (unescape_from-none text no_code))
]

less : (text : Bytes) → unescape_from 0 (codes "&lt;" ++ text) ≡ b'<' ∷ unescape_from 0 text
unfolding unescape_from
less text = refl

greater : (text : Bytes) → unescape_from 0 (codes "&gt;" ++ text) ≡ b'>' ∷ unescape_from 0 text
unfolding unescape_from
greater text = refl

ampersand : (text : Bytes) → unescape_from 0 (codes "&amp;" ++ text) ≡ b'&' ∷ unescape_from 0 text
unfolding unescape_from
ampersand text = refl

quotation : (text : Bytes) → unescape_from 0 (codes "&quot;" ++ text) ≡ b'"' ∷ unescape_from 0 text
unfolding unescape_from
quotation text = refl

apostrophe : (text : Bytes) → unescape_from 0 (codes "&#39;" ++ text) ≡ b'\'' ∷ unescape_from 0 text
unfolding unescape_from
apostrophe text = refl

unescape_from-escaped :
    (c : ℕ) (text : Bytes)
    → unescape_from 0 (append_escaped_char_for_html c ++ text) ≡ c ∷ unescape_from 0 text
unfolding append_escaped_char_for_html
unescape_from-escaped c text = elim (Bool-cases (c == b'<')) [
  | inl e ↦ rw e (less text ∙ ap (λ x. x ∷ unescape_from 0 text) (ground (arith, e)))
  | inr h1 ↦ rw h1 (elim (Bool-cases (c == b'>')) [
    | inl e ↦ rw e (greater text ∙ ap (λ x. x ∷ unescape_from 0 text) (ground (arith, e)))
    | inr h2 ↦ rw h2 (elim (Bool-cases (c == b'&')) [
      | inl e ↦ rw e (ampersand text ∙ ap (λ x. x ∷ unescape_from 0 text) (ground (arith, e)))
      | inr h3 ↦ rw h3 (elim (Bool-cases (c == b'"')) [
        | inl e ↦ rw e (quotation text ∙ ap (λ x. x ∷ unescape_from 0 text) (ground (arith, e)))
        | inr h4 ↦ rw h4 (elim (Bool-cases (c == b'\'')) [
          | inl e ↦ rw e (apostrophe text ∙ ap (λ x. x ∷ unescape_from 0 text) (ground (arith, e)))
          | inr h5 ↦ rw h5 (unescape_from-plain c text h3)
        ])
      ])
    ])
  ])
]

unescape_from-escape : (text : Bytes) → unescape_from 0 (escape_for_html text) ≡ text
unfolding escape_for_html
unescape_from-escape [] = nothing
unescape_from-escape (c ∷ text) =
    unescape_from-escaped c (escape_for_html text) ∙ ap (λ t. c ∷ t) (unescape_from-escape text)

-- For every text: UnescapeForHTML of what EscapeForHTML makes of it is the text.
pub unescape_for_html-escape_for_html :
    (text : Bytes) → unescape_for_html (escape_for_html text) ≡ text
unescape_for_html-escape_for_html text =
    unescape_for_html-loop (escape_for_html text) ∙ unescape_from-escape text
