-- ===== src/Http/Languages/Ordered.antt =====
-- The order in which `ExpandLanguageList` gives its codes.
use nginx_quic_stack.Base.{
  true, List, [], ◌∷◌, ◌++◌, if◌then◌else◌, Bool-cases, inl, inr, ◌≡◌, refl, ap, ◌∙◌, sym, arith,
  append_assoc, append-nil,
}
use nginx_quic_stack.Base.Bytes.{Bytes, same, eq_of_same}
use nginx_quic_stack.Http.Encodings.Mirrored.{has_text-append}
use nginx_quic_stack.Http.Encodings.{has_text, insert_text}
use nginx_quic_stack.Http.Languages.{
  AcceptLanguageBuilder, add_language_code, get_base_language_code, ends_family, add_languages,
}

abbrev pub without : Bytes → List Bytes → List Bytes
without t [] = []
without t (u ∷ ts) = let rest = without t ts in if same u t then rest else u ∷ rest

-- Each text where it stands first.
abbrev pub firsts : List Bytes → List Bytes
firsts [] = []
firsts (t ∷ ts) = t ∷ without t (firsts ts)

abbrev news : List Bytes → List Bytes → List Bytes
news seen [] = []
news seen (u ∷ ts) = let rest = news seen ts in if has_text u seen then rest else u ∷ rest

news-nil : (ts : List Bytes) → news [] ts ≡ ts
news-nil [] = refl
news-nil (t ∷ ts) = ap (λ x. t ∷ x) (news-nil ts)

news-without :
    (t : Bytes) (seen ts : List Bytes)
    → has_text t seen ≡ true
    → news seen (without t ts) ≡ news seen ts
news-without t seen [] h = refl
news-without t seen (u ∷ ts) h = elim (Bool-cases (same u t)) [
  | inl equal ↦
      let there : has_text u seen ≡ true = ap (λ x. has_text x seen) (eq_of_same u t equal) ∙ h in
      rw (equal, there) (news-without t seen ts h)
  | inr differ ↦ rw (differ, news-without t seen ts h) refl
]

news-concat :
    (t : Bytes) (seen ts : List Bytes) → news (seen ++ t ∷ []) ts ≡ news seen (without t ts)
news-concat t seen [] = refl
news-concat t seen (u ∷ ts) = elim (Bool-cases (same u t)) [
  | inl equal ↦
      let there : has_text u (seen ++ t ∷ []) ≡ true =
        ground (arith, equal, has_text-append u seen (t ∷ [])) in
      rw (equal, there) (news-concat t seen ts)
  | inr differ ↦
      let as_before : has_text u (seen ++ t ∷ []) ≡ has_text u seen =
        ground (arith, differ, has_text-append u seen (t ∷ [])) in
      rw (differ, as_before, news-concat t seen ts) refl
]

abbrev add_all : List Bytes → List Bytes → List Bytes
add_all [] seen = seen
add_all (t ∷ ts) seen = add_all ts (insert_text t seen)

add_all-news : (ts seen : List Bytes) → add_all ts seen ≡ seen ++ news seen (firsts ts)
add_all-news [] seen = sym (append-nil seen)
add_all-news (t ∷ ts) seen = elim (Bool-cases (has_text t seen)) [
  | inl known ↦
      rw known
        (add_all-news ts seen ∙ ap (λ x. seen ++ x) (sym (news-without t seen (firsts ts) known)))
  | inr fresh ↦ rw fresh (
      add_all-news ts (seen ++ t ∷ [])
      ∙ (ap (λ x. (seen ++ t ∷ []) ++ x) (news-concat t seen (firsts ts))
          ∙ append_assoc seen (t ∷ []) (news seen (without t (firsts ts)))))
]

add_language_code-seen :
    (t : Bytes) (b : AcceptLanguageBuilder) → (add_language_code t b).seen ≡ insert_text t b.seen
unfolding add_language_code
add_language_code-seen t b = elim (Bool-cases (has_text t b.seen)) [
  | inl known ↦ rw known refl
  | inr fresh ↦ rw fresh refl
]

module _ (split_string : Bytes → Bytes → List Bytes) where
  -- The languages, with a base language behind the last of each run of languages that have it.
  abbrev pub spelled : List Bytes → List Bytes
  spelled [] = []
  spelled (language ∷ languages) =
      let base = get_base_language_code split_string language in
      language
      ∷ (if ends_family split_string base languages
          then base ∷ spelled languages
          else spelled languages)

  add_languages-add_all :
      (languages : List Bytes) (b : AcceptLanguageBuilder)
      → (add_languages split_string languages b).seen ≡ add_all (spelled languages) b.seen
  unfolding add_languages
  add_languages-add_all [] b = refl
  add_languages-add_all (language ∷ languages) b =
      let base = get_base_language_code split_string language in
      let added = add_language_code language b in
      elim (Bool-cases (ends_family split_string base languages)) [
        | inl ends ↦
            rw (ends, add_languages)
              (add_languages-add_all languages (add_language_code base added)
                ∙ ap (add_all (spelled languages)) (
                    add_language_code-seen base added
                    ∙ ap (insert_text base) (add_language_code-seen language b)))
        | inr goes_on ↦
            rw (goes_on, add_languages)
              (add_languages-add_all languages added
                ∙ ap (add_all (spelled languages)) (add_language_code-seen language b))
      ]

  pub seen-firsts :
      (languages : List Bytes) (b : AcceptLanguageBuilder)
      → b.seen ≡ []
      → (add_languages split_string languages b).seen ≡ firsts (spelled languages)
  seen-firsts languages b new =
      add_languages-add_all languages b
      ∙ (ap (add_all (spelled languages)) new
          ∙ (add_all-news (spelled languages) [] ∙ news-nil (firsts (spelled languages))))
