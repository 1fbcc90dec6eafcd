-- ===== src/Http/Languages/Expanded.antt =====
-- What `ExpandLanguageList` lists, and the quality values of `GenerateAcceptLanguageHeader`.
use nginx_quic_stack.Base.{
  Bool, true, false, ◌&&◌, ◌||◌, not, List, [], ◌∷◌, ◌++◌, if◌then◌else◌, is_nil, all, Bool-cases,
  inl, inr, ◌≡◌, refl, ap, ◌∙◌, sym, arith, append_assoc,
}
use nginx_quic_stack.Base.Bytes.{Bytes, codes, same, same_comm, eq_of_same}
use nginx_quic_stack.Http.Encodings.Mirrored.{has_text-append}
use nginx_quic_stack.Http.Encodings.{has_text}
use nginx_quic_stack.Http.Languages.{
  AcceptLanguageBuilder, new_builder, add_language_code, get_base_language_code, ends_family,
  add_languages, expand_language_list,
}
use nginx_quic_stack.Http.Languages.Ordered.{firsts, spelled, seen-firsts}
use nginx_quic_stack.Http.Pieces.{contains}
use nginx_quic_stack.Http.Texts.{c_str_lem}
use nginx_quic_stack.Http.Tokens.{joined}

-- A language code: not empty, and without NUL.
abbrev pub is_code : Bytes → Bool
is_code text = not (is_nil text) && not (contains 0 text)

-- No text twice.
abbrev pub distinct : List Bytes → Bool
distinct [] = true
distinct (t ∷ ts) = not (has_text t ts) && distinct ts

distinct-concat :
    (ts : List Bytes) (t : Bytes)
    → distinct ts ≡ true
    → has_text t ts ≡ false
    → distinct (ts ++ t ∷ []) ≡ true
distinct-concat [] t d fresh = refl
distinct-concat (u ∷ ts) t d fresh =
    ground (arith, has_text-append u ts (t ∷ []), distinct-concat ts t, same_comm u t)

is_nil-joined : (ts : List Bytes) → all is_code ts ≡ true → is_nil (joined ts) ≡ is_nil ts
is_nil-joined [] h = refl
is_nil-joined ([] ∷ ts) h = cc
is_nil-joined ((c ∷ t) ∷ []) h = refl
is_nil-joined ((c ∷ t) ∷ u ∷ ts) h = refl

joined-concat :
    (ts : List Bytes) (t : Bytes)
    → joined (ts ++ t ∷ []) ≡ (if is_nil ts then t else joined ts ++ b',' ∷ t)
joined-concat [] t = refl
joined-concat (u ∷ []) t = refl
joined-concat (u ∷ v ∷ ts) t =
    ap (λ s. u ++ b',' ∷ s) (joined-concat (v ∷ ts) t)
    ∙ sym (append_assoc u (b',' ∷ joined (v ∷ ts)) (b',' ∷ t))

all-concat :
    (ts : List Bytes) (t : Bytes)
    → all is_code ts ≡ true
    → is_code t ≡ true
    → all is_code (ts ++ t ∷ []) ≡ true
all-concat [] t h k = ground (arith, k)
all-concat (u ∷ ts) t h k = ground (arith, all-concat ts t)

-- The string lists the codes seen so far, each once.
record IsBuilt (b : AcceptLanguageBuilder) : Type 0 where
  lists : b.str ≡ joined b.seen
  of_codes : all is_code b.seen ≡ true
  once : distinct b.seen ≡ true

add_language_code-IsBuilt :
    (t : Bytes) (b : AcceptLanguageBuilder)
    → is_code t ≡ true
    → IsBuilt b
    → IsBuilt (add_language_code t b)
unfolding add_language_code
add_language_code-IsBuilt t b h built = elim (Bool-cases (has_text t b.seen)) [
  | inl known ↦ rw (known, add_language_code) built
  | inr fresh ↦
      let text = c_str_lem t (ground (arith, h)) in
      let empty : is_nil b.str ≡ is_nil b.seen =
        ap is_nil built.lists ∙ is_nil-joined b.seen built.of_codes in
      rw (fresh, add_language_code)
        (record {
          lists = rw (text, empty, built.lists) (sym (joined-concat b.seen t));
          of_codes = all-concat b.seen t built.of_codes h;
          once = distinct-concat b.seen t built.once fresh;
        })
]

has_text-add_language_code :
    (e t : Bytes) (b : AcceptLanguageBuilder)
    → has_text e (add_language_code t b).seen ≡ has_text e b.seen || same e t
unfolding add_language_code
has_text-add_language_code e t b = elim (Bool-cases (same e t)) [
  | inl equal ↦
      let texts : has_text e b.seen ≡ has_text t b.seen =
        ap (λ u. has_text u b.seen) (eq_of_same e t equal) in
      ground (arith, texts, has_text-append e b.seen (t ∷ []))
  | inr differ ↦ ground (arith, has_text-append e b.seen (t ∷ []))
]

module _ (split_string : Bytes → Bytes → List Bytes) where
  abbrev base : Bytes → Bytes
  base language = get_base_language_code split_string language

  abbrev pub has_base : Bytes → List Bytes → Bool
  has_base e [] = false
  has_base e (language ∷ languages) = same e (base language) || has_base e languages

  abbrev pub all_codes : List Bytes → Bool
  all_codes languages = all (λ l. is_code l && is_code (base l)) languages

  -- Within a family the next language stands for the base language.
  has_base-family :
      (e : Bytes) (language : Bytes) (languages : List Bytes)
      → ends_family split_string (base language) languages ≡ false
      → same e (base language) || has_base e languages ≡ has_base e languages
  has_base-family e language [] h = cc
  has_base-family e language (next ∷ languages) h =
      let family = eq_of_same (base next) (base language) (ground (arith, h)) in
      let one : same e (base next) ≡ same e (base language) = ap (same e) family in
      ground (arith, one)

  Adds : List Bytes → AcceptLanguageBuilder → AcceptLanguageBuilder → Type 0
  Adds languages b new =
      IsBuilt new
      × ((e : Bytes)
          → has_text e new.seen
            ≡ has_text e b.seen || (has_text e languages || has_base e languages))

  add_languages-Adds :
      (languages : List Bytes) (b : AcceptLanguageBuilder)
      → all_codes languages ≡ true
      → IsBuilt b
      → Adds languages b (add_languages split_string languages b)
  unfolding add_languages Adds
  add_languages-Adds [] b h built = (built, λ e. ground arith)
  add_languages-Adds (language ∷ languages) b h built =
      let added = add_language_code language b in
      let with_base = add_language_code (base language) added in
      let rest : all_codes languages ≡ true = ground (arith, h) in
      let one = add_language_code-IsBuilt language b (ground (arith, h)) built in
      elim (Bool-cases (ends_family split_string (base language) languages)) [
        | inl ends ↦
            let two = add_language_code-IsBuilt (base language) added (ground (arith, h)) one in
            let (done, members) = add_languages-Adds languages with_base rest two in
            rw (ends, add_languages)
              (
                done,
                λ e.
                    members e
                    ∙ ground (
                      arith,
                      has_text-add_language_code e (base language) added,
                      has_text-add_language_code e language b,
                    ),
              )
        | inr goes_on ↦
            let (done, members) = add_languages-Adds languages added rest one in
            rw (goes_on, add_languages)
              (
                done,
                λ e.
                    members e
                    ∙ ground (
                      arith,
                      has_text-add_language_code e language b,
                      has_base-family e language languages goes_on,
                    ),
              )
      ]

  -- For a list that splits into languages that, like their base languages, are not empty and have
  -- no NUL: what ExpandLanguageList gives has commas between codes of which none occurs twice, and
  -- these are exactly the languages of the list and their base languages; they stand in the order
  -- of the list, with a base language behind the last of each run of languages that have it, each
  -- code where it comes first.
  pub expand_language_list-Lists :
      (prefs : Bytes)
      → all_codes (split_string prefs (codes ",")) ≡ true
      → (listed : List Bytes) × (expand_language_list split_string prefs ≡ joined listed)
        × (distinct listed ≡ true)
        × (listed ≡ firsts (spelled split_string (split_string prefs (codes ","))))
        × ((e : Bytes)
            → has_text e listed
              ≡ has_text e (split_string prefs (codes ","))
                || has_base e (split_string prefs (codes ",")))
  unfolding expand_language_list Adds
  expand_language_list-Lists prefs h =
      let languages = split_string prefs (codes ",") in
      let start : IsBuilt new_builder = record { lists = refl; of_codes = refl; once = refl } in
      let (built, members) = add_languages-Adds languages new_builder h start in
      (
        (add_languages split_string languages new_builder).seen,
        built.lists,
        built.once,
        seen-firsts split_string languages new_builder refl,
        members,
      )
