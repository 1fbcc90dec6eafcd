-- ===== src/ProofSource/Newest.antt =====
-- Which certificate `GetCertificate` chooses behind any calls of `AddCertificateChain`.
use nginx_quic_stack.Base.{
  Bool, true, false, ◌&&◌, ◌||◌, List, [], ◌∷◌, ◌++◌, Option, none, some, if◌then◌else◌, Bool-cases,
  inl, inr, ◌≡◌, refl, ap, ◌∙◌, ◌==◌, ℕ, arith,
}
use nginx_quic_stack.Base.Bytes.{Bytes, codes, same}
use nginx_quic_stack.Stream.Response.Text.{cut_at}
use nginx_quic_stack.ProofSource.{
  Certificate, ProofSource, new_proof_source, Crypto, assign, assign_all, from_dot, front, or_else,
  wildcard_of, get_certificate, add_leaf, add_certificate_chain,
}

abbrev pub mentions : Bytes → List Bytes → Bool
mentions name [] = false
mentions name (host ∷ hosts) = let more = mentions name hosts in same host name || more

if_if :
    (first more : Bool) (x y : Option Certificate)
    → (if more then x else if first then x else y) ≡ (if first || more then x else y)
if_if true true x y = refl
if_if true false x y = refl
if_if false more x y = refl

assign_all_lem :
    (hosts : List Bytes) (certificate : Certificate) (map : Bytes → Option Certificate)
    (name : Bytes)
    → (assign_all hosts certificate map name
        ≡ (if mentions name hosts then some certificate else map name))
assign_all_lem [] certificate map name = refl
assign_all_lem (host ∷ hosts) certificate map name =
    assign_all_lem hosts certificate (assign host certificate map) name
    ∙ if_if (same host name) (mentions name hosts) (some certificate) (map name)

if_or_else :
    (b : Bool) (x : Certificate) (y : Option Certificate)
    → (if b then some x else y) ≡ or_else (if b then some x else none) y
if_or_else true x y = refl
if_or_else false x y = refl

or_else_assoc : (x y z : Option Certificate) → or_else x (or_else y z) ≡ or_else (or_else x y) z
or_else_assoc none y z = refl
or_else_assoc (some x) y z = refl

or_else-none : (x : Option Certificate) → or_else x none ≡ x
or_else-none none = refl
or_else-none (some x) = refl

abbrev with_dot : Option (Bytes × Bytes) → Option Bytes
with_dot none = none
with_dot (some (label, domain)) = some (b'.' ∷ domain)

with_dot_longer :
    (c : ℕ) (o : Option (Bytes × Bytes))
    → with_dot o
      ≡ with_dot
          (elim o as (λ _. Option (Bytes × Bytes)) [ none ↦ none | some (a, b) ↦ some (c ∷ a, b) ])
with_dot_longer c none = refl
with_dot_longer c (some (label, domain)) = refl

from_dot-cut_at : (text : Bytes) → from_dot text ≡ with_dot (cut_at b'.' text)
unfolding cut_at
from_dot-cut_at [] = refl
from_dot-cut_at (c ∷ text) = elim (Bool-cases (c == b'.')) [
  | inl dot ↦ rw dot (ap (λ x. some (x ∷ text)) (ground (arith, dot)))
  | inr other ↦ rw other (from_dot-cut_at text ∙ with_dot_longer c (cut_at b'.' text))
]

module _ (c : Crypto) where
  -- A chain is taken if its leaf certificate can be parsed and the key is its key.
  abbrev pub leaf_accepted : Bytes → Bytes → Option (List Bytes) → Bool
  leaf_accepted leaf key none = false
  leaf_accepted leaf key (some domains) = c.matches_public_key key leaf

  abbrev pub is_accepted : List Bytes → Bytes → Bool
  is_accepted [] key = false
  is_accepted (leaf ∷ chain) key = leaf_accepted leaf key (c.subject_alt_name_domains leaf)

  abbrev pub lists : Bytes → Option (List Bytes) → Bool
  lists name none = false
  lists name (some domains) = mentions name domains

  -- The leaf certificate of a chain is for a name.
  abbrev pub is_for : Bytes → List Bytes → Bool
  is_for name [] = false
  is_for name (leaf ∷ chain) = lists name (c.subject_alt_name_domains leaf)

  -- The newest of the accepted chains for which a test holds, the oldest call first.
  abbrev pub newest : (List Bytes → Bool) → List (List Bytes × Bytes) → Option Certificate
  newest test [] = none
  newest test ((chain, key) ∷ calls) = or_else (newest test calls) (
      if is_accepted chain key && test chain
      then some (record { chain = chain; key = key })
      else none)

  abbrev pub add_all : List (List Bytes × Bytes) → ProofSource → ProofSource
  add_all [] s = s
  add_all ((chain, key) ∷ calls) s = add_all calls (add_certificate_chain c chain key s).1

  add_leaf-map :
      (chain : List Bytes) (leaf key : Bytes) (s : ProofSource) (name : Bytes)
      (domains : Option (List Bytes))
      → (add_leaf c chain leaf key domains s).1.certificate_map name
        ≡ or_else
            (if leaf_accepted leaf key domains && lists name domains
              then some (record { chain = chain; key = key })
              else none)
            (s.certificate_map name)
  add_leaf-map chain leaf key s name none = refl
  add_leaf-map chain leaf key s name (some domains) =
      elim (Bool-cases (c.matches_public_key key leaf)) [
        | inl matching ↦ rw matching (
            assign_all_lem domains (record { chain = chain; key = key }) s.certificate_map name
            ∙ if_or_else (mentions name domains) (record { chain = chain; key = key })
                (s.certificate_map name))
        | inr other ↦ rw other refl
      ]

  add_leaf-front :
      (chain : List Bytes) (leaf key : Bytes) (s : ProofSource) (domains : Option (List Bytes))
      → front (add_leaf c chain leaf key domains s).1.certificates
        ≡ or_else
            (if leaf_accepted leaf key domains && true
              then some (record { chain = chain; key = key })
              else none)
            (front s.certificates)
  add_leaf-front chain leaf key s none = refl
  add_leaf-front chain leaf key s (some domains) =
      elim (Bool-cases (c.matches_public_key key leaf)) [
        | inl matching ↦ rw matching refl
        | inr other ↦ rw other refl
      ]

  add-map :
      (chain : List Bytes) (key : Bytes) (s : ProofSource) (name : Bytes)
      → (add_certificate_chain c chain key s).1.certificate_map name
        ≡ or_else
            (if is_accepted chain key && is_for name chain
              then some (record { chain = chain; key = key })
              else none)
            (s.certificate_map name)
  unfolding add_certificate_chain
  add-map [] key s name = refl
  add-map (leaf ∷ chain) key s name =
      add_leaf-map (leaf ∷ chain) leaf key s name (c.subject_alt_name_domains leaf)

  add-front :
      (chain : List Bytes) (key : Bytes) (s : ProofSource)
      → front (add_certificate_chain c chain key s).1.certificates
        ≡ or_else
            (if is_accepted chain key && true
              then some (record { chain = chain; key = key })
              else none)
            (front s.certificates)
  unfolding add_certificate_chain
  add-front [] key s = refl
  add-front (leaf ∷ chain) key s =
      add_leaf-front (leaf ∷ chain) leaf key s (c.subject_alt_name_domains leaf)

  add_all-map :
      (calls : List (List Bytes × Bytes)) (s : ProofSource) (name : Bytes)
      → (add_all calls s).certificate_map name
        ≡ or_else (newest (is_for name) calls) (s.certificate_map name)
  add_all-map [] s name = refl
  add_all-map ((chain, key) ∷ calls) s name =
      add_all-map calls (add_certificate_chain c chain key s).1 name
      ∙ (ap (or_else (newest (is_for name) calls)) (add-map chain key s name)
          ∙ or_else_assoc (newest (is_for name) calls)
              (if is_accepted chain key && is_for name chain
                then some (record { chain = chain; key = key })
                else none)
              (s.certificate_map name))

  add_all-front :
      (calls : List (List Bytes × Bytes)) (s : ProofSource)
      → front (add_all calls s).certificates
        ≡ or_else (newest (λ chain. true) calls) (front s.certificates)
  add_all-front [] s = refl
  add_all-front ((chain, key) ∷ calls) s =
      add_all-front calls (add_certificate_chain c chain key s).1
      ∙ (ap (or_else (newest (λ chain. true) calls)) (add-front chain key s)
          ∙ or_else_assoc (newest (λ chain. true) calls)
              (if is_accepted chain key && true
                then some (record { chain = chain; key = key })
                else none)
              (front s.certificates))

  -- The newest for the name that has `*` in the place of the first label.
  abbrev pub newest_wildcard :
      List (List Bytes × Bytes) → Option (Bytes × Bytes) → Option Certificate
  newest_wildcard calls none = none
  newest_wildcard calls (some (label, domain)) = newest (is_for (codes "*." ++ domain)) calls

  -- The newest chain for the name, then for the wildcard of the domain above it, then of all.
  abbrev pub chosen : List (List Bytes × Bytes) → Bytes → Option Certificate
  chosen calls hostname =
      or_else (newest (is_for hostname) calls)
        (or_else (newest_wildcard calls (cut_at b'.' hostname)) (newest (λ chain. true) calls))

  wildcard_of-newest :
      (calls : List (List Bytes × Bytes)) (o : Option (Bytes × Bytes))
      → wildcard_of (λ name. newest (is_for name) calls) (with_dot o) ≡ newest_wildcard calls o
  wildcard_of-newest calls none = refl
  wildcard_of-newest calls (some (label, domain)) = refl

  wildcard_of-agree :
      (map other : Bytes → Option Certificate)
      → ((name : Bytes) → map name ≡ other name)
      → (dot : Option Bytes) → wildcard_of map dot ≡ wildcard_of other dot
  wildcard_of-agree map other agree none = refl
  wildcard_of-agree map other agree (some rest) = agree (codes "*" ++ rest)

  -- For every sequence of calls of AddCertificateChain on a new proof source, refused ones
  -- included, and every host name: GetCertificate gives the newest accepted chain whose leaf
  -- certificate is for that name; if there is none, the newest for the wildcard, `*` and the name
  -- from its first dot on; if there is none either, the newest accepted chain; and without
  -- accepted chains it asks for the front of an empty list.
  pub get_certificate-add_all :
      (calls : List (List Bytes × Bytes)) (hostname : Bytes)
      → get_certificate (add_all calls new_proof_source) hostname ≡ chosen calls hostname
  unfolding get_certificate
  get_certificate-add_all calls hostname =
      let by_name : (name : Bytes)
          → (add_all calls new_proof_source).certificate_map name ≡ newest (is_for name) calls =
        λ name.
          add_all-map calls new_proof_source name ∙ or_else-none (newest (is_for name) calls) in
      let by_wildcard =
        wildcard_of-agree (add_all calls new_proof_source).certificate_map
          (λ name. newest (is_for name) calls) by_name (from_dot hostname)
        ∙ (ap (wildcard_of (λ name. newest (is_for name) calls)) (from_dot-cut_at hostname)
            ∙ wildcard_of-newest calls (cut_at b'.' hostname)) in
      let first =
        add_all-front calls new_proof_source ∙ or_else-none (newest (λ chain. true) calls) in
      cc (by_name hostname, by_wildcard, first)
