-- ===== src/Http/Encodings/Mirrored.antt =====
-- The set of the allowed encodings, with both names of a format.
use nginx_quic_stack.Base.{
  Bool, true, ◌&&◌, ◌||◌, not, List, [], ◌∷◌, ◌++◌, if◌then◌else◌, is_nil, Bool-cases, inl, inr,
  ◌≡◌, refl, ap, ◌∙◌, arith,
}
use Prim.Native.String.{String}
use nginx_quic_stack.Base.Bytes.{Bytes, codes, same, eq_of_same, same_self}
use nginx_quic_stack.Http.Encodings.{has_text, insert_text, mirror, complete}

pub has_text-append :
    (e : Bytes) (s t : List Bytes) → has_text e (s ++ t) ≡ has_text e s || has_text e t
has_text-append e [] t = refl
has_text-append e (u ∷ s) t = ground (arith, has_text-append e s t)

pub has_text-insert_text :
    (e t : Bytes) (set : List Bytes) → has_text e (insert_text t set) ≡ same e t || has_text e set
has_text-insert_text e t set = elim (Bool-cases (same e t)) [
  | inl equal ↦
      let texts : has_text e set ≡ has_text t set =
        ap (λ u. has_text u set) (eq_of_same e t equal) in
      ground (arith, texts, has_text-append e set (t ∷ []))
  | inr differ ↦ ground (arith, has_text-append e set (t ∷ []))
]

has_text-mirror :
    (e : Bytes) (one other : String) (set : List Bytes)
    → has_text e (mirror one other set)
      ≡ has_text e set || (same e (codes other) && has_text (codes one) set)
has_text-mirror e one other set = ground (arith, has_text-insert_text e (codes other) set)

has_text-same : (e t : Bytes) (set : List Bytes) → same e t ≡ true → has_text e set ≡ has_text t set
has_text-same e t set h = ap (λ u. has_text u set) (eq_of_same e t h)

-- Both names of a format.
has_text-mirrors :
    (e : Bytes) (one other : String) (set : List Bytes)
    → has_text e (mirror other one (mirror one other set))
      ≡ has_text e set
        || (same e (codes other) && has_text (codes one) set)
        || (same e (codes one) && has_text (codes other) set)
has_text-mirrors e one other set = ground (
  arith,
  has_text-mirror e other one (mirror one other set),
  has_text-mirror e one other set,
  has_text-mirror (codes other) one other set,
  same_self (codes other),
  has_text-same e (codes one) set,
)

-- Boolean facts about the set that the parse gives, in the words of the header.
module _ (allows : Bytes → Bool) where
  -- An encoding that is allowed under its own name, or under the other name of its format.
  abbrev pub allows_format : Bytes → Bool
  allows_format e =
      allows e
      || (same e (codes "x-gzip") && allows (codes "gzip"))
      || (same e (codes "gzip") && allows (codes "x-gzip"))
      || (same e (codes "x-compress") && allows (codes "compress"))
      || (same e (codes "compress") && allows (codes "x-compress"))

  -- With no encoding allowed, the set is that of "*".
  abbrev pub in_completed : Bool → Bytes → Bool
  in_completed some_allowed e =
      if some_allowed then same e (codes "identity") || allows_format e else same e (codes "*")

-- A format is allowed under both of its names.
abbrev with_other_name : String → String → (Bytes → Bool) → Bytes → Bool
with_other_name one other p e =
    p e || (same e (codes other) && p (codes one)) || (same e (codes one) && p (codes other))

module _ (p : Bytes → Bool) where
  unfoldable zipped : Bytes → Bool
  zipped = with_other_name "gzip" "x-gzip" (λ u. same u (codes "identity") || p u)

  zipped_compress :
      (zipped (codes "compress") ≡ p (codes "compress"))
      × (zipped (codes "x-compress") ≡ p (codes "x-compress"))
  unfolding zipped same
  zipped_compress = ground arith

  in_completed-other_name :
      (e : Bytes) → with_other_name "compress" "x-compress" zipped e ≡ in_completed p true e
  unfolding zipped same
  in_completed-other_name e = ground (arith, zipped_compress.0, zipped_compress.1)

pub has_text-complete :
    (e : Bytes) (set : List Bytes)
    → has_text e (complete set) ≡ in_completed (λ t. has_text t set) (not (is_nil set)) e
unfolding complete zipped
has_text-complete e [] = ground arith
has_text-complete e (t ∷ set) =
    let allowed_set = insert_text (codes "identity") (t ∷ set) in
    let both = mirror "x-gzip" "gzip" (mirror "gzip" "x-gzip" allowed_set) in
    let p : Bytes → Bool = λ u. has_text u (t ∷ set) in
    let zips : (u : Bytes) → has_text u both ≡ zipped p u = λ u.
      rw
        (
          has_text-mirrors u "gzip" "x-gzip" allowed_set,
          has_text-insert_text u (codes "identity") (t ∷ set),
          has_text-insert_text (codes "gzip") (codes "identity") (t ∷ set),
          has_text-insert_text (codes "x-gzip") (codes "identity") (t ∷ set),
        )
        refl in
    has_text-mirrors e "compress" "x-compress" both
    ∙ (rw (zips e, zips (codes "compress"), zips (codes "x-compress")) refl
        ∙ in_completed-other_name p e)
