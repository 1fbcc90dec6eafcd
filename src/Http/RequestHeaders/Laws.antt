-- ===== src/Http/RequestHeaders/Laws.antt =====
-- The headers as a map from names, without case, to values.
use nginx_quic_stack.Base.{
  true, ◌≡◌, refl, sym, ◌∙◌, ap, [], ◌∷◌, Option, none, some, if◌then◌else◌, arith, Bool-cases, inl,
  inr,
}
use nginx_quic_stack.Base.Bytes.{Bytes}
use nginx_quic_stack.Http.Ascii.{AsciiCase}
use nginx_quic_stack.Http.RequestHeaders.{
  HeaderKeyValuePair, HttpRequestHeaders, find_header, get_header, set_header, remove_header,
  merge_from,
}

module _ (ascii : AsciiCase) where
  open ascii use {equals_case_insensitive_ascii as eq_ci, equals_iff}

  eq_ci_refl : (a : Bytes) → eq_ci a a ≡ true
  eq_ci_refl a = (equals_iff a a).1 refl

  -- Equality without case is the same for equal strings.
  eq_ci_left : (a b c : Bytes) → eq_ci a b ≡ true → eq_ci a c ≡ eq_ci b c
  eq_ci_left a b c h = elim (Bool-cases (eq_ci a c)) [
    | inl x ↦ x ∙ sym ((equals_iff b c).1 (sym ((equals_iff a b).0 h) ∙ (equals_iff a c).0 x))
    | inr x ↦ elim (Bool-cases (eq_ci b c)) [
      | inl y ↦ (equals_iff a c).1 ((equals_iff a b).0 h ∙ (equals_iff b c).0 y) ∙ sym y
      | inr y ↦ x ∙ sym y
    ]
  ]

  pub eq_ci_comm : (a b : Bytes) → eq_ci a b ≡ eq_ci b a
  eq_ci_comm a b = elim (Bool-cases (eq_ci a b)) [
    | inl x ↦ x ∙ sym ((equals_iff b a).1 (sym ((equals_iff a b).0 x)))
    | inr x ↦ elim (Bool-cases (eq_ci b a)) [
      | inl y ↦ (equals_iff a b).1 (sym ((equals_iff b a).0 y)) ∙ sym y
      | inr y ↦ x ∙ sym y
    ]
  ]

  -- A name is in the vector at most once.
  abbrev pub Unique : HttpRequestHeaders → Type 0
  Unique [] = Unit {0}
  Unique (h ∷ headers) = (get_header ascii h.key headers ≡ none) × Unique headers

  -- A lookup, one pair at a time.
  pub get_header-cons :
      (k : Bytes) (h : HeaderKeyValuePair) (hs : HttpRequestHeaders)
      → get_header ascii k (h ∷ hs)
        ≡ (if eq_ci k h.key then some h.value else get_header ascii k hs)
  unfolding get_header find_header
  get_header-cons k h hs = ground arith

  get_header-nil : (k : Bytes) → get_header ascii k [] ≡ none
  unfolding get_header find_header
  get_header-nil k = refl

  -- After SetHeader of a name, GetHeader of every name equal to it up to case gives the new value,
  -- and of every other name what it gave before.
  pub get_header-set_header :
      (j k v : Bytes) (hs : HttpRequestHeaders)
      → get_header ascii k (set_header ascii j v hs)
        ≡ (if eq_ci j k then some v else get_header ascii k hs)
  unfolding set_header
  get_header-set_header j k v [] =
      get_header-cons k (record { key = j; value = v }) []
      ∙ ap (λ b. if b then some v else get_header ascii k []) (eq_ci_comm k j)
  get_header-set_header j k v (h ∷ hs) = ground (
    arith,
    get_header-cons k h hs,
    get_header-cons k (record h { value = v }) hs,
    get_header-cons k h (set_header ascii j v hs),
    get_header-set_header j k v hs,
    eq_ci_left j h.key k,
    eq_ci_left j k h.key,
    eq_ci_comm k h.key,
    eq_ci_comm k j,
  )

  get_header_eq :
      (j k : Bytes) (hs : HttpRequestHeaders)
      → eq_ci j k ≡ true
      → get_header ascii j hs ≡ get_header ascii k hs
  get_header_eq j k [] e = get_header-nil j ∙ sym (get_header-nil k)
  get_header_eq j k (h ∷ hs) e = ground (
    arith,
    get_header-cons j h hs,
    get_header-cons k h hs,
    get_header_eq j k hs,
    eq_ci_left j k h.key,
  )

  -- SetHeader on headers in which no name stands twice, up to case, leaves headers in which none
  -- does.
  pub set_header-Unique :
      (j v : Bytes) (hs : HttpRequestHeaders) → Unique hs → Unique (set_header ascii j v hs)
  unfolding set_header
  set_header-Unique j v [] u = (get_header-nil j, tt)
  set_header-Unique j v (h ∷ hs) u =
      ground (arith, set_header-Unique j v hs, get_header-set_header j h.key v hs)

  -- On headers in which no name stands twice, up to case: after RemoveHeader of a name, GetHeader
  -- finds no name equal to it up to case, and gives for every other name what it gave before.
  pub get_header-remove_header :
      (j k : Bytes) (hs : HttpRequestHeaders)
      → Unique hs
      → get_header ascii k (remove_header ascii j hs)
        ≡ (if eq_ci j k then none else get_header ascii k hs)
  unfolding remove_header
  get_header-remove_header j k [] u = ground (arith, get_header-nil k)
  get_header-remove_header j k (h ∷ hs) u = ground (
    arith,
    get_header-cons k h hs,
    get_header-cons k h (remove_header ascii j hs),
    get_header-remove_header j k hs,
    get_header_eq k h.key hs,
    eq_ci_left j h.key k,
    eq_ci_left j k h.key,
    eq_ci_comm k h.key,
    eq_ci_comm k j,
  )

  -- Where no name stands twice, up to case, in the other headers: after MergeFrom of them,
  -- GetHeader of a name gives their value for it, or the own value if they have none.
  pub get_header-merge_from :
      (k : Bytes) (other hs : HttpRequestHeaders)
      → Unique other
      → get_header ascii k (merge_from ascii hs other)
        ≡ elim (get_header ascii k other) as (λ _. Option Bytes) [
          | none ↦ get_header ascii k hs
          | some v ↦ some v
        ]
  unfolding merge_from
  get_header-merge_from k [] hs u = rw (get_header-nil k) refl
  get_header-merge_from k (o ∷ other) hs u =
      rw (get_header-merge_from k other (set_header ascii o.key o.value hs) u.1) (
        ground (
          arith,
          get_header-cons k o other,
          get_header-set_header o.key k o.value hs,
          get_header_eq o.key k other,
          eq_ci_comm k o.key,
          u.0,
        ))
