-- ===== src/Http/ContentType/RoundTrip.antt =====
-- A content type as a sender writes it, read by `ParseContentType`.
use nginx_quic_stack.Http.Parameters.{Printed, print_parameters, AllParameters, read_back}
use nginx_quic_stack.Base.{
  ◌≤◌, Bool, true, false, not, ◌&&◌, ◌||◌, List, [], ◌∷◌, ◌++◌, Option, none, some, if◌then◌else◌,
  length, length-append, Bool-cases, inl, inr, ◌≡◌, refl, ap, ◌∙◌, sym, arith, append-nil,
}
use nginx_quic_stack.Base.Bytes.{Bytes, codes, same, eq_of_same}
use nginx_quic_stack.Http.Ascii.{AsciiCase}
use nginx_quic_stack.Http.ContentType.Params.{take_all, take_parameters-print_parameters}
use nginx_quic_stack.Http.ContentType.{
  before_any, from_any, skip_lws, FoundParameters, is_some, take_parameter, ContentType, no_type,
  parse_content_type,
}
use nginx_quic_stack.Http.Pieces.{contains}
use nginx_quic_stack.Http.Texts.{contains-append}
use nginx_quic_stack.Http.Tokens.{none_of}
use nginx_quic_stack.Http.Util.{or_text}

-- A type that is stored: with a slash, not "*/*", and no byte that ends a type.
abbrev pub is_type : Bytes → Bool
is_type text = contains b'/' text && none_of (codes " \t;(") text && not (same text (codes "*/*"))

abbrev pub print_content_type : Bytes → List Printed → Bytes
print_content_type mime_type ps = mime_type ++ print_parameters ps

before_any-type :
    (mime_type : Bytes) (ps : List Printed)
    → none_of (codes " \t;(") mime_type ≡ true
    → (before_any (codes " \t;(") (mime_type ++ print_parameters ps) ≡ mime_type)
      × (from_any (codes " \t;(") (mime_type ++ print_parameters ps) ≡ print_parameters ps)
before_any-type [] [] h = (refl, refl)
before_any-type [] (p ∷ ps) h = (refl, refl)
before_any-type (c ∷ mime_type) ps h = ground (arith, before_any-type mime_type ps)

skip_lws-type :
    (mime_type : Bytes) (ps : List Printed)
    → none_of (codes " \t;(") mime_type ≡ true
    → skip_lws (mime_type ++ print_parameters ps) ≡ mime_type ++ print_parameters ps
skip_lws-type [] [] h = refl
skip_lws-type [] (p ∷ ps) h = refl
skip_lws-type (c ∷ mime_type) ps h = ground (arith, h)

from_any-print_parameters :
    (ps : List Printed) → from_any (codes ";") (print_parameters ps) ≡ print_parameters ps
from_any-print_parameters [] = refl
from_any-print_parameters (p ∷ ps) = refl

-- A type with parameters has a semicolon, so that it is not the text of three bytes.
same-semicolon :
    (mime_type : Bytes) (p : Printed) (ps : List Printed)
    → same (mime_type ++ print_parameters (p ∷ ps)) (codes "*/*") ≡ false
same-semicolon mime_type p ps =
    elim (Bool-cases (same (mime_type ++ print_parameters (p ∷ ps)) (codes "*/*"))) [
      | inl equal ↦
          let texts = eq_of_same (mime_type ++ print_parameters (p ∷ ps)) (codes "*/*") equal in
          let semicolon = contains-append b';' mime_type (print_parameters (p ∷ ps)) in
          let none_there : contains b';' (mime_type ++ print_parameters (p ∷ ps)) ≡ false =
            ap (contains b';') texts in
          ground (arith, semicolon, none_there)
      | inr differ ↦ differ
    ]

no_type-print :
    (mime_type : Bytes) (ps : List Printed)
    → is_type mime_type ≡ true
    → no_type (print_content_type mime_type ps) ≡ false
no_type-print [] ps h = cc
no_type-print (c ∷ mime_type) [] h = ap no_type (append-nil (c ∷ mime_type)) ∙ ground (arith, h)
no_type-print (c ∷ mime_type) (p ∷ ps) h = ground (
  arith,
  h,
  same-semicolon (c ∷ mime_type) p ps,
  contains-append b'/' (c ∷ mime_type) (print_parameters (p ∷ ps)),
)

-- The outputs of a caller that starts from nothing.
abbrev pub no_content_type : ContentType
no_content_type = record {
  mime_type = [];
  charset = [];
  had_charset = false;
  type_boundary = some [];
}

module _ (ascii : AsciiCase) where
  open ascii use {lower_case_equals_ascii, lower_case_iff, to_lower_ascii}

  -- The value of the first parameter with a name, up to case.
  abbrev pub first_named : Bytes → List Printed → Option Bytes
  first_named key [] = none
  first_named key (p ∷ ps) =
      let later = first_named key ps in
      if lower_case_equals_ascii p.name key then some (read_back p).1 else later

  one_name :
      (name : Bytes)
      → lower_case_equals_ascii name (codes "charset") ≡ true
      → lower_case_equals_ascii name (codes "boundary") ≡ false
  one_name name h = elim (Bool-cases (lower_case_equals_ascii name (codes "boundary"))) [
    | inl both ↦
        let charset = (lower_case_iff name (codes "charset")).0 h in
        let boundary = (lower_case_iff name (codes "boundary")).0 both in
        cc (sym charset ∙ boundary)
    | inr other ↦ other
  ]

  take_all_charset :
      (ps : List Printed) (found : FoundParameters)
      → ((take_all ascii ps found).type_has_charset
          ≡ found.type_has_charset || is_some (first_named (codes "charset") ps))
        × ((take_all ascii ps found).charset_value ≡ (
            if found.type_has_charset
            then found.charset_value
            else or_text found.charset_value (first_named (codes "charset") ps)))
  unfolding take_parameter
  take_all_charset [] found = ground arith
  take_all_charset (p ∷ ps) found =
      ground (arith, take_all_charset ps (take_parameter ascii (some (read_back p)) found))

  take_all_boundary :
      (ps : List Printed) (found : FoundParameters) (old : Bytes)
      → found.boundary ≡ some old
      → (take_all ascii ps found).boundary ≡ (
          if found.type_has_boundary
          then some old
          else some (or_text old (first_named (codes "boundary") ps)))
  unfolding take_parameter
  take_all_boundary [] found old h = ground (arith, h)
  take_all_boundary (p ∷ ps) found old h =
      let taken = take_parameter ascii (some (read_back p)) found in
      let value = (read_back p).1 in
      ground (
        arith,
        h,
        one_name p.name,
        take_all_boundary ps taken old,
        take_all_boundary ps taken value,
      )

  -- For a type with a slash, other than "*/*" and without the bytes that end a type, and
  -- parameters whose names are tokens and whose values are quoted, or tokens: ParseContentType of
  -- the type with "; name=value" behind it for each parameter, from empty outputs, gives the type
  -- in lower case, the value of the first parameter named charset, up to case, in lower case, and
  -- the value of the first one named boundary; white space at the ends of a quoted value is not
  -- read, and a missing value is empty.
  pub parse_content_type-print :
      (mime_type : Bytes) (ps : List Printed)
      → is_type mime_type ≡ true
      → AllParameters ps
      → parse_content_type ascii (print_content_type mime_type ps) no_content_type ≡ record {
        mime_type = to_lower_ascii mime_type;
        charset =
            if is_some (first_named (codes "charset") ps)
            then to_lower_ascii (or_text [] (first_named (codes "charset") ps))
            else [];
        had_charset = is_some (first_named (codes "charset") ps);
        type_boundary = some (or_text [] (first_named (codes "boundary") ps));
      }
  unfolding parse_content_type
  parse_content_type-print mime_type ps typed v =
      let plain : none_of (codes " \t;(") mime_type ≡ true = ground (arith, typed) in
      let (before, from) = before_any-type mime_type ps plain in
      let start : FoundParameters = record {
        charset_value = [];
        type_has_charset = false;
        type_has_boundary = false;
        boundary = some [];
      } in
      let long : length (print_parameters ps) ≤ length (mime_type ++ print_parameters ps) =
        omega (arith, length-append mime_type (print_parameters ps)) in
      let taken =
        take_parameters-print_parameters ascii (length (mime_type ++ print_parameters ps)) ps start
          v long in
      let (has, value) = take_all_charset ps start in
      let boundary = take_all_boundary ps start [] refl in
      rw
        (
          no_type-print mime_type ps typed,
          skip_lws-type mime_type ps plain,
          before,
          from,
          from_any-print_parameters ps,
          taken,
          has,
          value,
          boundary,
        )
        (ground arith)
