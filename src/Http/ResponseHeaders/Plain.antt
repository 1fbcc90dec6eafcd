-- ===== src/Http/ResponseHeaders/Plain.antt =====
-- The status line that parsing leaves has no NUL in it, and the head ends with two.
use nginx_quic_stack.Base.{
  ℕ, Bool, true, not, [], ◌∷◌, ◌++◌, some, is_nil, ◌≡◌, refl, arith, if◌then◌else◌, Bool-cases, inl,
  inr,
}
use nginx_quic_stack.Base.Bytes.{Bytes, codes}
use nginx_quic_stack.Http.Ascii.{AsciiCase}
use nginx_quic_stack.Http.Pieces.{contains, c_str}
use nginx_quic_stack.Http.StatusLine.{
  parse_version, clamp_version, from_space, skip_spaces, digits_of, behind_digits, strip_spaces,
  status_text, status_with, parse_status_line,
}
use nginx_quic_stack.Http.Texts.{contains-append}
use nginx_quic_stack.Http.Tokens.{IntReader}
use nginx_quic_stack.Http.Version.{HttpVersion}
use nginx_quic_stack.Http.ResponseHeaders.{ends_with_nuls, pad_nuls, behind_nul}

abbrev pub no_nul : Bytes → Bool
no_nul text = not (contains 0 text)

no_nul-append : (s t : Bytes) → no_nul s ≡ true → no_nul t ≡ true → no_nul (s ++ t) ≡ true
no_nul-append s t h k = ground (arith, contains-append 0 s t, h, k)

no_nul-cut :
    (text : Bytes)
    → no_nul text ≡ true
    → (no_nul (from_space text) ≡ true)
      × (no_nul (skip_spaces text) ≡ true)
      × (no_nul (digits_of text) ≡ true)
      × (no_nul (behind_digits text) ≡ true)
      × (no_nul (strip_spaces text) ≡ true)
no_nul-cut [] h = (refl, refl, refl, refl, refl)
no_nul-cut (c ∷ text) h = ground (arith, no_nul-cut text)

no_nul-clamp_version : (v : HttpVersion) (more : Bool) → no_nul (clamp_version v more).1 ≡ true
unfolding clamp_version
no_nul-clamp_version v more = ground arith

no_nul-status_text :
    (front code digits : Bytes)
    → no_nul front ≡ true
    → no_nul code ≡ true
    → no_nul digits ≡ true
    → no_nul (status_text front code digits) ≡ true
unfolding status_text
no_nul-status_text front code digits h k l =
    let behind = behind_digits code in
    let (_, _, _, kept, _) = no_nul-cut code k in
    let (_, kept2, _, _, _) = no_nul-cut behind kept in
    let (_, _, _, _, kept3) = no_nul-cut (skip_spaces behind) kept2 in
    let reason = strip_spaces (skip_spaces behind) in
    let reason_part : no_nul (if is_nil reason then [] else b' ' ∷ reason) ≡ true =
      ground (arith, kept3) in
    no_nul-append front (b' ' ∷ (digits ++ (if is_nil reason then [] else b' ' ∷ reason))) h (
      ground
        (arith, no_nul-append digits (if is_nil reason then [] else b' ' ∷ reason) l reason_part))

module _ (ascii : AsciiCase) (numbers : IntReader) where
  no_nul-status_with :
      (v : HttpVersion) (front code : Bytes)
      → no_nul front ≡ true
      → no_nul code ≡ true
      → no_nul (status_with numbers (v, front) code).text ≡ true
  unfolding status_with
  no_nul-status_with v front code h k =
      let (_, _, digits, _, _) = no_nul-cut code k in
      elim (Bool-cases (is_nil (digits_of code))) [
        | inl nothing ↦ rw nothing (no_nul-append front (codes " 200") h refl)
        | inr some_digits ↦
            rw some_digits (no_nul-status_text front code (digits_of code) h k digits)
      ]

  pub no_nul-parse_status_line :
      (line : Bytes) (more : Bool)
      → no_nul line ≡ true
      → no_nul (parse_status_line ascii numbers line more).text ≡ true
  unfolding parse_status_line
  no_nul-parse_status_line line more h =
      let (v, front) = clamp_version (parse_version ascii line) more in
      let plain : no_nul front ≡ true = no_nul-clamp_version (parse_version ascii line) more in
      let (kept, _, _, _, _) = no_nul-cut line h in
      let (_, kept2, _, _, _) = no_nul-cut (from_space line) kept in
      elim (Bool-cases (is_nil (from_space line))) [
        | inl nothing ↦ rw nothing (no_nul-append front (codes " 200 OK") plain refl)
        | inr spaced ↦
            rw spaced (no_nul-status_with v front (skip_spaces (from_space line)) plain kept2)
      ]

pub c_str-append : (s t : Bytes) → no_nul s ≡ true → c_str (s ++ 0 ∷ t) ≡ s
c_str-append [] t h = refl
c_str-append (c ∷ s) t h = ground (arith, c_str-append s t)

pub behind_nul-append : (s t : Bytes) → no_nul s ≡ true → behind_nul (s ++ 0 ∷ t) ≡ some t
behind_nul-append [] t h = refl
behind_nul-append (c ∷ s) t h = ground (arith, behind_nul-append s t)

ends_with_nuls-cons :
    (c : ℕ) (text : Bytes) → ends_with_nuls text ≡ true → ends_with_nuls (c ∷ text) ≡ true
unfolding ends_with_nuls
ends_with_nuls-cons c [] h = cc
ends_with_nuls-cons c (x ∷ []) h = cc
ends_with_nuls-cons c (x ∷ y ∷ text) h = h

pub ends_with_nuls-append :
    (s text : Bytes) → ends_with_nuls text ≡ true → ends_with_nuls (s ++ text) ≡ true
ends_with_nuls-append [] text h = h
ends_with_nuls-append (c ∷ s) text h =
    ends_with_nuls-cons c (s ++ text) (ends_with_nuls-append s text h)

pub pad_nuls-ended : (raw : Bytes) → ends_with_nuls raw ≡ true → pad_nuls 2 raw ≡ raw
unfolding pad_nuls
pad_nuls-ended raw h = rw h refl
