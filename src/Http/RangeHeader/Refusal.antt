-- ===== src/Http/RangeHeader/Refusal.antt =====
-- What `ParseRangeHeader` accepts.
use nginx_quic_stack.Base.{
  ltb, ◌&&◌, ◌||◌, not, ℕ, ◌+◌, ◌-◌, zero, suc, Bool, true, false, ◌≡◌, refl, sym, ◌∙◌, ap, List,
  [], ◌∷◌, ◌++◌, Option, none, some, if◌then◌else◌, ◌==◌, length, take, drop, ◌>>=◌, arith,
  Bool-cases, inl, inr, ◌⊎◌, if_both, subst,
}
use nginx_quic_stack.Base.Bytes.{Bytes, codes}
use nginx_quic_stack.Base.Int.{ℤ, pos, ◌≤ℤ◌}
use nginx_quic_stack.Http.ByteRange.Defs.{HttpByteRange, new_range, is_valid}
use nginx_quic_stack.Http.Pieces.{
  is_space, StringPiece, contains, c_str, is_lws, trim_left, trim_right, trim_lws, find_char,
}
use nginx_quic_stack.Http.RangeHeader.{
  string_to_int64, Within, NumbersAndTokens, set_first, set_last, range_at, range_of_value,
  add_ranges, ranges_behind, parse_range_header,
}

-- A control character other than a tab.
abbrev pub has_control : Bytes → Bool
has_control [] = false
has_control (x ∷ text) = (ltb x 32 && not (x == b'\t')) || has_control text

c_str_lem : (text : Bytes) → has_control text ≡ false → c_str text ≡ text
c_str_lem [] h = refl
c_str_lem (c ∷ text) h = ground (arith, c_str_lem text)

has_control-concat :
    (before text : Bytes) → has_control (before ++ text) ≡ false → has_control text ≡ false
has_control-concat [] text h = h
has_control-concat (x ∷ before) text h = ground (arith, has_control-concat before text)

has_control-drop :
    (n : ℕ) (text : Bytes) → has_control text ≡ false → has_control (drop n text) ≡ false
has_control-drop zero text h = h
has_control-drop (suc n) [] h = refl
has_control-drop (suc n) (x ∷ text) h = ground (arith, has_control-drop n text)

has_control-trim_left :
    (n : ℕ) (text : Bytes) → has_control text ≡ false → has_control (trim_left n text).from ≡ false
unfolding trim_left
has_control-trim_left zero text h = h
has_control-trim_left (suc n) [] h = refl
has_control-trim_left (suc n) (x ∷ text) h = ground (arith, has_control-trim_left n text)

-- Where a byte is found behind the first one.
found_later :
    (o : Option ℕ) (i : ℕ)
    → (elim o [ none ↦ none | some j ↦ some (suc j) ]) ≡ some i
    → (j : ℕ) × ((o ≡ some j) × (i ≡ suc j))
found_later none i h = cc
found_later (some j) i h = (j, (refl, cc))

found_in_tail :
    (c n i x : ℕ) (text : Bytes)
    → x == c ≡ false
    → find_char c (suc n) (x ∷ text) ≡ some i
    → (j : ℕ) × ((find_char c n text ≡ some j) × (i ≡ suc j))
unfolding find_char
found_in_tail c n i x text e h = found_later (find_char c n text) i (
    subst
      (λ b.
        (if b then some 0 else elim (find_char c n text) [ none ↦ none | some j ↦ some (suc j) ])
        ≡ some i)
      e h)

found_at_head :
    (c n i x : ℕ) (text : Bytes) → x == c ≡ true → find_char c (suc n) (x ∷ text) ≡ some i → i ≡ 0
unfolding find_char
found_at_head c n i x text e h =
    let first : some 0 ≡ some i =
      subst
        (λ b.
          (if b then some 0 else elim (find_char c n text) [ none ↦ none | some j ↦ some (suc j) ])
          ≡ some i)
        e h in
    cc

pub find_char-contains :
    (c n i : ℕ) (text : Bytes) → find_char c n text ≡ some i → contains c text ≡ true
unfolding find_char
find_char-contains c zero i text h = cc
find_char-contains c (suc n) i [] h = cc
find_char-contains c (suc n) i (x ∷ text) h = elim (Bool-cases (x == c)) [
  | inl e ↦ rw e refl
  | inr e ↦
      let (j, (found, next)) = found_in_tail c n i x text e h in
      rw e (find_char-contains c n j text found)
]

-- Where a piece starts that ended at a minus sign: at the sign, or before it.
abbrev Starts : StringPiece → Type 0
Starts p =
    ((rest : Bytes) × ((p.from ≡ b'-' ∷ rest) × (p.size ≡ 0)))
    ⊎ ((c : ℕ) × ((rest : Bytes) × ((p.from ≡ c ∷ rest)
            × ((is_lws c ≡ false) × (contains b'-' rest ≡ true)))))

trim_left-Starts :
    (n m : ℕ) (text : Bytes) → find_char b'-' n text ≡ some m → Starts (trim_left m text)
unfolding trim_left find_char
trim_left-Starts zero m text h = cc
trim_left-Starts (suc n) m [] h = cc
trim_left-Starts (suc n) zero (x ∷ text) h = elim (Bool-cases (x == b'-')) [
  | inl e ↦ inl (text, (ap (λ y. y ∷ text) (ground (arith, e)), refl))
  | inr e ↦ let (j, (found, next)) = found_in_tail b'-' n 0 x text e h in ground (arith, next)
]
trim_left-Starts (suc n) (suc k) (x ∷ text) h = elim (Bool-cases (x == b'-')) [
  | inl e ↦ let head : suc k ≡ 0 = found_at_head b'-' n (suc k) x text e h in ground (arith, head)
  | inr e ↦
      let (j, (found, next)) = found_in_tail b'-' n (suc k) x text e h in
      elim (Bool-cases (is_lws x)) [
        | inl space ↦ rw space (trim_left-Starts n k text (found ∙ ap some (omega (arith, next))))
        | inr mark ↦
            rw mark (inr (x, (text, (refl, (mark, find_char-contains b'-' n j text found)))))
      ]
]

trim_lws-Starts :
    (value : StringPiece) (m : ℕ)
    → find_char b'-' value.size value.from ≡ some m
    → Starts (trim_lws (record value { size = m }))
unfolding trim_lws trim_right
trim_lws-Starts value m h = elim (trim_left-Starts value.size m value.from h) [
  | inl (rest, (from, size)) ↦
      inl (rest, (from, ap (λ k. trim_right k (trim_left m value.from).from) size))
  | inr found ↦ inr found
]

trimmed_clean :
    (p : StringPiece) → has_control p.from ≡ false → has_control (trim_lws p).from ≡ false
unfolding trim_lws
trimmed_clean p h = has_control-trim_left p.size p.from h

-- The last test of a value.
abbrev check : HttpByteRange → Option HttpByteRange
check r = if is_valid r then some r else none

no_result : (o : Option ℤ) → ((v : ℤ) → o ≡ some v → contains b'-' [] ≡ true) → o ≡ none
no_result none h = refl
no_result (some v) h = let bad = h v refl in cc

-- A suffix of no bytes, or fewer.
suffix_refused :
    (o : Option ℤ)
    → ((v : ℤ) → o ≡ some v → v ≤ℤ pos 0)
    → (o >>= λ v. some (record new_range { suffix_length = v })) >>= check ≡ none
unfolding is_valid
suffix_refused none h = refl
suffix_refused (some v) h = let small = h v refl in ground (arith, small)

module _ (lib : NumbersAndTokens) where
  open lib use {
    simple_atoi, minus_in_front, minus_not_positive, tokens, tokens_within, lower_case_equals_ascii,
  }

  abbrev ranges_from : StringPiece → StringPiece → Option HttpByteRange
  ranges_from first last = set_first lib first >>= λ range. set_last lib first last range >>= check

  unread :
      (first : StringPiece) (c : ℕ) (rest : Bytes)
      → first.from ≡ c ∷ rest
      → is_lws c ≡ false
      → contains b'-' rest ≡ true
      → has_control first.from ≡ false
      → string_to_int64 lib first ≡ none
  unread first c rest from mark minus clean =
      let plain : has_control (c ∷ rest) ≡ false = ap has_control (sym from) ∙ clean in
      let solid : is_space c ≡ false = ground (arith, plain, mark) in
      ap simple_atoi (c_str_lem first.from clean ∙ from)
      ∙ no_result (simple_atoi (c ∷ rest)) (λ v h. sym (minus_in_front c rest v solid h) ∙ minus)

  unread_refused :
      (first last : StringPiece) → string_to_int64 lib first ≡ none → ranges_from first last ≡ none
  unfolding set_first set_last
  unread_refused first last h = elim (Bool-cases (first.size == 0)) [
    | inl e ↦ elim (Bool-cases (last.size == 0)) [
      | inl f ↦ rw (e, f) refl
      | inr f ↦ rw (e, f, h) refl
    ]
    | inr e ↦ rw (e, h) refl
  ]

  minus_refused :
      (first last : StringPiece) (rest : Bytes)
      → first.from ≡ b'-' ∷ rest
      → first.size ≡ 0
      → has_control first.from ≡ false
      → ranges_from first last ≡ none
  unfolding set_first set_last
  minus_refused first last rest from size clean = elim (Bool-cases (last.size == 0)) [
    | inl f ↦ rw (size, f) refl
    | inr f ↦
        let number : string_to_int64 lib first ≡ simple_atoi (b'-' ∷ rest) =
          ap simple_atoi (c_str_lem first.from clean ∙ from) in
        rw (size, f, number) (suffix_refused (simple_atoi (b'-' ∷ rest)) (minus_not_positive rest))
  ]

  range_at_refused :
      (m : ℕ) (value : StringPiece)
      → find_char b'-' value.size value.from ≡ some m
      → has_control value.from ≡ false
      → range_at lib m value ≡ none
  unfolding range_at trim_lws
  range_at_refused m value found clean =
      let first = trim_lws (record value { size = m }) in
      let last =
        trim_lws (record { from = drop (m + 1) value.from; size = value.size - (m + 1) }) in
      let clear : has_control first.from ≡ false = has_control-trim_left m value.from clean in
      elim (trim_lws-Starts value m found) [
        | inl (rest, (from, size)) ↦ minus_refused first last rest from size clear
        | inr (c, (rest, (from, (mark, minus)))) ↦
            unread_refused first last (unread first c rest from mark minus clear)
      ]

  find_refused :
      (o : Option ℕ) (value : StringPiece)
      → ((m : ℕ) → o ≡ some m → range_at lib m value ≡ none)
      → (o >>= λ m. range_at lib m value) ≡ none
  find_refused none value h = refl
  find_refused (some m) value h = h m refl

  range_of_value_refused :
      (value : StringPiece) → has_control value.from ≡ false → range_of_value lib value ≡ none
  unfolding range_of_value
  range_of_value_refused value clean =
      find_refused (find_char b'-' value.size value.from) value
        (λ m found. range_at_refused m value found clean)

  add_ranges_refused :
      (text : Bytes) (pieces : List StringPiece)
      → has_control text ≡ false
      → Within text pieces
      → add_ranges lib pieces [] ≡ ([], false)
  unfolding add_ranges
  add_ranges_refused text [] clean within = refl
  add_ranges_refused text (p ∷ pieces) clean ((before, split), within) =
      let clear : has_control p.from ≡ false =
        has_control-concat before p.from (ap has_control (sym split) ∙ clean) in
      elim (Bool-cases ((trim_lws p).size == 0)) [
        | inl e ↦ rw e (add_ranges_refused text pieces clean within)
        | inr e ↦ rw (e, range_of_value_refused (trim_lws p) (trimmed_clean p clear)) refl
      ]

  behind_refused :
      (spec : Bytes) (equal_char : ℕ)
      → has_control spec ≡ false
      → ranges_behind lib equal_char spec [] ≡ ([], false)
  unfolding ranges_behind
  behind_refused spec equal_char clean =
      let bytes_unit = trim_lws (record { from = spec; size = equal_char }) in
      let behind = drop (equal_char + 1) spec in
      if_both {A = List HttpByteRange × Bool} (λ r. r ≡ ([], false))
        (lower_case_equals_ascii (take bytes_unit.size bytes_unit.from) (codes "bytes"))
        (add_ranges_refused behind (tokens behind) (has_control-drop (equal_char + 1) spec clean)
          (tokens_within behind))
        refl

  refused_at :
      (o : Option ℕ) (spec : Bytes)
      → has_control spec ≡ false
      → (elim o as (λ _. List HttpByteRange × Bool) [
        | none ↦ ([], false)
        | some equal_char ↦ ranges_behind lib equal_char spec []
      ])
        ≡ ([], false)
  refused_at none spec clean = refl
  refused_at (some equal_char) spec clean = behind_refused spec equal_char clean

  -- For every header text without control characters other than tabs, and an empty list of ranges:
  -- ParseRangeHeader returns false and reads no range, since it takes both positions from the text
  -- that starts at the first one and runs to the end of the header.
  pub parse_range_header_refused :
      (spec : Bytes) → has_control spec ≡ false → parse_range_header lib spec [] ≡ ([], false)
  unfolding parse_range_header
  parse_range_header_refused spec clean = refused_at (find_char b'=' (length spec) spec) spec clean
