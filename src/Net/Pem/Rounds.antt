-- ===== src/Net/Pem/Rounds.antt =====
-- The loop of `PEMTokenizer::GetNext` ends.
use nginx_quic_stack.Base.{
  ℕ, ◌+◌, ◌≤◌, ◌<◌, zero, suc, Bool, true, List, [], ◌∷◌, Option, none, some, Bool-cases,
  Option-cases, inl, inr, length, drop, length-drop, ◌≡◌, subst, refl, ap, sym, arith,
}
use nginx_quic_stack.Base.Bytes.{Bytes}
use nginx_quic_stack.Net.Pem.{
  PemType, PemTokenizer, Attempt, no_type, no_footer, bad_data, block, starts, find_text, between,
  at_footer, try_types, after_attempt, at_block, search, k_pem_search_block, rest_length,
}

length-starts : (part text : Bytes) → starts part text ≡ true → length part ≤ length text
length-starts [] text h = omega arith
length-starts (p ∷ part) [] h = cc
length-starts (p ∷ part) (c ∷ text) h = ground (arith, length-starts part text)

-- What is found starts with what was looked for, and is no longer than the text.
Found : Bytes → Bytes → Option Bytes → Type 0
Found part text none = Unit {0}
Found part text (some found) = (length found ≤ length text) × (length part ≤ length found)

Found-cons :
    (part text : Bytes) (c : ℕ) (o : Option Bytes) → Found part text o → Found part (c ∷ text) o
unfolding Found
Found-cons part text c none f = tt
Found-cons part text c (some found) (short, long) = (omega (arith, short), long)

find_text-Found : (part text : Bytes) → Found part text (find_text part text)
unfolding find_text Found
find_text-Found [] [] = (omega arith, omega arith)
find_text-Found (p ∷ part) [] = tt
find_text-Found part (c ∷ text) = elim (Bool-cases (starts part (c ∷ text))) [
  | inl here ↦ rw here (omega arith, length-starts part (c ∷ text) here)
  | inr later ↦ rw later (Found-cons part text c (find_text part text) (find_text-Found part text))
]

-- Where the loop goes on behind a block, it is behind a part of the text.
Shrinks : Bytes → Attempt → Type 0
Shrinks text (bad_data type_name rest) = length rest < length text
Shrinks text no_type = Unit {0}
Shrinks text no_footer = Unit {0}
Shrinks text (block type_name rest) = Unit {0}

abbrev pub AllFooters : List PemType → Type 0
AllFooters [] = Unit {0}
AllFooters (t ∷ types) = (1 ≤ length t.footer) × AllFooters types

module _ (base64_decode : Bytes → Option Bytes) (collapse_whitespace : Bytes → Bytes) where
  abbrev attempt_at : PemType → Bytes → Option Bytes → Attempt
  attempt_at t text found = at_footer base64_decode collapse_whitespace t text found

  at_footer-Shrinks :
      (t : PemType) (text : Bytes) (o : Option Bytes)
      → 1 ≤ length t.footer
      → Found t.footer text o
      → Shrinks text (attempt_at t text o)
  unfolding Found Shrinks
  at_footer-Shrinks t text none some_footer f = tt
  at_footer-Shrinks t text (some found) some_footer (short, long) =
      elim (Option-cases (base64_decode (collapse_whitespace (between t text found)))) [
        | inl bad ↦
            rw (bad, Shrinks)
              (omega (arith, short, long, some_footer, length-drop (length t.footer) found))
        | inr (bytes, good) ↦ rw (good, Shrinks) tt
      ]

  try_types-Shrinks :
      (types : List PemType) (text : Bytes)
      → AllFooters types
      → Shrinks text (try_types base64_decode collapse_whitespace types text)
  unfolding try_types Shrinks
  try_types-Shrinks [] text v = tt
  try_types-Shrinks (t ∷ types) text (v, vs) = elim (Bool-cases (starts t.header text)) [
    | inl fits ↦
        rw fits
          (at_footer-Shrinks t text (find_text t.footer text) v (find_text-Found t.footer text))
    | inr other ↦ rw other (try_types-Shrinks types text vs)
  ]

  -- Two ways to go on that agree on shorter texts.
  module _ (one other : PemTokenizer → Bool × PemTokenizer) (types : List PemType) (n : ℕ)
      (agree : (q : PemTokenizer)
        → q.block_types ≡ types
        → rest_length q.rest < n
        → one q ≡ other q) where
    after_attempt_agree :
        (p : PemTokenizer) (text : Bytes) (a : Attempt)
        → p.block_types ≡ types
        → length text ≤ n
        → 1 ≤ length text
        → Shrinks text a
        → after_attempt base64_decode collapse_whitespace one p text a
          ≡ after_attempt base64_decode collapse_whitespace other p text a
    unfolding Shrinks
    after_attempt_agree p text no_type made short long s =
        agree (record p { rest = some (drop (length k_pem_search_block + 1) text) }) made
          (omega (arith, short, long, length-drop (length k_pem_search_block + 1) text))
    after_attempt_agree p text no_footer made short long s = refl
    after_attempt_agree p text (bad_data type_name rest) made short long s =
        agree (record p { rest = some rest; block_type = type_name }) made (omega (arith, short, s))
    after_attempt_agree p text (block type_name rest) made short long s = refl

    at_block_agree :
        (p : PemTokenizer) (text : Bytes) (o : Option Bytes)
        → p.block_types ≡ types
        → AllFooters types
        → length text ≤ n
        → Found k_pem_search_block text o
        → at_block base64_decode collapse_whitespace one p o
          ≡ at_block base64_decode collapse_whitespace other p o
    unfolding Found
    at_block_agree p text none made v short f = refl
    at_block_agree p text (some found) made v short (below, above) =
        after_attempt_agree p found
          (try_types base64_decode collapse_whitespace p.block_types found) made
          (omega (arith, short, below)) (omega (arith, above))
          (try_types-Shrinks p.block_types found (subst AllFooters (sym made) v))

  -- The loop ends: one round more than there are bytes is enough.
  pub search_enough :
      (f g : ℕ) (p : PemTokenizer)
      → AllFooters p.block_types
      → rest_length p.rest < f
      → rest_length p.rest < g
      → search base64_decode collapse_whitespace f p ≡ search base64_decode collapse_whitespace g p
  unfolding search
  search_enough zero g p v h k = absurd (omega (arith, h))
  search_enough (suc f) zero p v h k = absurd (omega (arith, k))
  search_enough (suc f) (suc g) p v h k = elim (Option-cases p.rest) [
    | inl ended ↦ rw ended refl
    | inr (text, here) ↦
        let size : rest_length p.rest ≡ length text = ap rest_length here in
        rw here (
          at_block_agree (search base64_decode collapse_whitespace f)
            (search base64_decode collapse_whitespace g) p.block_types (length text)
            (λ q made shorter.
              search_enough f g q (subst AllFooters (sym made) v) (omega (arith, shorter, size, h))
                (omega (arith, shorter, size, k)))
            p text (find_text k_pem_search_block text) refl v (omega arith)
            (find_text-Found k_pem_search_block text))
  ]
