-- ===== src/Http/ResponseHeaders/Values.antt =====
-- The loops over `EnumerateHeader` against one pass over the headers.
use nginx_quic_stack.Base.{
  ℕ, ◌≤◌, zero, suc, Bool, true, false, List, [], ◌∷◌, if◌then◌else◌, length, ◌≡◌, refl, ap, sym,
  ◌∙◌, arith, Bool-cases, inl, inr,
}
use nginx_quic_stack.Base.Bytes.{Bytes}
use nginx_quic_stack.Http.Ascii.{AsciiCase}
use nginx_quic_stack.Http.Pieces.{text_of}
use nginx_quic_stack.Http.ResponseHeaders.{ParsedHeader, is_continuation}
use nginx_quic_stack.Http.ResponseHeaders.Lookup.{
  find_header, value_of, value_and, found_at, enumerate_header, header_values,
}

module _ (ascii : AsciiCase) where
  -- The values of the headers with a name, their continuations included. `taken` says that the
  -- header before had the name.
  unfoldable pub values_from : Bytes → Bool → List ParsedHeader → List Bytes
  unfolding is_continuation
  values_from name taken [] = []
  values_from name taken (h ∷ headers) =
      let more = values_from name true headers in
      let fewer = values_from name false headers in
      if is_continuation h
      then (if taken then text_of h.value ∷ more else fewer)
      else if ascii.equals_case_insensitive_ascii name (text_of h.name)
      then text_of h.value ∷ more
      else fewer

  abbrev values_at : Bytes → List ParsedHeader → List Bytes
  values_at name [] = []
  values_at name (h ∷ headers) = text_of h.value ∷ values_from name true headers

  values_from-find_header :
      (name : Bytes) (headers : List ParsedHeader)
      → (values_from name false headers ≡ values_at name (find_header ascii name headers))
        × (length (find_header ascii name headers) ≤ length headers)
  unfolding values_from find_header
  values_from-find_header name [] = (refl, omega arith)
  values_from-find_header name (h ∷ headers) = ground (arith, values_from-find_header name headers)

  abbrev LoopsEnough : ℕ → Type 0
  LoopsEnough fuel =
      (name : Bytes) (headers : List ParsedHeader)
      → length headers ≤ fuel
      → (header_values ascii fuel name true headers ≡ values_from name false headers)
        × (header_values ascii fuel name false headers ≡ values_from name true headers)

  -- One round at a place that has been found, or at none.
  value_and-found :
      (fuel : ℕ) (name : Bytes) (headers : List ParsedHeader)
      → LoopsEnough fuel
      → length headers ≤ suc fuel
      → value_and (header_values ascii fuel name false) (value_of headers) ≡ values_at name headers
  value_and-found fuel name [] enough h = refl
  value_and-found fuel name (p ∷ headers) enough h =
      ap (λ vs. text_of p.value ∷ vs) (enough name headers (omega (arith, h))).1

  same_start :
      (name : Bytes) (p : ParsedHeader) (headers : List ParsedHeader)
      → is_continuation p ≡ false
      → values_from name false (p ∷ headers) ≡ (
          if ascii.equals_case_insensitive_ascii name (text_of p.name)
          then text_of p.value ∷ values_from name true headers
          else values_from name false headers)
  unfolding values_from
  same_start name p headers first = rw first refl

  values_behind :
      (fuel : ℕ)
      → LoopsEnough fuel
      → (name : Bytes) (headers : List ParsedHeader) → length headers ≤ suc fuel
      → value_and (header_values ascii fuel name false) (value_of (find_header ascii name headers))
        ≡ values_from name false headers
      → value_and (header_values ascii fuel name false) (value_of (found_at ascii name headers))
        ≡ values_from name true headers
  unfolding values_from
  values_behind fuel enough name [] h fresh = refl
  values_behind fuel enough name (p ∷ headers) h fresh = elim (Bool-cases (is_continuation p)) [
    | inl further ↦
        rw further (ap (λ vs. text_of p.value ∷ vs) (enough name headers (omega (arith, h))).1)
    | inr first ↦ rw first (fresh ∙ same_start name p headers first)
  ]

  LoopsEnough-suc : (fuel : ℕ) → LoopsEnough fuel → LoopsEnough (suc fuel)
  unfolding header_values enumerate_header
  LoopsEnough-suc fuel enough name headers h =
      let (found, short) = values_from-find_header name headers in
      let fresh =
        value_and-found fuel name (find_header ascii name headers) enough (omega (arith, short, h))
        ∙ sym found in
      (fresh, values_behind fuel enough name headers h fresh)

  enough_rounds : (fuel : ℕ) → LoopsEnough fuel
  unfolding header_values values_from
  enough_rounds zero name [] h = (refl, refl)
  enough_rounds zero name (p ∷ headers) h = absurd (omega (arith, h))
  enough_rounds (suc fuel) name headers h = LoopsEnough-suc fuel (enough_rounds fuel) name headers h

  -- For every name and list of parsed headers: the loop over EnumerateHeader ends within as many
  -- rounds as there are parsed headers, and gives the values of the headers with the name, up to
  -- case, and of their continuations, in their order.
  pub header_values-values_from :
      (fuel : ℕ) (name : Bytes) (headers : List ParsedHeader)
      → length headers ≤ fuel
      → header_values ascii fuel name true headers ≡ values_from name false headers
  header_values-values_from fuel name headers h = (enough_rounds fuel name headers h).0
