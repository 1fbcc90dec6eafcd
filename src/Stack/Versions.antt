-- ===== src/Stack/Versions.antt =====
-- `quic_stack_supported_versions` of src/tQuicStack.cc: the supported versions of quiche, which are
-- an argument, as text in the caller's buffer of `len` bytes.
use nginx_quic_stack.Base.{
  ℕ, zero, suc, ◌+◌, ◌/◌, ◌%◌, ◌<◌, append-nil, ◌≤◌, Bool, true, false, List, [], ◌∷◌, ◌++◌,
  if◌then◌else◌, ltb, is_nil, length, ◌≡◌, refl, ap, ◌∙◌, sym, arith, append_assoc, Bool-cases, inl,
  inr,
}
use nginx_quic_stack.Base.Bytes.{Bytes}
use nginx_quic_stack.Base.Int.{ℤ, pos}
use nginx_quic_stack.Http.Tokens.{joined}
use nginx_quic_stack.Stream.Buffer.{quic_stack_server, quic_stack_parameter}
use nginx_quic_stack.Stream.Response.Text.{digits, decimal}

pub record ParsedQuicVersion : Type 0 where
  pub is_quic_crypto : Bool
  pub transport_version : ℕ

unfoldable pub append_versions : Bytes → List ParsedQuicVersion → Bytes
unfolding decimal
append_versions qvl_str [] = qvl_str
append_versions qvl_str (i ∷ qvv) =
    append_versions
      (if i.is_quic_crypto
        then (if is_nil qvl_str then qvl_str else qvl_str ++ b',' ∷ [])
          ++ decimal i.transport_version
        else qvl_str)
      qvv

-- What is copied into the buffer, and the result.
unfoldable pub quic_stack_supported_versions : Bool → List ParsedQuicVersion → ℕ → Bytes × ℤ
unfolding append_versions
quic_stack_supported_versions has_stack qvv len =
    let qvl_str = append_versions [] qvv in
    if has_stack
    then (if ltb len (length qvl_str)
        then ([], quic_stack_server)
        else (qvl_str, pos (length qvl_str)))
    else ([], quic_stack_parameter)

-- The versions that are listed.
abbrev pub crypto_versions : List ParsedQuicVersion → List Bytes
crypto_versions [] = []
crypto_versions (i ∷ qvv) =
    let rest = crypto_versions qvv in
    if i.is_quic_crypto then decimal i.transport_version ∷ rest else rest

digits_some : (fuel n : ℕ) (c : ℕ) (out : Bytes) → is_nil (digits fuel n (c ∷ out)) ≡ false
unfolding digits
digits_some zero n c out = refl
digits_some (suc fuel) n c out = ground (arith, digits_some fuel (n / 10) (b'0' + n % 10) (c ∷ out))

decimal_some : (n : ℕ) → is_nil (decimal n) ≡ false
unfolding decimal digits
decimal_some n =
    ap (λ fuel. is_nil (digits fuel n [])) {x = n + 1} {y = suc n} (omega arith)
    ∙ ground (arith, digits_some n (n / 10) (b'0' + n % 10) [])

is_nil-append : (s t : Bytes) → is_nil s ≡ false → is_nil (s ++ t) ≡ false
is_nil-append [] t h = cc
is_nil-append (c ∷ s) t h = refl

-- Each text with a comma in front.
abbrev behind_commas : List Bytes → Bytes
behind_commas [] = []
behind_commas (t ∷ ts) = b',' ∷ (t ++ behind_commas ts)

joined-behind_commas : (t : Bytes) (ts : List Bytes) → joined (t ∷ ts) ≡ t ++ behind_commas ts
joined-behind_commas t [] = sym (append-nil t)
joined-behind_commas t (u ∷ ts) = ap (λ s. t ++ b',' ∷ s) (joined-behind_commas u ts)

append_versions_more :
    (q : Bytes) (qvv : List ParsedQuicVersion)
    → is_nil q ≡ false
    → append_versions q qvv ≡ q ++ behind_commas (crypto_versions qvv)
unfolding append_versions
append_versions_more q [] h = sym (append-nil q)
append_versions_more q (i ∷ qvv) h = elim (Bool-cases i.is_quic_crypto) [
  | inl crypto ↦
      let number = decimal i.transport_version in
      rw (crypto, h)
        (append_versions_more ((q ++ b',' ∷ []) ++ number) qvv
            (is_nil-append (q ++ b',' ∷ []) number (is_nil-append q (b',' ∷ []) h))
          ∙ (append_assoc (q ++ b',' ∷ []) number (behind_commas (crypto_versions qvv))
              ∙ append_assoc q (b',' ∷ []) (number ++ behind_commas (crypto_versions qvv))))
  | inr other ↦ rw other (append_versions_more q qvv h)
]

append_versions-joined :
    (qvv : List ParsedQuicVersion) → append_versions [] qvv ≡ joined (crypto_versions qvv)
unfolding append_versions
append_versions-joined [] = refl
append_versions-joined (i ∷ qvv) = elim (Bool-cases i.is_quic_crypto) [
  | inl crypto ↦
      let number = decimal i.transport_version in
      rw crypto (
        append_versions_more number qvv (decimal_some i.transport_version)
        ∙ sym (joined-behind_commas number (crypto_versions qvv)))
  | inr other ↦ rw other (append_versions-joined qvv)
]

-- With a stack: where the numbers of the QUIC crypto versions, with commas between them, have at
-- most `len` bytes, quic_stack_supported_versions copies them and returns how many bytes they are;
-- where they have more, it copies nothing and returns QUIC_STACK_SERVER. So it never writes behind
-- the caller's buffer.
pub quic_stack_supported_versions_lem :
    (qvv : List ParsedQuicVersion) (len : ℕ)
    → (length (joined (crypto_versions qvv)) ≤ len
        → quic_stack_supported_versions true qvv len
          ≡ (joined (crypto_versions qvv), pos (length (joined (crypto_versions qvv)))))
      × (len < length (joined (crypto_versions qvv))
          → quic_stack_supported_versions true qvv len ≡ ([], quic_stack_server))
      × (length (quic_stack_supported_versions true qvv len).0 ≤ len)
unfolding quic_stack_supported_versions
quic_stack_supported_versions_lem qvv len =
    rw (append_versions-joined qvv)
      (λ fits. ground (arith, fits), λ long. ground (arith, long), ground arith)
