-- ===== src/Net/Escape/Decode.antt =====
-- Percent escapes read back.
use nginx_quic_stack.Base.{
  ℕ, ◌+◌, ◌-◌, ◌*◌, ◌/◌, ◌%◌, ◌<◌, zero, suc, Bool, true, false, [], ◌∷◌, if◌then◌else◌, ◌==◌, ltb,
  leb, all, ◌≡◌, refl, ap, ◌∙◌, arith, Bool-cases, inl, inr,
}
use nginx_quic_stack.Base.Bytes.{Bytes}
use nginx_quic_stack.Net.Escape.{Charmap, contains_char, int_to_hex, escape}

-- The value of a digit in upper case.
abbrev pub hex_value : ℕ → ℕ
hex_value c = if leb c b'9' then c - b'0' else c - 55

unfoldable pub decode : Bytes → Bytes
decode [] = []
decode (c ∷ []) = c ∷ []
decode (c ∷ h ∷ []) = c ∷ h ∷ []
decode (c ∷ h ∷ l ∷ text) =
    let rest = decode text in
    let on = decode (h ∷ l ∷ text) in
    if c == b'%' then (16 * hex_value h + hex_value l) ∷ rest else c ∷ on

decode-plain : (c : ℕ) (text : Bytes) → (c == b'%') ≡ false → decode (c ∷ text) ≡ c ∷ decode text
unfolding decode
decode-plain c [] h = refl
decode-plain c (x ∷ []) h = refl
decode-plain c (x ∷ y ∷ text) h = rw h refl

decode-nil : decode [] ≡ []
unfolding decode
decode-nil = refl

hex_value-int_to_hex : (n : ℕ) → n < 16 → hex_value (int_to_hex n) ≡ n
unfolding int_to_hex
hex_value-int_to_hex zero h = refl
hex_value-int_to_hex (suc zero) h = refl
hex_value-int_to_hex (suc (suc zero)) h = refl
hex_value-int_to_hex (suc (suc (suc zero))) h = refl
hex_value-int_to_hex (suc (suc (suc (suc zero)))) h = refl
hex_value-int_to_hex (suc (suc (suc (suc (suc zero))))) h = refl
hex_value-int_to_hex (suc (suc (suc (suc (suc (suc zero)))))) h = refl
hex_value-int_to_hex (suc (suc (suc (suc (suc (suc (suc zero))))))) h = refl
hex_value-int_to_hex (suc (suc (suc (suc (suc (suc (suc (suc zero)))))))) h = refl
hex_value-int_to_hex (suc (suc (suc (suc (suc (suc (suc (suc (suc zero))))))))) h = refl
hex_value-int_to_hex (suc (suc (suc (suc (suc (suc (suc (suc (suc (suc zero)))))))))) h = refl
hex_value-int_to_hex (suc (suc (suc (suc (suc (suc (suc (suc (suc (suc (suc zero))))))))))) h = refl
hex_value-int_to_hex (suc (suc (suc (suc (suc (suc (suc (suc (suc (suc (suc (suc zero))))))))))))
      h =
    refl
hex_value-int_to_hex
      (suc (suc (suc (suc (suc (suc (suc (suc (suc (suc (suc (suc (suc zero))))))))))))) h =
    refl
hex_value-int_to_hex
      (suc (suc (suc (suc (suc (suc (suc (suc (suc (suc (suc (suc (suc (suc zero)))))))))))))) h =
    refl
hex_value-int_to_hex
      (suc (suc (suc (suc (suc (suc (suc (suc (suc (suc (suc (suc (suc (suc (suc zero)))))))))))))))
      h =
    refl
hex_value-int_to_hex
      (suc
        (suc (suc (suc (suc (suc (suc (suc (suc (suc (suc (suc (suc (suc (suc (suc n))))))))))))))))
      h =
    absurd (omega (arith, h))

not_percent :
    (charmap : Charmap) (c : ℕ)
    → contains_char charmap b'%' ≡ true
    → contains_char charmap c ≡ false
    → (c == b'%') ≡ false
not_percent charmap c percent kept =
    let same_bit : c ≡ b'%' → contains_char charmap c ≡ contains_char charmap b'%' =
      ap (contains_char charmap) in
    ground (arith, percent, kept, same_bit)

module _ (is_hex_digit : ℕ → Bool) where
  decode-escaped :
      (c : ℕ) (text : Bytes)
      → c < 256
      → decode (b'%' ∷ int_to_hex (c / 16) ∷ int_to_hex (c % 16) ∷ text) ≡ c ∷ decode text
  unfolding decode
  decode-escaped c text small =
      let high = hex_value-int_to_hex (c / 16) (omega (arith, small)) in
      let low = hex_value-int_to_hex (c % 16) (omega arith) in
      let whole : 16 * (c / 16) + c % 16 ≡ c = omega arith in rw (high, low, whole) refl

  -- For every map of characters that has the percent sign and every text of bytes: reading each
  -- percent sign with its two digits back as a byte undoes Escape without plus signs and without
  -- keeping escapes.
  pub decode-escape :
      (charmap : Charmap) (text : Bytes)
      → contains_char charmap b'%' ≡ true
      → all (λ c. ltb c 256) text ≡ true
      → decode (escape is_hex_digit charmap false false text) ≡ text
  unfolding escape
  decode-escape charmap [] percent bytes = decode-nil
  decode-escape charmap (c ∷ text) percent bytes =
      let small : c < 256 = ground (arith, bytes) in
      let behind = decode-escape charmap text percent (ground (arith, bytes)) in
      let rest = escape is_hex_digit charmap false false text in
      elim (Bool-cases (contains_char charmap c)) [
        | inl escaped ↦ rw escaped (decode-escaped c rest small ∙ ap (λ s. c ∷ s) behind)
        | inr kept ↦
            rw kept
              (decode-plain c rest (not_percent charmap c percent kept) ∙ ap (λ s. c ∷ s) behind)
      ]
