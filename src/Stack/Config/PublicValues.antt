-- ===== src/Stack/Config/PublicValues.antt =====
-- The public values of a server configuration, read back by their lengths.
use nginx_quic_stack.Base.{
  ℕ, ◌+◌, ◌*◌, ◌/◌, ◌%◌, ◌^◌, ◌<◌, zero, suc, List, [], ◌∷◌, ◌++◌, if◌then◌else◌, length, take,
  drop, Bool-cases, inl, inr, ◌≡◌, refl, ap, ◌∙◌, sym, arith, append-nil,
}
use nginx_quic_stack.Base.Bytes.{Bytes}
use nginx_quic_stack.Http.Texts.{take-key}
use nginx_quic_stack.Stack.Config.{
  Library, Machine, ConfigOptions, encode_public_value, encoded_public_values,
  curve25519_private_key,
}

-- A length of three bytes, the lowest first, and as many bytes; then the next value.
unfoldable pub decode_public_values : ℕ → Bytes → List Bytes
decode_public_values zero text = []
decode_public_values (suc fuel) (a ∷ b ∷ c ∷ text) =
    let size = a + 256 * b + 65536 * c in
    take size text ∷ decode_public_values fuel (drop size text)
decode_public_values (suc fuel) text = []

drop_key : (key rest : Bytes) → drop (length key) (key ++ rest) ≡ rest
drop_key [] rest = refl
drop_key (c ∷ key) rest = drop_key key rest

three_bytes :
    (n : ℕ) → n < 2 ^ 24 → n % 256 + 256 * ((n / 256) % 256) + 65536 * ((n / 65536) % 256) ≡ n
three_bytes n h = omega arith

decode_public_values-encode_public_value :
    (fuel : ℕ) (value rest : Bytes)
    → length value < 2 ^ 24
    → decode_public_values (suc fuel) (encode_public_value value ++ rest)
      ≡ value ∷ decode_public_values fuel rest
unfolding decode_public_values encode_public_value
decode_public_values-encode_public_value fuel value rest h =
    rw (three_bytes (length value) h, take-key value rest, drop_key value rest) refl

decode_public_values_end : (fuel : ℕ) → decode_public_values fuel [] ≡ []
unfolding decode_public_values
decode_public_values_end zero = refl
decode_public_values_end (suc fuel) = refl

-- For public values shorter than 2 ^ 24 bytes: the public values of the message, read by the
-- length of three bytes in front of each, are the value for Curve25519 and, if the options have
-- the second key exchange, the value for P-256.
pub decode_public_values-encoded_public_values :
    (lib : Library) (machine : Machine) (options : ConfigOptions)
    → length (lib.curve25519_public_value (curve25519_private_key lib machine options)) < 2 ^ 24
    → length (lib.p256_public_value machine.p256_new_private_key) < 2 ^ 24
    → decode_public_values 2 (encoded_public_values lib machine options)
      ≡ lib.curve25519_public_value (curve25519_private_key lib machine options)
        ∷ (if options.p256 then lib.p256_public_value machine.p256_new_private_key ∷ [] else [])
unfolding encoded_public_values
decode_public_values-encoded_public_values lib machine options h k =
    let first = lib.curve25519_public_value (curve25519_private_key lib machine options) in
    let second = lib.p256_public_value machine.p256_new_private_key in
    elim (Bool-cases options.p256) [
      | inl p256 ↦ rw p256 (
          decode_public_values-encode_public_value 1 first (encode_public_value second) h
          ∙ ap (λ vs. first ∷ vs)
              (ap (decode_public_values 1) (sym (append-nil (encode_public_value second)))
                ∙ (decode_public_values-encode_public_value 0 second [] k
                    ∙ ap (λ vs. second ∷ vs) (decode_public_values_end 0))))
      | inr single ↦ rw single (
          decode_public_values-encode_public_value 1 first [] h
          ∙ ap (λ vs. first ∷ vs) (decode_public_values_end 1))
    ]
