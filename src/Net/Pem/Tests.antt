-- ===== src/Net/Pem/Tests.antt =====
-- PEM at a stub of Base64 that moves every byte out of the way of dashes and white space.
use nginx_quic_stack.Base.{◌+◌, ◌-◌, true, [], ◌∷◌, ◌++◌, some, ◌≡◌, refl, ap, arith}
use nginx_quic_stack.Base.Bytes.{Bytes, codes}
use nginx_quic_stack.Net.Pem.{pem_type, new_pem_tokenizer, pem_encode, pem_get_next}
use nginx_quic_stack.Net.Pem.Lines.{Base64, is_plain, without_newlines}
use nginx_quic_stack.Net.Pem.RoundTrip.{pem_get_next-pem_encode}

abbrev shift : Bytes → Bytes
shift [] = []
shift (c ∷ bytes) = (c + 64) ∷ shift bytes

abbrev unshift : Bytes → Bytes
unshift [] = []
unshift (c ∷ bytes) = (c - 64) ∷ unshift bytes

unshift-shift : (bytes : Bytes) → unshift (shift bytes) ≡ bytes
unshift-shift [] = refl
unshift-shift (c ∷ bytes) =
    let back : c + 64 - 64 ≡ c = omega arith in cc (back, unshift-shift bytes)

is_plain-shift : (bytes : Bytes) → is_plain (shift bytes) ≡ true
is_plain-shift [] = refl
is_plain-shift (c ∷ bytes) = ground (arith, is_plain-shift bytes)

abbrev shifted : Base64
shifted = record {
  encode = shift;
  decode = λ text. some (unshift text);
  collapse_whitespace = without_newlines;
  decode-encode = λ bytes. ap some (unshift-shift bytes);
  encode-plain = is_plain-shift;
  collapse_lines = λ text plain. refl;
}

-- A block of another type in front is passed over.
two_blocks_test :
    (pem_get_next shifted.decode shifted.collapse_whitespace (
      new_pem_tokenizer
        (pem_encode shift (1 ∷ []) (codes "B") ++ pem_encode shift (2 ∷ []) (codes "A"))
        (codes "A" ∷ [])))
    ≡ (
      true,
      record {
        rest = some (codes "\n");
        block_type = codes "A";
        block_types = pem_type (codes "A") ∷ [];
        decoded = [];
      },
    )
unfolding pem_get_next new_pem_tokenizer pem_encode
two_blocks_test = refl

pem_get_next-pem_encode_example :
    (pem_get_next shifted.decode shifted.collapse_whitespace (
      new_pem_tokenizer
        (pem_encode shift (3 ∷ 4 ∷ []) (codes "CERTIFICATE"))
        (codes "CERTIFICATE" ∷ [])))
    ≡ (
      true,
      record {
        rest = some (codes "\n");
        block_type = codes "CERTIFICATE";
        block_types = pem_type (codes "CERTIFICATE") ∷ [];
        decoded = [];
      },
    )
pem_get_next-pem_encode_example =
    pem_get_next-pem_encode shifted (3 ∷ 4 ∷ []) (codes "CERTIFICATE") refl refl
