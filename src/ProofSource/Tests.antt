-- ===== src/ProofSource/Tests.antt =====
-- A proof source with stubs: a certificate is the name it is for, and its key is the same text.
use nginx_quic_stack.Base.{if◌then◌else◌, List, [], ◌∷◌, ◌++◌, none, some, concat, ◌≡◌, refl}
use nginx_quic_stack.Base.Bytes.{Bytes, codes, same}
use nginx_quic_stack.ProofSource.{
  add_certificate_chain, Crypto, new_proof_source, get_certificate, add_certificate_chain_from_path,
}
use nginx_quic_stack.ProofSource.Newest.{add_all, chosen, get_certificate-add_all}

abbrev stub : Crypto
stub = record {
  read_file_to_string = some;
  load_certificates = λ text. text ∷ [];
  load_private_key = λ text. if same text (codes "no key") then none else some text;
  subject_alt_name_domains = λ leaf. some (leaf ∷ []);
  matches_public_key = same;
  sign = λ key text algorithm. key ++ text;
  proof_signature_label = codes "label";
  uint32_bytes = λ n. 0 ∷ 0 ∷ 0 ∷ n ∷ [];
  write_all = λ size pieces. some (concat pieces);
  rsa_pss_rsae_sha256 = 2052;
}

abbrev call : Bytes → List Bytes × Bytes
call name = (name ∷ [], name)

abbrev calls : List (List Bytes × Bytes)
calls =
    call (codes "*.example.org")
    ∷ call (codes "a.example.org")
    ∷ ([], codes "x")
    ∷ (codes "b.example.org" ∷ [], codes "other key")
    ∷ call (codes "example.com")
    ∷ []

-- The key of b.example.org is another certificate's: its chain is refused, and the wildcard is taken.
wildcard_test :
    get_certificate (add_all stub calls new_proof_source) (codes "b.example.org")
    ≡ some (record { chain = codes "*.example.org" ∷ []; key = codes "*.example.org" })
unfolding get_certificate add_certificate_chain same
wildcard_test = refl

front_test :
    get_certificate (add_all stub calls new_proof_source) (codes "localhost")
    ≡ some (record { chain = codes "example.com" ∷ []; key = codes "example.com" })
unfolding get_certificate add_certificate_chain same
front_test = refl

-- A key that cannot be parsed is read through a null pointer.
null_key_test :
    add_certificate_chain_from_path stub (codes "a") (codes "no key") new_proof_source ≡ none
unfolding add_certificate_chain_from_path same
null_key_test = refl

-- Without certificates the front of an empty list is taken.
empty_test : get_certificate new_proof_source (codes "a") ≡ none
unfolding get_certificate
empty_test = refl

get_certificate-add_all_example :
    get_certificate (add_all stub calls new_proof_source) (codes "a.example.org")
    ≡ chosen stub calls (codes "a.example.org")
get_certificate-add_all_example = get_certificate-add_all stub calls (codes "a.example.org")
