-- ===== src/ProofSource.antt =====
-- src/tQuicProofSource.cc: `tQuicProofSource`. What quiche and BoringSSL do with files, certificates
-- and keys is a parameter; a private key is a byte string. The nodes of `certificates_` are neither
-- changed nor removed, so a pointer to one is the certificate.
pub mod Newest
pub mod Signed
mod Tests
use nginx_quic_stack.Base.{
  ℕ, ◌+◌, Bool, true, false, not, List, [], ◌∷◌, ◌++◌, Option, none, some, if◌then◌else◌, ◌==◌,
  is_nil, length,
}
use nginx_quic_stack.Base.Bytes.{Bytes, codes, same}

pub record Certificate : Type 0 where
  pub chain : List Bytes
  pub key : Bytes

pub record ProofSource : Type 0 where
  pub certificates : List Certificate
  pub certificate_map : Bytes → Option Certificate

abbrev pub new_proof_source : ProofSource
new_proof_source = record { certificates = []; certificate_map = λ name. none }

-- What the code calls. The domains are those of a leaf certificate that can be parsed, and a writer
-- has the bytes it wrote in a buffer of a size, if they fit.
pub record Crypto : Type 0 where
  pub read_file_to_string : Bytes → Option Bytes
  pub load_certificates : Bytes → List Bytes
  pub load_private_key : Bytes → Option Bytes
  pub subject_alt_name_domains : Bytes → Option (List Bytes)
  pub matches_public_key : Bytes → Bytes → Bool
  pub sign : Bytes → Bytes → ℕ → Bytes
  pub proof_signature_label : Bytes
  pub uint32_bytes : ℕ → Bytes
  pub write_all : ℕ → List Bytes → Option Bytes
  pub rsa_pss_rsae_sha256 : ℕ

-- `certificate_map_[host] = certificate`.
abbrev pub assign : Bytes → Certificate → (Bytes → Option Certificate) → Bytes → Option Certificate
assign host certificate map name = if same host name then some certificate else map name

abbrev pub assign_all :
    List Bytes → Certificate → (Bytes → Option Certificate) → Bytes → Option Certificate
assign_all [] certificate map = map
assign_all (host ∷ hosts) certificate map =
    assign_all hosts certificate (assign host certificate map)

abbrev pub from_dot : Bytes → Option Bytes
from_dot [] = none
from_dot (c ∷ text) = let later = from_dot text in if c == b'.' then some (c ∷ text) else later

abbrev pub front : List Certificate → Option Certificate
front [] = none
front (c ∷ certificates) = some c

abbrev pub or_else : Option Certificate → Option Certificate → Option Certificate
or_else none other = other
or_else (some c) other = some c

abbrev pub wildcard_of : (Bytes → Option Certificate) → Option Bytes → Option Certificate
wildcard_of map none = none
wildcard_of map (some rest) = map (codes "*" ++ rest)

-- `none` where the front of an empty list is asked for.
unfoldable pub get_certificate : ProofSource → Bytes → Option Certificate
get_certificate s hostname =
    or_else (s.certificate_map hostname)
      (or_else (wildcard_of s.certificate_map (from_dot hostname)) (front s.certificates))

module _ (c : Crypto) where
  abbrev pub add_leaf :
      List Bytes → Bytes → Bytes → Option (List Bytes) → ProofSource → Bool × ProofSource
  add_leaf chain leaf key none s = (false, s)
  add_leaf chain leaf key (some domains) s =
      let certificate : Certificate = record { chain = chain; key = key } in
      if c.matches_public_key key leaf
      then (
        true,
        record {
          certificates = certificate ∷ s.certificates;
          certificate_map = assign_all domains certificate s.certificate_map;
        },
      )
      else (false, s)

  unfoldable pub add_certificate_chain : List Bytes → Bytes → ProofSource → Bool × ProofSource
  add_certificate_chain [] key s = (false, s)
  add_certificate_chain (leaf ∷ chain) key s =
      add_leaf (leaf ∷ chain) leaf key (c.subject_alt_name_domains leaf) s

  -- `none` where a key that is null is read: QUIC_BUG does not leave the function.
  abbrev pub add_loaded : List Bytes → Option Bytes → ProofSource → Option (Bool × ProofSource)
  add_loaded certs none s = none
  add_loaded certs (some key) s = some (add_certificate_chain certs key s)

  abbrev pub with_key_data : List Bytes → Option Bytes → ProofSource → Option (Bool × ProofSource)
  with_key_data certs none s = some (false, s)
  with_key_data certs (some key_data) s = add_loaded certs (c.load_private_key key_data) s

  abbrev pub with_cert_data : Option Bytes → Bytes → ProofSource → Option (Bool × ProofSource)
  with_cert_data none key_path s = some (false, s)
  with_cert_data (some cert_data) key_path s =
      with_key_data (c.load_certificates cert_data) (c.read_file_to_string key_path) s

  unfoldable pub add_certificate_chain_from_path :
      Bytes → Bytes → ProofSource → Option (Bool × ProofSource)
  add_certificate_chain_from_path cert_path key_path s =
      with_cert_data (c.read_file_to_string cert_path) key_path s

  -- What a callback of GetProof is run with.
  pub record ProofCall : Type 0 where
    pub ok : Bool
    pub proof_chain : Option (List Bytes)
    pub signature : Bytes

  abbrev pub payload_size : Bytes → Bytes → ℕ
  payload_size server_config chlo_hash =
      length c.proof_signature_label + 4 + length chlo_hash + length server_config

  abbrev pub signed_with : Bytes → Option Certificate → Option ProofCall
  signed_with payload none = none
  signed_with payload (some certificate) =
      let signed = c.sign certificate.key payload c.rsa_pss_rsae_sha256 in
      some (record {
        ok = not (is_nil signed);
        proof_chain = some certificate.chain;
        signature = signed;
      })

  abbrev pub signed_payload : ProofSource → Bytes → Option Bytes → Option ProofCall
  signed_payload s hostname none = some (record { ok = false; proof_chain = none; signature = [] })
  signed_payload s hostname (some payload) = signed_with payload (get_certificate s hostname)

  unfoldable pub get_proof : ProofSource → Bytes → Bytes → Bytes → Option ProofCall
  get_proof s hostname server_config chlo_hash = signed_payload s hostname (
      c.write_all (payload_size server_config chlo_hash) (
        c.proof_signature_label
        ∷ c.uint32_bytes (length chlo_hash)
        ∷ chlo_hash
        ∷ server_config
        ∷ []))

  abbrev pub chain_of : Option Certificate → Option (List Bytes)
  chain_of none = none
  chain_of (some certificate) = some certificate.chain

  unfoldable pub get_cert_chain : ProofSource → Bytes → Option (List Bytes)
  get_cert_chain s hostname = chain_of (get_certificate s hostname)

  abbrev pub tls_signed : Bytes → ℕ → Option Certificate → Option (Bool × Bytes)
  tls_signed text algorithm none = none
  tls_signed text algorithm (some certificate) =
      let signed = c.sign certificate.key text algorithm in some (not (is_nil signed), signed)

  unfoldable pub compute_tls_signature : ProofSource → Bytes → ℕ → Bytes → Option (Bool × Bytes)
  compute_tls_signature s hostname signature_algorithm text =
      tls_signed text signature_algorithm (get_certificate s hostname)
