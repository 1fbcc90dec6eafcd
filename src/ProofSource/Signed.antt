-- ===== src/ProofSource/Signed.antt =====
-- What GetProof signs: the buffer is as large as what is written to it.
use nginx_quic_stack.Base.{
  ℕ, List, [], ◌∷◌, ◌++◌, some, length, length-append, concat, ◌≡◌, ap, ◌∙◌, arith,
}
use nginx_quic_stack.Base.Bytes.{Bytes}
use nginx_quic_stack.ProofSource.{
  Crypto, new_proof_source, get_proof, payload_size, signed_with, signed_payload,
}
use nginx_quic_stack.ProofSource.Newest.{add_all, chosen, get_certificate-add_all}

-- A writer whose buffer is just large enough has the pieces behind one another; a uint32_t has four
-- bytes.
pub record IsWriter (c : Crypto) : Type 0 where
  pub filled :
      (size : ℕ) (pieces : List Bytes)
      → length (concat pieces) ≡ size
      → c.write_all size pieces ≡ some (concat pieces)
  pub uint32_size : (n : ℕ) → length (c.uint32_bytes n) ≡ 4

module _ (c : Crypto) (w : IsWriter c) where
  abbrev pub payload : Bytes → Bytes → Bytes
  payload server_config chlo_hash =
      c.proof_signature_label
      ++ (c.uint32_bytes (length chlo_hash) ++ (chlo_hash ++ (server_config ++ [])))

  -- For any calls of AddCertificateChain: GetProof does not run out of room, and signs the label, the
  -- length of the hash, the hash and the configuration with the key of the certificate that is chosen.
  pub get_proof-add_all :
      (calls : List (List Bytes × Bytes)) (hostname server_config chlo_hash : Bytes)
      → get_proof c (add_all c calls new_proof_source) hostname server_config chlo_hash
        ≡ signed_with c (payload server_config chlo_hash) (chosen c calls hostname)
  unfolding get_proof
  get_proof-add_all calls hostname server_config chlo_hash =
      ap (signed_payload c (add_all c calls new_proof_source) hostname) (
        w.filled (payload_size c server_config chlo_hash)
          (c.proof_signature_label
            ∷ c.uint32_bytes (length chlo_hash)
            ∷ chlo_hash
            ∷ server_config
            ∷ [])
          (omega (
            arith,
            length-append c.proof_signature_label
                (c.uint32_bytes (length chlo_hash) ++ (chlo_hash ++ (server_config ++ []))),
            length-append (c.uint32_bytes (length chlo_hash)) (chlo_hash ++ (server_config ++ [])),
            length-append chlo_hash (server_config ++ []),
            length-append server_config [],
            w.uint32_size (length chlo_hash),
          )))
      ∙ ap (signed_with c (payload server_config chlo_hash))
          (get_certificate-add_all c calls hostname)
