-- ===== src/Stack/Config.antt =====
-- The configuration that src/tQuicStack.cc makes: `Initialize` on quiche's configuration,
-- `InitializeConfigOptions` and `GenerateConfigProtobuf` on that of the handshake. A
-- `QuicWallTime` is its number of microseconds.
pub mod Shared
pub mod PublicValues
mod Tests
use nginx_quic_stack.Base.{
  ℕ, ◌+◌, ◌*◌, ◌/◌, ◌%◌, Bool, true, false, List, [], ◌∷◌, ◌++◌, Option, none, some, if◌then◌else◌,
  ◌==◌, is_nil, length, take,
}
use nginx_quic_stack.Base.Bytes.{Bytes}

pub data Tag : Type 0 where
  k_scfg k_kexs k_c255 k_p256 k_aead k_aesg k_cc20 k_pubs k_expy k_orbt k_pdmd k_chid k_scid : Tag

-- A setter of `CryptoHandshakeMessage`, and a message as its tag and its setters in their order.
pub data Setting : Type 0 where
  set_vector : Tag → List Tag → Setting
  set_string_piece : Tag → Bytes → Setting
  set_value : Tag → ℕ → Setting

pub record CryptoHandshakeMessage : Type 0 where
  pub tag : Tag
  pub settings : List Setting

abbrev pub with_setting : Setting → CryptoHandshakeMessage → CryptoHandshakeMessage
with_setting s msg = record msg { settings = msg.settings ++ s ∷ [] }

-- What BoringSSL and quiche compute, on every machine alike.
pub record Library : Type 0 where
  pub sha256 : Bytes → Bytes
  pub curve25519_public_value : Bytes → Bytes
  pub p256_public_value : Bytes → Bytes
  pub construct_handshake_message : CryptoHandshakeMessage → Bytes
  pub orbit_size : ℕ

-- What differs between machines and runs: the name, random bytes and the time.
pub record Machine : Type 0 where
  pub host_name : Option Bytes
  pub curve25519_new_private_key : Bytes
  pub p256_new_private_key : Bytes
  pub random_orbit : Bytes
  pub wall_time : ℕ

pub record ConfigOptions : Type 0 where
  pub id : Bytes
  pub orbit : Bytes
  pub expiry_time : ℕ
  pub p256 : Bool
  pub channel_id_enabled : Bool

pub record PrivateKey : Type 0 where
  pub key_tag : Tag
  pub private_key : Bytes

pub record QuicServerConfigProtobuf : Type 0 where
  pub config : Bytes
  pub keys : List PrivateKey

abbrev pub k_scfg_expiry_time : ℕ
k_scfg_expiry_time = 4733481600 * 1000000

-- Up to the last dash, which is included; nothing where there is none.
unfoldable pub host_name_prefix : Bytes → Bytes
host_name_prefix [] = []
host_name_prefix (c ∷ name) =
    let rest = host_name_prefix name in
    if c == b'-' then c ∷ rest else if is_nil rest then [] else c ∷ rest

abbrev pub named_options : Library → Bytes → ConfigOptions → ConfigOptions
named_options lib [] options = options
named_options lib (c ∷ prefix) options = record options {
  id = take 16 (lib.sha256 (c ∷ prefix));
  orbit = take 8 (lib.sha256 (c ∷ prefix));
  expiry_time = k_scfg_expiry_time;
}

abbrev pub prefix_of : Option Bytes → Bytes
prefix_of none = []
prefix_of (some name) = host_name_prefix name

unfoldable pub initialize_config_options : Library → Machine → ConfigOptions → ConfigOptions
unfolding host_name_prefix
initialize_config_options lib machine options =
    named_options lib (prefix_of machine.host_name) options

-- Three bytes of the length, the lowest first, in front of the value.
unfoldable pub encode_public_value : Bytes → Bytes
encode_public_value public_value =
    let size = length public_value in
    size % 256 ∷ (size / 256) % 256 ∷ (size / 65536) % 256 ∷ public_value

abbrev pub curve25519_private_key : Library → Machine → ConfigOptions → Bytes
curve25519_private_key lib machine options =
    if is_nil options.id
    then machine.curve25519_new_private_key
    else take 32 (lib.sha256 options.id)

unfoldable pub encoded_public_values : Library → Machine → ConfigOptions → Bytes
unfolding encode_public_value
encoded_public_values lib machine options =
    encode_public_value (lib.curve25519_public_value (curve25519_private_key lib machine options))
    ++ (if options.p256
        then encode_public_value (lib.p256_public_value machine.p256_new_private_key)
        else [])

abbrev pub expiry_seconds : Machine → ConfigOptions → ℕ
expiry_seconds machine options =
    (if options.expiry_time == 0
      then machine.wall_time + 60 * 60 * 24 * 180 * 1000000
      else options.expiry_time)
    / 1000000

abbrev pub orbit_bytes : Library → Machine → ConfigOptions → Bytes
orbit_bytes lib machine options =
    if length options.orbit == lib.orbit_size then options.orbit else machine.random_orbit

-- The message before its id.
unfoldable pub message_without_id : Library → Machine → ConfigOptions → CryptoHandshakeMessage
unfolding encoded_public_values
message_without_id lib machine options =
    let exchanges =
      set_vector k_kexs (if options.p256 then k_c255 ∷ k_p256 ∷ [] else k_c255 ∷ []) in
    let msg : CryptoHandshakeMessage = record {
      tag = k_scfg;
      settings =
          exchanges
          ∷ set_vector k_aead (k_aesg ∷ k_cc20 ∷ [])
          ∷ set_string_piece k_pubs (encoded_public_values lib machine options)
          ∷ set_value k_expy (expiry_seconds machine options)
          ∷ set_string_piece k_orbt (orbit_bytes lib machine options)
          ∷ [];
    } in
    if options.channel_id_enabled then with_setting (set_vector k_pdmd (k_chid ∷ [])) msg else msg

-- The id that the options have, or a part of the digest of the rest.
abbrev pub config_id : Library → ConfigOptions → CryptoHandshakeMessage → Bytes
config_id lib options msg =
    if is_nil options.id
    then take 16 (lib.sha256 (lib.construct_handshake_message msg))
    else options.id

unfoldable pub generate_config_protobuf :
    Library → Machine → ConfigOptions → QuicServerConfigProtobuf
unfolding message_without_id
generate_config_protobuf lib machine options =
    let msg = message_without_id lib machine options in
    let with_id = with_setting (set_string_piece k_scid (config_id lib options msg)) msg in
    let curve25519_key : PrivateKey = record {
      key_tag = k_c255;
      private_key = curve25519_private_key lib machine options;
    } in
    let p256_key : PrivateKey = record {
      key_tag = k_p256;
      private_key = machine.p256_new_private_key;
    } in
    record {
      config = lib.construct_handshake_message with_id;
      keys = curve25519_key ∷ (if options.p256 then p256_key ∷ [] else []);
    }
