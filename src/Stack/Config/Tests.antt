-- ===== src/Stack/Config/Tests.antt =====
-- Server configurations at a concrete library and two machines.
use nginx_quic_stack.Base.{ℕ, zero, suc, false, true, [], ◌∷◌, some, ◌≡◌, refl, arith}
use nginx_quic_stack.Base.Bytes.{Bytes, codes}
use nginx_quic_stack.Stack.Config.PublicValues.{
  decode_public_values, decode_public_values-encoded_public_values,
}
use nginx_quic_stack.Stack.Config.Shared.{IsStandard, generate_config_protobuf_shared}
use nginx_quic_stack.Stack.Config.{
  Library, Machine, ConfigOptions, host_name_prefix, initialize_config_options,
  encoded_public_values, generate_config_protobuf,
}

abbrev zeros : ℕ → Bytes
zeros zero = []
zeros (suc n) = 0 ∷ zeros n

-- Not a digest, but of its size.
abbrev library : Library
library = record {
  sha256 = λ text. zeros 32;
  curve25519_public_value = λ key. key;
  p256_public_value = λ key. key;
  construct_handshake_message = λ msg. [];
  orbit_size = 8;
}

library-IsStandard : IsStandard library
library-IsStandard = record { digest = λ text. refl; orbit = refl }

abbrev first_machine : Machine
first_machine = record {
  host_name = some (codes "edge-a-1");
  curve25519_new_private_key = 1 ∷ [];
  p256_new_private_key = 2 ∷ [];
  random_orbit = 3 ∷ [];
  wall_time = 4;
}

abbrev second_machine : Machine
second_machine = record first_machine { host_name = some (codes "edge-a-2"); wall_time = 5 }

abbrev no_options : ConfigOptions
no_options = record {
  id = [];
  orbit = [];
  expiry_time = 0;
  p256 = false;
  channel_id_enabled = false;
}

abbrev two_exchanges : ConfigOptions
two_exchanges = record no_options { p256 = true }

front : host_name_prefix (codes "edge-a-1") ≡ codes "edge-a-"
unfolding host_name_prefix
front = refl

generate_config_protobuf_shared_example :
    generate_config_protobuf library first_machine
      (initialize_config_options library first_machine no_options)
    ≡ generate_config_protobuf library second_machine
        (initialize_config_options library second_machine no_options)
generate_config_protobuf_shared_example =
    generate_config_protobuf_shared library first_machine second_machine no_options (codes "edge-a")
      (codes "1") (codes "2") library-IsStandard refl refl refl refl refl

decode_public_values-encoded_public_values_example :
    decode_public_values 2 (encoded_public_values library first_machine two_exchanges)
    ≡ (1 ∷ []) ∷ (2 ∷ []) ∷ []
decode_public_values-encoded_public_values_example =
    decode_public_values-encoded_public_values library first_machine two_exchanges (omega arith)
      (omega arith)
