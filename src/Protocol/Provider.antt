-- ===== src/Protocol/Provider.antt =====
-- The interface `ProtocolProvider` of sdk/net/protocol.h, with what its clients rely on.
use iggy_cpp_client.Prelude.{◌<◌, ◌^◌, ◌≡◌, Bool, true, List}
use iggy_cpp_client.Prelude.Bytes.{Bytes}
use iggy_cpp_client.Prelude.Errors.{Result, ok}
use iggy_cpp_client.Protocol.Definition.{ProtocolDefinition}

-- The three pure virtual members.
pub record ProtocolProvider : Type 0 where
  pub supported_protocols : List ProtocolDefinition
  pub get_protocol_definition : Bytes → Result ProtocolDefinition
  pub is_supported : Bytes → Result Bool

-- A supported protocol has a definition, and its default port is a `uint16_t`.
pub record IsLawful (p : ProtocolProvider) : Type 0 where
  pub definition_of_supported :
      (name : Bytes)
      → p.is_supported name ≡ ok true
      → (d : ProtocolDefinition) × (p.get_protocol_definition name ≡ ok d)
  pub port_in_range :
      (name : Bytes) (d : ProtocolDefinition)
      → p.get_protocol_definition name ≡ ok d
      → d.default_port < 2 ^ 16
