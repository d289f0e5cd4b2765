-- ===== src/Iggy/Provider.antt =====
-- `IggyProtocolProvider` of sdk/net/iggy.h and sdk/net/iggy.cc.
use iggy_cpp_client.Prelude.{ℕ, Bool, true, false, Option, none, some, List, [], ◌∷◌, ltb}
use iggy_cpp_client.Prelude.Bytes.{Bytes, codes}
use iggy_cpp_client.Prelude.Errors.{Result, ok, err, ◌>>=◌, invalid_argument, about}
use iggy_cpp_client.Protocol.Normalize.{normalize_protocol_name}
use iggy_cpp_client.Protocol.Definition.{
  quic, http, tcp, binary, text, ProtocolDefinition, new_definition,
}
use iggy_cpp_client.Protocol.Provider.{ProtocolProvider}
use iggy_cpp_client.Iggy.Lookup.{Lookup, find, count, fill}

abbrev pub default_http_port : ℕ
default_http_port = 3000

abbrev pub default_tcp_port : ℕ
default_tcp_port = 8090

abbrev pub default_quic_port : ℕ
default_quic_port = 8080

abbrev pub quic_protocol : Bytes
quic_protocol = codes "quic"

abbrev pub tcp_protocol : Bytes
tcp_protocol = codes "tcp"

abbrev pub tcp_tls_protocol : Bytes
tcp_tls_protocol = codes "tcp+tls"

abbrev pub http_protocol : Bytes
http_protocol = codes "http"

abbrev pub http_tls_protocol : Bytes
http_tls_protocol = codes "http+tls"

-- The initialiser of the member `supportedProtocols`.
unfoldable pub initial_protocols : Result (List ProtocolDefinition)
unfolding new_definition
initial_protocols = do
  a ← new_definition quic_protocol default_quic_port quic true binary
  b ← new_definition tcp_protocol default_tcp_port tcp false binary
  c ← new_definition tcp_tls_protocol default_tcp_port tcp true binary
  d ← new_definition http_protocol default_http_port http false text
  e ← new_definition http_tls_protocol default_http_port http true text
  ok (a ∷ b ∷ c ∷ d ∷ e ∷ [])

pub record IggyProtocolProvider : Type 0 where
  pub supported_protocols : List ProtocolDefinition
  pub supported_protocol_lookup : Lookup

-- The constructor: the member initialiser, then the loop that fills the lookup.
unfoldable pub new_provider : Result IggyProtocolProvider
unfolding initial_protocols fill
new_provider = do
  protocols ← initial_protocols
  ok (record { supported_protocols = protocols; supported_protocol_lookup = fill protocols [] })

found : Bytes → Option ProtocolDefinition → Result ProtocolDefinition
found protocol none = err (invalid_argument (about "Unsupported protocol: " protocol))
found protocol (some d) = ok d

unfoldable pub get_protocol_definition : IggyProtocolProvider → Bytes → Result ProtocolDefinition
unfolding found
get_protocol_definition p protocol = do
  normalized_name ← normalize_protocol_name protocol
  found protocol (find normalized_name p.supported_protocol_lookup)

unfoldable pub is_supported : IggyProtocolProvider → Bytes → Result Bool
unfolding count
is_supported p protocol = do
  normalized_name ← normalize_protocol_name protocol
  ok (ltb 0 (count normalized_name p.supported_protocol_lookup))

-- The provider as its clients see it, through the interface.
unfoldable pub as_provider : IggyProtocolProvider → ProtocolProvider
as_provider p = record {
  supported_protocols = p.supported_protocols;
  get_protocol_definition = get_protocol_definition p;
  is_supported = is_supported p;
}
