-- ===== src/Protocol/Definition.antt =====
-- `Transport` of sdk/net/transport.h, `MessageEncoding` and `ProtocolDefinition` of
-- sdk/net/protocol.h.
use iggy_cpp_client.Prelude.{ℕ, ◌≡◌, subst, Bool, arith}
use iggy_cpp_client.Prelude.Bytes.{Bytes}
use iggy_cpp_client.Prelude.Errors.{Result, ok, ◌>>=◌, >>=-eq-ok}
use iggy_cpp_client.Protocol.Normalize.{normalize_protocol_name}
use iggy_cpp_client.Protocol.Normalize.Outcome.{normalize_idem}

pub data Transport : Type 0 where
  quic http tcp : Transport

pub data MessageEncoding : Type 0 where
  binary text : MessageEncoding

-- The fields are the private members; each getter returns its field.
pub record ProtocolDefinition : Type 0 where
  pub name : Bytes
  pub default_port : ℕ
  pub transport : Transport
  pub tls_supported : Bool
  pub message_encoding : MessageEncoding

-- The constructor, which normalises the name and so may throw.
unfoldable pub new_definition :
    Bytes → ℕ → Transport → Bool → MessageEncoding → Result ProtocolDefinition
new_definition name default_port transport tls_supported message_encoding = do
  normalized ← normalize_protocol_name name
  ok (record {
    name = normalized;
    default_port = default_port;
    transport = transport;
    tls_supported = tls_supported;
    message_encoding = message_encoding;
  })

-- The class invariant: the name is normalised.
abbrev pub IsNormalized : ProtocolDefinition → Type 0
IsNormalized d = normalize_protocol_name d.name ≡ ok d.name

pub new_definition-IsNormalized :
    (name : Bytes) (port : ℕ) (t : Transport) (tls : Bool) (e : MessageEncoding)
    {d : ProtocolDefinition}
    → new_definition name port t tls e ≡ ok d
    → IsNormalized d
unfolding new_definition
new_definition-IsNormalized name port t tls e {d} h =
    let (n, accepted, built) = >>=-eq-ok (normalize_protocol_name name) _ h in
    let same : n ≡ d.name = ground arith in
    subst (λ t. normalize_protocol_name t ≡ ok t) same (normalize_idem name n accepted)
