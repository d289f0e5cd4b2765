-- ===== src/Iggy/Table.antt =====
-- The five protocols of sdk/net/iggy.h, as the provider answers for them.
use iggy_cpp_client.Prelude.{
  ℕ, ◌<◌, ◌^◌, ◌≡◌, refl, sym, ap, subst, ◌∙◌, true, false, Option, none, some, List, [], ◌∷◌, ◌++◌,
  arith, has_value, if◌then◌else◌,
}
use iggy_cpp_client.Prelude.Bytes.{Bytes, codes, bytes_eq, bytes_eq_iff}
use iggy_cpp_client.Prelude.Errors.{Result, ok, err, ok-injective}
use iggy_cpp_client.Protocol.Text.{find_first_not_of, find_last_not_of, contains, substr, to_lower}
use iggy_cpp_client.Protocol.Normalize.{normalize_protocol_name}
use iggy_cpp_client.Protocol.Definition.{
  Transport, quic, http, tcp, MessageEncoding, binary, text, ProtocolDefinition, new_definition,
}
use iggy_cpp_client.Protocol.Provider.{IsLawful}
use iggy_cpp_client.Iggy.Lookup.{find, fill, assign}
use iggy_cpp_client.Iggy.Provider.{
  IggyProtocolProvider, initial_protocols, new_provider, get_protocol_definition, is_supported,
  as_provider, quic_protocol, tcp_protocol, tcp_tls_protocol, http_protocol, http_tls_protocol,
  default_quic_port, default_tcp_port, default_http_port,
}
use iggy_cpp_client.Iggy.Supported.{
  Answer, rejected, unknown, known, supported-Answer, unsupported, get_protocol_definition-mem,
}

abbrev pub quic_definition : ProtocolDefinition
quic_definition = record {
  name = quic_protocol;
  default_port = 8080;
  transport = quic;
  tls_supported = true;
  message_encoding = binary;
}

abbrev pub tcp_definition : ProtocolDefinition
tcp_definition = record {
  name = tcp_protocol;
  default_port = 8090;
  transport = tcp;
  tls_supported = false;
  message_encoding = binary;
}

abbrev pub tcp_tls_definition : ProtocolDefinition
tcp_tls_definition = record {
  name = tcp_tls_protocol;
  default_port = 8090;
  transport = tcp;
  tls_supported = true;
  message_encoding = binary;
}

abbrev pub http_definition : ProtocolDefinition
http_definition = record {
  name = http_protocol;
  default_port = 3000;
  transport = http;
  tls_supported = false;
  message_encoding = text;
}

abbrev pub http_tls_definition : ProtocolDefinition
http_tls_definition = record {
  name = http_tls_protocol;
  default_port = 3000;
  transport = http;
  tls_supported = true;
  message_encoding = text;
}

abbrev pub expected_protocols : List ProtocolDefinition
expected_protocols =
    quic_definition ∷ tcp_definition ∷ tcp_tls_definition ∷ http_definition ∷ http_tls_definition
    ∷ []

abbrev pub iggy : IggyProtocolProvider
iggy = record {
  supported_protocols = expected_protocols;
  supported_protocol_lookup =
      (quic_protocol, quic_definition)
      ∷ (tcp_protocol, tcp_definition)
      ∷ (tcp_tls_protocol, tcp_tls_definition)
      ∷ (http_protocol, http_definition)
      ∷ (http_tls_protocol, http_tls_definition)
      ∷ [];
}

-- The constructor does not throw, and this is the provider that it builds.
pub new_provider-iggy : new_provider ≡ ok iggy
unfolding new_provider initial_protocols new_definition normalize_protocol_name fill assign bytes_eq
    find_first_not_of find_last_not_of contains substr to_lower
new_provider-iggy = refl

iggy_unique : {p : IggyProtocolProvider} → new_provider ≡ ok p → iggy ≡ p
iggy_unique h = cc new_provider-iggy

-- The definition that a normalised name stands for, written as a table.
unfoldable pub table : Bytes → Option ProtocolDefinition
table t =
    if bytes_eq quic_protocol t
    then some quic_definition
    else if bytes_eq tcp_protocol t
    then some tcp_definition
    else if bytes_eq tcp_tls_protocol t
    then some tcp_tls_definition
    else if bytes_eq http_protocol t
    then some http_definition
    else if bytes_eq http_tls_protocol t
    then some http_tls_definition
    else none

abbrev pub answer : Bytes → Option ProtocolDefinition → Result ProtocolDefinition
answer s none = err (unsupported s)
answer s (some d) = ok d

find-iggy : (t : Bytes) → find t iggy.supported_protocol_lookup ≡ table t
unfolding find table
find-iggy t = refl

-- Under a name that normalises to `t` the client's provider answers as the table of five protocols
-- does for `t`: `isSupported` is true exactly if the table has an entry, and
-- `getProtocolDefinition` returns that entry, or throws.
pub iggy-table :
    (p : IggyProtocolProvider) (s t : Bytes)
    → new_provider ≡ ok p
    → normalize_protocol_name s ≡ ok t
    → (is_supported p s ≡ ok (has_value (table t)))
      × (get_protocol_definition p s ≡ answer s (table t))
iggy-table p s t built accepts = go (supported-Answer p s)
  where
    at_t :
        (u : Bytes)
        → normalize_protocol_name s ≡ ok u
        → find u p.supported_protocol_lookup ≡ table t
    at_t u e =
        subst (λ (q : IggyProtocolProvider). find u q.supported_protocol_lookup ≡ table t)
          (iggy_unique built) (find-iggy u ∙ ap table (ok-injective (sym e ∙ accepts)))

    go :
        Answer p s
        → (is_supported p s ≡ ok (has_value (table t)))
          × (get_protocol_definition p s ≡ answer s (table t))
    go (rejected e k _ _) = absurd (cc)
    go (unknown u k f q g) = (rw (sym (at_t u k) ∙ f) q, rw (sym (at_t u k) ∙ f) g)
    go (known u d k f q g) = (rw (sym (at_t u k) ∙ f) q, rw (sym (at_t u k) ∙ f) g)

abbrev pub port_of : Transport → ℕ
port_of quic = default_quic_port
port_of tcp = default_tcp_port
port_of http = default_http_port

abbrev pub encoding_of : Transport → MessageEncoding
encoding_of quic = binary
encoding_of tcp = binary
encoding_of http = text

-- Every definition of the table has the port and the encoding of its transport.
table_consistent :
    (t : Bytes) (d : ProtocolDefinition)
    → table t ≡ some d
    → (d.name ≡ t)
      × (d.default_port ≡ port_of d.transport)
      × (d.message_encoding ≡ encoding_of d.transport)
unfolding table
table_consistent t d h = ground (
  arith,
  bytes_eq_iff quic_protocol t,
  bytes_eq_iff tcp_protocol t,
  bytes_eq_iff tcp_tls_protocol t,
  bytes_eq_iff http_protocol t,
  bytes_eq_iff http_tls_protocol t,
)

answer-eq-ok :
    (s : Bytes) (o : Option ProtocolDefinition) {d : ProtocolDefinition}
    → answer s o ≡ ok d
    → o ≡ some d
answer-eq-ok s none h = cc
answer-eq-ok s (some d) h = cc

-- A definition that the client's provider returns carries the normalised name, and its default port
-- and its encoding are those of its transport: 8080 and binary for QUIC, 8090 and binary for TCP,
-- 3000 and text for HTTP.
pub get_protocol_definition_consistent :
    (p : IggyProtocolProvider) (s : Bytes) (d : ProtocolDefinition)
    → new_provider ≡ ok p
    → get_protocol_definition p s ≡ ok d
    → (normalize_protocol_name s ≡ ok d.name)
      × (d.default_port ≡ port_of d.transport)
      × (d.message_encoding ≡ encoding_of d.transport)
get_protocol_definition_consistent p s d built h =
    let (_, named) = get_protocol_definition-mem p s d built h in
    let (_, got) = iggy-table p s d.name built named in
    let (_, port, encoding) =
      table_consistent d.name d (answer-eq-ok s (table d.name) (sym got ∙ h)) in
    (named, port, encoding)

port_of_bound : (t : Transport) → port_of t < 2 ^ 16
port_of_bound quic = omega arith
port_of_bound tcp = omega arith
port_of_bound http = omega arith

-- The client's provider meets what `LogicalAddress` relies on: it has a definition for every name
-- that it supports, and the default port of each is below 2 ^ 16.
pub as_provider-IsLawful :
    (p : IggyProtocolProvider) → new_provider ≡ ok p → IsLawful (as_provider p)
unfolding as_provider
as_provider-IsLawful p built = record {
  definition_of_supported = λ s h. definition_of (supported-Answer p s) h;
  port_in_range = λ s d h.
      let (_, port, _) = get_protocol_definition_consistent p s d built h in
      subst (λ n. n < 2 ^ 16) (sym port) (port_of_bound d.transport);
}
  where
    definition_of :
        {s : Bytes}
        → Answer p s
        → is_supported p s ≡ ok true
        → (d : ProtocolDefinition) × (get_protocol_definition p s ≡ ok d)
    definition_of (rejected e _ k _) h = absurd (cc)
    definition_of (unknown t _ _ k _) h = absurd (cc)
    definition_of (known t d _ _ _ g) h = (d, g)

-- The client's provider supports no name that normalises to one with the prefix "iggy:".
pub prefixed_unsupported :
    (p : IggyProtocolProvider) (s t : Bytes)
    → new_provider ≡ ok p
    → normalize_protocol_name s ≡ ok (codes "iggy:" ++ t)
    → is_supported p s ≡ ok false
unfolding table bytes_eq
prefixed_unsupported p s t built accepts = (iggy-table p s (codes "iggy:" ++ t) built accepts).0
