-- ===== src/Tests/Addresses.antt =====
-- Runs of sdk/net/address.cc with a parser that knows three URLs.
use iggy_cpp_client.Prelude.{
  ◌≢◌, ℕ, ◌<◌, ◌^◌, ◌≡◌, refl, ◌⊎◌, true, Option, none, some, [], ◌∷◌, ◌++◌, arith, length,
  if◌then◌else◌,
}
use iggy_cpp_client.Prelude.Bytes.{Bytes, codes, bytes_eq}
use iggy_cpp_client.Prelude.Errors.{ok}
use iggy_cpp_client.Protocol.Text.{contains, to_lower, find_first_not_of, find_last_not_of, substr}
use iggy_cpp_client.Protocol.Normalize.{normalize_protocol_name}
use iggy_cpp_client.Protocol.Definition.{ProtocolDefinition}
use iggy_cpp_client.Protocol.Provider.{ProtocolProvider, IsLawful}
use iggy_cpp_client.Iggy.Lookup.{find, count}
use iggy_cpp_client.Iggy.Provider.{as_provider, is_supported}
use iggy_cpp_client.Iggy.Table.{iggy, new_provider-iggy, as_provider-IsLawful}
use iggy_cpp_client.Address.Decimal.{decimal}
use iggy_cpp_client.Address.Ada.{Ada, IsStandard, special_port, port_text}
use iggy_cpp_client.Address.Logical.{
  chop, LogicalAddress, new_address, get_protocol, get_protocol_definition, get_port,
}
use iggy_cpp_client.Address.Logical.Outcome.{
  Construction, new_address_outcome, address_supported, get_port_total,
}
use iggy_cpp_client.Address.Logical.Iggy.{written_80_lost}

data TestUrl : Type 0 where
  bare_quic tcp_9000 http_80 : TestUrl

test_scheme : TestUrl → Bytes
test_scheme bare_quic = codes "quic"
test_scheme tcp_9000 = codes "tcp"
test_scheme http_80 = codes "http"

test_protocol : TestUrl → Bytes
test_protocol bare_quic = codes "quic:"
test_protocol tcp_9000 = codes "tcp:"
test_protocol http_80 = codes "http:"

test_port : TestUrl → Bytes
test_port bare_quic = []
test_port tcp_9000 = decimal 9000
test_port http_80 = []

test_written : TestUrl → Option ℕ
test_written bare_quic = none
test_written tcp_9000 = some 9000
test_written http_80 = some 80

test_parse : Bytes → Option TestUrl
test_parse s =
    if bytes_eq s (codes "quic://localhost")
    then some bare_quic
    else if bytes_eq s (codes "tcp://localhost:9000")
    then some tcp_9000
    else if bytes_eq s (codes "http://localhost:80")
    then some http_80
    else none

abbrev test_ada : Ada
test_ada = record {
  Url = TestUrl;
  parse = test_parse;
  get_protocol = test_protocol;
  get_hostname = λ u. codes "localhost";
  get_port = test_port;
}

test_protocol_form : (u : TestUrl) → test_protocol u ≡ test_scheme u ++ b':' ∷ []
unfolding test_protocol test_scheme
test_protocol_form bare_quic = refl
test_protocol_form tcp_9000 = refl
test_protocol_form http_80 = refl

test_protocol_size : (u : TestUrl) → length (test_protocol u) < 2 ^ 63
unfolding test_protocol
test_protocol_size bare_quic = omega arith
test_protocol_size tcp_9000 = omega arith
test_protocol_size http_80 = omega arith

test_written_range : (u : TestUrl) (n : ℕ) → test_written u ≡ some n → n < 2 ^ 16
unfolding test_written
test_written_range bare_quic n e = absurd (cc)
test_written_range tcp_9000 n e = ground arith
test_written_range http_80 n e = ground arith

test_port_form : (u : TestUrl) → test_port u ≡ port_text (test_scheme u) (test_written u)
unfolding test_port test_scheme test_written special_port bytes_eq
test_port_form bare_quic = refl
test_port_form tcp_9000 = refl
test_port_form http_80 = refl

test_standard : IsStandard test_ada
test_standard = record {
  scheme = test_scheme;
  written = test_written;
  written_range = test_written_range;
  protocol_form = test_protocol_form;
  protocol_size = test_protocol_size;
  port_form = test_port_form;
}

abbrev test_provider : ProtocolProvider
test_provider = as_provider iggy

test-IsLawful : IsLawful test_provider
test-IsLawful = as_provider-IsLawful iggy new_provider-iggy

abbrev test_url : Bytes
test_url = codes "tcp://localhost:9000"

abbrev test_address : LogicalAddress test_ada
test_address = record { url = tcp_9000; protocol_provider = test_provider }

address_run : new_address test_ada test_url test_provider ≡ ok test_address
unfolding new_address test_parse test_protocol chop bytes_eq as_provider is_supported
    normalize_protocol_name find count contains to_lower find_first_not_of find_last_not_of substr
address_run = refl

new_address_outcome_example : Construction test_ada test_url test_provider
new_address_outcome_example = new_address_outcome test_ada test_standard test_url test_provider

address_supported_example :
    (protocol : Bytes) × (d : ProtocolDefinition) × (get_protocol test_ada test_address
      ≡ ok protocol)
    × (test_provider.is_supported protocol ≡ ok true)
    × (get_protocol_definition test_ada test_address ≡ ok d)
    × (test_provider.get_protocol_definition protocol ≡ ok d)
address_supported_example =
    address_supported test_ada test_standard test_url test_provider test_address test-IsLawful
      address_run

get_port_total_example :
    (n : ℕ) × (get_port test_ada test_address ≡ ok n)
    × (n < 2 ^ 16)
    × ((((test_standard.written test_address.url ≡ none)
            ⊎ (test_standard.written test_address.url
                ≡ special_port (test_standard.scheme test_address.url)))
          × ((d : ProtocolDefinition) × (get_protocol_definition test_ada test_address ≡ ok d)
              × (n ≡ d.default_port)))
        ⊎ ((test_standard.written test_address.url ≡ some n)
            × (special_port (test_standard.scheme test_address.url) ≢ some n)))
get_port_total_example =
    get_port_total test_ada test_standard test_url test_provider test_address test-IsLawful
      address_run

abbrev http_url : Bytes
http_url = codes "http://localhost:80"

abbrev http_address : LogicalAddress test_ada
http_address = record { url = http_80; protocol_provider = test_provider }

http_address_run : new_address test_ada http_url test_provider ≡ ok http_address
unfolding new_address test_parse test_protocol chop bytes_eq as_provider is_supported
    normalize_protocol_name find count contains to_lower find_first_not_of find_last_not_of substr
http_address_run = refl

scheme_run : test_standard.scheme http_80 ≡ codes "http"
unfolding test_standard test_scheme
scheme_run = refl

written_run : test_standard.written http_80 ≡ some 80
unfolding test_standard test_written
written_run = refl

written_80_lost_example : get_port test_ada http_address ≡ ok 3000
written_80_lost_example =
    written_80_lost test_ada test_standard http_url iggy http_address new_provider-iggy
      http_address_run scheme_run written_run
