-- ===== src/Address/Logical/Iggy.antt =====
-- The port of an address of sdk/net/address.cc whose provider is the client's, of sdk/net/iggy.cc.
use iggy_cpp_client.Prelude.{◌≡◌, refl, ◌∙◌, sym, subst, some}
use iggy_cpp_client.Prelude.Bytes.{Bytes, codes, bytes_eq}
use iggy_cpp_client.Prelude.Errors.{ok, ok-injective}
use iggy_cpp_client.Protocol.Text.{contains, to_lower, find_first_not_of, find_last_not_of, substr}
use iggy_cpp_client.Protocol.Normalize.{normalize_protocol_name}
use iggy_cpp_client.Iggy.Lookup.{find}
use iggy_cpp_client.Iggy.Provider.{
  IggyProtocolProvider, new_provider, as_provider, get_protocol_definition,
}
use iggy_cpp_client.Iggy.Table.{iggy, new_provider-iggy, http_definition}
use iggy_cpp_client.Address.Ada.{Ada, IsStandard, special_port}
use iggy_cpp_client.Address.Logical.{LogicalAddress, new_address, get_port}
use iggy_cpp_client.Address.Logical.Outcome.{get_port-default, definition_of_scheme}

http_run : get_protocol_definition iggy (codes "http") ≡ ok http_definition
unfolding get_protocol_definition normalize_protocol_name find_first_not_of find_last_not_of substr
    contains to_lower find bytes_eq
http_run = refl

special_http : special_port (codes "http") ≡ some 80
unfolding special_port bytes_eq
special_http = refl

module _ (ada : Ada) (std : IsStandard ada) where
  -- With a URL parser that meets the standard and the client's provider: an address with the scheme
  -- http has port 3000 if its URL writes port 80.
  pub written_80_lost :
      (url : Bytes) (p : IggyProtocolProvider) (a : LogicalAddress ada)
      → new_provider ≡ ok p
      → new_address ada url (as_provider p) ≡ ok a
      → std.scheme a.url ≡ codes "http"
      → std.written a.url ≡ some 80
      → get_port ada a ≡ ok 3000
  unfolding as_provider
  written_80_lost url p a made h http writes =
      get_port-default ada a http_definition (std.port_form a.url ∙ rw (http, writes, special_http))
        (definition_of_scheme ada std url (as_provider p) a http_definition h (
          rw http (
            subst (λ q. get_protocol_definition q (codes "http") ≡ ok http_definition)
              (ok-injective (sym new_provider-iggy ∙ made)) http_run)))
