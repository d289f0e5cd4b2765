-- ===== src/Ssl/Options.antt =====
-- `SSLOptions` of sdk/net/crypto/ssl.h, with `validate` of sdk/net/crypto/ssl.cc. A setter returns
-- the changed object; each getter returns its field.
pub mod Laws
use iggy_cpp_client.Prelude.{Bool, true, false, not, ◌&&◌, Option, none, some, ◌==◌, has_value}
use iggy_cpp_client.Prelude.Bytes.{Bytes}
use iggy_cpp_client.Prelude.Errors.{Result, ok, err, ◌>>=◌, ◌>>◌, throw_if, runtime_error, plain}
use iggy_cpp_client.Ssl.Version.{PeerType, client, server, ProtocolVersion, tlsv1_3}
use iggy_cpp_client.Ssl.Ciphers.{Build, Ciphers, get_default_cipher_list}

pub record SslOptions : Type 0 where
  pub peer_type : PeerType
  pub peer_cert_path : Option Bytes
  pub minimum_supported_protocol_version : ProtocolVersion
  pub ciphers : Ciphers

-- The constructor; the initialiser of `ciphers` may throw.
unfoldable pub new_options : Build → PeerType → Result SslOptions
new_options b peer_type = do
  ciphers ← get_default_cipher_list b tlsv1_3
  ok (record {
    peer_type = peer_type;
    peer_cert_path = none;
    minimum_supported_protocol_version = tlsv1_3;
    ciphers = ciphers;
  })

unfoldable pub set_peer_type : PeerType → SslOptions → SslOptions
set_peer_type peer o = record o { peer_type = peer }

unfoldable pub set_peer_certificate_path : Bytes → SslOptions → SslOptions
set_peer_certificate_path path o = record o { peer_cert_path = some path }

unfoldable pub set_minimum_supported_protocol_version : ProtocolVersion → SslOptions → SslOptions
set_minimum_supported_protocol_version v o = record o { minimum_supported_protocol_version = v }

unfoldable pub set_ciphers : Ciphers → SslOptions → SslOptions
set_ciphers ciphers o = record o { ciphers = ciphers }

abbrev pub is_server : PeerType → Bool
is_server client = false
is_server server = true

unfoldable pub validate : Bool → SslOptions → Result (Unit {0})
validate strict o = do
  throw_if (strict && not (o.minimum_supported_protocol_version == tlsv1_3))
      (runtime_error (plain "Only TLS 1.3 is supported in strict mode"))
  throw_if (is_server o.peer_type && not (has_value o.peer_cert_path))
      (runtime_error (plain "Server mode requires a peer certificate path"))
