-- ===== src/Ssl/Options/Laws.antt =====
-- When the options of sdk/net/crypto/ssl.h are valid.
use iggy_cpp_client.Prelude.{◌≡◌, ◌≢◌, ◌↔◌, ◌⊎◌, Bool, true, false, has_value, arith, List}
use iggy_cpp_client.Prelude.Bytes.{Bytes}
use iggy_cpp_client.Prelude.Errors.{ok}
use iggy_cpp_client.Ssl.Version.{client, server, tlsv1_3}
use iggy_cpp_client.Ssl.Ciphers.{Build}
use iggy_cpp_client.Ssl.Options.{
  SslOptions, new_options, set_peer_certificate_path, set_ciphers, validate,
}

-- `validate` accepts exactly the options that ask for TLS 1.3, where it is strict, and that name a
-- certificate, where they are a server's.
pub validate_iff :
    (strict : Bool) (o : SslOptions)
    → (validate strict o ≡ ok tt) ↔ (
        ((strict ≡ false) ⊎ (o.minimum_supported_protocol_version ≡ tlsv1_3))
        × ((o.peer_type ≡ client) ⊎ (has_value o.peer_cert_path ≡ true)))
unfolding validate
validate_iff strict o = ground arith

-- Fresh options for a client are valid under both checks. Fresh options for a server are valid
-- under neither, until a certificate path is set; the ciphers, whatever they are set to, do not
-- matter.
pub new_options_validity :
    (b : Build) (strict : Bool) (path : Bytes) (cs : List Bytes) (c s : SslOptions)
    → new_options b client ≡ ok c
    → new_options b server ≡ ok s
    → (validate strict (set_ciphers cs c) ≡ ok tt)
      × (validate strict (set_ciphers cs s) ≢ ok tt)
      × (validate strict (set_peer_certificate_path path (set_ciphers cs s)) ≡ ok tt)
unfolding new_options validate set_ciphers set_peer_certificate_path
new_options_validity b strict path cs c s hc hs = ground arith
