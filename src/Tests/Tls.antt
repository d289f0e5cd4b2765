-- ===== src/Tests/Tls.antt =====
-- Runs of the options and the default ciphers of sdk/net/crypto/ssl.cc.
use iggy_cpp_client.Prelude.{
  ◌&&◌, ◌||◌, not, ◌==◌, ◌≡◌, refl, ◌≢◌, ◌↔◌, ◌⊎◌, Bool, true, false, none, arith, List, [], ◌∷◌,
  All, has_value,
}
use iggy_cpp_client.Prelude.Bytes.{c_str, Bytes, codes}
use iggy_cpp_client.Prelude.Errors.{ok}
use iggy_cpp_client.Ssl.Version.{client, server, tlsv1_2, tlsv1_3}
use iggy_cpp_client.Ssl.Ciphers.{aes, Build, get_default_cipher_list}
use iggy_cpp_client.Ssl.Ciphers.Laws.{
  IsToken, is_ok, available, default_ciphers_tokens, default_ciphers_available,
  default_ciphers_sha384, asks_for_sha384,
}
use iggy_cpp_client.Ssl.Options.{
  SslOptions, new_options, set_ciphers, set_peer_certificate_path, validate,
}
use iggy_cpp_client.Ssl.Options.Laws.{validate_iff, new_options_validity}
use iggy_cpp_client.Ssl.Join.{
  join_ciphers, split_ciphers, NoColon, split_ciphers-join_ciphers, default_ciphers-join,
}

-- A build with every algorithm, but for SHA-384 where the argument is false.
abbrev test_build : Bool → Build
test_build sha384 = record {
  wolfssl_no_tls13 = false;
  wolfssl_no_tls12 = false;
  have_aesgcm = true;
  no_aes = false;
  wolfssl_sha384 = sha384;
  have_chacha = true;
  have_poly1305 = true;
  have_ecc = true;
  have_supported_curves = true;
  no_rsa = false;
}

abbrev test_ciphers : List Bytes
test_ciphers =
    codes "TLS_AES_128_GCM_SHA256"
    ∷ codes "TLS_AES_256_GCM_SHA384"
    ∷ codes "TLS_CHACHA20_POLY1305_SHA256"
    ∷ []

ciphers_run : get_default_cipher_list (test_build true) tlsv1_3 ≡ ok test_ciphers
unfolding get_default_cipher_list
ciphers_run = refl

default_ciphers_tokens_example : (test_ciphers ≢ []) × All IsToken test_ciphers
default_ciphers_tokens_example =
    default_ciphers_tokens (test_build true) tlsv1_3 test_ciphers ciphers_run

default_ciphers_available_example :
    is_ok (get_default_cipher_list (test_build true) tlsv1_3) ≡ available (test_build true) tlsv1_3
default_ciphers_available_example = default_ciphers_available (test_build true) tlsv1_3

default_ciphers-join_example :
    (split_ciphers (join_ciphers test_ciphers) ≡ test_ciphers)
    × (c_str (join_ciphers test_ciphers) ≡ join_ciphers test_ciphers)
default_ciphers-join_example =
    default_ciphers-join (test_build true) tlsv1_3 test_ciphers ciphers_run

abbrev short_ciphers : List Bytes
short_ciphers = codes "A" ∷ codes "B" ∷ []

short_ciphers-NoColon : All NoColon short_ciphers
short_ciphers-NoColon = (((λ e. omega arith), tt), (((λ e. omega arith), tt), tt))

split_ciphers-join_ciphers_example : split_ciphers (join_ciphers short_ciphers) ≡ short_ciphers
split_ciphers-join_ciphers_example =
    split_ciphers-join_ciphers short_ciphers (λ e. cc) short_ciphers-NoColon

abbrev old_ciphers : List Bytes
old_ciphers =
    codes "TLS_ECDHE_ECDSA_WITH_AES_128_GCM_SHA256"
    ∷ codes "TLS_ECDHE_RSA_WITH_AES_128_GCM_SHA256"
    ∷ codes "TLS_ECDHE_RSA_WITH_AES_256_GCM_SHA384"
    ∷ codes "TLS_ECDHE_ECDSA_WITH_CHACHA20_POLY1305"
    ∷ codes "TLS_ECDHE_RSA_WITH_CHACHA20_POLY1305"
    ∷ []

old_ciphers_run : get_default_cipher_list (test_build false) tlsv1_2 ≡ ok old_ciphers
unfolding get_default_cipher_list
old_ciphers_run = refl

default_ciphers_sha384_example : asks_for_sha384 old_ciphers ≡ (
    aes (test_build false)
    && ((test_build false).wolfssl_sha384 || (tlsv1_2 == tlsv1_2 && not (test_build false).no_rsa)))
default_ciphers_sha384_example =
    default_ciphers_sha384 (test_build false) tlsv1_2 old_ciphers old_ciphers_run

abbrev fresh_client : SslOptions
fresh_client = record {
  peer_type = client;
  peer_cert_path = none;
  minimum_supported_protocol_version = tlsv1_3;
  ciphers = test_ciphers;
}

abbrev fresh_server : SslOptions
fresh_server = record fresh_client { peer_type = server }

client_run : new_options (test_build true) client ≡ ok fresh_client
unfolding new_options get_default_cipher_list
client_run = refl

server_run : new_options (test_build true) server ≡ ok fresh_server
unfolding new_options get_default_cipher_list
server_run = refl

validate_iff_example : (validate true fresh_server ≡ ok tt) ↔ (
    ((true ≡ false) ⊎ (fresh_server.minimum_supported_protocol_version ≡ tlsv1_3))
    × ((fresh_server.peer_type ≡ client) ⊎ (has_value fresh_server.peer_cert_path ≡ true)))
validate_iff_example = validate_iff true fresh_server

new_options_validity_example :
    (validate true (set_ciphers short_ciphers fresh_client) ≡ ok tt)
    × (validate true (set_ciphers short_ciphers fresh_server) ≢ ok tt)
    × (validate true
          (set_peer_certificate_path (codes "cert.pem") (set_ciphers short_ciphers fresh_server))
        ≡ ok tt)
new_options_validity_example =
    new_options_validity (test_build true) true (codes "cert.pem") short_ciphers fresh_client
      fresh_server client_run server_run
