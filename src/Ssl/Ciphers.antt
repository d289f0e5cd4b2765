-- ===== src/Ssl/Ciphers.antt =====
-- `getDefaultCipherList` of sdk/net/crypto/ssl.cc. What the preprocessor decides is a record of
-- the macros that are defined.
pub mod Laws
use iggy_cpp_client.Prelude.{
  ℕ, ◌<◌, ◌≤◌, ◌≡◌, refl, ◌≢◌, ◌⊎◌, inl, inr, Bool, true, false, not, ◌&&◌, ◌||◌, List, [], ◌∷◌,
  ◌++◌, arith, ◌==◌, leb, if◌then◌else◌, All, Bool-cases,
}
use iggy_cpp_client.Prelude.Bytes.{Bytes, codes}
use iggy_cpp_client.Prelude.Errors.{
  Result, ok, err, ◌>>=◌, ◌>>◌, throw_if, runtime_error, plain, about,
}
use iggy_cpp_client.Ssl.Version.{ProtocolVersion, tlsv1_2, tlsv1_3, get_protocol_version_name}

-- A field for each macro: whether it is defined in the build of WolfSSL.
pub record Build : Type 0 where
  pub wolfssl_no_tls13 : Bool
  pub wolfssl_no_tls12 : Bool
  pub have_aesgcm : Bool
  pub no_aes : Bool
  pub wolfssl_sha384 : Bool
  pub have_chacha : Bool
  pub have_poly1305 : Bool
  pub have_ecc : Bool
  pub have_supported_curves : Bool
  pub no_rsa : Bool

abbrev pub Ciphers : Type 0
Ciphers = List Bytes

-- A row of `push_back`s, each with the condition of the `#if` round it.
abbrev pub Pushes : Type 0
Pushes = List (Bool × Bytes)

push_all : Pushes → Ciphers
push_all [] = []
push_all ((defined, name) ∷ pushes) =
    let rest = push_all pushes in if defined then name ∷ rest else rest

abbrev pub aes : Build → Bool
aes b = b.have_aesgcm && not b.no_aes

abbrev pub chacha : Build → Bool
chacha b = b.have_chacha && b.have_poly1305

tls13_pushes : Build → Pushes
tls13_pushes b =
    (aes b, codes "TLS_AES_128_GCM_SHA256")
    ∷ (aes b && b.wolfssl_sha384, codes "TLS_AES_256_GCM_SHA384")
    ∷ (chacha b, codes "TLS_CHACHA20_POLY1305_SHA256")
    ∷ []

tls12_pushes : Build → Pushes
tls12_pushes b =
    (aes b, codes "TLS_ECDHE_ECDSA_WITH_AES_128_GCM_SHA256")
    ∷ (aes b && not b.no_rsa, codes "TLS_ECDHE_RSA_WITH_AES_128_GCM_SHA256")
    ∷ (aes b && b.wolfssl_sha384, codes "TLS_ECDHE_ECDSA_WITH_AES_256_GCM_SHA384")
    ∷ (aes b && not b.no_rsa, codes "TLS_ECDHE_RSA_WITH_AES_256_GCM_SHA384")
    ∷ (chacha b, codes "TLS_ECDHE_ECDSA_WITH_CHACHA20_POLY1305")
    ∷ (chacha b && not b.no_rsa, codes "TLS_ECDHE_RSA_WITH_CHACHA20_POLY1305")
    ∷ []

collect : Build → ProtocolVersion → Result Ciphers
collect b version =
    if version == tlsv1_3
    then (do
      throw_if b.wolfssl_no_tls13
          (runtime_error (plain "TLS 1.3 is not supported by this build of WolfSSL"))
      ok (push_all (tls13_pushes b)))
    else if version == tlsv1_2
    then (do
      throw_if b.wolfssl_no_tls12
          (runtime_error (plain "TLS 1.2 is not supported by this build of WolfSSL"))
      throw_if (not b.have_ecc || not b.have_supported_curves)
          (runtime_error (plain "ECC + Supported Curves must be enabled to support ECDHE"))
      ok (push_all (tls12_pushes b)))
    else (do
      name ← get_protocol_version_name version
      err (runtime_error (about "Unsupported protocol version: {}" name)))

-- `if (ciphers.empty()) throw …; return ciphers;`
checked : ProtocolVersion → Ciphers → Result Ciphers
checked version [] = do
  name ← get_protocol_version_name version
  err (runtime_error (about "No ciphers available for the specified protocol version: {}" name))
checked version (c ∷ cs) = ok (c ∷ cs)

unfoldable pub get_default_cipher_list : Build → ProtocolVersion → Result Ciphers
unfolding collect checked push_all tls13_pushes tls12_pushes
get_default_cipher_list b version = do ciphers ← collect b version; checked version ciphers
