-- ===== src/Ssl/Context/Outcome.antt =====
-- The ways in which the constructor of `SSLContext` in sdk/net/crypto/ssl.cc ends, with the calls of
-- WolfSSL that it has made by then.
use iggy_cpp_client.Prelude.{
  ℕ, ◌≡◌, ◌≢◌, inl, inr, Option, none, some, ◌∷◌, arith, ◌==◌, ==_iff, if◌then◌else◌, Bool-cases,
  Option-cases,
}
use iggy_cpp_client.Prelude.Bytes.{c_str}
use iggy_cpp_client.Prelude.Errors.{Result, ok, err, runtime_error, about}
use iggy_cpp_client.Ssl.Version.{
  int_text, ProtocolVersion, tlsv1_2, tlsv1_3, get_protocol_version_name,
}
use iggy_cpp_client.Ssl.Options.{SslOptions}
use iggy_cpp_client.Ssl.Join.{join_ciphers}
use iggy_cpp_client.Ssl.Wolf.{
  Method, v1_2, v1_3, Handle, created, min_proto, cert_manager, cipher_list, get_error, History,
  WolfSsl,
}
use iggy_cpp_client.Ssl.Context.{World, SslContext, init_once, ssl_error, new_context}

module _ (lib : WolfSsl) where
  -- The method and the version constant of WolfSSL that a minimum version stands for.
  abbrev pub asked : ProtocolVersion → Option (Method × ℕ)
  asked v =
      if v == tlsv1_2
      then some (v1_2, lib.tls1_2_version)
      else if v == tlsv1_3
      then some (v1_3, lib.tls1_3_version)
      else none

  -- The calls up to the certificate manager, on top of those before.
  abbrev pub opening : Method → ℕ → Handle → History → History
  opening m n c h = cert_manager (some c) ∷ min_proto c n ∷ created m (some c) ∷ h

  -- `w` is the world once WolfSSL is initialised, `r` what the constructor gives.
  pub data Opening (at env : ℕ) (o : SslOptions) (w : World) (r : Result SslContext × World)
      : Type 0 where
    bad_version :
        asked o.minimum_supported_protocol_version ≡ none
        → r ≡ (
          err (
              runtime_error (
                about "Unsupported protocol version code: {}"
                  (int_text o.minimum_supported_protocol_version))),
          w,
        )
        → Opening at env o w r
    no_context :
        (m : Method) (n : ℕ)
        → asked o.minimum_supported_protocol_version ≡ some (m, n)
        → lib.ctx_new w.history m ≡ none
        → r ≡ (
          err (
              ssl_error lib "Failed to allocate WolfSSL context: {}"
                (lib.error_string (created m none ∷ w.history))),
          record w { history = get_error ∷ created m none ∷ w.history },
        )
        → Opening at env o w r
    refused :
        (m : Method) (n : ℕ) (c : Handle)
        → asked o.minimum_supported_protocol_version ≡ some (m, n)
        → lib.ctx_new w.history m ≡ some c
        → lib.set_cipher_list (opening m n c w.history) c (c_str (join_ciphers o.ciphers))
          ≢ lib.ssl_success
        → r ≡ (
          err (
              ssl_error lib "Failed to set cipher list: {}" (
                lib.error_string
                  (cipher_list c (c_str (join_ciphers o.ciphers)) ∷ opening m n c w.history))),
          record w {
            history =
                get_error
                ∷ cipher_list c (c_str (join_ciphers o.ciphers))
                ∷ opening m n c w.history;
          },
        )
        → Opening at env o w r
    built :
        (m : Method) (n : ℕ) (c : Handle)
        → asked o.minimum_supported_protocol_version ≡ some (m, n)
        → lib.ctx_new w.history m ≡ some c
        → lib.set_cipher_list (opening m n c w.history) c (c_str (join_ciphers o.ciphers))
          ≡ lib.ssl_success
        → r ≡ (
          ok (record {
            options = at;
            pki_env = env;
            ctx = some c;
            cm = lib.get_cert_manager (min_proto c n ∷ created m (some c) ∷ w.history) (some c);
          }),
          record w {
            history = cipher_list c (c_str (join_ciphers o.ciphers)) ∷ opening m n c w.history;
          },
        )
        → Opening at env o w r

  -- From a version that has a method.
  opened-Opening :
      (at env : ℕ) (o : SslOptions) (w : World) (m : Method) (n : ℕ)
      → asked o.minimum_supported_protocol_version ≡ some (m, n)
      → Opening at env o (init_once w) (new_context lib at env o w)
  unfolding new_context
  opened-Opening at env o w m n e = elim (Option-cases (lib.ctx_new (init_once w).history m)) [
    | inl missing ↦ no_context m n e missing (ground arith)
    | inr (c, made) ↦
        elim (Bool-cases (
          lib.set_cipher_list (opening m n c (init_once w).history) c
            (c_str (join_ciphers o.ciphers))
          == lib.ssl_success)) [
            | inl taken ↦ built m n c e made ((==_iff _ _).0 taken) (ground arith)
            | inr not_taken ↦ refused m n c e made (λ t. ground arith) (ground arith)
          ]
  ]

  -- The constructor initialises WolfSSL if that has not been done, and then ends in one of four
  -- ways. The minimum version has no method, and it throws; no context is made, and it throws after
  -- reading the error; or it makes a context by the method of the minimum version, sets the minimum
  -- version, asks for the certificate manager and hands over the joined ciphers: if these are
  -- refused it throws after reading the error, else the object holds that context and that manager.
  pub new_context-Opening :
      (at env : ℕ) (o : SslOptions) (w : World)
      → Opening at env o (init_once w) (new_context lib at env o w)
  unfolding new_context get_protocol_version_name
  new_context-Opening at env o w =
      elim (Option-cases (asked o.minimum_supported_protocol_version)) [
        | inl none_asked ↦ bad_version none_asked (ground arith)
        | inr ((m, n), e) ↦ opened-Opening at env o w m n e
      ]
