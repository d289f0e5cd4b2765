-- ===== src/Ssl/Program/Flaws.antt =====
-- Where the members of `SSLContext` in sdk/net/crypto/ssl.cc lose a context or a
-- certificate manager.
use iggy_cpp_client.Prelude.{ℕ, ◌≡◌, ◌≢◌, true, none, some, List, ◌∷◌, arith}
use iggy_cpp_client.Prelude.Bytes.{c_str}
use iggy_cpp_client.Prelude.Errors.{err}
use iggy_cpp_client.Ssl.Version.{tlsv1_3}
use iggy_cpp_client.Ssl.Options.{SslOptions}
use iggy_cpp_client.Ssl.Join.{join_ciphers}
use iggy_cpp_client.Ssl.Wolf.{
  Handle, History, WolfSsl, IsFresh, is_live, v1_3, created, min_proto, cert_manager, cipher_list,
  get_error,
}
use iggy_cpp_client.Ssl.Context.{ssl_error, new_context}
use iggy_cpp_client.Ssl.Program.{Program, construct, step, run, Op}
use iggy_cpp_client.Ssl.Program.Ownership.{Inv, step-Inv}
use iggy_cpp_client.Ssl.Program.Orphans.{IsOrphan, run-IsOrphan}

module _ (lib : WolfSsl) where
  refused_history : Handle → SslOptions → History → History
  refused_history c o h =
      get_error
      ∷ cipher_list c (c_str (join_ciphers o.ciphers))
      ∷ cert_manager (some c)
      ∷ min_proto c lib.tls1_3_version
      ∷ created v1_3 (some c)
      ∷ h

  refused-step :
      (i at env : ℕ) (o : SslOptions) (p : Program) (c : Handle)
      → p.slots i ≡ none
      → p.world.init_done ≡ true
      → o.minimum_supported_protocol_version ≡ tlsv1_3
      → lib.ctx_new p.world.history v1_3 ≡ some c
      → lib.set_cipher_list
          (cert_manager (some c)
            ∷ min_proto c lib.tls1_3_version
            ∷ created v1_3 (some c)
            ∷ p.world.history)
          c
          (c_str (join_ciphers o.ciphers))
        ≢ lib.ssl_success
      → step lib (construct i at env o) p
        ≡ record p { world = record p.world { history = refused_history c o p.world.history } }
  unfolding step new_context refused_history
  refused-step i at env o p c empty done version made refused = ground arith

  refused-IsOrphan :
      (i at env : ℕ) (o : SslOptions) (p : Program) (c : Handle)
      → IsFresh lib
      → Inv p
      → p.slots i ≡ none
      → p.world.init_done ≡ true
      → o.minimum_supported_protocol_version ≡ tlsv1_3
      → lib.ctx_new p.world.history v1_3 ≡ some c
      → lib.set_cipher_list
          (cert_manager (some c)
            ∷ min_proto c lib.tls1_3_version
            ∷ created v1_3 (some c)
            ∷ p.world.history)
          c
          (c_str (join_ciphers o.ciphers))
        ≢ lib.ssl_success
      → IsOrphan c (step lib (construct i at env o) p)
  unfolding is_live refused_history
  refused-IsOrphan i at env o p c law v empty done version made refused =
      rw (refused-step i at env o p c empty done version made refused)
        (ground arith, λ j h. cc (v.owns.live j c h, law.fresh p.world.history v1_3 c made))

  -- In a program where WolfSSL is initialised, handles are new and well owned, and the variable is
  -- free: if WolfSSL makes a TLS 1.3 context and refuses the cipher list, the constructor throws
  -- the error of that refusal. From then on, whatever operations follow, the context that it has
  -- created stays live and no variable holds it.
  pub construct_leaks :
      (i at env : ℕ) (o : SslOptions) (p : Program) (c : Handle) (ops : List Op)
      → IsFresh lib
      → Inv p
      → p.slots i ≡ none
      → p.world.init_done ≡ true
      → o.minimum_supported_protocol_version ≡ tlsv1_3
      → lib.ctx_new p.world.history v1_3 ≡ some c
      → lib.set_cipher_list
          (cert_manager (some c)
            ∷ min_proto c lib.tls1_3_version
            ∷ created v1_3 (some c)
            ∷ p.world.history)
          c
          (c_str (join_ciphers o.ciphers))
        ≢ lib.ssl_success
      → ((new_context lib at env o p.world).0
          ≡ err (
              ssl_error lib "Failed to set cipher list: {}" (
                lib.error_string (
                  cipher_list c (c_str (join_ciphers o.ciphers))
                  ∷ cert_manager (some c)
                  ∷ min_proto c lib.tls1_3_version
                  ∷ created v1_3 (some c)
                  ∷ p.world.history))))
        × IsOrphan c (run lib ops (step lib (construct i at env o) p))
  unfolding new_context
  construct_leaks i at env o p c ops law v empty done version made refused = (
    ground arith,
    run-IsOrphan lib law c ops (step lib (construct i at env o) p)
        (step-Inv lib law (construct i at env o) p v)
        (refused-IsOrphan i at env o p c law v empty done version made refused),
  )
