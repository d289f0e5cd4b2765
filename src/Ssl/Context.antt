-- ===== src/Ssl/Context.antt =====
-- `SSLContext` of sdk/net/crypto/ssl.h and sdk/net/crypto/ssl.cc: its constructors, assignments
-- and destructor, over the calls of WolfSSL that they make.
pub mod Effects
pub mod Outcome
pub mod Live
pub mod Replace
use iggy_cpp_client.Prelude.{
  String, ℕ, ◌≡◌, Bool, true, false, not, Option, none, some, List, [], ◌∷◌, ◌==◌, if◌then◌else◌,
}
use iggy_cpp_client.Prelude.Bytes.{Bytes, c_str}
use iggy_cpp_client.Prelude.Errors.{Error, Result, ok, err, runtime_error, plain, about}
use iggy_cpp_client.Ssl.Version.{ProtocolVersion, tlsv1_2, tlsv1_3, get_protocol_version_name}
use iggy_cpp_client.Ssl.Options.{SslOptions}
use iggy_cpp_client.Ssl.Join.{join_ciphers}
use iggy_cpp_client.Ssl.Wolf.{
  Method, v1_2, v1_3, Handle, Call, init, created, freed, min_proto, cert_manager, cipher_list,
  get_error, History, WolfSsl,
}

-- The library's state as the program sees it, and the flag `sslInitDone`.
pub record World : Type 0 where
  pub history : History
  pub init_done : Bool

-- The members `options` and `pkiEnv` are references: addresses here.
pub record SslContext : Type 0 where
  pub options : ℕ
  pub pki_env : ℕ
  pub ctx : Option Handle
  pub cm : Option ℕ

-- Code that calls the library and may throw; what it did before it threw stays done.
abbrev pub M : Type 0 → Type 0
M A = World → Result A × World

abbrev and_then : {A B : Type 0} → Result A × World → (A → M B) → Result B × World
and_then (ok a, w) f = f a w
and_then (err e, w) f = (err e, w)

infixl 5 ◌>>=◌ ◌>>◌
abbrev ◌>>=◌ : {A B : Type 0} → M A → (A → M B) → M B
◌>>=◌ m f = λ w. and_then (m w) f

abbrev ◌>>◌ : {B : Type 0} → M (Unit {0}) → M B → M B
m >> k = m >>= λ _. k

abbrev pure : {A : Type 0} → A → M A
pure a w = (ok a, w)

abbrev record_call : Call → World → World
record_call c w = record w { history = c ∷ w.history }

-- A call that returns nothing that is used.
abbrev call : Call → M (Unit {0})
call c w = (ok tt, record_call c w)

-- `std::call_once(sslInitDone, []() { wolfSSL_Init(); })`
pub init_once : World → World
init_once w = if w.init_done then w else record { history = init ∷ w.history; init_done = true }

-- `if (this->ctx) wolfSSL_CTX_free(this->ctx);`, which is also the whole destructor.
unfoldable pub free_context : SslContext → World → World
free_context this w = elim this.ctx [ none ↦ w | some c ↦ record_call (freed c) w ]

-- Move assignment from another object: this one, what is left of the other, and the library's state.
unfoldable pub move_assign_context :
    SslContext → SslContext → World → (SslContext × SslContext × World)
unfolding free_context
move_assign_context this other w =
    (record this { ctx = other.ctx }, record other { ctx = none }, free_context this w)

module _ (lib : WolfSsl) where
  ctx_new : Method → M (Option Handle)
  ctx_new m w = let c = lib.ctx_new w.history m in (ok c, record_call (created m c) w)

  get_cert_manager : Option Handle → M (Option ℕ)
  get_cert_manager c w = (ok (lib.get_cert_manager w.history c), record_call (cert_manager c) w)

  pub ssl_error : String → Bytes → Error
  ssl_error message text = runtime_error (record { text = message; args = text ∷ [] })

  -- `raiseSSLError`, and the like code after `wolfSSL_CTX_set_cipher_list`: the message, with a
  -- place for the library's text for its last error.
  raise_ssl_error : {A : Type 0} → String → M A
  raise_ssl_error message w =
      (err (ssl_error message (lib.error_string w.history)), record_call get_error w)

  -- `if (!this->ctx) raiseSSLError(…);`
  require : Option Handle → M Handle
  unfolding raise_ssl_error ssl_error
  require none = raise_ssl_error "Failed to allocate WolfSSL context: {}"
  require (some c) = pure c

  open_context : Method → ℕ → M Handle
  unfolding ctx_new require
  open_context m version = do
    made ← ctx_new m
    ctx ← require made
    call (min_proto ctx version)
    pure ctx

  unsupported_version : ProtocolVersion → M Handle
  unsupported_version v w = elim (get_protocol_version_name v) [
    | err e ↦ (err e, w)
    | ok name ↦ (err (runtime_error (about "Unsupported protocol version: {}" name)), w)
  ]

  -- The branches on the minimum version.
  open_for : ProtocolVersion → M Handle
  unfolding open_context unsupported_version
  open_for v =
      if v == tlsv1_2
      then open_context v1_2 lib.tls1_2_version
      else if v == tlsv1_3
      then open_context v1_3 lib.tls1_3_version
      else unsupported_version v

  set_cipher_list : Handle → Bytes → M (Unit {0})
  unfolding raise_ssl_error ssl_error
  set_cipher_list c ciphers w =
      let after = record_call (cipher_list c ciphers) w in
      if lib.set_cipher_list w.history c ciphers == lib.ssl_success
      then (ok tt, after)
      else raise_ssl_error "Failed to set cipher list: {}" after

  finish : ℕ → ℕ → SslOptions → Handle → M SslContext
  unfolding get_cert_manager set_cipher_list
  finish at env o ctx = do
    cm ← get_cert_manager (some ctx)
    set_cipher_list ctx (c_str (join_ciphers o.ciphers))
    pure (record { options = at; pki_env = env; ctx = some ctx; cm = cm })

  -- The constructor from options, whose addresses are `at` and `env`. Where it throws there is no
  -- object, so no destructor runs.
  unfoldable pub new_context : ℕ → ℕ → SslOptions → M SslContext
  unfolding init_once open_for finish
  new_context at env o w =
      (open_for o.minimum_supported_protocol_version >>= finish at env o) (init_once w)

  -- The copy constructor.
  unfoldable pub copy_context : SslContext → M SslContext
  unfolding ctx_new get_cert_manager
  copy_context other = do
    ctx ← ctx_new v1_3
    cm ← get_cert_manager ctx
    pure (record { options = other.options; pki_env = other.pki_env; ctx = ctx; cm = cm })

  -- Copy assignment from another object. Nothing of the other is read, and `cm` is not assigned.
  unfoldable pub assign_context : SslContext → SslContext → M SslContext
  unfolding free_context ctx_new
  assign_context this other w =
      (do ctx ← ctx_new v1_3; pure (record this { ctx = ctx })) (free_context this w)

-- The move constructor: the new object, and what is left of the other.
unfoldable pub move_context : SslContext → SslContext × SslContext
move_context other = (other, record other { ctx = none; cm = none })
