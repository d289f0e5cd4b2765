-- ===== src/Ssl/Wolf.antt =====
-- The part of WolfSSL, a library, that sdk/net/crypto/ssl.cc calls: a parameter of the model. Its
-- answers may depend on all the calls before; the calls are kept, the newest first.
use iggy_cpp_client.Prelude.{
  ℕ, ◌≡◌, Bool, true, false, not, ◌&&◌, ◌||◌, Option, none, some, List, [], ◌∷◌, ◌==◌,
}
use iggy_cpp_client.Prelude.Bytes.{Bytes}

-- `wolfTLSv1_2_client_method` and `wolfTLSv1_3_client_method`
pub data Method : Type 0 where
  v1_2 v1_3 : Method

-- The address of a `WOLFSSL_CTX`; a pointer is an `Option Handle`, with `none` for null.
abbrev pub Handle : Type 0
Handle = ℕ

-- A call with what it returned, where a later argument depends on it.
pub data Call : Type 0 where
  init : Call
  created : Method → Option Handle → Call
  freed : Handle → Call
  min_proto : Handle → ℕ → Call
  cert_manager : Option Handle → Call
  cipher_list : Handle → Bytes → Call
  get_error : Call

abbrev pub History : Type 0
History = List Call

pub record WolfSsl : Type 0 where
  pub ctx_new : History → Method → Option Handle
  pub get_cert_manager : History → Option Handle → Option ℕ
  pub set_cipher_list : History → Handle → Bytes → ℕ
  pub error_string : History → Bytes
  pub ssl_success : ℕ
  pub tls1_2_version : ℕ
  pub tls1_3_version : ℕ

abbrev pub lives : Handle → Call → Bool → Bool
lives c (created m (some d)) before = (d == c) || before
lives c (freed d) before = not (d == c) && before
lives c _ before = before

-- Whether a handle has been created and not freed since.
unfoldable pub is_live : Handle → History → Bool
is_live c [] = false
is_live c (e ∷ h) = lives c e (is_live c h)

abbrev pub is_init : Call → Bool
is_init init = true
is_init _ = false

unfoldable pub initialized : History → Bool
initialized [] = false
initialized (e ∷ h) = is_init e || initialized h

-- What a C library asks of its caller: initialise once and first, never free or use a handle that
-- is not live. A context that is created is a new one.
abbrev pub Allowed : Call → History → Type 0
Allowed init h = initialized h ≡ false
Allowed (created m none) h = initialized h ≡ true
Allowed (created m (some c)) h = (initialized h ≡ true) × (is_live c h ≡ false)
Allowed (freed c) h = is_live c h ≡ true
Allowed (min_proto c v) h = is_live c h ≡ true
Allowed (cert_manager none) h = Unit {0}
Allowed (cert_manager (some c)) h = is_live c h ≡ true
Allowed (cipher_list c s) h = is_live c h ≡ true
Allowed get_error h = Unit {0}

abbrev pub IsSafe : History → Type 0
IsSafe [] = Unit {0}
IsSafe (e ∷ h) = Allowed e h × IsSafe h

-- The library never hands out a handle that is in use.
pub record IsFresh (lib : WolfSsl) : Type 0 where
  pub fresh :
      (h : History) (m : Method) (c : Handle) → lib.ctx_new h m ≡ some c → is_live c h ≡ false
