-- ===== src/Client.antt =====
-- The client of sdk/client.h and sdk/client.cc. `sodium_memzero` of libsodium and the processes of
-- reproc++ are parameters.
use iggy_cpp_client.Prelude.{
  ℕ, zero, suc, ◌≤◌, ◌≡◌, refl, ap, ◌∙◌, ◌↔◌, ◌≢◌, List, [], ◌∷◌, ◌++◌, length, drop, arith,
}
use iggy_cpp_client.Prelude.Bytes.{Bytes, codes, is_empty}
use iggy_cpp_client.Prelude.Errors.{Result, ok, err, Error, invalid_argument, plain, throw_if}
use iggy_cpp_client.Protocol.Definition.{Transport, tcp}
use iggy_cpp_client.Iggy.Provider.{default_tcp_port}
use iggy_cpp_client.Model.Stats.{Stats, new_stats}

pub record Credentials : Type 0 where
  pub username : Bytes
  pub password : Bytes

-- `sodium_memzero` on a buffer and a count of bytes, and what its documentation says of it.
abbrev pub Memzero : Type 0
Memzero = Bytes → ℕ → Bytes

abbrev pub zeros : ℕ → Bytes
zeros zero = []
zeros (suc n) = 0 ∷ zeros n

abbrev pub IsZeroing : Memzero → Type 0
IsZeroing memzero = (b : Bytes) (n : ℕ) → n ≤ length b → memzero b n ≡ zeros n ++ drop n b

-- The destructor: the memory that it leaves.
unfoldable pub destroy : Memzero → Credentials → Credentials
destroy memzero c = record c { password = memzero c.password (length c.password) }

pub record Options : Type 0 where
  pub hostname : Bytes
  pub port : ℕ
  pub transport : Transport
  pub credentials : Credentials

-- The default member initialisers.
unfoldable pub default_options : Options
default_options = record {
  hostname = codes "localhost";
  port = default_tcp_port;
  transport = tcp;
  credentials = record { username = codes "iggy"; password = codes "iggy" };
}

abbrev pub no_hostname : Error
no_hostname = invalid_argument (plain "Hostname cannot be empty")

unfoldable pub validate : Options → Result (Unit {0})
validate options = throw_if (is_empty options.hostname) no_hostname

-- The constructor; the class has no field.
unfoldable pub new_client : Options → Result (Unit {0})
new_client options = validate options

unfoldable pub get_stats : Stats
get_stats = new_stats

-- The calls of reproc++ on a process, each with the error code that it returns.
pub record Reproc : Type 1 where
  pub State : Type 0
  pub Code : Type 0
  pub start : List Bytes → State → State × Code
  pub wait : ℕ → State → State × Code

abbrev pub ping_args : List Bytes
ping_args =
    codes "docker" ∷ codes "exec" ∷ codes "iggy_test" ∷ codes "/iggy/iggy" ∷ codes "ping" ∷ []

-- Both error codes are dropped.
unfoldable pub ping : (lib : Reproc) → lib.State → lib.State
ping lib s = (lib.wait 5000 (lib.start ping_args s).0).0

is_empty-cases :
    (b : Bytes)
    → ((throw_if (is_empty b) no_hostname ≡ ok tt) ↔ (b ≢ []))
      × ((throw_if (is_empty b) no_hostname ≡ err no_hostname) ↔ (b ≡ []))
is_empty-cases [] = (ground arith, ground arith)
is_empty-cases (x ∷ xs) = (ground arith, ground arith)

-- The constructor accepts options exactly when their hostname is not empty, throws the error on the
-- hostname exactly when it is empty, and accepts the default options.
pub new_client_outcome :
    (o : Options)
    → ((new_client o ≡ ok tt) ↔ (o.hostname ≢ []))
      × ((new_client o ≡ err no_hostname) ↔ (o.hostname ≡ []))
      × (new_client default_options ≡ ok tt)
unfolding new_client validate default_options
new_client_outcome o = let (fine, thrown) = is_empty-cases o.hostname in (fine, thrown, refl)

drop-all : (b : Bytes) → zeros (length b) ++ drop (length b) b ≡ zeros (length b)
drop-all [] = refl
drop-all (x ∷ xs) = ap (λ t. 0 ∷ t) (drop-all xs)

-- Where `sodium_memzero` clears the bytes that it is given, the destructor leaves a password of
-- zeros alone, as many as the password had bytes, and keeps the user name.
pub destroy_wipes :
    (memzero : Memzero) (law : IsZeroing memzero) (c : Credentials)
    → ((destroy memzero c).password ≡ zeros (length c.password))
      × ((destroy memzero c).username ≡ c.username)
unfolding destroy
destroy_wipes memzero law c =
    (law c.password (length c.password) (omega arith) ∙ drop-all c.password, refl)
