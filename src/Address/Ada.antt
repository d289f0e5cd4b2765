-- ===== src/Address/Ada.antt =====
-- The URL parser `ada`, a library that sdk/net/address.cc calls: a parameter of the model.
use iggy_cpp_client.Prelude.{
  ℕ, ◌<◌, ◌^◌, ◌≡◌, Option, none, some, [], ◌∷◌, ◌++◌, ◌==◌, if◌then◌else◌, length,
}
use iggy_cpp_client.Prelude.Bytes.{Bytes, codes, bytes_eq}
use iggy_cpp_client.Address.Decimal.{decimal}

-- `ada::url`, `ada::parse<ada::url>` and the getters that are called.
pub record Ada : Type 1 where
  pub Url : Type 0
  pub parse : Bytes → Option Url
  pub get_protocol : Url → Bytes
  pub get_hostname : Url → Bytes
  pub get_port : Url → Bytes

-- The default ports that the URL standard gives to its special schemes.
unfoldable pub special_port : Bytes → Option ℕ
special_port scheme =
    if bytes_eq scheme (codes "http")
    then some 80
    else if bytes_eq scheme (codes "https")
    then some 443
    else if bytes_eq scheme (codes "ws")
    then some 80
    else if bytes_eq scheme (codes "wss")
    then some 443
    else if bytes_eq scheme (codes "ftp")
    then some 21
    else none

-- A port that is written, unless it is the default one.
abbrev pub port_unless : Option ℕ → ℕ → Bytes
port_unless none n = decimal n
port_unless (some m) n = if m == n then [] else decimal n

-- The port of a parsed URL, from its scheme and the port that its text writes.
abbrev pub port_text : Bytes → Option ℕ → Bytes
port_text scheme none = []
port_text scheme (some n) = port_unless (special_port scheme) n

-- What the URL standard says of a parsed URL: the protocol is the scheme and a colon, a port that is
-- written is a 16-bit number, and one that is the scheme's default is dropped. A `std::string` is
-- shorter than 2 ^ 63.
pub record IsStandard (ada : Ada) : Type 0 where
  pub scheme : ada.Url → Bytes
  pub written : ada.Url → Option ℕ
  pub protocol_form : (u : ada.Url) → ada.get_protocol u ≡ scheme u ++ b':' ∷ []
  pub protocol_size : (u : ada.Url) → length (ada.get_protocol u) < 2 ^ 63
  pub written_range : (u : ada.Url) (n : ℕ) → written u ≡ some n → n < 2 ^ 16
  pub port_form : (u : ada.Url) → ada.get_port u ≡ port_text (scheme u) (written u)
