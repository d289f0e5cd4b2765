-- ===== src/Address/Logical.antt =====
-- `LogicalAddress` of sdk/net/address.h and sdk/net/address.cc, and `createAddress` of
-- sdk/net/protocol.cc.
pub mod Outcome
pub mod Iggy
use iggy_cpp_client.Prelude.{
  ℕ, zero, suc, ◌+◌, ◌-◌, ◌<◌, ◌^◌, ◌%◌, ◌≡◌, refl, Bool, true, false, not, ◌||◌, Option, none,
  some, List, [], ◌∷◌, arith, ltb, ◌==◌, if◌then◌else◌, length,
}
use iggy_cpp_client.Prelude.Bytes.{Bytes, is_empty}
use iggy_cpp_client.Prelude.Errors.{
  Result, ok, err, ◌>>=◌, ◌>>◌, throw_if, invalid_argument, out_of_range, plain, about,
}
use iggy_cpp_client.Protocol.Text.{substr}
use iggy_cpp_client.Protocol.Definition.{ProtocolDefinition}
use iggy_cpp_client.Protocol.Provider.{ProtocolProvider}
use iggy_cpp_client.Address.Stoi.{ℤ, pos, negsuc, stoi}
use iggy_cpp_client.Address.Ada.{Ada}

-- `protocol.substr(0, protocol.length() - 1)`, the subtraction in `size_t`
unfoldable pub chop : Bytes → Result Bytes
chop protocol = substr protocol 0 ((length protocol + 2 ^ 64 - 1) % 2 ^ 64)

-- `port < 0 || port > 65535`
abbrev pub out_of_port : ℤ → Bool
out_of_port (negsuc n) = true
out_of_port (pos n) = ltb 65535 n

-- The conversion of an `int` to `uint16_t`.
abbrev pub to_uint16 : ℤ → ℕ
to_uint16 (pos n) = n % 2 ^ 16
to_uint16 (negsuc n) = (2 ^ 16 - 1) - n % 2 ^ 16

-- The last branch of `getPort`.
pub explicit_port : Bytes → Result ℕ
explicit_port text = do
  port ← stoi text
  throw_if (out_of_port port) (out_of_range (plain "Port number out of range"))
  ok (to_uint16 port)

module _ (ada : Ada) where
  -- The provider is a pointer that is not written through.
  pub record LogicalAddress : Type 0 where
    pub url : ada.Url
    pub protocol_provider : ProtocolProvider

  unfoldable pub new_address : Bytes → ProtocolProvider → Result LogicalAddress
  unfolding chop
  new_address url provider = elim (ada.parse url) [
    | none ↦ err (invalid_argument (about "Invalid URL: " url))
    | some value ↦ do
      protocol ← chop (ada.get_protocol value)
      supported ← provider.is_supported protocol
      throw_if (not supported) (invalid_argument (about "Unsupported protocol: " protocol))
      ok (record { url = value; protocol_provider = provider })
  ]

  -- `ProtocolProvider::createAddress`
  unfoldable pub create_address : ProtocolProvider → Bytes → Result LogicalAddress
  unfolding new_address
  create_address provider url = new_address url provider

  -- Declared `noexcept`; an error here would end the program.
  unfoldable pub get_protocol : LogicalAddress → Result Bytes
  unfolding chop
  get_protocol a = chop (ada.get_protocol a.url)

  unfoldable pub get_host : LogicalAddress → Bytes
  get_host a = ada.get_hostname a.url

  unfoldable pub get_protocol_definition : LogicalAddress → Result ProtocolDefinition
  unfolding get_protocol
  get_protocol_definition a = do
    protocol ← get_protocol a
    a.protocol_provider.get_protocol_definition protocol

  unfoldable pub get_port : LogicalAddress → Result ℕ
  unfolding get_protocol_definition explicit_port
  get_port a =
      if is_empty (ada.get_port a.url)
      then (do definition ← get_protocol_definition a; ok definition.default_port)
      else explicit_port (ada.get_port a.url)
