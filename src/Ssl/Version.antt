-- ===== src/Ssl/Version.antt =====
-- The enumerations of sdk/net/crypto/ssl.h and `getProtocolVersionName` of sdk/net/crypto/ssl.cc.
-- A `ProtocolVersion` is the integer behind the C++ enumerator, so that the `default` branches of
-- the code can be reached.
use iggy_cpp_client.Prelude.{ℕ, ◌-◌, ◌^◌, ◌%◌, ◌∷◌, ltb, ◌==◌, if◌then◌else◌}
use iggy_cpp_client.Prelude.Bytes.{Bytes, codes}
use iggy_cpp_client.Prelude.Errors.{Result, ok, err, runtime_error, about}
use iggy_cpp_client.Address.Decimal.{decimal}

pub data PeerType : Type 0 where
  client server : PeerType

abbrev pub ProtocolVersion : Type 0
ProtocolVersion = ℕ

abbrev pub tlsv1_2 : ProtocolVersion
tlsv1_2 = 0

abbrev pub tlsv1_3 : ProtocolVersion
tlsv1_3 = 1

-- The decimal form of `static_cast<int>`: the enumerator as a 32-bit integer.
unfoldable pub int_text : ℕ → Bytes
int_text n =
    let word = n % 2 ^ 32 in
    if ltb word (2 ^ 31) then decimal word else b'-' ∷ decimal (2 ^ 32 - word)

unfoldable pub get_protocol_version_name : ProtocolVersion → Result Bytes
get_protocol_version_name version =
    if version == tlsv1_3
    then ok (codes "TLSV1_3")
    else if version == tlsv1_2
    then ok (codes "TLSV1_2")
    else err (runtime_error (about "Unsupported protocol version code: {}" (int_text version)))
