-- ===== src/Lib.antt =====
-- The C++ client of Iggy, a message streaming server: the library under sdk/ of this repository.
--
-- Parts, with the files here that model them:
-- - Protocol: the normalised protocol names, `ProtocolDefinition` and the interface
--   `ProtocolProvider` of sdk/net/protocol.h and sdk/net/protocol.cc; `Transport` of
--   sdk/net/transport.h.
-- - Iggy: `IggyProtocolProvider` of sdk/net/iggy.h and sdk/net/iggy.cc, the provider that the
--   client uses. Its `std::map` is an association list (Iggy/Lookup).
-- - Address: `LogicalAddress` of sdk/net/address.h and sdk/net/address.cc, which asks a provider
--   whether the protocol of a URL is supported and what its default port is. `std::stoi` is written
--   out (Address/Stoi); the URL parser ada is a parameter (Address/Ada), with what the URL standard
--   says of a parsed URL. Address/Logical/Iggy joins the address to the client's provider.
-- - Ssl: `SSLOptions`, `SSLContext` and `getDefaultCipherList` of sdk/net/crypto/ssl.h and
--   sdk/net/crypto/ssl.cc. WolfSSL is a parameter (Ssl/Wolf): its answers may depend on all calls
--   before, and the calls are kept as a history. Ssl/Context has one function for each constructor,
--   assignment and the destructor; Ssl/Program runs any sequence of them over any number of
--   variables.
-- - Crypto: the certificate and key stores (Crypto/Store), over a file system (Crypto/Disk), the
--   certificate authority, and `PKIEnvironment`, whose references are addresses on a heap
--   (Crypto/Environment); sdk/net/crypto/crypto.h and sdk/net/crypto/crypto.cc.
-- - Serialization: `convertToUTF8` of sdk/serialization.cc; the library utf8h is a parameter.
-- - Model, Command, Client: the value objects of sdk/model.h, the commands of sdk/command.h with the
--   codes of sdk/binary.h, and sdk/client.h with sdk/client.cc.
-- - Prelude: byte strings, exceptions as values, lists and tests on the native numbers.
-- - Tests: runs of the code, and instances of the results.
--
-- A `std::string` is the list of its bytes; the result of code that may throw is `ok` or `err`, with
-- the class of the exception and the arguments of its message, whose rendering is not modelled.
-- Machine integers: the length before a colon is taken in `size_t` (% 2 ^ 64), `std::stoi` refuses
-- what no 32-bit `int` holds, and a port is converted to 16 bits. No function runs on fuel but
-- `decimal`, the reference form of a number: it has one round more than the number, and each round
-- divides by ten.
--
-- Not modelled: the debug log, what a locale other than C changes in `tolower`, the errors of
-- `std::filesystem::exists` and `is_directory` (a path that may not be looked at), threads
-- (`std::call_once` is a flag), memory that the code does not free apart from TLS contexts, and the
-- members `configure`, which have empty bodies. Paths are those of POSIX, and `std::filesystem` and
-- the streams behave as in libstdc++. sdk/json.h and sdk/net/quic hold no code.
pub mod Protocol
pub mod Iggy
pub mod Address
pub mod Ssl
pub mod Crypto
pub mod Serialization
pub mod Prelude
pub mod Model
pub mod Command
pub mod Client
pub mod Tests
