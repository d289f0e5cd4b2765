-- ===== src/Iggy.antt =====
-- sdk/net/iggy.h and sdk/net/iggy.cc: the protocols of the client and their provider.
pub mod Lookup
pub mod Provider
pub mod Supported
pub mod Table
