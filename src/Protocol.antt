-- ===== src/Protocol.antt =====
-- sdk/net/protocol.h, sdk/net/protocol.cc and sdk/net/transport.h.
pub mod Text
pub mod Normalize
pub mod Definition
pub mod Provider
