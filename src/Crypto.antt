-- ===== src/Crypto.antt =====
-- sdk/net/crypto/crypto.h and sdk/net/crypto/crypto.cc.
pub mod Disk
pub mod Store
pub mod Authority
pub mod Environment
