-- ===== src/Ssl.antt =====
-- sdk/net/crypto/ssl.h and sdk/net/crypto/ssl.cc.
pub mod Version
pub mod Ciphers
pub mod Options
pub mod Join
pub mod Wolf
pub mod Context
pub mod Program
