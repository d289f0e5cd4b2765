-- ===== src/Address.antt =====
-- sdk/net/address.h and sdk/net/address.cc.
pub mod Stoi
pub mod Decimal
pub mod Ada
pub mod Logical
