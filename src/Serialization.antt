-- ===== src/Serialization.antt =====
-- sdk/serialization.h and sdk/serialization.cc: `convertToUTF8`.
pub mod Utf8
pub mod Convert
