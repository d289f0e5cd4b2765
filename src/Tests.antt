-- ===== src/Tests.antt =====
-- Runs of the modelled code, and each theorem of the results that has conditions at values that
-- meet them.
mod Names
mod Addresses
mod Tls
mod Stores
mod Contexts
mod Texts
