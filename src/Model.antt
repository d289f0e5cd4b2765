-- ===== src/Model.antt =====
-- The value objects of sdk/model.h.
pub mod Metadata
pub mod Message
pub mod Consumer
pub mod Stats
