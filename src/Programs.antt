-- ===== src/Programs.antt =====
-- Programs that use the library: src/examples.
pub mod Bridge
pub mod Agent
pub mod Answering
