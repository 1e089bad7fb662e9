-- ===== src/Util.antt =====
-- The package util: messages, the default packer, the write queue, the pipeline, and contexts.
pub mod Message
pub mod Queue
pub mod DataPack
pub mod Pipeline
pub mod Context
