-- ===== src/Services.antt =====
-- The processes of cmd that run one part of the pipeline each, and their messages.
pub mod Api
pub mod Aggregator
pub mod Sequencer
pub mod Ingress
pub mod Replayer
pub mod Node
pub mod Wire
