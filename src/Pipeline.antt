-- ===== src/Pipeline.antt =====
-- The pipeline of internal/pipeline, part by part.
pub mod Types
pub mod Proof
pub mod L1
pub mod Sequencer
pub mod Aggregator
pub mod Replayer
pub mod Ingress
pub mod EndToEnd
pub mod Runner
pub mod Report
