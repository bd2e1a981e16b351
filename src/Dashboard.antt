-- ===== src/Dashboard.antt =====
-- The progress dashboard of cmd/kaia-proofctl/dashboard.go: its records, its state, what a receipt
-- changes, the workflow, and the submission that reports to it.
pub mod Types
pub mod State
pub mod Receipts
pub mod Laws
pub mod Submission
pub mod Workflow
