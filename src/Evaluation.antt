-- ===== src/Evaluation.antt =====
-- strategy/paper_evaluation.py: the replay of paper decisions against later prices.
pub mod Records
pub mod Run
pub mod Soundness
pub mod Accounting
pub mod Reconciliation
pub mod Orders
pub mod Adverse
pub mod Baseline
pub mod Validate
pub mod Replay
pub mod Causality
pub mod Report
pub mod Shadow
pub mod ShadowAudit
mod Tests
