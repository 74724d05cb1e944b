-- ===== src/Risk.antt =====
-- strategy/paper_risk.py: sizing and risk checks of a proposal.
pub mod Records
pub mod Evaluate
pub mod Sizing
pub mod Approval
pub mod Freshness
pub mod Verdict
pub mod Tests
