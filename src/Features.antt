-- ===== src/Features.antt =====
-- Feature snapshots: what the engine of ksf/feature_engine.py emits, and the check that
-- strategy/paper_agent.py makes of a snapshot before anything is decided on it.
pub mod Records
pub mod Scoring
pub mod Eligibility
pub mod Eligible
pub mod Tests
