-- ===== src/Agent.antt =====
-- strategy/paper_agent.py from a snapshot that has passed its checks to a proposal: the request,
-- the validation of what a model answers, and the boundary that calls the model.
pub mod Json
pub mod Records
pub mod Boundary
pub mod Evidence
pub mod Request
pub mod Citations
pub mod Gaps
pub mod Validate
pub mod Propose
pub mod Rereading
pub mod GapReading
pub mod GapCover
pub mod Terms
pub mod Admissible
pub mod Final
pub mod FailClosed
pub mod Acting
pub mod Proposing
pub mod Overflow
mod Tests
