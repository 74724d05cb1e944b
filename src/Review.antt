-- ===== src/Review.antt =====
-- `review_and_persist` of strategy/paper_risk.py, over the ledger.
pub mod Records
pub mod Binding
pub mod Gates
pub mod Navs
pub mod Reservations
pub mod Persist
pub mod Funds
pub mod Opened
pub mod Input
pub mod Approved
pub mod Closed
pub mod Unchanged
pub mod Repeat
mod Tests
