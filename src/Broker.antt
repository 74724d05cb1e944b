-- ===== src/Broker.antt =====
-- strategy/paper_broker.py: the simulated execution of an accepted order.
pub mod Execute
pub mod Pricing
pub mod Calls
pub mod Solvency
pub mod Settlement
mod Tests
