-- ===== src/Ledger.antt =====
-- paper_trading/ledger.py and its schema: the append-only ledger of the paper accounts.
pub mod Records
pub mod Same
pub mod Checks
pub mod Append
pub mod Fills
pub mod Nav
pub mod Books
pub mod Balance
pub mod Commands
pub mod Conservation
pub mod Replay
pub mod First
pub mod Tables
pub mod Growth
pub mod Tests
