-- ===== src/Lib.antt =====
-- Kronos-Stock: the paper trading decisions, their review, and their evaluation.
--
-- The paper desk takes a snapshot of features (ksf/feature_engine.py), asks a model for a
-- proposal if the snapshot is eligible (strategy/paper_agent.py), sizes and reviews the proposal
-- (strategy/paper_risk.py), stores every step in an append-only ledger (paper_trading/ledger.py),
-- executes accepted orders against it (strategy/paper_broker.py), and later replays the persisted
-- decisions against the prices of later sessions (strategy/paper_evaluation.py).
--
-- Common: lists, numbers, texts and errors that all parts share. Common.Time holds the times and
--   digests as texts: what `datetime.fromisoformat` reads from a text is part of a timestamp.
-- Symbols: `SUPPORTED_SYMBOLS`, dictionaries that are keyed by it, actions and sides.
-- Evaluation: strategy/paper_evaluation.py. Records are its dataclasses, Run is `_run` (the loop
--   over the schedule as a recursion with the loop's variables in a record, `Track`), Validate is
--   `_validate`, Replay is `evaluate_replay`, and Shadow is `audit_shadow`. Soundness, Accounting,
--   Reconciliation, Orders, Adverse and Baseline are about a run; Causality and Report are about
--   the replay, ShadowAudit about the audit.
-- Features: Records are the dataclasses and constants of ksf/feature_engine.py, Scoring the
--   votes, Eligibility is `_structural_problem`, `_timestamp_problem` and
--   `_pre_model_abstain_reason` of strategy/paper_agent.py, Eligible what they ensure.
-- Agent: strategy/paper_agent.py from an eligible snapshot to a proposal. Json holds what a model may
--   answer, Boundary what comes from Python's library, Evidence and Request are
--   `build_proposal_request`, Citations, Gaps and Validate are `validate_proposal`, Propose is
--   `propose`. Terms is what an admissible proposal is; Rereading, GapReading, GapCover, Admissible
--   and Final show that the validation accepts these and no others; FailClosed, Acting and
--   Proposing are about `propose`, Overflow about the exceptions that it does not catch
--   (`OverflowError` and `RecursionError`).
-- Risk: strategy/paper_risk.py. Records are its dataclasses with `__post_init__`, Evaluate is
--   `evaluate_risk` in the order of its tests; Sizing, Approval, Freshness and Verdict are about it.
-- Ledger: paper_trading/ledger.py, with the triggers and constraints of
--   paper_trading/migrations/001_autonomous_paper_trading_ledgers.sql. Records are the rows and the
--   ledger, Same the comparison of rows, Checks the helpers and the derived state, Append the
--   operations up to the order, Fills `append_fill`, Nav `append_nav_snapshot`, Commands a sequence of
--   calls, each in a transaction.
--   Books, Balance and Conservation are about what the calls do to cash and positions, First is about
--   the first review of a proposal, Replay about a review that is stored again, Tables and Growth
--   about the tables' rows before and after.
-- Review: `review_and_persist` of strategy/paper_risk.py, over the ledger. Binding compares the proposal
--   with the request, Gates are the account's events, the kill switch and the search for another
--   approval, Navs the snapshots of value, Reservations what other approvals hold back, Persist the
--   input that is put together, evaluated and stored. A transaction that raises leaves the ledger as
--   it was: an error has no ledger. Opened, Funds, Input, Approved, Closed, Unchanged and Repeat
--   are about the review.
-- Broker: strategy/paper_broker.py. Execute is `execute_order`; Calls is a sequence of calls of the
--   ledger and of the broker; Pricing compares the broker's prices with those of the evaluation,
--   Solvency and Settlement are about the calls.
--
-- Numbers that the code checks to be at least 0 are natural numbers, the others integers of
-- Common.Int. An exception is an error value, by its kind. All loops are over lists and are
-- structural recursions: no fuel is used. Checks of a Python type that the types here make are
-- left out. Parameters stand for the digests (SHA-256 of canonical JSON), the number that a digest
-- is read as, Python's arithmetic on feature values, which of them are whole numbers, SQLite's
-- `julianday` and `LIKE`, `json.loads`, the values that `deepcopy` cannot copy within Python's limit on
-- recursion, and the searches of two regular expressions in the prose of a
-- proposal.
--
-- Not modelled: the collectors, model calls, web views and operations, which are input and output;
-- the JSON texts of reports; the ledger's file and schema repair; and the cycle that joins
-- the parts.
pub mod Common
pub mod Symbols
pub mod Evaluation
pub mod Features
pub mod Broker
pub mod Ledger
pub mod Risk
pub mod Agent
pub mod Review
