-- ===== src/Evaluation/Validate.antt =====
-- `_validate` of strategy/paper_evaluation.py. Symbols, actions and prices are typed, so the checks
-- of their types are gone; a price of 0 is still refused.
use kronos_stock.Common.{
  ℕ, String, List, [], ◌∷◌, Bool, false, not, ◌&&◌, ◌||◌, Option, none, some, Result, ok, raise_if,
  or_raise, ◌>>=◌, ◌>>◌, ltb, leb, any, filter, str_eq, map, min,
}
use kronos_stock.Common.Time.{Moment, Timestamp, explicit_kst, is_sha256, str_lt}
use kronos_stock.Symbols.{Symbol, same_symbol}
use kronos_stock.Evaluation.Records.{
  DecisionRecord, MarketOutcome, EvaluationError, malformed_timestamp, malformed_sha, malformed_int,
  not_chronological, persisted_elsewhere, duplicate_decision, no_decision_lineage,
  duplicate_outcome, persisted_too_late, outcome_session_mismatch,
}

-- A member of `checked_decisions`.
pub record CheckedDecision : Type 0 where
  pub item : DecisionRecord
  pub persisted : Moment
  pub cutoff : Moment

-- A member of `checked_outcomes`.
pub record CheckedOutcome : Type 0 where
  pub item : MarketOutcome
  pub observed : Moment

-- `_kst`
unfoldable pub parse_kst : Timestamp → Result EvaluationError Moment
unfolding explicit_kst
parse_kst t = or_raise (explicit_kst t.reading) malformed_timestamp

-- `_sha`
unfoldable pub check_sha : String → Result EvaluationError (Unit {0})
check_sha s = raise_if (not (is_sha256 s)) malformed_sha

-- `(session_id, symbol) in keys`
unfoldable pub has_key : String → Symbol → List (String × Symbol) → Bool
has_key s y keys = any (λ k. str_eq s k.0 && same_symbol y k.1) keys

unfoldable pub check_decision :
    List (String × Symbol) → DecisionRecord → Result EvaluationError CheckedDecision
unfolding parse_kst check_sha has_key
check_decision keys d = do
  decided ← parse_kst d.decided_at
  persisted ← parse_kst d.persisted_at
  cutoff ← parse_kst d.available_data_cutoff
  raise_if
      (not (str_eq d.session_id decided.date)
        || ltb decided.instant cutoff.instant
        || leb persisted.instant decided.instant)
      not_chronological
  raise_if (not (str_eq persisted.date d.session_id)) persisted_elsewhere
  check_sha d.decision_sha256
  check_sha d.source_artifact_sha256
  raise_if (has_key d.session_id d.symbol keys) duplicate_decision
  ok (record { item = d; persisted = persisted; cutoff = cutoff })

-- The first loop: `keys` holds the identities of the decisions before.
unfoldable pub check_decisions :
    List (String × Symbol) → List DecisionRecord → Result EvaluationError (List CheckedDecision)
unfolding check_decision
check_decisions keys [] = ok []
check_decisions keys (d ∷ ds) = do
  checked ← check_decision keys d
  rest ← check_decisions ((d.session_id, d.symbol) ∷ keys) ds
  ok (checked ∷ rest)

unfoldable pub check_outcome :
    List Symbol → List (String × Symbol) → MarketOutcome → Result EvaluationError CheckedOutcome
unfolding parse_kst check_sha has_key
check_outcome symbols keys o = do
  raise_if (not (any (same_symbol o.symbol) symbols)) no_decision_lineage
  observed ← parse_kst o.observed_at
  raise_if (ltb o.price_krw 1) malformed_int
  check_sha o.source_artifact_sha256
  raise_if (has_key o.session_id o.symbol keys) duplicate_outcome
  ok (record { item = o; observed = observed })

-- The second loop.
unfoldable pub check_outcomes :
    List Symbol
    → List (String × Symbol)
    → List MarketOutcome
    → Result EvaluationError (List CheckedOutcome)
unfolding check_outcome
check_outcomes symbols keys [] = ok []
check_outcomes symbols keys (o ∷ os) = do
  checked ← check_outcome symbols keys o
  rest ← check_outcomes symbols ((o.session_id, o.symbol) ∷ keys) os
  ok (checked ∷ rest)

-- `min(observed for _, observed in later)`, if there is one
unfoldable pub earliest : List CheckedOutcome → Option ℕ
earliest [] = none
earliest (o ∷ os) = elim (earliest os) [
  | none ↦ some o.observed.instant
  | some m ↦ some (min o.observed.instant m)
]

-- `later`: the outcomes of the symbol in later sessions
unfoldable pub later_outcomes : CheckedDecision → List CheckedOutcome → List CheckedOutcome
later_outcomes d os =
    filter
      (λ o. same_symbol o.item.symbol d.item.symbol && str_lt d.item.session_id o.item.session_id)
      os

unfoldable pub settles_early : List CheckedOutcome → CheckedDecision → Bool
unfolding earliest later_outcomes
settles_early os d = elim (earliest (later_outcomes d os)) [
  | none ↦ false
  | some m ↦ leb m d.persisted.instant
]

unfoldable pub validate :
    List DecisionRecord
    → List MarketOutcome
    → Result EvaluationError (List CheckedDecision × List CheckedOutcome)
unfolding check_decisions check_outcomes settles_early
validate decisions outcomes = do
  ds ← check_decisions [] decisions
  os ← check_outcomes (map (λ d. d.symbol) decisions) [] outcomes
  raise_if (any (settles_early os) ds) persisted_too_late
  raise_if (any (λ o. not (str_eq o.item.session_id o.observed.date)) os) outcome_session_mismatch
  ok (ds, os)
