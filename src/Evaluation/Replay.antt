-- ===== src/Evaluation/Replay.antt =====
-- `evaluate_replay` of strategy/paper_evaluation.py: the schedules of the four tracks, and their
-- runs. The digest of `_random_action` is a parameter; the report's JSON text and its digest are
-- left out.
use Prim.Native.String.{◌++◌ as str_append}
use kronos_stock.Common.{
  ℕ, ◌%◌, String, List, [], ◌∷◌, Bool, true, false, ◌&&◌, ◌||◌, ◌==◌, Option, none, some, Result,
  ok, ◌>>=◌, ltb, leb, if◌then◌else◌, filter, str_eq, map,
}
use kronos_stock.Common.Time.{str_lt}
use kronos_stock.Common.Sorting.{sort_by}
use kronos_stock.Symbols.{
  Symbol, s005930, s000660, same_symbol, symbol_lt, Action, enter, hold, reduce, exit, abstain,
}
use kronos_stock.Evaluation.Records.{
  DecisionRecord, MarketOutcome, EvaluationConfig, EvaluationError, StrategyResult,
}
use kronos_stock.Evaluation.Run.{Entry, run, session_ids, count_distinct}
use kronos_stock.Evaluation.Validate.{CheckedDecision, CheckedOutcome, validate}

-- `(session_id, symbol)`, as a sort key
unfoldable pub key_lt : String → Symbol → String → Symbol → Bool
key_lt s y t z = str_lt s t || (str_eq s t && symbol_lt y z)

unfoldable pub decision_before : CheckedDecision → CheckedDecision → Bool
unfolding key_lt
decision_before a b = key_lt a.item.session_id a.item.symbol b.item.session_id b.item.symbol

unfoldable pub outcome_before : CheckedOutcome → CheckedOutcome → Bool
unfolding key_lt
outcome_before a b = key_lt a.item.session_id a.item.symbol b.item.session_id b.item.symbol

-- The first of `eligible`: the next session's outcome that was observed after the decision was
-- persisted.
unfoldable pub next_outcome : CheckedDecision → List CheckedOutcome → Option CheckedOutcome
next_outcome d [] = none
next_outcome d (o ∷ os) =
    let rest = next_outcome d os in
    if same_symbol o.item.symbol d.item.symbol
      && str_lt d.item.session_id o.item.session_id
      && ltb d.persisted.instant o.observed.instant
    then some o
    else rest

-- `known`: what was observed by the decision's cutoff
unfoldable pub known_outcomes : CheckedDecision → List CheckedOutcome → List CheckedOutcome
known_outcomes d os =
    filter (λ o. same_symbol o.item.symbol d.item.symbol && leb o.observed.instant d.cutoff.instant)
      os

-- The comparison of `known[-1]` and `known[-2]`.
unfoldable pub momentum : List CheckedOutcome → Action
momentum [] = hold
momentum (a ∷ []) = hold
momentum (a ∷ b ∷ []) =
    if ltb a.item.price_krw b.item.price_krw
    then enter
    else if ltb b.item.price_krw a.item.price_krw
    then exit
    else hold
momentum (a ∷ b ∷ c ∷ os) = momentum (b ∷ c ∷ os)

unfoldable pub flow_action : List CheckedOutcome → CheckedDecision → Action
unfolding known_outcomes momentum
flow_action os d = momentum (known_outcomes d os)

-- An entry of `schedule` or `flow_schedule`, with what the checks have read.
pub record Slot : Type 0 where
  pub decision : CheckedDecision
  pub outcome : CheckedOutcome
  pub action : Action

-- The loop that fills a schedule, with the action of the track for each decision.
unfoldable pub build_schedule :
    (CheckedDecision → Action) → List CheckedOutcome → List CheckedDecision → List Slot
unfolding next_outcome
build_schedule act os [] = []
build_schedule act os (d ∷ ds) =
    let rest = build_schedule act os ds in
    elim (next_outcome d os) [
      | none ↦ rest
      | some o ↦ record { decision = d; outcome = o; action = act d } ∷ rest
    ]

-- `chronology_key`, in its order
unfoldable pub slot_before : Slot → Slot → Bool
slot_before a b =
    let (t, u) : ℕ × ℕ = (a.outcome.observed.instant, b.outcome.observed.instant) in
    let (y, z) : Symbol × Symbol = (a.outcome.item.symbol, b.outcome.item.symbol) in
    let (s, r) : String × String = (a.decision.item.session_id, b.decision.item.session_id) in
    ltb t u
    || (t == u
        && (symbol_lt y z
            || (same_symbol y z
                && (str_lt s r
                    || (str_eq s r
                        && str_lt a.decision.item.decision_sha256
                            b.decision.item.decision_sha256)))))

unfoldable pub entry_of : Slot → Entry
entry_of s = record { decision = s.decision.item; observation = s.outcome.item; action = s.action }

-- `(d, o, a)` with the action replaced
unfoldable pub with_action : (DecisionRecord → Action) → Entry → Entry
with_action act e = record e { action = act e.decision }

symbol_text : Symbol → String
symbol_text s005930 = "005930"
symbol_text s000660 = "000660"

-- `choices[... % len(choices)]`
choose : ℕ → Action
choose n =
    if n == 0
    then enter
    else if n == 1
    then hold
    else if n == 2
    then reduce
    else if n == 3
    then exit
    else abstain

-- `_random_action`; `sha256_number` is `int(hashlib.sha256(...).hexdigest(), 16)`.
unfoldable pub random_action : (String → ℕ) → String → DecisionRecord → Action
unfolding symbol_text choose
random_action sha256_number seed d =
    let material = str_append seed (
      str_append "|" (
        str_append d.session_id (
          str_append "|"
            (str_append (symbol_text d.symbol) (str_append "|" d.decision_sha256))))) in
    choose (sha256_number material % 5)

pub data ValidityStatus : Type 0 where
  not_established : ValidityStatus

pub record EvaluationReport : Type 0 where
  pub deployed : StrategyResult
  pub no_action : StrategyResult
  pub random : StrategyResult
  pub flow_momentum : StrategyResult
  pub completed_sessions : ℕ
  pub session_count_threshold_met : Bool
  pub strategy_validity_ready : Bool
  pub strategy_validity_status : ValidityStatus
  pub user_approval_required : Bool
  pub activation_performed : Bool

-- `schedule` and `flow_schedule`, in chronological order
unfoldable pub deployed_slots : List CheckedDecision → List CheckedOutcome → List Slot
unfolding build_schedule slot_before decision_before outcome_before
deployed_slots ds os =
    sort_by slot_before
      (build_schedule (λ d. d.item.action) (sort_by outcome_before os) (sort_by decision_before ds))

unfoldable pub flow_slots : List CheckedDecision → List CheckedOutcome → List Slot
unfolding build_schedule flow_action slot_before decision_before outcome_before
flow_slots ds os =
    let ordered = sort_by outcome_before os in
    sort_by slot_before (build_schedule (flow_action ordered) ordered (sort_by decision_before ds))

-- `evaluate_replay`
unfoldable pub evaluate_replay :
    (String → ℕ)
    → List DecisionRecord
    → List MarketOutcome
    → EvaluationConfig
    → Result EvaluationError EvaluationReport
unfolding validate deployed_slots flow_slots random_action entry_of with_action session_ids
    count_distinct
evaluate_replay sha256_number decisions outcomes config = do
  (ds, os) ← validate decisions outcomes
  let schedule = map entry_of (deployed_slots ds os)
  deployed ← run config schedule
  no_action ← run config (map (with_action (λ d. hold)) schedule)
  random ← run config (map (with_action (random_action sha256_number config.random_seed)) schedule)
  flow_momentum ← run config (map entry_of (flow_slots ds os))
  let completed = count_distinct (session_ids schedule)
  ok (record {
    deployed = deployed;
    no_action = no_action;
    random = random;
    flow_momentum = flow_momentum;
    completed_sessions = completed;
    session_count_threshold_met = leb 20 completed;
    strategy_validity_ready = false;
    strategy_validity_status = not_established;
    user_approval_required = true;
    activation_performed = false;
  })
