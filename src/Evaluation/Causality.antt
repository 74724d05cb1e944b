-- ===== src/Evaluation/Causality.antt =====
-- No look-ahead: what a schedule settles a decision at, and what its actions know.
use kronos_stock.Common.{
  ◌≤◌, ◌<◌, ◌≡◌, refl, List, [], ◌∷◌, true, Option, none, some, ltb, arith, IfOk, >>=-IfOk,
  raise_if-IfOk_then, All, map, or_raise-IfOk, raise_if-IfOk_passed, String,
}
use kronos_stock.Common.Time.{Moment, Timestamp, explicit_kst, str_lt}
use kronos_stock.Common.Sorting.{sort_by, sort_by-All}
use kronos_stock.Symbols.{Symbol, s005930, s000660, same_symbol, Action}
use kronos_stock.Evaluation.Records.{
  DecisionRecord, MarketOutcome, malformed_timestamp, malformed_int, no_decision_lineage,
}
use kronos_stock.Evaluation.Validate.{
  CheckedDecision, CheckedOutcome, parse_kst, check_decision, check_decisions, check_outcome,
  check_outcomes, validate,
}
use kronos_stock.Evaluation.Replay.{
  Slot, next_outcome, flow_action, build_schedule, deployed_slots, flow_slots, decision_before,
  outcome_before, slot_before,
}

pub same_symbol-eq : (a b : Symbol) → same_symbol a b ≡ true → a ≡ b
same_symbol-eq s005930 s005930 h = refl
same_symbol-eq s005930 s000660 h = cc
same_symbol-eq s000660 s005930 h = cc
same_symbol-eq s000660 s000660 h = refl

-- `m` is what the text stands for.
abbrev pub Reads : Timestamp → Moment → Type 0
Reads t m = explicit_kst t.reading ≡ some m

pub parse_kst-Reads : (t : Timestamp) → IfOk (parse_kst t) (Reads t)
unfolding parse_kst
parse_kst-Reads t = or_raise-IfOk (explicit_kst t.reading) malformed_timestamp

abbrev pub IsReadDecision : CheckedDecision → Type 0
IsReadDecision d =
    Reads d.item.persisted_at d.persisted × Reads d.item.available_data_cutoff d.cutoff

abbrev pub IsReadOutcome : CheckedOutcome → Type 0
IsReadOutcome o = Reads o.item.observed_at o.observed × (1 ≤ o.item.price_krw)

check_decision-IsReadDecision :
    (keys : List (String × Symbol)) (d : DecisionRecord)
    → IfOk (check_decision keys d) IsReadDecision
unfolding check_decision
check_decision-IsReadDecision keys d =
    >>=-IfOk _ IsReadDecision (parse_kst d.decided_at) _ (parse_kst-Reads d.decided_at) λ decided _.
      >>=-IfOk _ IsReadDecision (parse_kst d.persisted_at) _ (parse_kst-Reads d.persisted_at)
        λ persisted p.
          >>=-IfOk _ IsReadDecision (parse_kst d.available_data_cutoff) _
            (parse_kst-Reads d.available_data_cutoff) λ cutoff c. ground arith

check_decisions-IsReadDecision :
    (keys : List (String × Symbol)) (ds : List DecisionRecord)
    → IfOk (check_decisions keys ds) (All IsReadDecision)
unfolding check_decisions
check_decisions-IsReadDecision keys [] = tt
check_decisions-IsReadDecision keys (d ∷ ds) =
    >>=-IfOk _ (All IsReadDecision) (check_decision keys d) _ (check_decision-IsReadDecision keys d)
      λ x hx.
        >>=-IfOk _ (All IsReadDecision) (check_decisions ((d.session_id, d.symbol) ∷ keys) ds) _
          (check_decisions-IsReadDecision ((d.session_id, d.symbol) ∷ keys) ds) λ xs hxs. (hx, hxs)

check_outcome-IsReadOutcome :
    (symbols : List Symbol) (keys : List (String × Symbol)) (o : MarketOutcome)
    → IfOk (check_outcome symbols keys o) IsReadOutcome
unfolding check_outcome
check_outcome-IsReadOutcome symbols keys o =
    raise_if-IfOk_then IsReadOutcome _ no_decision_lineage _ (
      >>=-IfOk _ IsReadOutcome (parse_kst o.observed_at) _ (parse_kst-Reads o.observed_at)
        λ observed h.
          raise_if-IfOk_passed IsReadOutcome (ltb o.price_krw 1) malformed_int _
            λ priced. ground arith)

check_outcomes-IsReadOutcome :
    (symbols : List Symbol) (keys : List (String × Symbol)) (os : List MarketOutcome)
    → IfOk (check_outcomes symbols keys os) (All IsReadOutcome)
unfolding check_outcomes
check_outcomes-IsReadOutcome symbols keys [] = tt
check_outcomes-IsReadOutcome symbols keys (o ∷ os) =
    >>=-IfOk _ (All IsReadOutcome) (check_outcome symbols keys o) _
      (check_outcome-IsReadOutcome symbols keys o)
      λ x hx.
        >>=-IfOk _ (All IsReadOutcome) (check_outcomes symbols ((o.session_id, o.symbol) ∷ keys) os)
          _ (check_outcomes-IsReadOutcome symbols ((o.session_id, o.symbol) ∷ keys) os)
          λ xs hxs. (hx, hxs)

-- What `_validate` has read of all the records that it lets through.
abbrev pub IsRead : List CheckedDecision × List CheckedOutcome → Type 0
IsRead v = All IsReadDecision v.0 × All IsReadOutcome v.1

pub validate-IsRead :
    (ds : List DecisionRecord) (os : List MarketOutcome) → IfOk (validate ds os) IsRead
unfolding validate
validate-IsRead ds os =
    >>=-IfOk _ IsRead (check_decisions [] ds) _ (check_decisions-IsReadDecision [] ds) λ cs hc.
      >>=-IfOk _ IsRead (check_outcomes (map (λ d. d.symbol) ds) [] os) _
        (check_outcomes-IsReadOutcome (map (λ d. d.symbol) ds) [] os) λ co ho. ground arith

-- A member of a schedule is settled at an outcome of its symbol, in a later session, that was
-- observed after the decision was persisted.
abbrev pub IsCausalSlot : Slot → Type 0
IsCausalSlot s =
    (s.decision.item.symbol ≡ s.outcome.item.symbol)
    × (str_lt s.decision.item.session_id s.outcome.item.session_id ≡ true)
    × (s.decision.persisted.instant < s.outcome.observed.instant)
    × IsReadDecision s.decision
    × IsReadOutcome s.outcome

abbrev IsNext : CheckedDecision → Option CheckedOutcome → Type 0
IsNext d none = Unit
IsNext d (some o) =
    (d.item.symbol ≡ o.item.symbol)
    × (str_lt d.item.session_id o.item.session_id ≡ true)
    × (d.persisted.instant < o.observed.instant)
    × IsReadOutcome o

next_outcome-IsNext :
    (d : CheckedDecision) (os : List CheckedOutcome)
    → All IsReadOutcome os
    → IsNext d (next_outcome d os)
unfolding next_outcome
next_outcome-IsNext d [] h = tt
next_outcome-IsNext d (o ∷ os) h =
    let same = same_symbol-eq o.item.symbol d.item.symbol in
    ground (arith, same, next_outcome-IsNext d os h.1)

build_schedule-IsCausalSlot :
    (act : CheckedDecision → Action) (os : List CheckedOutcome) (ds : List CheckedDecision)
    → All IsReadDecision ds
    → All IsReadOutcome os
    → All IsCausalSlot (build_schedule act os ds)
unfolding build_schedule
build_schedule-IsCausalSlot act os [] h k = tt
build_schedule-IsCausalSlot act os (d ∷ ds) h k =
    ground (arith, next_outcome-IsNext d os k, build_schedule-IsCausalSlot act os ds h.1 k)

pub deployed_slots-IsCausalSlot :
    (ds : List CheckedDecision) (os : List CheckedOutcome)
    → IsRead (ds, os)
    → All IsCausalSlot (deployed_slots ds os)
unfolding deployed_slots
deployed_slots-IsCausalSlot ds os h = sort_by-All slot_before IsCausalSlot _ (
    build_schedule-IsCausalSlot (λ d. d.item.action) (sort_by outcome_before os)
      (sort_by decision_before ds) (sort_by-All decision_before IsReadDecision ds h.0)
      (sort_by-All outcome_before IsReadOutcome os h.1))

pub flow_slots-IsCausalSlot :
    (ds : List CheckedDecision) (os : List CheckedOutcome)
    → IsRead (ds, os)
    → All IsCausalSlot (flow_slots ds os)
unfolding flow_slots
flow_slots-IsCausalSlot ds os h = sort_by-All slot_before IsCausalSlot _ (
    build_schedule-IsCausalSlot (flow_action (sort_by outcome_before os))
      (sort_by outcome_before os) (sort_by decision_before ds)
      (sort_by-All decision_before IsReadDecision ds h.0)
      (sort_by-All outcome_before IsReadOutcome os h.1))
