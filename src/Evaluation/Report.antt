-- ===== src/Evaluation/Report.antt =====
-- What `evaluate_replay` promises of its report.
use kronos_stock.Common.{
  ℕ, ◌<◌, ◌≡◌, refl, List, [], ◌∷◌, ◌++◌, true, false, ok, String, arith, All, All-map, All-weaken,
  map, Returns, >>=-Returns, IfOk-ok, IfOk, >>=-IfOk, IfOk_any, Returns_both, Returns_and, sym, leb,
}
use kronos_stock.Common.Time.{Moment, str_lt}
use kronos_stock.Symbols.{Action, hold}
use kronos_stock.Evaluation.Records.{
  DecisionRecord, MarketOutcome, EvaluationConfig, IsConfig, StrategyResult,
}
use kronos_stock.Evaluation.Run.{
  Entry, run, run_from, start, report_track, session_ids, count_distinct,
}
use kronos_stock.Evaluation.Soundness.{IsPriced, IsSoundResult, run_returns_sound}
use kronos_stock.Evaluation.Baseline.{IsFlat, Holds, hold_run-IsFlat}
use kronos_stock.Evaluation.Validate.{CheckedDecision, CheckedOutcome, validate}
use kronos_stock.Evaluation.Replay.{
  Slot, EvaluationReport, evaluate_replay, deployed_slots, flow_slots, flow_action, known_outcomes,
  entry_of, with_action, random_action,
}
use kronos_stock.Evaluation.Causality.{
  Reads, IsRead, IsCausalSlot, validate-IsRead, deployed_slots-IsCausalSlot,
  flow_slots-IsCausalSlot,
}

-- An entry is settled at an outcome of the decision's symbol, in a later session, and by the times
-- that the records carry the decision was persisted before the outcome was observed.
abbrev pub IsCausal : Entry → Type 0
IsCausal e =
    (e.decision.symbol ≡ e.observation.symbol)
    × (str_lt e.decision.session_id e.observation.session_id ≡ true)
    × ((persisted : Moment) × (observed : Moment) × Reads e.decision.persisted_at persisted
        × Reads e.observation.observed_at observed
        × (persisted.instant < observed.instant))

entry_of-IsCausal : (s : Slot) → IsCausalSlot s → IsCausal (entry_of s)
unfolding entry_of
entry_of-IsCausal s h = (h.0, h.1, (s.decision.persisted, s.outcome.observed, h.3.0, h.4.0, h.2))

entry_of-IsPriced : (s : Slot) → IsCausalSlot s → IsPriced (entry_of s)
unfolding entry_of
entry_of-IsPriced s h = h.4.1

-- If the records pass `_validate`, then no member of the schedule of the deployed decisions or of
-- the flow baseline is settled with look-ahead: the outcome is of the decision's symbol, stands in
-- a later session, and was observed after the decision was persisted.
pub schedules-IsCausal :
    (ds : List DecisionRecord) (os : List MarketOutcome)
    {v : List CheckedDecision × List CheckedOutcome}
    → validate ds os ≡ ok v
    → All IsCausal (map entry_of (deployed_slots v.0 v.1))
      × All IsCausal (map entry_of (flow_slots v.0 v.1))
schedules-IsCausal ds os {v} h =
    let read : IsRead v = IfOk-ok IsRead (validate ds os) (validate-IsRead ds os) h in
    let deployed = deployed_slots v.0 v.1 in
    let flow = flow_slots v.0 v.1 in
    (
      All-map IsCausal entry_of deployed (
          All-weaken IsCausalSlot (λ s. IsCausal (entry_of s)) deployed entry_of-IsCausal
            (deployed_slots-IsCausalSlot v.0 v.1 read)),
      All-map IsCausal entry_of flow (
          All-weaken IsCausalSlot (λ s. IsCausal (entry_of s)) flow entry_of-IsCausal
            (flow_slots-IsCausalSlot v.0 v.1 read)),
    )

momentum_known :
    (d : CheckedDecision) (xs ys : List CheckedOutcome) (o : CheckedOutcome)
    → d.cutoff.instant < o.observed.instant
    → known_outcomes d (xs ++ (o ∷ ys)) ≡ known_outcomes d (xs ++ ys)
unfolding known_outcomes
momentum_known d [] ys o h = ground arith
momentum_known d (x ∷ xs) ys o h = ground (arith, momentum_known d xs ys o h)

-- The flow baseline's action for a decision does not depend on an outcome that was observed after
-- the decision's data cutoff: it is the same with that outcome in the list, wherever it stands,
-- and without it.
pub flow_action_no_lookahead :
    (d : CheckedDecision) (xs ys : List CheckedOutcome) (o : CheckedOutcome)
    → d.cutoff.instant < o.observed.instant
    → flow_action (xs ++ (o ∷ ys)) d ≡ flow_action (xs ++ ys) d
unfolding flow_action
flow_action_no_lookahead d xs ys o h = rw (momentum_known d xs ys o h)

-- A report whose four results are sound and whose baseline "no_action" is flat, and which
-- establishes and activates nothing.
pub record IsSoundReport (c : EvaluationConfig) (r : EvaluationReport) : Type 0 where
  pub deployed_sound : IsSoundResult r.deployed
  pub no_action_sound : IsSoundResult r.no_action
  pub random_sound : IsSoundResult r.random
  pub flow_sound : IsSoundResult r.flow_momentum
  pub no_action_flat : IsFlat c r.no_action
  pub threshold_means : r.session_count_threshold_met ≡ leb 20 r.completed_sessions
  pub same_sessions : r.completed_sessions ≡ r.deployed.completed_sessions
  pub not_ready : r.strategy_validity_ready ≡ false
  pub needs_approval : r.user_approval_required ≡ true
  pub not_activated : r.activation_performed ≡ false

run_sessions :
    (c : EvaluationConfig) (es : List Entry)
    → IfOk (run c es) (λ r. r.completed_sessions ≡ count_distinct (session_ids es))
unfolding run report_track
run_sessions c es =
    >>=-IfOk (λ t. Unit) (λ r. r.completed_sessions ≡ count_distinct (session_ids es))
      (run_from c es (start c)) _ (IfOk_any (run_from c es (start c))) (λ t u. refl)

slots-IsPriced : (slots : List Slot) → All IsCausalSlot slots → All IsPriced (map entry_of slots)
slots-IsPriced slots h =
    All-map IsPriced entry_of slots
      (All-weaken IsCausalSlot (λ s. IsPriced (entry_of s)) slots entry_of-IsPriced h)

acted-IsPriced :
    (act : DecisionRecord → Action) (es : List Entry)
    → All IsPriced es
    → All IsPriced (map (with_action act) es)
unfolding with_action
acted-IsPriced act [] h = tt
acted-IsPriced act (e ∷ es) h = (h.0, acted-IsPriced act es h.1)

with_action-Holds : (es : List Entry) → All Holds (map (with_action (λ d. hold)) es)
unfolding with_action
with_action-Holds [] = tt
with_action-Holds (e ∷ es) = (refl, with_action-Holds es)

-- If the records pass `_validate`, then for every configuration that can be built and whatever the
-- digest, `evaluate_replay` returns a report: its four results are sound (nothing negative, no
-- ratio out of range), the baseline "no_action" is flat, the sessions counted are those of the
-- deployed track, the threshold is met exactly from 20 sessions on, and the report claims no
-- validity, asks for the user's approval, and has activated nothing.
pub evaluate_replay_returns :
    (sha256_number : String → ℕ) (ds : List DecisionRecord) (os : List MarketOutcome)
    (c : EvaluationConfig) {v : List CheckedDecision × List CheckedOutcome}
    → IsConfig c
    → validate ds os ≡ ok v
    → Returns (evaluate_replay sha256_number ds os c) (IsSoundReport c)
unfolding evaluate_replay
evaluate_replay_returns f ds os c {v} config h =
    let read : IsRead v = IfOk-ok IsRead (validate ds os) (validate-IsRead ds os) h in
    let schedule = map entry_of (deployed_slots v.0 v.1) in
    let flow = map entry_of (flow_slots v.0 v.1) in
    let held = map (with_action (λ d. hold)) schedule in
    let act = random_action f c.random_seed in
    let random = map (with_action act) schedule in
    let priced =
      slots-IsPriced (deployed_slots v.0 v.1) (deployed_slots-IsCausalSlot v.0 v.1 read) in
    let flow_priced = slots-IsPriced (flow_slots v.0 v.1) (flow_slots-IsCausalSlot v.0 v.1 read) in
    let held_priced = acted-IsPriced (λ d. hold) schedule priced in
    let random_priced = acted-IsPriced act schedule priced in
    let Deployed : StrategyResult → Type 0 =
      λ r. IsSoundResult r × (r.completed_sessions ≡ count_distinct (session_ids schedule)) in
    let Held : StrategyResult → Type 0 = λ r. IsSoundResult r × IsFlat c r in
    rw h (
      >>=-Returns Deployed (IsSoundReport c) (run c schedule) _
        (Returns_both IsSoundResult _ (run c schedule) (run_returns_sound c schedule config priced)
          (run_sessions c schedule))
        λ deployed hd.
          >>=-Returns Held (IsSoundReport c) (run c held) _
            (Returns_and IsSoundResult (IsFlat c) (run c held)
              (run_returns_sound c held config held_priced)
              (hold_run-IsFlat c held config held_priced (with_action-Holds schedule)))
            λ no_action hn.
              >>=-Returns IsSoundResult (IsSoundReport c) (run c random) _
                (run_returns_sound c random config random_priced)
                λ rand hr.
                  >>=-Returns IsSoundResult (IsSoundReport c) (run c flow) _
                    (run_returns_sound c flow config flow_priced)
                    λ momentum hm. record {
                      deployed_sound = hd.0;
                      no_action_sound = hn.0;
                      random_sound = hr;
                      flow_sound = hm;
                      no_action_flat = hn.1;
                      threshold_means = refl;
                      same_sessions = sym hd.1;
                      not_ready = refl;
                      needs_approval = refl;
                      not_activated = refl;
                    })
