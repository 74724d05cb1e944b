-- ===== src/Agent/Admissible.antt =====
-- `validate_proposal` of strategy/paper_agent.py lets exactly the admissible proposals pass: what it
-- returns is admissible, and an admissible proposal that is written as a value is returned.
use kronos_stock.Common.{ℕ, ◌≡◌, refl, false, ok, ltb}
use text.Mathlib.TextPositions.{eq_refl}
use kronos_stock.Common.Int.{pos}
use kronos_stock.Symbols.{Action, enter, hold, reduce, exit, abstain}
use kronos_stock.Agent.Json.{number, string, names, lookup, same_names}
use kronos_stock.Agent.Records.{symbol_text, action_text, spelled, Request, Proposal}
use kronos_stock.Agent.Boundary.{Boundary, validate_prose}
use kronos_stock.Agent.Evidence.{unavailable_evidence}
use kronos_stock.Agent.Citations.{read_text, read_object}
use kronos_stock.Agent.Validate.{
  Mode, read_payload, check_identity, read_action, read_target, read_confidence, validate_proposal,
  proposal_json,
}
use kronos_stock.Agent.Rereading.{validate_evidence_ids-json, validate_conditions-json}
use kronos_stock.Agent.GapCover.{normalize_data_gaps-json}
use kronos_stock.Agent.Terms.{gap_text-shown, FloatLaws, IsTarget, catalog_ids, IsAdmissible}

module _ {V : Type 0} (env : Boundary V) where
  read_target-json : (v : V) → IsTarget env v → read_target env (number v) ≡ ok v
  unfolding read_target
  read_target-json v h = rw (h.finite, h.not_negative, h.at_most_hundred, h.float)

  read_action-json : (a : Action) → read_action env (string (action_text a)) ≡ ok a
  unfolding read_action spelled
  read_action-json enter = refl
  read_action-json hold = refl
  read_action-json reduce = refl
  read_action-json exit = refl
  read_action-json abstain = refl

  read_confidence-json :
      (n : ℕ)
      → FloatLaws env
      → ltb 10000 n ≡ false
      → read_confidence env (number (env.numbers.of_int (pos n))) ≡ ok n
  unfolding read_confidence
  read_confidence-json n laws h = rw (laws.int_value n, h)

  -- An admissible proposal that is written as a value is accepted, and is what is returned.
  pub validate_proposal-json :
      (m : Mode) (req : Request V) (p : Proposal V)
      → FloatLaws env
      → IsAdmissible env m req p
      → validate_proposal env m (proposal_json env p) req ≡ ok p
  unfolding validate_proposal proposal_json read_payload read_object names same_names check_identity
      lookup read_text validate_prose
  validate_proposal-json m req p laws h = rw (
    laws.shallow p,
    h.identity,
    eq_refl (symbol_text req.identity.symbol),
    eq_refl req.identity.response_schema_version,
    eq_refl req.identity.prompt_template_version,
    eq_refl req.identity.model_policy_version,
    eq_refl req.identity.model_provider,
    eq_refl req.identity.model_name,
    read_action-json,
    read_target-json p.target_exposure_pct h.target,
    read_confidence-json p.confidence_bps laws h.confidence,
    h.thesis,
    h.distinct,
    validate_evidence_ids-json V (catalog_ids req) p.evidence_ids,
    h.cited,
    validate_conditions-json V (catalog_ids req) p.invalidation_conditions h.conditions.0
        h.conditions.1,
    normalize_data_gaps-json (unavailable_evidence req.evidence_catalog) p.data_gaps gap_text-shown
        h.gaps h.covered,
    h.prose,
    h.terms,
  )
