-- ===== src/Agent/Propose.antt =====
-- `build_abstain_proposal` and `propose` of strategy/paper_agent.py. The transport is a function
-- from the request to what comes of the call.
use kronos_stock.Common.{
  String, List, [], ◌∷◌, Bool, false, Option, none, some, Result, ok, err, or_raise, ◌>>=◌,
  if◌then◌else◌, str_eq, map,
}
use kronos_stock.Common.Time.{Timestamp}
use kronos_stock.Symbols.{abstain}
use kronos_stock.Features.Records.{SymbolFeatureOutput}
use kronos_stock.Agent.Json.{Json, object, Members, member, no_members}
use kronos_stock.Agent.Records.{
  Reason, data_ineligible, model_timeout, model_provider_error, model_output_invalid,
  offline_shadow_mode, abstain_thesis, abstain_invalidation_text, Holdings, Evidence, Request,
  Proposal, ProposalError, bad_catalog, escapes,
}
use kronos_stock.Agent.Boundary.{Boundary}
use kronos_stock.Agent.Evidence.{unavailable_evidence}
use kronos_stock.Agent.Request.{build_proposal_request}
use kronos_stock.Agent.Gaps.{gap_from_evidence, is_text}
use kronos_stock.Agent.Validate.{model, validate_proposal}
use kronos_stock.Features.Eligibility.{AbstainReason}

-- What comes of a call of the transport.
pub data Response (V : Type 0) : Type 0 where
  returned : Json V → Response V
  timed_out : Response V
  -- any other exception
  failed : Response V

module _ {V : Type 0} (env : Boundary V) where
  -- `catalog[0]["id"]`
  abbrev pub anchor_id : List (Evidence V) → Option String
  anchor_id [] = none
  anchor_id (e ∷ es) = some e.id

  -- The abstention that cites the id.
  unfoldable pub abstention : Request V → Reason → String → Proposal V
  unfolding gap_from_evidence
  abstention req r anchor = record {
    identity = req.identity;
    action = abstain;
    target_exposure_pct = env.zero;
    confidence_bps = 0;
    thesis = abstain_thesis r;
    evidence_ids = anchor ∷ [];
    invalidation_conditions =
        record { text = abstain_invalidation_text; evidence_ids = anchor ∷ [] } ∷ [];
    data_gaps = map gap_from_evidence (unavailable_evidence req.evidence_catalog);
    abstain_reason = some r;
  }

  -- `build_abstain_proposal`
  unfoldable pub build_abstain_proposal : Request V → Reason → Result ProposalError (Proposal V)
  unfolding abstention
  build_abstain_proposal req r = do
    anchor ← or_raise (anchor_id req.evidence_catalog) bad_catalog
    ok (abstention req r anchor)

  -- `{"offline_deterministic_abstain_reason": "OFFLINE_SHADOW_MODE"}`
  abbrev is_offline_members : Members V → Bool
  is_offline_members (member key j no_members) =
      if str_eq key "offline_deterministic_abstain_reason"
      then is_text "OFFLINE_SHADOW_MODE" j
      else false
  is_offline_members ms = false

  abbrev pub is_offline : Json V → Bool
  is_offline (object ms) = is_offline_members ms
  is_offline j = false

  -- `except (ValueError, TypeError, KeyError)`: an `OverflowError` and a `RecursionError` go on.
  unfoldable pub recover :
      Request V → Result ProposalError (Proposal V) → Result ProposalError (Proposal V)
  unfolding build_abstain_proposal
  recover req (ok p) = ok p
  recover req (err e) = if escapes e then err e else build_abstain_proposal req model_output_invalid

  -- What the boundary makes of a response.
  unfoldable pub answer : Request V → Response V → Result ProposalError (Proposal V)
  unfolding build_abstain_proposal recover
  answer req timed_out = build_abstain_proposal req model_timeout
  answer req failed = build_abstain_proposal req model_provider_error
  answer req (returned raw) =
      if is_offline raw
      then build_abstain_proposal req offline_shadow_mode
      else recover req (validate_proposal env model raw req)

  -- The transport is called only for an eligible snapshot.
  unfoldable pub respond :
      (Request V → Response V)
      → Request V
      → Option AbstainReason
      → Result ProposalError (Proposal V)
  unfolding build_abstain_proposal answer
  respond transport req (some reason) = build_abstain_proposal req (data_ineligible reason)
  respond transport req none = answer req (transport req)

  -- The rest of `propose`, with the request.
  unfoldable pub propose_on :
      (Request V → Response V) → Request V → Result ProposalError (Proposal V)
  unfolding respond
  propose_on transport req = respond transport req req.pre_model_abstain_reason

  -- `propose`; the arguments are those of `build_proposal_request`, and the transport.
  unfoldable pub propose :
      (Request V → Response V)
      → SymbolFeatureOutput V
      → Holdings V
      → V
      → String
      → String
      → String
      → String
      → String
      → Timestamp
      → Result ProposalError (Proposal V)
  unfolding build_proposal_request propose_on
  propose transport output holdings limit provider name run decision sha256 cutoff = do
    req ← build_proposal_request env output holdings limit provider name run decision sha256 cutoff
    propose_on transport req
