-- ===== src/Agent/Proposing.antt =====
-- `propose` of strategy/paper_agent.py as a whole: it is fail-closed, and it acts only on an eligible
-- snapshot and within the terms of the action.
use kronos_stock.Common.{
  ℕ, String, List, ◌≡◌, ◌≢◌, refl, Option, none, some, Result, ok, err, raise_if, or_raise, IfOk,
  IfOk_map, IfOk_both, >>=-IfOk, after-IfOk, IfOk-ok, not, IfOk_any, IfOk_self, Bool-cases, inl,
  inr, ◌>>=◌,
}
use kronos_stock.Common.Time.{Timestamp}
use kronos_stock.Symbols.{Action, enter, hold, reduce, exit, abstain}
use kronos_stock.Features.Records.{SymbolFeatureOutput}
use kronos_stock.Features.Eligibility.{AbstainReason}
use kronos_stock.Features.Eligible.{IsEligible, pre_model_abstain_reason-IsEligible}
use kronos_stock.Agent.Json.{Json}
use kronos_stock.Agent.Records.{
  Reason, Holdings, Request, Proposal, Condition, ProposalError, bad_reason, bad_catalog,
  data_ineligible, Gap, escapes, model_output_invalid, model_timeout, model_provider_error,
  offline_shadow_mode,
}
use kronos_stock.Agent.Boundary.{Boundary}
use kronos_stock.Agent.Request.{build_proposal_request}
use kronos_stock.Agent.Validate.{
  Mode, is_null, action_terms, check_action, check_terms, validate_proposal, model,
}
use kronos_stock.Agent.Propose.{
  Response, anchor_id, build_abstain_proposal, abstention, respond, propose_on, propose, returned,
  timed_out, failed, recover, answer, is_offline,
}
use kronos_stock.Agent.FailClosed.{IsBuilt, IsServed, IsFinal, Answers, propose_on-IsFinal}
use kronos_stock.Agent.Acting.{
  build_proposal_request-IsBuilt, IsWithinTerms, action_terms-IsWithinTerms,
}

module _ {V : Type 0} (env : Boundary V) where
  check_action-passed :
      (req : Request V) (a : Action) (thesis : String) (cs : List Condition) (ids : List String)
      (target : V) (j : Json V)
      → IfOk
          (check_action env req a thesis cs ids target j)
          (λ r. action_terms env req a thesis cs ids target ≡ ok tt)
  unfolding check_action
  check_action-passed req a thesis cs ids target j =
      after-IfOk _ (raise_if (not (is_null env j)) bad_reason) _ λ given.
        >>=-IfOk _ _ (action_terms env req a thesis cs ids target) _
          (IfOk_self (action_terms env req a thesis cs ids target)) λ done e. e

  check_terms-passed :
      (m : Mode) (req : Request V) (a : Action) (thesis : String) (cs : List Condition)
      (ids : List String) (target : V) (confidence : ℕ) (j : Json V)
      → IfOk
          (check_terms env m req a thesis cs ids target confidence j)
          (λ r. a ≢ abstain → action_terms env req a thesis cs ids target ≡ ok tt)
  unfolding check_terms
  check_terms-passed m req abstain thesis cs ids target confidence j =
      IfOk_map _ _ (check_terms env m req abstain thesis cs ids target confidence j)
        (IfOk_any (check_terms env m req abstain thesis cs ids target confidence j))
        λ r done n. absurd (n refl)
  check_terms-passed m req enter thesis cs ids target confidence j =
      IfOk_map _ _ (check_action env req enter thesis cs ids target j)
        (check_action-passed req enter thesis cs ids target j) λ r e n. e
  check_terms-passed m req hold thesis cs ids target confidence j =
      IfOk_map _ _ (check_action env req hold thesis cs ids target j)
        (check_action-passed req hold thesis cs ids target j) λ r e n. e
  check_terms-passed m req reduce thesis cs ids target confidence j =
      IfOk_map _ _ (check_action env req reduce thesis cs ids target j)
        (check_action-passed req reduce thesis cs ids target j) λ r e n. e
  check_terms-passed m req exit thesis cs ids target confidence j =
      IfOk_map _ _ (check_action env req exit thesis cs ids target j)
        (check_action-passed req exit thesis cs ids target j) λ r e n. e

  -- If it acts, a proposal is within the terms of its action.
  abbrev ActsWithin : Request V → Proposal V → Type 0
  ActsWithin req p = p.action ≢ abstain → IsWithinTerms env req p

  -- The last steps of the validation.
  finished-ActsWithin :
      (req : Request V) (a : Action) (target : V) (confidence : ℕ) (thesis : String)
      (ids : List String) (cs : List Condition) (gaps : List Gap) (j : Json V)
      → IfOk
          (check_terms env model req a thesis cs ids target confidence j >>= λ reason. ok (record {
            identity = req.identity;
            action = a;
            target_exposure_pct = target;
            confidence_bps = confidence;
            thesis = thesis;
            evidence_ids = ids;
            invalidation_conditions = cs;
            data_gaps = gaps;
            abstain_reason = reason;
          }))
          (ActsWithin req)
  finished-ActsWithin req a target confidence thesis ids cs gaps j =
      >>=-IfOk _ _ (check_terms env model req a thesis cs ids target confidence j) _
        (check_terms-passed model req a thesis cs ids target confidence j)
        λ reason passed acts.
          IfOk-ok _ _
            (action_terms-IsWithinTerms env req
              (record {
                identity = req.identity;
                action = a;
                target_exposure_pct = target;
                confidence_bps = confidence;
                thesis = thesis;
                evidence_ids = ids;
                invalidation_conditions = cs;
                data_gaps = gaps;
                abstain_reason = reason;
              })
              thesis cs)
            (passed acts)

  validate_proposal-ActsWithin :
      (raw : Json V) (req : Request V) → IfOk (validate_proposal env model raw req) (ActsWithin req)
  unfolding validate_proposal
  validate_proposal-ActsWithin raw req = search (after-IfOk, finished-ActsWithin) depth 60

  build_abstain_proposal-abstains :
      (req : Request V) (r : Reason)
      → IfOk (build_abstain_proposal env req r) (λ p. p.action ≡ abstain)
  unfolding build_abstain_proposal abstention
  build_abstain_proposal-abstains req r =
      after-IfOk _ (or_raise (anchor_id env req.evidence_catalog) bad_catalog) _ λ anchor. refl

  abstains-ActsWithin :
      (req : Request V) (r : Reason) → IfOk (build_abstain_proposal env req r) (ActsWithin req)
  abstains-ActsWithin req r =
      IfOk_map _ _ (build_abstain_proposal env req r) (build_abstain_proposal-abstains req r)
        λ p e acts. absurd (acts e)

  recover-ActsWithin :
      (req : Request V) (result : Result ProposalError (Proposal V))
      → IfOk result (ActsWithin req)
      → IfOk (recover env req result) (ActsWithin req)
  unfolding recover
  recover-ActsWithin req (ok p) h = h
  recover-ActsWithin req (err e) h = elim (Bool-cases (escapes e)) [
    | inl over ↦ rw over tt
    | inr caught ↦ rw caught (abstains-ActsWithin req model_output_invalid)
  ]

  answer-ActsWithin : (req : Request V) (r : Response V) → IfOk (answer env req r) (ActsWithin req)
  unfolding answer
  answer-ActsWithin req timed_out = abstains-ActsWithin req model_timeout
  answer-ActsWithin req failed = abstains-ActsWithin req model_provider_error
  answer-ActsWithin req (returned raw) = elim (Bool-cases (is_offline env raw)) [
    | inl offline ↦ rw offline (abstains-ActsWithin req offline_shadow_mode)
    | inr online ↦ rw online (
        recover-ActsWithin req (validate_proposal env model raw req)
          (validate_proposal-ActsWithin raw req))
  ]

  respond-ActsWithin :
      (transport : Request V → Response V) (req : Request V) (reason : Option AbstainReason)
      → IfOk (respond env transport req reason) (ActsWithin req)
  unfolding respond
  respond-ActsWithin transport req none = answer-ActsWithin req (transport req)
  respond-ActsWithin transport req (some reason) = abstains-ActsWithin req (data_ineligible reason)

  propose_on-ActsWithin :
      (transport : Request V → Response V) (req : Request V)
      → IfOk (propose_on env transport req) (ActsWithin req)
  unfolding propose_on
  propose_on-ActsWithin transport req =
      respond-ActsWithin transport req req.pre_model_abstain_reason

  respond-eligible :
      (transport : Request V → Response V) (req : Request V) (reason : Option AbstainReason)
      → IfOk (respond env transport req reason) (λ p. p.action ≢ abstain → reason ≡ none)
  unfolding respond
  respond-eligible transport req none =
      IfOk_map _ _ (respond env transport req none) (IfOk_any (respond env transport req none))
        λ p done n. refl
  respond-eligible transport req (some reason) =
      IfOk_map _ _ (build_abstain_proposal env req (data_ineligible reason))
        (build_abstain_proposal-abstains req (data_ineligible reason)) λ p e n. absurd (n e)

  module _ (transport : Request V → Response V) (output : SymbolFeatureOutput V)
      (holdings : Holdings V) (limit : V) (provider name run decision sha256 : String)
      (cutoff : Timestamp) (req : Request V) where
    -- Let a request be built whose gaps and whose symbol's fixed texts of an ABSTAIN pass the prose
    -- policy, and let Python's numbers keep the laws of `float`. Then `propose` returns a proposal that
    -- the final validation returns unchanged, or an `OverflowError` or a `RecursionError` escapes:
    -- whether the snapshot is eligible or not, and whether the transport answers, fails or times out.
    pub propose-IsFinal :
        build_proposal_request env output holdings limit provider name run decision sha256 cutoff
          ≡ ok req
        → IsServed env req
        → Answers env
            (IsFinal env req)
            (propose env transport output holdings limit provider name run decision sha256 cutoff)
    unfolding propose
    propose-IsFinal built served = rw built (
        propose_on-IsFinal env transport req served (
          IfOk-ok (IsBuilt env output cutoff) _
            (build_proposal_request-IsBuilt env output holdings limit provider name run decision
              sha256 cutoff)
            built))

    propose_on-IsEligible :
        IsBuilt env output cutoff req
        → IfOk
            (propose_on env transport req)
            (λ p. p.action ≢ abstain → IsEligible env.canonical_output_id output cutoff)
    unfolding propose_on
    propose_on-IsEligible built =
        IfOk_map _ _ (respond env transport req req.pre_model_abstain_reason)
          (respond-eligible transport req req.pre_model_abstain_reason)
          λ p h acts.
            pre_model_abstain_reason-IsEligible env.votes env.canonical_output_id output cutoff
              (built.eligible (h acts))

    -- Where the request can be built, a proposal of `propose` that is not an ABSTAIN rests on an eligible
    -- snapshot, cites a feature or a group of it, stays below the policy's cap, and moves the exposure
    -- in the direction of its action, out of a position that is held where it reduces one.
    pub propose-IsWithinTerms :
        build_proposal_request env output holdings limit provider name run decision sha256 cutoff
          ≡ ok req
        → IfOk
            (propose env transport output holdings limit provider name run decision sha256 cutoff)
            (λ p.
              p.action ≢ abstain
              → IsEligible env.canonical_output_id output cutoff × IsWithinTerms env req p)
    unfolding propose
    propose-IsWithinTerms built =
        let is_built : IsBuilt env output cutoff req =
          IfOk-ok (IsBuilt env output cutoff) _
            (build_proposal_request-IsBuilt env output holdings limit provider name run decision
              sha256 cutoff)
            built in
        rw built (
          IfOk_map _ _ (propose_on env transport req)
            (IfOk_both _ _ (propose_on env transport req) (propose_on-IsEligible is_built)
              (propose_on-ActsWithin transport req))
            λ p h acts. (h.0 acts, h.1 acts))
