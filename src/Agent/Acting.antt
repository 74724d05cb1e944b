-- ===== src/Agent/Acting.antt =====
-- What a proposal that `propose` (strategy/paper_agent.py) returns says of the snapshot and of the
-- position: the request that it is built from, and the terms of each action.
use kronos_stock.Common.{
  String, List, [], ◌∷◌, ◌≡◌, refl, true, false, not, ◌&&◌, Option, none, some, ok, raise_if,
  or_raise, IfOk, IfOk_map, >>=-IfOk, after-IfOk, raise_if-IfOk_passed, or_raise-IfOk,
  if◌then◌else◌, str_eq, map, any, arith,
}
use kronos_stock.Common.Int.{ℤ, pos, ltb_ℤ}
use kronos_stock.Common.Time.{Timestamp, aware, is_sha256}
use kronos_stock.Common.Text.{has_duplicate}
use kronos_stock.Symbols.{Action, enter, hold, reduce, exit, abstain}
use kronos_stock.Features.Records.{SymbolFeatureOutput}
use kronos_stock.Features.Eligibility.{AbstainReason, pre_model_abstain_reason}
use kronos_stock.Agent.Json.{is_blank}
use kronos_stock.Agent.Records.{
  Holdings, Evidence, Request, Proposal, Condition, bad_request, bad_snapshot_hash, bad_copy,
  uncited, above_limit, overflow, action_thesis, invalidation_text, Identity, Lineage, bad_catalog,
}
use kronos_stock.Agent.Boundary.{Boundary}
use kronos_stock.Agent.Evidence.{lineage_anchor, snapshot_evidence}
use kronos_stock.Agent.Request.{
  sanitize_holdings, sanitize_policy_limits, normalize_feature_output, eligibility, attest_snapshot,
  is_invalid_snapshot, build_proposal_request, assemble_request,
}
use kronos_stock.Agent.Validate.{
  check_exposure, action_terms, is_substantive_id, is_canonical, all_texts,
}
use kronos_stock.Agent.FailClosed.{IsBuilt}

module _ {V : Type 0} (env : Boundary V) where
  eligibility-none :
      (output : SymbolFeatureOutput V) (cutoff : Timestamp)
      → eligibility env output cutoff ≡ none
      → pre_model_abstain_reason env.votes env.canonical_output_id output cutoff ≡ none
  unfolding eligibility normalize_feature_output
  eligibility-none output cutoff h = ground arith

  attest_snapshot-reason :
      (canonical : Option String) (reason : Option AbstainReason) (supplied : String)
      → IfOk (attest_snapshot env canonical reason supplied) (λ r. r.0 ≡ none → reason ≡ none)
  unfolding attest_snapshot
  attest_snapshot-reason none reason supplied = λ h. cc
  attest_snapshot-reason (some c) reason supplied =
      after-IfOk _
        (raise_if (not (is_invalid_snapshot env reason) && not (str_eq supplied c))
          bad_snapshot_hash)
        _ λ done h. h

  assemble_request-IsBuilt :
      (output : SymbolFeatureOutput V) (cutoff : Timestamp) (identity : Identity)
      (lineage : Lineage) (reason : Option AbstainReason) (cap : V) (held : Holdings V)
      → (reason ≡ none → eligibility env output cutoff ≡ none)
      → IfOk
          (assemble_request env output identity lineage reason cap held)
          (IsBuilt env output cutoff)
  unfolding assemble_request
  assemble_request-IsBuilt output cutoff identity lineage reason cap held reasons =
      let catalog : List (Evidence V) =
        lineage_anchor env lineage
        ∷ (if is_invalid_snapshot env reason then [] else snapshot_evidence env output lineage) in
      raise_if-IfOk_passed (IsBuilt env output cutoff) (has_duplicate (map (λ e. e.id) catalog))
        bad_catalog
        (ok (record {
          identity = identity;
          lineage = lineage;
          pre_model_abstain_reason = reason;
          max_target_exposure_pct = cap;
          holdings = held;
          evidence_catalog = catalog;
        }))
        λ distinct. record {
          distinct = distinct;
          anchored = ((lineage_anchor env lineage).id, refl);
          eligible = λ h. eligibility-none output cutoff (reasons h);
        }

  pub build_proposal_request-IsBuilt :
      (output : SymbolFeatureOutput V) (holdings : Holdings V) (limit : V)
      (provider name run decision sha256 : String) (cutoff : Timestamp)
      → IfOk
          (build_proposal_request env output holdings limit provider name run decision sha256
            cutoff)
          (IsBuilt env output cutoff)
  unfolding build_proposal_request
  build_proposal_request-IsBuilt output holdings limit provider name run decision sha256 cutoff =
      after-IfOk _ (raise_if (is_blank provider) bad_request) _ λ a.
        after-IfOk _ (raise_if (is_blank name) bad_request) _ λ b.
          after-IfOk _ (raise_if (is_blank run) bad_request) _ λ c.
            after-IfOk _ (raise_if (is_blank decision) bad_request) _ λ d.
              after-IfOk _ (raise_if (not (is_sha256 sha256)) bad_request) _ λ e.
                after-IfOk _ (or_raise (aware cutoff.reading) bad_request) _ λ parsed.
                  after-IfOk _ (sanitize_holdings env holdings output.symbol) _ λ held.
                    after-IfOk _ (sanitize_policy_limits env limit) _ λ cap.
                      >>=-IfOk _ _
                        (attest_snapshot env
                          (elim (normalize_feature_output env output) [
                            | none ↦ none
                            | some c ↦ env.snapshot_sha256 c
                          ])
                          (eligibility env output cutoff) sha256)
                        _ (attest_snapshot-reason _ (eligibility env output cutoff) sha256)
                        λ attested reasons.
                          assemble_request-IsBuilt output cutoff _ _ attested.0 cap held reasons

  -- What the action of a proposal asks for, with the current exposure and the quantity held.
  abbrev pub IsDirected : Action → V → V → ℤ → Type 0
  IsDirected enter target current quantity =
      env.numbers.less (env.numbers.plus current env.numbers.pct_tolerance) target ≡ true
  IsDirected hold target current quantity =
      env.numbers.less env.numbers.pct_tolerance
        (env.numbers.magnitude (env.numbers.minus target current))
      ≡ false
  IsDirected reduce target current quantity =
      (ltb_ℤ (pos 0) quantity ≡ true)
      × (env.numbers.less env.numbers.pct_tolerance target ≡ true)
      × (env.numbers.less target (env.numbers.minus current env.numbers.pct_tolerance) ≡ true)
  IsDirected exit target current quantity =
      (ltb_ℤ (pos 0) quantity ≡ true) × (env.numbers.equal target env.zero ≡ true)
  IsDirected abstain target current quantity = Unit

  -- The terms of an action other than ABSTAIN.
  pub record IsWithinTerms (req : Request V) (p : Proposal V) : Type 0 where
    pub capped :
        env.numbers.less
          (env.numbers.plus req.max_target_exposure_pct env.numbers.pct_tolerance)
          p.target_exposure_pct
        ≡ false
    pub cited : any (is_substantive_id env req.evidence_catalog) p.evidence_ids ≡ true
    pub current : V
    pub exposed : env.numbers.to_float req.holdings.current_exposure_pct ≡ some current
    pub directed : IsDirected p.action p.target_exposure_pct current req.holdings.quantity

  check_exposure-IsDirected :
      (a : Action) (target current : V) (quantity : ℤ)
      → IfOk
          (check_exposure env a target current quantity)
          (λ done. IsDirected a target current quantity)
  unfolding check_exposure
  check_exposure-IsDirected enter target current quantity = ground arith
  check_exposure-IsDirected hold target current quantity = ground arith
  check_exposure-IsDirected reduce target current quantity = ground arith
  check_exposure-IsDirected exit target current quantity = ground arith
  check_exposure-IsDirected abstain target current quantity = tt

  pub action_terms-IsWithinTerms :
      (req : Request V) (p : Proposal V) (thesis : String) (cs : List Condition)
      → IfOk
          (action_terms env req p.action thesis cs p.evidence_ids p.target_exposure_pct)
          (λ done. IsWithinTerms req p)
  unfolding action_terms
  action_terms-IsWithinTerms req p thesis cs =
      let n = env.numbers in
      let q = req.holdings.quantity in
      after-IfOk _ (raise_if (not (is_canonical env (action_thesis p.action) thesis)) bad_copy) _
        λ a. after-IfOk _ (raise_if (not (all_texts invalidation_text cs)) bad_copy) _ λ b.
          raise_if-IfOk_passed _
            (not (any (is_substantive_id env req.evidence_catalog) p.evidence_ids)) uncited _
            λ cited.
              >>=-IfOk _ _ (or_raise (n.to_float req.holdings.current_exposure_pct) overflow) _
                (or_raise-IfOk (n.to_float req.holdings.current_exposure_pct) overflow)
                λ current exposed.
                  raise_if-IfOk_passed _
                    (n.less (n.plus req.max_target_exposure_pct n.pct_tolerance)
                      p.target_exposure_pct)
                    above_limit _
                    λ capped.
                      IfOk_map _ _ (check_exposure env p.action p.target_exposure_pct current q)
                        (check_exposure-IsDirected p.action p.target_exposure_pct current q)
                        λ done directed. record {
                          capped = capped;
                          cited = ground arith;
                          current = current;
                          exposed = exposed;
                          directed = directed;
                        }
