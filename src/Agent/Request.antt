-- ===== src/Agent/Request.antt =====
-- `_sanitize_holdings`, `_sanitize_policy_limits` and `build_proposal_request` of
-- strategy/paper_agent.py. The keys and the types of the mappings are gone, and so is the copy of
-- the snapshot that checks its types: its check that values are finite stays.
use kronos_stock.Common.{
  String, [], ◌∷◌, Bool, true, false, not, ◌||◌, ◌&&◌, Option, none, some, Result, ok, raise_if,
  or_raise, ◌>>=◌, ◌>>◌, if◌then◌else◌, str_eq, map, all,
}
use kronos_stock.Common.Int.{pos, ltb_ℤ}
use kronos_stock.Common.Time.{Timestamp, aware, is_sha256}
use kronos_stock.Common.Text.{has_duplicate}
use kronos_stock.Symbols.{Symbol, same_symbol}
use kronos_stock.Features.Records.{group_order, EngineFeature, SymbolFeatureOutput}
use kronos_stock.Features.Eligibility.{
  AbstainReason, data_snapshot_invalid, rows_of, pre_model_abstain_reason,
}
use kronos_stock.Agent.Json.{is_blank}
use kronos_stock.Agent.Records.{
  identity_of, Holdings, Lineage, Request, ProposalError, bad_catalog, bad_request, bad_holdings,
  bad_policy, bad_snapshot_hash, overflow, Identity,
}
use kronos_stock.Agent.Boundary.{Boundary}
use kronos_stock.Agent.Evidence.{lineage_anchor, snapshot_evidence}

module _ {V : Type 0} (env : Boundary V) where
  -- `float(value)` and `math.isfinite`: it must be finite.
  abbrev require_finite : V → ProposalError → Result ProposalError (Unit {0})
  require_finite v e =
      or_raise (env.numbers.is_finite v) overflow >>= λ finite. raise_if (not finite) e

  -- `not _finite_number(value) or value < 0`
  unfoldable pub require_amount : V → Result ProposalError (Unit {0})
  require_amount v =
      require_finite v bad_holdings >> raise_if (env.numbers.less v env.zero) bad_holdings

  -- `_sanitize_holdings`
  unfoldable pub sanitize_holdings : Holdings V → Symbol → Result ProposalError (Holdings V)
  unfolding require_amount
  sanitize_holdings h symbol =
      let n = env.numbers in
      do
        raise_if (not (same_symbol h.symbol symbol)) bad_holdings
        require_amount h.cash_krw
        require_amount h.market_value_krw
        require_amount h.total_equity_krw
        require_amount h.current_exposure_pct
        raise_if (ltb_ℤ h.quantity (pos 0)) bad_holdings
        raise_if (ltb_ℤ h.other_position_value_krw (pos 0)) bad_holdings
        raise_if (not (n.less env.zero h.total_equity_krw)) bad_holdings
        raise_if
            (not (
              n.equal
                (n.plus (n.plus h.cash_krw h.market_value_krw)
                  (n.of_int h.other_position_value_krw))
                h.total_equity_krw))
            bad_holdings
        raise_if
            (if n.equal (n.of_int h.quantity) env.zero
              then not (n.equal h.market_value_krw env.zero)
              else n.equal h.market_value_krw env.zero)
            bad_holdings
        raise_if
            (n.less n.exposure_tolerance (
              n.magnitude (
                n.minus h.current_exposure_pct
                  (n.percentage h.market_value_krw h.total_equity_krw))))
            bad_holdings
        ok h

  -- `_sanitize_policy_limits`
  unfoldable pub sanitize_policy_limits : V → Result ProposalError V
  sanitize_policy_limits v =
      let n = env.numbers in
      do
        require_finite v bad_policy
        raise_if (not (n.less env.zero v) || n.less env.hundred v) bad_policy
        or_raise (n.to_float v) overflow

  -- The copy of `_normalize_feature_output` has only finite values.
  unfoldable pub is_normal : EngineFeature V → Bool
  is_normal f = elim f.value [
    | none ↦ true
    | some v ↦ elim (env.numbers.is_finite v) [ none ↦ false | some finite ↦ finite ]
  ]

  -- `_normalize_feature_output`
  unfoldable pub normalize_feature_output : SymbolFeatureOutput V → Option (SymbolFeatureOutput V)
  unfolding is_normal
  normalize_feature_output output =
      if all is_normal (rows_of output.groups group_order) then some output else none

  -- `reason`, before the snapshot's hash
  unfoldable pub eligibility : SymbolFeatureOutput V → Timestamp → Option AbstainReason
  unfolding normalize_feature_output
  eligibility output cutoff = elim (normalize_feature_output output) [
    | none ↦ some data_snapshot_invalid
    | some copy ↦ pre_model_abstain_reason env.votes env.canonical_output_id copy cutoff
  ]

  abbrev pub is_invalid_snapshot : Option AbstainReason → Bool
  is_invalid_snapshot (some data_snapshot_invalid) = true
  is_invalid_snapshot reason = false

  -- The reason and the hash of the snapshot that the request attests.
  unfoldable pub attest_snapshot :
      Option String
      → Option AbstainReason
      → String
      → Result ProposalError (Option AbstainReason × String)
  attest_snapshot none reason supplied = ok (some data_snapshot_invalid, env.unserializable_sha256)
  attest_snapshot (some canonical) reason supplied = do
    raise_if (not (is_invalid_snapshot reason) && not (str_eq supplied canonical)) bad_snapshot_hash
    ok (reason, canonical)

  -- The request with its catalog, whose ids must be unique.
  unfoldable pub assemble_request :
      SymbolFeatureOutput V
      → Identity
      → Lineage
      → Option AbstainReason
      → V
      → Holdings V
      → Result ProposalError (Request V)
  assemble_request output identity lineage reason cap held =
      let catalog =
        lineage_anchor env lineage
        ∷ (if is_invalid_snapshot reason then [] else snapshot_evidence env output lineage) in
      do
        raise_if (has_duplicate (map (λ e. e.id) catalog)) bad_catalog
        ok (record {
          identity = identity;
          lineage = lineage;
          pre_model_abstain_reason = reason;
          max_target_exposure_pct = cap;
          holdings = held;
          evidence_catalog = catalog;
        })

  -- `build_proposal_request`; the keyword arguments are in the source's order.
  unfoldable pub build_proposal_request :
      SymbolFeatureOutput V
      → Holdings V
      → V
      → String
      → String
      → String
      → String
      → String
      → Timestamp
      → Result ProposalError (Request V)
  unfolding normalize_feature_output eligibility attest_snapshot assemble_request
  build_proposal_request output holdings limit provider name run decision sha256 cutoff =
      let copy = normalize_feature_output output in
      let identity = identity_of output.symbol provider name in
      do
        raise_if (is_blank provider) bad_request
        raise_if (is_blank name) bad_request
        raise_if (is_blank run) bad_request
        raise_if (is_blank decision) bad_request
        raise_if (not (is_sha256 sha256)) bad_request
        parsed ← or_raise (aware cutoff.reading) bad_request
        held ← sanitize_holdings holdings output.symbol
        cap ← sanitize_policy_limits limit
        attested ←
            attest_snapshot (elim copy [ none ↦ none | some c ↦ env.snapshot_sha256 c ])
              (eligibility output cutoff) sha256
        let lineage : Lineage = record {
          symbol = output.symbol;
          ksf_run_id = run;
          ksf_decision_id = decision;
          feature_snapshot_sha256 = attested.1;
          request_binding_sha256 =
              env.request_binding_sha256 identity run decision attested.1 cutoff.text held cap;
          available_data_cutoff = cutoff.text;
        }
        assemble_request output identity lineage attested.0 cap held
