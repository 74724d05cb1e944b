-- ===== src/Agent/Tests.antt =====
-- The boundary with natural numbers for Python's, and its proposals for the snapshot of the feature
-- tests: an ENTER of a quarter of the portfolio.
use Prim.Native.String.{◌++◌ as str_append}
use kronos_stock.Common.{
  ℕ, ◌+◌, ◌-◌, ◌*◌, ◌/◌, ◌==◌, ltb, String, [], ◌∷◌, ◌≡◌, refl, true, false, Option, none, some, ok,
  err, IfOk, Returns, if◌then◌else◌, ◌≢◌, Result, arith,
}
use kronos_stock.Common.Int.{pos, negsuc}
use kronos_stock.Symbols.{s005930, enter, abstain, Action}
use kronos_stock.Features.Tests.{whole_numbers, taken_at, snapshot, snapshot_id}
use kronos_stock.Agent.Json.{PythonNumbers, is_blank, names, same_names, lookup, to_items, items_of}
use kronos_stock.Agent.Records.{
  identity_of, Holdings, Lineage, EvidenceKind, feature, group_contribution, data_gap,
  request_lineage, Request, Proposal, invalidation_text, overflow, Reason, data_ineligible,
  model_timeout, model_provider_error, model_output_invalid, no_edge, offline_shadow_mode,
  abstain_thesis, ProposalError, spelled,
}
use kronos_stock.Agent.Boundary.{
  Boundary, is_forbidden, finds_numeric_token, validate_prose, not_json,
}
use kronos_stock.Agent.Evidence.{
  lineage_anchor, snapshot_evidence, evidence_item, groups_evidence, feature_evidence, gap_evidence,
  distinct, unavailable_evidence, is_gap,
}
use kronos_stock.Agent.Request.{
  build_proposal_request, sanitize_holdings, require_amount, sanitize_policy_limits,
  attest_snapshot, normalize_feature_output, is_normal, eligibility, assemble_request,
}
use kronos_stock.Agent.Validate.{
  proposal_json, model, read_payload, check_identity, read_action, read_target, read_confidence,
  check_exposure, action_terms, check_action, check_terms, validate_proposal,
}
use kronos_stock.Agent.Propose.{returned, Response, propose, recover, answer, respond, propose_on}
use kronos_stock.Common.Time.{aware, is_sha256, str_lt, nine_hours}
use kronos_stock.Common.Text.{has_duplicate, sorted_names, ends_with, same_texts, starts_with}
use kronos_stock.Common.Sorting.{sort_by}
use kronos_stock.Features.Scoring.{
  contribution_bps, target_group, raw_vote, signal_bps, vote_of, votes_of, sum_from,
}
use kronos_stock.Features.Eligibility.{
  pre_model_abstain_reason, structural_problem, groups_problem, derive_missing_required,
  is_unavailable, find_row, rows_of, derive_stale_required, is_outdated, derive_missing_optional,
  derive_license_blocked, derive_state, late_feature, null_problem, timestamp_problem,
  feature_problem, features_problem, data_missing_required, data_stale_required,
  data_restricted_required, data_cutoff_inconsistent, data_snapshot_invalid, scoring_not_allowed,
}
use kronos_stock.Features.Eligible.{IsEligible}
use kronos_stock.Agent.Citations.{
  strings, read_list, read_text, read_object, check_ids, validate_evidence_ids, read_condition,
  read_conditions, validate_conditions, ids_json, condition_json,
}
use kronos_stock.Agent.Gaps.{
  gap_text, gap_from_evidence, find_evidence, read_gaps, remaining_gaps, normalize_data_gaps,
  gap_json,
}
use kronos_stock.Agent.Terms.{FloatLaws}
use kronos_stock.Agent.Final.{HasCleanGaps}
use kronos_stock.Agent.FailClosed.{IsServed, IsFinal, Answers}
use kronos_stock.Agent.Acting.{IsWithinTerms}
use kronos_stock.Agent.Proposing.{propose-IsFinal, propose-IsWithinTerms}
use kronos_stock.Agent.Overflow.{propose-Returns, IsReadable}

-- Numbers above the bound have no float.
abbrev numbers_below : ℕ → PythonNumbers ℕ
numbers_below bound = record {
  is_finite = λ v. if ltb bound v then none else some true;
  to_float = λ v. if ltb bound v then none else some v;
  as_int = λ v. some (pos v);
  of_int = elim [ pos n ↦ n | negsuc n ↦ 0 ];
  less = ltb;
  equal = ◌==◌;
  plus = ◌+◌;
  minus = ◌-◌;
  magnitude = λ v. v;
  percentage = λ a b. a * 100 / b;
  exposure_tolerance = 0;
  pct_tolerance = 0;
}

abbrev whole : PythonNumbers ℕ
whole = record {
  is_finite = λ v. some true;
  to_float = λ v. some v;
  as_int = λ v. some (pos v);
  of_int = elim [ pos n ↦ n | negsuc n ↦ 0 ];
  less = ltb;
  equal = ◌==◌;
  plus = ◌+◌;
  minus = ◌-◌;
  magnitude = λ v. v;
  percentage = λ a b. a * 100 / b;
  exposure_tolerance = 0;
  pct_tolerance = 0;
}

abbrev kind_text : EvidenceKind → String
kind_text feature = "feature:"
kind_text group_contribution = "group:"
kind_text data_gap = "gap:"
kind_text request_lineage = "lineage:"

abbrev or_empty : Option String → String
or_empty none = ""
or_empty (some s) = s

abbrev sha : String
sha = "00000000000000000000000000000000000000000000000000000000000000aa"

abbrev boundary_of : PythonNumbers ℕ → Boundary ℕ
boundary_of n = record {
  numbers = n;
  votes = whole_numbers;
  zero = 0;
  hundred = 100;
  loads = λ s. not_json;
  copies_too_deep = λ j. false;
  canonical_output_id = snapshot_id;
  snapshot_sha256 = λ o. some sha;
  unserializable_sha256 = "unserializable";
  request_binding_sha256 = λ i r d s c h v. "binding";
  evidence_id = λ b.
      str_append (kind_text b.kind)
        (str_append (or_empty b.feature_group) (str_append ":" (or_empty b.feature_name)));
  finds_comparison = λ s. false;
  finds_invented_claim = λ s. false;
  contains_folded = λ s t. false;
}

abbrev boundary : Boundary ℕ
boundary = boundary_of whole

abbrev flat : Holdings ℕ
flat = record {
  symbol = s005930;
  cash_krw = 1_000_000;
  quantity = pos 0;
  market_value_krw = 0;
  other_position_value_krw = pos 0;
  total_equity_krw = 1_000_000;
  current_exposure_pct = 0;
}

abbrev lineage : Lineage
lineage = record {
  symbol = s005930;
  ksf_run_id = "run";
  ksf_decision_id = "decision";
  feature_snapshot_sha256 = sha;
  request_binding_sha256 = "binding";
  available_data_cutoff = (taken_at 150).text;
}

abbrev request : Request ℕ
request = record {
  identity = identity_of s005930 "provider" "name";
  lineage = lineage;
  pre_model_abstain_reason = none;
  max_target_exposure_pct = 50;
  holdings = flat;
  evidence_catalog = lineage_anchor boundary lineage ∷ snapshot_evidence boundary snapshot lineage;
}

built :
    build_proposal_request boundary snapshot flat 50 "provider" "name" "run" "decision" sha
      (taken_at 150)
    ≡ ok request
unfolding build_proposal_request is_blank is_sha256 aware sanitize_holdings require_amount
    sanitize_policy_limits attest_snapshot normalize_feature_output is_normal eligibility
    assemble_request snapshot_evidence has_duplicate lineage_anchor evidence_item groups_evidence
    feature_evidence gap_evidence distinct sorted_names sort_by str_lt pre_model_abstain_reason
    structural_problem groups_problem ends_with same_texts derive_missing_required is_unavailable
    find_row rows_of derive_stale_required is_outdated derive_missing_optional
    derive_license_blocked derive_state contribution_bps starts_with nine_hours late_feature
    null_problem timestamp_problem target_group raw_vote signal_bps vote_of votes_of sum_from
    feature_problem features_problem
built = refl

laws : FloatLaws boundary
laws = record {
  finite_float = λ v w f e. f;
  finite_defined = λ v e h. cc;
  float_again = λ v w e. refl;
  shallow = λ p. refl;
  above_zero = λ v w e h. ground arith;
  below_hundred = λ v w e h. ground arith;
  int_value = λ n. refl;
  zero_finite = refl;
  zero_float = refl;
  zero_equal = refl;
  zero_range = (refl, refl);
}

clean_theses : (r : Reason) → is_forbidden boundary s005930 (abstain_thesis r) ≡ false
unfolding is_forbidden finds_numeric_token
clean_theses (data_ineligible data_missing_required) = refl
clean_theses (data_ineligible data_stale_required) = refl
clean_theses (data_ineligible data_restricted_required) = refl
clean_theses (data_ineligible data_cutoff_inconsistent) = refl
clean_theses (data_ineligible data_snapshot_invalid) = refl
clean_theses (data_ineligible scoring_not_allowed) = refl
clean_theses model_timeout = refl
clean_theses model_provider_error = refl
clean_theses model_output_invalid = refl
clean_theses no_edge = refl
clean_theses offline_shadow_mode = refl

clean_gaps : HasCleanGaps boundary request
unfolding is_forbidden finds_numeric_token unavailable_evidence is_gap snapshot_evidence gap_text
    lineage_anchor evidence_item groups_evidence feature_evidence gap_evidence distinct sorted_names
    sort_by str_lt rows_of
clean_gaps = (refl, (refl, (refl, (refl, (refl, (refl, tt))))))

served : IsServed boundary request
unfolding is_forbidden finds_numeric_token
served = record {
  laws = laws;
  copy = record { thesis = clean_theses; invalidation = refl };
  gaps = clean_gaps;
}

-- ENTER at a quarter of the portfolio, that cites the vote of a group.
abbrev entry : Proposal ℕ
entry = record {
  identity = request.identity;
  action = enter;
  target_exposure_pct = 25;
  confidence_bps = 6_000;
  thesis = "요청에 결속된 검증 근거에 따라 이 종목의 노출 확대를 제안합니다.";
  evidence_ids = "group:price_volume:" ∷ [];
  invalidation_conditions =
      record { text = invalidation_text; evidence_ids = "lineage::" ∷ [] } ∷ [];
  data_gaps = [];
  abstain_reason = none;
}

abbrev answering : Request ℕ → Response ℕ
answering req = returned (proposal_json boundary entry)

propose-IsFinal_example : Answers boundary (IsFinal boundary request) (
    propose boundary answering snapshot flat 50 "provider" "name" "run" "decision" sha
      (taken_at 150))
propose-IsFinal_example =
    propose-IsFinal boundary answering snapshot flat 50 "provider" "name" "run" "decision" sha
      (taken_at 150) request built served

propose-IsWithinTerms_example :
    IfOk
      (propose boundary answering snapshot flat 50 "provider" "name" "run" "decision" sha
        (taken_at 150))
      (λ p.
        p.action ≢ abstain
        → IsEligible snapshot_id snapshot (taken_at 150) × IsWithinTerms boundary request p)
propose-IsWithinTerms_example =
    propose-IsWithinTerms boundary answering snapshot flat 50 "provider" "name" "run" "decision" sha
      (taken_at 150) request built

-- The entry is a mapping that can be copied, with a target that is finite.
entry-IsReadable : IsReadable boundary (proposal_json boundary entry)
unfolding proposal_json
entry-IsReadable = record { shallow = refl; target = λ payload v read e h. cc }

propose-Returns_example :
    Returns
      (propose boundary answering snapshot flat 50 "provider" "name" "run" "decision" sha
        (taken_at 150))
      (λ p.
        p.action ≢ abstain
        → IsEligible snapshot_id snapshot (taken_at 150) × IsWithinTerms boundary request p)
propose-Returns_example =
    propose-Returns boundary answering snapshot flat 50 "provider" "name" "run" "decision" sha
      (taken_at 150) request built served.laws entry-IsReadable

proposed_action : Result ProposalError (Proposal ℕ) → Option Action
proposed_action (ok p) = some p.action
proposed_action (err e) = none

-- The entry passes the boundary.
entry_passes : proposed_action (propose_on boundary answering request) ≡ some enter
unfolding proposed_action propose_on respond answer recover validate_proposal read_payload
    read_object names same_names check_identity lookup read_text validate_prose check_terms
    check_action action_terms check_exposure read_action read_target read_confidence
    validate_evidence_ids read_list strings check_ids validate_conditions read_conditions
    read_condition normalize_data_gaps read_gaps remaining_gaps proposal_json ids_json
    condition_json gap_json to_items items_of has_duplicate spelled find_evidence snapshot_evidence
    lineage_anchor evidence_item groups_evidence is_blank feature_evidence gap_evidence distinct
    sorted_names sort_by str_lt rows_of is_forbidden finds_numeric_token unavailable_evidence is_gap
    gap_from_evidence gap_text
entry_passes = refl

-- A target that no float holds: the model's answer makes the boundary raise.
overflow_escapes :
    validate_proposal
      (boundary_of (numbers_below 1_000))
      model
      (proposal_json
        (boundary_of (numbers_below 1_000))
        (record entry { target_exposure_pct = 2_000 }))
      request
    ≡ err overflow
unfolding validate_proposal read_payload read_object names same_names check_identity lookup
    read_action read_target spelled proposal_json ids_json condition_json gap_json to_items
overflow_escapes = refl
