-- ===== src/Agent/Records.antt =====
-- The constants and records of strategy/paper_agent.py: what a proposal may say, the evidence that
-- it may cite, and the request that it answers.
use kronos_stock.Common.{
  ℕ, String, List, [], ◌∷◌, Bool, true, false, Option, none, some, if◌then◌else◌, str_eq,
}
use kronos_stock.Common.Int.{ℤ}
use kronos_stock.Symbols.{Symbol, s005930, s000660, Action, enter, hold, reduce, exit, abstain}
use kronos_stock.Features.Records.{
  Group, domestic_investor_flow, price_volume, global_memory_price, ai_hbm_demand,
  semiconductor_regime, fx_market, event, Status, ready, stale, missing_required, missing_optional,
  license_blocked,
}
use kronos_stock.Features.Eligibility.{
  AbstainReason, data_missing_required, data_stale_required, data_restricted_required,
  data_cutoff_inconsistent, data_snapshot_invalid, scoring_not_allowed,
}

abbrev pub symbol_text : Symbol → String
symbol_text s005930 = "005930"
symbol_text s000660 = "000660"

abbrev pub group_text : Group → String
group_text domestic_investor_flow = "domestic_investor_flow"
group_text price_volume = "price_volume"
group_text global_memory_price = "global_memory_price"
group_text ai_hbm_demand = "ai_hbm_demand"
group_text semiconductor_regime = "semiconductor_regime"
group_text fx_market = "fx_market"
group_text event = "event"

abbrev pub status_text : Status → String
status_text ready = "READY"
status_text stale = "STALE"
status_text missing_required = "MISSING_REQUIRED"
status_text missing_optional = "MISSING_OPTIONAL"
status_text license_blocked = "LICENSE_BLOCKED"

abbrev pub action_text : Action → String
action_text enter = "ENTER"
action_text hold = "HOLD"
action_text reduce = "REDUCE"
action_text exit = "EXIT"
action_text abstain = "ABSTAIN"

abbrev pub actions : List Action
actions = enter ∷ hold ∷ reduce ∷ exit ∷ abstain ∷ []

-- `ABSTAIN_REASONS`
pub data Reason : Type 0 where
  data_ineligible : AbstainReason → Reason
  model_timeout model_provider_error model_output_invalid no_edge offline_shadow_mode : Reason

abbrev pub reason_text : Reason → String
reason_text (data_ineligible data_missing_required) = "DATA_MISSING_REQUIRED"
reason_text (data_ineligible data_stale_required) = "DATA_STALE_REQUIRED"
reason_text (data_ineligible data_restricted_required) = "DATA_RESTRICTED_REQUIRED"
reason_text (data_ineligible data_cutoff_inconsistent) = "DATA_CUTOFF_INCONSISTENT"
reason_text (data_ineligible data_snapshot_invalid) = "DATA_SNAPSHOT_INVALID"
reason_text (data_ineligible scoring_not_allowed) = "SCORING_NOT_ALLOWED"
reason_text model_timeout = "MODEL_TIMEOUT"
reason_text model_provider_error = "MODEL_PROVIDER_ERROR"
reason_text model_output_invalid = "MODEL_OUTPUT_INVALID"
reason_text no_edge = "NO_EDGE"
reason_text offline_shadow_mode = "OFFLINE_SHADOW_MODE"

abbrev pub reasons : List Reason
reasons =
    data_ineligible data_missing_required
    ∷ data_ineligible data_stale_required
    ∷ data_ineligible data_restricted_required
    ∷ data_ineligible data_cutoff_inconsistent
    ∷ data_ineligible data_snapshot_invalid
    ∷ data_ineligible scoring_not_allowed
    ∷ model_timeout
    ∷ model_provider_error
    ∷ model_output_invalid
    ∷ no_edge
    ∷ offline_shadow_mode
    ∷ []

-- The member of a list of constants that a text spells.
unfoldable pub spelled : {A : Type 0} → (A → String) → String → List A → Option A
spelled spelling s [] = none
spelled spelling s (a ∷ as') =
    let rest = spelled spelling s as' in if str_eq (spelling a) s then some a else rest

-- `MODEL_ABSTAIN_REASONS`
abbrev pub is_model_reason : Reason → Bool
is_model_reason no_edge = true
is_model_reason _ = false

-- `_ABSTAIN_THESES`
abbrev pub abstain_thesis : Reason → String
abstain_thesis (data_ineligible data_missing_required) = "필수 입력 데이터가 없어 단일 종목 제안을 보류합니다."
abstain_thesis (data_ineligible data_stale_required) = "필수 입력 데이터가 최신 상태가 아니어서 단일 종목 제안을 보류합니다."
abstain_thesis (data_ineligible data_restricted_required) = "필수 입력 데이터 사용이 제한되어 단일 종목 제안을 보류합니다."
abstain_thesis (data_ineligible data_cutoff_inconsistent) = "데이터 기준 시점이 일치하지 않아 단일 종목 제안을 보류합니다."
abstain_thesis (data_ineligible data_snapshot_invalid) =
    "피처 스냅샷이 표준 계약 검증을 통과하지 못해 단일 종목 제안을 보류합니다."
abstain_thesis (data_ineligible scoring_not_allowed) = "스코어링이 허용되지 않는 상태여서 단일 종목 제안을 보류합니다."
abstain_thesis model_timeout = "모델 응답 시간 초과로 단일 종목 제안을 보류합니다."
abstain_thesis model_provider_error = "모델 제공자 오류로 단일 종목 제안을 보류합니다."
abstain_thesis model_output_invalid = "모델 출력이 계약 검증을 통과하지 못해 단일 종목 제안을 보류합니다."
abstain_thesis no_edge = "모델이 판단 우위를 확인하지 못해 단일 종목 제안을 보류합니다."
abstain_thesis offline_shadow_mode = "오프라인 결정론적 섀도 모드이므로 단일 종목 제안을 보류합니다."

abbrev pub abstain_invalidation_text : String
abstain_invalidation_text = "판단 자격이 회복되고 검증된 최신 근거가 제공되면 이 보류를 재검토합니다."

-- `_ACTION_THESES`; an ABSTAIN has none.
abbrev pub action_thesis : Action → Option String
action_thesis enter = some "요청에 결속된 검증 근거에 따라 이 종목의 노출 확대를 제안합니다."
action_thesis hold = some "요청에 결속된 검증 근거에 따라 이 종목의 현재 노출 유지를 제안합니다."
action_thesis reduce = some "요청에 결속된 검증 근거에 따라 이 종목의 노출 축소를 제안합니다."
action_thesis exit = some "요청에 결속된 검증 근거에 따라 이 종목의 노출 정리를 제안합니다."
action_thesis abstain = none

abbrev pub invalidation_text : String
invalidation_text = "인용한 근거의 검증 상태가 변하면 이 제안을 무효로 재검토합니다."

-- `IDENTITY_KEYS`, and the three versions that the code fixes.
pub record Identity : Type 0 where
  pub symbol : Symbol
  pub response_schema_version : String
  pub prompt_template_version : String
  pub model_policy_version : String
  pub model_provider : String
  pub model_name : String

abbrev pub identity_of : Symbol → String → String → Identity
identity_of symbol provider name = record {
  symbol = symbol;
  response_schema_version = "kronos-paper-proposal-v2";
  prompt_template_version = "kronos-paper-proposal-prompt-v1";
  model_policy_version = "kronos-paper-single-symbol-policy-v1";
  model_provider = provider;
  model_name = name;
}

pub record Holdings (V : Type 0) : Type 0 where
  pub symbol : Symbol
  pub cash_krw : V
  pub quantity : ℤ
  pub market_value_krw : V
  pub other_position_value_krw : ℤ
  pub total_equity_krw : V
  pub current_exposure_pct : V

pub record Lineage : Type 0 where
  pub symbol : Symbol
  pub ksf_run_id : String
  pub ksf_decision_id : String
  pub feature_snapshot_sha256 : String
  pub request_binding_sha256 : String
  pub available_data_cutoff : String

pub data EvidenceKind : Type 0 where
  feature group_contribution data_gap request_lineage : EvidenceKind

-- An evidence item without its id.
pub record EvidenceBody (V : Type 0) : Type 0 where
  pub kind : EvidenceKind
  pub lineage : Lineage
  pub feature_name : Option String
  pub feature_group : Option String
  pub source_feature_group : Option String
  pub status : String
  pub as_of : String
  pub value : Option V
  pub unit : Option String
  pub missing_reason : Option String
  pub contribution_bps : Option ℤ
  pub cap_bps : Option ℕ

pub record Evidence (V : Type 0) : Type 0 where
  pub body : EvidenceBody V
  pub id : String

-- The parts of a request that the boundary reads back.
pub record Request (V : Type 0) : Type 0 where
  pub identity : Identity
  pub lineage : Lineage
  pub pre_model_abstain_reason : Option AbstainReason
  pub max_target_exposure_pct : V
  pub holdings : Holdings V
  pub evidence_catalog : List (Evidence V)

pub record Condition : Type 0 where
  pub text : String
  pub evidence_ids : List String

-- `evidence_ids` of a gap is a list of the one id.
pub record Gap : Type 0 where
  pub feature_name : Option String
  pub feature_group : Option String
  pub status : String
  pub as_of : String
  pub text : String
  pub evidence_id : String

pub record Proposal (V : Type 0) : Type 0 where
  pub identity : Identity
  pub action : Action
  pub target_exposure_pct : V
  pub confidence_bps : ℕ
  pub thesis : String
  pub evidence_ids : List String
  pub invalidation_conditions : List Condition
  pub data_gaps : List Gap
  pub abstain_reason : Option Reason

-- What the boundary raises, by the check that fails; `overflow` is an `OverflowError`, `too_deep`
-- a `RecursionError`, all else is a `ValueError` or a `TypeError`.
pub data ProposalError : Type 0 where
  bad_json bad_keys bad_identity bad_action bad_target bad_confidence bad_thesis : ProposalError
  bad_catalog bad_evidence bad_conditions bad_gaps forbidden_prose bad_reason : ProposalError
  bad_copy uncited above_limit bad_hold bad_enter no_position bad_reduce bad_exit : ProposalError
  bad_request bad_holdings bad_policy bad_snapshot_hash overflow too_deep : ProposalError

-- `except (ValueError, TypeError, KeyError)` does not catch it.
abbrev pub escapes : ProposalError → Bool
escapes overflow = true
escapes too_deep = true
escapes _ = false
