-- ===== src/Agent/Validate.antt =====
-- `validate_proposal` of strategy/paper_agent.py, in both of its modes. How a finished proposal is
-- written as a value.
use kronos_stock.Common.{
  ℕ, String, List, [], ◌∷◌, ◌++◌, Bool, true, false, not, ◌&&◌, ◌||◌, ◌==◌, Option, none, some,
  Result, ok, err, raise_if, or_raise, ◌>>=◌, ◌>>◌, ltb, any, all, map, str_eq,
}
use kronos_stock.Common.Int.{ℤ, pos, ltb_ℤ}
use kronos_stock.Common.Text.{has_duplicate}
use kronos_stock.Symbols.{Action, enter, hold, reduce, exit, abstain}
use kronos_stock.Agent.Json.{
  Json, null, number, string, array, object, member, no_members, Members, to_items, lookup,
}
use kronos_stock.Agent.Records.{
  symbol_text, action_text, actions, Reason, reason_text, reasons, spelled, is_model_reason,
  abstain_thesis, abstain_invalidation_text, action_thesis, invalidation_text, Identity, Request,
  Evidence, Condition, Proposal, ProposalError, bad_json, bad_keys, bad_identity, bad_action,
  bad_target, bad_confidence, bad_thesis, bad_catalog, bad_reason, bad_copy, uncited, above_limit,
  bad_hold, bad_enter, no_position, bad_reduce, bad_exit, overflow, too_deep,
}
use kronos_stock.Agent.Boundary.{
  Boundary, validate_prose, Loaded, parsed, not_json, nested_too_deep,
}
use kronos_stock.Agent.Evidence.{unavailable_evidence, is_substantive}
use kronos_stock.Agent.Citations.{
  read_text, read_object, validate_evidence_ids, validate_conditions, ids_json, condition_json,
}
use kronos_stock.Agent.Gaps.{is_text, find_evidence, normalize_data_gaps, gap_json}

pub data Mode : Type 0 where
  model final : Mode

-- `PROPOSAL_KEYS`
abbrev pub proposal_keys : List String
proposal_keys =
    "symbol" ∷ "response_schema_version" ∷ "prompt_template_version" ∷ "model_policy_version"
    ∷ "model_provider" ∷ "model_name" ∷ "action" ∷ "target_exposure_pct" ∷ "confidence_bps"
    ∷ "thesis" ∷ "evidence_ids" ∷ "invalidation_conditions" ∷ "data_gaps" ∷ "abstain_reason" ∷ []

-- The reasons of the mode.
abbrev pub allows : Mode → Reason → Bool
allows model r = is_model_reason r
allows final r = true

-- The texts of `_ABSTAIN_INVALIDATION_TEXT`, or of `_INVALIDATION_TEXT`, alone.
abbrev pub all_texts : String → List Condition → Bool
all_texts s cs = all (λ c. str_eq c.text s) cs

module _ {V : Type 0} (env : Boundary V) where
  abbrev as_members : Json V → Result ProposalError (Members V)
  as_members j = read_object bad_keys proposal_keys j

  abbrev pub decode : Loaded V → Result ProposalError (Json V)
  decode (parsed j) = ok j
  decode not_json = err bad_json
  decode nested_too_deep = err too_deep

  -- The payload: JSON text, or a mapping, which is copied.
  unfoldable pub read_payload : Json V → Result ProposalError (Members V)
  read_payload (string s) = do j ← decode (env.loads s); as_members j
  read_payload (object ms) = do
    raise_if (env.copies_too_deep (object ms)) too_deep
    as_members (object ms)
  read_payload j = as_members j

  -- `payload[key]`
  abbrev pub field : Members V → String → Result ProposalError (Json V)
  field payload key = or_raise (lookup key payload) bad_keys

  abbrev same : Members V → String → String → Result ProposalError (Unit {0})
  same payload key expected = do
    j ← field payload key
    raise_if (not (is_text expected j)) bad_identity

  -- The loop over `IDENTITY_KEYS`.
  unfoldable pub check_identity : Identity → Members V → Result ProposalError (Unit {0})
  unfolding lookup
  check_identity i payload = do
    same payload "symbol" (symbol_text i.symbol)
    same payload "response_schema_version" i.response_schema_version
    same payload "prompt_template_version" i.prompt_template_version
    same payload "model_policy_version" i.model_policy_version
    same payload "model_provider" i.model_provider
    same payload "model_name" i.model_name

  unfoldable pub read_action : Json V → Result ProposalError Action
  unfolding spelled
  read_action (string s) = or_raise (spelled action_text s actions) bad_action
  read_action j = err bad_action

  -- A number that is finite and between 0 and 100, as a float.
  unfoldable pub read_target : Json V → Result ProposalError V
  read_target (number v) = do
    finite ← or_raise (env.numbers.is_finite v) overflow
    raise_if (not finite || env.numbers.less v env.zero || env.numbers.less env.hundred v)
        bad_target
    or_raise (env.numbers.to_float v) overflow
  read_target j = err bad_target

  abbrev pub as_natural : Option ℤ → Option ℕ
  as_natural (some (pos n)) = some n
  as_natural z = none

  unfoldable pub read_confidence : Json V → Result ProposalError ℕ
  read_confidence (number v) = do
    n ← or_raise (as_natural (env.numbers.as_int v)) bad_confidence
    raise_if (ltb 10000 n) bad_confidence
    ok n
  read_confidence j = err bad_confidence

  -- The reason of an ABSTAIN.
  unfoldable pub read_reason : Mode → Json V → Result ProposalError Reason
  unfolding spelled
  read_reason stage (string s) = do
    r ← or_raise (spelled reason_text s reasons) bad_reason
    raise_if (not (allows stage r)) bad_reason
    ok r
  read_reason stage j = err bad_reason

  -- The terms of an ABSTAIN: its copy, and nothing that moves the position.
  unfoldable pub abstain_terms :
      String → List Condition → V → ℕ → Reason → Result ProposalError (Unit {0})
  abstain_terms thesis conditions target confidence r = do
    raise_if (not (str_eq thesis (abstain_thesis r))) bad_copy
    raise_if (not (all_texts abstain_invalidation_text conditions)) bad_copy
    raise_if (not (env.numbers.equal target env.zero)) bad_target
    raise_if (not (confidence == 0)) bad_confidence

  -- The branch of an ABSTAIN.
  unfoldable pub check_abstain :
      Mode → String → List Condition → V → ℕ → Json V → Result ProposalError (Option Reason)
  unfolding read_reason abstain_terms
  check_abstain stage thesis conditions target confidence j = do
    r ← read_reason stage j
    abstain_terms thesis conditions target confidence r
    ok (some r)

  abbrev pub is_substantive_id : List (Evidence V) → String → Bool
  is_substantive_id catalog id = elim (find_evidence id catalog) [
    | none ↦ false
    | some e ↦ is_substantive e
  ]

  -- The target of each action, with the current exposure and the quantity held.
  unfoldable pub check_exposure : Action → V → V → ℤ → Result ProposalError (Unit {0})
  check_exposure abstain target current quantity = ok tt
  check_exposure hold target current quantity =
      let n = env.numbers in
      raise_if (n.less n.pct_tolerance (n.magnitude (n.minus target current))) bad_hold
  check_exposure enter target current quantity =
      let n = env.numbers in
      raise_if (not (n.less (n.plus current n.pct_tolerance) target)) bad_enter
  check_exposure reduce target current quantity =
      let n = env.numbers in
      do
        raise_if (not (ltb_ℤ (pos 0) quantity)) no_position
        raise_if
            (not (n.less n.pct_tolerance target && n.less target (n.minus current n.pct_tolerance)))
            bad_reduce
  check_exposure exit target current quantity =
      let n = env.numbers in
      do
        raise_if (not (ltb_ℤ (pos 0) quantity)) no_position
        raise_if (not (n.equal target env.zero)) bad_exit

  abbrev pub is_canonical : Option String → String → Bool
  is_canonical none s = false
  is_canonical (some t) s = str_eq s t

  abbrev pub is_null : Json V → Bool
  is_null null = true
  is_null j = false

  -- The terms of an action other than ABSTAIN: its copy, a citation of a feature or a group, and
  -- its target.
  unfoldable pub action_terms :
      Request V
      → Action
      → String
      → List Condition
      → List String
      → V
      → Result ProposalError (Unit {0})
  unfolding find_evidence check_exposure
  action_terms req action thesis conditions ids target =
      let n = env.numbers in
      do
        raise_if (not (is_canonical (action_thesis action) thesis)) bad_copy
        raise_if (not (all_texts invalidation_text conditions)) bad_copy
        raise_if (not (any (is_substantive_id req.evidence_catalog) ids)) uncited
        current ← or_raise (n.to_float req.holdings.current_exposure_pct) overflow
        raise_if (n.less (n.plus req.max_target_exposure_pct n.pct_tolerance) target) above_limit
        check_exposure action target current req.holdings.quantity

  -- The branch of an action other than ABSTAIN.
  unfoldable pub check_action :
      Request V
      → Action
      → String
      → List Condition
      → List String
      → V
      → Json V
      → Result ProposalError (Option Reason)
  unfolding action_terms
  check_action req action thesis conditions ids target j = do
    raise_if (not (is_null j)) bad_reason
    action_terms req action thesis conditions ids target
    ok none

  -- The terms of the action.
  unfoldable pub check_terms :
      Mode
      → Request V
      → Action
      → String
      → List Condition
      → List String
      → V
      → ℕ
      → Json V
      → Result ProposalError (Option Reason)
  unfolding check_abstain check_action
  check_terms stage req abstain thesis conditions ids target confidence j =
      check_abstain stage thesis conditions target confidence j
  check_terms stage req action thesis conditions ids target confidence j =
      check_action req action thesis conditions ids target j

  -- `validate_proposal`
  unfoldable pub validate_proposal : Mode → Json V → Request V → Result ProposalError (Proposal V)
  unfolding read_payload check_identity read_action read_target read_confidence read_text
      validate_evidence_ids validate_conditions normalize_data_gaps validate_prose check_terms
  validate_proposal stage raw req =
      let catalog_ids = map (λ e. e.id) req.evidence_catalog in
      do
        payload ← read_payload raw
        check_identity req.identity payload
        action ← field payload "action" >>= read_action
        target ← field payload "target_exposure_pct" >>= read_target
        confidence ← field payload "confidence_bps" >>= read_confidence
        thesis ← field payload "thesis" >>= read_text bad_thesis
        raise_if (has_duplicate catalog_ids) bad_catalog
        ids ← field payload "evidence_ids" >>= validate_evidence_ids catalog_ids
        conditions ← field payload "invalidation_conditions" >>= validate_conditions catalog_ids
        gaps ←
            field payload "data_gaps"
            >>= normalize_data_gaps (unavailable_evidence req.evidence_catalog)
        validate_prose env (thesis ∷ (map (λ c. c.text) conditions ++ map (λ g. g.text) gaps.1))
            req.identity.symbol
        r ← field payload "abstain_reason"
        reason ← check_terms stage req action thesis conditions ids target confidence r
        ok (record {
          identity = req.identity;
          action = action;
          target_exposure_pct = target;
          confidence_bps = confidence;
          thesis = thesis;
          evidence_ids = ids;
          invalidation_conditions = conditions;
          data_gaps = gaps.0;
          abstain_reason = reason;
        })

  abbrev pub reason_json : Option Reason → Json V
  reason_json none = null
  reason_json (some r) = string (reason_text r)

  -- A finished proposal, as a value.
  unfoldable pub proposal_json : Proposal V → Json V
  unfolding ids_json condition_json gap_json to_items
  proposal_json p =
      let i = p.identity in
      object (
        member "symbol" (string (symbol_text i.symbol)) (
          member "response_schema_version" (string i.response_schema_version) (
            member "prompt_template_version" (string i.prompt_template_version) (
              member "model_policy_version" (string i.model_policy_version) (
                member "model_provider" (string i.model_provider) (
                  member "model_name" (string i.model_name) (
                    member "action" (string (action_text p.action)) (
                      member "target_exposure_pct" (number p.target_exposure_pct) (
                        member "confidence_bps" (number (env.numbers.of_int (pos p.confidence_bps)))
                          (member "thesis" (string p.thesis) (
                            member "evidence_ids" (ids_json p.evidence_ids) (
                              member "invalidation_conditions"
                                (array (to_items (map condition_json p.invalidation_conditions)))
                                (member "data_gaps" (array (to_items (map gap_json p.data_gaps))) (
                                  member "abstain_reason" (reason_json p.abstain_reason)
                                    no_members))))))))))))))
