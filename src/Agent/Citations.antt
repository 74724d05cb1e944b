-- ===== src/Agent/Citations.antt =====
-- `_validate_evidence_ids` of strategy/paper_agent.py, and the loop of `validate_proposal` over
-- the invalidation conditions. Also how a list of ids or conditions is written as a value.
use kronos_stock.Common.{
  String, List, [], ◌∷◌, not, ◌==◌, Option, none, some, Result, ok, err, raise_if, or_raise, ◌>>=◌,
  ◌>>◌, all, map, length,
}
use kronos_stock.Common.Text.{one_of, has_duplicate}
use kronos_stock.Agent.Json.{
  Json, string, array, object, member, no_members, Members, items_of, to_items, names, lookup,
  same_names, is_blank,
}
use kronos_stock.Agent.Records.{Condition, ProposalError, bad_evidence, bad_conditions}

-- The ids, that the checks let pass.
unfoldable pub check_ids : List String → List String → Result ProposalError (List String)
check_ids catalog_ids ids = do
  raise_if (length ids == 0) bad_evidence
  raise_if (has_duplicate ids) bad_evidence
  raise_if (not (all (λ i. one_of i catalog_ids) ids)) bad_evidence
  ok ids

module _ {V : Type 0} where
  -- The texts of a list of texts.
  unfoldable pub strings : List (Json V) → Option (List String)
  strings [] = some []
  strings (string s ∷ js) = elim (strings js) [ none ↦ none | some ss ↦ some (s ∷ ss) ]
  strings (j ∷ js) = none

  -- A value that must be a list, or a text that is not blank.
  unfoldable pub read_list : ProposalError → Json V → Result ProposalError (List (Json V))
  unfolding items_of
  read_list e (array js) = ok (items_of js)
  read_list e j = err e

  unfoldable pub read_text : ProposalError → Json V → Result ProposalError String
  unfolding is_blank
  read_text e (string s) = do raise_if (is_blank s) e; ok s
  read_text e j = err e

  -- A value that must be an object with exactly these keys.
  unfoldable pub read_object :
      ProposalError → List String → Json V → Result ProposalError (Members V)
  unfolding same_names names
  read_object e keys (object ms) = do raise_if (not (same_names (names ms) keys)) e; ok ms
  read_object e keys j = err e

  -- `_validate_evidence_ids`
  unfoldable pub validate_evidence_ids : List String → Json V → Result ProposalError (List String)
  unfolding read_list strings check_ids
  validate_evidence_ids catalog_ids j = do
    js ← read_list bad_evidence j
    ids ← or_raise (strings js) bad_evidence
    check_ids catalog_ids ids

  -- An item of `invalidation_conditions`.
  unfoldable pub read_condition : List String → Json V → Result ProposalError Condition
  unfolding read_object read_text validate_evidence_ids lookup
  read_condition catalog_ids j = do
    ms ← read_object bad_conditions ("text" ∷ "evidence_ids" ∷ []) j
    t ← or_raise (lookup "text" ms) bad_conditions
    s ← read_text bad_conditions t
    i ← or_raise (lookup "evidence_ids" ms) bad_conditions
    ids ← validate_evidence_ids catalog_ids i
    ok (record { text = s; evidence_ids = ids })

  -- Its loop.
  unfoldable pub read_conditions :
      List String → List (Json V) → Result ProposalError (List Condition)
  unfolding read_condition
  read_conditions catalog_ids [] = ok []
  read_conditions catalog_ids (j ∷ js) = do
    c ← read_condition catalog_ids j
    cs ← read_conditions catalog_ids js
    ok (c ∷ cs)

  -- `invalidation_conditions`, which must not be empty
  unfoldable pub validate_conditions : List String → Json V → Result ProposalError (List Condition)
  unfolding read_list read_conditions
  validate_conditions catalog_ids j = do
    js ← read_list bad_conditions j
    raise_if (length js == 0) bad_conditions
    read_conditions catalog_ids js

  unfoldable pub ids_json : List String → Json V
  unfolding to_items
  ids_json ids = array (to_items (map string ids))

  unfoldable pub condition_json : Condition → Json V
  unfolding ids_json
  condition_json c =
      object
        (member "text" (string c.text) (member "evidence_ids" (ids_json c.evidence_ids) no_members))
