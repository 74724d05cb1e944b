-- ===== src/Agent/Gaps.antt =====
-- `_gap_text`, `_gap_from_evidence` and `_normalize_data_gaps` of strategy/paper_agent.py.
use Prim.Native.String.{◌++◌ as str_append}
use kronos_stock.Common.{
  String, List, [], ◌∷◌, ◌++◌, Bool, true, false, not, Option, none, some, Result, ok, raise_if,
  or_raise, ◌>>=◌, ◌>>◌, if◌then◌else◌, str_eq, filter, map,
}
use kronos_stock.Common.Text.{one_of}
use kronos_stock.Agent.Json.{Json, null, string, object, member, no_members, lookup}
use kronos_stock.Agent.Records.{Evidence, Gap, ProposalError, bad_gaps}
use kronos_stock.Agent.Citations.{strings, read_list, read_text, read_object, ids_json}

-- `f"{name}"`
abbrev pub shown : Option String → String
shown none = "None"
shown (some s) = s

abbrev pub only : Option (List String) → Option String
only (some (s ∷ [])) = some s
only ids = none

-- `DATA_GAP_ITEM_KEYS`
abbrev pub data_gap_item_keys : List String
data_gap_item_keys =
    "feature_name" ∷ "feature_group" ∷ "status" ∷ "as_of" ∷ "text" ∷ "evidence_ids" ∷ []

module _ {V : Type 0} where
  -- `_gap_text`
  unfoldable pub gap_text : Evidence V → String
  gap_text e =
      str_append (shown e.body.feature_name)
        (str_append " 데이터 상태가 " (str_append e.body.status "입니다."))

  -- `_gap_from_evidence`
  unfoldable pub gap_from_evidence : Evidence V → Gap
  unfolding gap_text
  gap_from_evidence e = record {
    feature_name = e.body.feature_name;
    feature_group = e.body.feature_group;
    status = e.body.status;
    as_of = e.body.as_of;
    text = gap_text e;
    evidence_id = e.id;
  }

  -- `catalog_by_id[id]`
  unfoldable pub find_evidence : String → List (Evidence V) → Option (Evidence V)
  find_evidence id [] = none
  find_evidence id (e ∷ es) =
      let rest = find_evidence id es in if str_eq e.id id then some e else rest

  -- A text or null, as a value, and whether a value is it.
  abbrev pub optional_json : Option String → Json V
  optional_json none = null
  optional_json (some s) = string s

  abbrev pub is_text : String → Json V → Bool
  is_text s (string t) = str_eq t s
  is_text s j = false

  unfoldable pub is_optional : Option String → Json V → Bool
  is_optional none null = true
  is_optional none j = false
  is_optional (some s) j = is_text s j

  abbrev mirrors : (Json V → Bool) → Option (Json V) → Bool
  mirrors test none = false
  mirrors test (some j) = test j

  -- An item of `data_gaps`, after the items of the covered ids.
  unfoldable pub read_gap : List (Evidence V) → List String → Json V → Result ProposalError Gap
  unfolding strings read_list read_text read_object lookup find_evidence gap_from_evidence gap_text
      is_optional
  read_gap unavailable covered j = do
    ms ← read_object bad_gaps data_gap_item_keys j
    i ← or_raise (lookup "evidence_ids" ms) bad_gaps
    js ← read_list bad_gaps i
    id ← or_raise (only (strings js)) bad_gaps
    e ← or_raise (find_evidence id unavailable) bad_gaps
    raise_if (one_of id covered) bad_gaps
    t ← or_raise (lookup "text" ms) bad_gaps
    s ← read_text bad_gaps t
    raise_if (not (str_eq s (gap_text e))) bad_gaps
    raise_if (not (mirrors (is_optional e.body.feature_name) (lookup "feature_name" ms))) bad_gaps
    raise_if (not (mirrors (is_optional e.body.feature_group) (lookup "feature_group" ms))) bad_gaps
    raise_if (not (mirrors (is_text e.body.status) (lookup "status" ms))) bad_gaps
    raise_if (not (mirrors (is_text e.body.as_of) (lookup "as_of" ms))) bad_gaps
    ok (record (gap_from_evidence e) { text = s; evidence_id = id })

  -- The loop over the supplied items.
  unfoldable pub read_gaps :
      List (Evidence V) → List String → List (Json V) → Result ProposalError (List Gap)
  unfolding read_gap
  read_gaps unavailable covered [] = ok []
  read_gaps unavailable covered (j ∷ js) = do
    g ← read_gap unavailable covered j
    gs ← read_gaps unavailable (g.evidence_id ∷ covered) js
    ok (g ∷ gs)

  -- The loop over the unavailable evidence that no supplied item covers.
  unfoldable pub remaining_gaps : List (Evidence V) → List Gap → List Gap
  unfolding gap_from_evidence
  remaining_gaps unavailable supplied =
      map gap_from_evidence
        (filter (λ e. not (one_of e.id (map (λ g. g.evidence_id) supplied))) unavailable)

  -- `_normalize_data_gaps`: the gaps, and the supplied ones, whose texts are prose.
  unfoldable pub normalize_data_gaps :
      List (Evidence V) → Json V → Result ProposalError (List Gap × List Gap)
  unfolding read_list read_gaps remaining_gaps
  normalize_data_gaps unavailable j = do
    js ← read_list bad_gaps j
    gs ← read_gaps unavailable [] js
    ok (gs ++ remaining_gaps unavailable gs, gs)

  unfoldable pub gap_json : Gap → Json V
  unfolding ids_json
  gap_json g = object (
      member "feature_name" (optional_json g.feature_name) (
        member "feature_group" (optional_json g.feature_group) (
          member "status" (string g.status) (
            member "as_of" (string g.as_of) (
              member "text" (string g.text)
                (member "evidence_ids" (ids_json (g.evidence_id ∷ [])) no_members))))))
