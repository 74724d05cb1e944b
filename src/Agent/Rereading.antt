-- ===== src/Agent/Rereading.antt =====
-- The values that a finished proposal is written as are read back as what was written: the ids, the
-- conditions and the gaps of strategy/paper_agent.py.
use kronos_stock.Common.{
  String, List, [], ◌∷◌, ◌≡◌, refl, false, ◌==◌, some, ok, raise_if, ◌>>◌, IfOk, IfOk_both,
  >>=-IfOk, after-IfOk, raise_if-IfOk_passed, or_raise, All, map, length, arith,
}
use kronos_stock.Agent.Json.{
  Json, null, boolean, number, object, foreign, string, array, items_of, to_items, names, lookup,
  same_names, is_blank,
}
use kronos_stock.Agent.Records.{Condition, ProposalError, bad_conditions}
use kronos_stock.Agent.Citations.{
  strings, read_list, read_text, read_object, check_ids, validate_evidence_ids, read_condition,
  read_conditions, validate_conditions, ids_json, condition_json,
}

-- A condition whose text is not blank and whose ids pass.
pub record IsCondition (catalog_ids : List String) (c : Condition) : Type 0 where
  pub shown : is_blank c.text ≡ false
  pub cited : check_ids catalog_ids c.evidence_ids ≡ ok c.evidence_ids

-- Conditions are some, and they pass.
abbrev pub AreConditions : List String → List Condition → Type 0
AreConditions catalog_ids cs = ((length cs == 0) ≡ false) × All (IsCondition catalog_ids) cs

pub items_of-to_items : {V : Type 0} (js : List (Json V)) → items_of (to_items js) ≡ js
unfolding items_of to_items
items_of-to_items [] = refl
items_of-to_items (j ∷ js) = rw (items_of-to_items js)

module _ (V : Type 0) where
  pub strings-map : (ss : List String) → strings {V = V} (map string ss) ≡ some ss
  unfolding strings
  strings-map [] = refl
  strings-map (s ∷ ss) = rw (strings-map ss)

  -- Ids that are written as a list are checked as the ids that they are.
  pub validate_evidence_ids-json :
      (catalog_ids ids : List String)
      → validate_evidence_ids {V = V} catalog_ids (ids_json ids) ≡ check_ids catalog_ids ids
  unfolding validate_evidence_ids ids_json read_list
  validate_evidence_ids-json catalog_ids ids = rw (items_of-to_items, strings-map)

  read_condition-json :
      (catalog_ids : List String) (c : Condition)
      → IsCondition catalog_ids c
      → read_condition {V = V} catalog_ids (condition_json c) ≡ ok c
  unfolding read_condition condition_json read_object lookup names same_names read_text
  read_condition-json catalog_ids c h = rw (h.shown, validate_evidence_ids-json, h.cited)

  read_conditions-json :
      (catalog_ids : List String) (cs : List Condition)
      → All (IsCondition catalog_ids) cs
      → read_conditions {V = V} catalog_ids (map condition_json cs) ≡ ok cs
  unfolding read_conditions
  read_conditions-json catalog_ids [] h = refl
  read_conditions-json catalog_ids (c ∷ cs) h =
      rw (read_condition-json catalog_ids c h.0, read_conditions-json catalog_ids cs h.1)

  -- Conditions that pass are read back as they are.
  pub validate_conditions-json :
      (catalog_ids : List String) (cs : List Condition)
      → (length cs == 0) ≡ false
      → All (IsCondition catalog_ids) cs
      → validate_conditions {V = V} catalog_ids (array (to_items (map condition_json cs))) ≡ ok cs
  unfolding validate_conditions read_list
  validate_conditions-json catalog_ids [] e h = cc
  validate_conditions-json catalog_ids (c ∷ cs) e h =
      rw (items_of-to_items, read_conditions-json catalog_ids (c ∷ cs) h) (ground arith)

  check_ids-same :
      (catalog_ids ids : List String)
      → IfOk (check_ids catalog_ids ids) (λ r. check_ids catalog_ids r ≡ ok r)
  unfolding check_ids
  check_ids-same catalog_ids ids = ground arith

  pub validate_evidence_ids-checks :
      (catalog_ids : List String) (j : Json V)
      → IfOk (validate_evidence_ids catalog_ids j) (λ ids. check_ids catalog_ids ids ≡ ok ids)
  unfolding validate_evidence_ids
  validate_evidence_ids-checks catalog_ids j = search (after-IfOk, check_ids-same) depth 12

  pub read_text-shown :
      (e : ProposalError) (j : Json V) → IfOk (read_text e j) (λ s. is_blank s ≡ false)
  unfolding read_text
  read_text-shown e null = tt
  read_text-shown e (boolean b) = tt
  read_text-shown e (number v) = tt
  read_text-shown e (string s) =
      raise_if-IfOk_passed (λ t. is_blank t ≡ false) (is_blank s) e (ok s) (λ h. h)
  read_text-shown e (array js) = tt
  read_text-shown e (object ms) = tt
  read_text-shown e foreign = tt

  read_condition-IsCondition :
      (catalog_ids : List String) (j : Json V)
      → IfOk (read_condition catalog_ids j) (IsCondition catalog_ids)
  unfolding read_condition
  read_condition-IsCondition catalog_ids j =
      after-IfOk _ (read_object bad_conditions ("text" ∷ "evidence_ids" ∷ []) j) _ λ ms.
        after-IfOk _ (or_raise (lookup "text" ms) bad_conditions) _ λ t.
          >>=-IfOk _ _ (read_text bad_conditions t) _ (read_text-shown bad_conditions t) λ s shown.
            after-IfOk _ (or_raise (lookup "evidence_ids" ms) bad_conditions) _ λ i.
              >>=-IfOk _ _ (validate_evidence_ids catalog_ids i) _
                (validate_evidence_ids-checks catalog_ids i)
                λ ids cited. record { shown = shown; cited = cited }

  read_conditions-IsCondition :
      (catalog_ids : List String) (js : List (Json V))
      → IfOk (read_conditions catalog_ids js) (All (IsCondition catalog_ids))
  unfolding read_conditions
  read_conditions-IsCondition catalog_ids [] = tt
  read_conditions-IsCondition catalog_ids (j ∷ js) =
      >>=-IfOk _ _ (read_condition catalog_ids j) _ (read_condition-IsCondition catalog_ids j)
        λ c h.
          >>=-IfOk _ _ (read_conditions catalog_ids js) _
            (read_conditions-IsCondition catalog_ids js) λ cs hs. (h, hs)

  read_conditions-some :
      (catalog_ids : List String) (j : Json V) (js : List (Json V))
      → IfOk (read_conditions catalog_ids (j ∷ js)) (λ cs. (length cs == 0) ≡ false)
  unfolding read_conditions
  read_conditions-some catalog_ids j js =
      after-IfOk _ (read_condition catalog_ids j) _
        λ c. after-IfOk _ (read_conditions catalog_ids js) _ λ cs. ground arith

  pub validate_conditions-AreConditions :
      (catalog_ids : List String) (j : Json V)
      → IfOk (validate_conditions catalog_ids j) (AreConditions catalog_ids)
  unfolding validate_conditions
  validate_conditions-AreConditions catalog_ids j =
      after-IfOk _ (read_list bad_conditions j) _ cases
    where
      cases :
          (js : List (Json V))
          → IfOk
              (raise_if (length js == 0) bad_conditions >> read_conditions catalog_ids js)
              (AreConditions catalog_ids)
      cases [] = tt
      cases (j ∷ js) = after-IfOk _ (raise_if (length (j ∷ js) == 0) bad_conditions) _ λ done.
          IfOk_both _ _ (read_conditions catalog_ids (j ∷ js))
            (read_conditions-some catalog_ids j js)
            (read_conditions-IsCondition catalog_ids (j ∷ js))
