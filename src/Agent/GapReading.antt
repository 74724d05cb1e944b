-- ===== src/Agent/GapReading.antt =====
-- Which gaps the loop of `_normalize_data_gaps` of strategy/paper_agent.py reads: each is the gap of
-- an unavailable evidence item, cited once.
use kronos_stock.Common.{
  String, List, [], ◌∷◌, ◌≡◌, refl, ap, subst, true, false, not, Option, none, some, ok, or_raise,
  IfOk, >>=-IfOk, after-IfOk, raise_if-IfOk_passed, or_raise-IfOk, str_eq, eq_iff, All, map, arith,
}
use text.Mathlib.TextPositions.{eq_refl}
use kronos_stock.Common.Text.{one_of}
use kronos_stock.Agent.Json.{Json, items_of, to_items, names, lookup, same_names, is_blank}
use kronos_stock.Agent.Records.{Evidence, Gap, bad_gaps}
use kronos_stock.Agent.Citations.{strings, read_list, read_text, read_object, ids_json}
use kronos_stock.Agent.Gaps.{
  is_optional, optional_json, only, data_gap_item_keys, gap_text, gap_from_evidence, find_evidence,
  read_gap, read_gaps, gap_json,
}

abbrev pub gap_ids : List Gap → List String
gap_ids gs = map (λ g. g.evidence_id) gs

abbrev pub evidence_ids : {V : Type 0} → List (Evidence V) → List String
evidence_ids es = map (λ e. e.id) es

is_optional-json : (V : Type 0) (o : Option String) → is_optional {V = V} o (optional_json o) ≡ true
unfolding is_optional
is_optional-json V none = refl
is_optional-json V (some s) = eq_refl s

module _ {V : Type 0} where
  -- The gap of an unavailable item, which is not covered yet.
  pub record IsGap (unavailable : List (Evidence V)) (covered : List String) (g : Gap)
      : Type 0 where
    pub item : Evidence V
    pub found : find_evidence g.evidence_id unavailable ≡ some item
    pub is_its_gap : g ≡ gap_from_evidence item
    pub uncovered : one_of g.evidence_id covered ≡ false

  -- The gaps of unavailable items, each item at most once.
  abbrev pub AreGaps : List (Evidence V) → List String → List Gap → Type 0
  AreGaps unavailable covered [] = Unit
  AreGaps unavailable covered (g ∷ gs) =
      IsGap unavailable covered g × AreGaps unavailable (g.evidence_id ∷ covered) gs

  -- Every unavailable item has its gap.
  abbrev pub Covers : List (Evidence V) → List Gap → Type 0
  Covers unavailable gs = All (λ e. one_of e.id (gap_ids gs) ≡ true) unavailable

  find_evidence-id :
      (id : String) (es : List (Evidence V)) (e : Evidence V)
      → find_evidence id es ≡ some e
      → id ≡ e.id
  unfolding find_evidence
  find_evidence-id id [] e h = cc
  find_evidence-id id (x ∷ xs) e h = ground (arith, eq_iff x.id id, find_evidence-id id xs e)

  find_evidence-one_of :
      (id : String) (es : List (Evidence V))
      → one_of id (evidence_ids es) ≡ false
      → find_evidence id es ≡ none
  unfolding find_evidence
  find_evidence-one_of id [] h = refl
  find_evidence-one_of id (x ∷ xs) h =
      ground (arith, eq_iff x.id id, eq_iff id x.id, find_evidence-one_of id xs)

  -- The gap of an unavailable item that is not covered is read back.
  read_gap-json :
      (unavailable : List (Evidence V)) (covered : List String) (e : Evidence V)
      → is_blank (gap_text e) ≡ false
      → find_evidence e.id unavailable ≡ some e
      → one_of e.id covered ≡ false
      → read_gap unavailable covered (gap_json (gap_from_evidence e)) ≡ ok (gap_from_evidence e)
  unfolding read_gap gap_json read_object names same_names lookup ids_json read_list strings
      read_text items_of to_items gap_from_evidence
  read_gap-json unavailable covered e b found uncovered = rw (
    found,
    uncovered,
    b,
    eq_refl (gap_text e),
    is_optional-json V e.body.feature_name,
    is_optional-json V e.body.feature_group,
    eq_refl e.body.status,
    eq_refl e.body.as_of,
  )

  read_gap-json_of :
      (unavailable : List (Evidence V)) (covered : List String) (g : Gap)
      → ((e : Evidence V) → is_blank (gap_text e) ≡ false)
      → IsGap unavailable covered g
      → read_gap unavailable covered (gap_json g) ≡ ok g
  unfolding gap_from_evidence
  read_gap-json_of unavailable covered g b h =
      let same : g.evidence_id ≡ h.item.id = ap (λ x. x.evidence_id) h.is_its_gap in
      rw h.is_its_gap (
        read_gap-json unavailable covered h.item (b h.item)
          (subst (λ i. find_evidence i unavailable ≡ some h.item) same h.found)
          (subst (λ i. one_of i covered ≡ false) same h.uncovered))

  checked-IsGap :
      (unavailable : List (Evidence V)) (covered : List String) (id : String) (e : Evidence V)
      (s : String)
      → find_evidence id unavailable ≡ some e
      → one_of id covered ≡ false
      → not (str_eq s (gap_text e)) ≡ false
      → IsGap unavailable covered (record (gap_from_evidence e) { text = s; evidence_id = id })
  unfolding gap_from_evidence
  checked-IsGap unavailable covered id e s found uncovered same =
      let same_id : id ≡ e.id = find_evidence-id id unavailable e found in
      let same_text : s ≡ gap_text e = ground (arith, eq_iff s (gap_text e)) in
      record {
        item = e;
        found = found;
        is_its_gap = rw (same_id, same_text);
        uncovered = uncovered;
      }

  read_gap-IsGap :
      (unavailable : List (Evidence V)) (covered : List String) (j : Json V)
      → IfOk (read_gap unavailable covered j) (IsGap unavailable covered)
  unfolding read_gap
  read_gap-IsGap unavailable covered j =
      after-IfOk _ (read_object bad_gaps data_gap_item_keys j) _ λ ms.
        after-IfOk _ (or_raise (lookup "evidence_ids" ms) bad_gaps) _ λ i.
          after-IfOk _ (read_list bad_gaps i) _ λ js.
            after-IfOk _ (or_raise (only (strings js)) bad_gaps) _ λ id.
              >>=-IfOk _ _ (or_raise (find_evidence id unavailable) bad_gaps) _
                (or_raise-IfOk (find_evidence id unavailable) bad_gaps)
                λ e found. raise_if-IfOk_passed _ (one_of id covered) bad_gaps _ λ uncovered.
                  after-IfOk _ (or_raise (lookup "text" ms) bad_gaps) _ λ t.
                    after-IfOk _ (read_text bad_gaps t) _ λ s.
                      raise_if-IfOk_passed _ (not (str_eq s (gap_text e))) bad_gaps _ λ same.
                        search
                          (
                            after-IfOk,
                            checked-IsGap unavailable covered id e s found uncovered same,
                          )
                          depth 12

  pub read_gaps-AreGaps :
      (unavailable : List (Evidence V)) (covered : List String) (js : List (Json V))
      → IfOk (read_gaps unavailable covered js) (AreGaps unavailable covered)
  unfolding read_gaps
  read_gaps-AreGaps unavailable covered [] = tt
  read_gaps-AreGaps unavailable covered (j ∷ js) =
      >>=-IfOk _ _ (read_gap unavailable covered j) _ (read_gap-IsGap unavailable covered j) λ g h.
        >>=-IfOk _ _ (read_gaps unavailable (g.evidence_id ∷ covered) js) _
          (read_gaps-AreGaps unavailable (g.evidence_id ∷ covered) js) λ gs hs. (h, hs)

  -- Gaps of unavailable items, whose texts are not blank, are read back.
  pub read_gaps-json :
      (unavailable : List (Evidence V)) (covered : List String) (gs : List Gap)
      → ((e : Evidence V) → is_blank (gap_text e) ≡ false)
      → AreGaps unavailable covered gs
      → read_gaps unavailable covered (map gap_json gs) ≡ ok gs
  unfolding read_gaps
  read_gaps-json unavailable covered [] b h = refl
  read_gaps-json unavailable covered (g ∷ gs) b (h, hs) = rw (
    read_gap-json_of unavailable covered g b h,
    read_gaps-json unavailable (g.evidence_id ∷ covered) gs b hs,
  )
