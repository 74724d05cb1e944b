-- ===== src/Agent/GapCover.antt =====
-- Which gaps `_normalize_data_gaps` of strategy/paper_agent.py lets pass: each is the gap of an
-- unavailable evidence item, cited once, and together they cover the unavailable evidence.
use kronos_stock.Common.{
  String, List, [], ◌∷◌, ◌++◌, ◌≡◌, refl, Bool, true, false, not, some, ok, IfOk, ◌||◌, All-weaken,
  >>=-IfOk, after-IfOk, eq_iff, All, map, filter, arith, Bool-cases, inl, inr,
}
use mathlib.Core.List.{append-nil}
use text.Mathlib.TextPositions.{eq_refl}
use kronos_stock.Common.Text.{one_of, has_duplicate}
use kronos_stock.Agent.Json.{Json, to_items, array, is_blank}
use kronos_stock.Agent.Records.{Evidence, Gap, bad_gaps}
use kronos_stock.Agent.Citations.{read_list}
use kronos_stock.Agent.Gaps.{
  gap_text, gap_from_evidence, find_evidence, read_gaps, remaining_gaps, normalize_data_gaps,
  gap_json,
}
use kronos_stock.Agent.Rereading.{items_of-to_items}
use kronos_stock.Agent.GapReading.{
  gap_ids, evidence_ids, IsGap, AreGaps, Covers, read_gaps-AreGaps, read_gaps-json,
}

one_of-append :
    (i : String) (gs hs : List Gap)
    → one_of i (gap_ids (gs ++ hs)) ≡ (one_of i (gap_ids gs) || one_of i (gap_ids hs))
one_of-append i [] hs = refl
one_of-append i (g ∷ gs) hs = ground (arith, one_of-append i gs hs)

module _ {V : Type 0} where
  -- An item whose id is not covered, and where ids are distinct, has its gap.
  gap_from_evidence-IsGap :
      (unavailable : List (Evidence V)) (covered : List String) (e : Evidence V)
      → find_evidence e.id unavailable ≡ some e
      → one_of e.id covered ≡ false
      → IsGap unavailable covered (gap_from_evidence e)
  unfolding gap_from_evidence
  gap_from_evidence-IsGap unavailable covered e found uncovered = record {
    item = e;
    found = found;
    is_its_gap = refl;
    uncovered = uncovered;
  }

  find_evidence-behind :
      (e : Evidence V) (es part : List (Evidence V))
      → one_of e.id (evidence_ids part) ≡ false
      → All (λ x. find_evidence x.id es ≡ some x) part
      → All (λ x. find_evidence x.id (e ∷ es) ≡ some x) part
  unfolding find_evidence
  find_evidence-behind e es [] n h = tt
  find_evidence-behind e es (x ∷ xs) n h =
      (ground arith, find_evidence-behind e es xs (ground arith) h.1)

  uncovered-behind :
      (e : Evidence V) (covered : List String) (p : Evidence V → Bool) (part : List (Evidence V))
      → one_of e.id (evidence_ids part) ≡ false
      → All (λ x. p x ≡ true → one_of x.id covered ≡ false) part
      → All (λ x. p x ≡ true → one_of x.id (e.id ∷ covered) ≡ false) part
  uncovered-behind e covered p [] n h = tt
  uncovered-behind e covered p (x ∷ xs) n h = (
    λ picked. ground (arith, h.0 picked, eq_iff x.id e.id, eq_iff e.id x.id),
    uncovered-behind e covered p xs (ground arith) h.1,
  )

  find_evidence-distinct :
      (es : List (Evidence V))
      → has_duplicate (evidence_ids es) ≡ false
      → All (λ e. find_evidence e.id es ≡ some e) es
  unfolding find_evidence has_duplicate
  find_evidence-distinct [] h = tt
  find_evidence-distinct (e ∷ es) h = (
    ground (arith, eq_refl e.id),
    find_evidence-behind e es es (ground arith) (find_evidence-distinct es (ground arith)),
  )

  -- The gaps of the items of a part of the unavailable evidence that a test picks, where what the
  -- test picks is not covered.
  picked-AreGaps :
      (unavailable : List (Evidence V)) (covered : List String) (p : Evidence V → Bool)
      (es : List (Evidence V))
      → has_duplicate (evidence_ids es) ≡ false
      → All (λ e. find_evidence e.id unavailable ≡ some e) es
      → All (λ e. p e ≡ true → one_of e.id covered ≡ false) es
      → AreGaps unavailable covered (map gap_from_evidence (filter p es))
  unfolding has_duplicate gap_from_evidence
  picked-AreGaps unavailable covered p [] d f h = tt
  picked-AreGaps unavailable covered p (e ∷ es) d f h =
      let fresh : one_of e.id (evidence_ids es) ≡ false = ground arith in
      let rest : has_duplicate (evidence_ids es) ≡ false = ground arith in
      elim (Bool-cases (p e)) [
        | inl picks ↦ rw picks (
          gap_from_evidence-IsGap unavailable covered e f.0 (h.0 picks),
          picked-AreGaps unavailable (e.id ∷ covered) p es rest f.1
              (uncovered-behind e covered p es fresh h.1),
        )
        | inr skips ↦ rw skips (picked-AreGaps unavailable covered p es rest f.1 h.1)
      ]

  -- Gaps, and behind them those of the items that they leave out.
  append-AreGaps :
      (unavailable : List (Evidence V)) (covered all_ids : List String) (gs : List Gap)
      → has_duplicate (evidence_ids unavailable) ≡ false
      → ((i : String) → one_of i covered ≡ true → one_of i all_ids ≡ true)
      → ((i : String) → one_of i (gap_ids gs) ≡ true → one_of i all_ids ≡ true)
      → AreGaps unavailable covered gs
      → AreGaps unavailable covered
          (gs ++ map gap_from_evidence (filter (λ e. not (one_of e.id all_ids)) unavailable))
  append-AreGaps unavailable covered all_ids [] d c k h =
      picked-AreGaps unavailable covered (λ e. not (one_of e.id all_ids)) unavailable d
        (find_evidence-distinct unavailable d) (unlisted unavailable)
    where
      unlisted :
          (es : List (Evidence V))
          → All (λ e. not (one_of e.id all_ids) ≡ true → one_of e.id covered ≡ false) es
      unlisted [] = tt
      unlisted (e ∷ es) = (λ n. ground (arith, c e.id), unlisted es)
  append-AreGaps unavailable covered all_ids (g ∷ gs) d c k (h, hs) = (
    h,
    append-AreGaps unavailable (g.evidence_id ∷ covered) all_ids gs d
        (λ i m. ground (arith, c i, k i)) (λ i m. ground (arith, k i)) hs,
  )

  -- The gaps that the normalization returns are gaps of unavailable items, each once.
  pub remaining_gaps-AreGaps :
      (unavailable : List (Evidence V)) (gs : List Gap)
      → has_duplicate (evidence_ids unavailable) ≡ false
      → AreGaps unavailable [] gs
      → AreGaps unavailable [] (gs ++ remaining_gaps unavailable gs)
  unfolding remaining_gaps
  remaining_gaps-AreGaps unavailable gs d h =
      append-AreGaps unavailable [] (gap_ids gs) gs d (λ i m. ground arith) (λ i m. m) h

  -- An item is listed, or among the ones that are picked because they are not.
  listed_or_picked :
      (all_ids : List String) (es : List (Evidence V))
      → All
          (λ e.
            (one_of e.id all_ids
              || one_of e.id
                  (gap_ids (map gap_from_evidence (filter (λ x. not (one_of x.id all_ids)) es))))
            ≡ true)
          es
  unfolding gap_from_evidence
  listed_or_picked all_ids [] = tt
  listed_or_picked all_ids (e ∷ es) = (
    ground (arith, eq_refl e.id),
    All-weaken _ _ es (λ x h. ground arith) (listed_or_picked all_ids es),
  )

  none_picked :
      (t : Evidence V → Bool) (es : List (Evidence V))
      → All (λ e. t e ≡ true) es
      → map gap_from_evidence (filter (λ e. not (t e)) es) ≡ []
  none_picked t [] h = refl
  none_picked t (e ∷ es) h = rw (h.0, none_picked t es h.1)

  -- They cover the unavailable items.
  pub remaining_gaps-Covers :
      (unavailable : List (Evidence V)) (gs : List Gap)
      → Covers unavailable (gs ++ remaining_gaps unavailable gs)
  unfolding remaining_gaps
  remaining_gaps-Covers unavailable gs =
      All-weaken _ _ unavailable
        (λ e h. rw (one_of-append e.id gs (remaining_gaps unavailable gs)) h)
        (listed_or_picked (gap_ids gs) unavailable)

  -- Where gaps cover the unavailable items, none remains.
  pub remaining_gaps-nil :
      (unavailable : List (Evidence V)) (gs : List Gap)
      → Covers unavailable gs
      → remaining_gaps unavailable gs ≡ []
  unfolding remaining_gaps
  remaining_gaps-nil unavailable gs h = none_picked (λ e. one_of e.id (gap_ids gs)) unavailable h

  -- What the normalization returns.
  pub normalize_data_gaps-AreGaps :
      (unavailable : List (Evidence V)) (j : Json V)
      → has_duplicate (evidence_ids unavailable) ≡ false
      → IfOk
          (normalize_data_gaps unavailable j)
          (λ r. AreGaps unavailable [] r.0 × Covers unavailable r.0)
  unfolding normalize_data_gaps
  normalize_data_gaps-AreGaps unavailable j d = after-IfOk _ (read_list bad_gaps j) _ λ js.
      >>=-IfOk _ _ (read_gaps unavailable [] js) _ (read_gaps-AreGaps unavailable [] js)
        λ gs h. (remaining_gaps-AreGaps unavailable gs d h, remaining_gaps-Covers unavailable gs)

  -- Gaps that cover the unavailable items, each once, are normalized to themselves.
  pub normalize_data_gaps-json :
      (unavailable : List (Evidence V)) (gs : List Gap)
      → ((e : Evidence V) → is_blank (gap_text e) ≡ false)
      → AreGaps unavailable [] gs
      → Covers unavailable gs
      → normalize_data_gaps unavailable (array (to_items (map gap_json gs))) ≡ ok (gs, gs)
  unfolding normalize_data_gaps read_list
  normalize_data_gaps-json unavailable gs b h c = rw (
    items_of-to_items,
    read_gaps-json unavailable [] gs b h,
    remaining_gaps-nil unavailable gs c,
    append-nil,
  )
