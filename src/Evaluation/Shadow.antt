-- ===== src/Evaluation/Shadow.antt =====
-- `audit_shadow` of strategy/paper_evaluation.py. The canonical JSON and its digest,
-- `shadow_evidence_sha256`, are a parameter.
use kronos_stock.Common.{
  ℕ, zero, String, List, [], ◌∷◌, Bool, true, false, not, ◌&&◌, ◌||◌, ◌==◌, Result, ok, raise_if,
  ◌>>=◌, ◌>>◌, ltb, leb, any, length, str_eq,
}
use kronos_stock.Common.Int.{ℤ, pos}
use kronos_stock.Common.Time.{Moment, Timestamp}
use kronos_stock.Evaluation.Records.{
  EvaluationError, economic_mutation, inconsistent_lineage, missing_chronology,
  persisted_after_outcome, wrong_commitment,
}
use kronos_stock.Evaluation.Validate.{parse_kst, check_sha}

pub record ShadowAuditInput : Type 0 where
  pub decisions_count : ℕ
  pub proposals_count : ℕ
  pub reviews_count : ℕ
  pub orders_count : ℕ
  pub fills_count : ℕ
  pub cash_mutation_krw : ℤ
  pub position_mutation_quantity : ℤ
  pub decision_ids : List String
  pub proposal_decision_ids : List String
  pub review_decision_ids : List String
  pub persisted_ats : List Timestamp
  pub proposal_persisted_ats : List Timestamp
  pub review_persisted_ats : List Timestamp
  pub outcome_ats : List Timestamp
  pub evidence_sha256 : String

pub data ShadowStatus : Type 0 where
  evidence_only_not_activated : ShadowStatus

pub record ShadowAuditResult : Type 0 where
  pub shadow_ready : Bool
  pub evidence_sha256 : String
  pub activation_performed : Bool
  pub status : ShadowStatus

-- An integer as a test: it is not 0.
abbrev nonzero : ℤ → Bool
nonzero (pos zero) = false
nonzero _ = true

unfoldable pub mutates : ShadowAuditInput → Bool
mutates e =
    not (e.orders_count == 0)
    || not (e.fills_count == 0)
    || nonzero e.cash_mutation_krw
    || nonzero e.position_mutation_quantity

-- Equality of tuples of texts.
unfoldable pub same_ids : List String → List String → Bool
same_ids [] [] = true
same_ids (a ∷ as') (b ∷ bs) = str_eq a b && same_ids as' bs
same_ids _ _ = false

-- `len(set(ids)) != len(ids)`
unfoldable pub has_duplicate : List String → Bool
has_duplicate [] = false
has_duplicate (s ∷ ss) = any (str_eq s) ss || has_duplicate ss

unfoldable pub lineage_broken : ShadowAuditInput → Bool
unfolding same_ids has_duplicate
lineage_broken e =
    let ids = e.decision_ids in
    any (str_eq "") ids
    || not (length ids == e.decisions_count)
    || has_duplicate ids
    || not (length e.proposal_decision_ids == e.proposals_count)
    || not (length e.review_decision_ids == e.reviews_count)
    || not (same_ids e.proposal_decision_ids ids)
    || not (same_ids e.review_decision_ids ids)

unfoldable pub chronology_missing : ShadowAuditInput → Bool
chronology_missing e =
    let n = length e.decision_ids in
    not (length e.persisted_ats == n)
    || not (length e.proposal_persisted_ats == n)
    || not (length e.review_persisted_ats == n)
    || not (length e.outcome_ats == n)
    || n == 0

unfoldable pub parse_all : List Timestamp → Result EvaluationError (List Moment)
unfolding parse_kst
parse_all [] = ok []
parse_all (t ∷ ts) = do m ← parse_kst t; ms ← parse_all ts; ok (m ∷ ms)

-- `any(not p <= q <= r < o for p, q, r, o in zip(...))`
unfoldable pub out_of_order : List Moment → List Moment → List Moment → List Moment → Bool
out_of_order (p ∷ ps) (q ∷ qs) (r ∷ rs) (o ∷ os) =
    not (leb p.instant q.instant && leb q.instant r.instant && ltb r.instant o.instant)
    || out_of_order ps qs rs os
out_of_order _ _ _ _ = false

-- `audit_shadow`; the counts are numbers and the lists tuples by their types.
unfoldable pub audit_shadow :
    (ShadowAuditInput → String) → ShadowAuditInput → Result EvaluationError ShadowAuditResult
unfolding mutates lineage_broken chronology_missing parse_all out_of_order check_sha
audit_shadow evidence_digest e = do
  check_sha e.evidence_sha256
  raise_if (mutates e) economic_mutation
  raise_if (lineage_broken e) inconsistent_lineage
  raise_if (chronology_missing e) missing_chronology
  persisted ← parse_all e.persisted_ats
  proposals ← parse_all e.proposal_persisted_ats
  reviews ← parse_all e.review_persisted_ats
  outcomes ← parse_all e.outcome_ats
  raise_if (out_of_order persisted proposals reviews outcomes) persisted_after_outcome
  raise_if (not (str_eq e.evidence_sha256 (evidence_digest e))) wrong_commitment
  ok (record {
    shadow_ready = true;
    evidence_sha256 = e.evidence_sha256;
    activation_performed = false;
    status = evidence_only_not_activated;
  })
