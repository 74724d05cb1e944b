-- ===== src/Agent/FailClosed.antt =====
-- `build_abstain_proposal` and `propose` of strategy/paper_agent.py: whatever the transport does, what
-- they return passes the final validation.
use kronos_stock.Common.{
  String, List, [], ◌∷◌, ◌≡◌, refl, true, false, Option, none, some, Result, ok, err, IfOk,
  IfOk_map, map, filter, arith, Bool-cases, inl, inr, subst, eq_iff,
}
use text.Mathlib.TextPositions.{eq_refl}
use kronos_stock.Common.Time.{Timestamp}
use kronos_stock.Common.Text.{one_of, has_duplicate}
use kronos_stock.Symbols.{Symbol, abstain}
use kronos_stock.Features.Eligibility.{
  pre_model_abstain_reason, data_missing_required, data_stale_required, data_restricted_required,
  data_cutoff_inconsistent, data_snapshot_invalid, scoring_not_allowed, AbstainReason,
}
use kronos_stock.Features.Records.{SymbolFeatureOutput}
use kronos_stock.Agent.Json.{Json, is_blank}
use kronos_stock.Agent.Records.{
  Reason, data_ineligible, model_timeout, model_provider_error, model_output_invalid, no_edge,
  offline_shadow_mode, abstain_thesis, abstain_invalidation_text, Evidence, Request, Proposal,
  ProposalError, escapes,
}
use kronos_stock.Agent.Boundary.{Boundary, is_forbidden}
use kronos_stock.Agent.Evidence.{is_gap, unavailable_evidence}
use kronos_stock.Agent.Citations.{check_ids}
use kronos_stock.Agent.Gaps.{gap_from_evidence, remaining_gaps}
use kronos_stock.Agent.GapReading.{evidence_ids, AreGaps, Covers}
use kronos_stock.Agent.GapCover.{remaining_gaps-AreGaps, remaining_gaps-Covers}
use kronos_stock.Agent.Terms.{FloatLaws, catalog_ids, IsAdmissible}
use kronos_stock.Agent.Validate.{
  model, final, abstain_terms, check_abstain, check_terms, validate_proposal, proposal_json,
  reason_json,
}
use kronos_stock.Agent.Admissible.{validate_proposal-json}
use kronos_stock.Agent.Final.{
  has_duplicate-filter, gap_texts_clean, read_reason-text, HasCleanGaps,
  validate_proposal-IsAdmissible,
}
use kronos_stock.Agent.Propose.{
  Response, returned, timed_out, failed, anchor_id, abstention, build_abstain_proposal, is_offline,
  recover, answer, propose_on, respond,
}

module _ {V : Type 0} (env : Boundary V) where
  -- The fixed copy of an ABSTAIN passes the prose policy.
  pub record HasCleanCopy (symbol : Symbol) : Type 0 where
    pub thesis : (r : Reason) → is_forbidden env symbol (abstain_thesis r) ≡ false
    pub invalidation : is_forbidden env symbol abstain_invalidation_text ≡ false

  -- What the boundary relies on for a request.
  pub record IsServed (req : Request V) : Type 0 where
    pub laws : FloatLaws env
    pub copy : HasCleanCopy req.identity.symbol
    pub gaps : HasCleanGaps env req

  -- A proposal, or an `OverflowError` or a `RecursionError`.
  abbrev pub Answers : (P : Proposal V → Type 0) → Result ProposalError (Proposal V) → Type 0
  Answers P (ok p) = P p
  Answers P (err e) = escapes e ≡ true

  -- The finished proposal is accepted by the final validation, and is what it returns.
  abbrev pub IsFinal : Request V → Proposal V → Type 0
  IsFinal req p = validate_proposal env final (proposal_json env p) req ≡ ok p

thesis_shown : (r : Reason) → is_blank (abstain_thesis r) ≡ false
unfolding is_blank
thesis_shown (data_ineligible data_missing_required) = refl
thesis_shown (data_ineligible data_stale_required) = refl
thesis_shown (data_ineligible data_restricted_required) = refl
thesis_shown (data_ineligible data_cutoff_inconsistent) = refl
thesis_shown (data_ineligible data_snapshot_invalid) = refl
thesis_shown (data_ineligible scoring_not_allowed) = refl
thesis_shown model_timeout = refl
thesis_shown model_provider_error = refl
thesis_shown model_output_invalid = refl
thesis_shown no_edge = refl
thesis_shown offline_shadow_mode = refl

-- An id of the catalog is a citation.
anchor-cited :
    (ids : List String) (anchor : String)
    → one_of anchor ids ≡ true
    → check_ids ids (anchor ∷ []) ≡ ok (anchor ∷ [])
unfolding check_ids has_duplicate
anchor-cited ids anchor h = rw h

filter-all : {A : Type 0} (es : List A) → filter (λ e. true) es ≡ es
filter-all [] = refl
filter-all (e ∷ es) = rw (filter-all es)

remaining_gaps-all :
    {V : Type 0} (unavailable : List (Evidence V))
    → remaining_gaps unavailable [] ≡ map gap_from_evidence unavailable
unfolding remaining_gaps
remaining_gaps-all unavailable = rw (filter-all unavailable)

gaps_of_all :
    {V : Type 0} (unavailable : List (Evidence V))
    → has_duplicate (evidence_ids unavailable) ≡ false
    → AreGaps unavailable [] (map gap_from_evidence unavailable)
      × Covers unavailable (map gap_from_evidence unavailable)
gaps_of_all unavailable d =
    subst (λ gs. AreGaps unavailable [] gs × Covers unavailable gs) (remaining_gaps-all unavailable)
      (remaining_gaps-AreGaps unavailable [] d tt, remaining_gaps-Covers unavailable [])

module _ {V : Type 0} (env : Boundary V) where
  abstain_check_terms :
      (req : Request V) (r : Reason) (anchor : String)
      → FloatLaws env
      → check_terms env final req abstain
          (abstain_thesis r)
          (record { text = abstain_invalidation_text; evidence_ids = anchor ∷ [] } ∷ [])
          (anchor ∷ [])
          env.zero
          0
          (reason_json env (some r))
        ≡ ok (some r)
  unfolding check_terms check_abstain abstain_terms
  abstain_check_terms req r anchor laws =
      rw (read_reason-text env final r refl, eq_refl, laws.zero_equal)

  abstention-IsAdmissible :
      (req : Request V) (r : Reason) (anchor : String)
      → IsServed env req
      → has_duplicate (catalog_ids req) ≡ false
      → one_of anchor (catalog_ids req) ≡ true
      → IsAdmissible env final req (abstention env req r anchor)
  unfolding abstention is_blank unavailable_evidence
  abstention-IsAdmissible req r anchor served distinct listed =
      let unavailable = unavailable_evidence req.evidence_catalog in
      let cited = anchor-cited (catalog_ids req) anchor listed in
      let gaps =
        gaps_of_all unavailable (has_duplicate-filter is_gap req.evidence_catalog distinct) in
      record {
        identity = refl;
        target = record {
          finite = served.laws.zero_finite;
          float = served.laws.zero_float;
          not_negative = served.laws.zero_range.0;
          at_most_hundred = served.laws.zero_range.1;
        };
        confidence = refl;
        thesis = thesis_shown r;
        distinct = distinct;
        cited = cited;
        conditions = (refl, (record { shown = refl; cited = cited }, tt));
        gaps = gaps.0;
        covered = gaps.1;
        prose =
            rw (served.copy.thesis r, served.copy.invalidation)
              (gap_texts_clean (is_forbidden env req.identity.symbol) unavailable [] _ served.gaps
                gaps.0);
        terms = abstain_check_terms req r anchor served.laws;
      }

  -- What is known of a request that was built.
  pub record IsBuilt (output : SymbolFeatureOutput V) (cutoff : Timestamp) (req : Request V)
      : Type 0 where
    pub distinct : has_duplicate (catalog_ids req) ≡ false
    pub anchored : (anchor : String) × (anchor_id env req.evidence_catalog ≡ some anchor)
    pub eligible :
        req.pre_model_abstain_reason ≡ none
        → pre_model_abstain_reason env.votes env.canonical_output_id output cutoff ≡ none

  first-listed :
      (catalog : List (Evidence V)) (anchor : String)
      → anchor_id env catalog ≡ some anchor
      → one_of anchor (evidence_ids catalog) ≡ true
  first-listed [] anchor e = cc
  first-listed (x ∷ xs) anchor e = ground (arith, eq_iff anchor x.id)

  -- A deterministic abstention for a request that was built is final.
  build_abstain_proposal-IsFinal :
      {output : SymbolFeatureOutput V} {cutoff : Timestamp} (req : Request V) (r : Reason)
      → IsServed env req
      → IsBuilt output cutoff req
      → Answers env (IsFinal env req) (build_abstain_proposal env req r)
  unfolding build_abstain_proposal
  build_abstain_proposal-IsFinal req r served built =
      let (anchor, e) = built.anchored in
      rw e (
        validate_proposal-json env final req (abstention env req r anchor) served.laws (
          abstention-IsAdmissible req r anchor served built.distinct
            (first-listed req.evidence_catalog anchor e)))

  validated-IsFinal :
      (req : Request V) (raw : Json V)
      → IsServed env req
      → IfOk (validate_proposal env model raw req) (IsFinal env req)
  validated-IsFinal req raw served =
      IfOk_map _ _ (validate_proposal env model raw req)
        (validate_proposal-IsAdmissible env model final raw req served.laws (λ r h. refl)
          served.gaps)
        λ p h. validate_proposal-json env final req p served.laws h

  recover-IsFinal :
      {output : SymbolFeatureOutput V} {cutoff : Timestamp} (req : Request V)
      (result : Result ProposalError (Proposal V))
      → IsServed env req
      → IsBuilt output cutoff req
      → IfOk result (IsFinal env req)
      → Answers env (IsFinal env req) (recover env req result)
  unfolding recover
  recover-IsFinal req (ok p) served built h = h
  recover-IsFinal req (err e) served built h = elim (Bool-cases (escapes e)) [
    | inl over ↦ rw over over
    | inr caught ↦ rw caught (build_abstain_proposal-IsFinal req model_output_invalid served built)
  ]

  answer-IsFinal :
      {output : SymbolFeatureOutput V} {cutoff : Timestamp} (req : Request V) (r : Response V)
      → IsServed env req
      → IsBuilt output cutoff req
      → Answers env (IsFinal env req) (answer env req r)
  unfolding answer
  answer-IsFinal req timed_out served built =
      build_abstain_proposal-IsFinal req model_timeout served built
  answer-IsFinal req failed served built =
      build_abstain_proposal-IsFinal req model_provider_error served built
  answer-IsFinal req (returned raw) served built = elim (Bool-cases (is_offline env raw)) [
    | inl offline ↦ rw offline (build_abstain_proposal-IsFinal req offline_shadow_mode served built)
    | inr online ↦ rw online (
        recover-IsFinal req (validate_proposal env model raw req) served built
          (validated-IsFinal req raw served))
  ]

  respond-IsFinal :
      {output : SymbolFeatureOutput V} {cutoff : Timestamp} (transport : Request V → Response V)
      (req : Request V) (reason : Option AbstainReason)
      → IsServed env req
      → IsBuilt output cutoff req
      → Answers env (IsFinal env req) (respond env transport req reason)
  unfolding respond
  respond-IsFinal transport req none served built = answer-IsFinal req (transport req) served built
  respond-IsFinal transport req (some reason) served built =
      build_abstain_proposal-IsFinal req (data_ineligible reason) served built

  -- For a request that was built, and whatever the transport does, the boundary returns a proposal
  -- that is final, or an `OverflowError` or a `RecursionError` goes on.
  pub propose_on-IsFinal :
      {output : SymbolFeatureOutput V} {cutoff : Timestamp} (transport : Request V → Response V)
      (req : Request V)
      → IsServed env req
      → IsBuilt output cutoff req
      → Answers env (IsFinal env req) (propose_on env transport req)
  unfolding propose_on
  propose_on-IsFinal transport req served built =
      respond-IsFinal transport req req.pre_model_abstain_reason served built
