-- ===== src/Agent/Final.antt =====
-- What `validate_proposal` of strategy/paper_agent.py returns in one mode is admissible in a mode that
-- allows the same reasons and more.
use kronos_stock.Common.{
  ℕ, String, List, [], ◌∷◌, ◌++◌, ◌≡◌, refl, ap, Bool, true, false, not, ◌||◌, some, Result, ok,
  raise_if, or_raise, ◌>>=◌, IfOk, IfOk_map, >>=-IfOk, after-IfOk, raise_if-IfOk_passed,
  or_raise-IfOk, All, ltb, map, any, filter, arith, IfOk_self,
}
use kronos_stock.Common.Text.{one_of, has_duplicate}
use kronos_stock.Symbols.{Action, enter, hold, reduce, exit, abstain}
use kronos_stock.Features.Eligibility.{
  data_missing_required, data_stale_required, data_restricted_required, data_cutoff_inconsistent,
  data_snapshot_invalid, scoring_not_allowed,
}
use kronos_stock.Agent.Json.{Json, Members, null, boolean, number, string, array, object, foreign}
use kronos_stock.Agent.Records.{
  Reason, data_ineligible, model_timeout, model_provider_error, model_output_invalid, no_edge,
  offline_shadow_mode, reason_text, reasons, spelled, Condition, Evidence, Request, Gap,
  ProposalError, bad_reason, bad_target, bad_thesis, bad_catalog, forbidden_prose, bad_confidence,
  overflow,
}
use kronos_stock.Agent.Boundary.{Boundary, is_forbidden, validate_prose}
use kronos_stock.Agent.Evidence.{is_gap, unavailable_evidence}
use kronos_stock.Agent.Gaps.{gap_text, gap_from_evidence, find_evidence, normalize_data_gaps}
use kronos_stock.Agent.Citations.{read_text, validate_evidence_ids, validate_conditions}
use kronos_stock.Agent.Rereading.{
  read_text-shown, validate_evidence_ids-checks, validate_conditions-AreConditions,
}
use kronos_stock.Agent.GapCover.{normalize_data_gaps-AreGaps}
use kronos_stock.Agent.Validate.{
  Mode, read_payload, check_identity, field, read_action, allows, as_natural, read_target,
  read_confidence, read_reason, abstain_terms, check_abstain, is_null, action_terms, check_action,
  check_terms, validate_proposal, reason_json,
}
use kronos_stock.Agent.GapReading.{evidence_ids, AreGaps}
use kronos_stock.Agent.Terms.{FloatLaws, IsTarget, catalog_ids, IsAdmissible}

reason_text-spelled : (r : Reason) → spelled reason_text (reason_text r) reasons ≡ some r
unfolding spelled
reason_text-spelled (data_ineligible data_missing_required) = refl
reason_text-spelled (data_ineligible data_stale_required) = refl
reason_text-spelled (data_ineligible data_restricted_required) = refl
reason_text-spelled (data_ineligible data_cutoff_inconsistent) = refl
reason_text-spelled (data_ineligible data_snapshot_invalid) = refl
reason_text-spelled (data_ineligible scoring_not_allowed) = refl
reason_text-spelled model_timeout = refl
reason_text-spelled model_provider_error = refl
reason_text-spelled model_output_invalid = refl
reason_text-spelled no_edge = refl
reason_text-spelled offline_shadow_mode = refl

-- The second mode allows what the first allows.
abbrev pub IsWider : Mode → Mode → Type 0
IsWider m n = (r : Reason) → allows m r ≡ true → allows n r ≡ true

module _ {V : Type 0} (env : Boundary V) where
  pub read_reason-text :
      (n : Mode) (r : Reason)
      → allows n r ≡ true
      → read_reason env n (string (reason_text r)) ≡ ok r
  unfolding read_reason
  read_reason-text n r h = rw (reason_text-spelled r, h)

  read_reason-again :
      (m n : Mode) (j : Json V)
      → IsWider m n
      → IfOk (read_reason env m j) (λ r. read_reason env n (string (reason_text r)) ≡ ok r)
  unfolding read_reason
  read_reason-again m n null w = tt
  read_reason-again m n (boolean b) w = tt
  read_reason-again m n (number v) w = tt
  read_reason-again m n (string s) w =
      after-IfOk _ (or_raise (spelled reason_text s reasons) bad_reason) _ λ r.
        raise_if-IfOk_passed _ (not (allows m r)) bad_reason _
          λ passed. read_reason-text n r (w r (ground arith))
  read_reason-again m n (array js) w = tt
  read_reason-again m n (object ms) w = tt
  read_reason-again m n foreign w = tt

  check_abstain-again :
      (m n : Mode) (thesis : String) (cs : List Condition) (target : V) (confidence : ℕ)
      (j : Json V)
      → IsWider m n
      → IfOk
          (check_abstain env m thesis cs target confidence j)
          (λ r. check_abstain env n thesis cs target confidence (reason_json env r) ≡ ok r)
  unfolding check_abstain
  check_abstain-again m n thesis cs target confidence j w =
      >>=-IfOk _ _ (read_reason env m j) _ (read_reason-again m n j w) λ r again.
        >>=-IfOk _ _ (abstain_terms env thesis cs target confidence r) _
          (IfOk_self (abstain_terms env thesis cs target confidence r))
          λ done passed. rw (again, passed)

  check_action-again :
      (req : Request V) (a : Action) (thesis : String) (cs : List Condition) (ids : List String)
      (target : V) (j : Json V)
      → IfOk
          (check_action env req a thesis cs ids target j)
          (λ r. check_action env req a thesis cs ids target (reason_json env r) ≡ ok r)
  unfolding check_action
  check_action-again req a thesis cs ids target j =
      after-IfOk _ (raise_if (not (is_null env j)) bad_reason) _ λ none_given.
        >>=-IfOk _ _ (action_terms env req a thesis cs ids target) _
          (IfOk_self (action_terms env req a thesis cs ids target)) λ done passed. rw passed

  -- The terms that a proposal passes, it passes with its reason in a wider mode.
  check_terms-again :
      (m n : Mode) (req : Request V) (a : Action) (thesis : String) (cs : List Condition)
      (ids : List String) (target : V) (confidence : ℕ) (j : Json V)
      → IsWider m n
      → IfOk
          (check_terms env m req a thesis cs ids target confidence j)
          (λ r. check_terms env n req a thesis cs ids target confidence (reason_json env r) ≡ ok r)
  unfolding check_terms
  check_terms-again m n req abstain thesis cs ids target confidence j w =
      check_abstain-again m n thesis cs target confidence j w
  check_terms-again m n req enter thesis cs ids target confidence j w =
      check_action-again req enter thesis cs ids target j
  check_terms-again m n req hold thesis cs ids target confidence j w =
      check_action-again req hold thesis cs ids target j
  check_terms-again m n req reduce thesis cs ids target confidence j w =
      check_action-again req reduce thesis cs ids target j
  check_terms-again m n req exit thesis cs ids target confidence j w =
      check_action-again req exit thesis cs ids target j

  float-IsTarget :
      (v w : V) (finite : Bool)
      → FloatLaws env
      → env.numbers.is_finite v ≡ some finite
      → (not finite || env.numbers.less v env.zero || env.numbers.less env.hundred v) ≡ false
      → env.numbers.to_float v ≡ some w
      → IsTarget env w
  float-IsTarget v w false laws f passed e = cc
  float-IsTarget v w true laws f passed e = record {
    finite = laws.finite_float v w f e;
    float = laws.float_again v w e;
    not_negative = laws.above_zero v w e (ground arith);
    at_most_hundred = laws.below_hundred v w e (ground arith);
  }

  read_target-IsTarget : (j : Json V) → FloatLaws env → IfOk (read_target env j) (IsTarget env)
  unfolding read_target
  read_target-IsTarget null laws = tt
  read_target-IsTarget (boolean b) laws = tt
  read_target-IsTarget (number v) laws =
      >>=-IfOk _ _ (or_raise (env.numbers.is_finite v) overflow) _
        (or_raise-IfOk (env.numbers.is_finite v) overflow)
        λ finite f.
          raise_if-IfOk_passed _
            (not finite || env.numbers.less v env.zero || env.numbers.less env.hundred v) bad_target
            _
            λ passed.
              IfOk_map _ _ (or_raise (env.numbers.to_float v) overflow)
                (or_raise-IfOk (env.numbers.to_float v) overflow)
                λ w e. float-IsTarget v w finite laws f passed e
  read_target-IsTarget (string s) laws = tt
  read_target-IsTarget (array js) laws = tt
  read_target-IsTarget (object ms) laws = tt
  read_target-IsTarget foreign laws = tt

  read_confidence-bounded : (j : Json V) → IfOk (read_confidence env j) (λ n. ltb 10000 n ≡ false)
  unfolding read_confidence
  read_confidence-bounded null = tt
  read_confidence-bounded (boolean b) = tt
  read_confidence-bounded (number v) =
      after-IfOk _ (or_raise (as_natural env (env.numbers.as_int v)) bad_confidence) _ λ n.
        raise_if-IfOk_passed (λ k. ltb 10000 k ≡ false) (ltb 10000 n) bad_confidence (ok n) (λ h. h)
  read_confidence-bounded (string s) = tt
  read_confidence-bounded (array js) = tt
  read_confidence-bounded (object ms) = tt
  read_confidence-bounded foreign = tt

-- Distinct ids stay distinct in a part of the evidence.
module _ {V : Type 0} where
  one_of-filter :
      (i : String) (p : Evidence V → Bool) (es : List (Evidence V))
      → one_of i (evidence_ids es) ≡ false
      → one_of i (evidence_ids (filter p es)) ≡ false
  one_of-filter i p [] h = refl
  one_of-filter i p (e ∷ es) h = ground (arith, one_of-filter i p es)

  pub has_duplicate-filter :
      (p : Evidence V → Bool) (es : List (Evidence V))
      → has_duplicate (evidence_ids es) ≡ false
      → has_duplicate (evidence_ids (filter p es)) ≡ false
  unfolding has_duplicate
  has_duplicate-filter p [] h = refl
  has_duplicate-filter p (e ∷ es) h =
      ground (arith, has_duplicate-filter p es, one_of-filter e.id p es)

  find_evidence-clean :
      (f : String → Bool) (i : String) (es : List (Evidence V)) (e : Evidence V)
      → All (λ x. f (gap_text x) ≡ false) es
      → find_evidence i es ≡ some e
      → f (gap_text e) ≡ false
  unfolding find_evidence
  find_evidence-clean f i [] e h k = cc
  find_evidence-clean f i (x ∷ xs) e h k = ground (arith, find_evidence-clean f i xs e)

  -- The texts of gaps are those of unavailable items.
  pub gap_texts_clean :
      (f : String → Bool) (unavailable : List (Evidence V)) (covered : List String) (gs : List Gap)
      → All (λ e. f (gap_text e) ≡ false) unavailable
      → AreGaps unavailable covered gs
      → any f (map (λ g. g.text) gs) ≡ false
  unfolding gap_from_evidence
  gap_texts_clean f unavailable covered [] c h = refl
  gap_texts_clean f unavailable covered (g ∷ gs) c (h, hs) =
      let same : g.text ≡ gap_text h.item = ap (λ x. x.text) h.is_its_gap in
      let clean = find_evidence-clean f g.evidence_id unavailable h.item c h.found in
      rw (same, clean) (gap_texts_clean f unavailable (g.evidence_id ∷ covered) gs c hs)

any-append :
    (f : String → Bool) (as' bs : List String) → any f (as' ++ bs) ≡ (any f as' || any f bs)
any-append f [] bs = refl
any-append f (a ∷ as') bs = ground (arith, any-append f as' bs)

module _ {V : Type 0} (env : Boundary V) where
  -- The copy of every gap of the request passes the prose policy.
  abbrev pub HasCleanGaps : Request V → Type 0
  HasCleanGaps req =
      All (λ e. is_forbidden env req.identity.symbol (gap_text e) ≡ false)
        (unavailable_evidence req.evidence_catalog)

  all_prose :
      (f : String → Bool) (thesis : String) (texts supplied all_gaps : List String)
      → any f (thesis ∷ (texts ++ supplied)) ≡ false
      → any f all_gaps ≡ false
      → any f (thesis ∷ (texts ++ all_gaps)) ≡ false
  all_prose f thesis texts supplied all_gaps h k =
      ground (arith, any-append f texts supplied, any-append f texts all_gaps)

  -- What a reader knows of its value, after the payload's field is fetched.
  read_field :
      {A : Type 0} (P : A → Type 0) (payload : Members V) (key : String)
      (reader : Json V → Result ProposalError A)
      → ((j : Json V) → IfOk (reader j) P)
      → IfOk (field env payload key >>= reader) P
  read_field P payload key reader h = after-IfOk P (field env payload key) reader h

  -- What the validation returns in a mode is admissible in every wider mode.
  pub validate_proposal-IsAdmissible :
      (m n : Mode) (raw : Json V) (req : Request V)
      → FloatLaws env
      → IsWider m n
      → HasCleanGaps req
      → IfOk (validate_proposal env m raw req) (IsAdmissible env n req)
  unfolding validate_proposal validate_prose unavailable_evidence
  validate_proposal-IsAdmissible m n raw req laws w clean =
      let ids_of = catalog_ids req in
      let unavailable = unavailable_evidence req.evidence_catalog in
      after-IfOk _ (read_payload env raw) _ λ payload.
        after-IfOk _ (check_identity env req.identity payload) _ λ same.
          after-IfOk _ (field env payload "action" >>= read_action env) _ λ a.
            >>=-IfOk _ _ (field env payload "target_exposure_pct" >>= read_target env) _
              (read_field _ payload "target_exposure_pct" (read_target env)
                λ j. read_target-IsTarget env j laws)
              λ target is_target.
                >>=-IfOk _ _ (field env payload "confidence_bps" >>= read_confidence env) _
                  (read_field _ payload "confidence_bps" (read_confidence env)
                    (read_confidence-bounded env))
                  λ confidence bounded.
                    >>=-IfOk _ _ (field env payload "thesis" >>= read_text bad_thesis) _
                      (read_field _ payload "thesis" (read_text bad_thesis)
                        (read_text-shown V bad_thesis))
                      λ thesis shown.
                        raise_if-IfOk_passed _ (has_duplicate ids_of) bad_catalog _ λ distinct.
                          >>=-IfOk _ _
                            (field env payload "evidence_ids" >>= validate_evidence_ids ids_of) _
                            (read_field _ payload "evidence_ids" (validate_evidence_ids ids_of)
                              (validate_evidence_ids-checks V ids_of))
                            λ ids cited.
                              >>=-IfOk _ _
                                (field env payload "invalidation_conditions"
                                  >>= validate_conditions ids_of)
                                _
                                (read_field _ payload "invalidation_conditions"
                                  (validate_conditions ids_of)
                                  (validate_conditions-AreConditions V ids_of))
                                λ cs conditions.
                                  >>=-IfOk _ _
                                    (field env payload "data_gaps"
                                      >>= normalize_data_gaps unavailable)
                                    _
                                    (read_field _ payload "data_gaps"
                                      (normalize_data_gaps unavailable)
                                      λ j.
                                        normalize_data_gaps-AreGaps unavailable j (
                                          has_duplicate-filter is_gap req.evidence_catalog
                                            distinct))
                                    λ gaps covering.
                                      raise_if-IfOk_passed _
                                        (any (is_forbidden env req.identity.symbol) (
                                          thesis
                                          ∷ (map (λ c. c.text) cs ++ map (λ g. g.text) gaps.1)))
                                        forbidden_prose _
                                        λ prose.
                                          after-IfOk _ (field env payload "abstain_reason") _ λ r.
                                            >>=-IfOk _ _
                                              (check_terms env m req a thesis cs ids target
                                                confidence r)
                                              _
                                              (check_terms-again env m n req a thesis cs ids target
                                                confidence r w)
                                              λ reason terms. record {
                                                identity = refl;
                                                target = is_target;
                                                confidence = bounded;
                                                thesis = shown;
                                                distinct = distinct;
                                                cited = cited;
                                                conditions = conditions;
                                                gaps = covering.0;
                                                covered = covering.1;
                                                prose =
                                                    all_prose (is_forbidden env req.identity.symbol)
                                                      thesis (map (λ c. c.text) cs)
                                                      (map (λ g. g.text) gaps.1)
                                                      (map (λ g. g.text) gaps.0) prose
                                                      (gap_texts_clean
                                                        (is_forbidden env req.identity.symbol)
                                                        unavailable [] gaps.0 clean covering.0);
                                                terms = terms;
                                              }
