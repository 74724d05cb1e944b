-- ===== src/Agent/Overflow.antt =====
-- Where what the model answers can be read, `propose` of strategy/paper_agent.py returns: no check of the
-- validation raises what the boundary does not catch.
use kronos_stock.Common.{
  ℕ, String, List, [], ◌∷◌, ◌≡◌, ◌≢◌, refl, Bool, true, false, Option, none, some, Result, ok, err,
  raise_if, or_raise, ◌>>=◌, Returns, Bool-cases, inl, inr, IfOk-ok, IfOk, or_raise-IfOk, ap, ◌∙◌,
  not, ◌||◌, ◌>>◌, after-IfOk, >>=-IfOk, arith,
}
use kronos_stock.Common.Time.{Timestamp, aware, is_sha256}
use kronos_stock.Symbols.{Action, enter, hold, reduce, exit, abstain, Symbol, same_symbol}
use kronos_stock.Features.Records.{SymbolFeatureOutput}
use kronos_stock.Agent.Json.{
  Json, null, boolean, number, string, array, object, foreign, Members, is_blank,
}
use kronos_stock.Agent.Records.{
  Holdings, Request, Proposal, ProposalError, escapes, overflow, Evidence, Identity, Condition,
  Reason, model_output_invalid, model_timeout, model_provider_error, offline_shadow_mode,
  data_ineligible, bad_target, bad_keys, bad_holdings, bad_request,
}
use kronos_stock.Agent.Boundary.{
  Boundary, validate_prose, Loaded, parsed, not_json, nested_too_deep,
}
use kronos_stock.Agent.Request.{
  build_proposal_request, sanitize_holdings, require_amount, assemble_request,
}
use kronos_stock.Agent.Citations.{
  read_list, read_text, read_object, check_ids, validate_evidence_ids, read_condition,
  read_conditions, validate_conditions,
}
use kronos_stock.Agent.Gaps.{read_gap, read_gaps, normalize_data_gaps}
use kronos_stock.Agent.Validate.{
  Mode, model, read_payload, check_identity, read_action, read_target, read_confidence, read_reason,
  abstain_terms, check_abstain, check_exposure, action_terms, check_action, check_terms,
  validate_proposal, field, decode,
}
use kronos_stock.Agent.Propose.{
  Response, propose, returned, timed_out, failed, is_offline, build_abstain_proposal, recover,
  answer, respond, propose_on, anchor_id,
}
use kronos_stock.Agent.FailClosed.{IsBuilt}
use kronos_stock.Common.Int.{ℤ}
use kronos_stock.Agent.Acting.{build_proposal_request-IsBuilt, IsWithinTerms}
use kronos_stock.Features.Eligibility.{AbstainReason}
use kronos_stock.Agent.Terms.{FloatLaws}
use kronos_stock.Agent.Proposing.{propose-IsWithinTerms}
use kronos_stock.Features.Eligible.{IsEligible}

-- If it raises, it is neither an `OverflowError` nor a `RecursionError`.
abbrev pub Catchable : {A : Type 0} → Result ProposalError A → Type 0
Catchable (ok a) = Unit
Catchable (err e) = escapes e ≡ false

bind-Catchable :
    {A B : Type 0} (m : Result ProposalError A) (f : A → Result ProposalError B)
    → Catchable m
    → ((a : A) → Catchable (f a))
    → Catchable (m >>= f)
bind-Catchable (ok a) f h k = k a
bind-Catchable (err e) f h k = h

-- With the value that the first call gives.
bind_known-Catchable :
    {A B : Type 0} (m : Result ProposalError A) (f : A → Result ProposalError B)
    → Catchable m
    → ((a : A) → m ≡ ok a → Catchable (f a))
    → Catchable (m >>= f)
bind_known-Catchable (ok a) f h k = k a refl
bind_known-Catchable (err e) f h k = h

-- Behind a guard its test is false.
guard-Catchable :
    {A : Type 0} (t : Bool) (e : ProposalError) (m : Result ProposalError A)
    → escapes e ≡ false
    → (t ≡ false → Catchable m)
    → Catchable (raise_if t e >> m)
guard-Catchable true e m h k = h
guard-Catchable false e m h k = k refl

raise_if-Catchable : (t : Bool) (e : ProposalError) → escapes e ≡ false → Catchable (raise_if t e)
raise_if-Catchable true e h = h
raise_if-Catchable false e h = tt

or_raise-Catchable :
    {A : Type 0} (o : Option A) (e : ProposalError) → escapes e ≡ false → Catchable (or_raise o e)
or_raise-Catchable none e h = h
or_raise-Catchable (some a) e h = tt

some-Catchable :
    {A : Type 0} (o : Option A) (e : ProposalError) → o ≢ none → Catchable (or_raise o e)
some-Catchable none e h = absurd (h refl)
some-Catchable (some a) e h = tt

ruleset caught = (bind-Catchable, raise_if-Catchable, or_raise-Catchable)

read_list-Catchable :
    {V : Type 0} (e : ProposalError) (j : Json V) → escapes e ≡ false → Catchable (read_list e j)
unfolding read_list
read_list-Catchable e null h = h
read_list-Catchable e (boolean b) h = h
read_list-Catchable e (number v) h = h
read_list-Catchable e (string s) h = h
read_list-Catchable e (array js) h = tt
read_list-Catchable e (object ms) h = h
read_list-Catchable e foreign h = h

read_text-Catchable :
    {V : Type 0} (e : ProposalError) (j : Json V) → escapes e ≡ false → Catchable (read_text e j)
unfolding read_text
read_text-Catchable e null h = h
read_text-Catchable e (boolean b) h = h
read_text-Catchable e (number v) h = h
read_text-Catchable e (string s) h = search caught depth 8
read_text-Catchable e (array js) h = h
read_text-Catchable e (object ms) h = h
read_text-Catchable e foreign h = h

module _ {V : Type 0} where
  read_object-Catchable :
      (e : ProposalError) (keys : List String) (j : Json V)
      → escapes e ≡ false
      → Catchable (read_object e keys j)
  unfolding read_object
  read_object-Catchable e keys null h = h
  read_object-Catchable e keys (boolean b) h = h
  read_object-Catchable e keys (number v) h = h
  read_object-Catchable e keys (string s) h = h
  read_object-Catchable e keys (array js) h = h
  read_object-Catchable e keys (object ms) h = search caught depth 8
  read_object-Catchable e keys foreign h = h

  validate_evidence_ids-Catchable :
      (ids : List String) (j : Json V) → Catchable (validate_evidence_ids ids j)
  unfolding validate_evidence_ids check_ids
  validate_evidence_ids-Catchable ids j = search (caught, read_list-Catchable) depth 16

  read_condition-Catchable : (ids : List String) (j : Json V) → Catchable (read_condition ids j)
  unfolding read_condition
  read_condition-Catchable ids j =
      search
        (caught, read_object-Catchable, read_text-Catchable, validate_evidence_ids-Catchable ids)
        depth 16

  read_conditions-Catchable :
      (ids : List String) (js : List (Json V)) → Catchable (read_conditions ids js)
  unfolding read_conditions
  read_conditions-Catchable ids [] = tt
  read_conditions-Catchable ids (j ∷ js) =
      search (caught, read_condition-Catchable ids, read_conditions-Catchable ids js) depth 8

  validate_conditions-Catchable :
      (ids : List String) (j : Json V) → Catchable (validate_conditions ids j)
  unfolding validate_conditions
  validate_conditions-Catchable ids j =
      search (caught, read_list-Catchable, read_conditions-Catchable ids) depth 8

  read_gap-Catchable :
      (unavailable : List (Evidence V)) (covered : List String) (j : Json V)
      → Catchable (read_gap unavailable covered j)
  unfolding read_gap
  read_gap-Catchable unavailable covered j =
      search (caught, read_object-Catchable, read_text-Catchable, read_list-Catchable) depth 40

  read_gaps-Catchable :
      (unavailable : List (Evidence V)) (covered : List String) (js : List (Json V))
      → Catchable (read_gaps unavailable covered js)
  unfolding read_gaps
  read_gaps-Catchable unavailable covered [] = tt
  read_gaps-Catchable unavailable covered (j ∷ js) =
      bind-Catchable (read_gap unavailable covered j) _ (read_gap-Catchable unavailable covered j)
        λ g.
          bind-Catchable (read_gaps unavailable (g.evidence_id ∷ covered) js) _
            (read_gaps-Catchable unavailable (g.evidence_id ∷ covered) js) λ gs. tt

  normalize_data_gaps-Catchable :
      (unavailable : List (Evidence V)) (j : Json V) → Catchable (normalize_data_gaps unavailable j)
  unfolding normalize_data_gaps
  normalize_data_gaps-Catchable unavailable j =
      search (caught, read_list-Catchable, read_gaps-Catchable unavailable []) depth 8

module _ {V : Type 0} (env : Boundary V) where
  -- JSON text that can be parsed, or a mapping that can be copied, without a `RecursionError`.
  abbrev pub IsShallow : Json V → Type 0
  IsShallow (string s) = env.loads s ≢ nested_too_deep
  IsShallow (object ms) = env.copies_too_deep (object ms) ≡ false
  IsShallow j = Unit

  -- And its target, if it is a number, is one of which `math.isfinite` can tell.
  pub record IsReadable (raw : Json V) : Type 0 where
    pub shallow : IsShallow raw
    pub target :
        (payload : Members V) (v : V)
        → read_payload env raw ≡ ok payload
        → field env payload "target_exposure_pct" ≡ ok (number v)
        → env.numbers.is_finite v ≢ none

  abbrev pub Reads : Response V → Type 0
  Reads (returned raw) = IsReadable raw
  Reads timed_out = Unit
  Reads failed = Unit

  decode-Catchable : (o : Loaded V) → o ≢ nested_too_deep → Catchable (decode env o)
  decode-Catchable (parsed j) h = tt
  decode-Catchable not_json h = refl
  decode-Catchable nested_too_deep h = absurd (h refl)

  read_payload-Catchable : (j : Json V) → IsShallow j → Catchable (read_payload env j)
  unfolding read_payload
  read_payload-Catchable null h = search (caught, read_object-Catchable) depth 8
  read_payload-Catchable (boolean b) h = search (caught, read_object-Catchable) depth 8
  read_payload-Catchable (number v) h = search (caught, read_object-Catchable) depth 8
  read_payload-Catchable (string s) h =
      bind-Catchable (decode env (env.loads s)) _ (decode-Catchable (env.loads s) h)
        λ j. search (caught, read_object-Catchable) depth 8
  read_payload-Catchable (array js) h = search (caught, read_object-Catchable) depth 8
  read_payload-Catchable (object ms) h = rw h (search (caught, read_object-Catchable) depth 8)
  read_payload-Catchable foreign h = search (caught, read_object-Catchable) depth 8

  check_identity-Catchable :
      (i : Identity) (payload : Members V) → Catchable (check_identity env i payload)
  unfolding check_identity
  check_identity-Catchable i payload = search caught depth 40

  read_action-Catchable : (j : Json V) → Catchable (read_action env j)
  unfolding read_action
  read_action-Catchable null = refl
  read_action-Catchable (boolean b) = refl
  read_action-Catchable (number v) = refl
  read_action-Catchable (string s) = search caught depth 8
  read_action-Catchable (array js) = refl
  read_action-Catchable (object ms) = refl
  read_action-Catchable foreign = refl

  not_or : (a b c : Bool) → (not a || b || c) ≡ false → a ≡ true
  not_or a b c h = ground arith

  read_target-Catchable :
      FloatLaws env
      → (j : Json V) → ((v : V) → j ≡ number v → env.numbers.is_finite v ≢ none)
      → Catchable (read_target env j)
  unfolding read_target
  read_target-Catchable laws null told = refl
  read_target-Catchable laws (boolean b) told = refl
  read_target-Catchable laws (number v) told =
      bind_known-Catchable (or_raise (env.numbers.is_finite v) overflow) _
        (some-Catchable (env.numbers.is_finite v) overflow (told v refl))
        λ finite e.
          guard-Catchable
            (not finite || env.numbers.less v env.zero || env.numbers.less env.hundred v) bad_target
            (or_raise (env.numbers.to_float v) overflow) refl
            λ h. some-Catchable (env.numbers.to_float v) overflow (
              laws.finite_defined v (
                IfOk-ok (λ x. env.numbers.is_finite v ≡ some x)
                  (or_raise (env.numbers.is_finite v) overflow)
                  (or_raise-IfOk (env.numbers.is_finite v) overflow) e
                ∙ ap (λ x. some x) (not_or finite _ _ h)))
  read_target-Catchable laws (string s) told = refl
  read_target-Catchable laws (array js) told = refl
  read_target-Catchable laws (object ms) told = refl
  read_target-Catchable laws foreign told = refl

  read_confidence-Catchable : (j : Json V) → Catchable (read_confidence env j)
  unfolding read_confidence
  read_confidence-Catchable null = refl
  read_confidence-Catchable (boolean b) = refl
  read_confidence-Catchable (number v) = search caught depth 8
  read_confidence-Catchable (string s) = refl
  read_confidence-Catchable (array js) = refl
  read_confidence-Catchable (object ms) = refl
  read_confidence-Catchable foreign = refl

  read_reason-Catchable : (m : Mode) (j : Json V) → Catchable (read_reason env m j)
  unfolding read_reason
  read_reason-Catchable m null = refl
  read_reason-Catchable m (boolean b) = refl
  read_reason-Catchable m (number v) = refl
  read_reason-Catchable m (string s) = search caught depth 8
  read_reason-Catchable m (array js) = refl
  read_reason-Catchable m (object ms) = refl
  read_reason-Catchable m foreign = refl

  check_abstain-Catchable :
      (m : Mode) (thesis : String) (cs : List Condition) (target : V) (confidence : ℕ) (j : Json V)
      → Catchable (check_abstain env m thesis cs target confidence j)
  unfolding check_abstain abstain_terms
  check_abstain-Catchable m thesis cs target confidence j =
      search (caught, read_reason-Catchable m) depth 16

  check_exposure-Catchable :
      (a : Action) (target current : V) (quantity : ℤ)
      → Catchable (check_exposure env a target current quantity)
  unfolding check_exposure
  check_exposure-Catchable enter target current quantity = search caught depth 8
  check_exposure-Catchable hold target current quantity = search caught depth 8
  check_exposure-Catchable reduce target current quantity = search caught depth 8
  check_exposure-Catchable exit target current quantity = search caught depth 8
  check_exposure-Catchable abstain target current quantity = tt

  check_action-Catchable :
      (req : Request V) (a : Action) (thesis : String) (cs : List Condition) (ids : List String)
      (target : V) (j : Json V)
      → env.numbers.to_float req.holdings.current_exposure_pct ≢ none
      → Catchable (check_action env req a thesis cs ids target j)
  unfolding check_action action_terms
  check_action-Catchable req a thesis cs ids target j exposed =
      let exposure = req.holdings.current_exposure_pct in
      search
        (
          caught,
          some-Catchable (env.numbers.to_float exposure) overflow exposed,
          check_exposure-Catchable,
        )
        depth 20

  check_terms-Catchable :
      (m : Mode) (req : Request V) (a : Action) (thesis : String) (cs : List Condition)
      (ids : List String) (target : V) (confidence : ℕ) (j : Json V)
      → env.numbers.to_float req.holdings.current_exposure_pct ≢ none
      → Catchable (check_terms env m req a thesis cs ids target confidence j)
  unfolding check_terms
  check_terms-Catchable m req abstain thesis cs ids target confidence j exposed =
      check_abstain-Catchable m thesis cs target confidence j
  check_terms-Catchable m req enter thesis cs ids target confidence j exposed =
      check_action-Catchable req enter thesis cs ids target j exposed
  check_terms-Catchable m req hold thesis cs ids target confidence j exposed =
      check_action-Catchable req hold thesis cs ids target j exposed
  check_terms-Catchable m req reduce thesis cs ids target confidence j exposed =
      check_action-Catchable req reduce thesis cs ids target j exposed
  check_terms-Catchable m req exit thesis cs ids target confidence j exposed =
      check_action-Catchable req exit thesis cs ids target j exposed

  -- The steps of the validation behind the target.
  validate_proposal-Catchable :
      (m : Mode) (raw : Json V) (req : Request V)
      → FloatLaws env
      → IsReadable raw
      → env.numbers.to_float req.holdings.current_exposure_pct ≢ none
      → Catchable (validate_proposal env m raw req)
  unfolding validate_proposal validate_prose
  validate_proposal-Catchable m raw req laws readable exposed =
      bind_known-Catchable (read_payload env raw) _ (read_payload-Catchable raw readable.shallow)
        λ payload read.
          bind-Catchable (check_identity env req.identity payload) _
            (check_identity-Catchable req.identity payload)
            λ same.
              bind-Catchable (field env payload "action" >>= read_action env) _
                (search (caught, read_action-Catchable) depth 8)
                λ a.
                  bind-Catchable (field env payload "target_exposure_pct" >>= read_target env) _
                    (bind_known-Catchable (field env payload "target_exposure_pct")
                      (read_target env) (or_raise-Catchable _ bad_keys refl)
                      λ j e.
                        read_target-Catchable laws j
                          λ v k. readable.target payload v read (e ∙ ap (λ x. ok x) k))
                    λ target.
                      search
                        (
                          caught, read_confidence-Catchable, read_text-Catchable,
                          validate_evidence_ids-Catchable, validate_conditions-Catchable,
                          normalize_data_gaps-Catchable, check_terms-Catchable, exposed,
                        )
                        depth 60

  IsAnchored : Request V → Type 0
  IsAnchored req = (anchor : String) × (anchor_id env req.evidence_catalog ≡ some anchor)

  build_abstain_proposal-Returns :
      (req : Request V) (r : Reason)
      → IsAnchored req
      → Returns (build_abstain_proposal env req r) (λ p. Unit)
  unfolding build_abstain_proposal IsAnchored
  build_abstain_proposal-Returns req r anchored = rw (anchored.1) tt

  recover-Returns :
      (req : Request V) (result : Result ProposalError (Proposal V))
      → IsAnchored req
      → Catchable result
      → Returns (recover env req result) (λ p. Unit)
  unfolding recover
  recover-Returns req (ok p) anchored h = tt
  recover-Returns req (err e) anchored h =
      rw h (build_abstain_proposal-Returns req model_output_invalid anchored)

  answer-Returns :
      (req : Request V) (r : Response V)
      → IsAnchored req
      → FloatLaws env
      → Reads r
      → env.numbers.to_float req.holdings.current_exposure_pct ≢ none
      → Returns (answer env req r) (λ p. Unit)
  unfolding answer
  answer-Returns req timed_out anchored laws h exposed =
      build_abstain_proposal-Returns req model_timeout anchored
  answer-Returns req failed anchored laws h exposed =
      build_abstain_proposal-Returns req model_provider_error anchored
  answer-Returns req (returned raw) anchored laws h exposed =
      elim (Bool-cases (is_offline env raw)) [
        | inl offline ↦ rw offline (build_abstain_proposal-Returns req offline_shadow_mode anchored)
        | inr online ↦ rw online (
            recover-Returns req (validate_proposal env model raw req) anchored
              (validate_proposal-Catchable model raw req laws h exposed))
      ]

  respond-Returns :
      (transport : Request V → Response V) (req : Request V) (reason : Option AbstainReason)
      → IsAnchored req
      → FloatLaws env
      → Reads (transport req)
      → env.numbers.to_float req.holdings.current_exposure_pct ≢ none
      → Returns (respond env transport req reason) (λ p. Unit)
  unfolding respond
  respond-Returns transport req none anchored laws h exposed =
      answer-Returns req (transport req) anchored laws h exposed
  respond-Returns transport req (some reason) anchored laws h exposed =
      build_abstain_proposal-Returns req (data_ineligible reason) anchored

  propose_on-Returns :
      (transport : Request V → Response V) (req : Request V)
      → IsAnchored req
      → FloatLaws env
      → Reads (transport req)
      → env.numbers.to_float req.holdings.current_exposure_pct ≢ none
      → Returns (propose_on env transport req) (λ p. Unit)
  unfolding propose_on
  propose_on-Returns transport req anchored laws h exposed =
      respond-Returns transport req req.pre_model_abstain_reason anchored laws h exposed

  both-Returns :
      (P : Proposal V → Type 0) (result : Result ProposalError (Proposal V))
      → Returns result (λ p. Unit)
      → IfOk result P
      → Returns result P
  both-Returns P (ok p) h k = k
  both-Returns P (err e) h k = h

  require_amount-finite :
      (v : V) → IfOk (require_amount env v) (λ u. env.numbers.is_finite v ≡ some true)
  unfolding require_amount
  require_amount-finite v = ground arith

  -- The exposure of a request's holdings was found to be finite.
  sanitize_holdings-finite :
      (h : Holdings V) (symbol : Symbol)
      → IfOk
          (sanitize_holdings env h symbol)
          (λ h'. env.numbers.is_finite h'.current_exposure_pct ≡ some true)
  unfolding sanitize_holdings require_amount
  sanitize_holdings-finite h symbol =
      after-IfOk _ (raise_if (not (same_symbol h.symbol symbol)) bad_holdings) _ λ a.
        after-IfOk _ (require_amount env h.cash_krw) _ λ b.
          after-IfOk _ (require_amount env h.market_value_krw) _ λ c.
            after-IfOk _ (require_amount env h.total_equity_krw) _ λ d.
              >>=-IfOk _ _ (require_amount env h.current_exposure_pct) _
                (require_amount-finite h.current_exposure_pct)
                λ u finite. search (after-IfOk, finite) depth 20

  build_proposal_request-finite :
      (output : SymbolFeatureOutput V) (holdings : Holdings V) (limit : V)
      (provider name run decision sha256 : String) (cutoff : Timestamp)
      → IfOk
          (build_proposal_request env output holdings limit provider name run decision sha256
            cutoff)
          (λ req. env.numbers.is_finite req.holdings.current_exposure_pct ≡ some true)
  unfolding build_proposal_request assemble_request
  build_proposal_request-finite output holdings limit provider name run decision sha256 cutoff =
      after-IfOk _ (raise_if (is_blank provider) bad_request) _ λ a.
        after-IfOk _ (raise_if (is_blank name) bad_request) _ λ b.
          after-IfOk _ (raise_if (is_blank run) bad_request) _ λ c.
            after-IfOk _ (raise_if (is_blank decision) bad_request) _ λ d.
              after-IfOk _ (raise_if (not (is_sha256 sha256)) bad_request) _ λ e.
                after-IfOk _ (or_raise (aware cutoff.reading) bad_request) _ λ parsed.
                  >>=-IfOk _ _ (sanitize_holdings env holdings output.symbol) _
                    (sanitize_holdings-finite holdings output.symbol)
                    λ held finite. search (after-IfOk, finite) depth 20

  -- Let a request be built and let Python's numbers keep the laws of `float`. If the transport fails,
  -- times out, or answers with what can be read (text that parses or a mapping that can be copied
  -- without a `RecursionError`, with a target that is no number or one of which `math.isfinite` can
  -- tell), then `propose` returns a proposal. If it is not an ABSTAIN, the snapshot is eligible and the
  -- proposal is within the terms of its action.
  pub propose-Returns :
      (transport : Request V → Response V) (output : SymbolFeatureOutput V) (holdings : Holdings V)
      (limit : V) (provider name run decision sha256 : String) (cutoff : Timestamp)
      (req : Request V)
      → build_proposal_request env output holdings limit provider name run decision sha256 cutoff
        ≡ ok req
      → FloatLaws env
      → Reads (transport req)
      → Returns
          (propose env transport output holdings limit provider name run decision sha256 cutoff)
          (λ p.
            p.action ≢ abstain
            → IsEligible env.canonical_output_id output cutoff × IsWithinTerms env req p)
  unfolding propose IsAnchored
  propose-Returns transport output holdings limit provider name run decision sha256 cutoff req built
        laws reads =
      let finite =
        IfOk-ok _ _
          (build_proposal_request-finite output holdings limit provider name run decision sha256
            cutoff)
          built in
      let is_built =
        IfOk-ok (IsBuilt env output cutoff) _
          (build_proposal_request-IsBuilt env output holdings limit provider name run decision
            sha256 cutoff)
          built in
      both-Returns _
        (propose env transport output holdings limit provider name run decision sha256 cutoff)
        (rw built (
          propose_on-Returns transport req is_built.anchored laws reads
            (laws.finite_defined req.holdings.current_exposure_pct finite)))
        (propose-IsWithinTerms env transport output holdings limit provider name run decision sha256
          cutoff req built)
