-- ===== src/Agent/Terms.antt =====
-- What a proposal of strategy/paper_agent.py that passes `validate_proposal` is known to be.

use Prim.Native.String.{◌++◌ as str_append}
use Prim.Native.String.append
use kronos_stock.Common.{
  ℕ, String, List, [], ◌∷◌, ◌++◌, ◌≡◌, ◌≢◌, none, refl, Bool, true, false, ◌&&◌, some, ok, ltb, map,
  any,
}
use kronos_stock.Common.Int.{pos}
use kronos_stock.Common.Text.{has_duplicate}
use kronos_stock.Agent.Json.{is_blank}
use kronos_stock.Agent.Records.{Evidence, Request, Proposal}
use kronos_stock.Agent.Boundary.{Boundary, is_forbidden}
use kronos_stock.Agent.Evidence.{unavailable_evidence}
use kronos_stock.Agent.Citations.{check_ids}
use kronos_stock.Agent.Gaps.{shown, gap_text}
use kronos_stock.Agent.Validate.{Mode, check_terms, reason_json, proposal_json}
use kronos_stock.Agent.Rereading.{AreConditions}
use kronos_stock.Agent.GapReading.{evidence_ids, AreGaps, Covers}

and_shrink : (a b c : Bool) → (a && b) ≡ false → (b ≡ false → c ≡ false) → (a && c) ≡ false
and_shrink true b c h k = k h
and_shrink false b c h k = refl

and_false : (a c : Bool) → c ≡ false → (a && c) ≡ false
and_false true c h = h
and_false false c h = refl

is_blank-append_left : (s t : String) → is_blank s ≡ false → is_blank (str_append s t) ≡ false
unfolding is_blank
is_blank-append_left String.[] t h = cc
is_blank-append_left (String.◌∷◌ c s) t h =
    rw (append.cons c s t) (and_shrink _ (is_blank s) _ h (is_blank-append_left s t))

is_blank-append_right : (s t : String) → is_blank t ≡ false → is_blank (str_append s t) ≡ false
unfolding is_blank
is_blank-append_right String.[] t h = rw (append.nil t) h
is_blank-append_right (String.◌∷◌ c s) t h =
    rw (append.cons c s t) (and_false _ _ (is_blank-append_right s t h))

-- The copy of a gap is not blank.
pub gap_text-shown : {V : Type 0} (e : Evidence V) → is_blank (gap_text e) ≡ false
unfolding gap_text is_blank
gap_text-shown e =
    is_blank-append_right (shown e.body.feature_name)
      (str_append " 데이터 상태가 " (str_append e.body.status "입니다."))
      (is_blank-append_left " 데이터 상태가 " (str_append e.body.status "입니다.") refl)

module _ {V : Type 0} where
  -- What the code relies on of Python's numbers: `float()` of a number that is finite and in a
  -- range is a float that is, and is itself from then on; an `int` has its own value.
  pub record FloatLaws (env : Boundary V) : Type 0 where
    pub finite_float :
        (v w : V)
        → env.numbers.is_finite v ≡ some true
        → env.numbers.to_float v ≡ some w
        → env.numbers.is_finite w ≡ some true
    pub finite_defined :
        (v : V) → env.numbers.is_finite v ≡ some true → env.numbers.to_float v ≢ none
    pub float_again : (v w : V) → env.numbers.to_float v ≡ some w → env.numbers.to_float w ≡ some w
    pub above_zero :
        (v w : V)
        → env.numbers.to_float v ≡ some w
        → env.numbers.less v env.zero ≡ false
        → env.numbers.less w env.zero ≡ false
    pub below_hundred :
        (v w : V)
        → env.numbers.to_float v ≡ some w
        → env.numbers.less env.hundred v ≡ false
        → env.numbers.less env.hundred w ≡ false
    pub int_value : (n : ℕ) → env.numbers.as_int (env.numbers.of_int (pos n)) ≡ some (pos n)
    pub zero_finite : env.numbers.is_finite env.zero ≡ some true
    pub zero_float : env.numbers.to_float env.zero ≡ some env.zero
    pub zero_equal : env.numbers.equal env.zero env.zero ≡ true
    -- a proposal that is written as a value can be copied
    pub shallow : (p : Proposal V) → env.copies_too_deep (proposal_json env p) ≡ false
    pub zero_range :
        (env.numbers.less env.zero env.zero ≡ false)
        × (env.numbers.less env.hundred env.zero ≡ false)

  -- A finite float between 0 and 100.
  pub record IsTarget (env : Boundary V) (v : V) : Type 0 where
    pub finite : env.numbers.is_finite v ≡ some true
    pub float : env.numbers.to_float v ≡ some v
    pub not_negative : env.numbers.less v env.zero ≡ false
    pub at_most_hundred : env.numbers.less env.hundred v ≡ false

  abbrev pub catalog_ids : Request V → List String
  catalog_ids req = evidence_ids req.evidence_catalog

  -- A proposal for the request in which nothing breaks the closed contract of the mode.
  pub record IsAdmissible (env : Boundary V) (m : Mode) (req : Request V) (p : Proposal V)
      : Type 0 where
    pub identity : p.identity ≡ req.identity
    pub target : IsTarget env p.target_exposure_pct
    pub confidence : ltb 10000 p.confidence_bps ≡ false
    pub thesis : is_blank p.thesis ≡ false
    pub distinct : has_duplicate (catalog_ids req) ≡ false
    pub cited : check_ids (catalog_ids req) p.evidence_ids ≡ ok p.evidence_ids
    pub conditions : AreConditions (catalog_ids req) p.invalidation_conditions
    pub gaps : AreGaps (unavailable_evidence req.evidence_catalog) [] p.data_gaps
    pub covered : Covers (unavailable_evidence req.evidence_catalog) p.data_gaps
    pub prose :
        any (is_forbidden env req.identity.symbol) (
          p.thesis ∷ (map (λ c. c.text) p.invalidation_conditions ++ map (λ g. g.text) p.data_gaps))
        ≡ false
    pub terms :
        check_terms env m req p.action p.thesis p.invalidation_conditions p.evidence_ids
          p.target_exposure_pct p.confidence_bps
          (reason_json env p.abstain_reason)
        ≡ ok p.abstain_reason
