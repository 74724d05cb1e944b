-- ===== src/Evaluation/ShadowAudit.antt =====
-- What a shadow audit that succeeds has established.
use kronos_stock.Common.{
  ◌≤◌, ◌<◌, ◌≡◌, ◌≢◌, refl, String, List, [], ◌∷◌, Bool, true, false, not, ok, any, length, str_eq,
  eq_iff, arith, IfOk, >>=-IfOk, raise_if-IfOk_passed, IfOk-ok, All,
}
use kronos_stock.Common.Int.{pos}
use kronos_stock.Common.Time.{Moment, Timestamp, is_sha256}
use kronos_stock.Evaluation.Records.{
  malformed_sha, economic_mutation, inconsistent_lineage, missing_chronology,
  persisted_after_outcome, wrong_commitment,
}
use kronos_stock.Evaluation.Validate.{parse_kst}
use kronos_stock.Evaluation.Causality.{Reads, parse_kst-Reads}
use kronos_stock.Evaluation.Shadow.{
  ShadowAuditInput, ShadowAuditResult, mutates, same_ids, has_duplicate, lineage_broken,
  chronology_missing, parse_all, out_of_order, audit_shadow,
}

same_ids-eq : (as' bs : List String) → same_ids as' bs ≡ true → as' ≡ bs
unfolding same_ids
same_ids-eq [] [] h = refl
same_ids-eq [] (b ∷ bs) h = cc
same_ids-eq (a ∷ as') [] h = cc
same_ids-eq (a ∷ as') (b ∷ bs) h = ground (arith, eq_iff a b, same_ids-eq as' bs)

-- No text stands twice in the list.
abbrev pub AllDistinct : List String → Type 0
AllDistinct [] = Unit
AllDistinct (s ∷ ss) = All (λ r. s ≢ r) ss × AllDistinct ss

any-false-All : (s : String) (ss : List String) → any (str_eq s) ss ≡ false → All (λ r. s ≢ r) ss
any-false-All s [] h = tt
any-false-All s (r ∷ rs) h = ground (arith, eq_iff s r, any-false-All s rs)

has_duplicate-AllDistinct : (ss : List String) → has_duplicate ss ≡ false → AllDistinct ss
unfolding has_duplicate
has_duplicate-AllDistinct [] h = tt
has_duplicate-AllDistinct (s ∷ ss) h =
    ground (arith, any-false-All s ss, has_duplicate-AllDistinct ss)

-- The four times of each decision are in order.
abbrev pub InOrder : List Timestamp → List Timestamp → List Timestamp → List Timestamp → Type 0
InOrder [] [] [] [] = Unit
InOrder (p ∷ ps) (q ∷ qs) (r ∷ rs) (o ∷ os) =
    ((a : Moment) × (b : Moment) × (c : Moment) × (d : Moment) × Reads p a
      × Reads q b
      × Reads r c
      × Reads o d
      × (a.instant ≤ b.instant)
      × (b.instant ≤ c.instant)
      × (c.instant < d.instant))
    × InOrder ps qs rs os
InOrder _ _ _ _ = ⊥

abbrev AllRead : List Timestamp → List Moment → Type 0
AllRead [] [] = Unit
AllRead (t ∷ ts) (m ∷ ms) = Reads t m × AllRead ts ms
AllRead _ _ = ⊥

parse_all-AllRead : (ts : List Timestamp) → IfOk (parse_all ts) (AllRead ts)
unfolding parse_all
parse_all-AllRead [] = tt
parse_all-AllRead (t ∷ ts) =
    >>=-IfOk (Reads t) (AllRead (t ∷ ts)) (parse_kst t) _ (parse_kst-Reads t) λ m hm.
      >>=-IfOk (AllRead ts) (AllRead (t ∷ ts)) (parse_all ts) _ (parse_all-AllRead ts)
        λ ms hms. (hm, hms)

out_of_order-InOrder :
    (ps qs rs os : List Timestamp) (as' bs cs ds : List Moment)
    → AllRead ps as'
    → AllRead qs bs
    → AllRead rs cs
    → AllRead os ds
    → length qs ≡ length ps
    → length rs ≡ length ps
    → length os ≡ length ps
    → out_of_order as' bs cs ds ≡ false
    → InOrder ps qs rs os
unfolding out_of_order
out_of_order-InOrder [] [] [] [] as' bs cs ds h₁ h₂ h₃ h₄ e₁ e₂ e₃ h = tt
out_of_order-InOrder [] (q ∷ qs) rs os as' bs cs ds h₁ h₂ h₃ h₄ e₁ e₂ e₃ h = absurd (omega arith)
out_of_order-InOrder [] [] (r ∷ rs) os as' bs cs ds h₁ h₂ h₃ h₄ e₁ e₂ e₃ h = absurd (omega arith)
out_of_order-InOrder [] [] [] (o ∷ os) as' bs cs ds h₁ h₂ h₃ h₄ e₁ e₂ e₃ h = absurd (omega arith)
out_of_order-InOrder (p ∷ ps) [] rs os as' bs cs ds h₁ h₂ h₃ h₄ e₁ e₂ e₃ h = absurd (omega arith)
out_of_order-InOrder (p ∷ ps) (q ∷ qs) [] os as' bs cs ds h₁ h₂ h₃ h₄ e₁ e₂ e₃ h =
    absurd (omega arith)
out_of_order-InOrder (p ∷ ps) (q ∷ qs) (r ∷ rs) [] as' bs cs ds h₁ h₂ h₃ h₄ e₁ e₂ e₃ h =
    absurd (omega arith)
out_of_order-InOrder (p ∷ ps) (q ∷ qs) (r ∷ rs) (o ∷ os) (a ∷ as') (b ∷ bs) (c ∷ cs) (d ∷ ds) h₁ h₂
      h₃ h₄ e₁ e₂ e₃ h =
    (
      (a, b, c, d, h₁.0, h₂.0, h₃.0, h₄.0, ground arith, ground arith, ground arith),
      out_of_order-InOrder ps qs rs os as' bs cs ds h₁.1 h₂.1 h₃.1 h₄.1 (omega arith) (omega arith)
          (omega arith) (ground arith),
    )
out_of_order-InOrder (p ∷ ps) (q ∷ qs) (r ∷ rs) (o ∷ os) [] bs cs ds h₁ h₂ h₃ h₄ e₁ e₂ e₃ h =
    elim h₁ [ ]
out_of_order-InOrder (p ∷ ps) (q ∷ qs) (r ∷ rs) (o ∷ os) (a ∷ as') [] cs ds h₁ h₂ h₃ h₄ e₁ e₂ e₃ h =
    elim h₂ [ ]
out_of_order-InOrder (p ∷ ps) (q ∷ qs) (r ∷ rs) (o ∷ os) (a ∷ as') (b ∷ bs) [] ds h₁ h₂ h₃ h₄ e₁ e₂
      e₃ h =
    elim h₃ [ ]
out_of_order-InOrder (p ∷ ps) (q ∷ qs) (r ∷ rs) (o ∷ os) (a ∷ as') (b ∷ bs) (c ∷ cs) [] h₁ h₂ h₃ h₄
      e₁ e₂ e₃ h =
    elim h₄ [ ]

-- What the audit certifies of the evidence.
pub record IsAudited (digest : ShadowAuditInput → String) (e : ShadowAuditInput) : Type 0 where
  pub no_orders : e.orders_count ≡ 0
  pub no_fills : e.fills_count ≡ 0
  pub cash_kept : e.cash_mutation_krw ≡ pos 0
  pub positions_kept : e.position_mutation_quantity ≡ pos 0
  pub some_decisions : 1 ≤ e.decisions_count
  pub decisions_counted : length e.decision_ids ≡ e.decisions_count
  pub decisions_distinct : AllDistinct e.decision_ids
  pub proposals_match : e.proposal_decision_ids ≡ e.decision_ids
  pub reviews_match : e.review_decision_ids ≡ e.decision_ids
  pub ordered :
      InOrder e.persisted_ats e.proposal_persisted_ats e.review_persisted_ats e.outcome_ats
  pub committed : e.evidence_sha256 ≡ digest e

mutates_none :
    (e : ShadowAuditInput)
    → mutates e ≡ false
    → (e.orders_count ≡ 0)
      × (e.fills_count ≡ 0)
      × (e.cash_mutation_krw ≡ pos 0)
      × (e.position_mutation_quantity ≡ pos 0)
unfolding mutates
mutates_none e h = ground arith

lineage_holds :
    (e : ShadowAuditInput)
    → lineage_broken e ≡ false
    → (length e.decision_ids ≡ e.decisions_count)
      × AllDistinct e.decision_ids
      × (e.proposal_decision_ids ≡ e.decision_ids)
      × (e.review_decision_ids ≡ e.decision_ids)
unfolding lineage_broken
lineage_holds e h = ground (
  arith,
  has_duplicate-AllDistinct e.decision_ids,
  same_ids-eq e.proposal_decision_ids e.decision_ids,
  same_ids-eq e.review_decision_ids e.decision_ids,
)

chronology_present :
    (e : ShadowAuditInput)
    → chronology_missing e ≡ false
    → (1 ≤ length e.decision_ids)
      × (length e.persisted_ats ≡ length e.decision_ids)
      × (length e.proposal_persisted_ats ≡ length e.persisted_ats)
      × (length e.review_persisted_ats ≡ length e.persisted_ats)
      × (length e.outcome_ats ≡ length e.persisted_ats)
unfolding chronology_missing
chronology_present e h = ground arith

audit_shadow-IsAudited :
    (digest : ShadowAuditInput → String) (e : ShadowAuditInput)
    → IfOk (audit_shadow digest e) (λ r. IsAudited digest e × (r.activation_performed ≡ false))
unfolding audit_shadow
audit_shadow-IsAudited digest e =
    let P : ShadowAuditResult → Type 0 =
      λ r. IsAudited digest e × (r.activation_performed ≡ false) in
    raise_if-IfOk_passed P (not (is_sha256 e.evidence_sha256)) malformed_sha _ λ formed.
      raise_if-IfOk_passed P (mutates e) economic_mutation _ λ unmoved.
        raise_if-IfOk_passed P (lineage_broken e) inconsistent_lineage _ λ lineage.
          raise_if-IfOk_passed P (chronology_missing e) missing_chronology _ λ present.
            >>=-IfOk (AllRead e.persisted_ats) P (parse_all e.persisted_ats) _
              (parse_all-AllRead e.persisted_ats)
              λ ps hp.
                >>=-IfOk (AllRead e.proposal_persisted_ats) P (parse_all e.proposal_persisted_ats) _
                  (parse_all-AllRead e.proposal_persisted_ats)
                  λ qs hq.
                    >>=-IfOk (AllRead e.review_persisted_ats) P (parse_all e.review_persisted_ats) _
                      (parse_all-AllRead e.review_persisted_ats)
                      λ rs hr.
                        >>=-IfOk (AllRead e.outcome_ats) P (parse_all e.outcome_ats) _
                          (parse_all-AllRead e.outcome_ats)
                          λ os ho.
                            raise_if-IfOk_passed P (out_of_order ps qs rs os)
                              persisted_after_outcome _
                              λ sorted.
                                raise_if-IfOk_passed P (not (str_eq e.evidence_sha256 (digest e)))
                                  wrong_commitment _
                                  λ same.
                                    let (no_orders, no_fills, cash, positions) =
                                      mutates_none e unmoved in
                                    let (counted, distinct, proposals, reviews) =
                                      lineage_holds e lineage in
                                    let (some', n₁, n₂, n₃, n₄) = chronology_present e present in
                                    let held : IsAudited digest e × (◌≡◌ {A = Bool} false false) = (
                                      record {
                                        no_orders = no_orders;
                                        no_fills = no_fills;
                                        cash_kept = cash;
                                        positions_kept = positions;
                                        some_decisions = omega arith;
                                        decisions_counted = counted;
                                        decisions_distinct = distinct;
                                        proposals_match = proposals;
                                        reviews_match = reviews;
                                        ordered =
                                            out_of_order-InOrder e.persisted_ats
                                              e.proposal_persisted_ats e.review_persisted_ats
                                              e.outcome_ats ps qs rs os hp hq hr ho n₂ n₃ n₄ sorted;
                                        committed =
                                            ground (arith, eq_iff e.evidence_sha256 (digest e));
                                      },
                                      refl,
                                    ) in
                                    held

-- A shadow audit that succeeds has seen evidence with no orders, no fills and no change of cash or
-- positions; with at least one decision, whose identities are counted, distinct, and the same, in
-- order, in the proposals and the reviews; in which each decision was persisted no later than its
-- proposal, that no later than its review, and that before its outcome; and whose commitment is
-- the digest of the evidence. Its result activates nothing.
pub audit_shadow_sound :
    (digest : ShadowAuditInput → String) (e : ShadowAuditInput) {r : ShadowAuditResult}
    → audit_shadow digest e ≡ ok r
    → IsAudited digest e × (r.activation_performed ≡ false)
audit_shadow_sound digest e h =
    IfOk-ok (λ r. IsAudited digest e × (r.activation_performed ≡ false)) (audit_shadow digest e)
      (audit_shadow-IsAudited digest e) h
