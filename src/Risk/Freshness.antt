-- ===== src/Risk/Freshness.antt =====
-- What has passed the checks of the switches and of the data.
use kronos_stock.Common.{
  ℕ, ◌+◌, ◌≤◌, ◌≡◌, ◌≢◌, refl, Bool, true, false, not, String, List, [], ◌∷◌, Option, none, some,
  Result, ok, err, arith, IfOk, >>=-IfOk, raise_if-IfOk_passed, or_raise-IfOk, All, any, ltb, ◌>>=◌,
  ◌>>◌, raise_if, Option-cases, inl, inr, ◌||◌, ◌⊎◌, ◌<◌, after-IfOk, or_raise,
}
use kronos_stock.Common.Time.{Moment, Timestamp, nine_hours, seconds}
use kronos_stock.Features.Records.{NumberOps, SymbolFeatureOutput, EngineFeature, group_order}
use kronos_stock.Features.Eligibility.{rows_of, pre_model_abstain_reason}
use kronos_stock.Features.Eligible.{IsEligible, IsObservedBy, pre_model_abstain_reason-IsEligible}
use kronos_stock.Risk.Records.{
  RiskPolicy, RiskInput, trading_disabled, kill_switch_active, duplicate_session, stale_data,
  bad_time, RejectReason, bad_label, long_duration, RiskError,
}
use kronos_stock.Risk.Evaluate.{
  Exit, rejected, nothing, raised, kst_time, observations, out_of_window, is_nil, is_some,
  check_state, longest_duration,
}

-- No older than the limit, and not in the future.
abbrev pub InWindow : ℕ → Moment → Moment → Type 0
InWindow max_age later m = (m.instant ≤ later.instant) × (later.instant ≤ m.instant + max_age)

abbrev pub ReadsAs : Timestamp → Moment → Type 0
ReadsAs t m = nine_hours t.reading ≡ some m

kst_time-ReadsAs : (t : Timestamp) → IfOk (kst_time t) (ReadsAs t)
unfolding kst_time
kst_time-ReadsAs t =
    after-IfOk _ (raise_if (bad_label t.text) (raised bad_time)) _
      λ labelled. or_raise-IfOk (nine_hours t.reading) (raised bad_time)

-- A call leaves by a verdict, or by an exception that has the cause.
abbrev pub RaisesOnly : {A : Type 0} → Type 0 → Result Exit A → Type 0
RaisesOnly Q (ok a) = Unit
RaisesOnly Q (err (rejected reason)) = Unit
RaisesOnly Q (err nothing) = Unit
RaisesOnly Q (err (raised e)) = Q

pub >>=-RaisesOnly :
    {A B : Type 0} (Q : Type 0) (P : A → Type 0) (m : Result Exit A) (f : A → Result Exit B)
    → IfOk m P
    → RaisesOnly Q m
    → ((a : A) → P a → RaisesOnly Q (f a))
    → RaisesOnly Q (m >>= f)
>>=-RaisesOnly Q P (ok a) f h n k = k a h
>>=-RaisesOnly Q P (err (rejected reason)) f h n k = tt
>>=-RaisesOnly Q P (err nothing) f h n k = tt
>>=-RaisesOnly Q P (err (raised e)) f h n k = n

pub reject_if-RaisesOnly :
    {A : Type 0} (Q : Type 0) (t : Bool) (reason : RejectReason) (m : Result Exit A)
    → (t ≡ false → RaisesOnly Q m)
    → RaisesOnly Q (raise_if t (rejected reason) >> m)
reject_if-RaisesOnly Q true reason m h = tt
reject_if-RaisesOnly Q false reason m h = h refl

raise_if-RaisesOnly :
    {A : Type 0} (Q : Type 0) (t : Bool) (e : RiskError) (m : Result Exit A)
    → (t ≡ true → Q)
    → RaisesOnly Q m
    → RaisesOnly Q (raise_if t (raised e) >> m)
raise_if-RaisesOnly Q true e m h k = h refl
raise_if-RaisesOnly Q false e m h k = k

kst_time-RaisesOnly :
    (Q : Type 0) (t : Timestamp)
    → (bad_label t.text ≡ true → Q)
    → nine_hours t.reading ≢ none
    → RaisesOnly Q (kst_time t)
unfolding kst_time
kst_time-RaisesOnly Q t b h =
    raise_if-RaisesOnly Q (bad_label t.text) bad_time
      (or_raise (nine_hours t.reading) (raised bad_time)) b
      (elim (Option-cases (nine_hours t.reading)) [ inl e ↦ absurd (h e) | inr (m, e) ↦ rw e tt ])

module _ {V : Type 0} where
  -- Rows and the moments that were read of them.
  abbrev pub AllReadAs : List (EngineFeature V) → List Moment → Type 0
  AllReadAs [] [] = Unit
  AllReadAs (f ∷ fs) (m ∷ ms) = ReadsAs f.source_as_of m × AllReadAs fs ms
  AllReadAs _ _ = ⊥

  observations-AllReadAs : (fs : List (EngineFeature V)) → IfOk (observations fs) (AllReadAs fs)
  unfolding observations
  observations-AllReadAs [] = tt
  observations-AllReadAs (f ∷ fs) =
      >>=-IfOk (ReadsAs f.source_as_of) (AllReadAs (f ∷ fs)) (kst_time f.source_as_of) _
        (kst_time-ReadsAs f.source_as_of)
        λ m hm.
          >>=-IfOk (AllReadAs fs) (AllReadAs (f ∷ fs)) (observations fs) _
            (observations-AllReadAs fs) λ ms hms. (hm, hms)

  -- The text of a row's time is empty or longer than 256 characters.
  abbrev pub mislabelled : EngineFeature V → Bool
  mislabelled f = bad_label f.source_as_of.text

  observations-RaisesOnly :
      (Q : Type 0) (cutoff : Moment) (fs : List (EngineFeature V))
      → All (IsObservedBy cutoff) fs
      → (any mislabelled fs ≡ true → Q)
      → RaisesOnly Q (observations fs)
  unfolding observations
  observations-RaisesOnly Q cutoff [] h b = tt
  observations-RaisesOnly Q cutoff (f ∷ fs) h b =
      >>=-RaisesOnly Q (ReadsAs f.source_as_of) (kst_time f.source_as_of) _
        (kst_time-ReadsAs f.source_as_of)
        (kst_time-RaisesOnly Q f.source_as_of (λ k. b (ground arith)) (λ e. cc (h.0.1, e)))
        λ m hm.
          >>=-RaisesOnly Q (AllReadAs fs) (observations fs) _ (observations-AllReadAs fs)
            (observations-RaisesOnly Q cutoff fs h.1 (λ k. b (ground arith))) λ ms hms. tt

  abbrev pub IsRecent : ℕ → Moment → EngineFeature V → Type 0
  IsRecent max_age cutoff f = (m : Moment) × ReadsAs f.source_as_of m × InWindow max_age cutoff m

  All-IsRecent :
      (max_age : ℕ) (cutoff : Moment) (fs : List (EngineFeature V)) (ms : List Moment)
      → AllReadAs fs ms
      → any (out_of_window max_age cutoff) ms ≡ false
      → All (IsRecent max_age cutoff) fs
  All-IsRecent max_age cutoff [] ms h k = tt
  All-IsRecent max_age cutoff (f ∷ fs) [] h k = absurd h
  All-IsRecent max_age cutoff (f ∷ fs) (m ∷ ms) h k =
      ((m, h.0, (ground arith, ground arith)), All-IsRecent max_age cutoff fs ms h.1 (ground arith))

module _ {V : Type 0} (ops : NumberOps V) (id : SymbolFeatureOutput V → String) (r : RiskInput V)
    (p : RiskPolicy) where
  -- The account may trade, and everything that the decision rests on is recent.
  pub record IsCurrent : Type 0 where
    pub enabled : r.trading_enabled ≡ true
    pub not_killed : r.kill_switch_engaged ≡ false
    pub not_duplicate : r.duplicate_state_snapshot ≡ false
    pub eligible : IsEligible id r.feature_snapshot r.available_data_cutoff
    pub some_rows : rows_of r.feature_snapshot.groups group_order ≢ []
    pub recent :
        (decision : Moment) × (cutoff : Moment) × ReadsAs r.decision_at decision
        × ReadsAs r.available_data_cutoff cutoff
        × InWindow (seconds p.max_source_age_seconds) decision cutoff
        × All
            (IsRecent (seconds p.max_source_age_seconds) cutoff)
            (rows_of r.feature_snapshot.groups group_order)

  is_some-false : {A : Type 0} (o : Option A) → is_some o ≡ false → o ≡ none
  is_some-false none h = refl
  is_some-false (some a) h = cc

  some_read :
      (fs : List (EngineFeature V)) (ms : List Moment)
      → AllReadAs fs ms
      → is_nil ms ≡ false
      → fs ≢ []
  some_read fs ms h k e = ground arith

  -- The checks pass only in a current state.
  pub check_state-IsCurrent : IfOk (check_state ops id r p) (λ u. IsCurrent)
  unfolding check_state
  check_state-IsCurrent =
      let age = seconds p.max_source_age_seconds in
      let rows = rows_of r.feature_snapshot.groups group_order in
      let reason = pre_model_abstain_reason ops id r.feature_snapshot r.available_data_cutoff in
      let P : Unit {0} → Type 0 = λ u. IsCurrent in
      raise_if-IfOk_passed P (not r.trading_enabled) (rejected trading_disabled) _ λ on.
        raise_if-IfOk_passed P r.kill_switch_engaged (rejected kill_switch_active) _ λ alive.
          raise_if-IfOk_passed P r.duplicate_state_snapshot (rejected duplicate_session) _ λ fresh.
            >>=-IfOk (ReadsAs r.decision_at) P (kst_time r.decision_at) _
              (kst_time-ReadsAs r.decision_at)
              λ decision hd.
                >>=-IfOk (ReadsAs r.available_data_cutoff) P (kst_time r.available_data_cutoff) _
                  (kst_time-ReadsAs r.available_data_cutoff)
                  λ cutoff hc.
                    after-IfOk P
                      (raise_if (ltb longest_duration p.max_source_age_seconds)
                        (raised long_duration))
                      _
                      λ held.
                        raise_if-IfOk_passed P
                          (ltb decision.instant cutoff.instant
                            || ltb (cutoff.instant + age) decision.instant)
                          (rejected stale_data) _
                          λ timely.
                            raise_if-IfOk_passed P (is_some reason) (rejected stale_data) _
                              λ accepted.
                                >>=-IfOk (AllReadAs rows) P (observations rows) _
                                  (observations-AllReadAs rows)
                                  λ observed ho.
                                    raise_if-IfOk_passed P (is_nil observed) (rejected stale_data) _
                                      λ seen.
                                        last (any (out_of_window age cutoff) observed)
                                          (rejected stale_data)
                                          λ recent. record {
                                            enabled = ground arith;
                                            not_killed = alive;
                                            not_duplicate = fresh;
                                            eligible =
                                                pre_model_abstain_reason-IsEligible ops id
                                                  r.feature_snapshot r.available_data_cutoff
                                                  (is_some-false reason accepted);
                                            some_rows = some_read rows observed ho seen;
                                            recent = (
                                              decision,
                                              cutoff,
                                              hd,
                                              hc,
                                              (ground arith, ground arith),
                                              All-IsRecent age cutoff rows observed ho recent,
                                            );
                                          }
    where
      last : {P : Type 0} (t : Bool) (e : Exit) → (t ≡ false → P) → IfOk (raise_if t e) (λ u. P)
      last true e h = tt
      last false e h = h refl

  -- What the checks may raise for: a window that no `timedelta` holds, or a row's mislabelled time.
  abbrev pub Unreadable : Type 0
  Unreadable =
      (longest_duration < p.max_source_age_seconds)
      ⊎ (any mislabelled (rows_of r.feature_snapshot.groups group_order) ≡ true)

  -- With times that `RiskInput` accepts, the checks raise for nothing else.
  pub check_state-RaisesOnly :
      (nine_hours r.decision_at.reading ≢ none) × (bad_label r.decision_at.text ≡ false)
      → (nine_hours r.available_data_cutoff.reading ≢ none)
        × (bad_label r.available_data_cutoff.text ≡ false)
      → RaisesOnly Unreadable (check_state ops id r p)
  unfolding check_state
  check_state-RaisesOnly d c =
      let age = seconds p.max_source_age_seconds in
      let rows = rows_of r.feature_snapshot.groups group_order in
      let reason = pre_model_abstain_reason ops id r.feature_snapshot r.available_data_cutoff in
      reject_if-RaisesOnly Unreadable (not r.trading_enabled) trading_disabled _ λ on.
        reject_if-RaisesOnly Unreadable r.kill_switch_engaged kill_switch_active _ λ alive.
          reject_if-RaisesOnly Unreadable r.duplicate_state_snapshot duplicate_session _ λ fresh.
            >>=-RaisesOnly Unreadable (ReadsAs r.decision_at) (kst_time r.decision_at) _
              (kst_time-ReadsAs r.decision_at)
              (kst_time-RaisesOnly Unreadable r.decision_at (λ k. cc (k, d.1)) d.0)
              λ decision hd.
                >>=-RaisesOnly Unreadable (ReadsAs r.available_data_cutoff)
                  (kst_time r.available_data_cutoff) _ (kst_time-ReadsAs r.available_data_cutoff)
                  (kst_time-RaisesOnly Unreadable r.available_data_cutoff (λ k. cc (k, c.1)) c.0)
                  λ cutoff hc.
                    raise_if-RaisesOnly Unreadable (ltb longest_duration p.max_source_age_seconds)
                      long_duration _ (λ k. inl (ground arith))
                      (reject_if-RaisesOnly Unreadable
                        (ltb decision.instant cutoff.instant
                          || ltb (cutoff.instant + age) decision.instant)
                        stale_data _
                        λ timely.
                          reject_if-RaisesOnly Unreadable (is_some reason) stale_data _ λ accepted.
                            let eligible =
                              pre_model_abstain_reason-IsEligible ops id r.feature_snapshot
                                r.available_data_cutoff (is_some-false reason accepted) in
                            >>=-RaisesOnly Unreadable (AllReadAs rows) (observations rows) _
                              (observations-AllReadAs rows)
                              (observations-RaisesOnly Unreadable eligible.observed.0 rows
                                eligible.observed.2 (λ k. inr k))
                              λ observed ho.
                                reject_if-RaisesOnly Unreadable (is_nil observed) stale_data _
                                  λ seen. last Unreadable (any (out_of_window age cutoff) observed))
    where
      last : (Q : Type 0) (t : Bool) → RaisesOnly Q (raise_if t (rejected stale_data))
      last Q true = tt
      last Q false = tt
