-- ===== src/Features/Eligible.antt =====
-- What a snapshot that may be shown to the model, or traded on, is known to hold.
use kronos_stock.Common.{
  ◌≤◌, ◌≡◌, ◌≢◌, refl, sym, ◌∙◌, String, List, [], ◌∷◌, Bool, true, false, not, Option, none, some,
  str_eq, eq_iff, any, Option-cases, inl, inr, filter, arith, All, All-filter, ap, subst,
  if◌then◌else◌,
}
use kronos_stock.Common.Time.{Moment, Timestamp, nine_hours, str_lt}
use kronos_stock.Common.Sorting.{sort_by-All, sort_by-eq-nil}
use kronos_stock.Common.Text.{one_of, same_texts, sorted_names}
use kronos_stock.Features.Records.{
  same_state, NumberOps, group_order, ready, required_names, EngineFeature, SymbolFeatureOutput,
  RunState,
}
use kronos_stock.Features.Eligibility.{
  find_row, is_unavailable, is_outdated, rows_of, derive_missing_required, derive_stale_required,
  structural_problem, late_feature, timestamp_problem, pre_model_abstain_reason,
  derive_missing_optional, derive_license_blocked, derive_state, bad_names, scores,
}

pub same_texts-eq : (as' bs : List String) → same_texts as' bs ≡ true → as' ≡ bs
unfolding same_texts
same_texts-eq [] [] h = refl
same_texts-eq [] (b ∷ bs) h = cc
same_texts-eq (a ∷ as') [] h = cc
same_texts-eq (a ∷ as') (b ∷ bs) h = ground (arith, eq_iff a b, same_texts-eq as' bs)

filter-eq-nil :
    {A : Type 0} (p : A → Bool) (xs : List A) → filter p xs ≡ [] → All (λ x. p x ≡ false) xs
filter-eq-nil p [] h = tt
filter-eq-nil p (x ∷ xs) h = ground (arith, filter-eq-nil p xs)

All-filtered : {A : Type 0} (p : A → Bool) (xs : List A) → All (λ x. p x ≡ true) (filter p xs)
All-filtered p [] = tt
All-filtered p (x ∷ xs) = ground (arith, All-filtered p xs)

one_of-any :
    (q : String → Bool) (m : String) (names : List String)
    → one_of m names ≡ true
    → any q names ≡ false
    → q m ≡ false
one_of-any q m [] h k = cc
one_of-any q m (n ∷ ns) h k = ground (arith, eq_iff m n, one_of-any q m ns)

-- Names that are all blocked, and none of which has a property that they all have, are none.
blocked_free :
    (q : String → Bool) (missing blocked : List String)
    → All (λ n. q n ≡ true) missing
    → any q blocked ≡ false
    → any (λ n. not (one_of n blocked)) missing ≡ false
    → missing ≡ []
blocked_free q [] blocked h free covered = refl
blocked_free q (m ∷ ms) blocked h free covered =
    let held : one_of m blocked ≡ true = ground arith in
    let unheld = one_of-any q m blocked held free in cc

one_of_self : (names : List String) → All (λ n. one_of n names ≡ true) names
one_of_self names = members names names (λ n h. h)
  where
    members :
        (all_names part : List String)
        → ((n : String) → one_of n part ≡ true → one_of n all_names ≡ true)
        → All (λ n. one_of n all_names ≡ true) part
    members all_names [] f = tt
    members all_names (n ∷ ns) f =
        (f n (ground (arith, eq_iff n n)), members all_names ns (λ k h. f k (ground arith)))

module _ {V : Type 0} where
  -- A required row is there, ready, and has a value.
  abbrev pub IsUsable : Option (EngineFeature V) → Type 0
  IsUsable none = ⊥
  IsUsable (some f) = (f.status ≡ ready) × (f.value ≢ none)

  -- A row was observed by the cutoff, by a time of offset nine hours.
  abbrev pub IsObservedBy : Moment → EngineFeature V → Type 0
  IsObservedBy cutoff f =
      (m : Moment) × (nine_hours f.source_as_of.reading ≡ some m) × (m.instant ≤ cutoff.instant)

  late_unread :
      (cutoff : Moment) (f : EngineFeature V)
      → nine_hours f.source_as_of.reading ≡ none
      → late_feature cutoff f ≢ false
  unfolding late_feature
  late_unread cutoff f e h = cc (rw (e, late_feature) at h)

  late_read :
      (cutoff : Moment) (f : EngineFeature V) {m : Moment}
      → nine_hours f.source_as_of.reading ≡ some m
      → late_feature cutoff f ≡ false
      → m.instant ≤ cutoff.instant
  unfolding late_feature
  late_read cutoff f e h = ground arith

  late_feature-IsObservedBy :
      (cutoff : Moment) (f : EngineFeature V)
      → late_feature cutoff f ≡ false
      → IsObservedBy cutoff f
  late_feature-IsObservedBy cutoff f h = elim (Option-cases (nine_hours f.source_as_of.reading)) [
    | inl unread ↦ absurd (late_unread cutoff f unread h)
    | inr (m, read) ↦ (m, read, late_read cutoff f read h)
  ]

  pub record IsEligible (canonical_output_id : SymbolFeatureOutput V → String)
      (o : SymbolFeatureOutput V) (supplied : Timestamp) : Type 0 where
    pub required_usable :
        All (λ n. IsUsable (find_row n (rows_of o.groups group_order))) required_names
    pub observed :
        (cutoff : Moment) × (nine_hours o.available_data_cutoff.reading ≡ some cutoff)
        × All (IsObservedBy cutoff) (rows_of o.groups group_order)
    pub same_cutoff : o.available_data_cutoff.text ≡ supplied.text
    pub scoring : o.scoring_allowed ≡ true
    pub identified : o.output_id ≡ canonical_output_id o
    pub missing : o.missing_required ≡ derive_missing_required (rows_of o.groups group_order)
    pub none_missing : o.missing_required ≡ []
    pub none_stale : derive_stale_required (rows_of o.groups group_order) ≡ []
    pub listed_stale : o.stale_required ≡ []
    pub optionals : o.missing_optional ≡ derive_missing_optional (rows_of o.groups group_order)
    pub blocked : o.license_blocked ≡ derive_license_blocked (rows_of o.groups group_order)
    pub distinct : (bad_names o.missing_optional ≡ false) × (bad_names o.license_blocked ≡ false)
    pub stated : same_state o.state (derive_state [] [] o.missing_optional) ≡ true
    pub scorable : scores (derive_state [] [] o.missing_optional) ≡ true

  none_late :
      (cutoff : Moment) (rows : List (EngineFeature V))
      → any (late_feature cutoff) rows ≡ false
      → All (IsObservedBy cutoff) rows
  none_late cutoff [] h = tt
  none_late cutoff (f ∷ fs) h =
      (late_feature-IsObservedBy cutoff f (ground arith), none_late cutoff fs (ground arith))

  cutoff_unread :
      (o : SymbolFeatureOutput V) (supplied : Timestamp)
      → nine_hours o.available_data_cutoff.reading ≡ none
      → timestamp_problem o supplied ≢ false
  unfolding timestamp_problem
  cutoff_unread o supplied e h = cc (rw (e, timestamp_problem) at h)

  cutoff_read :
      (o : SymbolFeatureOutput V) (supplied : Timestamp) {cutoff : Moment}
      → nine_hours o.available_data_cutoff.reading ≡ some cutoff
      → timestamp_problem o supplied ≡ false
      → (o.available_data_cutoff.text ≡ supplied.text)
        × (any (late_feature cutoff) (rows_of o.groups group_order) ≡ false)
  unfolding timestamp_problem
  cutoff_read o supplied e h = ground (arith, eq_iff o.available_data_cutoff.text supplied.text)

  timely :
      (o : SymbolFeatureOutput V) (supplied : Timestamp)
      → timestamp_problem o supplied ≡ false
      → (o.available_data_cutoff.text ≡ supplied.text)
        × ((cutoff : Moment) × (nine_hours o.available_data_cutoff.reading ≡ some cutoff)
            × All (IsObservedBy cutoff) (rows_of o.groups group_order))
  timely o supplied h = elim (Option-cases (nine_hours o.available_data_cutoff.reading)) [
    | inl e ↦ absurd (cutoff_unread o supplied e h)
    | inr (cutoff, e) ↦
        let (same, on_time) = cutoff_read o supplied e h in
        (same, (cutoff, e, none_late cutoff (rows_of o.groups group_order) on_time))
  ]

  -- The gates of `_pre_model_abstain_reason` that a snapshot has passed.
  gates :
      (ops : NumberOps V) (id : SymbolFeatureOutput V → String) (o : SymbolFeatureOutput V)
      (supplied : Timestamp)
      → pre_model_abstain_reason ops id o supplied ≡ none
      → (structural_problem ops o ≡ false)
        × (timestamp_problem o supplied ≡ false)
        × (any (λ n. one_of n required_names) o.license_blocked ≡ false)
        × (any (λ n. not (one_of n o.license_blocked)) o.missing_required ≡ false)
        × (o.stale_required ≡ [])
        × (o.scoring_allowed ≡ true)
        × (str_eq o.output_id (id o) ≡ true)
  unfolding pre_model_abstain_reason
  gates ops id o supplied h = ground arith

  -- The state that the rows have.
  state_of : SymbolFeatureOutput V → RunState
  state_of o =
      let rows = rows_of o.groups group_order in
      derive_state (derive_missing_required rows) (derive_stale_required rows)
        (derive_missing_optional rows)

  derived :
      (ops : NumberOps V) (o : SymbolFeatureOutput V)
      → structural_problem ops o ≡ false
      → (same_texts o.missing_required (derive_missing_required (rows_of o.groups group_order))
          ≡ true)
        × (same_texts o.stale_required (derive_stale_required (rows_of o.groups group_order))
            ≡ true)
        × (same_texts o.missing_optional (derive_missing_optional (rows_of o.groups group_order))
            ≡ true)
        × (same_texts o.license_blocked (derive_license_blocked (rows_of o.groups group_order))
            ≡ true)
        × (bad_names o.missing_optional ≡ false)
        × (bad_names o.license_blocked ≡ false)
        × (same_state o.state (state_of o) ≡ true)
        × ((if o.scoring_allowed then scores (state_of o) else not (scores (state_of o))) ≡ true)
  unfolding structural_problem state_of
  derived ops o h = ground arith

  missing-required :
      (rows : List (EngineFeature V))
      → All (λ n. one_of n required_names ≡ true) (derive_missing_required rows)
  unfolding derive_missing_required sorted_names
  missing-required rows =
      let listed = filter (is_unavailable rows) required_names in
      sort_by-All str_lt (λ n. one_of n required_names ≡ true) listed
        (All-filter (λ n. one_of n required_names ≡ true) (is_unavailable rows) required_names
          (one_of_self required_names))

  row-IsUsable :
      (rows : List (EngineFeature V)) (n : String)
      → is_unavailable rows n ≡ false
      → is_outdated rows n ≡ false
      → IsUsable (find_row n rows)
  unfolding is_unavailable is_outdated
  row-IsUsable rows n h k = ground arith

  All-IsUsable :
      (rows : List (EngineFeature V)) (names : List String)
      → All (λ n. is_unavailable rows n ≡ false) names
      → All (λ n. is_outdated rows n ≡ false) names
      → All (λ n. IsUsable (find_row n rows)) names
  All-IsUsable rows [] h k = tt
  All-IsUsable rows (n ∷ ns) h k = (row-IsUsable rows n h.0 k.0, All-IsUsable rows ns h.1 k.1)

  -- Where no required name is missing or stale, each has a usable row.
  usable :
      (rows : List (EngineFeature V))
      → derive_missing_required rows ≡ []
      → derive_stale_required rows ≡ []
      → All (λ n. IsUsable (find_row n rows)) required_names
  unfolding derive_missing_required derive_stale_required sorted_names
  usable rows m s =
      All-IsUsable rows required_names
        (filter-eq-nil (is_unavailable rows) required_names
          (sort_by-eq-nil str_lt (filter (is_unavailable rows) required_names) m))
        (filter-eq-nil (is_outdated rows) required_names
          (sort_by-eq-nil str_lt (filter (is_outdated rows) required_names) s))

  state_of-none :
      (o : SymbolFeatureOutput V)
      → derive_missing_required (rows_of o.groups group_order) ≡ []
      → derive_stale_required (rows_of o.groups group_order) ≡ []
      → o.missing_optional ≡ derive_missing_optional (rows_of o.groups group_order)
      → state_of o ≡ derive_state [] [] o.missing_optional
  unfolding state_of
  state_of-none o m s e =
      ap
        (λ x.
          derive_state x (derive_stale_required (rows_of o.groups group_order))
            (derive_missing_optional (rows_of o.groups group_order)))
        m
      ∙ ap (λ x. derive_state [] x (derive_missing_optional (rows_of o.groups group_order))) s
      ∙ ap (λ x. derive_state [] [] x) (sym e)

  -- A snapshot for which there is no reason to abstain has a ready row with a value for every
  -- required feature; none of its rows was observed after its data cutoff, and all of their times
  -- carry the offset of nine hours; its cutoff's text is the one supplied; scoring is allowed; and
  -- its identity is the one that its content has. Its list of missing and its list of stale required
  -- features are empty, and so are those that its rows give; its lists of missing optional and of
  -- blocked features are those that its rows give, without empty or repeated names; and its state is the
  -- one that these lists give, in which scoring is allowed.
  pub pre_model_abstain_reason-IsEligible :
      (ops : NumberOps V) (canonical_output_id : SymbolFeatureOutput V → String)
      (o : SymbolFeatureOutput V) (supplied : Timestamp)
      → pre_model_abstain_reason ops canonical_output_id o supplied ≡ none
      → IsEligible canonical_output_id o supplied
  unfolding state_of
  pre_model_abstain_reason-IsEligible ops id o supplied h =
      let rows = rows_of o.groups group_order in
      let (structure, times, free, covered, fresh, scoring, same) = gates ops id o supplied h in
      let (missing, stales, optionals, blocks, names, block_names, stated, scored) =
        derived ops o structure in
      let (same_cutoff, observed) = timely o supplied times in
      let missing_eq = same_texts-eq o.missing_required (derive_missing_required rows) missing in
      let stale_eq = same_texts-eq o.stale_required (derive_stale_required rows) stales in
      let none_missing =
        blocked_free (λ n. one_of n required_names) o.missing_required o.license_blocked
          (rw missing_eq (missing-required rows)) free covered in
      let optional_eq = same_texts-eq o.missing_optional (derive_missing_optional rows) optionals in
      let state_eq : state_of o ≡ derive_state [] [] o.missing_optional =
        state_of-none o (sym missing_eq ∙ none_missing) (sym stale_eq ∙ fresh) optional_eq in
      record {
        required_usable = usable rows (sym missing_eq ∙ none_missing) (sym stale_eq ∙ fresh);
        observed = observed;
        same_cutoff = same_cutoff;
        scoring = scoring;
        identified = (eq_iff o.output_id (id o)).0 same;
        missing = missing_eq;
        none_missing = none_missing;
        none_stale = sym stale_eq ∙ fresh;
        listed_stale = fresh;
        optionals = optional_eq;
        blocked = same_texts-eq o.license_blocked (derive_license_blocked rows) blocks;
        distinct = (names, block_names);
        stated = subst (λ x. same_state o.state x ≡ true) state_eq stated;
        scorable = subst (λ x. scores x ≡ true) state_eq (rw scoring at scored);
      }
