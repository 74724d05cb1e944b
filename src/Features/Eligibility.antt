-- ===== src/Features/Eligibility.antt =====
-- `_structural_problem`, `_timestamp_problem` and `_pre_model_abstain_reason` of
-- strategy/paper_agent.py. Checks that a type makes (canonical states, statuses and groups, numbers
-- for numbers) are gone; `stable_id` of the payload is a parameter.
use kronos_stock.Common.{
  String, List, [], ◌∷◌, ◌++◌, ◌+◌, Bool, true, false, not, ◌&&◌, ◌||◌, ◌==◌, Option, none, some,
  if◌then◌else◌, ltb, str_eq, any, filter, map, length,
}
use kronos_stock.Common.Int.{ℤ, pos_part, neg_part}
use kronos_stock.Common.Time.{Moment, Timestamp, nine_hours, str_lt}
use kronos_stock.Common.Text.{one_of, same_texts, has_duplicate, sorted_names}
use kronos_stock.Features.Records.{
  NumberOps, Group, group_order, same_group, default_cap_bps, ready, stale, is_stale, is_blocked,
  is_missing, RunState, ready_state, partial_data, stale_data, missing_required_data, same_state,
  required_names, optional_names, EngineFeature, FeatureGroupOutput, SymbolFeatureOutput,
}
use kronos_stock.Features.Scoring.{target_group, contribution_bps}

pub data AbstainReason : Type 0 where
  data_missing_required data_stale_required data_restricted_required : AbstainReason
  data_cutoff_inconsistent data_snapshot_invalid scoring_not_allowed : AbstainReason

abbrev same_int : ℤ → ℤ → Bool
same_int a b = pos_part a + neg_part b == pos_part b + neg_part a

unfoldable pub derive_state : List String → List String → List String → RunState
derive_state (m ∷ ms) stales optionals = missing_required_data
derive_state [] (s ∷ ss) optionals = stale_data
derive_state [] [] (o ∷ os) = partial_data
derive_state [] [] [] = ready_state

-- `derived_state in _SCORING_STATES`
abbrev pub scores : RunState → Bool
scores ready_state = true
scores partial_data = true
scores _ = false

abbrev pub bad_names : List String → Bool
bad_names names = one_of "" names || has_duplicate names

module _ {V : Type 0} where
  abbrev is_null : Option V → Bool
  is_null none = true
  is_null (some v) = false

  -- `rows`, by name
  unfoldable pub find_row : String → List (EngineFeature V) → Option (EngineFeature V)
  find_row name [] = none
  find_row name (f ∷ fs) =
      let rest = find_row name fs in if str_eq f.name name then some f else rest

  unfoldable pub rows_of : (Group → FeatureGroupOutput V) → List Group → List (EngineFeature V)
  rows_of groups [] = []
  rows_of groups (g ∷ gs) = (groups g).features ++ rows_of groups gs

  -- The row is missing, or `test` holds of it.
  abbrev absent_or : (EngineFeature V → Bool) → Option (EngineFeature V) → Bool
  absent_or test none = true
  absent_or test (some f) = test f

  abbrev present_and : (EngineFeature V → Bool) → Option (EngineFeature V) → Bool
  present_and test none = false
  present_and test (some f) = test f

  -- The name is in no row, or its row has no usable value.
  unfoldable pub is_unavailable : List (EngineFeature V) → String → Bool
  is_unavailable rows name =
      absent_or (λ f. is_missing f.status || is_blocked f.status || is_null f.value)
        (find_row name rows)

  unfoldable pub is_outdated : List (EngineFeature V) → String → Bool
  is_outdated rows name = present_and (λ f. is_stale f.status) (find_row name rows)

  -- `derived_missing_required` and the other lists that the engine derives from its rows
  unfoldable pub derive_missing_required : List (EngineFeature V) → List String
  derive_missing_required rows = sorted_names (filter (is_unavailable rows) required_names)

  unfoldable pub derive_stale_required : List (EngineFeature V) → List String
  derive_stale_required rows = sorted_names (filter (is_outdated rows) required_names)

  unfoldable pub derive_missing_optional : List (EngineFeature V) → List String
  unfolding find_row
  derive_missing_optional rows = sorted_names (
      filter
        (λ n.
          absent_or (λ f. is_missing f.status || (is_null f.value && not (is_blocked f.status)))
            (find_row n rows))
        optional_names)

  unfoldable pub derive_license_blocked : List (EngineFeature V) → List String
  derive_license_blocked rows =
      sorted_names (map (λ f. f.name) (filter (λ f. is_blocked f.status) rows))

  -- The checks of one feature, in the group `g`; `seen` are the names before, `previous` the one
  -- just before in the group.
  unfoldable pub feature_problem :
      NumberOps V → Group → List String → Option String → EngineFeature V → Bool
  unfolding target_group
  feature_problem ops g seen previous f =
      str_eq f.name ""
      || one_of f.name seen
      || elim f.value [ none ↦ false | some v ↦ not (ops.is_finite v) ]
      || str_eq f.source_feature_group ""
      || str_eq f.source_as_of.text ""
      || elim (target_group f.name f.source_feature_group) [
        | none ↦ true
        | some h ↦ not (same_group h g)
      ]
      || elim previous [ none ↦ false | some p ↦ not (str_lt p f.name) ]

  -- The loop over the features of a group.
  unfoldable pub features_problem :
      NumberOps V → Group → List String → Option String → List (EngineFeature V) → Bool
  unfolding feature_problem
  features_problem ops g seen previous [] = false
  features_problem ops g seen previous (f ∷ fs) =
      feature_problem ops g seen previous f
      || features_problem ops g (f.name ∷ seen) (some f.name) fs

  -- The loop over the groups.
  unfoldable pub groups_problem :
      NumberOps V → (Group → FeatureGroupOutput V) → List String → List Group → Bool
  unfolding features_problem contribution_bps
  groups_problem ops groups seen [] = false
  groups_problem ops groups seen (g ∷ gs) =
      let group = groups g in
      not (same_group group.name g)
      || not (group.cap_bps == default_cap_bps g)
      || features_problem ops g seen none group.features
      || not (same_int group.contribution_bps (contribution_bps ops group.features group.cap_bps))
      || groups_problem ops groups (map (λ f. f.name) group.features ++ seen) gs

  -- A null value of a feature that counts as available.
  unfoldable pub null_problem : List String → EngineFeature V → Bool
  null_problem unavailable f =
      is_null f.value
      && elim f.status [ ready ↦ true | stale ↦ true | _ ↦ false ]
      && not (one_of f.name unavailable)

  -- `_structural_problem(output) is not None`
  unfoldable pub structural_problem : NumberOps V → SymbolFeatureOutput V → Bool
  structural_problem ops o =
      let rows = rows_of o.groups group_order in
      let missing = derive_missing_required rows in
      let stales = derive_stale_required rows in
      let optionals = derive_missing_optional rows in
      let blocked = derive_license_blocked rows in
      let state = derive_state missing stales optionals in
      bad_names o.missing_required
      || bad_names o.missing_optional
      || bad_names o.stale_required
      || bad_names o.license_blocked
      || groups_problem ops o.groups [] group_order
      || not (same_texts o.missing_required missing)
      || not (same_texts o.stale_required stales)
      || not (same_texts o.missing_optional optionals)
      || not (same_texts o.license_blocked blocked)
      || not (same_state o.state state)
      || not (if o.scoring_allowed then scores state else not (scores state))
      || any (null_problem (missing ++ (optionals ++ blocked))) rows

  -- A feature's time is malformed, or after the cutoff.
  unfoldable pub late_feature : Moment → EngineFeature V → Bool
  late_feature cutoff f = elim (nine_hours f.source_as_of.reading) [
    | none ↦ true
    | some observed ↦ ltb cutoff.instant observed.instant
  ]

  -- `_timestamp_problem(output, supplied_cutoff) is not None`
  unfoldable pub timestamp_problem : SymbolFeatureOutput V → Timestamp → Bool
  timestamp_problem o supplied = elim (nine_hours o.available_data_cutoff.reading) [
    | none ↦ true
    | some cutoff ↦ elim (nine_hours o.as_of_kst.reading) [
      | none ↦ true
      | some as_of ↦
          not (str_eq o.available_data_cutoff.text supplied.text)
          || ltb as_of.instant cutoff.instant
          || any (late_feature cutoff) (rows_of o.groups group_order)
    ]
  ]

  -- `_pre_model_abstain_reason`
  unfoldable pub pre_model_abstain_reason :
      NumberOps V
      → (SymbolFeatureOutput V → String)
      → SymbolFeatureOutput V
      → Timestamp
      → Option AbstainReason
  pre_model_abstain_reason ops canonical_output_id o supplied =
      if structural_problem ops o
      then some data_snapshot_invalid
      else if timestamp_problem o supplied
      then some data_cutoff_inconsistent
      else if any (λ n. one_of n required_names) o.license_blocked
      then some data_restricted_required
      else if any (λ n. not (one_of n o.license_blocked)) o.missing_required
      then some data_missing_required
      else if 0 == length o.stale_required
      then (if not o.scoring_allowed
          then some scoring_not_allowed
          else if not (str_eq o.output_id (canonical_output_id o))
          then some data_snapshot_invalid
          else none)
      else some data_stale_required
