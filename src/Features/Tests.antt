-- ===== src/Features/Tests.antt =====
-- Snapshots of features with concrete values, which are natural numbers here.
use kronos_stock.Common.{ℕ, ◌+◌, ◌/◌, ◌≡◌, refl, String, [], ◌∷◌, true, none, some, min}
use kronos_stock.Common.Int.{pos}
use kronos_stock.Common.Time.{Timestamp, kst, str_lt, nine_hours}
use kronos_stock.Common.Text.{starts_with, ends_with, has_duplicate, same_texts, sorted_names}
use kronos_stock.Common.Sorting.{sort_by}
use kronos_stock.Symbols.{s005930}
use kronos_stock.Features.Records.{
  NumberOps, Group, domestic_investor_flow, price_volume, default_cap_bps, ready, partial_data,
  EngineFeature, FeatureGroupOutput, SymbolFeatureOutput,
}
use kronos_stock.Features.Scoring.{
  contribution_bps, target_group, raw_vote, signal_bps, vote_of, votes_of, sum_from,
}
use kronos_stock.Features.Eligibility.{
  pre_model_abstain_reason, structural_problem, groups_problem, derive_missing_required,
  is_unavailable, find_row, rows_of, derive_stale_required, is_outdated, derive_missing_optional,
  derive_license_blocked, derive_state, late_feature, null_problem, timestamp_problem,
  feature_problem, features_problem,
}
use kronos_stock.Features.Eligible.{IsEligible, pre_model_abstain_reason-IsEligible}

abbrev pub whole_numbers : NumberOps ℕ
whole_numbers = record {
  is_finite = λ v. true;
  zero_value = 0;
  plus = λ v w. v + w;
  divide = λ v n. v / n;
  clamp = λ n v. min n v;
  round = λ v. pos v;
}

abbrev pub taken_at : ℕ → Timestamp
taken_at instant = record {
  text = "2026-01-05T15:30:00+09:00";
  reading = kst (record { instant = instant; date = "2026-01-05" });
}

abbrev row : String → String → ℕ → EngineFeature ℕ
row name source value = record {
  name = name;
  value = some value;
  status = ready;
  source_as_of = taken_at 100;
  source_feature_group = source;
  unit = none;
  missing_reason = none;
}

abbrev group_at : Group → FeatureGroupOutput ℕ
group_at domestic_investor_flow = record {
  name = domestic_investor_flow;
  cap_bps = 2500;
  contribution_bps = pos 4;
  features =
      row "foreigner_net_buy_quantity" "domestic_investor_flow" 5_000
      ∷ row "institution_total_net_buy_quantity" "domestic_investor_flow" 3_000
      ∷ [];
}
group_at price_volume = record {
  name = price_volume;
  cap_bps = 2500;
  contribution_bps = pos 0;
  features = row "close" "domestic_price" 70_000 ∷ row "volume" "domestic_price" 1_000 ∷ [];
}
group_at g = record {
  name = g;
  cap_bps = default_cap_bps g;
  contribution_bps = pos 0;
  features = [];
}

-- The four required features are ready, the optional ones are missing.
abbrev pub snapshot : SymbolFeatureOutput ℕ
snapshot = record {
  symbol = s005930;
  state = partial_data;
  scoring_allowed = true;
  available_data_cutoff = taken_at 150;
  as_of_kst = taken_at 160;
  groups = group_at;
  missing_required = [];
  missing_optional =
      "earnings_event_days" ∷ "mu_one_day_return_bps" ∷ "nvda_one_day_return_bps"
      ∷ "soxx_one_day_return_bps" ∷ "tsm_twse_close" ∷ "usdkrw" ∷ [];
  stale_required = [];
  license_blocked = [];
  output_id = "snapshot";
}

abbrev pub snapshot_id : SymbolFeatureOutput ℕ → String
snapshot_id o = "snapshot"

snapshot_accepted :
    pre_model_abstain_reason whole_numbers snapshot_id snapshot (taken_at 150) ≡ none
unfolding pre_model_abstain_reason structural_problem has_duplicate groups_problem str_lt ends_with
    same_texts derive_missing_required sorted_names sort_by is_unavailable find_row rows_of
    derive_stale_required is_outdated derive_missing_optional derive_license_blocked derive_state
    contribution_bps starts_with nine_hours late_feature null_problem timestamp_problem target_group
    raw_vote signal_bps vote_of votes_of sum_from feature_problem features_problem
snapshot_accepted = refl

pre_model_abstain_reason-IsEligible_example : IsEligible snapshot_id snapshot (taken_at 150)
pre_model_abstain_reason-IsEligible_example =
    pre_model_abstain_reason-IsEligible whole_numbers snapshot_id snapshot (taken_at 150)
      snapshot_accepted
