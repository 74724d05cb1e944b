-- ===== src/Features/Scoring.antt =====
-- The feature routing and the group votes: `_canonical_target_group`, `_canonical_signal_bps` and
-- `_canonical_contribution_bps` of strategy/paper_agent.py, which restate `_target_group`,
-- `_signal_bps` and the aggregation of ksf/feature_engine.py.
use kronos_stock.Common.{
  ℕ, String, List, [], ◌∷◌, not, ◌||◌, Option, none, some, if◌then◌else◌, str_eq, length,
}
use kronos_stock.Common.Int.{ℤ}
use kronos_stock.Common.Text.{starts_with, ends_with, one_of}
use kronos_stock.Features.Records.{
  NumberOps, Group, domestic_investor_flow, price_volume, global_memory_price, ai_hbm_demand,
  semiconductor_regime, fx_market, event, EngineFeature, ready,
}

unfoldable pub target_group : String → String → Option Group
target_group name source =
    if str_eq source "domestic_investor_flow" || ends_with name "_net_buy_quantity"
    then some domestic_investor_flow
    else if one_of source ("domestic_price" ∷ "price_volume" ∷ [])
        || one_of name ("close" ∷ "volume" ∷ "one_day_return_bps" ∷ [])
    then some price_volume
    else if starts_with name "mu_" || (starts_with name "dram_" || starts_with name "nand_")
    then some global_memory_price
    else if starts_with name "nvda_" || starts_with name "hbm_"
    then some ai_hbm_demand
    else if starts_with name "soxx_" || starts_with name "sox_" || starts_with name "tsm_"
    then some semiconductor_regime
    else if one_of source ("global_fx_context" ∷ "fx_market" ∷ []) || str_eq name "usdkrw"
    then some fx_market
    else if one_of source ("event" ∷ "event_group" ∷ []) || ends_with name "_event_days"
    then some event
    else none

module _ {V : Type 0} (ops : NumberOps V) where
  -- The vote of a feature that is ready and has the value.
  unfoldable pub vote_of : String → V → Option V
  vote_of name v =
      if not (ops.is_finite v)
      then none
      else if ends_with name "_one_day_return_bps" || str_eq name "one_day_return_bps"
      then some v
      else if ends_with name "_net_buy_quantity"
      then some (ops.clamp 1000 (ops.divide v 1000))
      else none

  unfoldable pub signal_bps : EngineFeature V → Option V
  unfolding vote_of
  signal_bps f = elim f.status [
    | ready ↦ elim f.value [ none ↦ none | some v ↦ vote_of f.name v ]
    | _ ↦ none
  ]

  unfoldable pub votes_of : List (EngineFeature V) → List V
  unfolding signal_bps
  votes_of [] = []
  votes_of (f ∷ fs) =
      let rest = votes_of fs in elim (signal_bps f) [ none ↦ rest | some v ↦ v ∷ rest ]

  -- `sum(votes)`: from the left, from 0.
  unfoldable pub sum_from : V → List V → V
  sum_from acc [] = acc
  sum_from acc (v ∷ vs) = sum_from (ops.plus acc v) vs

  unfoldable pub raw_vote : List V → V
  unfolding sum_from
  raw_vote [] = ops.zero_value
  raw_vote (v ∷ vs) = ops.divide (sum_from ops.zero_value (v ∷ vs)) (length (v ∷ vs))

  unfoldable pub contribution_bps : List (EngineFeature V) → ℕ → ℤ
  unfolding votes_of raw_vote
  contribution_bps features cap = ops.round (ops.clamp cap (raw_vote (votes_of features)))
