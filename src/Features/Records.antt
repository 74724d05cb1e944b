-- ===== src/Features/Records.antt =====
-- The records of ksf/feature_engine.py. Values are Python numbers, of which the code uses a few
-- operations: they and their type are parameters.
use kronos_stock.Common.{ℕ, String, List, [], ◌∷◌, Bool, true, false, Option}
use kronos_stock.Common.Int.{ℤ}
use kronos_stock.Common.Time.{Timestamp}
use kronos_stock.Symbols.{Symbol}

-- `math.isfinite`, `+`, a quotient by an integer, `max(-n, min(n, x))` and `int(round(x))`.
pub record NumberOps (V : Type 0) : Type 0 where
  pub is_finite : V → Bool
  pub zero_value : V
  pub plus : V → V → V
  pub divide : V → ℕ → V
  pub clamp : ℕ → V → V
  pub round : V → ℤ

-- `GROUP_ORDER`
pub data Group : Type 0 where
  domestic_investor_flow price_volume global_memory_price ai_hbm_demand semiconductor_regime : Group
  fx_market event : Group

abbrev pub group_order : List Group
group_order =
    domestic_investor_flow ∷ price_volume ∷ global_memory_price ∷ ai_hbm_demand
    ∷ semiconductor_regime ∷ fx_market ∷ event ∷ []

abbrev pub same_group : Group → Group → Bool
same_group domestic_investor_flow domestic_investor_flow = true
same_group price_volume price_volume = true
same_group global_memory_price global_memory_price = true
same_group ai_hbm_demand ai_hbm_demand = true
same_group semiconductor_regime semiconductor_regime = true
same_group fx_market fx_market = true
same_group event event = true
same_group _ _ = false

-- `DEFAULT_GROUP_CAPS_BPS`
abbrev pub default_cap_bps : Group → ℕ
default_cap_bps domestic_investor_flow = 2500
default_cap_bps price_volume = 2500
default_cap_bps global_memory_price = 1500
default_cap_bps ai_hbm_demand = 1500
default_cap_bps semiconductor_regime = 1500
default_cap_bps fx_market = 500
default_cap_bps event = 500

pub data Status : Type 0 where
  ready stale missing_required missing_optional license_blocked : Status

abbrev pub is_stale : Status → Bool
is_stale stale = true
is_stale _ = false

abbrev pub is_blocked : Status → Bool
is_blocked license_blocked = true
is_blocked _ = false

-- `status in {"MISSING_OPTIONAL", "MISSING_REQUIRED"}`
abbrev pub is_missing : Status → Bool
is_missing missing_required = true
is_missing missing_optional = true
is_missing _ = false

-- `CANONICAL_RUN_STATES`
pub data RunState : Type 0 where
  ready_state partial_data stale_data missing_required_data scoring_done ai_summary_done : RunState
  blocked_review failed archived : RunState

abbrev pub same_state : RunState → RunState → Bool
same_state ready_state ready_state = true
same_state partial_data partial_data = true
same_state stale_data stale_data = true
same_state missing_required_data missing_required_data = true
same_state scoring_done scoring_done = true
same_state ai_summary_done ai_summary_done = true
same_state blocked_review blocked_review = true
same_state failed failed = true
same_state archived archived = true
same_state _ _ = false

abbrev pub required_names : List String
required_names =
    "close" ∷ "volume" ∷ "foreigner_net_buy_quantity" ∷ "institution_total_net_buy_quantity" ∷ []

abbrev pub optional_names : List String
optional_names =
    "mu_one_day_return_bps" ∷ "nvda_one_day_return_bps" ∷ "soxx_one_day_return_bps"
    ∷ "tsm_twse_close" ∷ "usdkrw" ∷ "earnings_event_days" ∷ []

pub record EngineFeature (V : Type 0) : Type 0 where
  pub name : String
  pub value : Option V
  pub status : Status
  pub source_as_of : Timestamp
  pub source_feature_group : String
  pub unit : Option String
  pub missing_reason : Option String

pub record FeatureGroupOutput (V : Type 0) : Type 0 where
  pub name : Group
  pub cap_bps : ℕ
  pub contribution_bps : ℤ
  pub features : List (EngineFeature V)

-- `groups` has the canonical groups for its keys.
pub record SymbolFeatureOutput (V : Type 0) : Type 0 where
  pub symbol : Symbol
  pub state : RunState
  pub scoring_allowed : Bool
  pub available_data_cutoff : Timestamp
  pub as_of_kst : Timestamp
  pub groups : Group → FeatureGroupOutput V
  pub missing_required : List String
  pub missing_optional : List String
  pub stale_required : List String
  pub license_blocked : List String
  pub output_id : String
