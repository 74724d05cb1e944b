-- ===== src/Broker/Tests.antt =====
-- The default rates, and the execution of an order.
use kronos_stock.Common.{◌≡◌, refl, arith, String, List, [], ◌∷◌, ◌++◌, map, All}
use kronos_stock.Common.Int.{pos, sum_ℤ, ◌+ℤ◌, ◌-ℤ◌, scale}
use kronos_stock.Ledger.Records.{empty_ledger}
use kronos_stock.Ledger.Checks.{cash_balance}
use kronos_stock.Ledger.Append.{
  append_order, append_risk_review, append_order_proposal, append_agent_decision,
  append_account_event, create_account,
}
use kronos_stock.Ledger.Tests.{opening, julianday, time}
use kronos_stock.Common.Time.{kst, aware, is_sha256, nine_hours}
use kronos_stock.Symbols.{s005930}
use kronos_stock.Evaluation.Records.{EvaluationConfig}
use kronos_stock.Broker.Execute.{ExecutionPolicy, MarketObservation}
use kronos_stock.Broker.Calls.{Call, ledger_call, execution, IsBrokered, run_calls}
use kronos_stock.Broker.Settlement.{IsSettledLedger, run_calls-IsSettledLedger}
use kronos_stock.Broker.Pricing.{HasRates, AgreesWith, HasRates-AgreesWith}

abbrev config : EvaluationConfig
config = record {
  initial_cash_krw = 10_000_000;
  target_exposure_bps = 5_000;
  fee_bps = 15;
  sell_tax_bps = 20;
  slippage_bps = 10;
  random_seed = "seed";
}

abbrev policy : ExecutionPolicy
policy = record { fee_bps = 15; sell_tax_bps = 20; slippage_bps = 10 }

abbrev observation : MarketObservation
observation = record {
  symbol = s005930;
  reference_price_krw = 70_000;
  observed_at = record { text = "t"; reading = kst (record { instant = 1; date = "2026-01-05" }) };
  source_sha256 = "0123456789abcdef0123456789abcdef0123456789abcdef0123456789abcdef";
}

policy-HasRates : HasRates config policy
policy-HasRates = record { same_fee = refl; same_tax = refl; same_slippage = refl }

HasRates-AgreesWith_example : AgreesWith config policy observation
HasRates-AgreesWith_example =
    HasRates-AgreesWith config policy observation policy-HasRates (omega arith)

-- An order of 7 shares at 70000, executed after it was created.
abbrev calls : List Call
calls =
    map ledger_call opening
    ++ (execution (record {
      order_id = "o1";
      execution_id = "f1";
      observation = record {
        symbol = s005930;
        reference_price_krw = 70_000;
        observed_at = time "t7" 7;
        source_sha256 = "0123456789abcdef0123456789abcdef0123456789abcdef0123456789abcdef";
      };
      policy = policy;
      executed_at = time "2026-01-05" 8;
    })
        ∷ [])

abbrev policy_digest : ExecutionPolicy → String
policy_digest p = "0123456789abcdef0123456789abcdef0123456789abcdef0123456789abcdef"

calls-IsBrokered : All IsBrokered calls
calls-IsBrokered = (tt, (tt, (tt, (tt, (tt, (tt, (tt, tt)))))))

run_calls-IsSettledLedger_example :
    IsSettledLedger (run_calls julianday policy_digest calls empty_ledger)
run_calls-IsSettledLedger_example =
    run_calls-IsSettledLedger julianday policy_digest calls calls-IsBrokered

-- The execution goes through: 1000000 less 7 * 70070 and the fee of 736.
calls_cash :
    cash_balance (run_calls julianday policy_digest calls empty_ledger) "account" ≡ pos 508_774
unfolding cash_balance run_calls sum_ℤ aware append_order append_risk_review is_sha256
    append_order_proposal append_agent_decision append_account_event create_account ◌+ℤ◌ ◌-ℤ◌ scale
    nine_hours
calls_cash = refl
