-- ===== src/Ledger/Tests.antt =====
-- A concrete session of the ledger: an account, a decision that becomes an order, and its fill.
use kronos_stock.Common.{ℕ, ◌≡◌, refl, String, List, [], ◌∷◌, ◌++◌, Option, none, some}
use kronos_stock.Common.Int.{pos, sum_ℤ, ◌+ℤ◌, ◌-ℤ◌}
use kronos_stock.Common.Time.{Timestamp, kst, explicit_kst, aware, is_sha256}
use kronos_stock.Symbols.{s005930, enter, buy}
use kronos_stock.Ledger.Records.{account_enabled, approved, empty_ledger}
use kronos_stock.Ledger.Checks.{cash_balance}
use kronos_stock.Ledger.Append.{
  append_order, append_risk_review, append_order_proposal, append_agent_decision,
  append_account_event, create_account,
}
use kronos_stock.Ledger.Fills.{append_fill}
use kronos_stock.Ledger.Commands.{
  Command, open_account, account_event, decide, propose, review, order, fill, run_commands,
}
use kronos_stock.Ledger.Balance.{IsBalanced}
use kronos_stock.Ledger.Conservation.{run_commands-IsBalanced}
use kronos_stock.Ledger.Tables.{Grows}
use kronos_stock.Ledger.Growth.{run_commands-Grows}

-- Every time below ends in "+09:00".
abbrev pub julianday : Timestamp → Option ℕ
julianday t = elim (explicit_kst t.reading) [ none ↦ none | some m ↦ some m.instant ]

abbrev pub time : String → ℕ → Timestamp
time text instant = record {
  text = text;
  reading = kst (record { instant = instant; date = "2026-01-05" });
}

abbrev digest : String
digest = "0123456789abcdef0123456789abcdef0123456789abcdef0123456789abcdef"

-- All calls up to the order.
abbrev pub opening : List Command
opening =
    open_account (record {
      account_id = "account";
      initial_cash_krw = 1_000_000;
      policy_version = "v1";
      created_at = time "t0" 0;
    })
    ∷ account_event (record {
      account_event_id = "enable";
      account_id = "account";
      seq = 0;
      event_type = account_enabled;
      reason_code = some "MANUAL";
      event_at = time "t1" 1;
    })
    ∷ decide (record {
      decision_id = "d1";
      account_id = "account";
      symbol = s005930;
      ksf_run_id = "run";
      ksf_decision_id = "ksf";
      feature_snapshot_sha256 = digest;
      available_data_cutoff = time "t2" 2;
      action = enter;
      reason_code = "FLOW_SIGNAL_POSITIVE";
      rationale_sha256 = digest;
      created_at = time "t3" 3;
    })
    ∷ propose "p1" "d1" buy 5_000 "key" "model" "1" (time "t4" 4)
    ∷ review (record {
      review_id = "r1";
      proposal_id = "p1";
      verdict = approved;
      reject_reason_code = none;
      approved_quantity = some 7;
      reference_price_krw = some 70_000;
      policy_sha256 = digest;
      reviewed_at = time "t5" 5;
    })
    ∷ order "o1" "r1" "key" (time "t6" 6)
    ∷ []

abbrev session : List Command
session =
    opening
    ++ (fill (record {
      fill_id = "f1";
      order_id = "o1";
      fill_price_krw = 70_070;
      quantity = 7;
      fee_krw = 736;
      tax_krw = 0;
      slippage_krw = 490;
      observed_at = time "t7" 7;
      observation_sha256 = digest;
      filled_at = time "t8" 8;
      raw_reference_price_krw = some 70_000;
      fee_bps = 15;
      tax_bps = 20;
      slippage_bps = 10;
      execution_policy_sha256 = none;
    })
        ∷ [])

run_commands-IsBalanced_example : IsBalanced (run_commands julianday session empty_ledger)
run_commands-IsBalanced_example = run_commands-IsBalanced julianday session

-- 1000000 less 7 * 70070 and the fee of 736.
session_cash : cash_balance (run_commands julianday session empty_ledger) "account" ≡ pos 508_774
unfolding cash_balance run_commands sum_ℤ append_fill append_order aware append_risk_review
    is_sha256 append_order_proposal append_agent_decision append_account_event create_account ◌+ℤ◌
    ◌-ℤ◌
session_cash = refl

run_commands-Grows_example :
    Grows
      (run_commands julianday opening empty_ledger)
      (run_commands julianday session (run_commands julianday opening empty_ledger))
run_commands-Grows_example =
    run_commands-Grows julianday session (run_commands julianday opening empty_ledger)
