-- ===== src/Review/Tests.antt =====
-- A review of a purchase in a session of a new account, and the same behind a closed gate.
use kronos_stock.Common.{ℕ, ◌≡◌, refl, List, [], ◌∷◌, Option, none, some, ok, IfOk, false}
use kronos_stock.Common.Int.{pos, ◌+ℤ◌, sum_ℤ}
use kronos_stock.Common.Time.{is_sha256, nine_hours, aware, str_lt}
use kronos_stock.Symbols.{s005930, enter, buy, PerSymbol}
use kronos_stock.Features.Records.{SymbolFeatureOutput}
use kronos_stock.Features.Tests.{whole_numbers, taken_at, snapshot_id}
use kronos_stock.Risk.Records.{RiskInput}
use kronos_stock.Risk.Tests.{policy, digest, snapshot_digest, request, digest_formed}
use kronos_stock.Ledger.Records.{
  Ledger, account_enabled, released, empty_ledger, AgentDecision, approved,
}
use kronos_stock.Ledger.Tests.{julianday}
use kronos_stock.Ledger.Commands.{
  Command, open_account, account_event, decide, propose, nav_snapshot, kill_switch_event,
  run_commands,
}
use kronos_stock.Review.Records.{Reviewing, Authoritative, kill_engaged}
use kronos_stock.Review.Persist.{ReviewCall, review_and_persist}
use kronos_stock.Review.Approved.{Rests, review_and_persist-Rests}
use kronos_stock.Ledger.Append.{
  append_kill_switch_event, append_order_proposal, append_agent_decision, append_account_event,
  create_account,
}
use kronos_stock.Features.Eligibility.{
  pre_model_abstain_reason, structural_problem, groups_problem, derive_missing_required,
  is_unavailable, find_row, rows_of, derive_stale_required, is_outdated, derive_missing_optional,
  derive_license_blocked, derive_state, late_feature, null_problem, timestamp_problem,
  feature_problem, features_problem,
}
use kronos_stock.Common.Text.{has_duplicate, ends_with, same_texts, sorted_names, starts_with}
use kronos_stock.Ledger.Nav.{append_nav_snapshot}
use kronos_stock.Common.Sorting.{sort_by}
use kronos_stock.Features.Scoring.{
  contribution_bps, target_group, raw_vote, signal_bps, vote_of, votes_of, sum_from,
}
use kronos_stock.Review.Repeat.{review_and_persist-repeat}

abbrev env : Reviewing ℕ
env = record {
  ops = whole_numbers;
  canonical_output_id = snapshot_id;
  snapshot_digest = snapshot_digest;
  policy_sha256 = λ p. digest;
  whole = λ v. some (pos v);
  julianday = julianday;
  is_cycle_nav = λ s. false;
  payload_digest = λ p t r q s. digest;
}

abbrev release : Command
release = kill_switch_event (record {
  kill_switch_event_id = "release";
  account_id = "account";
  seq = 0;
  event_type = released;
  reason_code = "MANUAL";
  event_at = taken_at 2;
})

abbrev decision : AgentDecision
decision = record {
  decision_id = "d1";
  account_id = "account";
  symbol = s005930;
  ksf_run_id = "run";
  ksf_decision_id = "decision";
  feature_snapshot_sha256 = digest;
  available_data_cutoff = taken_at 150;
  action = enter;
  reason_code = "FLOW_SIGNAL_POSITIVE";
  rationale_sha256 = digest;
  created_at = taken_at 160;
}

-- All calls up to the review, but for the kill switch.
abbrev day : List Command → List Command
day switch =
    open_account (record {
      account_id = "account";
      initial_cash_krw = 10_000_000;
      policy_version = "v1";
      created_at = taken_at 0;
    })
    ∷ account_event (record {
      account_event_id = "enable";
      account_id = "account";
      seq = 0;
      event_type = account_enabled;
      reason_code = some "MANUAL";
      event_at = taken_at 1;
    })
    ∷ decide decision
    ∷ propose "p1" "d1" buy 1_000 "key" "model" "1" (taken_at 161)
    ∷ nav_snapshot (record {
      nav_snapshot_id = "n1";
      account_id = "account";
      session_date = "2026-01-05";
      cash_krw = pos 10_000_000;
      position_value_krw = pos 0;
      position_marks = record { at_005930 = none; at_000660 = none };
      nav_krw = pos 10_000_000;
      snapshot_at = taken_at 170;
    })
    ∷ switch

abbrev before : Ledger
before = run_commands julianday (day (release ∷ [])) empty_ledger

abbrev before_release : Ledger
before_release = run_commands julianday (day []) empty_ledger

abbrev call : ReviewCall
call = record { proposal_id = "p1"; reviewed_at = taken_at 180; policy = policy }

abbrev asked : RiskInput ℕ
asked = request enter 1_000 10_000_000 0

abbrev unmarked : PerSymbol (Option (SymbolFeatureOutput ℕ))
unmarked = record { at_005930 = none; at_000660 = none }

-- A tenth of the value is fourteen shares.
abbrev after : Ledger
after = record before {
  reviews =
      record {
        review_id = "risk-0123456789abcdef0123456789abcdef0123456789abcdef0123456789abcdef";
        proposal_id = "p1";
        verdict = approved;
        reject_reason_code = none;
        approved_quantity = some 14;
        reference_price_krw = some 70_000;
        policy_sha256 = digest;
        reviewed_at = taken_at 180;
      }
      ∷ [];
}

reviewed_once :
    review_and_persist env before call asked unmarked
    ≡ ok (after, some "risk-0123456789abcdef0123456789abcdef0123456789abcdef0123456789abcdef")
unfolding review_and_persist run_commands nine_hours append_kill_switch_event append_nav_snapshot
    aware append_order_proposal append_agent_decision is_sha256 append_account_event create_account
    str_lt pre_model_abstain_reason structural_problem has_duplicate groups_problem ends_with
    same_texts derive_missing_required sorted_names sort_by is_unavailable find_row rows_of
    derive_stale_required is_outdated derive_missing_optional derive_license_blocked derive_state
    contribution_bps starts_with late_feature null_problem timestamp_problem target_group raw_vote
    signal_bps vote_of votes_of sum_from feature_problem features_problem ◌+ℤ◌ sum_ℤ
reviewed_once = refl

review_and_persist-repeat_example :
    review_and_persist env after call asked unmarked
    ≡ ok (after, some "risk-0123456789abcdef0123456789abcdef0123456789abcdef0123456789abcdef")
review_and_persist-repeat_example =
    review_and_persist-repeat env before call asked unmarked after
      (some "risk-0123456789abcdef0123456789abcdef0123456789abcdef0123456789abcdef") reviewed_once

review_and_persist-Rests_example :
    IfOk (review_and_persist env before call asked unmarked) (Rests env before call asked unmarked)
review_and_persist-Rests_example =
    review_and_persist-Rests env before call asked unmarked digest_formed

-- No event has released the kill switch.
abbrev held_back : Authoritative
held_back = record {
  gate = kill_engaged none;
  binding = record {
    proposal = record {
      proposal_id = "p1";
      decision_id = "d1";
      account_id = "account";
      symbol = s005930;
      side = buy;
      target_exposure_bp = 1_000;
      idempotency_key = "key";
      model_name = "model";
      model_version = "1";
      proposed_at = taken_at 161;
    };
    decision = decision;
    decided = record { instant = 160; date = "2026-01-05" };
  };
  portfolio = none;
}
