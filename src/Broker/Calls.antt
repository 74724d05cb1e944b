-- ===== src/Broker/Calls.antt =====
-- What the paper cycle does to a ledger: calls of the ledger's operations and executions by the
-- broker, each in a transaction.
use kronos_stock.Common.{ℕ, String, List, [], ◌∷◌, Option, ok, ◌>>=◌}
use kronos_stock.Common.Time.{Timestamp}
use kronos_stock.Ledger.Records.{Ledger}
use kronos_stock.Ledger.Append.{Appended}
use kronos_stock.Ledger.Commands.{Command, fill, execute, committed}
use kronos_stock.Broker.Execute.{ExecutionPolicy, Execution, execute_order}

pub data Call : Type 0 where
  ledger_call : Command → Call
  execution : Execution → Call

-- The call does not append a fill past the broker.
abbrev pub IsBrokered : Call → Type 0
IsBrokered (ledger_call (fill q)) = ⊥
IsBrokered _ = Unit

module _ (julianday : Timestamp → Option ℕ) (policy_sha256 : ExecutionPolicy → String) where
  unfoldable pub perform : Call → Ledger → Appended
  unfolding execute execute_order
  perform (ledger_call c) l = execute julianday c l
  perform (execution x) l = do (m, result) ← execute_order julianday policy_sha256 x l; ok m

  unfoldable pub run_calls : List Call → Ledger → Ledger
  unfolding perform
  run_calls [] l = l
  run_calls (c ∷ cs) l = run_calls cs (committed l (perform c l))
