-- ===== src/TxMonitor.antt =====
-- apps/worker/src/monitor/txMonitor.service.ts: the transaction monitor's decisions. The
-- classification of a transaction is the constructor's `TransactionMonitor`, here the argument
-- `monitor` (the real one is `get_outcome` of Chain/Monitor.antt). Logging is left out.
pub mod Decisions
pub mod Evidence
use synthetic_order_executor.Base.{
  ℕ, Bool, true, false, Option, none, some, List, [], ◌∷◌, Text, text, if◌then◌else◌,
}
use synthetic_order_executor.Order.{OrderId, Hex, Order, executing, same_status}
use synthetic_order_executor.Chain.Outcome.{
  TransactionOutcome, success, reverted, dropped_not_executed, dropped_but_executed, rpc_error,
}
use synthetic_order_executor.Effects.{M, pure, ◌>>=◌, ◌>>◌}
use synthetic_order_executor.Repository.{
  find_by_id, mark_confirmed, mark_failed, increment_monitor_attempts, find_stuck_executing,
}

pub data MonitorStatus : Type 0 where
  executed failed pending unknown skipped : MonitorStatus

pub record MonitorResult : Type 0 where
  pub order_id : OrderId
  pub execution_id : Option Hex
  pub tx_hash : Option Hex
  pub status : MonitorStatus
  pub error : Option Text
  pub requeue : Bool

abbrev result : Order → Option Hex → MonitorStatus → Option Text → Bool → MonitorResult
result o tx_hash status error requeue = record {
  order_id = o.id;
  execution_id = some o.execution_id;
  tx_hash = tx_hash;
  status = status;
  error = error;
  requeue = requeue;
}

unfoldable pub resolve_never_submitted : Order → M MonitorResult
resolve_never_submitted o = do
  _ ← mark_failed (record {
    id = o.id;
    error_message = text "no transaction recorded: process died before signing";
    tx_hash = none;
    block_number = none;
    gas_used = none;
  })
  pure (result o none MonitorStatus.failed none false)

-- The `switch` over the outcome.
unfoldable pub apply : Order → TransactionOutcome → M MonitorResult
apply o (success tx_hash block gas amount_out) = do
  _ ← mark_confirmed (record {
    id = o.id;
    tx_hash = tx_hash;
    block_number = block;
    gas_used = gas;
    amount_out = amount_out;
  })
  pure (result o (some tx_hash) MonitorStatus.executed none false)
apply o (reverted tx_hash block gas reason) = do
  _ ← mark_failed (record {
    id = o.id;
    error_message = reason;
    tx_hash = some tx_hash;
    block_number = some block;
    gas_used = some gas;
  })
  pure (result o (some tx_hash) MonitorStatus.failed (some reason) false)
apply o (TransactionOutcome.pending tx_hash age) =
    pure (result o (some tx_hash) MonitorStatus.pending none true)
apply o (dropped_but_executed tx_hash) = do
  _ ←
      mark_confirmed
        (record { id = o.id; tx_hash = tx_hash; block_number = 0; gas_used = 0; amount_out = none })
  pure (result o (some tx_hash) MonitorStatus.executed none false)
apply o (dropped_not_executed tx_hash) = do
  _ ← mark_failed (record {
    id = o.id;
    error_message = text "transaction dropped from mempool; execution did not occur";
    tx_hash = some tx_hash;
    block_number = none;
    gas_used = none;
  })
  pure (result o (some tx_hash) MonitorStatus.failed none false)
apply o (rpc_error tx_hash error) =
    pure (result o (some tx_hash) MonitorStatus.unknown (some error) true)

module _ (monitor : Hex → Hex → ℕ → M TransactionOutcome) where
  -- `!order.txHash || !order.submittedAt`
  unfoldable pub check_submitted : Order → Option Hex → Option ℕ → M MonitorResult
  unfolding resolve_never_submitted
  check_submitted o none at = resolve_never_submitted o
  check_submitted o (some h) none = resolve_never_submitted o
  check_submitted o (some h) (some at) = do
    increment_monitor_attempts o.id
    outcome ← monitor h o.execution_id at
    apply o outcome

  unfoldable pub check_found : OrderId → Option Order → M MonitorResult
  unfolding check_submitted
  check_found id none = pure (record {
    order_id = id;
    execution_id = none;
    tx_hash = none;
    status = MonitorStatus.skipped;
    error = some (text "order not found");
    requeue = false;
  })
  check_found id (some o) =
      if same_status o.status executing
      then check_submitted o o.tx_hash o.submitted_at
      else pure (result o o.tx_hash MonitorStatus.skipped none false)

  unfoldable pub check : OrderId → M MonitorResult
  unfolding check_found
  check id = do o ← find_by_id id; check_found id o

  pub check_each : List Order → M (List MonitorResult)
  check_each [] = pure []
  check_each (o ∷ os) = do r ← check o.id; rs ← check_each os; pure (r ∷ rs)

  pub sweep_stuck : ℕ → ℕ → M (List MonitorResult)
  sweep_stuck older_than_ms limit = do
    stuck ← find_stuck_executing older_than_ms limit
    check_each stuck
