-- ===== src/Reconciler.antt =====
-- apps/worker/src/reconcile/reconciler.service.ts: the four passes that compare the database with the
-- chain. The constructor's monitor is the argument `check`; logging is left out. Ledger.antt has the
-- repository that keeps the checkpoint and the log, Entries.antt what is written to the log.
pub mod Checkpoint
pub mod Corrections
pub mod Isolation
pub mod CatchUp
mod Ledger
unfoldable pub use Ledger.{
  default_options, get_checkpoint, write_checkpoint, set_checkpoint, log, recent_logs, max_big_int,
  min_big_int,
}
pub use Ledger.*
mod Entries
unfoldable pub use Entries.{
  stuck_entry, unknown_entry, backfill_entry, log_force, failed_force, failed_entry,
  no_evidence_entry,
}
use synthetic_order_executor.Base.{
  ℕ, zero, suc, ◌+◌, ◌-◌, Bool, true, false, not, ◌&&◌, ◌||◌, Option, none, some, List, [], ◌∷◌,
  ◌++◌, Text, text, number_text, take, length, leb, ltb, is_some, if◌then◌else◌, or_else,
}
use synthetic_order_executor.Order.{
  OrderId, Hex, Order, Status, pending, triggered, executing, executed, failed, cancelled,
  same_status,
}
use synthetic_order_executor.Chain.{SwapExecutedLog}
use synthetic_order_executor.TxMonitor.{MonitorResult, MonitorStatus}
use synthetic_order_executor.Report.{ReconcileReport, empty_report}
use synthetic_order_executor.Effects.{
  M, Env, World, Outcome, done, threw, Failure, LogEntry, LogKind, stuck_executing, log_backfill,
  executed_no_evidence, pure, ◌>>=◌, ◌>>◌, try, ask,
}
use synthetic_order_executor.Repository.{
  ForceParams, find_stuck_executing, find_many_by_status, find_by_execution_id,
  force_executed_from_reconciliation,
}

-- `result.status === 'EXECUTED' || result.status === 'FAILED'`
abbrev resolved : MonitorStatus → Bool
resolved MonitorStatus.executed = true
resolved MonitorStatus.failed = true
resolved _ = false

-- The range of blocks that a pass scans: from the checkpoint less the buffer, or, without a
-- checkpoint, the last `max_block_range` blocks. A difference below 0 is raised to 0.
unfoldable pub scan_from : ReconcilerOptions → Option ℕ → ℕ → ℕ
unfolding max_big_int
scan_from options none head = max_big_int 0 (head - options.max_block_range)
scan_from options (some c) head = max_big_int 0 (c - options.reorg_buffer_blocks)

unfoldable pub scan_to : ReconcilerOptions → Option ℕ → ℕ → ℕ
unfolding scan_from min_big_int
scan_to options c head = min_big_int head (scan_from options c head + options.max_block_range)

-- The passes write to the report as they go, so a pass that throws leaves what it has counted.
unfoldable pub modify_report : (ReconcileReport → ReconcileReport) → M (Unit {0})
modify_report f env w = (done tt, record w { report = f w.report })

module _ (check : OrderId → M MonitorResult) where
  -- Pass 1, for one order. The time stamp in the message is a number of milliseconds.
  unfoldable pub sweep_one : Order → M (Unit {0})
  sweep_one o = do
    result ← check o.id
    if resolved result.status
        then (do
          modify_report (λ r. record r { stuck_resolved = r.stuck_resolved + 1 })
          log (stuck_entry o result))
        else pure tt

  unfoldable pub sweep_each : List Order → M (Unit {0})
  sweep_each [] = pure tt
  sweep_each (o ∷ os) = do sweep_one o; sweep_each os

  unfoldable pub sweep_stuck_executing : ReconcilerOptions → M (Unit {0})
  sweep_stuck_executing options = do
    stuck ← find_stuck_executing options.stuck_after_ms options.audit_limit
    modify_report (λ r. record r { stuck_checked = length stuck })
    sweep_each stuck

abbrev pub backfill_corrected : Order → SwapExecutedLog → Option Order → M Bool
backfill_corrected o swap none = pure false
backfill_corrected o swap (some corrected) = log (backfill_entry o swap) >> pure true

abbrev pub apply_found : SwapExecutedLog → Option Order → M Bool
apply_found swap none = log (unknown_entry swap) >> pure false
apply_found swap (some o) =
    if same_status o.status executed
    then pure false
    else (force_executed_from_reconciliation (log_force o swap) >>= backfill_corrected o swap)

-- Pass 2, for one log. Whether it corrected an order.
unfoldable pub apply_log : SwapExecutedLog → M Bool
apply_log swap = find_by_execution_id swap.execution_id >>= apply_found swap

unfoldable pub apply_logs : List SwapExecutedLog → M (Unit {0})
apply_logs [] = pure tt
apply_logs (swap ∷ swaps) = do
  corrected ← apply_log swap
  modify_report (λ r. if corrected then record r { backfilled = r.backfilled + 1 } else r)
  apply_logs swaps

unfoldable pub scan : ℕ → ℕ → M (Unit {0})
scan from to = do
  swaps ← ask (λ env tick. env.get_logs tick from to)
  modify_report
      (λ r. record r { logs_scanned = length swaps; from_block = some from; to_block = some to })
  apply_logs swaps
  set_checkpoint to

unfoldable pub backfill_from_logs : ReconcilerOptions → M (Unit {0})
unfolding scan
backfill_from_logs options = do
  head ← ask (λ env tick. env.get_block_number tick)
  checkpoint ← get_checkpoint
  let from = scan_from options checkpoint head
  let to = scan_to options checkpoint head
  if ltb to from then pure tt else scan from to

abbrev pub failed_corrected : Order → Option Order → M (Unit {0})
failed_corrected o none = pure tt
failed_corrected o (some corrected) = do
  modify_report (λ r. record r { failed_but_executed = r.failed_but_executed + 1 })
  log (failed_entry o)

-- Pass 3, for one order that is FAILED.
unfoldable pub audit_failed_one : Order → M (Unit {0})
audit_failed_one o = if not (is_some o.tx_hash) && not (is_some o.submitted_at) then pure tt else do
  consumed ← ask (λ env tick. env.is_executed tick o.execution_id)
  if consumed
      then (force_executed_from_reconciliation (failed_force o) >>= failed_corrected o)
      else pure tt

unfoldable pub audit_failed_each : List Order → M (Unit {0})
audit_failed_each [] = pure tt
audit_failed_each (o ∷ os) = do audit_failed_one o; audit_failed_each os

unfoldable pub audit_failed : ReconcilerOptions → M (Unit {0})
audit_failed options = do
  rows ← find_many_by_status failed options.audit_limit
  audit_failed_each rows

-- Pass 4, for one order that is EXECUTED.
unfoldable pub audit_executed_one : Order → M (Unit {0})
audit_executed_one o = do
  consumed ← ask (λ env tick. env.is_executed tick o.execution_id)
  if consumed then pure tt else do
    modify_report (λ r. record r { executed_without_evidence = r.executed_without_evidence + 1 })
    log (no_evidence_entry o)

unfoldable pub audit_executed_each : List Order → M (Unit {0})
audit_executed_each [] = pure tt
audit_executed_each (o ∷ os) = do audit_executed_one o; audit_executed_each os

unfoldable pub audit_executed : ReconcilerOptions → M (Unit {0})
audit_executed options = do
  rows ← find_many_by_status executed options.audit_limit
  audit_executed_each rows

-- One pass failing does not stop the others.
unfoldable pub safely : Text → M (Unit {0}) → M (Unit {0})
safely name pass = try pass λ e.
    modify_report (λ r. record r { errors = r.errors ++ (name ++ (text ": " ++ e.message)) ∷ [] })

unfoldable pub run : (OrderId → M MonitorResult) → ReconcilerOptions → M (Unit {0})
run check options = do
  modify_report (λ r. empty_report)
  safely (text "sweepStuckExecuting") (sweep_stuck_executing check options)
  safely (text "backfillFromLogs") (backfill_from_logs options)
  safely (text "auditFailed") (audit_failed options)
  safely (text "auditExecuted") (audit_executed options)
