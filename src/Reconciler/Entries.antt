-- ===== src/Reconciler/Entries.antt =====
-- What apps/worker/src/reconcile/reconciler.service.ts writes to its log, and the corrections it asks
-- for.
use synthetic_order_executor.Base.{none, some, ◌++◌, Text, text, number_text, or_else}
use synthetic_order_executor.Order.{status_text, Order, failed}
use synthetic_order_executor.Chain.{SwapExecutedLog}
use synthetic_order_executor.TxMonitor.{MonitorResult, MonitorStatus}
use synthetic_order_executor.Effects.{
  LogEntry, LogKind, stuck_executing, log_backfill, executed_no_evidence,
}
use synthetic_order_executor.Repository.{ForceParams}

abbrev pub monitor_text : MonitorStatus → Text
monitor_text MonitorStatus.executed = text "EXECUTED"
monitor_text MonitorStatus.failed = text "FAILED"
monitor_text MonitorStatus.pending = text "PENDING"
monitor_text MonitorStatus.unknown = text "UNKNOWN"
monitor_text MonitorStatus.skipped = text "SKIPPED"

unfoldable pub stuck_entry : Order → MonitorResult → LogEntry
stuck_entry o result = record {
  order_id = some o.id;
  kind = stuck_executing;
  discrepancy =
      text "order stuck in EXECUTING since "
      ++ elim o.submitted_at [ none ↦ text "unknown" | some at ↦ number_text at ];
  resolution = text "resolved to " ++ (monitor_text result.status ++ text " from chain state");
  tx_hash = result.tx_hash;
  block_number = none;
}

unfoldable pub unknown_entry : SwapExecutedLog → LogEntry
unknown_entry swap = record {
  order_id = none;
  kind = log_backfill;
  discrepancy = text "SwapExecuted for unknown executionId " ++ number_text swap.execution_id;
  resolution = text "logged only; no order row exists to update";
  tx_hash = some swap.tx_hash;
  block_number = some swap.block_number;
}

unfoldable pub backfill_entry : Order → SwapExecutedLog → LogEntry
unfolding status_text
backfill_entry o swap = record {
  order_id = some o.id;
  kind = log_backfill;
  discrepancy =
      text "database said " ++ (status_text o.status ++ text ", chain emitted SwapExecuted");
  resolution = text "corrected to EXECUTED from log evidence";
  tx_hash = some swap.tx_hash;
  block_number = some swap.block_number;
}

unfoldable pub log_force : Order → SwapExecutedLog → ForceParams
log_force o swap = record {
  id = o.id;
  expected_status = o.status;
  tx_hash = some swap.tx_hash;
  block_number = some swap.block_number;
  amount_out = some swap.amount_out;
  note = text "reconciled from SwapExecuted log at block " ++ number_text swap.block_number;
}

unfoldable pub failed_force : Order → ForceParams
failed_force o = record {
  id = o.id;
  expected_status = failed;
  tx_hash = none;
  block_number = none;
  amount_out = none;
  note = text "reconciled: executionId consumed on-chain despite FAILED status";
}

unfoldable pub failed_entry : Order → LogEntry
failed_entry o = record {
  order_id = some o.id;
  kind = LogKind.failed_but_executed;
  discrepancy =
      text "database said FAILED ("
      ++ (or_else o.error_message (text "no reason")
          ++ text "), but executionId is consumed on-chain");
  resolution = text "corrected to EXECUTED; chain is authoritative";
  tx_hash = o.tx_hash;
  block_number = none;
}

unfoldable pub no_evidence_entry : Order → LogEntry
no_evidence_entry o = record {
  order_id = some o.id;
  kind = executed_no_evidence;
  discrepancy = text "database says EXECUTED but executionId is NOT consumed on-chain";
  resolution = text "logged for investigation; NOT auto-corrected (re-execution risk)";
  tx_hash = o.tx_hash;
  block_number = none;
}
