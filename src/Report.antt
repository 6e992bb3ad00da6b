-- ===== src/Report.antt =====
-- The report that a pass of apps/worker/src/reconcile/reconciler.service.ts fills in.
use synthetic_order_executor.Base.{ℕ, Option, none, List, [], Text}

pub record ReconcileReport : Type 0 where
  pub stuck_checked : ℕ
  pub stuck_resolved : ℕ
  pub logs_scanned : ℕ
  pub backfilled : ℕ
  pub failed_but_executed : ℕ
  pub executed_without_evidence : ℕ
  pub from_block : Option ℕ
  pub to_block : Option ℕ
  pub errors : List Text

unfoldable pub empty_report : ReconcileReport
empty_report = record {
  stuck_checked = 0;
  stuck_resolved = 0;
  logs_scanned = 0;
  backfilled = 0;
  failed_but_executed = 0;
  executed_without_evidence = 0;
  from_block = none;
  to_block = none;
  errors = [];
}
