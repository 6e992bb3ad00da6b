-- ===== src/Reconciler/Isolation.antt =====
-- How a failing pass of apps/worker/src/reconcile/reconciler.service.ts affects the others.
use synthetic_order_executor.Base.{[], ◌∷◌, ◌++◌, ◌≡◌, refl, Text, text}
use synthetic_order_executor.Order.{OrderId}
use synthetic_order_executor.TxMonitor.{MonitorResult}
use synthetic_order_executor.Report.{empty_report}
use synthetic_order_executor.Effects.{M, Env, World, Outcome, done, threw, ◌>>=◌, try, recover}
use synthetic_order_executor.Reconciler.{
  ReconcilerOptions, safely, run, modify_report, sweep_stuck_executing, backfill_from_logs,
  audit_failed, audit_executed,
}

-- The world after a pass that is run safely: that of the pass, with the error in the report if it threw.
abbrev pub after_pass : Text → Outcome (Unit {0}) × World → World
after_pass name (done u, w) = w
after_pass name (threw e, w) = record w {
  report = record w.report { errors = w.report.errors ++ (name ++ (text ": " ++ e.message)) ∷ [] };
}

safely-eq :
    (name : Text) (pass : M (Unit {0})) (env : Env) (w : World)
    → safely name pass env w ≡ (done tt, after_pass name (pass env w))
unfolding safely try modify_report
safely-eq name pass env w = go (pass env w)
  where
    go :
        (r : Outcome (Unit {0}) × World)
        → recover
            (λ e.
              modify_report
                (λ r. record r { errors = r.errors ++ (name ++ (text ": " ++ e.message)) ∷ [] }))
            env
            r
          ≡ (done tt, after_pass name r)
    go (done u, w') = refl
    go (threw e, w') = refl

-- A run of the reconciler always returns. Its four passes all run, each in the world that the one
-- before left, whether or not that one threw; the report starts empty and has the message of every
-- pass that threw.
pub run-eq :
    (check : OrderId → M MonitorResult) (options : ReconcilerOptions) (env : Env) (w : World)
    → let start : World = record w { report = empty_report } in
      let swept : World =
        after_pass (text "sweepStuckExecuting") (sweep_stuck_executing check options env start) in
      let filled : World =
        after_pass (text "backfillFromLogs") (backfill_from_logs options env swept) in
      let audited : World = after_pass (text "auditFailed") (audit_failed options env filled) in
      run check options env w
      ≡ (done tt, after_pass (text "auditExecuted") (audit_executed options env audited))
unfolding run ◌>>=◌ modify_report
run-eq check options env w =
    rw (safely-eq _ _ env _)
      (rw (safely-eq _ _ env _) (rw (safely-eq _ _ env _) (safely-eq _ _ env _)))
