-- ===== src/TxMonitor/Decisions.antt =====
-- When the monitor of apps/worker/src/monitor/txMonitor.service.ts gives up on an order.
use synthetic_order_executor.Base.{Bool, true, false, List, ◌∷◌, ◌≡◌, refl, arith, inl, ◌⊎◌}
use synthetic_order_executor.Order.{OrderId, Order, executing, executed, failed}
use synthetic_order_executor.Chain.Outcome.{
  TransactionOutcome, success, reverted, dropped_not_executed, dropped_but_executed, rpc_error,
  should_keep_polling,
}
use synthetic_order_executor.TxMonitor.{MonitorResult, apply}
use synthetic_order_executor.Effects.{M, Env, World, done, Call, changed, ◌>>=◌, pure}
use synthetic_order_executor.Effects.Rules.{then_pure-world}
use synthetic_order_executor.Repository.Effects.{mark_confirmed-calls, mark_failed-calls}

-- An outcome that leaves the question open changes nothing at all, and asks for another check.
pub open_outcome_waits :
    (o : Order) (oc : TransactionOutcome) (env : Env) (w : World)
    → should_keep_polling oc ≡ true
    → (r : MonitorResult) × (apply o oc env w ≡ (done r, w)) × (r.requeue ≡ true)
unfolding apply should_keep_polling ◌>>=◌
open_outcome_waits o (TransactionOutcome.pending h age) env w k = (_, refl, refl)
open_outcome_waits o (rpc_error h e) env w k = (_, refl, refl)
open_outcome_waits o (success h b g a) env w k = cc
open_outcome_waits o (reverted h b g r) env w k = cc
open_outcome_waits o (dropped_not_executed h) env w k = cc
open_outcome_waits o (dropped_but_executed h) env w k = cc

-- The outcomes on which the monitor fails, and on which it confirms, an order.
abbrev pub fails : TransactionOutcome → Bool
fails (reverted h b g r) = true
fails (dropped_not_executed h) = true
fails _ = false

abbrev pub confirms : TransactionOutcome → Bool
confirms (success h b g a) = true
confirms (dropped_but_executed h) = true
confirms _ = false

-- How a run that starts at `before` may have changed the status of an order.
abbrev pub Changes : OrderId → Bool → Bool → List Call → List Call → Type 0
Changes id may_fail may_confirm before after =
    (after ≡ before)
    ⊎ (may_fail ≡ true) × (after ≡ changed id executing failed ∷ before)
    ⊎ (may_confirm ≡ true) × (after ≡ changed id executing executed ∷ before)

confirm_case :
    (id : OrderId) (before after : List Call)
    → (after ≡ before) ⊎ (after ≡ changed id executing executed ∷ before)
    → Changes id false true before after
confirm_case id before after h = ground arith

fail_case :
    (id : OrderId) (before after : List Call)
    → (after ≡ before) ⊎ (after ≡ changed id executing failed ∷ before)
    → Changes id true false before after
fail_case id before after h = ground arith

then_pure-Changes :
    {A : Type 0} (m : M A) (r : MonitorResult) (id : OrderId) (may_fail may_confirm : Bool)
    (env : Env) (w : World)
    → Changes id may_fail may_confirm w.calls (m env w).1.calls
    → Changes id may_fail may_confirm w.calls ((m >>= λ _. pure r) env w).1.calls
then_pure-Changes m r id f c env w h = rw (then_pure-world m r env w) h

-- Whatever other processes and faults of the database intervene, applying an outcome changes no
-- status but from `EXECUTING`, to `FAILED` only on a revert or a drop that the contract confirms,
-- and to `EXECUTED` only on a receipt of success or an execution that the contract confirms.
pub apply-Changes :
    (o : Order) (oc : TransactionOutcome) (env : Env) (w : World)
    → Changes o.id (fails oc) (confirms oc) w.calls (apply o oc env w).1.calls
unfolding apply
apply-Changes o (success h b g a) env w =
    then_pure-Changes _ _ o.id _ _ env w (confirm_case _ _ _ (mark_confirmed-calls _ env w))
apply-Changes o (dropped_but_executed h) env w =
    then_pure-Changes _ _ o.id _ _ env w (confirm_case _ _ _ (mark_confirmed-calls _ env w))
apply-Changes o (reverted h b g r) env w =
    then_pure-Changes _ _ o.id _ _ env w (fail_case _ _ _ (mark_failed-calls _ env w))
apply-Changes o (dropped_not_executed h) env w =
    then_pure-Changes _ _ o.id _ _ env w (fail_case _ _ _ (mark_failed-calls _ env w))
apply-Changes o (TransactionOutcome.pending h a) env w = inl (unfold ◌>>=◌ in refl)
apply-Changes o (rpc_error h e) env w = inl (unfold ◌>>=◌ in refl)
