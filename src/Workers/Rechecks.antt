-- ===== src/Workers/Rechecks.antt =====
-- The jobs of apps/worker/src/workers/txMonitor.worker.ts: which orders stay watched, and the ids of
-- the jobs.
use synthetic_order_executor.Base.{
  ℕ, Bool, true, false, Bool-cases, Option, none, some, List, ◌∷◌, ◌⊎◌, inl, inr, ◌≡◌, refl, sym,
}
use synthetic_order_executor.Order.{OrderId, Hex, Order, executing, same_status}
use synthetic_order_executor.Chain.Outcome.{
  TransactionOutcome, success, reverted, dropped_not_executed, dropped_but_executed, rpc_error,
}
use synthetic_order_executor.Effects.{
  Env, World, M, Outcome, done, threw, sent_to_monitor, ◌>>=◌, enqueue, pure, Failure, continue,
}
use synthetic_order_executor.Effects.Ensures.{Ensures, IfDone, Ensures-then, Ensures-pure}
use synthetic_order_executor.TxMonitor.{
  MonitorResult, MonitorStatus, apply, check, check_found, check_submitted, resolve_never_submitted,
}
use synthetic_order_executor.Workers.{
  check_job, MonitorJobResult, swept, checked, recheck, requeue_if, monitor_job,
}

-- The transaction of the order is still open.
abbrev pub is_open : MonitorStatus → Bool
is_open MonitorStatus.pending = true
is_open MonitorStatus.unknown = true
is_open _ = false

abbrev Requeues : MonitorResult → Type 0
Requeues r = r.requeue ≡ is_open r.status

module _ {env : Env} where
  apply-Requeues : (o : Order) (oc : TransactionOutcome) → Ensures (Requeues) env (apply o oc)
  unfolding apply
  apply-Requeues o (success h b g a) = Ensures-then _ _ _ λ u. Ensures-pure _ _ refl
  apply-Requeues o (dropped_but_executed h) = Ensures-then _ _ _ λ u. Ensures-pure _ _ refl
  apply-Requeues o (reverted h b g r) = Ensures-then _ _ _ λ u. Ensures-pure _ _ refl
  apply-Requeues o (dropped_not_executed h) = Ensures-then _ _ _ λ u. Ensures-pure _ _ refl
  apply-Requeues o (TransactionOutcome.pending h a) = Ensures-pure _ _ refl
  apply-Requeues o (rpc_error h e) = Ensures-pure _ _ refl

  resolve_never_submitted-Requeues : (o : Order) → Ensures Requeues env (resolve_never_submitted o)
  unfolding resolve_never_submitted
  resolve_never_submitted-Requeues o = Ensures-then _ _ _ λ u. Ensures-pure _ _ refl

  module _ (monitor : Hex → Hex → ℕ → M TransactionOutcome) where
    check_submitted-Requeues :
        (o : Order) (h : Option Hex) (at : Option ℕ)
        → Ensures Requeues env (check_submitted monitor o h at)
    unfolding check_submitted
    check_submitted-Requeues o none at = resolve_never_submitted-Requeues o
    check_submitted-Requeues o (some h) none = resolve_never_submitted-Requeues o
    check_submitted-Requeues o (some h) (some at) =
        Ensures-then _ _ _ λ u. Ensures-then _ _ _ λ oc. apply-Requeues o oc

    check_found-Requeues :
        (id : OrderId) (o : Option Order) → Ensures Requeues env (check_found monitor id o)
    unfolding check_found
    check_found-Requeues id none = Ensures-pure _ _ refl
    check_found-Requeues id (some o) = elim (Bool-cases (same_status o.status executing)) [
      | inl yes_executing ↦ rw yes_executing (check_submitted-Requeues o o.tx_hash o.submitted_at)
      | inr settled ↦ rw settled (Ensures-pure _ _ refl)
    ]

    check-Requeues : (id : OrderId) → Ensures Requeues env (check monitor id)
    unfolding check
    check-Requeues id = Ensures-then _ _ _ λ o. check_found-Requeues id o

-- How the job of a check ends. It fails where the check failed, or where the queue refused an order
-- whose transaction is still open. Else it returns the result of the check, and the order is in the
-- queue of the monitor again exactly if its transaction is still open.
abbrev pub Watched :
    (OrderId → M MonitorResult) → OrderId → Env → World → Outcome MonitorJobResult × World → Type 0
Watched check id env w (done (swept rs), w') = ⊥
Watched check id env w (threw e, w') =
    (check id env w ≡ (threw e, w'))
    ⊎ ((r : MonitorResult) × (w₁ : World) × (check id env w ≡ (done r, w₁))
        × (is_open r.status ≡ true)
        × (env.queue_fault w₁.tick ≡ some e))
Watched check id env w (done (checked r), w') =
    (w₁ : World) × (check id env w ≡ (done r, w₁))
    × (((is_open r.status ≡ false) × (w'.calls ≡ w₁.calls))
        ⊎ ((is_open r.status ≡ true) × (w'.calls ≡ sent_to_monitor r.order_id ∷ w₁.calls)))

-- The check of an order keeps watching it exactly as long as its transaction is open: the job
-- returns with the order queued again, or with the order settled or skipped, or it fails, with the
-- check or because the queue refuses the order.
pub monitor_job-Watches :
    (monitor : Hex → Hex → ℕ → M TransactionOutcome) (sweep : M (List MonitorResult)) (id : OrderId)
    (env : Env) (w : World)
    → Watched (check monitor) id env w (monitor_job (check monitor) sweep (check_job id) env w)
unfolding monitor_job ◌>>=◌ pure enqueue
monitor_job-Watches monitor sweep id env w =
    go (check monitor id env w) refl ((check-Requeues monitor id).at w)
  where
    queued :
        (r : MonitorResult) (w₁ : World) (b : Bool) (fault : Option Failure)
        → check monitor id env w ≡ (done r, w₁)
        → b ≡ is_open r.status
        → env.queue_fault w₁.tick ≡ fault
        → Watched
            (check monitor)
            id
            env
            w
            (continue (λ (u : Unit {0}). pure (checked r)) env (requeue_if b r.order_id env w₁))
    queued r w₁ false fault e same f = (w₁, e, inl (sym same, refl))
    queued r w₁ true none e same f = rw f (w₁, e, inr (sym same, refl))
    queued r w₁ true (some x) e same f = rw f (inr (r, w₁, e, sym same, f))

    go :
        (p : Outcome MonitorResult × World)
        → check monitor id env w ≡ p
        → IfDone Requeues p.0
        → Watched (check monitor) id env w (continue recheck env p)
    go (threw e, w₁) h same = inl h
    go (done r, w₁) h same = queued r w₁ r.requeue _ h same refl
