-- ===== src/Chain/Monitor/Evidence.antt =====
-- What each outcome of packages/chain/src/monitor/transactionMonitor.ts is evidence of.
use synthetic_order_executor.Base.{
  ℕ, suc, ◌+◌, ◌≤◌, Bool, true, false, Option, none, some, ◌≡◌, arith, ◌↔◌,
}
use synthetic_order_executor.Order.{Hex, Address}
use synthetic_order_executor.Chain.Outcome.{
  TransactionOutcome, dropped_but_executed, is_safe_to_resubmit,
}
use synthetic_order_executor.Chain.Monitor.{get_outcome, is_not_found}
use synthetic_order_executor.Effects.{
  Env, World, Outcome, done, threw, is_done, ◌>>=◌, try, ask, current_time, environment,
}

-- A reply that says that the node does not know the transaction.
abbrev pub absent {ℓ} : {A : Type ℓ} → Outcome A → Bool
absent (done a) = false
absent (threw e) = is_not_found e

abbrev pub safe_outcome : Outcome TransactionOutcome → Bool
safe_outcome (done o) = is_safe_to_resubmit o
safe_outcome (threw e) = false

abbrev pub executed_unseen : Outcome TransactionOutcome → Bool
executed_unseen (done (dropped_but_executed h)) = true
executed_unseen _ = false

abbrev pub replied {ℓ} : {A : Type ℓ} → Outcome A → Option A
replied (done a) = some a
replied (threw e) = none

module _ (env : Env) (executor : Address) (grace : ℕ) (tx : Hex) (eid : Hex) (at : ℕ)
    (w : World) where
  -- Neither the receipt nor the transaction is known to the node, and the grace period is over.
  abbrev pub Gone : Type 0
  Gone =
      (absent (env.get_receipt w.tick tx) ≡ true)
      × (absent (env.get_transaction (suc w.tick) tx) ≡ true)
      × (at + grace ≤ env.now (suc w.tick))

  -- Whatever the node and the contract answer, a classification returns an outcome, and it changes
  -- neither the table of orders, nor the checkpoint, nor anything outside.
  pub get_outcome_reads :
      let (r, w') = get_outcome executor grace tx eid at env w in
      (is_done r ≡ true)
      × (w'.orders ≡ w.orders)
      × (w'.checkpoint ≡ w.checkpoint)
      × (w'.logs ≡ w.logs)
      × (w'.report ≡ w.report)
      × (w'.calls ≡ w.calls)
  unfolding get_outcome ◌>>=◌ try ask current_time environment
  get_outcome_reads = ground arith

  -- A classification says that a fresh submission is safe exactly if the transaction is gone for
  -- the node and the contract answers that the execution has not happened. It says
  -- `DROPPED_BUT_EXECUTED` exactly if the transaction is gone and the contract answers that the
  -- execution has happened.
  pub dropped_evidence :
      let r = (get_outcome executor grace tx eid at env w).0 in
      ((safe_outcome r ≡ true)
        ↔ (Gone × (replied (env.is_executed (suc (suc w.tick)) eid) ≡ some false)))
      × ((executed_unseen r ≡ true)
          ↔ (Gone × (replied (env.is_executed (suc (suc w.tick)) eid) ≡ some true)))
  unfolding get_outcome ◌>>=◌ try ask current_time environment is_safe_to_resubmit
  dropped_evidence =
      ((λ h. ground arith, λ h. ground arith), (λ h. ground arith, λ h. ground arith))
