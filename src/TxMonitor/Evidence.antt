-- ===== src/TxMonitor/Evidence.antt =====
-- What one check of apps/worker/src/monitor/txMonitor.service.ts, over the classification of
-- packages/chain/src/monitor/transactionMonitor.ts, may change, and on which evidence.
use mathlib.Core.Path.{subst}
use synthetic_order_executor.Base.{
  ℕ, Option, none, some, List, ◌∷◌, ◌≡◌, refl, text, ap, arith, ◌⊎◌, inl, inr, Bool-cases,
}
use synthetic_order_executor.Order.{OrderId, Hex, Address, Order, executing, failed, same_status}
use synthetic_order_executor.Chain.Outcome.{TransactionOutcome}
use synthetic_order_executor.Chain.Monitor.{get_outcome}
use synthetic_order_executor.Chain.Monitor.Evidence.{get_outcome_reads}
use synthetic_order_executor.Effects.{Env, World, Outcome, done, Call, changed, ◌>>=◌, pure}
use synthetic_order_executor.Effects.Rules.{bind-elim, then_pure-world}
use synthetic_order_executor.Repository.{
  find_by_id, increment_monitor_attempts, mark_failed, FailParams,
}
use synthetic_order_executor.Repository.Effects.{
  mark_failed-calls, find_by_id-reads, increment-calls,
}
use synthetic_order_executor.TxMonitor.{
  check, MonitorResult, apply, check_found, check_submitted, resolve_never_submitted,
}
use synthetic_order_executor.TxMonitor.Decisions.{apply-Changes, Changes, fails, confirms}

-- An order with no hash or no time of submission on record.
abbrev pub Unrecorded : Order → Type 0
Unrecorded o = (o.tx_hash ≡ none) ⊎ (o.submitted_at ≡ none)

module _ (executor : Address) (grace : ℕ) (env : Env) where
  -- A classification of the transaction of the order came out as `oc`.
  abbrev pub Classified : Order → TransactionOutcome → Type 0
  Classified o oc =
      (h : Hex) × (at : ℕ) × (w₁ : World) × (w₂ : World) × (o.tx_hash ≡ some h)
      × (o.submitted_at ≡ some at)
      × (get_outcome executor grace h o.execution_id at env w₁ ≡ (done oc, w₂))

  abbrev pub Settles : Order → List Call → List Call → Type 0
  Settles o before after =
      (after ≡ before)
      ⊎ ((Unrecorded o × (after ≡ changed o.id executing failed ∷ before))
          ⊎ ((oc : TransactionOutcome) × Classified o oc
              × Changes o.id (fails oc) (confirms oc) before after))

  unrecorded :
      (o : Order) (w : World)
      → Unrecorded o
      → Settles o w.calls (resolve_never_submitted o env w).1.calls
  unfolding resolve_never_submitted
  unrecorded o w h = with_result _ (mark_failed-calls p env w)
    where
      p : FailParams
      p = record {
        id = o.id;
        error_message = text "no transaction recorded: process died before signing";
        tx_hash = none;
        block_number = none;
        gas_used = none;
      }

      with_result :
          (b : MonitorResult)
          → (let after = (mark_failed p env w).1.calls in
              (after ≡ w.calls) ⊎ (after ≡ changed o.id executing failed ∷ w.calls))
          → Settles o w.calls ((mark_failed p >>= λ _. pure b) env w).1.calls
      with_result b (inl e) = rw (then_pure-world (mark_failed p) b env w) (inl e)
      with_result b (inr e) = rw (then_pure-world (mark_failed p) b env w) (inr (inl (h, e)))

  -- After a classification.
  classified :
      (o : Order) (h : Hex) (at : ℕ) (w : World)
      → o.tx_hash ≡ some h
      → o.submitted_at ≡ some at
      → Settles o w.calls
          ((get_outcome executor grace h o.execution_id at >>= apply o) env w).1.calls
  classified o h at w has_hash has_time =
      bind-elim (λ (r : Outcome MonitorResult × World). Settles o w.calls r.1.calls)
        (get_outcome executor grace h o.execution_id at) (apply o) env w
        (λ oc w₁ e.
          let same : w₁.calls ≡ w.calls = rw e at reads in
          inr (
            inr (
              oc,
              (h, at, w, w₁, has_hash, has_time, e),
              subst
                  (λ (l : List Call).
                    Changes o.id (fails oc) (confirms oc) l (apply o oc env w₁).1.calls)
                  same (apply-Changes o oc env w₁),
            )))
        (λ f w₁ e. inl (rw e at reads))
    where
      reads : (get_outcome executor grace h o.execution_id at env w).1.calls ≡ w.calls
      reads = (get_outcome_reads env executor grace h o.execution_id at w).5

  -- An order that is EXECUTING.
  submitted :
      (o : Order) (tx : Option Hex) (time : Option ℕ) (w : World)
      → o.tx_hash ≡ tx
      → o.submitted_at ≡ time
      → Settles o w.calls (check_submitted (get_outcome executor grace) o tx time env w).1.calls
  unfolding check_submitted
  submitted o none time w e f = unrecorded o w (inl e)
  submitted o (some h) none w e f = unrecorded o w (inr f)
  submitted o (some h) (some at) w e f =
      bind-elim K (increment_monitor_attempts o.id) _ env w
        (λ u w₁ g.
          subst
            (λ (l : List Call).
              Settles o l
                ((get_outcome executor grace h o.execution_id at >>= apply o) env w₁).1.calls)
            (rw g at polls) (classified o h at w₁ e f))
        (λ x w₁ g. inl (rw g at polls))
    where
      K : Outcome MonitorResult × World → Type 0
      K r = Settles o w.calls r.1.calls

      polls : (increment_monitor_attempts o.id env w).1.calls ≡ w.calls
      polls = increment-calls o.id env w

  abbrev pub Checked : World → OrderId → List Call → Type 0
  Checked w id after =
      (after ≡ w.calls)
      ⊎ ((o : Order) × (env.others w.tick w.orders id ≡ some o)
          × (o.status ≡ executing)
          × Settles o w.calls after)

  found_row :
      (id : OrderId) (w w₁ : World) (found : Option Order)
      → w₁.calls ≡ w.calls
      → env.others w.tick w.orders id ≡ found
      → Checked w id (check_found (get_outcome executor grace) id found env w₁).1.calls
  unfolding check_found pure
  found_row id w w₁ none same read = inl same
  found_row id w w₁ (some o) same read = elim (Bool-cases (same_status o.status executing)) [
    | inl e ↦ rw e (
        inr (
          o,
          read,
          ground arith,
          subst
              (λ (l : List Call).
                Settles o l
                  (check_submitted (get_outcome executor grace) o o.tx_hash o.submitted_at env
                    w₁).1.calls)
              same (submitted o o.tx_hash o.submitted_at w₁ refl refl),
        ))
    | inr e ↦ rw e (inl same)
  ]

  -- One check changes no status unless it has read the order as EXECUTING, and then the row goes only
  -- from EXECUTING: to FAILED where the order as read has no hash or no time of submission on record
  -- or the classification of its own transaction came out as reverted or dropped, to EXECUTED where
  -- that came out as successful or as executed though dropped. This holds whatever the node, the
  -- database and other processes do.
  pub check-Settles :
      (id : OrderId) (w : World)
      → Checked w id (check (get_outcome executor grace) id env w).1.calls
  unfolding check
  check-Settles id w =
      let reads = find_by_id-reads id env w in
      bind-elim (λ (r : Outcome MonitorResult × World). Checked w id r.1.calls) (find_by_id id)
        (check_found (get_outcome executor grace) id) env w
        (λ found w₁ e.
          found_row id w w₁ found (rw e at reads.0)
            (reads.1 found (ap (λ (r : Outcome (Option Order) × World). r.0) e)))
        (λ f w₁ e. inl (rw e at reads.0))
