-- ===== src/Execution/Stages.antt =====
-- How far the execution of an order has come, and what it leaves behind: the stages of
-- apps/worker/src/execution/execution.service.ts.
use synthetic_order_executor.Base.{
  ℕ, Bool, true, false, Option, none, some, List, [], ◌∷◌, ◌≡◌, inl, inr, refl, Bool-cases, ==_self,
}
use synthetic_order_executor.Order.{
  OrderId, Hex, Order, Status, triggered, executing, executed, failed,
}
use synthetic_order_executor.Effects.{
  Env, Table, Call, changed, recorded, broadcast, sent_to_monitor,
}
use synthetic_order_executor.Repository.{
  transition_stmt, transition_row, record_hash_stmt, record_hash_row, TransitionParams, update_many,
  update_row, transition_matches, put,
}
use synthetic_order_executor.Contracts.{Matched}

-- How far the execution of an order has come.
pub data Stage : Type 0 where
  idle claimed : Stage
  signed sent : ℕ → Stage  -- with the raw transaction

abbrev pub is_unsigned : Stage → Bool
is_unsigned idle = true
is_unsigned claimed = true
is_unsigned _ = false

-- What has been done at a stage: the claim, the hash of just the transaction that is sent, the
-- broadcast.
abbrev pub done_at : (ℕ → Hex) → OrderId → List Call → Stage → List Call
done_at hash id before idle = before
done_at hash id before claimed = changed id triggered executing ∷ before
done_at hash id before (signed raw) =
    recorded id (hash raw) ∷ changed id triggered executing ∷ before
done_at hash id before (sent raw) =
    broadcast raw ∷ recorded id (hash raw) ∷ changed id triggered executing ∷ before

-- How an execution may end: it stops at a stage, the monitor takes over at a stage, the order turns
-- out to have been executed before, or it is marked as failed at a stage where nothing is signed.
pub data Ending (hash : ℕ → Hex) (id : OrderId) (before : List Call) : List Call → Type 0 where
  stopped : (s : Stage) → Ending hash id before (done_at hash id before s)
  handed : (s : Stage) → Ending hash id before (sent_to_monitor id ∷ done_at hash id before s)
  settled : Ending hash id before (changed id triggered executed ∷ before)
  gave_up :
      (s : Stage) (from : Status)
      → is_unsigned s ≡ true
      → Ending hash id before (changed id from failed ∷ done_at hash id before s)

-- Other processes leave the status and the hash of an order alone while it is EXECUTING.
pub record LeavesExecuting (env : Env) : Type 0 where
  pub left :
      (n : ℕ) (t : Table) (id : OrderId) (r : Order)
      → t id ≡ some r
      → r.status ≡ executing
      → (r' : Order) × (env.others n t id ≡ some r')
        × (r'.status ≡ executing)
        × (r'.tx_hash ≡ r.tx_hash)

module _ (p : TransitionParams) (now : ℕ) (t : Table) where
  -- The row that a claim has matched.
  pub claimed_row :
      p.next_status ≡ executing
      → Matched
          (λ t' l. Unit)
          (λ t' l. (r : Order) × (t' p.id ≡ some r) × (r.status ≡ executing))
          (changed p.id p.expected_status p.next_status)
          []
          (transition_stmt p now t)
  unfolding transition_stmt update_many transition_row
  claimed_row next = go (t p.id)
    where
      go :
          (a : Option Order)
          → Matched
              (λ t' l. Unit)
              (λ t' l. (r : Order) × (t' p.id ≡ some r) × (r.status ≡ executing))
              (changed p.id p.expected_status p.next_status)
              []
              (update_row t p.id (transition_matches p) (transition_row p now) a)
      go none = tt
      go (some o) = elim (Bool-cases (transition_matches p o)) [
        | inl e ↦ rw e (transition_row p now o, rw (==_self p.id) refl, next)
        | inr e ↦ rw e tt
      ]

-- The hash of an order that is EXECUTING is recorded.
pub recorded_row :
    (id : OrderId) (hash : Hex) (now : ℕ) (t : Table) (r : Order)
    → t id ≡ some r
    → r.status ≡ executing
    → record_hash_stmt id hash now t ≡ (put t id (record_hash_row hash now r), 1)
unfolding record_hash_stmt update_many
recorded_row id hash now t r found status = rw found (rw status refl)
